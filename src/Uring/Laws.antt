-- ===== src/Uring/Laws.antt =====
-- The requests and the loop of completions of src/event/xio_uring.c.
use freehttpd.Base.{
  ℕ, zero, suc, ◌+◌, ◌≤◌, ◌<◌, ◌≡◌, ◌≢◌, refl, sym, ap, subst, inl, inr, false, List, [], ◌∷◌,
  Option, some, ◌==◌, ◌||◌, if◌then◌else◌, arith, ne→==, read_lem, Bool-cases, ◌>>=◌,
}
use freehttpd.Uring.Data.{
  OpData, Prep, Sqe, Xio, data_get, data_disown, xio_ring_buf_count, xio_max_data_freelist_count,
}
use freehttpd.Uring.Request.{Env, Code, ring_get_sqe, request_prep_common, fill, request}
use freehttpd.Uring.Wait.{
  Flags, populate_size, Cqe, Result, Waited, use_buffer, complete, wait_loop,
}
use freehttpd.Uring.Buffers.{length, used}
use freehttpd.Uring.FreeList.{IsFresh, IsLinked, IsStack, data_get_lem, data_disown_lem}

-- the free list does not see the queue of entries
IsLinked-asked :
    (xio : Xio) (entries : List Sqe) (n p : ℕ) (xs : List ℕ)
    → IsLinked xio n p xs
    → IsLinked (record xio { sqes = entries }) n p xs
unfolding IsLinked
IsLinked-asked xio entries n p [] l = l
IsLinked-asked xio entries n p (x ∷ xs) (e, (ne, (next, (fresh, rest)))) =
    (e, (ne, (next, (fresh, IsLinked-asked xio entries x (xio.prev x) xs rest))))

IsStack-asked :
    (xio : Xio) (entries : List Sqe) (xs : List ℕ)
    → IsStack xio xs
    → IsStack (record xio { sqes = entries }) xs
unfolding IsStack
IsStack-asked xio entries xs (l, c) = (IsLinked-asked xio entries 0 xio.data_tail xs l, c)

-- the newest record of a stack
stack_top : (xio : Xio) (x : ℕ) (xs : List ℕ) → IsStack xio (x ∷ xs) → (x ≢ 0) × IsFresh x xs
unfolding IsStack IsLinked
stack_top xio x xs ((e, (ne, (next, (fresh, rest)))), c) = (ne, fresh)

stack_count : (xio : Xio) (xs : List ℕ) → IsStack xio xs → xio.data_count ≡ length xs
unfolding IsStack
stack_count xio xs s = s.1

-- A request that finds no submission entry, with a record on the free list, returns EAGAIN and
-- puts the record back: the free list holds the same records in the same order.
pub request_eagain :
    (env : Env) (xio : Xio) (x : ℕ) (xs : List ℕ) (udata : ℕ) (opdata : OpData) (prep : Prep)
    (group : Option ℕ)
    → IsStack xio (x ∷ xs)
    → length xs < xio_max_data_freelist_count
    → env.get_sqe ≡ false
    → env.get_sqe_again ≡ false
    → ((request env xio udata opdata prep group).0 ≡ Code.eagain)
      × IsStack ((request env xio udata opdata prep group).1) (x ∷ xs)
unfolding request fill
request_eagain env xio x xs udata opdata prep group s room first again =
    let got = data_get_lem xio env.malloc x xs s in
    let top = stack_top xio x xs s in
    let taken = (data_get xio env.malloc).1 in
    let left = record taken { sqes = env.submit taken.sqes } in
    let asked = IsStack-asked taken (env.submit taken.sqes) xs (got.1) in
    let count = stack_count taken xs (got.1) in
    let prepared : request_prep_common env xio ≡ (Code.eagain, (0, data_disown left x)) =
      rw (request_prep_common, ring_get_sqe, got.0, ne→== x 0 (top.0), first, again) in
    let same : request env xio udata opdata prep group ≡ (Code.eagain, data_disown left x) =
      ap (λ r. fill udata opdata prep group r) prepared in
    subst (λ (r : Code × Xio). (r.0 ≡ Code.eagain) × IsStack (r.1) (x ∷ xs)) (sym same)
      (
        refl,
        data_disown_lem left x xs asked (top.0) (top.1)
            (subst (λ (c : ℕ). c < xio_max_data_freelist_count) (sym count) room),
      )

-- the completions name buffers that exist
unfoldable pub IsReal : List Cqe → Type 0
IsReal [] = Unit {0}
IsReal (cqe ∷ cqes) = cqe.flags.bid < xio_ring_buf_count × IsReal cqes

bind_total {ℓ κ} :
    {A : Type ℓ} {B : Type κ} (o : Option A) (f : A → B) (a : A)
    → o ≡ some a
    → (b : B) × ((o >>= λ c. some (f c)) ≡ some b)
bind_total o f a e = (f a, (rw (e)))

used_total :
    (xio : Xio) (flags : Flags) (size : ℕ)
    → flags.bid < xio_ring_buf_count
    → (xio' : Xio) × ((if flags.f_buffer then use_buffer xio flags size else some xio) ≡ some xio')
unfolding use_buffer
used_total xio flags size h = elim (Bool-cases flags.f_buffer) [
  | inl y ↦ (
    used xio flags size,
    (rw (
      y,
      read_lem xio.buf_refcount xio_ring_buf_count flags.bid h,
      read_lem xio.buf_offsets xio_ring_buf_count flags.bid h,
    )),
  )
  | inr y ↦ (xio, (rw (y)))
]

complete_total :
    (xio : Xio) (cqe : Cqe)
    → cqe.flags.bid < xio_ring_buf_count
    → (r : Result × Xio) × (complete xio cqe ≡ some r)
unfolding complete
complete_total xio cqe h =
    let size = populate_size (xio.records cqe.user_data).opdata cqe.res in
    let (xio', e) = used_total xio cqe.flags size h in
    bind_total (if cqe.flags.f_buffer then use_buffer xio cqe.flags size else some xio) _ xio' e

-- The loop of `fh_xio_wait` on completions that name buffers that exist returns. It fills at most
-- the places it is given, and takes at least one completion from the queue for each result, and
-- no more than are ready.
pub wait_loop_total :
    (self : ℕ) (xio : Xio) (cqes : List Cqe) (room : ℕ)
    → IsReal cqes
    → (w : Waited) × ((wait_loop self xio cqes room ≡ some w)
        × ((length w.results ≤ room)
            × ((length w.results ≤ w.count_advance) × (w.count_advance ≤ length cqes))))
unfolding wait_loop length IsReal
wait_loop_total self xio [] room h = (
  record { results = []; count_advance = 0; xio = xio },
  (refl, ((omega arith), ((omega arith), (omega arith)))),
)
wait_loop_total self xio (cqe ∷ cqes) zero h = (
  record { results = []; count_advance = 0; xio = xio },
  (refl, ((omega arith), ((omega arith), (omega arith)))),
)
wait_loop_total self xio (cqe ∷ cqes) (suc room) (h, hs) =
    elim (Bool-cases (cqe.user_data == self || cqe.user_data == 0)) [
      | inl y ↦
          (let (w, (e, (a, (b, c)))) = wait_loop_total self xio cqes (suc room) hs in
            (
              record w { count_advance = w.count_advance + 1 },
              ((rw (y, e)), (a, ((omega arith), (omega arith)))),
            ))
      | inr y ↦
          (let (r, f) = complete_total xio cqe h in
            let (w, (e, (a, (b, c)))) = wait_loop_total self (r.1) cqes room hs in
            (
              record w { results = r.0 ∷ w.results; count_advance = w.count_advance + 1 },
              ((rw (y, f, e)), ((omega arith), ((omega arith), (omega arith)))),
            ))
    ]
