-- ===== src/Xio/ResultLaws.antt =====
-- The delivery of errors by `fh_xio_wait` of src/event/xio_xpoll.c to the tasks of a descriptor.
use freehttpd.Base.{
  ℕ, zero, suc, ◌+◌, ◌≤◌, ◌<◌, ◌≡◌, ◌≢◌, refl, sym, ◌∙◌, ap, subst, false, List, [], ◌∷◌, Option,
  none, some, update, arith, lt→ltb, update_self, update_ne,
}
use freehttpd.Xio.Pool.{Pool, release, xio_xpoll_max_task_count}
use freehttpd.Xio.Prep.{Context, FdState, PrepType, prep_in, prep_out}
use freehttpd.Xio.Results.{ErrorResult, head, set_head, Drained, drain}

-- the list of tasks from `h`
unfoldable pub IsQueue : Context → Option ℕ → List ℕ → Type 0
IsQueue xio h [] = h ≡ none
IsQueue xio h (t ∷ ts) = (h ≡ some t) × IsQueue xio (xio.task_list t).next ts

unfoldable pub length : List ℕ → ℕ
length [] = 0
length (t ∷ ts) = length ts + 1

-- the error result of each task
unfoldable pub errors : Context → List ℕ → List ErrorResult
errors xio [] = []
errors xio (t ∷ ts) =
    record { op = (xio.task_list t).op; udata = (xio.task_list t).udata } ∷ errors xio ts

-- the pool after the release of each task in turn: the next free place holds its number
unfoldable pub push_all : Pool → List ℕ → Pool
push_all p [] = p
push_all p (t ∷ ts) = push_all (record { free = update p.free p.top t; top = p.top + 1 }) ts

-- the context after one round
abbrev popped : Context → ℕ → PrepType → ℕ → Context
popped xio state type t = record xio {
  fd_state_list =
      update xio.fd_state_list state
        (set_head (xio.fd_state_list state) type (xio.task_list t).next);
  task_pool = record {
    free = update xio.task_pool.free xio.task_pool.top t;
    top = xio.task_pool.top + 1;
  };
}

head-set_head : (s : FdState) (type : PrepType) (h : Option ℕ) → head (set_head s type h) type ≡ h
unfolding head set_head
head-set_head s prep_in h = refl
head-set_head s prep_out h = refl

head-popped :
    (xio : Context) (state : ℕ) (type : PrepType) (t : ℕ)
    → head ((popped xio state type t).fd_state_list state) type ≡ (xio.task_list t).next
head-popped xio state type t =
    ap (λ (s : FdState). head s type)
      (update_self xio.fd_state_list state state
        (set_head (xio.fd_state_list state) type (xio.task_list t).next) refl)
    ∙ head-set_head (xio.fd_state_list state) type (xio.task_list t).next

-- the list of tasks does not see the states and the pool
IsQueue-popped :
    (xio : Context) (state : ℕ) (type : PrepType) (t : ℕ) (h : Option ℕ) (ts : List ℕ)
    → IsQueue xio h ts
    → IsQueue (popped xio state type t) h ts
unfolding IsQueue
IsQueue-popped xio state type t h [] q = q
IsQueue-popped xio state type t h (x ∷ ts) (e, q) =
    (e, IsQueue-popped xio state type t (xio.task_list x).next ts q)

errors-popped :
    (xio : Context) (state : ℕ) (type : PrepType) (t : ℕ) (ts : List ℕ)
    → errors (popped xio state type t) ts ≡ errors xio ts
unfolding errors
errors-popped xio state type t [] = refl
errors-popped xio state type t (x ∷ ts) =
    ap (λ es. record { op = (xio.task_list x).op; udata = (xio.task_list x).udata } ∷ es)
      (errors-popped xio state type t ts)

release_room :
    (p : Pool) (t : ℕ)
    → p.top < xio_xpoll_max_task_count
    → release p t ≡ some (record { free = update p.free p.top t; top = p.top + 1 })
unfolding release
release_room p t h = rw (lt→ltb p.top xio_xpoll_max_task_count h)

-- the other list of a state
unfoldable pub opposite : PrepType → PrepType
opposite prep_in = prep_out
opposite prep_out = prep_in

opposite-set_head :
    (s : FdState) (type : PrepType) (h : Option ℕ)
    → head (set_head s type h) (opposite type) ≡ head s (opposite type)
unfolding head set_head opposite
opposite-set_head s prep_in h = refl
opposite-set_head s prep_out h = refl

-- What the loop leaves when there is room: all else is as it was.
pub record IsDrained (xio : Context) (state : ℕ) (type : PrepType) (ts : List ℕ) (d : Drained)
    : Type 0 where
  pub results : d.results ≡ errors xio ts
  pub not_full : d.full ≡ false
  pub emptied : head (d.xio.fd_state_list state) type ≡ none
  pub top : d.xio.task_pool.top ≡ xio.task_pool.top + length ts
  pub pool : d.xio.task_pool ≡ push_all xio.task_pool ts
  pub tasks : d.xio.task_list ≡ xio.task_list
  pub others : (o : ℕ) → state ≢ o → d.xio.fd_state_list o ≡ xio.fd_state_list o
  pub other_head :
      head (d.xio.fd_state_list state) (opposite type)
      ≡ head (xio.fd_state_list state) (opposite type)

pub drain-IsDrained :
    (xio : Context) (state : ℕ) (type : PrepType) (room : ℕ) (ts : List ℕ)
    → IsQueue xio (head (xio.fd_state_list state) type) ts
    → length ts ≤ room
    → xio.task_pool.top + length ts ≤ xio_xpoll_max_task_count
    → (d : Drained) × (drain xio state type room (head (xio.fd_state_list state) type) ≡ some d)
      × IsDrained xio state type ts d
unfolding drain IsQueue length errors push_all
drain-IsDrained xio state type room [] q l p = (
  record { results = []; full = false; xio = xio },
  ap (λ h. drain xio state type room h) q,
  record {
    results = refl;
    not_full = refl;
    emptied = q;
    top = omega arith;
    pool = refl;
    tasks = refl;
    others = λ o ne. refl;
    other_head = refl;
  },
)
drain-IsDrained xio state type zero (t ∷ ts) (e, q) l p = ground arith
drain-IsDrained xio state type (suc room) (t ∷ ts) (e, q) l p =
    let xio' = popped xio state type t in
    let next = head-popped xio state type t in
    let queue =
      subst (λ (h : Option ℕ). IsQueue xio' h ts) (sym next)
        (IsQueue-popped xio state type t (xio.task_list t).next ts q) in
    let (d, eq, r) = drain-IsDrained xio' state type room ts queue (omega arith) (omega arith) in
    let eq' = ap (λ h. drain xio' state type room h) (sym next) ∙ eq in
    let s' = set_head (xio.fd_state_list state) type (xio.task_list t).next in
    (
      record d {
        results = record { op = (xio.task_list t).op; udata = (xio.task_list t).udata } ∷ d.results;
      },
      (rw (e, release_room xio.task_pool t (omega arith), eq')),
      record {
        results =
            ap (λ es. record { op = (xio.task_list t).op; udata = (xio.task_list t).udata } ∷ es)
              (r.results ∙ errors-popped xio state type t ts);
        not_full = r.not_full;
        emptied = r.emptied;
        top = let top' = r.top in omega arith;
        pool = r.pool;
        tasks = r.tasks;
        others = λ o ne. r.others o ne ∙ update_ne xio.fd_state_list state o s' ne;
        other_head =
            r.other_head
            ∙ ap (λ (s : FdState). head s (opposite type))
                (update_self xio.fd_state_list state state s' refl)
            ∙ opposite-set_head (xio.fd_state_list state) type (xio.task_list t).next;
      },
    )

-- With room in `results` for all the tasks of the list of a descriptor, and with that many tasks
-- not in the pool, the loop delivers one error for each task, in the order of the list, empties
-- the list, and releases the tasks in that order: the pool is then the earlier one with the number
-- of each in the next free place.
pub drain_lem :
    (xio : Context) (state : ℕ) (type : PrepType) (room : ℕ) (ts : List ℕ)
    → IsQueue xio (head (xio.fd_state_list state) type) ts
    → length ts ≤ room
    → xio.task_pool.top + length ts ≤ xio_xpoll_max_task_count
    → (d : Drained) × ((drain xio state type room (head (xio.fd_state_list state) type) ≡ some d)
        × ((d.results ≡ errors xio ts)
            × ((d.full ≡ false)
                × ((head (d.xio.fd_state_list state) type ≡ none)
                    × ((d.xio.task_pool.top ≡ xio.task_pool.top + length ts)
                        × (d.xio.task_pool ≡ push_all xio.task_pool ts))))))
drain_lem xio state type room ts q l p =
    let (d, run, r) = drain-IsDrained xio state type room ts q l p in
    (d, (run, (r.results, (r.not_full, (r.emptied, (r.top, r.pool))))))
