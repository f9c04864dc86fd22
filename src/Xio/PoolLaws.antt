-- ===== src/Xio/PoolLaws.antt =====
-- The pools of src/event/xio_xpoll.c.
use freehttpd.Base.{
  ℕ, suc, ◌+◌, ◌-◌, ◌≤◌, ◌<◌, ◌≡◌, ◌≢◌, refl, sym, ◌∙◌, ap, subst, inl, inr, Option, none, some,
  update, arith, lt→ltb, ge→ltb, eq→==, ne→==, le→leb, eq_or_ne, update_self, update_ne, u32,
}
use freehttpd.Xio.Pool.{
  Pool, acquire, release, xio_xpoll_max_task_count, xio_buf_size, xio_buf_count, Slices, take_slice,
  find_slice, acquire_slice, release_slice,
}

-- The free numbers are numbers of the pool, each once.
pub record IsPool (p : Pool) : Type 0 where
  pub fits : p.top ≤ xio_xpoll_max_task_count
  pub inside : (i : ℕ) → i < p.top → p.free i < xio_xpoll_max_task_count
  pub distinct : (i j : ℕ) → i < p.top → j < p.top → p.free i ≡ p.free j → i ≡ j

-- the number is on the free list
unfoldable pub IsFree : Pool → ℕ → Type 0
IsFree p idx = (i : ℕ) × (i < p.top × (p.free i ≡ idx))

-- Acquiring from a valid pool that is not empty gives a number of the pool that is free no
-- longer, and leaves a valid pool with one free number less.
pub acquire_lem :
    (p : Pool)
    → IsPool p
    → p.top ≢ 0
    → (idx : ℕ) × (((acquire p).0 ≡ some idx)
        × (idx < xio_xpoll_max_task_count
            × (IsPool ((acquire p).1)
                × ((¬ (IsFree ((acquire p).1) idx)) × ((acquire p).1.top + 1 ≡ p.top)))))
unfolding IsFree acquire
acquire_lem p v ne =
    let last = p.top - 1 in
    let left = record p { top = last } in
    let fits = v.fits in
    let same : acquire p ≡ (some (p.free last), left) = rw (acquire, ne→== p.top 0 ne) in
    subst
      (λ (r : Option ℕ × Pool).
        (idx : ℕ) × ((r.0 ≡ some idx)
          × (idx < xio_xpoll_max_task_count
              × (IsPool (r.1) × ((¬ (IsFree (r.1) idx)) × (r.1.top + 1 ≡ p.top))))))
      (sym same)
      (
        p.free last,
        (
          refl,
          (
            v.inside last (omega arith),
            (
              record {
                fits = omega arith;
                inside = λ i lt. v.inside i (omega arith);
                distinct = λ i j lt lt' e. v.distinct i j (omega arith) (omega arith) e;
              },
              (
                (λ (i, (lt, e)).
                    let same_place = v.distinct i last (omega arith) (omega arith) e in
                    omega arith),
                (omega arith),
              ),
            ),
          ),
        ),
      )

released_distinct :
    (p : Pool) (idx : ℕ)
    → IsPool p
    → ¬ (IsFree p idx)
    → (i j : ℕ) → i < p.top + 1
    → j < p.top + 1
    → update p.free p.top idx i ≡ update p.free p.top idx j
    → i ≡ j
unfolding IsFree
released_distinct p idx v new i j hi hj e = elim (eq_or_ne p.top i) [
  | inl ei ↦ elim (eq_or_ne p.top j) [
    | inl ej ↦ sym ei ∙ ej
    | inr nj ↦ absurd (
        new (
          j,
          (
            (omega arith),
            sym (update_ne p.free p.top j idx nj) ∙ sym e ∙ update_self p.free p.top i idx ei,
          ),
        ))
  ]
  | inr ni ↦ elim (eq_or_ne p.top j) [
    | inl ej ↦ absurd (
        new (
          i,
          (
            (omega arith),
            sym (update_ne p.free p.top i idx ni) ∙ e ∙ update_self p.free p.top j idx ej,
          ),
        ))
    | inr nj ↦
        v.distinct i j (omega arith) (omega arith)
          (sym (update_ne p.free p.top i idx ni) ∙ e ∙ update_ne p.free p.top j idx nj)
  ]
]

-- Releasing a number that is not free to a valid pool that is not full succeeds and leaves a valid
-- pool, from which the same number is acquired next.
pub release_lem :
    (p : Pool) (idx : ℕ)
    → IsPool p
    → idx < xio_xpoll_max_task_count
    → ¬ (IsFree p idx)
    → p.top < xio_xpoll_max_task_count
    → (p' : Pool) × ((release p idx ≡ some p')
        × (IsPool p' × (((acquire p').0 ≡ some idx) × ((acquire p').1.top ≡ p.top))))
unfolding release acquire IsFree
release_lem p idx v lt new room =
    let p' : Pool = record { free = update p.free p.top idx; top = p.top + 1 } in
    (
      p',
      (
        (rw (lt→ltb p.top xio_xpoll_max_task_count room)),
        (
          record {
            fits = omega arith;
            inside = λ i h. elim (eq_or_ne p.top i) [
              | inl e ↦ (rw (eq→== p.top i e) lt)
              | inr ne ↦ (rw (ne→== p.top i ne) (v.inside i (omega arith)))
            ];
            distinct = λ i j hi hj e. released_distinct p idx v new i j hi hj e;
          },
          (
            (rw (ne→== (p.top + 1) 0 (omega arith))
                (ap some (update_self p.free p.top (p.top + 1 - 1) idx (omega arith)))),
            (rw (ne→== (p.top + 1) 0 (omega arith)) (omega arith)),
          ),
        ),
      ),
    )

-- the last place of the free list is taken when it has room
find_first :
    (s : Slices) (n size : ℕ)
    → s.off (s.pool.free n) + size ≤ xio_buf_size
    → find_slice s (suc n) size ≡ (some (s.pool.free n), take_slice s n size)
unfolding find_slice
find_first s n size h = rw (ge→ltb xio_buf_size (s.off (s.pool.free n) + size) h)

partly_used :
    (s : Slices) (n size : ℕ)
    → s.off (s.pool.free n) + size < xio_buf_size
    → (take_slice s n size).pool ≡ s.pool
unfolding take_slice
partly_used s n size h =
    let small : u32 (s.off (s.pool.free n) + size) ≢ xio_buf_size = omega arith in
    rw (ne→== (u32 (s.off (s.pool.free n) + size)) xio_buf_size small)

release-full : (s : Slices) (bid : ℕ) → xio_buf_count ≤ s.pool.top → release_slice s bid ≡ none
unfolding release_slice
release-full s bid h = rw (ge→ltb s.pool.top xio_buf_count h)

-- On slices whose free list is full, a slice that `fh_xio_acquire_slice` finds at the first look
-- and does not use up cannot be released: it is still on the free list, so that the assertion of
-- `fh_xio_release_slice` fails.
pub release_after_acquire :
    (s : Slices) (size : ℕ)
    → s.pool.top ≡ xio_buf_count
    → s.off (s.pool.free (xio_buf_count - 1)) + size < xio_buf_size
    → (bid : ℕ) × ((s' : Slices) × ((acquire_slice s size ≡ some (some bid, s'))
          × (release_slice s' bid ≡ none)))
unfolding acquire_slice
release_after_acquire s size top h =
    let last = xio_buf_count - 1 in
    let s' = take_slice s last size in
    let same : s'.pool ≡ s.pool = partly_used s last size h in
    let full : xio_buf_count ≤ s'.pool.top =
      subst (λ (p : Pool). xio_buf_count ≤ p.top) (sym same) (omega arith) in
    let found : acquire_slice s size ≡ some (find_slice s s.pool.top size) =
      rw (acquire_slice, le→leb size xio_buf_size (omega arith)) in
    (
      s.pool.free last,
      (
        s',
        (
          found
              ∙ ap (λ n. some (find_slice s n size)) top
              ∙ ap (λ r. some r) (find_first s last size (omega arith)),
          release-full s' (s.pool.free last) full,
        ),
      ),
    )
