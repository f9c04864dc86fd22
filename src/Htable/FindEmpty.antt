-- ===== src/Htable/FindEmpty.antt =====
-- The inner loop of `htable_rehash`: in an index without deleted cells it finds a free cell on the
-- path of a hash.
use freehttpd.Base.{
  ℕ, zero, suc, ◌+◌, ◌≤◌, ◌<◌, ◌≡◌, ◌≢◌, refl, sym, subst, ◌∙◌, inl, inr, some, arith, eq_or_ne,
  ne→==, read_lem,
}
use freehttpd.Htable.Table.{Table, empty, next_hash}
use freehttpd.Htable.Cycle.{IsCapacity, nth, nth-lt, nth_covers}
use freehttpd.Htable.Index.{Reaches}
use freehttpd.Htable.Probe.{find_empty}

module _ {K : Type 0} (b : Table K) (c : IsCapacity b.index_capacity) (h : ℕ)
    (hl : h < b.index_capacity) where
  abbrev at : ℕ → ℕ
  at m = nth b.index_capacity h m

  find_empty-empty :
      (n m : ℕ) → b.index_list (at m) ≡ empty → find_empty b (suc n) (at m) ≡ some (some (at m))
  unfolding find_empty
  find_empty-empty n m e = rw (read_lem b.index_list b.index_capacity (at m) (nth-lt c h m hl), e)

  find_empty-used :
      (n m : ℕ)
      → b.index_list (at m) ≢ empty
      → find_empty b (suc n) (at m) ≡ find_empty b n (next_hash b.index_capacity (at m))
  unfolding find_empty
  find_empty-used n m ne = rw (
    read_lem b.index_list b.index_capacity (at m) (nth-lt c h m hl),
    ne→== (b.index_list (at m)) empty ne,
  )

  find_empty_from :
      (n m d : ℕ)
      → m + n ≡ b.index_capacity
      → m ≤ d
      → d < m + n
      → b.index_list (at d) ≡ empty
      → ((i : ℕ) → i < m → b.index_list (at i) ≢ empty)
      → (x : ℕ) × (find_empty b n (at m) ≡ some (some x))
        × (x < b.index_capacity)
        × (b.index_list x ≡ empty)
        × Reaches b.index_capacity b.index_list h x
  unfolding nth
  find_empty_from zero m d sum lo hi e before = absurd (omega arith)
  find_empty_from (suc n) m d sum lo hi e before = elim (eq_or_ne (b.index_list (at m)) empty) [
    | inl z ↦ (
      at m,
      find_empty-empty n m z,
      nth-lt c h m hl,
      z,
      record { dist = m; near = omega arith; ends = refl; passable = before },
    )
    | inr ne ↦
        let later : m ≢ d = λ q. ne (subst (λ (i : ℕ). b.index_list (at i) ≡ empty) (sym q) e) in
        let (x, run, xl, z, r) =
          find_empty_from n (suc m) d (omega arith) (omega arith) (omega arith) e (λ i lt.
            elim (eq_or_ne i m) [
              | inl q ↦ subst (λ (k : ℕ). b.index_list (at k) ≢ empty) (sym q) ne
              | inr nq ↦ before i (omega arith)
            ]) in
        (x, find_empty-used n m ne ∙ run, xl, z, r)
  ]

  pub find_empty_lem :
      (free : ℕ)
      → free < b.index_capacity
      → b.index_list free ≡ empty
      → (x : ℕ) × (find_empty b b.index_capacity h ≡ some (some x))
        × (x < b.index_capacity)
        × (b.index_list x ≡ empty)
        × Reaches b.index_capacity b.index_list h x
  unfolding nth
  find_empty_lem free lt e =
      let (d, dl, q) = nth_covers c h free hl lt in
      find_empty_from b.index_capacity 0 d (omega arith) (omega arith) (omega arith) (rw q e)
        (λ i z. absurd (omega arith))
