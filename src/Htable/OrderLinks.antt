-- ===== src/Htable/OrderLinks.antt =====
-- What `link_tail` of src/hash/htable.c makes of the order of the entry list, and what the loop over
-- it meets.
use freehttpd.Base.{
  ℕ, ◌≤◌, ◌<◌, ◌≡◌, ◌≢◌, refl, sym, subst, inl, inr, List, [], ◌∷◌, ◌++◌, some, arith, eq→==, ne→==,
  read_lem,
}
use freehttpd.Htable.Table.{Entry, Table, uint32_max, link_tail}
use freehttpd.Htable.Ops.{walk}
use freehttpd.Htable.Links.{SameData, with_prev, with_next, link_tail_first, link_tail_more}
use freehttpd.Htable.History.{length}
use freehttpd.Htable.Order.{
  In, Distinct, Distinct-append, Segment, Segment-same, Segment-join, Segment-last, Segment-next,
}

module _ {K : Type 0} where
  -- The list of the table has the entries `is`, in this order.
  pub record IsListed (cap head tail : ℕ) (es : ℕ → Entry K) (is : List ℕ) : Type 0 where
    pub segment : Segment es cap uint32_max head is uint32_max tail
    pub distinct : Distinct is

  pub In-inside :
      (es : ℕ → Entry K) (cap p i : ℕ) (xs : List ℕ) (e q y : ℕ)
      → Segment es cap p i xs e q
      → In y xs
      → y < cap
  unfolding Segment In
  In-inside es cap p i [] e q y s m = absurd m
  In-inside es cap p i (x ∷ xs) e q y (at, lt, back, rest) (inl b) = rw b lt
  In-inside es cap p i (x ∷ xs) e q y (at, lt, back, rest) (inr m) =
      In-inside es cap x (es x).next_idx xs e q y rest m

  -- what the loop over the list meets
  unfoldable pub pairs : (ℕ → Entry K) → List ℕ → List (K × ℕ)
  pairs es [] = []
  pairs es (x ∷ xs) = ((es x).key, (es x).value) ∷ pairs es xs

  pub walk_lem :
      (t : Table K) (p i : ℕ) (is : List ℕ) (q : ℕ)
      → t.entry_capacity ≤ uint32_max
      → Segment t.entries t.entry_capacity p i is uint32_max q
      → walk t (length is) i ≡ some (pairs t.entries is)
  unfolding Segment walk pairs length
  walk_lem t p i [] q small (at, last) = rw (at)
  walk_lem t p i (x ∷ xs) q small (at, lt, back, rest) = rw (
    at,
    ne→== x uint32_max (λ b. absurd (omega (arith, b))),
    read_lem t.entries t.entry_capacity x lt,
    walk_lem t x (t.entries x).next_idx xs q small rest,
  )

  -- The entry that is not in the list goes to its end.
  pub link_tail_order :
      (t : Table K) (idx : ℕ) (is : List ℕ)
      → IsListed t.entry_capacity t.head_idx t.tail_idx t.entries is
      → ¬ (In idx is)
      → idx < t.entry_capacity
      → t.entry_capacity ≤ uint32_max
      → (es' : ℕ → Entry K) × (head' : ℕ) × (link_tail t idx
          ≡ some (record t { entries = es'; head_idx = head'; tail_idx = idx }))
        × SameData t.entries es'
        × IsListed t.entry_capacity head' idx es' (is ++ (idx ∷ []))
  unfolding Segment
  link_tail_order t idx [] l out lt small =
      let (a, b) = l.segment in
      (
        with_prev (with_next t.entries idx uint32_max) idx uint32_max,
        idx,
        link_tail_first t idx lt (sym b),
        λ i. ground arith,
        record {
          segment = (refl, lt, (rw (eq→== idx idx refl)), ((rw (eq→== idx idx refl)), refl));
          distinct = Distinct-append [] idx l.distinct out;
        },
      )
  link_tail_order t idx (x ∷ xs) l out lt small =
      let cap = t.entry_capacity in
      let last =
        Segment-last t.entries cap uint32_max t.head_idx x xs uint32_max t.tail_idx l.segment in
      let tl : t.tail_idx < cap =
        In-inside t.entries cap uint32_max t.head_idx (x ∷ xs) uint32_max t.tail_idx t.tail_idx
          l.segment last in
      let apart : idx ≢ t.tail_idx = λ b. out (subst (λ (z : ℕ). In z (x ∷ xs)) (sym b) last) in
      let es₁ = with_next t.entries t.tail_idx idx in
      let es' = with_next (with_prev es₁ idx t.tail_idx) idx uint32_max in
      let front =
        Segment-same es₁ es' cap idx (λ y ne. rw (ne→== idx y (λ b. ne (sym b))) (refl, refl))
          uint32_max t.head_idx (x ∷ xs) idx t.tail_idx out
          (Segment-next t.entries cap uint32_max t.head_idx x xs uint32_max t.tail_idx idx
            l.distinct l.segment) in
      (
        es',
        t.head_idx,
        link_tail_more t idx lt (λ b. absurd (omega (arith, b))) tl,
        λ i. ground arith,
        record {
          segment =
              Segment-join es' cap uint32_max t.head_idx (x ∷ xs) idx t.tail_idx (idx ∷ [])
                uint32_max idx front
                (refl, lt, (rw (eq→== idx idx refl)), ((rw (eq→== idx idx refl)), refl));
          distinct = Distinct-append (x ∷ xs) idx l.distinct out;
        },
      )
