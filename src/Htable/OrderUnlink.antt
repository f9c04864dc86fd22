-- ===== src/Htable/OrderUnlink.antt =====
-- What `unlink` of src/hash/htable.c makes of the order of the entry list.
use freehttpd.Base.{
  ℕ, ◌≤◌, ◌<◌, ◌≡◌, ◌≢◌, refl, sym, ◌∙◌, subst, inl, inr, List, [], ◌∷◌, ◌++◌, some, ◌==◌,
  if◌then◌else◌, arith, eq→==, ne→==,
}
use freehttpd.Htable.Table.{Entry, Table, uint32_max}
use freehttpd.Htable.Ops.{unlink}
use freehttpd.Htable.Links.{
  SameData, with_prev, with_next, unlink_run, skip, skip_back, unlinked_head, unlinked_tail,
}
use freehttpd.Htable.Order.{
  In, Distinct, Distinct-middle, Distinct-left, Distinct-right, Distinct-apart, Segment,
  Segment-same, Segment-join, Segment-split, Segment-last, Segment-next, Segment-prev,
}
use freehttpd.Htable.OrderLinks.{IsListed, In-inside}

module _ {K : Type 0} where
  skip_back_eq :
      (es : ℕ → Entry K) (idx : ℕ)
      → (es idx).next_idx ≢ uint32_max
      → with_prev es (es idx).next_idx (es idx).prev_idx ≡ skip_back es idx
  skip_back_eq es idx ne = rw (ne→== (es idx).next_idx uint32_max ne)

  skip_eq :
      (es : ℕ → Entry K) (idx : ℕ)
      → (es idx).prev_idx ≢ uint32_max
      → with_next (skip_back es idx) (es idx).prev_idx (es idx).next_idx ≡ skip es idx
  skip_eq es idx ne = rw (ne→== (es idx).prev_idx uint32_max ne)

  skip_none :
      (es : ℕ → Entry K) (idx : ℕ) → (es idx).prev_idx ≡ uint32_max → skip_back es idx ≡ skip es idx
  skip_none es idx e = rw (eq→== (es idx).prev_idx uint32_max e)

  new_head :
      (es : ℕ → Entry K) (idx head : ℕ)
      → idx ≡ head
      → (es idx).next_idx ≡ (if idx == head then (es idx).next_idx else head)
  new_head es idx head e = rw (eq→== idx head e)

  kept_head :
      (es : ℕ → Entry K) (idx head : ℕ)
      → idx ≢ head
      → head ≡ (if idx == head then (es idx).next_idx else head)
  kept_head es idx head ne = rw (ne→== idx head ne)

  kept_tail :
      (es : ℕ → Entry K) (idx tail : ℕ)
      → idx ≢ tail
      → tail ≡ (if idx == tail then (es idx).prev_idx else tail)
  kept_tail es idx tail ne = rw (ne→== idx tail ne)

  -- the entries after `idx`, once the first of them links back to `q`
  skip_back_lem :
      (es : ℕ → Entry K) (cap idx : ℕ) (ys : List ℕ) (tail : ℕ)
      → cap ≤ uint32_max
      → Distinct (idx ∷ ys)
      → Segment es cap idx (es idx).next_idx ys uint32_max tail
      → Segment
          (skip_back es idx)
          cap
          (es idx).prev_idx
          (es idx).next_idx
          ys
          uint32_max
          (if idx == tail then (es idx).prev_idx else tail)
  unfolding Segment Distinct In
  skip_back_lem es cap idx [] tail small d (stop, at) = (stop, (rw (eq→== idx tail at)))
  skip_back_lem es cap idx (y ∷ ys) tail small (new, d) s =
      let last = Segment-last es cap idx (es idx).next_idx y ys uint32_max tail s in
      let yl = In-inside es cap idx (es idx).next_idx (y ∷ ys) uint32_max tail y s (inl refl) in
      let apart : idx ≢ tail = λ b. new (subst (λ (z : ℕ). In z (y ∷ ys)) (sym b) last) in
      let at : (es idx).next_idx ≡ y = s.0 in
      let n_ok : (es idx).next_idx ≢ uint32_max = λ b. absurd (omega (arith, b, at)) in
      let moved =
        Segment-prev es cap idx (es idx).next_idx y ys uint32_max tail (es idx).prev_idx d s in
      let there =
        subst
          (λ (z : ℕ).
            Segment (with_prev es z (es idx).prev_idx) cap (es idx).prev_idx (es idx).next_idx
              (y ∷ ys) uint32_max tail)
          (sym at) moved in
      subst
        (λ (z : ℕ).
          Segment (skip_back es idx) cap (es idx).prev_idx (es idx).next_idx (y ∷ ys) uint32_max z)
        (kept_tail es idx tail apart)
        (subst
          (λ (f : ℕ → Entry K).
            Segment f cap (es idx).prev_idx (es idx).next_idx (y ∷ ys) uint32_max tail)
          (skip_back_eq es idx n_ok) there)

  -- the entries before `idx` do not change by that
  skip_back-same :
      (es : ℕ → Entry K) (cap idx : ℕ) (ys : List ℕ) (tail p i : ℕ) (xs : List ℕ) (e q : ℕ)
      → cap ≤ uint32_max
      → Segment es cap idx (es idx).next_idx ys uint32_max tail
      → ((z : ℕ) → In z ys → ¬ (In z xs))
      → Segment es cap p i xs e q
      → Segment (skip_back es idx) cap p i xs e q
  unfolding Segment In
  skip_back-same es cap idx [] tail p i xs e q small (stop, at) out s = rw (stop) s
  skip_back-same es cap idx (y ∷ ys) tail p i xs e q small r out s =
      let yl = In-inside es cap idx (es idx).next_idx (y ∷ ys) uint32_max tail y r (inl refl) in
      let at : (es idx).next_idx ≡ y = r.0 in
      let n_ok : (es idx).next_idx ≢ uint32_max = λ b. absurd (omega (arith, b, at)) in
      let there =
        Segment-same es (with_prev es y (es idx).prev_idx) cap y
          (λ z ne. rw (ne→== y z (λ b. ne (sym b))) (refl, refl)) p i xs e q (out y (inl refl)) s in
      subst (λ (f : ℕ → Entry K). Segment f cap p i xs e q) (skip_back_eq es idx n_ok)
        (subst (λ (z : ℕ). Segment (with_prev es z (es idx).prev_idx) cap p i xs e q) (sym at)
          there)

  -- The links around `idx`, between `xs` and `ys`.
  skip_lem :
      (es : ℕ → Entry K) (cap head tail idx : ℕ) (xs ys : List ℕ)
      → cap ≤ uint32_max
      → Distinct (xs ++ (idx ∷ ys))
      → Segment es cap uint32_max head xs idx (es idx).prev_idx
      → Segment es cap idx (es idx).next_idx ys uint32_max tail
      → Segment
          (skip es idx)
          cap
          uint32_max
          (if idx == head then (es idx).next_idx else head)
          (xs ++ ys)
          uint32_max
          (if idx == tail then (es idx).prev_idx else tail)
  unfolding Segment In
  skip_lem es cap head tail idx [] ys small d (at, first) b =
      let tail' = if idx == tail then (es idx).prev_idx else tail in
      let s₀ = skip_back_lem es cap idx ys tail small d b in
      let s₁ =
        subst (λ (z : ℕ). Segment (skip_back es idx) cap z (es idx).next_idx ys uint32_max tail')
          (sym first) s₀ in
      let s₂ =
        subst (λ (f : ℕ → Entry K). Segment f cap uint32_max (es idx).next_idx ys uint32_max tail')
          (skip_none es idx (sym first)) s₁ in
      subst (λ (h : ℕ). Segment (skip es idx) cap uint32_max h ys uint32_max tail')
        (new_head es idx head (sym at)) s₂
  skip_lem es cap head tail idx (x ∷ xs) ys small d a b =
      let tail' = if idx == tail then (es idx).prev_idx else tail in
      let q = (es idx).prev_idx in
      let n = (es idx).next_idx in
      let last = Segment-last es cap uint32_max head x xs idx q a in
      let ql = In-inside es cap uint32_max head (x ∷ xs) idx q q a last in
      let apart : idx ≢ head =
        λ e. Distinct-apart (x ∷ xs) (idx ∷ ys) idx d (inl (e ∙ a.0)) (inl refl) in
      let front =
        skip_back-same es cap idx ys tail uint32_max head (x ∷ xs) idx q small b
          (λ z i j. Distinct-apart (x ∷ xs) (idx ∷ ys) z d j (inr i)) a in
      let es₂ = with_next (skip_back es idx) q n in
      let front₂ =
        Segment-next (skip_back es idx) cap uint32_max head x xs idx q n
          (Distinct-left (x ∷ xs) (idx ∷ ys) d) front in
      let back = skip_back_lem es cap idx ys tail small (Distinct-right (x ∷ xs) (idx ∷ ys) d) b in
      let back₂ =
        Segment-same (skip_back es idx) es₂ cap q
          (λ y ne. rw (ne→== q y (λ e. ne (sym e))) (refl, refl)) q n ys uint32_max tail'
          (λ i. Distinct-apart (x ∷ xs) (idx ∷ ys) q d last (inr i)) back in
      let all =
        Segment-join es₂ cap uint32_max head (x ∷ xs) n q ys uint32_max tail' front₂ back₂ in
      subst (λ (h : ℕ). Segment (skip es idx) cap uint32_max h (x ∷ (xs ++ ys)) uint32_max tail')
        (kept_head es idx head apart)
        (subst
          (λ (f : ℕ → Entry K). Segment f cap uint32_max head (x ∷ (xs ++ ys)) uint32_max tail')
          (skip_eq es idx (λ e. absurd (omega (arith, e)))) all)

  start_inside :
      (es : ℕ → Entry K) (cap p i : ℕ) (ys : List ℕ) (q : ℕ)
      → Segment es cap p i ys uint32_max q
      → i ≢ uint32_max
      → i < cap
  unfolding Segment
  start_inside es cap p i [] q (at, last) ne = absurd (ne at)
  start_inside es cap p i (y ∷ ys) q (at, lt, back, rest) ne = omega (arith, at)

  end_inside :
      (es : ℕ → Entry K) (cap i : ℕ) (xs : List ℕ) (e q : ℕ)
      → Segment es cap uint32_max i xs e q
      → q ≢ uint32_max
      → q < cap
  unfolding Segment
  end_inside es cap i [] e q (at, last) ne = absurd (ne (sym last))
  end_inside es cap i (x ∷ xs) e q s ne =
      In-inside es cap uint32_max i (x ∷ xs) e q q s (Segment-last es cap uint32_max i x xs e q s)

  -- An entry in the list leaves it, and the others keep their order.
  pub unlink_order :
      (t : Table K) (idx : ℕ) (xs ys : List ℕ)
      → t.entry_capacity ≤ uint32_max
      → IsListed t.entry_capacity t.head_idx t.tail_idx t.entries (xs ++ (idx ∷ ys))
      → (es' : ℕ → Entry K) × (head' : ℕ) × (tail' : ℕ) × (unlink t idx
          ≡ some (record t { entries = es'; head_idx = head'; tail_idx = tail' }))
        × SameData t.entries es'
        × IsListed t.entry_capacity head' tail' es' (xs ++ ys)
  unfolding Segment
  unlink_order t idx xs ys small l =
      let cap = t.entry_capacity in
      let (e, q, a, b) =
        Segment-split t.entries cap uint32_max t.head_idx xs (idx ∷ ys) uint32_max t.tail_idx
          l.segment in
      let a' =
        subst (λ (z : ℕ). Segment t.entries cap uint32_max t.head_idx xs z (t.entries idx).prev_idx)
          b.0 (subst (λ (z : ℕ). Segment t.entries cap uint32_max t.head_idx xs e z) (sym b.2) a) in
      let whole = skip_lem t.entries cap t.head_idx t.tail_idx idx xs ys small l.distinct a' b.3 in
      (
        skip t.entries idx,
        unlinked_head t idx,
        unlinked_tail t idx,
        unlink_run t idx b.1
            (start_inside t.entries cap idx (t.entries idx).next_idx ys t.tail_idx b.3)
            (end_inside t.entries cap t.head_idx xs idx (t.entries idx).prev_idx a'),
        λ i. ground arith,
        record { segment = whole; distinct = (Distinct-middle xs idx ys l.distinct).0 },
      )
