-- ===== src/Htable/Order.antt =====
-- The entry list of src/hash/htable.c as a list of the numbers of its entries: the links forward
-- and back, the two ends, and what `link_tail` and `unlink` make of them.
use freehttpd.Base.{
  ℕ, ◌<◌, ◌≡◌, ◌≢◌, refl, sym, ◌∙◌, ap, subst, inl, inr, ◌⊎◌, List, [], ◌∷◌, ◌++◌, update, eq→==,
  ne→==,
}
use freehttpd.Htable.Table.{Entry}

-- `x` is a member of the list.
unfoldable pub In : ℕ → List ℕ → Type 0
In x [] = ⊥
In x (y ∷ ys) = (x ≡ y) ⊎ In x ys

-- no member stands twice in the list
unfoldable pub Distinct : List ℕ → Type 0
Distinct [] = Unit
Distinct (x ∷ xs) = (¬ (In x xs)) × Distinct xs

pub In-append : (x : ℕ) (xs ys : List ℕ) → In x (xs ++ ys) → In x xs ⊎ In x ys
unfolding In
In-append x [] ys i = inr i
In-append x (y ∷ xs) ys (inl e) = inl (inl e)
In-append x (y ∷ xs) ys (inr i) = elim (In-append x xs ys i) [ inl h ↦ inl (inr h) | inr h ↦ inr h ]

pub In-left : (x : ℕ) (xs ys : List ℕ) → In x xs → In x (xs ++ ys)
unfolding In
In-left x [] ys i = elim i [ ]
In-left x (y ∷ xs) ys (inl e) = inl e
In-left x (y ∷ xs) ys (inr i) = inr (In-left x xs ys i)

pub In-right : (x : ℕ) (xs ys : List ℕ) → In x ys → In x (xs ++ ys)
unfolding In
In-right x [] ys i = i
In-right x (y ∷ xs) ys i = inr (In-right x xs ys i)

pub Distinct-append : (xs : List ℕ) (x : ℕ) → Distinct xs → ¬ (In x xs) → Distinct (xs ++ (x ∷ []))
unfolding Distinct In
Distinct-append [] x d out = ((λ i. i), tt)
Distinct-append (y ∷ xs) x (new, d) out = (
  λ i. elim (In-append y xs (x ∷ []) i) [
    | inl h ↦ new h
    | inr (inl e) ↦ out (inl (sym e))
    | inr (inr b) ↦ b
  ],
  Distinct-append xs x d (λ i. out (inr i)),
)

-- a member can be taken out
pub Distinct-middle :
    (xs : List ℕ) (x : ℕ) (ys : List ℕ)
    → Distinct (xs ++ (x ∷ ys))
    → Distinct (xs ++ ys) × (¬ (In x (xs ++ ys)))
unfolding Distinct In
Distinct-middle [] x ys (new, d) = (d, new)
Distinct-middle (y ∷ xs) x ys (new, d) =
    let (d', out) = Distinct-middle xs x ys d in
    (
      (
        λ i. new (elim (In-append y xs ys i) [
          | inl h ↦ In-left y xs (x ∷ ys) h
          | inr h ↦ In-right y xs (x ∷ ys) (inr h)
        ]),
        d',
      ),
      λ i. elim i [ inl e ↦ new (In-right y xs (x ∷ ys) (inl (sym e))) | inr h ↦ out h ],
    )

pub Distinct-left : (xs ys : List ℕ) → Distinct (xs ++ ys) → Distinct xs
unfolding Distinct
Distinct-left [] ys d = tt
Distinct-left (x ∷ xs) ys (new, d) = (λ i. new (In-left x xs ys i), Distinct-left xs ys d)

pub Distinct-right : (xs ys : List ℕ) → Distinct (xs ++ ys) → Distinct ys
unfolding Distinct
Distinct-right [] ys d = d
Distinct-right (x ∷ xs) ys (new, d) = Distinct-right xs ys d

-- the two parts of such a list have no member in common
pub Distinct-apart : (xs ys : List ℕ) (z : ℕ) → Distinct (xs ++ ys) → In z xs → ¬ (In z ys)
unfolding Distinct In
Distinct-apart [] ys z d i = absurd i
Distinct-apart (x ∷ xs) ys z (new, d) (inl e) =
    λ j. new (In-right x xs ys (subst (λ (w : ℕ). In w ys) e j))
Distinct-apart (x ∷ xs) ys z (new, d) (inr i) = Distinct-apart xs ys z d i

pub In-rest : (y x : ℕ) (xs ys : List ℕ) → y ≢ x → In y (xs ++ (x ∷ ys)) → In y (xs ++ ys)
unfolding In
In-rest y x [] ys ne (inl e) = absurd (ne e)
In-rest y x [] ys ne (inr i) = i
In-rest y x (z ∷ xs) ys ne (inl e) = inl e
In-rest y x (z ∷ xs) ys ne (inr i) = inr (In-rest y x xs ys ne i)

pub In-back : (y x : ℕ) (xs ys : List ℕ) → In y (xs ++ ys) → In y (xs ++ (x ∷ ys))
unfolding In
In-back y x [] ys i = inr i
In-back y x (z ∷ xs) ys (inl e) = inl e
In-back y x (z ∷ xs) ys (inr i) = inr (In-back y x xs ys i)

-- where a member stands
pub In-split : (x : ℕ) (is : List ℕ) → In x is → (xs ys : List ℕ) × (is ≡ xs ++ (x ∷ ys))
unfolding In
In-split x [] i = elim i [ ]
In-split x (y ∷ is) (inl e) = ([], is, ap (λ z. z ∷ is) (sym e))
In-split x (y ∷ is) (inr i) = let (xs, ys, e) = In-split x is i in (y ∷ xs, ys, ap (λ r. y ∷ r) e)

module _ {K : Type 0} where
  -- The entries `xs` stand in the list from `i` on, after `p`; `e` is the link of the last one
  -- forward, and `q` is the last one.
  unfoldable pub Segment : (ℕ → Entry K) → ℕ → ℕ → ℕ → List ℕ → ℕ → ℕ → Type 0
  Segment es cap p i [] e q = (i ≡ e) × (p ≡ q)
  Segment es cap p i (x ∷ xs) e q =
      (i ≡ x) × (x < cap) × ((es x).prev_idx ≡ p) × Segment es cap x (es x).next_idx xs e q

  -- links that agree but at one place
  abbrev SameLinks : (ℕ → Entry K) → (ℕ → Entry K) → ℕ → Type 0
  SameLinks es es' z =
      (y : ℕ) → y ≢ z → ((es' y).prev_idx ≡ (es y).prev_idx) × ((es' y).next_idx ≡ (es y).next_idx)

  pub Segment-same :
      (es es' : ℕ → Entry K) (cap z : ℕ)
      → SameLinks es es' z
      → (p i : ℕ) (xs : List ℕ) (e q : ℕ) → ¬ (In z xs)
      → Segment es cap p i xs e q
      → Segment es' cap p i xs e q
  unfolding Segment In
  Segment-same es es' cap z same p i [] e q out s = s
  Segment-same es es' cap z same p i (x ∷ xs) e q out (at, lt, back, rest) =
      let (prev, next) = same x (λ b. out (inl (sym b))) in
      (
        at,
        lt,
        prev ∙ back,
        subst (λ (n : ℕ). Segment es' cap x n xs e q) (sym next)
            (Segment-same es es' cap z same x (es x).next_idx xs e q (λ b. out (inr b)) rest),
      )

  pub Segment-join :
      (es : ℕ → Entry K) (cap p i : ℕ) (xs : List ℕ) (e q : ℕ) (ys : List ℕ) (e' q' : ℕ)
      → Segment es cap p i xs e q
      → Segment es cap q e ys e' q'
      → Segment es cap p i (xs ++ ys) e' q'
  unfolding Segment
  Segment-join es cap p i [] e q ys e' q' (ie, pq) t =
      subst (λ (n : ℕ). Segment es cap n i ys e' q') (sym pq)
        (subst (λ (n : ℕ). Segment es cap q n ys e' q') (sym ie) t)
  Segment-join es cap p i (x ∷ xs) e q ys e' q' (at, lt, back, rest) t =
      (at, lt, back, Segment-join es cap x (es x).next_idx xs e q ys e' q' rest t)

  pub Segment-split :
      (es : ℕ → Entry K) (cap p i : ℕ) (xs ys : List ℕ) (e' q' : ℕ)
      → Segment es cap p i (xs ++ ys) e' q'
      → (e q : ℕ) × Segment es cap p i xs e q × Segment es cap q e ys e' q'
  unfolding Segment
  Segment-split es cap p i [] ys e' q' t = (i, p, (refl, refl), t)
  Segment-split es cap p i (x ∷ xs) ys e' q' (at, lt, back, rest) =
      let (e, q, a, b) = Segment-split es cap x (es x).next_idx xs ys e' q' rest in
      (e, q, (at, lt, back, a), b)

  -- the last entry is a member
  pub Segment-last :
      (es : ℕ → Entry K) (cap p i x : ℕ) (xs : List ℕ) (e q : ℕ)
      → Segment es cap p i (x ∷ xs) e q
      → In q (x ∷ xs)
  unfolding Segment In
  Segment-last es cap p i x [] e q (at, lt, back, (ne, xq)) = inl (sym xq)
  Segment-last es cap p i x (y ∷ xs) e q (at, lt, back, rest) =
      inr (Segment-last es cap x (es x).next_idx y xs e q rest)

  -- The last entry's link forward is written.
  pub Segment-next :
      (es : ℕ → Entry K) (cap p i x : ℕ) (xs : List ℕ) (e q e' : ℕ)
      → Distinct (x ∷ xs)
      → Segment es cap p i (x ∷ xs) e q
      → Segment (update es q (record (es q) { next_idx = e' })) cap p i (x ∷ xs) e' q
  unfolding Segment Distinct In
  Segment-next es cap p i x [] e q e' d (at, lt, back, (ne, xq)) =
      subst
        (λ (r : ℕ). Segment (update es r (record (es r) { next_idx = e' })) cap p i (x ∷ []) e' r)
        xq (at, lt, (rw (eq→== x x refl) back), ((rw (eq→== x x refl)), refl))
  Segment-next es cap p i x (y ∷ xs) e q e' (new, d) (at, lt, back, rest) =
      let ne : q ≢ x = λ b. new (
        subst (λ (z : ℕ). In z (y ∷ xs)) b (Segment-last es cap x (es x).next_idx y xs e q rest)) in
      let ih = Segment-next es cap x (es x).next_idx y xs e q e' d rest in
      (
        at,
        lt,
        (rw (ne→== q x ne) back),
        subst
            (λ (n : ℕ).
              Segment (update es q (record (es q) { next_idx = e' })) cap x n (y ∷ xs) e' q)
            (rw (ne→== q x ne)) ih,
      )

  -- The first entry's link back is written.
  pub Segment-prev :
      (es : ℕ → Entry K) (cap p i x : ℕ) (xs : List ℕ) (e q p' : ℕ)
      → Distinct (x ∷ xs)
      → Segment es cap p i (x ∷ xs) e q
      → Segment (update es x (record (es x) { prev_idx = p' })) cap p' i (x ∷ xs) e q
  unfolding Segment Distinct
  Segment-prev es cap p i x xs e q p' (new, d) (at, lt, back, rest) =
      let es' = update es x (record (es x) { prev_idx = p' }) in
      (
        at,
        lt,
        (rw (eq→== x x refl)),
        subst (λ (n : ℕ). Segment es' cap x n xs e q) (rw (eq→== x x refl))
            (Segment-same es es' cap x (λ y ne. rw (ne→== x y (λ b. ne (sym b))) (refl, refl)) x
              (es x).next_idx xs e q new rest),
      )
