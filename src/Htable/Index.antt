-- ===== src/Htable/Index.antt =====
-- What the index of a table promises, and how writes to cells and entries keep it.
use freehttpd.Base.{
  ℕ, ◌+◌, ◌-◌, ◌≤◌, ◌<◌, ◌≡◌, ◌≢◌, refl, sym, ◌∙◌, ap, ◌⊎◌, inl, inr, true, false, arith, update,
  update_self, update_ne, eq_or_ne,
}
use freehttpd.Htable.Table.{Keys, Entry, deleted, empty, masked}
use freehttpd.Htable.Cycle.{nth}
use freehttpd.Htable.Live.{is_live}

-- `j` comes within `cap` rounds from `h`, and no empty cell before it
pub record Reaches (cap : ℕ) (is : ℕ → ℕ) (h j : ℕ) : Type 0 where
  pub dist : ℕ
  pub near : dist < cap
  pub ends : nth cap h dist ≡ j
  pub passable : (m : ℕ) → m < dist → is (nth cap h m) ≢ empty

-- a write of a value that is not HT_EMPTY leaves every path open
pub Reaches-update :
    {cap : ℕ} {is : ℕ → ℕ} {h j : ℕ} (x v : ℕ)
    → v ≢ empty
    → Reaches cap is h j
    → Reaches cap (update is x v) h j
Reaches-update {cap} {is} {h} x v ne r = record {
  dist = r.dist;
  near = r.near;
  ends = r.ends;
  passable = λ m lt. ground (arith, r.passable m lt);
}

module _ {K : Type 0} where
  -- the same keys and hashes at the same places
  abbrev pub SameKeys : (ℕ → Entry K) → (ℕ → Entry K) → Type 0
  SameKeys es es' =
      (i : ℕ) → ((es' i).key ≡ (es i).key) × ((es' i).cached_hash ≡ (es i).cached_hash)

module _ {K : Type 0} (keys : Keys K) where
  -- A live cell `j` names an entry in use, found from the home cell of its key.
  pub record IsCell (cap next : ℕ) (is : ℕ → ℕ) (es : ℕ → Entry K) (j : ℕ) : Type 0 where
    pub in_use : is j - 1 < next
    pub hashed : (es (is j - 1)).cached_hash ≡ keys.hash (es (is j - 1)).key
    pub reach : Reaches cap is (masked cap (keys.hash (es (is j - 1)).key)) j

  -- Every live cell is in order, and no two have one key.
  pub record IsIndex (cap next : ℕ) (is : ℕ → ℕ) (es : ℕ → Entry K) : Type 0 where
    pub cells : (j : ℕ) → j < cap → is_live (is j) ≡ true → IsCell cap next is es j
    pub distinct :
        (i j : ℕ)
        → i < cap
        → j < cap
        → is_live (is i) ≡ true
        → is_live (is j) ≡ true
        → (es (is i - 1)).key ≡ (es (is j - 1)).key
        → i ≡ j

  -- a live cell has the key `k`, and the value `v`
  pub record Maps (cap : ℕ) (is : ℕ → ℕ) (es : ℕ → Entry K) (k : K) (v : ℕ) : Type 0 where
    pub cell : ℕ
    pub inside : cell < cap
    pub live : is_live (is cell) ≡ true
    pub has_key : (es (is cell - 1)).key ≡ k
    pub has_value : (es (is cell - 1)).value ≡ v

  -- no live cell has the key
  abbrev pub Absent : ℕ → (ℕ → ℕ) → (ℕ → Entry K) → K → Type 0
  Absent cap is es k = (j : ℕ) → j < cap → is_live (is j) ≡ true → (es (is j - 1)).key ≢ k

  pub IsIndex-same :
      {cap next : ℕ} {is : ℕ → ℕ} {es : ℕ → Entry K} (es' : ℕ → Entry K)
      → SameKeys es es'
      → IsIndex cap next is es
      → IsIndex cap next is es'
  IsIndex-same {is = is} es' same x = record {
    cells = λ j lt l.
        let c = x.cells j lt l in
        let s = same (is j - 1) in
        record {
          in_use = c.in_use;
          hashed = s.1 ∙ c.hashed ∙ ap keys.hash (sym s.0);
          reach = rw s.0 c.reach;
        };
    distinct = λ i j li lj lvi lvj e.
        x.distinct i j li lj lvi lvj (sym (same (is i - 1)).0 ∙ e ∙ (same (is j - 1)).0);
  }

  -- two cells that name one entry are one cell
  pub entry_once :
      {cap next : ℕ} {is : ℕ → ℕ} {es : ℕ → Entry K}
      → IsIndex cap next is es
      → (i j : ℕ) → i < cap
      → j < cap
      → is_live (is i) ≡ true
      → is_live (is j) ≡ true
      → is i - 1 ≡ is j - 1
      → i ≡ j
  entry_once {es = es} x i j li lj vi vj e = x.distinct i j li lj vi vj (ap (λ n. (es n).key) e)

  -- a write to another cell leaves a cell in order
  IsCell-keep :
      {cap next : ℕ} {is : ℕ → ℕ} {es : ℕ → Entry K} {j : ℕ} (x v next' : ℕ) (es' : ℕ → Entry K)
      → v ≢ empty
      → next ≤ next'
      → x ≢ j
      → ((es' (is j - 1)).key ≡ (es (is j - 1)).key)
        × ((es' (is j - 1)).cached_hash ≡ (es (is j - 1)).cached_hash)
      → IsCell cap next is es j
      → IsCell cap next' (update is x v) es' j
  IsCell-keep {is = is} {j = j} x v next' es' full le ne s c =
      let u = update_ne is x j v ne in
      record {
        in_use = rw u (omega (arith, c.in_use));
        hashed = rw (u, s.0, s.1) c.hashed;
        reach = rw (u, s.0) (Reaches-update x v full c.reach);
      }

  -- A cell is deleted.
  pub IsIndex-delete :
      {cap next : ℕ} {is : ℕ → ℕ} {es : ℕ → Entry K} (x : ℕ)
      → IsIndex cap next is es
      → IsIndex cap next (update is x deleted) es
  IsIndex-delete {next = next} {is = is} {es = es} x ix = record {
    cells = λ j lt l.
        let (ne, old) = before j l in
        IsCell-keep x deleted next es (omega arith) (omega arith) ne (refl, refl)
          (ix.cells j lt old);
    distinct = λ i j li lj vi vj e.
        let (ni, oi) = before i vi in
        let (nj, oj) = before j vj in
        ix.distinct i j li lj oi oj
          (rw (update_ne is x i deleted ni, update_ne is x j deleted nj) at e);
  }
    where
      before : (j : ℕ) → is_live (update is x deleted j) ≡ true → (x ≢ j) × (is_live (is j) ≡ true)
      before j l = ground arith

  -- A cell that is not live gets a new entry, under a key that is absent.
  pub IsIndex-insert :
      {cap next : ℕ} {is : ℕ → ℕ} {es : ℕ → Entry K} (next' x idx : ℕ) (es' : ℕ → Entry K)
      → IsIndex cap next is es
      → next ≤ next'
      → idx < next'
      → is_live (idx + 1) ≡ true
      → ((j : ℕ) → j < cap → is_live (is j) ≡ true → is j - 1 ≢ idx)
      → ((i : ℕ)
          → i ≢ idx
          → ((es' i).key ≡ (es i).key) × ((es' i).cached_hash ≡ (es i).cached_hash))
      → (es' idx).cached_hash ≡ keys.hash (es' idx).key
      → Reaches cap is (masked cap (keys.hash (es' idx).key)) x
      → Absent cap is es (es' idx).key
      → IsIndex cap next' (update is x (idx + 1)) es'
  IsIndex-insert {cap} {next} {is} {es} next' x idx es' ix le lt vi apart same hashed reach absent =
      record { cells = cell; distinct = once }
    where
      cell :
          (j : ℕ)
          → j < cap
          → is_live (update is x (idx + 1) j) ≡ true
          → IsCell cap next' (update is x (idx + 1)) es' j
      cell j jl l = elim (eq_or_ne x j) [
        | inl e ↦
            let u : update is x (idx + 1) j - 1 ≡ idx =
              omega (arith, update_self is x j (idx + 1) e) in
            record {
              in_use = rw u lt;
              hashed = rw u hashed;
              reach = rw (u, ← e) (Reaches-update x (idx + 1) (omega arith) reach);
            }
        | inr ne ↦
            let old = rw (update_ne is x j (idx + 1) ne) at l in
            IsCell-keep x (idx + 1) next' es' (omega arith) le ne (same (is j - 1) (apart j jl old))
              (ix.cells j jl old)
      ]

      key_at :
          (j : ℕ)
          → j < cap
          → is_live (update is x (idx + 1) j) ≡ true
          → ((x ≡ j) × ((es' (update is x (idx + 1) j - 1)).key ≡ (es' idx).key))
            ⊎ ((is_live (is j) ≡ true)
                × ((es' (update is x (idx + 1) j - 1)).key ≡ (es (is j - 1)).key))
      key_at j jl l = elim (eq_or_ne x j) [
        | inl e ↦
            let u : update is x (idx + 1) j - 1 ≡ idx =
              omega (arith, update_self is x j (idx + 1) e) in
            inl (e, ap (λ n. (es' n).key) u)
        | inr ne ↦
            let u = update_ne is x j (idx + 1) ne in
            let old = rw u at l in inr (old, rw u (same (is j - 1) (apart j jl old)).0)
      ]

      once :
          (i j : ℕ)
          → i < cap
          → j < cap
          → is_live (update is x (idx + 1) i) ≡ true
          → is_live (update is x (idx + 1) j) ≡ true
          → (es' (update is x (idx + 1) i - 1)).key ≡ (es' (update is x (idx + 1) j - 1)).key
          → i ≡ j
      once i j li lj vi vj e = elim (key_at i li vi) [
        | inl (a, p) ↦ elim (key_at j lj vj) [
          | inl (b, q) ↦ sym a ∙ b
          | inr (b, q) ↦ absurd (absent j lj b (sym q ∙ sym e ∙ p))
        ]
        | inr (a, p) ↦ elim (key_at j lj vj) [
          | inl (b, q) ↦ absurd (absent i li a (sym p ∙ e ∙ q))
          | inr (b, q) ↦ ix.distinct i j li lj a b (sym p ∙ e ∙ q)
        ]
      ]

  module _ (cap : ℕ) (is : ℕ → ℕ) (es : ℕ → Entry K) (x idx : ℕ) (es' : ℕ → Entry K) (k : K)
      (apart : (j : ℕ) → j < cap → is_live (is j) ≡ true → is j - 1 ≢ idx)
      (same : (i : ℕ) → i ≢ idx → ((es' i).key ≡ (es i).key) × ((es' i).value ≡ (es i).value))
      (dead : is_live (is x) ≡ false) where
    -- the other keys keep their values when a cell gets a new entry
    pub Maps-insert : (v : ℕ) → Maps cap is es k v → Maps cap (update is x (idx + 1)) es' k v
    Maps-insert v m =
        let ne : x ≢ m.cell = λ e. cc (sym dead ∙ ap (λ j. is_live (is j)) e ∙ m.live) in
        let u = update_ne is x m.cell (idx + 1) ne in
        let s = same (is m.cell - 1) (apart m.cell m.inside m.live) in
        record {
          cell = m.cell;
          inside = m.inside;
          live = rw u m.live;
          has_key = rw (u, s.0) m.has_key;
          has_value = rw (u, s.1) m.has_value;
        }

    pub Absent-insert :
        (es' idx).key ≢ k → Absent cap is es k → Absent cap (update is x (idx + 1)) es' k
    Absent-insert ne a j jl l e = elim (eq_or_ne x j) [
      | inl eq ↦
          let u : update is x (idx + 1) j - 1 ≡ idx =
            omega (arith, update_self is x j (idx + 1) eq) in
          ne (ap (λ n. (es' n).key) (sym u) ∙ e)
      | inr nq ↦
          let u = update_ne is x j (idx + 1) nq in
          let old = rw u at l in a j jl old (sym (same (is j - 1) (apart j jl old)).0 ∙ (rw u at e))
    ]

  pub Maps-insert_self :
      {cap : ℕ} (is : ℕ → ℕ) (es' : ℕ → Entry K) (x idx : ℕ)
      → x < cap
      → is_live (idx + 1) ≡ true
      → Maps cap (update is x (idx + 1)) es' (es' idx).key (es' idx).value
  Maps-insert_self is es' x idx lt vi =
      let u = update_self is x x (idx + 1) refl in
      let u' : update is x (idx + 1) x - 1 ≡ idx = omega (arith, u) in
      record {
        cell = x;
        inside = lt;
        live = rw u vi;
        has_key = ap (λ n. (es' n).key) u';
        has_value = ap (λ n. (es' n).value) u';
      }
