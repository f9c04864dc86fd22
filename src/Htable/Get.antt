-- ===== src/Htable/Get.antt =====
-- `htable_get_with_flag` reads what the index maps a key to.
use freehttpd.Base.{
  ℕ, ◌-◌, ◌<◌, ◌≡◌, refl, sym, ◌∙◌, ap, subst, ◌⊎◌, ◌↔◌, inl, inr, true, false, some, if◌then◌else◌,
  arith, read_lem, Bool-cases,
}
use freehttpd.Htable.Table.{Keys, Table}
use freehttpd.Htable.Live.{is_live}
use freehttpd.Htable.Index.{Maps, Absent}
use freehttpd.Htable.Search.{search_lem}
use freehttpd.Htable.Ops.{get_with_flag}
use freehttpd.Htable.Valid.{IsIndexed}
use freehttpd.Htable.Insert.{Keeps, IsWritten}

module _ {K : Type 0} (keys : Keys K) where
  module _ (t : Table K) (x : IsIndexed keys t) where
    pub entry_room :
        (j : ℕ)
        → j < t.index_capacity
        → is_live (t.index_list j) ≡ true
        → t.index_list j - 1 < t.entry_capacity
    entry_room j lt l = omega (arith, (x.index.cells j lt l).in_use, x.in_use)

    -- a key that is in the table is found, with its value
    pub get-Maps :
        (k : K) (v : ℕ)
        → Maps keys t.index_capacity t.index_list t.entries k v
        → get_with_flag keys t k ≡ some (v, true)
    unfolding get_with_flag
    get-Maps k v m = elim (search_lem keys t k x.capacity x.index x.in_use) [
      | inl (j, run, lt, l, e) ↦
          let same = x.index.distinct j m.cell lt m.inside l m.live (e ∙ sym m.has_key) in
          rw (run, read_lem t.entries t.entry_capacity (t.index_list j - 1) (entry_room j lt l))
            (ap (λ (w : ℕ). some (w, true))
              (ap (λ i. (t.entries (t.index_list i - 1)).value) same ∙ m.has_value))
      | inr (run, a) ↦ absurd (a m.cell m.inside m.live m.has_key)
    ]

    -- a key that is not in the table is not found
    pub get-Absent :
        (k : K)
        → Absent keys t.index_capacity t.index_list t.entries k
        → get_with_flag keys t k ≡ some (0, false)
    unfolding get_with_flag
    get-Absent k a = elim (search_lem keys t k x.capacity x.index x.in_use) [
      | inl (j, run, lt, l, e) ↦ absurd (a j lt l e)
      | inr (run, a') ↦ rw run
    ]

    pub Maps-or_Absent :
        (k : K)
        → ((v : ℕ) × Maps keys t.index_capacity t.index_list t.entries k v)
          ⊎ Absent keys t.index_capacity t.index_list t.entries k
    Maps-or_Absent k = elim (search_lem keys t k x.capacity x.index x.in_use) [
      | inl (j, run, lt, l, e) ↦ inl (
        (t.entries (t.index_list j - 1)).value,
        record { cell = j; inside = lt; live = l; has_key = e; has_value = refl },
      )
      | inr (run, a) ↦ inr a
    ]

    -- On a valid table `htable_get_with_flag` does not fault. It returns `(v, true)` exactly when
    -- a live cell has the key and the value `v`, and `(NULL, false)` exactly when none has the key.
    pub get_iff :
        (k : K) (v : ℕ)
        → ((get_with_flag keys t k ≡ some (v, true))
            ↔ Maps keys t.index_capacity t.index_list t.entries k v)
          × ((get_with_flag keys t k ≡ some (0, false))
              ↔ Absent keys t.index_capacity t.index_list t.entries k)
    get_iff k v = elim (Maps-or_Absent k) [
      | inl (w, m) ↦
          let found = get-Maps k w m in
          (
            (
              λ e.
                  let same : w ≡ v = cc (sym found ∙ e) in
                  subst (Maps keys t.index_capacity t.index_list t.entries k) same m,
              get-Maps k v,
            ),
            (λ e. absurd (cc (sym found ∙ e)), get-Absent k),
          )
      | inr a ↦
          let missing = get-Absent k a in
          ((λ e. absurd (cc (sym missing ∙ e)), get-Maps k v), (λ e. a, get-Absent k))
    ]

  -- where two tables map a key alike, `htable_get_with_flag` returns the same
  pub get-Keeps :
      (t t' : Table K) (k : K)
      → IsIndexed keys t
      → IsIndexed keys t'
      → Keeps keys t t' k
      → get_with_flag keys t' k ≡ get_with_flag keys t k
  get-Keeps t t' k x x' h = elim (Maps-or_Absent t x k) [
    | inl (v, m) ↦ get-Maps t' x' k v (h.maps v m) ∙ sym (get-Maps t x k v m)
    | inr a ↦ get-Absent t' x' k (h.absent a) ∙ sym (get-Absent t x k a)
  ]

  -- a table that is set at a key reads so
  pub get-IsWritten :
      (t t' : Table K) (k : K) (v : ℕ)
      → IsIndexed keys t
      → IsWritten keys t t' k v
      → (q : K)
      → get_with_flag keys t' q
        ≡ (if keys.equal q k then some (v, true) else get_with_flag keys t q)
  get-IsWritten t t' k v x s q = elim (Bool-cases (keys.equal q k)) [
    | inl y ↦ let e = (keys.equal_iff q k).0 y in rw (y, e) (get-Maps t' s.valid.indexed k v s.self)
    | inr y ↦ rw y (
        get-Keeps t t' q x s.valid.indexed
          (s.others q (λ e. cc (sym y ∙ (keys.equal_iff q k).1 e))))
  ]
