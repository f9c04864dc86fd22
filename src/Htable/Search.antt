-- ===== src/Htable/Search.antt =====
-- The loop of `htable_get_with_flag` and `htable_delete_with_flag`: it stays inside the arrays, and
-- finds the cell of the key exactly when there is one.
use freehttpd.Base.{
  ℕ, zero, suc, ◌+◌, ◌-◌, ◌≤◌, ◌<◌, ◌≡◌, ◌≢◌, refl, sym, subst, ◌∙◌, ◌⊎◌, inl, inr, true, Option,
  none, some, if◌then◌else◌, arith, eq_or_ne, Bool-cases, read_lem,
}
use freehttpd.Htable.Table.{Keys, Table, deleted, empty, masked, next_hash}
use freehttpd.Htable.Cycle.{IsCapacity, nth, nth-lt, masked-lt}
use freehttpd.Htable.Live.{is_live}
use freehttpd.Htable.Index.{IsIndex, Absent}
use freehttpd.Htable.Probe.{search}

pub cell_cases : (c : ℕ) → (c ≡ deleted) ⊎ (c ≡ empty) ⊎ (is_live c ≡ true)
cell_cases c = ground arith

module _ {K : Type 0} (keys : Keys K) (t : Table K) (key : K) where
  -- what a round does at each kind of cell
  search-deleted :
      (n h : ℕ)
      → h < t.index_capacity
      → t.index_list h ≡ deleted
      → search keys t key (suc n) h ≡ search keys t key n (next_hash t.index_capacity h)
  unfolding search
  search-deleted n h lt e = rw (read_lem t.index_list t.index_capacity h lt, e)

  search-empty :
      (n h : ℕ)
      → h < t.index_capacity
      → t.index_list h ≡ empty
      → search keys t key (suc n) h ≡ some none
  unfolding search
  search-empty n h lt e = rw (read_lem t.index_list t.index_capacity h lt, e)

  search-live :
      (n h : ℕ)
      → h < t.index_capacity
      → is_live (t.index_list h) ≡ true
      → t.index_list h - 1 < t.entry_capacity
      → search keys t key (suc n) h ≡ (
          if keys.equal (t.entries (t.index_list h - 1)).key key
          then some (some (h, t.index_list h - 1))
          else search keys t key n (next_hash t.index_capacity h))
  unfolding search
  search-live n h lt l room = ground (
    arith,
    read_lem t.index_list t.index_capacity h lt,
    read_lem t.entries t.entry_capacity (t.index_list h - 1) room,
  )

  -- what the loop may return: nothing, or a live cell with the key, and its entry
  abbrev pub IsFound : Option (ℕ × ℕ) → Type 0
  IsFound none = Unit {0}
  IsFound (some (j, idx)) =
      (j < t.index_capacity)
      × (is_live (t.index_list j) ≡ true)
      × (idx ≡ t.index_list j - 1)
      × ((t.entries (t.index_list j - 1)).key ≡ key)

  module _ (c : IsCapacity t.index_capacity)
      (ix : IsIndex keys t.index_capacity t.entry_next_insert t.index_list t.entries)
      (fits : t.entry_next_insert ≤ t.entry_capacity) where
    abbrev home : ℕ
    home = masked t.index_capacity (keys.hash key)

    abbrev at : ℕ → ℕ
    at m = nth t.index_capacity home m

    at-lt : (m : ℕ) → at m < t.index_capacity
    at-lt m = nth-lt c home m (masked-lt c (keys.hash key))

    room :
        (j : ℕ)
        → j < t.index_capacity
        → is_live (t.index_list j) ≡ true
        → t.index_list j - 1 < t.entry_capacity
    room j lt l = omega (arith, (ix.cells j lt l).in_use)

    search-IsFound :
        (n m : ℕ) → (r : Option (ℕ × ℕ)) × (search keys t key n (at m) ≡ some r) × IsFound r
    unfolding search nth
    search-IsFound zero m = (none, refl, tt)
    search-IsFound (suc n) m = elim (cell_cases (t.index_list (at m))) [
      | inl e ↦
          let (r, run, p) = search-IsFound n (suc m) in
          (r, search-deleted n (at m) (at-lt m) e ∙ run, p)
      | inr (inl e) ↦ (none, search-empty n (at m) (at-lt m) e, tt)
      | inr (inr l) ↦
          let step = search-live n (at m) (at-lt m) l (room (at m) (at-lt m) l) in
          elim (Bool-cases (keys.equal (t.entries (t.index_list (at m) - 1)).key key)) [
            | inl y ↦ (
              some (at m, t.index_list (at m) - 1),
              rw (step, y),
              (at-lt m, l, refl, (keys.equal_iff _ _).0 y),
            )
            | inr y ↦ let (r, run, p) = search-IsFound n (suc m) in (r, rw (step, y) run, p)
          ]
    ]

    -- a cell with the key stops the loop
    search_complete :
        (n m d : ℕ)
        → m ≤ d
        → d < m + n
        → is_live (t.index_list (at d)) ≡ true
        → (t.entries (t.index_list (at d) - 1)).key ≡ key
        → ((i : ℕ) → i < d → t.index_list (at i) ≢ empty)
        → search keys t key n (at m) ≢ some none
    unfolding search nth
    search_complete zero m d lo hi l k open_path = absurd (omega arith)
    search_complete (suc n) m d lo hi l k open_path = elim (eq_or_ne m d) [
      | inl e ↦ λ bad.
          let l' = subst (λ (i : ℕ). is_live (t.index_list (at i)) ≡ true) (sym e) l in
          let y =
            (keys.equal_iff _ _).1
              (subst (λ (i : ℕ). (t.entries (t.index_list (at i) - 1)).key ≡ key) (sym e) k) in
          let found = rw y at (search-live n (at m) (at-lt m) l' (room (at m) (at-lt m) l')) in
          cc (sym found ∙ bad)
      | inr ne ↦
          let later = search_complete n (suc m) d (omega arith) (omega arith) l k open_path in
          elim (cell_cases (t.index_list (at m))) [
            | inl e ↦ λ bad. later (sym (search-deleted n (at m) (at-lt m) e) ∙ bad)
            | inr (inl e) ↦ absurd (open_path m (omega arith) e)
            | inr (inr l') ↦ λ bad.
                let step = search-live n (at m) (at-lt m) l' (room (at m) (at-lt m) l') in
                elim (Bool-cases (keys.equal (t.entries (t.index_list (at m) - 1)).key key)) [
                  | inl y ↦ cc (sym (rw y at step) ∙ bad)
                  | inr y ↦ later (sym (rw y at step) ∙ bad)
                ]
          ]
    ]

    -- The search does not fault. It returns the one cell that has the key, or there is none.
    pub search_lem :
        ((j : ℕ) × (search keys t key t.index_capacity home ≡ some (some (j, t.index_list j - 1)))
          × (j < t.index_capacity)
          × (is_live (t.index_list j) ≡ true)
          × ((t.entries (t.index_list j - 1)).key ≡ key))
        ⊎ ((search keys t key t.index_capacity home ≡ some none)
            × Absent keys t.index_capacity t.index_list t.entries key)
    unfolding nth
    search_lem = let (r, run, p) = search-IsFound t.index_capacity 0 in result r run p
      where
        nothing :
            search keys t key t.index_capacity home ≡ some none
            → Absent keys t.index_capacity t.index_list t.entries key
        nothing run j lt l k =
            let path = rw k at (ix.cells j lt l).reach in
            search_complete t.index_capacity 0 path.dist (omega arith) (omega (arith, path.near))
              (rw path.ends l) (rw path.ends k) path.passable run

        result :
            (r : Option (ℕ × ℕ))
            → search keys t key t.index_capacity home ≡ some r
            → IsFound r
            → ((j : ℕ) × (search keys t key t.index_capacity home
                  ≡ some (some (j, t.index_list j - 1)))
                × (j < t.index_capacity)
                × (is_live (t.index_list j) ≡ true)
                × ((t.entries (t.index_list j - 1)).key ≡ key))
              ⊎ ((search keys t key t.index_capacity home ≡ some none)
                  × Absent keys t.index_capacity t.index_list t.entries key)
        result none run p = inr (run, nothing run)
        result (some (j, idx)) run (lt, l, e, k) = inl (j, rw e at run, lt, l, k)
