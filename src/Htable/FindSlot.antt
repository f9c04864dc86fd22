-- ===== src/Htable/FindSlot.antt =====
-- The loop of `htable_set_with_flag`: it finds the entry of the key, or the first cell on the
-- key's path that can take a new entry.
use freehttpd.Base.{
  ℕ, zero, suc, ◌+◌, ◌-◌, ◌≤◌, ◌<◌, ◌≡◌, ◌≢◌, refl, sym, subst, ◌∙◌, ◌⊎◌, inl, inr, true, false,
  Option, none, some, if◌then◌else◌, arith, eq_or_ne, Bool-cases, read_lem,
}
use freehttpd.Htable.Table.{Keys, Table, deleted, empty, masked, next_hash}
use freehttpd.Htable.Cycle.{IsCapacity, nth, nth-lt, nth_covers, masked-lt}
use freehttpd.Htable.Live.{is_live}
use freehttpd.Htable.Index.{Reaches, IsIndex, Absent}
use freehttpd.Htable.Probe.{Slot, existing, vacant, first, find_slot}
use freehttpd.Htable.Search.{cell_cases}

module _ {K : Type 0} (keys : Keys K) (t : Table K) (key : K) where
  -- what a round does at each kind of cell
  find_slot-deleted :
      (n h : ℕ) (o : Option ℕ)
      → h < t.index_capacity
      → t.index_list h ≡ deleted
      → find_slot keys t key (suc n) h o
        ≡ find_slot keys t key n (next_hash t.index_capacity h) (first o h)
  unfolding find_slot
  find_slot-deleted n h o lt e = rw (read_lem t.index_list t.index_capacity h lt, e)

  find_slot-empty :
      (n h : ℕ) (o : Option ℕ)
      → h < t.index_capacity
      → t.index_list h ≡ empty
      → find_slot keys t key (suc n) h o ≡ some (vacant (first o h))
  unfolding find_slot
  find_slot-empty n h o lt e = rw (read_lem t.index_list t.index_capacity h lt, e)

  find_slot-live :
      (n h : ℕ) (o : Option ℕ)
      → h < t.index_capacity
      → is_live (t.index_list h) ≡ true
      → t.index_list h - 1 < t.entry_capacity
      → find_slot keys t key (suc n) h o ≡ (
          if keys.equal (t.entries (t.index_list h - 1)).key key
          then some (existing (t.index_list h - 1))
          else find_slot keys t key n (next_hash t.index_capacity h) o)
  unfolding find_slot
  find_slot-live n h o lt l room = ground (
    arith,
    read_lem t.index_list t.index_capacity h lt,
    read_lem t.entries t.entry_capacity (t.index_list h - 1) room,
  )

  module _ (c : IsCapacity t.index_capacity)
      (ix : IsIndex keys t.index_capacity t.entry_next_insert t.index_list t.entries)
      (fits : t.entry_next_insert ≤ t.entry_capacity) where
    abbrev home : ℕ
    home = masked t.index_capacity (keys.hash key)

    abbrev at : ℕ → ℕ
    at m = nth t.index_capacity home m

    at-lt : (m : ℕ) → at m < t.index_capacity
    at-lt m = nth-lt c home m (masked-lt c (keys.hash key))

    room :
        (j : ℕ)
        → j < t.index_capacity
        → is_live (t.index_list j) ≡ true
        → t.index_list j - 1 < t.entry_capacity
    room j lt l = omega (arith, (ix.cells j lt l).in_use)

    -- a cell that can take a new entry under the key
    abbrev pub IsTarget : Option ℕ → Type 0
    IsTarget none = Unit {0}
    IsTarget (some x) =
        (x < t.index_capacity)
        × (is_live (t.index_list x) ≡ false)
        × Reaches t.index_capacity t.index_list home x

    abbrev pub IsEnd : Slot → Type 0
    IsEnd (existing idx) =
        (j : ℕ) × (j < t.index_capacity)
        × (is_live (t.index_list j) ≡ true)
        × (idx ≡ t.index_list j - 1)
        × ((t.entries (t.index_list j - 1)).key ≡ key)
    IsEnd (vacant o) = IsTarget o

    Open : ℕ → Type 0
    Open m = (i : ℕ) → i < m → t.index_list (at i) ≢ empty

    first-IsTarget :
        (o : Option ℕ) (m : ℕ)
        → m < t.index_capacity
        → is_live (t.index_list (at m)) ≡ false
        → Open m
        → IsTarget o
        → IsTarget (first o (at m))
    unfolding first Open
    first-IsTarget none m lt d before i =
        (at-lt m, d, record { dist = m; near = lt; ends = refl; passable = before })
    first-IsTarget (some x) m lt d before i = i

    Open-suc : (m : ℕ) → t.index_list (at m) ≢ empty → Open m → Open (suc m)
    unfolding Open
    Open-suc m ne before i lt = elim (eq_or_ne i m) [
      | inl e ↦ λ z. ne (subst (λ (k : ℕ). t.index_list (at k) ≡ empty) e z)
      | inr n ↦ before i (omega arith)
    ]

    find_slot-IsEnd :
        (n m : ℕ) (o : Option ℕ)
        → m + n ≡ t.index_capacity
        → Open m
        → IsTarget o
        → (r : Slot) × (find_slot keys t key n (at m) o ≡ some r) × IsEnd r
    unfolding find_slot nth
    find_slot-IsEnd zero m o sum before i = (vacant o, refl, i)
    find_slot-IsEnd (suc n) m o sum before i = elim (cell_cases (t.index_list (at m))) [
      | inl e ↦
          let (r, run, p) =
            find_slot-IsEnd n (suc m) (first o (at m)) (omega arith)
              (Open-suc m (rw e (omega arith)) before)
              (first-IsTarget o m (omega arith) (rw e) before i) in
          (r, find_slot-deleted n (at m) o (at-lt m) e ∙ run, p)
      | inr (inl e) ↦ (
        vacant (first o (at m)),
        find_slot-empty n (at m) o (at-lt m) e,
        first-IsTarget o m (omega arith) (rw e) before i,
      )
      | inr (inr l) ↦
          let step = find_slot-live n (at m) o (at-lt m) l (room (at m) (at-lt m) l) in
          elim (Bool-cases (keys.equal (t.entries (t.index_list (at m) - 1)).key key)) [
            | inl y ↦ (
              existing (t.index_list (at m) - 1),
              rw (step, y),
              (at m, at-lt m, l, refl, (keys.equal_iff _ _).0 y),
            )
            | inr y ↦
                let (r, run, p) =
                  find_slot-IsEnd n (suc m) o (omega arith)
                    (Open-suc m (λ (e : t.index_list (at m) ≡ empty). ground arith) before) i in
                (r, rw (step, y) run, p)
          ]
    ]

    -- a cell with the key stops the loop
    find_slot_complete :
        (n m d : ℕ) (o o' : Option ℕ)
        → m ≤ d
        → d < m + n
        → is_live (t.index_list (at d)) ≡ true
        → (t.entries (t.index_list (at d) - 1)).key ≡ key
        → ((i : ℕ) → i < d → t.index_list (at i) ≢ empty)
        → find_slot keys t key n (at m) o ≢ some (vacant o')
    unfolding find_slot nth
    find_slot_complete zero m d o o' lo hi l k open_path = absurd (omega arith)
    find_slot_complete (suc n) m d o o' lo hi l k open_path = elim (eq_or_ne m d) [
      | inl e ↦ λ bad.
          let l' = subst (λ (i : ℕ). is_live (t.index_list (at i)) ≡ true) (sym e) l in
          let y =
            (keys.equal_iff _ _).1
              (subst (λ (i : ℕ). (t.entries (t.index_list (at i) - 1)).key ≡ key) (sym e) k) in
          let found = rw y at (find_slot-live n (at m) o (at-lt m) l' (room (at m) (at-lt m) l')) in
          cc (sym found ∙ bad)
      | inr ne ↦
          let later = λ (o₁ : Option ℕ).
            find_slot_complete n (suc m) d o₁ o' (omega arith) (omega arith) l k open_path in
          elim (cell_cases (t.index_list (at m))) [
            | inl e ↦
                λ bad. later (first o (at m)) (sym (find_slot-deleted n (at m) o (at-lt m) e) ∙ bad)
            | inr (inl e) ↦ absurd (open_path m (omega arith) e)
            | inr (inr l') ↦ λ bad.
                let step = find_slot-live n (at m) o (at-lt m) l' (room (at m) (at-lt m) l') in
                elim (Bool-cases (keys.equal (t.entries (t.index_list (at m) - 1)).key key)) [
                  | inl y ↦ cc (sym (rw y at step) ∙ bad)
                  | inr y ↦ later o (sym (rw y at step) ∙ bad)
                ]
          ]
    ]

    -- a target that the loop has is kept
    find_slot-keeps : (n m x : ℕ) → find_slot keys t key n (at m) (some x) ≢ some (vacant none)
    unfolding find_slot nth first
    find_slot-keeps zero m x bad = cc bad
    find_slot-keeps (suc n) m x bad = elim (cell_cases (t.index_list (at m))) [
      | inl e ↦
          find_slot-keeps n (suc m) x (sym (find_slot-deleted n (at m) (some x) (at-lt m) e) ∙ bad)
      | inr (inl e) ↦ cc (sym (find_slot-empty n (at m) (some x) (at-lt m) e) ∙ bad)
      | inr (inr l) ↦
          let step = find_slot-live n (at m) (some x) (at-lt m) l (room (at m) (at-lt m) l) in
          elim (Bool-cases (keys.equal (t.entries (t.index_list (at m) - 1)).key key)) [
            | inl y ↦ cc (sym (rw y at step) ∙ bad)
            | inr y ↦ find_slot-keeps n (suc m) x (sym (rw y at step) ∙ bad)
          ]
    ]

    -- a free cell gives a target
    find_slot-finds :
        (n m d : ℕ)
        → m ≤ d
        → d < m + n
        → is_live (t.index_list (at d)) ≡ false
        → find_slot keys t key n (at m) none ≢ some (vacant none)
    unfolding find_slot nth first
    find_slot-finds zero m d lo hi dead bad = absurd (omega arith)
    find_slot-finds (suc n) m d lo hi dead bad = elim (cell_cases (t.index_list (at m))) [
      | inl e ↦
          find_slot-keeps n (suc m) (at m) (sym (find_slot-deleted n (at m) none (at-lt m) e) ∙ bad)
      | inr (inl e) ↦ cc (sym (find_slot-empty n (at m) none (at-lt m) e) ∙ bad)
      | inr (inr l) ↦
          let step = find_slot-live n (at m) none (at-lt m) l (room (at m) (at-lt m) l) in
          elim (eq_or_ne m d) [
            | inl e ↦
                cc (sym l ∙ subst (λ (i : ℕ). is_live (t.index_list (at i)) ≡ false) (sym e) dead)
            | inr ne ↦
                elim (Bool-cases (keys.equal (t.entries (t.index_list (at m) - 1)).key key)) [
                  | inl y ↦ cc (sym (rw y at step) ∙ bad)
                  | inr y ↦
                      find_slot-finds n (suc m) d (omega arith) (omega arith) dead
                        (sym (rw y at step) ∙ bad)
                ]
          ]
    ]

    -- In an index with a free cell the loop does not fault. It returns the entry of the key, or a
    -- free cell on the key's path, and then no cell has the key.
    pub find_slot_lem :
        (free : ℕ)
        → free < t.index_capacity
        → is_live (t.index_list free) ≡ false
        → ((j : ℕ) × (find_slot keys t key t.index_capacity home none
              ≡ some (existing (t.index_list j - 1)))
            × (j < t.index_capacity)
            × (is_live (t.index_list j) ≡ true)
            × ((t.entries (t.index_list j - 1)).key ≡ key))
          ⊎ ((x : ℕ) × (find_slot keys t key t.index_capacity home none ≡ some (vacant (some x)))
              × (x < t.index_capacity)
              × (is_live (t.index_list x) ≡ false)
              × Reaches t.index_capacity t.index_list home x
              × Absent keys t.index_capacity t.index_list t.entries key)
    unfolding nth Open
    find_slot_lem free lt dead =
        let (r, run, p) =
          find_slot-IsEnd t.index_capacity 0 none (omega arith) (λ i h. absurd (omega arith)) tt in
        result r run p
      where
        nothing :
            (o : Option ℕ)
            → find_slot keys t key t.index_capacity home none ≡ some (vacant o)
            → Absent keys t.index_capacity t.index_list t.entries key
        nothing o run j jl l k =
            let path = rw k at (ix.cells j jl l).reach in
            find_slot_complete t.index_capacity 0 path.dist none o (omega arith)
              (omega (arith, path.near)) (rw path.ends l) (rw path.ends k) path.passable run

        result :
            (r : Slot)
            → find_slot keys t key t.index_capacity home none ≡ some r
            → IsEnd r
            → ((j : ℕ) × (find_slot keys t key t.index_capacity home none
                  ≡ some (existing (t.index_list j - 1)))
                × (j < t.index_capacity)
                × (is_live (t.index_list j) ≡ true)
                × ((t.entries (t.index_list j - 1)).key ≡ key))
              ⊎ ((x : ℕ) × (find_slot keys t key t.index_capacity home none
                    ≡ some (vacant (some x)))
                  × (x < t.index_capacity)
                  × (is_live (t.index_list x) ≡ false)
                  × Reaches t.index_capacity t.index_list home x
                  × Absent keys t.index_capacity t.index_list t.entries key)
        result (existing idx) run (j, jl, l, e, k) = inl (j, rw e at run, jl, l, k)
        result (vacant (some x)) run (xl, d, reach) =
            inr (x, run, xl, d, reach, nothing (some x) run)
        result (vacant none) run p =
            let (d, dl, e) = nth_covers c home free (masked-lt c (keys.hash key)) lt in
            absurd
              (find_slot-finds t.index_capacity 0 d (omega arith) (omega arith) (rw e dead) run)
