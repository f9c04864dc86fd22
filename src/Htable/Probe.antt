-- ===== src/Htable/Probe.antt =====
-- The probe loops of src/hash/htable.c. Each is a `for` of `index_capacity` rounds, recursion on
-- the rounds left. `none` for a target is UINT64_MAX.
use freehttpd.Base.{ℕ, zero, suc, ◌-◌, Option, none, some, ◌==◌, if◌then◌else◌, read, ◌>>=◌}
use freehttpd.Htable.Table.{Keys, Table, deleted, empty, next_hash}

-- the first target is kept
unfoldable pub first : Option ℕ → ℕ → Option ℕ
first none h = some h
first (some h') h = some h'

-- How the loop of `htable_set_with_flag` ends: at the entry that has the key, or at a target.
pub data Slot : Type 0 where
  existing : ℕ → Slot
  vacant : Option ℕ → Slot

module _ {K : Type 0} (keys : Keys K) (t : Table K) (key : K) where
  -- `htable_get_with_flag` and `htable_delete_with_flag`: the cell and the entry of the key
  unfoldable pub search : ℕ → ℕ → Option (Option (ℕ × ℕ))
  search zero h = some none
  search (suc n) h =
      let rest = search n (next_hash t.index_capacity h) in
      do
        c ← read t.index_list t.index_capacity h
        if c == deleted then rest else if c == empty then some none else do
          e ← read t.entries t.entry_capacity (c - 1)
          if keys.equal e.key key then some (some (h, c - 1)) else rest

  -- `htable_set_with_flag`
  unfoldable pub find_slot : ℕ → ℕ → Option ℕ → Option Slot
  find_slot zero h target = some (vacant target)
  find_slot (suc n) h target =
      let passed = find_slot n (next_hash t.index_capacity h) (first target h) in
      let rest = find_slot n (next_hash t.index_capacity h) target in
      do
        c ← read t.index_list t.index_capacity h
        if c == deleted then passed else if c == empty then some (vacant (first target h)) else do
          e ← read t.entries t.entry_capacity (c - 1)
          if keys.equal e.key key then some (existing (c - 1)) else rest

-- `htable_rehash`: the first empty cell
unfoldable pub find_empty : {K : Type 0} → Table K → ℕ → ℕ → Option (Option ℕ)
find_empty t zero h = some none
find_empty t (suc n) h =
    let rest = find_empty t n (next_hash t.index_capacity h) in
    do c ← read t.index_list t.index_capacity h; if c == empty then some (some h) else rest
