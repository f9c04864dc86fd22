-- ===== src/Htable/Valid.antt =====
-- The invariant of `struct htable`.
use freehttpd.Base.{ℕ, ◌+◌, ◌-◌, ◌*◌, ◌/◌, ◌≤◌, ◌<◌, ◌≡◌, ◌≢◌, ◌⊎◌, true}
use freehttpd.Htable.Table.{Keys, Entry, Table, uint32_max}
use freehttpd.Htable.Cycle.{IsCapacity}
use freehttpd.Htable.Live.{is_live, live_count}
use freehttpd.Htable.Index.{IsIndex}

-- a link is the end of the list, or an entry in use
abbrev pub IsLink : ℕ → ℕ → Type 0
IsLink next x = (x ≡ uint32_max) ⊎ (x < next)

module _ {K : Type 0} where
  pub record IsLinked (next head tail : ℕ) (es : ℕ → Entry K) : Type 0 where
    pub head_in : IsLink next head
    pub tail_in : IsLink next tail
    pub prev_in : (i : ℕ) → i < next → IsLink next (es i).prev_idx
    pub next_in : (i : ℕ) → i < next → IsLink next (es i).next_idx

  -- The stack of deleted entries: in use, not named by a live cell, and each once.
  pub record IsStack (t : Table K) : Type 0 where
    pub room : t.deleted_count ≤ t.deleted_capacity
    pub inside : (n : ℕ) → n < t.deleted_count → t.deleted_index_list n < t.entry_next_insert
    pub unnamed :
        (n j : ℕ)
        → n < t.deleted_count
        → j < t.index_capacity
        → is_live (t.index_list j) ≡ true
        → t.index_list j - 1 ≢ t.deleted_index_list n
    pub once :
        (n m : ℕ)
        → n < t.deleted_count
        → m < t.deleted_count
        → t.deleted_index_list n ≡ t.deleted_index_list m
        → n ≡ m

  module _ (keys : Keys K) where
    -- all but the count, which `htable_rehash` does not keep
    pub record IsIndexed (t : Table K) : Type 0 where
      pub capacity : IsCapacity t.index_capacity
      pub entry_cap : t.entry_capacity ≡ t.index_capacity * 3 / 4
      pub in_use : t.entry_next_insert ≤ t.entry_capacity
      pub index : IsIndex keys t.index_capacity t.entry_next_insert t.index_list t.entries
      pub linked : IsLinked t.entry_next_insert t.head_idx t.tail_idx t.entries
      pub stack : IsStack t
      pub total : live_count t.index_list t.index_capacity + t.deleted_count ≡ t.entry_next_insert

    pub record IsValid (t : Table K) : Type 0 where
      pub indexed : IsIndexed t
      pub counted : t.count ≡ live_count t.index_list t.index_capacity
