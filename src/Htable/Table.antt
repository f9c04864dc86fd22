-- ===== src/Htable/Table.antt =====
-- The structs of src/hash/htable.h, the HT_* macros of a key type, the memory that an operation
-- is given, and the steps on a table that several operations share.
use freehttpd.Base.{
  ℕ, ◌+◌, ◌-◌, bit_and, ◌≡◌, ◌↔◌, Bool, true, Option, some, ◌==◌, if◌then◌else◌, write, u64, ◌>>=◌,
}

-- HT_KEY_HASH_CB and HT_KEY_EQUAL_CB. A key stands for its contents, so that HT_KEY_DUP_CB
-- returns the same key.
pub record Keys (K : Type 0) : Type 0 where
  pub equal : K → K → Bool
  pub hash : K → ℕ
  pub equal_iff : (a b : K) → (equal a b ≡ true) ↔ (a ≡ b)

-- `struct ht_entry`; a `void *` is a number, and 0 is NULL.
pub record Entry (K : Type 0) : Type 0 where
  pub key : K
  pub value : ℕ
  pub cached_hash : ℕ
  pub prev_idx : ℕ
  pub next_idx : ℕ

-- `struct htable`. An array is a function, and its capacity bounds each access.
pub record Table (K : Type 0) : Type 0 where
  pub entries : ℕ → Entry K
  pub index_list : ℕ → ℕ
  pub deleted_index_list : ℕ → ℕ
  pub count : ℕ
  pub entry_next_insert : ℕ
  pub head_idx : ℕ
  pub tail_idx : ℕ
  pub index_capacity : ℕ
  pub entry_capacity : ℕ
  pub deleted_count : ℕ
  pub deleted_capacity : ℕ

-- What the allocator does during one call: whether `calloc` and `realloc` succeed, whether the
-- key is copied, and the contents of the entries that `malloc` returns.
pub record Alloc (K : Type 0) : Type 0 where
  pub calloc_ok : Bool
  pub malloc_entries : Option (ℕ → Entry K)
  pub dup_ok : Bool
  pub realloc_ok : Bool

-- UINT32_MAX, the end of the entry list
abbrev pub uint32_max : ℕ
uint32_max = 0xffff_ffff

-- HT_DELETED
abbrev pub deleted : ℕ
deleted = uint32_max

-- HT_EMPTY
abbrev pub empty : ℕ
empty = 0

-- `hash & mask`, where `mask` is `cap - 1`
unfoldable pub masked : ℕ → ℕ → ℕ
masked cap hash = bit_and hash (cap - 1)

-- `(hash + 1) & mask`
unfoldable pub next_hash : ℕ → ℕ → ℕ
next_hash cap h = bit_and (u64 (h + 1)) (cap - 1)

module _ {K : Type 0} where
  -- `entries[i].prev_idx = v`
  unfoldable pub set_prev : Table K → ℕ → ℕ → Option (Table K)
  set_prev t i v = do
    es ← write t.entries t.entry_capacity i (record (t.entries i) { prev_idx = v })
    some (record t { entries = es })

  -- `entries[i].next_idx = v`
  unfoldable pub set_next : Table K → ℕ → ℕ → Option (Table K)
  set_next t i v = do
    es ← write t.entries t.entry_capacity i (record (t.entries i) { next_idx = v })
    some (record t { entries = es })

  -- the entry `idx` goes to the end of the list
  unfoldable pub link_tail : Table K → ℕ → Option (Table K)
  link_tail t idx =
      if t.tail_idx == uint32_max
      then (do
        t₁ ← set_next t idx uint32_max
        set_prev (record t₁ { head_idx = idx; tail_idx = idx }) idx uint32_max)
      else (do
        t₁ ← set_next t t.tail_idx idx
        t₂ ← set_prev t₁ idx t.tail_idx
        t₃ ← set_next t₂ idx uint32_max
        some (record t₃ { tail_idx = idx }))

  -- `index_list[h] = v`
  unfoldable pub set_index : Table K → ℕ → ℕ → Option (Table K)
  set_index t h v = do
    is ← write t.index_list t.index_capacity h v
    some (record t { index_list = is })
