-- ===== src/Htable/Rehash.antt =====
-- `htable_rehash` and `htable_grow` of src/hash/htable.c. The new arrays and the counters of
-- `htable_rehash` are a table under construction.
use freehttpd.Base.{
  ℕ, zero, suc, ◌+◌, ◌-◌, ◌*◌, ◌/◌, Bool, true, false, Option, none, some, ◌||◌, ltb, ◌==◌,
  if◌then◌else◌, read, write, assert, u32, u64, ◌>>=◌, ◌>>◌,
}
use freehttpd.Htable.Table.{
  Entry, Table, Alloc, uint32_max, deleted, empty, masked, link_tail, set_index,
}
use freehttpd.Htable.Probe.{find_empty}

module _ {K : Type 0} where
  -- the locals of `htable_rehash` before its loop, over fresh arrays
  unfoldable pub fresh : Table K → ℕ → ℕ → (ℕ → Entry K) → Table K
  fresh t new_index_capacity new_entry_capacity memory = record {
    entries = memory;
    index_list = λ _. empty;
    deleted_index_list = t.deleted_index_list;
    count = t.count;
    entry_next_insert = 0;
    head_idx = uint32_max;
    tail_idx = uint32_max;
    index_capacity = new_index_capacity;
    entry_capacity = new_entry_capacity;
    deleted_count = 0;
    deleted_capacity = t.deleted_capacity;
  }

  -- `new_index_list[h] = v`, or `return false` where no empty cell was found
  unfoldable pub index_at : Table K → ℕ → Option ℕ → Option (Option (Table K))
  index_at b v none = some none
  index_at b v (some h) = do b' ← set_index b h v; some (some b')

  -- an entry is copied to the next place of `b`, and the place is indexed; `some none` is
  -- `return false`
  unfoldable pub move_entry : Entry K → Table K → Option (Option (Table K))
  unfolding index_at
  move_entry e b = do
    assert (ltb b.entry_next_insert b.entry_capacity)
    es ← write b.entries b.entry_capacity b.entry_next_insert e
    b₁ ←
        link_tail (record b { entries = es; entry_next_insert = u32 (b.entry_next_insert + 1) })
          b.entry_next_insert
    found ← find_empty b₁ b₁.index_capacity (masked b₁.index_capacity e.cached_hash)
    index_at b₁ (u32 (b.entry_next_insert + 1)) found

  -- one round of the loop over the old index
  unfoldable pub rehash_cell : Table K → ℕ → Table K → Option (Option (Table K))
  rehash_cell t i b = do
    c ← read t.index_list t.index_capacity i
    if c == empty || c == deleted
        then some (some b)
        else do e ← read t.entries t.entry_capacity (c - 1); move_entry e b

  unfoldable pub rehash_from : Table K → ℕ → ℕ → Table K → Option (Option (Table K))
  rehash_from t zero i b = some (some b)
  rehash_from t (suc n) i b =
      rehash_cell t i b >>= λ r. elim r [ none ↦ some none | some b' ↦ rehash_from t n (suc i) b' ]

  unfoldable pub rehash : Table K → ℕ → ℕ → (ℕ → Entry K) → Option (Option (Table K))
  unfolding rehash_from
  rehash t new_index_capacity new_entry_capacity memory =
      rehash_from t t.index_capacity 0 (fresh t new_index_capacity new_entry_capacity memory)

  -- the table after the call, and what it returns
  unfoldable pub grow : Alloc K → Table K → Option (Table K × Bool)
  grow env t =
      let new_index_capacity = u64 (t.index_capacity * 2) in
      let new_entry_capacity = u64 (new_index_capacity * 3) / 4 in
      if env.calloc_ok
      then elim env.malloc_entries [
        | none ↦ some (t, false)
        | some memory ↦ rehash t new_index_capacity new_entry_capacity memory >>= λ r. elim r [
          | none ↦ some (t, false)
          | some b ↦ some (b, true)
        ]
      ]
      else some (t, false)
