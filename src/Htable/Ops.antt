-- ===== src/Htable/Ops.antt =====
-- The operations of src/hash/htable.c. The Boolean beside a result is what goes through `flag`.
use freehttpd.Base.{
  ℕ, zero, suc, ◌+◌, ◌-◌, ◌*◌, ◌/◌, ◌^◌, Bool, true, false, Option, none, some, List, [], ◌∷◌, ◌||◌,
  ◌&&◌, ltb, leb, ◌==◌, if◌then◌else◌, read, write, assert, u32, u64, ◌>>=◌, ◌>>◌,
}
use freehttpd.Htable.Table.{
  Keys, Table, Alloc, uint32_max, deleted, empty, masked, set_prev, set_next, link_tail, set_index,
}
use freehttpd.Htable.Probe.{existing, vacant, search, find_slot}
use freehttpd.Htable.Rehash.{grow}
use freehttpd.Utils.Round.{round_ceil2}

module _ {K : Type 0} where
  -- The first Boolean says whether `malloc` gives the struct; the arrays are as in `htable_grow`.
  unfoldable pub create : Bool → Alloc K → ℕ → Option (Option (Table K))
  create struct_ok env initial_cap = do
    assert (leb 2 initial_cap)
    let index_capacity = round_ceil2 initial_cap
    let entry_capacity = u64 (index_capacity * 3) / 4
    if struct_ok && env.calloc_ok
        then elim env.malloc_entries [
          | none ↦ some none
          | some memory ↦ some (
              some (record {
                entries = memory;
                index_list = λ _. empty;
                deleted_index_list = λ _. 0;
                count = 0;
                entry_next_insert = 0;
                head_idx = uint32_max;
                tail_idx = uint32_max;
                index_capacity = index_capacity;
                entry_capacity = entry_capacity;
                deleted_count = 0;
                deleted_capacity = 0;
              }))
        ]
        else some none

  -- `deleted_index_list` is shrunk when it is mostly unused
  unfoldable pub shrink_deleted : Alloc K → Table K → Table K
  shrink_deleted env t =
      if ltb 16 t.deleted_capacity
        && (ltb t.deleted_count (t.deleted_capacity / 4) && env.realloc_ok)
      then record t {
        deleted_capacity = if ltb t.deleted_count 4 then 4 else t.deleted_capacity / 2;
      }
      else t

  -- the place of a new entry: a deleted one, or the next
  unfoldable pub take_index : Alloc K → Table K → Option (Table K × ℕ)
  take_index env t =
      if t.deleted_count == 0
      then some
          (record t { entry_next_insert = u32 (t.entry_next_insert + 1) }, t.entry_next_insert)
      else (do
        idx ← read t.deleted_index_list t.deleted_capacity (t.deleted_count - 1)
        some (shrink_deleted env (record t { deleted_count = t.deleted_count - 1 }), idx))

  -- the entry's fields but its links
  unfoldable pub fill_entry : Table K → ℕ → K → ℕ → ℕ → Option (Table K)
  fill_entry t idx key value hash = do
    es ←
        write t.entries t.entry_capacity idx
          (record (t.entries idx) { key = key; value = value; cached_hash = hash })
    some (record t { entries = es })

  -- a key that is not in the table, at the cell `target`
  unfoldable pub insert_new : Keys K → Alloc K → Table K → K → ℕ → ℕ → Option (Table K)
  insert_new keys env t key value target = do
    (t₁, idx) ← take_index env t
    t₂ ← set_index t₁ target (u32 (idx + 1))
    t₃ ← fill_entry t₂ idx key value (keys.hash key)
    t₄ ← link_tail t₃ idx
    some (record t₄ { count = u64 (t₄.count + 1) })

  -- `htable_set_with_flag` behind `htable_grow`: the table, the result, and `*flag_created`
  unfoldable pub set_grown :
      Keys K → Alloc K → Table K → K → ℕ → Bool → Option (Table K × Bool × Bool)
  set_grown keys env t key value flag = do
    assert (ltb t.entry_next_insert t.entry_capacity)
    slot ← find_slot keys t key t.index_capacity (masked t.index_capacity (keys.hash key)) none
    elim slot [
      | existing idx ↦
          write t.entries t.entry_capacity idx (record (t.entries idx) { value = value }) >>= λ es.
          some (record t { entries = es }, true, false)
      | vacant none ↦ some (t, false, false)
      | vacant (some target) ↦
          if env.dup_ok
          then (insert_new keys env t key value target >>= λ t'. some (t', true, true))
          else some (t, false, flag)
    ]

  -- the test that `htable_grow` waits for
  unfoldable pub is_full : Table K → Bool
  is_full t =
      leb t.entry_capacity t.entry_next_insert
      || leb (u64 (t.index_capacity * 3)) (u64 (u64 (t.count + 1) * 4))

  unfoldable pub set_with_flag :
      Keys K → Alloc K → Table K → K → ℕ → Bool → Option (Table K × Bool × Bool)
  set_with_flag keys env t key value flag =
      if is_full t
      then (grow env t >>= λ r.
          if r.1 then set_grown keys env r.0 key value flag else some (r.0, false, false))
      else set_grown keys env t key value flag

  unfoldable pub set : Keys K → Alloc K → Table K → K → ℕ → Option (Table K × Bool)
  set keys env t key value = do
    (t', done, _) ← set_with_flag keys env t key value false
    some (t', done)

  unfoldable pub get_with_flag : Keys K → Table K → K → Option (ℕ × Bool)
  get_with_flag keys t key = do
    found ← search keys t key t.index_capacity (masked t.index_capacity (keys.hash key))
    elim found [
      | none ↦ some (0, false)
      | some (h, idx) ↦ read t.entries t.entry_capacity idx >>= λ e. some (e.value, true)
    ]

  unfoldable pub get : Keys K → Table K → K → Option ℕ
  get keys t key = do (value, _) ← get_with_flag keys t key; some value

  unfoldable pub has : Keys K → Table K → K → Option Bool
  has keys t key = do (_, flag) ← get_with_flag keys t key; some flag

  -- room for one more deleted index; `none` is a failed `realloc`
  unfoldable pub reserve_deleted : Alloc K → Table K → Option (Table K)
  reserve_deleted env t =
      if leb t.deleted_capacity t.deleted_count
      then (if env.realloc_ok
          then some (record t {
            deleted_capacity = if t.deleted_capacity == 0 then 16 else u64 (t.deleted_capacity * 2);
          })
          else none)
      else some t

  -- the entry leaves the list
  unfoldable pub unlink : Table K → ℕ → Option (Table K)
  unlink t idx = do
    e ← read t.entries t.entry_capacity idx
    let t₁ = record t {
      head_idx = if idx == t.head_idx then e.next_idx else t.head_idx;
      tail_idx = if idx == t.tail_idx then e.prev_idx else t.tail_idx;
    }
    t₂ ← if e.next_idx == uint32_max then some t₁ else set_prev t₁ e.next_idx e.prev_idx
    if e.prev_idx == uint32_max then some t₂ else set_next t₂ e.prev_idx e.next_idx

  -- the entry `idx`, indexed by the cell `h`, is deleted, in a table with room for its index
  unfoldable pub remove_entry : Table K → ℕ → ℕ → Option (Table K)
  remove_entry t h idx = do
    ds ← write t.deleted_index_list t.deleted_capacity t.deleted_count idx
    t₁ ←
        unlink (record t { deleted_index_list = ds; deleted_count = u64 (t.deleted_count + 1) }) idx
    t₂ ← set_index t₁ h deleted
    some (record t₂ { count = u64 (t₂.count + (2 ^ 64 - 1)) })

  -- what `htable_delete_with_flag` does once the loop is at the key's cell and entry
  unfoldable pub delete_found : Alloc K → Table K → ℕ → ℕ → Option (Table K × ℕ × Bool)
  delete_found env t h idx = elim (reserve_deleted env t) [
    | none ↦ some (t, 0, false)
    | some t₁ ↦ remove_entry t₁ h idx >>= λ t₂.
        read t₂.entries t₂.entry_capacity idx >>= λ e. some (t₂, e.value, true)
  ]

  -- the table, the value, and `*flag`
  unfoldable pub delete_with_flag : Keys K → Alloc K → Table K → K → Option (Table K × ℕ × Bool)
  delete_with_flag keys env t key = do
    found ← search keys t key t.index_capacity (masked t.index_capacity (keys.hash key))
    elim found [ none ↦ some (t, 0, false) | some (h, idx) ↦ delete_found env t h idx ]

  unfoldable pub delete : Keys K → Alloc K → Table K → K → Option (Table K × ℕ)
  delete keys env t key = do (t', value, _) ← delete_with_flag keys env t key; some (t', value)

  unfoldable pub count : Table K → ℕ
  count t = t.count

  -- `ht_foreach_template` and the loop of `htable_free_with_cleanup`: the keys and the values in
  -- the order of the list. `none` is also a list longer than the fuel. At the end of the list the
  -- macros compute `entries + UINT32_MAX`, which src/hash/htable.h itself notes as undefined, and do
  -- not use it: `none` covers the accesses here, not that pointer.
  unfoldable pub walk : Table K → ℕ → ℕ → Option (List (K × ℕ))
  walk t zero idx = if idx == uint32_max then some [] else none
  walk t (suc n) idx =
      let rest = λ (i : ℕ). walk t n i in
      if idx == uint32_max then some [] else do
        e ← read t.entries t.entry_capacity idx
        es ← rest e.next_idx
        some ((e.key, e.value) ∷ es)

  -- what `htable_free_with_cleanup` frees: each key, and each value by the callback
  unfoldable pub free_with_cleanup : Table K → Option (List (K × ℕ))
  unfolding walk
  free_with_cleanup t = walk t t.count t.head_idx
