-- ===== src/Htable/Set.antt =====
-- `htable_set_with_flag` in a table that has room.
use freehttpd.Base.{
  ◌≤◌, ℕ, ◌+◌, ◌-◌, ◌<◌, ◌≡◌, ◌≢◌, refl, sym, ◌∙◌, ap, subst, inl, inr, Bool, true, false, some,
  arith, lt→ltb, write_lem, update, update_self, update_ne,
}
use freehttpd.Htable.Table.{Keys, Entry, Table, Alloc}
use freehttpd.Htable.Live.{is_live, find_dead}
use freehttpd.Htable.Index.{Maps, Absent, IsIndex-same}
use freehttpd.Htable.Ops.{set_grown}
use freehttpd.Htable.Valid.{IsIndexed, IsValid}
use freehttpd.Htable.Insert.{IsWritten, insert_new_lem}
use freehttpd.Htable.FindSlot.{find_slot_lem}

module _ {K : Type 0} (keys : Keys K) where
  -- The table with another value at the entry of the live cell `h`.
  module _ (t : Table K) (h v : ℕ) (valid : IsValid keys t) (hl : h < t.index_capacity)
      (live : is_live (t.index_list h) ≡ true) where
    abbrev assigned : Table K
    assigned = record t {
      entries =
          update t.entries (t.index_list h - 1)
            (record (t.entries (t.index_list h - 1)) { value = v });
    }

    ix : IsIndexed keys t
    ix = valid.indexed

    shape :
        (i : ℕ)
        → ((assigned.entries i).key ≡ (t.entries i).key)
          × ((assigned.entries i).cached_hash ≡ (t.entries i).cached_hash)
          × ((assigned.entries i).prev_idx ≡ (t.entries i).prev_idx)
          × ((assigned.entries i).next_idx ≡ (t.entries i).next_idx)
    shape i = ground arith

    assigned-IsWritten : IsWritten keys t assigned (t.entries (t.index_list h - 1)).key v
    assigned-IsWritten = record {
      valid = record {
        indexed = record {
          capacity = ix.capacity;
          entry_cap = ix.entry_cap;
          in_use = ix.in_use;
          index = IsIndex-same keys assigned.entries (λ i. let s = shape i in (s.0, s.1)) ix.index;
          linked = record {
            head_in = ix.linked.head_in;
            tail_in = ix.linked.tail_in;
            prev_in = λ i lt. rw (shape i).2 (ix.linked.prev_in i lt);
            next_in = λ i lt. rw (shape i).3 (ix.linked.next_in i lt);
          };
          stack = record {
            room = ix.stack.room;
            inside = ix.stack.inside;
            unnamed = ix.stack.unnamed;
            once = ix.stack.once;
          };
          total = ix.total;
        };
        counted = valid.counted;
      };
      self = record {
        cell = h;
        inside = hl;
        live = live;
        has_key = (shape (t.index_list h - 1)).0;
        has_value =
            ap (λ (e : Entry K). e.value)
              (update_self t.entries (t.index_list h - 1) (t.index_list h - 1) _ refl);
      };
      others = λ q ne. record {
        maps = λ w m.
            let apart : t.index_list h - 1 ≢ t.index_list m.cell - 1 =
              λ e. ne (sym m.has_key ∙ ap (λ i. (t.entries i).key) (sym e)) in
            record {
              cell = m.cell;
              inside = m.inside;
              live = m.live;
              has_key = (shape (t.index_list m.cell - 1)).0 ∙ m.has_key;
              has_value =
                  ap (λ (e : Entry K). e.value)
                    (update_ne t.entries (t.index_list h - 1) (t.index_list m.cell - 1) _ apart)
                  ∙ m.has_value;
            };
        absent = λ a j jl l e. a j jl l (sym (shape (t.index_list j - 1)).0 ∙ e);
      };
    }

  -- a table with room for an entry has a free cell
  pub free_cell :
      (t : Table K)
      → IsIndexed keys t
      → t.entry_next_insert < t.entry_capacity
      → (j : ℕ) × (j < t.index_capacity) × (is_live (t.index_list j) ≡ false)
  free_cell t x lt = find_dead t.index_list t.index_capacity (omega (arith, x.total, x.entry_cap))

  -- A key that is in the table gets the value, and the count stays.
  pub set_grown-Maps :
      (env : Alloc K) (t : Table K) (key : K) (v w : ℕ) (flag : Bool)
      → IsValid keys t
      → t.entry_next_insert < t.entry_capacity
      → Maps keys t.index_capacity t.index_list t.entries key w
      → (t' : Table K) × (set_grown keys env t key v flag ≡ some (t', true, false))
        × IsWritten keys t t' key v
        × (t'.count ≡ t.count)
        × (t'.index_capacity ≡ t.index_capacity)
        × (t'.entry_next_insert ≤ t.entry_next_insert + 1)
  unfolding set_grown
  set_grown-Maps env t key v w flag valid lt m =
      let x = valid.indexed in
      let (free, fl, dead) = free_cell t x lt in
      elim (find_slot_lem keys t key x.capacity x.index x.in_use free fl dead) [
        | inr (c, run, cl, d, reach, a) ↦ absurd (a m.cell m.inside m.live m.has_key)
        | inl (j, run, jl, l, e) ↦ (
          assigned t j v valid jl l,
          rw (
            lt→ltb t.entry_next_insert t.entry_capacity lt,
            run,
            write_lem t.entries t.entry_capacity (t.index_list j - 1)
                (record (t.entries (t.index_list j - 1)) { value = v })
                (omega (arith, (x.index.cells j jl l).in_use, x.in_use)),
          ),
          subst (λ (k : K). IsWritten keys t (assigned t j v valid jl l) k v) e
              (assigned-IsWritten t j v valid jl l),
          refl,
          refl,
          (omega arith),
        )
      ]

  -- A key that is not in the table gets an entry, and the count goes up by one.
  pub set_grown-Absent :
      (env : Alloc K) (t : Table K) (key : K) (v : ℕ) (flag : Bool)
      → IsValid keys t
      → t.entry_next_insert < t.entry_capacity
      → env.dup_ok ≡ true
      → Absent keys t.index_capacity t.index_list t.entries key
      → (t' : Table K) × (set_grown keys env t key v flag ≡ some (t', true, true))
        × IsWritten keys t t' key v
        × (t'.count ≡ t.count + 1)
        × (t'.index_capacity ≡ t.index_capacity)
        × (t'.entry_next_insert ≤ t.entry_next_insert + 1)
  unfolding set_grown
  set_grown-Absent env t key v flag valid lt ok a =
      let x = valid.indexed in
      let (free, fl, dead) = free_cell t x lt in
      elim (find_slot_lem keys t key x.capacity x.index x.in_use free fl dead) [
        | inl (j, run, jl, l, e) ↦ absurd (a j jl l e)
        | inr (c, run, cl, d, reach, a') ↦
            let (t', ins, set, counted, icap, used) =
              insert_new_lem keys env t key v c valid lt cl d reach a in
            (
              t',
              rw (lt→ltb t.entry_next_insert t.entry_capacity lt, run) (simp (ok, ins)),
              set,
              counted,
              icap,
              used,
            )
      ]

  -- Without memory for the key nothing changes, and `*flag_created` is not written.
  pub set_grown-no_dup :
      (env : Alloc K) (t : Table K) (key : K) (v : ℕ) (flag : Bool)
      → IsValid keys t
      → t.entry_next_insert < t.entry_capacity
      → env.dup_ok ≡ false
      → Absent keys t.index_capacity t.index_list t.entries key
      → set_grown keys env t key v flag ≡ some (t, false, flag)
  unfolding set_grown
  set_grown-no_dup env t key v flag valid lt ok a =
      let x = valid.indexed in
      let (free, fl, dead) = free_cell t x lt in
      elim (find_slot_lem keys t key x.capacity x.index x.in_use free fl dead) [
        | inl (j, run, jl, l, e) ↦ absurd (a j jl l e)
        | inr (c, run, cl, d, reach, a') ↦
            rw (lt→ltb t.entry_next_insert t.entry_capacity lt, run, ok)
      ]
