-- ===== src/Htable/Delete.antt =====
-- `htable_delete_with_flag`.
use native.Mathlib.Nat.{mod-eq_of_lt}
use freehttpd.Base.{
  ℕ, ◌+◌, ◌-◌, ◌*◌, ◌^◌, ◌<◌, ◌≡◌, ◌≢◌, refl, sym, ◌∙◌, ap, subst, inl, inr, true, false, some,
  ◌==◌, leb, if◌then◌else◌, arith, eq_or_ne, Bool-cases, read_lem, write_lem, update, update_self,
  update_ne, u64,
}
use freehttpd.Htable.Table.{Keys, Entry, Table, Alloc, deleted}
use freehttpd.Htable.Live.{is_live, live_count, live_count-update, live_count-le}
use freehttpd.Htable.Index.{Maps, Absent, IsIndex-same, IsIndex-delete, entry_once}
use freehttpd.Htable.Ops.{reserve_deleted, remove_entry, delete_found, delete_with_flag}
use freehttpd.Htable.Valid.{IsLinked, IsStack, IsIndexed, IsValid}
use freehttpd.Htable.Links.{SameData, unlink_lem}
use freehttpd.Htable.Insert.{Keeps, small_next, set_index_lem}
use freehttpd.Htable.Search.{search_lem}

module _ {K : Type 0} (keys : Keys K) where
  -- `t'` is `t` without `key`.
  pub record IsRemoved (t t' : Table K) (key : K) : Type 0 where
    pub valid : IsValid keys t'
    pub gone : Absent keys t'.index_capacity t'.index_list t'.entries key
    pub others : (q : K) → q ≢ key → Keeps keys t t' q

  -- The table without the entry at the live cell `h`, from the parts of `remove_entry`.
  module _ (t : Table K) (h : ℕ) (valid : IsValid keys t) (hl : h < t.index_capacity)
      (live : is_live (t.index_list h) ≡ true) (roomy : t.deleted_count < t.deleted_capacity)
      (es' : ℕ → Entry K) (head' tail' : ℕ) (same : SameData t.entries es')
      (linked : IsLinked t.entry_next_insert head' tail' es') where
    abbrev removed : Table K
    removed = record t {
      index_list = update t.index_list h deleted;
      entries = es';
      deleted_index_list = update t.deleted_index_list t.deleted_count (t.index_list h - 1);
      deleted_count = t.deleted_count + 1;
      head_idx = head';
      tail_idx = tail';
      count = t.count - 1;
    }

    ix : IsIndexed keys t
    ix = valid.indexed

    live_removed :
        live_count (update t.index_list h deleted) t.index_capacity + 1
        ≡ live_count t.index_list t.index_capacity
    live_removed =
        ground (arith, live_count-update t.index_list t.index_capacity h deleted hl, live)

    -- a cell that is live after the write was live before, and is another one
    before :
        (j : ℕ)
        → is_live (update t.index_list h deleted j) ≡ true
        → (h ≢ j)
          × (is_live (t.index_list j) ≡ true)
          × (update t.index_list h deleted j ≡ t.index_list j)
    before j l = ground arith

    unnamed_removed :
        (n j : ℕ)
        → n < t.deleted_count + 1
        → j < t.index_capacity
        → is_live (update t.index_list h deleted j) ≡ true
        → update t.index_list h deleted j - 1
          ≢ update t.deleted_index_list t.deleted_count (t.index_list h - 1) n
    unnamed_removed n j nl jl l =
        let (ne, old, same_cell) = before j l in
        elim (eq_or_ne t.deleted_count n) [
          | inl e ↦
              rw
                (
                  same_cell,
                  update_self t.deleted_index_list t.deleted_count n (t.index_list h - 1) e,
                )
                (λ z. ne (entry_once keys ix.index h j hl jl live old (sym z)))
          | inr nn ↦
              rw
                (
                  same_cell,
                  update_ne t.deleted_index_list t.deleted_count n (t.index_list h - 1) nn,
                )
                (ix.stack.unnamed n j (omega arith) jl old)
        ]

    removed-IsStack : IsStack removed
    removed-IsStack = record {
      room = omega arith;
      inside = λ n nl. ground (arith, ix.stack.inside n, (ix.index.cells h hl live).in_use);
      unnamed = unnamed_removed;
      once = λ n m nl ml e.
          ground (arith, ix.stack.once n m, ix.stack.unnamed n h, ix.stack.unnamed m h, hl, live);
    }

    removed-IsRemoved : IsRemoved t removed (t.entries (t.index_list h - 1)).key
    removed-IsRemoved = record {
      valid = record {
        indexed = record {
          capacity = ix.capacity;
          entry_cap = ix.entry_cap;
          in_use = ix.in_use;
          index =
              IsIndex-delete keys h
                (IsIndex-same keys es' (λ i. let s = same i in (s.0, s.1)) ix.index);
          linked = linked;
          stack = removed-IsStack;
          total = omega (arith, live_removed, ix.total);
        };
        counted = omega (arith, live_removed, valid.counted);
      };
      gone = λ j jl l e.
          let (ne, old, same_cell) = before j l in
          ne (
            ix.index.distinct h j hl jl live old
              (sym e ∙ ap (λ c. (es' (c - 1)).key) same_cell ∙ (same (t.index_list j - 1)).0));
      others = λ q ne. record {
        maps = λ v m.
            let nq : h ≢ m.cell =
              λ e. ne (sym m.has_key ∙ ap (λ c. (t.entries (t.index_list c - 1)).key) (sym e)) in
            let u = update_ne t.index_list h m.cell deleted nq in
            let s = same (t.index_list m.cell - 1) in
            record {
              cell = m.cell;
              inside = m.inside;
              live = rw u m.live;
              has_key = rw (u, s.0) m.has_key;
              has_value = rw (u, s.2) m.has_value;
            };
        absent = λ a j jl l e.
            let (nj, old, same_cell) = before j l in
            a j jl old
              (sym (same (t.index_list j - 1)).0 ∙ ap (λ c. (es' (c - 1)).key) (sym same_cell) ∙ e);
      };
    }

  -- the list of deleted entries gets room for one more, if `realloc` succeeds
  pub reserve_lem :
      (env : Alloc K) (t : Table K)
      → IsValid keys t
      → env.realloc_ok ≡ true
      → (cap' : ℕ) × (reserve_deleted env t ≡ some (record t { deleted_capacity = cap' }))
        × (t.deleted_count < cap')
  unfolding reserve_deleted
  reserve_lem env t valid ok =
      let ix = valid.indexed in
      elim (Bool-cases (leb t.deleted_capacity t.deleted_count)) [
        | inl e ↦ (
          if t.deleted_capacity == 0 then 16 else u64 (t.deleted_capacity * 2),
          rw (e, ok),
          ground (arith, small_next keys ix, ix.in_use, ix.total, ix.stack.room),
        )
        | inr e ↦ (t.deleted_capacity, rw e, ground arith)
      ]

  pub more_room :
      (t : Table K) (cap' : ℕ)
      → t.deleted_count < cap'
      → IsValid keys t
      → IsValid keys (record t { deleted_capacity = cap' })
  more_room t cap' lt v =
      let x = v.indexed in
      record {
        indexed = record {
          capacity = x.capacity;
          entry_cap = x.entry_cap;
          in_use = x.in_use;
          index = x.index;
          linked = x.linked;
          stack = record {
            room = omega arith;
            inside = x.stack.inside;
            unnamed = x.stack.unnamed;
            once = x.stack.once;
          };
          total = x.total;
        };
        counted = v.counted;
      }

  -- The entry of a live cell is removed.
  remove_entry_lem :
      (t : Table K) (h : ℕ)
      → IsValid keys t
      → h < t.index_capacity
      → is_live (t.index_list h) ≡ true
      → t.deleted_count < t.deleted_capacity
      → (t' : Table K) × (remove_entry t h (t.index_list h - 1) ≡ some t')
        × IsRemoved t t' (t.entries (t.index_list h - 1)).key
        × (t'.count + 1 ≡ t.count)
        × ((t'.entries (t.index_list h - 1)).value ≡ (t.entries (t.index_list h - 1)).value)
        × (t'.entry_capacity ≡ t.entry_capacity)
        × (t'.index_capacity ≡ t.index_capacity)
        × (t'.entry_next_insert ≡ t.entry_next_insert)
  unfolding remove_entry
  remove_entry_lem t h valid hl live roomy =
      let ix = valid.indexed in
      let small = small_next keys ix in
      let full : 0 < t.count =
        ground
          (arith, live_count-update t.index_list t.index_capacity h deleted hl, valid.counted) in
      let count_small = live_count-le t.index_list t.index_capacity in
      let t₁ : Table K = record t {
        deleted_index_list = update t.deleted_index_list t.deleted_count (t.index_list h - 1);
        deleted_count = t.deleted_count + 1;
      } in
      let dc64 : u64 (t.deleted_count + 1) ≡ t.deleted_count + 1 =
        mod-eq_of_lt {m = 2 ^ 64} (omega (arith, ix.total, ix.in_use)) in
      let count64 : u64 (t.count + (2 ^ 64 - 1)) ≡ t.count - 1 =
        omega (arith, ix.capacity.small, valid.counted) in
      let (es', head', tail', run, same, linked) =
        unlink_lem t₁ (t.index_list h - 1) (ix.index.cells h hl live).in_use ix.in_use ix.linked in
      (
        removed t h valid hl live roomy es' head' tail' same linked,
        rw (
          write_lem t.deleted_index_list t.deleted_capacity t.deleted_count (t.index_list h - 1)
              roomy,
          dc64,
          run,
          set_index_lem keys (record t₁ { entries = es'; head_idx = head'; tail_idx = tail' }) h
              deleted hl,
          count64,
        ),
        removed-IsRemoved t h valid hl live roomy es' head' tail' same linked,
        omega arith,
        (same (t.index_list h - 1)).2,
        refl,
        refl,
        refl,
      )

  -- What the entry of a live cell holds is returned, and the entry is removed.
  delete_found_lem :
      (env : Alloc K) (t : Table K) (h : ℕ)
      → IsValid keys t
      → env.realloc_ok ≡ true
      → h < t.index_capacity
      → is_live (t.index_list h) ≡ true
      → (t' : Table K) × (delete_found env t h (t.index_list h - 1)
          ≡ some (t', (t.entries (t.index_list h - 1)).value, true))
        × IsRemoved t t' (t.entries (t.index_list h - 1)).key
        × (t'.count + 1 ≡ t.count)
        × (t'.index_capacity ≡ t.index_capacity)
        × (t'.entry_next_insert ≡ t.entry_next_insert)
  unfolding delete_found
  delete_found_lem env t h valid ok lt l =
      let ix = valid.indexed in
      let (cap', res, roomy) = reserve_lem env t valid ok in
      let (t', run, gone, counted, val, ecap, icap, used) =
        remove_entry_lem (record t { deleted_capacity = cap' }) h (more_room t cap' roomy valid) lt
          l roomy in
      let inside : t.index_list h - 1 < t'.entry_capacity =
        rw ecap (omega (arith, (ix.index.cells h lt l).in_use, ix.in_use)) in
      (
        t',
        rw (
          res,
          delete_found,
          run,
          read_lem t'.entries t'.entry_capacity (t.index_list h - 1) inside,
          val,
        ),
        record {
          valid = gone.valid;
          gone = gone.gone;
          others =
              λ q ne. record { maps = (gone.others q ne).maps; absent = (gone.others q ne).absent };
        },
        counted,
        icap,
        used,
      )

  -- On a valid table that maps the key to `v`, and when `realloc` succeeds,
  -- `htable_delete_with_flag` returns `v` and `true` and a valid table without the key.
  pub delete_lem :
      (env : Alloc K) (t : Table K) (key : K) (v : ℕ)
      → IsValid keys t
      → env.realloc_ok ≡ true
      → Maps keys t.index_capacity t.index_list t.entries key v
      → (t' : Table K) × (delete_with_flag keys env t key ≡ some (t', v, true))
        × IsRemoved t t' key
        × (t'.count + 1 ≡ t.count)
        × (t'.index_capacity ≡ t.index_capacity)
        × (t'.entry_next_insert ≡ t.entry_next_insert)
  unfolding delete_with_flag
  delete_lem env t key v valid ok m =
      let ix = valid.indexed in
      elim (search_lem keys t key ix.capacity ix.index ix.in_use) [
        | inr (run, a) ↦ absurd (a m.cell m.inside m.live m.has_key)
        | inl (j, run, lt, l, e) ↦
            let same = ix.index.distinct j m.cell lt m.inside l m.live (e ∙ sym m.has_key) in
            let val : (t.entries (t.index_list j - 1)).value ≡ v =
              ap (λ i. (t.entries (t.index_list i - 1)).value) same ∙ m.has_value in
            let (t', done, gone, counted, icap, used) = delete_found_lem env t j valid ok lt l in
            (t', rw (run, done, val), subst (IsRemoved t t') e gone, counted, icap, used)
      ]

  -- A key that is not in the table is not deleted, and the table stays.
  pub delete-Absent :
      (env : Alloc K) (t : Table K) (key : K)
      → IsIndexed keys t
      → Absent keys t.index_capacity t.index_list t.entries key
      → delete_with_flag keys env t key ≡ some (t, 0, false)
  unfolding delete_with_flag
  delete-Absent env t key x a = elim (search_lem keys t key x.capacity x.index x.in_use) [
    | inl (j, run, lt, l, e) ↦ absurd (a j lt l e)
    | inr (run, a') ↦ rw run
  ]
