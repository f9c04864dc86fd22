-- ===== src/Htable/Insert.antt =====
-- `htable_set_with_flag` at a key that is not in the table: the place of the new entry, and the
-- table that results.
use native.Mathlib.Nat.{mod-eq_of_lt}
use freehttpd.Base.{
  ℕ, ◌+◌, ◌-◌, ◌/◌, ◌^◌, ◌≤◌, ◌<◌, ◌≡◌, ◌≢◌, refl, sym, ◌∙◌, ap, subst, inl, inr, true, false, some,
  ltb, ◌&&◌, if◌then◌else◌, arith, eq_or_ne, Bool-cases, read_lem, write_lem, update, update_self,
  update_ne, eq→==, ne→==, u32, u64,
}
use freehttpd.Htable.Table.{Keys, Entry, Table, Alloc, masked, set_index}
use freehttpd.Htable.Live.{is_live, live_count, live_count-update, live_count-le}
use freehttpd.Htable.Index.{
  Reaches, IsIndex, Maps, Absent, IsIndex-insert, Maps-insert, Absent-insert, Maps-insert_self,
}
use freehttpd.Htable.Ops.{shrink_deleted, take_index, fill_entry, insert_new}
use freehttpd.Htable.Valid.{IsLink, IsLinked, IsStack, IsIndexed, IsValid}
use freehttpd.Htable.Links.{SameData, link_tail_lem}

module _ {K : Type 0} (keys : Keys K) where
  -- The table after `take_index`, up to the fields that it changes, and the place `idx`.
  pub record Taken (t : Table K) (next' dc' dcap' idx : ℕ) : Type 0 where
    pub idx_in : idx < next'
    pub le : t.entry_next_insert ≤ next'
    pub fits : next' ≤ t.entry_capacity
    pub room : dc' ≤ dcap'
    pub fewer : dc' ≤ t.deleted_count
    pub rest : (i : ℕ) → i < next' → i ≢ idx → i < t.entry_next_insert
    pub apart : (n : ℕ) → n < dc' → t.deleted_index_list n ≢ idx
    pub unnamed :
        (j : ℕ) → j < t.index_capacity → is_live (t.index_list j) ≡ true → t.index_list j - 1 ≢ idx
    pub sum : live_count t.index_list t.index_capacity + 1 + dc' ≡ next'

  -- a number of an entry plus 1 fits 32 bits and is neither HT_EMPTY nor HT_DELETED
  pub small_next : {t : Table K} → IsIndexed keys t → t.entry_capacity < 2 ^ 31
  small_next x = omega (arith, x.entry_cap, x.capacity.small)

  -- shrinking `deleted_index_list` changes its capacity only, and keeps room
  shrunk :
      (env : Alloc K) (t : Table K)
      → t.deleted_count ≤ t.deleted_capacity
      → (cap' : ℕ) × (shrink_deleted env t ≡ record t { deleted_capacity = cap' })
        × (t.deleted_count ≤ cap')
  unfolding shrink_deleted
  shrunk env t room =
      elim (Bool-cases (
        ltb 16 t.deleted_capacity
        && (ltb t.deleted_count (t.deleted_capacity / 4) && env.realloc_ok))) [
          | inl e ↦
              (if ltb t.deleted_count 4 then 4 else t.deleted_capacity / 2, rw e, ground arith)
          | inr e ↦ (t.deleted_capacity, rw e, room)
        ]

  pub take_index_lem :
      (env : Alloc K) (t : Table K)
      → IsIndexed keys t
      → t.entry_next_insert < t.entry_capacity
      → (next' dc' dcap' idx : ℕ) × (take_index env t
          ≡ some (
            record t { entry_next_insert = next'; deleted_count = dc'; deleted_capacity = dcap' },
            idx,
          ))
        × Taken t next' dc' dcap' idx
  unfolding take_index
  take_index_lem env t x lt = elim (eq_or_ne t.deleted_count 0) [
    | inl e ↦ (
      t.entry_next_insert + 1,
      t.deleted_count,
      t.deleted_capacity,
      t.entry_next_insert,
      rw (
        eq→== _ _ e,
        mod-eq_of_lt {n = t.entry_next_insert + 1} {m = 2 ^ 32} (omega (arith, small_next x)),
      ),
      record {
        idx_in = omega arith;
        le = omega arith;
        fits = omega arith;
        room = x.stack.room;
        fewer = omega arith;
        rest = λ i h ne. omega arith;
        apart = λ n h. absurd (omega arith);
        unnamed = λ j jl l. omega (arith, (x.index.cells j jl l).in_use);
        sum = omega (arith, x.total);
      },
    )
    | inr ne ↦
        let top : t.deleted_count - 1 < t.deleted_count = omega arith in
        let (cap', run, room') =
          shrunk env (record t { deleted_count = t.deleted_count - 1 })
            (omega (arith, x.stack.room)) in
        (
          t.entry_next_insert,
          t.deleted_count - 1,
          cap',
          t.deleted_index_list (t.deleted_count - 1),
          rw (
            ne→== _ _ ne,
            read_lem t.deleted_index_list t.deleted_capacity (t.deleted_count - 1)
                (omega (arith, x.stack.room)),
            run,
          ),
          record {
            idx_in = x.stack.inside (t.deleted_count - 1) top;
            le = omega arith;
            fits = omega arith;
            room = room';
            fewer = omega arith;
            rest = λ i h ne. h;
            apart = λ n h e.
                absurd (omega (arith, x.stack.once n (t.deleted_count - 1) (omega arith) top e));
            unnamed = λ j jl l. x.stack.unnamed (t.deleted_count - 1) j top jl l;
            sum = omega (arith, x.total);
          },
        )
  ]

  pub fill_entry_lem :
      (t : Table K) (idx : ℕ) (k : K) (v hash : ℕ)
      → idx < t.entry_capacity
      → fill_entry t idx k v hash
        ≡ some (record t {
          entries =
              update t.entries idx
                (record (t.entries idx) { key = k; value = v; cached_hash = hash });
        })
  unfolding fill_entry
  fill_entry_lem t idx k v hash lt = rw (write_lem t.entries t.entry_capacity idx _ lt)

  pub set_index_lem :
      (t : Table K) (h v : ℕ)
      → h < t.index_capacity
      → set_index t h v ≡ some (record t { index_list = update t.index_list h v })
  unfolding set_index
  set_index_lem t h v lt = rw (write_lem t.index_list t.index_capacity h v lt)

  -- What a key maps to is kept from one table to another.
  pub record Keeps (t t' : Table K) (q : K) : Type 0 where
    pub maps :
        (v : ℕ)
        → Maps keys t.index_capacity t.index_list t.entries q v
        → Maps keys t'.index_capacity t'.index_list t'.entries q v
    pub absent :
        Absent keys t.index_capacity t.index_list t.entries q
        → Absent keys t'.index_capacity t'.index_list t'.entries q

  -- `t'` is `t` with `key` mapped to `v`.
  pub record IsWritten (t t' : Table K) (key : K) (v : ℕ) : Type 0 where
    pub valid : IsValid keys t'
    pub self : Maps keys t'.index_capacity t'.index_list t'.entries key v
    pub others : (q : K) → q ≢ key → Keeps t t' q

  -- The table with the new entry, from the parts that `insert_new` puts together.
  module _ (t : Table K) (key : K) (v x : ℕ) (valid : IsValid keys t) (xl : x < t.index_capacity)
      (dead : is_live (t.index_list x) ≡ false)
      (reach : Reaches t.index_capacity t.index_list (masked t.index_capacity (keys.hash key)) x)
      (absent : Absent keys t.index_capacity t.index_list t.entries key) (next' dc' dcap' idx : ℕ)
      (tk : Taken t next' dc' dcap' idx) (es' : ℕ → Entry K) (head' : ℕ)
      (same : SameData
        (update t.entries idx
          (record (t.entries idx) { key = key; value = v; cached_hash = keys.hash key }))
        es')
      (linked : IsLinked next' head' idx es') where
    abbrev pub inserted : Table K
    inserted = record t {
      index_list = update t.index_list x (idx + 1);
      entries = es';
      head_idx = head';
      tail_idx = idx;
      count = t.count + 1;
      entry_next_insert = next';
      deleted_count = dc';
      deleted_capacity = dcap';
    }

    ix : IsIndexed keys t
    ix = valid.indexed

    named : is_live (idx + 1) ≡ true
    named = ground (arith, small_next ix, tk.idx_in, tk.fits)

    at_idx : ((es' idx).key ≡ key) × ((es' idx).cached_hash ≡ keys.hash key) × ((es' idx).value ≡ v)
    at_idx = ground (arith, same idx)

    elsewhere :
        (i : ℕ)
        → i ≢ idx
        → ((es' i).key ≡ (t.entries i).key)
          × ((es' i).cached_hash ≡ (t.entries i).cached_hash)
          × ((es' i).value ≡ (t.entries i).value)
    elsewhere i ne = ground (arith, same i)

    data_same :
        (i : ℕ)
        → i ≢ idx
        → ((es' i).key ≡ (t.entries i).key) × ((es' i).value ≡ (t.entries i).value)
    data_same i ne = let e = elsewhere i ne in (e.0, e.2)

    live_inserted :
        live_count (update t.index_list x (idx + 1)) t.index_capacity
        ≡ live_count t.index_list t.index_capacity + 1
    live_inserted =
        ground (arith, live_count-update t.index_list t.index_capacity x (idx + 1) xl, named)

    inserted-IsIndex : IsIndex keys t.index_capacity next' (update t.index_list x (idx + 1)) es'
    inserted-IsIndex =
        IsIndex-insert keys next' x idx es' ix.index tk.le tk.idx_in named tk.unnamed
          (λ i ne. let e = elsewhere i ne in (e.0, e.1)) (at_idx.1 ∙ ap keys.hash (sym at_idx.0))
          (rw at_idx.0 reach) (rw at_idx.0 absent)

    inserted-IsStack : IsStack inserted
    inserted-IsStack = record {
      room = tk.room;
      inside = λ n h. omega (arith, ix.stack.inside n (omega (arith, tk.fewer)), tk.le);
      unnamed = λ n j h jl l. elim (eq_or_ne x j) [
        | inl e ↦
            λ bad. tk.apart n h (sym bad ∙ omega (arith, update_self t.index_list x j (idx + 1) e))
        | inr ne ↦
            let u = update_ne t.index_list x j (idx + 1) ne in
            rw u (ix.stack.unnamed n j (omega (arith, tk.fewer)) jl (rw u at l))
      ];
      once = λ n m hn hm. ix.stack.once n m (omega (arith, tk.fewer)) (omega (arith, tk.fewer));
    }

    pub inserted-IsWritten : IsWritten t inserted key v
    inserted-IsWritten = record {
      valid = record {
        indexed = record {
          capacity = ix.capacity;
          entry_cap = ix.entry_cap;
          in_use = tk.fits;
          index = inserted-IsIndex;
          linked = linked;
          stack = inserted-IsStack;
          total = omega (arith, live_inserted, tk.sum);
        };
        counted = omega (arith, live_inserted, valid.counted);
      };
      self =
          subst (λ (k : K). Maps keys t.index_capacity (update t.index_list x (idx + 1)) es' k v)
            at_idx.0
            (subst
              (λ (w : ℕ).
                Maps keys t.index_capacity (update t.index_list x (idx + 1)) es' (es' idx).key w)
              at_idx.2 (Maps-insert_self keys t.index_list es' x idx xl named));
      others = λ q ne. record {
        maps =
            Maps-insert keys t.index_capacity t.index_list t.entries x idx es' q tk.unnamed
              data_same dead;
        absent =
            Absent-insert keys t.index_capacity t.index_list t.entries x idx es' q tk.unnamed
              data_same dead (λ e. ne (sym e ∙ at_idx.0));
      };
    }

  pub raise : {a b i : ℕ} → a ≤ b → IsLink a i → IsLink b i
  raise le (inl e) = inl e
  raise le (inr h) = inr (omega arith)

  pub other_links :
      {t : Table K} (ix : IsIndexed keys t) (idx next' : ℕ) {dc' dcap' : ℕ}
      (tk : Taken t next' dc' dcap' idx) (e : Entry K) (i : ℕ)
      → i < next'
      → i ≢ idx
      → IsLink next' (update t.entries idx e i).prev_idx
        × IsLink next' (update t.entries idx e i).next_idx
  other_links {t} ix idx next' tk e i h ne =
      let old = tk.rest i h ne in
      rw (update_ne t.entries idx i e (λ z. ne (sym z)))
        (raise tk.le (ix.linked.prev_in i old), raise tk.le (ix.linked.next_in i old))

  -- The new entry is indexed at the cell that the loop found; nothing else changes.
  pub insert_new_lem :
      (env : Alloc K) (t : Table K) (key : K) (v x : ℕ)
      → IsValid keys t
      → t.entry_next_insert < t.entry_capacity
      → x < t.index_capacity
      → is_live (t.index_list x) ≡ false
      → Reaches t.index_capacity t.index_list (masked t.index_capacity (keys.hash key)) x
      → Absent keys t.index_capacity t.index_list t.entries key
      → (t' : Table K) × (insert_new keys env t key v x ≡ some t')
        × IsWritten t t' key v
        × (t'.count ≡ t.count + 1)
        × (t'.index_capacity ≡ t.index_capacity)
        × (t'.entry_next_insert ≤ t.entry_next_insert + 1)
  unfolding insert_new
  insert_new_lem env t key v x valid lt xl dead reach absent =
      let ix = valid.indexed in
      let (next', dc', dcap', idx, run, tk) = take_index_lem env t ix lt in
      let small = small_next ix in
      let e₁ : Entry K = record (t.entries idx) {
        key = key;
        value = v;
        cached_hash = keys.hash key;
      } in
      let t₁ : Table K = record t {
        entry_next_insert = next';
        deleted_count = dc';
        deleted_capacity = dcap';
      } in
      let t₂ : Table K = record t₁ { index_list = update t.index_list x (idx + 1) } in
      let idx32 : u32 (idx + 1) ≡ idx + 1 =
        mod-eq_of_lt {m = 2 ^ 32} (omega (arith, tk.idx_in, tk.fits)) in
      let count64 : u64 (t.count + 1) ≡ t.count + 1 = mod-eq_of_lt {m = 2 ^ 64} (
        omega
          (arith, valid.counted, live_count-le t.index_list t.index_capacity, ix.capacity.small)) in
      let (es', head', link, same, linked) =
        link_tail_lem (record t₂ { entries = update t.entries idx e₁ }) idx tk.idx_in tk.fits
          (raise tk.le ix.linked.head_in) (raise tk.le ix.linked.tail_in)
          (other_links ix idx next' tk e₁) in
      (
        inserted t key v x valid xl dead reach absent next' dc' dcap' idx tk es' head' same linked,
        rw (
          run,
          idx32,
          set_index_lem t₁ x (idx + 1) xl,
          fill_entry_lem t₂ idx key v (keys.hash key) (omega (arith, tk.idx_in, tk.fits)),
          link,
          count64,
        ),
        inserted-IsWritten t key v x valid xl dead reach absent next' dc' dcap' idx tk es' head'
            same linked,
        refl,
        refl,
        (omega (arith, tk.sum, tk.fewer, ix.total)),
      )
