-- ===== src/Htable/Laws.antt =====
-- The operations of src/hash/htable.c against the map that `htable_get_with_flag` reads.
use freehttpd.Base.{
  ℕ, ◌+◌, ◌*◌, ◌^◌, ◌≤◌, ◌<◌, ◌≡◌, u64, leb, ◌||◌, refl, sym, ◌∙◌, ap, subst, inl, inr, Bool, true,
  false, not, some, if◌then◌else◌, arith, Bool-cases,
}
use freehttpd.Htable.Table.{Keys, Entry, Table, Alloc}
use freehttpd.Htable.Live.{to_nat, live_count-le}
use native.Mathlib.Nat.{mod-eq_of_lt}
use freehttpd.Htable.Index.{Maps, Absent}
use freehttpd.Htable.Ops.{is_full, set_grown, set_with_flag, get_with_flag, has, delete_with_flag}
use freehttpd.Htable.Valid.{IsIndexed, IsValid}
use freehttpd.Htable.Get.{get-Maps, get-Absent, Maps-or_Absent, get-Keeps, get-IsWritten}
use freehttpd.Htable.Set.{set_grown-Maps, set_grown-Absent}
use freehttpd.Htable.Delete.{IsRemoved, delete_lem, delete-Absent}
use freehttpd.Htable.Grow.{IsGrown, grow_lem}

-- every allocation of the call succeeds
pub record IsAmple {K : Type 0} (env : Alloc K) : Type 0 where
  pub calloc_ok : env.calloc_ok ≡ true
  pub memory : ℕ → Entry K
  pub malloc_ok : env.malloc_entries ≡ some memory
  pub dup_ok : env.dup_ok ≡ true
  pub realloc_ok : env.realloc_ok ≡ true

module _ {K : Type 0} (keys : Keys K) where
  -- The result of `htable_set_with_flag`: success, `created`, and the table `t'`.
  pub record SetTo (t t' : Table K) (key : K) (v : ℕ) (created : Bool) : Type 0 where
    pub valid : IsValid keys t'
    pub reads :
        (q : K)
        → get_with_flag keys t' q
          ≡ (if keys.equal q key then some (v, true) else get_with_flag keys t q)
    pub is_new : has keys t key ≡ some (not created)
    pub counted : t'.count ≡ t.count + to_nat created
    pub bounded : t'.index_capacity ≤ t.index_capacity * 2
    pub used : t'.entry_next_insert ≤ t.entry_next_insert + 1

  -- the flag of a key that is in the table
  pub has-Maps :
      (t : Table K) (x : IsIndexed keys t) (k : K) (v : ℕ)
      → Maps keys t.index_capacity t.index_list t.entries k v
      → has keys t k ≡ some true
  unfolding has
  has-Maps t x k v m = rw (get-Maps keys t x k v m)

  pub has-Absent :
      (t : Table K) (x : IsIndexed keys t) (k : K)
      → Absent keys t.index_capacity t.index_list t.entries k
      → has keys t k ≡ some false
  unfolding has
  has-Absent t x k a = rw (get-Absent keys t x k a)

  -- what `set_grown` returns, in a table with room
  set_grown_lem :
      (env : Alloc K) (t : Table K) (key : K) (v : ℕ) (flag : Bool)
      → IsValid keys t
      → t.entry_next_insert < t.entry_capacity
      → env.dup_ok ≡ true
      → (t' : Table K) × (created : Bool) × (set_grown keys env t key v flag
          ≡ some (t', true, created))
        × SetTo t t' key v created
        × (t'.index_capacity ≡ t.index_capacity)
  set_grown_lem env t key v flag valid lt ok =
      let x = valid.indexed in
      elim (Maps-or_Absent keys t x key) [
        | inl (w, m) ↦
            let (t', run, set, counted, icap, used) =
              set_grown-Maps keys env t key v w flag valid lt m in
            (
              t',
              false,
              run,
              record {
                valid = set.valid;
                reads = get-IsWritten keys t t' key v x set;
                is_new = has-Maps t x key w m;
                counted = omega arith;
                bounded = omega arith;
                used = used;
              },
              icap,
            )
        | inr a ↦
            let (t', run, set, counted, icap, used) =
              set_grown-Absent keys env t key v flag valid lt ok a in
            (
              t',
              true,
              run,
              record {
                valid = set.valid;
                reads = get-IsWritten keys t t' key v x set;
                is_new = has-Absent t x key a;
                counted = counted;
                bounded = omega arith;
                used = used;
              },
              icap,
            )
      ]

  has-get :
      (t t' : Table K) (k : K)
      → get_with_flag keys t' k ≡ get_with_flag keys t k
      → has keys t' k ≡ has keys t k
  unfolding has
  has-get t t' k e = rw e

  -- What a table that was grown first is set to.
  grown-SetTo :
      (t t₁ t' : Table K) (key : K) (v : ℕ) (created : Bool)
      → IsValid keys t
      → IsGrown keys t t₁
      → SetTo t₁ t' key v created
      → t'.index_capacity ≡ t₁.index_capacity
      → SetTo t t' key v created
  grown-SetTo t t₁ t' key v created valid g s icap =
      let same = λ (q : K). get-Keeps keys t t₁ q valid.indexed g.valid.indexed (g.keeps q) in
      record {
        valid = s.valid;
        reads = λ q. s.reads q ∙ ap (λ o. if keys.equal q key then some (v, true) else o) (same q);
        is_new = sym (has-get t t₁ key (same key)) ∙ s.is_new;
        counted = s.counted ∙ ap (λ (n : ℕ). n + to_nat created) g.same_count;
        bounded = omega (arith, icap, g.doubled);
        used = omega (arith, s.used, g.packed, valid.counted, valid.indexed.total);
      }

  pub full_index :
      (t : Table K)
      → IsValid keys t
      → is_full t ≡ true
      → t.index_capacity * 3 ≤ 4 * (t.entry_next_insert + 1)
  unfolding is_full
  full_index t valid e =
      let x = valid.indexed in
      let most : t.count ≤ 2 ^ 31 =
        omega
          (arith, valid.counted, live_count-le t.index_list t.index_capacity, x.capacity.small) in
      let less : t.count ≤ t.entry_next_insert = omega (arith, valid.counted, x.total) in
      let index64 : u64 (t.index_capacity * 3) ≡ t.index_capacity * 3 =
        mod-eq_of_lt {m = 2 ^ 64} (omega (arith, x.capacity.small)) in
      let count64 : u64 (t.count + 1) ≡ t.count + 1 = mod-eq_of_lt {m = 2 ^ 64} (omega arith) in
      let count_index64 : u64 ((t.count + 1) * 4) ≡ (t.count + 1) * 4 =
        mod-eq_of_lt {m = 2 ^ 64} (omega arith) in
      let e' : (leb t.entry_capacity t.entry_next_insert
            || leb (t.index_capacity * 3) ((t.count + 1) * 4))
          ≡ true =
        rw (count64, index64, count_index64) at e in
      let ecap = x.entry_cap in ground (arith, e', ecap, less)

  pub has_room : (t : Table K) → is_full t ≡ false → t.entry_next_insert < t.entry_capacity
  unfolding is_full
  has_room t e = ground arith

  -- the same for a table whose index may double where it has to
  pub set_if_lem :
      (env : Alloc K) (t : Table K) (key : K) (v : ℕ) (flag : Bool)
      → IsValid keys t
      → (is_full t ≡ true → t.index_capacity * 2 ≤ 2 ^ 31)
      → IsAmple env
      → (t' : Table K) × (created : Bool) × (set_with_flag keys env t key v flag
          ≡ some (t', true, created))
        × SetTo t t' key v created
  unfolding set_with_flag
  set_if_lem env t key v flag valid small ample = elim (Bool-cases (is_full t)) [
    | inr e ↦
        let (t', created, run, s, icap) =
          set_grown_lem env t key v flag valid (has_room t e) ample.dup_ok in
        (t', created, rw e run, s)
    | inl e ↦
        let (t₁, grew, g) =
          grow_lem keys env t ample.memory valid (small e) ample.calloc_ok ample.malloc_ok in
        let (t', created, run, s, icap) =
          set_grown_lem env t₁ key v flag g.valid g.roomy ample.dup_ok in
        (t', created, rw (e, grew) run, grown-SetTo t t₁ t' key v created valid g s icap)
  ]

  -- On a valid table, when all allocations succeed and the index may double,
  -- `htable_set_with_flag` does not fault and succeeds. The new table is valid. Reading the key
  -- gives the value, and reading any other key gives what it gave before. `*flag_created` is true
  -- exactly when the key was not in the table, and then the count is one more; else it is the same.
  pub set_with_flag_lem :
      (env : Alloc K) (t : Table K) (key : K) (v : ℕ) (flag : Bool)
      → IsValid keys t
      → t.index_capacity * 2 ≤ 2 ^ 31
      → IsAmple env
      → (t' : Table K) × (created : Bool) × (set_with_flag keys env t key v flag
          ≡ some (t', true, created))
        × SetTo t t' key v created
  set_with_flag_lem env t key v flag valid small ample =
      set_if_lem env t key v flag valid (λ _. small) ample

  -- The result of `htable_delete_with_flag`: the table `t'`, and what the key read before.
  pub record DeletedFrom (t t' : Table K) (key : K) (found : Bool) : Type 0 where
    pub valid : IsValid keys t'
    pub reads :
        (q : K)
        → get_with_flag keys t' q
          ≡ (if keys.equal q key then some (0, false) else get_with_flag keys t q)
    pub counted : t'.count + to_nat found ≡ t.count
    pub same_index : t'.index_capacity ≡ t.index_capacity
    pub same_used : t'.entry_next_insert ≡ t.entry_next_insert

  removed_reads :
      (t t' : Table K) (key : K)
      → IsIndexed keys t
      → IsRemoved keys t t' key
      → (q : K)
      → get_with_flag keys t' q
        ≡ (if keys.equal q key then some (0, false) else get_with_flag keys t q)
  removed_reads t t' key x r q = elim (Bool-cases (keys.equal q key)) [
    | inl y ↦ rw y (
        get-Absent keys t' r.valid.indexed q (
          subst (Absent keys t'.index_capacity t'.index_list t'.entries)
            (sym ((keys.equal_iff q key).0 y)) r.gone))
    | inr y ↦ rw y (
        get-Keeps keys t t' q x r.valid.indexed
          (r.others q (λ e. cc (sym y ∙ (keys.equal_iff q key).1 e))))
  ]

  Absent-reads :
      (t : Table K) (key : K)
      → IsIndexed keys t
      → Absent keys t.index_capacity t.index_list t.entries key
      → (q : K)
      → get_with_flag keys t q
        ≡ (if keys.equal q key then some (0, false) else get_with_flag keys t q)
  Absent-reads t key x a q = elim (Bool-cases (keys.equal q key)) [
    | inl y ↦ rw y (
        get-Absent keys t x q (
          subst (Absent keys t.index_capacity t.index_list t.entries)
            (sym ((keys.equal_iff q key).0 y)) a))
    | inr y ↦ rw y
  ]

  -- On a valid table, when `realloc` succeeds, `htable_delete_with_flag` does not fault and
  -- returns what reading the key gives, value and flag. The new table is valid. Reading the key
  -- gives `(NULL, false)`, and reading any other key gives what it gave before. The count is one
  -- less if the key was in the table; else it is the same.
  pub delete_with_flag_lem :
      (env : Alloc K) (t : Table K) (key : K)
      → IsValid keys t
      → env.realloc_ok ≡ true
      → (t' : Table K) × (v : ℕ) × (found : Bool) × (get_with_flag keys t key ≡ some (v, found))
        × (delete_with_flag keys env t key ≡ some (t', v, found))
        × DeletedFrom t t' key found
  delete_with_flag_lem env t key valid ok =
      let x = valid.indexed in
      elim (Maps-or_Absent keys t x key) [
        | inl (v, m) ↦
            let (t', run, r, counted, icap, used) = delete_lem keys env t key v valid ok m in
            (
              t',
              v,
              true,
              get-Maps keys t x key v m,
              run,
              record {
                valid = r.valid;
                reads = removed_reads t t' key x r;
                counted = counted;
                same_index = icap;
                same_used = used;
              },
            )
        | inr a ↦ (
          t,
          0,
          false,
          get-Absent keys t x key a,
          delete-Absent keys env t key x a,
          record {
            valid = valid;
            reads = Absent-reads t key x a;
            counted = omega arith;
            same_index = refl;
            same_used = refl;
          },
        )
      ]
