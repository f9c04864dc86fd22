-- ===== src/Htable/Grow.antt =====
-- `htable_rehash` moves every live entry to the new arrays, and `htable_grow` doubles the index.
use native.Mathlib.Nat.{mod-eq_of_lt, pow-suc}
use freehttpd.Base.{
  ℕ, zero, suc, ◌+◌, ◌-◌, ◌*◌, ◌/◌, ◌^◌, ◌≤◌, ◌<◌, ◌≡◌, ◌≢◌, refl, sym, ◌∙◌, ap, subst, inl, inr,
  true, false, some, arith, eq_or_ne, Bool-cases, read_lem, u64, ne→==,
}
use freehttpd.Htable.Table.{Keys, Entry, Table, Alloc, deleted, empty}
use freehttpd.Htable.Cycle.{IsCapacity, two-le-cap}
use freehttpd.Htable.Live.{
  is_live, live_count, live_count-empty, live_count_mono, live_count-suc_live, live_count-suc_dead,
}
use freehttpd.Htable.Index.{Maps, Absent}
use freehttpd.Htable.Rehash
use freehttpd.Htable.Rehash.{fresh, rehash_cell, rehash_from, rehash, grow}
use freehttpd.Htable.Valid.{IsIndexed, IsValid}
use freehttpd.Htable.Insert.{Keeps}
use freehttpd.Htable.Get.{entry_room}
use freehttpd.Htable.Move.{IsBuilt, IsMoved, move_entry_lem}

module _ {K : Type 0} (keys : Keys K) where
  -- the fresh arrays hold nothing
  pub fresh-IsBuilt :
      (t : Table K) (cap ecap : ℕ) (memory : ℕ → Entry K)
      → IsCapacity cap
      → ecap ≡ cap * 3 / 4
      → IsBuilt keys (fresh t cap ecap memory)
  unfolding fresh
  fresh-IsBuilt t cap ecap memory c e = record {
    indexed = record {
      capacity = c;
      entry_cap = e;
      in_use = omega arith;
      index = record { cells = λ j jl l. cc l; distinct = λ i j il jl l. cc l };
      linked = record {
        head_in = inl refl;
        tail_in = inl refl;
        prev_in = λ i h. absurd (omega arith);
        next_in = λ i h. absurd (omega arith);
      };
      stack = record {
        room = omega arith;
        inside = λ n h. absurd (omega arith);
        unnamed = λ n j h. absurd (omega arith);
        once = λ n m h. absurd (omega arith);
      };
      total = omega (arith, live_count-empty cap);
    };
    no_deleted = refl;
    clean = λ j jl d. refl;
  }

  pub fresh-Absent :
      (t : Table K) (cap ecap : ℕ) (memory : ℕ → Entry K) (k : K)
      → Absent keys cap (λ _. empty) memory k
  fresh-Absent t cap ecap memory k j jl l = cc l

module _ {K : Type 0} (keys : Keys K) (t : Table K) (x : IsIndexed keys t) where
  -- The first `i` cells are moved.
  record Progress (cap ecap i : ℕ) (b : Table K) : Type 0 where
    built : IsBuilt keys b
    so_far : b.entry_next_insert ≡ live_count t.index_list i
    maps :
        (j : ℕ)
        → j < i
        → is_live (t.index_list j) ≡ true
        → Maps keys b.index_capacity b.index_list b.entries
            (t.entries (t.index_list j - 1)).key
            (t.entries (t.index_list j - 1)).value
    absent :
        (k : K)
        → ((j : ℕ)
            → j < i
            → is_live (t.index_list j) ≡ true
            → (t.entries (t.index_list j - 1)).key ≢ k)
        → Absent keys b.index_capacity b.index_list b.entries k
    same_index : b.index_capacity ≡ cap
    same_entries : b.entry_capacity ≡ ecap
    same_count : b.count ≡ t.count

  dead_cell :
      (i : ℕ) (b : Table K)
      → i < t.index_capacity
      → is_live (t.index_list i) ≡ false
      → rehash_cell t i b ≡ some (some b)
  unfolding rehash_cell
  dead_cell i b lt d = rw (read_lem t.index_list t.index_capacity i lt) (ground arith)

  live_cell :
      (i : ℕ) (b : Table K)
      → i < t.index_capacity
      → is_live (t.index_list i) ≡ true
      → rehash_cell t i b ≡ Rehash.move_entry (t.entries (t.index_list i - 1)) b
  unfolding rehash_cell
  live_cell i b lt l =
      let ne₀ : t.index_list i ≢ empty = ground arith in
      let ne₁ : t.index_list i ≢ deleted = ground arith in
      rw (
        read_lem t.index_list t.index_capacity i lt,
        ne→== _ _ ne₀,
        ne→== _ _ ne₁,
        read_lem t.entries t.entry_capacity (t.index_list i - 1) (entry_room keys t x i lt l),
      )

  -- the keys of the cells before `i` are not the key of `i`
  earlier_keys :
      (i : ℕ)
      → i < t.index_capacity
      → is_live (t.index_list i) ≡ true
      → (j : ℕ) → j < i
      → is_live (t.index_list j) ≡ true
      → (t.entries (t.index_list j - 1)).key ≢ (t.entries (t.index_list i - 1)).key
  earlier_keys i lt l j jl lj e =
      absurd (omega (arith, x.index.distinct j i (omega arith) lt lj l e))

  moved-Progress :
      (cap ecap i : ℕ) (b b' : Table K)
      → i < t.index_capacity
      → is_live (t.index_list i) ≡ true
      → Progress cap ecap i b
      → IsMoved keys (t.entries (t.index_list i - 1)) b b'
      → Progress cap ecap (suc i) b'
  moved-Progress cap ecap i b b' lt l p m = record {
    built = m.built;
    so_far = omega (arith, m.one_more, p.so_far, live_count-suc_live t.index_list i l);
    maps = λ j jl lj. elim (eq_or_ne j i) [
      | inl e ↦
          subst
            (λ (c : ℕ).
              Maps keys b'.index_capacity b'.index_list b'.entries
                (t.entries (t.index_list c - 1)).key (t.entries (t.index_list c - 1)).value)
            (sym e) m.self
      | inr ne ↦
          (m.others _ (earlier_keys i lt l j (omega arith) lj)).maps _ (p.maps j (omega arith) lj)
    ];
    absent = λ k none_has.
        (m.others k (λ e. none_has i (omega arith) l (sym e))).absent
          (p.absent k (λ j jl lj. none_has j (omega arith) lj));
    same_index = m.same_index ∙ p.same_index;
    same_entries = m.same_entries ∙ p.same_entries;
    same_count = m.same_count ∙ p.same_count;
  }

  skipped-Progress :
      (cap ecap i : ℕ) (b : Table K)
      → is_live (t.index_list i) ≡ false
      → Progress cap ecap i b
      → Progress cap ecap (suc i) b
  skipped-Progress cap ecap i b d p = record {
    built = p.built;
    so_far = p.so_far ∙ sym (live_count-suc_dead t.index_list i d);
    maps = λ j jl lj. elim (eq_or_ne j i) [
      | inl e ↦ cc (sym lj ∙ ap (λ c. is_live (t.index_list c)) e ∙ d)
      | inr ne ↦ p.maps j (omega arith) lj
    ];
    absent = λ k none_has. p.absent k (λ j jl lj. none_has j (omega arith) lj);
    same_index = p.same_index;
    same_entries = p.same_entries;
    same_count = p.same_count;
  }

  rehash_from_lem :
      (cap ecap n i : ℕ) (b : Table K)
      → i + n ≡ t.index_capacity
      → live_count t.index_list t.index_capacity ≤ ecap
      → Progress cap ecap i b
      → (b' : Table K) × (rehash_from t n i b ≡ some (some b'))
        × Progress cap ecap t.index_capacity b'
  unfolding rehash_from
  rehash_from_lem cap ecap zero i b sum room p =
      let e : i ≡ t.index_capacity = omega arith in
      (b, refl, subst (λ (c : ℕ). Progress cap ecap c b) e p)
  rehash_from_lem cap ecap (suc n) i b sum room p = elim (Bool-cases (is_live (t.index_list i))) [
    | inr d ↦
        let (b', run, q) =
          rehash_from_lem cap ecap n (suc i) b (omega arith) room
            (skipped-Progress cap ecap i b d p) in
        (b', rw (dead_cell i b (omega arith) d) run, q)
    | inl l ↦
        let lt : i < t.index_capacity = omega arith in
        let (b₁, step, m) =
          move_entry_lem keys (t.entries (t.index_list i - 1)) b p.built
            (omega (
              arith,
              p.so_far,
              p.same_entries,
              live_count-suc_live t.index_list i l,
              live_count_mono t.index_list (suc i) t.index_capacity lt,
            ))
            (x.index.cells i lt l).hashed (p.absent _ (earlier_keys i lt l)) in
        let (b', run, q) =
          rehash_from_lem cap ecap n (suc i) b₁ (omega arith) room
            (moved-Progress cap ecap i b b₁ lt l p m) in
        (b', rw (live_cell i b lt l, step) run, q)
  ]

  -- no cell is moved yet
  fresh-Progress :
      (cap ecap : ℕ) (memory : ℕ → Entry K)
      → IsCapacity cap
      → ecap ≡ cap * 3 / 4
      → Progress cap ecap 0 (fresh t cap ecap memory)
  unfolding fresh live_count
  fresh-Progress cap ecap memory c e = record {
    built = fresh-IsBuilt keys t cap ecap memory c e;
    so_far = refl;
    maps = λ j h. absurd (omega arith);
    absent = λ k none_has j jl l. cc l;
    same_index = refl;
    same_entries = refl;
    same_count = refl;
  }

module _ {K : Type 0} (keys : Keys K) where
  -- `t'` holds what `t` holds, in an index twice as large, with room for one more entry.
  pub record IsGrown (t t' : Table K) : Type 0 where
    pub valid : IsValid keys t'
    pub keeps : (q : K) → Keeps keys t t' q
    pub doubled : t'.index_capacity ≡ t.index_capacity * 2
    pub same_count : t'.count ≡ t.count
    pub roomy : t'.entry_next_insert < t'.entry_capacity
    pub packed : t'.entry_next_insert ≡ t.count

  Progress-IsGrown :
      (t b : Table K) (v : IsValid keys t)
      → Progress keys t v.indexed
          (t.index_capacity * 2)
          (t.index_capacity * 2 * 3 / 4)
          t.index_capacity
          b
      → IsGrown t b
  Progress-IsGrown t b v p =
      let x = v.indexed in
      let bx = p.built.indexed in
      record {
        valid = record {
          indexed = bx;
          counted = omega (arith, p.same_count, v.counted, p.so_far, bx.total, p.built.no_deleted);
        };
        keeps = λ q. record {
          maps = λ w m.
              subst (λ (k : K). Maps keys b.index_capacity b.index_list b.entries k w) m.has_key
                (subst
                  (λ (u : ℕ).
                    Maps keys b.index_capacity b.index_list b.entries
                      (t.entries (t.index_list m.cell - 1)).key u)
                  m.has_value (p.maps m.cell m.inside m.live));
          absent = λ a. p.absent q a;
        };
        doubled = p.same_index;
        same_count = p.same_count;
        packed = omega (arith, v.counted, p.so_far, bx.total, p.built.no_deleted);
        roomy = omega (
          arith,
          p.so_far,
          p.same_entries,
          x.total,
          x.in_use,
          x.entry_cap,
          two-le-cap x.capacity,
        );
      }

  twice-IsCapacity : {cap : ℕ} → IsCapacity cap → cap * 2 ≤ 2 ^ 31 → IsCapacity (cap * 2)
  twice-IsCapacity c small = record {
    bits = suc c.bits;
    pos = omega arith;
    small = small;
    power = omega (arith, pow-suc 2 c.bits, c.power);
  }

  -- When the memory is there, `htable_grow` succeeds: no assertion fails, no access is out of
  -- bounds, and every key keeps its value.
  pub grow_lem :
      (env : Alloc K) (t : Table K) (memory : ℕ → Entry K)
      → IsValid keys t
      → t.index_capacity * 2 ≤ 2 ^ 31
      → env.calloc_ok ≡ true
      → env.malloc_entries ≡ some memory
      → (t' : Table K) × (grow env t ≡ some (t', true)) × IsGrown t t'
  unfolding grow rehash
  grow_lem env t memory v small calloc_ok malloc_ok =
      let x = v.indexed in
      let cap64 : u64 (t.index_capacity * 2) ≡ t.index_capacity * 2 =
        mod-eq_of_lt {m = 2 ^ 64} (omega arith) in
      let ecap64 : u64 (t.index_capacity * 2 * 3) ≡ t.index_capacity * 2 * 3 =
        mod-eq_of_lt {m = 2 ^ 64} (omega arith) in
      let (b, run, p) =
        rehash_from_lem keys t x (t.index_capacity * 2) (t.index_capacity * 2 * 3 / 4)
          t.index_capacity 0 (fresh t (t.index_capacity * 2) (t.index_capacity * 2 * 3 / 4) memory)
          (omega arith) (omega (arith, x.total, x.in_use, x.entry_cap))
          (fresh-Progress keys t x (t.index_capacity * 2) (t.index_capacity * 2 * 3 / 4) memory
            (twice-IsCapacity x.capacity small) refl) in
      (b, simp (calloc_ok, malloc_ok, cap64, ecap64, run), Progress-IsGrown t b v p)
