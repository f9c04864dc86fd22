-- ===== src/Htable/Create.antt =====
-- `htable_create`.
use native.Mathlib.Nat.{mod-eq_of_lt}
use freehttpd.Base.{ℕ, ◌*◌, ◌/◌, ◌^◌, ◌≤◌, ◌<◌, ◌≡◌, refl, true, false, some, leb, arith, u64}
use freehttpd.Utils.Round.{round_ceil2}
use freehttpd.Utils.RoundLaws.{round_ceil2_lem}
use freehttpd.Htable.Table.{Keys, Entry, Table, Alloc, uint32_max, empty}
use freehttpd.Htable.Cycle.{IsCapacity}
use freehttpd.Htable.Live.{live_count-empty}
use freehttpd.Htable.Ops.{create, get_with_flag}
use freehttpd.Htable.Rehash.{fresh}
use freehttpd.Htable.Valid.{IsValid}
use freehttpd.Htable.Get.{get-Absent}
use freehttpd.Htable.Grow.{fresh-IsBuilt, fresh-Absent}
use freehttpd.Htable.Laws.{IsAmple}

module _ {K : Type 0} (keys : Keys K) where
  abbrev pub new_table : ℕ → ℕ → (ℕ → Entry K) → Table K
  new_table cap ecap memory = record {
    entries = memory;
    index_list = λ _. empty;
    deleted_index_list = λ _. 0;
    count = 0;
    entry_next_insert = 0;
    head_idx = uint32_max;
    tail_idx = uint32_max;
    index_capacity = cap;
    entry_capacity = ecap;
    deleted_count = 0;
    deleted_capacity = 0;
  }

  pub new_table-IsValid :
      (cap : ℕ) (memory : ℕ → Entry K)
      → IsCapacity cap
      → IsValid keys (new_table cap (cap * 3 / 4) memory)
  unfolding fresh
  new_table-IsValid cap memory c = record {
    indexed =
        (fresh-IsBuilt keys (new_table cap (cap * 3 / 4) memory) cap (cap * 3 / 4) memory c
          refl).indexed;
    counted = omega (arith, live_count-empty cap);
  }

  -- For an initial capacity from 2 to 2^30, when all allocations succeed, `htable_create` returns a
  -- valid table with at least that capacity and less than twice it, in which no key is found.
  pub create_lem :
      (env : Alloc K) (initial_cap : ℕ)
      → 2 ≤ initial_cap
      → initial_cap ≤ 2 ^ 30
      → IsAmple env
      → (t : Table K) × (create true env initial_cap ≡ some (some t))
        × IsValid keys t
        × ((q : K) → get_with_flag keys t q ≡ some (0, false))
        × (t.count ≡ 0)
        × (initial_cap ≤ t.index_capacity)
        × (t.index_capacity < 2 * initial_cap)
  unfolding create
  create_lem env n lo hi ample =
      let (k, power, pos, ge, lt) = round_ceil2_lem n lo (omega arith) in
      let c : IsCapacity (round_ceil2 n) = record {
        bits = k;
        pos = pos;
        small = omega arith;
        power = power;
      } in
      let ecap64 : u64 (round_ceil2 n * 3) ≡ round_ceil2 n * 3 =
        mod-eq_of_lt {m = 2 ^ 64} (omega arith) in
      let at_least : leb 2 n ≡ true = ground arith in
      let valid = new_table-IsValid (round_ceil2 n) ample.memory c in
      (
        new_table (round_ceil2 n) (round_ceil2 n * 3 / 4) ample.memory,
        simp (at_least, ample.calloc_ok, ample.malloc_ok, ecap64),
        valid,
        λ q.
            get-Absent keys (new_table (round_ceil2 n) (round_ceil2 n * 3 / 4) ample.memory)
              valid.indexed q
              (fresh-Absent keys (new_table (round_ceil2 n) (round_ceil2 n * 3 / 4) ample.memory)
                (round_ceil2 n) (round_ceil2 n * 3 / 4) ample.memory q),
        refl,
        ge,
        lt,
      )
