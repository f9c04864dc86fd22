-- ===== src/Htable/Tests.antt =====
-- Runs of the table.
use freehttpd.Base.{
  ℕ, true, false, none, some, [], ◌∷◌, ◌≡◌, refl, Option, Bool, ◌==◌, ==→eq, eq→==, ◌>>=◌, List,
  read, write,
}
use freehttpd.Htable.Table.{
  Keys, Table, Alloc, masked, next_hash, set_prev, set_next, set_index, link_tail,
}
use freehttpd.Htable.Ops.{
  create, set, get, has, delete, free_with_cleanup, take_index, shrink_deleted, fill_entry,
  insert_new, set_grown, is_full, set_with_flag, get_with_flag, reserve_deleted, unlink,
  remove_entry, delete_found, delete_with_flag,
}
use freehttpd.Htable.Probe.{search, find_slot, find_empty, first}
use freehttpd.Htable.Rehash.{fresh, move_entry, rehash_cell, rehash, rehash_from, grow}
use freehttpd.Utils.Round.{round_ceil2, clzll}
use freehttpd.Base.{◌≤◌, ◌<◌, ◌*◌, ◌↔◌, arith}
use freehttpd.Htable.Index.{Maps, Absent}
use freehttpd.Htable.Valid.{IsValid}
use freehttpd.Htable.Get.{get_iff}
use freehttpd.Htable.Grow.{IsGrown, grow_lem}
use freehttpd.Htable.Laws.{IsAmple, SetTo, DeletedFrom, set_with_flag_lem, delete_with_flag_lem}
use freehttpd.Htable.Create.{create_lem}
use freehttpd.Htable.History.{
  Call, put, look, drop, stored, value, puts, calls, spec_calls, spec_call, calls_refine,
}

abbrev pub plain_keys : Keys ℕ
plain_keys = record { equal = ◌==◌; hash = λ k. k; equal_iff = λ a b. (==→eq a b, eq→== a b) }

abbrev pub memory : Alloc ℕ
memory = record {
  calloc_ok = true;
  malloc_entries =
      some (λ _. record { key = 7; value = 7; cached_hash = 7; prev_idx = 7; next_idx = 7 });
  dup_ok = true;
  realloc_ok = true;
}

program : Unit {0}
unfolding round_ceil2 clzll create set get has delete free_with_cleanup take_index shrink_deleted
    fill_entry insert_new set_grown is_full set_with_flag get_with_flag reserve_deleted unlink
    remove_entry delete_found delete_with_flag search find_slot find_empty first fresh move_entry
    rehash_cell rehash rehash_from grow masked next_hash set_prev set_next set_index link_tail
program = tt

abbrev session : Option (ℕ × ℕ × ℕ × List (ℕ × ℕ))
session = do
  m ← create true memory 3
  elim m [
    | none ↦ none
    | some t₀ ↦ set plain_keys memory t₀ 1 10 >>= λ r₁. set plain_keys memory r₁.0 5 50 >>= λ r₂.
        set plain_keys memory r₂.0 9 90 >>= λ r₃. set plain_keys memory r₃.0 5 55 >>= λ r₄.
        delete plain_keys memory r₄.0 1 >>= λ d. get plain_keys d.0 5 >>= λ five.
        get plain_keys d.0 1 >>= λ one.
        free_with_cleanup d.0 >>= λ rest. some (five, one, d.0.count, rest)
  ]

session_runs : session ≡ some (55, 0, 2, (5, 55) ∷ (9, 90) ∷ [])
unfolding program read write
session_runs = refl

plenty : IsAmple memory
plenty = record { calloc_ok = refl; memory = _; malloc_ok = refl; dup_ok = refl; realloc_ok = refl }

abbrev blank : Table ℕ
blank = (create_lem plain_keys memory 4 (omega arith) (omega arith) plenty).0

blank-IsValid : IsValid plain_keys blank
blank-IsValid = (create_lem plain_keys memory 4 (omega arith) (omega arith) plenty).2

blank-small : blank.index_capacity ≤ 8
blank-small =
    let s = (create_lem plain_keys memory 4 (omega arith) (omega arith) plenty).6 in omega arith

blank-used : blank.entry_next_insert ≤ 6
blank-used =
    let x = blank-IsValid.indexed in
    let small = blank-small in let ecap = x.entry_cap in let in_use = x.in_use in omega arith

-- the table with 5 mapped to 50
abbrev one_key : Table ℕ
one_key =
    (set_with_flag_lem plain_keys memory blank 5 50 false blank-IsValid (omega (arith, blank-small))
      plenty).0

one_key-SetTo : (created : Bool) × SetTo plain_keys blank one_key 5 50 created
one_key-SetTo =
    let r =
      set_with_flag_lem plain_keys memory blank 5 50 false blank-IsValid
        (omega (arith, blank-small)) plenty in
    (r.1, r.3)

one_key-small : one_key.index_capacity ≤ 16
one_key-small = omega (arith, one_key-SetTo.1.bounded, blank-small)

create_lem_example :
    (t : Table ℕ) × (create true memory 3 ≡ some (some t))
    × IsValid plain_keys t
    × ((q : ℕ) → get_with_flag plain_keys t q ≡ some (0, false))
    × (t.count ≡ 0)
    × (3 ≤ t.index_capacity)
    × (t.index_capacity < 2 * 3)
create_lem_example = create_lem plain_keys memory 3 (omega arith) (omega arith) plenty

set_with_flag_lem_example :
    (t' : Table ℕ) × (created : Bool) × (set_with_flag plain_keys memory one_key 9 90 false
      ≡ some (t', true, created))
    × SetTo plain_keys one_key t' 9 90 created
set_with_flag_lem_example =
    set_with_flag_lem plain_keys memory one_key 9 90 false one_key-SetTo.1.valid
      (omega (arith, one_key-small)) plenty

delete_with_flag_lem_example :
    (t' : Table ℕ) × (v : ℕ) × (found : Bool) × (get_with_flag plain_keys one_key 5
      ≡ some (v, found))
    × (delete_with_flag plain_keys memory one_key 5 ≡ some (t', v, found))
    × DeletedFrom plain_keys one_key t' 5 found
delete_with_flag_lem_example =
    delete_with_flag_lem plain_keys memory one_key 5 one_key-SetTo.1.valid refl

grow_lem_example :
    (t' : Table ℕ) × (grow memory one_key ≡ some (t', true)) × IsGrown plain_keys one_key t'
unfolding plenty
grow_lem_example =
    grow_lem plain_keys memory one_key plenty.memory one_key-SetTo.1.valid
      (omega (arith, one_key-small)) refl refl

get_iff_example :
    ((get_with_flag plain_keys one_key 5 ≡ some (50, true))
      ↔ Maps plain_keys one_key.index_capacity one_key.index_list one_key.entries 5 50)
    × ((get_with_flag plain_keys one_key 5 ≡ some (0, false))
        ↔ Absent plain_keys one_key.index_capacity one_key.index_list one_key.entries 5)
get_iff_example = get_iff plain_keys one_key one_key-SetTo.1.valid.indexed 5 50

abbrev client : List (Alloc ℕ × Call ℕ)
client =
    (memory, put 1 10)
    ∷ (memory, put 5 50)
    ∷ (memory, put 9 90)
    ∷ (memory, put 5 55)
    ∷ (memory, look 5)
    ∷ (memory, drop 1)
    ∷ (memory, look 1)
    ∷ []

calls_refine_example :
    calls plain_keys client blank ≡ some (spec_calls plain_keys client (λ _. (0, false)))
unfolding puts
calls_refine_example =
    calls_refine plain_keys client blank (λ _. (0, false)) blank-IsValid
      (create_lem plain_keys memory 4 (omega arith) (omega arith) plenty).3
      (omega (arith, blank-used))
      (plenty, (plenty, (plenty, (plenty, (plenty, (plenty, (plenty, tt)))))))

spec_runs :
    spec_calls plain_keys client (λ _. (0, false))
    ≡ stored true true
      ∷ stored true true
      ∷ stored true true
      ∷ stored true false
      ∷ value 55 true
      ∷ value 10 true
      ∷ value 0 false
      ∷ []
unfolding spec_calls spec_call
spec_runs = refl
