-- ===== src/Htable/OrderTests.antt =====
-- Runs of the table: the order of its keys.
use freehttpd.Base.{
  ℕ, ◌≡◌, refl, true, false, some, none, Bool, ap, subst, read, write, Option, [], arith,
}
use freehttpd.Htable.Table.{Table}
use freehttpd.Htable.Ops.{
  set_with_flag, set_grown, insert_new, take_index, fill_entry, delete_with_flag, is_full, has,
  get_with_flag,
}
use freehttpd.Htable.Probe.{search, find_slot, first}
use freehttpd.Htable.Table.{masked, next_hash, link_tail, set_next, set_prev, set_index}
use freehttpd.Htable.Create.{new_table, new_table-IsValid}
use freehttpd.Htable.OrderLaws.{new_table-IsOrdered, IsAppended, IsWithout, set_order, delete_order}
use freehttpd.Htable.Tests.{plain_keys, memory}

abbrev blank : Table ℕ
blank =
    new_table plain_keys 8 6
      (λ _. record { key = 7; value = 7; cached_hash = 7; prev_idx = 7; next_idx = 7 })

one_key :
    (t : Table ℕ) × (set_with_flag plain_keys memory blank 5 50 false ≡ some (t, true, true))
    × IsAppended plain_keys blank t 5 50
unfolding is_full has get_with_flag search read masked
one_key =
    set_order plain_keys memory blank 5 50 false []
      (new_table-IsValid plain_keys 8 _
        (record { bits = 3; pos = omega arith; small = omega arith; power = refl }))
      (new_table-IsOrdered plain_keys 8 6 _) refl refl refl

table_of : Option (Table ℕ × Bool × Bool) → Table ℕ
table_of none = blank
table_of (some (t, done, created)) = t

-- what the table with one key is, by running the code
facts :
    (is_full one_key.0 ≡ false)
    × (has plain_keys one_key.0 9 ≡ some false)
    × (has plain_keys one_key.0 5 ≡ some true)
unfolding table_of set_with_flag set_grown insert_new take_index fill_entry is_full has
    get_with_flag search find_slot first masked next_hash link_tail set_next set_prev set_index read
    write
facts =
    subst
      (λ (t : Table ℕ).
        (is_full t ≡ false) × (has plain_keys t 9 ≡ some false) × (has plain_keys t 5 ≡ some true))
      (ap table_of one_key.1) (refl, refl, refl)

set_order_example :
    (t : Table ℕ) × (set_with_flag plain_keys memory one_key.0 9 90 false ≡ some (t, true, true))
    × IsAppended plain_keys one_key.0 t 9 90
set_order_example =
    set_order plain_keys memory one_key.0 9 90 false one_key.2.after one_key.2.valid
      one_key.2.ordered facts.0 refl facts.1

delete_order_example :
    (t : Table ℕ) × (v : ℕ) × (delete_with_flag plain_keys memory one_key.0 5 ≡ some (t, v, true))
    × IsWithout plain_keys one_key.0 t 5 v
delete_order_example =
    delete_order plain_keys memory one_key.0 5 one_key.2.after one_key.2.valid one_key.2.ordered
      refl facts.2
