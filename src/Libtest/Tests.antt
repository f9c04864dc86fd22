-- ===== src/Libtest/Tests.antt =====
-- Runs of the harness.
use freehttpd.Base.{
  ◌≡◌, refl, true, false, List, [], ◌∷◌, ◌++◌, none, some, arith, ◌&&◌, if◌then◌else◌,
}
use freehttpd.Libtest.Run.{exited, returns, ends, Callback, Round, child, parent}
use freehttpd.Libtest.Rounds.{
  length, IsWell, IsWellHook, AreWell, hook_fine, all_fine, is_fine, all_true, code_ok, reports,
}
use freehttpd.Libtest.Laws.{trues, falses, harness_lem}
use freehttpd.Libtest.EarlyExit.{early_exit_lem}

abbrev passes : Callback
passes = record { asserts = true ∷ true ∷ []; ending = returns 0 }

abbrev fails : Callback
fails = record { asserts = true ∷ false ∷ []; ending = returns 0 }

abbrev quits : Callback
quits = record { asserts = false ∷ []; ending = ends (exited 0) }

passes-IsWell : IsWell passes
unfolding length
passes-IsWell = record { rc = 0; returned = refl; small = omega arith }

fails-IsWell : IsWell fails
unfolding length
fails-IsWell = record { rc = 0; returned = refl; small = omega arith }

abbrev round_of : Callback → Round
round_of c = record { before_each = some passes; test = c; write_ok = true; after_each = none }

abbrev suite : List Round
suite = round_of passes ∷ round_of fails ∷ []

suite-AreWell : AreWell suite
unfolding AreWell IsWellHook
suite-AreWell = (
  record { before = passes-IsWell; test = passes-IsWell; after = tt },
  (record { before = passes-IsWell; test = fails-IsWell; after = tt }, tt),
)

harness_lem_example :
    ((parent (child none suite (some passes))).1
      ≡ (if hook_fine none && (all_fine suite && hook_fine (some passes)) then 0 else 1))
    × ((parent (child none suite (some passes))).0.passed_count ≡ trues (reports suite))
    × ((parent (child none suite (some passes))).0.failed_count ≡ falses (reports suite))
unfolding IsWellHook length
harness_lem_example =
    harness_lem none (some passes) suite tt passes-IsWell suite-AreWell (omega arith)

one_fails :
    ((parent (child none suite (some passes))).1 ≡ 1)
    × ((parent (child none suite (some passes))).0.passed_count ≡ 1)
unfolding reports trues is_fine all_fine hook_fine all_true code_ok
one_fails = (harness_lem_example.0, harness_lem_example.1)

early_exit_lem_example :
    ((parent (
        child none
          ((round_of passes ∷ []) ++ (round_of quits ∷ round_of fails ∷ []))
          (some fails))).1
      ≡ 0)
    × ((parent (
          child none
            ((round_of passes ∷ []) ++ (round_of quits ∷ round_of fails ∷ []))
            (some fails))).0.passed_count
        ≡ trues (reports (round_of passes ∷ [])))
    × ((parent (
          child none
            ((round_of passes ∷ []) ++ (round_of quits ∷ round_of fails ∷ []))
            (some fails))).0.failed_count
        ≡ 0)
unfolding IsWellHook AreWell all_fine is_fine hook_fine all_true code_ok length
early_exit_lem_example =
    early_exit_lem none (some fails) (round_of passes ∷ []) (round_of quits) (round_of fails ∷ [])
      tt (suite-AreWell.0, tt) refl passes-IsWell refl (omega arith)
