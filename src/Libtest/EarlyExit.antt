-- ===== src/Libtest/EarlyExit.antt =====
-- A test that ends the child of src/libtest/libtest.c with the exit code 0.
use freehttpd.Base.{
  ◌^◌, ◌<◌, ◌≡◌, ◌∙◌, Bool, true, false, not, List, [], ◌∷◌, ◌++◌, Option, ◌||◌, arith,
}
use freehttpd.Libtest.Assert.{Counters}
use freehttpd.Libtest.Run.{
  Status, exited, ends, Callback, ended, finish, call, Round, proceed, after_test, run_tests, child,
  tally, has_exited_0, parent,
}
use freehttpd.Libtest.Rounds.{
  length, IsWellHook, AreWell, is_fine, hook_fine, all_fine, reports, report_same, call_lem,
  run_hook_lem,
}
use freehttpd.Libtest.Laws.{trues, falses, tally_lem, reports_le, no_falses, starts, plus_zero}

ends_child : (c : Callback) (cs : Counters) (s : Status) → c.ending ≡ ends s → call c cs ≡ ended s
unfolding call finish
ends_child c cs s e = rw (e)

run_exit :
    (before : List Round) (r : Round) (later : List Round) (after_all : Option Callback)
    (err : Bool) (cs : Counters)
    → AreWell before
    → IsWellHook r.before_each
    → r.test.ending ≡ ends (exited 0)
    → run_tests (before ++ (r ∷ later)) after_all err cs
      ≡ record { written = reports before; status = exited 0 }
unfolding run_tests proceed after_test AreWell reports
run_exit [] r later after_all err cs w wr e =
    let (cs', h) = run_hook_lem r.before_each cs wr in rw (h, ends_child r.test cs' (exited 0) e)
run_exit (b ∷ before) r later after_all err cs (w, ws) wr e =
    let (cs₁, e₁) = run_hook_lem b.before_each cs w.before in
    let (cs₂, e₂) = call_lem b.test cs₁ w.test in
    let (cs₃, e₃) = run_hook_lem b.after_each cs₂ w.after in
    let ih =
      run_exit before r later after_all
        (((err || not (hook_fine b.before_each)) || not (is_fine b.test) || not b.write_ok)
          || not (hook_fine b.after_each))
        cs₃ ws wr e in
    rw (e₁, e₂, e₃, ih) (report_same b.write_ok (is_fine b.test) (reports before) (exited 0))

-- When a test calls `exit (0)`, after rounds that are all fine, the harness exits with 0, whatever
-- the later tests would do, and whether or not `after_all` would succeed; the report counts the
-- earlier tests only, and no failure.
pub early_exit_lem :
    (before_all after_all : Option Callback) (before : List Round) (r : Round) (later : List Round)
    → IsWellHook before_all
    → AreWell before
    → all_fine before ≡ true
    → IsWellHook r.before_each
    → r.test.ending ≡ ends (exited 0)
    → length before < 2 ^ 64
    → ((parent (child before_all (before ++ (r ∷ later)) after_all)).1 ≡ 0)
      × ((parent (child before_all (before ++ (r ∷ later)) after_all)).0.passed_count
          ≡ trues (reports before))
      × ((parent (child before_all (before ++ (r ∷ later)) after_all)).0.failed_count ≡ 0)
unfolding parent has_exited_0
early_exit_lem before_all after_all before r later wb ws fine wr e small =
    let (cs, h) = run_hook_lem before_all (record { fails = 0; successes = 0 }) wb in
    let run : child before_all (before ++ (r ∷ later)) after_all
        ≡ record { written = reports before; status = exited 0 } =
      starts before_all (before ++ (r ∷ later)) after_all cs h
      ∙ run_exit before r later after_all (false || not (hook_fine before_all)) cs ws wr e in
    let le = reports_le before in
    let none_failed = no_falses before fine in
    let counts : tally (reports before) 0 0 ≡ (trues (reports before), falses (reports before)) =
      tally_lem (reports before) 0 0 (omega arith)
      ∙ plus_zero (trues (reports before)) (falses (reports before)) in
    (rw (run, counts, none_failed), rw (run, counts), rw (run, counts) none_failed)
