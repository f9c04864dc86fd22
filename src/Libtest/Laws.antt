-- ===== src/Libtest/Laws.antt =====
-- What the harness of src/libtest/libtest.c answers, against what its callbacks do.
use freehttpd.Base.{
  ℕ, ◌+◌, ◌^◌, ◌≤◌, ◌<◌, ◌≡◌, refl, ◌∙◌, ap, inl, inr, Bool, true, false, not, List, [], ◌∷◌,
  Option, ◌==◌, ◌&&◌, ◌||◌, if◌then◌else◌, u64, arith, Bool-cases,
}
use native.Mathlib.Nat.{mod-eq_of_lt}
use freehttpd.Libtest.Assert.{Counters}
use freehttpd.Libtest.Run.{
  Callback, goes, run_hook, Round, proceed, run_tests, child, tally, has_exited_0, parent,
}
use freehttpd.Libtest.Rounds.{
  length, is_fine, hook_fine, IsWellHook, run_hook_lem, AreWell, all_fine, reports, exit_of,
  run_tests_lem,
}

unfoldable pub trues : List Bool → ℕ
trues [] = 0
trues (b ∷ bs) = if b then trues bs + 1 else trues bs

unfoldable pub falses : List Bool → ℕ
falses [] = 0
falses (b ∷ bs) = if b then falses bs else falses bs + 1

pub tally_lem :
    (bs : List Bool) (p f : ℕ)
    → p + f + length bs < 2 ^ 64
    → tally bs p f ≡ (p + trues bs, f + falses bs)
unfolding tally trues falses length
tally_lem [] p f h =
    let e : p + 0 ≡ p = omega arith in let e' : f + 0 ≡ f = omega arith in rw (e, e')
tally_lem (true ∷ bs) p f h =
    let up : u64 (p + 1) ≡ p + 1 = mod-eq_of_lt {m = 2 ^ 64} (omega arith) in
    let sum : p + 1 + trues bs ≡ p + (trues bs + 1) = omega arith in
    rw (up) (tally_lem bs (p + 1) f (omega arith) ∙ ap (λ (n : ℕ). (n, f + falses bs)) sum)
tally_lem (false ∷ bs) p f h =
    let up : u64 (f + 1) ≡ f + 1 = mod-eq_of_lt {m = 2 ^ 64} (omega arith) in
    let sum : f + 1 + falses bs ≡ f + (falses bs + 1) = omega arith in
    rw (up) (tally_lem bs p (f + 1) (omega arith) ∙ ap (λ (n : ℕ). (p + trues bs, n)) sum)

pub reports_le : (rs : List Round) → length (reports rs) ≤ length rs
unfolding reports length
reports_le [] = omega arith
reports_le (r ∷ rs) = elim (Bool-cases r.write_ok) [
  | inl y ↦ let ih = reports_le rs in rw (y) (omega arith)
  | inr n ↦ let ih = reports_le rs in rw (n) (omega arith)
]

and_left : (a b : Bool) → a && b ≡ true → a ≡ true
and_left a b h = ground arith

and_right : (a b : Bool) → a && b ≡ true → b ≡ true
and_right a b h = ground arith

pub no_falses : (rs : List Round) → all_fine rs ≡ true → falses (reports rs) ≡ 0
unfolding all_fine reports falses
no_falses [] h = refl
no_falses (r ∷ rs) h =
    let here =
      and_left
        (hook_fine r.before_each && (is_fine r.test && (r.write_ok && hook_fine r.after_each)))
        (all_fine rs) h in
    let ih = no_falses rs (
      and_right
        (hook_fine r.before_each && (is_fine r.test && (r.write_ok && hook_fine r.after_each)))
        (all_fine rs) h) in
    let tail =
      and_right (hook_fine r.before_each) (is_fine r.test && (r.write_ok && hook_fine r.after_each))
        here in
    let t : is_fine r.test ≡ true =
      and_left (is_fine r.test) (r.write_ok && hook_fine r.after_each) tail in
    let w : r.write_ok ≡ true =
      and_left r.write_ok (hook_fine r.after_each)
        (and_right (is_fine r.test) (r.write_ok && hook_fine r.after_each) tail) in
    rw (w, t) ih

-- the code of the parent, from whether the child and the counts are fine
code_lem :
    (b f a : Bool) (n : ℕ)
    → (f ≡ true → n ≡ 0)
    → ◌≡◌ {A = ℕ}
        (if has_exited_0 (exit_of (false || not b) (f && a)) && (n == 0) then 0 else 1)
        (if b && (f && a) then 0 else 1)
unfolding has_exited_0 exit_of
code_lem true true true n h = rw (h refl)
code_lem true true false n h = refl
code_lem true false a n h = refl
code_lem false f a n h = refl

pub plus_zero : (a b : ℕ) → ◌≡◌ {A = ℕ × ℕ} (0 + a, 0 + b) (a, b)
plus_zero a b = let e : 0 + a ≡ a = omega arith in let e' : 0 + b ≡ b = omega arith in rw (e, e')

pub starts :
    (before_all : Option Callback) (rounds : List Round) (after_all : Option Callback)
    (cs : Counters)
    → run_hook before_all (record { fails = 0; successes = 0 }) ≡ goes (hook_fine before_all) cs
    → child before_all rounds after_all
      ≡ run_tests rounds after_all (false || not (hook_fine before_all)) cs
unfolding child proceed
starts before_all rounds after_all cs e = rw (e)

-- When every callback of a suite returns and makes fewer than 2^64 assertions, and there are fewer
-- than 2^64 tests, the harness exits with 0 exactly when all hooks and tests return 0 without a false
-- assertion and all reports were written, and else with 1. The report counts the tests that were
-- reported, as passed or failed by whether they were fine.
pub harness_lem :
    (before_all after_all : Option Callback) (rounds : List Round)
    → IsWellHook before_all
    → IsWellHook after_all
    → AreWell rounds
    → length rounds < 2 ^ 64
    → ((parent (child before_all rounds after_all)).1
        ≡ (if hook_fine before_all && (all_fine rounds && hook_fine after_all) then 0 else 1))
      × ((parent (child before_all rounds after_all)).0.passed_count ≡ trues (reports rounds))
      × ((parent (child before_all rounds after_all)).0.failed_count ≡ falses (reports rounds))
unfolding parent
harness_lem before_all after_all rounds wb wa ws small =
    let (cs, e) = run_hook_lem before_all (record { fails = 0; successes = 0 }) wb in
    let run : child before_all rounds after_all ≡ record {
      written = reports rounds;
      status =
          exit_of (false || not (hook_fine before_all)) (all_fine rounds && hook_fine after_all);
    } =
      starts before_all rounds after_all cs e
      ∙ run_tests_lem rounds after_all (false || not (hook_fine before_all)) cs ws wa in
    let le = reports_le rounds in
    let counts : tally (reports rounds) 0 0 ≡ (trues (reports rounds), falses (reports rounds)) =
      tally_lem (reports rounds) 0 0 (omega arith)
      ∙ plus_zero (trues (reports rounds)) (falses (reports rounds)) in
    (
      rw (run, counts)
          (code_lem (hook_fine before_all) (all_fine rounds) (hook_fine after_all)
            (falses (reports rounds)) (no_falses rounds)),
      rw (run, counts),
      rw (run, counts),
    )
