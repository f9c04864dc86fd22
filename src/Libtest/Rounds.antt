-- ===== src/Libtest/Rounds.antt =====
-- What the child process of src/libtest/libtest.c does, against what its callbacks do.
use freehttpd.Base.{
  ℕ, ◌+◌, ◌^◌, ◌<◌, ◌≡◌, refl, sym, ◌∙◌, ap, Bool, true, false, not, List, [], ◌∷◌, Option, none,
  some, ◌==◌, ◌&&◌, ◌||◌, if◌then◌else◌, u64, arith,
}
use native.Mathlib.Nat.{mod-eq_of_lt}
use freehttpd.Libtest.Assert.{Counters, assert_internal, assert_all, reset}
use freehttpd.Libtest.Run.{
  Status, exited, Ending, returns, ends, Callback, goes, finish, call, run_hook, Round, proceed,
  report, end_child, after_test, run_tests,
}

unfoldable pub length {ℓ} : {A : Type ℓ} → List A → ℕ
length [] = 0
length (x ∷ xs) = length xs + 1

unfoldable pub all_true : List Bool → Bool
all_true [] = true
all_true (b ∷ bs) = b && all_true bs

unfoldable pub code_ok : Ending → Bool
code_ok (returns rc) = rc == 0
code_ok (ends status) = false

-- the callback asserts nothing false and returns 0
unfoldable pub is_fine : Callback → Bool
unfolding all_true code_ok
is_fine c = code_ok c.ending && all_true c.asserts

unfoldable pub hook_fine : Option Callback → Bool
unfolding is_fine
hook_fine none = true
hook_fine (some c) = is_fine c

-- The callback returns, and its assertions can be counted.
pub record IsWell (c : Callback) : Type 0 where
  pub rc : ℕ
  pub returned : c.ending ≡ returns rc
  pub small : length c.asserts < 2 ^ 64

unfoldable pub IsWellHook : Option Callback → Type 0
IsWellHook none = Unit
IsWellHook (some c) = IsWell c

pub count_fails :
    (bs : List Bool) (cs : Counters)
    → cs.fails + length bs < 2 ^ 64
    → ((assert_all cs bs).fails == 0) ≡ ((cs.fails == 0) && all_true bs)
unfolding assert_all assert_internal length all_true
count_fails [] cs h = ground arith
count_fails (true ∷ bs) cs h =
    count_fails bs (record cs { successes = u64 (cs.successes + 1) }) (omega arith)
count_fails (false ∷ bs) cs h =
    let up : u64 (cs.fails + 1) ≡ cs.fails + 1 = mod-eq_of_lt {m = 2 ^ 64} (omega arith) in
    let ih = count_fails bs (record cs { fails = u64 (cs.fails + 1) }) (omega arith) in
    ih ∙ ground arith

pub call_lem :
    (c : Callback) (cs : Counters)
    → IsWell c
    → (cs' : Counters) × (call c cs ≡ goes (is_fine c) cs')
unfolding call finish reset is_fine code_ok
call_lem c cs w =
    let n =
      count_fails c.asserts (record { fails = 0; successes = 0 })
        (let s = w.small in omega arith) in
    let cs' = assert_all (record { fails = 0; successes = 0 }) c.asserts in
    (cs', (rw (w.returned, n)))

pub run_hook_lem :
    (hook : Option Callback) (cs : Counters)
    → IsWellHook hook
    → (cs' : Counters) × (run_hook hook cs ≡ goes (hook_fine hook) cs')
unfolding run_hook hook_fine IsWellHook
run_hook_lem none cs w = (cs, refl)
run_hook_lem (some c) cs w = call_lem c cs w

-- the callbacks of a round
pub record IsWellRound (r : Round) : Type 0 where
  pub before : IsWellHook r.before_each
  pub test : IsWell r.test
  pub after : IsWellHook r.after_each

unfoldable pub AreWell : List Round → Type 0
AreWell [] = Unit
AreWell (r ∷ rs) = IsWellRound r × AreWell rs

unfoldable pub all_fine : List Round → Bool
unfolding hook_fine is_fine
all_fine [] = true
all_fine (r ∷ rs) =
    (hook_fine r.before_each && (is_fine r.test && (r.write_ok && hook_fine r.after_each)))
    && all_fine rs

-- what the pipe carries
unfoldable pub reports : List Round → List Bool
unfolding is_fine
reports [] = []
reports (r ∷ rs) = if r.write_ok then is_fine r.test ∷ reports rs else reports rs

unfoldable pub exit_of : Bool → Bool → Status
exit_of err fine = exited (if err || not fine then 1 else 0)

pub exit_same :
    (err b t w a rest : Bool)
    → exit_of (((err || not b) || not t || not w) || not a) rest
      ≡ exit_of err ((b && (t && (w && a))) && rest)
unfolding exit_of
exit_same err b t w a rest = ground arith

pub and_assoc : (a b c : Bool) → (a && b) && c ≡ a && (b && c)
and_assoc a b c = ground arith

pub report_same :
    (w t : Bool) (rest : List Bool) (s : Status)
    → report w t (record { written = rest; status = s })
      ≡ record { written = if w then t ∷ rest else rest; status = s }
unfolding report
report_same true t rest s = refl
report_same false t rest s = refl

pub run_tests_lem :
    (rounds : List Round) (after_all : Option Callback) (err : Bool) (cs : Counters)
    → AreWell rounds
    → IsWellHook after_all
    → run_tests rounds after_all err cs ≡ record {
      written = reports rounds;
      status = exit_of err (all_fine rounds && hook_fine after_all);
    }
unfolding run_tests end_child proceed after_test AreWell all_fine reports exit_of
run_tests_lem [] after_all err cs w wa = let (cs', e) = run_hook_lem after_all cs wa in rw (e)
run_tests_lem (r ∷ rs) after_all err cs (w, ws) wa =
    let (cs₁, e₁) = run_hook_lem r.before_each cs w.before in
    let (cs₂, e₂) = call_lem r.test cs₁ w.test in
    let (cs₃, e₃) = run_hook_lem r.after_each cs₂ w.after in
    let b = hook_fine r.before_each in
    let t = is_fine r.test in
    let a = hook_fine r.after_each in
    let ih =
      run_tests_lem rs after_all (((err || not b) || not t || not r.write_ok) || not a) cs₃ ws wa in
    rw (e₁, e₂, e₃, ih)
      (report_same r.write_ok t (reports rs) (
          exit_of (((err || not b) || not t || not r.write_ok) || not a)
            (all_fine rs && hook_fine after_all))
        ∙ ap
            (λ (s : Status). record {
              written = if r.write_ok then t ∷ reports rs else reports rs;
              status = s;
            })
            (exit_same err b t r.write_ok a (all_fine rs && hook_fine after_all)
              ∙ ap (λ (f : Bool). exit_of err f)
                  (sym (
                    and_assoc (b && (t && (r.write_ok && a))) (all_fine rs)
                      (hook_fine after_all)))))
