-- ===== src/Libtest/Run.antt =====
-- The suite of src/libtest/libtest.c: the child process that runs the tests, and its parent that
-- counts what the child reports. A callback is the assertions that it makes and how it ends.
use freehttpd.Base.{
  ℕ, ◌+◌, Bool, true, false, not, List, [], ◌∷◌, Option, none, some, ◌==◌, ◌&&◌, ◌||◌,
  if◌then◌else◌, u64,
}
use freehttpd.Libtest.Assert.{Counters, assert_all, reset}

-- how a process ends: WEXITSTATUS, or WTERMSIG
pub data Status : Type 0 where
  exited signaled : ℕ → Status

-- a callback returns its code, or ends the process
pub data Ending : Type 0 where
  returns : ℕ → Ending
  ends : Status → Ending

pub record Callback : Type 0 where
  pub asserts : List Bool
  pub ending : Ending

-- a part of the child's run: the child goes on, or its process ended
pub data Step : Type 0 where
  goes : Bool → Counters → Step
  ended : Status → Step

-- a callback: whether it returned 0 and no assertion failed
unfoldable pub finish : Ending → Counters → Step
finish (returns rc) cs = goes ((rc == 0) && (cs.fails == 0)) cs
finish (ends status) cs = ended status

unfoldable pub call : Callback → Counters → Step
unfolding finish reset assert_all
call callback cs = finish callback.ending (assert_all (reset cs) callback.asserts)

-- `run_hook`; `none` is a hook that is NULL
unfoldable pub run_hook : Option Callback → Counters → Step
unfolding call
run_hook none cs = goes true cs
run_hook (some hook) cs = call hook cs

-- One round: what `before_each`, the test and `after_each` do in it, and whether `write` takes the
-- report.
pub record Round : Type 0 where
  pub before_each : Option Callback
  pub test : Callback
  pub write_ok : Bool
  pub after_each : Option Callback

-- what the child wrote to the pipe, and how it ended
pub record Child : Type 0 where
  pub written : List Bool
  pub status : Status

-- the rest of the child after a part of it; `exit_err` is what it has so far
unfoldable pub proceed : Step → Bool → (Bool → Counters → Child) → Child
proceed (ended status) exit_err rest = record { written = []; status = status }
proceed (goes ok cs) exit_err rest = rest (exit_err || not ok) cs

unfoldable pub report : Bool → Bool → Child → Child
report true passed child = record child { written = passed ∷ child.written }
report false passed child = child

-- `after_all` and the return of the child
unfoldable pub end_child : Option Callback → Bool → Counters → Child
unfolding run_hook proceed
end_child after_all exit_err cs =
    proceed (run_hook after_all cs) exit_err
      (λ err cs'. record { written = []; status = exited (if err then 1 else 0) })

-- what follows a test: the report, and `after_each`
unfoldable pub after_test : Round → Step → Bool → (Bool → Counters → Child) → Child
unfolding run_hook proceed report
after_test round (ended status) exit_err rest = record { written = []; status = status }
after_test round (goes passed cs) exit_err rest =
    report round.write_ok passed
      (proceed (run_hook round.after_each cs) (exit_err || not passed || not round.write_ok) rest)

-- the loop over the tests, and what follows it
unfoldable pub run_tests : List Round → Option Callback → Bool → Counters → Child
unfolding end_child run_hook call proceed after_test
run_tests [] after_all exit_err cs = end_child after_all exit_err cs
run_tests (round ∷ rounds) after_all exit_err cs =
    proceed (run_hook round.before_each cs) exit_err (λ err cs'.
      after_test round (call round.test cs') err
        (λ err' cs''. run_tests rounds after_all err' cs''))

-- the child
unfoldable pub child : Option Callback → List Round → Option Callback → Child
unfolding run_hook proceed run_tests
child before_all rounds after_all =
    proceed (run_hook before_all (record { fails = 0; successes = 0 })) false
      (λ err cs. run_tests rounds after_all err cs)

-- `passed_count` and `failed_count` after the loop of the parent
unfoldable pub tally : List Bool → ℕ → ℕ → ℕ × ℕ
tally [] passed failed = (passed, failed)
tally (true ∷ bs) passed failed = tally bs (u64 (passed + 1)) failed
tally (false ∷ bs) passed failed = tally bs passed (u64 (failed + 1))

-- the report file
pub record Report : Type 0 where
  pub passed_count : ℕ
  pub failed_count : ℕ
  pub ending : Status

unfoldable pub has_exited_0 : Status → Bool
has_exited_0 (exited code) = code == 0
has_exited_0 (signaled sig) = false

-- the parent, where its own calls succeed: the report file, and the exit code
unfoldable pub parent : Child → Report × ℕ
unfolding tally has_exited_0
parent c =
    let counts = tally c.written 0 0 in
    (
      record { passed_count = counts.0; failed_count = counts.1; ending = c.status },
      (if has_exited_0 c.status && (counts.1 == 0) then 0 else 1),
    )
