-- ===== src/Xio/WaitTests.antt =====
-- Runs of `fh_xio_wait` and of the preparation of a request.
use freehttpd.Base.{
  ℕ, ◌-◌, ◌≡◌, refl, true, false, List, [], ◌∷◌, none, some, arith, ◌==◌, if◌then◌else◌, ==→eq,
  eq→==, read,
}
use freehttpd.Htable.Table.{Keys, masked}
use freehttpd.Htable.Ops.{get, get_with_flag}
use freehttpd.Htable.Probe.{search}
use freehttpd.Xio.Refused.{IsKnown, next_task, request_prep_lem}
use freehttpd.Xio.Wait.{StateEvent}
use freehttpd.Xio.Prep.{Context, prep_out, Env, request_prep, has_events}
use freehttpd.Xio.Tests.{busy, two_free-IsPool}

abbrev two_events : List StateEvent
two_events = record { is_error = false; state = 0 } ∷ record { is_error = true; state = 1 } ∷ []

abbrev reading : ℕ → List ℕ
reading s = 9 ∷ 5 ∷ []

abbrev writing : ℕ → List ℕ
writing s = []

abbrev plain_keys : Keys ℕ
plain_keys = record { equal = ◌==◌; hash = λ k. k; equal_iff = λ a b. (==→eq a b, eq→== a b) }

-- the descriptor 7 has the state 1, which waits for reading only
abbrev known : Context
known = record busy {
  fd_state_table = record busy.fd_state_table {
    index_list = λ i. if i == 1 then 1 else 0;
    count = 1;
    entry_next_insert = 1;
    index_capacity = 2;
  };
}

abbrev env : Env
env = record {
  alloc = record { calloc_ok = true; malloc_entries = none; dup_ok = true; realloc_ok = true };
  add_fd = true;
  modify_fd = true;
}

known-IsKnown : IsKnown plain_keys known 7 1 prep_out
unfolding has_events get get_with_flag search masked read
known-IsKnown = record {
  found = refl;
  waits_not = refl;
  tasks = two_free-IsPool;
  has_task = omega arith;
}

request_prep_lem_example :
    (env.modify_fd ≡ true
      → (xio' : Context) × (request_prep plain_keys env known 3 prep_out 7 100 64 10
          ≡ some (none, xio'))
        × (xio'.task_pool.top ≡ known.task_pool.top)
        × ((i : ℕ) → xio'.task_pool.free i ≡ known.task_pool.free i)
        × (xio'.fd_state_list ≡ known.fd_state_list))
    × (env.modify_fd ≡ false
        → (xio' : Context) × (request_prep plain_keys env known 3 prep_out 7 100 64 10
            ≡ some (some (record { task = next_task known; slice = none }), xio'))
          × (xio'.task_pool.top ≡ known.task_pool.top - 1))
request_prep_lem_example =
    request_prep_lem plain_keys env known 3 7 100 64 10 1 prep_out known-IsKnown (omega arith)
