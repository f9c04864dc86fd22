-- ===== src/Libtest/Assert.antt =====
-- The counted assertions of src/libtest/assert.c.
use freehttpd.Base.{ℕ, ◌+◌, Bool, true, false, List, [], ◌∷◌, u64}

-- `assert_fail_count` and `assert_success_count`
pub record Counters : Type 0 where
  pub fails : ℕ
  pub successes : ℕ

-- `enum assert_code`
pub data AssertCode : Type 0 where
  assert_ok assert_fail : AssertCode

-- `assert_internal`, less its message
unfoldable pub assert_internal : Counters → Bool → AssertCode × Counters
assert_internal cs true = (assert_ok, record cs { successes = u64 (cs.successes + 1) })
assert_internal cs false = (assert_fail, record cs { fails = u64 (cs.fails + 1) })

-- `set_assert_fail_count (0)` and `set_assert_success_count (0)`
unfoldable pub reset : Counters → Counters
reset cs = record { fails = 0; successes = 0 }

-- the assertions of a callback, in order
unfoldable pub assert_all : Counters → List Bool → Counters
unfolding assert_internal
assert_all cs [] = cs
assert_all cs (b ∷ bs) = assert_all (assert_internal cs b).1 bs
