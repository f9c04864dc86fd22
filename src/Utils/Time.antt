-- ===== src/Utils/Time.antt =====
-- The clock of src/utils/datetime.c: a `struct timespec` in milli-, micro- and nanoseconds. What
-- clock_gettime stores is an argument.
use freehttpd.Base.{ℕ, ◌+◌, ◌*◌, ◌/◌, ◌^◌, ◌<◌, ◌≡◌, arith, u64}
use native.Mathlib.Nat.{mod-eq_of_lt}

pub record Timespec : Type 0 where
  pub tv_sec : ℕ
  pub tv_nsec : ℕ

unfoldable pub time_now_ms : Timespec → ℕ
time_now_ms ts = u64 (u64 (ts.tv_sec * 1000) + ts.tv_nsec / 1_000_000)

unfoldable pub time_now_us : Timespec → ℕ
time_now_us ts = u64 (u64 (ts.tv_sec * 1_000_000) + ts.tv_nsec / 1000)

unfoldable pub time_now_ns : Timespec → ℕ
time_now_ns ts = u64 (u64 (ts.tv_sec * 1_000_000_000) + ts.tv_nsec)

-- the total of a clock of fewer than 2^34 seconds, over 500 years
pub record IsClock (ts : Timespec) : Type 0 where
  pub seconds : ts.tv_sec < 2 ^ 34
  pub below : ts.tv_nsec < 1_000_000_000

ns_lem : (ts : Timespec) → IsClock ts → time_now_ns ts ≡ ts.tv_sec * 1_000_000_000 + ts.tv_nsec
unfolding time_now_ns
ns_lem ts c =
    let a = c.seconds in
    let b = c.below in
    let first : u64 (ts.tv_sec * 1_000_000_000) ≡ ts.tv_sec * 1_000_000_000 =
      mod-eq_of_lt {m = 2 ^ 64} (omega arith) in
    rw (first) (mod-eq_of_lt {m = 2 ^ 64} (omega arith))

us_lem : (ts : Timespec) → IsClock ts → time_now_us ts ≡ ts.tv_sec * 1_000_000 + ts.tv_nsec / 1000
unfolding time_now_us
us_lem ts c =
    let a = c.seconds in
    let b = c.below in
    let first : u64 (ts.tv_sec * 1_000_000) ≡ ts.tv_sec * 1_000_000 =
      mod-eq_of_lt {m = 2 ^ 64} (omega arith) in
    rw (first) (mod-eq_of_lt {m = 2 ^ 64} (omega arith))

ms_lem : (ts : Timespec) → IsClock ts → time_now_ms ts ≡ ts.tv_sec * 1000 + ts.tv_nsec / 1_000_000
unfolding time_now_ms
ms_lem ts c =
    let a = c.seconds in
    let b = c.below in
    let first : u64 (ts.tv_sec * 1000) ≡ ts.tv_sec * 1000 =
      mod-eq_of_lt {m = 2 ^ 64} (omega arith) in
    rw (first) (mod-eq_of_lt {m = 2 ^ 64} (omega arith))

-- For a clock below 2^34 seconds, the three readings of one `struct timespec` do not overflow and
-- agree: the milliseconds and the microseconds are the nanoseconds divided and rounded down.
pub time_lem :
    (ts : Timespec)
    → IsClock ts
    → (time_now_us ts ≡ time_now_ns ts / 1000)
      × (time_now_ms ts ≡ time_now_ns ts / 1_000_000)
      × (time_now_ns ts ≡ ts.tv_sec * 1_000_000_000 + ts.tv_nsec)
time_lem ts c =
    let n = ns_lem ts c in
    let u = us_lem ts c in let m = ms_lem ts c in (omega arith, omega arith, n)
