-- ===== src/Utils/Tests.antt =====
-- Runs of the rounding and of the clock.
use freehttpd.Base.{ℕ, ◌+◌, ◌*◌, ◌/◌, ◌^◌, ◌≤◌, ◌<◌, ◌≡◌, refl, arith}
use freehttpd.Utils.Round.{round_ceil2, clzll, clz_from}
use freehttpd.Utils.RoundLaws.{round_ceil2_lem}
use freehttpd.Utils.Time.{Timespec, time_now_ms, time_now_us, time_now_ns, IsClock, time_lem}

round_runs : (round_ceil2 5 ≡ 8) × (round_ceil2 16 ≡ 16) × (round_ceil2 0 ≡ 0)
unfolding round_ceil2 clzll clz_from
round_runs = (refl, refl, refl)

round_ceil2_lem_example :
    (k : ℕ) × (round_ceil2 5 ≡ 2 ^ k) × (1 ≤ k) × (5 ≤ round_ceil2 5) × (round_ceil2 5 < 2 * 5)
round_ceil2_lem_example = round_ceil2_lem 5 (omega arith) (omega arith)

abbrev moment : Timespec
moment = record { tv_sec = 5; tv_nsec = 123_456_789 }

moment-IsClock : IsClock moment
moment-IsClock = record { seconds = omega arith; below = omega arith }

time_lem_example :
    (time_now_us moment ≡ time_now_ns moment / 1000)
    × (time_now_ms moment ≡ time_now_ns moment / 1_000_000)
    × (time_now_ns moment ≡ moment.tv_sec * 1_000_000_000 + moment.tv_nsec)
time_lem_example = time_lem moment moment-IsClock
