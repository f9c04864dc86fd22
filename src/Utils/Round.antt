-- ===== src/Utils/Round.antt =====
-- `util_round_ceil2_ull` of src/utils/utils.c, its branch for GCC and Clang.
use freehttpd.Base.{ℕ, ◌-◌, ◌/◌, ◌^◌, u64, leb, if◌then◌else◌, zero, suc, ◌==◌}

-- `__builtin_clzll`: the leading zeros of 64 bits, counted from bit 63 - (64 - n) down.
unfoldable pub clz_from : ℕ → ℕ → ℕ
clz_from zero v = 0
clz_from (suc n) v = let rest = clz_from n v in if v / 2 ^ n == 0 then suc rest else 0

unfoldable pub clzll : ℕ → ℕ
unfolding clz_from
clzll v = clz_from 64 v

-- For a value above 2^63 the source shifts `1ULL` by 64, which C does not define. This function is 0
-- there, and no theorem is about such values.
unfoldable pub round_ceil2 : ℕ → ℕ
round_ceil2 value = if leb value 2 then value else u64 (2 ^ (64 - clzll (value - 1)))
