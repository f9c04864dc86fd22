-- ===== src/Utils/RoundLaws.antt =====
-- `util_round_ceil2_ull` is the least power of two that is not below its argument.
use native.Mathlib.Nat.{pow-suc, one-le-pow, mod-eq_of_lt}
use freehttpd.Base.{
  ℕ, zero, suc, ◌+◌, ◌-◌, ◌*◌, ◌/◌, ◌%◌, ◌^◌, ◌≤◌, ◌<◌, ◌≡◌, leb, arith, eq→==, ne→==, inl, inr,
  Bool-cases, true, false,
}
use freehttpd.Utils.Round.{clz_from, clzll, round_ceil2}

quotient_zero : (v p : ℕ) → 0 < p → v < p → v / p ≡ 0
quotient_zero v p pos lt = grind arith

quotient_pos : (v p : ℕ) → 0 < p → p ≤ v → 0 < v / p
quotient_pos v p pos le = grind arith

leb_le : (a b : ℕ) → leb a b ≡ true → a ≤ b
leb_le a b e = ground arith

leb_two : (v : ℕ) → 2 ≤ v → leb v 2 ≡ true → v ≡ 2
leb_two v lo e = ground arith

leb_above : (a : ℕ) {b : ℕ} → leb a b ≡ false → b < a
leb_above a e = ground arith

-- `n - clz_from n v` is the number of binary digits of `v`
clz_digits :
    (n v : ℕ)
    → 0 < v
    → v < 2 ^ n
    → (d : ℕ) × (clz_from n v + suc d ≡ n) × (2 ^ d ≤ v) × (v < 2 ^ suc d)
unfolding clz_from
clz_digits zero v pos lt = absurd (omega arith)
clz_digits (suc n) v pos lt = elim (Bool-cases (leb (2 ^ n) v)) [
  | inl e ↦
      let le : 2 ^ n ≤ v = leb_le (2 ^ n) v e in
      let some_digit = quotient_pos v (2 ^ n) (one-le-pow n 2 (omega arith)) le in
      (n, rw (ne→== (v / 2 ^ n) 0 (omega arith)) (omega arith), le, lt)
  | inr e ↦
      let small : v < 2 ^ n = leb_above (2 ^ n) e in
      let none_here = quotient_zero v (2 ^ n) (one-le-pow n 2 (omega arith)) small in
      let (d, sum, lo, hi) = clz_digits n v pos small in
      (d, rw (eq→== (v / 2 ^ n) 0 none_here) (omega arith), lo, hi)
]

-- For 2 ≤ v ≤ 2^63 the result is a power of two between v and 2v, 2v excluded: the least power of
-- two that is not below v.
pub round_ceil2_lem :
    (v : ℕ)
    → 2 ≤ v
    → v ≤ 2 ^ 63
    → (k : ℕ) × (round_ceil2 v ≡ 2 ^ k) × (1 ≤ k) × (v ≤ round_ceil2 v) × (round_ceil2 v < 2 * v)
unfolding round_ceil2 clzll
round_ceil2_lem v lo hi = elim (Bool-cases (leb v 2)) [
  | inl e ↦
      let two : v ≡ 2 = leb_two v lo e in
      (1, rw e two, omega arith, rw e (omega arith), rw e (omega arith))
  | inr e ↦
      let above : 2 < v = leb_above v e in
      let (d, sum, low, high) = clz_digits 64 (v - 1) (omega arith) (omega arith) in
      let digits : 64 - clz_from 64 (v - 1) ≡ suc d = omega arith in
      let wide : 2 ^ suc d < 2 ^ 64 = omega (arith, pow-suc 2 d) in
      let value : (2 ^ (64 - clz_from 64 (v - 1))) % 2 ^ 64 ≡ 2 ^ suc d =
        rw digits (mod-eq_of_lt wide) in
      (
        suc d,
        rw e value,
        omega arith,
        rw (e, value) (omega arith),
        rw (e, value) (omega (arith, pow-suc 2 d)),
      )
]
