-- ===== src/Base/Bits.antt =====
-- `&` with a mask of `k` ones, at every width.
use Prim.Native.Nat.{
  ℕ, zero, suc, ◌+◌, ◌-◌, ◌*◌, ◌/◌, ◌%◌, ◌^◌, ◌≤◌, ◌<◌, min, bit_and, digits, bit_and-bitwise,
}
use mathlib.Core.Path.{◌≡◌, refl, sym, ap, ◌∙◌, subst}
use native.Mathlib.Nat.{pow-suc, one-le-pow}
use native.Mathlib.Omega.{arith}

-- a mask of ones, from its low bit
unfoldable ones : ℕ → ℕ
ones zero = 0
ones (suc k) = 2 * ones k + 1

ones_lem : (k : ℕ) → ones k ≡ 2 ^ k - 1
unfolding ones
ones_lem zero = refl
ones_lem (suc k) = omega (arith, ones_lem k, pow-suc 2 k, one-le-pow k 2)

half_ones : (k : ℕ) → (ones (suc k) / 2 ≡ ones k) × (ones (suc k) % 2 ≡ 1)
unfolding ones
half_ones k = omega arith

-- the value of the first `k` bits
unfoldable low : ℕ → ℕ → ℕ
low zero a = 0
low (suc k) a = low k (a / 2) * 2 + a % 2

low_lem : (k q r : ℕ) → r < 2 ^ k → low k (q * 2 ^ k + r) ≡ r
unfolding low
low_lem zero q r h = omega arith
low_lem (suc k) q r h =
    let double : q * 2 ^ suc k ≡ q * 2 ^ k * 2 =
      omega (arith, ap (λ (t : ℕ). q * t) (pow-suc 2 k)) in
    let fits : r / 2 < 2 ^ k = omega (arith, pow-suc 2 k) in
    let half : (q * 2 ^ suc k + r) / 2 ≡ q * 2 ^ k + r / 2 = omega arith in
    let rest = ap (λ (t : ℕ). low k t) half ∙ low_lem k q (r / 2) fits in omega arith

low-zero : (k : ℕ) → low k 0 ≡ 0
unfolding low
low-zero zero = refl
low-zero (suc k) = omega (arith, low-zero k)

-- the bitwise definition of `&` at a mask keeps the low bits
masked_digits : (n k a : ℕ) → a ≤ n → digits (λ b. zero) min n a (ones k) ≡ low k a
unfolding low ones
masked_digits zero k zero h = sym (low-zero k)
masked_digits zero k (suc a) h = absurd (omega arith)
masked_digits (suc n) k zero h = sym (low-zero k)
masked_digits (suc n) zero (suc a) h = omega (arith, masked_digits n zero (suc a / 2) (omega arith))
masked_digits (suc n) (suc k) (suc a) h =
    rw ((half_ones k).0, (half_ones k).1, masked_digits n k (suc a / 2) (omega arith)) (omega arith)

-- `x & (2^k - 1)` is the remainder
pub bit_and_mask : (k a : ℕ) → bit_and a (2 ^ k - 1) ≡ a % 2 ^ k
bit_and_mask k a =
    subst (λ (b : ℕ). bit_and a b ≡ a % 2 ^ k) (ones_lem k)
      (bit_and-bitwise a (ones k)
        ∙ masked_digits a k a (omega arith)
        ∙ (ground (arith, one-le-pow k 2, low_lem k (a / 2 ^ k) (a % 2 ^ k))))
