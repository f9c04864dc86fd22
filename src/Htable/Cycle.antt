-- ===== src/Htable/Cycle.antt =====
-- The probe sequence: from a cell it visits every cell of the index once before it comes back.
use native.Mathlib.Nat.{mod-eq_of_lt, mod_self, pow-suc, one-le-pow}
use freehttpd.Base.{
  ℕ, zero, suc, ◌+◌, ◌-◌, ◌%◌, ◌^◌, ◌≤◌, ◌<◌, ◌≡◌, ap, ◌∙◌, inl, inr, Bool-cases, ltb, ltb→lt,
  ltb→ge, false, arith, if◌then◌else◌,
}
use freehttpd.Base.Bits.{bit_and_mask}
use freehttpd.Htable.Table.{masked, next_hash}

-- A capacity of the index: a power of two that 32-bit indices can number.
pub record IsCapacity (cap : ℕ) : Type 0 where
  pub bits : ℕ
  pub pos : 1 ≤ bits
  pub small : cap ≤ 2 ^ 31
  pub power : cap ≡ 2 ^ bits

pow_pos : (b : ℕ) → 1 ≤ b → 2 ≤ 2 ^ b
pow_pos zero h = absurd (omega arith)
pow_pos (suc b) h = omega (arith, pow-suc 2 b, one-le-pow b 2)

pub two-le-cap : {cap : ℕ} → IsCapacity cap → 2 ≤ cap
two-le-cap c = omega (arith, pow_pos c.bits c.pos)

module _ {cap : ℕ} (c : IsCapacity cap) where
  masked-mod : (x : ℕ) → masked cap x ≡ x % cap
  unfolding masked
  masked-mod x = rw c.power (bit_and_mask c.bits x)

  pub masked-lt : (x : ℕ) → masked cap x < cap
  masked-lt x = omega (arith, masked-mod x, two-le-cap c)

  pub next_hash_lem : (h : ℕ) → h < cap → next_hash cap h ≡ (if ltb (h + 1) cap then h + 1 else 0)
  unfolding next_hash masked
  next_hash_lem h lt = elim (Bool-cases (ltb (h + 1) cap)) [
    | inl e ↦ rw e (omega (arith, wraps, mod-eq_of_lt {n = h + 1} {m = cap} (ltb→lt _ _ e)))
    | inr e ↦ rw e (wraps ∙ ap (λ (x : ℕ). x % cap) (full e) ∙ at_end)
  ]
    where
      wraps : masked cap ((h + 1) % 2 ^ 64) ≡ (h + 1) % cap
      wraps =
          masked-mod ((h + 1) % 2 ^ 64)
          ∙ ap (λ (x : ℕ). x % cap) (mod-eq_of_lt (omega (arith, c.small)))

      full : ltb (h + 1) cap ≡ false → h + 1 ≡ cap
      full e = omega (arith, ltb→ge _ _ e)

      at_end : cap % cap ≡ 0
      at_end = mod_self cap

  pub next_hash-lt : (h : ℕ) → h < cap → next_hash cap h < cap
  next_hash-lt h lt = ground (arith, next_hash_lem h lt)

-- the cell after `m` rounds from `h`
unfoldable pub nth : ℕ → ℕ → ℕ → ℕ
nth cap h zero = h
nth cap h (suc m) = next_hash cap (nth cap h m)

module _ {cap : ℕ} (c : IsCapacity cap) where
  pub nth-lt : (h m : ℕ) → h < cap → nth cap h m < cap
  unfolding nth
  nth-lt h zero lt = lt
  nth-lt h (suc m) lt = next_hash-lt c (nth cap h m) (nth-lt h m lt)

  nth_lem :
      (h m : ℕ) → h < cap → m < cap → nth cap h m ≡ (if ltb (h + m) cap then h + m else h + m - cap)
  unfolding nth
  nth_lem h zero lt small = ground arith
  nth_lem h (suc m) lt small =
      ground (arith, nth_lem h m lt, next_hash_lem c (nth cap h m) (nth-lt h m lt))

  -- every cell is visited
  pub nth_covers : (h j : ℕ) → h < cap → j < cap → (m : ℕ) × (m < cap) × (nth cap h m ≡ j)
  nth_covers h j hl jl = elim (Bool-cases (ltb j h)) [
    | inl e ↦ (j + cap - h, ground arith, ground (arith, nth_lem h (j + cap - h) hl))
    | inr e ↦ (j - h, ground arith, ground (arith, nth_lem h (j - h) hl))
  ]
