-- ===== src/Htable/IntKeys.antt =====
-- The key macros and the hash of src/hash/int_htable.h and int_htable.c.
use freehttpd.Base.{ℕ, ◌*◌, ◌/◌, ◌^◌, bit_xor, ◌≡◌, ◌↔◌, true, ◌==◌, ==→eq, eq→==, u64}
use freehttpd.Htable.Table.{Keys}

-- `int_htable_key_hash`, the finalizer of SplitMix64; `hash >> k` is a quotient
unfoldable pub int_htable_key_hash : ℕ → ℕ
int_htable_key_hash key =
    let h₁ = bit_xor key (key / 2 ^ 30) in
    let h₂ = u64 (h₁ * 0xbf58476d1ce4e5b9) in
    let h₃ = bit_xor h₂ (h₂ / 2 ^ 27) in
    let h₄ = u64 (h₃ * 0x94d049bb133111eb) in bit_xor h₄ (h₄ / 2 ^ 31)

pub equal_lem : (a b : ℕ) → ((a == b) ≡ true) ↔ (a ≡ b)
equal_lem a b = (==→eq a b, eq→== a b)

-- HT_KEY_EQUAL_CB and HT_KEY_HASH_CB
unfoldable pub int_keys : Keys ℕ
unfolding int_htable_key_hash
int_keys = record { equal = λ a b. a == b; hash = int_htable_key_hash; equal_iff = equal_lem }
