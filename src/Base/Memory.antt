-- ===== src/Base/Memory.antt =====
-- C arrays and objects as functions from an index, and results that may be undefined behaviour.
use Prim.Native.Nat.{ℕ, ◌%◌, ◌^◌, ◌<◌}
use mathlib.Core.Bool.{Bool, true, false}
use mathlib.Core.Logic.{◌≢◌}
use mathlib.Core.Option.{Option, none, some}
use mathlib.Core.Path.{◌≡◌}
use native.Mathlib.Omega.{arith}
use freehttpd.Base.Tests.{ltb, ◌==◌, if◌then◌else◌}

-- `none` is undefined behaviour or a failed `assert`: an access out of bounds.
infixl 5 ◌>>=◌ ◌>>◌
abbrev pub ◌>>=◌ {ℓ κ} : {A : Type ℓ} {B : Type κ} → Option A → (A → Option B) → Option B
none >>= f = none
some a >>= f = f a

abbrev pub ◌>>◌ {ℓ} : {B : Type ℓ} → Option (Unit {0}) → Option B → Option B
m >> k = m >>= λ _. k

module _ {ℓ} {A : Type ℓ} where
  -- `a[i] = v`
  abbrev pub update : (ℕ → A) → ℕ → A → ℕ → A
  update a i v j = if i == j then v else a j

  -- `a[i]`, for an array of `n` cells
  unfoldable pub read : (ℕ → A) → ℕ → ℕ → Option A
  read a n i = if ltb i n then some (a i) else none

  -- `a[i] = v`, for an array of `n` cells
  unfoldable pub write : (ℕ → A) → ℕ → ℕ → A → Option (ℕ → A)
  write a n i v = if ltb i n then some (update a i v) else none

  pub read_lem : (a : ℕ → A) (n i : ℕ) → i < n → read a n i ≡ some (a i)
  unfolding read
  read_lem a n i h = ground arith

  pub write_lem : (a : ℕ → A) (n i : ℕ) (v : A) → i < n → write a n i v ≡ some (update a i v)
  unfolding write
  write_lem a n i v h = ground arith

  pub update_self : (a : ℕ → A) (i j : ℕ) (v : A) → i ≡ j → update a i v j ≡ v
  update_self a i j v h = ground arith

  pub update_ne : (a : ℕ → A) (i j : ℕ) (v : A) → i ≢ j → update a i v j ≡ a j
  update_ne a i j v h = ground arith

-- `assert (b)`
abbrev pub assert : Bool → Option (Unit {0})
assert true = some tt
assert false = none

abbrev pub u16 : ℕ → ℕ
u16 a = a % 2 ^ 16

abbrev pub u32 : ℕ → ℕ
u32 a = a % 2 ^ 32

abbrev pub u64 : ℕ → ℕ
u64 a = a % 2 ^ 64
