-- ===== src/Htable/Live.antt =====
-- Cells of the index that name an entry, and how many there are.
use freehttpd.Base.{
  ℕ, zero, suc, ◌+◌, ◌≤◌, ◌<◌, ◌≡◌, refl, inl, inr, Bool, true, false, Bool-cases, ◌==◌,
  if◌then◌else◌, arith, update, eq_or_ne,
}
use freehttpd.Htable.Table.{deleted, empty}

abbrev pub is_live : ℕ → Bool
is_live c = if c == empty then false else if c == deleted then false else true

abbrev pub to_nat : Bool → ℕ
to_nat true = 1
to_nat false = 0

-- the live cells among the first `n`
unfoldable pub live_count : (ℕ → ℕ) → ℕ → ℕ
live_count is zero = 0
live_count is (suc n) = live_count is n + to_nat (is_live (is n))

pub live_count-empty : (n : ℕ) → live_count (λ _. empty) n ≡ 0
unfolding live_count
live_count-empty zero = refl
live_count-empty (suc n) = omega (arith, live_count-empty n)

pub live_count-le : (is : ℕ → ℕ) (n : ℕ) → live_count is n ≤ n
unfolding live_count
live_count-le is zero = omega arith
live_count-le is (suc n) = ground (arith, live_count-le is n)

live_count-update_out :
    (is : ℕ → ℕ) (n j v : ℕ) → n ≤ j → live_count (update is j v) n ≡ live_count is n
unfolding live_count
live_count-update_out is zero j v h = refl
live_count-update_out is (suc n) j v h = ground (arith, live_count-update_out is n j v)

-- what a write to one cell changes
pub live_count-update :
    (is : ℕ → ℕ) (n j v : ℕ)
    → j < n
    → live_count (update is j v) n + to_nat (is_live (is j)) ≡ live_count is n + to_nat (is_live v)
unfolding live_count
live_count-update is zero j v h = elim h [ ]
live_count-update is (suc n) j v h = elim (eq_or_ne j n) [
  | inl e ↦ ground (arith, live_count-update_out is n j v)
  | inr ne ↦ ground (arith, live_count-update is n j v)
]

-- an index that is not all live has a free cell
pub find_dead :
    (is : ℕ → ℕ) (n : ℕ) → live_count is n < n → (j : ℕ) × (j < n) × (is_live (is j) ≡ false)
unfolding live_count
find_dead is zero h = elim h [ ]
find_dead is (suc n) h = elim (Bool-cases (is_live (is n))) [
  | inr e ↦ (n, omega arith, e)
  | inl e ↦ let (j, lt, d) = find_dead is n (ground arith) in (j, omega arith, d)
]

pub live_count_mono : (is : ℕ → ℕ) (m n : ℕ) → m ≤ n → live_count is m ≤ live_count is n
unfolding live_count
live_count_mono is m zero h = let e : m ≡ 0 = omega arith in rw e (omega arith)
live_count_mono is m (suc n) h = elim (eq_or_ne m (suc n)) [
  | inl e ↦ rw e (omega arith)
  | inr ne ↦ omega (arith, live_count_mono is m n (omega arith))
]

pub live_count-suc_live :
    (is : ℕ → ℕ) (n : ℕ) → is_live (is n) ≡ true → live_count is (suc n) ≡ live_count is n + 1
unfolding live_count
live_count-suc_live is n l = rw l

pub live_count-suc_dead :
    (is : ℕ → ℕ) (n : ℕ) → is_live (is n) ≡ false → live_count is (suc n) ≡ live_count is n
unfolding live_count
live_count-suc_dead is n d = rw d (omega arith)
