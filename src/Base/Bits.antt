-- ===== src/Base/Bits.antt =====
-- The bitwise or of numbers whose digits do not meet is their sum.
use Prim.Native.Nat.{digits, bit_or-bitwise}
use theos.Base.{ℕ, zero, suc, ◌+◌, ◌*◌, ◌/◌, ◌%◌, ◌≤◌, ◌<◌, ◌≡◌, refl, ap, max, arith}
pub use Prim.Native.Nat.{bit_or, bit_xor, bit_and}

-- `a << k`
abbrev pub shl : ℕ → ℕ → ℕ
shl zero a = a
shl (suc k) a = 2 * shl k a

abbrev or_digits : ℕ → ℕ → ℕ → ℕ
or_digits n a b = digits (λ b. b) max n a b

or_digits_fuel : (n m a b : ℕ) → a ≤ n → a ≤ m → or_digits n a b ≡ or_digits m a b
or_digits_fuel zero zero a b p q = refl
or_digits_fuel zero (suc m) zero b p q = refl
or_digits_fuel zero (suc m) (suc a) b p q = absurd (omega arith)
or_digits_fuel (suc n) zero zero b p q = refl
or_digits_fuel (suc n) zero (suc a) b p q = absurd (omega arith)
or_digits_fuel (suc n) (suc m) zero b p q = refl
or_digits_fuel (suc n) (suc m) (suc a) b p q =
    omega (arith, or_digits_fuel n m (suc a / 2) (b / 2) (omega arith) (omega arith))

zero-bit_or : (b : ℕ) → bit_or 0 b ≡ b
zero-bit_or b = bit_or-bitwise 0 b

bit_or_step : (a b : ℕ) → bit_or a b ≡ bit_or (a / 2) (b / 2) * 2 + max (a % 2) (b % 2)
bit_or_step zero b = omega (arith, zero-bit_or b, zero-bit_or (b / 2))
bit_or_step (suc a) b = omega (
  arith,
  bit_or-bitwise (suc a) b,
  bit_or-bitwise (suc a / 2) (b / 2),
  or_digits_fuel a (suc a / 2) (suc a / 2) (b / 2) (omega arith) (omega arith),
)

bit_or-zero_fuel : (n a : ℕ) → a ≤ n → bit_or a 0 ≡ a
bit_or-zero_fuel n zero h = zero-bit_or 0
bit_or-zero_fuel zero (suc a) h = absurd (omega arith)
bit_or-zero_fuel (suc n) (suc a) h =
    omega (arith, bit_or_step (suc a) 0, bit_or-zero_fuel n (suc a / 2) (omega arith))

pub bit_or-zero : (a : ℕ) → bit_or a 0 ≡ a
bit_or-zero a = bit_or-zero_fuel a a (omega arith)

half : (x : ℕ) → 2 * x / 2 ≡ x
half x = omega arith

pub bit_or-shl : (k a b : ℕ) → b < shl k 1 → bit_or (shl k a) b ≡ shl k a + b
bit_or-shl zero a zero h = omega (arith, bit_or-zero a)
bit_or-shl zero a (suc b) h = absurd (omega arith)
bit_or-shl (suc k) a b h = omega (
  arith,
  bit_or_step (2 * shl k a) b,
  ap (λ x. bit_or x (b / 2)) (half (shl k a)),
  bit_or-shl k a (b / 2) (omega arith),
)
