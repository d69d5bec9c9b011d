-- ===== src/Base/Words.antt =====
-- Machine words as native numbers: a shift left is a product, a shift right a quotient, a mask of
-- k ones a remainder. `|` is the native `bit_or`; on words that share no bit it is a sum.
use Prim.Native.Nat.{
  ℕ, zero, suc, ◌+◌, ◌*◌, ◌/◌, ◌%◌, ◌^◌, ◌≤◌, ◌<◌, max, bit_or, digits, bit_or-bitwise,
}
use mathlib.Core.Path.{◌≡◌, refl, ◌∙◌}
use mathlib.Core.List.{List}
use native.Mathlib.Omega.{arith}
use native.Mathlib.Nat.{pow-suc}

abbrev pub Bytes : Type 0
Bytes = List ℕ

abbrev pub IsByte : ℕ → Type 0
IsByte b = b < 256

abbrev pub IsU16 : ℕ → Type 0
IsU16 v = v < 65536

abbrev pub shl : ℕ → ℕ → ℕ
shl x k = x * 2 ^ k

abbrev pub shr : ℕ → ℕ → ℕ
shr x k = x / 2 ^ k

abbrev pub low_bits : ℕ → ℕ → ℕ
low_bits x k = x % 2 ^ k

abbrev or_digits : ℕ → ℕ → ℕ → ℕ
or_digits n a b = digits (λ b. b) max n a b

or_digits_fuel : (n m a b : ℕ) → a ≤ n → a ≤ m → or_digits n a b ≡ or_digits m a b
or_digits_fuel zero zero a b p q = refl
or_digits_fuel zero (suc m) zero b p q = refl
or_digits_fuel zero (suc m) (suc a) b p q = absurd (omega arith)
or_digits_fuel (suc n) zero zero b p q = refl
or_digits_fuel (suc n) zero (suc a) b p q = absurd (omega arith)
or_digits_fuel (suc n) (suc m) zero b p q = refl
or_digits_fuel (suc n) (suc m) (suc a) b p q =
    omega (arith, or_digits_fuel n m (suc a / 2) (b / 2) (omega arith) (omega arith))

zero-bit_or : (b : ℕ) → bit_or 0 b ≡ b
zero-bit_or b = bit_or-bitwise 0 b

-- The lowest digit apart from the others.
bit_or_step : (a b : ℕ) → bit_or a b ≡ bit_or (a / 2) (b / 2) * 2 + max (a % 2) (b % 2)
bit_or_step zero b = omega (arith, zero-bit_or b, zero-bit_or (b / 2))
bit_or_step (suc a) b = omega (
  arith,
  bit_or-bitwise (suc a) b,
  bit_or-bitwise (suc a / 2) (b / 2),
  or_digits_fuel a (suc a / 2) (suc a / 2) (b / 2) (omega arith) (omega arith),
)

bit_or-zero_fuel : (n a : ℕ) → a ≤ n → bit_or a 0 ≡ a
bit_or-zero_fuel n zero h = refl
bit_or-zero_fuel zero (suc a) h = absurd (omega arith)
bit_or-zero_fuel (suc n) (suc a) h =
    omega (arith, bit_or_step (suc a) 0, bit_or-zero_fuel n (suc a / 2) (omega arith))

pub bit_or-zero : (a : ℕ) → bit_or a 0 ≡ a
bit_or-zero a = bit_or-zero_fuel a a (omega arith)

two_halves : (h k : ℕ) → h * 2 ^ suc k ≡ h * 2 ^ k * 2
two_halves h k = rw pow-suc (grind arith)

half_twice : (h : ℕ) → h * 2 / 2 ≡ h
half_twice h = omega arith

rest_twice : (h : ℕ) → h * 2 % 2 ≡ 0
rest_twice h = omega arith

even-bit_or : (h l : ℕ) → bit_or (h * 2) l ≡ bit_or h (l / 2) * 2 + l % 2
even-bit_or h l = bit_or_step (h * 2) l ∙ rw (half_twice h, rest_twice h) (omega arith)

bit_or-even : (l h : ℕ) → bit_or l (h * 2) ≡ bit_or (l / 2) h * 2 + l % 2
bit_or-even l h = bit_or_step l (h * 2) ∙ rw (half_twice h, rest_twice h) (omega arith)

half_below : (k l : ℕ) → l < 2 ^ suc k → l / 2 < 2 ^ k
half_below k l p = omega (arith, two_halves 1 k)

-- A field shifted above a value that fits below it.
pub bit_or-shl_left : (k h l : ℕ) → l < 2 ^ k → bit_or (shl h k) l ≡ shl h k + l
bit_or-shl_left zero h zero p = bit_or-zero (h * 1) ∙ omega arith
bit_or-shl_left zero h (suc l) p = absurd (omega arith)
bit_or-shl_left (suc k) h l p =
    rw (two_halves h k)
      (omega (arith, even-bit_or (h * 2 ^ k) l, bit_or-shl_left k h (l / 2) (half_below k l p)))

pub bit_or-shl_right : (k l h : ℕ) → l < 2 ^ k → bit_or l (shl h k) ≡ l + shl h k
bit_or-shl_right zero zero h p = zero-bit_or (h * 1) ∙ omega arith
bit_or-shl_right zero (suc l) h p = absurd (omega arith)
bit_or-shl_right (suc k) l h p =
    rw (two_halves h k)
      (omega (arith, bit_or-even l (h * 2 ^ k), bit_or-shl_right k (l / 2) h (half_below k l p)))
