-- ===== src/Common/Bits.antt =====
-- Laws of `bit_or` at variables, from the digits that it stands for.
use Prim.Native.Nat.{
  ℕ, zero, suc, ◌+◌, ◌*◌, ◌/◌, ◌%◌, ◌^◌, ◌≤◌, ◌<◌, max, bit_or, digits, bit_or-bitwise,
}
use mathlib.Core.Path.{◌≡◌, refl, ap}
use native.Mathlib.Nat.{pow-suc}
use native.Mathlib.Omega.{arith}

abbrev or_digits : ℕ → ℕ → ℕ → ℕ
or_digits n a b = digits (λ b. b) max n a b

or_digits_fuel : (n m a b : ℕ) → a ≤ n → a ≤ m → or_digits n a b ≡ or_digits m a b
or_digits_fuel zero zero a b p q = refl
or_digits_fuel zero (suc m) zero b p q = refl
or_digits_fuel zero (suc m) (suc a) b p q = absurd (omega arith)
or_digits_fuel (suc n) zero zero b p q = refl
or_digits_fuel (suc n) zero (suc a) b p q = absurd (omega arith)
or_digits_fuel (suc n) (suc m) zero b p q = refl
or_digits_fuel (suc n) (suc m) (suc a) b p q =
    omega (arith, or_digits_fuel n m (suc a / 2) (b / 2) (omega arith) (omega arith))

pub zero-bit_or : (b : ℕ) → bit_or 0 b ≡ b
zero-bit_or b = bit_or-bitwise 0 b

pub bit_or_step : (a b : ℕ) → bit_or a b ≡ bit_or (a / 2) (b / 2) * 2 + max (a % 2) (b % 2)
bit_or_step zero b = omega (arith, zero-bit_or b, zero-bit_or (b / 2))
bit_or_step (suc a) b = omega (
  arith,
  bit_or-bitwise (suc a) b,
  bit_or-bitwise (suc a / 2) (b / 2),
  or_digits_fuel a (suc a / 2) (suc a / 2) (b / 2) (omega arith) (omega arith),
)

-- Where the bits do not meet, `|` adds.
pub bit_or_disjoint : (k a c : ℕ) → a < 2 ^ k → bit_or a (c * 2 ^ k) ≡ a + c * 2 ^ k
bit_or_disjoint zero a c h =
    let z : a ≡ 0 = omega arith in rw z (omega (arith, zero-bit_or (c * 2 ^ 0)))
bit_or_disjoint (suc k) a c h =
    let e : c * 2 ^ suc k ≡ c * 2 ^ k * 2 = omega (arith, ap (λ (t : ℕ). c * t) (pow-suc 2 k)) in
    let half : a / 2 < 2 ^ k = omega (arith, pow-suc 2 k) in
    let d : c * 2 ^ suc k / 2 ≡ c * 2 ^ k = omega (arith, e) in
    omega (
      arith,
      e,
      bit_or_step a (c * 2 ^ suc k),
      ap (bit_or (a / 2)) d,
      bit_or_disjoint k (a / 2) c half,
    )
