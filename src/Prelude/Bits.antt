-- ===== src/Prelude/Bits.antt =====
-- JavaScript's `|` on 32-bit words.
use Prim.Native.Nat.{
  ℕ, zero, suc, ◌+◌, ◌-◌, ◌*◌, ◌/◌, ◌%◌, ◌^◌, ◌≤◌, ◌<◌, max, bit_or, digits, bit_or-bitwise,
}
use mathlib.Core.Path.{◌≡◌, refl, ◌∙◌}
use native.Mathlib.Omega.{arith}
use native.Mathlib.Nat.{pow-suc}
use rome_solidity.Prelude.Tests.{ltb, if◌then◌else◌}
use rome_solidity.Prelude.Number.{JsNumber, whole, negative}

-- ToInt32 of a number that is not negative
unfoldable pub to_int32 : ℕ → JsNumber
to_int32 n = let w = n % 2 ^ 32 in if ltb w (2 ^ 31) then whole w else negative (2 ^ 32 - w - 1)

abbrev or_digits : ℕ → ℕ → ℕ → ℕ
or_digits fuel a b = digits (λ y. y) max fuel a b

or_digits_fuel : (n m a b : ℕ) → a ≤ n → a ≤ m → or_digits n a b ≡ or_digits m a b
or_digits_fuel zero zero zero b p q = refl
or_digits_fuel zero (suc m) zero b p q = refl
or_digits_fuel (suc n) zero zero b p q = refl
or_digits_fuel (suc n) (suc m) zero b p q = refl
or_digits_fuel zero zero (suc a) b p q = absurd (omega arith)
or_digits_fuel zero (suc m) (suc a) b p q = absurd (omega arith)
or_digits_fuel (suc n) zero (suc a) b p q = absurd (omega arith)
or_digits_fuel (suc n) (suc m) (suc a) b p q =
    omega (arith, or_digits_fuel n m (suc a / 2) (b / 2) (omega arith) (omega arith))

zero-bit_or : (b : ℕ) → bit_or 0 b ≡ b
zero-bit_or b = bit_or-bitwise 0 b

or_step : (a b : ℕ) → bit_or a b ≡ bit_or (a / 2) (b / 2) * 2 + max (a % 2) (b % 2)
or_step zero b = omega (arith, zero-bit_or b, zero-bit_or (b / 2))
or_step (suc a) b = omega (
  arith,
  bit_or-bitwise (suc a) b,
  bit_or-bitwise (suc a / 2) (b / 2),
  or_digits_fuel a (suc a / 2) (suc a / 2) (b / 2) (omega arith) (omega arith),
)

shifted_suc : (k hi : ℕ) → hi * 2 ^ suc k ≡ hi * 2 ^ k * 2
shifted_suc k hi = rw (pow-suc 2 k) (omega arith)

pow-suc_lt : (k lo : ℕ) → lo < 2 ^ suc k → lo / 2 < 2 ^ k
pow-suc_lt k lo h = omega (arith, pow-suc 2 k)

-- One step at a word whose bits lie above the lowest
or_step_even : (lo x y : ℕ) → y ≡ x * 2 → bit_or lo y ≡ bit_or (lo / 2) x * 2 + lo % 2
or_step_even lo x y e = let half : y / 2 ≡ x = omega arith in or_step lo y ∙ rw half (omega arith)

-- A word whose bits lie above those of the other is added to it.
pub bit_or-shifted : (k lo hi : ℕ) → lo < 2 ^ k → bit_or lo (hi * 2 ^ k) ≡ lo + hi * 2 ^ k
bit_or-shifted zero lo hi h =
    let none : lo ≡ 0 = omega arith in rw none (zero-bit_or (hi * 1) ∙ omega arith)
bit_or-shifted (suc k) lo hi h = omega (
  arith,
  or_step_even lo (hi * 2 ^ k) (hi * 2 ^ suc k) (shifted_suc k hi),
  shifted_suc k hi,
  bit_or-shifted k (lo / 2) hi (pow-suc_lt k lo h),
)
