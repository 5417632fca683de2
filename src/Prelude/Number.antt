-- ===== src/Prelude/Number.antt =====
-- JavaScript's `number`, as far as the scripts test it: whole numbers of either sign, and everything
-- else (fractions, NaN, the infinities) as one value.
use Prim.Native.Nat.{ℕ, zero, suc}
use mathlib.Core.Bool.{Bool, true, false}
use rome_solidity.Prelude.Tests.{leb}

pub data JsNumber : Type 0 where
  whole : ℕ → JsNumber
  -- `negative n` is -(n + 1)
  negative : ℕ → JsNumber
  not_whole : JsNumber

-- Number.MAX_SAFE_INTEGER
abbrev pub max_safe : ℕ
max_safe = 9007199254740991

-- Number.isSafeInteger
unfoldable pub is_safe_integer : JsNumber → Bool
is_safe_integer (whole n) = leb n max_safe
is_safe_integer (negative n) = leb (suc n) max_safe
is_safe_integer not_whole = false

-- `x <= 0`
unfoldable pub is_le_zero : JsNumber → Bool
is_le_zero (whole zero) = true
is_le_zero (whole (suc n)) = false
is_le_zero (negative n) = true
is_le_zero not_whole = false

-- The value of a whole number that is not negative.
unfoldable pub as_nat : JsNumber → ℕ
as_nat (whole n) = n
as_nat (negative n) = 0
as_nat not_whole = 0
