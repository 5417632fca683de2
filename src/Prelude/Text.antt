-- ===== src/Prelude/Text.antt =====
-- The operations on JavaScript strings that the scripts use.
use Prim.Native.Nat.{ℕ, ◌+◌, ◌-◌, ◌*◌}
use Prim.Native.Char.{Char, code}
use Prim.Native.String.{String, [], ◌∷◌, char_at, ◌++◌}
use mathlib.Core.Bool.{Bool, true, false, ◌&&◌, ◌||◌}
use mathlib.Core.List.{List, [], ◌∷◌}
use rome_solidity.Prelude.Tests.{leb, ◌==◌, nat_eq, string_eq, if◌then◌else◌}
use rome_solidity.Prelude.Lists.{contains}

abbrev pub in_range : ℕ → ℕ → ℕ → Bool
in_range lo hi n = leb lo n && leb n hi

-- `toLowerCase`, on ASCII letters
unfoldable pub lower_char : Char → Char
lower_char c =
    if in_range 65 90 (code c) then char_at "abcdefghijklmnopqrstuvwxyz" (code c - 65) else c

unfoldable pub to_lower : String → String
unfolding lower_char
to_lower [] = []
to_lower (c ∷ s) = lower_char c ∷ to_lower s

-- `a.toLowerCase() === b.toLowerCase()`
unfoldable pub eq_ignore_case : String → String → Bool
unfolding to_lower
eq_ignore_case a b = to_lower a == to_lower b

abbrev pub is_digit : Char → Bool
is_digit c = in_range b'0' b'9' (code c)

abbrev pub is_hex_digit : Char → Bool
is_hex_digit c = is_digit c || in_range b'a' b'f' (code c) || in_range b'A' b'F' (code c)

abbrev pub is_nil : String → Bool
is_nil [] = true
is_nil (c ∷ s) = false

unfoldable pub every_char : (Char → Bool) → String → Bool
every_char p [] = true
every_char p (c ∷ s) = p c && every_char p s

-- /^\d+$/
unfoldable pub is_decimal : String → Bool
unfolding every_char
is_decimal [] = false
is_decimal (c ∷ s) = every_char is_digit (c ∷ s)

decimal_from : ℕ → String → ℕ
decimal_from n [] = n
decimal_from n (c ∷ s) = decimal_from (10 * n + (code c - b'0')) s

-- `Number(t)` and `BigInt(t)` at a text that `is_decimal` accepts
unfoldable pub decimal : String → ℕ
unfolding decimal_from
decimal s = decimal_from 0 s

-- White space and line ends, as `trim` takes them
unfoldable pub is_space : Char → Bool
is_space c =
    in_range 9 13 (code c)
    || in_range 8192 8202 (code c)
    || contains (32 ∷ 160 ∷ 5760 ∷ 8232 ∷ 8233 ∷ 8239 ∷ 8287 ∷ 12288 ∷ 65279 ∷ []) (code c)

unfoldable pub trim_start : String → String
trim_start [] = []
trim_start (c ∷ s) = let r = trim_start s in if is_space c then r else c ∷ s

trim_end : String → String
trim_end [] = []
trim_end (c ∷ s) = let r = trim_end s in if is_nil r && is_space c then [] else c ∷ r

unfoldable pub trim : String → String
unfolding trim_start trim_end is_space
trim s = trim_end (trim_start s)

split_from : ℕ → String → String → List String
split_from sep cur [] = cur ∷ []
split_from sep cur (c ∷ s) =
    let closed = split_from sep "" s in
    let longer = split_from sep (cur ++ (c ∷ [])) s in
    if code c == sep then cur ∷ closed else longer

-- `s.split(sep)` at a separator of one character
unfoldable pub split : ℕ → String → List String
unfolding split_from
split sep s = split_from sep "" s

-- `s.startsWith(t)`
unfoldable pub starts_with : String → String → Bool
starts_with s [] = true
starts_with [] (d ∷ t) = false
starts_with (c ∷ s) (d ∷ t) = code c == code d && starts_with s t
