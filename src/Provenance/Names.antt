-- ===== src/Provenance/Names.antt =====
-- scripts/bridge/lib/build-provenance.ts: NPM_SOURCE, and the test for a plain file name.
use Prim.Native.Char.{Char, code}
use Prim.Native.String.{String, [], ◌∷◌, ◌++◌}
use rome_solidity.Prelude.{
  ℕ, zero, suc, Bool, not, ◌&&◌, ◌||◌, Option, none, some, ◌==◌, nat_eq, if◌then◌else◌,
}
use rome_solidity.Prelude.Text.{every_char, is_nil, in_range, is_digit, starts_with}

-- `s.slice(n)`
unfoldable pub slice_from : ℕ → String → String
slice_from zero s = s
slice_from (suc n) [] = []
slice_from (suc n) (c ∷ s) = slice_from n s

-- The text before the first character with `p`, and the text from there on
unfoldable pub break_at : (Char → Bool) → String → String × String
break_at p [] = ([], [])
break_at p (c ∷ s) = let (a, b) = break_at p s in if p c then ([], c ∷ s) else (c ∷ a, b)

abbrev is_char : ℕ → Char → Bool
is_char n c = code c == n

pub record NpmSource : Type 0 where
  pub pkg : String
  pub version : String
  pub file : String

-- /^[^\n\r\u2028\u2029]+$/, which `.+` matches
unfoldable pub is_line : String → Bool
is_line s =
    not (is_nil s)
    && every_char (λ c. not (is_char 10 c || is_char 13 c || is_char 8232 c || is_char 8233 c)) s

-- After the scope: `name@version/file`
unfoldable pub npm_named : String → String → Option NpmSource
unfolding break_at slice_from is_line
npm_named scope s =
    let (name, r) = break_at (λ c. is_char b'@' c || is_char b'/' c) s in
    let (version, q) = break_at (is_char b'/') (slice_from 1 r) in
    let file = slice_from 1 q in
    if not (is_nil name) && starts_with r "@" && not (is_nil version) && is_line file
    then some (record { pkg = scope ++ name; version = version; file = file })
    else none

-- NPM_SOURCE.exec
unfoldable pub npm_source : String → Option NpmSource
unfolding npm_named
npm_source s =
    let r = slice_from 4 s in
    let (scope, q) = break_at (is_char b'/') (slice_from 1 r) in
    if not (starts_with s "npm/")
    then none
    else if starts_with r "@"
    then if is_nil scope || is_nil q
      then none
      else npm_named (("@" ++ scope) ++ "/") (slice_from 1 q)
    else npm_named "" r

-- /^[A-Za-z0-9_.-]+$/
unfoldable pub is_plain_name : String → Bool
is_plain_name s =
    not (is_nil s)
    && every_char
        (λ c.
          in_range b'A' b'Z' (code c)
          || in_range b'a' b'z' (code c)
          || is_digit c
          || is_char b'_' c
          || is_char b'.' c
          || is_char b'-' c)
        s
