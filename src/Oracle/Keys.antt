-- ===== src/Oracle/Keys.antt =====
-- The keys of oracle.json: a pair without a dash and a suffix are read back from their key.
use Prim.Native.Char.{code}
use Prim.Native.String.{[], ◌∷◌, ◌++◌}
use text.Mathlib.TextLemmas.{cons-append, nil-append}
use rome_solidity.Prelude.{
  String, ◌≡◌, refl, sym, ap, ◌∙◌, Bool, true, not, arith, ◌==◌, nat_eq, string_eq, if◌then◌else◌,
}
use rome_solidity.Prelude.Text.{every_char}
use rome_solidity.Prelude.Decimal.{before}
use rome_solidity.Oracle.{FeedSource, pyth, switchboard, cached_pyth, cached_feed, book}
use rome_solidity.Oracle.Feeds.{suffix}

-- A pair without a dash
abbrev pub is_plain : String → Bool
is_plain s = every_char (λ c. not (code c == b'-')) s

-- The text from the first dash on
after_pair : String → String
after_pair [] = []
after_pair (c ∷ s) = let r = after_pair s in if code c == b'-' then c ∷ s else r

before-plain : (p t : String) → is_plain p ≡ true → before b'-' t ≡ "" → before b'-' (p ++ t) ≡ p
unfolding before every_char
before-plain [] t h e = rw nil-append e
before-plain (c ∷ p) t h e = rw cons-append (ground (arith, before-plain p t))

after_pair-plain : (p t : String) → is_plain p ≡ true → after_pair t ≡ t → after_pair (p ++ t) ≡ t
unfolding after_pair every_char
after_pair-plain [] t h e = rw nil-append e
after_pair-plain (c ∷ p) t h e = rw cons-append (ground (arith, after_pair-plain p t))

before-suffix : (s : FeedSource) → before b'-' (suffix s) ≡ ""
unfolding before suffix
before-suffix pyth = refl
before-suffix switchboard = refl
before-suffix cached_pyth = refl
before-suffix cached_feed = refl
before-suffix book = refl

after_pair-suffix : (s : FeedSource) → after_pair (suffix s) ≡ suffix s
unfolding after_pair suffix
after_pair-suffix pyth = refl
after_pair-suffix switchboard = refl
after_pair-suffix cached_pyth = refl
after_pair-suffix cached_feed = refl
after_pair-suffix book = refl

-- Equal keys have equal pairs and equal suffixes.
pub key-inj :
    (p q : String) (s t : FeedSource)
    → is_plain p ≡ true
    → is_plain q ≡ true
    → p ++ suffix s ≡ q ++ suffix t
    → (p ≡ q) × (suffix s ≡ suffix t)
key-inj p q s t hp hq h = (
  sym (before-plain p (suffix s) hp (before-suffix s))
      ∙ ap (before b'-') h
      ∙ before-plain q (suffix t) hq (before-suffix t),
  sym (after_pair-plain p (suffix s) hp (after_pair-suffix s))
      ∙ ap after_pair h
      ∙ after_pair-plain q (suffix t) hq (after_pair-suffix t),
)
