-- ===== src/Guard/Listed.antt =====
-- Which chain ids the variable ROME_EXTRA_TESTNET_CHAIN_IDS lists.
use rome_solidity.Prelude.{
  ℕ, ◌≤◌, ◌<◌, String, ◌≡◌, ◌↔◌, ◌⊎◌, true, Option, List, [], ◌∷◌, arith, or_else, contains,
  contains-concat, nat_eq,
}
use rome_solidity.Prelude.Number.{max_safe}
use rome_solidity.Prelude.Text.{split, trim, is_decimal, decimal}
use rome_solidity.Guard.{extra_round, extra_loop, parse_extra_chain_ids}

-- Some part reads, trimmed, as the digits of `n`.
abbrev pub ReadsIn : ℕ → List String → Type 0
ReadsIn n [] = ⊥
ReadsIn n (part ∷ parts) =
    ((is_decimal (trim part) ≡ true) × (decimal (trim part) ≡ n)) ⊎ ReadsIn n parts

-- A positive safe integer among the parts of the list
abbrev pub IsListed : ℕ → List String → Type 0
IsListed n parts = (0 < n) × (n ≤ max_safe) × ReadsIn n parts

extra_round_iff :
    (n : ℕ) (out : List ℕ) (part : String)
    → (contains (extra_round out part) n ≡ true) ↔ (
        (contains out n ≡ true)
        ⊎ ((0 < n) × (n ≤ max_safe) × (is_decimal (trim part) ≡ true) × (decimal (trim part) ≡ n)))
unfolding extra_round
extra_round_iff n out part = ground (arith, contains-concat n out (decimal (trim part)))

extra_loop_iff :
    (n : ℕ) (out : List ℕ) (parts : List String)
    → (contains (extra_loop out parts) n ≡ true) ↔ ((contains out n ≡ true) ⊎ IsListed n parts)
unfolding extra_loop
extra_loop_iff n out [] = ground arith
extra_loop_iff n out (part ∷ parts) =
    ground (arith, extra_loop_iff n (extra_round out part) parts, extra_round_iff n out part)

-- `parseExtraChainIds` holds exactly the positive safe integers that some entry of the comma
-- separated value spells, white space around it aside; other entries are ignored.
pub contains-parse_extra_chain_ids_iff :
    (raw : Option String) (n : ℕ)
    → (contains (parse_extra_chain_ids raw) n ≡ true) ↔ IsListed n (split b',' (or_else raw ""))
unfolding parse_extra_chain_ids
contains-parse_extra_chain_ids_iff raw n =
    ground (arith, extra_loop_iff n [] (split b',' (or_else raw "")))
