-- ===== src/Mints/Examples.antt =====
-- Tests of the choice of mints, and the theorem at concrete deployments.
use rome_solidity.Prelude.{
  ℕ, String, ◌≡◌, ◌≢◌, ◌⊎◌, refl, none, some, List, [], ◌∷◌, All, map, ◌==◌, string_eq,
  if◌then◌else◌, Result, ok, err,
}
use rome_solidity.Prelude.Json.{str, obj, Fields, end, field, get_in, as_text}
use rome_solidity.Prelude.Text.{split, trim, starts_with}
use rome_solidity.Mints.{
  BridgedMint, no_bridged_mints, first_chars, named_mints, is_pubkey, with_wrapper, wrappers,
  named_wrappers, choose_mints, bridged_mints_from,
}
use rome_solidity.Mints.Wanted.{IsKey, AreNames, AreWrappers, bridged_mints_from-eq-ok}

abbrev key_bytes : List ℕ
key_bytes =
    1 ∷ 2 ∷ 3 ∷ 4 ∷ 5 ∷ 6 ∷ 7 ∷ 8 ∷ 1 ∷ 2 ∷ 3 ∷ 4 ∷ 5 ∷ 6 ∷ 7 ∷ 8 ∷ 1 ∷ 2 ∷ 3 ∷ 4 ∷ 5 ∷ 6 ∷ 7 ∷ 8
    ∷ 1 ∷ 2 ∷ 3 ∷ 4 ∷ 5 ∷ 6 ∷ 7 ∷ 8 ∷ []

abbrev public_key_bytes : String → Result String (List ℕ)
public_key_bytes s =
    if s == "So11111111111112"
    then ok key_bytes
    else if s == "EPjFWdd5AufqSSqe"
    then ok key_bytes
    else err "Invalid public key input"

abbrev deployments : Fields
deployments =
    field "SPL_ERC20_USDC"
      (obj (field "mintId" (str "EPjFWdd5AufqSSqe") (field "symbol" (str "wUSDC") end)))
      (field "SPL_ERC20_TEST" (obj (field "mint" (str "0x00") end)) end)

abbrev named : List BridgedMint
named =
    record { mint = "So11111111111112"; symbol = "So111111…" }
    ∷ record { mint = "EPjFWdd5AufqSSqe"; symbol = "wUSDC" }
    ∷ []

named_only :
    bridged_mints_from public_key_bytes deployments (some "So11111111111112, EPjFWdd5AufqSSqe,")
    ≡ ok named
unfolding bridged_mints_from choose_mints wrappers named_mints named_wrappers with_wrapper is_pubkey
    first_chars split trim starts_with get_in as_text
named_only = refl

wrappers_only :
    bridged_mints_from public_key_bytes deployments none
    ≡ ok (record { mint = "EPjFWdd5AufqSSqe"; symbol = "wUSDC" } ∷ [])
unfolding bridged_mints_from choose_mints wrappers named_mints named_wrappers with_wrapper is_pubkey
    first_chars split trim starts_with get_in as_text
wrappers_only = refl

nothing_to_do : bridged_mints_from public_key_bytes end (some " ,") ≡ err no_bridged_mints
unfolding bridged_mints_from choose_mints wrappers named_mints named_wrappers with_wrapper is_pubkey
    first_chars split trim starts_with get_in as_text
nothing_to_do = refl

bridged_mints_from-eq-ok_example :
    (named ≢ [])
    × All (λ m. IsKey public_key_bytes m.mint) named
    × ((names : List String) × AreNames (split b',' "So11111111111112, EPjFWdd5AufqSSqe,") names
        × (((names ≡ []) × AreWrappers public_key_bytes deployments named)
            ⊎ (map (λ m. m.mint) named ≡ names)))
bridged_mints_from-eq-ok_example =
    bridged_mints_from-eq-ok public_key_bytes deployments
      (some "So11111111111112, EPjFWdd5AufqSSqe,") named named_only
