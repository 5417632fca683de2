-- ===== src/Mints.antt =====
-- scripts/bridge/lib/ensure-bridge-atas.ts: the mints that the bridge must own an account for. web3.js
-- is an argument.
pub mod Wanted
mod Examples
use Prim.Native.Char.{Char}
use rome_solidity.Prelude.{
  ℕ, zero, suc, String, Bool, true, false, not, ◌&&◌, Option, none, some, List, [], ◌∷◌, ◌==◌,
  nat_eq, string_eq, if◌then◌else◌, length, keep, map, find, or_else, Result, ok, err, ◌>>=◌,
}
use Prim.Native.String.{[] as empty, ◌∷◌ as with_char, ◌++◌ as join}
use rome_solidity.Prelude.Json.{Json, str, arr, obj, Fields, end, field, get_in, as_text}
use rome_solidity.Prelude.Text.{split, trim, is_nil, starts_with}

pub record BridgedMint : Type 0 where
  pub mint : String
  pub symbol : String

pub data MintsError : Type 0 where
  no_bridged_mints : MintsError
  not_a_pubkey : String → MintsError

-- `s.slice(0, n)`
unfoldable pub first_chars : ℕ → String → String
first_chars zero s = ""
first_chars (suc n) empty = ""
first_chars (suc n) (with_char c s) = with_char c (first_chars n s)

-- The entries of BRIDGE_ATA_MINTS: trimmed, without the empty ones
unfoldable pub named_mints : Option String → List String
named_mints explicit = keep (λ s. not (is_nil s)) (map trim (split b',' (or_else explicit "")))

-- `new PublicKey(s).toBytes()`, which may throw
module _ (public_key_bytes : String → Result String (List ℕ)) where
  unfoldable pub is_pubkey : String → Bool
  is_pubkey s = elim (public_key_bytes s) [ err e ↦ false | ok bytes ↦ length bytes == 32 ]

  -- One round of the loop over the deployments, with what the later rounds add
  unfoldable pub with_wrapper : String → Json → List BridgedMint → List BridgedMint
  unfolding is_pubkey
  with_wrapper name value rest =
      if not (starts_with name "SPL_ERC20_")
      then rest
      else elim (as_text (get_in "mintId" (some value))) [
        | none ↦ rest
        | some id ↦
            let symbol = or_else (as_text (get_in "symbol" (some value))) name in
            if is_pubkey id then record { mint = id; symbol = symbol } ∷ rest else rest
      ]

  unfoldable pub wrappers : Fields → List BridgedMint
  unfolding with_wrapper
  wrappers end = []
  wrappers (field name value fs) = with_wrapper name value (wrappers fs)

  abbrev pub symbol_of : Option BridgedMint → String → String
  symbol_of none mint = join (first_chars 8 mint) "…"
  symbol_of (some known) mint = known.symbol

  -- `wanted.map`, which stops at the first entry that is not a key
  unfoldable pub named_wrappers :
      List BridgedMint → List String → Result MintsError (List BridgedMint)
  unfolding is_pubkey first_chars
  named_wrappers known [] = ok []
  named_wrappers known (m ∷ ms) =
      if not (is_pubkey m)
      then err (not_a_pubkey m)
      else named_wrappers known ms >>= λ rest.
          ok (record { mint = m; symbol = symbol_of (find (λ w. w.mint == m) known) m } ∷ rest)

  unfoldable pub choose_mints :
      List BridgedMint → List String → Result MintsError (List BridgedMint)
  unfolding named_wrappers
  choose_mints [] [] = err no_bridged_mints
  choose_mints (w ∷ ws) [] = ok (w ∷ ws)
  choose_mints known (m ∷ ms) = named_wrappers known (m ∷ ms)

  unfoldable pub bridged_mints_from : Fields → Option String → Result MintsError (List BridgedMint)
  unfolding choose_mints wrappers named_mints
  bridged_mints_from deployments explicit =
      choose_mints (wrappers deployments) (named_mints explicit)
