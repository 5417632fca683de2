-- ===== src/Guard.antt =====
-- scripts/bridge/lib/testnet-guard.ts: the decision whether a script may send on a chain.
-- An operator's message is the constructor of `Reason` that its branch of the code prints.
pub mod Rubicon
pub mod Rpc
pub mod Listed
pub mod Allowed
pub mod Gates
mod Examples
use rome_solidity.Prelude.{
  ℕ, String, Bool, true, false, ◌||◌, ◌&&◌, not, Option, none, some, List, [], ◌∷◌, ◌++◌, ltb, leb,
  nat_eq, if◌then◌else◌, contains, lookup, or_else,
}
use rome_solidity.Prelude.Number.{JsNumber, is_safe_integer, is_le_zero, as_nat, max_safe}
use rome_solidity.Prelude.Text.{split, trim, is_decimal, decimal}

-- TESTNET_CHAIN_IDS
abbrev pub testnet_chain_ids : List (ℕ × String)
testnet_chain_ids =
    (200010, "hadrian")
    ∷ (121214, "martius")
    ∷ (121213, "subura")
    ∷ (121302, "trajan")
    ∷ (210000, "nerva")
    ∷ (31337, "hardhat in-process network")
    ∷ []

-- MAINNET_CHAIN_IDS
abbrev pub mainnet_chain_ids : List ℕ
mainnet_chain_ids = 7531 ∷ []

pub data Reason : Type 0 where
  unusable : Option JsNumber → Reason
  mainnet : ℕ → Reason
  testnet : ℕ → String → Reason
  listed : ℕ → Reason
  unlisted : ℕ → Reason
  other_script : String → Reason
  other_entry : Option String → Reason
  no_flag : Reason
  stale_digest : Reason
  unknown_phase : String → Reason
  rubicon_deploy : Reason
  no_genesis : Reason
  solana : String → String → Reason
  not_solana_testnet : String → Reason

pub record ChainVerdict : Type 0 where
  pub allowed : Bool
  pub reason : Reason

abbrev pub allow : Reason → ChainVerdict
allow r = record { allowed = true; reason = r }

abbrev pub refuse : Reason → ChainVerdict
refuse r = record { allowed = false; reason = r }

-- One round of the loop of `parseExtraChainIds`, at a part of the list.
extra_round : List ℕ → String → List ℕ
extra_round out part =
    let t = trim part in
    if not (is_decimal t)
    then out
    else if leb (decimal t) max_safe && ltb 0 (decimal t)
    then (if contains out (decimal t) then out else out ++ decimal t ∷ [])
    else out

extra_loop : List ℕ → List String → List ℕ
extra_loop out [] = out
extra_loop out (part ∷ parts) = extra_loop (extra_round out part) parts

unfoldable pub parse_extra_chain_ids : Option String → List ℕ
unfolding extra_loop extra_round
parse_extra_chain_ids raw = extra_loop [] (split b',' (or_else raw ""))

-- The tests of `judgeChain` after the one for a usable id
judge_usable : ℕ → Option String → ChainVerdict
judge_usable n extra_env =
    if contains mainnet_chain_ids n then refuse (mainnet n) else elim (lookup n testnet_chain_ids) [
      | some name ↦ allow (testnet n name)
      | none ↦
          if contains (parse_extra_chain_ids extra_env) n
          then allow (listed n)
          else refuse (unlisted n)
    ]

unfoldable pub judge_chain : Option JsNumber → Option String → ChainVerdict
unfolding judge_usable is_safe_integer is_le_zero as_nat
judge_chain none extra_env = refuse (unusable none)
judge_chain (some id) extra_env =
    if not (is_safe_integer id) || is_le_zero id
    then refuse (unusable (some id))
    else judge_usable (as_nat id) extra_env
