-- ===== src/Guard/Rubicon.antt =====
-- scripts/bridge/lib/testnet-guard.ts: the one mainnet exception, for the Rubicon deploy script.
use rome_solidity.Prelude.{
  ℕ, String, Result, ok, err, Bool, true, false, ◌||◌, not, Option, none, some, ◌==◌, nat_eq,
  string_eq, if◌then◌else◌,
}
use rome_solidity.Prelude.Number.{JsNumber, whole}
use rome_solidity.Prelude.Text.{starts_with}
use rome_solidity.Guard.{
  ChainVerdict, allow, refuse, other_script, other_entry, no_flag, stale_digest, unknown_phase,
  rubicon_deploy, judge_chain,
}

abbrev pub rubicon_v13_deploy_script : String
rubicon_v13_deploy_script = "scripts/bridge/deploy-rubicon-v13.ts"

-- `phase`; the source tests for a value outside its declared type too.
pub data Phase : Type 0 where
  inspect send : Phase
  other : String → Phase

pub record RubiconDeployCaller : Type 0 where
  pub script : String
  pub entry : Option String
  pub mainnet_flag : Bool
  pub phase : Phase
  pub digest_matches : Bool

-- `path.relative(repoRoot(), realpath(resolve(argv1)))`, split and joined again: a path outside the
-- repository, and a file system error, give nothing.
unfoldable pub entry_script : (String → Result String String) → Option String → Option String
entry_script relative none = none
entry_script relative (some argv1) = if argv1 == "" then none else elim (relative argv1) [
  | err _ ↦ none
  | ok rel ↦ if rel == "" || starts_with rel ".." || starts_with rel "/" then none else some rel
]

-- `caller.entry !== RUBICON_V13_DEPLOY_SCRIPT`
abbrev pub is_text : Option String → String → Bool
is_text none t = false
is_text (some s) t = s == t

-- `chainId === n`
abbrev pub is_number : Option JsNumber → ℕ → Bool
is_number (some (whole m)) n = m == n
is_number _ n = false

-- The two tests on the phase, the last ones
unfoldable pub judge_phase : Phase → Bool → ChainVerdict
judge_phase send false = refuse stale_digest
judge_phase send true = allow rubicon_deploy
judge_phase inspect digest_matches = allow rubicon_deploy
judge_phase (other name) digest_matches = refuse (unknown_phase name)

unfoldable pub judge_rubicon_v13_deploy :
    Option JsNumber → RubiconDeployCaller → Option String → ChainVerdict
unfolding judge_phase
judge_rubicon_v13_deploy chain_id caller extra_env =
    if is_number chain_id 7531
    then if not (caller.script == rubicon_v13_deploy_script)
      then refuse (other_script caller.script)
      else if not (is_text caller.entry rubicon_v13_deploy_script)
      then refuse (other_entry caller.entry)
      else if not caller.mainnet_flag
      then refuse no_flag
      else judge_phase caller.phase caller.digest_matches
    else judge_chain chain_id extra_env
