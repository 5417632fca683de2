-- ===== src/Deploy/Env.antt =====
-- scripts/bridge/lib/rubicon-v13.ts: what the deploy is given, and what it throws. A dependency that
-- answers at several moments of a run takes the moment as an argument.
use rome_solidity.Prelude.{ℕ, String, Bool, Option, List, Result}
use rome_solidity.Prelude.Json.{Fields}
use rome_solidity.Ctor.{CtorArgs}
use rome_solidity.Ctor.Pdas.{CtorError, Solana}
use rome_solidity.Deploy.{Viem}
use rome_solidity.Deploy.Roles.{RoleError}
use rome_solidity.Deploy.ReadBack.{ChainReader, Mismatch}
use rome_solidity.Deploy.Tx.{MinedTx, TxProblem}
use rome_solidity.Deploy.Record.{V13Record, RecordError}

pub record AccountInfo : Type 0 where
  pub has_code : Bool
  pub balance : ℕ

pub record Estimate : Type 0 where
  pub gas : ℕ
  pub gas_price : Option ℕ
  pub gas_price_pinned : Bool
  pub balance : Option ℕ

pub record Source : Type 0 where
  pub commit : String
  pub contracts_clean : Bool
  pub build_ok : Bool
  pub build_problems : List String
  pub build_info_id : String
  pub solc_version : Option String

pub record SourceAt : Type 0 where
  pub commit : String
  pub same_sources : Bool

-- How the send ends: refused before the transaction goes to the wallet, failed after that, or mined
pub data SendOutcome : Type 0 where
  refused : String → SendOutcome
  failed : String → SendOutcome
  mined : String → String → SendOutcome

-- How the write of the record ends
pub data WriteOutcome : Type 0 where
  written : WriteOutcome
  conflict : WriteOutcome
  write_failed : String → WriteOutcome

pub record DeployDeps : Type 0 where
  pub viem : Viem
  pub solana : Solana
  pub network_name : String
  pub deployer : String
  pub guard : Bool → Result String ℕ
  pub account_info : String → Result String AccountInfo
  -- the snapshot of the deployments file, or the answer of `read` where there is none
  pub read_raw : Result String (Option String)
  pub read : Result String Fields
  -- `JSON.parse`, and `JSON.stringify(…, null, 2) + "\n"`
  pub json_parse : String → Result String Fields
  pub json_text : Fields → String
  pub deploy_data : CtorArgs → String
  pub source : Result String Source
  pub source_at : String → Result String SourceAt
  pub nonce : Result String ℕ
  pub estimate : CtorArgs → Result String Estimate
  pub deploy : CtorArgs → Bool → Option String → SendOutcome
  -- the contract at an address: at moment 0 the v12 contract, at 1 to 4 the attempts of the
  -- read-back, at 5 the last read of the code
  pub reader : String → ℕ → ChainReader
  -- a mined transaction, at an attempt
  pub get_deploy_tx : String → ℕ → Result String (Option MinedTx)
  pub add_record : Option String → Fields → V13Record → WriteOutcome

pub data FlowError : Type 0 where
  dependency : String → FlowError
  not_rubicon : ℕ → FlowError
  rubicon_under_another_name : String → FlowError
  bad_roles : RoleError → FlowError
  owner_has_code : String → FlowError
  guardian_has_code : String → FlowError
  recorded_before : FlowError
  not_canonical : FlowError
  bad_record : RecordError → FlowError
  bad_ctor : CtorError → FlowError
  unclean_sources : FlowError
  stale_artifact : List String → FlowError
  guardian_is_v12_owner : FlowError
  owner_is_not_v12_owner : FlowError
  other_sources : String → FlowError
  not_this_deploy : List TxProblem → FlowError
  digest_differs : String → FlowError
  gas_price_not_pinned : FlowError
  low_balance : ℕ → ℕ → FlowError
  owner_without_gas : FlowError
  send_refused : String → FlowError
  send_failed : String → FlowError
  unexpected_address : String → FlowError
  failed_read_back : List Mismatch → FlowError
  read_back_incomplete : FlowError
  code_unreadable : FlowError
  transaction_unknown : FlowError
  transaction_pending : FlowError
  no_block_time : FlowError
  not_approved : List TxProblem → FlowError
  record_conflict : FlowError
  record_not_written : String → FlowError
  -- a failure before the send, with the note that it is about this run only
  this_run_only : FlowError → FlowError
