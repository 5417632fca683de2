-- ===== src/Deploy.antt =====
-- scripts/bridge/lib/rubicon-v13.ts: the Rubicon deploy of RomeBridgeWithdraw 13.0.0. This module
-- holds the interface of viem, which the scripts only call, and the constants.
pub mod Args
pub mod Roles
pub mod ReadBack
pub mod Tx
pub mod Record
pub mod Env
pub mod Retry
pub mod Prepare
pub mod Flow
pub mod Prepared
pub mod Approved
pub mod Safety
pub mod ReadBackLaws
pub mod Verified
pub mod Retried
pub mod TxLaws
pub mod Checked
pub mod Recorded
pub mod Unstarted
pub mod RoleRules
pub mod ArgRules
mod Examples
use rome_solidity.Prelude.{ℕ, String, Bool, List, ◌≡◌, true, Option}
use rome_solidity.Prelude.Text.{to_lower}

-- An argument of an encoded call
pub data AbiArg : Type 0 where
  uint : ℕ → AbiArg
  bytes32 : String → AbiArg

pub record Viem : Type 0 where
  -- `isAddress`, `getAddress` (the checksummed spelling), `keccak256`
  pub is_address : String → Bool
  pub get_address : String → String
  pub keccak256 : String → String
  -- `concatHex([data, pad(toHex(chainId), 32), deployer, pad(toHex(nonce), 32)])`
  pub concat_deploy : String → ℕ → String → ℕ → String
  -- `getContractAddress({ from, nonce })`
  pub contract_address : String → ℕ → String
  -- `encodeFunctionData` at a function's name and arguments
  pub encode_function_data : String → List AbiArg → String

abbrev pub expected_version : String
expected_version = "13.0.0"

abbrev pub record_key : String
record_key = "RomeBridgeWithdrawV13"

abbrev pub rubicon_network : String
rubicon_network = "rubicon"

abbrev pub rubicon_chain_id : ℕ
rubicon_chain_id = 7531

abbrev pub mainnet_flag_name : String
mainnet_flag_name = "--i-understand-mainnet"

abbrev pub owner_differs_flag : String
owner_differs_flag = "--owner-differs-from-v12"
