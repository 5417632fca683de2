-- ===== src/Deployments.antt =====
-- scripts/lib/deployments.ts: the file deployments/<network>.json, its addresses and its pools. A file
-- system is the association list of its files; a missing key is `none`.
pub mod Addresses
pub mod Pools
pub mod PoolLaws
pub mod Saved
mod Examples
use rome_solidity.Prelude.{ℕ, String, Option, List, Result}
use rome_solidity.Prelude.Json.{Fields}
use rome_solidity.Prelude.Number.{JsNumber}

pub record PoolDeployment : Type 0 where
  pub pubkey : String
  pub address : String
  pub tx_hash : String
  pub block_number : String
  pub token_a_mint : String
  pub token_b_mint : String
  pub token_a_address : String
  pub token_b_address : String

pub record FactoryDeployment : Type 0 where
  pub address : Option String

pub record RouterDeployment : Type 0 where
  pub address : Option String

pub record Erc20SplFactoryDeployment : Type 0 where
  pub address : Option String
  pub cpi_contract_address : Option String

pub record WrapperDeployment : Type 0 where
  pub address : String
  pub mint : Option String
  pub mint_bytes32 : Option String
  pub name : Option String
  pub symbol : Option String
  pub deploy_tx : Option String

pub record SimpleActivatorDeployment : Type 0 where
  pub address : String
  pub activation_cost_wei : String
  pub usdc_wrapper : String
  pub wsol_wrapper : String
  pub users : String
  pub deployed_at : JsNumber

-- `others` has the keys that the type does not name.
pub record DeploymentsFile : Type 0 where
  pub meteora_factory : Option FactoryDeployment
  pub meteora_router : Option RouterDeployment
  pub meteora_pools : Option (List PoolDeployment)
  pub erc20_spl_factory : Option Erc20SplFactoryDeployment
  pub simple_activator : Option SimpleActivatorDeployment
  pub spl_erc20_usdc : Option WrapperDeployment
  pub spl_erc20_weth : Option WrapperDeployment
  pub spl_erc20_wsol : Option WrapperDeployment
  pub spl_erc20_cached : Option WrapperDeployment
  pub spl_erc20_usdc_cached : Option WrapperDeployment
  pub spl_erc20_weth_cached : Option WrapperDeployment
  pub spl_erc20_wsol_cached : Option WrapperDeployment
  pub wusdc : Option WrapperDeployment
  pub wsol : Option WrapperDeployment
  pub others : Fields

pub data DeploymentsError : Type 0 where
  not_json : String → DeploymentsError
  invalid_factory : String → String → DeploymentsError
  invalid_router : String → String → DeploymentsError
  invalid_erc20_spl_factory : String → String → DeploymentsError
  invalid_factory_env : String → DeploymentsError
  invalid_erc20_spl_factory_env : String → DeploymentsError
  factory_not_found : String → DeploymentsError
  erc20_spl_factory_not_found : String → DeploymentsError

-- What the scripts take from Node: the working directory, `path.resolve`, `JSON.parse`, and
-- `JSON.stringify(…, null, 2) + "\n"`.
pub record Host : Type 0 where
  pub cwd : String
  pub resolve : List String → String
  pub parse : String → Result String DeploymentsFile
  pub text : DeploymentsFile → String

-- The texts of the files by their paths
abbrev pub Files : Type 0
Files = List (String × String)
