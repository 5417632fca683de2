-- ===== src/Oracle.antt =====
-- scripts/oracle/lib/emit-registry-update.ts: the deployments file of the oracle contracts, and the
-- registry's oracle.json and contracts.json that are made from it.
pub mod Feeds
pub mod Keys
pub mod FeedLaws
pub mod Versions
pub mod VersionLaws
pub mod Contracts
pub mod ContractLaws
pub mod Addresses
pub mod Emitted
mod Examples
use rome_solidity.Prelude.{String, Option, List}
use rome_solidity.Prelude.Number.{JsNumber}

pub record DeploymentsFeed : Type 0 where
  pub pair : String
  pub adapter : String
  pub pubkey : String
  pub pubkey_bytes32 : String

pub record PriceBookFeed : Type 0 where
  pub pair : String
  pub adapter : String
  pub pubkey : String
  pub pubkey_bytes32 : String
  pub max_staleness : JsNumber

pub record GatewayFeeds : Type 0 where
  pub pyth : List DeploymentsFeed
  pub switchboard : List DeploymentsFeed
  pub cached_pyth : Option (List DeploymentsFeed)
  pub cached_feed : Option (List DeploymentsFeed)

pub record OracleGatewayV2 : Type 0 where
  pub deployed_at : String
  pub default_max_staleness : JsNumber
  pub pyth_receiver_program_id : String
  pub switchboard_program_id : String
  pub pyth_pull_adapter_impl : String
  pub switchboard_v3_adapter_impl : String
  pub cached_pyth_adapter_impl : Option String
  pub cached_feed_adapter_impl : Option String
  pub oracle_adapter_factory : String
  pub batch_reader : String
  pub feeds : GatewayFeeds

pub record PriceBook : Type 0 where
  pub address : String
  pub implementation : String
  pub deployed_at : String
  pub owner : String
  pub feeds : List PriceBookFeed

pub record DeploymentsFile : Type 0 where
  pub oracle_gateway_v2 : OracleGatewayV2
  pub price_book : Option PriceBook

-- The `source` of a registry feed
pub data FeedSource : Type 0 where
  pyth switchboard cached_pyth cached_feed book : FeedSource

pub record OracleFeed : Type 0 where
  pub address : String
  pub source : FeedSource
  pub underlying_account : Option String

pub record RegistryPriceBook : Type 0 where
  pub address : String
  pub implementation : String

pub record RegistryOracleFile : Type 0 where
  pub factory : String
  pub price_book : Option RegistryPriceBook
  pub feeds : List (String × OracleFeed)

pub data VersionStatus : Type 0 where
  live retired : VersionStatus

pub record RegistryContractVersion : Type 0 where
  pub address : String
  pub version : String
  pub status : VersionStatus
  pub deployed_at : String
  pub source_git_sha : Option String
  pub compiler_version : Option String
  pub deprecated_at : Option String
  pub replaced_by : Option String

pub record RegistryContractEntry : Type 0 where
  pub name : String
  pub versions : List RegistryContractVersion

pub record EmitOptions : Type 0 where
  pub source_git_sha : String
  pub compiler_version : String
  pub deployed_at : String

pub record EmitInput : Type 0 where
  pub deployments : DeploymentsFile
  pub oracle : RegistryOracleFile
  pub contracts : List RegistryContractEntry
  pub options : EmitOptions

pub record EmitOutput : Type 0 where
  pub oracle : RegistryOracleFile
  pub contracts : List RegistryContractEntry
