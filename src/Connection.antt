-- ===== src/Connection.antt =====
-- scripts/bridge/deploy-rubicon-v13.ts: `depsFromConnection`, what the deploy of Rubicon takes from a
-- Hardhat connection, and `isEntryPoint`. The chain, the wallet and git are functions that answer or fail.
pub mod Sent
mod Examples
use rome_solidity.Prelude.{
  ℕ, String, Bool, true, false, not, ◌&&◌, ◌||◌, Option, none, some, ◌==◌, string_eq, nat_eq,
  if◌then◌else◌, or_else, is_some, Result, ok, err,
}
use rome_solidity.Prelude.Number.{JsNumber, whole}
use rome_solidity.Prelude.Text.{eq_ignore_case}
use rome_solidity.Guard.Rubicon.{RubiconDeployCaller, Phase, inspect, send}
use rome_solidity.Guard.Rpc.{GuardError, assert_rubicon_v13_deploy_send}
use rome_solidity.Deploy.{Viem}
use rome_solidity.Deploy.Env.{AccountInfo, Estimate, SourceAt}
use rome_solidity.Deploy.Tx.{MinedTx, deploy_digest, predicted_address}

pub record Receipt : Type 0 where
  pub status : String
  pub contract_address : Option String
  pub transaction_hash : Option String
  pub block_hash : Option String

-- What `getTransaction` answers
pub record ChainTx : Type 0 where
  pub from : String
  pub input : String
  pub to : Option String
  pub nonce : Option ℕ

-- `networkConfig.gasPrice`
pub data GasPrice : Type 0 where
  big : ℕ → GasPrice
  number : ℕ → GasPrice
  other_price : GasPrice

-- The connection, for constructor arguments of a type. The guard reads the chain id by itself, after
-- the deploy did. `getDeployTx` reads the transaction, then its receipt, then its block.
pub record Connection (Args : Type 0) : Type 0 where
  pub viem : Viem
  pub network_name : String
  pub deployer : String
  pub label : String
  -- the script's path in the repository, and what the process was started as
  pub self : String
  pub entry : Option String
  pub extra_env : Option String
  pub deploy_data : Args → String
  pub pending_nonce : Result String ℕ
  pub chain_id : Result String ℕ
  pub guard_chain_id : Result String JsNumber
  pub deploy_contract : Args → ℕ → Result String String
  pub wait_for_receipt : String → Result String Receipt
  pub gas_price : Option GasPrice
  pub estimate_gas : Args → Result String ℕ
  pub get_gas_price : Result String ℕ
  pub get_balance : String → Result String ℕ
  pub get_code : String → Result String (Option String)
  pub get_transaction : String → Result String ChainTx
  pub get_receipt : String → Result String Receipt
  pub get_block_time : String → Result String ℕ
  -- `git rev-parse --verify c^{commit}`, and `git diff --quiet c HEAD` of the build's paths
  pub rev_parse : String → Result String String
  pub diff_quiet : String → Result String (Unit {0})

pub data SendError : Type 0 where
  rpc : String → SendError
  guard_refused : GuardError → SendError
  send_failed : ℕ → String → String → SendError
  no_receipt : String → String → String → SendError
  no_contract : String → String → SendError

-- How `deploy` ends: before the transaction goes to the wallet, after that, or with a contract
pub data DeployEnd : Type 0 where
  refused : SendError → DeployEnd
  failed : SendError → DeployEnd
  created : String → String → DeployEnd

-- `.catch(() => undefined)`
abbrev pub optional {ℓ} : {A : Type ℓ} → Result String A → Option A
optional (ok a) = some a
optional (err e) = none

unfoldable pub pinned_gas_price : Option GasPrice → Option ℕ
pinned_gas_price (some (big g)) = some g
pinned_gas_price (some (number g)) = some g
pinned_gas_price _ = none

-- A text that is there and not empty
abbrev present : Option String → Bool
present none = false
present (some s) = not (s == "")

module _ {Args : Type 0} (conn : Connection Args) where
  abbrev pub caller : Bool → Phase → Bool → RubiconDeployCaller
  caller mainnet_flag phase digest_matches = record {
    script = conn.self;
    entry = none;
    mainnet_flag = mainnet_flag;
    phase = phase;
    digest_matches = digest_matches;
  }

  -- `guard`
  unfoldable pub inspect_guard : Bool → Result GuardError JsNumber
  inspect_guard mainnet_flag =
      assert_rubicon_v13_deploy_send conn.guard_chain_id conn.label
        (caller mainnet_flag inspect false) conn.entry conn.extra_env

  unfoldable pub estimate : Args → Result String Estimate
  unfolding pinned_gas_price
  estimate args =
      let pinned = pinned_gas_price conn.gas_price in
      elim (conn.estimate_gas args) [
        | err e ↦ err e
        | ok gas ↦ ok (record {
          gas = gas;
          gas_price = elim pinned [ some g ↦ some g | none ↦ optional conn.get_gas_price ];
          gas_price_pinned = is_some pinned;
          balance = optional (conn.get_balance conn.deployer);
        })
      ]

  -- The operator's digest is the one of these bytes, this chain and this nonce.
  unfoldable pub digest_matches : Option String → String → ℕ → ℕ → Bool
  digest_matches none data_ chain nonce = false
  digest_matches (some d) data_ chain nonce =
      eq_ignore_case d (deploy_digest conn.viem data_ chain conn.deployer nonce)

  -- What a receipt of the sent transaction gives
  unfoldable pub created_by : String → Receipt → DeployEnd
  created_by tx_hash receipt = elim receipt.contract_address [
    | none ↦ failed (no_contract tx_hash receipt.status)
    | some address ↦
        if not (receipt.status == "success") || address == ""
        then failed (no_contract tx_hash receipt.status)
        else created address (or_else receipt.transaction_hash tx_hash)
  ]

  -- From `beforeSend` on
  unfoldable pub submit : Args → ℕ → DeployEnd
  unfolding created_by
  submit args nonce =
      let predicted = predicted_address conn.viem conn.deployer nonce in
      elim (conn.deploy_contract args nonce) [
        | err e ↦ failed (send_failed nonce predicted e)
        | ok tx_hash ↦ elim (conn.wait_for_receipt tx_hash) [
          | err e ↦ failed (no_receipt tx_hash predicted e)
          | ok receipt ↦ created_by tx_hash receipt
        ]
      ]

  unfoldable pub send_guard : Bool → Bool → Result GuardError JsNumber
  send_guard mainnet_flag matches =
      assert_rubicon_v13_deploy_send conn.guard_chain_id conn.label
        (caller mainnet_flag send matches) conn.entry conn.extra_env

  unfoldable pub deploy : Args → Bool → Option String → DeployEnd
  unfolding submit send_guard digest_matches
  deploy args mainnet_flag digest = elim conn.pending_nonce [
    | err e ↦ refused (rpc e)
    | ok nonce ↦ elim conn.chain_id [
      | err e ↦ refused (rpc e)
      | ok chain ↦
          let matches = digest_matches digest (conn.deploy_data args) chain nonce in
          elim (send_guard mainnet_flag matches) [
            | err e ↦ refused (guard_refused e)
            | ok id ↦ submit args nonce
          ]
    ]
  ]

  unfoldable pub account_info : String → Result String AccountInfo
  account_info address = elim (conn.get_code address) [
    | err e ↦ err e
    | ok code ↦ elim (conn.get_balance address) [
      | err e ↦ err e
      | ok balance ↦ ok (record {
        has_code = elim code [ none ↦ false | some c ↦ not (c == "") && not (c == "0x") ];
        balance = balance;
      })
    ]
  ]

  unfoldable pub source_at : String → SourceAt
  source_at commit = elim (conn.rev_parse commit) [
    | err e ↦ record { commit = commit; same_sources = false }
    | ok full ↦ elim (conn.diff_quiet full) [
      | err e ↦ record { commit = full; same_sources = false }
      | ok _ ↦ record { commit = full; same_sources = true }
    ]
  ]

  -- The time of the block that the receipt names
  unfoldable pub block_time : Option Receipt → Option ℕ
  block_time none = none
  block_time (some receipt) = elim receipt.block_hash [
    | none ↦ none
    | some hash ↦ if hash == "" then none else optional (conn.get_block_time hash)
  ]

  unfoldable pub get_deploy_tx : String → Option MinedTx
  unfolding block_time
  get_deploy_tx hash =
      let receipt = optional (conn.get_receipt hash) in
      elim (conn.get_transaction hash) [
        | err e ↦ none
        | ok tx ↦ some (record {
          from = tx.from;
          input = tx.input;
          to = tx.to;
          nonce = tx.nonce;
          status = elim receipt [ none ↦ "pending" | some r ↦ r.status ];
          contract_address = elim receipt [ none ↦ none | some r ↦ r.contract_address ];
          block_timestamp = block_time receipt;
        })
      ]

-- `isEntryPoint`: `real` is `realpathSync(path.resolve(…))`.
unfoldable pub is_entry_point : (String → Result String String) → Option String → String → Bool
is_entry_point real none self_file = false
is_entry_point real (some argv1) self_file = if argv1 == "" then false else elim (real argv1) [
  | err e ↦ false
  | ok started ↦ elim (real self_file) [ err e ↦ false | ok self ↦ started == self ]
]
