-- ===== src/Deploy/Examples.antt =====
-- A deploy on Rubicon with concrete tools, and the theorems at it.
use rome_solidity.Prelude.{
  arith, zero, suc, ◌<◌, ℕ, ◌≤◌, String, ◌≡◌, ◌≢◌, refl, sym, subst, ◌↔◌, Bool, true, false, Option,
  none, some, List, [], ◌∷◌, Result, ok, err, nat_eq, string_eq,
}
use rome_solidity.Prelude.Text.{to_lower, eq_ignore_case, starts_with, every_char}
use rome_solidity.Prelude.Json.{str, obj, Fields, end, field, get, add_field, get_in, as_text}
use rome_solidity.Ctor.{program_ids_for, universal_for, assemble, build_withdraw_constructor_args}
use rome_solidity.Ctor.Pdas.{
  Solana, hex_of, base58_to_bytes32, derive_cctp_accounts, derive_wormhole_global_accounts,
}
use rome_solidity.Deploy.{Viem, record_key, rubicon_network, rubicon_chain_id}
use rome_solidity.Deploy.Args.{
  DeployOptions, parse_args, read_options, parse_all, parse_arg, add_seen, opt, need, all_given,
  fails, differ, is_0x_hex, is_hex_of_length, has_length, check_options, cut_at_equals,
}
use rome_solidity.Deploy.ArgRules.{IsSoundFor, parse_args-IsSound}
use rome_solidity.Deploy.Roles.{DeployRoles, validate_roles, parse_address}
use rome_solidity.Deploy.RoleRules.{AreRoles, validate_roles-AreRoles, with_v13_record-get}
use rome_solidity.Deploy.ReadBack.{
  Query, version, owner, pending_owner, guardian, cctp_domains, usdc_wrapper, usdc_mint,
  rail_paused, wormhole_target_chain_allowed, wormhole_mint_allowed, Answer, text, bool, numbers,
  ChainReader, Expected, lacks_code, queries, first_checks, mint_checks, verify_deployment,
}
use rome_solidity.Deploy.Tx.{
  MinedTx, deploy_digest, predicted_address, deploy_tx_problems, slice_to,
}
use rome_solidity.Deploy.Roles.{owner_is_guardian}
use rome_solidity.Deploy.Args.{different_modes, Existing}
use rome_solidity.Deploy.Roles.{check_roles}
use rome_solidity.Deploy.Record.{usdc_from_deployments}
use rome_solidity.Deploy.ReadBack.{
  lift_call, lift_mint, run_checks, read_roles, held_roles, build_owner_calls,
}
use rome_solidity.Deploy.Retry.{after_attempt, verify_from, seen_tx, after_seen, fetch_from}
use rome_solidity.Deploy.Prepare.{
  check_chain, check_accounts, read_existing, read_file, check_source, v12_owner_at, v12_owner,
  check_v12, read_nonce, digest_of, check_digest, check_estimate, check_price,
}
use rome_solidity.Deploy.Flow.{
  chain_code, mined_for, read_back, finish, write_record, record_stage, send_stage,
  check_before_send, deploy_stage, choose_stage, run_flow,
}
use rome_solidity.Deploy.TxLaws.{
  IsDeployTx, IsMined, deploy_tx_problems-nil_iff, fetch_mined_deploy-eq-ok,
}
use rome_solidity.Deploy.Record.{V13Record, record_json, with_v13_record, already_recorded}
use rome_solidity.Deploy.Env.{DeployDeps, FlowError, mined, written, this_run_only}
use rome_solidity.Deploy.Retry.{fetch_mined_deploy, verify_with_retry}
use rome_solidity.Deploy.Prepare.{Prepared, prepare}
use rome_solidity.Deploy.Safety.{IsApproved, sent-IsApproved}
use rome_solidity.Deploy.Verified.{IsAsWanted, verify_deployment-IsAsWanted}
use rome_solidity.Deploy.Retried.{
  Attempt, HasLagged, Decides, verify_with_retry-eq-ok, verify_with_retry-Decides,
}
use rome_solidity.Deploy.Recorded.{IsChecked, recorded-IsChecked}
use rome_solidity.Deploy.Unstarted.{unstarted-noted}
use rome_solidity.Deploy.Flow.{run_rubicon_v13_deploy}

abbrev tools : Viem
tools = record {
  is_address = λ s. starts_with s "0x";
  get_address = λ s. s;
  keccak256 = λ s. s;
  concat_deploy = λ input chain from nonce. input;
  contract_address = λ from nonce. "0xb";
  encode_function_data = λ name args. "0x";
}

abbrev keys : Solana
keys = record {
  bs58_decode = λ s. ok (
      0 ∷ 0 ∷ 0 ∷ 0 ∷ 0 ∷ 0 ∷ 0 ∷ 0 ∷ 0 ∷ 0 ∷ 0 ∷ 0 ∷ 0 ∷ 0 ∷ 0 ∷ 0 ∷ 0 ∷ 0 ∷ 0 ∷ 0 ∷ 0 ∷ 0 ∷ 0 ∷ 0
      ∷ 0 ∷ 0 ∷ 0 ∷ 0 ∷ 0 ∷ 0 ∷ 0 ∷ 1 ∷ []);
  public_key = λ s. ok s;
  pda = λ seeds program. program;
}

abbrev mint_bytes : String
mint_bytes = "0x0000000000000000000000000000000000000000000000000000000000000001"

-- A fresh contract's answers
abbrev fresh : Query → Result String Answer
fresh version = ok (text "13.0.0")
fresh owner = ok (text "0xA1")
fresh pending_owner = ok (text "0x0000000000000000000000000000000000000000")
fresh guardian = ok (text "0xa2")
fresh cctp_domains = ok (numbers [])
fresh usdc_wrapper = ok (text "0xa3")
fresh usdc_mint = ok (text mint_bytes)
fresh (rail_paused n) = ok (bool false)
fresh (wormhole_target_chain_allowed n) = ok (bool false)
fresh (wormhole_mint_allowed m) = ok (bool false)

abbrev contract : ChainReader
contract = record { read = fresh; get_code = ok (some "0x60") }

abbrev file : Fields
file = field "RomeBridgeWithdraw" (obj (field "address" (str "0xa4") end)) (
    field "SPL_ERC20_USDC" (obj (field "address" (str "0xa3") (field "mintId" (str "EPj") end)))
      end)

abbrev creation : String
creation = "0x6001600260036004"

abbrev tx : MinedTx
tx = record {
  from = "0xA5";
  input = creation;
  to = none;
  nonce = some 3;
  status = "success";
  contract_address = some "0xB";
  block_timestamp = some 1700;
}

abbrev guard_of : Bool → Result String ℕ
guard_of true = ok 7531
guard_of false = err "refused"

abbrev rubicon : DeployDeps
rubicon = record {
  viem = tools;
  solana = keys;
  network_name = "rubicon";
  deployer = "0xa5";
  guard = guard_of;
  account_info = λ a. ok (record { has_code = false; balance = 9 });
  read_raw = ok none;
  read = ok file;
  json_parse = λ s. err s;
  json_text = λ f. "";
  deploy_data = λ args. creation;
  source = ok (record {
    commit = "c0";
    contracts_clean = true;
    build_ok = true;
    build_problems = [];
    build_info_id = "b0";
    solc_version = some "0.8.28";
  });
  source_at = λ c. ok (record { commit = c; same_sources = true });
  nonce = ok 3;
  estimate = λ args.
      ok (record { gas = 5; gas_price = some 2; gas_price_pinned = true; balance = some 10 });
  deploy = λ args flag digest. mined "0xb" "0xcc";
  reader = λ address moment. contract;
  get_deploy_tx = λ hash i. ok (some tx);
  add_record = λ snapshot existing rec. written;
}

abbrev opts : DeployOptions
opts = record {
  network = "rubicon";
  owner = "0xA1";
  guardian = "0xa2";
  dry_run = false;
  mainnet_flag = true;
  deploy_digest = some "0x6001600260036004";
  verify_existing = none;
  owner_differs_from_v12 = false;
}

rubicon_sent : (run_rubicon_v13_deploy rubicon opts).sent ≡ true
unfolding run_rubicon_v13_deploy run_flow choose_stage deploy_stage check_before_send send_stage
    record_stage write_record finish read_back mined_for chain_code build_owner_calls prepare
    check_chain check_accounts validate_roles parse_address check_roles read_file read_existing
    usdc_from_deployments get_in as_text base58_to_bytes32 hex_of build_withdraw_constructor_args
    universal_for assemble program_ids_for derive_cctp_accounts derive_wormhole_global_accounts
    check_source v12_owner v12_owner_at check_v12 read_nonce check_digest digest_of deploy_digest
    slice_to check_price check_estimate predicted_address verify_with_retry verify_from
    after_attempt verify_deployment lift_call lift_mint run_checks read_roles held_roles
    first_checks mint_checks queries fetch_mined_deploy fetch_from seen_tx after_seen
    deploy_tx_problems eq_ignore_case to_lower starts_with
rubicon_sent = refl

abbrev recorded_v13 : V13Record
recorded_v13 = record {
  address = "0xb";
  version = "13.0.0";
  owner = "0xA1";
  guardian = "0xa2";
  deploy_tx = "0xcc";
  deployed_at = 1700;
  commit = "c0";
  build_info_id = "b0";
  solc_version = "0.8.28";
  code_hash = "0x60";
  deploy_input_hash = creation;
}

rubicon_recorded : (run_rubicon_v13_deploy rubicon opts).recorded ≡ some recorded_v13
unfolding run_rubicon_v13_deploy run_flow choose_stage deploy_stage check_before_send send_stage
    record_stage write_record finish read_back mined_for chain_code build_owner_calls prepare
    check_chain check_accounts validate_roles parse_address check_roles read_file read_existing
    usdc_from_deployments get_in as_text base58_to_bytes32 hex_of build_withdraw_constructor_args
    universal_for assemble program_ids_for derive_cctp_accounts derive_wormhole_global_accounts
    check_source v12_owner v12_owner_at check_v12 read_nonce check_digest digest_of deploy_digest
    slice_to check_price check_estimate predicted_address verify_with_retry verify_from
    after_attempt verify_deployment lift_call lift_mint run_checks read_roles held_roles
    first_checks mint_checks queries fetch_mined_deploy fetch_from seen_tx after_seen
    deploy_tx_problems eq_ignore_case to_lower starts_with
rubicon_recorded = refl

abbrev dry : DeployOptions
dry = record opts { deploy_digest = none }

rubicon_dry : (run_rubicon_v13_deploy rubicon dry).send_started ≡ false
unfolding run_rubicon_v13_deploy run_flow choose_stage deploy_stage check_before_send send_stage
    record_stage write_record finish read_back mined_for chain_code build_owner_calls prepare
    check_chain check_accounts validate_roles parse_address check_roles read_file read_existing
    usdc_from_deployments get_in as_text base58_to_bytes32 hex_of build_withdraw_constructor_args
    universal_for assemble program_ids_for derive_cctp_accounts derive_wormhole_global_accounts
    check_source v12_owner v12_owner_at check_v12 read_nonce check_digest digest_of deploy_digest
    slice_to check_price check_estimate predicted_address verify_with_retry verify_from
    after_attempt verify_deployment lift_call lift_mint run_checks read_roles held_roles
    first_checks mint_checks queries fetch_mined_deploy fetch_from seen_tx after_seen
    deploy_tx_problems eq_ignore_case to_lower starts_with
rubicon_dry = refl

sent-IsApproved_example :
    (p : Prepared) × (prepare rubicon opts ≡ ok p)
    × (◌≡◌ {A = Option Existing} none none)
    × (p.dry_run ≡ false)
    × (◌≡◌ {A = Result String ℕ} (ok 7531) (ok p.chain_id))
    × ((rubicon.network_name ≡ rubicon_network) ↔ (p.chain_id ≡ rubicon_chain_id))
    × (get record_key p.existing ≡ none)
    × (p.chain_id ≡ rubicon_chain_id → IsApproved rubicon opts p)
sent-IsApproved_example = sent-IsApproved rubicon opts rubicon_sent

recorded-IsChecked_example :
    (p : Prepared) × (prepare rubicon opts ≡ ok p)
    × (get record_key p.existing ≡ none)
    × IsChecked rubicon p recorded_v13
recorded-IsChecked_example = recorded-IsChecked rubicon opts recorded_v13 rubicon_recorded

unstarted-noted_example :
    ((run_rubicon_v13_deploy rubicon dry).sent ≡ false)
    × ((run_rubicon_v13_deploy rubicon dry).recorded ≡ none)
    × ((e : FlowError)
        → (run_rubicon_v13_deploy rubicon dry).result ≡ err e
        → (cause : FlowError) × (e ≡ this_run_only cause))
unstarted-noted_example = unstarted-noted rubicon dry rubicon_dry

abbrev wanted : Expected
wanted = record {
  owner = "0xa1";
  guardian = "0xA2";
  deployer = "0xa5";
  usdc_wrapper = "0xA3";
  usdc_mint_base58 = "EPj";
}

abbrev asked : List Query
asked =
    version
    ∷ owner
    ∷ pending_owner
    ∷ guardian
    ∷ cctp_domains
    ∷ rail_paused 0
    ∷ rail_paused 1
    ∷ rail_paused 2
    ∷ usdc_wrapper
    ∷ usdc_mint
    ∷ wormhole_target_chain_allowed 2
    ∷ wormhole_target_chain_allowed 10002
    ∷ wormhole_mint_allowed mint_bytes
    ∷ []

verified : verify_deployment keys contract wanted ≡ ok asked
unfolding verify_deployment lift_call lift_mint run_checks read_roles held_roles first_checks
    mint_checks queries base58_to_bytes32 hex_of eq_ignore_case to_lower
verified = refl

verify_deployment-IsAsWanted_example :
    (mint : String) × (base58_to_bytes32 keys "EPj" ≡ ok mint)
    × ((code : Option String) × (◌≡◌ {A = Result String (Option String)}
          (ok (some "0x60"))
          (ok code))
        × (lacks_code code ≡ false))
    × IsAsWanted contract wanted mint
verify_deployment-IsAsWanted_example =
    verify_deployment-IsAsWanted keys contract wanted asked verified

verified_retry : verify_with_retry rubicon "0xb" wanted ≡ ok asked
unfolding verify_with_retry verify_from after_attempt verify_deployment lift_call lift_mint
    run_checks read_roles held_roles first_checks mint_checks queries base58_to_bytes32 hex_of
    eq_ignore_case to_lower
verified_retry = refl

verify_with_retry-eq-ok_example :
    (j : ℕ) × (1 ≤ j) × (j ≤ 4) × (verify_deployment keys contract wanted ≡ ok asked)
verify_with_retry-eq-ok_example = verify_with_retry-eq-ok rubicon "0xb" wanted asked verified_retry

fetched : fetch_mined_deploy rubicon "0xcc" ≡ ok tx
unfolding fetch_mined_deploy fetch_from seen_tx after_seen
fetched = refl

fetch_mined_deploy-eq-ok_example : (j : ℕ) × (1 ≤ j) × (j ≤ 4) × IsMined rubicon "0xcc" tx j
fetch_mined_deploy-eq-ok_example = fetch_mined_deploy-eq-ok rubicon "0xcc" tx fetched

deploy_tx_problems-nil_iff_example :
    (deploy_tx_problems tx "0xb" creation "0xa5" (some 3) ≡ [])
    ↔ IsDeployTx tx "0xb" creation "0xa5" (some 3)
deploy_tx_problems-nil_iff_example = deploy_tx_problems-nil_iff tx "0xb" creation "0xa5" (some 3)

abbrev roles : DeployRoles
roles = record { owner = "0xA1"; guardian = "0xa2"; deployer = "0xa5" }

valid : validate_roles tools "0xa5" "0xA1" "0xa2" true ≡ ok roles
unfolding validate_roles parse_address check_roles eq_ignore_case to_lower starts_with
valid = refl

same_but_for_case : validate_roles tools "0xa5" "0xA1" "0xa1" false ≡ err (owner_is_guardian "0xA1")
unfolding validate_roles parse_address check_roles eq_ignore_case to_lower starts_with
same_but_for_case = refl

validate_roles-AreRoles_example : AreRoles tools "0xa5" "0xA1" "0xa2" true roles
validate_roles-AreRoles_example =
    validate_roles-AreRoles tools "0xa5" "0xA1" "0xa2" true roles valid

with_record :
    with_v13_record end recorded_v13 ≡ ok (field record_key (record_json recorded_v13) end)
unfolding with_v13_record add_field
with_record = refl

with_v13_record-get_example :
    (get record_key (field record_key (record_json recorded_v13) end)
      ≡ some (record_json recorded_v13))
    × ((k : String)
        → k ≢ record_key
        → get k (field record_key (record_json recorded_v13) end) ≡ get k end)
    × ((second : V13Record)
        → with_v13_record (field record_key (record_json recorded_v13) end) second
          ≡ err already_recorded)
with_v13_record-get_example =
    with_v13_record-get end (field record_key (record_json recorded_v13) end) recorded_v13
      with_record

abbrev command_line : List String
command_line =
    "--network" ∷ "rubicon" ∷ "--owner=0xA1" ∷ "--guardian" ∷ "0xa2" ∷ "--i-understand-mainnet"
    ∷ "--deploy" ∷ "0x6001600260036004" ∷ []

parsed : parse_args tools command_line ≡ ok opts
unfolding parse_args parse_all parse_arg add_seen cut_at_equals read_options opt need all_given
    check_options fails differ is_0x_hex is_hex_of_length has_length starts_with every_char
parsed = refl

given_both : parse_args tools ("--dry-run" ∷ command_line) ≡ err different_modes
unfolding parse_args parse_all parse_arg add_seen cut_at_equals read_options opt need all_given
    check_options fails differ is_0x_hex is_hex_of_length has_length starts_with every_char
given_both = refl

parse_args-IsSound_example : IsSoundFor tools command_line opts
parse_args-IsSound_example = parse_args-IsSound tools command_line opts parsed

-- The node has no code for the contract on the first attempt.
abbrev late : ℕ → ChainReader
late zero = contract
late (suc zero) = record contract { get_code = ok none }
late (suc (suc n)) = contract

abbrev lagging_node : DeployDeps
lagging_node = record rubicon { reader = λ address moment. late moment }

lagged : (k : ℕ) → 1 ≤ k → k < 2 → HasLagged lagging_node (Attempt lagging_node "0xb" wanted k)
unfolding verify_deployment lift_call
lagged zero lo hi = absurd (omega (arith, lo))
lagged (suc zero) lo hi = tt
lagged (suc (suc k)) lo hi = absurd (omega (arith, hi))

verify_with_retry-Decides_example : verify_with_retry lagging_node "0xb" wanted ≡ ok asked
verify_with_retry-Decides_example =
    verify_with_retry-Decides lagging_node 2 "0xb" wanted (ok asked) (omega arith) (omega arith)
      lagged (subst (λ r. Decides lagging_node r (ok asked)) (sym verified) refl)
