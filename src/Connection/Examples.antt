-- ===== src/Connection/Examples.antt =====
-- Tests of the deploy's connection, and the theorem at a concrete one.
use rome_solidity.Prelude.{ℕ, String, ◌≡◌, refl, true, none, some, ok, err, string_eq, nat_eq}
use rome_solidity.Prelude.Number.{JsNumber, whole}
use rome_solidity.Prelude.Text.{eq_ignore_case, to_lower}
use rome_solidity.Guard.Rubicon.{rubicon_v13_deploy_script, judge_rubicon_v13_deploy}
use rome_solidity.Guard.Rpc.{assert_rubicon_v13_deploy_send}
use rome_solidity.Deploy.{Viem}
use rome_solidity.Deploy.Tx.{deploy_digest, slice_to}
use rome_solidity.Connection.{
  Connection, created, deploy, digest_matches, send_guard, submit, created_by, get_deploy_tx,
  is_entry_point,
}
use rome_solidity.Connection.Sent.{IsHanded, IsApproved, deploy-IsHanded}

abbrev viem : Viem
viem = record {
  is_address = λ s. true;
  get_address = λ s. s;
  keccak256 = λ s. s;
  concat_deploy = λ creation chain from nonce. creation;
  contract_address = λ from nonce. from;
  encode_function_data = λ name args. name;
}

-- A connection to Rubicon whose constructor arguments are their encoding
abbrev rubicon : Connection String
rubicon = record {
  viem = viem;
  network_name = "rubicon";
  deployer = "0xD";
  label = "deploy";
  self = rubicon_v13_deploy_script;
  entry = some rubicon_v13_deploy_script;
  extra_env = none;
  deploy_data = λ args. args;
  pending_nonce = ok 7;
  chain_id = ok 7531;
  guard_chain_id = ok (whole 7531);
  deploy_contract = λ args nonce. ok "0x7A";
  wait_for_receipt = λ hash. ok (record {
    status = "success";
    contract_address = some "0xC";
    transaction_hash = some "0x7B";
    block_hash = some "0xB";
  });
  gas_price = none;
  estimate_gas = λ args. ok 1;
  get_gas_price = err "no price";
  get_balance = λ a. ok 0;
  get_code = λ a. ok none;
  get_transaction = λ hash. err "unknown";
  get_receipt = λ hash. err "unknown";
  get_block_time = λ hash. ok 1;
  rev_parse = λ c. ok c;
  diff_quiet = λ c. ok tt;
}

-- The transaction that was mined in the place of the one that was sent counts.
replaced : deploy rubicon "0xcode" true (some "0xCODE") ≡ created "0xC" "0x7B"
unfolding deploy digest_matches send_guard submit created_by deploy_digest slice_to eq_ignore_case
    to_lower assert_rubicon_v13_deploy_send judge_rubicon_v13_deploy
replaced = refl

handed : IsHanded (deploy rubicon "0xcode" true (some "0xCODE"))
unfolding deploy digest_matches send_guard submit created_by deploy_digest slice_to eq_ignore_case
    to_lower assert_rubicon_v13_deploy_send judge_rubicon_v13_deploy
handed = tt

unknown_tx : get_deploy_tx rubicon "0x7A" ≡ none
unfolding get_deploy_tx
unknown_tx = refl

linked : is_entry_point (λ f. ok "/real") (some "link") "/file" ≡ true
unfolding is_entry_point
linked = refl

deploy-IsHanded_example :
    (nonce chain : ℕ) × (id : JsNumber) × (rubicon.pending_nonce ≡ ok nonce)
    × (rubicon.chain_id ≡ ok chain)
    × (send_guard rubicon true (digest_matches rubicon (some "0xCODE") "0xcode" chain nonce)
        ≡ ok id)
    × (deploy rubicon "0xcode" true (some "0xCODE") ≡ submit rubicon "0xcode" nonce)
    × (id ≡ whole 7531 → IsApproved rubicon "0xcode" true (some "0xCODE") chain nonce)
deploy-IsHanded_example = deploy-IsHanded rubicon "0xcode" true (some "0xCODE") handed
