-- ===== src/Guard/Examples.antt =====
-- Tests of the guard, and its theorems at concrete inputs.
use rome_solidity.Prelude.{
  ℕ, String, ◌≡◌, refl, ◌↔◌, ◌⊎◌, true, false, Option, none, some, [], ◌∷◌, Result, ok, contains,
  nat_eq,
}
use rome_solidity.Prelude.Number.{JsNumber, whole, negative}
use rome_solidity.Prelude.Text.{split, trim, is_decimal, decimal, starts_with}
use rome_solidity.Guard.{parse_extra_chain_ids, judge_chain}
use rome_solidity.Guard.Listed.{IsListed, contains-parse_extra_chain_ids_iff}
use rome_solidity.Guard.Rubicon.{
  RubiconDeployCaller, send, rubicon_v13_deploy_script, judge_rubicon_v13_deploy, entry_script,
}
use rome_solidity.Guard.Rpc.{
  assert_testnet_send, assert_testnet_rpc, assert_rubicon_v13_deploy_send, chain_id_of,
  is_hex_quantity, hex_quantity,
}
use rome_solidity.Guard.Allowed.{
  IsSendable, IsDeployCaller, judge_chain-allowed_iff, judge_rubicon_v13_deploy-allowed_iff,
}
use rome_solidity.Guard.Gates.{assert_rubicon_v13_deploy_send-mainnet}

extra_ids : parse_extra_chain_ids (some " 12, x,0,77 ,12,-3") ≡ 12 ∷ 77 ∷ []
unfolding parse_extra_chain_ids split trim is_decimal decimal
extra_ids = refl

mainnet_never_listed : (judge_chain (some (whole 7531)) (some "7531")).allowed ≡ false
unfolding judge_chain
mainnet_never_listed = refl

negative_refused : (judge_chain (some (negative 4)) none).allowed ≡ false
unfolding judge_chain
negative_refused = refl

abbrev deploy_caller : RubiconDeployCaller
deploy_caller = record {
  script = rubicon_v13_deploy_script;
  entry = some rubicon_v13_deploy_script;
  mainnet_flag = true;
  phase = send;
  digest_matches = true;
}

contains-parse_extra_chain_ids_iff_example :
    (contains (parse_extra_chain_ids (some "5, 7")) 7 ≡ true) ↔ IsListed 7 (split b',' "5, 7")
contains-parse_extra_chain_ids_iff_example = contains-parse_extra_chain_ids_iff (some "5, 7") 7

judge_chain-allowed_iff_example : ((judge_chain (some (whole 200010)) none).allowed ≡ true) ↔ (
    (n : ℕ) × (◌≡◌ {A = Option JsNumber} (some (whole 200010)) (some (whole n)))
    × IsSendable none n)
judge_chain-allowed_iff_example = judge_chain-allowed_iff (some (whole 200010)) none

judge_rubicon_v13_deploy-allowed_iff_example :
    ((judge_rubicon_v13_deploy (some (whole 7531)) deploy_caller none).allowed ≡ true)
    ↔ (((◌≡◌ {A = ℕ} 7531 7531) × IsDeployCaller deploy_caller) ⊎ IsSendable none 7531)
judge_rubicon_v13_deploy-allowed_iff_example =
    judge_rubicon_v13_deploy-allowed_iff 7531 deploy_caller none

on_hadrian : assert_testnet_send (ok (whole 200010)) "deploy" none ≡ ok (whole 200010)
unfolding assert_testnet_send judge_chain
on_hadrian = refl

over_rpc : assert_testnet_rpc (ok (some "0x30d4A")) "deploy" none ≡ ok (some (whole 200010))
unfolding assert_testnet_rpc judge_chain chain_id_of is_hex_quantity hex_quantity
over_rpc = refl

on_rubicon :
    assert_rubicon_v13_deploy_send
      (ok (whole 7531))
      "deploy"
      deploy_caller
      (some rubicon_v13_deploy_script)
      none
    ≡ ok (whole 7531)
unfolding assert_rubicon_v13_deploy_send judge_rubicon_v13_deploy
on_rubicon = refl

assert_rubicon_v13_deploy_send-mainnet_example :
    (◌≡◌ {A = Result String JsNumber} (ok (whole 7531)) (ok (whole 7531)))
    × IsDeployCaller deploy_caller
assert_rubicon_v13_deploy_send-mainnet_example =
    assert_rubicon_v13_deploy_send-mainnet (ok (whole 7531)) "deploy" deploy_caller
      (some rubicon_v13_deploy_script) none on_rubicon

linked_away : entry_script (λ a. ok "../elsewhere.ts") (some "deploy") ≡ none
unfolding entry_script starts_with
linked_away = refl

own_entry :
    entry_script (λ a. ok rubicon_v13_deploy_script) (some "x") ≡ some rubicon_v13_deploy_script
unfolding entry_script starts_with
own_entry = refl
