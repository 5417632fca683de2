-- ===== src/Deploy/Record.antt =====
-- scripts/bridge/lib/rubicon-v13.ts: the deployments record.
use rome_solidity.Prelude.{
  ℕ, String, Option, some, is_some, Result, ok, err, string_eq, if◌then◌else◌,
}
use rome_solidity.Prelude.Number.{whole}
use rome_solidity.Prelude.Json.{
  Json, num, str, obj, Fields, end, field, get, get_in, as_text, add_field,
}
use rome_solidity.Ctor.Pdas.{Solana, CtorError, base58_to_bytes32}
use rome_solidity.Deploy.{Viem, record_key}

pub record V13Record : Type 0 where
  pub address : String
  pub version : String
  pub owner : String
  pub guardian : String
  pub deploy_tx : String
  pub deployed_at : ℕ
  pub commit : String
  pub build_info_id : String
  pub solc_version : String
  pub code_hash : String
  pub deploy_input_hash : String

unfoldable pub record_json : V13Record → Json
record_json r = obj (
    field "address" (str r.address) (
      field "version" (str r.version) (
        field "owner" (str r.owner) (
          field "guardian" (str r.guardian) (
            field "deployTx" (str r.deploy_tx) (
              field "deployedAt" (num (whole r.deployed_at)) (
                field "commit" (str r.commit) (
                  field "build"
                    (obj (
                      field "buildInfoId" (str r.build_info_id)
                        (field "solcVersion" (str r.solc_version) end)))
                    (field "codeHash" (str r.code_hash)
                      (field "deployInputHash" (str r.deploy_input_hash) end))))))))))

pub data RecordError : Type 0 where
  already_recorded : RecordError
  no_usdc_wrapper : RecordError
  bad_mint : CtorError → RecordError

unfoldable pub with_v13_record : Fields → V13Record → Result RecordError Fields
with_v13_record existing rec =
    if is_some (get record_key existing)
    then err already_recorded
    else ok (add_field record_key (record_json rec) existing)

pub record Usdc : Type 0 where
  pub wrapper : String
  pub mint_base58 : String

-- The tests on the wrapper's address and mint
usdc_of : Viem → Solana → Option String → Option String → Result RecordError Usdc
usdc_of viem solana (some wrapper) (some mint) =
    if viem.is_address wrapper
    then elim (base58_to_bytes32 solana mint) [
      | ok _ ↦ ok (record { wrapper = viem.get_address wrapper; mint_base58 = mint })
      | err e ↦ err (bad_mint e)
    ]
    else err no_usdc_wrapper
usdc_of viem solana _ _ = err no_usdc_wrapper

unfoldable pub usdc_from_deployments : Viem → Solana → Fields → Result RecordError Usdc
unfolding usdc_of
usdc_from_deployments viem solana d =
    let u = get "SPL_ERC20_USDC" d in
    usdc_of viem solana (as_text (get_in "address" u)) (as_text (get_in "mintId" u))
