-- ===== src/Inputs/Examples.antt =====
-- Tests of the resolved inputs, and the theorems at concrete ones.
use rome_solidity.Prelude.{
  ℕ, ◌≤◌, String, ◌≡◌, ◌≢◌, refl, ◌↔◌, ◌⊎◌, true, none, some, ok, err, nat_eq, string_eq,
}
use rome_solidity.Prelude.Text.{to_lower, eq_ignore_case, trim, is_decimal, decimal, starts_with}
use rome_solidity.Guard.Rpc.{hex_quantity}
use rome_solidity.Deploy.{Viem}
use rome_solidity.Inputs.{
  burn_like, amount_zero, guardian_is_owner, chosen_recipient, resolve_burn_recipient,
  resolve_burn_amount, RoleInput, TestnetRoles, resolve_roles,
}
use rome_solidity.Inputs.Accepted.{
  IsChosen, IsFirstSet, resolve_burn_recipient-eq-ok_iff, resolve_burn_amount-eq-ok_iff,
  resolve_roles-eq-ok_iff,
}

abbrev tools : Viem
tools = record {
  is_address = λ s. starts_with s "0x";
  get_address = λ s. s;
  keccak256 = λ s. s;
  concat_deploy = λ input chain from nonce. input;
  contract_address = λ from nonce. from;
  encode_function_data = λ name args. name;
}

pays_signer : resolve_burn_recipient tools "0x1000000000" (some "  ") ≡ ok "0x1000000000"
unfolding resolve_burn_recipient chosen_recipient trim hex_quantity starts_with
pays_signer = refl

refuses_one : resolve_burn_recipient tools "0x1000000000" (some " 0x1") ≡ err (burn_like "0x1")
unfolding resolve_burn_recipient chosen_recipient trim hex_quantity starts_with
refuses_one = refl

refuses_zero : resolve_burn_amount (some "00") ≡ err amount_zero
unfolding resolve_burn_amount trim is_decimal decimal
refuses_zero = refl

abbrev input : RoleInput
input = record {
  network = "hadrian";
  deployer = "0xA";
  bridge_owner = none;
  wormhole_admin = some "0xB";
  bridge_guardian = some "0xb";
}

same_but_for_case : resolve_roles input ≡ err (guardian_is_owner "0xB")
unfolding resolve_roles eq_ignore_case
same_but_for_case = refl

resolve_burn_recipient-eq-ok_iff_example :
    (resolve_burn_recipient tools "0x1000000000" none ≡ ok "0x1000000000") ↔ (
      (tools.is_address "0x1000000000" ≡ true)
      × ((c : String) × IsChosen "0x1000000000" none c
          × (tools.is_address c ≡ true)
          × (tools.get_address c ≡ "0x1000000000"))
      × (4294967296 ≤ hex_quantity "0x1000000000"))
resolve_burn_recipient-eq-ok_iff_example =
    resolve_burn_recipient-eq-ok_iff tools "0x1000000000" none "0x1000000000"

resolve_burn_amount-eq-ok_iff_example : (resolve_burn_amount (some "25") ≡ ok 25) ↔ (
    ((trim "25" ≡ "") × (◌≡◌ {A = ℕ} 25 100000))
    ⊎ ((trim "25" ≢ "") × (is_decimal (trim "25") ≡ true) × (decimal (trim "25") ≡ 25) × (1 ≤ 25)))
resolve_burn_amount-eq-ok_iff_example = resolve_burn_amount-eq-ok_iff (some "25") 25

abbrev roles : TestnetRoles
roles = record { owner = "0xB"; guardian = "0xb" }

resolve_roles-eq-ok_iff_example : (resolve_roles input ≡ ok roles) ↔ (
    IsFirstSet input roles.owner
    × ((input.bridge_guardian ≡ some roles.guardian)
        ⊎ ((input.bridge_guardian ≡ none)
            × (roles.guardian ≡ "0x0000000000000000000000000000000000000000")))
    × ((roles.guardian ≡ "0x0000000000000000000000000000000000000000")
        ⊎ (to_lower roles.guardian ≢ to_lower roles.owner)))
resolve_roles-eq-ok_iff_example = resolve_roles-eq-ok_iff input roles
