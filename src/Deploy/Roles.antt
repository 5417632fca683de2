-- ===== src/Deploy/Roles.antt =====
-- scripts/bridge/lib/rubicon-v13.ts: the roles of the deploy.
use rome_solidity.Prelude.{
  String, Bool, false, not, ◌&&◌, ◌==◌, string_eq, Result, ok, ◌>>=◌, ◌>>◌, throw_if,
}
use rome_solidity.Prelude.Text.{eq_ignore_case}
use rome_solidity.Ctor.{zero_address}
use rome_solidity.Deploy.{Viem}

pub data RoleError : Type 0 where
  not_an_address : String → String → RoleError
  not_checksummed : String → String → RoleError
  zero_owner : RoleError
  zero_guardian : RoleError
  owner_is_guardian : String → RoleError
  owner_is_deployer : String → RoleError
  guardian_is_deployer : String → RoleError

pub record DeployRoles : Type 0 where
  pub owner : String
  pub guardian : String
  pub deployer : String

module _ (viem : Viem) where
  unfoldable pub parse_address : String → String → Bool → Result RoleError String
  parse_address label v strict = do
    throw_if (not (viem.is_address v)) (not_an_address label v)
    throw_if (strict && not (v == viem.get_address v)) (not_checksummed label v)
    ok (viem.get_address v)

  -- The three tests on the roles against one another and the zero address
  unfoldable pub check_roles : String → String → String → Result RoleError DeployRoles
  check_roles owner guardian deployer = do
    throw_if (eq_ignore_case owner zero_address) zero_owner
    throw_if (eq_ignore_case guardian zero_address) zero_guardian
    throw_if (eq_ignore_case owner guardian) (owner_is_guardian owner)
    throw_if (eq_ignore_case owner deployer) (owner_is_deployer deployer)
    throw_if (eq_ignore_case guardian deployer) (guardian_is_deployer deployer)
    ok (record { owner = owner; guardian = guardian; deployer = deployer })

  unfoldable pub validate_roles : String → String → String → Bool → Result RoleError DeployRoles
  unfolding check_roles
  validate_roles deployer owner guardian strict = do
    owner' ← parse_address "--owner" owner strict
    guardian' ← parse_address "--guardian" guardian strict
    deployer' ← parse_address "the deploy key's address" deployer false
    check_roles owner' guardian' deployer'
