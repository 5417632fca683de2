-- ===== src/Inputs.antt =====
-- scripts/bridge/lib/burn-recipient.ts and scripts/bridge/lib/deploy-roles.ts: whom a test burn pays and
-- how much, and who owns and guards a testnet deploy, from the values of environment variables.
pub mod Accepted
mod Examples
use rome_solidity.Prelude.{
  ℕ, ◌^◌, String, not, ◌&&◌, Option, none, some, ltb, ◌==◌, nat_eq, string_eq, if◌then◌else◌,
  Result, ok, err, ◌>>=◌, ◌>>◌, throw_if, or_else,
}
use rome_solidity.Prelude.Text.{trim, is_decimal, decimal, eq_ignore_case}
use rome_solidity.Guard.Rpc.{hex_quantity}
use rome_solidity.Ctor.{zero_address}
use rome_solidity.Deploy.{Viem}

pub data InputError : Type 0 where
  signer_not_address : String → InputError
  recipient_not_address : String → InputError
  burn_like : String → InputError
  amount_not_whole : String → InputError
  amount_zero : InputError
  guardian_is_owner : String → InputError

-- LOWEST_ACCEPTED
abbrev pub lowest_accepted : ℕ
lowest_accepted = 2 ^ 32

-- The given recipient, or the signer
unfoldable pub chosen_recipient : String → Option String → String
chosen_recipient signer explicit =
    let raw = trim (or_else explicit "") in if raw == "" then signer else raw

-- `BigInt` of an address is its hexadecimal number.
unfoldable pub resolve_burn_recipient : Viem → String → Option String → Result InputError String
resolve_burn_recipient viem signer explicit = do
  throw_if (not (viem.is_address signer)) (signer_not_address signer)
  let chosen = chosen_recipient signer explicit
  throw_if (not (viem.is_address chosen)) (recipient_not_address chosen)
  let checksummed = viem.get_address chosen
  throw_if (ltb (hex_quantity checksummed) lowest_accepted) (burn_like checksummed)
  ok checksummed

-- The amount from the trimmed text
unfoldable pub burn_amount_of : String → Result InputError ℕ
burn_amount_of t =
    if t == ""
    then ok 100000
    else if not (is_decimal t)
    then err (amount_not_whole t)
    else if decimal t == 0
    then err amount_zero
    else ok (decimal t)

unfoldable pub resolve_burn_amount : Option String → Result InputError ℕ
unfolding burn_amount_of
resolve_burn_amount raw = burn_amount_of (trim (or_else raw ""))

pub record RoleInput : Type 0 where
  pub network : String
  pub deployer : String
  pub bridge_owner : Option String
  pub wormhole_admin : Option String
  pub bridge_guardian : Option String

pub record TestnetRoles : Type 0 where
  pub owner : String
  pub guardian : String

-- `bridgeOwner ?? wormholeAdmin ?? deployer`
abbrev pub resolved_owner : RoleInput → String
resolved_owner i = or_else i.bridge_owner (or_else i.wormhole_admin i.deployer)

unfoldable pub resolve_roles : RoleInput → Result InputError TestnetRoles
resolve_roles i =
    let guardian = or_else i.bridge_guardian zero_address in
    if not (guardian == zero_address) && eq_ignore_case guardian (resolved_owner i)
    then err (guardian_is_owner (resolved_owner i))
    else ok (record { owner = resolved_owner i; guardian = guardian })
