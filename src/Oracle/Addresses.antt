-- ===== src/Oracle/Addresses.antt =====
-- Where the managed contracts are deployed, by the deployments file alone.
use rome_solidity.Prelude.{
  String, ◌≡◌, ◌↔◌, refl, ap, ◌∙◌, subst, not, ◌&&◌, Option, some, is_some, List, [], ◌∷◌, map, inl,
  inr, Bool-cases, find, lookup, contains, ◌==◌, string_eq, if◌then◌else◌,
}
use rome_solidity.Oracle.{OracleGatewayV2}
use rome_solidity.Oracle.Versions.{ManagedContract, managed, managed_contracts, address_at}
use rome_solidity.Oracle.Contracts.{new_names}
use rome_solidity.Oracle.ContractLaws.{IsDeployedAt}

-- The addresses of the deployments file, by the name of the contract, in the order that they are written
abbrev pub deployed_addresses : OracleGatewayV2 → List (String × Option String)
deployed_addresses og =
    ("BatchReader", some og.batch_reader)
    ∷ ("OracleAdapterFactory", some og.oracle_adapter_factory)
    ∷ ("PythPullAdapterImpl", some og.pyth_pull_adapter_impl)
    ∷ ("SwitchboardV3AdapterImpl", some og.switchboard_v3_adapter_impl)
    ∷ ("CachedPythAdapterImpl", og.cached_pyth_adapter_impl)
    ∷ ("CachedFeedAdapterImpl", og.cached_feed_adapter_impl)
    ∷ []

-- Those of the addresses that are there, for names that the prior file does not have
abbrev pub new_deployed : List String → List (String × Option String) → List String
new_deployed seen [] = []
new_deployed seen ((n, a) ∷ rest) =
    let later = new_deployed seen rest in
    if not (contains seen n) && is_some a then n ∷ later else later

abbrev at_keys : OracleGatewayV2 → List ManagedContract → List (String × Option String)
at_keys og cs = map (λ (c : ManagedContract). (c.name, address_at og c.key)) cs

deployed_addresses_lem :
    (og : OracleGatewayV2) → at_keys og managed_contracts ≡ deployed_addresses og
unfolding address_at
deployed_addresses_lem og = refl

new_names_lem :
    (og : OracleGatewayV2) (seen : List String) (cs : List ManagedContract)
    → new_names og seen cs ≡ new_deployed seen (at_keys og cs)
unfolding new_names
new_names_lem og seen [] = refl
new_names_lem og seen (c ∷ cs) = rw (new_names, new_names_lem og seen cs) refl

pub new_names-new_deployed :
    (og : OracleGatewayV2) (seen : List String)
    → new_names og seen managed_contracts ≡ new_deployed seen (deployed_addresses og)
new_names-new_deployed og seen =
    new_names_lem og seen managed_contracts ∙ ap (new_deployed seen) (deployed_addresses_lem og)

-- The contract of the name is deployed at the address.
abbrev pub IsDeployed : OracleGatewayV2 → String → String → Type 0
IsDeployed og n a = lookup n (deployed_addresses og) ≡ some (some a)

lookup-at_keys_iff :
    (og : OracleGatewayV2) (n a : String) (cs : List ManagedContract)
    → (lookup n (at_keys og cs) ≡ some (some a)) ↔ (
        (c : ManagedContract) × (find (λ (c : ManagedContract). c.name == n) cs ≡ some c)
        × (address_at og c.key ≡ some a))
lookup-at_keys_iff og n a [] = (λ h. cc, λ (c, is, h). cc)
lookup-at_keys_iff og n a (c ∷ cs) = elim (Bool-cases (c.name == n)) [
  | inl same ↦ rw same (
    λ h. (c, refl, some-inj h),
    λ (d, is, h). ap some (ap (λ (k : ManagedContract). address_at og k.key) (some-inj is) ∙ h),
  )
  | inr other ↦ rw other (lookup-at_keys_iff og n a cs)
]
  where
    some-inj : {A : Type 0} {x y : A} → some x ≡ some y → x ≡ y
    some-inj h = cc

pub IsDeployed-IsDeployedAt_iff :
    (og : OracleGatewayV2) (n a : String) → IsDeployed og n a ↔ IsDeployedAt og n a
unfolding managed
IsDeployed-IsDeployedAt_iff og n a =
    subst (λ t. (lookup n t ≡ some (some a)) ↔ IsDeployedAt og n a) (deployed_addresses_lem og)
      (lookup-at_keys_iff og n a managed_contracts)
