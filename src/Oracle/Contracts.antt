-- ===== src/Oracle/Contracts.antt =====
-- scripts/oracle/lib/emit-registry-update.ts: `buildContracts` and `emitRegistryUpdate`.
use mathlib.Core.Option.{map as option_map}
use rome_solidity.Prelude.{
  String, not, ◌&&◌, Option, none, some, List, [], ◌∷◌, ◌++◌, map, string_eq, if◌then◌else◌,
  contains, is_some,
}
use rome_solidity.Oracle.{OracleGatewayV2, RegistryContractEntry, EmitInput, EmitOutput}
use rome_solidity.Oracle.Feeds.{build_oracle}
use rome_solidity.Oracle.Versions.{ManagedContract, managed_contracts, address_at, update_for_name}

abbrev pub entry_name : RegistryContractEntry → String
entry_name e = e.name

-- The managed contracts that the second loop appends, by name
unfoldable pub new_names : OracleGatewayV2 → List String → List ManagedContract → List String
new_names og seen [] = []
new_names og seen (c ∷ cs) =
    let rest = new_names og seen cs in
    if not (contains seen c.name) && is_some (address_at og c.key) then c.name ∷ rest else rest

-- `out.push(updateForName(name))` for each name: `none` when an `undefined` would be pushed
unfoldable pub push_all :
    (String → Option RegistryContractEntry) → List String → Option (List RegistryContractEntry)
push_all update [] = some []
push_all update (n ∷ ns) =
    let rest = push_all update ns in
    elim (update n) [ none ↦ none | some e ↦ option_map (λ es. e ∷ es) rest ]

-- The names that the two loops push, in their order
unfoldable pub emitted_names : OracleGatewayV2 → List RegistryContractEntry → List String
unfolding new_names
emitted_names og prior =
    let seen = map entry_name prior in seen ++ new_names og seen managed_contracts

unfoldable pub build_contracts : EmitInput → Option (List RegistryContractEntry)
unfolding push_all emitted_names
build_contracts i =
    let og = i.deployments.oracle_gateway_v2 in
    push_all (update_for_name og i.options i.contracts) (emitted_names og i.contracts)

unfoldable pub emit_registry_update : EmitInput → Option EmitOutput
unfolding build_contracts
emit_registry_update i =
    option_map (λ cs. record { oracle = build_oracle i.deployments; contracts = cs })
      (build_contracts i)
