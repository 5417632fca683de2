-- ===== src/Oracle/Versions.antt =====
-- scripts/oracle/lib/emit-registry-update.ts: `updateForName` inside `buildContracts`. `undefined` is
-- `none`; a version is what `${maxMajor + 1}.0.0` prints.
use Prim.Native.String.{◌++◌ as join}
use rome_solidity.Prelude.{
  ℕ, suc, String, Bool, true, false, Option, none, some, List, [], ◌∷◌, map, ltb, ◌==◌, string_eq,
  if◌then◌else◌, keep, find,
}
use rome_solidity.Prelude.Text.{eq_ignore_case}
use rome_solidity.Prelude.Number.{JsNumber, whole, negative, not_whole}
use rome_solidity.Prelude.Decimal.{to_text, parse_int, before}
use rome_solidity.Oracle.{
  OracleGatewayV2, live, retired, RegistryContractVersion, RegistryContractEntry, EmitOptions,
}

-- The keys of OracleGatewayV2 that MANAGED_CONTRACTS names
pub data ManagedField : Type 0 where
  batch_reader oracle_adapter_factory pyth_pull_adapter_impl switchboard_v3_adapter_impl :
      ManagedField
  cached_pyth_adapter_impl cached_feed_adapter_impl : ManagedField

pub record ManagedContract : Type 0 where
  pub name : String
  pub key : ManagedField

-- MANAGED_CONTRACTS
abbrev pub managed_contracts : List ManagedContract
managed_contracts =
    record { name = "BatchReader"; key = batch_reader }
    ∷ record { name = "OracleAdapterFactory"; key = oracle_adapter_factory }
    ∷ record { name = "PythPullAdapterImpl"; key = pyth_pull_adapter_impl }
    ∷ record { name = "SwitchboardV3AdapterImpl"; key = switchboard_v3_adapter_impl }
    ∷ record { name = "CachedPythAdapterImpl"; key = cached_pyth_adapter_impl }
    ∷ record { name = "CachedFeedAdapterImpl"; key = cached_feed_adapter_impl }
    ∷ []

-- `deployments.OracleGatewayV2[field]`
unfoldable pub address_at : OracleGatewayV2 → ManagedField → Option String
address_at og batch_reader = some og.batch_reader
address_at og oracle_adapter_factory = some og.oracle_adapter_factory
address_at og pyth_pull_adapter_impl = some og.pyth_pull_adapter_impl
address_at og switchboard_v3_adapter_impl = some og.switchboard_v3_adapter_impl
address_at og cached_pyth_adapter_impl = og.cached_pyth_adapter_impl
address_at og cached_feed_adapter_impl = og.cached_feed_adapter_impl

abbrev pub is_live : RegistryContractVersion → Bool
is_live v = elim v.status [ live ↦ true | retired ↦ false ]

-- `parseInt(v.version.split(".")[0], 10)`
unfoldable pub major : RegistryContractVersion → JsNumber
major v = parse_int (before b'.' v.version)

-- `Number.isFinite`
abbrev pub is_finite : JsNumber → Bool
is_finite not_whole = false
is_finite _ = true

-- `Math.max(a, b)`, from an `a` that is not negative
abbrev pub max_with : ℕ → JsNumber → ℕ
max_with a (whole b) = if ltb a b then b else a
max_with a (negative b) = a
max_with a not_whole = a

unfoldable pub reduce_max : ℕ → List JsNumber → ℕ
reduce_max a [] = a
reduce_max a (n ∷ ns) = reduce_max (max_with a n) ns

unfoldable pub max_major : List RegistryContractVersion → ℕ
unfolding major reduce_max
max_major vs = reduce_max 0 (keep is_finite (map major vs))

-- The live version is the deployed one.
unfoldable pub is_current : String → List RegistryContractVersion → Bool
is_current address vs = elim (find is_live vs) [
  | none ↦ false
  | some v ↦ eq_ignore_case v.address address
]

module _ (options : EmitOptions) where
  unfoldable pub new_version : String → String → RegistryContractVersion
  new_version address version = record {
    address = address;
    version = version;
    status = live;
    deployed_at = options.deployed_at;
    source_git_sha = some options.source_git_sha;
    compiler_version = some options.compiler_version;
    deprecated_at = none;
    replaced_by = none;
  }

  unfoldable pub retire : String → RegistryContractVersion → RegistryContractVersion
  retire address v =
      let old = record v {
        status = retired;
        deprecated_at = some options.deployed_at;
        replaced_by = some address;
      } in
      if is_live v then old else v

  unfoldable pub next_versions :
      String → List RegistryContractVersion → List RegistryContractVersion
  unfolding new_version retire max_major
  next_versions address vs =
      new_version address (join (to_text (suc (max_major vs))) ".0.0") ∷ map (retire address) vs

  -- A managed contract that is deployed at the address, from its prior entry
  unfoldable pub update_entry :
      String → String → Option RegistryContractEntry → RegistryContractEntry
  unfolding new_version is_current next_versions
  update_entry name address none = record {
    name = name;
    versions = new_version address "1.0.0" ∷ [];
  }
  update_entry name address (some e) =
      let changed : RegistryContractEntry = record {
        name = name;
        versions = next_versions address e.versions;
      } in
      if is_current address e.versions then e else changed

-- `prior.find((e) => e.name === name)`
unfoldable pub find_entry : String → List RegistryContractEntry → Option RegistryContractEntry
find_entry n es = find (λ (e : RegistryContractEntry). e.name == n) es

-- `MANAGED_CONTRACTS.find((c) => c.name === name)`
unfoldable pub managed : String → Option ManagedContract
managed name = find (λ (c : ManagedContract). c.name == name) managed_contracts

unfoldable pub update_for_name :
    OracleGatewayV2
    → EmitOptions
    → List RegistryContractEntry
    → String
    → Option RegistryContractEntry
unfolding find_entry update_entry address_at managed
update_for_name og options prior name =
    let entry = find_entry name prior in
    elim (managed name) [
      | none ↦ entry
      | some c ↦ elim (address_at og c.key) [
        | none ↦ entry
        | some address ↦ some (update_entry options name address entry)
      ]
    ]
