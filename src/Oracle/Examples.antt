-- ===== src/Oracle/Examples.antt =====
-- Tests of the registry update, and the theorems at concrete ones.
use rome_solidity.Prelude.{
  ◌<◌, ◌≤◌, ◌++◌, sym, ◌∙◌, ℕ, String, or_else, arith, ◌≡◌, refl, true, false, none, some, List, [],
  ◌∷◌, map, All, lookup, string_eq,
}
use Prim.Native.String.{◌++◌ as join}
use rome_solidity.Oracle.Keys.{is_plain}
use rome_solidity.Prelude.Text.{eq_ignore_case, every_char, to_lower, is_space}
use rome_solidity.Prelude.Number.{whole}
use rome_solidity.Prelude.Decimal.{parse_int, before}
use rome_solidity.Oracle.{
  DeploymentsFeed, DeploymentsFile, OracleGatewayV2, FeedSource, pyth, switchboard, cached_pyth,
  cached_feed, book, live, RegistryContractVersion, RegistryContractEntry, EmitOptions, EmitInput,
}
use rome_solidity.Oracle.Feeds.{suffix, book_feeds, build_oracle}
use rome_solidity.Oracle.FeedLaws.{last_listed, listed, ArePlain, build_oracle-lookup}
use rome_solidity.Oracle.Versions.{
  is_current, major, retire, update_entry, find_entry, update_for_name, next_versions, max_major,
  new_version, managed, address_at,
}
use rome_solidity.Oracle.VersionLaws.{
  HasLiveAt, AreRetiredFrom, AtMostOneLive, MajorsBelow, update_entry_changed,
}
use rome_solidity.Oracle.Contracts.{entry_name, emitted_names, new_names, build_contracts, push_all}
use rome_solidity.Oracle.Addresses.{new_deployed, deployed_addresses}
use rome_solidity.Oracle.Emitted.{
  build_contracts-lists, build_contracts-idempotent, entry_named, Becomes,
  build_contracts-HasLiveAt, build_contracts-AtMostOneLive,
}

abbrev sol_feed : DeploymentsFeed
sol_feed = record { pair = "SOL/USD"; adapter = "0xA1"; pubkey = "So1"; pubkey_bytes32 = "0x1" }

abbrev sb_feed : DeploymentsFeed
sb_feed = record { pair = "SOL/USD"; adapter = "0xB1"; pubkey = "So2"; pubkey_bytes32 = "0x2" }

abbrev gateway : OracleGatewayV2
gateway = record {
  deployed_at = "now";
  default_max_staleness = whole 60;
  pyth_receiver_program_id = "P";
  switchboard_program_id = "S";
  pyth_pull_adapter_impl = "0x3";
  switchboard_v3_adapter_impl = "0x4";
  cached_pyth_adapter_impl = none;
  cached_feed_adapter_impl = none;
  oracle_adapter_factory = "0xF2";
  batch_reader = "0xB";
  feeds = record {
    pyth = sol_feed ∷ [];
    switchboard = sb_feed ∷ [];
    cached_pyth = none;
    cached_feed = none;
  };
}

abbrev deployments : DeploymentsFile
deployments = record { oracle_gateway_v2 = gateway; price_book = none }

abbrev old_factory : RegistryContractVersion
old_factory = record {
  address = "0xF1";
  version = "2.0.0";
  status = live;
  deployed_at = "then";
  source_git_sha = none;
  compiler_version = none;
  deprecated_at = none;
  replaced_by = none;
}

abbrev factory_entry : RegistryContractEntry
factory_entry = record { name = "OracleAdapterFactory"; versions = old_factory ∷ [] }

abbrev legacy : RegistryContractEntry
legacy = record { name = "Legacy"; versions = [] }

abbrev options : EmitOptions
options = record { source_git_sha = "abc"; compiler_version = "0.8.28"; deployed_at = "today" }

abbrev input : EmitInput
input = record {
  deployments = deployments;
  oracle = build_oracle deployments;
  contracts = legacy ∷ factory_entry ∷ [];
  options = options;
}

-- The names after the update: the old ones in their order, then the new ones
names_after :
    emitted_names gateway input.contracts
    ≡ "Legacy" ∷ "OracleAdapterFactory" ∷ "BatchReader" ∷ "PythPullAdapterImpl"
      ∷ "SwitchboardV3AdapterImpl" ∷ []
unfolding emitted_names new_names address_at
names_after = refl

not_current : is_current "0xF2" factory_entry.versions ≡ false
unfolding is_current eq_ignore_case to_lower
not_current = refl

third_version : major (new_version options "0xF2" "3.0.0") ≡ whole 3
unfolding major new_version parse_int before is_space
third_version = refl

plain_pair : is_plain "SOL/USD" ≡ true
unfolding every_char
plain_pair = refl

plain_lists : (t : FeedSource) → ArePlain (listed t deployments)
unfolding listed every_char book_feeds
plain_lists pyth = (refl, tt)
plain_lists switchboard = (refl, tt)
plain_lists cached_pyth = tt
plain_lists cached_feed = tt
plain_lists book = tt

build_oracle-lookup_example :
    lookup (join "SOL/USD" (suffix switchboard)) (build_oracle deployments).feeds
    ≡ last_listed "SOL/USD" (listed switchboard deployments)
build_oracle-lookup_example =
    build_oracle-lookup deployments switchboard "SOL/USD" plain_pair plain_lists

old_major : major old_factory ≡ whole 2
unfolding major parse_int before is_space
old_major = refl

one_major : MajorsBelow 9007199254740991 factory_entry.versions
one_major = (λ m h. whole-lt m (sym old_major ∙ h), tt)
  where
    whole-lt : (m : ℕ) → whole 2 ≡ whole m → m < 9007199254740991
    whole-lt m h = ground arith

update_entry_changed_example :
    (v : RegistryContractVersion) × (vs : List RegistryContractVersion) × ((update_entry options
        "OracleAdapterFactory" "0xF2"
        (some factory_entry)).versions
      ≡ v ∷ vs)
    × AreRetiredFrom options "0xF2" factory_entry.versions vs
    × (v.address ≡ "0xF2")
    × (v.status ≡ live)
    × ((n : ℕ) × (major v ≡ whole n)
        × (n ≤ 9007199254740991)
        × MajorsBelow n factory_entry.versions)
update_entry_changed_example =
    update_entry_changed options "0xF2" "OracleAdapterFactory" factory_entry not_current one_major

abbrev after : List RegistryContractEntry
after = or_else (build_contracts input) []

builds : build_contracts input ≡ some after
unfolding build_contracts push_all emitted_names new_names address_at update_for_name find_entry
    managed update_entry next_versions new_version retire max_major is_current eq_ignore_case
    to_lower
builds = refl

build_contracts-lists_example :
    (out : List RegistryContractEntry) × (build_contracts input ≡ some out)
    × (map entry_name out
        ≡ map entry_name input.contracts
          ++ new_deployed (map entry_name input.contracts) (deployed_addresses gateway))
    × ((n : String) → Becomes input out n)
build_contracts-lists_example = build_contracts-lists input

abbrev other_options : EmitOptions
other_options = record {
  source_git_sha = "def";
  compiler_version = "0.8.30";
  deployed_at = "tomorrow";
}

build_contracts-idempotent_example :
    build_contracts (record input { contracts = after; options = other_options }) ≡ some after
build_contracts-idempotent_example = build_contracts-idempotent input other_options after builds

build_contracts-HasLiveAt_example :
    (e : RegistryContractEntry) × (entry_named "OracleAdapterFactory" after ≡ some e)
    × HasLiveAt "0xF2" e.versions
build_contracts-HasLiveAt_example =
    build_contracts-HasLiveAt input after "OracleAdapterFactory" "0xF2" builds refl

build_contracts-AtMostOneLive_example : All (λ e. AtMostOneLive e.versions) after
build_contracts-AtMostOneLive_example =
    build_contracts-AtMostOneLive input after builds (omega arith, (omega arith, tt))
