-- ===== src/Provenance/Examples.antt =====
-- Tests of the build check, and the theorem at a concrete build.
use rome_solidity.Prelude.{
  String, ◌≡◌, refl, true, none, some, [], ◌∷◌, ◌==◌, string_eq, if◌then◌else◌, ok, err,
}
use rome_solidity.Prelude.Json.{Json, str, obj, bool, Fields, end, field, get_in, as_text}
use rome_solidity.Prelude.Text.{eq_ignore_case, to_lower, starts_with, every_char}
use rome_solidity.Provenance.{BuildProvenanceInput, Disk}
use rome_solidity.Provenance.Names.{
  npm_source, npm_named, is_plain_name, slice_from, break_at, is_line,
}
use rome_solidity.Provenance.Same.{same_json}
use rome_solidity.Provenance.Check.{
  check_build_provenance, sources_of, info_problems, settings_problems, sources_problems,
  source_problems, source_file, npm_file, place_problems, content_problems, compiled,
  bytecode_problems,
}
use Prim.Native.String.{◌++◌ as join}
use rome_solidity.Provenance.Sources.{
  Registry, patched, check_dependency_sources, loop_problems, want_sources, want_source, add_file,
  leaves_package, packages_problems, package_problems, tarball_problems, file_problems, read_info,
  locked_packages,
}
use rome_solidity.Provenance.SourceLaws.{SourcesAreLocked, check_dependency_sources-nil}
use rome_solidity.Prelude.Text.{split}
use rome_solidity.Provenance.Built.{IsBuilt, check_build_provenance-IsBuilt}

abbrev source : String → Json
source t = obj (field "content" (str t) end)

abbrev sources : Fields
sources =
    field "project/A.sol" (source "contract A {}")
      (field "npm/@oz/c@5.0.0/B.sol" (source "contract B {}") end)

abbrev settings : Fields
settings = field "viaIR" (bool true) end

abbrev build_info : Json
build_info = obj (
    field "solcVersion" (str "0.8.28") (
      field "input" (obj (field "settings" (obj settings) (field "sources" (obj sources) end)))
        end))

abbrev nest : String → Json → Json
nest k v = obj (field k v end)

abbrev build_output : Json
build_output = nest "output" (
    nest "contracts"
      (nest "project/A.sol" (nest "A" (nest "evm" (nest "bytecode" (nest "object" (str "60FF")))))))

abbrev disk : Disk
disk = record {
  resolve = λ a b. if b == "" then a else join (join a "/") b;
  join_path = λ a b. join (join a "/") b;
  read_json = λ f.
      if f == "/a/build-info/b1.json"
      then some build_info
      else if f == "/a/build-info/b1.output.json"
      then some build_output
      else if f == "/r/node_modules/@oz/c/package.json"
      then some (nest "version" (str "5.0.0"))
      else none;
  exists_sync = λ f. true;
  read_file = λ f.
      if f == "/r/A.sol"
      then ok "contract A {}"
      else if f == "/r/node_modules/@oz/c/B.sol"
      then ok "contract B {}"
      else err "ENOENT";
}

abbrev input : BuildProvenanceInput
input = record {
  root = "/r";
  artifacts_dir = "/a";
  build_info_id = "b1";
  input_source_name = "project/A.sol";
  contract_name = "A";
  artifact_bytecode = "0x60ff";
  expected_solc_version = "0.8.28";
  expected_settings = settings;
}

scoped :
    npm_source "npm/@oz/c@5.0.0/x/B.sol"
    ≡ some (record { pkg = "@oz/c"; version = "5.0.0"; file = "x/B.sol" })
unfolding npm_source npm_named slice_from break_at is_line every_char starts_with
scoped = refl

no_version : npm_source "npm/c/B.sol" ≡ none
unfolding npm_source npm_named slice_from break_at is_line every_char starts_with
no_version = refl

clean_build :
    check_build_provenance disk input
    ≡ ok (record { problems = []; build_info_id = "b1"; solc_version = some (str "0.8.28") })
unfolding check_build_provenance sources_of info_problems settings_problems sources_problems
    source_problems source_file npm_file place_problems content_problems compiled bytecode_problems
    is_plain_name npm_source npm_named slice_from break_at is_line every_char starts_with same_json
    get_in as_text eq_ignore_case to_lower
clean_build = refl

check_build_provenance-IsBuilt_example : IsBuilt disk input
check_build_provenance-IsBuilt_example =
    check_build_provenance-IsBuilt disk input
      (record { problems = []; build_info_id = "b1"; solc_version = some (str "0.8.28") })
      clean_build refl

abbrev lock_entry : Json
lock_entry = obj (
    field "version" (str "5.0.0") (
      field "resolved" (str "https://registry.npmjs.org/@oz/c/-/c-5.0.0.tgz")
        (field "integrity" (str "sha512-h1") end)))

abbrev registry_with : String → Registry String
registry_with text = record {
  read_json = λ f.
      if f == "/a/build-info/b1.json"
      then some build_info
      else if f == "/r/package-lock.json"
      then some (nest "packages" (nest "node_modules/@oz/c" lock_entry))
      else none;
  join_path = λ a b. join (join a "/") b;
  fetch_tarball = λ url. ok "tgz";
  sha512 = λ t. "h1";
  unpack = λ t. ok (λ f. if f == "B.sol" then some text else none);
}

locked_build : check_dependency_sources (registry_with "contract B {}") "/r" "/a" "b1" ≡ []
unfolding check_dependency_sources loop_problems want_sources want_source add_file leaves_package
    packages_problems package_problems tarball_problems file_problems sources_of is_plain_name
    npm_source npm_named slice_from break_at is_line every_char starts_with split get_in as_text
locked_build = refl

patched_build :
    check_dependency_sources (registry_with "contract C {}") "/r" "/a" "b1"
    ≡ patched "npm/@oz/c@5.0.0/B.sol" "@oz/c@5.0.0" ∷ []
unfolding check_dependency_sources loop_problems want_sources want_source add_file leaves_package
    packages_problems package_problems tarball_problems file_problems sources_of is_plain_name
    npm_source npm_named slice_from break_at is_line every_char starts_with split get_in as_text
patched_build = refl

check_dependency_sources-nil_example :
    (is_plain_name "b1" ≡ true)
    × ((found : Fields) × (sources_of (read_info (registry_with "contract B {}") "/a" "b1")
          ≡ some found)
        × SourcesAreLocked
            (registry_with "contract B {}")
            (locked_packages (registry_with "contract B {}") "/r")
            found)
check_dependency_sources-nil_example =
    check_dependency_sources-nil (registry_with "contract B {}") "/r" "/a" "b1" locked_build
