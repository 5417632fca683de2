-- ===== src/Provenance/Check.antt =====
-- scripts/bridge/lib/build-provenance.ts: `checkBuildProvenance`. `sources` is an object, as the cast
-- there says; any other value of it counts as unreadable. A read of a source file may throw.
use Prim.Native.String.{◌++◌ as join}
use rome_solidity.Prelude.{
  String, Bool, true, false, not, ◌||◌, Option, none, some, is_some, List, [], ◌∷◌, ◌++◌, ◌==◌,
  string_eq, if◌then◌else◌, Result, ok, err, ◌>>=◌,
}
use rome_solidity.Prelude.Json.{Json, obj, Fields, end, field, get, get_in, as_text}
use rome_solidity.Prelude.Text.{eq_ignore_case, starts_with}
use rome_solidity.Provenance.{
  BuildProvenanceInput, BuildProblem, not_plain_name, no_build_info, other_solc, other_setting,
  other_package, unknown_source, not_on_disk, differs, no_input_source, no_bytecode, other_bytecode,
  BuildProvenance, Disk,
}
use rome_solidity.Provenance.Names.{NpmSource, npm_source, is_plain_name, slice_from}
use rome_solidity.Provenance.Same.{same_json}

-- `if (b) problems.push(p)`
abbrev pub problem_if : Bool → BuildProblem → List BuildProblem
problem_if true p = p ∷ []
problem_if false p = []

abbrev pub is_text_of : Option Json → String → Bool
is_text_of v t = elim (as_text v) [ none ↦ false | some s ↦ s == t ]

-- `info?.input?.sources`
unfoldable pub sources_of : Option Json → Option Fields
sources_of info = elim (get_in "sources" (get_in "input" info)) [
  | some v ↦ fields_of v
  | none ↦ none
]
  where
    fields_of : Json → Option Fields
    fields_of (obj fs) = some fs
    fields_of _ = none

-- The two settings that are not compared
abbrev pub is_skipped : String → Bool
is_skipped key = key == "outputSelection" || key == "remappings"

abbrev pub same_setting : Option Json → Json → Bool
same_setting none want = false
same_setting (some has) want = same_json has (some want)

-- The loop over the expected settings
unfoldable pub settings_problems : Option Json → Fields → List BuildProblem
settings_problems settings end = []
settings_problems settings (field key want fs) =
    let rest = settings_problems settings fs in
    if is_skipped key || same_setting (get_in key settings) want
    then rest
    else other_setting key ∷ rest

module _ (disk : Disk) where
  -- Where a source is on disk, or the problem with its package
  unfoldable pub npm_file : String → String → Option NpmSource → Result BuildProblem (Option String)
  npm_file root name none = ok none
  npm_file root name (some m) =
      let dir = disk.resolve (disk.resolve root "node_modules") m.pkg in
      let version = get_in "version" (disk.read_json (disk.join_path dir "package.json")) in
      if is_text_of version m.version
      then ok (some (disk.resolve dir m.file))
      else err (other_package name m.pkg m.version version)

  unfoldable pub source_file : String → String → Result BuildProblem (Option String)
  unfolding npm_file npm_source
  source_file root name =
      if starts_with name "project/"
      then ok (some (disk.resolve root (slice_from 8 name)))
      else npm_file root name (npm_source name)

  -- `src.content` against the file
  unfoldable pub content_problems : String → Json → String → Result String (List BuildProblem)
  content_problems name src file = do
    text ← disk.read_file file
    ok (problem_if (not (is_text_of (get_in "content" (some src)) text)) (differs name))

  -- What the tests on the place of a source give
  unfoldable pub place_problems :
      String → String → Json → Option String → Result String (List BuildProblem)
  unfolding content_problems
  place_problems root name src none = ok (unknown_source name ∷ [])
  place_problems root name src (some file) =
      if not (starts_with file (join root "/"))
      then ok (unknown_source name ∷ [])
      else if not (disk.exists_sync file)
      then ok (not_on_disk name ∷ [])
      else content_problems name src file

  unfoldable pub source_problems : String → String → Json → Result String (List BuildProblem)
  unfolding source_file place_problems
  source_problems root name src = elim (source_file root name) [
    | err p ↦ ok (p ∷ [])
    | ok file ↦ place_problems root name src file
  ]

  -- The loop over the sources
  unfoldable pub sources_problems : String → Fields → Result String (List BuildProblem)
  unfolding source_problems
  sources_problems root end = ok []
  sources_problems root (field name src fs) = do
    here ← source_problems root name src
    rest ← sources_problems root fs
    ok (here ++ rest)

  module _ (i : BuildProvenanceInput) where
    abbrev pub info_file : String → String
    info_file ending =
        disk.join_path (disk.join_path i.artifacts_dir "build-info") (join i.build_info_id ending)

    -- The creation bytecode in the compiler's output
    unfoldable pub compiled : Option String
    compiled =
        let contracts =
          get_in "contracts" (get_in "output" (disk.read_json (info_file ".output.json"))) in
        let contract = get_in i.contract_name (get_in i.input_source_name contracts) in
        as_text (get_in "object" (get_in "bytecode" (get_in "evm" contract)))

    unfoldable pub bytecode_problems : Option String → List BuildProblem
    bytecode_problems none = no_bytecode i.contract_name ∷ []
    bytecode_problems (some code) =
        problem_if (not (eq_ignore_case (join "0x" code) i.artifact_bytecode)) other_bytecode

    unfoldable pub info_problems : Option Json → Fields → Result String (List BuildProblem)
    unfolding settings_problems sources_problems compiled bytecode_problems
    info_problems info sources = do
      let solc = get_in "solcVersion" info
      let settings = get_in "settings" (get_in "input" info)
      wrong ← sources_problems (disk.resolve i.root "") sources
      ok (
          problem_if (not (is_text_of solc i.expected_solc_version))
            (other_solc solc i.expected_solc_version)
          ++ (settings_problems settings i.expected_settings
              ++ (wrong
                  ++ (problem_if (not (is_some (get i.input_source_name sources)))
                        (no_input_source i.input_source_name)
                      ++ bytecode_problems compiled))))

    abbrev result : Option Json → List BuildProblem → BuildProvenance
    result solc problems = record {
      problems = problems;
      build_info_id = i.build_info_id;
      solc_version = solc;
    }

    unfoldable pub check_build_provenance : Result String BuildProvenance
    unfolding sources_of info_problems is_plain_name
    check_build_provenance =
        let info = disk.read_json (info_file ".json") in
        if not (is_plain_name i.build_info_id)
        then ok (result none (not_plain_name i.build_info_id ∷ []))
        else elim (sources_of info) [
          | none ↦ ok (result none (no_build_info i.build_info_id ∷ []))
          | some sources ↦ info_problems info sources >>= λ problems.
              ok (result (get_in "solcVersion" info) problems)
        ]

-- `problems.length === 0`
abbrev pub is_ok : BuildProvenance → Bool
is_ok p = elim p.problems [ [] ↦ true | x ∷ xs ↦ false ]
