-- ===== src/Provenance/CheckLaws.antt =====
-- When the check of the build finds no problem.
use Prim.Native.String.{◌++◌ as join}
use rome_solidity.Prelude.{
  String, ◌≡◌, ◌≢◌, ◌↔◌, inl, inr, refl, ap, ◌∙◌, Bool, true, false, not, Option, none, some,
  is_some, List, [], ◌∷◌, ◌++◌, string_eq, Result, Result-cases, Option-cases, Bool-cases, ok, err,
  ◌>>=◌, >>=-eq-ok, arith,
}
use rome_solidity.Prelude.Json.{Json, Fields, end, field, get, get_in}
use rome_solidity.Prelude.Text.{eq_ignore_case, starts_with}
use rome_solidity.Provenance.{
  BuildProvenanceInput, BuildProblem, other_solc, no_input_source, differs, other_bytecode,
  BuildProvenance, Disk,
}
use rome_solidity.Provenance.Names.{is_plain_name}
use rome_solidity.Provenance.Check.{
  problem_if, is_text_of, sources_of, is_skipped, same_setting, settings_problems, source_file,
  place_problems, content_problems, source_problems, sources_problems, info_file, compiled,
  bytecode_problems, info_problems, check_build_provenance,
}

-- Every expected setting that is compared is the one of the build.
abbrev pub SettingsMatch : Option Json → Fields → Type 0
SettingsMatch settings end = Unit
SettingsMatch settings (field key want fs) =
    (is_skipped key ≡ false → same_setting (get_in key settings) want ≡ true)
    × SettingsMatch settings fs

settings_problems-nil_iff :
    (settings : Option Json) (fs : Fields)
    → (settings_problems settings fs ≡ []) ↔ SettingsMatch settings fs
unfolding settings_problems
settings_problems-nil_iff settings end = ground arith
settings_problems-nil_iff settings (field key want fs) =
    ground (arith, settings_problems-nil_iff settings fs)

append-nil_iff : (xs ys : List BuildProblem) → (xs ++ ys ≡ []) ↔ ((xs ≡ []) × (ys ≡ []))
append-nil_iff [] ys = ground arith
append-nil_iff (x ∷ xs) ys = ground arith

problem_if-nil_iff : (b : Bool) (p : BuildProblem) → (problem_if (not b) p ≡ []) ↔ (b ≡ true)
problem_if-nil_iff b p = ground arith

tested_iff :
    (r : Result String String) (f : String → Bool) (p : BuildProblem)
    → ((r >>= λ text. ok (problem_if (not (f text)) p)) ≡ ok [])
      ↔ ((text : String) × (r ≡ ok text) × (f text ≡ true))
tested_iff (err e) f p = (λ h. cc, λ h. ground arith)
tested_iff (ok t) f p =
    let one : (problem_if (not (f t)) p ≡ []) ↔ (f t ≡ true) = problem_if-nil_iff (f t) p in
    (λ h. (t, refl, one.0 (ground arith)), λ (u, is, h). ground arith)

both_iff :
    (a b : Result String (List BuildProblem))
    → ((a >>= λ xs. b >>= λ ys. ok (xs ++ ys)) ≡ ok []) ↔ ((a ≡ ok []) × (b ≡ ok []))
both_iff (err e) b = (λ h. cc, λ h. ground arith)
both_iff (ok xs) (err e) = (λ h. cc, λ h. ground arith)
both_iff (ok xs) (ok ys) = ground (arith, append-nil_iff xs ys)

ok-inj : {A : Type 0} {a b : A} → ◌≡◌ {A = Result String A} (ok a) (ok b) → a ≡ b
ok-inj h = cc

refused :
    (p : BuildProvenance) {x : BuildProblem} {solc : Option Json} {id : String}
    → record { problems = x ∷ []; build_info_id = id; solc_version = solc } ≡ p
    → p.problems ≢ []
refused p h clean = ground arith

module _ (disk : Disk) where
  -- A source that is inside the root, on disk, and reads as the compiler saw it
  abbrev pub SourceMatches : String → String → Json → Type 0
  SourceMatches root name src =
      (file : String) × (source_file disk root name ≡ ok (some file))
      × (starts_with file (join root "/") ≡ true)
      × (disk.exists_sync file ≡ true)
      × ((text : String) × (disk.read_file file ≡ ok text)
          × (is_text_of (get_in "content" (some src)) text ≡ true))

  abbrev pub SourcesMatch : String → Fields → Type 0
  SourcesMatch root end = Unit
  SourcesMatch root (field name src fs) = SourceMatches root name src × SourcesMatch root fs

  content_problems-nil_iff :
      (name file : String) (src : Json)
      → (content_problems disk name src file ≡ ok []) ↔ (
          (text : String) × (disk.read_file file ≡ ok text)
          × (is_text_of (get_in "content" (some src)) text ≡ true))
  unfolding content_problems
  content_problems-nil_iff name file src =
      tested_iff (disk.read_file file) (is_text_of (get_in "content" (some src))) (differs name)

  place_problems-nil_iff :
      (root name file : String) (src : Json)
      → (place_problems disk root name src (some file) ≡ ok []) ↔ (
          (starts_with file (join root "/") ≡ true)
          × (disk.exists_sync file ≡ true)
          × ((text : String) × (disk.read_file file ≡ ok text)
              × (is_text_of (get_in "content" (some src)) text ≡ true)))
  unfolding place_problems
  place_problems-nil_iff root name file src = ground (arith, content_problems-nil_iff name file src)

  source_problems-nil_iff :
      (root name : String) (src : Json)
      → (source_problems disk root name src ≡ ok []) ↔ SourceMatches root name src
  unfolding place_problems source_problems
  source_problems-nil_iff root name src = elim (Result-cases (source_file disk root name)) [
    | inr (e, thrown) ↦ rw (source_problems, thrown) (λ h. ground arith, λ h. ground arith)
    | inl (none, nowhere) ↦ rw (source_problems, nowhere) (λ h. ground arith, λ h. ground arith)
    | inl (some file, at) ↦
        rw (source_problems, at) (ground (arith, place_problems-nil_iff root name file src))
  ]

  sources_problems-nil_iff :
      (root : String) (fs : Fields) → (sources_problems disk root fs ≡ ok []) ↔ SourcesMatch root fs
  unfolding sources_problems
  sources_problems-nil_iff root end = ground arith
  sources_problems-nil_iff root (field name src fs) = ground (
    arith,
    both_iff (source_problems disk root name src) (sources_problems disk root fs),
    source_problems-nil_iff root name src,
    sources_problems-nil_iff root fs,
  )

  module _ (i : BuildProvenanceInput) where
    abbrev info : Option Json
    info = disk.read_json (info_file disk i ".json")

    -- The sources of the build-info are on disk as the compiler saw them, its compiler and settings are the
    -- build profile's, and the artifact's bytecode is its output.
    pub record IsBuiltFromDisk : Type 0 where
      pub named : is_plain_name i.build_info_id ≡ true
      pub sources : Fields
      pub readable : sources_of info ≡ some sources
      pub solc : is_text_of (get_in "solcVersion" info) i.expected_solc_version ≡ true
      pub settings : SettingsMatch (get_in "settings" (get_in "input" info)) i.expected_settings
      pub on_disk : SourcesMatch (disk.resolve i.root "") sources
      pub has_input : is_some (get i.input_source_name sources) ≡ true
      pub code : String
      pub output : compiled disk i ≡ some code
      pub bytecode : eq_ignore_case (join "0x" code) i.artifact_bytecode ≡ true

    bytecode_problems-nil_iff :
        (o : Option String)
        → (bytecode_problems disk i o ≡ []) ↔ (
            (code : String) × (o ≡ some code)
            × (eq_ignore_case (join "0x" code) i.artifact_bytecode ≡ true))
    unfolding bytecode_problems
    bytecode_problems-nil_iff none = (λ h. cc, λ h. ground arith)
    bytecode_problems-nil_iff (some code) =
        let one =
          problem_if-nil_iff (eq_ignore_case (join "0x" code) i.artifact_bytecode) other_bytecode in
        (λ h. (code, refl, one.0 h), λ (c, is, h). ground arith)

    info_problems-nil :
        (about : Option Json) (sources : Fields)
        → info_problems disk i about sources ≡ ok []
        → (is_text_of (get_in "solcVersion" about) i.expected_solc_version ≡ true)
          × SettingsMatch (get_in "settings" (get_in "input" about)) i.expected_settings
          × SourcesMatch (disk.resolve i.root "") sources
          × (is_some (get i.input_source_name sources) ≡ true)
          × ((code : String) × (compiled disk i ≡ some code)
              × (eq_ignore_case (join "0x" code) i.artifact_bytecode ≡ true))
    unfolding info_problems
    info_problems-nil about sources h =
        let solc = get_in "solcVersion" about in
        let settings = get_in "settings" (get_in "input" about) in
        let (wrong, read, all) =
          >>=-eq-ok (sources_problems disk (disk.resolve i.root "") sources) _ h in
        let (s, rest₁) = (append-nil_iff _ _).0 (ok-inj all) in
        let (t, rest₂) = (append-nil_iff _ _).0 rest₁ in
        let (w, rest₃) = (append-nil_iff _ _).0 rest₂ in
        let (n, b) = (append-nil_iff _ _).0 rest₃ in
        (
          (problem_if-nil_iff _ (other_solc solc i.expected_solc_version)).0 s,
          (settings_problems-nil_iff settings i.expected_settings).0 t,
          (sources_problems-nil_iff (disk.resolve i.root "") sources).0 (read ∙ ap ok w),
          (problem_if-nil_iff _ (no_input_source i.input_source_name)).0 n,
          (bytecode_problems-nil_iff (compiled disk i)).0 b,
        )

    -- A check that finds no problem has seen that the artifact is built from what is on disk.
    pub check_build_provenance-IsBuiltFromDisk :
        (p : BuildProvenance)
        → check_build_provenance disk i ≡ ok p
        → p.problems ≡ []
        → IsBuiltFromDisk
    unfolding check_build_provenance
    check_build_provenance-IsBuiltFromDisk p h clean =
        elim (Bool-cases (is_plain_name i.build_info_id)) [
          | inr odd ↦ absurd (refused p (ok-inj (rw (check_build_provenance, odd) at h)) clean)
          | inl plain ↦ elim (Option-cases (sources_of info)) [
            | inl none_read ↦
                absurd
                  (refused p (ok-inj (rw (check_build_provenance, plain, none_read) at h)) clean)
            | inr (sources, read) ↦
                let (found, all, made) =
                  >>=-eq-ok (info_problems disk i info sources) _
                    (rw (check_build_provenance, plain, read) at h) in
                let (s, t, w, n, (code, c, b)) =
                  info_problems-nil info sources (
                    all ∙ ap ok (ap (λ (q : BuildProvenance). q.problems) (ok-inj made) ∙ clean)) in
                record {
                  named = plain;
                  sources = sources;
                  readable = read;
                  solc = s;
                  settings = t;
                  on_disk = w;
                  has_input = n;
                  code = code;
                  output = c;
                  bytecode = b;
                }
          ]
        ]

    info_problems-of_built : (b : IsBuiltFromDisk) → info_problems disk i info b.sources ≡ ok []
    unfolding info_problems
    info_problems-of_built b =
        let settings = get_in "settings" (get_in "input" info) in
        let places = (sources_problems-nil_iff (disk.resolve i.root "") b.sources).1 b.on_disk in
        let kept = (settings_problems-nil_iff settings i.expected_settings).1 b.settings in
        let code = (bytecode_problems-nil_iff (compiled disk i)).1 (b.code, b.output, b.bytecode) in
        rw (info_problems, places, kept, code, b.solc, b.has_input) refl

    -- The check of the build returns without a problem exactly when the build-info is readable under a plain
    -- name, its compiler, compared settings and sources are the build profile's and the disk's, inside the
    -- root, and the artifact's bytecode is its output.
    pub check_build_provenance-clean_iff :
        ((p : BuildProvenance) × (check_build_provenance disk i ≡ ok p) × (p.problems ≡ []))
        ↔ IsBuiltFromDisk
    unfolding check_build_provenance
    check_build_provenance-clean_iff = (
      λ (p, h, clean). check_build_provenance-IsBuiltFromDisk p h clean,
      λ b.
          let clean = info_problems-of_built b in
          (
            record {
              problems = [];
              build_info_id = i.build_info_id;
              solc_version = get_in "solcVersion" info;
            },
            rw (check_build_provenance, b.named, b.readable, clean) refl,
            refl,
          ),
    )
