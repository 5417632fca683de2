-- ===== src/Provenance/Built.antt =====
-- What a clean check of the build says of the build-info, the disk and the artifact themselves.
use Prim.Native.String.{◌++◌ as join}
use rome_solidity.Prelude.{
  ℕ, String, ◌≡◌, ◌≢◌, ◌⊎◌, inl, inr, refl, sym, ap, ◌∙◌, Bool, true, false, ◌&&◌, Option, none,
  some, is_some, [], ◌==◌, string_eq, nat_eq, eq_iff, Result, ok, err, Bool-cases, Option-cases,
  arith,
}
use rome_solidity.Prelude.Number.{whole, negative, not_whole}
use rome_solidity.Prelude.Json.{
  Json, null, bool, num, str, arr, obj, Items, nil, cons, Fields, end, field, get, get_in, as_text,
}
use rome_solidity.Prelude.Text.{eq_ignore_case, to_lower, starts_with}
use rome_solidity.Provenance.{BuildProvenanceInput, BuildProvenance, BuildProblem, Disk}
use rome_solidity.Provenance.Names.{NpmSource, npm_source, slice_from}
use rome_solidity.Provenance.Same.{count_keys, same_json, same_items, same_fields}
use rome_solidity.Provenance.Check.{
  is_text_of, same_setting, npm_file, source_file, compiled, sources_of, check_build_provenance,
}
use rome_solidity.Provenance.CheckLaws.{
  SettingsMatch, SourcesMatch, IsBuiltFromDisk, check_build_provenance-clean_iff,
}

-- Two JSON values that are the same but for the order of the keys of their objects; a number that is not
-- whole is the same as none.
mutual
  pub IsSame : Json → Json → Type 0
  IsSame null b = b ≡ null
  IsSame (bool x) b = b ≡ bool x
  IsSame (num not_whole) b = ⊥
  IsSame (num (whole n)) b = b ≡ num (whole n)
  IsSame (num (negative n)) b = b ≡ num (negative n)
  IsSame (str t) b = b ≡ str t
  IsSame (arr xs) b = (ys : Items) × (b ≡ arr ys) × AreSame xs ys
  IsSame (obj fs) b =
      (gs : Fields) × (b ≡ obj gs) × (count_keys fs ≡ count_keys gs) × HaveSame fs gs

  AreSame : Items → Items → Type 0
  AreSame nil ys = ys ≡ nil
  AreSame (cons x xs) ys = (y : Json) × (zs : Items) × (ys ≡ cons y zs) × IsSame x y × AreSame xs zs

  HaveSame : Fields → Fields → Type 0
  HaveSame end gs = Unit
  HaveSame (field k v fs) gs = ((w : Json) × (get k gs ≡ some w) × IsSame v w) × HaveSame fs gs

first : (a b : Bool) → (a && b) ≡ true → a ≡ true
first true b h = refl
first false b h = cc

second : (a b : Bool) → (a && b) ≡ true → b ≡ true
second true b h = h
second false b h = cc

same_nat : (a b : ℕ) → (a == b) ≡ true → a ≡ b
same_nat a b h = ground arith

same_json-none : (v : Json) → same_json v none ≢ true
unfolding same_json
same_json-none null h = cc
same_json-none (bool true) h = cc
same_json-none (bool false) h = cc
same_json-none (num (whole n)) h = cc
same_json-none (num (negative n)) h = cc
same_json-none (num not_whole) h = cc
same_json-none (str t) h = cc
same_json-none (arr xs) h = cc
same_json-none (obj fs) h = cc

mutual
  unfolding same_json same_items same_fields IsSame AreSame HaveSame

  same_json-IsSame : (a b : Json) → same_json a (some b) ≡ true → IsSame a b
  same_json-IsSame null null h = refl
  same_json-IsSame null (bool true) h = cc
  same_json-IsSame null (bool false) h = cc
  same_json-IsSame null (num (whole m)) h = cc
  same_json-IsSame null (num (negative m)) h = cc
  same_json-IsSame null (num not_whole) h = cc
  same_json-IsSame null (str t) h = cc
  same_json-IsSame null (arr ys) h = cc
  same_json-IsSame null (obj gs) h = cc
  same_json-IsSame (bool true) null h = cc
  same_json-IsSame (bool true) (bool true) h = refl
  same_json-IsSame (bool true) (bool false) h = cc
  same_json-IsSame (bool true) (num (whole m)) h = cc
  same_json-IsSame (bool true) (num (negative m)) h = cc
  same_json-IsSame (bool true) (num not_whole) h = cc
  same_json-IsSame (bool true) (str t) h = cc
  same_json-IsSame (bool true) (arr ys) h = cc
  same_json-IsSame (bool true) (obj gs) h = cc
  same_json-IsSame (bool false) null h = cc
  same_json-IsSame (bool false) (bool true) h = cc
  same_json-IsSame (bool false) (bool false) h = refl
  same_json-IsSame (bool false) (num (whole m)) h = cc
  same_json-IsSame (bool false) (num (negative m)) h = cc
  same_json-IsSame (bool false) (num not_whole) h = cc
  same_json-IsSame (bool false) (str t) h = cc
  same_json-IsSame (bool false) (arr ys) h = cc
  same_json-IsSame (bool false) (obj gs) h = cc
  same_json-IsSame (num (whole n)) null h = cc
  same_json-IsSame (num (whole n)) (bool true) h = cc
  same_json-IsSame (num (whole n)) (bool false) h = cc
  same_json-IsSame (num (whole n)) (num (whole m)) h = ap (λ k. num (whole k)) (ground arith)
  same_json-IsSame (num (whole n)) (num (negative m)) h = cc
  same_json-IsSame (num (whole n)) (num not_whole) h = cc
  same_json-IsSame (num (whole n)) (str t) h = cc
  same_json-IsSame (num (whole n)) (arr ys) h = cc
  same_json-IsSame (num (whole n)) (obj gs) h = cc
  same_json-IsSame (num (negative n)) null h = cc
  same_json-IsSame (num (negative n)) (bool true) h = cc
  same_json-IsSame (num (negative n)) (bool false) h = cc
  same_json-IsSame (num (negative n)) (num (whole m)) h = cc
  same_json-IsSame (num (negative n)) (num (negative m)) h =
      ap (λ k. num (negative k)) (ground arith)
  same_json-IsSame (num (negative n)) (num not_whole) h = cc
  same_json-IsSame (num (negative n)) (str t) h = cc
  same_json-IsSame (num (negative n)) (arr ys) h = cc
  same_json-IsSame (num (negative n)) (obj gs) h = cc
  same_json-IsSame (num not_whole) null h = cc
  same_json-IsSame (num not_whole) (bool true) h = cc
  same_json-IsSame (num not_whole) (bool false) h = cc
  same_json-IsSame (num not_whole) (num (whole m)) h = cc
  same_json-IsSame (num not_whole) (num (negative m)) h = cc
  same_json-IsSame (num not_whole) (num not_whole) h = cc
  same_json-IsSame (num not_whole) (str t) h = cc
  same_json-IsSame (num not_whole) (arr ys) h = cc
  same_json-IsSame (num not_whole) (obj gs) h = cc
  same_json-IsSame (str s) null h = cc
  same_json-IsSame (str s) (bool true) h = cc
  same_json-IsSame (str s) (bool false) h = cc
  same_json-IsSame (str s) (num (whole m)) h = cc
  same_json-IsSame (str s) (num (negative m)) h = cc
  same_json-IsSame (str s) (num not_whole) h = cc
  same_json-IsSame (str s) (str t) h = ap str (sym ((eq_iff s t).0 h))
  same_json-IsSame (str s) (arr ys) h = cc
  same_json-IsSame (str s) (obj gs) h = cc
  same_json-IsSame (arr xs) null h = cc
  same_json-IsSame (arr xs) (bool true) h = cc
  same_json-IsSame (arr xs) (bool false) h = cc
  same_json-IsSame (arr xs) (num (whole m)) h = cc
  same_json-IsSame (arr xs) (num (negative m)) h = cc
  same_json-IsSame (arr xs) (num not_whole) h = cc
  same_json-IsSame (arr xs) (str t) h = cc
  same_json-IsSame (arr xs) (arr ys) h = (ys, refl, same_items-AreSame xs ys h)
  same_json-IsSame (arr xs) (obj gs) h = cc
  same_json-IsSame (obj fs) null h = cc
  same_json-IsSame (obj fs) (bool true) h = cc
  same_json-IsSame (obj fs) (bool false) h = cc
  same_json-IsSame (obj fs) (num (whole m)) h = cc
  same_json-IsSame (obj fs) (num (negative m)) h = cc
  same_json-IsSame (obj fs) (num not_whole) h = cc
  same_json-IsSame (obj fs) (str t) h = cc
  same_json-IsSame (obj fs) (arr ys) h = cc
  same_json-IsSame (obj fs) (obj gs) h = (
    gs,
    refl,
    same_nat (count_keys fs) (count_keys gs)
        (first (count_keys fs == count_keys gs) (same_fields fs gs) h),
    same_fields-HaveSame fs gs (second (count_keys fs == count_keys gs) (same_fields fs gs) h),
  )

  same_items-AreSame : (xs ys : Items) → same_items xs ys ≡ true → AreSame xs ys
  same_items-AreSame nil nil h = refl
  same_items-AreSame nil (cons y ys) h = cc
  same_items-AreSame (cons x xs) nil h = cc
  same_items-AreSame (cons x xs) (cons y ys) h = (
    y,
    ys,
    refl,
    same_json-IsSame x y (first (same_json x (some y)) (same_items xs ys) h),
    same_items-AreSame xs ys (second (same_json x (some y)) (same_items xs ys) h),
  )

  same_fields-HaveSame : (fs gs : Fields) → same_fields fs gs ≡ true → HaveSame fs gs
  same_fields-HaveSame end gs h = tt
  same_fields-HaveSame (field k v fs) gs h = (
    elim (Option-cases (get k gs)) [
      | inl absent ↦ absurd (
          same_json-none v
            (ap (same_json v) (sym absent) ∙ first (same_json v (get k gs)) (same_fields fs gs) h))
      | inr (w, is) ↦ (
        w,
        is,
        same_json-IsSame v w
            (ap (same_json v) (sym is) ∙ first (same_json v (get k gs)) (same_fields fs gs) h),
      )
    ],
    same_fields-HaveSame fs gs (second (same_json v (get k gs)) (same_fields fs gs) h),
  )

is_text_of-eq_true : (v : Option Json) (t : String) → is_text_of v t ≡ true → as_text v ≡ some t
is_text_of-eq_true v t h = elim (Option-cases (as_text v)) [
  | inl absent ↦ ground arith
  | inr (s, is) ↦ is ∙ ap some (ground (arith, eq_iff s t))
]

-- Every expected setting but two is in the build's settings, the same but for the order of keys.
abbrev pub AreKept : Option Json → Fields → Type 0
AreKept settings end = Unit
AreKept settings (field key want fs) =
    ((key ≡ "outputSelection")
      ⊎ (key ≡ "remappings")
      ⊎ ((has : Json) × (get_in key settings ≡ some has) × IsSame has want))
    × AreKept settings fs

SettingsMatch-AreKept :
    (settings : Option Json) (fs : Fields) → SettingsMatch settings fs → AreKept settings fs
SettingsMatch-AreKept settings end h = tt
SettingsMatch-AreKept settings (field key want fs) (here, rest) = (
  elim (Bool-cases (key == "outputSelection")) [
    | inl out ↦ inl ((eq_iff key "outputSelection").0 out)
    | inr more ↦ elim (Bool-cases (key == "remappings")) [
      | inl re ↦ inr (inl ((eq_iff key "remappings").0 re))
      | inr neither ↦ inr (inr (at_setting (get_in key settings) (here (ground arith))))
    ]
  ],
  SettingsMatch-AreKept settings fs rest,
)
  where
    at_setting :
        (o : Option Json)
        → same_setting o want ≡ true
        → (has : Json) × (o ≡ some has) × IsSame has want
    at_setting none h = cc
    at_setting (some has) h = (has, refl, same_json-IsSame has want h)

is_some-some : (o : Option Json) → is_some o ≡ true → (v : Json) × (o ≡ some v)
is_some-some none h = cc
is_some-some (some v) h = (v, refl)

sources_of-eq_some :
    (info : Option Json) (fs : Fields)
    → sources_of info ≡ some fs
    → get_in "sources" (get_in "input" info) ≡ some (obj fs)
unfolding sources_of
sources_of-eq_some info fs h = at_sources (get_in "sources" (get_in "input" info)) refl
  where
    none-some : {gs : Fields} → none ≢ some gs
    none-some e = cc

    some-inj : {gs hs : Fields} → some gs ≡ some hs → gs ≡ hs
    some-inj e = cc

    at_sources :
        (o : Option Json)
        → get_in "sources" (get_in "input" info) ≡ o
        → get_in "sources" (get_in "input" info) ≡ some (obj fs)
    at_sources none is = absurd (none-some (rw (sources_of, is) at h))
    at_sources (some null) is = absurd (none-some (rw (sources_of, is) at h))
    at_sources (some (bool b)) is = absurd (none-some (rw (sources_of, is) at h))
    at_sources (some (num n)) is = absurd (none-some (rw (sources_of, is) at h))
    at_sources (some (str t)) is = absurd (none-some (rw (sources_of, is) at h))
    at_sources (some (arr xs)) is = absurd (none-some (rw (sources_of, is) at h))
    at_sources (some (obj gs)) is =
        is ∙ ap (λ k. some (obj k)) (some-inj (rw (sources_of, is) at h))

module _ (disk : Disk) where
  -- The file of a source: under the root, or in the package of the version that its name has
  abbrev pub IsFileOf : String → String → String → Type 0
  IsFileOf root name file =
      ((starts_with name "project/" ≡ true) × (file ≡ disk.resolve root (slice_from 8 name)))
      ⊎ ((m : NpmSource) × (npm_source name ≡ some m)
          × (as_text (
                get_in "version" (
                  disk.read_json (
                    disk.join_path (disk.resolve (disk.resolve root "node_modules") m.pkg)
                      "package.json")))
              ≡ some m.version)
          × (file ≡ disk.resolve (disk.resolve (disk.resolve root "node_modules") m.pkg) m.file))

  abbrev pub IsOnDisk : String → String → Json → Type 0
  IsOnDisk root name src =
      (file : String) × IsFileOf root name file
      × (starts_with file (join root "/") ≡ true)
      × (disk.exists_sync file ≡ true)
      × ((text : String) × (disk.read_file file ≡ ok text)
          × (as_text (get_in "content" (some src)) ≡ some text))

  abbrev pub AreOnDisk : String → Fields → Type 0
  AreOnDisk root end = Unit
  AreOnDisk root (field name src fs) = IsOnDisk root name src × AreOnDisk root fs

  npm_file-IsFileOf :
      (root name file : String)
      → npm_file disk root name (npm_source name) ≡ ok (some file)
      → IsFileOf root name file
  unfolding npm_file
  npm_file-IsFileOf root name file h = elim (Option-cases (npm_source name)) [
    | inl nowhere ↦ absurd (none-some (rw (npm_file, nowhere) at h))
    | inr (m, is) ↦
        let dir = disk.resolve (disk.resolve root "node_modules") m.pkg in
        let version = get_in "version" (disk.read_json (disk.join_path dir "package.json")) in
        elim (Bool-cases (is_text_of version m.version)) [
          | inl same ↦ inr (
            m,
            is,
            is_text_of-eq_true version m.version same,
            sym (some-ok (rw (npm_file, is, same) at h)),
          )
          | inr other ↦ absurd (err-ok (rw (npm_file, is, other) at h))
        ]
  ]
    where
      none-some : ◌≢◌ {A = Result BuildProblem (Option String)} (ok none) (ok (some file))
      none-some e = cc

      some-ok :
          {x : String}
          → ◌≡◌ {A = Result BuildProblem (Option String)} (ok (some x)) (ok (some file))
          → x ≡ file
      some-ok e = cc

      err-ok :
          {x : BuildProblem}
          → ◌≢◌ {A = Result BuildProblem (Option String)} (err x) (ok (some file))
      err-ok e = cc

  source_file-IsFileOf :
      (root name file : String)
      → source_file disk root name ≡ ok (some file)
      → IsFileOf root name file
  unfolding source_file
  source_file-IsFileOf root name file h = elim (Bool-cases (starts_with name "project/")) [
    | inl project ↦ inl (project, sym (ok-inj (rw (source_file, project) at h)))
    | inr other ↦ npm_file-IsFileOf root name file (rw (source_file, other) at h)
  ]
    where
      ok-inj :
          {x y : String}
          → ◌≡◌ {A = Result BuildProblem (Option String)} (ok (some x)) (ok (some y))
          → x ≡ y
      ok-inj e = cc

  SourcesMatch-AreOnDisk :
      (root : String) (fs : Fields) → SourcesMatch disk root fs → AreOnDisk root fs
  SourcesMatch-AreOnDisk root end h = tt
  SourcesMatch-AreOnDisk root (field name src fs)
        ((file, at, inside, there, (text, read, same)), rest) =
      (
        (
          file,
          source_file-IsFileOf root name file at,
          inside,
          there,
          (text, read, is_text_of-eq_true (get_in "content" (some src)) text same),
        ),
        SourcesMatch-AreOnDisk root fs rest,
      )

  module _ (i : BuildProvenanceInput) where
    -- `build-info/<id>` with an ending, as `JSON.parse` gives it
    abbrev pub read_build : String → Option Json
    read_build ending =
        disk.read_json (
          disk.join_path (disk.join_path i.artifacts_dir "build-info")
            (join i.build_info_id ending))

    -- What a clean check has seen of the build, the disk and the artifact.
    pub record IsBuilt : Type 0 where
      pub sources : Fields
      pub readable : get_in "sources" (get_in "input" (read_build ".json")) ≡ some (obj sources)
      pub solc : as_text (get_in "solcVersion" (read_build ".json")) ≡ some i.expected_solc_version
      pub settings :
          AreKept (get_in "settings" (get_in "input" (read_build ".json"))) i.expected_settings
      pub on_disk : AreOnDisk (disk.resolve i.root "") sources
      pub source : Json
      pub has_input : get i.input_source_name sources ≡ some source
      pub code : String
      pub output :
          as_text (
            get_in "object" (
              get_in "bytecode" (
                get_in "evm" (
                  get_in i.contract_name (
                    get_in i.input_source_name
                      (get_in "contracts" (get_in "output" (read_build ".output.json"))))))))
          ≡ some code
      pub bytecode : to_lower (join "0x" code) ≡ to_lower i.artifact_bytecode

    IsBuiltFromDisk-IsBuilt : IsBuiltFromDisk disk i → IsBuilt
    unfolding compiled eq_ignore_case
    IsBuiltFromDisk-IsBuilt b =
        let (src, there) = is_some-some (get i.input_source_name b.sources) b.has_input in
        record {
          sources = b.sources;
          readable = sources_of-eq_some (read_build ".json") b.sources b.readable;
          solc =
              is_text_of-eq_true (get_in "solcVersion" (read_build ".json")) i.expected_solc_version
                b.solc;
          settings = SettingsMatch-AreKept _ i.expected_settings b.settings;
          on_disk = SourcesMatch-AreOnDisk (disk.resolve i.root "") b.sources b.on_disk;
          source = src;
          has_input = there;
          code = b.code;
          output = b.output;
          bytecode =
              (eq_iff (to_lower (join "0x" b.code)) (to_lower i.artifact_bytecode)).0 b.bytecode;
        }

    -- A check of the build that finds no problem has seen a readable build-info with the expected compiler,
    -- every expected setting but outputSelection and remappings the same but for the order of keys, every
    -- source inside the root, on disk as the compiler saw it, and where it is an npm package's in the
    -- version that is installed, and the artifact's bytecode as its output, letter case aside.
    pub check_build_provenance-IsBuilt :
        (p : BuildProvenance) → check_build_provenance disk i ≡ ok p → p.problems ≡ [] → IsBuilt
    check_build_provenance-IsBuilt p h clean =
        IsBuiltFromDisk-IsBuilt ((check_build_provenance-clean_iff disk i).0 (p, h, clean))
