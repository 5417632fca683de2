-- ===== src/Provenance/SourceLaws.antt =====
-- What a check of the dependencies that finds no problem has seen.
use Prim.Native.String.{◌++◌ as join}
use rome_solidity.Prelude.{
  String, ◌≡◌, ◌≢◌, refl, sym, ap, ◌∙◌, subst, true, false, Option, none, some, List, [], ◌∷◌, ◌++◌,
  All, ◌==◌, string_eq, eq_iff, Result-cases, Option-cases, Bool-cases, inl, inr, ok, or_else,
  arith,
}
use rome_solidity.Prelude.Json.{Json, Fields, end, field, get_in, as_text}
use rome_solidity.Prelude.Text.{starts_with}
use rome_solidity.Provenance.Names.{NpmSource, npm_source, is_plain_name}
use rome_solidity.Provenance.Check.{is_text_of, sources_of}
use rome_solidity.Provenance.Sources.{
  SourceProblem, PackageFile, WantedPackage, Registry, registry_prefix, leaves_package, content_of,
  add_file, want_source, want_sources, text_starts, tarball_problems, package_problems,
  packages_problems, check_dependency_sources, read_info, locked_packages, loop_problems,
}
use rome_solidity.Provenance.TarballLaws.{
  All-snoc, All-map, append-nil, text_starts-eq-true, tarball_problems-nil,
}

module _ {Tarball : Type 0} (registry : Registry Tarball) (packages : Option Json) where
  abbrev entry_of : String → Option Json
  entry_of name = get_in (join "node_modules/" name) packages

  -- The file has the text that it has in the package of the name and version that the lockfile vouches for.
  pub record IsLocked (name version : String) (f : PackageFile) : Type 0 where
    pub locked : is_text_of (get_in "version" (entry_of name)) version ≡ true
    pub resolved : String
    pub resolves : as_text (get_in "resolved" (entry_of name)) ≡ some resolved
    pub from_registry : starts_with resolved registry_prefix ≡ true
    pub tarball : Tarball
    pub fetched : registry.fetch_tarball resolved ≡ ok tarball
    pub integrity :
        as_text (get_in "integrity" (entry_of name))
        ≡ some (join "sha512-" (registry.sha512 tarball))
    pub unpacked : String → Option String
    pub unpacks : registry.unpack tarball ≡ ok unpacked
    pub same : unpacked f.rel ≡ some f.text

  -- The package of a source is known by its name and version together.
  abbrev pub HasLocked : NpmSource → PackageFile → Type 0
  HasLocked m f =
      (name version : String) × (join (join name "@") version ≡ join (join m.pkg "@") m.version)
      × IsLocked name version f

  abbrev AllLocked : List WantedPackage → Type 0
  AllLocked ws = All (λ w. All (IsLocked w.name w.version) w.files) ws

  abbrev key : String → String → String
  key name version = join (join name "@") version

  add_file_here :
      (m : NpmSource) (f : PackageFile) (w : WantedPackage) (ws : List WantedPackage)
      → (key w.name w.version == key m.pkg m.version) ≡ true
      → add_file m f (w ∷ ws) ≡ record w { files = w.files ++ f ∷ [] } ∷ ws
  unfolding add_file
  add_file_here m f w ws e = rw (add_file, e) refl

  add_file_later :
      (m : NpmSource) (f : PackageFile) (w : WantedPackage) (ws : List WantedPackage)
      → (key w.name w.version == key m.pkg m.version) ≡ false
      → add_file m f (w ∷ ws) ≡ w ∷ add_file m f ws
  unfolding add_file
  add_file_later m f w ws e = rw (add_file, e) refl

  add_file-HasLocked :
      (m : NpmSource) (f : PackageFile) (ws : List WantedPackage)
      → AllLocked (add_file m f ws)
      → HasLocked m f × AllLocked ws
  unfolding add_file
  add_file-HasLocked m f [] ((locked, _), _) = ((m.pkg, m.version, refl, locked), tt)
  add_file-HasLocked m f (w ∷ ws) h =
      elim (Bool-cases (key w.name w.version == key m.pkg m.version)) [
        | inl same ↦
            let (files, rest) = subst AllLocked (add_file_here m f w ws same) h in
            let (old, new) = All-snoc (IsLocked w.name w.version) w.files f files in
            let is = (eq_iff (key w.name w.version) (key m.pkg m.version)).0 same in
            ((w.name, w.version, is, new), (old, rest))
        | inr other ↦
            let (files, rest) = subst AllLocked (add_file_later m f w ws other) h in
            let (found, old) = add_file-HasLocked m f ws rest in (found, (files, old))
      ]

  -- A source of an npm package
  abbrev pub SourceIsLocked : String → Json → Type 0
  SourceIsLocked source src =
      (m : NpmSource)
      → npm_source source ≡ some m
      → (leaves_package m.file ≡ false)
        × HasLocked m (record { rel = m.file; text = content_of src; source = source })

  abbrev pub SourcesAreLocked : Fields → Type 0
  SourcesAreLocked end = Unit
  SourcesAreLocked (field source src fs) = SourceIsLocked source src × SourcesAreLocked fs

  abbrev Found : Type 0
  Found = List WantedPackage × List SourceProblem

  abbrev IsClean : Found → Type 0
  IsClean found = (found.1 ≡ []) × AllLocked found.0

  abbrev file_of : NpmSource → String → Json → PackageFile
  file_of m source src = record { rel = m.file; text = content_of src; source = source }

  want_source-none :
      (source : String) (src : Json) (found : Found)
      → npm_source source ≡ none
      → want_source source src found ≡ found
  unfolding want_source
  want_source-none source src (ws, ps) e = rw (want_source, e) refl

  want_source_leaving :
      (source : String) (src : Json) (found : Found) (m : NpmSource)
      → npm_source source ≡ some m
      → leaves_package m.file ≡ true
      → (want_source source src found).1 ≢ []
  unfolding want_source
  want_source_leaving source src (ws, []) m e l = rw (want_source, e, l) (λ h. cc)
  want_source_leaving source src (ws, p ∷ ps) m e l = rw (want_source, e, l) (λ h. cc)

  want_source_kept :
      (source : String) (src : Json) (found : Found) (m : NpmSource)
      → npm_source source ≡ some m
      → leaves_package m.file ≡ false
      → want_source source src found ≡ (add_file m (file_of m source src) found.0, found.1)
  unfolding want_source
  want_source_kept source src (ws, ps) m e l = rw (want_source, e, l) refl

  want_source-IsClean :
      (source : String) (src : Json) (found : Found)
      → IsClean (want_source source src found)
      → SourceIsLocked source src × IsClean found
  want_source-IsClean source src found clean = elim (Option-cases (npm_source source)) [
    | inl no_npm ↦ (
      λ m is. absurd (none-some (sym no_npm ∙ is)),
      subst IsClean (want_source-none source src found no_npm) clean,
    )
    | inr (m, is) ↦ elim (Bool-cases (leaves_package m.file)) [
      | inl leaves ↦ absurd (want_source_leaving source src found m is leaves clean.0)
      | inr stays ↦
          let (ps, files) = subst IsClean (want_source_kept source src found m is stays) clean in
          let (locked, old) = add_file-HasLocked m (file_of m source src) found.0 files in
          (
            λ n also.
                let same : m ≡ n = some-inj (sym is ∙ also) in
                subst
                  (λ (k : NpmSource).
                    (leaves_package k.file ≡ false) × HasLocked k (file_of k source src))
                  same (stays, locked),
            (ps, old),
          )
    ]
  ]
    where
      none-some : {m : NpmSource} → none ≢ some m
      none-some h = cc

      some-inj : {m n : NpmSource} → some m ≡ some n → m ≡ n
      some-inj h = cc

  want_sources-IsClean :
      (fs : Fields) (found : Found)
      → IsClean (want_sources fs found)
      → SourcesAreLocked fs × IsClean found
  unfolding want_sources
  want_sources-IsClean end found clean = (tt, clean)
  want_sources-IsClean (field source src fs) found clean =
      let (rest, before) = want_sources-IsClean fs (want_source source src found) clean in
      let (here, start) = want_source-IsClean source src found before in ((here, rest), start)

  -- What the tests on the lockfile's entry let through
  package_problems-tests :
      (w : WantedPackage)
      → package_problems registry packages w ≡ []
      → (is_text_of (get_in "version" (entry_of w.name)) w.version ≡ true)
        × (text_starts (get_in "resolved" (entry_of w.name)) registry_prefix ≡ true)
        × (text_starts (get_in "integrity" (entry_of w.name)) "sha512-" ≡ true)
        × ((tgz : Tarball) × (registry.fetch_tarball
                (or_else (as_text (get_in "resolved" (entry_of w.name))) "")
              ≡ ok tgz)
            × (tarball_problems registry w
                  (or_else (as_text (get_in "integrity" (entry_of w.name))) "")
                  tgz
                ≡ []))
  unfolding package_problems
  package_problems-tests w h =
      elim (Result-cases
        (registry.fetch_tarball (or_else (as_text (get_in "resolved" (entry_of w.name))) ""))) [
          | inr (e, failed) ↦ ground arith
          | inl (tgz, is) ↦ (ground arith, ground arith, ground arith, (tgz, is, ground arith))
        ]

  package_problems-nil :
      (w : WantedPackage)
      → package_problems registry packages w ≡ []
      → All (IsLocked w.name w.version) w.files
  package_problems-nil w h =
      let (v, r, i, (tgz, fetched, clean)) = package_problems-tests w h in
      let (resolved, is, from) =
        text_starts-eq-true (get_in "resolved" (entry_of w.name)) registry_prefix r in
      let (integrity, has, sha) =
        text_starts-eq-true (get_in "integrity" (entry_of w.name)) "sha512-" i in
      let (hash, (unpacked, opened, files)) =
        tarball_problems-nil registry w
          (or_else (as_text (get_in "integrity" (entry_of w.name))) "") tgz clean in
      All-map (λ f. unpacked f.rel ≡ some f.text) (IsLocked w.name w.version) w.files
        (λ f same. record {
          locked = v;
          resolved = resolved;
          resolves = is;
          from_registry = from;
          tarball = tgz;
          fetched = rw is at fetched;
          integrity = has ∙ ap some (sym (hash ∙ ap (λ o. or_else o "") has));
          unpacked = unpacked;
          unpacks = opened;
          same = same;
        })
        files

  packages_problems-nil :
      (ws : List WantedPackage) → packages_problems registry packages ws ≡ [] → AllLocked ws
  unfolding packages_problems
  packages_problems-nil [] h = tt
  packages_problems-nil (w ∷ ws) h =
      let (here, rest) =
        append-nil (package_problems registry packages w) (packages_problems registry packages ws)
          h in
      (package_problems-nil w here, packages_problems-nil ws rest)

-- A check of the dependencies that finds no problem has read the build-info under a plain name, and every
-- source of an npm package in it stays inside its package and has the text of that file in a tarball of the
-- npm registry whose hash is the lockfile's for that name and version.
pub check_dependency_sources-nil :
    {Tarball : Type 0} (registry : Registry Tarball) (root artifacts_dir build_info_id : String)
    → check_dependency_sources registry root artifacts_dir build_info_id ≡ []
    → (is_plain_name build_info_id ≡ true)
      × ((sources : Fields) × (sources_of (read_info registry artifacts_dir build_info_id)
            ≡ some sources)
          × SourcesAreLocked registry (locked_packages registry root) sources)
unfolding check_dependency_sources loop_problems
check_dependency_sources-nil registry root artifacts_dir build_info_id h =
    let info = read_info registry artifacts_dir build_info_id in
    let packages = locked_packages registry root in
    elim (Option-cases (sources_of info)) [
      | inl nothing ↦ ground arith
      | inr (sources, is) ↦
          let clean : loop_problems registry packages sources ≡ [] = ground arith in
          let found = want_sources sources ([], []) in
          let (kept, locked) =
            append-nil found.1 (packages_problems registry packages found.0) clean in
          let (all, start) =
            want_sources-IsClean registry packages sources ([], [])
              (kept, packages_problems-nil registry packages found.0 locked) in
          (ground arith, (sources, is, all))
    ]
