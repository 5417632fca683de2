-- ===== src/Provenance/Sources.antt =====
-- scripts/bridge/lib/build-provenance.ts: `checkDependencySources`, the compiler's npm sources against
-- the locked packages. The download, the hash and the unpacked tarball are arguments.
use Prim.Native.String.{◌++◌ as join}
use rome_solidity.Prelude.{
  zero, String, Bool, true, false, not, ◌||◌, Option, none, some, List, [], ◌∷◌, ◌++◌, ◌==◌,
  string_eq, if◌then◌else◌, Result, ok, err, any, or_else,
}
use rome_solidity.Prelude.Json.{Json, null, bool, num, str, Fields, end, field, get_in, as_text}
use rome_solidity.Prelude.Number.{whole}
use rome_solidity.Prelude.Text.{split, starts_with}
use rome_solidity.Provenance.Names.{NpmSource, npm_source, is_plain_name}
use rome_solidity.Provenance.Check.{is_text_of, sources_of}

pub data SourceProblem : Type 0 where
  bad_id : String → SourceProblem
  no_info : String → SourceProblem
  no_lock : SourceProblem
  not_plain_path : String → SourceProblem
  no_entry : String → SourceProblem
  other_version : String → String → Option Json → SourceProblem
  not_registry : String → Option Json → SourceProblem
  no_integrity : String → SourceProblem
  not_downloaded : String → String → SourceProblem
  other_tarball : String → SourceProblem
  patched : String → String → SourceProblem
  not_unpacked : String → String → SourceProblem

-- A file that the compiler read from a package
pub record PackageFile : Type 0 where
  pub rel : String
  pub text : String
  pub source : String

-- A value of `wanted`
pub record WantedPackage : Type 0 where
  pub name : String
  pub version : String
  pub files : List PackageFile

abbrev pub package_id : WantedPackage → String
package_id w = join (join w.name "@") w.version

-- The readable JSON files, `fetchTarball`, the sha512 of a tarball in base64, and the unpacked tarball: a
-- regular file's text, for a path in it, or an error of `tar`
pub record Registry (Tarball : Type 0) : Type 0 where
  pub read_json : String → Option Json
  pub join_path : String → String → String
  pub fetch_tarball : String → Result String Tarball
  pub sha512 : Tarball → String
  pub unpack : Tarball → Result String (String → Option String)

abbrev pub registry_prefix : String
registry_prefix = "https://registry.npmjs.org/"

-- `rel.split("/").some((p) => p === ".." || p === "" || p === ".")`
unfoldable pub leaves_package : String → Bool
unfolding split
leaves_package rel = any (λ p. p == ".." || p == "" || p == ".") (split b'/' rel)

-- `src.content ?? ""`, where the content is a text or absent, as its type says
abbrev pub content_of : Json → String
content_of src = or_else (as_text (get_in "content" (some src))) ""

-- `wanted.get(key).files.push(file)`, with a new package at the end
unfoldable pub add_file : NpmSource → PackageFile → List WantedPackage → List WantedPackage
add_file m f [] = record { name = m.pkg; version = m.version; files = f ∷ [] } ∷ []
add_file m f (w ∷ ws) =
    let longer : WantedPackage = record w { files = w.files ++ f ∷ [] } in
    let rest = add_file m f ws in
    if package_id w == join (join m.pkg "@") m.version then longer ∷ ws else w ∷ rest

-- One round of the first loop
unfoldable pub want_source :
    String
    → Json
    → List WantedPackage × List SourceProblem
    → List WantedPackage × List SourceProblem
unfolding add_file leaves_package npm_source
want_source source src (wanted, problems) = elim (npm_source source) [
  | none ↦ (wanted, problems)
  | some m ↦
      let f : PackageFile = record { rel = m.file; text = content_of src; source = source } in
      if leaves_package m.file
      then (wanted, problems ++ not_plain_path source ∷ [])
      else (add_file m f wanted, problems)
]

unfoldable pub want_sources :
    Fields → List WantedPackage × List SourceProblem → List WantedPackage × List SourceProblem
unfolding want_source
want_sources end found = found
want_sources (field source src fs) found = want_sources fs (want_source source src found)

abbrev pub is_same_text : Option String → String → Bool
is_same_text none t = false
is_same_text (some s) t = s == t

-- The loop over the files of a package
unfoldable pub file_problems :
    String → (String → Option String) → List PackageFile → List SourceProblem
file_problems id unpacked [] = []
file_problems id unpacked (f ∷ fs) =
    let rest = file_problems id unpacked fs in
    if is_same_text (unpacked f.rel) f.text then rest else patched f.source id ∷ rest

-- The values that `!v` does not hold of
abbrev pub is_truthy : Option Json → Bool
is_truthy none = false
is_truthy (some null) = false
is_truthy (some (bool b)) = b
is_truthy (some (num (whole zero))) = false
is_truthy (some (str t)) = not (t == "")
is_truthy (some v) = true

abbrev pub text_starts : Option Json → String → Bool
text_starts v prefix = elim (as_text v) [ none ↦ false | some s ↦ starts_with s prefix ]

module _ {Tarball : Type 0} (registry : Registry Tarball) where
  unfoldable pub tarball_problems : WantedPackage → String → Tarball → List SourceProblem
  unfolding file_problems
  tarball_problems w integrity tgz =
      if not (join "sha512-" (registry.sha512 tgz) == integrity)
      then other_tarball (package_id w) ∷ []
      else elim (registry.unpack tgz) [
        | err e ↦ not_unpacked (package_id w) e ∷ []
        | ok unpacked ↦ file_problems (package_id w) unpacked w.files
      ]

  -- One round of the second loop
  unfoldable pub package_problems : Option Json → WantedPackage → List SourceProblem
  unfolding tarball_problems
  package_problems packages w =
      let entry = get_in (join "node_modules/" w.name) packages in
      let resolved = get_in "resolved" entry in
      let integrity = get_in "integrity" entry in
      if not (is_truthy entry)
      then no_entry (package_id w) ∷ []
      else if not (is_text_of (get_in "version" entry) w.version)
      then other_version (package_id w) w.name (get_in "version" entry) ∷ []
      else if not (text_starts resolved registry_prefix)
      then not_registry (package_id w) resolved ∷ []
      else if not (text_starts integrity "sha512-")
      then no_integrity (package_id w) ∷ []
      else elim (registry.fetch_tarball (or_else (as_text resolved) "")) [
        | err e ↦ not_downloaded (package_id w) e ∷ []
        | ok tgz ↦ tarball_problems w (or_else (as_text integrity) "") tgz
      ]

  unfoldable pub packages_problems : Option Json → List WantedPackage → List SourceProblem
  unfolding package_problems
  packages_problems packages [] = []
  packages_problems packages (w ∷ ws) = package_problems packages w ++ packages_problems packages ws

  abbrev pub read_info : String → String → Option Json
  read_info artifacts_dir build_info_id =
      let build_info = registry.join_path artifacts_dir "build-info" in
      registry.read_json (registry.join_path build_info (join build_info_id ".json"))

  -- `lock?.packages`
  abbrev pub locked_packages : String → Option Json
  locked_packages root =
      get_in "packages" (registry.read_json (registry.join_path root "package-lock.json"))

  -- The two loops, over the sources and over the packages
  unfoldable pub loop_problems : Option Json → Fields → List SourceProblem
  unfolding want_sources packages_problems
  loop_problems packages sources =
      let found = want_sources sources ([], []) in found.1 ++ packages_problems packages found.0

  unfoldable pub check_dependency_sources : String → String → String → List SourceProblem
  unfolding loop_problems sources_of is_plain_name
  check_dependency_sources root artifacts_dir build_info_id =
      let packages = locked_packages root in
      if not (is_plain_name build_info_id)
      then bad_id build_info_id ∷ []
      else elim (sources_of (read_info artifacts_dir build_info_id)) [
        | none ↦ no_info build_info_id ∷ []
        | some sources ↦
            if not (is_truthy packages) then no_lock ∷ [] else loop_problems packages sources
      ]
