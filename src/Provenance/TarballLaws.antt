-- ===== src/Provenance/TarballLaws.antt =====
-- What the tests on an unpacked tarball let through.
use Prim.Native.String.{◌++◌ as join}
use rome_solidity.Prelude.{
  String, ◌≡◌, ◌≢◌, refl, true, Option, none, some, List, [], ◌∷◌, ◌++◌, All, ◌==◌, string_eq,
  eq_iff, Result-cases, Option-cases, Bool-cases, inl, inr, ok, arith,
}
use rome_solidity.Prelude.Json.{Json, as_text}
use rome_solidity.Prelude.Text.{starts_with}
use rome_solidity.Provenance.Sources.{
  SourceProblem, PackageFile, WantedPackage, package_id, Registry, is_same_text, file_problems,
  text_starts, tarball_problems,
}

pub All-snoc :
    (P : PackageFile → Type 0) (fs : List PackageFile) (f : PackageFile)
    → All P (fs ++ f ∷ [])
    → All P fs × P f
All-snoc P [] f (p, t) = (tt, p)
All-snoc P (g ∷ fs) f (p, ps) = let (rest, last) = All-snoc P fs f ps in ((p, rest), last)

pub is_same_text-eq-true : (o : Option String) (t : String) → is_same_text o t ≡ true → o ≡ some t
is_same_text-eq-true none t h = cc
is_same_text-eq-true (some s) t h = ground (arith, eq_iff s t)

pub append-nil : (xs ys : List SourceProblem) → xs ++ ys ≡ [] → (xs ≡ []) × (ys ≡ [])
append-nil [] ys h = (refl, h)
append-nil (x ∷ xs) ys h = cc

pub text_starts-eq-true :
    (v : Option Json) (prefix : String)
    → text_starts v prefix ≡ true
    → (t : String) × (as_text v ≡ some t) × (starts_with t prefix ≡ true)
text_starts-eq-true v prefix h = elim (Option-cases (as_text v)) [
  | inl absent ↦ ground arith
  | inr (t, is) ↦ (t, is, ground arith)
]

pub file_problems-nil :
    (id : String) (unpacked : String → Option String) (fs : List PackageFile)
    → file_problems id unpacked fs ≡ []
    → All (λ f. unpacked f.rel ≡ some f.text) fs
unfolding file_problems
file_problems-nil id unpacked [] h = tt
file_problems-nil id unpacked (f ∷ fs) h =
    elim (Bool-cases (is_same_text (unpacked f.rel) f.text)) [
      | inl same ↦ (
        is_same_text-eq-true (unpacked f.rel) f.text same,
        file_problems-nil id unpacked fs (ground arith),
      )
      | inr differs ↦ ground arith
    ]

pub All-map :
    (P Q : PackageFile → Type 0) (fs : List PackageFile)
    → ((f : PackageFile) → P f → Q f)
    → All P fs
    → All Q fs
All-map P Q [] h ps = tt
All-map P Q (f ∷ fs) h (p, ps) = (h f p, All-map P Q fs h ps)

-- A tarball without a problem has the locked hash, and the files.
pub tarball_problems-nil :
    {Tarball : Type 0} (registry : Registry Tarball) (w : WantedPackage) (integrity : String)
    (tgz : Tarball)
    → tarball_problems registry w integrity tgz ≡ []
    → (join "sha512-" (registry.sha512 tgz) ≡ integrity)
      × ((unpacked : String → Option String) × (registry.unpack tgz ≡ ok unpacked)
          × All (λ f. unpacked f.rel ≡ some f.text) w.files)
unfolding tarball_problems
tarball_problems-nil registry w integrity tgz h =
    let hash = join "sha512-" (registry.sha512 tgz) in
    elim (Bool-cases (hash == integrity)) [
      | inr other ↦ absurd (cons-nil (rw (tarball_problems, other) at h))
      | inl same ↦ elim (Result-cases (registry.unpack tgz)) [
        | inr (e, failed) ↦ absurd (cons-nil (rw (tarball_problems, same, failed) at h))
        | inl (unpacked, is) ↦ (
          (eq_iff hash integrity).0 same,
          (
            unpacked,
            is,
            file_problems-nil (package_id w) unpacked w.files
                (rw (tarball_problems, same, is) at h),
          ),
        )
      ]
    ]
  where
    cons-nil : {x : SourceProblem} → x ∷ [] ≢ []
    cons-nil e = cc
