-- ===== src/Oracle/VersionLaws.antt =====
-- What an update of one contract's versions does: the live one, the retired ones, the new number.
use Prim.Native.String.{◌++◌ as join}
use rome_solidity.Prelude.{
  ◌⊎◌, ℕ, suc, ◌≤◌, ◌<◌, String, ◌≡◌, refl, ap, true, false, Option, none, some, List, [], ◌∷◌, map,
  arith, inl, inr, Bool-cases, All, length, keep, eq_iff, string_eq,
}
use rome_solidity.Prelude.Text.{eq_ignore_case, to_lower}
use rome_solidity.Prelude.Number.{JsNumber, whole, negative, not_whole}
use rome_solidity.Prelude.Decimal.{to_text, parse_int-to_text}
use rome_solidity.Oracle.{
  VersionStatus, live, retired, RegistryContractVersion, RegistryContractEntry, EmitOptions,
}
use rome_solidity.Oracle.Versions.{
  is_live, is_finite, major, max_with, reduce_max, max_major, new_version, retire, is_current,
  next_versions, update_entry,
}

-- No more than one version is live.
abbrev pub AtMostOneLive : List RegistryContractVersion → Type 0
AtMostOneLive vs = length (keep is_live vs) ≤ 1

reduce_max-ge : (a : ℕ) (ns : List JsNumber) → a ≤ reduce_max a ns
unfolding reduce_max
reduce_max-ge a [] = omega arith
reduce_max-ge a (n ∷ ns) = ground (arith, reduce_max-ge (max_with a n) ns)

reduce_max-whole : (a m : ℕ) (ns : List JsNumber) → m ≤ reduce_max (max_with a (whole m)) ns
reduce_max-whole a m ns = ground (arith, reduce_max-ge (max_with a (whole m)) ns)

-- Every version whose major is a whole number has a smaller one.
abbrev pub MajorsBelow : ℕ → List RegistryContractVersion → Type 0
MajorsBelow n vs = All (λ v. (m : ℕ) → major v ≡ whole m → m < n) vs

reduce_max-MajorsBelow :
    (a : ℕ) (vs : List RegistryContractVersion)
    → MajorsBelow (suc (reduce_max a (keep is_finite (map major vs)))) vs
unfolding reduce_max
reduce_max-MajorsBelow a [] = tt
reduce_max-MajorsBelow a (v ∷ vs) = at_head (major v) refl (λ b. reduce_max-MajorsBelow b vs)
  where
    at_head :
        (n : JsNumber)
        → major v ≡ n
        → ((b : ℕ) → MajorsBelow (suc (reduce_max b (keep is_finite (map major vs)))) vs)
        → MajorsBelow (suc (reduce_max a (keep is_finite (n ∷ map major vs)))) (v ∷ vs)
    at_head (whole k) e tail = (
      λ m h. ground (arith, reduce_max-whole a k (keep is_finite (map major vs))),
      tail (max_with a (whole k)),
    )
    at_head (negative k) e tail = (λ m h. ground arith, tail a)
    at_head not_whole e tail = (λ m h. ground arith, tail a)

-- A maximum of numbers below a bound is below it.
reduce_max-lt :
    (b a : ℕ) (vs : List RegistryContractVersion)
    → a < b
    → MajorsBelow b vs
    → reduce_max a (keep is_finite (map major vs)) < b
unfolding reduce_max
reduce_max-lt b a [] lt below = lt
reduce_max-lt b a (v ∷ vs) lt (here, below) =
    at_head (major v) refl (λ c small. reduce_max-lt b c vs small below)
  where
    at_head :
        (n : JsNumber)
        → major v ≡ n
        → ((c : ℕ) → c < b → reduce_max c (keep is_finite (map major vs)) < b)
        → reduce_max a (keep is_finite (n ∷ map major vs)) < b
    at_head (whole k) e tail = tail (max_with a (whole k)) (ground (arith, here k e))
    at_head (negative k) e tail = tail a lt
    at_head not_whole e tail = tail a lt

module _ (options : EmitOptions) (address : String) where
  keep-retire :
      (vs : List RegistryContractVersion) → keep is_live (map (retire options address) vs) ≡ []
  unfolding retire
  keep-retire [] = refl
  keep-retire (v ∷ vs) = ground (arith, keep-retire vs)

  next_versions-live :
      (vs : List RegistryContractVersion)
      → (v : RegistryContractVersion) × (keep is_live (next_versions options address vs) ≡ v ∷ [])
        × (v.address ≡ address)
  unfolding next_versions new_version
  next_versions-live vs =
      let v = new_version options address (join (to_text (suc (max_major vs))) ".0.0") in
      (v, ap (λ r. v ∷ r) (keep-retire vs), refl)

  pub eq_ignore_case_refl : (s : String) → eq_ignore_case s s ≡ true
  unfolding eq_ignore_case
  eq_ignore_case_refl s = ground (arith, eq_iff (to_lower s) (to_lower s))

  -- An updated entry has no second live version, if the prior entry has none.
  pub update_entry-AtMostOneLive :
      (name : String) (prior : Option RegistryContractEntry)
      → ((e : RegistryContractEntry) → prior ≡ some e → AtMostOneLive e.versions)
      → AtMostOneLive (update_entry options name address prior).versions
  unfolding update_entry new_version
  update_entry-AtMostOneLive name none h = omega arith
  update_entry-AtMostOneLive name (some e) h = elim (Bool-cases (is_current address e.versions)) [
    | inl same ↦ rw same (h e refl)
    | inr other ↦ rw (other, next_versions, keep-retire) (omega arith)
  ]

  -- The entry after an update is current.
  pub update_entry-is_current :
      (name : String) (prior : Option RegistryContractEntry)
      → is_current address (update_entry options name address prior).versions ≡ true
  unfolding update_entry is_current next_versions new_version
  update_entry-is_current name none = eq_ignore_case_refl address
  update_entry-is_current name (some e) = elim (Bool-cases (is_current address e.versions)) [
    | inl same ↦ rw same same
    | inr other ↦ rw other (eq_ignore_case_refl address)
  ]

  pub update_entry_current :
      (name : String) (e : RegistryContractEntry)
      → is_current address e.versions ≡ true
      → update_entry options name address (some e) ≡ e
  unfolding update_entry
  update_entry_current name e h = rw h refl

  pub update_entry-name :
      (name : String) (prior : Option RegistryContractEntry)
      → ((e : RegistryContractEntry) → prior ≡ some e → e.name ≡ name)
      → (update_entry options name address prior).name ≡ name
  unfolding update_entry
  update_entry-name name none h = refl
  update_entry-name name (some e) h = ground (arith, h e refl)

  -- What becomes of a prior version: a live one is retired, and a retired one is kept.
  abbrev pub IsRetiredFrom : RegistryContractVersion → RegistryContractVersion → Type 0
  IsRetiredFrom old new =
      ((old.status ≡ live)
        × (new ≡ record old {
          status = retired;
          deprecated_at = some options.deployed_at;
          replaced_by = some address;
        }))
      ⊎ ((old.status ≡ retired) × (new ≡ old))

  abbrev pub AreRetiredFrom : List RegistryContractVersion → List RegistryContractVersion → Type 0
  AreRetiredFrom [] [] = Unit
  AreRetiredFrom (o ∷ os) (n ∷ ns) = IsRetiredFrom o n × AreRetiredFrom os ns
  AreRetiredFrom _ _ = ⊥

  retire-IsRetiredFrom : (v : RegistryContractVersion) → IsRetiredFrom v (retire options address v)
  unfolding retire
  retire-IsRetiredFrom v = at_status v.status refl
    where
      at_status : (s : VersionStatus) → v.status ≡ s → IsRetiredFrom v (retire options address v)
      at_status live is = inl (is, rw (retire, is) refl)
      at_status retired is = inr (is, rw (retire, is) refl)

  map-AreRetiredFrom :
      (vs : List RegistryContractVersion) → AreRetiredFrom vs (map (retire options address) vs)
  map-AreRetiredFrom [] = tt
  map-AreRetiredFrom (v ∷ vs) = (retire-IsRetiredFrom v, map-AreRetiredFrom vs)

  -- Where all prior major numbers are below 2 ^ 53 - 1, up to which JavaScript counts exactly, a contract
  -- that is not current gets a new live version at its address, with a major number above all the prior
  -- ones and no larger than 2 ^ 53 - 1, before the prior versions: each live one of them is retired, with
  -- the time of the update and the new address, and each retired one is kept.
  pub update_entry_changed :
      (name : String) (e : RegistryContractEntry)
      → is_current address e.versions ≡ false
      → MajorsBelow 9007199254740991 e.versions
      → (v : RegistryContractVersion) × (vs : List RegistryContractVersion) × ((update_entry options
            name address
            (some e)).versions
          ≡ v ∷ vs)
        × AreRetiredFrom e.versions vs
        × (v.address ≡ address)
        × (v.status ≡ live)
        × ((n : ℕ) × (major v ≡ whole n) × (n ≤ 9007199254740991) × MajorsBelow n e.versions)
  unfolding update_entry next_versions new_version max_major
  update_entry_changed name e other exact =
      let m = max_major e.versions in
      let v = new_version options address (join (to_text (suc m)) ".0.0") in
      let below = reduce_max-lt 9007199254740991 0 e.versions (omega arith) exact in
      (
        v,
        map (retire options address) e.versions,
        rw other refl,
        map-AreRetiredFrom e.versions,
        refl,
        refl,
        (suc m, parse_int-to_text (suc m), omega arith, reduce_max-MajorsBelow 0 e.versions),
      )

-- A live version at an address, letter case aside
abbrev pub HasLiveAt : String → List RegistryContractVersion → Type 0
HasLiveAt address [] = ⊥
HasLiveAt address (v ∷ vs) =
    ((v.status ≡ live) × (to_lower v.address ≡ to_lower address)) ⊎ HasLiveAt address vs

pub is_current-HasLiveAt :
    (address : String) (vs : List RegistryContractVersion)
    → is_current address vs ≡ true
    → HasLiveAt address vs
unfolding is_current eq_ignore_case
is_current-HasLiveAt address [] h = cc
is_current-HasLiveAt address (v ∷ vs) h = at_status v.status refl (is_current-HasLiveAt address vs)
  where
    at_status :
        (s : VersionStatus)
        → v.status ≡ s
        → (is_current address vs ≡ true → HasLiveAt address vs)
        → HasLiveAt address (v ∷ vs)
    at_status live is later =
        inl (is, ground (arith, eq_iff (to_lower v.address) (to_lower address)))
    at_status retired is later = inr (later (ground arith))
