-- ===== src/Mints/Wanted.antt =====
-- Which mints a run works on.
use Prim.Native.Char.{Char}
use Prim.Native.String.{[] as empty, ◌∷◌ as with_char}
use rome_solidity.Prelude.{
  or_else, arith, true, false, Bool-cases, Option-cases, some, none, ◌∙◌, ◌↔◌, not, keep, length,
  nat_eq, Result-cases, ℕ, String, ◌≡◌, ◌≢◌, refl, sym, subst, ap, ◌⊎◌, inl, inr, Option, List, [],
  ◌∷◌, All, map, Result, ok, err, >>=-eq-ok, string_eq,
}
use rome_solidity.Prelude.Json.{Json, Fields, end, field, get_in, as_text}
use rome_solidity.Prelude.Text.{starts_with, trim, split, is_nil}
use rome_solidity.Mints.{
  BridgedMint, MintsError, is_pubkey, with_wrapper, wrappers, named_wrappers, choose_mints,
  named_mints, bridged_mints_from,
}

module _ (public_key_bytes : String → Result String (List ℕ)) where
  abbrev pub HasKey : BridgedMint → Type 0
  HasKey m = is_pubkey public_key_bytes m.mint ≡ true

  with_wrapper-HasKey :
      (name : String) (value : Json) (rest : List BridgedMint)
      → All HasKey rest
      → All HasKey (with_wrapper public_key_bytes name value rest)
  unfolding with_wrapper
  with_wrapper-HasKey name value rest h = elim (Bool-cases (starts_with name "SPL_ERC20_")) [
    | inr other ↦ rw (with_wrapper, other) h
    | inl wrapper ↦ elim (Option-cases (as_text (get_in "mintId" (some value)))) [
      | inl absent ↦ rw (with_wrapper, wrapper, absent) h
      | inr (id, is) ↦ elim (Bool-cases (is_pubkey public_key_bytes id)) [
        | inl key ↦ rw (with_wrapper, wrapper, is, key) (key, h)
        | inr none_such ↦ rw (with_wrapper, wrapper, is, none_such) h
      ]
    ]
  ]

  wrappers-HasKey : (fs : Fields) → All HasKey (wrappers public_key_bytes fs)
  unfolding wrappers
  wrappers-HasKey end = tt
  wrappers-HasKey (field name value fs) =
      with_wrapper-HasKey name value (wrappers public_key_bytes fs) (wrappers-HasKey fs)

  named_wrappers-eq-ok :
      (known : List BridgedMint) (names : List String) (ms : List BridgedMint)
      → named_wrappers public_key_bytes known names ≡ ok ms
      → All HasKey ms × (map (λ m. m.mint) ms ≡ names)
  unfolding named_wrappers
  named_wrappers-eq-ok known [] [] h = (tt, refl)
  named_wrappers-eq-ok known [] (x ∷ xs) h = cc
  named_wrappers-eq-ok known (n ∷ names) ms h = elim (Bool-cases (is_pubkey public_key_bytes n)) [
    | inr other ↦ absurd (err-ok (rw (named_wrappers, other) at h))
    | inl key ↦
        let (rest, later, same) =
          >>=-eq-ok (named_wrappers public_key_bytes known names) _
            (rw (named_wrappers, key) at h) in
        let (keys, names_are) = named_wrappers-eq-ok known names rest later in
        subst (λ all. All HasKey all × (map (λ m. m.mint) all ≡ n ∷ names)) (ok-inj same)
          ((key, keys), ap (λ ns. n ∷ ns) names_are)
  ]
    where
      err-ok : {e : MintsError} {xs : List BridgedMint} → err e ≢ ok xs
      err-ok e = cc

      ok-inj :
          {xs ys : List BridgedMint}
          → ◌≡◌ {A = Result MintsError (List BridgedMint)} (ok xs) (ok ys)
          → xs ≡ ys
      ok-inj e = cc

  -- What the choice between the two lists gives
  choose_mints-eq-ok :
      (known : List BridgedMint) (names : List String) (ms : List BridgedMint)
      → All HasKey known
      → choose_mints public_key_bytes known names ≡ ok ms
      → (ms ≢ []) × All HasKey ms × (((names ≡ []) × (ms ≡ known)) ⊎ (map (λ m. m.mint) ms ≡ names))
  unfolding choose_mints
  choose_mints-eq-ok [] [] ms k h = cc
  choose_mints-eq-ok (w ∷ ws) [] [] k h = cc
  choose_mints-eq-ok (w ∷ ws) [] (m ∷ ms) k h =
      let same : w ∷ ws ≡ m ∷ ms = cc in
      ((λ e. cc), subst (All HasKey) same k, inl (refl, sym same))
  choose_mints-eq-ok known (n ∷ names) [] k h =
      let (_, same) = named_wrappers-eq-ok known (n ∷ names) [] h in cc
  choose_mints-eq-ok known (n ∷ names) (m ∷ ms) k h =
      let (keys, same) = named_wrappers-eq-ok known (n ∷ names) (m ∷ ms) h in
      ((λ e. cc), keys, inr same)

-- A mint of 32 bytes
abbrev pub IsKey : (String → Result String (List ℕ)) → String → Type 0
IsKey public_key_bytes m = (bytes : List ℕ) × (public_key_bytes m ≡ ok bytes) × (length bytes ≡ 32)

-- What a wrapper's entry of the deployments is
pub record IsWrapper (public_key_bytes : String → Result String (List ℕ)) (name : String)
    (value : Json) (w : BridgedMint) : Type 0 where
  pub prefix : starts_with name "SPL_ERC20_" ≡ true
  pub id : as_text (get_in "mintId" (some value)) ≡ some w.mint
  pub key : IsKey public_key_bytes w.mint
  pub symbol : w.symbol ≡ or_else (as_text (get_in "symbol" (some value))) name

-- The list has the wrappers of the deployments, each entry that is one, in their order.
abbrev pub AreWrappers : (String → Result String (List ℕ)) → Fields → List BridgedMint → Type 0
AreWrappers bytes end ms = ms ≡ []
AreWrappers bytes (field name value fs) ms =
    ((w : BridgedMint) × (rest : List BridgedMint) × (ms ≡ w ∷ rest)
      × IsWrapper bytes name value w
      × AreWrappers bytes fs rest)
    ⊎ (((w : BridgedMint) → ¬ IsWrapper bytes name value w) × AreWrappers bytes fs ms)

module _ (public_key_bytes : String → Result String (List ℕ)) where
  is_pubkey-IsKey_iff :
      (m : String) → (is_pubkey public_key_bytes m ≡ true) ↔ IsKey public_key_bytes m
  unfolding is_pubkey
  is_pubkey-IsKey_iff m = elim (Result-cases (public_key_bytes m)) [
    | inr (e, thrown) ↦ (λ h. ground arith, λ (bs, is, l). ground arith)
    | inl (bytes, is) ↦ (λ h. (bytes, is, ground arith), λ (bs, same, l). ground arith)
  ]

  All-IsKey :
      (ms : List BridgedMint)
      → All (HasKey public_key_bytes) ms
      → All (λ m. IsKey public_key_bytes m.mint) ms
  All-IsKey [] h = tt
  All-IsKey (m ∷ ms) (k, h) = ((is_pubkey-IsKey_iff m.mint).0 k, All-IsKey ms h)

  with_wrapper-cases :
      (name : String) (value : Json) (rest : List BridgedMint)
      → ((w : BridgedMint) × (with_wrapper public_key_bytes name value rest ≡ w ∷ rest)
          × IsWrapper public_key_bytes name value w)
        ⊎ (((w : BridgedMint) → ¬ IsWrapper public_key_bytes name value w)
            × (with_wrapper public_key_bytes name value rest ≡ rest))
  unfolding with_wrapper
  with_wrapper-cases name value rest = elim (Bool-cases (starts_with name "SPL_ERC20_")) [
    | inr other ↦ inr (λ w i. true-false (sym i.prefix ∙ other), rw (with_wrapper, other) refl)
    | inl wrapper ↦ elim (Option-cases (as_text (get_in "mintId" (some value)))) [
      | inl absent ↦
          inr (λ w i. none-some (sym absent ∙ i.id), rw (with_wrapper, wrapper, absent) refl)
      | inr (id, is) ↦ elim (Bool-cases (is_pubkey public_key_bytes id)) [
        | inl key ↦
            let w : BridgedMint = record {
              mint = id;
              symbol = or_else (as_text (get_in "symbol" (some value))) name;
            } in
            inl (
              w,
              rw (with_wrapper, wrapper, is, key) refl,
              record {
                prefix = wrapper;
                id = is;
                key = (is_pubkey-IsKey_iff id).0 key;
                symbol = refl;
              },
            )
        | inr odd ↦ inr (
          λ w i.
              let same : id ≡ w.mint = some-inj (sym is ∙ i.id) in
              true-false (
                sym ((is_pubkey-IsKey_iff id).1 (subst (IsKey public_key_bytes) (sym same) i.key))
                ∙ odd),
          rw (with_wrapper, wrapper, is, odd) refl,
        )
      ]
    ]
  ]
    where
      true-false : true ≢ false
      true-false e = cc

      none-some : {t : String} → none ≢ some t
      none-some e = cc

      some-inj : {t u : String} → some t ≡ some u → t ≡ u
      some-inj e = cc

  wrappers-AreWrappers :
      (fs : Fields) → AreWrappers public_key_bytes fs (wrappers public_key_bytes fs)
  unfolding wrappers
  wrappers-AreWrappers end = refl
  wrappers-AreWrappers (field name value fs) =
      let rest = wrappers public_key_bytes fs in
      let later = wrappers-AreWrappers fs in
      elim (with_wrapper-cases name value rest) [
        | inl (w, is, wrapper) ↦ inl (w, rest, is, wrapper, later)
        | inr (other, is) ↦ inr (other, subst (AreWrappers public_key_bytes fs) (sym is) later)
      ]

-- The names that BRIDGE_ATA_MINTS gives: its parts between commas, trimmed, that are not empty
abbrev pub AreNames : List String → List String → Type 0
AreNames [] names = names ≡ []
AreNames (p ∷ ps) names =
    ((trim p ≡ "") × AreNames ps names)
    ⊎ ((trim p ≢ "") × ((rest : List String) × (names ≡ trim p ∷ rest) × AreNames ps rest))

kept-AreNames : (ps : List String) → AreNames ps (keep (λ s. not (is_nil s)) (map trim ps))
kept-AreNames [] = refl
kept-AreNames (p ∷ ps) = at_trimmed (trim p) refl (kept-AreNames ps)
  where
    cons-nil : {c : Char} {t : String} → with_char c t ≢ ""
    cons-nil e = cc

    at_trimmed :
        (t : String)
        → trim p ≡ t
        → AreNames ps (keep (λ s. not (is_nil s)) (map trim ps))
        → AreNames (p ∷ ps) (keep (λ s. not (is_nil s)) (t ∷ map trim ps))
    at_trimmed empty is later = inl (is, later)
    at_trimmed (with_char c t) is later = inr (
      λ e. cons-nil (sym is ∙ e),
      (
        keep (λ s. not (is_nil s)) (map trim ps),
        ap (λ u. u ∷ keep (λ s. not (is_nil s)) (map trim ps)) (sym is),
        later,
      ),
    )

named_mints-AreNames :
    (explicit : Option String) → AreNames (split b',' (or_else explicit "")) (named_mints explicit)
unfolding named_mints
named_mints-AreNames explicit = kept-AreNames (split b',' (or_else explicit ""))

-- A run that gets a list of mints works on at least one, and each is a key of 32 bytes: exactly the ones
-- that BRIDGE_ATA_MINTS names between its commas, trimmed, in its order, and where it names none, those
-- of the deployments' SPL_ERC20_ entries that have such a key as their mintId, with their symbols.
pub bridged_mints_from-eq-ok :
    (public_key_bytes : String → Result String (List ℕ)) (deployments : Fields)
    (explicit : Option String) (ms : List BridgedMint)
    → bridged_mints_from public_key_bytes deployments explicit ≡ ok ms
    → (ms ≢ [])
      × All (λ m. IsKey public_key_bytes m.mint) ms
      × ((names : List String) × AreNames (split b',' (or_else explicit "")) names
          × (((names ≡ []) × AreWrappers public_key_bytes deployments ms)
              ⊎ (map (λ m. m.mint) ms ≡ names)))
unfolding bridged_mints_from
bridged_mints_from-eq-ok public_key_bytes deployments explicit ms h =
    let found = wrappers public_key_bytes deployments in
    let (some_mint, keys, which) =
      choose_mints-eq-ok public_key_bytes found (named_mints explicit) ms
        (wrappers-HasKey public_key_bytes deployments) h in
    let names = named_mints-AreNames explicit in
    (
      some_mint,
      All-IsKey public_key_bytes ms keys,
      (
        named_mints explicit,
        names,
        elim which [
          | inr named ↦ inr named
          | inl (none_named, all) ↦ inl (
            none_named,
            subst (AreWrappers public_key_bytes deployments) (sym all)
                (wrappers-AreWrappers public_key_bytes deployments),
          )
        ],
      ),
    )
