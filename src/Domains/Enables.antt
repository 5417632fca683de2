-- ===== src/Domains/Enables.antt =====
-- The enable calls of a plan, run on the contract's domain list.
use rome_solidity.Prelude.{
  ℕ, String, ◌≡◌, refl, ◌∙◌, ◌⊎◌, ◌≢◌, Bool, true, false, Option, none, some, List, [], ◌∷◌, ◌++◌,
  arith, ◌==◌, nat_eq, if◌then◌else◌, lookup, insert, lookup-insert, is_some, Option-cases,
  Bool-cases, inl, inr,
}
use rome_solidity.Domains.{DomainEntry, kind_in, Distinct, kind_evm, kind_raw32}
use rome_solidity.Domains.Plan.{
  PlannedCall, enable_call, missing_on_chain, kind_differs, ChangeReason, plan_enables,
}
use rome_solidity.Domains.Contract.{enable_domain, run_call, run_calls}

module _ (circle_accepts : ℕ → ℕ → Bool) where
  -- The contract would enable the entry.
  abbrev pub IsEnableable : DomainEntry → Type 0
  IsEnableable e =
      ((e.kind ≡ kind_evm) ⊎ (e.kind ≡ kind_raw32))
      × (e.domain ≢ 5)
      × (e.domain ≢ 17)
      × (e.domain ≢ 27)
      × (circle_accepts e.domain e.kind ≡ true)

  -- It would enable every entry of the list.
  abbrev pub AllEnableable : List DomainEntry → Type 0
  AllEnableable [] = Unit
  AllEnableable (e ∷ es) = IsEnableable e × AllEnableable es

  -- The contract's map holds exactly what the list says.
  abbrev pub Holds : List (ℕ × ℕ) → List DomainEntry → Type 0
  Holds m es = (d : ℕ) → lookup d m ≡ kind_in d es

  pub run_calls-append :
      (xs ys : List PlannedCall) (m m' : List (ℕ × ℕ))
      → run_calls circle_accepts xs m ≡ some m'
      → run_calls circle_accepts (xs ++ ys) m ≡ run_calls circle_accepts ys m'
  unfolding run_calls
  run_calls-append [] ys m m' h = ground arith
  run_calls-append (x ∷ xs) ys m m' h = elim (Option-cases (run_call circle_accepts x m)) [
    | inl e ↦ ground arith
    | inr (m₁, e) ↦ ground (arith, run_calls-append xs ys m₁ m')
  ]

  enable_domain_ok :
      (e : DomainEntry) (m : List (ℕ × ℕ))
      → IsEnableable e
      → enable_domain circle_accepts e.domain e.kind m ≡ some (insert e.domain e.kind m)
  unfolding enable_domain
  enable_domain_ok e m h = ground arith

  module _ (encode : String → List ℕ → String) where
    -- What a run of calls leads to: it succeeds, and every domain is found as stated.
    abbrev pub Leads : List PlannedCall → List (ℕ × ℕ) → (ℕ → Option ℕ) → Type 0
    Leads calls m found =
        (m' : List (ℕ × ℕ)) × (run_calls circle_accepts calls m ≡ some m')
        × ((d : ℕ) → lookup d m' ≡ found d)

    run_enable :
        (e : DomainEntry) (reason : ChangeReason) (calls : List PlannedCall) (m : List (ℕ × ℕ))
        → IsEnableable e
        → run_calls circle_accepts (enable_call encode e reason ∷ calls) m
          ≡ run_calls circle_accepts calls (insert e.domain e.kind m)
    unfolding run_calls run_call
    run_enable e reason calls m h = rw (enable_domain_ok e m h, run_calls)

    plan_missing :
        (chain : List (ℕ × ℕ)) (e : DomainEntry) (es : List DomainEntry)
        → lookup e.domain chain ≡ none
        → (plan_enables encode chain (e ∷ es)).0
          ≡ enable_call encode e missing_on_chain ∷ (plan_enables encode chain es).0
    unfolding plan_enables
    plan_missing chain e es h = ground arith

    plan_differs :
        (chain : List (ℕ × ℕ)) (e : DomainEntry) (es : List DomainEntry) (have : ℕ)
        → lookup e.domain chain ≡ some have
        → (have == e.kind) ≡ false
        → (plan_enables encode chain (e ∷ es)).0
          ≡ enable_call encode e kind_differs ∷ (plan_enables encode chain es).0
    unfolding plan_enables
    plan_differs chain e es have h k = ground arith

    plan_same :
        (chain : List (ℕ × ℕ)) (e : DomainEntry) (es : List DomainEntry) (have : ℕ)
        → lookup e.domain chain ≡ some have
        → (have == e.kind) ≡ true
        → (plan_enables encode chain (e ∷ es)).0 ≡ (plan_enables encode chain es).0
    unfolding plan_enables
    plan_same chain e es have h k = ground arith

    -- What the enable calls lead to
    abbrev pub after_enables : List DomainEntry → List (ℕ × ℕ) → ℕ → Option ℕ
    after_enables es m d = if is_some (kind_in d es) then kind_in d es else lookup d m

    -- The chain's map as it was, at the domains of the list
    abbrev AgreesOn : List DomainEntry → List (ℕ × ℕ) → List (ℕ × ℕ) → Type 0
    AgreesOn es m chain = (d : ℕ) → is_some (kind_in d es) ≡ true → lookup d m ≡ lookup d chain

    AgreesOn-insert :
        (e : DomainEntry) (es : List DomainEntry) (m chain : List (ℕ × ℕ))
        → kind_in e.domain es ≡ none
        → AgreesOn (e ∷ es) m chain
        → AgreesOn es (insert e.domain e.kind m) chain
    AgreesOn-insert e es m chain fresh agree d h =
        ground (arith, agree d, lookup-insert e.domain d e.kind m)

    AgreesOn-tail :
        (e : DomainEntry) (es : List DomainEntry) (m chain : List (ℕ × ℕ))
        → AgreesOn (e ∷ es) m chain
        → AgreesOn es m chain
    AgreesOn-tail e es m chain agree d h = ground (arith, agree d)

    -- One enable call in front of a run
    Leads-enable :
        (e : DomainEntry) (es : List DomainEntry) (reason : ChangeReason) (calls : List PlannedCall)
        (m : List (ℕ × ℕ))
        → kind_in e.domain es ≡ none
        → IsEnableable e
        → Leads calls (insert e.domain e.kind m) (after_enables es (insert e.domain e.kind m))
        → Leads (enable_call encode e reason ∷ calls) m (after_enables (e ∷ es) m)
    Leads-enable e es reason calls m fresh v (m', ran, found) = (
      m',
      run_enable e reason calls m v ∙ ran,
      λ d. ground (arith, found d, lookup-insert e.domain d e.kind m),
    )

    pub run_enables :
        (chain : List (ℕ × ℕ)) (es : List DomainEntry) (m : List (ℕ × ℕ))
        → Distinct es
        → AllEnableable es
        → AgreesOn es m chain
        → Leads (plan_enables encode chain es).0 m (after_enables es m)
    run_enables chain [] m u v agree = (m, unfold run_calls plan_enables in refl, λ d. refl)
    run_enables chain (e ∷ es) m (fresh, u) (v, vs) agree =
        let again : Leads (plan_enables encode chain es).0 (insert e.domain e.kind m)
            (after_enables es (insert e.domain e.kind m)) =
          run_enables chain es (insert e.domain e.kind m) u vs
            (AgreesOn-insert e es m chain fresh agree) in
        let kept : Leads (plan_enables encode chain es).0 m (after_enables es m) =
          run_enables chain es m u vs (AgreesOn-tail e es m chain agree) in
        elim (Option-cases (lookup e.domain chain)) [
          | inl missing ↦
              rw (plan_missing chain e es missing)
                (Leads-enable e es missing_on_chain _ m fresh v again)
          | inr (have, there) ↦ elim (Bool-cases (have == e.kind)) [
            | inl same ↦
                rw (plan_same chain e es have there same)
                  (kept.0, kept.1, λ d. ground (arith, kept.2 d, agree d))
            | inr differs ↦
                rw (plan_differs chain e es have there differs)
                  (Leads-enable e es kind_differs _ m fresh v again)
          ]
        ]
