-- ===== src/Domains/Reaches.antt =====
-- The planned calls bring the contract's domain list to the wanted one.
use rome_solidity.Prelude.{
  ℕ, String, ◌≡◌, refl, sym, ◌∙◌, Bool, true, false, Option, none, some, List, [], ◌∷◌, arith,
  nat_eq, if◌then◌else◌, lookup, remove, lookup-remove, is_some, Bool-cases, not, ◌&&◌, inl, inr,
}
use rome_solidity.Domains.{DomainEntry, kind_in, Distinct}
use rome_solidity.Domains.Plan.{
  PlannedCall, disable_call, plan_disables, plan_domain_changes, sort_by_domain, insert_sorted,
  map_of,
}
use rome_solidity.Domains.Maps.{kind_in-sort_by_domain, Distinct-sort_by_domain, lookup-map_of}
use rome_solidity.Domains.Contract.{disable_domain, run_call, run_calls}
use rome_solidity.Domains.Enables.{
  IsEnableable, AllEnableable, Holds, run_calls-append, Leads, run_enables,
}

module _ (circle_accepts : ℕ → ℕ → Bool) where
  module _ (encode : String → List ℕ → String) where
    -- What the disable calls lead to
    abbrev after_disables : List (ℕ × ℕ) → List DomainEntry → List (ℕ × ℕ) → ℕ → Option ℕ
    after_disables want es m d =
        if is_some (kind_in d es) && not (is_some (lookup d want)) then none else lookup d m

    Leads-disable :
        (want : List (ℕ × ℕ)) (e : DomainEntry) (es : List DomainEntry) (calls : List PlannedCall)
        (m : List (ℕ × ℕ))
        → is_some (lookup e.domain want) ≡ false
        → is_some (lookup e.domain m) ≡ true
        → Leads circle_accepts encode calls
            (remove e.domain m)
            (after_disables want es (remove e.domain m))
        → Leads circle_accepts encode
            (disable_call encode e ∷ calls)
            m
            (after_disables want (e ∷ es) m)
    unfolding run_calls run_call disable_domain
    Leads-disable want e es calls m unwanted there (m', ran, found) =
        (m', ground arith, λ d. ground (arith, found d, lookup-remove e.domain d m))

    -- Every domain of the list is in the map, unless it is wanted.
    abbrev Present : List (ℕ × ℕ) → List DomainEntry → List (ℕ × ℕ) → Type 0
    Present want es m =
        (d : ℕ)
        → is_some (kind_in d es) ≡ true
        → is_some (lookup d want) ≡ false
        → is_some (lookup d m) ≡ true

    run_disables :
        (want : List (ℕ × ℕ)) (es : List DomainEntry) (m : List (ℕ × ℕ))
        → Distinct es
        → Present want es m
        → Leads circle_accepts encode (plan_disables encode want es) m (after_disables want es m)
    unfolding plan_disables
    run_disables want [] m u there = (m, unfold run_calls in refl, λ d. refl)
    run_disables want (e ∷ es) m (fresh, u) there =
        elim (Bool-cases (is_some (lookup e.domain want))) [
          | inl wanted ↦
              let (m', ran, found) = run_disables want es m u (λ d h k. ground (arith, there d)) in
              (m', ground arith, λ d. ground (arith, found d))
          | inr unwanted ↦
              rw (unwanted, plan_disables)
                (Leads-disable want e es _ m unwanted (ground (arith, there e.domain)) (
                  run_disables want es (remove e.domain m) u
                    (λ d h k. ground (arith, there d, lookup-remove e.domain d m))))
        ]

    AllEnableable-insert_sorted :
        (e : DomainEntry) (xs : List DomainEntry)
        → IsEnableable circle_accepts e
        → AllEnableable circle_accepts xs
        → AllEnableable circle_accepts (insert_sorted e xs)
    unfolding insert_sorted
    AllEnableable-insert_sorted e [] h k = (h, tt)
    AllEnableable-insert_sorted e (x ∷ xs) h k = ground (arith, AllEnableable-insert_sorted e xs h)

    AllEnableable-sort_by_domain :
        (xs : List DomainEntry)
        → AllEnableable circle_accepts xs
        → AllEnableable circle_accepts (sort_by_domain xs)
    unfolding sort_by_domain
    AllEnableable-sort_by_domain [] h = tt
    AllEnableable-sort_by_domain (e ∷ es) (h, k) =
        AllEnableable-insert_sorted e _ h (AllEnableable-sort_by_domain es k)

    -- From a contract whose list is `on_chain`, the planned calls run in their order without a
    -- revert, and leave exactly the wanted domains, each with its wanted kind. Neither list names
    -- a domain twice, and the contract and Circle's record accept every wanted entry.
    pub run-plan_domain_changes :
        (wanted on_chain : List DomainEntry) (m : List (ℕ × ℕ))
        → Distinct wanted
        → Distinct on_chain
        → AllEnableable circle_accepts wanted
        → Holds circle_accepts m on_chain
        → (m' : List (ℕ × ℕ)) × (run_calls circle_accepts
              (plan_domain_changes encode wanted on_chain).calls
              m
            ≡ some m')
          × Holds circle_accepts m' wanted
    unfolding plan_domain_changes
    run-plan_domain_changes wanted on_chain m u v ok_all holds =
        let (m₁, ran₁, found₁) =
          run_enables circle_accepts encode (map_of on_chain) (sort_by_domain wanted) m
            (Distinct-sort_by_domain wanted u) (AllEnableable-sort_by_domain wanted ok_all)
            (λ d h. holds d ∙ sym (lookup-map_of d on_chain v)) in
        let (m₂, ran₂, found₂) =
          run_disables (map_of wanted) (sort_by_domain on_chain) m₁
            (Distinct-sort_by_domain on_chain v)
            (λ d h k. ground (
              arith,
              found₁ d,
              holds d,
              lookup-map_of d wanted u,
              kind_in-sort_by_domain d wanted,
              kind_in-sort_by_domain d on_chain,
            )) in
        (
          m₂,
          run_calls-append circle_accepts _
                (plan_disables encode (map_of wanted) (sort_by_domain on_chain)) m m₁ ran₁
              ∙ ran₂,
          λ d. ground (
            arith,
            found₁ d,
            found₂ d,
            holds d,
            lookup-map_of d wanted u,
            kind_in-sort_by_domain d wanted,
            kind_in-sort_by_domain d on_chain,
          ),
        )
