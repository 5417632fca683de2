-- ===== src/Domains/InSync.antt =====
-- A chain that holds the wanted list needs no calls.
use rome_solidity.Prelude.{
  ℕ, String, ◌≡◌, refl, sym, ◌∙◌, true, some, List, [], ◌∷◌, arith, nat_eq, lookup, is_some,
}
use rome_solidity.Domains.{DomainEntry, kind_in, Distinct}
use rome_solidity.Domains.Plan.{
  plan_enables, plan_disables, plan_domain_changes, sort_by_domain, map_of,
}
use rome_solidity.Domains.Maps.{kind_in-sort_by_domain, Distinct-sort_by_domain, lookup-map_of}

module _ (encode : String → List ℕ → String) where
  plan_enables-nil :
      (chain : List (ℕ × ℕ)) (es : List DomainEntry)
      → Distinct es
      → ((d : ℕ) → is_some (kind_in d es) ≡ true → lookup d chain ≡ kind_in d es)
      → (plan_enables encode chain es).0 ≡ []
  unfolding plan_enables
  plan_enables-nil chain [] u agree = refl
  plan_enables-nil chain (e ∷ es) (fresh, u) agree =
      let rest = plan_enables-nil chain es u (λ d h. ground (arith, agree d)) in
      let there : lookup e.domain chain ≡ some e.kind = ground (arith, agree e.domain) in
      ground arith

  plan_disables-nil :
      (want : List (ℕ × ℕ)) (es : List DomainEntry)
      → ((d : ℕ) → is_some (kind_in d es) ≡ true → is_some (lookup d want) ≡ true)
      → plan_disables encode want es ≡ []
  unfolding plan_disables
  plan_disables-nil want [] wanted = refl
  plan_disables-nil want (e ∷ es) wanted =
      let rest = plan_disables-nil want es (λ d h. ground (arith, wanted d)) in
      ground (arith, wanted e.domain)

  -- Where the chain's list gives every domain what the wanted list gives it, in whatever order, and
  -- neither repeats a domain, the plan has no calls.
  pub plan_domain_changes-nil :
      (wanted on_chain : List DomainEntry)
      → Distinct wanted
      → Distinct on_chain
      → ((d : ℕ) → kind_in d on_chain ≡ kind_in d wanted)
      → (plan_domain_changes encode wanted on_chain).calls ≡ []
  unfolding plan_domain_changes
  plan_domain_changes-nil wanted on_chain u v same =
      let enables =
        plan_enables-nil (map_of on_chain) (sort_by_domain wanted)
          (Distinct-sort_by_domain wanted u)
          (λ d h. lookup-map_of d on_chain v ∙ same d ∙ sym (kind_in-sort_by_domain d wanted)) in
      let disables = plan_disables-nil (map_of wanted) (sort_by_domain on_chain) (λ d h.
        ground (arith, lookup-map_of d wanted u, same d, kind_in-sort_by_domain d on_chain)) in
      rw (enables, disables) refl
