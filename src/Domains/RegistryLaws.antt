-- ===== src/Domains/RegistryLaws.antt =====
-- What the two loops of `domainsFromRegistry` keep of the entries.
use rome_solidity.Prelude.{
  ℕ, String, ◌≡◌, refl, sym, ap, ◌∙◌, subst, ◌⊎◌, inl, inr, true, false, Bool-cases, some, List, [],
  ◌∷◌, ◌==◌, nat_eq, arith, contains, ok, throw_if, >>=-eq-ok, if◌then◌else◌, string_eq,
}
use rome_solidity.Prelude.Json.{Json}
use rome_solidity.Domains.{DomainEntry, kind_in}
use rome_solidity.Domains.Registry.{
  twice, counts, is_object, winner, is_same_chain, merge_candidate, merge_candidates,
  registry_domain, registry_kind, registry_loop, not_empty,
}

abbrev pub IsIn : Json → List Json → Type 0
IsIn e [] = ⊥
IsIn e (x ∷ xs) = (x ≡ e) ⊎ IsIn e xs

-- The list has an entry for the domain.
abbrev pub HasDomain : List DomainEntry → ℕ → Type 0
HasDomain es d = (k : ℕ) × (kind_in d es ≡ some k)

winner-counts : (e c : Json) → counts e ≡ true → winner e c ≡ e
unfolding winner
winner-counts e c h = ground arith

winner-second : (e c : Json) → counts e ≡ false → counts c ≡ true → winner e c ≡ c
unfolding winner
winner-second e c h i = ground arith

module _ (text_of : Json → String) where
  -- The entry is of the candidate's chain, or the candidate itself, and it is wanted.
  abbrev pub StandsFor : Json → Json → Type 0
  StandsFor e c = (counts e ≡ true) × ((e ≡ c) ⊎ (is_same_chain text_of e c ≡ true))

  abbrev HasStandIn : Json → List Json → Type 0
  HasStandIn c es = (e : Json) × IsIn e es × StandsFor e c

  pub merge_candidate_same :
      (c e : Json) (es : List Json)
      → is_same_chain text_of e c ≡ true
      → merge_candidate text_of c (e ∷ es) ≡ winner e c ∷ es
  unfolding merge_candidate
  merge_candidate_same c e es h = rw (merge_candidate, h) refl

  pub merge_candidate_other :
      (c e : Json) (es : List Json)
      → is_same_chain text_of e c ≡ false
      → merge_candidate text_of c (e ∷ es) ≡ e ∷ merge_candidate text_of c es
  unfolding merge_candidate
  merge_candidate_other c e es h = rw (merge_candidate, h) refl

  merge_candidate-HasStandIn :
      (c : Json) (es : List Json) → counts c ≡ true → HasStandIn c (merge_candidate text_of c es)
  unfolding merge_candidate
  merge_candidate-HasStandIn c [] h = (c, inl refl, (h, inl refl))
  merge_candidate-HasStandIn c (e ∷ es) h = elim (Bool-cases (is_same_chain text_of e c)) [
    | inr other ↦
        let (f, found, stands) = merge_candidate-HasStandIn c es h in
        (f, subst (IsIn f) (sym (merge_candidate_other c e es other)) (inr found), stands)
    | inl same ↦ elim (Bool-cases (counts e)) [
      | inl wanted ↦ (
        e,
        subst (IsIn e) (sym (merge_candidate_same c e es same)) (inl (winner-counts e c wanted)),
        (wanted, inr same),
      )
      | inr retired ↦ (
        c,
        subst (IsIn c) (sym (merge_candidate_same c e es same)) (inl (winner-second e c retired h)),
        (h, inl refl),
      )
    ]
  ]

  merge_candidate-keeps :
      (c f : Json) (es : List Json)
      → counts f ≡ true
      → IsIn f es
      → IsIn f (merge_candidate text_of c es)
  merge_candidate-keeps c f [] h i = absurd i
  merge_candidate-keeps c f (e ∷ es) h i = elim (Bool-cases (is_same_chain text_of e c)) [
    | inr other ↦
        subst (IsIn f) (sym (merge_candidate_other c e es other))
          (elim i [ inl here ↦ inl here | inr later ↦ inr (merge_candidate-keeps c f es h later) ])
    | inl same ↦ subst (IsIn f) (sym (merge_candidate_same c e es same)) (elim i [
      | inl here ↦ inl (winner-counts e c (ap counts here ∙ h) ∙ here)
      | inr later ↦ inr later
    ])
  ]

  merge_candidates-keeps :
      (cs : List Json) (f : Json) (es : List Json)
      → counts f ≡ true
      → IsIn f es
      → IsIn f (merge_candidates text_of cs es)
  unfolding merge_candidates
  merge_candidates-keeps [] f es h i = i
  merge_candidates-keeps (c ∷ cs) f es h i =
      merge_candidates-keeps cs f (if is_object c then merge_candidate text_of c es else es) h
        (elim (Bool-cases (is_object c)) [
          | inl object ↦ rw object (merge_candidate-keeps c f es h i)
          | inr other ↦ rw other i
        ])

  pub merge_candidates-HasStandIn :
      (cs : List Json) (c : Json) (es : List Json)
      → IsIn c cs
      → is_object c ≡ true
      → counts c ≡ true
      → HasStandIn c (merge_candidates text_of cs es)
  unfolding merge_candidates
  merge_candidates-HasStandIn [] c es i o h = absurd i
  merge_candidates-HasStandIn (b ∷ cs) c es (inr later) o h =
      merge_candidates-HasStandIn cs c (if is_object b then merge_candidate text_of b es else es)
        later o h
  merge_candidates-HasStandIn (b ∷ cs) c es (inl here) o h =
      let (e, found, stands) = merge_candidate-HasStandIn c es h in
      (
        e,
        merge_candidates-keeps cs e (if is_object b then merge_candidate text_of b es else es)
            stands.0
            (subst (λ b. IsIn e (if is_object b then merge_candidate text_of b es else es))
              (sym here) (rw o found)),
        stands,
      )

abbrev entry : ℕ → ℕ → DomainEntry
entry d k = record { domain = d; kind = k }

registry_loop-wanted :
    (seen : List ℕ) (x : Json) (es : List Json) (out : List DomainEntry)
    → counts x ≡ true
    → registry_loop seen (x ∷ es) ≡ ok out
    → (d : ℕ) × (k : ℕ) × (rest : List DomainEntry) × (registry_domain x ≡ ok d)
      × (registry_loop (d ∷ seen) es ≡ ok rest)
      × (entry d k ∷ rest ≡ out)
unfolding registry_loop
registry_loop-wanted seen x es out w h =
    let (d, is, h₁) = >>=-eq-ok (registry_domain x) _ (rw (registry_loop, w) at h) in
    let (u, fresh, h₂) = >>=-eq-ok (throw_if (contains seen d) (twice d)) _ h₁ in
    let (k, kind, h₃) = >>=-eq-ok (registry_kind x d) _ h₂ in
    let (rest, later, h₄) = >>=-eq-ok (registry_loop (d ∷ seen) es) _ h₃ in
    (d, k, rest, is, later, cc)

registry_loop-unwanted :
    (seen : List ℕ) (x : Json) (es : List Json)
    → counts x ≡ false
    → registry_loop seen (x ∷ es) ≡ registry_loop seen es
unfolding registry_loop
registry_loop-unwanted seen x es w = rw (registry_loop, w) refl

HasDomain-here : (d k : ℕ) (es : List DomainEntry) → HasDomain (entry d k ∷ es) d
HasDomain-here d k es = (k, ground arith)

HasDomain-later :
    (d j k : ℕ) (es : List DomainEntry) → HasDomain es d → HasDomain (entry j k ∷ es) d
HasDomain-later d j k es (m, h) = elim (Bool-cases (j == d)) [
  | inl same ↦ (k, ground arith)
  | inr other ↦ (m, ground arith)
]

-- Every wanted entry of the merged list has its domain in the result.
pub registry_loop-HasDomain :
    (seen : List ℕ) (es : List Json) (out : List DomainEntry) (e : Json)
    → registry_loop seen es ≡ ok out
    → IsIn e es
    → counts e ≡ true
    → (d : ℕ) × (registry_domain e ≡ ok d) × HasDomain out d
registry_loop-HasDomain seen [] out e h i w = absurd i
registry_loop-HasDomain seen (x ∷ es) out e h i w = elim (Bool-cases (counts x)) [
  | inr unwanted ↦ elim i [
    | inl here ↦ cc
    | inr later ↦
        registry_loop-HasDomain seen es out e (sym (registry_loop-unwanted seen x es unwanted) ∙ h)
          later w
  ]
  | inl wanted ↦
      let (d, k, rest, is, next, same) = registry_loop-wanted seen x es out wanted h in
      elim i [
        | inl here ↦ (
          d,
          sym (ap registry_domain here) ∙ is,
          subst (λ all. HasDomain all d) same (HasDomain-here d k rest),
        )
        | inr later ↦
            let (n, found, has) = registry_loop-HasDomain (d ∷ seen) es rest e next later w in
            (n, found, subst (λ all. HasDomain all n) same (HasDomain-later n d k rest has))
      ]
]

pub not_empty-eq-ok : (es out : List DomainEntry) → not_empty es ≡ ok out → es ≡ out
unfolding not_empty
not_empty-eq-ok [] out h = cc
not_empty-eq-ok (e ∷ es) out h = cc
