-- ===== src/Domains/RegistryWanted.antt =====
-- No chain that the registry lists as live is left out of the wanted list.
use rome_solidity.Prelude.{
  ℕ, String, ◌≡◌, ◌≢◌, ◌↔◌, refl, sym, ap, ◌∙◌, subst, ◌⊎◌, inl, inr, true, false, Bool-cases,
  Option, none, some, is_some, Option-cases, List, [], ◌∷◌, string_eq, nat_eq, eq_iff, arith,
  lookup, Result, ok, err, >>=-eq-ok, if◌then◌else◌,
}
use rome_solidity.Prelude.Json.{
  Json, null, bool, num, str, arr, obj, Items, nil, cons, get_in, as_text,
}
use rome_solidity.Prelude.Number.{whole, negative, not_whole}
use rome_solidity.Domains.{DomainEntry, refused_domains}
use rome_solidity.Domains.Registry.{
  RegistryError, refused, not_nullish, is_live_status, counts, items, list_of, is_object,
  candidates, winner, is_same_chain, merge_candidate, merge_candidates, domain_in_range,
  registry_domain, registry_loop, not_empty, domains_from_registry,
}
use rome_solidity.Domains.RegistryLaws.{
  IsIn, HasDomain, merge_candidate_same, merge_candidate_other, merge_candidates-HasStandIn,
  registry_loop-HasDomain, not_empty-eq-ok,
}

-- An entry of the registry: `sourceEvm`, or an item of `sourceEvms`
abbrev pub IsItem : Json → Items → Type 0
IsItem e nil = ⊥
IsItem e (cons v vs) = (v ≡ e) ⊎ IsItem e vs

abbrev pub IsListed : Option Json → Json → Type 0
IsListed root e =
    (get_in "sourceEvm" root ≡ some e)
    ⊎ ((vs : Items) × (get_in "sourceEvms" root ≡ some (arr vs)) × IsItem e vs)

-- The entry has a domain, and is live or preparing, where no status counts as live.
abbrev pub IsWanted : Json → Type 0
IsWanted e =
    ((v : Json) × (get_in "cctpDomain" (some e) ≡ some v) × (v ≢ null))
    × ((get_in "status" (some e) ≡ none)
        ⊎ (as_text (get_in "status" (some e)) ≡ some "live")
        ⊎ (as_text (get_in "status" (some e)) ≡ some "preparing"))

-- Two entries with a chain id that prints the same
abbrev pub AreSameChain : (Json → String) → Json → Json → Type 0
AreSameChain text_of e c =
    (v : Json) × (w : Json) × (get_in "chainId" (some e) ≡ some v)
    × (get_in "chainId" (some c) ≡ some w)
    × (v ≢ null)
    × (w ≢ null)
    × (text_of v ≡ text_of w)

not_nullish-eq-some :
    (o : Option Json) (v : Json) → not_nullish o ≡ some v → (o ≡ some v) × (v ≢ null)
unfolding not_nullish
not_nullish-eq-some none v h = cc
not_nullish-eq-some (some null) v h = cc
not_nullish-eq-some (some (bool b)) v h = (h, λ e. cc)
not_nullish-eq-some (some (num n)) v h = (h, λ e. cc)
not_nullish-eq-some (some (str t)) v h = (h, λ e. cc)
not_nullish-eq-some (some (arr vs)) v h = (h, λ e. cc)
not_nullish-eq-some (some (obj fs)) v h = (h, λ e. cc)

not_nullish-present : (v : Json) → v ≢ null → not_nullish (some v) ≡ some v
unfolding not_nullish
not_nullish-present null h = absurd (h refl)
not_nullish-present (bool b) h = refl
not_nullish-present (num n) h = refl
not_nullish-present (str t) h = refl
not_nullish-present (arr vs) h = refl
not_nullish-present (obj fs) h = refl

is_live_status_iff :
    (o : Option Json)
    → (is_live_status o ≡ true)
      ↔ ((o ≡ none) ⊎ (as_text o ≡ some "live") ⊎ (as_text o ≡ some "preparing"))
unfolding is_live_status
is_live_status_iff none = ground arith
is_live_status_iff (some v) = elim (Option-cases (as_text (some v))) [
  | inl other ↦ ground arith
  | inr (t, is) ↦ ground (arith, eq_iff t "live", eq_iff t "preparing")
]

counts-IsWanted : (e : Json) → counts e ≡ true → IsWanted e
unfolding counts
counts-IsWanted e h =
    let status = (is_live_status_iff (get_in "status" (some e))).0 (ground arith) in
    elim (Option-cases (not_nullish (get_in "cctpDomain" (some e)))) [
      | inl absent ↦ absurd (ground arith)
      | inr (v, is) ↦
          let (there, full) = not_nullish-eq-some (get_in "cctpDomain" (some e)) v is in
          ((v, there, full), status)
    ]

IsWanted-counts : (e : Json) → IsWanted e → counts e ≡ true
unfolding counts
IsWanted-counts e ((v, there, full), status) =
    let live = (is_live_status_iff (get_in "status" (some e))).1 status in
    rw (counts, there, not_nullish-present v full, live) refl

IsWanted-is_object : (e : Json) → IsWanted e → is_object e ≡ true
unfolding get_in
IsWanted-is_object null ((v, there, _), _) = cc
IsWanted-is_object (bool b) ((v, there, _), _) = cc
IsWanted-is_object (num n) ((v, there, _), _) = cc
IsWanted-is_object (str t) ((v, there, _), _) = cc
IsWanted-is_object (arr vs) w = refl
IsWanted-is_object (obj fs) w = refl

items-IsIn_iff : (e : Json) (vs : Items) → IsIn e (items vs) ↔ IsItem e vs
items-IsIn_iff e nil = (λ i. i, λ i. i)
items-IsIn_iff e (cons v vs) =
    let rest = items-IsIn_iff e vs in
    (
      λ i. elim i [ inl here ↦ inl here | inr later ↦ inr (rest.0 later) ],
      λ i. elim i [ inl here ↦ inl here | inr later ↦ inr (rest.1 later) ],
    )

list_of-IsIn_iff :
    (e : Json) (o : Option Json)
    → IsIn e (list_of o) ↔ ((vs : Items) × (o ≡ some (arr vs)) × IsItem e vs)
list_of-IsIn_iff e none = (λ i. absurd i, λ (vs, is, i). cc)
list_of-IsIn_iff e (some null) = (λ i. absurd i, λ (vs, is, i). cc)
list_of-IsIn_iff e (some (bool b)) = (λ i. absurd i, λ (vs, is, i). cc)
list_of-IsIn_iff e (some (num n)) = (λ i. absurd i, λ (vs, is, i). cc)
list_of-IsIn_iff e (some (str t)) = (λ i. absurd i, λ (vs, is, i). cc)
list_of-IsIn_iff e (some (obj fs)) = (λ i. absurd i, λ (vs, is, i). cc)
list_of-IsIn_iff e (some (arr us)) = (
  λ i. (us, refl, (items-IsIn_iff e us).0 i),
  λ (vs, is, i). (items-IsIn_iff e us).1 (subst (IsItem e) (sym (arr-inj is)) i),
)
  where
    arr-inj : {xs ys : Items} → some (arr xs) ≡ some (arr ys) → xs ≡ ys
    arr-inj h = cc

candidates-IsListed_iff :
    (root : Option Json) (e : Json) → IsIn e (candidates root) ↔ IsListed root e
unfolding candidates
candidates-IsListed_iff root e =
    let rest = list_of-IsIn_iff e (get_in "sourceEvms" root) in
    elim (Option-cases (get_in "sourceEvm" root)) [
      | inl absent ↦
          rw absent (λ i. inr (rest.0 i), λ i. elim i [ inl is ↦ cc | inr later ↦ rest.1 later ])
      | inr (c, there) ↦ rw there (
        λ i. elim i [ inl here ↦ inl (ap some here) | inr later ↦ inr (rest.0 later) ],
        λ i. elim i [ inl is ↦ inl (some-inj is) | inr later ↦ inr (rest.1 later) ],
      )
    ]
  where
    some-inj : {x y : Json} → some x ≡ some y → x ≡ y
    some-inj h = cc

winner-either : (e c : Json) → (winner e c ≡ e) ⊎ (winner e c ≡ c)
unfolding winner
winner-either e c = elim (Bool-cases (counts e)) [
  | inl kept ↦ inl (ground arith)
  | inr retired ↦ elim (Bool-cases (counts c)) [
    | inl taken ↦ inr (ground arith)
    | inr neither ↦ inl (ground arith)
  ]
]

module _ (text_of : Json → String) where
  is_same_chain-AreSameChain :
      (e c : Json) → is_same_chain text_of e c ≡ true → AreSameChain text_of e c
  unfolding is_same_chain
  is_same_chain-AreSameChain e c h = elim (Option-cases (not_nullish (get_in "chainId" (some e)))) [
    | inl absent ↦ absurd (false-true (rw (is_same_chain, absent) at h))
    | inr (v, is) ↦ elim (Option-cases (not_nullish (get_in "chainId" (some c)))) [
      | inl absent ↦ absurd (false-true (rw (is_same_chain, is, absent) at h))
      | inr (w, also) ↦
          let (there, full) = not_nullish-eq-some (get_in "chainId" (some e)) v is in
          let (here, fuller) = not_nullish-eq-some (get_in "chainId" (some c)) w also in
          (
            v,
            w,
            there,
            here,
            full,
            fuller,
            (eq_iff (text_of v) (text_of w)).0 (rw (is_same_chain, is, also) at h),
          )
    ]
  ]
    where
      false-true : false ≢ true
      false-true h = cc

  merge_candidate-IsIn :
      (c f : Json) (es : List Json) → IsIn f (merge_candidate text_of c es) → (f ≡ c) ⊎ IsIn f es
  unfolding merge_candidate
  merge_candidate-IsIn c f [] i = elim i [ inl here ↦ inl (sym here) | inr later ↦ absurd later ]
  merge_candidate-IsIn c f (e ∷ es) i = elim (Bool-cases (is_same_chain text_of e c)) [
    | inr other ↦ elim (subst (IsIn f) (merge_candidate_other text_of c e es other) i) [
      | inl here ↦ inr (inl here)
      | inr later ↦ elim (merge_candidate-IsIn c f es later) [
        | inl is ↦ inl is
        | inr old ↦ inr (inr old)
      ]
    ]
    | inl same ↦ elim (subst (IsIn f) (merge_candidate_same text_of c e es same) i) [
      | inl here ↦ elim (winner-either e c) [
        | inl first ↦ inr (inl (sym first ∙ here))
        | inr second ↦ inl (sym here ∙ second)
      ]
      | inr later ↦ inr (inr later)
    ]
  ]

  merge_candidates-IsIn :
      (cs : List Json) (f : Json) (es : List Json)
      → IsIn f (merge_candidates text_of cs es)
      → IsIn f cs ⊎ IsIn f es
  unfolding merge_candidates
  merge_candidates-IsIn [] f es i = inr i
  merge_candidates-IsIn (c ∷ cs) f es i =
      let next = if is_object c then merge_candidate text_of c es else es in
      elim (merge_candidates-IsIn cs f next i) [
        | inl later ↦ inl (inr later)
        | inr old ↦ elim (Bool-cases (is_object c)) [
          | inr other ↦ inr (rw other at old)
          | inl object ↦ elim (merge_candidate-IsIn c f es (rw object at old)) [
            | inl is ↦ inl (inl (sym is))
            | inr older ↦ inr older
          ]
        ]
      ]

domain_in_range-eq-some : (v : Json) (d : ℕ) → domain_in_range v ≡ some d → v ≡ num (whole d)
unfolding domain_in_range
domain_in_range-eq-some null d h = cc
domain_in_range-eq-some (bool b) d h = cc
domain_in_range-eq-some (num (whole n)) d h = ap (λ k. num (whole k)) (ground arith)
domain_in_range-eq-some (num (negative n)) d h = cc
domain_in_range-eq-some (num not_whole) d h = cc
domain_in_range-eq-some (str t) d h = cc
domain_in_range-eq-some (arr vs) d h = cc
domain_in_range-eq-some (obj fs) d h = cc

registry_domain-eq-ok :
    (e : Json) (d : ℕ)
    → registry_domain e ≡ ok d
    → get_in "cctpDomain" (some e) ≡ some (num (whole d))
unfolding registry_domain
registry_domain-eq-ok e d h = elim (Option-cases (not_nullish (get_in "cctpDomain" (some e)))) [
  | inl absent ↦ absurd (err-ok (rw (registry_domain, absent) at h))
  | inr (v, is) ↦ elim (Option-cases (domain_in_range v)) [
    | inl outside ↦ absurd (err-ok (rw (registry_domain, is, outside) at h))
    | inr (n, inside) ↦
        let there = (not_nullish-eq-some (get_in "cctpDomain" (some e)) v is).0 in
        let given = rw (registry_domain, is, inside) at h in
        there
        ∙ ap some (domain_in_range-eq-some v n inside)
        ∙ ap (λ k. some (num (whole k))) (unrefused n given)
  ]
]
  where
    err-ok : {x : RegistryError} → ◌≢◌ {A = Result RegistryError ℕ} (err x) (ok d)
    err-ok e = cc

    ok-inj : {n m : ℕ} → ◌≡◌ {A = Result RegistryError ℕ} (ok n) (ok m) → n ≡ m
    ok-inj e = cc

    unrefused :
        (n : ℕ)
        → ◌≡◌ {A = Result RegistryError ℕ}
            (if is_some (lookup n refused_domains) then err (refused n) else ok n)
            (ok d)
        → n ≡ d
    unrefused n e = elim (Bool-cases (is_some (lookup n refused_domains))) [
      | inl yes_refused ↦ absurd (err-ok (rw yes_refused at e))
      | inr free ↦ ok-inj (rw free at e)
    ]

-- Where the registry gives a wanted list, every entry of it that has a domain and is live or preparing,
-- or else another wanted entry of the registry with the same chain id, has its domain in the list.
pub domains_from_registry-HasDomain :
    (text_of : Json → String) (root : Option Json) (out : List DomainEntry) (c : Json)
    → domains_from_registry text_of root ≡ ok out
    → IsListed root c
    → IsWanted c
    → (e : Json) × IsListed root e
      × IsWanted e
      × ((e ≡ c) ⊎ AreSameChain text_of e c)
      × ((d : ℕ) × (get_in "cctpDomain" (some e) ≡ some (num (whole d))) × HasDomain out d)
unfolding domains_from_registry
domains_from_registry-HasDomain text_of root out c h i w =
    let merged = merge_candidates text_of (candidates root) [] in
    let (found, is, full) = >>=-eq-ok (registry_loop [] merged) not_empty h in
    let (e, here, (wanted, stands)) =
      merge_candidates-HasStandIn text_of (candidates root) c []
        ((candidates-IsListed_iff root c).1 i) (IsWanted-is_object c w) (IsWanted-counts c w) in
    let (d, read, has) =
      registry_loop-HasDomain [] merged out e (is ∙ ap ok (not_empty-eq-ok found out full)) here
        wanted in
    let listed : IsIn e (candidates root) =
      elim (merge_candidates-IsIn text_of (candidates root) e [] here) [
        | inl there ↦ there
        | inr nothing ↦ absurd nothing
      ] in
    (
      e,
      (candidates-IsListed_iff root e).0 listed,
      counts-IsWanted e wanted,
      elim stands [
        | inl same ↦ inl same
        | inr chain ↦ inr (is_same_chain-AreSameChain text_of e c chain)
      ],
      (d, registry_domain-eq-ok e d read, has),
    )
