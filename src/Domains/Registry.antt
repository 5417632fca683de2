-- ===== src/Domains/Registry.antt =====
-- scripts/bridge/lib/cctp-domain-plan.ts: `domainsFromRegistry`, the wanted list of a registry's
-- bridge.json. JavaScript's `String` of a JSON value is an argument.
use rome_solidity.Prelude.{
  ℕ, String, Bool, true, false, not, ◌&&◌, ◌||◌, Option, none, some, is_some, List, [], ◌∷◌, ltb,
  leb, ◌==◌, nat_eq, string_eq, if◌then◌else◌, contains, lookup, Result, ok, err, ◌>>=◌, throw_if,
}
use rome_solidity.Prelude.Json.{Json, null, num, arr, obj, Items, nil, cons, get_in, as_text}
use rome_solidity.Prelude.Number.{whole, max_safe}
use rome_solidity.Prelude.Text.{to_lower}
use rome_solidity.Domains.{kind_evm, kind_raw32, refused_domains, DomainEntry}

pub data RegistryError : Type 0 where
  bad_domain : Option Json → Json → RegistryError
  refused : ℕ → RegistryError
  twice : ℕ → RegistryError
  bad_kind : ℕ → String → RegistryError
  no_destination : RegistryError

-- `x === undefined || x === null` does not hold
unfoldable pub not_nullish : Option Json → Option Json
not_nullish none = none
not_nullish (some null) = none
not_nullish (some v) = some v

abbrev pub is_live_text : String → Bool
is_live_text s = s == "live" || s == "preparing"

-- The status of an entry, where none counts as live
unfoldable pub is_live_status : Option Json → Bool
is_live_status none = true
is_live_status (some v) = elim (as_text (some v)) [ none ↦ false | some s ↦ is_live_text s ]

-- An entry that would be wanted
unfoldable pub counts : Json → Bool
unfolding not_nullish is_live_status
counts c =
    is_some (not_nullish (get_in "cctpDomain" (some c)))
    && is_live_status (get_in "status" (some c))

abbrev pub items : Items → List Json
items nil = []
items (cons v vs) = v ∷ items vs

abbrev pub list_of : Option Json → List Json
list_of (some (arr vs)) = items vs
list_of _ = []

-- `typeof c === "object"`, and not null
abbrev pub is_object : Json → Bool
is_object (obj fs) = true
is_object (arr vs) = true
is_object _ = false

abbrev pub with_first : Option Json → List Json → List Json
with_first none cs = cs
with_first (some c) cs = c ∷ cs

unfoldable pub candidates : Option Json → List Json
candidates root = with_first (get_in "sourceEvm" root) (list_of (get_in "sourceEvms" root))

-- The entry at a place where the same chain has come before: the first, unless it is not wanted and
-- the second is
unfoldable pub winner : Json → Json → Json
winner e c = if not (counts e) && counts c then c else e

module _ (text_of : Json → String) where
  -- The key of `byChain`
  abbrev pub chain_key : Json → Option String
  chain_key c = elim (not_nullish (get_in "chainId" (some c))) [
    | none ↦ none
    | some v ↦ some (text_of v)
  ]

  -- `byChain.get(key)` finds the entry: each key has one, and it keeps its key when it is replaced.
  unfoldable pub is_same_chain : Json → Json → Bool
  unfolding not_nullish
  is_same_chain e c = elim (chain_key e) [
    | none ↦ false
    | some k ↦ elim (chain_key c) [ none ↦ false | some j ↦ k == j ]
  ]

  -- One round of the first loop, from the test of `byChain` on
  unfoldable pub merge_candidate : Json → List Json → List Json
  unfolding winner
  merge_candidate c [] = c ∷ []
  merge_candidate c (e ∷ es) =
      let rest = merge_candidate c es in if is_same_chain e c then winner e c ∷ es else e ∷ rest

  unfoldable pub merge_candidates : List Json → List Json → List Json
  unfolding merge_candidate
  merge_candidates [] es = es
  merge_candidates (c ∷ cs) es =
      merge_candidates cs (if is_object c then merge_candidate c es else es)

unfoldable pub domain_in_range : Json → Option ℕ
domain_in_range (num (whole d)) = if leb d max_safe && not (ltb 0xffffffff d) then some d else none
domain_in_range _ = none

-- The domain of an entry that has one, or the first errors that it can give
unfoldable pub registry_domain : Json → Result RegistryError ℕ
unfolding not_nullish domain_in_range
registry_domain e = elim (not_nullish (get_in "cctpDomain" (some e))) [
  | none ↦ err (bad_domain (get_in "name" (some e)) null)
  | some v ↦ elim (domain_in_range v) [
    | none ↦ err (bad_domain (get_in "name" (some e)) v)
    | some d ↦ if is_some (lookup d refused_domains) then err (refused d) else ok d
  ]
]

unfoldable pub kind_of_text : String → ℕ → Result RegistryError ℕ
kind_of_text raw domain =
    let k = to_lower raw in
    if k == "evm"
    then ok kind_evm
    else if k == "raw32"
    then ok kind_raw32
    else err (bad_kind domain raw)

unfoldable pub registry_kind : Json → ℕ → Result RegistryError ℕ
unfolding kind_of_text
registry_kind e domain = elim (as_text (get_in "cctpRecipientKind" (some e))) [
  | none ↦ ok kind_evm
  | some raw ↦ kind_of_text raw domain
]

-- The second loop
unfoldable pub registry_loop : List ℕ → List Json → Result RegistryError (List DomainEntry)
unfolding counts registry_domain registry_kind
registry_loop seen [] = ok []
registry_loop seen (e ∷ es) = elim (counts e) [
  | false ↦ registry_loop seen es
  | true ↦ registry_domain e >>= λ domain. throw_if (contains seen domain) (twice domain) >>= λ u.
      registry_kind e domain >>= λ kind. registry_loop (domain ∷ seen) es >>= λ rest.
      ok (record { domain = domain; kind = kind } ∷ rest)
]

unfoldable pub not_empty : List DomainEntry → Result RegistryError (List DomainEntry)
not_empty [] = err no_destination
not_empty (e ∷ es) = ok (e ∷ es)

unfoldable pub domains_from_registry :
    (Json → String) → Option Json → Result RegistryError (List DomainEntry)
unfolding registry_loop not_empty candidates merge_candidates
domains_from_registry text_of root =
    registry_loop [] (merge_candidates text_of (candidates root) []) >>= not_empty
