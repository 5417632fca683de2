-- ===== src/Domains/RegistryExamples.antt =====
-- Tests of the wanted list of a registry, and the theorem at a concrete registry.
use rome_solidity.Prelude.{
  ◌⊎◌, ℕ, String, ◌≡◌, refl, Option, some, List, [], ◌∷◌, inl, inr, ok, err, ◌==◌, nat_eq,
  string_eq, if◌then◌else◌,
}
use rome_solidity.Prelude.Json.{
  Json, num, str, arr, obj, Fields, end, field, nil, cons, get_in, as_text,
}
use rome_solidity.Prelude.Number.{whole}
use rome_solidity.Prelude.Text.{to_lower}
use rome_solidity.Domains.{DomainEntry, kind_evm, kind_raw32}
use rome_solidity.Domains.Registry.{
  refused, counts, not_nullish, is_live_status, candidates, merge_candidates, merge_candidate,
  winner, is_same_chain, registry_loop, registry_domain, registry_kind, kind_of_text,
  domain_in_range, not_empty, domains_from_registry,
}
use rome_solidity.Domains.RegistryLaws.{HasDomain}
use rome_solidity.Domains.RegistryWanted.{
  IsListed, IsWanted, AreSameChain, domains_from_registry-HasDomain,
}

abbrev text_of : Json → String
text_of (num (whole n)) = if n == 1 then "1" else "2"
text_of v = "?"

abbrev sepolia : Fields → Json
sepolia fs = obj (field "chainId" (num (whole 1)) (field "cctpDomain" (num (whole 0)) fs))

abbrev retired_sepolia : Json
retired_sepolia = sepolia (field "status" (str "retired") end)

abbrev live_sepolia : Json
live_sepolia = sepolia end

abbrev on_base : Json
on_base = obj (
    field "chainId" (num (whole 2)) (
      field "cctpDomain" (num (whole 6))
        (field "status" (str "preparing") (field "cctpRecipientKind" (str "RAW32") end))))

abbrev registry : Option Json
registry = some (
    obj (
      field "sourceEvm" retired_sepolia
        (field "sourceEvms" (arr (cons live_sepolia (cons on_base nil))) end)))

abbrev wanted : List DomainEntry
wanted = record { domain = 0; kind = kind_evm } ∷ record { domain = 6; kind = kind_raw32 } ∷ []

live_entry_wins : domains_from_registry text_of registry ≡ ok wanted
unfolding domains_from_registry counts not_nullish is_live_status candidates merge_candidates
    merge_candidate winner is_same_chain registry_loop registry_domain registry_kind kind_of_text
    domain_in_range not_empty get_in as_text to_lower
live_entry_wins = refl

refused_chain :
    domains_from_registry text_of
      (some (obj (field "sourceEvm" (obj (field "cctpDomain" (num (whole 17)) end)) end)))
    ≡ err (refused 17)
unfolding domains_from_registry counts not_nullish is_live_status candidates merge_candidates
    merge_candidate winner is_same_chain registry_loop registry_domain registry_kind kind_of_text
    domain_in_range not_empty get_in as_text to_lower
refused_chain = refl

live_sepolia-IsListed : IsListed registry live_sepolia
unfolding get_in
live_sepolia-IsListed = inr (cons live_sepolia (cons on_base nil), refl, inl refl)

live_sepolia-IsWanted : IsWanted live_sepolia
unfolding get_in as_text
live_sepolia-IsWanted = ((num (whole 0), refl, λ e. cc), inl refl)

domains_from_registry-HasDomain_example :
    (e : Json) × IsListed registry e
    × IsWanted e
    × ((e ≡ live_sepolia) ⊎ AreSameChain text_of e live_sepolia)
    × ((d : ℕ) × (get_in "cctpDomain" (some e) ≡ some (num (whole d))) × HasDomain wanted d)
domains_from_registry-HasDomain_example =
    domains_from_registry-HasDomain text_of registry wanted live_sepolia live_entry_wins
      live_sepolia-IsListed live_sepolia-IsWanted
