-- ===== src/Domains/Examples.antt =====
-- Tests of the domain plan, and its theorems at concrete inputs.
use rome_solidity.Prelude.{
  ℕ, ◌^◌, String, ◌≡◌, ◌≢◌, refl, subst, ◌↔◌, Bool, true, false, none, some, List, [], ◌∷◌, arith,
  ok, err, nat_eq, string_eq,
}
use rome_solidity.Prelude.Number.{whole}
use rome_solidity.Prelude.Text.{split, trim, is_decimal, decimal, to_lower}
use rome_solidity.Domains.{kind_in, DomainEntry, Distinct}
use rome_solidity.Domains.Spec.{
  listed_twice, refused_domain, kind_of, parse_part, parse_loop, spec_parts, parse_domain_spec,
}
use rome_solidity.Domains.SpecLaws.{AllParsed, parse_domain_spec-Distinct}
use rome_solidity.Domains.Plan.{
  disable_call, enable_call, missing_on_chain, kind_differs, map_of, sort_by_domain, plan_enables,
  plan_disables, plan_domain_changes,
}
use rome_solidity.Domains.Contract.{run_calls}
use rome_solidity.Domains.Enables.{AllEnableable, Holds}
use rome_solidity.Domains.InSync.{plan_domain_changes-nil}
use rome_solidity.Domains.Reaches.{run-plan_domain_changes}
use rome_solidity.Domains.Send.{SendInput, IsOwnerKey, can_send, can_send-send_iff}
use rome_solidity.Guard.Allowed.{IsSendable}
use rome_solidity.Domains.Circle.{SolanaAccount, check_circle_record}
use rome_solidity.Domains.CircleLaws.{
  AreBytes, IsCircleRecord, check_circle_record-none_iff, check_circle_record-high_domain,
}

abbrev entry : ℕ → ℕ → DomainEntry
entry domain kind = record { domain = domain; kind = kind }

parsed : parse_domain_spec " 0, 6:EVM,,8:raw32" ≡ ok (entry 0 1 ∷ entry 6 1 ∷ entry 8 2 ∷ [])
unfolding parse_domain_spec parse_loop parse_part spec_parts kind_of split trim is_decimal decimal
    to_lower
parsed = refl

twice : parse_domain_spec "3,03" ≡ err (listed_twice 3)
unfolding parse_domain_spec parse_loop parse_part spec_parts kind_of split trim is_decimal decimal
    to_lower
twice = refl

solana_refused : parse_domain_spec "0,5" ≡ err (refused_domain 5)
unfolding parse_domain_spec parse_loop parse_part spec_parts kind_of split trim is_decimal decimal
    to_lower
solana_refused = refl

parse_domain_spec-Distinct_example :
    ((entry 0 1 ∷ entry 6 1 ∷ entry 8 2 ∷ []) ≢ [])
    × Distinct (entry 0 1 ∷ entry 6 1 ∷ entry 8 2 ∷ [])
    × AllParsed (entry 0 1 ∷ entry 6 1 ∷ entry 8 2 ∷ [])
parse_domain_spec-Distinct_example =
    parse_domain_spec-Distinct " 0, 6:EVM,,8:raw32" (entry 0 1 ∷ entry 6 1 ∷ entry 8 2 ∷ []) parsed

abbrev encode : String → List ℕ → String
encode name args = name

abbrev accepts : ℕ → ℕ → Bool
accepts domain kind = true

abbrev wanted : List DomainEntry
wanted = entry 6 1 ∷ entry 0 1 ∷ entry 3 2 ∷ []

abbrev on_chain : List DomainEntry
on_chain = entry 9 1 ∷ entry 3 1 ∷ entry 0 1 ∷ []

planned : plan_domain_changes encode wanted on_chain ≡ record {
  calls =
      enable_call encode (entry 3 2) kind_differs
      ∷ enable_call encode (entry 6 1) missing_on_chain
      ∷ disable_call encode (entry 9 1)
      ∷ [];
  unchanged = entry 0 1 ∷ [];
}
unfolding plan_domain_changes plan_enables plan_disables map_of sort_by_domain
planned = refl

abbrev held : List (ℕ × ℕ)
held = (0, 1) ∷ (3, 1) ∷ (9, 1) ∷ []

holds : Holds accepts held on_chain
holds d = ground arith

enableable : AllEnableable accepts wanted
enableable = (ground arith, (ground arith, (ground arith, tt)))

run-plan_domain_changes_example :
    (m' : List (ℕ × ℕ)) × (run_calls accepts (plan_domain_changes encode wanted on_chain).calls held
      ≡ some m')
    × Holds accepts m' wanted
run-plan_domain_changes_example =
    run-plan_domain_changes accepts encode wanted on_chain held (refl, (refl, (refl, tt)))
      (refl, (refl, (refl, tt))) enableable holds

abbrev send : SendInput
send = record {
  known_network = true;
  declared_mainnet = false;
  chain_id = whole 200010;
  want_send = true;
  signer = some "0xA1";
  owner = "0xa1";
}

can_send-send_iff_example : ((can_send send).send ≡ true) ↔ (
    (send.want_send ≡ true)
    × (send.known_network ≡ true)
    × (send.declared_mainnet ≡ false)
    × ((n : ℕ) × (send.chain_id ≡ whole n) × IsSendable none n)
    × IsOwnerKey send.signer send.owner)
can_send-send_iff_example = can_send-send_iff send

abbrev program : String
program = "CCTPV2vPZJS2u2BBsUoscuikbYjnpFmbFsvVuJdgUMQe"

-- A record of domain 6 with an address-shaped messenger
abbrev base : SolanaAccount
base = record {
  owner = program;
  bytes =
      0x69 ∷ 0x73 ∷ 0xae ∷ 0x22 ∷ 0x5f ∷ 0xe9 ∷ 0x8a ∷ 0xfc ∷ 6 ∷ 0 ∷ 0 ∷ 0 ∷ 0 ∷ 0 ∷ 0 ∷ 0 ∷ 0 ∷ 0
      ∷ 0 ∷ 0 ∷ 0 ∷ 0 ∷ 0 ∷ 0 ∷ 7 ∷ 7 ∷ 7 ∷ 7 ∷ 7 ∷ 7 ∷ 7 ∷ 7 ∷ 7 ∷ 7 ∷ 7 ∷ 7 ∷ 7 ∷ 7 ∷ 7 ∷ 7 ∷ 7
      ∷ 7 ∷ 7 ∷ 7 ∷ [];
}

base_only : {a : SolanaAccount} → some base ≡ some a → base ≡ a
base_only h = cc

check_circle_record-none_iff_example :
    (check_circle_record 6 1 (some base) program ≡ none)
    ↔ ((a : SolanaAccount) × (some base ≡ some a) × IsCircleRecord 6 1 program a)
check_circle_record-none_iff_example = check_circle_record-none_iff 6 1 (some base) program (λ a is.
    subst (λ c. AreBytes c.bytes) (base_only is)
      (omega arith, omega arith, omega arith, omega arith))

-- A record of domain 2 ^ 31
abbrev high : SolanaAccount
high = record {
  owner = program;
  bytes =
      0x69 ∷ 0x73 ∷ 0xae ∷ 0x22 ∷ 0x5f ∷ 0xe9 ∷ 0x8a ∷ 0xfc ∷ 0 ∷ 0 ∷ 0 ∷ 128 ∷ 0 ∷ 0 ∷ 0 ∷ 0 ∷ 0
      ∷ 0 ∷ 0 ∷ 0 ∷ 0 ∷ 0 ∷ 0 ∷ 0 ∷ 7 ∷ 7 ∷ 7 ∷ 7 ∷ 7 ∷ 7 ∷ 7 ∷ 7 ∷ 7 ∷ 7 ∷ 7 ∷ 7 ∷ 7 ∷ 7 ∷ 7 ∷ 7
      ∷ 7 ∷ 7 ∷ 7 ∷ 7 ∷ [];
}

check_circle_record-high_domain_example : check_circle_record (2 ^ 31) 1 (some high) program ≢ none
check_circle_record-high_domain_example =
    check_circle_record-high_domain 1 high program
      (omega arith, omega arith, omega arith, omega arith) (omega arith)

abbrev reordered : List DomainEntry
reordered = entry 0 1 ∷ entry 3 2 ∷ entry 6 1 ∷ []

same_list : (d : ℕ) → kind_in d reordered ≡ kind_in d wanted
same_list d = ground arith

plan_domain_changes-nil_example : (plan_domain_changes encode wanted reordered).calls ≡ []
plan_domain_changes-nil_example =
    plan_domain_changes-nil encode wanted reordered (refl, (refl, (refl, tt)))
      (refl, (refl, (refl, tt))) same_list
