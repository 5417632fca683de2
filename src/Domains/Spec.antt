-- ===== src/Domains/Spec.antt =====
-- scripts/bridge/lib/cctp-domain-plan.ts: the domain list of the command line, "0,1,3,6:evm,8:raw32".
use rome_solidity.Prelude.{
  ℕ, String, not, ◌||◌, Option, none, some, List, [], ◌∷◌, ltb, leb, ◌==◌, nat_eq, string_eq,
  if◌then◌else◌, contains, lookup, keep, map, get_elem?, Result, ok, err, ◌>>=◌, ◌>>◌, throw_if,
  is_some,
}
use rome_solidity.Prelude.Number.{max_safe}
use rome_solidity.Prelude.Text.{split, trim, is_decimal, decimal, to_lower, is_nil}
use rome_solidity.Domains.{kind_evm, kind_raw32, refused_domains, DomainEntry}

pub data SpecError : Type 0 where
  empty_spec : SpecError
  bad_entry : String → SpecError
  not_a_number : String → SpecError
  too_large : String → SpecError
  refused_domain : ℕ → SpecError
  bad_kind : String → ℕ → SpecError
  listed_twice : ℕ → SpecError

-- The recipient kind after the colon, EVM if there is none
unfoldable pub kind_of : Option String → ℕ → Result SpecError ℕ
kind_of none domain = ok kind_evm
kind_of (some raw) domain =
    let k = to_lower raw in
    if k == "evm"
    then ok kind_evm
    else if k == "raw32"
    then ok kind_raw32
    else err (bad_kind raw domain)

-- The part before the first colon, which `split` always gives
abbrev pub first_of_split : List String → String
first_of_split [] = ""
first_of_split (x ∷ xs) = x

-- One round of the loop, up to the test for a repeated domain
unfoldable pub parse_part : String → Result SpecError DomainEntry
parse_part part = do
  let fields = split b':' part
  let num = first_of_split fields
  throw_if (is_some (get_elem? fields 2)) (bad_entry part)
  throw_if (not (is_decimal num)) (not_a_number num)
  let domain = decimal num
  throw_if (not (leb domain max_safe) || ltb 0xffffffff domain) (too_large num)
  throw_if (is_some (lookup domain refused_domains)) (refused_domain domain)
  kind ← kind_of (get_elem? fields 1) domain
  ok (record { domain = domain; kind = kind })

unfoldable pub parse_loop : List ℕ → List String → Result SpecError (List DomainEntry)
parse_loop seen [] = ok []
parse_loop seen (part ∷ parts) = do
  e ← parse_part part
  throw_if (contains seen e.domain) (listed_twice e.domain)
  rest ← parse_loop (e.domain ∷ seen) parts
  ok (e ∷ rest)

-- The parts of the list: trimmed, without the empty ones
unfoldable pub spec_parts : String → List String
spec_parts spec = keep (λ p. not (is_nil p)) (map trim (split b',' spec))

unfoldable pub parse_parts : List String → Result SpecError (List DomainEntry)
unfolding parse_loop
parse_parts [] = err empty_spec
parse_parts (p ∷ ps) = parse_loop [] (p ∷ ps)

unfoldable pub parse_domain_spec : String → Result SpecError (List DomainEntry)
unfolding parse_parts
parse_domain_spec spec = parse_parts (spec_parts spec)
