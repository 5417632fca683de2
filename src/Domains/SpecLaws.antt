-- ===== src/Domains/SpecLaws.antt =====
-- What a parsed domain list guarantees.
use rome_solidity.Prelude.{
  ℕ, ◌≤◌, String, ◌≡◌, refl, ◌≢◌, ◌⊎◌, true, false, Option, none, some, List, [], ◌∷◌, arith,
  nat_eq, string_eq, contains, get_elem?, Result, ok, throw_if, >>=-eq-ok, throw_if-eq-ok, ◌∙◌, ap,
  subst,
}
use rome_solidity.Prelude.Text.{split, decimal}
use rome_solidity.Domains.{DomainEntry, kind_in, Distinct, kind_evm, kind_raw32}
use rome_solidity.Domains.Spec.{
  SpecError, listed_twice, kind_of, parse_part, parse_loop, parse_parts, spec_parts,
  parse_domain_spec, first_of_split,
}

-- An entry that a domain list may hold
pub record IsParsed (e : DomainEntry) : Type 0 where
  pub fits : e.domain ≤ 0xffffffff
  pub not_solana : e.domain ≢ 5
  pub not_bnb : e.domain ≢ 17
  pub not_stellar : e.domain ≢ 27
  pub kind : (e.kind ≡ kind_evm) ⊎ (e.kind ≡ kind_raw32)

abbrev pub AllParsed : List DomainEntry → Type 0
AllParsed [] = Unit
AllParsed (e ∷ es) = IsParsed e × AllParsed es

kind_of-range :
    (o : Option String) (domain kind : ℕ)
    → kind_of o domain ≡ ok kind
    → (kind ≡ kind_evm) ⊎ (kind ≡ kind_raw32)
unfolding kind_of
kind_of-range none domain kind h = ground arith
kind_of-range (some raw) domain kind h = ground arith

parse_part-IsParsed : (part : String) (e : DomainEntry) → parse_part part ≡ ok e → IsParsed e
unfolding parse_part
parse_part-IsParsed part e h = ground (
  arith,
  kind_of-range (get_elem? (split b':' part) 1) (decimal (first_of_split (split b':' part))) e.kind,
)

parse_loop-cons :
    (seen : List ℕ) (part : String) (parts : List String) (es : List DomainEntry)
    → parse_loop seen (part ∷ parts) ≡ ok es
    → (e : DomainEntry) × (rest : List DomainEntry) × (parse_part part ≡ ok e)
      × (contains seen e.domain ≡ false)
      × (parse_loop (e.domain ∷ seen) parts ≡ ok rest)
      × (e ∷ rest ≡ es)
unfolding parse_loop
parse_loop-cons seen part parts es h =
    let (e, parsed, h₁) = >>=-eq-ok (parse_part part) _ h in
    let (u, fresh, h₂) =
      >>=-eq-ok (throw_if (contains seen e.domain) (listed_twice e.domain)) _ h₁ in
    let (rest, later, h₃) = >>=-eq-ok (parse_loop (e.domain ∷ seen) parts) _ h₂ in
    (e, rest, parsed, throw_if-eq-ok _ _ fresh, later, cc)

parse_parts-cons_ne_nil : (p : String) (ps : List String) → parse_loop [] (p ∷ ps) ≢ ok []
parse_parts-cons_ne_nil p ps h =
    let (e, rest, _, _, _, same) = parse_loop-cons [] p ps [] h in cc same

-- The entries: no domain twice, each in range, and none that was seen before.
abbrev Clean : List ℕ → List DomainEntry → Type 0
Clean seen es =
    Distinct es × AllParsed es × ((d : ℕ) → contains seen d ≡ true → kind_in d es ≡ none)

parse_loop-Clean :
    (seen : List ℕ) (parts : List String) (es : List DomainEntry)
    → parse_loop seen parts ≡ ok es
    → Clean seen es
parse_loop-Clean seen [] es h =
    subst (Clean seen) (nothing (unfold parse_loop in h)) (tt, tt, λ d k. refl)
  where
    nothing : ◌≡◌ {A = Result SpecError (List DomainEntry)} (ok []) (ok es) → [] ≡ es
    nothing e = cc
parse_loop-Clean seen (part ∷ parts) es h =
    let (e, rest, parsed, fresh, later, same) = parse_loop-cons seen part parts es h in
    let (distinct, good, unseen) = parse_loop-Clean (e.domain ∷ seen) parts rest later in
    subst (Clean seen) same (
      (unseen e.domain (ground arith), distinct),
      (parse_part-IsParsed part e parsed, good),
      λ d k. ground (arith, unseen d),
    )

parse_parts_lem :
    (parts : List String) (es : List DomainEntry)
    → parse_parts parts ≡ ok es
    → (es ≢ []) × Distinct es × AllParsed es
unfolding parse_parts
parse_parts_lem [] es h = cc
parse_parts_lem (p ∷ ps) es h =
    let (distinct, good, _) = parse_loop-Clean [] (p ∷ ps) es h in
    (λ e. parse_parts-cons_ne_nil p ps (h ∙ ap ok e), distinct, good)

-- A domain list that parses is not empty and names no domain twice; each of its domains fits a
-- uint32, is none of the refused 5, 17 and 27, and has the EVM or the RAW32 kind.
pub parse_domain_spec-Distinct :
    (spec : String) (es : List DomainEntry)
    → parse_domain_spec spec ≡ ok es
    → (es ≢ []) × Distinct es × AllParsed es
unfolding parse_domain_spec
parse_domain_spec-Distinct spec es h = parse_parts_lem (spec_parts spec) es h
