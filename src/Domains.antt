-- ===== src/Domains.antt =====
-- scripts/bridge/lib/cctp-domain-plan.ts: the wanted list of CCTP domains, its difference from the
-- chain's list, and the calls that close it.
pub mod Spec
pub mod SpecLaws
pub mod Registry
pub mod RegistryLaws
pub mod RegistryWanted
pub mod Plan
pub mod Contract
pub mod Send
pub mod Circle
pub mod CircleLaws
pub mod Maps
pub mod Enables
pub mod Reaches
pub mod InSync
mod RegistryExamples
mod Examples
use rome_solidity.Prelude.{
  ℕ, ◌≡◌, String, Option, none, some, List, [], ◌∷◌, ◌==◌, nat_eq, if◌then◌else◌,
}

-- KIND_EVM and KIND_RAW32; a kind that is read from the chain may be any number.
abbrev pub kind_evm : ℕ
kind_evm = 1

abbrev pub kind_raw32 : ℕ
kind_raw32 = 2

-- REFUSED_DOMAINS, with the names of the chains for the reasons
abbrev pub refused_domains : List (ℕ × String)
refused_domains = (5, "Solana") ∷ (17, "BNB Smart Chain") ∷ (27, "Stellar") ∷ []

pub record DomainEntry : Type 0 where
  pub domain : ℕ
  pub kind : ℕ

-- The kind that a list gives a domain, by its first entry for it
abbrev pub kind_in : ℕ → List DomainEntry → Option ℕ
kind_in d [] = none
kind_in d (e ∷ es) = if e.domain == d then some e.kind else kind_in d es

-- No domain has two entries.
abbrev pub Distinct : List DomainEntry → Type 0
Distinct [] = Unit
Distinct (e ∷ es) = (kind_in e.domain es ≡ none) × Distinct es
