-- ===== src/Domains/Plan.antt =====
-- scripts/bridge/lib/cctp-domain-plan.ts: the difference between the wanted list and the chain's.
use rome_solidity.Prelude.{
  ℕ, String, Option, none, some, List, [], ◌∷◌, ◌++◌, leb, ◌==◌, nat_eq, if◌then◌else◌, lookup,
  insert, is_some,
}
use rome_solidity.Domains.{DomainEntry}

pub data AdminFn : Type 0 where
  enable_cctp_domain : AdminFn
  disable_cctp_domain : AdminFn

pub data ChangeReason : Type 0 where
  missing_on_chain : ChangeReason
  kind_differs : ChangeReason
  not_wanted : ChangeReason

pub record PlannedCall : Type 0 where
  pub fn : AdminFn
  pub domain : ℕ
  pub kind : Option ℕ
  pub reason : ChangeReason
  pub calldata : String

pub record DomainPlan : Type 0 where
  pub calls : List PlannedCall
  pub unchanged : List DomainEntry

-- `new Map(entries.map((e) => [e.domain, e.kind]))`
unfoldable pub map_loop : List (ℕ × ℕ) → List DomainEntry → List (ℕ × ℕ)
map_loop m [] = m
map_loop m (e ∷ es) = map_loop (insert e.domain e.kind m) es

unfoldable pub map_of : List DomainEntry → List (ℕ × ℕ)
unfolding map_loop
map_of es = map_loop [] es

unfoldable pub insert_sorted : DomainEntry → List DomainEntry → List DomainEntry
insert_sorted e [] = e ∷ []
insert_sorted e (x ∷ xs) =
    let r = insert_sorted e xs in if leb e.domain x.domain then e ∷ x ∷ xs else x ∷ r

-- `[...entries].sort((a, b) => a.domain - b.domain)`, which keeps equal entries in order
unfoldable pub sort_by_domain : List DomainEntry → List DomainEntry
unfolding insert_sorted
sort_by_domain [] = []
sort_by_domain (e ∷ es) = insert_sorted e (sort_by_domain es)

-- `encode` is viem's `encodeFunctionData` for the admin ABI, at a function's name and arguments.
module _ (encode : String → List ℕ → String) where
  unfoldable pub encode_enable : ℕ → ℕ → String
  encode_enable domain kind = encode "enableCctpDomain" (domain ∷ kind ∷ [])

  unfoldable pub encode_disable : ℕ → String
  encode_disable domain = encode "disableCctpDomain" (domain ∷ [])

  abbrev pub enable_call : DomainEntry → ChangeReason → PlannedCall
  enable_call e reason = record {
    fn = enable_cctp_domain;
    domain = e.domain;
    kind = some e.kind;
    reason = reason;
    calldata = encode_enable e.domain e.kind;
  }

  abbrev pub disable_call : DomainEntry → PlannedCall
  disable_call e = record {
    fn = disable_cctp_domain;
    domain = e.domain;
    kind = none;
    reason = not_wanted;
    calldata = encode_disable e.domain;
  }

  -- The loop over the wanted entries: the enable calls, and the entries left as they are
  unfoldable pub plan_enables :
      List (ℕ × ℕ) → List DomainEntry → List PlannedCall × List DomainEntry
  plan_enables chain [] = ([], [])
  plan_enables chain (e ∷ es) =
      let (calls, unchanged) = plan_enables chain es in
      elim (lookup e.domain chain) [
        | none ↦ (enable_call e missing_on_chain ∷ calls, unchanged)
        | some have ↦
            if have == e.kind
            then (calls, e ∷ unchanged)
            else (enable_call e kind_differs ∷ calls, unchanged)
      ]

  -- The loop over the chain's entries
  unfoldable pub plan_disables : List (ℕ × ℕ) → List DomainEntry → List PlannedCall
  plan_disables want [] = []
  plan_disables want (e ∷ es) =
      let calls = plan_disables want es in
      if is_some (lookup e.domain want) then calls else disable_call e ∷ calls

  unfoldable pub plan_domain_changes : List DomainEntry → List DomainEntry → DomainPlan
  plan_domain_changes wanted on_chain =
      let (enables, unchanged) = plan_enables (map_of on_chain) (sort_by_domain wanted) in
      record {
        calls = enables ++ plan_disables (map_of wanted) (sort_by_domain on_chain);
        unchanged = unchanged;
      }
