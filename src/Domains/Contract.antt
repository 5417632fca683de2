-- ===== src/Domains/Contract.antt =====
-- contracts/bridge/RomeBridgeWithdraw.sol: what the planned calls do to the domain list, sent by the
-- owner. The answer of Circle's record on a domain and a kind is an argument.
use rome_solidity.Prelude.{
  ℕ, Bool, not, ◌&&◌, ◌||◌, Option, none, some, List, [], ◌∷◌, ◌==◌, nat_eq, if◌then◌else◌, lookup,
  insert, remove, is_some,
}
use rome_solidity.Domains.{kind_evm, kind_raw32}
use rome_solidity.Domains.Plan.{AdminFn, enable_cctp_domain, disable_cctp_domain, PlannedCall}

module _ (circle_accepts : ℕ → ℕ → Bool) where
  -- `none` is a revert
  unfoldable pub enable_domain : ℕ → ℕ → List (ℕ × ℕ) → Option (List (ℕ × ℕ))
  enable_domain domain kind m =
      if not (kind == kind_evm) && not (kind == kind_raw32)
      then none
      else if domain == 5 || domain == 17 || domain == 27
      then none
      else if circle_accepts domain kind
      then some (insert domain kind m)
      else none

  unfoldable pub disable_domain : ℕ → List (ℕ × ℕ) → Option (List (ℕ × ℕ))
  disable_domain domain m = if is_some (lookup domain m) then some (remove domain m) else none

  run_fn : AdminFn → ℕ → Option ℕ → List (ℕ × ℕ) → Option (List (ℕ × ℕ))
  run_fn enable_cctp_domain domain none m = none
  run_fn enable_cctp_domain domain (some kind) m = enable_domain domain kind m
  run_fn disable_cctp_domain domain kind m = disable_domain domain m

  unfoldable pub run_call : PlannedCall → List (ℕ × ℕ) → Option (List (ℕ × ℕ))
  unfolding run_fn
  run_call c m = run_fn c.fn c.domain c.kind m

  -- The calls in order; the first revert stops them.
  unfoldable pub run_calls : List PlannedCall → List (ℕ × ℕ) → Option (List (ℕ × ℕ))
  run_calls [] m = some m
  run_calls (c ∷ cs) m = elim (run_call c m) [ none ↦ none | some m' ↦ run_calls cs m' ]
