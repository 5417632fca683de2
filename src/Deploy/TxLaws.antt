-- ===== src/Deploy/TxLaws.antt =====
-- The tests on a mined deploy transaction, and what the retried fetch of it gives.
use rome_solidity.Prelude.{
  ℕ, zero, suc, ◌+◌, ◌≤◌, ◌<◌, String, ◌≡◌, ◌≢◌, ◌↔◌, ◌⊎◌, inl, inr, true, false, not, Option, none,
  some, [], arith, nat_eq, string_eq, eq_iff, is_some, Result, ok,
}
use rome_solidity.Prelude.Text.{to_lower, eq_ignore_case}
use rome_solidity.Deploy.Tx.{MinedTx, is_given, created_other, nonce_differs, deploy_tx_problems}
use rome_solidity.Deploy.Env.{DeployDeps, FlowError}
use rome_solidity.Deploy.Retry.{
  is_final, latest, seen_tx, after_seen, fetch_from, fetch_mined_deploy,
}

-- There is no text, or an empty one.
abbrev pub IsAbsent : Option String → Type 0
IsAbsent none = Unit
IsAbsent (some s) = s ≡ ""

-- The text is an address that is not empty, and this one but for the case of its letters.
abbrev pub IsAddress : Option String → String → Type 0
IsAddress none address = ⊥
IsAddress (some s) address = (s ≢ "") × (to_lower s ≡ to_lower address)

-- A nonce that was approved is the transaction's.
abbrev pub IsNonce : Option ℕ → Option ℕ → Type 0
IsNonce none used = Unit
IsNonce (some n) none = ⊥
IsNonce (some n) (some m) = m ≡ n

pub record IsDeployTx (tx : MinedTx) (address creation deployer : String)
    (approved_nonce : Option ℕ) : Type 0 where
  pub success : tx.status ≡ "success"
  pub no_call : IsAbsent tx.to
  pub sender : to_lower tx.from ≡ to_lower deployer
  pub created : IsAddress tx.contract_address address
  pub input : to_lower tx.input ≡ to_lower creation
  pub nonce : IsNonce approved_nonce tx.nonce

IsAbsent-iff : (to : Option String) → (is_given to ≡ false) ↔ IsAbsent to
IsAbsent-iff none = ground arith
IsAbsent-iff (some s) = ground (arith, eq_iff s "")

eq_ignore_case_iff : (a b : String) → (not (eq_ignore_case a b) ≡ false) ↔ (to_lower a ≡ to_lower b)
unfolding eq_ignore_case
eq_ignore_case_iff a b = ground (arith, eq_iff (to_lower a) (to_lower b))

IsAddress-iff :
    (o : Option String) (address : String) → (created_other o address ≡ false) ↔ IsAddress o address
IsAddress-iff none address = ground arith
IsAddress-iff (some s) address = ground (arith, eq_iff s "", eq_ignore_case_iff s address)

IsNonce-iff : (o used : Option ℕ) → (nonce_differs o used ≡ false) ↔ IsNonce o used
IsNonce-iff none used = ground arith
IsNonce-iff (some n) none = ground arith
IsNonce-iff (some n) (some m) = ground arith

-- `deployTxProblems` finds nothing exactly when the transaction succeeded, is no call, was sent by the
-- deploy key, created the contract at the address, carried the creation bytes, and has the approved
-- nonce where one is given; addresses and bytes are compared without the case of their letters.
pub deploy_tx_problems-nil_iff :
    (tx : MinedTx) (address creation deployer : String) (approved_nonce : Option ℕ)
    → (deploy_tx_problems tx address creation deployer approved_nonce ≡ [])
      ↔ IsDeployTx tx address creation deployer approved_nonce
unfolding deploy_tx_problems
deploy_tx_problems-nil_iff tx address creation deployer approved_nonce = ground (
  arith,
  eq_iff tx.status "success",
  IsAbsent-iff tx.to,
  eq_ignore_case_iff tx.from deployer,
  IsAddress-iff tx.contract_address address,
  eq_ignore_case_iff tx.input creation,
  IsNonce-iff approved_nonce tx.nonce,
)

module _ (deps : DeployDeps) where
  -- What a fetch that succeeds has seen on the attempt it stopped at
  abbrev pub IsMined : String → MinedTx → ℕ → Type 0
  IsMined hash tx i =
      (deps.get_deploy_tx hash i ≡ ok (some tx))
      × (tx.status ≢ "pending")
      × (is_some tx.block_timestamp ≡ true)

  seen_tx-eq-some :
      (hash : String) (i : ℕ) (tx : MinedTx)
      → seen_tx deps hash i ≡ some tx
      → deps.get_deploy_tx hash i ≡ ok (some tx)
  unfolding seen_tx
  seen_tx-eq-some hash i tx h = ground arith

  stopped_or_again :
      (o : Option MinedTx) (again : Result FlowError MinedTx) (tx : MinedTx)
      → after_seen deps o again ≡ ok tx
      → ((o ≡ some tx) × (is_final deps tx ≡ true)) ⊎ (again ≡ ok tx)
  unfolding after_seen
  stopped_or_again none again tx h = inr h
  stopped_or_again (some t) again tx h = ground arith

  fetch_from-eq-ok :
      (left i : ℕ) (hash : String) (seen : Option MinedTx) (tx : MinedTx)
      → fetch_from deps left i hash seen ≡ ok tx
      → (j : ℕ) × (i ≤ j) × (j < i + left) × IsMined hash tx j
  unfolding fetch_from
  fetch_from-eq-ok zero i hash seen tx h = cc
  fetch_from-eq-ok (suc left) i hash seen tx h =
      elim (stopped_or_again (seen_tx deps hash i)
        (fetch_from deps left (i + 1) hash (latest deps (seen_tx deps hash i) seen)) tx h) [
          | inl (e, final) ↦ (
            i,
            omega arith,
            omega arith,
            (seen_tx-eq-some hash i tx e, ground (arith, eq_iff tx.status "pending"), ground arith),
          )
          | inr e ↦
              let (j, lo, hi, seen') = fetch_from-eq-ok left (i + 1) hash _ tx e in
              (j, omega arith, omega arith, seen')
        ]

  -- A fetch that succeeds gives what one of four attempts answered: a transaction that is not pending,
  -- with the time of its block.
  pub fetch_mined_deploy-eq-ok :
      (hash : String) (tx : MinedTx)
      → fetch_mined_deploy deps hash ≡ ok tx
      → (j : ℕ) × (1 ≤ j) × (j ≤ 4) × IsMined hash tx j
  unfolding fetch_mined_deploy
  fetch_mined_deploy-eq-ok hash tx h =
      let (j, lo, hi, seen) = fetch_from-eq-ok 4 1 hash none tx h in (j, lo, omega arith, seen)
