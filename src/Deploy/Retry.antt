-- ===== src/Deploy/Retry.antt =====
-- scripts/bridge/lib/rubicon-v13.ts: the read-back and the mined transaction, retried while the node
-- lags. The pauses between the attempts are not modelled.
use rome_solidity.Prelude.{
  ℕ, zero, suc, ◌+◌, String, Bool, not, ◌&&◌, Option, none, some, List, Result, ok, err, ◌==◌,
  string_eq, is_some, if◌then◌else◌,
}
use rome_solidity.Deploy.ReadBack.{
  Expected, Query, ReadBackError, mismatches, no_code, call_failed, not_typed, bad_mint,
  verify_deployment,
}
use rome_solidity.Deploy.Tx.{MinedTx}
use rome_solidity.Deploy.Env.{
  DeployDeps, FlowError, failed_read_back, read_back_incomplete, transaction_unknown,
  transaction_pending, no_block_time,
}

-- READBACK_ATTEMPTS
abbrev pub readback_attempts : ℕ
readback_attempts = 4

module _ (deps : DeployDeps) where
  -- What an attempt that did not verify leads to: a wrong value is final, anything else is retried.
  unfoldable pub after_attempt :
      Result ReadBackError (List Query)
      → Result FlowError (List Query)
      → Result FlowError (List Query)
  after_attempt (ok lines) again = ok lines
  after_attempt (err (mismatches bad)) again = err (failed_read_back bad)
  after_attempt (err no_code) again = again
  after_attempt (err (call_failed e)) again = again
  after_attempt (err (bad_mint e)) again = again
  after_attempt (err not_typed) again = again

  -- The attempts from `i` on, with the number that is left
  unfoldable pub verify_from : ℕ → ℕ → String → Expected → Result FlowError (List Query)
  verify_from zero i address want = err read_back_incomplete
  verify_from (suc left) i address want =
      let again = verify_from left (i + 1) address want in
      after_attempt (verify_deployment deps.solana (deps.reader address i) want) again

  unfoldable pub verify_with_retry : String → Expected → Result FlowError (List Query)
  verify_with_retry address want = verify_from readback_attempts 1 address want

  -- `deps.getDeployTx(hash).catch(() => undefined)`
  unfoldable pub seen_tx : String → ℕ → Option MinedTx
  seen_tx hash i = elim (deps.get_deploy_tx hash i) [ ok tx ↦ tx | err _ ↦ none ]

  abbrev pub is_final : MinedTx → Bool
  is_final tx = not (tx.status == "pending") && is_some tx.block_timestamp

  -- `tx ?? seen`
  abbrev pub latest : Option MinedTx → Option MinedTx → Option MinedTx
  latest none seen = seen
  latest (some tx) seen = some tx

  -- Why no transaction can be recorded, from the last one that was seen
  unfoldable pub lagging : Option MinedTx → FlowError
  lagging none = transaction_unknown
  lagging (some tx) = if tx.status == "pending" then transaction_pending else no_block_time

  unfoldable pub after_seen : Option MinedTx → Result FlowError MinedTx → Result FlowError MinedTx
  after_seen none again = again
  after_seen (some tx) again = if is_final tx then ok tx else again

  unfoldable pub fetch_from : ℕ → ℕ → String → Option MinedTx → Result FlowError MinedTx
  unfolding after_seen
  fetch_from zero i hash seen = err (lagging seen)
  fetch_from (suc left) i hash seen =
      let again = fetch_from left (i + 1) hash (latest (seen_tx hash i) seen) in
      after_seen (seen_tx hash i) again

  unfoldable pub fetch_mined_deploy : String → Result FlowError MinedTx
  fetch_mined_deploy hash = fetch_from readback_attempts 1 hash none
