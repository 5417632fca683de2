-- ===== src/Deploy/Retried.antt =====
-- The retried read-back: what its success shows, and when it succeeds.
use rome_solidity.Prelude.{
  subst, ◌⊎◌, ℕ, zero, suc, ◌+◌, ◌≤◌, ◌<◌, String, ◌≡◌, refl, sym, ◌∙◌, List, arith, string_eq,
  Result, ok, err, inl, inr,
}
use rome_solidity.Deploy.ReadBack.{
  Query, Expected, ReadBackError, mismatches, no_code, call_failed, not_typed, bad_mint,
  verify_deployment,
}
use rome_solidity.Deploy.Env.{DeployDeps, FlowError, failed_read_back}
use rome_solidity.Deploy.Retry.{after_attempt, verify_from, verify_with_retry}

module _ (deps : DeployDeps) where
  -- The first attempt that answers decides; the earlier ones lagged.
  abbrev pub Attempt : String → Expected → ℕ → Result ReadBackError (List Query)
  Attempt address want i = verify_deployment deps.solana (deps.reader address i) want

  retried :
      (r : Result ReadBackError (List Query)) (again : Result FlowError (List Query))
      (lines : List Query)
      → after_attempt deps r again ≡ ok lines
      → (r ≡ ok lines) ⊎ (again ≡ ok lines)
  unfolding after_attempt
  retried (ok ls) again lines h = ground arith
  retried (err (mismatches bad)) again lines h = cc
  retried (err no_code) again lines h = inr h
  retried (err (call_failed e)) again lines h = inr h
  retried (err (bad_mint e)) again lines h = inr h
  retried (err not_typed) again lines h = inr h

  verify_from-eq-ok :
      (left i : ℕ) (address : String) (want : Expected) (lines : List Query)
      → verify_from deps left i address want ≡ ok lines
      → (j : ℕ) × (i ≤ j) × (j < i + left) × (Attempt address want j ≡ ok lines)
  unfolding verify_from
  verify_from-eq-ok zero i address want lines h = cc
  verify_from-eq-ok (suc left) i address want lines h =
      elim (retried _ (verify_from deps left (i + 1) address want) lines h) [
        | inl e ↦ (i, omega arith, omega arith, e)
        | inr e ↦
            let (j, lo, hi, seen) = verify_from-eq-ok left (i + 1) address want lines e in
            (j, omega arith, omega arith, seen)
      ]

  -- A retried read-back that succeeds is the read-back of one of the four attempts.
  pub verify_with_retry-eq-ok :
      (address : String) (want : Expected) (lines : List Query)
      → verify_with_retry deps address want ≡ ok lines
      → (j : ℕ) × (1 ≤ j) × (j ≤ 4) × (Attempt address want j ≡ ok lines)
  unfolding verify_with_retry
  verify_with_retry-eq-ok address want lines h =
      let (j, lo, hi, seen) = verify_from-eq-ok 4 1 address want lines h in
      (j, lo, omega arith, seen)

  -- The read-back neither succeeded nor saw a wrong value.
  abbrev pub HasLagged : Result ReadBackError (List Query) → Type 0
  HasLagged (ok lines) = ⊥
  HasLagged (err (mismatches bad)) = ⊥
  HasLagged (err no_code) = Unit
  HasLagged (err (call_failed e)) = Unit
  HasLagged (err not_typed) = Unit
  HasLagged (err (bad_mint e)) = Unit

  passed_on :
      (r : Result ReadBackError (List Query)) (again : Result FlowError (List Query))
      → HasLagged r
      → after_attempt deps r again ≡ again
  unfolding after_attempt
  passed_on (ok lines) again h = absurd h
  passed_on (err (mismatches bad)) again h = absurd h
  passed_on (err no_code) again h = refl
  passed_on (err (call_failed e)) again h = refl
  passed_on (err not_typed) again h = refl
  passed_on (err (bad_mint e)) again h = refl

  -- What an attempt that does not lag gives: its values, or the wrong ones it saw
  abbrev pub Decides : Result ReadBackError (List Query) → Result FlowError (List Query) → Type 0
  Decides (ok lines) end = end ≡ ok lines
  Decides (err (mismatches bad)) end = end ≡ err (failed_read_back bad)
  Decides (err no_code) end = ⊥
  Decides (err (call_failed e)) end = ⊥
  Decides (err not_typed) end = ⊥
  Decides (err (bad_mint e)) end = ⊥

  decided :
      (r : Result ReadBackError (List Query)) (again end : Result FlowError (List Query))
      → Decides r end
      → after_attempt deps r again ≡ end
  unfolding after_attempt
  decided (ok lines) again end h = sym h
  decided (err (mismatches bad)) again end h = sym h
  decided (err no_code) again end h = absurd h
  decided (err (call_failed e)) again end h = absurd h
  decided (err not_typed) again end h = absurd h
  decided (err (bad_mint e)) again end h = absurd h

  verify_from-Decides :
      (before left i j : ℕ) (address : String) (want : Expected)
      (end : Result FlowError (List Query))
      → j ≡ i + before
      → before < left
      → ((k : ℕ) → i ≤ k → k < j → HasLagged (Attempt address want k))
      → Decides (Attempt address want j) end
      → verify_from deps left i address want ≡ end
  unfolding verify_from
  verify_from-Decides before zero i j address want end at lt lagged seen =
      absurd (omega (arith, lt))
  verify_from-Decides zero (suc left) i j address want end at lt lagged seen =
      decided _ _ end (subst (λ k. Decides (Attempt address want k) end) (omega arith) seen)
  verify_from-Decides (suc before) (suc left) i j address want end at lt lagged seen =
      passed_on _ _ (lagged i (omega arith) (omega arith))
      ∙ verify_from-Decides before left (i + 1) j address want end (omega arith) (omega arith)
          (λ k lo hi. lagged k (omega arith) hi) seen

  -- The first of the four attempts that does not lag decides: where every earlier one failed for want of
  -- code, by a failed call, or by an answer or a mint that could not be read, and this one succeeds, the
  -- retried read-back gives its result, and where this one sees wrong values, it fails with them.
  pub verify_with_retry-Decides :
      (j : ℕ) (address : String) (want : Expected) (end : Result FlowError (List Query))
      → 1 ≤ j
      → j ≤ 4
      → ((k : ℕ) → 1 ≤ k → k < j → HasLagged (Attempt address want k))
      → Decides (Attempt address want j) end
      → verify_with_retry deps address want ≡ end
  unfolding verify_with_retry
  verify_with_retry-Decides (suc j) address want end lo hi lagged seen =
      verify_from-Decides j 4 1 (suc j) address want end (omega arith) (omega arith) lagged seen
  verify_with_retry-Decides zero address want end lo hi lagged seen = absurd (omega (arith, lo))
