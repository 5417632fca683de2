-- ===== src/Deploy/Checked.antt =====
-- What a read-back that is about to be recorded has checked.
use rome_solidity.Prelude.{
  ℕ, ◌≤◌, String, ◌≡◌, refl, ap, ◌∙◌, inl, inr, true, Option, none, some, List, [], ◌∷◌, or_else,
  is_some, Result, ok, err, >>=-eq-ok, throw_if, subst, Bool-cases, not,
}
use rome_solidity.Ctor.Pdas.{base58_to_bytes32}
use rome_solidity.Deploy.Args.{Existing}
use rome_solidity.Deploy.ReadBack.{is_nil}
use rome_solidity.Deploy.Tx.{MinedTx, TxProblem, deploy_tx_problems}
use rome_solidity.Deploy.TxLaws.{
  IsDeployTx, IsMined, deploy_tx_problems-nil_iff, fetch_mined_deploy-eq-ok,
}
use rome_solidity.Deploy.Record.{V13Record}
use rome_solidity.Deploy.Env.{
  DeployDeps, FlowError, dependency, not_this_deploy, not_approved, other_sources,
}
use rome_solidity.Deploy.Retry.{verify_with_retry, fetch_mined_deploy}
use rome_solidity.Deploy.Prepare.{Prepared, lift_err}
use rome_solidity.Deploy.Verified.{IsAsWanted, verify_deployment-IsAsWanted}
use rome_solidity.Deploy.Retried.{verify_with_retry-eq-ok}
use rome_solidity.Deploy.Flow.{
  Deployed, approve, chain_code, mined_for, expected_of, read_back, check_existing,
}

module _ (deps : DeployDeps) where
  open deps use {viem, solana}

  approve-eq-ok :
      (f : List TxProblem → FlowError) (tx t : MinedTx) (p : Prepared) (d : Deployed)
      (nonce : Option ℕ)
      → approve deps f tx p d nonce ≡ ok t
      → (tx ≡ t) × IsDeployTx tx d.address p.creation p.roles.deployer nonce
  approve-eq-ok f tx t p d nonce h =
      elim (Bool-cases
        (is_nil (deploy_tx_problems tx d.address p.creation p.roles.deployer nonce))) [
          | inl e ↦ (
            inner (rw e at h),
            (deploy_tx_problems-nil_iff tx d.address p.creation p.roles.deployer nonce).0 (nil _ e),
          )
          | inr e ↦ absurd (refuses (rw e at h))
        ]
    where
      inner : ◌≡◌ {A = Result FlowError MinedTx} (ok tx) (ok t) → tx ≡ t
      inner e = cc

      refuses : {e : FlowError} → ◌≡◌ {A = Result FlowError MinedTx} (err e) (ok t) → ⊥
      refuses e = cc

      nil : (xs : List TxProblem) → is_nil xs ≡ true → xs ≡ []
      nil [] h = refl
      nil (x ∷ xs) h = cc

  -- The transaction of a deploy was mined and is the deploy of the prepared bytes.
  abbrev pub IsDeployOf : Prepared → Deployed → MinedTx → Type 0
  IsDeployOf p d tx =
      ((i : ℕ) × (1 ≤ i) × (i ≤ 4) × IsMined deps d.tx_hash tx i)
      × IsDeployTx tx d.address p.creation p.roles.deployer p.nonce

  mined_for-eq-ok :
      (p : Prepared) (d : Deployed) (tx : MinedTx)
      → mined_for deps p d none ≡ ok tx
      → IsDeployOf p d tx
  unfolding mined_for
  mined_for-eq-ok p d tx h =
      let (t, e, h₁) = >>=-eq-ok (fetch_mined_deploy deps d.tx_hash) _ h in
      let (same, is_deploy) = approve-eq-ok not_approved t tx p d p.nonce h₁ in
      (
        fetch_mined_deploy-eq-ok deps d.tx_hash tx (e ∙ ap ok same),
        subst (λ u. IsDeployTx u d.address p.creation p.roles.deployer p.nonce) same is_deploy,
      )

  pub check_existing-eq-ok :
      (p : Prepared) (v : Existing) (d : Deployed) (commit : String) (tx : MinedTx)
      → check_existing deps p v ≡ ok (d, commit, tx)
      → p.nonce ≡ none
      → IsDeployOf p d tx
  unfolding check_existing
  check_existing-eq-ok p v d commit tx h no_nonce =
      let d₀ : Deployed = record { address = viem.get_address v.address; tx_hash = v.tx_hash } in
      let (at_commit, e₁, h₁) =
        >>=-eq-ok (lift_err dependency (deps.source_at v.source_commit)) _ h in
      let (u, e₂, h₂) =
        >>=-eq-ok (throw_if (not at_commit.same_sources) (other_sources v.source_commit)) _ h₁ in
      let (t, e₃, h₃) = >>=-eq-ok (fetch_mined_deploy deps v.tx_hash) _ h₂ in
      let (t', e₄, h₄) = >>=-eq-ok (approve deps not_this_deploy t p d₀ none) _ h₃ in
      let (same, is_deploy) = approve-eq-ok not_this_deploy t t' p d₀ none e₄ in
      let mined_so : IsDeployOf p d₀ t' = (
        fetch_mined_deploy-eq-ok deps v.tx_hash t' (e₃ ∙ ap ok same),
        rw no_nonce
            (subst (λ u. IsDeployTx u d₀.address p.creation p.roles.deployer none) same is_deploy),
      ) in
      let (same_d, same_tx) = parts h₄ in
      subst (λ e. IsDeployOf p e tx) same_d (subst (λ u. IsDeployOf p d₀ u) same_tx mined_so)
    where
      parts :
          {d₀ : Deployed} {c : String} {t : MinedTx}
          → ◌≡◌ {A = Result FlowError (Deployed × String × MinedTx)}
              (ok (d₀, c, t))
              (ok (d, commit, tx))
          → (d₀ ≡ d) × (t ≡ tx)
      parts e = (cc, cc)

  -- What is behind a record: the prepared deploy, the read-back and the transaction
  pub record IsRecordOf (p : Prepared) (rec : V13Record) (tx : MinedTx) : Type 0 where
    pub at_attempt :
        (mint : String) × (base58_to_bytes32 solana p.usdc.mint_base58 ≡ ok mint)
        × ((j : ℕ) × (1 ≤ j)
            × (j ≤ 4)
            × IsAsWanted (deps.reader rec.address j) (expected_of deps p) mint)
    pub mined : (i : ℕ) × (1 ≤ i) × (i ≤ 4) × IsMined deps rec.deploy_tx tx i
    pub is_deploy : IsDeployTx tx rec.address p.creation p.roles.deployer p.nonce
    pub owner : rec.owner ≡ p.roles.owner
    pub guardian : rec.guardian ≡ p.roles.guardian
    pub time : tx.block_timestamp ≡ some rec.deployed_at
    pub input_hash : rec.deploy_input_hash ≡ viem.keccak256 p.creation

  known_or_fetched :
      (p : Prepared) (d : Deployed) (known : Option MinedTx) (tx : MinedTx)
      → mined_for deps p d known ≡ ok tx
      → ((t : MinedTx) → known ≡ some t → IsDeployOf p d t)
      → IsDeployOf p d tx
  unfolding mined_for
  known_or_fetched p d (some t) tx e k = k tx (same e)
    where
      same :
          ◌≡◌ {A = Result FlowError MinedTx} (ok t) (ok tx)
          → ◌≡◌ {A = Option MinedTx} (some t) (some tx)
      same e = cc
  known_or_fetched p d none tx e k = mined_for-eq-ok p d tx e

  pub read_back-eq-ok :
      (p : Prepared) (d : Deployed) (commit : String) (known : Option MinedTx) (rec : V13Record)
      → read_back deps p d commit known ≡ ok rec
      → ((tx : MinedTx) → known ≡ some tx → IsDeployOf p d tx)
      → (tx : MinedTx) × IsRecordOf p rec tx
  unfolding read_back
  read_back-eq-ok p d commit known rec h is_known =
      let (lines, e₁, h₁) = >>=-eq-ok (verify_with_retry deps d.address (expected_of deps p)) _ h in
      let (code, e₂, h₂) = >>=-eq-ok (chain_code deps d.address) _ h₁ in
      let (tx, e₃, h₃) = >>=-eq-ok (mined_for deps p d known) _ h₂ in
      let (j, lo, hi, seen) =
        verify_with_retry-eq-ok deps d.address (expected_of deps p) lines e₁ in
      let (mint, decoded, has_code, wanted) =
        verify_deployment-IsAsWanted solana (deps.reader d.address j) (expected_of deps p) lines
          seen in
      let ((i, ilo, ihi, m), is_deploy) = known_or_fetched p d known tx e₃ is_known in
      (
        tx,
        subst (λ r. IsRecordOf p r tx) (inner h₃)
            (record {
              at_attempt = (mint, decoded, (j, lo, hi, wanted));
              mined = (i, ilo, ihi, m);
              is_deploy = is_deploy;
              owner = refl;
              guardian = refl;
              time = there tx.block_timestamp m.2;
              input_hash = refl;
            }),
      )
    where
      inner : {a b : V13Record} → ◌≡◌ {A = Result FlowError V13Record} (ok a) (ok b) → a ≡ b
      inner e = cc

      there : (o : Option ℕ) → is_some o ≡ true → o ≡ some (or_else o 0)
      there none h = cc
      there (some n) h = refl
