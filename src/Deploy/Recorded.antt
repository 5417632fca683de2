-- ===== src/Deploy/Recorded.antt =====
-- What a run that writes the record has checked.
use rome_solidity.Prelude.{
  ℕ, String, ◌≡◌, refl, ap, ◌∙◌, inl, inr, Bool, true, false, Option, none, some, arith, or_else,
  ok, subst, Result-cases, Option-cases, Bool-cases,
}
use rome_solidity.Prelude.Json.{get}
use rome_solidity.Deploy.{record_key}
use rome_solidity.Deploy.Args.{DeployOptions, Existing}
use rome_solidity.Deploy.Tx.{MinedTx, predicted_address}
use rome_solidity.Prelude.Text.{eq_ignore_case}
use rome_solidity.Deploy.Record.{V13Record}
use rome_solidity.Deploy.Env.{DeployDeps, SendOutcome, refused, failed, mined, written}
use rome_solidity.Deploy.Prepare.{Prepared, prepare, read_nonce}
use rome_solidity.Deploy.Prepared.{prepare-IsPrepared}
use rome_solidity.Deploy.Approved.{read_file-eq-ok}
use rome_solidity.Deploy.Flow.{
  Deployed, read_back, write_record, record_stage, check_existing, verify_stage, send_stage,
  deploy_stage, choose_stage, run_flow, run_rubicon_v13_deploy,
}
use rome_solidity.Deploy.Checked.{IsDeployOf, IsRecordOf, check_existing-eq-ok, read_back-eq-ok}

module _ (deps : DeployDeps) where
  open deps use {viem}

  recorded-write_record :
      (b : Bool) (p : Prepared) (d : Deployed) (r rec : V13Record)
      → (write_record deps b p d r).recorded ≡ some rec
      → (r ≡ rec) × (deps.add_record p.snapshot p.existing r ≡ written)
  unfolding write_record
  recorded-write_record b p d r rec h = ground arith

  recorded-record_stage :
      (b : Bool) (p : Prepared) (d : Deployed) (commit : String) (known : Option MinedTx)
      (rec : V13Record)
      → (record_stage deps b p d commit known).recorded ≡ some rec
      → (read_back deps p d commit known ≡ ok rec)
        × (deps.add_record p.snapshot p.existing rec ≡ written)
  unfolding record_stage
  recorded-record_stage b p d commit known rec h =
      elim (Result-cases (read_back deps p d commit known)) [
        | inl (r, e) ↦
            let (same, wrote) = recorded-write_record b p d r rec (rw (e, record_stage) at h) in
            (
              e ∙ ap ok same,
              subst (λ r. deps.add_record p.snapshot p.existing r ≡ written) same wrote,
            )
        | inr (f, e) ↦ ground arith
      ]

  -- The record was written after the read-back and the test of the transaction.
  abbrev pub IsChecked : Prepared → V13Record → Type 0
  IsChecked p rec =
      (deps.add_record p.snapshot p.existing rec ≡ written)
      × ((tx : MinedTx) × IsRecordOf deps p rec tx)

  recorded-verify_stage :
      (p : Prepared) (v : Existing) (rec : V13Record)
      → (verify_stage deps p v).recorded ≡ some rec
      → p.nonce ≡ none
      → IsChecked p rec
  unfolding verify_stage
  recorded-verify_stage p v rec h no_nonce = elim (Result-cases (check_existing deps p v)) [
    | inl ((d, commit, tx), e) ↦
        let (r, wrote) =
          recorded-record_stage false p d commit (some tx) rec (rw (e, verify_stage) at h) in
        (
          wrote,
          read_back-eq-ok deps p d commit (some tx) rec r (λ t same.
              subst (IsDeployOf deps p d) (inner t tx same)
                (check_existing-eq-ok deps p v d commit tx e no_nonce)),
        )
    | inr (f, e) ↦ ground arith
  ]
    where
      inner : (t tx : MinedTx) → ◌≡◌ {A = Option MinedTx} (some tx) (some t) → tx ≡ t
      inner t tx e = cc

  recorded-send_stage :
      (opts : DeployOptions) (p : Prepared) (n : ℕ) (rec : V13Record)
      → (send_stage deps opts p n).recorded ≡ some rec
      → IsChecked p rec
  unfolding send_stage
  recorded-send_stage opts p n rec h =
      go (deps.deploy p.args opts.mainnet_flag opts.deploy_digest) refl
    where
      no_record : {A : Type 0} → ◌≡◌ {A = Option V13Record} none (some rec) → A
      no_record e = cc

      go :
          (o : SendOutcome)
          → deps.deploy p.args opts.mainnet_flag opts.deploy_digest ≡ o
          → IsChecked p rec
      go (refused f) e = no_record (rw (e, send_stage) at h)
      go (failed f) e = no_record (rw (e, send_stage) at h)
      go (mined address hash) e =
          elim (Bool-cases (eq_ignore_case address (predicted_address viem p.roles.deployer n))) [
            | inl same ↦
                let (r, wrote) =
                  recorded-record_stage true p (record { address = address; tx_hash = hash })
                    p.source.commit none rec (rw (e, send_stage, same) at h) in
                (wrote, read_back-eq-ok deps p _ p.source.commit none rec r (λ t no_tx. cc no_tx))
            | inr other ↦ no_record (rw (e, send_stage, other) at h)
          ]

  recorded-deploy_stage :
      (opts : DeployOptions) (p : Prepared) (n : ℕ) (rec : V13Record)
      → (deploy_stage deps opts p n).recorded ≡ some rec
      → (send_stage deps opts p n).recorded ≡ some rec
  unfolding deploy_stage
  recorded-deploy_stage opts p n rec h = ground arith

  -- A run writes a record only when the run was prepared, the file had no v13 record, and the read-back
  -- of the record's address succeeded on one of four attempts: the contract answered as a fresh deploy
  -- must. One of four fetches gave the record's transaction, mined, with the time that
  -- the record has, and it is a successful creation by the deploy key of the contract at the record's
  -- address from the prepared bytes, with the prepared nonce if there is one. The record has the
  -- prepared owner and guardian and the hash of the prepared bytes, and the store reported the write.
  pub recorded-IsChecked :
      (opts : DeployOptions) (rec : V13Record)
      → (run_rubicon_v13_deploy deps opts).recorded ≡ some rec
      → (p : Prepared) × (prepare deps opts ≡ ok p)
        × (get record_key p.existing ≡ none)
        × IsChecked p rec
  unfolding run_rubicon_v13_deploy run_flow choose_stage read_nonce
  recorded-IsChecked opts rec h = elim (Result-cases (prepare deps opts)) [
    | inr (f, e) ↦ ground arith
    | inl (p, e) ↦
        let i = prepare-IsPrepared deps opts p e in
        let fresh = read_file-eq-ok deps p.snapshot p.existing i.file in
        elim (Option-cases opts.verify_existing) [
          | inl deploying ↦ (
            p,
            e,
            fresh,
            recorded-send_stage opts p _ rec
                (recorded-deploy_stage opts p (or_else p.nonce 0) rec (ground arith)),
          )
          | inr (v, verifying) ↦
              (p, e, fresh, recorded-verify_stage p v rec (ground arith) (ground (arith, i.nonce)))
        ]
  ]
