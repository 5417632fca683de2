-- ===== src/Deploy/Unstarted.antt =====
-- Runs that end before the send, and their note.
use rome_solidity.Prelude.{
  ℕ, String, ◌≡◌, inl, inr, Bool, true, false, Option, none, some, arith, or_else, Result, ok, err,
  Result-cases, Option-cases,
}
use rome_solidity.Deploy.Args.{DeployOptions, Existing}
use rome_solidity.Deploy.Tx.{MinedTx}
use rome_solidity.Deploy.Record.{V13Record}
use rome_solidity.Deploy.Env.{DeployDeps, FlowError, this_run_only}
use rome_solidity.Deploy.Prepare.{Prepared, prepare}
use rome_solidity.Deploy.Flow.{
  Deployed, DeployResult, Run, with_note, read_back, write_record, record_stage, check_existing,
  verify_stage, send_stage, deploy_stage, choose_stage, run_flow, run_rubicon_v13_deploy,
}

module _ (deps : DeployDeps) where
  -- Before the stage is set nothing was sent or written.
  abbrev IsOrdered : Run → Type 0
  IsOrdered r = r.send_started ≡ false → (r.sent ≡ false) × (r.recorded ≡ none)

  started-write_record :
      (b : Bool) (p : Prepared) (d : Deployed) (rec : V13Record)
      → (write_record deps b p d rec).send_started ≡ true
  unfolding write_record
  started-write_record b p d rec = ground arith

  started-record_stage :
      (b : Bool) (p : Prepared) (d : Deployed) (commit : String) (known : Option MinedTx)
      → (record_stage deps b p d commit known).send_started ≡ true
  unfolding record_stage
  started-record_stage b p d commit known = elim (Result-cases (read_back deps p d commit known)) [
    | inl (rec, e) ↦ ground (arith, started-write_record b p d rec)
    | inr (f, e) ↦ ground arith
  ]

  IsOrdered-verify_stage : (p : Prepared) (v : Existing) → IsOrdered (verify_stage deps p v)
  unfolding verify_stage
  IsOrdered-verify_stage p v h = elim (Result-cases (check_existing deps p v)) [
    | inl ((d, commit, tx), e) ↦ ground (arith, started-record_stage false p d commit (some tx))
    | inr (f, e) ↦ ground arith
  ]

  IsOrdered-send_stage :
      (opts : DeployOptions) (p : Prepared) (n : ℕ) → IsOrdered (send_stage deps opts p n)
  unfolding send_stage
  IsOrdered-send_stage opts p n h = grind (arith, started-record_stage)

  IsOrdered-deploy_stage :
      (opts : DeployOptions) (p : Prepared) (n : ℕ) → IsOrdered (deploy_stage deps opts p n)
  unfolding deploy_stage
  IsOrdered-deploy_stage opts p n h = ground (arith, IsOrdered-send_stage opts p n)

  IsOrdered-run_flow : (opts : DeployOptions) → IsOrdered (run_flow deps opts)
  unfolding run_flow choose_stage
  IsOrdered-run_flow opts h = elim (Result-cases (prepare deps opts)) [
    | inr (f, e) ↦ ground arith
    | inl (p, e) ↦ elim (Option-cases opts.verify_existing) [
      | inl deploying ↦ ground (arith, IsOrdered-deploy_stage opts p (or_else p.nonce 0))
      | inr (v, verifying) ↦ ground (arith, IsOrdered-verify_stage p v)
    ]
  ]

  with_note_iff :
      (b : Bool) (r : Result FlowError DeployResult) (e : FlowError)
      → b ≡ false
      → with_note deps b r ≡ err e
      → (cause : FlowError) × (e ≡ this_run_only cause)
  with_note_iff false (ok a) e h k = ground arith
  with_note_iff false (err f) e h k = (f, cc)
  with_note_iff true r e h k = ground arith

  -- A run that ends before the send has started handed no transaction to the wallet and wrote no record,
  -- and if it failed, its error has the note that it is about this run only.
  pub unstarted-noted :
      (opts : DeployOptions)
      → (run_rubicon_v13_deploy deps opts).send_started ≡ false
      → ((run_rubicon_v13_deploy deps opts).sent ≡ false)
        × ((run_rubicon_v13_deploy deps opts).recorded ≡ none)
        × ((e : FlowError)
            → (run_rubicon_v13_deploy deps opts).result ≡ err e
            → (cause : FlowError) × (e ≡ this_run_only cause))
  unfolding run_rubicon_v13_deploy
  unstarted-noted opts h = (
    (IsOrdered-run_flow opts h).0,
    (IsOrdered-run_flow opts h).1,
    λ e failed. with_note_iff _ _ e h failed,
  )
