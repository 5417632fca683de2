-- ===== src/Deploy/Safety.antt =====
-- When the deploy sends: the conditions of a send, and what a run that does not send leaves alone.
use rome_solidity.Prelude.{
  ℕ, String, ◌≡◌, ◌∙◌, ◌↔◌, ◌⊎◌, Bool, true, false, Option, none, some, arith, ◌==◌, nat_eq,
  is_some, or_else, ok, Result-cases, Option-cases, inl, inr, >>=-eq-ok,
}
use rome_solidity.Prelude.Json.{get}
use rome_solidity.Deploy.{rubicon_chain_id, record_key, rubicon_network}
use rome_solidity.Deploy.Args.{DeployOptions, Existing}
use rome_solidity.Deploy.Roles.{validate_roles}
use rome_solidity.Deploy.Env.{DeployDeps, Estimate}
use rome_solidity.Deploy.Prepare.{
  Prepared, prepare, check_digest, digest_of, v12_owner, is_v12_owner,
}
use rome_solidity.Deploy.Prepared.{IsPrepared, prepare-IsPrepared}
use rome_solidity.Deploy.Approved.{
  GivenDigest, AreCodeless, IsPaid, check_chain-eq-ok, check_accounts-eq-ok, read_file-eq-ok,
  check_source-eq-ok, check_v12-eq-ok, check_digest-eq-ok, check_price-eq-ok,
}
use rome_solidity.Deploy.Tx.{MinedTx}
use rome_solidity.Deploy.Record.{V13Record}
use rome_solidity.Deploy.Flow.{
  Deployed, read_back, write_record, record_stage, check_existing, verify_stage, check_before_send,
  deploy_stage, choose_stage, run_flow, run_rubicon_v13_deploy,
}

module _ (deps : DeployDeps) where
  sent-write_record :
      (b : Bool) (p : Prepared) (d : Deployed) (rec : V13Record)
      → (write_record deps b p d rec).sent ≡ b
  unfolding write_record
  sent-write_record b p d rec = ground arith

  sent-record_stage :
      (b : Bool) (p : Prepared) (d : Deployed) (commit : String) (known : Option MinedTx)
      → (record_stage deps b p d commit known).sent ≡ b
  unfolding record_stage
  sent-record_stage b p d commit known = elim (Result-cases (read_back deps p d commit known)) [
    | inl (rec, e) ↦ ground (arith, sent-write_record b p d rec)
    | inr (f, e) ↦ ground arith
  ]

  sent-verify_stage : (p : Prepared) (v : Existing) → (verify_stage deps p v).sent ≡ false
  unfolding verify_stage
  sent-verify_stage p v = elim (Result-cases (check_existing deps p v)) [
    | inl ((d, commit, tx), e) ↦ ground (arith, sent-record_stage false p d commit (some tx))
    | inr (f, e) ↦ ground arith
  ]

  sent-deploy_stage :
      (opts : DeployOptions) (p : Prepared) (n : ℕ)
      → (deploy_stage deps opts p n).sent ≡ true
      → (check_before_send deps opts p n ≡ ok tt) × (p.dry_run ≡ false)
  unfolding deploy_stage
  sent-deploy_stage opts p n h = ground arith

  -- A run that sent was prepared, is no recovery and no dry run, and passed the tests before the send.
  sent_inv :
      (opts : DeployOptions)
      → (run_flow deps opts).sent ≡ true
      → (p : Prepared) × (prepare deps opts ≡ ok p)
        × (opts.verify_existing ≡ none)
        × (p.dry_run ≡ false)
        × (check_before_send deps opts p (or_else p.nonce 0) ≡ ok tt)
  unfolding run_flow choose_stage
  sent_inv opts h = elim (Result-cases (prepare deps opts)) [
    | inr (f, e) ↦ ground arith
    | inl (p, e) ↦ elim (Option-cases opts.verify_existing) [
      | inr (v, verifying) ↦ ground (arith, sent-verify_stage p v)
      | inl deploying ↦
          let (passed, real) = sent-deploy_stage opts p (or_else p.nonce 0) (ground arith) in
          (p, e, deploying, real, passed)
    ]
  ]

  -- Everything that a send on Rubicon rests on.
  pub record IsApproved (opts : DeployOptions) (p : Prepared) : Type 0 where
    pub roles : validate_roles deps.viem deps.deployer opts.owner opts.guardian true ≡ ok p.roles
    pub codeless : AreCodeless deps p.roles
    pub clean : (p.source.contracts_clean ≡ true) × (p.source.build_ok ≡ true)
    pub digest : GivenDigest opts.deploy_digest (digest_of deps p (or_else p.nonce 0))
    pub guardian : is_v12_owner deps (v12_owner deps p.existing) p.roles.guardian ≡ false
    pub owner :
        (opts.owner_differs_from_v12 ≡ true)
        ⊎ (is_v12_owner deps (v12_owner deps p.existing) p.roles.owner ≡ true)
    pub paid : (est : Estimate) × IsPaid deps p est

  approved :
      (opts : DeployOptions) (p : Prepared)
      → IsPrepared deps opts p
      → opts.verify_existing ≡ none
      → p.dry_run ≡ false
      → check_before_send deps opts p (or_else p.nonce 0) ≡ ok tt
      → p.mainnet ≡ true
      → IsApproved opts p
  unfolding check_before_send
  approved opts p i deploying real passed on_mainnet =
      let (u, digest, h) =
        >>=-eq-ok (check_digest deps opts.deploy_digest p (or_else p.nonce 0)) _ passed in
      let accounts =
        check_accounts-eq-ok deps opts p.roles p.owner_balance (rw on_mainnet at i.accounts) in
      let v12 = check_v12-eq-ok deps opts p i.v12 on_mainnet in
      let given : is_some opts.deploy_digest ≡ true = ground (arith, i.dry) in
      record {
        roles = accounts.0;
        codeless = accounts.1;
        clean = check_source-eq-ok deps p.source (rw on_mainnet at i.source);
        digest = check_digest-eq-ok deps opts.deploy_digest p (or_else p.nonce 0) digest real given;
        guardian = v12.0;
        owner = v12.1 real;
        paid = check_price-eq-ok deps p h on_mainnet real;
      }

  -- A run hands a transaction to the wallet only when it was prepared, is no recovery and no dry run,
  -- the guard answered its chain, the network is called rubicon exactly on chain 7531, and no v13 record
  -- is in the file. On Rubicon, moreover: the roles are valid under strict checksums, the owner's and
  -- the guardian's accounts hold no code, the sources are clean and the artifact is theirs, the given
  -- digest is that of these bytes, chain, key and nonce, letter case aside, the guardian is not v12's
  -- owner and the owner is, unless the flag says otherwise, and the price is pinned and covered.
  pub sent-IsApproved :
      (opts : DeployOptions)
      → (run_rubicon_v13_deploy deps opts).sent ≡ true
      → (p : Prepared) × (prepare deps opts ≡ ok p)
        × (opts.verify_existing ≡ none)
        × (p.dry_run ≡ false)
        × (deps.guard opts.mainnet_flag ≡ ok p.chain_id)
        × ((deps.network_name ≡ rubicon_network) ↔ (p.chain_id ≡ rubicon_chain_id))
        × (get record_key p.existing ≡ none)
        × (p.chain_id ≡ rubicon_chain_id → IsApproved opts p)
  unfolding run_rubicon_v13_deploy
  sent-IsApproved opts h =
      let (p, e, deploying, real, passed) = sent_inv opts h in
      let i = prepare-IsPrepared deps opts p e in
      let (guarded, named) = check_chain-eq-ok deps opts p.chain_id i.chain in
      (
        p,
        e,
        deploying,
        real,
        guarded,
        named,
        read_file-eq-ok deps p.snapshot p.existing i.file,
        λ on. approved opts p i deploying real passed (i.mainnet ∙ is_rubicon p.chain_id on),
      )
    where
      is_rubicon : (n : ℕ) → n ≡ rubicon_chain_id → (n == rubicon_chain_id) ≡ true
      is_rubicon n e = ground arith
