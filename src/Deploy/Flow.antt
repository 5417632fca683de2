-- ===== src/Deploy/Flow.antt =====
-- scripts/bridge/lib/rubicon-v13.ts: `runFlow` from the send on, and `runRubiconV13Deploy`. A run has
-- its result and what it did to the world; the lines that it logs are not modelled.
use rome_solidity.Prelude.{
  ℕ, String, Bool, true, false, not, Option, none, some, List, or_else, if◌then◌else◌, Result, ok,
  err, ◌>>=◌, ◌>>◌, throw_if,
}
use rome_solidity.Prelude.Text.{eq_ignore_case}
use rome_solidity.Deploy.{expected_version}
use rome_solidity.Deploy.Args.{DeployOptions, Existing}
use rome_solidity.Deploy.Roles.{DeployRoles}
use rome_solidity.Deploy.ReadBack.{Expected, OwnerCall, lacks_code, is_nil, build_owner_calls}
use rome_solidity.Deploy.Tx.{MinedTx, TxProblem, deploy_tx_problems, predicted_address}
use rome_solidity.Deploy.Record.{V13Record}
use rome_solidity.Deploy.Env.{
  DeployDeps, refused, failed, mined, written, conflict, write_failed, FlowError, dependency,
  bad_ctor, other_sources, not_this_deploy, send_refused, send_failed, unexpected_address,
  code_unreadable, not_approved, record_conflict, record_not_written, this_run_only,
}
use rome_solidity.Deploy.Retry.{verify_with_retry, fetch_mined_deploy}
use rome_solidity.Ctor.{CtorArgs}
use rome_solidity.Deploy.Prepare.{digest_of, Prepared, lift_err, prepare, check_digest, check_price}

pub record Deployed : Type 0 where
  pub address : String
  pub tx_hash : String

pub record DeployResult : Type 0 where
  pub dry_run : Bool
  pub chain_id : ℕ
  pub roles : DeployRoles
  pub args : CtorArgs
  pub digest : Option String
  pub nonce : Option ℕ
  pub deployed : Option Deployed
  pub owner_calls : Option (List OwnerCall)

-- A run: its result, whether a transaction was handed to the wallet, whether `stage.sendStarted` was
-- set, and the record that it wrote
pub record Run : Type 0 where
  pub result : Result FlowError DeployResult
  pub sent : Bool
  pub send_started : Bool
  pub recorded : Option V13Record

-- A run that ends before the send
abbrev pub stop : Result FlowError DeployResult → Run
stop r = record { result = r; sent = false; send_started = false; recorded = none }

-- A run that ends after the stage was set
abbrev pub end_with : Bool → Option V13Record → Result FlowError DeployResult → Run
end_with sent recorded r = record {
  result = r;
  sent = sent;
  send_started = true;
  recorded = recorded;
}

module _ (deps : DeployDeps) where
  open deps use {viem, solana}

  -- The code for the record; a failed call counts as none.
  unfoldable pub chain_code : String → Result FlowError String
  chain_code address = elim ((deps.reader address 5).get_code) [
    | err _ ↦ err code_unreadable
    | ok code ↦ if lacks_code code then err code_unreadable else ok (or_else code "")
  ]

  -- `deployTxProblems` must find nothing.
  abbrev pub approve :
      (List TxProblem → FlowError)
      → MinedTx
      → Prepared
      → Deployed
      → Option ℕ
      → Result FlowError MinedTx
  approve f tx p d nonce =
      let problems = deploy_tx_problems tx d.address p.creation p.roles.deployer nonce in
      if is_nil problems then ok tx else err (f problems)

  -- The mined transaction of the record: a recovery has it, a deploy fetches it.
  unfoldable pub mined_for : Prepared → Deployed → Option MinedTx → Result FlowError MinedTx
  mined_for p d (some tx) = ok tx
  mined_for p d none = do
    tx ← fetch_mined_deploy deps d.tx_hash
    approve not_approved tx p d p.nonce

  abbrev pub expected_of : Prepared → Expected
  expected_of p = record {
    owner = p.roles.owner;
    guardian = p.roles.guardian;
    deployer = p.roles.deployer;
    usdc_wrapper = p.usdc.wrapper;
    usdc_mint_base58 = p.usdc.mint_base58;
  }

  abbrev pub record_of : Prepared → Deployed → String → MinedTx → String → V13Record
  record_of p d commit tx code = record {
    address = d.address;
    version = expected_version;
    owner = p.roles.owner;
    guardian = p.roles.guardian;
    deploy_tx = d.tx_hash;
    deployed_at = or_else tx.block_timestamp 0;
    commit = commit;
    build_info_id = p.source.build_info_id;
    solc_version = or_else p.source.solc_version "unknown";
    code_hash = viem.keccak256 code;
    deploy_input_hash = viem.keccak256 p.creation;
  }

  -- 5b. and the hashes: everything that must hold before the record is written
  unfoldable pub read_back :
      Prepared → Deployed → String → Option MinedTx → Result FlowError V13Record
  read_back p d commit known = do
    checked ← verify_with_retry deps d.address (expected_of p)
    code ← chain_code d.address
    tx ← mined_for p d known
    ok (record_of p d commit tx code)

  -- `nonce === undefined ? undefined : deployDigest(…)`
  abbrev pub digest_at : Prepared → Option ℕ → Option String
  digest_at p none = none
  digest_at p (some n) = some (digest_of deps p n)

  -- 7. The owner calls, at the end of a run
  unfoldable pub finish : Prepared → Deployed → Result FlowError DeployResult
  finish p d = do
    calls ← lift_err bad_ctor (build_owner_calls viem solana d.address p.usdc.mint_base58)
    ok (record {
      dry_run = false;
      chain_id = p.chain_id;
      roles = p.roles;
      nonce = p.nonce;
      deployed = some d;
      args = p.args;
      digest = digest_at p p.nonce;
      owner_calls = some calls;
    })

  -- 6. The write of the record
  unfoldable pub write_record : Bool → Prepared → Deployed → V13Record → Run
  write_record sent p d rec = elim (deps.add_record p.snapshot p.existing rec) [
    | written ↦ end_with sent (some rec) (finish p d)
    | conflict ↦ end_with sent none (err record_conflict)
    | write_failed e ↦ end_with sent none (err (record_not_written e))
  ]

  unfoldable pub record_stage : Bool → Prepared → Deployed → String → Option MinedTx → Run
  record_stage sent p d commit known = elim (read_back p d commit known) [
    | err e ↦ end_with sent none (err e)
    | ok rec ↦ write_record sent p d rec
  ]

  -- 4v. The tests on a contract that is already deployed
  unfoldable pub check_existing :
      Prepared → Existing → Result FlowError (Deployed × String × MinedTx)
  check_existing p v = do
    let d : Deployed = record { address = viem.get_address v.address; tx_hash = v.tx_hash }
    at_commit ← lift_err dependency (deps.source_at v.source_commit)
    throw_if (not at_commit.same_sources) (other_sources v.source_commit)
    tx ← fetch_mined_deploy deps v.tx_hash
    tx' ← approve not_this_deploy tx p d none
    ok (d, at_commit.commit, tx')

  unfoldable pub verify_stage : Prepared → Existing → Run
  verify_stage p v = elim (check_existing p v) [
    | err e ↦ stop (err e)
    | ok (d, commit, tx) ↦ record_stage false p d commit (some tx)
  ]

  -- 5a. The send, and the address that it must create
  unfoldable pub send_stage : DeployOptions → Prepared → ℕ → Run
  send_stage opts p n = elim (deps.deploy p.args opts.mainnet_flag opts.deploy_digest) [
    | refused e ↦ stop (err (send_refused e))
    | failed e ↦ end_with true none (err (send_failed e))
    | mined address hash ↦
        if eq_ignore_case address (predicted_address viem p.roles.deployer n)
        then record_stage true p (record { address = address; tx_hash = hash }) p.source.commit none
        else end_with true none (err (unexpected_address address))
  ]

  unfoldable pub check_before_send : DeployOptions → Prepared → ℕ → Result FlowError (Unit {0})
  check_before_send opts p n = do check_digest deps opts.deploy_digest p n; check_price deps p

  -- The end of a dry run
  abbrev pub dry_result : Prepared → DeployResult
  dry_result p = record {
    dry_run = true;
    chain_id = p.chain_id;
    roles = p.roles;
    args = p.args;
    digest = digest_at p p.nonce;
    nonce = p.nonce;
    deployed = none;
    owner_calls = none;
  }

  unfoldable pub deploy_stage : DeployOptions → Prepared → ℕ → Run
  deploy_stage opts p n = elim (check_before_send opts p n) [
    | err e ↦ stop (err e)
    | ok _ ↦ if p.dry_run then stop (ok (dry_result p)) else send_stage opts p n
  ]

  -- The choice between a recovery and a deploy
  unfoldable pub choose_stage : DeployOptions → Prepared → Option Existing → Run
  choose_stage opts p (some v) = verify_stage p v
  choose_stage opts p none = deploy_stage opts p (or_else p.nonce 0)

  unfoldable pub run_flow : DeployOptions → Run
  run_flow opts = elim (prepare deps opts) [
    | err e ↦ stop (err e)
    | ok p ↦ choose_stage opts p opts.verify_existing
  ]

  -- `if (!stage.sendStarted) e.message += preSendNote(…)`
  abbrev pub with_note : Bool → Result FlowError DeployResult → Result FlowError DeployResult
  with_note started (ok r) = ok r
  with_note true (err e) = err e
  with_note false (err e) = err (this_run_only e)

  unfoldable pub run_rubicon_v13_deploy : DeployOptions → Run
  run_rubicon_v13_deploy opts =
      let r = run_flow opts in record r { result = with_note r.send_started r.result }
