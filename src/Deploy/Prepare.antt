-- ===== src/Deploy/Prepare.antt =====
-- scripts/bridge/lib/rubicon-v13.ts: `runFlow` up to the send. Nothing here sends or writes.
use rome_solidity.Prelude.{
  ℕ, ◌*◌, String, Bool, true, false, not, ◌&&◌, ◌||◌, Option, none, some, ltb, ◌==◌, nat_eq,
  string_eq, if◌then◌else◌, is_some, or_else, Result, ok, err, ◌>>=◌, ◌>>◌, throw_if,
}
use rome_solidity.Prelude.Text.{eq_ignore_case}
use rome_solidity.Prelude.Json.{Fields, get, get_in, as_text}
use rome_solidity.Ctor.{CtorArgs, build_withdraw_constructor_args, zero_address}
use rome_solidity.Deploy.{rubicon_network, rubicon_chain_id, record_key}
use rome_solidity.Deploy.Args.{DeployOptions}
use rome_solidity.Deploy.Roles.{DeployRoles, validate_roles}
use rome_solidity.Deploy.ReadBack.{Answer, text, owner}
use rome_solidity.Deploy.Tx.{deploy_digest}
use rome_solidity.Deploy.Record.{Usdc, usdc_from_deployments}
use rome_solidity.Deploy.Env.{
  DeployDeps, Estimate, Source, FlowError, dependency, not_rubicon, rubicon_under_another_name,
  bad_roles, owner_has_code, guardian_has_code, recorded_before, not_canonical, bad_record,
  bad_ctor, unclean_sources, stale_artifact, guardian_is_v12_owner, owner_is_not_v12_owner,
  digest_differs, gas_price_not_pinned, low_balance, owner_without_gas,
}

-- An error of a part, as an error of the flow
abbrev pub lift_err {ℓ κ} :
    {E : Type ℓ} {A : Type κ} → (E → FlowError) → Result E A → Result FlowError A
lift_err f (ok a) = ok a
lift_err f (err e) = err (f e)

-- What is known before the send
pub record Prepared : Type 0 where
  pub chain_id : ℕ
  pub mainnet : Bool
  pub roles : DeployRoles
  pub owner_balance : ℕ
  pub snapshot : Option String
  pub existing : Fields
  pub usdc : Usdc
  pub args : CtorArgs
  pub creation : String
  pub source : Source
  pub dry_run : Bool
  -- only for a deploy: the deploy key's nonce
  pub nonce : Option ℕ

module _ (deps : DeployDeps) where
  open deps use {viem, solana}

  -- 1. The guard, and the network's name against the chain
  unfoldable pub check_chain : DeployOptions → Result FlowError ℕ
  check_chain opts = do
    chain_id ← lift_err dependency (deps.guard opts.mainnet_flag)
    throw_if (deps.network_name == rubicon_network && not (chain_id == rubicon_chain_id))
        (not_rubicon chain_id)
    throw_if (chain_id == rubicon_chain_id && not (deps.network_name == rubicon_network))
        (rubicon_under_another_name deps.network_name)
    ok chain_id

  -- 2. The roles; on Rubicon their accounts hold no code. The result is the owner's balance too.
  unfoldable pub check_accounts : DeployOptions → Bool → Result FlowError (DeployRoles × ℕ)
  check_accounts opts mainnet = do
    roles ← lift_err bad_roles (validate_roles viem deps.deployer opts.owner opts.guardian mainnet)
    owner_info ← lift_err dependency (deps.account_info roles.owner)
    guardian_info ← lift_err dependency (deps.account_info roles.guardian)
    throw_if (mainnet && owner_info.has_code) (owner_has_code roles.owner)
    throw_if (mainnet && guardian_info.has_code) (guardian_has_code roles.guardian)
    ok (roles, owner_info.balance)

  -- The deployments file: the snapshot parsed, or the store's own reading
  unfoldable pub read_existing : Option String → Result FlowError Fields
  read_existing none = lift_err dependency deps.read
  read_existing (some raw) = lift_err dependency (deps.json_parse raw)

  -- `JSON.stringify(existing, null, 2) + "\n" !== snapshot`
  abbrev pub lacks_layout : Option String → Fields → Bool
  lacks_layout none existing = false
  lacks_layout (some raw) existing = not (deps.json_text existing == raw)

  -- 3. The file, with every refusal of the record's write, and the checkout
  unfoldable pub read_file : Result FlowError (Option String × Fields)
  read_file = do
    snapshot ← lift_err dependency deps.read_raw
    existing ← read_existing snapshot
    throw_if (is_some (get record_key existing)) recorded_before
    throw_if (lacks_layout snapshot existing) not_canonical
    ok (snapshot, existing)

  unfoldable pub check_source : Bool → Result FlowError Source
  check_source mainnet = do
    src ← lift_err dependency deps.source
    throw_if (mainnet && not src.contracts_clean) unclean_sources
    throw_if (mainnet && not src.build_ok) (stale_artifact src.build_problems)
    ok src

  -- The owner of the live v12 contract, where its record and its answer are addresses
  abbrev pub v12_owner_answer : Result String Answer → Option String
  v12_owner_answer (ok (text who)) =
      if viem.is_address who && not (eq_ignore_case who zero_address)
      then some (viem.get_address who)
      else none
  v12_owner_answer _ = none

  unfoldable pub v12_owner_at : Option String → Option String
  v12_owner_at none = none
  v12_owner_at (some v12) =
      if viem.is_address v12
      then v12_owner_answer ((deps.reader (viem.get_address v12) 0).read owner)
      else none

  unfoldable pub v12_owner : Fields → Option String
  unfolding v12_owner_at
  v12_owner existing = v12_owner_at (as_text (get_in "address" (get "RomeBridgeWithdraw" existing)))

  -- `v12Owner && eq(a, v12Owner)`
  abbrev pub is_v12_owner : Option String → String → Bool
  is_v12_owner none a = false
  is_v12_owner (some who) a = eq_ignore_case a who

  -- On Rubicon the owner is v12's and the guardian is not; a dry run only warns of another owner.
  unfoldable pub check_v12 : DeployOptions → Prepared → Result FlowError (Unit {0})
  check_v12 opts p = do
    let who = v12_owner p.existing
    throw_if (p.mainnet && is_v12_owner who p.roles.guardian) guardian_is_v12_owner
    throw_if
        (p.mainnet
          && not opts.owner_differs_from_v12
          && not (is_v12_owner who p.roles.owner)
          && not p.dry_run)
        owner_is_not_v12_owner

  -- `verifying ? undefined : await deps.nonce()`
  unfoldable pub read_nonce : Bool → Result FlowError (Option ℕ)
  read_nonce true = ok none
  read_nonce false = do n ← lift_err dependency deps.nonce; ok (some n)

  abbrev pub is_verifying : DeployOptions → Bool
  is_verifying opts = is_some opts.verify_existing

  -- `opts.dryRun || (mainnet && !verifying && opts.deployDigest === undefined)`
  abbrev pub is_dry_run : DeployOptions → Bool → Bool
  is_dry_run opts mainnet =
      opts.dry_run || mainnet && not (is_verifying opts) && not (is_some opts.deploy_digest)

  unfoldable pub prepare : DeployOptions → Result FlowError Prepared
  prepare opts = do
    chain_id ← check_chain opts
    let mainnet = chain_id == rubicon_chain_id
    (roles, owner_balance) ← check_accounts opts mainnet
    (snapshot, existing) ← read_file
    usdc ← lift_err bad_record (usdc_from_deployments viem solana existing)
    args ← lift_err bad_ctor (
        build_withdraw_constructor_args solana (record {
          network_name = deps.network_name;
          usdc_wrapper = usdc.wrapper;
          usdc_mint_base58 = usdc.mint_base58;
          owner = roles.owner;
          guardian = roles.guardian;
        }))
    src ← check_source mainnet
    nonce ← read_nonce (is_verifying opts)
    let p : Prepared = record {
      chain_id = chain_id;
      mainnet = mainnet;
      roles = roles;
      owner_balance = owner_balance;
      snapshot = snapshot;
      existing = existing;
      usdc = usdc;
      args = args;
      creation = deps.deploy_data args;
      source = src;
      dry_run = is_dry_run opts mainnet;
      nonce = nonce;
    }
    check_v12 opts p
    ok p

  -- The digest of the deploy at a nonce
  unfoldable pub digest_of : Prepared → ℕ → String
  digest_of p n = deploy_digest viem p.creation p.chain_id p.roles.deployer n

  -- `!dryRun && wantDigest !== undefined && wantDigest.toLowerCase() !== digest.toLowerCase()`
  unfoldable pub check_digest : Option String → Prepared → ℕ → Result FlowError (Unit {0})
  check_digest none p n = ok tt
  check_digest (some want) p n =
      throw_if (not p.dry_run && not (eq_ignore_case want (digest_of p n))) (digest_differs want)

  -- `est.balance !== undefined && est.balance < cost`
  abbrev pub is_below : Option ℕ → ℕ → Bool
  is_below none cost = false
  is_below (some b) cost = ltb b cost

  -- The price is pinned, and for a real deploy the balances suffice.
  unfoldable pub check_estimate : Prepared → Estimate → Result FlowError (Unit {0})
  check_estimate p est = do
    throw_if (not est.gas_price_pinned || not (is_some est.gas_price)) gas_price_not_pinned
    let cost = est.gas * or_else est.gas_price 0
    throw_if (not p.dry_run && is_below est.balance cost) (low_balance (or_else est.balance 0) cost)
    throw_if (not p.dry_run && p.owner_balance == 0) owner_without_gas

  -- On Rubicon the estimate is made before the dry run's end too; elsewhere only a dry run makes it,
  -- to print it.
  unfoldable pub check_price : Prepared → Result FlowError (Unit {0})
  check_price p =
      if p.mainnet
      then (do est ← lift_err dependency (deps.estimate p.args); check_estimate p est)
      else if p.dry_run
      then (do _ ← lift_err dependency (deps.estimate p.args); ok tt)
      else ok tt
