-- ===== src/Deploy/Prepared.antt =====
-- What a prepared deploy guarantees.
use rome_solidity.Prelude.{◌≡◌, refl, ◌==◌, nat_eq, string_eq, Result, ok, >>=-eq-ok, subst}
use rome_solidity.Ctor.{build_withdraw_constructor_args}
use rome_solidity.Deploy.{rubicon_chain_id}
use rome_solidity.Deploy.Args.{DeployOptions}
use rome_solidity.Deploy.Record.{usdc_from_deployments}
use rome_solidity.Deploy.Env.{DeployDeps, FlowError, bad_record, bad_ctor}
use rome_solidity.Deploy.Prepare.{
  Prepared, lift_err, check_chain, check_accounts, read_file, check_source, read_nonce,
  is_verifying, is_dry_run, check_v12, prepare,
}

module _ (deps : DeployDeps) where
  open deps use {viem, solana}

  pub record IsPrepared (opts : DeployOptions) (p : Prepared) : Type 0 where
    pub chain : check_chain deps opts ≡ ok p.chain_id
    pub mainnet : p.mainnet ≡ (p.chain_id == rubicon_chain_id)
    pub accounts : check_accounts deps opts p.mainnet ≡ ok (p.roles, p.owner_balance)
    pub file : read_file deps ≡ ok (p.snapshot, p.existing)
    pub source : check_source deps p.mainnet ≡ ok p.source
    pub nonce : read_nonce deps (is_verifying deps opts) ≡ ok p.nonce
    pub dry : p.dry_run ≡ is_dry_run deps opts p.mainnet
    pub creation : p.creation ≡ deps.deploy_data p.args
    pub v12 : check_v12 deps opts p ≡ ok tt

  pub prepare-IsPrepared :
      (opts : DeployOptions) (p : Prepared) → prepare deps opts ≡ ok p → IsPrepared opts p
  unfolding prepare
  prepare-IsPrepared opts p h =
      let (chain_id, e₁, h₁) = >>=-eq-ok (check_chain deps opts) _ h in
      let (accounts, e₂, h₂) =
        >>=-eq-ok (check_accounts deps opts (chain_id == rubicon_chain_id)) _ h₁ in
      let (file, e₃, h₃) = >>=-eq-ok (read_file deps) _ h₂ in
      let (usdc, e₄, h₄) =
        >>=-eq-ok (lift_err bad_record (usdc_from_deployments viem solana file.1)) _ h₃ in
      let (args, e₅, h₅) =
        >>=-eq-ok
          (lift_err bad_ctor (
            build_withdraw_constructor_args solana (record {
              network_name = deps.network_name;
              usdc_wrapper = usdc.wrapper;
              usdc_mint_base58 = usdc.mint_base58;
              owner = accounts.0.owner;
              guardian = accounts.0.guardian;
            })))
          _ h₄ in
      let (src, e₆, h₆) = >>=-eq-ok (check_source deps (chain_id == rubicon_chain_id)) _ h₅ in
      let (n, e₇, h₇) = >>=-eq-ok (read_nonce deps (is_verifying deps opts)) _ h₆ in
      let (u, e₈, h₈) = >>=-eq-ok (check_v12 deps opts _) _ h₇ in
      subst (IsPrepared opts) (prepared_eq h₈) (record {
        chain = e₁;
        mainnet = refl;
        accounts = e₂;
        file = e₃;
        source = e₆;
        nonce = e₇;
        dry = refl;
        creation = refl;
        v12 = e₈;
      })
    where
      prepared_eq : {a b : Prepared} → ◌≡◌ {A = Result FlowError Prepared} (ok a) (ok b) → a ≡ b
      prepared_eq e = cc
