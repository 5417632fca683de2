-- ===== src/Deployments/Saved.antt =====
-- What is read from the file after something was saved in it.
use rome_solidity.Prelude.{
  String, ◌≡◌, ◌≢◌, ◌↔◌, ◌⊎◌, not, subst, refl, sym, ap, Bool, true, false, Option, none, some, [],
  arith, eq_iff, ◌==◌, string_eq, Result, Result-cases, inl, inr, ok, err, ◌>>=◌, >>=-eq-ok,
  lookup-insert, insert-insert, or_else,
}
use rome_solidity.Prelude.Text.{eq_ignore_case}
use rome_solidity.Deploy.{Viem}
use rome_solidity.Deployments.{
  Host, Files, DeploymentsFile, DeploymentsError, invalid_factory, factory_not_found,
  PoolDeployment,
}
use rome_solidity.Deployments.Addresses.{
  deployments_file_path, parsed, factory_address, router_address, erc20_spl_factory_address,
  read_deployments, write_deployments, checked_address, env_or_file,
  read_factory_address_from_deployments, resolve_factory_address, save_factory_deployment,
  with_saved_factory, read_router_address_from_deployments,
  read_erc20_spl_factory_address_from_deployments,
}
use rome_solidity.Deployments.Pools.{
  PoolArgs, pool_of, same_pool, with_saved_pool, save_pool_deployment, read_pool_deployment,
}
use rome_solidity.Deployments.PoolLaws.{find-with_pool, find-with_pool_other, with_pool-with_pool}

-- Two files that differ in no more than the factory
pub record IsSameButFactory (before after : DeploymentsFile) : Type 0 where
  pub meteora_router : after.meteora_router ≡ before.meteora_router
  pub meteora_pools : after.meteora_pools ≡ before.meteora_pools
  pub erc20_spl_factory : after.erc20_spl_factory ≡ before.erc20_spl_factory
  pub simple_activator : after.simple_activator ≡ before.simple_activator
  pub spl_erc20_usdc : after.spl_erc20_usdc ≡ before.spl_erc20_usdc
  pub spl_erc20_weth : after.spl_erc20_weth ≡ before.spl_erc20_weth
  pub spl_erc20_wsol : after.spl_erc20_wsol ≡ before.spl_erc20_wsol
  pub spl_erc20_cached : after.spl_erc20_cached ≡ before.spl_erc20_cached
  pub spl_erc20_usdc_cached : after.spl_erc20_usdc_cached ≡ before.spl_erc20_usdc_cached
  pub spl_erc20_weth_cached : after.spl_erc20_weth_cached ≡ before.spl_erc20_weth_cached
  pub spl_erc20_wsol_cached : after.spl_erc20_wsol_cached ≡ before.spl_erc20_wsol_cached
  pub wusdc : after.wusdc ≡ before.wusdc
  pub wsol : after.wsol ≡ before.wsol
  pub others : after.others ≡ before.others

-- `JSON.parse` reads the file back from the text that `JSON.stringify` made of it.
abbrev pub IsReadBack : Host → DeploymentsFile → Type 0
IsReadBack host d = host.parse (host.text d) ≡ ok d

-- The file that a change writes is read back.
abbrev pub ChangeIsReadBack : Host → Files → String → (DeploymentsFile → DeploymentsFile) → Type 0
ChangeIsReadBack host files network change =
    (d : DeploymentsFile) → read_deployments host files network ≡ ok d → IsReadBack host (change d)

module _ (host : Host) where
  pub read-write :
      (files : Files) (network : String) (d : DeploymentsFile)
      → IsReadBack host d
      → read_deployments host (write_deployments host files network d) network ≡ ok d
  unfolding read_deployments write_deployments parsed
  read-write files network d back =
      let path = deployments_file_path host network in
      ground (arith, lookup-insert path path (host.text d) files, eq_iff path path, back)

  -- Reading after a change of the file gives the changed value of what was read before it.
  read-saved :
      (files saved : Files) (network : String) (change : DeploymentsFile → DeploymentsFile)
      → ChangeIsReadBack host files network change
      → (read_deployments host files network >>= λ d.
          ok (write_deployments host files network (change d)))
        ≡ ok saved
      → (d : DeploymentsFile) × (read_deployments host files network ≡ ok d)
        × (read_deployments host saved network ≡ ok (change d))
        × (write_deployments host files network (change d) ≡ saved)
  read-saved files saved network change back h =
      let (d, before, done) = >>=-eq-ok (read_deployments host files network) _ h in
      let same : write_deployments host files network (change d) ≡ saved = cc in
      (
        d,
        before,
        subst (λ fs. read_deployments host fs network ≡ ok (change d)) same
            (read-write files network (change d) (back d before)),
        same,
      )

  -- Writing the same again changes no file.
  write-write :
      (files : Files) (network : String) (d : DeploymentsFile)
      → write_deployments host (write_deployments host files network d) network d
        ≡ write_deployments host files network d
  unfolding write_deployments
  write-write files network d =
      insert-insert (deployments_file_path host network) (host.text d) files

  module _ (viem : Viem) where
    checked_address-ok :
        (a : String) (invalid : String → DeploymentsError)
        → a ≢ ""
        → viem.is_address a ≡ true
        → checked_address viem (some a) invalid ≡ ok (some (viem.get_address a))
    unfolding checked_address
    checked_address-ok a invalid given valid = ground (arith, eq_iff a "")

    -- Where the file that a save writes is read back, a saved address that is valid and not empty is the
    -- factory that is resolved without the environment, the router, the ERC20-SPL factory and the pools are
    -- read as before, and every other entry of the file is the one that it had.
    pub save_factory_deployment-resolve :
        (files saved : Files) (network a : String)
        → ChangeIsReadBack host files network (with_saved_factory a)
        → save_factory_deployment host viem files network a ≡ ok saved
        → a ≢ ""
        → viem.is_address a ≡ true
        → (resolve_factory_address host viem none saved network ≡ ok (viem.get_address a))
          × (read_router_address_from_deployments host viem saved network
              ≡ read_router_address_from_deployments host viem files network)
          × (read_erc20_spl_factory_address_from_deployments host viem saved network
              ≡ read_erc20_spl_factory_address_from_deployments host viem files network)
          × ((key : String)
              → read_pool_deployment host saved network key
                ≡ read_pool_deployment host files network key)
          × ((before : DeploymentsFile) × (after : DeploymentsFile) × (read_deployments host files
                  network
                ≡ ok before)
              × (read_deployments host saved network ≡ ok after)
              × IsSameButFactory before after)
    unfolding save_factory_deployment resolve_factory_address env_or_file
        read_factory_address_from_deployments read_router_address_from_deployments
        read_erc20_spl_factory_address_from_deployments read_pool_deployment factory_address
        router_address erc20_spl_factory_address
    save_factory_deployment-resolve files saved network a back h given valid =
        let (d, before, after, same_files) =
          read-saved files saved network (with_saved_factory a) back h in
        (
          rw (after, checked_address-ok a (invalid_factory network) given valid) refl,
          rw (after, before) refl,
          rw (after, before) refl,
          λ key. rw (after, before) refl,
          (
            d,
            with_saved_factory a d,
            before,
            after,
            record {
              meteora_router = refl;
              meteora_pools = refl;
              erc20_spl_factory = refl;
              simple_activator = refl;
              spl_erc20_usdc = refl;
              spl_erc20_weth = refl;
              spl_erc20_wsol = refl;
              spl_erc20_cached = refl;
              spl_erc20_usdc_cached = refl;
              spl_erc20_weth_cached = refl;
              spl_erc20_wsol_cached = refl;
              wusdc = refl;
              wsol = refl;
              others = refl;
            },
          ),
        )

  -- Where the file that a save writes is read back, a pool that was saved is found under its key, whatever
  -- the case of the letters, with every field that was saved.
  pub save_pool_deployment-read :
      (files saved : Files) (args : PoolArgs) (key : String)
      → ChangeIsReadBack host files args.network_name (with_saved_pool args)
      → save_pool_deployment host files args ≡ ok saved
      → eq_ignore_case args.pubkey key ≡ true
      → read_pool_deployment host saved args.network_name key ≡ ok (some (pool_of args))
  unfolding save_pool_deployment read_pool_deployment
  save_pool_deployment-read files saved args key back h same =
      let (d, before, after, same_files) =
        read-saved files saved args.network_name (with_saved_pool args) back h in
      rw (after, find-with_pool args (or_else d.meteora_pools []) key same) refl

  -- A pool with another key and another address is read as before.
  pub save_pool_deployment-read_other :
      (files saved : Files) (args : PoolArgs) (key : String) (pool : PoolDeployment)
      → ChangeIsReadBack host files args.network_name (with_saved_pool args)
      → save_pool_deployment host files args ≡ ok saved
      → read_pool_deployment host files args.network_name key ≡ ok (some pool)
      → same_pool args pool ≡ false
      → read_pool_deployment host saved args.network_name key ≡ ok (some pool)
  unfolding save_pool_deployment read_pool_deployment
  save_pool_deployment-read_other files saved args key pool back h seen other =
      let (d, before, after, same_files) =
        read-saved files saved args.network_name (with_saved_pool args) back h in
      rw (after, find-with_pool_other args (or_else d.meteora_pools []) key pool (cc) other) refl

  -- Saving the same pool a second time leaves the same files.
  pub save_pool_deployment-idempotent :
      (files saved : Files) (args : PoolArgs)
      → ChangeIsReadBack host files args.network_name (with_saved_pool args)
      → save_pool_deployment host files args ≡ ok saved
      → save_pool_deployment host saved args ≡ ok saved
  unfolding save_pool_deployment
  save_pool_deployment-idempotent files saved args back h =
      let (d, before, after, same_files) =
        read-saved files saved args.network_name (with_saved_pool args) back h in
      let again : with_saved_pool args (with_saved_pool args d) ≡ with_saved_pool args d =
        ap (λ ps. record d { meteora_pools = some ps })
          (with_pool-with_pool args (or_else d.meteora_pools [])) in
      rw (after, again, sym same_files)
        (ap ok (write-write files args.network_name (with_saved_pool args d)))

-- A value of the environment that counts
abbrev pub is_set : Option String → Bool
is_set none = false
is_set (some e) = not (e == "")

module _ (viem : Viem) where
  -- A file's address that is given out
  abbrev pub IsGiven : Option String → String → Type 0
  IsGiven o a =
      (b : String) × (o ≡ some b) × (b ≢ "") × (viem.is_address b ≡ true) × (a ≡ viem.get_address b)

  abbrev required : DeploymentsError → Option String → Result DeploymentsError String
  required missing o = elim o [ none ↦ err missing | some a ↦ ok a ]

  checked_address-IsGiven :
      (o : Option String) (invalid : String → DeploymentsError) (missing : DeploymentsError)
      (a : String)
      → ((checked_address viem o invalid >>= required missing) ≡ ok a) ↔ IsGiven o a
  unfolding checked_address
  checked_address-IsGiven none invalid missing a = (λ h. cc, λ h. ground arith)
  checked_address-IsGiven (some b) invalid missing a = ground (arith, eq_iff b "")

  module _ (host : Host) where
    abbrev pub FromFile : Files → String → String → Type 0
    FromFile files network a =
        (d : DeploymentsFile) × (read_deployments host files network ≡ ok d)
        × IsGiven (factory_address d) a

    read_factory-FromFile :
        (files : Files) (network : String) (missing : DeploymentsError) (a : String)
        → ((read_factory_address_from_deployments host viem files network >>= required missing)
            ≡ ok a)
          ↔ FromFile files network a
    unfolding read_factory_address_from_deployments
    read_factory-FromFile files network missing a =
        elim (Result-cases (read_deployments host files network)) [
          | inr (e, thrown) ↦ rw thrown (λ h. cc, λ (d, is, h). cc)
          | inl (d, is) ↦
              let step =
                checked_address-IsGiven (factory_address d) (invalid_factory network) missing a in
              rw is (
                λ h. (d, refl, step.0 h),
                λ (f, same, h).
                    let g : f ≡ d = cc in step.1 (subst (λ g. IsGiven (factory_address g) a) g h),
              )
        ]

    -- The factory's address comes from the environment where that has one, and else from the file; it is
    -- an address, and it is checksummed.
    pub resolve_factory_address-eq-ok_iff :
        (env : Option String) (files : Files) (network a : String)
        → (resolve_factory_address host viem env files network ≡ ok a)
          ↔ (IsGiven env a ⊎ ((is_set env ≡ false) × FromFile files network a))
    unfolding resolve_factory_address env_or_file
    resolve_factory_address-eq-ok_iff none files network a =
        ground (arith, read_factory-FromFile files network (factory_not_found network) a)
    resolve_factory_address-eq-ok_iff (some e) files network a =
        ground
          (arith, eq_iff e "", read_factory-FromFile files network (factory_not_found network) a)
