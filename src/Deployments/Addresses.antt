-- ===== src/Deployments/Addresses.antt =====
-- scripts/lib/deployments.ts: reading and writing of the file, and the addresses in it. A write gives the
-- files after it.
use Prim.Native.String.{◌++◌ as join}
use rome_solidity.Prelude.{
  String, not, Option, none, some, [], ◌∷◌, ◌==◌, string_eq, if◌then◌else◌, Result, ok, err, ◌>>=◌,
  insert, lookup,
}
use rome_solidity.Prelude.Json.{end}
use rome_solidity.Deploy.{Viem}
use rome_solidity.Deployments.{
  Host, Files, DeploymentsFile, DeploymentsError, not_json, invalid_factory, invalid_router,
  invalid_erc20_spl_factory, invalid_factory_env, invalid_erc20_spl_factory_env, factory_not_found,
  erc20_spl_factory_not_found,
}

-- `{}`
abbrev pub no_deployments : DeploymentsFile
no_deployments = record {
  meteora_factory = none;
  meteora_router = none;
  meteora_pools = none;
  erc20_spl_factory = none;
  simple_activator = none;
  spl_erc20_usdc = none;
  spl_erc20_weth = none;
  spl_erc20_wsol = none;
  spl_erc20_cached = none;
  spl_erc20_usdc_cached = none;
  spl_erc20_weth_cached = none;
  spl_erc20_wsol_cached = none;
  wusdc = none;
  wsol = none;
  others = end;
}

module _ (host : Host) where
  unfoldable pub deployments_file_path : String → String
  deployments_file_path network =
      host.resolve (host.cwd ∷ "deployments" ∷ join network ".json" ∷ [])

  unfoldable pub parsed : Result String DeploymentsFile → Result DeploymentsError DeploymentsFile
  parsed (ok d) = ok d
  parsed (err e) = err (not_json e)

  unfoldable pub read_deployments : Files → String → Result DeploymentsError DeploymentsFile
  unfolding deployments_file_path parsed
  read_deployments files network = elim (lookup (deployments_file_path network) files) [
    | none ↦ ok no_deployments
    | some raw ↦ parsed (host.parse raw)
  ]

  unfoldable pub write_deployments : Files → String → DeploymentsFile → Files
  unfolding deployments_file_path
  write_deployments files network data_ =
      insert (deployments_file_path network) (host.text data_) files

module _ (viem : Viem) where
  -- An address of the file: absent or empty, refused, or checksummed
  unfoldable pub checked_address :
      Option String → (String → DeploymentsError) → Result DeploymentsError (Option String)
  checked_address none invalid = ok none
  checked_address (some a) invalid =
      if a == ""
      then ok none
      else if not (viem.is_address a)
      then err (invalid a)
      else ok (some (viem.get_address a))

  -- `process.env.X`, which wins over the file when it is not empty
  unfoldable pub env_or_file :
      Option String
      → (String → DeploymentsError)
      → Result DeploymentsError (Option String)
      → DeploymentsError
      → Result DeploymentsError String
  env_or_file env invalid from_file missing =
      let file = from_file >>= λ o. elim o [ none ↦ err missing | some a ↦ ok a ] in
      elim env [
        | none ↦ file
        | some e ↦
            if e == ""
            then file
            else if not (viem.is_address e)
            then err (invalid e)
            else ok (viem.get_address e)
      ]

unfoldable pub factory_address : DeploymentsFile → Option String
factory_address d = elim d.meteora_factory [ none ↦ none | some f ↦ f.address ]

unfoldable pub router_address : DeploymentsFile → Option String
router_address d = elim d.meteora_router [ none ↦ none | some r ↦ r.address ]

unfoldable pub erc20_spl_factory_address : DeploymentsFile → Option String
erc20_spl_factory_address d = elim d.erc20_spl_factory [ none ↦ none | some f ↦ f.address ]

abbrev pub with_saved_factory : String → DeploymentsFile → DeploymentsFile
with_saved_factory a d = record d { meteora_factory = some (record { address = some a }) }

module _ (host : Host) (viem : Viem) where
  unfoldable pub read_factory_address_from_deployments :
      Files → String → Result DeploymentsError (Option String)
  unfolding factory_address checked_address
  read_factory_address_from_deployments files network = do
    d ← read_deployments host files network
    checked_address viem (factory_address d) (invalid_factory network)

  unfoldable pub resolve_factory_address :
      Option String → Files → String → Result DeploymentsError String
  unfolding env_or_file
  resolve_factory_address env files network =
      env_or_file viem env invalid_factory_env (read_factory_address_from_deployments files network)
        (factory_not_found network)

  unfoldable pub save_factory_deployment : Files → String → String → Result DeploymentsError Files
  save_factory_deployment files network address = do
    d ← read_deployments host files network
    ok (write_deployments host files network (with_saved_factory address d))

  unfoldable pub read_router_address_from_deployments :
      Files → String → Result DeploymentsError (Option String)
  unfolding router_address checked_address
  read_router_address_from_deployments files network = do
    d ← read_deployments host files network
    checked_address viem (router_address d) (invalid_router network)

  unfoldable pub save_router_deployment : Files → String → String → Result DeploymentsError Files
  save_router_deployment files network address = do
    d ← read_deployments host files network
    let saved = record d { meteora_router = some (record { address = some address }) }
    ok (write_deployments host files network saved)

  unfoldable pub save_erc20_spl_factory_deployment :
      Files → String → String → String → Result DeploymentsError Files
  save_erc20_spl_factory_deployment files network address cpi = do
    d ← read_deployments host files network
    let saved = record d {
      erc20_spl_factory = some (record { address = some address; cpi_contract_address = some cpi });
    }
    ok (write_deployments host files network saved)

  unfoldable pub read_erc20_spl_factory_address_from_deployments :
      Files → String → Result DeploymentsError (Option String)
  unfolding erc20_spl_factory_address checked_address
  read_erc20_spl_factory_address_from_deployments files network = do
    d ← read_deployments host files network
    checked_address viem (erc20_spl_factory_address d) (invalid_erc20_spl_factory network)

  unfoldable pub resolve_erc20_spl_factory_address :
      Option String → Files → String → Result DeploymentsError String
  unfolding env_or_file
  resolve_erc20_spl_factory_address env files network =
      env_or_file viem env invalid_erc20_spl_factory_env
        (read_erc20_spl_factory_address_from_deployments files network)
        (erc20_spl_factory_not_found network)
