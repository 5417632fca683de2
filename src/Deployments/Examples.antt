-- ===== src/Deployments/Examples.antt =====
-- Tests of the deployments file, and the theorems at concrete ones.
use rome_solidity.Prelude.{
  String, ◌≡◌, ◌≢◌, subst, refl, true, none, some, [], ◌∷◌, Result, ok, err, or_else, string_eq,
}
use rome_solidity.Prelude.Text.{eq_ignore_case, to_lower, starts_with}
use rome_solidity.Deploy.{Viem}
use rome_solidity.Deployments.{Host, DeploymentsFile, DeploymentsError, factory_not_found}
use rome_solidity.Deployments.Addresses.{
  no_deployments, deployments_file_path, read_deployments, write_deployments, factory_address,
  with_saved_factory, checked_address, env_or_file, resolve_factory_address,
  read_factory_address_from_deployments, save_factory_deployment,
  read_router_address_from_deployments, read_erc20_spl_factory_address_from_deployments,
}
use rome_solidity.Deployments.Pools.{
  PoolArgs, pool_of, with_pool, with_saved_pool, save_pool_deployment, read_pool_deployment,
}
use rome_solidity.Deployments.Saved.{
  IsSameButFactory, IsReadBack, ChangeIsReadBack, save_factory_deployment-resolve,
  save_pool_deployment-read,
}

abbrev viem : Viem
viem = record {
  is_address = λ s. starts_with s "0x";
  get_address = λ s. s;
  keccak256 = λ s. s;
  concat_deploy = λ creation chain from nonce. creation;
  contract_address = λ from nonce. from;
  encode_function_data = λ name args. name;
}

-- A file with no more than a factory is written as the factory's address.
abbrev factory_host : Host
factory_host = record {
  cwd = "/";
  resolve = λ parts. elim parts [ [] ↦ "" | p ∷ ps ↦ p ];
  parse = λ t. ok (with_saved_factory t no_deployments);
  text = λ d. or_else (factory_address d) "";
}

factory_read_back : ChangeIsReadBack factory_host [] "rubicon" (with_saved_factory "0xF")
unfolding read_deployments factory_address
factory_read_back d h =
    let read : ◌≡◌ {A = Result DeploymentsError DeploymentsFile} (ok no_deployments) (ok d) = h in
    let same : no_deployments ≡ d = cc in
    subst (λ x. IsReadBack factory_host (with_saved_factory "0xF" x)) same refl

saves_factory :
    save_factory_deployment factory_host viem [] "rubicon" "0xF" ≡ ok (("/", "0xF") ∷ [])
unfolding save_factory_deployment read_deployments write_deployments deployments_file_path
    factory_address
saves_factory = refl

nothing_saved :
    resolve_factory_address factory_host viem (some "") [] "rubicon"
    ≡ err (factory_not_found "rubicon")
unfolding resolve_factory_address env_or_file read_factory_address_from_deployments read_deployments
    factory_address checked_address
nothing_saved = refl

not_nil : ◌≢◌ {A = String} "0xF" ""
not_nil h = cc

valid : starts_with "0xF" "0x" ≡ true
unfolding starts_with
valid = refl

save_factory_deployment-resolve_example :
    (resolve_factory_address factory_host viem none (("/", "0xF") ∷ []) "rubicon" ≡ ok "0xF")
    × (read_router_address_from_deployments factory_host viem (("/", "0xF") ∷ []) "rubicon"
        ≡ read_router_address_from_deployments factory_host viem [] "rubicon")
    × (read_erc20_spl_factory_address_from_deployments factory_host viem
          (("/", "0xF") ∷ [])
          "rubicon"
        ≡ read_erc20_spl_factory_address_from_deployments factory_host viem [] "rubicon")
    × ((key : String)
        → read_pool_deployment factory_host (("/", "0xF") ∷ []) "rubicon" key
          ≡ read_pool_deployment factory_host [] "rubicon" key)
    × ((before : DeploymentsFile) × (after : DeploymentsFile) × (read_deployments factory_host []
            "rubicon"
          ≡ ok before)
        × (read_deployments factory_host (("/", "0xF") ∷ []) "rubicon" ≡ ok after)
        × IsSameButFactory before after)
save_factory_deployment-resolve_example =
    save_factory_deployment-resolve factory_host viem [] (("/", "0xF") ∷ []) "rubicon" "0xF"
      factory_read_back saves_factory not_nil valid

abbrev pool : PoolArgs
pool = record {
  network_name = "rubicon";
  pubkey = "0xAbC";
  address = "0x1";
  tx_hash = "0x2";
  block_number = 120;
  token_a_mint = "0x3";
  token_b_mint = "0x4";
  token_a_address = "0x5";
  token_b_address = "0x6";
}

-- A file with no more than that pool is written as the pool's key.
abbrev pool_host : Host
pool_host = record {
  cwd = "/";
  resolve = λ parts. elim parts [ [] ↦ "" | p ∷ ps ↦ p ];
  parse = λ t. ok (with_saved_pool (record pool { pubkey = t }) no_deployments);
  text = λ d. elim (or_else d.meteora_pools []) [ [] ↦ "" | p ∷ ps ↦ p.pubkey ];
}

pool_read_back : ChangeIsReadBack pool_host [] "rubicon" (with_saved_pool pool)
unfolding read_deployments with_pool pool_of
pool_read_back d h =
    let read : ◌≡◌ {A = Result DeploymentsError DeploymentsFile} (ok no_deployments) (ok d) = h in
    let same : no_deployments ≡ d = cc in
    subst (λ x. IsReadBack pool_host (with_saved_pool pool x)) same refl

saves_pool : save_pool_deployment pool_host [] pool ≡ ok (("/", "0xAbC") ∷ [])
unfolding save_pool_deployment read_deployments write_deployments deployments_file_path with_pool
    pool_of
saves_pool = refl

same_key : eq_ignore_case "0xAbC" "0xABC" ≡ true
unfolding eq_ignore_case to_lower
same_key = refl

save_pool_deployment-read_example :
    read_pool_deployment pool_host (("/", "0xAbC") ∷ []) "rubicon" "0xABC"
    ≡ ok (some (pool_of pool))
save_pool_deployment-read_example =
    save_pool_deployment-read pool_host [] (("/", "0xAbC") ∷ []) pool "0xABC" pool_read_back
      saves_pool same_key
