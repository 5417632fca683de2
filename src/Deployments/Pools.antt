-- ===== src/Deployments/Pools.antt =====
-- scripts/lib/deployments.ts: `savePoolDeployment` and `readPoolDeployment`.
use rome_solidity.Prelude.{
  ℕ, String, Bool, ◌||◌, Option, some, List, [], ◌∷◌, ◌++◌, if◌then◌else◌, Result, ok, ◌>>=◌, any,
  find, or_else,
}
use rome_solidity.Prelude.Text.{eq_ignore_case}
use rome_solidity.Prelude.Decimal.{to_text}
use rome_solidity.Deployments.{Host, Files, DeploymentsFile, DeploymentsError, PoolDeployment}
use rome_solidity.Deployments.Addresses.{read_deployments, write_deployments}

-- The arguments of `savePoolDeployment`
pub record PoolArgs : Type 0 where
  pub network_name : String
  pub pubkey : String
  pub address : String
  pub tx_hash : String
  pub block_number : ℕ
  pub token_a_mint : String
  pub token_b_mint : String
  pub token_a_address : String
  pub token_b_address : String

unfoldable pub pool_of : PoolArgs → PoolDeployment
pool_of args = record {
  pubkey = args.pubkey;
  address = args.address;
  tx_hash = args.tx_hash;
  block_number = to_text args.block_number;
  token_a_mint = args.token_a_mint;
  token_b_mint = args.token_b_mint;
  token_a_address = args.token_a_address;
  token_b_address = args.token_b_address;
}

-- The same pool: its key or its address, ignoring case
unfoldable pub same_pool : PoolArgs → PoolDeployment → Bool
same_pool args pool =
    eq_ignore_case pool.pubkey args.pubkey || eq_ignore_case pool.address args.address

-- The loop that overwrites every field of the pools that are the same
unfoldable pub overwrite_pools : PoolArgs → List PoolDeployment → List PoolDeployment
unfolding same_pool pool_of
overwrite_pools args [] = []
overwrite_pools args (pool ∷ pools) =
    let rest = overwrite_pools args pools in
    if same_pool args pool then pool_of args ∷ rest else pool ∷ rest

unfoldable pub with_pool : PoolArgs → List PoolDeployment → List PoolDeployment
unfolding overwrite_pools
with_pool args pools =
    if any (same_pool args) pools then overwrite_pools args pools else pools ++ pool_of args ∷ []

-- The file with the pool saved in it
abbrev pub with_saved_pool : PoolArgs → DeploymentsFile → DeploymentsFile
with_saved_pool args d = record d {
  meteora_pools = some (with_pool args (or_else d.meteora_pools []));
}

module _ (host : Host) where
  unfoldable pub save_pool_deployment : Files → PoolArgs → Result DeploymentsError Files
  unfolding with_pool
  save_pool_deployment files args = do
    d ← read_deployments host files args.network_name
    ok (write_deployments host files args.network_name (with_saved_pool args d))

  unfoldable pub read_pool_deployment :
      Files → String → String → Result DeploymentsError (Option PoolDeployment)
  read_pool_deployment files network key = do
    d ← read_deployments host files network
    let is_it = λ (pool : PoolDeployment). eq_ignore_case pool.pubkey key
    ok (find is_it (or_else d.meteora_pools []))
