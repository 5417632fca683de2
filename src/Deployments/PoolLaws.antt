-- ===== src/Deployments/PoolLaws.antt =====
-- The pools of the file after a save.
use rome_solidity.Prelude.{
  String, ◌≡◌, ◌↔◌, refl, Bool, true, false, some, List, [], ◌∷◌, ◌++◌, arith, eq_iff,
  if◌then◌else◌, any, find, find-append, find-holds, length-snoc, suc, length,
}
use rome_solidity.Prelude.Text.{eq_ignore_case, to_lower}
use rome_solidity.Deployments.{PoolDeployment}
use rome_solidity.Deployments.Pools.{PoolArgs, pool_of, same_pool, overwrite_pools, with_pool}

-- What the read of a key tests
abbrev pub has_key : String → PoolDeployment → Bool
has_key key pool = eq_ignore_case pool.pubkey key

eq_ignore_case_iff : (a b : String) → (eq_ignore_case a b ≡ true) ↔ (to_lower a ≡ to_lower b)
unfolding eq_ignore_case
eq_ignore_case_iff a b = eq_iff (to_lower a) (to_lower b)

module _ (args : PoolArgs) where
  same_pool-pool_of : same_pool args (pool_of args) ≡ true
  unfolding same_pool pool_of
  same_pool-pool_of = ground (arith, eq_ignore_case_iff args.pubkey args.pubkey)

  overwrite-overwrite :
      (pools : List PoolDeployment)
      → overwrite_pools args (overwrite_pools args pools) ≡ overwrite_pools args pools
  unfolding overwrite_pools
  overwrite-overwrite [] = refl
  overwrite-overwrite (p ∷ ps) = ground (arith, same_pool-pool_of, overwrite-overwrite ps)

  any-overwrite :
      (pools : List PoolDeployment)
      → any (same_pool args) (overwrite_pools args pools) ≡ any (same_pool args) pools
  unfolding overwrite_pools
  any-overwrite [] = refl
  any-overwrite (p ∷ ps) = ground (arith, same_pool-pool_of, any-overwrite ps)

  overwrite-other :
      (pools : List PoolDeployment)
      → any (same_pool args) pools ≡ false
      → overwrite_pools args (pools ++ pool_of args ∷ []) ≡ pools ++ pool_of args ∷ []
  unfolding overwrite_pools
  overwrite-other [] h = ground (arith, same_pool-pool_of)
  overwrite-other (p ∷ ps) h = ground (arith, overwrite-other ps)

  any-snoc :
      (pools : List PoolDeployment) → any (same_pool args) (pools ++ pool_of args ∷ []) ≡ true
  any-snoc [] = ground (arith, same_pool-pool_of)
  any-snoc (p ∷ ps) = ground (arith, any-snoc ps)

  -- Saving the same pool again changes nothing.
  pub with_pool-with_pool :
      (pools : List PoolDeployment) → with_pool args (with_pool args pools) ≡ with_pool args pools
  unfolding with_pool
  with_pool-with_pool pools =
      ground (
        arith,
        overwrite-overwrite pools,
        any-overwrite pools,
        overwrite-other pools,
        any-snoc pools,
      )

  find-overwrite :
      (pools : List PoolDeployment) (key : String)
      → eq_ignore_case args.pubkey key ≡ true
      → any (same_pool args) pools ≡ true
      → find (has_key key) (overwrite_pools args pools) ≡ some (pool_of args)
  unfolding overwrite_pools same_pool pool_of
  find-overwrite [] key same h = cc
  find-overwrite (p ∷ ps) key same h = ground (
    arith,
    find-overwrite ps key same,
    eq_ignore_case_iff args.pubkey key,
    eq_ignore_case_iff p.pubkey key,
    eq_ignore_case_iff p.pubkey args.pubkey,
  )

  find-snoc :
      (pools : List PoolDeployment) (key : String)
      → eq_ignore_case args.pubkey key ≡ true
      → any (same_pool args) pools ≡ false
      → find (has_key key) (pools ++ pool_of args ∷ []) ≡ some (pool_of args)
  unfolding same_pool pool_of
  find-snoc [] key same h = ground arith
  find-snoc (p ∷ ps) key same h = ground (
    arith,
    find-snoc ps key same,
    eq_ignore_case_iff args.pubkey key,
    eq_ignore_case_iff p.pubkey key,
    eq_ignore_case_iff p.pubkey args.pubkey,
  )

  pub find-with_pool :
      (pools : List PoolDeployment) (key : String)
      → eq_ignore_case args.pubkey key ≡ true
      → find (has_key key) (with_pool args pools) ≡ some (pool_of args)
  unfolding with_pool
  find-with_pool pools key same =
      ground (arith, find-snoc pools key same, find-overwrite pools key same)

  find-overwrite_other :
      (pools : List PoolDeployment) (key : String) (p : PoolDeployment)
      → find (has_key key) pools ≡ some p
      → has_key key p ≡ true
      → same_pool args p ≡ false
      → find (has_key key) (overwrite_pools args pools) ≡ some p
  unfolding overwrite_pools same_pool pool_of
  find-overwrite_other [] key p h at other = cc
  find-overwrite_other (q ∷ ps) key p h at other = ground (
    arith,
    find-overwrite_other ps key p,
    eq_ignore_case_iff args.pubkey key,
    eq_ignore_case_iff p.pubkey key,
    eq_ignore_case_iff q.pubkey key,
    eq_ignore_case_iff p.pubkey args.pubkey,
    eq_ignore_case_iff q.pubkey args.pubkey,
  )

  -- A pool that is not the saved one is still found.
  pub find-with_pool_other :
      (pools : List PoolDeployment) (key : String) (p : PoolDeployment)
      → find (has_key key) pools ≡ some p
      → same_pool args p ≡ false
      → find (has_key key) (with_pool args pools) ≡ some p
  unfolding with_pool
  find-with_pool_other pools key p h other = ground (
    arith,
    find-append (has_key key) pools (pool_of args ∷ []) p h,
    find-overwrite_other pools key p h (find-holds (has_key key) pools p h) other,
  )

  length-overwrite :
      (pools : List PoolDeployment) → length (overwrite_pools args pools) ≡ length pools
  unfolding overwrite_pools
  length-overwrite [] = refl
  length-overwrite (p ∷ ps) = ground (arith, length-overwrite ps)

  -- A save adds a pool only where none is the same.
  pub length-with_pool :
      (pools : List PoolDeployment)
      → length (with_pool args pools)
        ≡ (if any (same_pool args) pools then length pools else suc (length pools))
  unfolding with_pool
  length-with_pool pools = ground (arith, length-overwrite pools, length-snoc pools (pool_of args))
