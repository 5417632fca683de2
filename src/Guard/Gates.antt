-- ===== src/Guard/Gates.antt =====
-- The gates that throw: they return exactly on what the guard allows.
use rome_solidity.Prelude.{
  ℕ, String, ◌≡◌, ◌↔◌, ◌⊎◌, true, Option, none, some, arith, Result, ok, err, eq_iff, refl, sym,
  ◌∙◌, ap,
}
use rome_solidity.Prelude.Number.{JsNumber, whole}
use rome_solidity.Guard.{ChainVerdict, judge_chain}
use rome_solidity.Guard.Rubicon.{RubiconDeployCaller, judge_rubicon_v13_deploy}
use rome_solidity.Guard.Rpc.{
  pass_if, assert_testnet_send, assert_testnet_rpc, assert_rubicon_v13_deploy_send, chain_id_of,
  judge_solana_genesis, assert_solana_testnet_rpc,
}
use rome_solidity.Guard.Allowed.{
  IsSendable, IsDeployCaller, judge_chain-allowed_iff, judge_rubicon_v13_deploy-allowed_iff,
}

-- A value comes out of a gate only from an allowed verdict, and is the one that went in.
pass_if-eq-ok {ℓ} :
    {A : Type ℓ} (v : ChainVerdict) (what : String) (x y : A)
    → pass_if v what x ≡ ok y
    → (v.allowed ≡ true) × (x ≡ y)
pass_if-eq-ok v what x y h = ground arith

-- `assertTestnetSend` returns an id only when the client reported it and it is a whole number that
-- the allowlist lets through; whatever the client throws or reports otherwise ends in an error.
pub assert_testnet_send-eq-ok :
    (client : Result String JsNumber) (what : String) (extra_env : Option String) (id : JsNumber)
    → assert_testnet_send client what extra_env ≡ ok id
    → (client ≡ ok id) × ((n : ℕ) × (id ≡ whole n) × IsSendable extra_env n)
unfolding assert_testnet_send
assert_testnet_send-eq-ok (err e) what extra_env id h = cc
assert_testnet_send-eq-ok (ok x) what extra_env id h =
    let (allowed, same) = pass_if-eq-ok (judge_chain (some x) extra_env) what x id h in
    let (n, e, s) = (judge_chain-allowed_iff (some x) extra_env).0 allowed in (cc, (n, cc, s))

-- `assertTestnetRpc` returns only the chain id that a hexadecimal `eth_chainId` answer spells, and
-- only one that the allowlist lets through.
pub assert_testnet_rpc-eq-ok :
    (answer : Result String (Option String)) (what : String) (extra_env : Option String)
    (id : Option JsNumber)
    → assert_testnet_rpc answer what extra_env ≡ ok id
    → (t : Option String) × (answer ≡ ok t)
      × (n : ℕ) × (chain_id_of t ≡ some (whole n))
      × (id ≡ some (whole n))
      × IsSendable extra_env n
unfolding assert_testnet_rpc
assert_testnet_rpc-eq-ok (err e) what extra_env id h = cc
assert_testnet_rpc-eq-ok (ok t) what extra_env id h =
    let (allowed, same) =
      pass_if-eq-ok (judge_chain (chain_id_of t) extra_env) what (chain_id_of t) id h in
    let (n, e, s) = (judge_chain-allowed_iff (chain_id_of t) extra_env).0 allowed in
    (t, refl, n, e, sym same ∙ e, s)

on_mainnet :
    (caller : RubiconDeployCaller) (extra_env : Option String)
    → (judge_rubicon_v13_deploy (some (whole 7531)) caller extra_env).allowed ≡ true
    → IsDeployCaller caller
on_mainnet caller extra_env h =
    ground (arith, judge_rubicon_v13_deploy-allowed_iff 7531 caller extra_env)

-- The deploy's gate returns 7531 only to the deploy script: named as such by its caller, started as
-- such by the process, with the mainnet flag, and inspecting or sending under a matching digest.
pub assert_rubicon_v13_deploy_send-mainnet :
    (client : Result String JsNumber) (what : String) (caller : RubiconDeployCaller)
    (entry extra_env : Option String)
    → assert_rubicon_v13_deploy_send client what caller entry extra_env ≡ ok (whole 7531)
    → (client ≡ ok (whole 7531)) × IsDeployCaller (record caller { entry = entry })
unfolding assert_rubicon_v13_deploy_send
assert_rubicon_v13_deploy_send-mainnet (err e) what caller entry extra_env h = cc
assert_rubicon_v13_deploy_send-mainnet (ok x) what caller entry extra_env h =
    let (allowed, same) =
      pass_if-eq-ok (judge_rubicon_v13_deploy (some x) (record caller { entry = entry }) extra_env)
        what x (whole 7531) h in
    (
      cc,
      on_mainnet (record caller { entry = entry }) extra_env
          (rw
            (ap
              (λ (y : JsNumber).
                judge_rubicon_v13_deploy (some y) (record caller { entry = entry }) extra_env)
              same)
            at allowed),
    )

abbrev pub devnet_hash : String
devnet_hash = "EtWTRABZaYq6iMfeYKouRu166VU2xqa1wcaWoxPkrZBG"

abbrev pub testnet_hash : String
testnet_hash = "4uhcVJyU9pJkvQyS88uRDiswHXSCkY3zQawwpjk2NsNY"

-- The Solana gate returns exactly the hashes of the devnet and of the testnet.
pub assert_solana_testnet_rpc-eq-ok_iff :
    (answer : Result String (Option String)) (what hash : String)
    → (assert_solana_testnet_rpc answer what ≡ ok (some hash))
      ↔ ((answer ≡ ok (some hash)) × ((hash ≡ devnet_hash) ⊎ (hash ≡ testnet_hash)))
unfolding assert_solana_testnet_rpc judge_solana_genesis
assert_solana_testnet_rpc-eq-ok_iff (err e) what hash = ground arith
assert_solana_testnet_rpc-eq-ok_iff (ok none) what hash = ground arith
assert_solana_testnet_rpc-eq-ok_iff (ok (some t)) what hash = ground (
  arith,
  eq_iff t "",
  eq_iff devnet_hash t,
  eq_iff testnet_hash t,
  eq_iff devnet_hash "",
  eq_iff testnet_hash "",
)
