-- ===== src/Guard/Rpc.antt =====
-- scripts/bridge/lib/testnet-guard.ts: the gates that ask an RPC and throw unless the decision
-- allows the send. The answer of the client or of `fetch` is an argument.
use rome_solidity.Prelude.{
  ℕ, String, Result, ok, err, Option, none, some, List, [], ◌∷◌, ◌==◌, string_eq, if◌then◌else◌,
  lookup, ◌&&◌, Bool, false, ◌+◌, ◌*◌, ◌-◌, not,
}
use Prim.Native.Char.{code}
use Prim.Native.String.{[], ◌∷◌}
use rome_solidity.Prelude.Number.{JsNumber, whole}
use rome_solidity.Prelude.Text.{every_char, is_hex_digit, is_nil, in_range}
use rome_solidity.Guard.{
  ChainVerdict, allow, refuse, Reason, no_genesis, solana, not_solana_testnet, judge_chain,
}
use rome_solidity.Guard.Rubicon.{RubiconDeployCaller, judge_rubicon_v13_deploy}

-- What the gates throw: the script's name with the cause.
pub data GuardError : Type 0 where
  unreadable : String → String → GuardError
  refused : String → Reason → GuardError

-- `if (!v.allowed) throw …; return x`
abbrev pub pass_if {ℓ} : {A : Type ℓ} → ChainVerdict → String → A → Result GuardError A
pass_if v what x = if v.allowed then ok x else err (refused what v.reason)

unfoldable pub assert_testnet_chain_id :
    Option JsNumber → String → Option String → Result GuardError (Unit {0})
assert_testnet_chain_id chain_id what extra_env = pass_if (judge_chain chain_id extra_env) what tt

-- `client` is the answer of `getChainId()`, or the error that it threw.
unfoldable pub assert_testnet_send :
    Result String JsNumber → String → Option String → Result GuardError JsNumber
assert_testnet_send (err e) what extra_env = err (unreadable what e)
assert_testnet_send (ok chain_id) what extra_env =
    pass_if (judge_chain (some chain_id) extra_env) what chain_id

-- /^0x[0-9a-fA-F]+$/
unfoldable pub is_hex_quantity : String → Bool
unfolding every_char
is_hex_quantity (c ∷ d ∷ s) =
    in_range b'0' b'0' (code c)
    && in_range b'x' b'x' (code d)
    && not (is_nil s)
    && every_char is_hex_digit s
is_hex_quantity _ = false

hex_value : ℕ → ℕ
hex_value c =
    if in_range b'0' b'9' c then c - b'0' else if in_range b'a' b'f' c then c - 87 else c - 55

hex_from : ℕ → String → ℕ
hex_from n [] = n
hex_from n (c ∷ s) = hex_from (16 * n + hex_value (code c)) s

-- `BigInt(t)` at a text that `is_hex_quantity` accepts
unfoldable pub hex_quantity : String → ℕ
unfolding hex_from hex_value
hex_quantity (c ∷ d ∷ s) = hex_from 0 s
hex_quantity _ = 0

-- The chain id in the body of an `eth_chainId` answer; the argument is `body.result`, if a string.
unfoldable pub chain_id_of : Option String → Option JsNumber
chain_id_of none = none
chain_id_of (some t) = if is_hex_quantity t then some (whole (hex_quantity t)) else none

unfoldable pub assert_testnet_rpc :
    Result String (Option String) → String → Option String → Result GuardError (Option JsNumber)
assert_testnet_rpc (err e) what extra_env = err (unreadable what e)
assert_testnet_rpc (ok answer) what extra_env =
    pass_if (judge_chain (chain_id_of answer) extra_env) what (chain_id_of answer)

-- The caller without its entry point, which is read from the process.
unfoldable pub assert_rubicon_v13_deploy_send :
    Result String JsNumber
    → String
    → RubiconDeployCaller
    → Option String
    → Option String
    → Result GuardError JsNumber
assert_rubicon_v13_deploy_send (err e) what caller entry extra_env = err (unreadable what e)
assert_rubicon_v13_deploy_send (ok chain_id) what caller entry extra_env =
    pass_if (judge_rubicon_v13_deploy (some chain_id) (record caller { entry = entry }) extra_env)
      what chain_id

-- SOLANA_TESTNET_GENESIS
abbrev pub solana_testnet_genesis : List (String × String)
solana_testnet_genesis =
    ("EtWTRABZaYq6iMfeYKouRu166VU2xqa1wcaWoxPkrZBG", "devnet")
    ∷ ("4uhcVJyU9pJkvQyS88uRDiswHXSCkY3zQawwpjk2NsNY", "testnet")
    ∷ []

unfoldable pub judge_solana_genesis : Option String → ChainVerdict
judge_solana_genesis none = refuse no_genesis
judge_solana_genesis (some hash) =
    if hash == "" then refuse no_genesis else elim (lookup hash solana_testnet_genesis) [
      | some name ↦ allow (solana name hash)
      | none ↦ refuse (not_solana_testnet hash)
    ]

unfoldable pub assert_solana_testnet_rpc :
    Result String (Option String) → String → Result GuardError (Option String)
assert_solana_testnet_rpc (err e) what = err (unreadable what e)
assert_solana_testnet_rpc (ok hash) what = pass_if (judge_solana_genesis hash) what hash
