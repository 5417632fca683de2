-- ===== src/Deploy/ReadBack.antt =====
-- scripts/bridge/lib/rubicon-v13.ts: the owner calls, and the read-back of a deployed contract.
use rome_solidity.Prelude.{
  ℕ, String, Bool, true, false, not, ◌||◌, Option, none, some, List, [], ◌∷◌, ◌++◌, ◌==◌, nat_eq,
  string_eq, if◌then◌else◌, Result, ok, err, ◌>>=◌, ◌>>◌, throw_if,
}
use rome_solidity.Prelude.Text.{eq_ignore_case}
use rome_solidity.Ctor.{zero_address}
use rome_solidity.Ctor.Pdas.{Solana, CtorError, base58_to_bytes32}
use rome_solidity.Deploy.{Viem, uint, bytes32, expected_version}

pub data OwnerCallKind : Type 0 where
  ensure_bridge_ata : String → String → OwnerCallKind
  enable_ethereum : OwnerCallKind

pub record OwnerCall : Type 0 where
  pub description : OwnerCallKind
  pub to : String
  pub calldata : String
  pub value : String

unfoldable pub build_owner_calls :
    Viem → Solana → String → String → Result CtorError (List OwnerCall)
build_owner_calls viem solana bridge usdc_mint = do
  mint ← base58_to_bytes32 solana usdc_mint
  ok (
      record {
        description = ensure_bridge_ata mint usdc_mint;
        to = bridge;
        calldata = viem.encode_function_data "ensureBridgeAta" (bytes32 mint ∷ []);
        value = "0";
      }
      ∷ record {
        description = enable_ethereum;
        to = bridge;
        calldata = viem.encode_function_data "enableCctpDomain" (uint 0 ∷ uint 1 ∷ []);
        value = "0";
      }
      ∷ [])

-- A view function of the contract, with its argument
pub data Query : Type 0 where
  version owner pending_owner guardian cctp_domains usdc_wrapper usdc_mint : Query
  rail_paused : ℕ → Query
  wormhole_target_chain_allowed : ℕ → Query
  wormhole_mint_allowed : String → Query

-- The answer of a view function
pub data Answer : Type 0 where
  text : String → Answer
  bool : Bool → Answer
  numbers : List ℕ → Answer

pub record ChainReader : Type 0 where
  pub read : Query → Result String Answer
  pub get_code : Result String (Option String)

pub record Expected : Type 0 where
  pub owner : String
  pub guardian : String
  pub deployer : String
  pub usdc_wrapper : String
  pub usdc_mint_base58 : String

pub data Mismatch : Type 0 where
  differs : Query → Answer → Mismatch
  holds_role : Query → Mismatch

-- What a read-back throws: the mismatches, no code, or a failed call
pub data ReadBackError : Type 0 where
  mismatches : List Mismatch → ReadBackError
  no_code : ReadBackError
  call_failed : String → ReadBackError
  -- a method that the answer has not, a TypeError
  not_typed : ReadBackError
  bad_mint : CtorError → ReadBackError

-- A test of an answer, which may throw
abbrev pub Check : Type 0
Check = Query × (Answer → Result ReadBackError Bool)

-- `got === wanted` and `addrEq`
abbrev pub is_text : String → Answer → Result ReadBackError Bool
is_text t (text s) = ok (s == t)
is_text t _ = ok false

abbrev pub is_address_text : String → Answer → Result ReadBackError Bool
is_address_text t (text s) = ok (eq_ignore_case s t)
is_address_text t _ = ok false

abbrev pub is_false : Answer → Result ReadBackError Bool
is_false (bool b) = ok (not b)
is_false _ = ok false

-- The answer's `map` must exist.
abbrev pub is_empty_list : Answer → Result ReadBackError Bool
is_empty_list (numbers []) = ok true
is_empty_list (numbers (n ∷ ns)) = ok false
is_empty_list _ = err not_typed

-- `eq(who, …)`: the answer's `toLowerCase` must exist.
abbrev pub is_key : String → Answer → Result ReadBackError Bool
is_key t (text s) = ok (eq_ignore_case s t)
is_key t _ = err not_typed

unfoldable pub lift_call {ℓ} : {A : Type ℓ} → Result String A → Result ReadBackError A
lift_call (ok a) = ok a
lift_call (err e) = err (call_failed e)

unfoldable pub lift_mint {ℓ} : {A : Type ℓ} → Result CtorError A → Result ReadBackError A
lift_mint (ok a) = ok a
lift_mint (err e) = err (bad_mint e)

-- The reads that `verifyDeployment` compares, each with its test, in order: those before the mint
-- is decoded, and those after
unfoldable pub first_checks : Expected → List Check
first_checks want =
    (version, is_text expected_version)
    ∷ (owner, is_address_text want.owner)
    ∷ (pending_owner, is_address_text zero_address)
    ∷ (guardian, is_address_text want.guardian)
    ∷ (cctp_domains, is_empty_list)
    ∷ (rail_paused 0, is_false)
    ∷ (rail_paused 1, is_false)
    ∷ (rail_paused 2, is_false)
    ∷ (usdc_wrapper, is_address_text want.usdc_wrapper)
    ∷ []

unfoldable pub mint_checks : String → List Check
mint_checks mint =
    (usdc_mint, is_address_text mint)
    ∷ (wormhole_target_chain_allowed 2, is_false)
    ∷ (wormhole_target_chain_allowed 10002, is_false)
    ∷ (wormhole_mint_allowed mint, is_false)
    ∷ []

-- The mismatches of a list of checks; a failed call stops them.
unfoldable pub run_checks : ChainReader → List Check → Result ReadBackError (List Mismatch)
run_checks r [] = ok []
run_checks r ((q, test) ∷ more) = do
  got ← lift_call (r.read q)
  same ← test got
  bad ← run_checks r more
  ok (if same then bad else differs q got ∷ bad)

-- The holders of the roles, all read before they are compared
unfoldable pub read_roles : ChainReader → List Query → Result ReadBackError (List (Query × Answer))
read_roles r [] = ok []
read_roles r (q ∷ more) = do
  who ← lift_call (r.read q)
  rest ← read_roles r more
  ok ((q, who) ∷ rest)

-- The roles that the deploy key holds
unfoldable pub held_roles : String → List (Query × Answer) → Result ReadBackError (List Mismatch)
held_roles deployer [] = ok []
held_roles deployer ((q, who) ∷ more) = do
  same ← is_key deployer who
  bad ← held_roles deployer more
  ok (if same then holds_role q ∷ bad else bad)

-- `!code || code === "0x"`
abbrev pub lacks_code : Option String → Bool
lacks_code none = true
lacks_code (some code) = code == "" || code == "0x"

abbrev pub is_nil {ℓ} : {A : Type ℓ} → List A → Bool
is_nil [] = true
is_nil (x ∷ xs) = false

unfoldable pub queries : List Check → List Query
queries [] = []
queries ((q, test) ∷ more) = q ∷ queries more

-- The queries that were compared, if all is as wanted
unfoldable pub verify_deployment :
    Solana → ChainReader → Expected → Result ReadBackError (List Query)
verify_deployment solana r want = do
  code ← lift_call r.get_code
  throw_if (lacks_code code) no_code
  bad ← run_checks r (first_checks want)
  first_read ← lift_call (r.read usdc_mint)
  mint ← lift_mint (base58_to_bytes32 solana want.usdc_mint_base58)
  worse ← run_checks r (mint_checks mint)
  holders ← read_roles r (owner ∷ pending_owner ∷ guardian ∷ [])
  held ← held_roles want.deployer holders
  throw_if (not (is_nil (bad ++ worse ++ held))) (mismatches (bad ++ worse ++ held))
  ok (queries (first_checks want ++ mint_checks mint))
