-- ===== src/Deploy/Tx.antt =====
-- scripts/bridge/lib/rubicon-v13.ts: the digest of a deploy, and the tests on its mined transaction.
use Prim.Native.String.{[], ◌∷◌}
use rome_solidity.Prelude.{
  ℕ, zero, suc, String, Bool, true, false, not, ◌||◌, Option, none, some, List, [], ◌∷◌, ◌==◌,
  nat_eq, string_eq,
}
use rome_solidity.Prelude.Text.{eq_ignore_case}
use rome_solidity.Deploy.{Viem}

-- `s.slice(0, n)`
unfoldable pub slice_to : ℕ → String → String
slice_to zero s = []
slice_to (suc n) [] = []
slice_to (suc n) (c ∷ s) = c ∷ slice_to n s

pub record MinedTx : Type 0 where
  pub from : String
  pub input : String
  pub to : Option String
  pub nonce : Option ℕ
  pub status : String
  pub contract_address : Option String
  pub block_timestamp : Option ℕ

pub data TxProblem : Type 0 where
  not_success : String → TxProblem
  a_call : String → TxProblem
  other_sender : String → TxProblem
  other_contract : Option String → TxProblem
  other_input : TxProblem
  other_nonce : Option ℕ → TxProblem

-- A text that is there and not empty
abbrev pub is_given : Option String → Bool
is_given none = false
is_given (some s) = not (s == "")

abbrev pub created_other : Option String → String → Bool
created_other none address = true
created_other (some s) address = s == "" || not (eq_ignore_case s address)

-- `approvedNonce !== undefined && tx.nonce !== approvedNonce`
abbrev pub nonce_differs : Option ℕ → Option ℕ → Bool
nonce_differs none used = false
nonce_differs (some n) none = true
nonce_differs (some n) (some m) = not (m == n)

abbrev pub text_or_empty : Option String → String
text_or_empty none = ""
text_or_empty (some s) = s

-- `if (b) problems.push(p)`
abbrev pub note_if : Bool → TxProblem → List TxProblem → List TxProblem
note_if true p ps = p ∷ ps
note_if false p ps = ps

unfoldable pub deploy_tx_problems : MinedTx → String → String → String → Option ℕ → List TxProblem
deploy_tx_problems tx address creation deployer approved_nonce =
    note_if (not (tx.status == "success")) (not_success tx.status) (
      note_if (is_given tx.to) (a_call (text_or_empty tx.to)) (
        note_if (not (eq_ignore_case tx.from deployer)) (other_sender tx.from) (
          note_if (created_other tx.contract_address address) (other_contract tx.contract_address) (
            note_if (not (eq_ignore_case tx.input creation)) other_input
              (note_if (nonce_differs approved_nonce tx.nonce) (other_nonce tx.nonce) [])))))

module _ (viem : Viem) where
  unfoldable pub deploy_digest : String → ℕ → String → ℕ → String
  deploy_digest creation chain_id deployer nonce =
      slice_to 18
        (viem.keccak256 (viem.concat_deploy creation chain_id (viem.get_address deployer) nonce))

  unfoldable pub predicted_address : String → ℕ → String
  predicted_address deployer nonce = viem.contract_address (viem.get_address deployer) nonce
