-- ===== src/Domains/Circle.antt =====
-- scripts/bridge/lib/cctp-domain-plan.ts: the check of Circle's live record for a domain.
use Prim.Native.Nat.{bit_or}
use rome_solidity.Prelude.{
  ℕ, ◌*◌, ◌^◌, String, Bool, false, not, ◌&&◌, Option, none, some, List, [], ◌∷◌, ◌==◌, nat_eq,
  string_eq, if◌then◌else◌, ltb, length, get_elem?, or_else, take, drop, any, all, bytes_eq,
}
use rome_solidity.Prelude.Number.{JsNumber, whole, negative, not_whole}
use rome_solidity.Prelude.Bits.{to_int32}
use rome_solidity.Domains.{kind_evm, kind_raw32}

-- REMOTE_TOKEN_MESSENGER_DISCRIMINATOR, the bytes of "6973ae225fe98afc"
abbrev pub remote_token_messenger_discriminator : List ℕ
remote_token_messenger_discriminator = 0x69 ∷ 0x73 ∷ 0xae ∷ 0x22 ∷ 0x5f ∷ 0xe9 ∷ 0x8a ∷ 0xfc ∷ []

pub record SolanaAccount : Type 0 where
  pub owner : String
  pub bytes : List ℕ

pub data CircleProblem : Type 0 where
  no_account : CircleProblem
  wrong_owner : String → CircleProblem
  too_short : ℕ → CircleProblem
  wrong_discriminator : List ℕ → CircleProblem
  wrong_domain : JsNumber → CircleProblem
  not_evm_shaped : List ℕ → CircleProblem
  address_shaped : List ℕ → CircleProblem

-- `d[i]`
abbrev pub byte_at : List ℕ → ℕ → ℕ
byte_at d i = or_else (get_elem? d i) 0

-- `d.subarray(from, to)`
abbrev pub subarray : List ℕ → ℕ → ℕ → List ℕ
subarray d from n = take n (drop from d)

-- `d[8] | (d[9] << 8) | (d[10] << 16) | (d[11] * 0x1000000)`; `|` gives a signed 32-bit number.
unfoldable pub stored_domain : List ℕ → JsNumber
stored_domain d = to_int32 (
    bit_or (bit_or (bit_or (byte_at d 8) (byte_at d 9 * 2 ^ 8)) (byte_at d 10 * 2 ^ 16))
      (byte_at d 11 * 2 ^ 24))

-- `stored === domain`
unfoldable pub same_number : JsNumber → ℕ → Bool
same_number (whole m) n = m == n
same_number (negative m) n = false
same_number not_whole n = false

-- The two tests on the messenger's first twelve bytes
unfoldable pub check_shape : ℕ → List ℕ → Option CircleProblem
check_shape kind d =
    if kind == kind_evm && any (λ b. not (b == 0)) (subarray d 12 12)
    then some (not_evm_shaped (subarray d 12 32))
    else if kind == kind_raw32 && all (λ b. b == 0) (subarray d 12 12)
    then some (address_shaped (subarray d 12 32))
    else none

-- The tests on the account's data
unfoldable pub check_data : ℕ → ℕ → List ℕ → Option CircleProblem
unfolding check_shape stored_domain same_number
check_data domain kind d =
    if ltb (length d) 44
    then some (too_short (length d))
    else if not (bytes_eq (subarray d 0 8) remote_token_messenger_discriminator)
    then some (wrong_discriminator (subarray d 0 8))
    else if not (same_number (stored_domain d) domain)
    then some (wrong_domain (stored_domain d))
    else check_shape kind d

unfoldable pub check_circle_record : ℕ → ℕ → Option SolanaAccount → String → Option CircleProblem
unfolding check_data
check_circle_record domain kind none program = some no_account
check_circle_record domain kind (some account) program =
    if not (account.owner == program)
    then some (wrong_owner account.owner)
    else check_data domain kind account.bytes
