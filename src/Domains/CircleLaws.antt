-- ===== src/Domains/CircleLaws.antt =====
-- What the check of Circle's record accepts.
use rome_solidity.Prelude.{
  ℕ, ◌+◌, ◌*◌, ◌^◌, ◌≤◌, ◌<◌, String, ◌≡◌, refl, ap, ◌≢◌, ◌↔◌, true, not, Option, none, some, sym,
  subst, List, [], ◌∷◌, arith, ◌==◌, nat_eq, string_eq, eq_iff, length, all, any, bytes_eq,
}
use rome_solidity.Prelude.Bits.{to_int32, bit_or-shifted}
use rome_solidity.Domains.{kind_evm, kind_raw32}
use rome_solidity.Domains.Circle.{
  SolanaAccount, remote_token_messenger_discriminator, byte_at, subarray, stored_domain,
  same_number, check_shape, check_data, check_circle_record,
}

-- The little-endian number of the four bytes after the discriminator
abbrev pub le_domain : List ℕ → ℕ
le_domain d = byte_at d 8 + byte_at d 9 * 256 + byte_at d 10 * 65536 + byte_at d 11 * 16777216

-- The four bytes are bytes.
abbrev pub AreBytes : List ℕ → Type 0
AreBytes d = (byte_at d 8 < 256) × (byte_at d 9 < 256) × (byte_at d 10 < 256) × (byte_at d 11 < 256)

stored_domain_lem : (d : List ℕ) → AreBytes d → stored_domain d ≡ to_int32 (le_domain d)
unfolding stored_domain
stored_domain_lem d (h8, h9, h10, h11) =
    let e₁ = bit_or-shifted 8 (byte_at d 8) (byte_at d 9) h8 in
    let e₂ = bit_or-shifted 16 (byte_at d 8 + byte_at d 9 * 256) (byte_at d 10) (omega arith) in
    let e₃ =
      bit_or-shifted 24 (byte_at d 8 + byte_at d 9 * 256 + byte_at d 10 * 65536) (byte_at d 11)
        (omega arith) in
    ap to_int32 (rw (e₁, e₂) e₃)

-- The test of the stored domain passes exactly at its value, and never from 2 ^ 31 on.
same_domain_iff :
    (n domain : ℕ)
    → n < 2 ^ 32
    → (same_number (to_int32 n) domain ≡ true) ↔ ((n ≡ domain) × (n < 2 ^ 31))
unfolding same_number to_int32
same_domain_iff n domain h = ground arith

bytes_eq_iff : (xs ys : List ℕ) → (bytes_eq xs ys ≡ true) ↔ (xs ≡ ys)
bytes_eq_iff [] [] = ground arith
bytes_eq_iff [] (y ∷ ys) = ground arith
bytes_eq_iff (x ∷ xs) [] = ground arith
bytes_eq_iff (x ∷ xs) (y ∷ ys) = ground (arith, bytes_eq_iff xs ys)

-- The messenger is address-shaped: its first twelve bytes are zero.
abbrev pub IsAddressShaped : List ℕ → Type 0
IsAddressShaped d = all (λ b. b == 0) (subarray d 12 12) ≡ true

any-not_zero : (xs : List ℕ) → any (λ b. not (b == 0)) xs ≡ not (all (λ b. b == 0) xs)
any-not_zero [] = refl
any-not_zero (x ∷ xs) = ground (arith, any-not_zero xs)

check_shape-none_iff :
    (kind : ℕ) (d : List ℕ)
    → (check_shape kind d ≡ none)
      ↔ ((kind ≡ kind_evm → IsAddressShaped d) × (kind ≡ kind_raw32 → ¬ IsAddressShaped d))
unfolding check_shape
check_shape-none_iff kind d = ground (arith, any-not_zero (subarray d 12 12))

-- What a record must be for a domain and a kind.
pub record IsCircleRecord (domain kind : ℕ) (program : String) (a : SolanaAccount) : Type 0 where
  pub owner : a.owner ≡ program
  pub long_enough : 44 ≤ length a.bytes
  pub discriminator : subarray a.bytes 0 8 ≡ remote_token_messenger_discriminator
  pub domain_eq : le_domain a.bytes ≡ domain
  pub below : le_domain a.bytes < 2 ^ 31
  pub evm_shape : kind ≡ kind_evm → IsAddressShaped a.bytes
  pub raw32_shape : kind ≡ kind_raw32 → ¬ IsAddressShaped a.bytes

stored_domain_iff :
    (domain : ℕ) (d : List ℕ)
    → AreBytes d
    → (same_number (stored_domain d) domain ≡ true)
      ↔ ((le_domain d ≡ domain) × (le_domain d < 2 ^ 31))
stored_domain_iff domain d h =
    rw (stored_domain_lem d h) (same_domain_iff (le_domain d) domain (omega arith))

check_data-none_iff :
    (domain kind : ℕ) (d : List ℕ)
    → (check_data domain kind d ≡ none) ↔ (
        (44 ≤ length d)
        × (subarray d 0 8 ≡ remote_token_messenger_discriminator)
        × (same_number (stored_domain d) domain ≡ true)
        × (check_shape kind d ≡ none))
unfolding check_data
check_data-none_iff domain kind d =
    ground (arith, bytes_eq_iff (subarray d 0 8) remote_token_messenger_discriminator)

check_circle_record_sound :
    (domain kind : ℕ) (a : SolanaAccount) (program : String)
    → AreBytes a.bytes
    → check_circle_record domain kind (some a) program ≡ none
    → IsCircleRecord domain kind program a
unfolding check_circle_record
check_circle_record_sound domain kind a program b h =
    let parts = (check_data-none_iff domain kind a.bytes).0 (ground arith) in
    let read = (stored_domain_iff domain a.bytes b).0 parts.2 in
    let shape = (check_shape-none_iff kind a.bytes).0 parts.3 in
    record {
      owner = ground (arith, eq_iff a.owner program);
      long_enough = parts.0;
      discriminator = parts.1;
      domain_eq = read.0;
      below = read.1;
      evm_shape = shape.0;
      raw32_shape = shape.1;
    }

check_circle_record_complete :
    (domain kind : ℕ) (a : SolanaAccount) (program : String)
    → AreBytes a.bytes
    → IsCircleRecord domain kind program a
    → check_circle_record domain kind (some a) program ≡ none
unfolding check_circle_record
check_circle_record_complete domain kind a program b r =
    let read = (stored_domain_iff domain a.bytes b).1 (r.domain_eq, r.below) in
    let shape = (check_shape-none_iff kind a.bytes).1 (r.evm_shape, r.raw32_shape) in
    let rest =
      (check_data-none_iff domain kind a.bytes).1 (r.long_enough, r.discriminator, read, shape) in
    ground (arith, eq_iff a.owner program)

-- `checkCircleRecord` reports nothing exactly when the account exists, belongs to the given program,
-- has at least 44 bytes, Circle's discriminator and the domain in its four little-endian bytes, that
-- domain is below 2 ^ 31, and the messenger is address-shaped for an EVM kind and not address-shaped
-- for a RAW32 kind. The four items after the discriminator of an account are bytes.
pub check_circle_record-none_iff :
    (domain kind : ℕ) (account : Option SolanaAccount) (program : String)
    → ((a : SolanaAccount) → account ≡ some a → AreBytes a.bytes)
    → (check_circle_record domain kind account program ≡ none)
      ↔ ((a : SolanaAccount) × (account ≡ some a) × IsCircleRecord domain kind program a)
unfolding check_circle_record
check_circle_record-none_iff domain kind none program b = (λ h. cc, λ (a, is, r). cc)
check_circle_record-none_iff domain kind (some a) program b = (
  λ h. (a, refl, check_circle_record_sound domain kind a program (b a refl) h),
  λ (c, is, r).
      check_circle_record_complete domain kind a program (b a refl)
        (subst (IsCircleRecord domain kind program) (some-inj (sym is)) r),
)
  where
    some-inj : {x y : SolanaAccount} → some x ≡ some y → x ≡ y
    some-inj h = cc

-- An account that records a domain from 2 ^ 31 on is reported for that very domain, whatever else it
-- holds: the domain is read as a signed number.
pub check_circle_record-high_domain :
    (kind : ℕ) (a : SolanaAccount) (program : String)
    → AreBytes a.bytes
    → 2 ^ 31 ≤ le_domain a.bytes
    → check_circle_record (le_domain a.bytes) kind (some a) program ≢ none
check_circle_record-high_domain kind a program b high h =
    let r = check_circle_record_sound (le_domain a.bytes) kind a program b h in
    absurd (omega (arith, r.below))
