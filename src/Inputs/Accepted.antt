-- ===== src/Inputs/Accepted.antt =====
-- What the resolved inputs guarantee.
use rome_solidity.Prelude.{
  ℕ, ◌≤◌, String, ◌≡◌, refl, ◌≢◌, ◌↔◌, ◌⊎◌, true, Option, some, none, arith, nat_eq, string_eq,
  eq_iff, ok, or_else,
}
use rome_solidity.Prelude.Text.{to_lower, eq_ignore_case, trim, is_decimal, decimal}
use rome_solidity.Guard.Rpc.{hex_quantity}
use rome_solidity.Ctor.{zero_address}
use rome_solidity.Deploy.{Viem}
use rome_solidity.Inputs.{
  chosen_recipient, resolve_burn_recipient, burn_amount_of, resolve_burn_amount, RoleInput,
  TestnetRoles, resolved_owner, resolve_roles,
}

-- The given text, trimmed, or the signer where nothing is given
abbrev pub IsChosen : String → Option String → String → Type 0
IsChosen signer explicit c =
    ((trim (or_else explicit "") ≢ "") × (c ≡ trim (or_else explicit "")))
    ⊎ ((trim (or_else explicit "") ≡ "") × (c ≡ signer))

chosen_recipient_iff :
    (signer : String) (explicit : Option String) (c : String)
    → (chosen_recipient signer explicit ≡ c) ↔ IsChosen signer explicit c
unfolding chosen_recipient
chosen_recipient_iff signer explicit c = ground (arith, eq_iff (trim (or_else explicit "")) "")

recipient_of_chosen_iff :
    (viem : Viem) (signer : String) (explicit : Option String) (r : String)
    → (resolve_burn_recipient viem signer explicit ≡ ok r) ↔ (
        (viem.is_address signer ≡ true)
        × (viem.is_address (chosen_recipient signer explicit) ≡ true)
        × (viem.get_address (chosen_recipient signer explicit) ≡ r)
        × (4294967296 ≤ hex_quantity r))
unfolding resolve_burn_recipient
recipient_of_chosen_iff viem signer explicit r = ground arith

-- A recipient is given out exactly when the signer and the chosen text (the given one, trimmed, or the
-- signer where it is empty) are addresses; it is the chosen one's checksummed form, and its number is at
-- least 2 ^ 32.
pub resolve_burn_recipient-eq-ok_iff :
    (viem : Viem) (signer : String) (explicit : Option String) (r : String)
    → (resolve_burn_recipient viem signer explicit ≡ ok r) ↔ (
        (viem.is_address signer ≡ true)
        × ((c : String) × IsChosen signer explicit c
            × (viem.is_address c ≡ true)
            × (viem.get_address c ≡ r))
        × (4294967296 ≤ hex_quantity r))
resolve_burn_recipient-eq-ok_iff viem signer explicit r =
    let c = chosen_recipient signer explicit in
    let step = recipient_of_chosen_iff viem signer explicit r in
    (
      λ h.
          let (a, b, e, l) = step.0 h in
          (a, (c, (chosen_recipient_iff signer explicit c).0 refl, b, e), l),
      λ (a, (d, is, b, e), l).
          let same = (chosen_recipient_iff signer explicit d).1 is in
          step.1 (a, rw same b, rw same e, l),
    )

-- An amount is given out exactly when the trimmed text is empty and it is 100000, or the text is a
-- decimal number that is not zero, and it is that number.
pub resolve_burn_amount-eq-ok_iff :
    (raw : Option String) (n : ℕ)
    → (resolve_burn_amount raw ≡ ok n) ↔ (
        ((trim (or_else raw "") ≡ "") × (n ≡ 100000))
        ⊎ ((trim (or_else raw "") ≢ "")
            × (is_decimal (trim (or_else raw "")) ≡ true)
            × (decimal (trim (or_else raw "")) ≡ n)
            × (1 ≤ n)))
unfolding resolve_burn_amount burn_amount_of
resolve_burn_amount-eq-ok_iff raw n = ground (arith, eq_iff (trim (or_else raw "")) "")

-- BRIDGE_OWNER, where that is not set WORMHOLE_ADMIN, and where none is set the deployer
abbrev pub IsFirstSet : RoleInput → String → Type 0
IsFirstSet i o =
    (i.bridge_owner ≡ some o)
    ⊎ ((i.bridge_owner ≡ none)
        × ((i.wormhole_admin ≡ some o) ⊎ ((i.wormhole_admin ≡ none) × (o ≡ i.deployer))))

resolved_owner_iff : (i : RoleInput) (o : String) → (resolved_owner i ≡ o) ↔ IsFirstSet i o
resolved_owner_iff i o = ground arith

-- The roles are resolved exactly when the guardian is the zero address or differs from the owner in more
-- than letter case; the owner is the first of the three variables that is set, and the guardian the given
-- one or the zero address.
pub resolve_roles-eq-ok_iff :
    (i : RoleInput) (r : TestnetRoles)
    → (resolve_roles i ≡ ok r) ↔ (
        IsFirstSet i r.owner
        × ((i.bridge_guardian ≡ some r.guardian)
            ⊎ ((i.bridge_guardian ≡ none)
                × (r.guardian ≡ "0x0000000000000000000000000000000000000000")))
        × ((r.guardian ≡ "0x0000000000000000000000000000000000000000")
            ⊎ (to_lower r.guardian ≢ to_lower r.owner)))
unfolding resolve_roles eq_ignore_case
resolve_roles-eq-ok_iff i r =
    let guardian = or_else i.bridge_guardian zero_address in
    ground (
      arith,
      eq_iff guardian zero_address,
      eq_iff (to_lower guardian) (to_lower (resolved_owner i)),
      resolved_owner_iff i r.owner,
    )
