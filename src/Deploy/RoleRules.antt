-- ===== src/Deploy/RoleRules.antt =====
-- What valid roles are, and what the record of a deploy leaves alone.
use rome_solidity.Prelude.{
  String, ◌≡◌, ◌≢◌, sym, ap, ◌∙◌, Bool, true, false, none, some, arith, ◌==◌, string_eq, eq_iff, ok,
  err, >>=-eq-ok, if◌then◌else◌, Option-cases, inl, inr,
}
use rome_solidity.Prelude.Text.{to_lower, eq_ignore_case}
use rome_solidity.Prelude.Json.{Json, Fields, get, add_field, get-add_field}
use rome_solidity.Ctor.{zero_address}
use rome_solidity.Deploy.{Viem, record_key}
use rome_solidity.Deploy.Roles.{DeployRoles, parse_address, check_roles, validate_roles}
use rome_solidity.Deploy.Record.{V13Record, already_recorded, record_json, with_v13_record}

-- The two texts differ in more than the case of their letters.
abbrev pub AreApart : String → String → Type 0
AreApart a b = to_lower a ≢ to_lower b

apart : (a b : String) → eq_ignore_case a b ≡ false → AreApart a b
unfolding eq_ignore_case
apart a b h same = ground (arith, eq_iff (to_lower a) (to_lower b))

module _ (viem : Viem) where
  -- The address was taken from the text, which is checksummed if that is asked for.
  abbrev pub IsParsedAs : String → Bool → String → Type 0
  IsParsedAs v strict a =
      (viem.is_address v ≡ true) × (a ≡ viem.get_address v) × (strict ≡ true → v ≡ a)

  parse_address-eq-ok :
      (label v : String) (strict : Bool) (a : String)
      → parse_address viem label v strict ≡ ok a
      → IsParsedAs v strict a
  unfolding parse_address
  parse_address-eq-ok label v strict a h = ground (arith, eq_iff v (viem.get_address v))

  pub record AreRoles (deployer owner guardian : String) (strict : Bool) (r : DeployRoles)
      : Type 0 where
    pub owner_parsed : IsParsedAs owner strict r.owner
    pub guardian_parsed : IsParsedAs guardian strict r.guardian
    pub deployer_parsed : IsParsedAs deployer false r.deployer
    pub owner_not_zero : AreApart r.owner zero_address
    pub guardian_not_zero : AreApart r.guardian zero_address
    pub owner_not_guardian : AreApart r.owner r.guardian
    pub owner_not_deployer : AreApart r.owner r.deployer
    pub guardian_not_deployer : AreApart r.guardian r.deployer

  check_roles-eq-ok :
      (owner guardian deployer : String) (r : DeployRoles)
      → check_roles viem owner guardian deployer ≡ ok r
      → (r.owner ≡ owner)
        × (r.guardian ≡ guardian)
        × (r.deployer ≡ deployer)
        × (eq_ignore_case owner zero_address ≡ false)
        × (eq_ignore_case guardian zero_address ≡ false)
        × (eq_ignore_case owner guardian ≡ false)
        × (eq_ignore_case owner deployer ≡ false)
        × (eq_ignore_case guardian deployer ≡ false)
  unfolding check_roles
  check_roles-eq-ok owner guardian deployer r h = ground arith

  -- Roles that pass are the checksummed forms of three addresses; none of owner and guardian is the zero
  -- address, and owner, guardian and deploy key are three different addresses, letter case aside. Under
  -- strict checksums the owner and the guardian were given in their checksummed form.
  pub validate_roles-AreRoles :
      (deployer owner guardian : String) (strict : Bool) (r : DeployRoles)
      → validate_roles viem deployer owner guardian strict ≡ ok r
      → AreRoles deployer owner guardian strict r
  unfolding validate_roles
  validate_roles-AreRoles deployer owner guardian strict r h =
      let (o, e₁, h₁) = >>=-eq-ok (parse_address viem "--owner" owner strict) _ h in
      let (g, e₂, h₂) = >>=-eq-ok (parse_address viem "--guardian" guardian strict) _ h₁ in
      let (d, e₃, h₃) =
        >>=-eq-ok (parse_address viem "the deploy key's address" deployer false) _ h₂ in
      let (ro, rg, rd, a, b, c, x, y) = check_roles-eq-ok o g d r h₃ in
      record {
        owner_parsed = rw ro (parse_address-eq-ok "--owner" owner strict o e₁);
        guardian_parsed = rw rg (parse_address-eq-ok "--guardian" guardian strict g e₂);
        deployer_parsed =
            rw rd (parse_address-eq-ok "the deploy key's address" deployer false d e₃);
        owner_not_zero = rw ro (apart o zero_address a);
        guardian_not_zero = rw rg (apart g zero_address b);
        owner_not_guardian = rw (ro, rg) (apart o g c);
        owner_not_deployer = rw (ro, rd) (apart o d x);
        guardian_not_deployer = rw (rg, rd) (apart g d y);
      }

found_after :
    (k : String) (existing new : Fields) (j : Json)
    → get record_key existing ≡ none
    → add_field record_key j existing ≡ new
    → get k new ≡ (if record_key == k then some j else get k existing)
found_after k existing new j free e =
    ap (get k) (sym e) ∙ get-add_field k record_key j existing free

-- Where the file gets its record, the record is found under its key, every other key keeps its value,
-- and a second record is refused.
pub with_v13_record-get :
    (existing new : Fields) (rec : V13Record)
    → with_v13_record existing rec ≡ ok new
    → (get record_key new ≡ some (record_json rec))
      × ((k : String) → k ≢ record_key → get k new ≡ get k existing)
      × ((second : V13Record) → with_v13_record new second ≡ err already_recorded)
unfolding with_v13_record
with_v13_record-get existing new rec h = elim (Option-cases (get record_key existing)) [
  | inr (v, e) ↦ ground arith
  | inl e ↦
      let same : add_field record_key (record_json rec) existing ≡ new = ground arith in
      (
        ground (
          arith,
          found_after record_key existing new (record_json rec) e same,
          eq_iff record_key record_key,
        ),
        λ k other.
            ground
              (arith, found_after k existing new (record_json rec) e same, eq_iff record_key k),
        λ second. ground (
          arith,
          found_after record_key existing new (record_json rec) e same,
          eq_iff record_key record_key,
        ),
      )
]
