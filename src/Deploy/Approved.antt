-- ===== src/Deploy/Approved.antt =====
-- The conditions under which the deploy sends on Rubicon, one lemma for each part of the flow.
use rome_solidity.Prelude.{
  ℕ, ◌≤◌, ◌*◌, String, ◌≡◌, ◌≢◌, ◌↔◌, ◌⊎◌, true, false, Option, none, some, arith, nat_eq,
  string_eq, eq_iff, is_some, or_else, Result, ok, err, >>=-eq-ok, throw_if, throw_if-eq-ok, subst,
}
use rome_solidity.Prelude.Text.{to_lower, eq_ignore_case}
use rome_solidity.Prelude.Json.{Json, Fields, get}
use rome_solidity.Deploy.{rubicon_chain_id, record_key, rubicon_network}
use rome_solidity.Deploy.Args.{DeployOptions}
use rome_solidity.Deploy.Roles.{DeployRoles, validate_roles}
use rome_solidity.Deploy.Env.{
  DeployDeps, Source, Estimate, AccountInfo, FlowError, dependency, bad_roles, owner_has_code,
  guardian_has_code, recorded_before, not_canonical,
}
use rome_solidity.Deploy.Prepare.{
  Prepared, lift_err, check_chain, check_accounts, read_existing, lacks_layout, read_file,
  check_source, v12_owner, is_v12_owner, check_v12, check_digest, digest_of, is_below,
  check_estimate, check_price,
}

pub lift_err-eq-ok {ℓ κ} :
    {E : Type ℓ} {A : Type κ} (f : E → FlowError) (r : Result E A) (a : A)
    → lift_err f r ≡ ok a
    → r ≡ ok a
lift_err-eq-ok f (ok b) a h = cc
lift_err-eq-ok f (err e) a h = cc

-- The digest that was given, and the one of the deploy
abbrev pub GivenDigest : Option String → String → Type 0
GivenDigest none digest = ⊥
GivenDigest (some want) digest = to_lower want ≡ to_lower digest

module _ (deps : DeployDeps) where
  open deps use {viem}

  pub check_chain-eq-ok :
      (opts : DeployOptions) (chain_id : ℕ)
      → check_chain deps opts ≡ ok chain_id
      → (deps.guard opts.mainnet_flag ≡ ok chain_id)
        × ((deps.network_name ≡ rubicon_network) ↔ (chain_id ≡ rubicon_chain_id))
  unfolding check_chain
  check_chain-eq-ok opts chain_id h =
      let (c, e, h₁) = >>=-eq-ok (lift_err dependency (deps.guard opts.mainnet_flag)) _ h in
      let guarded = lift_err-eq-ok dependency (deps.guard opts.mainnet_flag) c e in
      let same : c ≡ chain_id = ground arith in
      (rw (← same) guarded, ground (arith, eq_iff deps.network_name rubicon_network))

  -- The owner's and the guardian's accounts hold no code.
  pub record AreCodeless (roles : DeployRoles) : Type 0 where
    pub owner_info : AccountInfo
    pub guardian_info : AccountInfo
    pub owner_read : deps.account_info roles.owner ≡ ok owner_info
    pub guardian_read : deps.account_info roles.guardian ≡ ok guardian_info
    pub owner_codeless : owner_info.has_code ≡ false
    pub guardian_codeless : guardian_info.has_code ≡ false

  pub check_accounts-eq-ok :
      (opts : DeployOptions) (roles : DeployRoles) (balance : ℕ)
      → check_accounts deps opts true ≡ ok (roles, balance)
      → (validate_roles viem deps.deployer opts.owner opts.guardian true ≡ ok roles)
        × AreCodeless roles
  unfolding check_accounts
  check_accounts-eq-ok opts roles balance h =
      let (rs, e₁, h₁) =
        >>=-eq-ok
          (lift_err bad_roles (validate_roles viem deps.deployer opts.owner opts.guardian true)) _
          h in
      let (o, e₂, h₂) = >>=-eq-ok (lift_err dependency (deps.account_info rs.owner)) _ h₁ in
      let (g, e₃, h₃) = >>=-eq-ok (lift_err dependency (deps.account_info rs.guardian)) _ h₂ in
      let (u, e₄, h₄) = >>=-eq-ok (throw_if o.has_code (owner_has_code rs.owner)) _ h₃ in
      let (v, e₅, h₅) = >>=-eq-ok (throw_if g.has_code (guardian_has_code rs.guardian)) _ h₄ in
      let same : rs ≡ roles = roles_eq h₅ in
      subst
        (λ r.
          (validate_roles viem deps.deployer opts.owner opts.guardian true ≡ ok r) × AreCodeless r)
        same
        (
          lift_err-eq-ok bad_roles _ rs e₁,
          record {
            owner_info = o;
            guardian_info = g;
            owner_read = lift_err-eq-ok dependency _ o e₂;
            guardian_read = lift_err-eq-ok dependency _ g e₃;
            owner_codeless = throw_if-eq-ok _ _ e₄;
            guardian_codeless = throw_if-eq-ok _ _ e₅;
          },
        )
    where
      roles_eq :
          {a b : DeployRoles} {m n : ℕ}
          → ◌≡◌ {A = Result FlowError (DeployRoles × ℕ)} (ok (a, m)) (ok (b, n))
          → a ≡ b
      roles_eq e = ground arith

  pub read_file-eq-ok :
      (snapshot : Option String) (existing : Fields)
      → read_file deps ≡ ok (snapshot, existing)
      → get record_key existing ≡ none
  unfolding read_file
  read_file-eq-ok snapshot existing h =
      let (raw, e₁, h₁) = >>=-eq-ok (lift_err dependency deps.read_raw) _ h in
      let (old, e₂, h₂) = >>=-eq-ok (read_existing deps raw) _ h₁ in
      let (u, e₃, h₃) = >>=-eq-ok (throw_if (is_some (get record_key old)) recorded_before) _ h₂ in
      let (v, e₄, h₄) = >>=-eq-ok (throw_if (lacks_layout deps raw old) not_canonical) _ h₃ in
      let absent = not_some (get record_key old) (throw_if-eq-ok _ _ e₃) in
      subst (λ f. get record_key f ≡ none) (file_eq h₄) absent
    where
      not_some : (o : Option Json) → is_some o ≡ false → o ≡ none
      not_some o e = ground arith

      file_eq :
          {a b : Fields} {m n : Option String}
          → ◌≡◌ {A = Result FlowError (Option String × Fields)} (ok (m, a)) (ok (n, b))
          → a ≡ b
      file_eq e = ground arith

  pub check_source-eq-ok :
      (src : Source)
      → check_source deps true ≡ ok src
      → (src.contracts_clean ≡ true) × (src.build_ok ≡ true)
  unfolding check_source
  check_source-eq-ok src h = ground arith

  pub check_v12-eq-ok :
      (opts : DeployOptions) (p : Prepared)
      → check_v12 deps opts p ≡ ok tt
      → p.mainnet ≡ true
      → (is_v12_owner deps (v12_owner deps p.existing) p.roles.guardian ≡ false)
        × (p.dry_run ≡ false
            → (opts.owner_differs_from_v12 ≡ true)
              ⊎ (is_v12_owner deps (v12_owner deps p.existing) p.roles.owner ≡ true))
  unfolding check_v12
  check_v12-eq-ok opts p h m = ground arith

  pub check_digest-eq-ok :
      (want : Option String) (p : Prepared) (n : ℕ)
      → check_digest deps want p n ≡ ok tt
      → p.dry_run ≡ false
      → is_some want ≡ true
      → GivenDigest want (digest_of deps p n)
  unfolding check_digest eq_ignore_case
  check_digest-eq-ok none p n h d s = cc
  check_digest-eq-ok (some want) p n h d s =
      ground (arith, eq_iff (to_lower want) (to_lower (digest_of deps p n)))

  -- The price is pinned, the deploy key can pay it, and the owner holds gas.
  pub record IsPaid (p : Prepared) (est : Estimate) : Type 0 where
    pub estimated : deps.estimate p.args ≡ ok est
    pub pinned : est.gas_price_pinned ≡ true
    pub priced : is_some est.gas_price ≡ true
    pub enough : (b : ℕ) → est.balance ≡ some b → est.gas * or_else est.gas_price 0 ≤ b
    pub owner_gas : p.owner_balance ≢ 0

  is_below_lem : (o : Option ℕ) (cost b : ℕ) → is_below deps o cost ≡ false → o ≡ some b → cost ≤ b
  is_below_lem o cost b h e = ground arith

  check_estimate-eq-ok :
      (p : Prepared) (est : Estimate)
      → check_estimate deps p est ≡ ok tt
      → p.dry_run ≡ false
      → (est.gas_price_pinned ≡ true)
        × (is_some est.gas_price ≡ true)
        × (is_below deps est.balance (est.gas * or_else est.gas_price 0) ≡ false)
        × (p.owner_balance ≢ 0)
  unfolding check_estimate
  check_estimate-eq-ok p est h d = ground arith

  pub check_price-eq-ok :
      (p : Prepared)
      → check_price deps p ≡ ok tt
      → p.mainnet ≡ true
      → p.dry_run ≡ false
      → (est : Estimate) × IsPaid p est
  unfolding check_price check_estimate
  check_price-eq-ok p h m d =
      let (est, e₁, h₁) = >>=-eq-ok (lift_err dependency (deps.estimate p.args)) _ (rw m at h) in
      let (pinned, priced, enough, gas) = check_estimate-eq-ok p est h₁ d in
      (
        est,
        record {
          estimated = lift_err-eq-ok dependency _ est e₁;
          pinned = pinned;
          priced = priced;
          enough = λ b. is_below_lem est.balance (est.gas * or_else est.gas_price 0) b enough;
          owner_gas = gas;
        },
      )
