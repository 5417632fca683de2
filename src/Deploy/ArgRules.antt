-- ===== src/Deploy/ArgRules.antt =====
-- What the options of a command line that is accepted are.
use rome_solidity.Prelude.{
  ◌+◌, ◌≤◌, String, ◌≡◌, refl, Bool, true, false, not, ◌&&◌, ◌||◌, ◌⊎◌, inl, inr, Bool-cases, sym,
  ap, ◌∙◌, contains, lookup, lookup-insert, Option, none, some, List, [], ◌∷◌, ◌≢◌, Option-cases,
  err, is_some, arith, ◌==◌, nat_eq, string_eq, eq_iff, Result, ok, >>=-eq-ok, ltb, subst,
}
use rome_solidity.Deploy.{Viem, rubicon_network, mainnet_flag_name}
use rome_solidity.Deploy.Args.{
  value_options, flag_options, flag, parse_joined, cut_at_equals, parse_arg, add_seen, ArgError,
  Existing, DeployOptions, Given, parse_all, need, is_hex_of_length, is_0x_hex, all_given, fails,
  differ, count, check_options, read_options, parse_args,
}

-- A value that is given passes its test.
abbrev pub Meets : Option String → (String → Bool) → Type 0
Meets o test = (v : String) → o ≡ some v → test v ≡ true

err-is_ok :
    {e : ArgError} {r : String × Given × Bool}
    → ◌≢◌ {A = Result ArgError (String × Given × Bool)} (err e) (ok r)
err-is_ok e = cc

parse_joined-name :
    (a : String) (cut : Option (String × String)) (name : String) (g : Given) (t : Bool)
    → parse_joined a cut ≡ ok (name, g, t)
    → contains value_options name ≡ true
unfolding parse_joined
parse_joined-name a none name g t h = absurd (err-is_ok h)
parse_joined-name a (some (n, v)) name g t h = elim (Bool-cases (contains value_options n)) [
  | inr other ↦ absurd (err-is_ok (rw (parse_joined, other) at h))
  | inl option ↦ elim (Bool-cases (v == "")) [
    | inl empty ↦ absurd (err-is_ok (rw (parse_joined, option, empty) at h))
    | inr full ↦
        subst (λ m. contains value_options m ≡ true)
          (same_name (rw (parse_joined, option, full) at h)) option
  ]
]
  where
    same_name :
        {m : String} {x y : Given} {b c : Bool}
        → ◌≡◌ {A = Result ArgError (String × Given × Bool)} (ok (n, x, b)) (ok (m, y, c))
        → n ≡ m
    same_name e = cc

-- The name that an argument is recorded under: itself, or an option that takes a value
parse_arg-name :
    (a : String) (next : Option String) (name : String) (g : Given) (t : Bool)
    → parse_arg a next ≡ ok (name, g, t)
    → (name ≡ a) ⊎ (contains value_options name ≡ true)
unfolding parse_arg
parse_arg-name a next name g t h = elim (Bool-cases (contains flag_options a)) [
  | inl a_flag ↦ inl (names (rw (parse_arg, a_flag) at h))
  | inr no_flag ↦ elim (Bool-cases (contains value_options a)) [
    | inl option ↦ elim (Option-cases next) [
      | inl alone ↦ absurd (err-is_ok (rw (parse_arg, no_flag, option, alone) at h))
      | inr (v, is) ↦ ground arith
    ]
    | inr joined ↦
        inr (parse_joined-name a (cut_at_equals a) name g t (rw (parse_arg, no_flag, joined) at h))
  ]
]
  where
    names :
        {n : String} {x : Given} {b : Bool}
        → ◌≡◌ {A = Result ArgError (String × Given × Bool)} (ok (a, flag, false)) (ok (n, x, b))
        → n ≡ a
    names e = cc

-- What one round adds under the name of a flag
recorded_flag :
    (f a : String) (next : Option String) (name : String) (g : Given) (t : Bool)
    (seen after : List (String × Given))
    → contains value_options f ≡ false
    → parse_arg a next ≡ ok (name, g, t)
    → add_seen name g seen ≡ ok after
    → is_some (lookup f after) ≡ true
    → (is_some (lookup f seen) || a == f) ≡ true
unfolding add_seen
recorded_flag f a next name g t seen after plain h k found =
    elim (parse_arg-name a next name g t h) [
      | inl same ↦ ground (arith, lookup-insert name f g seen, eq_iff name f, eq_iff a f)
      | inr option ↦
          let other : name ≢ f =
            λ same. true-false (sym option ∙ ap (contains value_options) same ∙ plain) in
          ground (arith, lookup-insert name f g seen, eq_iff name f)
    ]
  where
    true-false : true ≢ false
    true-false e = cc

-- A flag that is recorded was among the arguments.
parse_all-lookup :
    (f : String)
    → contains value_options f ≡ false
    → (argv : List String) (seen out : List (String × Given)) → parse_all seen argv ≡ ok out
    → is_some (lookup f out) ≡ true
    → (is_some (lookup f seen) || contains argv f) ≡ true
unfolding parse_all
parse_all-lookup f plain [] seen out h found = ground arith
parse_all-lookup f plain (a ∷ []) seen out h found =
    let ((name, g, t), e₁, h₁) = >>=-eq-ok (parse_arg a none) _ h in
    ground (arith, recorded_flag f a none name g t seen out plain e₁ h₁ found)
parse_all-lookup f plain (a ∷ next ∷ more) seen out h found =
    let ((name, g, t), e₁, h₁) = >>=-eq-ok (parse_arg a (some next)) _ h in
    let (after, e₂, h₂) = >>=-eq-ok (add_seen name g seen) _ h₁ in
    elim (Bool-cases t) [
      | inl taken ↦
          let later = parse_all-lookup f plain more after out (rw taken at h₂) found in
          ground (arith, recorded_flag f a (some next) name g t seen after plain e₁ e₂)
      | inr single ↦
          let later = parse_all-lookup f plain (next ∷ more) after out (rw single at h₂) found in
          ground (arith, recorded_flag f a (some next) name g t seen after plain e₁ e₂)
    ]

module _ (viem : Viem) where
  pub record IsSound (o : DeployOptions) : Type 0 where
    pub digest : Meets o.deploy_digest (is_0x_hex 16)
    pub existing :
        (v : Existing)
        → o.verify_existing ≡ some v
        → (viem.is_address v.address ≡ true)
          × (is_0x_hex 64 v.tx_hash ≡ true)
          × (is_hex_of_length 40 v.source_commit ≡ true)
    pub one_mode :
        count o.dry_run + count (is_some o.deploy_digest) + count (is_some o.verify_existing) ≤ 1
    pub mainnet : o.network ≡ rubicon_network → o.mainnet_flag ≡ true

  pub record IsSoundFor (argv : List String) (o : DeployOptions) : Type 0 where
    pub sound : IsSound o
    pub mainnet_given : o.network ≡ "rubicon" → contains argv "--i-understand-mainnet" ≡ true

  Meets-fails : (o : Option String) (test : String → Bool) → fails o test ≡ false → Meets o test
  unfolding fails
  Meets-fails none test h v e = cc e
  Meets-fails (some a) test h v e = ground arith

  given_parts :
      (a t c : Option String) (v : Existing)
      → all_given a t c ≡ some v
      → (a ≡ some v.address) × (t ≡ some v.tx_hash) × (c ≡ some v.source_commit)
  unfolding all_given
  given_parts none t c v e = cc e
  given_parts (some a) none c v e = cc e
  given_parts (some a) (some t) none v e = cc e
  given_parts (some a) (some t) (some c) v e = ground arith

  given_all :
      (a t c : Option String)
      → differ (is_some a) (is_some t) (is_some c) ≡ false
      → is_some (all_given a t c) ≡ is_some a
  unfolding all_given differ
  given_all none none none h = refl
  given_all none none (some c) h = cc
  given_all none (some t) c h = ground arith
  given_all (some a) none c h = ground arith
  given_all (some a) (some t) none h = cc
  given_all (some a) (some t) (some c) h = refl

  -- The tests after the loop, each passed
  check_options-eq-ok :
      (a t c : Option String) (o : DeployOptions)
      → check_options viem a t c o ≡ ok tt
      → (fails o.deploy_digest (is_0x_hex 16) ≡ false)
        × (differ (is_some a) (is_some t) (is_some c) ≡ false)
        × (fails c (is_hex_of_length 40) ≡ false)
        × (fails a viem.is_address ≡ false)
        × (fails t (is_0x_hex 64) ≡ false)
        × (ltb 1 (count o.dry_run + count (is_some o.deploy_digest) + count (is_some a)) ≡ false)
        × ((o.network == rubicon_network && not o.mainnet_flag) ≡ false)
  unfolding check_options
  check_options-eq-ok a t c o h = ground arith

  sound :
      (a t c : Option String) (o : DeployOptions)
      → o.verify_existing ≡ all_given a t c
      → check_options viem a t c o ≡ ok tt
      → IsSound o
  sound a t c o e h =
      let (digest, together, commit, address, tx, modes, mainnet) = check_options-eq-ok a t c o h in
      record {
        digest = Meets-fails o.deploy_digest (is_0x_hex 16) digest;
        existing = λ v verifying.
            let (ea, et, ec) = given_parts a t c v (ground arith) in
            (
              Meets-fails a viem.is_address address v.address ea,
              Meets-fails t (is_0x_hex 64) tx v.tx_hash et,
              Meets-fails c (is_hex_of_length 40) commit v.source_commit ec,
            );
        one_mode = ground (arith, given_all a t c together);
        mainnet = λ on. ground (arith, eq_iff o.network rubicon_network);
      }

  read_options-IsSound :
      (seen : List (String × Given)) (o : DeployOptions) → read_options viem seen ≡ ok o → IsSound o
  unfolding read_options
  read_options-IsSound seen o h =
      let (network, e₁, h₁) = >>=-eq-ok (need seen "--network") _ h in
      let (owner, e₂, h₂) = >>=-eq-ok (need seen "--owner") _ h₁ in
      let (guardian, e₃, h₃) = >>=-eq-ok (need seen "--guardian") _ h₂ in
      let (u, e₄, h₄) = >>=-eq-ok (check_options viem _ _ _ _) _ h₃ in
      subst IsSound (inner h₄) (sound _ _ _ _ refl e₄)
    where
      inner : {a b : DeployOptions} → ◌≡◌ {A = Result ArgError DeployOptions} (ok a) (ok b) → a ≡ b
      inner e = cc

  read_options-flag :
      (seen : List (String × Given)) (o : DeployOptions)
      → read_options viem seen ≡ ok o
      → o.mainnet_flag ≡ is_some (lookup mainnet_flag_name seen)
  unfolding read_options
  read_options-flag seen o h =
      let (network, e₁, h₁) = >>=-eq-ok (need seen "--network") _ h in
      let (owner, e₂, h₂) = >>=-eq-ok (need seen "--owner") _ h₁ in
      let (guardian, e₃, h₃) = >>=-eq-ok (need seen "--guardian") _ h₂ in
      let (u, e₄, h₄) = >>=-eq-ok (check_options viem _ _ _ _) _ h₃ in
      ap (λ (p : DeployOptions). p.mainnet_flag) (sym (inner h₄))
    where
      inner : {a b : DeployOptions} → ◌≡◌ {A = Result ArgError DeployOptions} (ok a) (ok b) → a ≡ b
      inner e = cc

  -- A command line that is accepted has: a digest, if one is given, of `0x` and 16 hexadecimal digits;
  -- for a recovery an address, a transaction hash of `0x` and 64 digits and a commit of 40 digits; at
  -- most one of dry run, deploy and recovery; and, for the network rubicon, `--i-understand-mainnet`
  -- among its arguments.
  pub parse_args-IsSound :
      (argv : List String) (o : DeployOptions) → parse_args viem argv ≡ ok o → IsSoundFor argv o
  unfolding parse_args
  parse_args-IsSound argv o h =
      let (seen, e₁, h₁) = >>=-eq-ok (parse_all [] argv) _ h in
      let accepted = read_options-IsSound seen o h₁ in
      record {
        sound = accepted;
        mainnet_given = λ on.
            parse_all-lookup mainnet_flag_name refl argv [] seen e₁
              (sym (read_options-flag seen o h₁) ∙ accepted.mainnet on);
      }
