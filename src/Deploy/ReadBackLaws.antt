-- ===== src/Deploy/ReadBackLaws.antt =====
-- What a read-back that succeeds has seen, and on which attempt.
use rome_solidity.Prelude.{
  String, ◌≡◌, ◌≢◌, ap, sym, subst, ◌∙◌, Bool, true, false, List, [], ◌∷◌, arith, string_eq, eq_iff,
  Result, ok, err, >>=-eq-ok,
}
use rome_solidity.Prelude.Text.{to_lower, eq_ignore_case}
use rome_solidity.Deploy.ReadBack.{
  Query, Answer, text, bool, numbers, ChainReader, is_text, is_address_text, is_false,
  is_empty_list, lift_call, run_checks, read_roles, held_roles, is_key, Check, ReadBackError,
}

module _ (r : ChainReader) where
  -- Every query was answered, and its answer passed its test.
  abbrev pub AllPass : List Check → Type 0
  AllPass [] = Unit
  AllPass ((q, test) ∷ more) =
      ((a : Answer) × (r.read q ≡ ok a) × (test a ≡ ok true)) × AllPass more

  -- No query was answered with the key's address.
  abbrev pub AllOther : String → List Query → Type 0
  AllOther deployer [] = Unit
  AllOther deployer (q ∷ more) =
      ((a : Answer) × (r.read q ≡ ok a) × (is_key deployer a ≡ ok false)) × AllOther deployer more

  pub lift_call-eq-ok {ℓ} :
      {A : Type ℓ} (c : Result String A) (a : A) → lift_call c ≡ ok a → c ≡ ok a
  unfolding lift_call
  lift_call-eq-ok (ok b) a h = cc
  lift_call-eq-ok (err e) a h = cc

  pub run_checks-AllPass : (cs : List Check) → run_checks r cs ≡ ok [] → AllPass cs
  unfolding run_checks
  run_checks-AllPass [] h = tt
  run_checks-AllPass ((q, test) ∷ more) h =
      let (a, e₁, h₁) = >>=-eq-ok (lift_call (r.read q)) _ h in
      let (same, e₂, h₂) = >>=-eq-ok (test a) _ h₁ in
      let (bad, e₃, h₃) = >>=-eq-ok (run_checks r more) _ h₂ in
      let passed : same ≡ true = ground arith in
      let none_bad : bad ≡ [] = ground arith in
      (
        (a, lift_call-eq-ok _ a e₁, e₂ ∙ ap ok passed),
        run_checks-AllPass more (e₃ ∙ ap ok none_bad),
      )

  abbrev NoneHolds : String → List (Query × Answer) → Type 0
  NoneHolds deployer [] = Unit
  NoneHolds deployer ((q, who) ∷ more) = (is_key deployer who ≡ ok false) × NoneHolds deployer more

  held_roles-NoneHolds :
      (deployer : String) (holders : List (Query × Answer))
      → held_roles deployer holders ≡ ok []
      → NoneHolds deployer holders
  unfolding held_roles
  held_roles-NoneHolds deployer [] h = tt
  held_roles-NoneHolds deployer ((q, who) ∷ more) h =
      let (same, e₁, h₁) = >>=-eq-ok (is_key deployer who) _ h in
      let (bad, e₂, h₂) = >>=-eq-ok (held_roles deployer more) _ h₁ in
      let other : same ≡ false = ground arith in
      let none_bad : bad ≡ [] = ground arith in
      (e₁ ∙ ap ok other, held_roles-NoneHolds deployer more (e₂ ∙ ap ok none_bad))

  read_roles-AllOther :
      (deployer : String) (qs : List Query) (holders : List (Query × Answer))
      → read_roles r qs ≡ ok holders
      → NoneHolds deployer holders
      → AllOther deployer qs
  unfolding read_roles
  read_roles-AllOther deployer [] holders h k = tt
  read_roles-AllOther deployer (q ∷ more) holders h k =
      let (a, e₁, h₁) = >>=-eq-ok (lift_call (r.read q)) _ h in
      let (rest, e₂, h₂) = >>=-eq-ok (read_roles r more) _ h₁ in
      let same = inner h₂ in
      let (k₁, k₂) = subst (NoneHolds deployer) (sym same) k in
      ((a, lift_call-eq-ok _ a e₁, k₁), read_roles-AllOther deployer more rest e₂ k₂)
    where
      inner :
          {a b : List (Query × Answer)}
          → ◌≡◌ {A = Result ReadBackError (List (Query × Answer))} (ok a) (ok b)
          → a ≡ b
      inner e = cc

  pub held_roles-AllOther :
      (deployer : String) (qs : List Query) (holders : List (Query × Answer))
      → read_roles r qs ≡ ok holders
      → held_roles deployer holders ≡ ok []
      → AllOther deployer qs
  held_roles-AllOther deployer qs holders h k =
      read_roles-AllOther deployer qs holders h (held_roles-NoneHolds deployer holders k)

  -- The answer is this address, letter case aside.
  abbrev pub ReadsAddress : Query → String → Type 0
  ReadsAddress q address = (s : String) × (r.read q ≡ ok (text s)) × (to_lower s ≡ to_lower address)

  -- The answer is an address, and not this one in any letter case.
  abbrev pub ReadsOther : Query → String → Type 0
  ReadsOther q address = (s : String) × (r.read q ≡ ok (text s)) × (to_lower s ≢ to_lower address)

  same : {a b : Bool} → ◌≡◌ {A = Result ReadBackError Bool} (ok a) (ok b) → a ≡ b
  same e = cc

  pub passes_text :
      (q : Query) (t : String)
      → (a : Answer) × (r.read q ≡ ok a) × (is_text t a ≡ ok true)
      → r.read q ≡ ok (text t)
  passes_text q t (text s, e, h) = e ∙ ap (λ u. ok (text u)) ((eq_iff s t).0 (same h))
  passes_text q t (bool b, e, h) = cc h
  passes_text q t (numbers ns, e, h) = cc h

  pub passes_address :
      (q : Query) (t : String)
      → (a : Answer) × (r.read q ≡ ok a) × (is_address_text t a ≡ ok true)
      → ReadsAddress q t
  unfolding eq_ignore_case
  passes_address q t (text s, e, h) = (s, e, (eq_iff (to_lower s) (to_lower t)).0 (same h))
  passes_address q t (bool b, e, h) = cc h
  passes_address q t (numbers ns, e, h) = cc h

  pub passes_false :
      (q : Query)
      → (a : Answer) × (r.read q ≡ ok a) × (is_false a ≡ ok true)
      → r.read q ≡ ok (bool false)
  passes_false q (bool false, e, h) = e
  passes_false q (bool true, e, h) = cc h
  passes_false q (text s, e, h) = cc h
  passes_false q (numbers ns, e, h) = cc h

  pub passes_empty :
      (q : Query)
      → (a : Answer) × (r.read q ≡ ok a) × (is_empty_list a ≡ ok true)
      → r.read q ≡ ok (numbers [])
  passes_empty q (numbers [], e, h) = e
  passes_empty q (numbers (n ∷ ns), e, h) = cc h
  passes_empty q (text s, e, h) = cc h
  passes_empty q (bool b, e, h) = cc h

  pub passes_other :
      (q : Query) (t : String)
      → (a : Answer) × (r.read q ≡ ok a) × (is_key t a ≡ ok false)
      → ReadsOther q t
  unfolding eq_ignore_case
  passes_other q t (text s, e, h) =
      (s, e, λ low. ground (arith, same h, eq_iff (to_lower s) (to_lower t)))
  passes_other q t (bool b, e, h) = cc h
  passes_other q t (numbers ns, e, h) = cc h
