-- ===== src/Guard/Allowed.antt =====
-- Exactly which chains and callers the guard lets through.
use rome_solidity.Prelude.{
  ℕ, zero, suc, String, ◌≡◌, refl, ◌≢◌, ◌↔◌, ◌⊎◌, Bool, true, false, Option, none, some, arith,
  eq_iff, or_else, contains, nat_eq,
}
use native.Mathlib.Decide.{ℕ_discrete}
use rome_solidity.Prelude.Number.{JsNumber, whole, negative, not_whole}
use rome_solidity.Prelude.Text.{split}
use rome_solidity.Guard.{parse_extra_chain_ids, judge_usable, judge_chain}
use rome_solidity.Guard.Listed.{IsListed, contains-parse_extra_chain_ids_iff}
use rome_solidity.Guard.Rubicon.{
  RubiconDeployCaller, Phase, inspect, send, other, rubicon_v13_deploy_script, judge_phase,
  judge_rubicon_v13_deploy, is_text, is_number,
}

abbrev pub IsTestnet : ℕ → Type 0
IsTestnet n = (n ≡ 200010) ⊎ (n ≡ 121214) ⊎ (n ≡ 121213) ⊎ (n ≡ 121302) ⊎ (n ≡ 210000) ⊎ (n ≡ 31337)

-- A chain that a script may send on: not mainnet, and a known testnet or listed on purpose.
abbrev pub IsSendable : Option String → ℕ → Type 0
IsSendable extra_env n = (n ≢ 7531) × (IsTestnet n ⊎ IsListed n (split b',' (or_else extra_env "")))

judge_usable-allowed_iff :
    (n : ℕ) (extra_env : Option String)
    → ((judge_usable n extra_env).allowed ≡ true)
      ↔ ((n ≢ 7531) × (IsTestnet n ⊎ (contains (parse_extra_chain_ids extra_env) n ≡ true)))
unfolding judge_usable
judge_usable-allowed_iff n extra_env = ground arith

judge_usable-IsSendable_iff :
    (n : ℕ) (extra_env : Option String)
    → ((judge_usable n extra_env).allowed ≡ true) ↔ IsSendable extra_env n
judge_usable-IsSendable_iff n extra_env =
    ground
      (arith, judge_usable-allowed_iff n extra_env, contains-parse_extra_chain_ids_iff extra_env n)

judge_chain_sound :
    (id : Option JsNumber) (extra_env : Option String)
    → (judge_chain id extra_env).allowed ≡ true
    → (n : ℕ) × (id ≡ some (whole n)) × IsSendable extra_env n
unfolding judge_chain
judge_chain_sound none extra_env h = cc
judge_chain_sound (some not_whole) extra_env h = cc
judge_chain_sound (some (negative n)) extra_env h = ground arith
judge_chain_sound (some (whole zero)) extra_env h = cc
judge_chain_sound (some (whole (suc n))) extra_env h =
    (suc n, refl, (judge_usable-IsSendable_iff (suc n) extra_env).0 (ground arith))

whole_injective : (n m : ℕ) → ◌≡◌ {A = Option JsNumber} (some (whole n)) (some (whole m)) → n ≡ m
whole_injective n m e = cc

judge_chain_complete :
    (n : ℕ) (extra_env : Option String)
    → IsSendable extra_env n
    → (judge_chain (some (whole n)) extra_env).allowed ≡ true
unfolding judge_chain
judge_chain_complete zero extra_env h = ground arith
judge_chain_complete (suc n) extra_env h =
    ground (arith, judge_usable-IsSendable_iff (suc n) extra_env)

-- `judgeChain` allows exactly the ids that are whole numbers other than mainnet's 7531 and that are
-- one of the six testnets or are spelled in the extra variable; everything else is refused: no id,
-- negative or fractional numbers, and mainnet even when the variable lists it.
pub judge_chain-allowed_iff :
    (id : Option JsNumber) (extra_env : Option String)
    → ((judge_chain id extra_env).allowed ≡ true)
      ↔ ((n : ℕ) × (id ≡ some (whole n)) × IsSendable extra_env n)
judge_chain-allowed_iff id extra_env =
    (judge_chain_sound id extra_env, λ h. rw h.1 (judge_chain_complete h.0 extra_env h.2))

judge_whole_iff :
    (n : ℕ) (extra_env : Option String)
    → ((judge_chain (some (whole n)) extra_env).allowed ≡ true) ↔ IsSendable extra_env n
judge_whole_iff n extra_env = (
  λ h.
      let (m, e, s) = judge_chain_sound (some (whole n)) extra_env h in
      rw (whole_injective n m e) s,
  judge_chain_complete n extra_env,
)

-- What the mainnet deploy asks of its caller.
pub record IsDeployCaller (caller : RubiconDeployCaller) : Type 0 where
  pub script : caller.script ≡ rubicon_v13_deploy_script
  pub entry : caller.entry ≡ some rubicon_v13_deploy_script
  pub flag : caller.mainnet_flag ≡ true
  pub phase : (caller.phase ≡ inspect) ⊎ ((caller.phase ≡ send) × (caller.digest_matches ≡ true))

judge_phase_iff :
    (p : Phase) (digest_matches : Bool)
    → ((judge_phase p digest_matches).allowed ≡ true)
      ↔ ((p ≡ inspect) ⊎ ((p ≡ send) × (digest_matches ≡ true)))
unfolding judge_phase
judge_phase_iff inspect d = ground arith
judge_phase_iff send true = ground arith
judge_phase_iff send false = ground arith
judge_phase_iff (other name) d = ground arith

is_text_iff : (o : Option String) (t : String) → (is_text o t ≡ true) ↔ (o ≡ some t)
is_text_iff none t = ground arith
is_text_iff (some s) t = ground (arith, eq_iff s t)

rubicon_iff :
    (caller : RubiconDeployCaller) (extra_env : Option String)
    → ((judge_rubicon_v13_deploy (some (whole 7531)) caller extra_env).allowed ≡ true)
      ↔ IsDeployCaller caller
unfolding judge_rubicon_v13_deploy
rubicon_iff caller extra_env = ground (
  arith,
  judge_phase_iff caller.phase caller.digest_matches,
  is_text_iff caller.entry rubicon_v13_deploy_script,
  eq_iff caller.script rubicon_v13_deploy_script,
)

-- On every chain but Rubicon the deploy's guard decides as `judgeChain` does.
elsewhere_lem :
    (id : Option JsNumber) (caller : RubiconDeployCaller) (extra_env : Option String)
    → is_number id 7531 ≡ false
    → judge_rubicon_v13_deploy id caller extra_env ≡ judge_chain id extra_env
unfolding judge_rubicon_v13_deploy
elsewhere_lem id caller extra_env h = rw h

-- The deploy's guard lets a whole chain id through exactly when it is Rubicon's and the caller is the
-- deploy script, started as itself, with the mainnet flag, and only inspects or sends under a
-- matching digest; or when it is a testnet that `judgeChain` allows.
pub judge_rubicon_v13_deploy-allowed_iff :
    (n : ℕ) (caller : RubiconDeployCaller) (extra_env : Option String)
    → ((judge_rubicon_v13_deploy (some (whole n)) caller extra_env).allowed ≡ true)
      ↔ (((n ≡ 7531) × IsDeployCaller caller) ⊎ IsSendable extra_env n)
judge_rubicon_v13_deploy-allowed_iff n caller extra_env = elim (ℕ_discrete n 7531) [
  | yes e ↦ rw e (ground (arith, rubicon_iff caller extra_env))
  | no ne ↦
      rw (elsewhere_lem (some (whole n)) caller extra_env (ground arith))
        (ground (arith, judge_whole_iff n extra_env))
]
