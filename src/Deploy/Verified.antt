-- ===== src/Deploy/Verified.antt =====
-- What a read-back that succeeds has seen, and on which attempt.
use rome_solidity.Prelude.{
  String, ◌≡◌, refl, ap, ◌∙◌, true, false, not, Option, List, [], ◌∷◌, ◌++◌, arith, string_eq,
  Result, ok, err, ◌>>◌, >>=-eq-ok, throw_if, throw_if-eq-ok,
}
use rome_solidity.Ctor.{zero_address}
use rome_solidity.Ctor.Pdas.{Solana, CtorError, base58_to_bytes32}
use rome_solidity.Deploy.{expected_version}
use rome_solidity.Deploy.ReadBack.{
  Query, version, owner, pending_owner, guardian, cctp_domains, usdc_wrapper, usdc_mint,
  rail_paused, wormhole_target_chain_allowed, wormhole_mint_allowed, text, bool, numbers,
  ChainReader, Expected, Mismatch, mismatches, no_code, lift_call, lift_mint, first_checks,
  mint_checks, run_checks, read_roles, held_roles, lacks_code, is_nil, verify_deployment,
}
use rome_solidity.Deploy.ReadBackLaws.{
  AllPass, AllOther, run_checks-AllPass, held_roles-AllOther, lift_call-eq-ok, ReadsAddress,
  ReadsOther, passes_text, passes_address, passes_false, passes_empty, passes_other,
}

-- A contract that answers as a fresh deploy must
pub record IsAsWanted (r : ChainReader) (want : Expected) (mint : String) : Type 0 where
  pub reads_version : r.read version ≡ ok (text expected_version)
  pub reads_owner : ReadsAddress r owner want.owner
  pub reads_pending_owner : ReadsAddress r pending_owner zero_address
  pub reads_guardian : ReadsAddress r guardian want.guardian
  pub no_domains : r.read cctp_domains ≡ ok (numbers [])
  pub cctp_unpaused : r.read (rail_paused 0) ≡ ok (bool false)
  pub wormhole_unpaused : r.read (rail_paused 1) ≡ ok (bool false)
  pub to_solana_unpaused : r.read (rail_paused 2) ≡ ok (bool false)
  pub reads_usdc_wrapper : ReadsAddress r usdc_wrapper want.usdc_wrapper
  pub reads_usdc_mint : ReadsAddress r usdc_mint mint
  pub ethereum_off : r.read (wormhole_target_chain_allowed 2) ≡ ok (bool false)
  pub sepolia_off : r.read (wormhole_target_chain_allowed 10002) ≡ ok (bool false)
  pub usdc_off : r.read (wormhole_mint_allowed mint) ≡ ok (bool false)
  pub not_owner : ReadsOther r owner want.deployer
  pub not_pending : ReadsOther r pending_owner want.deployer
  pub not_guardian : ReadsOther r guardian want.deployer

as_wanted :
    (r : ChainReader) (want : Expected) (mint : String)
    → AllPass r (first_checks want)
    → AllPass r (mint_checks mint)
    → AllOther r want.deployer (owner ∷ pending_owner ∷ guardian ∷ [])
    → IsAsWanted r want mint
unfolding first_checks mint_checks
as_wanted r want mint (v, (o, (p, (g, (d, (r0, (r1, (r2, (w, _))))))))) (m, (c2, (c10002, (u, _))))
      (o_other, (p_other, (g_other, _))) =
    record {
      reads_version = passes_text r version _ v;
      reads_owner = passes_address r owner _ o;
      reads_pending_owner = passes_address r pending_owner _ p;
      reads_guardian = passes_address r guardian _ g;
      no_domains = passes_empty r cctp_domains d;
      cctp_unpaused = passes_false r (rail_paused 0) r0;
      wormhole_unpaused = passes_false r (rail_paused 1) r1;
      to_solana_unpaused = passes_false r (rail_paused 2) r2;
      reads_usdc_wrapper = passes_address r usdc_wrapper _ w;
      reads_usdc_mint = passes_address r usdc_mint _ m;
      ethereum_off = passes_false r (wormhole_target_chain_allowed 2) c2;
      sepolia_off = passes_false r (wormhole_target_chain_allowed 10002) c10002;
      usdc_off = passes_false r (wormhole_mint_allowed mint) u;
      not_owner = passes_other r owner _ o_other;
      not_pending = passes_other r pending_owner _ p_other;
      not_guardian = passes_other r guardian _ g_other;
    }

all_nil :
    (xs ys zs : List Mismatch)
    → is_nil ((xs ++ ys) ++ zs) ≡ true
    → (xs ≡ []) × (ys ≡ []) × (zs ≡ [])
all_nil [] [] [] h = (refl, refl, refl)
all_nil [] [] (z ∷ zs) h = cc
all_nil [] (y ∷ ys) zs h = cc
all_nil (x ∷ xs) ys zs h = cc

none_bad :
    (bad : List Mismatch) (asked lines : List Query)
    → (throw_if (not (is_nil bad)) (mismatches bad) >> ok asked) ≡ ok lines
    → is_nil bad ≡ true
none_bad [] asked lines h = refl
none_bad (x ∷ bad) asked lines h = ground arith

lift_mint-eq-ok : (c : Result CtorError String) (a : String) → lift_mint c ≡ ok a → c ≡ ok a
unfolding lift_mint
lift_mint-eq-ok (ok b) a h = ground arith
lift_mint-eq-ok (err e) a h = ground arith

-- A read-back that succeeds saw contract code, and the contract answered as a fresh deploy must: the
-- version, the roles, no pending owner, no domain, no paused rail, the wrapper and the mint, nothing on
-- the Wormhole lists, and the deploy key in no role.
pub verify_deployment-IsAsWanted :
    (solana : Solana) (r : ChainReader) (want : Expected) (lines : List Query)
    → verify_deployment solana r want ≡ ok lines
    → (mint : String) × (base58_to_bytes32 solana want.usdc_mint_base58 ≡ ok mint)
      × ((code : Option String) × (r.get_code ≡ ok code) × (lacks_code code ≡ false))
      × IsAsWanted r want mint
unfolding verify_deployment
verify_deployment-IsAsWanted solana r want lines h =
    let (code, e₁, h₁) = >>=-eq-ok (lift_call r.get_code) _ h in
    let (u, e₂, h₂) = >>=-eq-ok (throw_if (lacks_code code) no_code) _ h₁ in
    let (bad, e₃, h₃) = >>=-eq-ok (run_checks r (first_checks want)) _ h₂ in
    let (first, e₀, h₀) = >>=-eq-ok (lift_call (r.read usdc_mint)) _ h₃ in
    let (mint, e₄, h₄) =
      >>=-eq-ok (lift_mint (base58_to_bytes32 solana want.usdc_mint_base58)) _ h₀ in
    let (worse, e₅, h₅) = >>=-eq-ok (run_checks r (mint_checks mint)) _ h₄ in
    let (holders, e₆, h₆) = >>=-eq-ok (read_roles r (owner ∷ pending_owner ∷ guardian ∷ [])) _ h₅ in
    let (held, e₇, h₇) = >>=-eq-ok (held_roles want.deployer holders) _ h₆ in
    let (n₁, n₂, n₃) = all_nil bad worse held (none_bad ((bad ++ worse) ++ held) _ lines h₇) in
    (
      mint,
      lift_mint-eq-ok _ mint e₄,
      (code, lift_call-eq-ok r _ code e₁, throw_if-eq-ok _ _ e₂),
      as_wanted r want mint (run_checks-AllPass r _ (e₃ ∙ ap ok n₁))
          (run_checks-AllPass r _ (e₅ ∙ ap ok n₂))
          (held_roles-AllOther r want.deployer _ holders e₆ (e₇ ∙ ap ok n₃)),
    )
