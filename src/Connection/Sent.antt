-- ===== src/Connection/Sent.antt =====
-- The one send: under which conditions a transaction goes to the wallet.
use rome_solidity.Prelude.{
  ℕ, String, ◌≡◌, refl, ap, ◌∙◌, Bool, true, Option, none, some, inl, inr, ok, Result-cases,
}
use rome_solidity.Prelude.Number.{JsNumber, whole}
use rome_solidity.Prelude.Text.{eq_ignore_case}
use rome_solidity.Guard.Rubicon.{send, rubicon_v13_deploy_script}
use rome_solidity.Guard.Gates.{assert_rubicon_v13_deploy_send-mainnet}
use rome_solidity.Deploy.Tx.{deploy_digest}
use rome_solidity.Connection.{
  Connection, DeployEnd, refused, failed as failed_after, created, caller, digest_matches,
  send_guard, submit, deploy,
}

-- The transaction went to the wallet.
abbrev pub IsHanded : DeployEnd → Type 0
IsHanded (refused e) = ⊥
IsHanded (failed_after e) = Unit
IsHanded (created address hash) = Unit

module _ {Args : Type 0} (conn : Connection Args) where
  -- The operator's conditions for a send on Rubicon
  pub record IsApproved (args : Args) (mainnet_flag : Bool) (given : Option String)
      (chain nonce : ℕ) : Type 0 where
    pub script : conn.self ≡ rubicon_v13_deploy_script
    pub entry : conn.entry ≡ some rubicon_v13_deploy_script
    pub flag : mainnet_flag ≡ true
    pub digest :
        (d : String) × (given ≡ some d)
        × (eq_ignore_case d
              (deploy_digest conn.viem (conn.deploy_data args) chain conn.deployer nonce)
            ≡ true)

  digest_matches-eq-true :
      (digest : Option String) (data_ : String) (chain nonce : ℕ)
      → digest_matches conn digest data_ chain nonce ≡ true
      → (d : String) × (digest ≡ some d)
        × (eq_ignore_case d (deploy_digest conn.viem data_ chain conn.deployer nonce) ≡ true)
  unfolding digest_matches
  digest_matches-eq-true none data_ chain nonce h = cc
  digest_matches-eq-true (some d) data_ chain nonce h = (d, refl, h)

  approved :
      (args : Args) (flag : Bool) (digest : Option String) (chain nonce : ℕ) (id : JsNumber)
      → send_guard conn flag (digest_matches conn digest (conn.deploy_data args) chain nonce)
        ≡ ok id
      → id ≡ whole 7531
      → IsApproved args flag digest chain nonce
  unfolding send_guard
  approved args flag digest chain nonce id passed is =
      let matches = digest_matches conn digest (conn.deploy_data args) chain nonce in
      let (read, by) =
        assert_rubicon_v13_deploy_send-mainnet conn.guard_chain_id conn.label
          (caller conn flag send matches) conn.entry conn.extra_env (passed ∙ ap ok is) in
      elim by.phase [
        | inl inspecting ↦ cc
        | inr (sending, same) ↦ record {
          script = by.script;
          entry = by.entry;
          flag = by.flag;
          digest = digest_matches-eq-true digest (conn.deploy_data args) chain nonce same;
        }
      ]

  -- A transaction goes to the wallet only after the nonce and the chain were read and the guard let the
  -- send pass; where the guard read Rubicon's chain id, only for the script, the flag and the digest of
  -- exactly these bytes, the chain that the deploy read and this nonce. Then the deploy is the submission.
  pub deploy-IsHanded :
      (args : Args) (flag : Bool) (digest : Option String)
      → IsHanded (deploy conn args flag digest)
      → (nonce chain : ℕ) × (id : JsNumber) × (conn.pending_nonce ≡ ok nonce)
        × (conn.chain_id ≡ ok chain)
        × (send_guard conn flag (digest_matches conn digest (conn.deploy_data args) chain nonce)
            ≡ ok id)
        × (deploy conn args flag digest ≡ submit conn args nonce)
        × (id ≡ whole 7531 → IsApproved args flag digest chain nonce)
  unfolding deploy submit
  deploy-IsHanded args flag digest h = elim (Result-cases conn.pending_nonce) [
    | inr (e, failed) ↦ absurd (rw (deploy, failed) at h)
    | inl (nonce, n) ↦ elim (Result-cases conn.chain_id) [
      | inr (e, failed) ↦ absurd (rw (deploy, n, failed) at h)
      | inl (chain, c) ↦
          elim (Result-cases (
            send_guard conn flag
              (digest_matches conn digest (conn.deploy_data args) chain nonce))) [
                | inr (e, failed) ↦ absurd (rw (deploy, n, c, failed) at h)
                | inl (id, passed) ↦ (
                  nonce,
                  chain,
                  id,
                  n,
                  c,
                  passed,
                  rw (deploy, n, c, passed) refl,
                  approved args flag digest chain nonce id passed,
                )
              ]
    ]
  ]
