-- ===== src/Domains/Send.antt =====
-- scripts/bridge/lib/cctp-domain-plan.ts: whether the script may send the planned calls.
use rome_solidity.Prelude.{
  ℕ, String, ◌≡◌, ◌↔◌, ◌≢◌, Bool, true, false, not, ◌||◌, Option, none, some, arith, ◌==◌,
  string_eq, eq_iff, if◌then◌else◌,
}
use rome_solidity.Prelude.Number.{JsNumber, whole}
use rome_solidity.Prelude.Text.{to_lower, eq_ignore_case}
use rome_solidity.Guard.{Reason, judge_chain}
use rome_solidity.Guard.Allowed.{IsSendable, judge_chain-allowed_iff}

pub record SendInput : Type 0 where
  pub known_network : Bool
  pub declared_mainnet : Bool
  pub chain_id : JsNumber
  pub want_send : Bool
  pub signer : Option String
  pub owner : String

pub data SendReason : Type 0 where
  print_mode : SendReason
  declared_as_mainnet : JsNumber → SendReason
  chain_refused : Reason → SendReason
  unknown_network : SendReason
  no_signer : SendReason
  not_owner : String → String → SendReason
  sending : SendReason

pub record SendDecision : Type 0 where
  pub send : Bool
  pub reason : SendReason

abbrev pub print_only : SendReason → SendDecision
print_only reason = record { send = false; reason = reason }

-- The last two tests; an empty signer counts as none.
unfoldable pub judge_signer : Option String → String → SendDecision
judge_signer none owner = print_only no_signer
judge_signer (some signer) owner =
    if signer == ""
    then print_only no_signer
    else if not (eq_ignore_case signer owner)
    then print_only (not_owner signer owner)
    else record { send = true; reason = sending }

unfoldable pub can_send : SendInput → SendDecision
unfolding judge_signer
can_send i =
    if not i.want_send
    then print_only print_mode
    else if i.declared_mainnet || not (judge_chain (some i.chain_id) none).allowed
    then print_only (
        if i.declared_mainnet
        then declared_as_mainnet i.chain_id
        else chain_refused (judge_chain (some i.chain_id) none).reason)
    else if not i.known_network
    then print_only unknown_network
    else judge_signer i.signer i.owner

-- The signer is a key's address, and the owner's but for the case of its letters.
abbrev pub IsOwnerKey : Option String → String → Type 0
IsOwnerKey none owner = ⊥
IsOwnerKey (some s) owner = (s ≢ "") × (to_lower s ≡ to_lower owner)

judge_signer_iff :
    (signer : Option String) (owner : String)
    → ((judge_signer signer owner).send ≡ true) ↔ IsOwnerKey signer owner
unfolding judge_signer eq_ignore_case
judge_signer_iff none owner = ground arith
judge_signer_iff (some s) owner = ground (arith, eq_iff s "", eq_iff (to_lower s) (to_lower owner))

-- Every condition for a send.
pub record MaySend (i : SendInput) : Type 0 where
  pub wanted : i.want_send ≡ true
  pub not_mainnet : i.declared_mainnet ≡ false
  pub chain : (judge_chain (some i.chain_id) none).allowed ≡ true
  pub known : i.known_network ≡ true
  pub signer : IsOwnerKey i.signer i.owner

can_send-MaySend_iff : (i : SendInput) → ((can_send i).send ≡ true) ↔ MaySend i
unfolding can_send
can_send-MaySend_iff i = ground (arith, judge_signer_iff i.signer i.owner)

-- The planned calls are sent exactly when `--send` was given, the network is a known one and not
-- declared mainnet, the chain reports the id of an allowlisted testnet other than 7531 (the extra
-- variable plays no part), and a key is present whose address is the owner's, letter case aside.
pub can_send-send_iff :
    (i : SendInput)
    → ((can_send i).send ≡ true) ↔ (
        (i.want_send ≡ true)
        × (i.known_network ≡ true)
        × (i.declared_mainnet ≡ false)
        × ((n : ℕ) × (i.chain_id ≡ whole n) × IsSendable none n)
        × IsOwnerKey i.signer i.owner)
can_send-send_iff i = (
  λ h.
      let m = (can_send-MaySend_iff i).0 h in
      let (n, e, s) = (judge_chain-allowed_iff (some i.chain_id) none).0 m.chain in
      (m.wanted, m.known, m.not_mainnet, (n, cc, s), m.signer),
  λ (w, k, d, (n, e, s), o). (can_send-MaySend_iff i).1 (record {
    wanted = w;
    not_mainnet = d;
    chain = (judge_chain-allowed_iff (some i.chain_id) none).1 (n, cc, s);
    known = k;
    signer = o;
  }),
)
