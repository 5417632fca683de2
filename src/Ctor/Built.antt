-- ===== src/Ctor/Built.antt =====
-- What the constructor arguments are built from.
use rome_solidity.Prelude.{
  ◌⊎◌, inl, inr, true, false, Bool-cases, contains, string_eq, String, ◌≡◌, refl, [], ◌∷◌, arith,
  Result, ok, >>=-eq-ok, subst,
}
use rome_solidity.Ctor.{
  solana_devnet_networks, CctpParams, WormholeParams, program_ids_for, Universal, WithdrawCtorInput,
  CtorArgs, universal_for, assemble, build_withdraw_constructor_args,
}
use rome_solidity.Ctor.Pdas.{
  Solana, CtorError, text, key, base58_to_bytes32, CctpPdas, WormholePdas, derive_cctp_accounts,
  derive_wormhole_global_accounts,
}

-- The Wormhole programs of a network's cluster
abbrev pub IsCluster : String → String → String → Type 0
IsCluster name bridge core =
    ((contains ("local" ∷ "subura" ∷ "esquiline" ∷ "hadrian" ∷ "martius" ∷ "nerva" ∷ []) name
        ≡ true)
      × (bridge ≡ "DZnkkTmCiFWfYTfT41X3Rd1kDgozqzxWaHqsw6W4x2oe")
      × (core ≡ "3u8hJUVTA4jH1wYAyUur7FFZVQ8H635K3tSHHF4ssjQ5"))
    ⊎ ((contains ("local" ∷ "subura" ∷ "esquiline" ∷ "hadrian" ∷ "martius" ∷ "nerva" ∷ []) name
          ≡ false)
        × (bridge ≡ "wormDTUJ6AWPNvk59vGQbDvGJmqbDTdgWgAqcLBCgUb")
        × (core ≡ "worm2ZoG2kUd4vFXhvjh93UUH596ayRfgQ2MgjNMTth"))

program_ids_for-IsCluster :
    (name : String)
    → IsCluster name
        (program_ids_for name).wormhole_token_bridge
        (program_ids_for name).wormhole_core
unfolding program_ids_for
program_ids_for-IsCluster name = elim (Bool-cases (contains solana_devnet_networks name)) [
  | inl devnet ↦ inl (devnet, rw devnet refl, rw devnet refl)
  | inr mainnet ↦ inr (mainnet, rw mainnet refl, rw mainnet refl)
]

cctp_programs :
    (name : String)
    → ((program_ids_for name).cctp_v2_token_messenger
        ≡ "CCTPV2vPZJS2u2BBsUoscuikbYjnpFmbFsvVuJdgUMQe")
      × ((program_ids_for name).cctp_v2_message_transmitter
          ≡ "CCTPV2Sm4AdWt5296sk4P66VBZ7bEhcARwFaaS9YPbeC")
unfolding program_ids_for
cctp_programs name = elim (Bool-cases (contains solana_devnet_networks name)) [
  | inl devnet ↦ (rw devnet refl, rw devnet refl)
  | inr mainnet ↦ (rw mainnet refl, rw mainnet refl)
]

module _ (solana : Solana) where
  -- The bytes32 of a key in base58
  abbrev pub Decodes : String → String → Type 0
  Decodes base58 bytes = base58_to_bytes32 solana base58 ≡ ok bytes

  -- The accounts of CCTP for a mint, each under its program
  pub record AreCctpAccounts (mint : String) (c : CctpParams) : Type 0 where
    pub message_transmitter_config :
        Decodes
          (solana.pda
            (text "message_transmitter" ∷ [])
            "CCTPV2Sm4AdWt5296sk4P66VBZ7bEhcARwFaaS9YPbeC")
          c.message_transmitter_config
    pub token_messenger_config :
        Decodes
          (solana.pda (text "token_messenger" ∷ []) "CCTPV2vPZJS2u2BBsUoscuikbYjnpFmbFsvVuJdgUMQe")
          c.token_messenger_config
    pub token_minter :
        Decodes
          (solana.pda (text "token_minter" ∷ []) "CCTPV2vPZJS2u2BBsUoscuikbYjnpFmbFsvVuJdgUMQe")
          c.token_minter
    pub local_token_usdc :
        Decodes
          (solana.pda
            (text "local_token" ∷ key mint ∷ [])
            "CCTPV2vPZJS2u2BBsUoscuikbYjnpFmbFsvVuJdgUMQe")
          c.local_token_usdc
    pub sender_authority_pda :
        Decodes
          (solana.pda (text "sender_authority" ∷ []) "CCTPV2vPZJS2u2BBsUoscuikbYjnpFmbFsvVuJdgUMQe")
          c.sender_authority_pda
    pub event_authority :
        Decodes
          (solana.pda
            (text "__event_authority" ∷ [])
            "CCTPV2vPZJS2u2BBsUoscuikbYjnpFmbFsvVuJdgUMQe")
          c.event_authority
    pub message_transmitter_event_authority :
        Decodes
          (solana.pda
            (text "__event_authority" ∷ [])
            "CCTPV2Sm4AdWt5296sk4P66VBZ7bEhcARwFaaS9YPbeC")
          c.message_transmitter_event_authority

  -- The accounts of Wormhole, each under its program
  pub record AreWormholeAccounts (bridge core : String) (w : WormholeParams) : Type 0 where
    pub config : Decodes (solana.pda (text "config" ∷ []) bridge) w.config
    pub authority_signer :
        Decodes (solana.pda (text "authority_signer" ∷ []) bridge) w.authority_signer
    pub custody_signer : Decodes (solana.pda (text "custody_signer" ∷ []) bridge) w.custody_signer
    pub bridge_config : Decodes (solana.pda (text "Bridge" ∷ []) core) w.bridge_config
    pub fee_collector : Decodes (solana.pda (text "fee_collector" ∷ []) core) w.fee_collector
    pub emitter : Decodes (solana.pda (text "emitter" ∷ []) bridge) w.emitter
    pub sequence :
        Decodes
          (solana.pda (text "Sequence" ∷ key (solana.pda (text "emitter" ∷ []) bridge) ∷ []) core)
          w.sequence

  pub record IsBuiltFrom (i : WithdrawCtorInput) (args : CtorArgs) : Type 0 where
    pub no_forwarder : args.forwarder ≡ "0x0000000000000000000000000000000000000000"
    pub usdc : args.usdc ≡ i.usdc_wrapper
    pub admin : args.wormhole_generic.admin ≡ i.owner
    pub no_chains : args.wormhole_generic.target_chains ≡ []
    pub no_assets : args.wormhole_generic.asset_wrappers ≡ []
    pub guardian : args.guardian ≡ i.guardian
    pub messenger :
        Decodes "CCTPV2vPZJS2u2BBsUoscuikbYjnpFmbFsvVuJdgUMQe" args.cctp.token_messenger_program
    pub transmitter :
        Decodes "CCTPV2Sm4AdWt5296sk4P66VBZ7bEhcARwFaaS9YPbeC" args.cctp.message_transmitter_program
    pub cctp_accounts :
        (mint : String) × (solana.public_key i.usdc_mint_base58 ≡ ok mint)
        × AreCctpAccounts mint args.cctp
    pub wormhole :
        (bridge : String) × (core : String) × IsCluster i.network_name bridge core
        × Decodes bridge args.wormhole.token_bridge_program
        × Decodes core args.wormhole.core_program
        × ((b : String) × (c : String) × (solana.public_key bridge ≡ ok b)
            × (solana.public_key core ≡ ok c)
            × AreWormholeAccounts b c args.wormhole)

  universal_lem :
      (name : String) (u : Universal)
      → universal_for solana name ≡ ok u
      → Decodes (program_ids_for name).wormhole_core u.wormhole_core_program
        × Decodes (program_ids_for name).wormhole_token_bridge u.wormhole_token_bridge_program
        × Decodes (program_ids_for name).cctp_v2_token_messenger u.cctp_token_messenger_program
        × Decodes
            (program_ids_for name).cctp_v2_message_transmitter
            u.cctp_message_transmitter_program
  unfolding universal_for
  universal_lem name u h = ground arith

  cctp_lem :
      (i : WithdrawCtorInput) (mint : String) (c : CctpPdas) (w : WormholePdas) (u : Universal)
      → derive_cctp_accounts solana mint ≡ ok c
      → AreCctpAccounts mint (assemble solana i c w u).cctp
  unfolding derive_cctp_accounts assemble
  cctp_lem i mint c w u h = record {
    message_transmitter_config = ground arith;
    token_messenger_config = ground arith;
    token_minter = ground arith;
    local_token_usdc = ground arith;
    sender_authority_pda = ground arith;
    event_authority = ground arith;
    message_transmitter_event_authority = ground arith;
  }

  wormhole_lem :
      (i : WithdrawCtorInput) (bridge core : String) (c : CctpPdas) (w : WormholePdas)
      (u : Universal)
      → derive_wormhole_global_accounts solana bridge core ≡ ok w
      → (b : String) × (k : String) × (solana.public_key bridge ≡ ok b)
        × (solana.public_key core ≡ ok k)
        × AreWormholeAccounts b k (assemble solana i c w u).wormhole
  unfolding derive_wormhole_global_accounts assemble
  wormhole_lem i bridge core c w u h =
      let (b, e₁, h₁) = >>=-eq-ok (solana.public_key bridge) _ h in
      let (k, e₂, h₂) = >>=-eq-ok (solana.public_key core) _ h₁ in
      (
        b,
        k,
        e₁,
        e₂,
        record {
          config = ground arith;
          authority_signer = ground arith;
          custody_signer = ground arith;
          bridge_config = ground arith;
          fee_collector = ground arith;
          emitter = ground arith;
          sequence = ground arith;
        },
      )

  -- Arguments that are built have the zero forwarder, the given wrapper, the owner as the Wormhole admin,
  -- empty Wormhole lists and the given guardian. Their CCTP programs are the two of CCTP v2 and their
  -- Wormhole programs those of Solana devnet for the six test networks and of mainnet for the others, and
  -- every CCTP and Wormhole account is derived from its seeds under its program, the local-token account
  -- from the given mint.
  pub build_withdraw_constructor_args-IsBuiltFrom :
      (i : WithdrawCtorInput) (args : CtorArgs)
      → build_withdraw_constructor_args solana i ≡ ok args
      → IsBuiltFrom i args
  unfolding build_withdraw_constructor_args program_ids_for assemble
  build_withdraw_constructor_args-IsBuiltFrom i args h =
      let ids = program_ids_for i.network_name in
      let (mint, e₁, h₁) = >>=-eq-ok (solana.public_key i.usdc_mint_base58) _ h in
      let (cctp, e₂, h₂) = >>=-eq-ok (derive_cctp_accounts solana mint) _ h₁ in
      let (wormhole, e₃, h₃) =
        >>=-eq-ok
          (derive_wormhole_global_accounts solana ids.wormhole_token_bridge ids.wormhole_core) _
          h₂ in
      let (u, e₄, h₄) = >>=-eq-ok (universal_for solana i.network_name) _ h₃ in
      let (core, bridge, messenger, transmitter) = universal_lem i.network_name u e₄ in
      let (m, t) = cctp_programs i.network_name in
      subst (IsBuiltFrom i) (inner h₄) (record {
        no_forwarder = refl;
        usdc = refl;
        admin = refl;
        no_chains = refl;
        no_assets = refl;
        guardian = refl;
        messenger = subst (λ p. Decodes p u.cctp_token_messenger_program) m messenger;
        transmitter = subst (λ p. Decodes p u.cctp_message_transmitter_program) t transmitter;
        cctp_accounts = (mint, e₁, cctp_lem i mint cctp wormhole u e₂);
        wormhole = (
          ids.wormhole_token_bridge,
          ids.wormhole_core,
          program_ids_for-IsCluster i.network_name,
          bridge,
          core,
          wormhole_lem i ids.wormhole_token_bridge ids.wormhole_core cctp wormhole u e₃,
        );
      })
    where
      inner : {a b : CtorArgs} → ◌≡◌ {A = Result CtorError CtorArgs} (ok a) (ok b) → a ≡ b
      inner e = cc
