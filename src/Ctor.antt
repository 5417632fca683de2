-- ===== src/Ctor.antt =====
-- scripts/bridge/lib/withdraw-ctor-args.ts, with scripts/bridge/derive, scripts/bridge/constants.ts,
-- scripts/bridge/lib/wormhole-target-chain.ts and scripts/lib/pubkey.ts: the constructor arguments
-- of RomeBridgeWithdraw.
pub mod Pdas
pub mod Built
mod Examples
use rome_solidity.Prelude.{
  ℕ, String, Bool, true, false, ◌==◌, string_eq, if◌then◌else◌, List, [], ◌∷◌, contains, Result, ok,
  err, ◌>>=◌,
}
use rome_solidity.Ctor.Pdas.{
  Solana, CtorError, base58_to_bytes32, ProgramIds, program_ids, program_ids_devnet, CctpPdas,
  WormholePdas, derive_cctp_accounts, derive_wormhole_global_accounts,
}

abbrev pub zero_address : String
zero_address = "0x0000000000000000000000000000000000000000"

abbrev pub solana_devnet_networks : List String
solana_devnet_networks = "local" ∷ "subura" ∷ "esquiline" ∷ "hadrian" ∷ "martius" ∷ "nerva" ∷ []

unfoldable pub is_solana_devnet_network : String → Bool
is_solana_devnet_network name = contains solana_devnet_networks name

unfoldable pub wormhole_target_chain_for : String → ℕ
wormhole_target_chain_for name = if is_solana_devnet_network name then 10002 else 2

unfoldable pub program_ids_for : String → ProgramIds
program_ids_for name =
    if contains solana_devnet_networks name then program_ids_devnet else program_ids

pub record Universal : Type 0 where
  pub spl_token_program : String
  pub system_program : String
  pub wormhole_token_bridge_program : String
  pub cctp_token_messenger_program : String
  pub cctp_message_transmitter_program : String
  pub wormhole_core_program : String
  pub clock_sysvar : String
  pub rent_sysvar : String

pub record CctpParams : Type 0 where
  pub token_messenger_program : String
  pub message_transmitter_program : String
  pub spl_token_program : String
  pub system_program : String
  pub message_transmitter_config : String
  pub token_messenger_config : String
  pub token_minter : String
  pub local_token_usdc : String
  pub sender_authority_pda : String
  pub event_authority : String
  pub message_transmitter_event_authority : String

pub record WormholeParams : Type 0 where
  pub token_bridge_program : String
  pub core_program : String
  pub spl_token_program : String
  pub system_program : String
  pub clock_sysvar : String
  pub rent_sysvar : String
  pub config : String
  pub authority_signer : String
  pub custody_signer : String
  pub bridge_config : String
  pub fee_collector : String
  pub emitter : String
  pub sequence : String

pub record WormholeGeneric : Type 0 where
  pub admin : String
  pub target_chains : List ℕ
  pub asset_wrappers : List String

pub record WithdrawCtorInput : Type 0 where
  pub network_name : String
  pub usdc_wrapper : String
  pub usdc_mint_base58 : String
  pub owner : String
  pub guardian : String

-- The six constructor arguments, in order
pub record CtorArgs : Type 0 where
  pub forwarder : String
  pub usdc : String
  pub cctp : CctpParams
  pub wormhole : WormholeParams
  pub wormhole_generic : WormholeGeneric
  pub guardian : String

module _ (solana : Solana) where
  unfoldable pub universal_for : String → Result CtorError Universal
  universal_for name = do
    let ids = program_ids_for name
    spl ← base58_to_bytes32 solana ids.spl_token
    system ← base58_to_bytes32 solana ids.system_program
    bridge ← base58_to_bytes32 solana ids.wormhole_token_bridge
    messenger ← base58_to_bytes32 solana ids.cctp_v2_token_messenger
    transmitter ← base58_to_bytes32 solana ids.cctp_v2_message_transmitter
    core ← base58_to_bytes32 solana ids.wormhole_core
    clock ← base58_to_bytes32 solana "SysvarC1ock11111111111111111111111111111111"
    rent ← base58_to_bytes32 solana "SysvarRent111111111111111111111111111111111"
    ok (record {
      spl_token_program = spl;
      system_program = system;
      wormhole_token_bridge_program = bridge;
      cctp_token_messenger_program = messenger;
      cctp_message_transmitter_program = transmitter;
      wormhole_core_program = core;
      clock_sysvar = clock;
      rent_sysvar = rent;
    })

  -- The arguments from their parts
  unfoldable pub assemble : WithdrawCtorInput → CctpPdas → WormholePdas → Universal → CtorArgs
  assemble i cctp wormhole u = record {
    forwarder = zero_address;
    usdc = i.usdc_wrapper;
    cctp = record {
      token_messenger_program = u.cctp_token_messenger_program;
      message_transmitter_program = u.cctp_message_transmitter_program;
      spl_token_program = u.spl_token_program;
      system_program = u.system_program;
      message_transmitter_config = cctp.message_transmitter_config;
      token_messenger_config = cctp.token_messenger_config;
      token_minter = cctp.token_minter;
      local_token_usdc = cctp.local_token_usdc;
      sender_authority_pda = cctp.sender_authority_pda;
      event_authority = cctp.event_authority;
      message_transmitter_event_authority = cctp.message_transmitter_event_authority;
    };
    wormhole = record {
      token_bridge_program = u.wormhole_token_bridge_program;
      core_program = u.wormhole_core_program;
      spl_token_program = u.spl_token_program;
      system_program = u.system_program;
      clock_sysvar = u.clock_sysvar;
      rent_sysvar = u.rent_sysvar;
      config = wormhole.config;
      authority_signer = wormhole.authority_signer;
      custody_signer = wormhole.custody_signer;
      bridge_config = wormhole.bridge_config;
      fee_collector = wormhole.fee_collector;
      emitter = wormhole.emitter;
      sequence = wormhole.sequence;
    };
    wormhole_generic = record { admin = i.owner; target_chains = []; asset_wrappers = [] };
    guardian = i.guardian;
  }

  unfoldable pub build_withdraw_constructor_args : WithdrawCtorInput → Result CtorError CtorArgs
  build_withdraw_constructor_args i = do
    let ids = program_ids_for i.network_name
    mint ← solana.public_key i.usdc_mint_base58
    cctp ← derive_cctp_accounts solana mint
    wormhole ← derive_wormhole_global_accounts solana ids.wormhole_token_bridge ids.wormhole_core
    universal ← universal_for i.network_name
    ok (assemble i cctp wormhole universal)
