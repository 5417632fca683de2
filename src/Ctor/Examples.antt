-- ===== src/Ctor/Examples.antt =====
-- The constructor arguments with concrete keys.
use rome_solidity.Prelude.{String, ◌≡◌, refl, [], ◌∷◌, ok, err, nat_eq, string_eq}
use rome_solidity.Ctor.{
  program_ids_for, is_solana_devnet_network, wormhole_target_chain_for, WithdrawCtorInput, CtorArgs,
  universal_for, assemble, build_withdraw_constructor_args,
}
use rome_solidity.Ctor.Pdas.{
  Solana, hex_of, base58_to_bytes32, derive_cctp_accounts, derive_wormhole_global_accounts,
  wrong_length,
}
use rome_solidity.Ctor.Built.{IsBuiltFrom, build_withdraw_constructor_args-IsBuiltFrom}

abbrev key_bytes : String
key_bytes = "0x0000000000000000000000000000000000000000000000000000000000000001"

-- Every key has the same 32 bytes.
abbrev keys : Solana
keys = record {
  bs58_decode = λ s. ok (
      0 ∷ 0 ∷ 0 ∷ 0 ∷ 0 ∷ 0 ∷ 0 ∷ 0 ∷ 0 ∷ 0 ∷ 0 ∷ 0 ∷ 0 ∷ 0 ∷ 0 ∷ 0 ∷ 0 ∷ 0 ∷ 0 ∷ 0 ∷ 0 ∷ 0 ∷ 0 ∷ 0
      ∷ 0 ∷ 0 ∷ 0 ∷ 0 ∷ 0 ∷ 0 ∷ 0 ∷ 1 ∷ []);
  public_key = λ s. ok s;
  pda = λ seeds program. program;
}

abbrev input : WithdrawCtorInput
input = record {
  network_name = "hadrian";
  usdc_wrapper = "0xa3";
  usdc_mint_base58 = "EPj";
  owner = "0xA1";
  guardian = "0xa2";
}

abbrev output : CtorArgs
output = record {
  forwarder = "0x0000000000000000000000000000000000000000";
  usdc = "0xa3";
  cctp = record {
    token_messenger_program = key_bytes;
    message_transmitter_program = key_bytes;
    spl_token_program = key_bytes;
    system_program = key_bytes;
    message_transmitter_config = key_bytes;
    token_messenger_config = key_bytes;
    token_minter = key_bytes;
    local_token_usdc = key_bytes;
    sender_authority_pda = key_bytes;
    event_authority = key_bytes;
    message_transmitter_event_authority = key_bytes;
  };
  wormhole = record {
    token_bridge_program = key_bytes;
    core_program = key_bytes;
    spl_token_program = key_bytes;
    system_program = key_bytes;
    clock_sysvar = key_bytes;
    rent_sysvar = key_bytes;
    config = key_bytes;
    authority_signer = key_bytes;
    custody_signer = key_bytes;
    bridge_config = key_bytes;
    fee_collector = key_bytes;
    emitter = key_bytes;
    sequence = key_bytes;
  };
  wormhole_generic = record { admin = "0xA1"; target_chains = []; asset_wrappers = [] };
  guardian = "0xa2";
}

built : build_withdraw_constructor_args keys input ≡ ok output
unfolding build_withdraw_constructor_args universal_for assemble program_ids_for
    derive_cctp_accounts derive_wormhole_global_accounts base58_to_bytes32 hex_of
built = refl

build_withdraw_constructor_args-IsBuiltFrom_example : IsBuiltFrom keys input output
build_withdraw_constructor_args-IsBuiltFrom_example =
    build_withdraw_constructor_args-IsBuiltFrom keys input output built

short_key :
    base58_to_bytes32 (record keys { bs58_decode = λ s. ok (7 ∷ 8 ∷ []) }) "a"
    ≡ err (wrong_length 2 "a")
unfolding base58_to_bytes32
short_key = refl

sepolia : wormhole_target_chain_for "martius" ≡ 10002
unfolding wormhole_target_chain_for is_solana_devnet_network
sepolia = refl

ethereum : wormhole_target_chain_for "rubicon" ≡ 2
unfolding wormhole_target_chain_for is_solana_devnet_network
ethereum = refl
