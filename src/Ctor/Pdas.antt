-- ===== src/Ctor/Pdas.antt =====
-- scripts/bridge/derive/cctp-accounts.ts, derive/wormhole-accounts.ts, constants.ts and
-- scripts/lib/pubkey.ts: program ids and the derived accounts. The key operations of
-- @solana/web3.js and bs58 are a parameter.
use Prim.Native.Char.{Char}
use Prim.Native.String.{char_at, [], ◌∷◌, ◌++◌}
use rome_solidity.Prelude.{
  ℕ, ◌/◌, ◌%◌, String, ◌==◌, nat_eq, if◌then◌else◌, List, [], ◌∷◌, length, Result, ok, err, ◌>>=◌,
}

pub data CtorError : Type 0 where
  not_base58 : String → CtorError
  wrong_length : ℕ → String → CtorError
  bad_public_key : String → CtorError

-- A seed: a text's bytes, or the bytes of a key
pub data Seed : Type 0 where
  text : String → Seed
  key : String → Seed

pub record Solana : Type 0 where
  -- bs58's `decode`
  pub bs58_decode : String → Result CtorError (List ℕ)
  -- `new PublicKey(s)`, as base58
  pub public_key : String → Result CtorError String
  -- `PublicKey.findProgramAddressSync(seeds, program)[0].toBase58()`
  pub pda : List Seed → String → String

hex_char : ℕ → Char
hex_char n = char_at "0123456789abcdef" n

unfoldable pub hex_of : List ℕ → String
unfolding hex_char
hex_of [] = []
hex_of (b ∷ bs) = hex_char (b / 16) ∷ hex_char (b % 16) ∷ hex_of bs

pub record ProgramIds : Type 0 where
  pub wormhole_core : String
  pub wormhole_token_bridge : String
  pub cctp_v2_token_messenger : String
  pub cctp_v2_message_transmitter : String
  pub spl_token : String
  pub system_program : String

abbrev pub program_ids : ProgramIds
program_ids = record {
  wormhole_core = "worm2ZoG2kUd4vFXhvjh93UUH596ayRfgQ2MgjNMTth";
  wormhole_token_bridge = "wormDTUJ6AWPNvk59vGQbDvGJmqbDTdgWgAqcLBCgUb";
  cctp_v2_token_messenger = "CCTPV2vPZJS2u2BBsUoscuikbYjnpFmbFsvVuJdgUMQe";
  cctp_v2_message_transmitter = "CCTPV2Sm4AdWt5296sk4P66VBZ7bEhcARwFaaS9YPbeC";
  spl_token = "TokenkegQfeZyiNwAJbNbGKPFXCWuBvf9Ss623VQ5DA";
  system_program = "11111111111111111111111111111111";
}

abbrev pub program_ids_devnet : ProgramIds
program_ids_devnet = record program_ids {
  wormhole_core = "3u8hJUVTA4jH1wYAyUur7FFZVQ8H635K3tSHHF4ssjQ5";
  wormhole_token_bridge = "DZnkkTmCiFWfYTfT41X3Rd1kDgozqzxWaHqsw6W4x2oe";
}

pub record CctpPdas : Type 0 where
  pub message_transmitter_config : String
  pub token_messenger_config : String
  pub token_minter : String
  pub local_token_usdc : String
  pub sender_authority_pda : String
  pub event_authority : String
  pub message_transmitter_event_authority : String

pub record WormholePdas : Type 0 where
  pub config : String
  pub authority_signer : String
  pub custody_signer : String
  pub bridge_config : String
  pub fee_collector : String
  pub emitter : String
  pub sequence : String

module _ (solana : Solana) where
  unfoldable pub base58_to_bytes32 : String → Result CtorError String
  base58_to_bytes32 base58 = do
    bytes ← solana.bs58_decode base58
    if length bytes == 32
        then ok ("0x" ++ hex_of bytes)
        else err (wrong_length (length bytes) base58)

  -- A derived account as bytes32
  pda_bytes32 : List Seed → String → Result CtorError String
  pda_bytes32 seeds program = base58_to_bytes32 (solana.pda seeds program)

  -- `deriveCctpAccounts(usdcMint)`, for a deploy: no domains are asked for
  unfoldable pub derive_cctp_accounts : String → Result CtorError CctpPdas
  unfolding pda_bytes32
  derive_cctp_accounts usdc_mint = do
    let messenger = program_ids.cctp_v2_token_messenger
    let transmitter = program_ids.cctp_v2_message_transmitter
    config ← pda_bytes32 (text "message_transmitter" ∷ []) transmitter
    messenger_config ← pda_bytes32 (text "token_messenger" ∷ []) messenger
    minter ← pda_bytes32 (text "token_minter" ∷ []) messenger
    local ← pda_bytes32 (text "local_token" ∷ key usdc_mint ∷ []) messenger
    sender ← pda_bytes32 (text "sender_authority" ∷ []) messenger
    event ← pda_bytes32 (text "__event_authority" ∷ []) messenger
    transmitter_event ← pda_bytes32 (text "__event_authority" ∷ []) transmitter
    ok (record {
      message_transmitter_config = config;
      token_messenger_config = messenger_config;
      token_minter = minter;
      local_token_usdc = local;
      sender_authority_pda = sender;
      event_authority = event;
      message_transmitter_event_authority = transmitter_event;
    })

  unfoldable pub derive_wormhole_global_accounts : String → String → Result CtorError WormholePdas
  unfolding pda_bytes32
  derive_wormhole_global_accounts bridge core = do
    token_bridge ← solana.public_key bridge
    core_bridge ← solana.public_key core
    config ← pda_bytes32 (text "config" ∷ []) token_bridge
    authority ← pda_bytes32 (text "authority_signer" ∷ []) token_bridge
    custody ← pda_bytes32 (text "custody_signer" ∷ []) token_bridge
    bridge_config ← pda_bytes32 (text "Bridge" ∷ []) core_bridge
    collector ← pda_bytes32 (text "fee_collector" ∷ []) core_bridge
    let emitter_key = solana.pda (text "emitter" ∷ []) token_bridge
    emitter ← base58_to_bytes32 emitter_key
    sequence ← pda_bytes32 (text "Sequence" ∷ key emitter_key ∷ []) core_bridge
    ok (record {
      config = config;
      authority_signer = authority;
      custody_signer = custody;
      bridge_config = bridge_config;
      fee_collector = collector;
      emitter = emitter;
      sequence = sequence;
    })
