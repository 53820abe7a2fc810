-- ===== src/Stratum/Protocol.antt =====
-- The messages that pool/src/stratum_sv2.rs reads and writes, as far as it looks into them, and their
-- parsers, which the crates binary_sv2, common_messages_sv2 and mining_sv2 provide.
use mining_pool.Base.{ℕ, Bool, Option, List}
use mining_pool.Bitcoin.{Bytes}

-- A frame after decryption: a message type, if the header is there, and a payload.
pub data EitherFrame : Type 0 where
  handshake : EitherFrame
  sv2 : Option ℕ → Bytes → EitherFrame

pub data Protocol : Type 0 where
  mining_protocol other_protocol : Protocol

pub record SetupConnection : Type 0 where
  pub protocol : Protocol
  pub min_version : ℕ
  pub max_version : ℕ

pub record OpenExtendedMiningChannel (F32 : Type 0) : Type 0 where
  pub request_id : ℕ
  pub user_identity : Bytes
  pub nominal_hash_rate : F32

pub record SubmitSharesExtended : Type 0 where
  pub channel_id : ℕ
  pub sequence_number : ℕ
  pub job_id : ℕ
  pub nonce : ℕ
  pub ntime : ℕ
  pub version : ℕ
  pub extranonce : Bytes

-- `binary_sv2::from_bytes` at the three messages, and the numbers of the message types.
pub record Codec (F32 : Type 0) : Type 0 where
  pub parse_setup_connection : Bytes → Option SetupConnection
  pub parse_open_extended_mining_channel : Bytes → Option (OpenExtendedMiningChannel F32)
  pub parse_submit_shares_extended : Bytes → Option SubmitSharesExtended
  pub type_setup_connection : ℕ
  pub type_open_extended_mining_channel : ℕ
  pub type_submit_shares_extended : ℕ

-- The error codes, by their text.
pub data Code : Type 0 where
  unsupported_message unsupported_protocol protocol_version_mismatch : Code
  stale_share_before_activation difficulty_too_low : Code

pub record NewExtendedMiningJob : Type 0 where
  pub channel_id : ℕ
  pub job_id : ℕ
  pub min_ntime : Option ℕ
  pub version : ℕ
  pub version_rolling_allowed : Bool
  pub merkle_path : List Bytes
  pub coinbase_tx_prefix : Bytes
  pub coinbase_tx_suffix : Bytes

pub record MiningSetNewPrevHash : Type 0 where
  pub channel_id : ℕ
  pub job_id : ℕ
  pub prev_hash : Bytes
  pub min_ntime : ℕ
  pub nbits : ℕ

pub record OpenSuccess : Type 0 where
  pub request_id : ℕ
  pub channel_id : ℕ
  pub target : Bytes
  pub extranonce_size : ℕ
  pub extranonce_prefix : Bytes
  pub group_channel_id : ℕ

-- What the server writes. The numbers are the fields in the order of the source.
pub data Message : Type 0 where
  setup_error : (flags : ℕ) (error_code : Code) → Message
  setup_success : (used_version flags : ℕ) → Message
  open_success : OpenSuccess → Message
  new_job : NewExtendedMiningJob → Message
  new_prev_hash : MiningSetNewPrevHash → Message
  shares_error : (channel_id sequence_number : ℕ) (error_code : Code) → Message
  shares_success :
      (channel_id last_sequence_number new_submits_accepted_count new_shares_sum : ℕ) → Message
