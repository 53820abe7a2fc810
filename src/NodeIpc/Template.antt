-- ===== src/NodeIpc/Template.antt =====
-- The data that pool/src/node_ipc.rs exchanges with the server: `RawTemplate`, with the two messages of
-- template_distribution_sv2 that it holds, and `SubmitSolutionData`.
use mining_pool.Base.{ℕ, Bool, List}
use mining_pool.Bitcoin.{Bytes}

pub record NewTemplate : Type 0 where
  pub template_id : ℕ
  pub future_template : Bool
  pub version : ℕ
  pub coinbase_tx_version : ℕ
  pub coinbase_prefix : Bytes
  pub coinbase_tx_input_sequence : ℕ
  pub coinbase_tx_value_remaining : ℕ
  pub coinbase_tx_outputs_count : ℕ
  pub coinbase_tx_outputs : Bytes
  pub coinbase_tx_locktime : ℕ
  pub merkle_path : List Bytes

pub record SetNewPrevHash : Type 0 where
  pub template_id : ℕ
  pub prev_hash : Bytes
  pub header_timestamp : ℕ
  pub n_bits : ℕ
  pub target : Bytes

pub record RawTemplate : Type 0 where
  pub new_template : NewTemplate
  pub set_new_prev_hash : SetNewPrevHash

pub record SubmitSolutionData : Type 0 where
  pub template_id : ℕ
  pub version : ℕ
  pub header_timestamp : ℕ
  pub header_nonce : ℕ
  pub coinbase_tx : Bytes
