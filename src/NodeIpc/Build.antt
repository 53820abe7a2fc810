-- ===== src/NodeIpc/Build.antt =====
-- `build_raw_template`, `fetch_template` and `new_block_client` of pool/src/node_ipc.rs: a block template from
-- what the node returns.
pub mod Laws
use mining_pool.Base.{
  ℕ, ◌*◌, ◌%◌, ◌^◌, ◌≡◌, ◌⊎◌, inl, inr, refl, Bool, true, false, ◌&&◌, Option, none, some, List, [],
  ◌∷◌, ◌++◌, map, ltb, ◌==◌, if◌then◌else◌, length,
}
use mining_pool.Bitcoin.{Bytes, TxOut, TxIn, Transaction, BlockHeader, BitcoinLib}
use mining_pool.NodeIpc.Template.{NewTemplate, SetNewPrevHash, RawTemplate}

pub data IpcError : Type 0 where
  rpc_failed header_unreadable coinbase_unreadable value_overflow : IpcError
  prefix_too_long outputs_too_long merkle_hash_error merkle_path_error no_input : IpcError

pub data Result (A : Type 0) : Type 0 where
  ready : A → Result A
  failed : IpcError → Result A

pub Result-cases :
    {A : Type 0} (r : Result A) → ((e : IpcError) × (r ≡ failed e)) ⊎ ((a : A) × (r ≡ ready a))
Result-cases (failed e) = inl (e, refl)
Result-cases (ready a) = inr (a, refl)

-- What the crate bitcoin does for the connection: `consensus::deserialize` of a header and of a transaction,
-- `checked_sum` of amounts, `Target::from(bits).to_le_bytes()`.
pub record NodeLib : Type 0 where
  pub read_header : Bytes → Option BlockHeader
  pub read_tx : Bytes → Option Transaction
  pub checked_sum : List ℕ → Option ℕ
  pub target_le_bytes : ℕ → Bytes

-- A block on the node, as what its calls return, `none` for an error. The number stands for the handle.
pub record BlockClient : Type 0 where
  pub handle : ℕ
  pub get_block_header : Option Bytes
  pub get_coinbase_tx : Option Bytes
  pub get_coinbase_merkle_path : Option (List Bytes)

abbrev pub weight_factor : ℕ
weight_factor = 4

abbrev pub min_block_reserved_weight : ℕ
min_block_reserved_weight = 2000

-- The weight that `new_block_client` reserves; the product is a `u32`.
unfoldable pub reserved_weight : ℕ → ℕ
reserved_weight coinbase_output_max_size =
    let product : ℕ = (coinbase_output_max_size * weight_factor) % 2 ^ 32 in
    if ltb product min_block_reserved_weight then min_block_reserved_weight else product

unfoldable pub empty_outputs : List TxOut → List TxOut
empty_outputs [] = []
empty_outputs (o ∷ os) =
    let rest : List TxOut = empty_outputs os in if o.value == 0 then o ∷ rest else rest

abbrev require : {A : Type 0} → Bool → IpcError → Result A → Result A
require test e k = if test then k else failed e

abbrev require_some : {A B : Type 0} → Option A → IpcError → (A → Result B) → Result B
require_some none e k = failed e
require_some (some a) e k = k a

module _ (lib : BitcoinLib) (node : NodeLib) where
  unfoldable pub serialized_outputs : List TxOut → Bytes
  serialized_outputs [] = []
  serialized_outputs (o ∷ os) = lib.serialize_out o ++ serialized_outputs os

  unfoldable pub hashes_fit : List Bytes → Bool
  hashes_fit [] = true
  hashes_fit (h ∷ hs) = lib.u256_fits h && hashes_fit hs

  -- The two messages. A version is an `i32` there and the `u32` with the same bits here.
  unfoldable pub raw_template : ℕ → BlockHeader → Transaction → List Bytes → TxIn → ℕ → RawTemplate
  raw_template template_id header cb path input value_remaining = record {
    new_template = record {
      template_id = template_id;
      future_template = true;
      version = header.version;
      coinbase_tx_version = cb.version;
      coinbase_prefix = input.script_sig;
      coinbase_tx_input_sequence = input.sequence;
      coinbase_tx_value_remaining = value_remaining;
      coinbase_tx_outputs_count = length (empty_outputs cb.output) % 2 ^ 32;
      coinbase_tx_outputs = serialized_outputs (empty_outputs cb.output);
      coinbase_tx_locktime = cb.lock_time;
      merkle_path = path;
    };
    set_new_prev_hash = record {
      template_id = template_id;
      prev_hash = header.prev_blockhash;
      header_timestamp = header.time;
      n_bits = header.bits;
      target = node.target_le_bytes header.bits;
    };
  }

  -- `cb.input[0]` panics without an input: `no_input`.
  checked_template : ℕ → BlockHeader → Transaction → List Bytes → ℕ → List TxIn → Result RawTemplate
  checked_template template_id header cb path value_remaining [] = failed no_input
  checked_template template_id header cb path value_remaining (input ∷ inputs) =
      require (lib.b0255_fits input.script_sig) prefix_too_long (
        require (lib.b064k_fits (serialized_outputs (empty_outputs cb.output))) outputs_too_long (
          require (hashes_fit path) merkle_hash_error (
            require (lib.seq0255_fits path) merkle_path_error
              (ready (raw_template template_id header cb path input value_remaining)))))

  unfoldable pub build_raw_template :
      ℕ → BlockHeader → Transaction → List Bytes → Result RawTemplate
  unfolding checked_template
  build_raw_template template_id header cb path =
      require_some (node.checked_sum (map (λ o. o.value) cb.output)) value_overflow
        (λ value_remaining. checked_template template_id header cb path value_remaining cb.input)

  unfoldable pub fetch_template : BlockClient → ℕ → Result RawTemplate
  fetch_template block template_id = require_some block.get_block_header rpc_failed (λ header_bytes.
      require_some (node.read_header header_bytes) header_unreadable (λ header.
        require_some block.get_coinbase_tx rpc_failed (λ cb_bytes.
          require_some (node.read_tx cb_bytes) coinbase_unreadable (λ cb.
            require_some block.get_coinbase_merkle_path rpc_failed
              (λ path. build_raw_template template_id header cb path)))))
