-- ===== src/Bitcoin.antt =====
-- The third-party code that the pool calls (the crates bitcoin, hex and binary_sv2): its data, and its
-- operations as the fields of a record that the models take as a parameter.
use mining_pool.Base.{
  ℕ, List, Option, Bool, ◌≡◌, [], ◌∷◌, ◌+◌, ◌/◌, ◌%◌, reverse, ltb, if◌then◌else◌,
}

-- Scripts, addresses, hashes and serialized data are byte strings.
abbrev pub Bytes : Type 0
Bytes = List ℕ

pub record TxOut : Type 0 where
  pub value : ℕ
  pub script_pubkey : Bytes

pub record OutPoint : Type 0 where
  pub txid : Bytes
  pub vout : ℕ

pub record TxIn : Type 0 where
  pub previous_output : OutPoint
  pub script_sig : Bytes
  pub sequence : ℕ
  pub witness : List Bytes

pub record Transaction : Type 0 where
  pub version : ℕ
  pub lock_time : ℕ
  pub input : List TxIn
  pub output : List TxOut

pub record BlockHeader : Type 0 where
  pub version : ℕ
  pub prev_blockhash : Bytes
  pub merkle_root : Bytes
  pub time : ℕ
  pub bits : ℕ
  pub nonce : ℕ

pub record BitcoinLib : Type 0 where
  -- `OutPoint::null()`.
  pub null_outpoint : OutPoint
  -- The bytes that `Builder::push_int` and `Builder::push_slice` append to a script.
  pub push_int : ℕ → Bytes
  pub push_slice : Bytes → Bytes
  -- `consensus::serialize` and `consensus::deserialize`; the id of the transaction that was read.
  pub serialize_tx : Transaction → Bytes
  pub serialize_out : TxOut → Bytes
  pub txid_of_bytes : Bytes → Option Bytes
  -- `sha256d::Hash::hash`, and the hash of a header in internal byte order.
  pub sha256d : Bytes → Bytes
  pub block_hash : BlockHeader → Bytes
  -- `Address::from_str(..)` with `assume_checked().script_pubkey()`.
  pub address_script : Bytes → Option Bytes
  -- `hex::decode` and `hex::encode`; a block hash as text.
  pub hex_decode : Bytes → Option Bytes
  pub hex_encode : Bytes → Bytes
  pub display_hash : Bytes → Bytes
  -- What the `try_from` and `new` of binary_sv2 accept as U256, B0255, B064K and Seq0255.
  pub u256_fits : Bytes → Bool
  pub b0255_fits : Bytes → Bool
  pub b064k_fits : Bytes → Bool
  pub seq0255_fits : List Bytes → Bool

-- Rust's f32 and f64 with the operations and constants that the pool uses.
pub record Floats (F32 F64 : Type 0) : Type 0 where
  pub widen : F32 → F64
  pub of_u64 : ℕ → F64
  pub to_u128 : F64 → ℕ
  pub mul : F64 → F64 → F64
  pub div : F64 → F64 → F64
  pub add : F64 → F64 → F64
  pub max : F64 → F64 → F64
  pub zero : F64
  pub one : F64
  pub thirty : F64
  pub sixty : F64
  pub max_value : F64

-- The digits 0-9 and a-f.
abbrev pub hex_digit : ℕ → ℕ
hex_digit n = if ltb n 10 then 48 + n else 87 + n

-- What the pool relies on where it compares hashes as text: two lowercase digits for each byte, and a
-- block hash shown with its last byte first.
pub record IsHex (lib : BitcoinLib) : Type 0 where
  pub encode_nil : lib.hex_encode [] ≡ []
  pub encode_cons :
      (b : ℕ) (bs : Bytes)
      → lib.hex_encode (b ∷ bs) ≡ hex_digit (b / 16) ∷ hex_digit (b % 16) ∷ lib.hex_encode bs
  pub displayed : (h : Bytes) → lib.display_hash h ≡ lib.hex_encode (reverse h)
