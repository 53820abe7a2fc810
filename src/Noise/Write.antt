-- ===== src/Noise/Write.antt =====
-- `NoiseWriteHalf` of pool/src/noise_connection.rs: messages and raw frames, encoded and written to the socket.
pub mod Written
pub mod Read
use mining_pool.Base.{ℕ, ◌+◌, Bool, Option, none, some, List, [], ◌∷◌, ◌++◌, take, length}
use mining_pool.Bitcoin.{Bytes}

-- framing_sv2: the size of a message's payload, `Sv2Frame::from_message` with the message type, the extension type and
-- the channel bit, and `serialize` into a buffer of a length.
pub record Framing (M F : Type 0) : Type 0 where
  pub header_size : ℕ
  pub get_size : M → ℕ
  pub from_message : M → ℕ → ℕ → Bool → Option F
  pub serialize : F → ℕ → Option Bytes

-- The encoder of codec_sv2 with the cipher state that it is given: what `encode` makes of a frame's bytes, and its
-- state behind that.
pub record Encoder (E : Type 0) : Type 0 where
  pub encode : E → Bytes → Option Bytes × E

-- How a `write_all` ends: with everything written, or with an error behind some bytes.
pub data Writing : Type 0 where
  complete : Writing
  cut_at : ℕ → Writing

-- The bytes that went out on the socket, and how the next writes end; behind the list all are complete.
pub record NoiseWriteHalf (E : Type 0) : Type 0 where
  pub encoder : E
  pub written : Bytes
  pub writings : List Writing

pub data WriteError : Type 0 where
  payload_too_large serialize_error encode_error write_error : WriteError

pub data WriteResult (E : Type 0) : Type 0 where
  wrote : NoiseWriteHalf E → WriteResult E
  unwritten : WriteError → NoiseWriteHalf E → WriteResult E

abbrev pub next_writing : List Writing → Writing
next_writing [] = complete
next_writing (x ∷ xs) = x

abbrev pub later_writings : List Writing → List Writing
later_writings [] = []
later_writings (x ∷ xs) = xs

module _ {E : Type 0} where
  unfoldable pub write_all : Bytes → NoiseWriteHalf E → WriteResult E
  write_all bytes half = elim (next_writing half.writings) [
    | complete ↦
        wrote
          (record half { written = half.written ++ bytes; writings = later_writings half.writings })
    | cut_at n ↦ unwritten write_error (record half {
      written = half.written ++ take n bytes;
      writings = later_writings half.writings;
    })
  ]

  write_encoded : Option Bytes × E → NoiseWriteHalf E → WriteResult E
  write_encoded (none, e) half = unwritten encode_error (record half { encoder = e })
  write_encoded (some encoded, e) half = write_all encoded (record half { encoder = e })

module _ {E : Type 0} (enc : Encoder E) where
  -- `from_bytes_unchecked` takes the bytes as they are.
  unfoldable pub write_raw_frame : Bytes → NoiseWriteHalf E → WriteResult E
  unfolding write_encoded
  write_raw_frame bytes half = write_encoded (enc.encode half.encoder bytes) half

  -- The end of `write_sv2_message` is that of `write_raw_frame`.
  unfoldable pub write_sv2_message :
      {M F : Type 0} → Framing M F → M → ℕ → Bool → NoiseWriteHalf E → WriteResult E
  write_sv2_message framing msg msg_type is_channel_msg half =
      let total_len : ℕ = framing.header_size + framing.get_size msg in
      elim (framing.from_message msg msg_type 0 is_channel_msg) [
        | none ↦ unwritten payload_too_large half
        | some frame ↦ elim (framing.serialize frame total_len) [
          | none ↦ unwritten serialize_error half
          | some dst ↦ write_raw_frame dst half
        ]
      ]
