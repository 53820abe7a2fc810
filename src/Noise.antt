-- ===== src/Noise.antt =====
-- `NoiseReadHalf` of pool/src/noise_connection.rs: reading frames from a socket that delivers bytes in pieces
-- and from a call that can be dropped while it waits.
pub mod Buffer
pub mod Stream
pub mod Write
pub mod Handshake
use mining_pool.Base.{
  ℕ, zero, suc, ◌+◌, ◌-◌, ◌≡◌, Bool, true, false, List, [], ◌∷◌, ◌++◌, ltb, leb, ◌==◌,
  if◌then◌else◌, length, take, drop, replicate,
}
use mining_pool.Bitcoin.{Bytes}

-- What `next_frame` returns for the bytes that were copied into the decoder.
pub data Decoded (D F : Type 0) : Type 0 where
  frame : F → D → Decoded D F
  missing_bytes : D → Decoded D F
  undecodable : D → Decoded D F

-- The decoder of codec_sv2 with the cipher state that it is given: how many bytes it wants next, and
-- `next_frame` after exactly these were copied in.
pub record Decoder (D F : Type 0) : Type 0 where
  pub writable_len : D → ℕ
  pub next_frame : D → Bytes → Decoded D F

pub record NoiseReadHalf (D : Type 0) : Type 0 where
  pub decoder : D
  pub buf : Bytes
  pub bytes_read : ℕ

-- The pieces in which the socket delivers; an empty piece is its end.
abbrev pub Socket : Type 0
Socket = List Bytes

-- How a call ends: with a frame, by waiting for more (where the caller can drop it), at the end of the
-- socket, with a frame that does not decode, or without fuel.
pub data ReadResult (D F : Type 0) : Type 0 where
  got : F → NoiseReadHalf D → Socket → ReadResult D F
  waiting : NoiseReadHalf D → ReadResult D F
  closed : NoiseReadHalf D → ReadResult D F
  broken : NoiseReadHalf D → Socket → ReadResult D F
  out_of_fuel : ReadResult D F

-- The buffer filled, or not.
pub data Filled (D : Type 0) : Type 0 where
  full : NoiseReadHalf D → Socket → Filled D
  partial : NoiseReadHalf D → Filled D
  ended : NoiseReadHalf D → Filled D

module _ {D F : Type 0} (dec : Decoder D F) where
  -- `buf.resize(expected, 0)` where the length differs.
  unfoldable pub prepare : NoiseReadHalf D → NoiseReadHalf D
  prepare half =
      let expected : ℕ = dec.writable_len half.decoder in
      if length half.buf == expected
      then half
      else record half { buf = take expected (half.buf ++ replicate expected 0); bytes_read = 0 }

  -- A read of some bytes into the buffer behind those that are there.
  store : Bytes → NoiseReadHalf D → NoiseReadHalf D
  store piece half = record half {
    buf =
        take half.bytes_read half.buf ++ (piece ++ drop (half.bytes_read + length piece) half.buf);
    bytes_read = half.bytes_read + length piece;
  }

  -- The inner loop. A read takes no more than there is room for.
  unfoldable pub fill : ℕ → NoiseReadHalf D → Socket → Filled D
  unfolding store
  fill expected half [] = if ltb half.bytes_read expected then partial half else full half []
  fill expected half (piece ∷ socket) =
      let room : ℕ = expected - half.bytes_read in
      let rest = fill expected (store piece half) socket in
      if ltb half.bytes_read expected
      then (if length piece == 0
          then ended half
          else (if leb (length piece) room
              then rest
              else full (store (take room piece) half) (drop room piece ∷ socket)))
      else full half (piece ∷ socket)

  -- What the loop does with the decoder's answer, `again` being its next turn.
  decoded :
      (NoiseReadHalf D → Socket → ReadResult D F)
      → NoiseReadHalf D
      → Socket
      → Decoded D F
      → ReadResult D F
  decoded again half socket (frame f d) = got f (record half { decoder = d; bytes_read = 0 }) socket
  decoded again half socket (missing_bytes d) =
      again (record half { decoder = d; bytes_read = 0 }) socket
  decoded again half socket (undecodable d) =
      broken (record half { decoder = d; bytes_read = 0 }) socket

  filled : (NoiseReadHalf D → Socket → ReadResult D F) → Filled D → ReadResult D F
  unfolding decoded
  filled again (partial half) = waiting half
  filled again (ended half) = closed half
  filled again (full half socket) = decoded again half socket (dec.next_frame half.decoder half.buf)

  -- The outer loop, with fuel for the times that the decoder wants more.
  unfoldable pub read_frame : ℕ → NoiseReadHalf D → Socket → ReadResult D F
  unfolding prepare filled
  read_frame zero half socket = out_of_fuel
  read_frame (suc fuel) half socket =
      filled (read_frame fuel) (fill (dec.writable_len half.decoder) (prepare half) socket)
