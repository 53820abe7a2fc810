-- ===== src/Noise/Handshake.antt =====
-- The Noise handshake of pool/src/noise_connection.rs: `accept_noise` on the pool's side, `connect_noise` on the
-- client's.
pub mod Taken
pub mod Fresh
use mining_pool.Base.{
  ℕ, zero, suc, ◌-◌, Option, none, some, List, [], ◌∷◌, ◌++◌, leb, ◌==◌, if◌then◌else◌, length,
  take, drop,
}
use mining_pool.Bitcoin.{Bytes}
use mining_pool.Noise.{Decoded, frame, missing_bytes, undecodable, Decoder, NoiseReadHalf, Socket}
use mining_pool.Noise.Write.{
  Encoder, NoiseWriteHalf, Writing, WriteResult, wrote, unwritten, write_all,
}

-- codec_sv2 and noise_sv2 for a role R, with decoders D and encoders E that hold their cipher states, frames F and
-- transport states S: the decoder and encoder that a handshake begins with, the bytes of a handshake frame (`none` for
-- another frame), the three steps of the handshake, and the decoder and encoder for the transport. An error is `none`.
pub record NoiseLib (R D E F S : Type 0) : Type 0 where
  pub decoder : Decoder D F
  pub encoder : Encoder E
  pub not_initialized : R → D
  pub initialized : R → E
  pub payload_when_handshaking : F → Option Bytes
  pub step_0 : E → Option (Bytes × E)
  pub step_1 : E → Bytes → Option (Bytes × S × E)
  pub step_2 : E → Bytes → Option (S × E)
  pub transport_decoder : S → D
  pub transport_encoder : E → S → E
  pub ellswift_encoding_size : ℕ
  pub initiator_expected_size : ℕ

pub data HandshakeError : Type 0 where
  no_bytes not_handshake handshake_undecodable wrong_size step_error : HandshakeError
  handshake_encode_error handshake_write_error : HandshakeError

pub data Shaken (A : Type 0) : Type 0 where
  shaken : A → Shaken A
  refused : HandshakeError → Shaken A
  exhausted : Shaken A

-- Both halves of a connection, and what the socket still delivers.
pub record Halves (D E : Type 0) : Type 0 where
  pub reader : NoiseReadHalf D
  pub writer : NoiseWriteHalf E
  pub socket : Socket

-- What is left of a piece.
unfoldable pub put_back : Bytes → Socket → Socket
put_back [] socket = socket
put_back (b ∷ bs) socket = (b ∷ bs) ∷ socket

-- `read_exact`, which is not called for no bytes; `none` where the socket ends, which an empty piece stands for,
-- fails or times out first.
unfoldable pub read_exact : ℕ → Socket → Option (Bytes × Socket)
read_exact n [] = if n == 0 then some ([], []) else none
read_exact n (piece ∷ socket) =
    let more = read_exact (n - length piece) socket in
    if n == 0
    then some ([], piece ∷ socket)
    else if length piece == 0
    then none
    else if leb n (length piece)
    then some (take n piece, put_back (drop n piece) socket)
    else (elim more [ none ↦ none | some (bytes, rest) ↦ some (piece ++ bytes, rest) ])

module _ {R D E F S : Type 0} (noise : NoiseLib R D E F S) where
  -- What follows the decoder's answer, `again` being the next turn of the loop.
  handshake_decoded :
      (D → Socket → Shaken (Bytes × Socket)) → Socket → Decoded D F → Shaken (Bytes × Socket)
  handshake_decoded again socket (frame f d) = elim (noise.payload_when_handshaking f) [
    | none ↦ refused not_handshake
    | some payload ↦ shaken (payload, socket)
  ]
  handshake_decoded again socket (missing_bytes d) = again d socket
  handshake_decoded again socket (undecodable d) = refused handshake_undecodable

  -- The loop that reads the other side's message, with fuel for its turns. A decoder that wants no byte is asked
  -- without a read.
  unfoldable pub read_handshake : ℕ → D → Socket → Shaken (Bytes × Socket)
  unfolding handshake_decoded
  read_handshake zero d socket = exhausted
  read_handshake (suc fuel) d socket = elim (read_exact (noise.decoder.writable_len d) socket) [
    | none ↦ refused no_bytes
    | some (bytes, rest) ↦
        handshake_decoded (read_handshake fuel) rest (noise.decoder.next_frame d bytes)
  ]

  handshake_written : WriteResult E → Shaken (NoiseWriteHalf E)
  handshake_written (wrote half) = shaken half
  handshake_written (unwritten x half) = refused handshake_write_error

  handshake_encoded : Option Bytes × E → NoiseWriteHalf E → Shaken (NoiseWriteHalf E)
  handshake_encoded (none, e) half = refused handshake_encode_error
  handshake_encoded (some encoded, e) half =
      handshake_written (write_all encoded (record half { encoder = e }))

  -- A handshake message is encoded and written.
  unfoldable pub send_handshake : Bytes → NoiseWriteHalf E → Shaken (NoiseWriteHalf E)
  unfolding handshake_encoded handshake_written
  send_handshake message half = handshake_encoded (noise.encoder.encode half.encoder message) half

  abbrev pub then_ : {A B : Type 0} → Shaken A → (A → Shaken B) → Shaken B
  then_ (shaken a) k = k a
  then_ (refused e) k = refused e
  then_ exhausted k = exhausted

  abbrev pub step : {A B : Type 0} → Option A → (A → Shaken B) → Shaken B
  step none k = refused step_error
  step (some a) k = k a

  -- The transport mode: a new decoder, and the encoder of the handshake, both with the transport's state.
  abbrev pub transport : S → NoiseWriteHalf E → Socket → Halves D E
  transport s half socket = record {
    reader = record { decoder = noise.transport_decoder s; buf = []; bytes_read = 0 };
    writer = record half { encoder = noise.transport_encoder half.encoder s };
    socket = socket;
  }

  abbrev pub fresh_writer : R → List Writing → NoiseWriteHalf E
  fresh_writer role writings = record {
    encoder = noise.initialized role;
    written = [];
    writings = writings;
  }

  -- The responder's reply, and the transport behind it.
  reply : R → List Writing → Socket → Bytes × S × E → Shaken (Halves D E)
  reply role writings socket stepped =
      then_ (send_handshake stepped.0 (record (fresh_writer role writings) { encoder = stepped.2 }))
        (λ half. shaken (transport stepped.1 half socket))

  -- What follows the initiator's message.
  respond : R → List Writing → Bytes × Socket → Shaken (Halves D E)
  respond role writings arrived =
      if length arrived.0 == noise.ellswift_encoding_size
      then step (noise.step_1 (noise.initialized role) arrived.0) (reply role writings arrived.1)
      else refused wrong_size

  unfoldable pub accept_noise : ℕ → R → Socket → List Writing → Shaken (Halves D E)
  unfolding respond reply
  accept_noise fuel role socket writings =
      then_ (read_handshake fuel (noise.not_initialized role) socket) (respond role writings)

  unfoldable pub connect_noise : ℕ → R → Socket → List Writing → Shaken (Halves D E)
  connect_noise fuel role socket writings = step (noise.step_0 (noise.initialized role)) (λ begun.
      then_ (send_handshake begun.0 (record (fresh_writer role writings) { encoder = begun.1 }))
        (λ half. then_ (read_handshake fuel (noise.not_initialized role) socket) (λ arrived.
          if length arrived.0 == noise.initiator_expected_size
          then step (noise.step_2 half.encoder arrived.0) (λ stepped.
            shaken (transport stepped.0 (record half { encoder = stepped.1 }) arrived.1))
          else refused wrong_size)))
