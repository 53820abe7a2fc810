-- ===== src/Examples/Noise.antt =====
-- The reader of pool/src/noise_connection.rs over a small decoder: a byte n, then a frame of n + 1 bytes.
use mining_pool.Base.{
  suc, ◌⊎◌, inr, Option, some, none, length, ltb, length-append, take-append, drop-append, ℕ, ◌+◌,
  ◌≡◌, ◌≢◌, refl, inl, Bool, true, false, [], ◌∷◌, ◌++◌, arith,
}
use mining_pool.Bitcoin.{Bytes}
use mining_pool.Noise.{
  Decoded, frame, missing_bytes, Decoder, NoiseReadHalf, Socket, waiting, out_of_fuel, read_frame,
  fill, prepare,
}
use mining_pool.Noise.Write.{
  Encoder, Framing, NoiseWriteHalf, wrote, write_all, write_raw_frame, write_sv2_message,
}
use mining_pool.Noise.Write.Written.{write_frames}
use mining_pool.Noise.Write.Read.{IsDecoded, read_frames}
use mining_pool.Noise.Handshake.{
  NoiseLib, Halves, shaken, accept_noise, connect_noise, read_handshake, read_exact, put_back,
  send_handshake,
}
use mining_pool.Noise.Handshake.Taken.{IsTaken}
use mining_pool.Noise.Handshake.Fresh.{accepted_frames}
use mining_pool.Noise.Buffer.{bytes_of, received, Holds}
use mining_pool.Noise.Stream.{parsed, Agrees, parse, view, read_frame-Agrees}
use mining_pool.Noise.Stream.Resume.{IsProgressing, read_frame_total, read_frame_resumed}

abbrev Toy : Type 0
Toy = Bool × ℕ

abbrev toy_next : Toy → Bytes → Decoded Toy Bytes
toy_next (true, n) bs = frame bs (false, 1)
toy_next (false, n) [] = missing_bytes (false, 1)
toy_next (false, n) (b ∷ bs) = missing_bytes (true, b + 1)

abbrev toy_decoder : Decoder Toy Bytes
toy_decoder = record { writable_len = λ d. d.1; next_frame = toy_next }

toy_decoder-IsProgressing : IsProgressing toy_decoder
toy_decoder-IsProgressing (true, n) bs d' e = absurd (ground arith)
toy_decoder-IsProgressing (false, n) [] d' e = ground arith
toy_decoder-IsProgressing (false, n) (b ∷ bs) d' e = ground arith

-- A reader after the handshake.
abbrev fresh : NoiseReadHalf Toy
fresh = record { decoder = (false, 0); buf = []; bytes_read = 0 }

fresh-Holds : Holds toy_decoder fresh
fresh-Holds = record { room = omega arith; wanted = inl refl }

-- A frame of two bytes in two pieces, the second with the beginning of the next frame.
abbrev before : Socket
before = (1 ∷ 7 ∷ []) ∷ []

abbrev later : Socket
later = (8 ∷ 3 ∷ []) ∷ []

-- The reader that waits for the second byte.
abbrev halfway : NoiseReadHalf Toy
halfway = record { decoder = (true, 2); buf = 7 ∷ 0 ∷ []; bytes_read = 1 }

waits : read_frame toy_decoder 9 fresh before ≡ waiting halfway
unfolding read_frame fill prepare
waits = refl

read_frame-Agrees_example :
    Agrees toy_decoder
      (read_frame toy_decoder 9 fresh (before ++ later))
      (parse toy_decoder 9 (false, 0) (received fresh ++ bytes_of (before ++ later)))
read_frame-Agrees_example =
    read_frame-Agrees toy_decoder 9 fresh (before ++ later) (omega arith, (omega arith, tt))
      fresh-Holds

read_frame_total_example : read_frame toy_decoder 9 fresh (before ++ later) ≢ out_of_fuel
read_frame_total_example =
    read_frame_total toy_decoder 9 fresh (before ++ later) toy_decoder-IsProgressing
      (omega arith, (omega arith, tt)) fresh-Holds (omega arith)

read_frame_resumed_example :
    (turns : ℕ) × (view toy_decoder (read_frame toy_decoder (turns + 5) fresh (before ++ later))
      ≡ view toy_decoder (read_frame toy_decoder 5 halfway later))
read_frame_resumed_example =
    read_frame_resumed toy_decoder 9 5 fresh halfway before later (omega arith, tt)
      (omega arith, tt) fresh-Holds waits

-- An encoder that fits: the length less one, and the frame. It has no empty frames.
abbrev toy_encode_frame : ℕ → Bytes → Option Bytes × ℕ
toy_encode_frame e [] = (none, e)
toy_encode_frame e (b ∷ bs) = (some (length bs ∷ b ∷ bs), e)

abbrev toy_encoder : Encoder ℕ
toy_encoder = record { encode = toy_encode_frame }

-- The decoder is about to read a length.
abbrev Fits : ℕ → Toy → Type 0
Fits e d = (d ≡ (false, 0)) ⊎ (d ≡ (false, 1))

parse_frame :
    (turns n : ℕ) (bytes rest : Bytes)
    → length bytes ≡ n + 1
    → parse toy_decoder (turns + 1) (true, n + 1) (bytes ++ rest) ≡ parsed bytes (false, 1) rest
unfolding parse
parse_frame turns n bytes rest e =
    let more : turns + 1 ≡ suc turns = omega arith in
    let long : ltb (length (bytes ++ rest)) (n + 1) ≡ false =
      let all = length-append bytes rest in ground (arith, all) in
    rw (more, long, parse, ← e) (rw (take-append bytes rest, drop-append bytes rest) refl)

parse-length :
    (turns n : ℕ) (bytes rest : Bytes)
    → length bytes ≡ n + 1
    → parse toy_decoder (suc (suc turns)) (false, 1) (n ∷ (bytes ++ rest))
      ≡ parsed bytes (false, 1) rest
unfolding parse
parse-length turns n bytes rest e =
    let long : ltb (length (n ∷ (bytes ++ rest))) 1 ≡ false = ground arith in
    let same : turns + 1 ≡ suc turns = omega arith in
    rw (long, parse) (rw same at (parse_frame turns n bytes rest e))

parse_start :
    (n : ℕ) (bytes rest : Bytes)
    → length bytes ≡ n + 1
    → parse toy_decoder 3 (false, 0) (n ∷ (bytes ++ rest)) ≡ parsed bytes (false, 1) rest
unfolding parse
parse_start n bytes rest e =
    let long : ltb (length (n ∷ (bytes ++ rest))) 0 ≡ false = ground arith in
    rw (long, parse) (parse-length 0 n bytes rest e)

decoded_at :
    (d : Toy) (b : ℕ) (bs rest : Bytes) (e : ℕ)
    → Fits e d
    → parse toy_decoder 3 d ((length bs ∷ b ∷ bs) ++ rest) ≡ parsed (b ∷ bs) (false, 1) rest
decoded_at d b bs rest e (inl first) =
    rw first (parse_start (length bs) (b ∷ bs) rest (omega arith))
decoded_at d b bs rest e (inr later) =
    rw later (parse-length 1 (length bs) (b ∷ bs) rest (omega arith))

toy_encoder-decodes :
    (e : ℕ) (d : Toy) (bytes encoded : Bytes) (e' : ℕ)
    → Fits e d
    → toy_encode_frame e bytes ≡ (some encoded, e')
    → (d' : Toy) × Fits e' d'
      × ((rest : Bytes) → parse toy_decoder 3 d (encoded ++ rest) ≡ parsed bytes d' rest)
toy_encoder-decodes e d [] encoded e' fits encodes = absurd (ground arith)
toy_encoder-decodes e d (b ∷ bs) encoded e' fits encodes =
    let same : length bs ∷ b ∷ bs ≡ encoded = ground (arith, encodes) in
    ((false, 1), inr refl, λ rest. rw (← same) (decoded_at d b bs rest e fits))

toy_encoder-IsDecoded : IsDecoded toy_encoder toy_decoder (λ bytes. bytes) 3 Fits
toy_encoder-IsDecoded = record { reads = toy_encoder-decodes }

abbrev toy_noise : NoiseLib ℕ Toy ℕ Bytes ℕ
toy_noise = record {
  decoder = toy_decoder;
  encoder = toy_encoder;
  not_initialized = λ role. (false, 0);
  initialized = λ role. 0;
  payload_when_handshaking = λ f. some f;
  step_0 = λ e. some (1 ∷ 2 ∷ [], e);
  step_1 = λ e payload. some (payload, 7, e);
  step_2 = λ e payload. some (7, e);
  transport_decoder = λ s. (false, 0);
  transport_encoder = λ e s. s;
  ellswift_encoding_size = 2;
  initiator_expected_size = 2;
}

-- The initiator's two bytes in pieces, the second with the first frame and the beginning of the second one.
abbrev with_handshake : Socket
with_handshake = (1 ∷ 7 ∷ []) ∷ (8 ∷ 0 ∷ 5 ∷ 1 ∷ []) ∷ (6 ∷ 4 ∷ []) ∷ []

abbrev after_handshake : Halves Toy ℕ
after_handshake = record {
  reader = fresh;
  writer = record { encoder = 7; written = 1 ∷ 7 ∷ 8 ∷ []; writings = [] };
  socket = (0 ∷ 5 ∷ 1 ∷ []) ∷ (6 ∷ 4 ∷ []) ∷ [];
}

accepts : accept_noise toy_noise 9 0 with_handshake [] ≡ shaken after_handshake
unfolding accept_noise read_handshake read_exact put_back send_handshake write_all
accepts = refl

-- The client's side, which reads the pool's reply.
connects :
    connect_noise toy_noise 9 0 ((1 ∷ 7 ∷ 8 ∷ []) ∷ []) []
    ≡ shaken (record {
      reader = fresh;
      writer = record { encoder = 7; written = 1 ∷ 1 ∷ 2 ∷ []; writings = [] };
      socket = [];
    })
unfolding connect_noise read_handshake read_exact put_back send_handshake write_all
connects = refl

abbrev client : Bytes → NoiseWriteHalf ℕ
client written = record { encoder = 7; written = written; writings = [] }

client_writes :
    write_frames toy_encoder ((5 ∷ []) ∷ (6 ∷ 4 ∷ []) ∷ []) (client [])
    ≡ some (client (0 ∷ 5 ∷ 1 ∷ 6 ∷ 4 ∷ []))
unfolding write_frames write_raw_frame write_all
client_writes = refl

accepted_frames_example :
    IsTaken with_handshake after_handshake.socket
    × (read_frames toy_decoder 3 2 after_handshake.reader after_handshake.socket
        ≡ (5 ∷ []) ∷ (6 ∷ 4 ∷ []) ∷ [])
accepted_frames_example =
    accepted_frames toy_noise 9 3 0 with_handshake [] after_handshake (λ bytes. bytes) Fits
      ((5 ∷ []) ∷ (6 ∷ 4 ∷ []) ∷ []) (client []) (client (0 ∷ 5 ∷ 1 ∷ 6 ∷ 4 ∷ []))
      toy_encoder-IsDecoded (omega arith, (omega arith, (omega arith, tt))) accepts (inl refl)
      client_writes refl

-- A message is framed and written like a raw frame.
abbrev toy_framing : Framing ℕ Bytes
toy_framing = record {
  header_size = 2;
  get_size = λ m. 1;
  from_message = λ m msg_type extension channel. some (msg_type ∷ 1 ∷ m ∷ []);
  serialize = λ f size. some f;
}

message_written :
    write_sv2_message toy_encoder toy_framing 9 0x1a true (client [])
    ≡ wrote (client (2 ∷ 0x1a ∷ 1 ∷ 9 ∷ []))
unfolding write_sv2_message write_raw_frame write_all
message_written = refl
