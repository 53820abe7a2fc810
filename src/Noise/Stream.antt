-- ===== src/Noise/Stream.antt =====
-- Frames as a function of the bytes of a stream: neither the pieces in which pool/src/noise_connection.rs gets
-- them nor a dropped call matter.
pub mod Resume
use mining_pool.Base.{
  ℕ, zero, suc, ◌+◌, ◌-◌, ◌≤◌, ◌<◌, ◌≡◌, ◌⊎◌, inl, inr, refl, sym, ap, ◌∙◌, true, false, List, [],
  ◌∷◌, ◌++◌, arith, ltb, leb, ◌==◌, ==_iff, if◌then◌else◌, Bool-cases, length, take, drop,
  append-nil, append_assoc, replicate, length-replicate, length-append, length-take, length-drop,
  take-append, drop-append, take-append-drop, All,
}
use mathlib.Core.Path.{subst}
use mining_pool.Bitcoin.{Bytes}
use mining_pool.Noise.{
  Decoded, frame, missing_bytes, undecodable, Decoder, NoiseReadHalf, Socket, ReadResult, got,
  waiting, closed, broken, out_of_fuel, Filled, full, partial, ended, prepare, store, fill,
  read_frame,
}
use mining_pool.Noise.{filled, decoded}
use mining_pool.Noise.Buffer.{
  bytes_of, IsOpen, received, Holds, Fills, take_front, drop_front, fill-Fills, prepare_lem,
}

-- Reading from a whole stream of bytes: a frame, the decoder and the bytes behind it; or the decoder and the
-- bytes that it cannot use yet; or an error.
pub data Parsed (D F : Type 0) : Type 0 where
  parsed : F → D → Bytes → Parsed D F
  short : D → Bytes → Parsed D F
  bad exhausted : Parsed D F

module _ {D F : Type 0} (dec : Decoder D F) where
  after : (D → Bytes → Parsed D F) → Bytes → Decoded D F → Parsed D F
  after again rest (frame f d) = parsed f d rest
  after again rest (missing_bytes d) = again d rest
  after again rest (undecodable d) = bad

  unfoldable pub parse : ℕ → D → Bytes → Parsed D F
  unfolding after
  parse zero d bs = exhausted
  parse (suc fuel) d bs =
      if ltb (length bs) (dec.writable_len d)
      then short d bs
      else after (parse fuel) (drop (dec.writable_len d) bs)
          (dec.next_frame d (take (dec.writable_len d) bs))

  -- What a result says of the stream.
  abbrev pub view : ReadResult D F → Parsed D F
  view (got f half socket) = parsed f half.decoder (bytes_of socket)
  view (waiting half) = short half.decoder (received half)
  view (closed half) = bad
  view (broken half socket) = bad
  view out_of_fuel = exhausted

  -- What a call leaves behind: bytes held for the decoder, and an open socket.
  abbrev pub Keeps : ReadResult D F → Type 0
  Keeps (got f half socket) = Holds dec half × IsOpen socket
  Keeps (waiting half) = Holds dec half
  Keeps (closed half) = half.bytes_read < half.bytes_read
  Keeps (broken half socket) = Unit
  Keeps out_of_fuel = Unit

  abbrev pub Agrees : ReadResult D F → Parsed D F → Type 0
  Agrees r p = (view r ≡ p) × Keeps r

  -- The recursive calls agree.
  abbrev Again : ℕ → Type 0
  Again fuel =
      (half : NoiseReadHalf D) (socket : Socket)
      → IsOpen socket
      → Holds dec half
      → Agrees (read_frame dec fuel half socket)
          (parse fuel half.decoder (received half ++ bytes_of socket))

  decoded-Agrees :
      (fuel : ℕ) (half : NoiseReadHalf D) (socket : Socket) (r : Decoded D F)
      → IsOpen socket
      → Again fuel
      → Agrees
          (decoded dec (read_frame dec fuel) half socket r)
          (after (parse fuel) (bytes_of socket) r)
  unfolding decoded after
  decoded-Agrees fuel half socket (frame f d) o again =
      (refl, (record { room = omega arith; wanted = inl refl }, o))
  decoded-Agrees fuel half socket (missing_bytes d) o again =
      again (record half { decoder = d; bytes_read = 0 }) socket o
        (record { room = omega arith; wanted = inl refl })
  decoded-Agrees fuel half socket (undecodable d) o again = (refl, tt)

  filled-Agrees :
      (fuel : ℕ) (d : D) (bs : Bytes) (r : Filled D)
      → Fills dec (dec.writable_len d) d bs r
      → Again fuel
      → Agrees (filled dec (read_frame dec fuel) r) (parse (suc fuel) d bs)
  unfolding filled parse
  filled-Agrees fuel d bs (partial half) (less, same, stream, len) again =
      let size : length bs ≡ half.bytes_read =
        rw (← stream) (omega (arith, length-take half.bytes_read half.buf, len, less)) in
      let too_few : ltb (length bs) (dec.writable_len d) ≡ true = ground (arith, size, less) in
      (
        rw (too_few, parse, same, stream) refl,
        record {
          room = omega (arith, len, less);
          wanted = inr (len ∙ ap dec.writable_len (sym same));
        },
      )
  filled-Agrees fuel d bs (ended half) none again = absurd (omega (arith, none))
  filled-Agrees fuel d bs (full half socket) (len, same, stream, o) again =
      let size : length bs ≡ length half.buf + length (bytes_of socket) =
        rw (← stream) (length-append half.buf (bytes_of socket)) in
      let enough : ltb (length bs) (dec.writable_len d) ≡ false = ground (arith, size, len) in
      let front : take (dec.writable_len d) bs ≡ half.buf =
        rw (← stream) (take_front (dec.writable_len d) half.buf (bytes_of socket) len) in
      let back : drop (dec.writable_len d) bs ≡ bytes_of socket =
        rw (← stream) (drop_front (dec.writable_len d) half.buf (bytes_of socket) len) in
      rw (enough, parse, front, back, ← same)
        (decoded-Agrees fuel half socket (dec.next_frame half.decoder half.buf) o again)

  -- On a socket that stays open, from a reader that holds bytes only for its decoder: a call gives the frame, the
  -- decoder and the remaining bytes that the stream of all bytes gives, those held and those to come; where it
  -- waits, it holds just the bytes of the stream that are not used up. So it does not matter in which pieces the
  -- bytes come, and the reader is left in a state of the same kind.
  pub read_frame-Agrees :
      (fuel : ℕ) (half : NoiseReadHalf D) (socket : Socket)
      → IsOpen socket
      → Holds dec half
      → Agrees
          (read_frame dec fuel half socket)
          (parse fuel half.decoder (received half ++ bytes_of socket))
  unfolding read_frame parse
  read_frame-Agrees zero half socket o v = (refl, tt)
  read_frame-Agrees (suc fuel) half socket o v =
      let (len, room, same, held) = prepare_lem dec half v in
      let start : Bytes = received half ++ bytes_of socket in
      let result : Filled D = fill dec (dec.writable_len half.decoder) (prepare dec half) socket in
      let fills =
        fill-Fills dec (dec.writable_len half.decoder) (prepare dec half) socket o room len in
      filled-Agrees fuel half.decoder start result
        (subst (λ bs. Fills dec (dec.writable_len half.decoder) half.decoder bs result)
          (ap (λ l. l ++ bytes_of socket) held)
          (subst
            (λ d.
              Fills dec (dec.writable_len half.decoder) d
                (received (prepare dec half) ++ bytes_of socket) result)
            same fills))
        (read_frame-Agrees fuel)
