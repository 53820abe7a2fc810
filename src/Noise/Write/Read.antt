-- ===== src/Noise/Write/Read.antt =====
-- Frames of pool/src/noise_connection.rs from the writing half of one side to the reading half of the other.
use mining_pool.Base.{
  ℕ, zero, suc, ◌≡◌, refl, sym, ap, ◌∙◌, some, List, [], ◌∷◌, ◌++◌, map, arith, length, drop,
  drop-append, append_assoc,
}
use mathlib.Core.Path.{subst}
use mining_pool.Bitcoin.{Bytes}
use mining_pool.Noise.{
  Decoded, frame, missing_bytes, undecodable, Decoder, NoiseReadHalf, Socket, ReadResult, got,
  waiting, closed, broken, out_of_fuel, Filled, full, partial, ended, prepare, fill, read_frame,
  decoded, filled,
}
use mining_pool.Noise.Buffer.{bytes_of, IsOpen, received, Holds}
use mining_pool.Noise.Stream.{parsed, parse, view, Keeps, read_frame-Agrees}
use mining_pool.Noise.Write.{Encoder, NoiseWriteHalf}
use mining_pool.Noise.Write.Written.{write_frames, written_frame, first_written, frames_written}

-- So many frames read one after the other, as long as there are some.
unfoldable pub read_frames :
    {D F : Type 0} → Decoder D F → ℕ → ℕ → NoiseReadHalf D → Socket → List F
read_frames dec turns zero half socket = []
read_frames dec turns (suc n) half socket = elim (read_frame dec turns half socket) [
  | got f half' socket' ↦ f ∷ read_frames dec turns n half' socket'
  | waiting half' ↦ []
  | closed half' ↦ []
  | broken half' socket' ↦ []
  | out_of_fuel ↦ []
]

-- What the pool relies on: where the cipher states of encoder and decoder fit, the decoder finds the frame within so
-- many turns in the bytes that the encoder made of it, whatever follows them, and then the states fit again.
pub record IsDecoded {E D F : Type 0} (enc : Encoder E) (dec : Decoder D F) (as_frame : Bytes → F)
    (turns : ℕ) (Fits : E → D → Type 0) : Type 0 where
  pub reads :
      (e : E) (d : D) (bytes encoded : Bytes) (e' : E)
      → Fits e d
      → enc.encode e bytes ≡ (some encoded, e')
      → (d' : D) × Fits e' d'
        × ((rest : Bytes) → parse dec turns d (encoded ++ rest) ≡ parsed (as_frame bytes) d' rest)

module _ {D F : Type 0} (dec : Decoder D F) where
  -- Behind a frame the buffer holds nothing.
  abbrev IsEmptied : ReadResult D F → Type 0
  IsEmptied (got f half socket) = received half ≡ []
  IsEmptied (waiting half) = Unit
  IsEmptied (closed half) = Unit
  IsEmptied (broken half socket) = Unit
  IsEmptied out_of_fuel = Unit

  decoded-IsEmptied :
      (again : NoiseReadHalf D → Socket → ReadResult D F) (half : NoiseReadHalf D) (socket : Socket)
      (answer : Decoded D F)
      → ((h : NoiseReadHalf D) (s : Socket) → IsEmptied (again h s))
      → IsEmptied (decoded dec again half socket answer)
  unfolding decoded
  decoded-IsEmptied again half socket (frame f d) next = refl
  decoded-IsEmptied again half socket (missing_bytes d) next = next _ socket
  decoded-IsEmptied again half socket (undecodable d) next = tt

  filled-IsEmptied :
      (again : NoiseReadHalf D → Socket → ReadResult D F) (r : Filled D)
      → ((h : NoiseReadHalf D) (s : Socket) → IsEmptied (again h s))
      → IsEmptied (filled dec again r)
  unfolding filled
  filled-IsEmptied again (partial half) next = tt
  filled-IsEmptied again (ended half) next = tt
  filled-IsEmptied again (full half socket) next =
      decoded-IsEmptied again half socket (dec.next_frame half.decoder half.buf) next

  read_frame-IsEmptied :
      (fuel : ℕ) (half : NoiseReadHalf D) (socket : Socket)
      → IsEmptied (read_frame dec fuel half socket)
  unfolding read_frame
  read_frame-IsEmptied zero half socket = tt
  read_frame-IsEmptied (suc fuel) half socket =
      filled-IsEmptied (read_frame dec fuel)
        (fill dec (dec.writable_len half.decoder) (prepare dec half) socket)
        (read_frame-IsEmptied fuel)

  -- A result that shows a frame is one.
  got_of :
      (r : ReadResult D F) (f : F) (d : D) (rest : Bytes)
      → view dec r ≡ parsed f d rest
      → Keeps dec r
      → IsEmptied r
      → (half : NoiseReadHalf D) × (socket : Socket) × (r ≡ got f half socket)
        × (half.decoder ≡ d)
        × (bytes_of socket ≡ rest)
        × Holds dec half
        × IsOpen socket
        × (received half ≡ [])
  got_of (got f' half socket) f d rest e (holds, o) none_held =
      let same : f' ≡ f = ground (arith, e) in
      let own : half.decoder ≡ d = ground (arith, e) in
      let bytes : bytes_of socket ≡ rest = ground (arith, e) in
      (half, socket, rw same refl, own, bytes, holds, o, none_held)
  got_of (waiting half) f d rest e k n = absurd (ground (arith, e))
  got_of (closed half) f d rest e k n = absurd (ground (arith, e))
  got_of (broken half socket) f d rest e k n = absurd (ground (arith, e))
  got_of out_of_fuel f d rest e k n = absurd (ground (arith, e))

append_cancel : (xs ys zs : Bytes) → xs ++ ys ≡ xs ++ zs → ys ≡ zs
append_cancel xs ys zs e = sym (drop-append xs ys) ∙ ap (drop (length xs)) e ∙ drop-append xs zs

module _ {E D F : Type 0} (enc : Encoder E) (dec : Decoder D F) (as_frame : Bytes → F) (turns : ℕ)
    (Fits : E → D → Type 0) (codec : IsDecoded enc dec as_frame turns Fits) where
  -- Where the cipher states of a writer and a reader fit: frames that were written one after the other are read one
  -- after the other, each as it was and in this order, once the reader has got just the bytes that the writer wrote,
  -- in whatever pieces, and whatever part of them it held already.
  pub read_frames-write_frames :
      (frames : List Bytes) (writer last : NoiseWriteHalf E) (reader : NoiseReadHalf D)
      (socket : Socket)
      → Fits writer.encoder reader.decoder
      → Holds dec reader
      → IsOpen socket
      → write_frames enc frames writer ≡ some last
      → last.written ≡ writer.written ++ (received reader ++ bytes_of socket)
      → read_frames dec turns (length frames) reader socket ≡ map as_frame frames
  unfolding read_frames
  read_frames-write_frames [] writer last reader socket fits holds o all bytes = refl
  read_frames-write_frames (frame_bytes ∷ frames) writer last reader socket fits holds o all bytes =
      let (writer', first, others) = first_written enc frame_bytes frames writer last all in
      let (encoded, encodes, out) = written_frame enc frame_bytes writer writer' first in
      let (more, behind) = frames_written enc frames writer' last others in
      let stream : received reader ++ bytes_of socket ≡ encoded ++ more =
        append_cancel writer.written _ _ (
          sym bytes
          ∙ behind
          ∙ ap (λ l. l ++ more) out
          ∙ append_assoc writer.written encoded more) in
      let (d', fits', finds) =
        codec.reads writer.encoder reader.decoder frame_bytes encoded writer'.encoder fits
          encodes in
      let (shows, keeps) = read_frame-Agrees dec turns reader socket o holds in
      let (reader', socket', ends, own, rest, holds', o', none_held) =
        got_of dec (read_frame dec turns reader socket) (as_frame frame_bytes) d' more
          (shows ∙ ap (parse dec turns reader.decoder) stream ∙ finds more) keeps
          (read_frame-IsEmptied dec turns reader socket) in
      rw (ends, read_frames)
        (ap (λ l. as_frame frame_bytes ∷ l)
          (read_frames-write_frames frames writer' last reader' socket'
            (subst (Fits writer'.encoder) (sym own) fits') holds' o' others
            (behind
              ∙ ap (λ l. writer'.written ++ l)
                  (sym (ap (λ l. l ++ bytes_of socket') none_held ∙ rest)))))
