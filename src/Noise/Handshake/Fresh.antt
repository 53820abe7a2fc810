-- ===== src/Noise/Handshake/Fresh.antt =====
-- The reading half behind the handshake of pool/src/noise_connection.rs.
use mining_pool.Base.{
  ℕ, zero, suc, ◌≡◌, refl, sym, ap, ◌∙◌, inl, inr, Bool, true, false, Option, none, some, List, [],
  ◌++◌, map, arith, ◌==◌, if◌then◌else◌, Option-cases, length,
}
use mathlib.Core.Path.{subst}
use mining_pool.Bitcoin.{Bytes}
use mining_pool.Noise.{Decoded, frame, missing_bytes, undecodable, Socket}
use mining_pool.Noise.Buffer.{bytes_of, IsOpen, received, Holds}
use mining_pool.Noise.Write.{NoiseWriteHalf, Writing}
use mining_pool.Noise.Write.Written.{write_frames}
use mining_pool.Noise.Write.Read.{IsDecoded, read_frames, read_frames-write_frames}
use mining_pool.Noise.Handshake.{
  NoiseLib, Shaken, shaken, refused, exhausted, Halves, read_exact, handshake_decoded,
  read_handshake, send_handshake, not_handshake, wrong_size, then_, step, fresh_writer, transport,
  reply, respond, accept_noise,
}
use mining_pool.Noise.Handshake.Taken.{IsTaken, read_exact-IsTaken, IsTaken-trans}

-- What holds if the handshake succeeds.
abbrev Succeeds : {A : Type 0} → (A → Type 0) → Shaken A → Type 0
Succeeds Q (shaken a) = Q a
Succeeds Q (refused e) = Unit
Succeeds Q exhausted = Unit

abbrev TakenBy : Socket → Bytes × Socket → Type 0
TakenBy socket r = IsTaken socket r.1

module _ {R D E F S : Type 0} (noise : NoiseLib R D E F S) where
  payload-Succeeds :
      (o : Option Bytes) (socket : Socket)
      → IsOpen socket
      → Succeeds
          (TakenBy socket)
          (elim o [ none ↦ refused not_handshake | some payload ↦ shaken (payload, socket) ])
  payload-Succeeds none socket o = tt
  payload-Succeeds (some payload) socket o = record { taken = []; split = refl; still_open = o }

  decoded-Succeeds :
      (again : D → Socket → Shaken (Bytes × Socket)) (socket : Socket) (answer : Decoded D F)
      → IsOpen socket
      → ((d : D) → Succeeds (TakenBy socket) (again d socket))
      → Succeeds (TakenBy socket) (handshake_decoded noise again socket answer)
  unfolding handshake_decoded
  decoded-Succeeds again socket (frame f d) o next =
      payload-Succeeds (noise.payload_when_handshaking f) socket o
  decoded-Succeeds again socket (missing_bytes d) o next = next d
  decoded-Succeeds again socket (undecodable d) o next = tt

  Succeeds-map :
      {A : Type 0} (P Q : A → Type 0) (m : Shaken A)
      → ((a : A) → P a → Q a)
      → Succeeds P m
      → Succeeds Q m
  Succeeds-map P Q (shaken a) f v = f a v
  Succeeds-map P Q (refused e) f v = tt
  Succeeds-map P Q exhausted f v = tt

  read_handshake-Succeeds :
      (fuel : ℕ) (d : D) (socket : Socket)
      → IsOpen socket
      → Succeeds (TakenBy socket) (read_handshake noise fuel d socket)
  unfolding read_handshake
  read_handshake-Succeeds zero d socket o = tt
  read_handshake-Succeeds (suc fuel) d socket o =
      elim (Option-cases (read_exact (noise.decoder.writable_len d) socket)) [
        | inl missing ↦ rw (missing, read_handshake, Succeeds) tt
        | inr ((bytes, rest), got) ↦
            let v = read_exact-IsTaken (noise.decoder.writable_len d) socket bytes rest o got in
            rw (got, read_handshake)
              (Succeeds-map (TakenBy rest) (TakenBy socket) _ (λ r. IsTaken-trans socket rest r.1 v)
                (decoded-Succeeds (read_handshake noise fuel) rest
                  (noise.decoder.next_frame d bytes) v.still_open
                  (λ d'. read_handshake-Succeeds fuel d' rest v.still_open)))
      ]

  then-Succeeds :
      {A B : Type 0} (P : A → Type 0) (Q : B → Type 0) (m : Shaken A) (k : A → Shaken B)
      → Succeeds P m
      → ((a : A) → P a → Succeeds Q (k a))
      → Succeeds Q (then_ noise m k)
  then-Succeeds P Q (shaken a) k v next = next a v
  then-Succeeds P Q (refused e) k v next = tt
  then-Succeeds P Q exhausted k v next = tt

  step-Succeeds :
      {A B : Type 0} (Q : B → Type 0) (o : Option A) (k : A → Shaken B)
      → ((a : A) → Succeeds Q (k a))
      → Succeeds Q (step noise o k)
  step-Succeeds Q none k next = tt
  step-Succeeds Q (some a) k next = next a

  any-Succeeds : {A : Type 0} (m : Shaken A) → Succeeds (λ _. Unit {0}) m
  any-Succeeds (shaken a) = tt
  any-Succeeds (refused e) = tt
  any-Succeeds exhausted = tt

  if-Succeeds :
      {A : Type 0} (Q : A → Type 0) (b : Bool) (m n : Shaken A)
      → Succeeds Q m
      → Succeeds Q n
      → Succeeds Q (if b then m else n)
  if-Succeeds Q true m n v w = v
  if-Succeeds Q false m n v w = w

  -- The reader holds nothing, and the socket lost some bytes at its front alone.
  pub record IsFresh (socket : Socket) (halves : Halves D E) : Type 0 where
    pub taken : IsTaken socket halves.socket
    pub holds : Holds noise.decoder halves.reader
    pub empty : received halves.reader ≡ []

  reply-Succeeds :
      (role : R) (writings : List Writing) (socket rest : Socket) (stepped : Bytes × S × E)
      → IsTaken socket rest
      → Succeeds (IsFresh socket) (reply noise role writings rest stepped)
  unfolding reply
  reply-Succeeds role writings socket rest stepped v =
      then-Succeeds (λ _. Unit {0}) (IsFresh socket)
        (send_handshake noise stepped.0
          (record (fresh_writer noise role writings) { encoder = stepped.2 }))
        (λ half. shaken (transport noise stepped.1 half rest)) (any-Succeeds _)
        (λ half _. record {
          taken = v;
          holds = record { room = omega arith; wanted = inl refl };
          empty = refl;
        })

  accept_noise-Succeeds :
      (fuel : ℕ) (role : R) (socket : Socket) (writings : List Writing)
      → IsOpen socket
      → Succeeds (IsFresh socket) (accept_noise noise fuel role socket writings)
  unfolding accept_noise respond
  accept_noise-Succeeds fuel role socket writings o =
      then-Succeeds (TakenBy socket) (IsFresh socket)
        (read_handshake noise fuel (noise.not_initialized role) socket)
        (respond noise role writings)
        (read_handshake-Succeeds fuel (noise.not_initialized role) socket o)
        (λ arrived v.
          if-Succeeds (IsFresh socket) (length arrived.0 == noise.ellswift_encoding_size)
            (step noise (noise.step_1 (noise.initialized role) arrived.0)
              (reply noise role writings arrived.1))
            (refused wrong_size)
            (step-Succeeds (IsFresh socket) (noise.step_1 (noise.initialized role) arrived.0)
              (reply noise role writings arrived.1)
              (λ stepped. reply-Succeeds role writings socket arrived.1 stepped v))
            tt)

  -- Where the pool's side of the handshake succeeds on a socket that stays open, and the cipher states of the other
  -- side's writer and the pool's reader then fit: the bytes that the socket still delivers are all but some at its
  -- front, and where they are just those of the frames that the other side wrote, the pool reads these frames one
  -- after the other, each as it was and in this order, in whatever pieces they come, even with the end of the handshake.
  pub accepted_frames :
      (fuel turns : ℕ) (role : R) (socket : Socket) (writings : List Writing) (halves : Halves D E)
      (as_frame : Bytes → F) (Fits : E → D → Type 0) (frames : List Bytes)
      (other last : NoiseWriteHalf E)
      → IsDecoded noise.encoder noise.decoder as_frame turns Fits
      → IsOpen socket
      → accept_noise noise fuel role socket writings ≡ shaken halves
      → Fits other.encoder halves.reader.decoder
      → write_frames noise.encoder frames other ≡ some last
      → last.written ≡ other.written ++ bytes_of halves.socket
      → IsTaken socket halves.socket
        × (read_frames noise.decoder turns (length frames) halves.reader halves.socket
            ≡ map as_frame frames)
  accepted_frames fuel turns role socket writings halves as_frame Fits frames other last codec o
        accepts fits all bytes =
      let v : IsFresh socket halves =
        subst (Succeeds (IsFresh socket)) accepts
          (accept_noise-Succeeds fuel role socket writings o) in
      (
        v.taken,
        read_frames-write_frames noise.encoder noise.decoder as_frame turns Fits codec frames other
            last halves.reader halves.socket fits v.holds v.taken.still_open all
            (bytes ∙ ap (λ l. other.written ++ (l ++ bytes_of halves.socket)) (sym v.empty)),
      )
