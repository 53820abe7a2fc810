-- ===== src/Noise/Write/Written.antt =====
-- What has gone out once frames of pool/src/noise_connection.rs were written.
use mining_pool.Base.{
  ℕ, ◌≡◌, refl, sym, ap, ◌∙◌, ◌⊎◌, inl, inr, Option, none, some, List, [], ◌∷◌, ◌++◌, arith,
  append-nil, append_assoc,
}
use mining_pool.Bitcoin.{Bytes}
use mining_pool.Noise.Write.{
  Encoder, NoiseWriteHalf, WriteResult, wrote, unwritten, Writing, complete, cut_at, next_writing,
  write_all, write_encoded, write_raw_frame, WriteError,
}

-- Raw frames written one after the other, as long as none fails.
unfoldable pub write_frames :
    {E : Type 0} → Encoder E → List Bytes → NoiseWriteHalf E → Option (NoiseWriteHalf E)
write_frames enc [] half = some half
write_frames enc (bytes ∷ frames) half = elim (write_raw_frame enc bytes half) [
  | wrote half' ↦ write_frames enc frames half'
  | unwritten e half' ↦ none
]

module _ {E : Type 0} (enc : Encoder E) where
  Writing-cases : (x : Writing) → (x ≡ complete) ⊎ ((n : ℕ) × (x ≡ cut_at n))
  Writing-cases complete = inl refl
  Writing-cases (cut_at n) = inr (n, refl)

  written_encoded :
      (r : Option Bytes × E) (half half' : NoiseWriteHalf E)
      → write_encoded r half ≡ wrote half'
      → (encoded : Bytes) × (r ≡ (some encoded, half'.encoder))
        × (half'.written ≡ half.written ++ encoded)
  unfolding write_encoded write_all
  written_encoded (none, e1) half half' e = absurd (ground (arith, e))
  written_encoded (some encoded, e1) half half' e =
      elim (Writing-cases (next_writing half.writings)) [
        | inl done ↦
            let whole = rw (done, write_encoded, write_all) at e in
            let own : half'.encoder ≡ e1 = ground (arith, whole) in
            let bytes : half'.written ≡ half.written ++ encoded = ground (arith, whole) in
            (encoded, rw own refl, bytes)
        | inr (n, cut) ↦
            let part = rw (cut, write_encoded, write_all) at e in absurd (ground (arith, part))
      ]

  -- A frame that was written was encoded, and its bytes went out.
  pub written_frame :
      (bytes : Bytes) (half half' : NoiseWriteHalf E)
      → write_raw_frame enc bytes half ≡ wrote half'
      → (encoded : Bytes) × (enc.encode half.encoder bytes ≡ (some encoded, half'.encoder))
        × (half'.written ≡ half.written ++ encoded)
  unfolding write_raw_frame
  written_frame bytes half half' e = written_encoded (enc.encode half.encoder bytes) half half' e

  WriteResult-cases :
      (r : WriteResult E)
      → ((half : NoiseWriteHalf E) × (r ≡ wrote half))
        ⊎ ((x : WriteError) × (half : NoiseWriteHalf E) × (r ≡ unwritten x half))
  WriteResult-cases (wrote half) = inl (half, refl)
  WriteResult-cases (unwritten x half) = inr (x, half, refl)

  -- Where all frames were written, so was the first, and then the others.
  pub first_written :
      (bytes : Bytes) (frames : List Bytes) (half last : NoiseWriteHalf E)
      → write_frames enc (bytes ∷ frames) half ≡ some last
      → (half' : NoiseWriteHalf E) × (write_raw_frame enc bytes half ≡ wrote half')
        × (write_frames enc frames half' ≡ some last)
  unfolding write_frames
  first_written bytes frames half last e =
      elim (WriteResult-cases (write_raw_frame enc bytes half)) [
        | inl (half', w) ↦ let rest = rw (w, write_frames) at e in (half', w, rest)
        | inr (x, half', w) ↦ let rest = rw (w, write_frames) at e in absurd (ground (arith, rest))
      ]

  -- More bytes went out.
  pub frames_written :
      (frames : List Bytes) (half last : NoiseWriteHalf E)
      → write_frames enc frames half ≡ some last
      → (more : Bytes) × (last.written ≡ half.written ++ more)
  unfolding write_frames
  frames_written [] half last e =
      let same : half ≡ last = ground (arith, e) in ([], rw same (sym (append-nil last.written)))
  frames_written (bytes ∷ frames) half last e =
      let (half', first, rest) = first_written bytes frames half last e in
      let (encoded, _, out) = written_frame bytes half half' first in
      let (more, all) = frames_written frames half' last rest in
      (encoded ++ more, all ∙ ap (λ l. l ++ more) out ∙ append_assoc half.written encoded more)
