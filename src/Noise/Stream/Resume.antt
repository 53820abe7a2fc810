-- ===== src/Noise/Stream/Resume.antt =====
-- A call of `read_frame` (pool/src/noise_connection.rs) that was dropped while it waited, and the number of its
-- turns.
use mining_pool.Base.{
  ℕ, zero, suc, ◌+◌, ◌≤◌, ◌<◌, ◌≡◌, ◌≢◌, ◌⊎◌, inl, inr, refl, sym, ap, ◌∙◌, false, [], ◌∷◌, ◌++◌,
  arith, ltb, Bool-cases, length, take, drop, append_assoc, length-append, length-take, length-drop,
  take-append-drop, All-append,
}
use mining_pool.Bitcoin.{Bytes}
use mining_pool.Noise.{
  Decoded, frame, missing_bytes, undecodable, Decoder, NoiseReadHalf, Socket, waiting, out_of_fuel,
  read_frame,
}
use mining_pool.Noise.Buffer.{bytes_of, IsOpen, received, Holds, take_front, drop_front}
use mining_pool.Noise.Stream.{short, exhausted, parse, after, view, read_frame-Agrees}

take_more :
    (n : ℕ) (xs ys : Bytes)
    → n ≤ length xs
    → (take n (xs ++ ys) ≡ take n xs) × (drop n (xs ++ ys) ≡ drop n xs ++ ys)
take_more n xs ys h =
    let cut : xs ++ ys ≡ take n xs ++ (drop n xs ++ ys) =
      ap (λ l. l ++ ys) (sym (take-append-drop n xs)) ∙ append_assoc (take n xs) (drop n xs) ys in
    let len : length (take n xs) ≡ n = omega (arith, length-take n xs, h) in
    (
      ap (take n) cut ∙ take_front n (take n xs) (drop n xs ++ ys) len,
      ap (drop n) cut ∙ drop_front n (take n xs) (drop n xs ++ ys) len,
    )

-- A decoder that misses bytes asks for at least one.
abbrev pub IsProgressing : {D F : Type 0} → Decoder D F → Type 0
IsProgressing {D} dec =
    (d : D) (bs : Bytes) (d' : D) → dec.next_frame d bs ≡ missing_bytes d' → 0 < dec.writable_len d'

module _ {D F : Type 0} (dec : Decoder D F) where
  Decoded-cases :
      (r : Decoded D F)
      → ((f : F) × (d : D) × (r ≡ frame f d))
        ⊎ (((d : D) × (r ≡ missing_bytes d)) ⊎ ((d : D) × (r ≡ undecodable d)))
  Decoded-cases (frame f d) = inl (f, d, refl)
  Decoded-cases (missing_bytes d) = inr (inl (d, refl))
  Decoded-cases (undecodable d) = inr (inr (d, refl))

  -- What was left of a stream, with more behind it, is parsed like the whole.
  parse_more :
      (fuel m : ℕ) (d d' : D) (bs rest more : Bytes)
      → parse dec fuel d bs ≡ short d' rest
      → (turns : ℕ) × (parse dec (turns + m) d (bs ++ more) ≡ parse dec m d' (rest ++ more))
  unfolding parse after
  parse_more zero m d d' bs rest more h = absurd (ground arith)
  parse_more (suc fuel) m d d' bs rest more h =
      elim (Bool-cases (ltb (length bs) (dec.writable_len d))) [
        | inl few ↦
            let same : short d bs ≡ short d' rest = rw (few, parse) at h in
            let start : 0 + m ≡ m = omega arith in (0, rw start cc)
        | inr enough ↦ elim (Decoded-cases (dec.next_frame d (take (dec.writable_len d) bs))) [
          | inl (f, d1, e) ↦ absurd (ground arith)
          | inr (inr (d1, e)) ↦ absurd (ground arith)
          | inr (inl (d1, e)) ↦
              let (front, back) = take_more (dec.writable_len d) bs more (ground arith) in
              let still : ltb (length (bs ++ more)) (dec.writable_len d) ≡ false =
                ground (arith, length-append bs more) in
              let (turns, whole) =
                parse_more fuel m d1 d' (drop (dec.writable_len d) bs) rest more
                  (rw (enough, parse, e, after) at h) in
              let next : suc turns + m ≡ suc (turns + m) = omega arith in
              (suc turns, rw (next, still, parse, front, e, after, back) whole)
        ]
      ]

  parse_enough :
      (fuel : ℕ) (d : D) (bs : Bytes)
      → IsProgressing dec
      → 0 < dec.writable_len d
      → length bs < fuel
      → parse dec fuel d bs ≢ exhausted
  unfolding parse after
  parse_enough zero d bs progress pos h e = omega (arith, h)
  parse_enough (suc fuel) d bs progress pos h e =
      elim (Bool-cases (ltb (length bs) (dec.writable_len d))) [
        | inl few ↦ absurd (ground arith)
        | inr enough ↦ elim (Decoded-cases (dec.next_frame d (take (dec.writable_len d) bs))) [
          | inl (f, d1, e1) ↦ absurd (ground arith)
          | inr (inr (d1, e1)) ↦ absurd (ground arith)
          | inr (inl (d1, e1)) ↦
              let left = length-drop (dec.writable_len d) bs in
              let all : dec.writable_len d ≤ length bs = ground arith in
              parse_enough fuel d1 (drop (dec.writable_len d) bs) progress (progress d _ d1 e1)
                (omega (arith, left, all, pos, h)) (rw (enough, parse, e1, after) at e)
        ]
      ]

  -- One turn more for a decoder that starts by asking for nothing.
  parse_total :
      (fuel : ℕ) (d : D) (bs : Bytes)
      → IsProgressing dec
      → length bs + 1 < fuel
      → parse dec fuel d bs ≢ exhausted
  unfolding parse after
  parse_total zero d bs progress h e = omega (arith, h)
  parse_total (suc fuel) d bs progress h e =
      elim (Bool-cases (ltb (length bs) (dec.writable_len d))) [
        | inl few ↦ absurd (ground arith)
        | inr enough ↦ elim (Decoded-cases (dec.next_frame d (take (dec.writable_len d) bs))) [
          | inl (f, d1, e1) ↦ absurd (ground arith)
          | inr (inr (d1, e1)) ↦ absurd (ground arith)
          | inr (inl (d1, e1)) ↦
              parse_enough fuel d1 (drop (dec.writable_len d) bs) progress (progress d _ d1 e1)
                (omega (arith, length-drop (dec.writable_len d) bs, h))
                (rw (enough, parse, e1, after) at e)
        ]
      ]

  -- For a decoder that always asks for at least one byte where it misses some, and a socket that stays open: a
  -- call needs no more turns than two and the number of bytes that are held and to come.
  pub read_frame_total :
      (fuel : ℕ) (half : NoiseReadHalf D) (socket : Socket)
      → IsProgressing dec
      → IsOpen socket
      → Holds dec half
      → length (received half ++ bytes_of socket) + 1 < fuel
      → read_frame dec fuel half socket ≢ out_of_fuel
  read_frame_total fuel half socket progress o v h e =
      let (same, _) = read_frame-Agrees dec fuel half socket o v in
      parse_total fuel half.decoder (received half ++ bytes_of socket) progress h
        (sym same ∙ ap (view dec) e)

  bytes_of-append : (xs ys : Socket) → bytes_of (xs ++ ys) ≡ bytes_of xs ++ bytes_of ys
  bytes_of-append [] ys = refl
  bytes_of-append (x ∷ xs) ys =
      ap (λ l. x ++ l) (bytes_of-append xs ys) ∙ sym (append_assoc x (bytes_of xs) (bytes_of ys))

  -- On a socket that stays open, where a call waits and is dropped, and the next call goes on with what comes then:
  -- that call ends as one call does that gets all the bytes and so many turns more. No byte is lost or read twice.
  pub read_frame_resumed :
      (fuel m : ℕ) (half half' : NoiseReadHalf D) (before later : Socket)
      → IsOpen before
      → IsOpen later
      → Holds dec half
      → read_frame dec fuel half before ≡ waiting half'
      → (turns : ℕ) × (view dec (read_frame dec (turns + m) half (before ++ later))
          ≡ view dec (read_frame dec m half' later))
  read_frame_resumed fuel m half half' before later o1 o2 v h =
      let (same, kept) = rw h at (read_frame-Agrees dec fuel half before o1 v) in
      let (turns, whole) =
        parse_more fuel m half.decoder half'.decoder (received half ++ bytes_of before)
          (received half') (bytes_of later) (sym same) in
      let (one, _) =
        read_frame-Agrees dec (turns + m) half (before ++ later) (All-append _ before later o1 o2)
          v in
      let (two, _) = read_frame-Agrees dec m half' later o2 kept in
      let stream : received half ++ bytes_of (before ++ later)
          ≡ (received half ++ bytes_of before) ++ bytes_of later =
        rw (bytes_of-append before later)
          (sym (append_assoc (received half) (bytes_of before) (bytes_of later))) in
      (turns, one ∙ (ap (parse dec (turns + m) half.decoder) stream ∙ (whole ∙ sym two)))
