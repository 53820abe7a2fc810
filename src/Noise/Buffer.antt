-- ===== src/Noise/Buffer.antt =====
-- The buffer of `NoiseReadHalf` (pool/src/noise_connection.rs): filling it keeps all bytes of the stream, in order.
use mining_pool.Base.{
  ℕ, ◌+◌, ◌-◌, ◌≤◌, ◌<◌, ◌≡◌, ◌⊎◌, inl, inr, refl, sym, ap, ◌∙◌, false, [], ◌∷◌, ◌++◌, arith, ltb,
  leb, ◌==◌, ==_iff, Bool-cases, length, take, drop, append-nil, append_assoc, replicate,
  length-replicate, length-append, length-take, length-drop, take-append, drop-append,
  take-append-drop, All,
}
use mathlib.Core.Path.{subst}
use mining_pool.Bitcoin.{Bytes}
use mining_pool.Noise.{
  Decoder, NoiseReadHalf, Socket, Filled, full, partial, ended, prepare, store, fill,
}

-- All bytes of a socket.
abbrev pub bytes_of : Socket → Bytes
bytes_of [] = []
bytes_of (piece ∷ socket) = piece ++ bytes_of socket

-- No piece is empty: the socket stays open.
abbrev pub IsOpen : Socket → Type 0
IsOpen socket = All (λ piece. 0 < length piece) socket

-- The bytes that the buffer holds.
abbrev pub received : {D : Type 0} → NoiseReadHalf D → Bytes
received half = take half.bytes_read half.buf

take_whole : (n : ℕ) (xs : Bytes) → length xs ≡ n → take n xs ≡ xs
take_whole n xs e = rw (← e) (ap (take (length xs)) (sym (append-nil xs)) ∙ take-append xs [])

pub take_front : (n : ℕ) (xs ys : Bytes) → length xs ≡ n → take n (xs ++ ys) ≡ xs
take_front n xs ys e = rw (← e) (take-append xs ys)

pub drop_front : (n : ℕ) (xs ys : Bytes) → length xs ≡ n → drop n (xs ++ ys) ≡ ys
drop_front n xs ys e = rw (← e) (drop-append xs ys)

module _ {D F : Type 0} (dec : Decoder D F) where
  -- Bytes are held only for the decoder that wants them.
  pub record Holds (half : NoiseReadHalf D) : Type 0 where
    pub room : half.bytes_read ≤ length half.buf
    pub wanted : (half.bytes_read ≡ 0) ⊎ (length half.buf ≡ dec.writable_len half.decoder)

  -- What filling the buffer does to the stream.
  abbrev pub Fills : ℕ → D → Bytes → Filled D → Type 0
  Fills expected d bs (full half socket) =
      (length half.buf ≡ expected)
      × (half.decoder ≡ d)
      × (half.buf ++ bytes_of socket ≡ bs)
      × IsOpen socket
  Fills expected d bs (partial half) =
      (half.bytes_read < expected)
      × (half.decoder ≡ d)
      × (received half ≡ bs)
      × (length half.buf ≡ expected)
  Fills expected d bs (ended half) = half.bytes_read < half.bytes_read

  store-received :
      (piece : Bytes) (half : NoiseReadHalf D)
      → half.bytes_read + length piece ≤ length half.buf
      → (received (store dec piece half) ≡ received half ++ piece)
        × (length (store dec piece half).buf ≡ length half.buf)
  unfolding store
  store-received piece half fits =
      let front : length (received half) ≡ half.bytes_read =
        omega (arith, length-take half.bytes_read half.buf) in
      let back = length-drop (half.bytes_read + length piece) half.buf in
      let both = length-append (received half) piece in
      let rest = drop (half.bytes_read + length piece) half.buf in
      (
        rw (← append_assoc (received half) piece rest) (
            take_front (half.bytes_read + length piece) (received half ++ piece) rest
              (omega (arith, front, both))),
        omega (
          arith,
          front,
          back,
          length-append (received half) (piece ++ rest),
          length-append piece rest,
        ),
      )

  -- A buffer that one more piece fills.
  store_full :
      (piece : Bytes) (half : NoiseReadHalf D)
      → half.bytes_read + length piece ≡ length half.buf
      → (store dec piece half).buf ≡ received half ++ piece
  unfolding store
  store_full piece half fits =
      let (held, len) = store-received piece half (omega (arith, fits)) in
      sym (
        take_whole (half.bytes_read + length piece) (store dec piece half).buf
          (omega (arith, len, fits)))
      ∙ held

  pub fill-Fills :
      (expected : ℕ) (half : NoiseReadHalf D) (socket : Socket)
      → IsOpen socket
      → half.bytes_read ≤ expected
      → length half.buf ≡ expected
      → Fills expected half.decoder
          (received half ++ bytes_of socket)
          (fill dec expected half socket)
  unfolding fill store
  fill-Fills expected half [] o h e = elim (Bool-cases (ltb half.bytes_read expected)) [
    | inl less ↦ rw (less, Fills, fill) (ground arith, refl, sym (append-nil (received half)), e)
    | inr not_less ↦
        let all : half.bytes_read ≡ length half.buf = ground arith in
        rw (not_less, Fills, fill)
          (e, refl, ap (λ l. l ++ []) (sym (take_whole half.bytes_read half.buf (sym all))), tt)
  ]
  fill-Fills expected half (piece ∷ socket) (nonempty, o) h e =
      elim (Bool-cases (ltb half.bytes_read expected)) [
        | inl less ↦ elim (Bool-cases (leb (length piece) (expected - half.bytes_read))) [
          | inl fits ↦
              let room : half.bytes_read + length piece ≤ expected = ground arith in
              let (held, len) = store-received piece half (omega (arith, room, e)) in
              let some_bytes : (length piece == 0) ≡ false = ground arith in
              let stream : received (store dec piece half) ++ bytes_of socket
                  ≡ received half ++ (piece ++ bytes_of socket) =
                rw held (append_assoc (received half) piece (bytes_of socket)) in
              rw (less, fits, some_bytes)
                (subst
                  (λ bs.
                    Fills expected half.decoder bs
                      (fill dec expected (store dec piece half) socket))
                  stream (fill-Fills expected (store dec piece half) socket o room (len ∙ e)))
          | inr over ↦
              let room : ℕ = expected - half.bytes_read in
              let longer : room < length piece = ground arith in
              let taken : length (take room piece) ≡ room = omega (arith, length-take room piece) in
              let fits : half.bytes_read + length (take room piece) ≡ length half.buf =
                ground (arith, e, taken) in
              let (_, len) = store-received (take room piece) half (omega (arith, fits)) in
              let some_bytes : (length piece == 0) ≡ false = ground arith in
              rw (less, over, some_bytes, fill, Fills)
                (
                  len ∙ e,
                  refl,
                  ap (λ l. l ++ (drop room piece ++ bytes_of socket))
                        (store_full (take room piece) half fits)
                      ∙ (append_assoc (received half) (take room piece)
                            (drop room piece ++ bytes_of socket)
                          ∙ ap (λ l. received half ++ l)
                              (sym (
                                  append_assoc (take room piece) (drop room piece)
                                    (bytes_of socket))
                                ∙ ap (λ l. l ++ bytes_of socket) (take-append-drop room piece))),
                  (omega (arith, length-drop room piece), o),
                )
        ]
        | inr not_less ↦
            let all : half.bytes_read ≡ length half.buf = ground arith in
            rw (not_less, Fills, fill)
              (
                e,
                refl,
                ap (λ l. l ++ (piece ++ bytes_of socket))
                    (sym (take_whole half.bytes_read half.buf (sym all))),
                (nonempty, o),
              )
      ]

  pub prepare_lem :
      (half : NoiseReadHalf D)
      → Holds half
      → (length (prepare dec half).buf ≡ dec.writable_len half.decoder)
        × ((prepare dec half).bytes_read ≤ dec.writable_len half.decoder)
        × ((prepare dec half).decoder ≡ half.decoder)
        × (received (prepare dec half) ≡ received half)
  unfolding prepare
  prepare_lem half v = elim (Bool-cases (length half.buf == dec.writable_len half.decoder)) [
    | inl same ↦
        let e : length half.buf ≡ dec.writable_len half.decoder = (==_iff _ _).0 same in
        rw same (e, omega (arith, e, v.room), refl, refl)
    | inr other ↦
        let none_held : half.bytes_read ≡ 0 = elim v.wanted [
          | inl z ↦ z
          | inr e ↦ absurd (ground arith)
        ] in
        let expected = dec.writable_len half.decoder in
        rw other (
          omega (
            arith,
            length-take expected (half.buf ++ replicate expected 0),
            length-append half.buf (replicate expected 0),
            length-replicate {A = ℕ} expected 0,
          ),
          omega arith,
          refl,
          rw none_held refl,
        )
  ]
