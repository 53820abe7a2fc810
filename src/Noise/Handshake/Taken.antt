-- ===== src/Noise/Handshake/Taken.antt =====
-- What `read_exact` leaves in a socket of pool/src/noise_connection.rs.
use mining_pool.Base.{
  ℕ, ◌-◌, ◌≡◌, refl, sym, ap, ◌∙◌, inl, inr, false, some, [], ◌∷◌, ◌++◌, arith, leb, ◌==◌,
  Bool-cases, Option-cases, length, take, drop, take-append-drop, append_assoc,
}
use mining_pool.Bitcoin.{Bytes}
use mining_pool.Noise.{Socket}
use mining_pool.Noise.Buffer.{bytes_of, IsOpen}
use mining_pool.Noise.Handshake.{put_back, read_exact}

-- Some bytes of the socket were taken from its front, and the rest is left as it was.
pub record IsTaken (socket rest : Socket) : Type 0 where
  pub taken : Bytes
  pub split : bytes_of socket ≡ taken ++ bytes_of rest
  pub still_open : IsOpen rest

put_back-bytes_of :
    (piece : Bytes) (socket : Socket) → bytes_of (put_back piece socket) ≡ piece ++ bytes_of socket
unfolding put_back
put_back-bytes_of [] socket = refl
put_back-bytes_of (b ∷ bs) socket = refl

put_back-IsOpen : (piece : Bytes) (socket : Socket) → IsOpen socket → IsOpen (put_back piece socket)
unfolding put_back
put_back-IsOpen [] socket o = o
put_back-IsOpen (b ∷ bs) socket o = (omega arith, o)

pub read_exact-IsTaken :
    (n : ℕ) (socket : Socket) (bytes : Bytes) (rest : Socket)
    → IsOpen socket
    → read_exact n socket ≡ some (bytes, rest)
    → IsTaken socket rest
unfolding read_exact
read_exact-IsTaken n [] bytes rest o e = elim (Bool-cases (n == 0)) [
  | inl zero_wanted ↦
      let same : [] ≡ rest = let e' = rw (zero_wanted, read_exact) at e in ground (arith, e') in
      rw (← same) (record { taken = []; split = refl; still_open = tt })
  | inr more ↦ let e' = rw (more, read_exact) at e in absurd (ground (arith, e'))
]
read_exact-IsTaken n (piece ∷ socket) bytes rest (some_bytes, o) e = elim (Bool-cases (n == 0)) [
  | inl zero_wanted ↦
      let e' = rw (zero_wanted, read_exact) at e in
      let same : piece ∷ socket ≡ rest = ground (arith, e') in
      rw (← same) (record { taken = []; split = refl; still_open = (some_bytes, o) })
  | inr wanted ↦
      let full : (length piece == 0) ≡ false = ground arith in
      elim (Bool-cases (leb n (length piece))) [
        | inl enough ↦
            let e' = rw (wanted, full, enough, read_exact) at e in
            let same : put_back (drop n piece) socket ≡ rest = ground (arith, e') in
            rw (← same) (record {
              taken = take n piece;
              split =
                  ap (λ l. l ++ bytes_of socket) (sym (take-append-drop n piece))
                  ∙ append_assoc (take n piece) (drop n piece) (bytes_of socket)
                  ∙ ap (λ l. take n piece ++ l) (sym (put_back-bytes_of (drop n piece) socket));
              still_open = put_back-IsOpen (drop n piece) socket o;
            })
        | inr short ↦ elim (Option-cases (read_exact (n - length piece) socket)) [
          | inl missing ↦
              let e' = rw (wanted, full, short, missing, read_exact) at e in
              absurd (ground (arith, e'))
          | inr ((front, behind), got) ↦
              let e' = rw (wanted, full, short, got, read_exact) at e in
              let same : behind ≡ rest = ground (arith, e') in
              let v = read_exact-IsTaken (n - length piece) socket front behind o got in
              rw (← same) (record {
                taken = piece ++ v.taken;
                split =
                    ap (λ l. piece ++ l) v.split
                    ∙ sym (append_assoc piece v.taken (bytes_of behind));
                still_open = v.still_open;
              })
        ]
      ]
]

pub IsTaken-trans :
    (socket middle rest : Socket)
    → IsTaken socket middle
    → IsTaken middle rest
    → IsTaken socket rest
IsTaken-trans socket middle rest v v' = record {
  taken = v.taken ++ v'.taken;
  split =
      v.split
      ∙ ap (λ l. v.taken ++ l) v'.split
      ∙ sym (append_assoc v.taken v'.taken (bytes_of rest));
  still_open = v'.still_open;
}
