-- ===== src/Stratum/Target/Compact.antt =====
-- The value of a compact target (pool/src/stratum_sv2.rs).
use mining_pool.Base.{
  ℕ, zero, suc, ◌+◌, ◌-◌, ◌*◌, ◌/◌, ◌%◌, ◌^◌, ◌≤◌, ◌≡◌, inl, inr, refl, ap, ◌∙◌, Bool, true, false,
  ◌&&◌, ◌∷◌, ◌++◌, arith, ltb, leb, if◌then◌else◌, Bool-cases, length, replicate, set, All,
  All-append, All-replicate, length-append, length-replicate,
}
use native.Mathlib.Nat.{pow-suc}
use mining_pool.Words.{IsByte, be_value, be_value-append, be_value-zeros}
use mining_pool.Bitcoin.{Bytes, BitcoinLib}
use mining_pool.Stratum.Target.{zeros32, compact_bytes, compact_to_target_be, compact_to_target_hex}

-- Three bytes in a row between zeros.
abbrev three_bytes : ℕ → ℕ → ℕ → ℕ → ℕ → Bytes
three_bytes i j a b c = replicate i 0 ++ (a ∷ b ∷ c ∷ replicate j 0)

set_three :
    (i j a b c n m k : ℕ)
    → n ≡ i + (j + 3)
    → m ≡ i + 1
    → k ≡ i + 2
    → set (set (set (replicate n 0) i a) m b) k c ≡ three_bytes i j a b c
set_three zero j a b c n m k en em ek =
    let en' : n ≡ suc (suc (suc j)) = omega arith in
    let em' : m ≡ 1 = omega arith in let ek' : k ≡ 2 = omega arith in rw (en', em', ek')
set_three (suc i) j a b c n m k en em ek =
    let en' : n ≡ suc (i + (j + 3)) = omega arith in
    let em' : m ≡ suc (i + 1) = omega arith in
    let ek' : k ≡ suc (i + 2) = omega arith in
    rw (en', em', ek') (ap (◌∷◌ 0) (set_three i j a b c _ _ _ refl refl refl))

compact_bytes_shape :
    (bits j : ℕ)
    → bits / 2 ^ 24 ≡ j + 3
    → j ≤ 29
    → compact_bytes bits
      ≡ three_bytes
          (29 - j)
          j
          (bits % 2 ^ 23 / 2 ^ 16 % 2 ^ 8 % 256)
          (bits % 2 ^ 23 / 2 ^ 8 % 2 ^ 8 % 256)
          (bits % 2 ^ 23 % 2 ^ 8 % 256)
unfolding compact_bytes
compact_bytes_shape bits j e h =
    let inside : (leb 3 (bits / 2 ^ 24) && leb (bits / 2 ^ 24) 32) ≡ true = ground arith in
    let first : ltb (32 - bits / 2 ^ 24) 32 ≡ true = ground arith in
    let second : ltb (32 - bits / 2 ^ 24 + 1) 32 ≡ true = ground arith in
    let third : ltb (32 - bits / 2 ^ 24 + 2) 32 ≡ true = ground arith in
    let place : 32 - bits / 2 ^ 24 ≡ 29 - j = omega arith in
    rw (inside, first, second, third)
      (rw place (set_three (29 - j) j _ _ _ 32 _ _ (omega arith) refl refl))

be_value-three_bytes :
    (i j a b c : ℕ) → be_value (three_bytes i j a b c) ≡ (a * 65536 + b * 256 + c) * 256 ^ j
be_value-three_bytes i j a b c =
    rw
      (
        be_value-append (replicate i 0) (a ∷ b ∷ c ∷ replicate j 0),
        be_value-zeros i,
        be_value-zeros j,
        length-replicate {A = ℕ} j 0,
        pow-suc 256 (suc j),
        pow-suc 256 j,
      )
      (omega arith)

three_bytes_shape :
    (i j a b c : ℕ)
    → IsByte a
    → IsByte b
    → IsByte c
    → (length (three_bytes i j a b c) ≡ i + (j + 3)) × All IsByte (three_bytes i j a b c)
three_bytes_shape i j a b c ha hb hc = (
  omega (
    arith,
    length-append (replicate i 0) (a ∷ b ∷ c ∷ replicate j 0),
    length-replicate {A = ℕ} i 0,
    length-replicate {A = ℕ} j 0,
  ),
  All-append IsByte (replicate i 0) _ (All-replicate IsByte i 0 (omega arith))
      (ha, (hb, (hc, All-replicate IsByte j 0 (omega arith)))),
)

-- The exponents at which the mantissa falls into the 32 bytes.
abbrev pub in_range : ℕ → Bool
in_range bits = leb 3 (bits / 2 ^ 24) && leb (bits / 2 ^ 24) 32

compact_bytes_zero : (bits : ℕ) → in_range bits ≡ false → compact_bytes bits ≡ zeros32
unfolding compact_bytes
compact_bytes_zero bits h = rw h

-- What the statement below says of a byte string and its value.
abbrev pub Stands : Bytes → ℕ → Type 0
Stands t v = (length t ≡ 32) × All IsByte t × (be_value t ≡ v)

abbrev pub compact_value : ℕ → ℕ
compact_value bits = if in_range bits then bits % 2 ^ 23 * 256 ^ (bits / 2 ^ 24 - 3) else 0

compact_bytes-Stands : (bits : ℕ) → Stands (compact_bytes bits) (compact_value bits)
compact_bytes-Stands bits = elim (Bool-cases (in_range bits)) [
  | inl inside ↦
      let j : ℕ = bits / 2 ^ 24 - 3 in
      let e : bits / 2 ^ 24 ≡ j + 3 = ground arith in
      let h : j ≤ 29 = ground arith in
      let high : ℕ = bits % 2 ^ 23 / 2 ^ 16 % 2 ^ 8 % 256 in
      let middle : ℕ = bits % 2 ^ 23 / 2 ^ 8 % 2 ^ 8 % 256 in
      let low : ℕ = bits % 2 ^ 23 % 2 ^ 8 % 256 in
      let sum : high * 65536 + middle * 256 + low ≡ bits % 2 ^ 23 = omega arith in
      let (len, small) =
        three_bytes_shape (29 - j) j high middle low (omega arith) (omega arith) (omega arith) in
      rw (inside, compact_bytes_shape bits j e h)
        (
          omega (arith, len),
          small,
          be_value-three_bytes (29 - j) j high middle low ∙ ap (λ (m : ℕ). m * 256 ^ j) sum,
        )
  | inr outside ↦
      rw (outside, compact_bytes_zero bits outside)
        (refl, All-replicate IsByte 32 0 (omega arith), be_value-zeros 32)
]

-- The target of compact bits is 32 bytes, which stand for mantissa * 256 ^ (exponent - 3) with the low
-- 23 bits as mantissa and the bits from 24 on as exponent if that is 3 to 32, and for 0 if not. Its text
-- form is the text of these bytes.
pub compact_to_target_be-Stands :
    (lib : BitcoinLib) (bits : ℕ)
    → Stands (compact_to_target_be bits) (compact_value bits)
      × (compact_to_target_hex lib bits ≡ lib.hex_encode (compact_to_target_be bits))
unfolding compact_to_target_be compact_to_target_hex
compact_to_target_be-Stands lib bits = (compact_bytes-Stands bits, refl)
