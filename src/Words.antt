-- ===== src/Words.antt =====
-- Byte strings as lists of numbers below 256, and the integer conversions of Rust's core library that
-- pool/src/jobs.rs, pool/src/stratum_sv2.rs and pool/src/db.rs call.
use native.Mathlib.Nat.{pow-suc, pow-zero}
use mathlib.Core.List.{reverse-cons}
use mining_pool.Base.{
  reverse, Bool, true, false, ltb, if◌then◌else◌, replicate, ℕ, zero, suc, ◌+◌, ◌*◌, ◌/◌, ◌%◌, ◌^◌,
  ◌≤◌, ◌<◌, ◌≡◌, refl, ap, List, [], ◌∷◌, ◌++◌, arith, length, All, length-append,
}

abbrev pub IsByte : ℕ → Type 0
IsByte b = b < 256

-- `v.to_le_bytes()` of an unsigned integer of `n` bytes.
abbrev pub le_bytes : ℕ → ℕ → List ℕ
le_bytes zero v = []
le_bytes (suc n) v = (v % 256) ∷ le_bytes n (v / 256)

-- `from_le_bytes`.
abbrev pub le_value : List ℕ → ℕ
le_value [] = 0
le_value (b ∷ bs) = b + 256 * le_value bs

-- `from_be_bytes`: the first byte weighs most.
abbrev pub be_value : List ℕ → ℕ
be_value [] = 0
be_value (b ∷ bs) = b * 256 ^ length bs + be_value bs

-- The order `<` that Rust derives for slices, arrays and strings: the first difference decides.
unfoldable pub lex_lt : List ℕ → List ℕ → Bool
lex_lt [] [] = false
lex_lt [] (y ∷ ys) = true
lex_lt (x ∷ xs) [] = false
lex_lt (x ∷ xs) (y ∷ ys) = if ltb x y then true else if ltb y x then false else lex_lt xs ys

pub length-le_bytes : (n v : ℕ) → length (le_bytes n v) ≡ n
length-le_bytes zero v = refl
length-le_bytes (suc n) v = ap suc (length-le_bytes n (v / 256))

pub le_bytes-IsByte : (n v : ℕ) → All IsByte (le_bytes n v)
le_bytes-IsByte zero v = tt
le_bytes-IsByte (suc n) v = (omega arith, le_bytes-IsByte n (v / 256))

pub le_value-le_bytes : (n v : ℕ) → v < 256 ^ n → le_value (le_bytes n v) ≡ v
le_value-le_bytes zero v h = omega arith
le_value-le_bytes (suc n) v h =
    omega (arith, le_value-le_bytes n (v / 256) (omega (arith, pow-suc 256 n)))

pub be_value-lt : (bs : List ℕ) → All IsByte bs → be_value bs < 256 ^ length bs
be_value-lt [] h = omega arith
be_value-lt (b ∷ bs) h =
    let below : b * 256 ^ length bs + 256 ^ length bs ≤ 256 ^ length bs * 256 = grind arith in
    omega (arith, be_value-lt bs h.1, pow-suc 256 (length bs))

pow_add : (b m n : ℕ) → b ^ (m + n) ≡ b ^ m * b ^ n
pow_add b zero n = let e : zero + n ≡ n = omega arith in rw (e, pow-zero b) (omega arith)
pow_add b (suc m) n =
    let e : suc m + n ≡ suc (m + n) = omega arith in
    rw (e, pow-suc b (m + n), pow-suc b m, pow_add b m n) (omega arith)

regroup : (x p q s t : ℕ) → x * (p * q) + (s * q + t) ≡ (x * p + s) * q + t
regroup x p q s t = omega arith

pub be_value-append :
    (xs ys : List ℕ) → be_value (xs ++ ys) ≡ be_value xs * 256 ^ length ys + be_value ys
be_value-append [] ys = omega arith
be_value-append (x ∷ xs) ys =
    let w : 256 ^ length (xs ++ ys) ≡ 256 ^ length xs * 256 ^ length ys =
      rw (length-append xs ys) (pow_add 256 (length xs) (length ys)) in
    rw (w, be_value-append xs ys) (regroup x (256 ^ length xs) (256 ^ length ys) _ _)

pub be_value-zeros : (n : ℕ) → be_value (replicate n 0) ≡ 0
be_value-zeros zero = refl
be_value-zeros (suc n) = omega (arith, be_value-zeros n)

digit_lt : (x y a c b : ℕ) → x < y → a < b → x * b + a < y * b + c
digit_lt x y a c b h k = let step : x * b + b ≤ y * b = grind arith in omega arith

-- On byte strings of one length the derived order is the order of the numbers that they stand for.
pub lex_lt-be_value :
    (xs ys : List ℕ)
    → All IsByte xs
    → All IsByte ys
    → length xs ≡ length ys
    → lex_lt xs ys ≡ ltb (be_value xs) (be_value ys)
unfolding lex_lt
lex_lt-be_value [] [] hx hy e = refl
lex_lt-be_value [] (y ∷ ys) hx hy e = absurd (omega arith)
lex_lt-be_value (x ∷ xs) [] hx hy e = absurd (omega arith)
lex_lt-be_value (x ∷ xs) (y ∷ ys) hx hy e =
    let same : length xs ≡ length ys = omega arith in
    ground (
      arith,
      ap (λ (n : ℕ). 256 ^ n) same,
      ap (λ (n : ℕ). x * 256 ^ n) same,
      lex_lt-be_value xs ys hx.1 hy.1 same,
      be_value-lt xs hx.1,
      be_value-lt ys hy.1,
      digit_lt x y (be_value xs) (be_value ys) (256 ^ length xs),
      digit_lt y x (be_value ys) (be_value xs) (256 ^ length ys),
    )

-- Read backwards, big-endian is little-endian.
pub be_value-reverse : (bs : List ℕ) → be_value (reverse bs) ≡ le_value bs
be_value-reverse [] = refl
be_value-reverse (b ∷ bs) =
    rw (reverse-cons b bs, be_value-append (reverse bs) (b ∷ []), be_value-reverse bs) (omega arith)

pub lex_lt_irrefl : (xs : List ℕ) → lex_lt xs xs ≡ false
unfolding lex_lt
lex_lt_irrefl [] = refl
lex_lt_irrefl (x ∷ xs) = ground (arith, lex_lt_irrefl xs)

pub lex_lt_trans :
    (xs ys zs : List ℕ) → lex_lt xs ys ≡ true → lex_lt ys zs ≡ true → lex_lt xs zs ≡ true
unfolding lex_lt
lex_lt_trans [] [] zs h k = absurd (ground arith)
lex_lt_trans [] (y ∷ ys) [] h k = absurd (ground arith)
lex_lt_trans [] (y ∷ ys) (z ∷ zs) h k = refl
lex_lt_trans (x ∷ xs) [] zs h k = absurd (ground arith)
lex_lt_trans (x ∷ xs) (y ∷ ys) [] h k = absurd (ground arith)
lex_lt_trans (x ∷ xs) (y ∷ ys) (z ∷ zs) h k = ground (arith, lex_lt_trans xs ys zs)
