-- ===== src/Stratum/Target/Division.antt =====
-- The long division of `hashrate_to_target_be` (pool/src/stratum_sv2.rs).
use mining_pool.Base.{
  ℕ, suc, ◌+◌, ◌*◌, ◌/◌, ◌%◌, ◌^◌, ◌≤◌, ◌<◌, ◌≡◌, refl, ap, sym, ◌∙◌, [], ◌∷◌, arith, length, All,
}
use native.Mathlib.Nat.{
  pow-suc, div-add-mod', mod-lt, div-lt_iff_lt-mul, mod-eq_of_lt, div-eq_of_lt-le,
}
use mining_pool.Words.{IsByte, be_value}
use mining_pool.Bitcoin.{Bytes, Floats}
use mining_pool.Stratum.Target.{
  IsTarget, pdiff1, div_loop, channel_difficulty, hashrate_to_target_be,
}
use mining_pool.Stratum.Target.Compact.{Stands}

-- Below this difficulty no step of the division leaves the range of u128.
abbrev pub safe_difficulty : ℕ
safe_difficulty = 2 ^ 120

length-div_loop : (d carry : ℕ) (bs : Bytes) → length (div_loop d carry bs) ≡ length bs
unfolding div_loop
length-div_loop d carry [] = refl
length-div_loop d carry (b ∷ bs) =
    ap suc (length-div_loop d ((carry * 256 % 2 ^ 128 + b) % 2 ^ 128 % d) bs)

div_loop-IsByte : (d carry : ℕ) (bs : Bytes) → All IsByte (div_loop d carry bs)
unfolding div_loop
div_loop-IsByte d carry [] = tt
div_loop-IsByte d carry (b ∷ bs) =
    (omega arith, div_loop-IsByte d ((carry * 256 % 2 ^ 128 + b) % 2 ^ 128 % d) bs)

no_wrap :
    (d carry b : ℕ)
    → d ≤ safe_difficulty
    → carry < d
    → IsByte b
    → (carry * 256 % 2 ^ 128 + b) % 2 ^ 128 ≡ carry * 256 + b
no_wrap d carry b hd hc hb = omega arith

digit_fits : (d val : ℕ) → val < 256 * d → 0 < d → val / d % 256 ≡ val / d
digit_fits d val h pos = mod-eq_of_lt ((div-lt_iff_lt-mul pos).1 h)

-- The digits are those of the quotient, and the last carry is the remainder.
div_loop_value :
    (d carry : ℕ) (bs : Bytes)
    → d ≤ safe_difficulty
    → carry < d
    → All IsByte bs
    → (r : ℕ) × (r < d)
      × (be_value (div_loop d carry bs) * d + r ≡ carry * 256 ^ length bs + be_value bs)
unfolding div_loop
div_loop_value d carry [] hd hc hb = (carry, hc, omega arith)
div_loop_value d carry (b ∷ bs) hd hc hb =
    let val : ℕ = carry * 256 + b in
    let p : ℕ = 256 ^ length bs in
    let (r, small, e) = div_loop_value d (val % d) bs hd (mod-lt val (omega arith)) hb.1 in
    let whole : val / d * d + val % d ≡ val = div-add-mod' val d in
    let fits : val / d % 256 ≡ val / d = digit_fits d val (omega (arith, hb.0)) (omega arith) in
    (
      r,
      small,
      rw
          (
            no_wrap d carry b hd hc hb.0,
            fits,
            length-div_loop d (val % d) bs,
            pow-suc 256 (length bs),
          )
          (omega (arith, e, ap (λ (t : ℕ). t * p) whole)),
    )

div_loop-Stands :
    (d : ℕ) (bs : Bytes)
    → 1 ≤ d
    → d ≤ safe_difficulty
    → length bs ≡ 32
    → All IsByte bs
    → Stands (div_loop d 0 bs) (be_value bs / d)
div_loop-Stands d bs lo hi len small =
    let (r, below, e) = div_loop_value d 0 bs hi lo small in
    let q : ℕ = be_value (div_loop d 0 bs) in
    let quotient : be_value bs / d ≡ q =
      div-eq_of_lt-le d (omega (arith, e)) (omega (arith, e, below)) in
    (length-div_loop d 0 bs ∙ len, div_loop-IsByte d 0 bs, sym quotient)

-- For a difficulty of 1 to 2^120 the division is exact integer division of the difficulty-1 target,
-- which is 0xffff * 2^208: the quotient has 32 bytes, and neither the products of u128 nor the casts to
-- u8 lose anything.
pub hashrate_to_target_be-Stands :
    {F32 F64 : Type 0} (fl : Floats F32 F64) (hashrate : F32)
    → 1 ≤ channel_difficulty fl hashrate
    → channel_difficulty fl hashrate ≤ safe_difficulty
    → Stands (hashrate_to_target_be fl hashrate) (0xffff * 2 ^ 208 / channel_difficulty fl hashrate)
unfolding hashrate_to_target_be
hashrate_to_target_be-Stands fl hashrate lo hi =
    div_loop-Stands (channel_difficulty fl hashrate) pdiff1 lo hi refl (omega arith)

-- Whatever the difficulty is, the result is a target.
pub hashrate_to_target_be-IsTarget :
    {F32 F64 : Type 0} (fl : Floats F32 F64) (hashrate : F32)
    → IsTarget (hashrate_to_target_be fl hashrate)
unfolding hashrate_to_target_be
hashrate_to_target_be-IsTarget fl hashrate = (
  length-div_loop (channel_difficulty fl hashrate) 0 pdiff1,
  div_loop-IsByte (channel_difficulty fl hashrate) 0 pdiff1,
)
