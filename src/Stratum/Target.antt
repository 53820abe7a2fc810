-- ===== src/Stratum/Target.antt =====
-- Share targets of pool/src/stratum_sv2.rs: `compact_to_target_be`, `compact_to_target_hex`,
-- `hashrate_to_target_be` and `target_be_to_sv2`. A target is 32 bytes, the first weighs most.
pub mod Compact
pub mod Division
pub mod Order
use mining_pool.Base.{
  ℕ, zero, suc, ◌+◌, ◌-◌, ◌*◌, ◌/◌, ◌%◌, ◌^◌, ◌≤◌, ◌<◌, min, ◌≡◌, ◌≢◌, ◌↔◌, ◌⊎◌, inl, inr, refl, ap,
  sym, ◌∙◌, Bool, true, false, not, ◌&&◌, ◌||◌, Option, none, some, List, [], ◌∷◌, ◌++◌, map,
  append-nil, append_assoc, reverse, arith, ltb, leb, ◌==◌, if◌then◌else◌, ltb→lt, lt→ltb, ==_iff,
  ==_self, Bool-cases, Option-cases, length, take, drop, replicate, set, All, All-append,
  All-replicate, All-reverse, length-append, take-append-drop, take-append, drop-append,
  length-take, length-drop, length-replicate, length-reverse, list_eq, list_eq→eq, list_eq_self,
  Outcomes, answer, later,
}
use mining_pool.Words.{IsByte}
use mining_pool.Bitcoin.{Bytes, BitcoinLib, Floats}

-- What every target is: 32 bytes.
abbrev pub IsTarget : Bytes → Type 0
IsTarget t = (length t ≡ 32) × All IsByte t

abbrev zeros32 : Bytes
zeros32 = replicate 32 0

-- `if i < 32 { be[i] = v as u8 }`.
put_byte : Bytes → ℕ → ℕ → Bytes
put_byte be i v = if ltb i 32 then set be i (v % 256) else be

compact_bytes : ℕ → Bytes
unfolding put_byte
compact_bytes bits =
    let exp : ℕ = bits / 2 ^ 24 in
    let mantissa : ℕ = bits % 2 ^ 23 in
    let i : ℕ = 32 - exp in
    if leb 3 exp && leb exp 32
    then put_byte
        (put_byte (put_byte zeros32 i (mantissa / 2 ^ 16 % 2 ^ 8)) (i + 1)
          (mantissa / 2 ^ 8 % 2 ^ 8))
        (i + 2) (mantissa % 2 ^ 8)
    else zeros32

unfoldable pub compact_to_target_be : ℕ → Bytes
unfolding compact_bytes
compact_to_target_be bits = compact_bytes bits

unfoldable pub compact_to_target_hex : BitcoinLib → ℕ → Bytes
unfolding compact_bytes
compact_to_target_hex lib bits = lib.hex_encode (compact_bytes bits)

-- The bytes of the difficulty-1 target.
abbrev pub pdiff1 : Bytes
pdiff1 = set (set zeros32 4 0xff) 5 0xff

-- One pass over the digits; u128 arithmetic wraps.
unfoldable pub div_loop : ℕ → ℕ → Bytes → Bytes
div_loop difficulty carry [] = []
div_loop difficulty carry (b ∷ bs) =
    let val : ℕ = (carry * 256 % 2 ^ 128 + b) % 2 ^ 128 in
    (val / difficulty % 256) ∷ div_loop difficulty (val % difficulty) bs

module _ {F32 F64 : Type 0} (fl : Floats F32 F64) where
  unfoldable pub channel_difficulty : F32 → ℕ
  channel_difficulty hashrate_hps =
      let expected_hashes : F64 = fl.mul (fl.widen hashrate_hps) fl.thirty in
      fl.to_u128 (fl.max (fl.div expected_hashes (fl.of_u64 (2 ^ 32))) fl.one)

  unfoldable pub hashrate_to_target_be : F32 → Bytes
  hashrate_to_target_be hashrate_hps = div_loop (channel_difficulty hashrate_hps) 0 pdiff1

-- The wire form has the last byte first. `none` is the error of `U256::try_from`.
unfoldable pub target_be_to_sv2 : BitcoinLib → Bytes → Option Bytes
target_be_to_sv2 lib target_be =
    if lib.u256_fits (reverse target_be) then some (reverse target_be) else none
