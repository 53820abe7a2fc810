-- ===== src/Stratum/Open/Share.antt =====
-- The share target of a new channel (pool/src/stratum_sv2.rs): what the pool keeps, and what it tells the
-- miner.
use mining_pool.Base.{
  ℕ, ◌*◌, ◌/◌, ◌^◌, ◌≤◌, ◌≡◌, ap, sym, ◌∙◌, some, arith, ltb, if◌then◌else◌, reverse,
}
use mining_pool.Words.{be_value, le_value, be_value-reverse, lex_lt-be_value}
use mining_pool.Bitcoin.{Bytes, BitcoinLib, Floats}
use mathlib.Core.List.{reverse-reverse}
use mining_pool.Stratum.Target.{
  hashrate_to_target_be, compact_to_target_be, channel_difficulty, target_be_to_sv2,
}
use mining_pool.Stratum.Target.Compact.{compact_value, compact_to_target_be-Stands}
use mining_pool.Stratum.Target.Division.{
  hashrate_to_target_be-Stands, hashrate_to_target_be-IsTarget, safe_difficulty,
}
use mining_pool.Stratum.Open.{initial_target}

-- The larger of two numbers.
abbrev pub larger : ℕ → ℕ → ℕ
larger m n = if ltb m n then n else m

le-larger : (m n : ℕ) → n ≤ larger m n
le-larger m n = ground arith

-- The miner reads the number that the pool keeps.
pub target_be_to_sv2-le_value :
    (lib : BitcoinLib) (t wire : Bytes)
    → target_be_to_sv2 lib t ≡ some wire
    → le_value wire ≡ be_value t
unfolding target_be_to_sv2
target_be_to_sv2-le_value lib t wire e =
    let same : reverse t ≡ wire = ground arith in
    rw (← same) (sym (be_value-reverse (reverse t)) ∙ ap be_value (reverse-reverse t))

module _ {F32 F64 : Type 0} (lib : BitcoinLib) (fl : Floats F32 F64) (rate : F32) (bits : ℕ) where
  initial_target-larger :
      be_value (initial_target fl rate bits)
      ≡ larger (be_value (hashrate_to_target_be fl rate)) (compact_value bits)
  unfolding initial_target
  initial_target-larger =
      let (len, small, value) = (compact_to_target_be-Stands lib bits).0 in
      let (len', small') = hashrate_to_target_be-IsTarget fl rate in
      rw
        (
          ← value,
          lex_lt-be_value (hashrate_to_target_be fl rate) (compact_to_target_be bits) small' small
              (len' ∙ sym len),
        )
        (ground arith)

  -- For a difficulty of 1 to 2^120 a new channel's target is, as a number, the larger of the network's
  -- target and 0xffff * 2^208 divided by the difficulty, and the number that the miner reads off the wire
  -- is the same. So no miner is asked for more than the network asks.
  pub initial_target_lem :
      (wire : Bytes)
      → 1 ≤ channel_difficulty fl rate
      → channel_difficulty fl rate ≤ safe_difficulty
      → target_be_to_sv2 lib (initial_target fl rate bits) ≡ some wire
      → (be_value (initial_target fl rate bits)
          ≡ larger (0xffff * 2 ^ 208 / channel_difficulty fl rate) (compact_value bits))
        × (le_value wire ≡ be_value (initial_target fl rate bits))
        × (compact_value bits ≤ be_value (initial_target fl rate bits))
  initial_target_lem wire lo hi told =
      let (_, _, value) = hashrate_to_target_be-Stands fl rate lo hi in
      let whole = rw value at initial_target-larger in
      (
        whole,
        target_be_to_sv2-le_value lib (initial_target fl rate bits) wire told,
        rw whole (le-larger (0xffff * 2 ^ 208 / channel_difficulty fl rate) (compact_value bits)),
      )
