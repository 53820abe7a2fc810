-- ===== src/Db/Reader.antt =====
-- `DbReader` of pool/src/db.rs: the hashrate of a miner and of the pool, from the rows of minute_hashrates.
pub mod Pruned
use mining_pool.Base.{
  ℕ, ◌+◌, ◌-◌, ◌*◌, ◌%◌, ◌^◌, Bool, not, ◌&&◌, Option, none, some, List, [], ◌∷◌, ltb,
  if◌then◌else◌, list_eq, Outcomes, answer,
}
use mining_pool.Base.Int.{ℤ, pos, negsuc}
use mining_pool.Bitcoin.{Bytes, Floats}
use mining_pool.Db.Tables.{Tables, MinuteHashrate, int_lt, int_sub}

-- An `i64` wraps.
unfoldable pub wrap_i64 : ℤ → ℤ
wrap_i64 (pos n) =
    let m : ℕ = n % 2 ^ 64 in if ltb m (2 ^ 63) then pos m else negsuc (2 ^ 64 - 1 - m)
wrap_i64 (negsuc n) =
    let m : ℕ = n % 2 ^ 64 in if ltb m (2 ^ 63) then negsuc m else pos (2 ^ 64 - 1 - m)

-- `now_secs() - (lookback_minutes as i64 * 60)`.
unfoldable pub lookback_cutoff : ℤ → ℕ → ℤ
lookback_cutoff now lookback_minutes = wrap_i64 (int_sub now (lookback_minutes * 60))

-- The column difficulty_sum of the rows that a WHERE clause picks.
unfoldable pub select_sums :
    {F64 : Type 0} → (MinuteHashrate F64 → Bool) → List (MinuteHashrate F64) → List F64
select_sums where_clause [] = []
select_sums where_clause (row ∷ rows) =
    let rest = select_sums where_clause rows in
    if where_clause row then row.difficulty_sum ∷ rest else rest

module _ {F32 F64 : Type 0} (fl : Floats F32 F64) (sum : List F64 → F64) where
  -- `COALESCE(SUM(difficulty_sum), 0.0)`: SUM of no row is NULL. SQLite's SUM of some rows is the parameter.
  unfoldable pub coalesce_sum : List F64 → F64
  coalesce_sum [] = fl.zero
  coalesce_sum (x ∷ xs) = sum (x ∷ xs)

  -- `diff_sum * 4_294_967_296.0 / (lookback_minutes as f64 * 60.0)`.
  unfoldable pub estimated : F64 → ℕ → F64
  estimated diff_sum lookback_minutes =
      fl.div (fl.mul diff_sum (fl.of_u64 (2 ^ 32))) (fl.mul (fl.of_u64 lookback_minutes) fl.sixty)

  unfoldable pub hashrate_for_address : Bytes → ℕ → ℤ → Tables F64 → Outcomes → Option F64
  hashrate_for_address address lookback_minutes now t answers =
      let cutoff : ℤ = lookback_cutoff now lookback_minutes in
      let sums : List F64 =
        select_sums (λ row. list_eq row.miner_address address && not (int_lt row.minute_ts cutoff))
          t.minute_hashrates in
      if answer answers then some (estimated (coalesce_sum sums) lookback_minutes) else none

  unfoldable pub pool_hashrate : ℕ → ℤ → Tables F64 → Outcomes → Option F64
  pool_hashrate lookback_minutes now t answers =
      let cutoff : ℤ = lookback_cutoff now lookback_minutes in
      let sums : List F64 =
        select_sums (λ row. not (int_lt row.minute_ts cutoff)) t.minute_hashrates in
      if answer answers then some (estimated (coalesce_sum sums) lookback_minutes) else none
