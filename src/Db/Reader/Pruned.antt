-- ===== src/Db/Reader/Pruned.antt =====
-- The queries of pool/src/db.rs behind the deletions of its worker.
use mining_pool.Base.{
  ℕ, ◌^◌, ◌≤◌, ◌<◌, ◌≡◌, refl, inl, inr, Bool, true, false, not, ◌&&◌, List, [], ◌∷◌, arith,
  list_eq, map, Bool-cases, Outcomes,
}
use mining_pool.Base.Int.{ℤ, pos, negsuc}
use mining_pool.Bitcoin.{Bytes, Floats}
use mining_pool.Db.Tables.{
  Tables, MinuteHashrate, int_lt, int_sub, keep_from, prune_minutes, insert_miner,
}
use mining_pool.Db.Worker.{
  Batches, floor_minute, minute_retention_secs, share_statements, window_statements,
  flush_statements,
}
use mining_pool.Db.Worker.Statements.{apply_all, flush_statements_split}
use mining_pool.Db.Reader.{
  wrap_i64, lookback_cutoff, select_sums, hashrate_for_address, pool_hashrate,
}

int_lt_weaken : (x a b : ℤ) → int_lt x a ≡ true → int_lt b a ≡ false → int_lt x b ≡ true
unfolding int_lt
int_lt_weaken (pos x) (pos a) (pos b) h k = ground arith
int_lt_weaken (pos x) (pos a) (negsuc b) h k = ground arith
int_lt_weaken (pos x) (negsuc a) b h k = absurd (ground arith)
int_lt_weaken (negsuc x) (pos a) (pos b) h k = refl
int_lt_weaken (negsuc x) (pos a) (negsuc b) h k = ground arith
int_lt_weaken (negsuc x) (negsuc a) (pos b) h k = refl
int_lt_weaken (negsuc x) (negsuc a) (negsuc b) h k = ground arith

-- The cutoff of a query is not before that of an earlier flush.
cutoff_behind :
    (now flushed lookback : ℕ)
    → lookback ≤ 1440
    → flushed ≤ now
    → now < 2 ^ 63
    → int_lt
        (lookback_cutoff (pos now) lookback)
        (int_sub (floor_minute (pos flushed)) minute_retention_secs)
      ≡ false
unfolding int_lt int_sub lookback_cutoff wrap_i64 floor_minute
cutoff_behind now flushed lookback h k small = ground arith

select_sums-keep_from :
    {F64 : Type 0} (where_clause : MinuteHashrate F64 → Bool) (cutoff : ℤ)
    (rows : List (MinuteHashrate F64))
    → ((row : MinuteHashrate F64) → int_lt row.minute_ts cutoff ≡ true → where_clause row ≡ false)
    → select_sums where_clause (keep_from cutoff rows) ≡ select_sums where_clause rows
unfolding select_sums keep_from
select_sums-keep_from where_clause cutoff [] h = refl
select_sums-keep_from where_clause cutoff (row ∷ rows) h =
    let same = select_sums-keep_from where_clause cutoff rows h in
    elim (Bool-cases (int_lt row.minute_ts cutoff)) [
      | inl old ↦ let out = h row old in rw (old, out) same
      | inr recent ↦ rw (recent, select_sums, same) refl
    ]

-- What is asked of the rows, behind a deletion.
module _ {F32 F64 : Type 0} (fl : Floats F32 F64) (sum : List F64 → F64) where
  pruned_queries :
      (now flushed lookback : ℕ) (address : Bytes) (t : Tables F64) (answers : Outcomes)
      → lookback ≤ 1440
      → flushed ≤ now
      → now < 2 ^ 63
      → let old = int_sub (floor_minute (pos flushed)) minute_retention_secs in
        (hashrate_for_address fl sum address lookback (pos now) (prune_minutes old t) answers
          ≡ hashrate_for_address fl sum address lookback (pos now) t answers)
        × (pool_hashrate fl sum lookback (pos now) (prune_minutes old t) answers
            ≡ pool_hashrate fl sum lookback (pos now) t answers)
  unfolding hashrate_for_address pool_hashrate prune_minutes
  pruned_queries now flushed lookback address t answers h k small =
      let old : ℤ = int_sub (floor_minute (pos flushed)) minute_retention_secs in
      let cutoff : ℤ = lookback_cutoff (pos now) lookback in
      let gone : (row : MinuteHashrate F64)
          → int_lt row.minute_ts old ≡ true
          → int_lt row.minute_ts cutoff ≡ true =
        λ row e.
          int_lt_weaken row.minute_ts old cutoff e (cutoff_behind now flushed lookback h k small) in
      (
        rw
            (select_sums-keep_from
              (λ row. list_eq row.miner_address address && not (int_lt row.minute_ts cutoff)) old
              t.minute_hashrates (λ row e. let e' = gone row e in ground arith))
            refl,
        rw
            (select_sums-keep_from (λ row. not (int_lt row.minute_ts cutoff)) old t.minute_hashrates
              (λ row e. let e' = gone row e in ground arith))
            refl,
      )

  -- The rows behind the calls of a flush, but for the DELETE.
  abbrev pub unpruned : Batches F64 → ℤ → Tables F64 → Tables F64
  unpruned b minute_ts t =
      apply_all (window_statements fl minute_ts b.minute_windows)
        (apply_all (share_statements fl b.shares) (apply_all (map insert_miner b.miners) t))

  -- Both queries for at most 24 hours, behind the calls of a flush at an earlier or the same time, give what they
  -- would give without the flush's DELETE, an error included.
  pub flushed_queries :
      (now flushed lookback : ℕ) (address : Bytes) (b : Batches F64) (t : Tables F64)
      (answers : Outcomes)
      → lookback ≤ 1440
      → flushed ≤ now
      → now < 2 ^ 63
      → let minute_ts = floor_minute (pos flushed) in
        let behind = apply_all (flush_statements fl b minute_ts) t in
        (hashrate_for_address fl sum address lookback (pos now) behind answers
          ≡ hashrate_for_address fl sum address lookback (pos now) (unpruned b minute_ts t) answers)
        × (pool_hashrate fl sum lookback (pos now) behind answers
            ≡ pool_hashrate fl sum lookback (pos now) (unpruned b minute_ts t) answers)
  flushed_queries now flushed lookback address b t answers h k small =
      rw (flush_statements_split fl b (floor_minute (pos flushed)) t) (
        pruned_queries now flushed lookback address (unpruned b (floor_minute (pos flushed)) t)
          answers h k small)
