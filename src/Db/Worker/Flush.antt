-- ===== src/Db/Worker/Flush.antt =====
-- A flush of pool/src/db.rs is all or nothing.
use mining_pool.Base.{◌≡◌, ◌⊎◌, inl, inr, ap, ◌∙◌, Bool, false, not, ◌&&◌, ◌++◌, All}
use mining_pool.Base.Int.{ℤ}
use mining_pool.Bitcoin.{Floats}
use mining_pool.Db.Tables.{Tables, int_lt, int_sub, prune_minutes}
use mining_pool.Db.Tables.Laws.{keep_from-young}
use mining_pool.Db.Worker.{
  Batches, Worker, is_empty, no_batches, flush, flush_statements, floor_minute,
  minute_retention_secs,
}
use mining_pool.Db.Worker.Statements.{
  apply_all, flush_cases, flush_statements_split, flush_statements-shares,
}

-- There is something to store.
abbrev pub has_work : {F64 : Type 0} → Batches F64 → Bool
has_work b = not (is_empty b.shares && (is_empty b.miners && is_empty b.minute_windows))

-- No row of a minute older than 24 hours before the current one.
abbrev pub IsPruned : {F64 : Type 0} → ℤ → Tables F64 → Type 0
IsPruned now t =
    All (λ row. int_lt row.minute_ts (int_sub (floor_minute now) minute_retention_secs) ≡ false)
      t.minute_hashrates

module _ {F64 : Type 0} where
  abbrev pub Stored : ℤ → Worker F64 → Worker F64 → Type 0
  Stored now w w' =
      (w'.tables.shares ≡ w.tables.shares ++ w.batches.shares)
      × (w'.batches ≡ no_batches)
      × IsPruned now w'.tables

  abbrev pub Unchanged : Worker F64 → Worker F64 → Type 0
  Unchanged w w' = (w'.tables ≡ w.tables) × (w'.batches ≡ w.batches)

module _ {F32 F64 : Type 0} (fl : Floats F32 F64) where
  applied-Stored :
      (now : ℤ) (w w' : Worker F64)
      → w'.tables ≡ apply_all (flush_statements fl w.batches (floor_minute now)) w.tables
      → w'.batches ≡ no_batches
      → Stored now w w'
  unfolding prune_minutes
  applied-Stored now w w' tables batches = (
    ap (λ t. t.shares) tables ∙ flush_statements-shares fl w.batches (floor_minute now) w.tables,
    batches,
    rw (tables, flush_statements_split fl w.batches (floor_minute now) w.tables)
        (keep_from-young _ _),
  )

  -- Whatever calls of the database fail, a flush has either changed neither the tables nor the batches,
  -- or the shares of the batch stand behind those of the table, the batches are empty, and no minute
  -- older than 24 hours is left.
  pub flush_lem :
      (now : ℤ) (w : Worker F64) → Unchanged w (flush fl now w) ⊎ Stored now w (flush fl now w)
  flush_lem now w = elim (flush_cases fl now w) [
    | inl same ↦ inl same
    | inr (tables, batches) ↦ inr (applied-Stored now w (flush fl now w) tables batches)
  ]
