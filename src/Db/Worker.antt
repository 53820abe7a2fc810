-- ===== src/Db/Worker.antt =====
-- The worker of pool/src/db.rs: its batches, `push_event`, `flush` with `flush_inner`, and `run_worker`.
pub mod Faults
pub mod Statements
pub mod Shares
pub mod Stats
pub mod Best
pub mod Flush
pub mod Minutes
use mining_pool.Base.{
  ℕ, zero, suc, ◌+◌, ◌-◌, ◌*◌, ◌/◌, ◌%◌, ◌^◌, ◌≤◌, ◌<◌, min, ◌≡◌, ◌≢◌, ◌↔◌, ◌⊎◌, inl, inr, refl, ap,
  sym, ◌∙◌, Bool, true, false, not, ◌&&◌, ◌||◌, Option, none, some, List, [], ◌∷◌, ◌++◌, map,
  append-nil, append_assoc, reverse, arith, ltb, leb, ◌==◌, if◌then◌else◌, ltb→lt, lt→ltb, ==_iff,
  ==_self, Bool-cases, Option-cases, length, take, drop, replicate, set, All, All-append,
  All-replicate, All-reverse, length-append, take-append-drop, take-append, drop-append,
  length-take, length-drop, length-replicate, length-reverse, list_eq, list_eq→eq, list_eq_self,
  Outcomes, answer, later,
}
use mining_pool.Base.Int.{ℤ, pos, negsuc}
use mining_pool.Bitcoin.{Bytes, Floats}
use mining_pool.Db.Event.{ShareEvent, DbEvent, share, miner_connected}
use mining_pool.Db.Tables.{
  Tables, int_sub, upsert, insert_miner, insert_share, upsert_share_stats, insert_minute_hashrate,
  upsert_active_minute, prune_minutes,
}

-- What was received and is not yet in the database.
pub record Batches (F64 : Type 0) : Type 0 where
  pub shares : List (ShareEvent F64)
  pub miners : List (Bytes × ℤ)
  pub minute_windows : List (Bytes × F64)

-- The worker with the database behind it, and how the next calls of the database end.
pub record Worker (F64 : Type 0) : Type 0 where
  pub batches : Batches F64
  pub tables : Tables F64
  pub answers : Outcomes

abbrev pub no_batches : {F64 : Type 0} → Batches F64
no_batches = record { shares = []; miners = []; minute_windows = [] }

abbrev pub minute_retention_secs : ℕ
minute_retention_secs = 86400

-- `(ts_secs / 60) * 60`, which rounds to zero.
unfoldable pub floor_minute : ℤ → ℤ
floor_minute (pos n) = pos (n / 60 * 60)
floor_minute (negsuc n) = int_sub (pos 0) (suc n / 60 * 60)

abbrev is_empty : {A : Type 0} → List A → Bool
is_empty [] = true
is_empty (x ∷ xs) = false

-- A call of the database, in a transaction: what it does to the rows if it succeeds.
abbrev pub Statement : Type 0 → Type 0
Statement F64 = Tables F64 → Tables F64

-- The calls one after the other up to the first that fails, and the answers that are left.
unfoldable pub execute_all :
    {F64 : Type 0} → List (Statement F64) → Tables F64 → Outcomes → Option (Tables F64) × Outcomes
execute_all [] t answers = (some t, answers)
execute_all (statement ∷ rest) t answers =
    let go = execute_all rest (statement t) (later answers) in
    if answer answers then go else (none, later answers)

module _ {F32 F64 : Type 0} (fl : Floats F32 F64) where
  unfoldable pub push_event : DbEvent F64 → Batches F64 → Batches F64
  push_event (share s) b = record b {
    minute_windows =
        upsert s.miner_address (fl.add fl.zero s.difficulty) (λ sum. fl.add sum s.difficulty)
          b.minute_windows;
    shares = b.shares ++ (s ∷ []);
  }
  push_event (miner_connected address timestamp) b = record b {
    miners = b.miners ++ ((address, timestamp) ∷ []);
  }

  unfoldable pub share_statements : List (ShareEvent F64) → List (Statement F64)
  share_statements [] = []
  share_statements (s ∷ ss) = insert_share s ∷ upsert_share_stats fl s ∷ share_statements ss

  unfoldable pub window_statements : ℤ → List (Bytes × F64) → List (Statement F64)
  window_statements ts [] = []
  window_statements ts (w ∷ ws) =
      insert_minute_hashrate fl ts w ∷ upsert_active_minute fl w.0 ∷ window_statements ts ws

  -- The calls of `flush_inner`: BEGIN, the loops over the three batches, the DELETE, and COMMIT.
  unfoldable pub flush_statements : Batches F64 → ℤ → List (Statement F64)
  flush_statements b minute_ts =
      (λ t. t)
      ∷ (map insert_miner b.miners
          ++ (share_statements b.shares
              ++ (window_statements minute_ts b.minute_windows
                  ++ (prune_minutes (int_sub minute_ts minute_retention_secs) ∷ (λ t. t) ∷ []))))

  -- An error leaves the tables as they were: the transaction is dropped and rolled back.
  unfoldable pub flush_inner :
      Batches F64 → ℤ → Tables F64 → Outcomes → Option (Tables F64) × Outcomes
  flush_inner b minute_ts t answers = execute_all (flush_statements b minute_ts) t answers

  flush_batches : ℤ → Worker F64 → Worker F64
  flush_batches now w =
      let (result, answers) = flush_inner w.batches (floor_minute now) w.tables w.answers in
      elim result [
        | none ↦ record w { answers = answers }
        | some t ↦ record { batches = no_batches; tables = t; answers = answers }
      ]

  -- `now` is the system time in seconds.
  unfoldable pub flush : ℤ → Worker F64 → Worker F64
  unfolding flush_batches
  flush now w =
      if is_empty w.batches.shares
        && (is_empty w.batches.miners && is_empty w.batches.minute_windows)
      then w
      else flush_batches now w

  unfoldable pub push_all : List (DbEvent F64) → Worker F64 → Worker F64
  push_all [] w = w
  push_all (ev ∷ evs) w = push_all evs (record w { batches = push_event ev w.batches })

-- What `recv_timeout` returns.
pub data Received (F64 : Type 0) : Type 0 where
  got : DbEvent F64 → Received F64
  disconnected timed_out : Received F64

-- What one turn of the loop meets: what `recv_timeout` returns, what `try_recv` drains and whether it ends
-- with a disconnection, the system time, and the instants at which the loop reads its clock.
pub record Turn (F64 : Type 0) : Type 0 where
  pub received : Received F64
  pub drained : List (DbEvent F64)
  pub hung_up : Bool
  pub now : ℤ
  pub checked_at : ℕ
  pub flushed_at : ℕ

abbrev pub flush_interval : ℕ
flush_interval = 60

module _ {F32 F64 : Type 0} (fl : Floats F32 F64) where
  -- The end of a turn: the worker, and the instant of the last flush.
  unfoldable pub flush_if_due : Turn F64 → ℕ → Worker F64 → Worker F64 × ℕ
  flush_if_due t last_flush w =
      if leb flush_interval (t.checked_at - last_flush) || leb 1000 (length w.batches.shares)
      then (flush fl t.now w, t.flushed_at)
      else (w, last_flush)

  -- The worker behind both receives of a turn.
  unfoldable pub receive : Turn F64 → Worker F64 → Worker F64
  receive t w = elim t.received [
    | got ev ↦ push_all fl t.drained (push_all fl (ev ∷ []) w)
    | disconnected ↦ w
    | timed_out ↦ push_all fl t.drained w
  ]

  -- Whether a turn ends the loop.
  unfoldable pub ends : Turn F64 → Bool
  ends t = elim t.received [ got ev ↦ t.hung_up | disconnected ↦ true | timed_out ↦ t.hung_up ]

  -- The thread ends and drops its batches.
  abbrev pub stop : Worker F64 → Worker F64
  stop w = record w { batches = no_batches }

  -- The loop over the turns that occur.
  unfoldable pub run_worker : ℕ → List (Turn F64) → Worker F64 → Worker F64
  run_worker last_flush [] w = w
  run_worker last_flush (t ∷ ts) w =
      let w1 = receive t w in
      let (w2, last) = flush_if_due t last_flush w1 in
      let rest = run_worker last ts w2 in if ends t then stop (flush fl t.now w1) else rest
