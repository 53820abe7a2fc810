-- ===== src/Examples/Db.antt =====
-- Tests of the model of the database worker (pool/src/db.rs), and its theorems at a concrete run.
use mining_pool.Base.{
  arith, ◌+◌, ℕ, ◌≡◌, ◌⊎◌, refl, true, false, List, [], ◌∷◌, ◌++◌, All, Outcomes,
}
use mining_pool.Base.Int.{pos}
use mining_pool.Bitcoin.{Bytes}
use mining_pool.Db.Event.{ShareEvent, DbEvent, share, miner_connected}
use mining_pool.Db.Tables.{
  Tables, lookup, insert_share, upsert_share_stats, insert_minute_hashrate, upsert_active_minute,
  prune_minutes, int_sub, int_lt, keep_from, int_eq, upsert,
}
use mining_pool.Db.Worker.{
  Batches, floor_minute, flush_statements, share_statements, window_statements, Worker, no_batches,
  Received, got, disconnected, Turn, run_worker, flush,
}
use mining_pool.Db.Worker.Shares.{kept, Lost, shares_of, events_of, run_worker-kept}
use mining_pool.Db.Worker.Statements.{apply_all}
use mining_pool.Db.Worker.Stats.{Tallied, best_hash, run_worker-Tallied}
use mining_pool.Db.Worker.Best.{IsAmong, AtLeast, run_worker-best}
use mining_pool.Db.Worker.Flush.{Stored, Unchanged, flush_lem}
use mining_pool.Db.Worker.Minutes.{IsWindowed, run_worker-IsWindowed}
use mining_pool.Db.Reader.{hashrate_for_address, pool_hashrate}
use mining_pool.Db.Reader.Pruned.{unpruned, flushed_queries}
use mining_pool.Examples.Fixtures.{toy_floats}

abbrev alice : Bytes
alice = 97 ∷ []

abbrev share_with : ℕ → ShareEvent ℕ
share_with hash = record {
  miner_address = alice;
  difficulty = 10;
  block_hash_be = hash ∷ [];
  timestamp = pos 1000;
}

abbrev pub empty_tables : Tables ℕ
empty_tables = record { miners = []; shares = []; epoch_stats = []; minute_hashrates = [] }

-- The third call of the database fails.
abbrev idle : Worker ℕ
idle = record { batches = no_batches; tables = empty_tables; answers = true ∷ true ∷ false ∷ [] }

abbrev turn_with : Received ℕ → List (DbEvent ℕ) → Turn ℕ
turn_with received drained = record {
  received = received;
  drained = drained;
  hung_up = false;
  now = pos 120;
  checked_at = 100;
  flushed_at = 101;
}

abbrev turns : List (Turn ℕ)
turns =
    turn_with (got (miner_connected alice (pos 900))) (share (share_with 7) ∷ [])
    ∷ turn_with (got (share (share_with 3))) []
    ∷ turn_with disconnected []
    ∷ []

run_worker-kept_example :
    (lost : List (ShareEvent ℕ)) × (kept toy_floats (run_worker toy_floats 0 turns idle) ++ lost
      ≡ kept toy_floats idle ++ shares_of toy_floats (events_of toy_floats turns))
    × Lost toy_floats turns idle lost
run_worker-kept_example = run_worker-kept toy_floats 0 turns idle

idle-Tallied : Tallied idle.tables
unfolding lookup
idle-Tallied = record { count = λ a. refl; best = λ a. refl }

run_worker-Tallied_example : Tallied (run_worker toy_floats 0 turns idle).tables
run_worker-Tallied_example = run_worker-Tallied toy_floats 0 turns idle idle-Tallied

abbrev stored : Tables ℕ
stored = (run_worker toy_floats 0 turns idle).tables

run_worker-best_example :
    IsAmong alice (best_hash (lookup alice stored.epoch_stats)) stored.shares
    × All (AtLeast alice (best_hash (lookup alice stored.epoch_stats))) stored.shares
run_worker-best_example = run_worker-best toy_floats 0 turns idle alice idle-Tallied

idle-IsWindowed : IsWindowed toy_floats idle.batches
unfolding lookup
idle-IsWindowed a = refl

run_worker-IsWindowed_example : IsWindowed toy_floats (run_worker toy_floats 0 turns idle).batches
run_worker-IsWindowed_example = run_worker-IsWindowed toy_floats 0 turns idle idle-IsWindowed

-- A worker with a share to store, and a database that fails at the calls given.
abbrev busy : Outcomes → Worker ℕ
busy answers = record {
  batches = record { shares = share_with 7 ∷ []; miners = []; minute_windows = (alice, 10) ∷ [] };
  tables = empty_tables;
  answers = answers;
}

flush_lem_example :
    Unchanged (busy (true ∷ false ∷ [])) (flush toy_floats (pos 120) (busy (true ∷ false ∷ [])))
    ⊎ Stored
        (pos 120)
        (busy (true ∷ false ∷ []))
        (flush toy_floats (pos 120) (busy (true ∷ false ∷ [])))
flush_lem_example = flush_lem toy_floats (pos 120) (busy (true ∷ false ∷ []))

-- Two rows of the table, one of them older than 24 hours when the query is made.
abbrev old_minutes : Tables ℕ
old_minutes = record empty_tables {
  minute_hashrates =
      record { miner_address = alice; minute_ts = pos 60; difficulty_sum = 5 }
      ∷ record { miner_address = alice; minute_ts = pos 86400; difficulty_sum = 7 }
      ∷ [];
}

abbrev some_batch : Batches ℕ
some_batch = record { shares = share_with 7 ∷ []; miners = []; minute_windows = (alice, 10) ∷ [] }

abbrev sum_of : List ℕ → ℕ
sum_of [] = 0
sum_of (x ∷ xs) = x + sum_of xs

-- The flush at 86520 deletes the first row and stores a third.
queried :
    (apply_all (flush_statements toy_floats some_batch (pos 86520)) old_minutes).minute_hashrates
    ≡ record { miner_address = alice; minute_ts = pos 86400; difficulty_sum = 7 }
      ∷ record { miner_address = alice; minute_ts = pos 86520; difficulty_sum = 10 }
      ∷ []
unfolding flush_statements apply_all share_statements window_statements insert_share
    upsert_share_stats insert_minute_hashrate upsert_active_minute prune_minutes int_sub int_lt
    keep_from int_eq upsert
queried = refl

flushed_queries_example :
    let behind =
      apply_all (flush_statements toy_floats some_batch (floor_minute (pos 86530))) old_minutes in
    let all = unpruned toy_floats sum_of some_batch (floor_minute (pos 86530)) old_minutes in
    (hashrate_for_address toy_floats sum_of alice 1440 (pos 86540) behind (true ∷ [])
      ≡ hashrate_for_address toy_floats sum_of alice 1440 (pos 86540) all (true ∷ []))
    × (pool_hashrate toy_floats sum_of 1440 (pos 86540) behind (true ∷ [])
        ≡ pool_hashrate toy_floats sum_of 1440 (pos 86540) all (true ∷ []))
flushed_queries_example =
    flushed_queries toy_floats sum_of 86540 86530 1440 alice some_batch old_minutes (true ∷ [])
      (omega arith) (omega arith) (omega arith)
