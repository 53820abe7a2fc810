-- ===== src/Db/Worker/Stats.antt =====
-- The statistics that the worker of pool/src/db.rs keeps for each miner agree with its table of shares,
-- and old minutes are gone after a flush.
use mining_pool.Base.{
  ℕ, ◌+◌, ◌-◌, ◌≡◌, inl, inr, refl, ap, ◌∙◌, Bool, true, false, ◌||◌, Option, none, some, List, [],
  ◌∷◌, ◌++◌, map, leb, if◌then◌else◌, Bool-cases, length, list_eq,
}
use mining_pool.Base.Int.{ℤ}
use mining_pool.Bitcoin.{Bytes, Floats}
use mining_pool.Db.Event.{ShareEvent, DbEvent}
use mining_pool.Db.Tables.{
  Tables, EpochStats, better_hash, lookup, insert_miner, insert_share, upsert_share_stats,
  insert_minute_hashrate, upsert_active_minute, prune_minutes,
}
use mining_pool.Db.Tables.Laws.{read-upsert}
use mining_pool.Db.Worker.{
  Batches, Worker, floor_minute, share_statements, window_statements, flush, push_all, Turn,
  flush_interval, flush_if_due, receive, ends, run_worker,
}
use mining_pool.Db.Worker.Statements.{flush_statements_split, apply_all, flush_cases}
use mining_pool.Db.Worker.Faults.{Received-cases}

-- The number of an address's shares, and the least of their hashes, in the order of the table.
abbrev pub count_of : {F64 : Type 0} → Bytes → ℕ → List (ShareEvent F64) → ℕ
count_of a n [] = n
count_of a n (s ∷ ss) = count_of a (if list_eq s.miner_address a then n + 1 else n) ss

abbrev pub best_of : {F64 : Type 0} → Bytes → Option Bytes → List (ShareEvent F64) → Option Bytes
best_of a best [] = best
best_of a best (s ∷ ss) =
    best_of a (if list_eq s.miner_address a then better_hash s.block_hash_be best else best) ss

-- What the row of an address says; no row says nothing.
abbrev pub counted : {F64 : Type 0} → Option (EpochStats F64) → ℕ
counted none = 0
counted (some row) = row.shares_count

abbrev pub best_hash : {F64 : Type 0} → Option (EpochStats F64) → Option Bytes
best_hash none = none
best_hash (some row) = row.best_share_hash

-- The statistics of every miner are those of the miner's shares in the table.
pub record Tallied {F64 : Type 0} (t : Tables F64) : Type 0 where
  pub count : (a : Bytes) → counted (lookup a t.epoch_stats) ≡ count_of a 0 t.shares
  pub best : (a : Bytes) → best_hash (lookup a t.epoch_stats) ≡ best_of a none t.shares

count_of-append :
    {F64 : Type 0} (a : Bytes) (n : ℕ) (xs : List (ShareEvent F64)) (s : ShareEvent F64)
    → count_of a n (xs ++ (s ∷ []))
      ≡ (if list_eq s.miner_address a then count_of a n xs + 1 else count_of a n xs)
count_of-append a n [] s = refl
count_of-append a n (x ∷ xs) s =
    count_of-append a (if list_eq x.miner_address a then n + 1 else n) xs s

best_of-append :
    {F64 : Type 0} (a : Bytes) (b : Option Bytes) (xs : List (ShareEvent F64)) (s : ShareEvent F64)
    → best_of a b (xs ++ (s ∷ [])) ≡ (
        if list_eq s.miner_address a
        then better_hash s.block_hash_be (best_of a b xs)
        else best_of a b xs)
best_of-append a b [] s = refl
best_of-append a b (x ∷ xs) s =
    best_of-append a (if list_eq x.miner_address a then better_hash x.block_hash_be b else b) xs s

better_hash-none : (h : Bytes) → some h ≡ better_hash h none
unfolding better_hash
better_hash-none h = refl

if_same : {A : Type 0} (b : Bool) (x : A) → (if b then x else x) ≡ x
if_same true x = refl
if_same false x = refl

module _ {F32 F64 : Type 0} (fl : Floats F32 F64) where
  share-Tallied :
      (s : ShareEvent F64) (t : Tables F64)
      → Tallied t
      → Tallied (upsert_share_stats fl s (insert_share s t))
  unfolding upsert_share_stats insert_share
  share-Tallied s t v = record {
    count = λ a. rw (count_of-append a 0 t.shares s) (
        read-upsert counted (λ n. n + 1) s.miner_address a _ _ t.epoch_stats refl (λ r. refl)
        ∙ ap (λ n. if list_eq s.miner_address a then n + 1 else n) (v.count a));
    best = λ a. rw (best_of-append a none t.shares s) (
        read-upsert best_hash (better_hash s.block_hash_be) s.miner_address a _ _ t.epoch_stats
          (better_hash-none s.block_hash_be) (λ r. refl)
        ∙ ap (λ b. if list_eq s.miner_address a then better_hash s.block_hash_be b else b)
            (v.best a));
  }

  active-Tallied :
      (address : Bytes) (t : Tables F64) → Tallied t → Tallied (upsert_active_minute fl address t)
  unfolding upsert_active_minute
  active-Tallied address t v = record {
    count = λ a.
        read-upsert counted (λ n. n) address a _ _ t.epoch_stats refl (λ r. refl)
        ∙ if_same _ _
        ∙ v.count a;
    best = λ a.
        read-upsert best_hash (λ b. b) address a _ _ t.epoch_stats refl (λ r. refl)
        ∙ if_same _ _
        ∙ v.best a;
  }

  share_statements-Tallied :
      (ss : List (ShareEvent F64)) (t : Tables F64)
      → Tallied t
      → Tallied (apply_all (share_statements fl ss) t)
  unfolding apply_all share_statements
  share_statements-Tallied [] t v = v
  share_statements-Tallied (s ∷ ss) t v =
      share_statements-Tallied ss (upsert_share_stats fl s (insert_share s t)) (share-Tallied s t v)

  minute-Tallied :
      (ts : ℤ) (x : Bytes × F64) (t : Tables F64)
      → Tallied t
      → Tallied (insert_minute_hashrate fl ts x t)
  unfolding insert_minute_hashrate
  minute-Tallied ts x t v = record { count = v.count; best = v.best }

  window_statements-Tallied :
      (ts : ℤ) (ws : List (Bytes × F64)) (t : Tables F64)
      → Tallied t
      → Tallied (apply_all (window_statements fl ts ws) t)
  unfolding apply_all window_statements
  window_statements-Tallied ts [] t v = v
  window_statements-Tallied ts (x ∷ ws) t v =
      window_statements-Tallied ts ws
        (upsert_active_minute fl x.0 (insert_minute_hashrate fl ts x t))
        (active-Tallied x.0 (insert_minute_hashrate fl ts x t) (minute-Tallied ts x t v))

  miner-Tallied : (m : Bytes × ℤ) (t : Tables F64) → Tallied t → Tallied (insert_miner m t)
  unfolding insert_miner
  miner-Tallied m t v = record { count = v.count; best = v.best }

  miner_statements-Tallied :
      (ms : List (Bytes × ℤ)) (t : Tables F64)
      → Tallied t
      → Tallied (apply_all (map insert_miner ms) t)
  unfolding apply_all
  miner_statements-Tallied [] t v = v
  miner_statements-Tallied (m ∷ ms) t v =
      miner_statements-Tallied ms (insert_miner m t) (miner-Tallied m t v)

  prune-Tallied : (cutoff : ℤ) (t : Tables F64) → Tallied t → Tallied (prune_minutes cutoff t)
  unfolding prune_minutes
  prune-Tallied cutoff t v = record { count = v.count; best = v.best }

  flush-Tallied : (now : ℤ) (w : Worker F64) → Tallied w.tables → Tallied (flush fl now w).tables
  flush-Tallied now w v = elim (flush_cases fl now w) [
    | inl (tables, batches) ↦ rw tables v
    | inr (tables, batches) ↦
        let b : Batches F64 = w.batches in
        let ts : ℤ = floor_minute now in
        rw (tables, flush_statements_split fl b ts w.tables)
          (prune-Tallied _ _ (
            window_statements-Tallied ts b.minute_windows _
              (share_statements-Tallied b.shares _ (miner_statements-Tallied b.miners w.tables v))))
  ]

  push_all-tables :
      (evs : List (DbEvent F64)) (w : Worker F64) → (push_all fl evs w).tables ≡ w.tables
  unfolding push_all
  push_all-tables [] w = refl
  push_all-tables (ev ∷ evs) w = push_all-tables evs _

  receive-tables : (t : Turn F64) (w : Worker F64) → (receive fl t w).tables ≡ w.tables
  unfolding receive
  receive-tables t w = elim (Received-cases t.received) [
    | inl (ev, e) ↦
        rw (e, receive)
          (push_all-tables t.drained (push_all fl (ev ∷ []) w) ∙ push_all-tables (ev ∷ []) w)
    | inr (inl e) ↦ rw (e, receive)
    | inr (inr e) ↦ rw (e, receive) (push_all-tables t.drained w)
  ]

  flush_if_due-Tallied :
      (t : Turn F64) (last : ℕ) (w : Worker F64)
      → Tallied w.tables
      → Tallied (flush_if_due fl t last w).0.tables
  unfolding flush_if_due
  flush_if_due-Tallied t last w v =
      elim (Bool-cases
        (leb flush_interval (t.checked_at - last) || leb 1000 (length w.batches.shares))) [
          | inl due ↦ rw due (flush-Tallied t.now w v)
          | inr wait ↦ rw wait v
        ]

  -- Whatever calls of the database fail, the statistics of every miner stay those of the miner's rows in
  -- the table of shares, if they are so at the start: the number of the shares, and the least of the
  -- hashes.
  pub run_worker-Tallied :
      (last : ℕ) (turns : List (Turn F64)) (w : Worker F64)
      → Tallied w.tables
      → Tallied (run_worker fl last turns w).tables
  unfolding run_worker
  run_worker-Tallied last [] w v = v
  run_worker-Tallied last (t ∷ ts) w v =
      let v1 : Tallied (receive fl t w).tables = rw (receive-tables t w) v in
      let step = flush_if_due fl t last (receive fl t w) in
      elim (Bool-cases (ends fl t)) [
        | inl over ↦ rw over (flush-Tallied t.now (receive fl t w) v1)
        | inr on ↦
            rw on (
              run_worker-Tallied step.1 ts step.0 (flush_if_due-Tallied t last (receive fl t w) v1))
      ]
