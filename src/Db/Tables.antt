-- ===== src/Db/Tables.antt =====
-- The tables of pool/src/db.rs, and what its statements do to them.
pub mod Laws
use mining_pool.Base.{
  ℕ, zero, suc, ◌+◌, ◌-◌, ◌*◌, ◌/◌, ◌%◌, ◌^◌, ◌≤◌, ◌<◌, min, ◌≡◌, ◌≢◌, ◌↔◌, ◌⊎◌, inl, inr, refl, ap,
  sym, ◌∙◌, Bool, true, false, not, ◌&&◌, ◌||◌, Option, none, some, List, [], ◌∷◌, ◌++◌, map,
  append-nil, append_assoc, reverse, arith, ltb, leb, ◌==◌, if◌then◌else◌, ltb→lt, lt→ltb, ==_iff,
  ==_self, Bool-cases, Option-cases, length, take, drop, replicate, set, All, All-append,
  All-replicate, All-reverse, length-append, take-append-drop, take-append, drop-append,
  length-take, length-drop, length-replicate, length-reverse, list_eq, list_eq→eq, list_eq_self,
  Outcomes, answer, later,
}
use mining_pool.Base.Int.{ℤ, pos, negsuc}
use mining_pool.Words.{lex_lt}
use mining_pool.Bitcoin.{Bytes, Floats}
use mining_pool.Db.Event.{ShareEvent}

-- A row of epoch_stats without its key.
pub record EpochStats (F64 : Type 0) : Type 0 where
  pub shares_count : ℕ
  pub active_minutes : ℕ
  pub total_difficulty : F64
  pub best_share_hash : Option Bytes

-- A row of minute_hashrates.
pub record MinuteHashrate (F64 : Type 0) : Type 0 where
  pub miner_address : Bytes
  pub minute_ts : ℤ
  pub difficulty_sum : F64

-- The rows of the tables that the worker writes; those of shares in the order of their ids.
pub record Tables (F64 : Type 0) : Type 0 where
  pub miners : List (Bytes × ℤ)
  pub shares : List (ShareEvent F64)
  pub epoch_stats : List (Bytes × EpochStats F64)
  pub minute_hashrates : List (MinuteHashrate F64)

unfoldable pub int_lt : ℤ → ℤ → Bool
int_lt (pos m) (pos n) = ltb m n
int_lt (pos m) (negsuc n) = false
int_lt (negsuc m) (pos n) = true
int_lt (negsuc m) (negsuc n) = ltb n m

unfoldable pub int_eq : ℤ → ℤ → Bool
int_eq (pos m) (pos n) = m == n
int_eq (pos m) (negsuc n) = false
int_eq (negsuc m) (pos n) = false
int_eq (negsuc m) (negsuc n) = m == n

-- `i - n`.
unfoldable pub int_sub : ℤ → ℕ → ℤ
int_sub (pos m) n = if ltb m n then negsuc (n - m - 1) else pos (m - n)
int_sub (negsuc m) n = negsuc (m + n)

-- The value under a key is updated, or a fresh one is added.
unfoldable pub upsert : {A : Type 0} → Bytes → A → (A → A) → List (Bytes × A) → List (Bytes × A)
upsert key fresh update [] = (key, fresh) ∷ []
upsert key fresh update ((k, v) ∷ rows) =
    let rest = upsert key fresh update rows in
    if list_eq k key then (k, update v) ∷ rows else (k, v) ∷ rest

unfoldable pub lookup : {A : Type 0} → Bytes → List (Bytes × A) → Option A
lookup key [] = none
lookup key ((k, v) ∷ rows) = if list_eq k key then some v else lookup key rows

-- INSERT OR IGNORE INTO miners.
unfoldable pub insert_miner : {F64 : Type 0} → Bytes × ℤ → Tables F64 → Tables F64
insert_miner (address, ts) t = record t { miners = upsert address ts (λ seen. seen) t.miners }

-- INSERT INTO shares.
unfoldable pub insert_share : {F64 : Type 0} → ShareEvent F64 → Tables F64 → Tables F64
insert_share s t = record t { shares = t.shares ++ (s ∷ []) }

-- The CASE for best_share_hash; blobs are compared byte by byte.
unfoldable pub better_hash : Bytes → Option Bytes → Option Bytes
better_hash hash none = some hash
better_hash hash (some best) = if lex_lt hash best then some hash else some best

module _ {F32 F64 : Type 0} (fl : Floats F32 F64) where
  -- INSERT INTO epoch_stats with a share's difficulty and hash.
  unfoldable pub upsert_share_stats : ShareEvent F64 → Tables F64 → Tables F64
  upsert_share_stats s t = record t {
    epoch_stats =
        upsert s.miner_address
          (record {
            shares_count = 1;
            active_minutes = 0;
            total_difficulty = s.difficulty;
            best_share_hash = some s.block_hash_be;
          })
          (λ row. record row {
            shares_count = row.shares_count + 1;
            total_difficulty = fl.add row.total_difficulty s.difficulty;
            best_share_hash = better_hash s.block_hash_be row.best_share_hash;
          })
          t.epoch_stats;
  }

  -- INSERT INTO epoch_stats for an active minute.
  unfoldable pub upsert_active_minute : Bytes → Tables F64 → Tables F64
  upsert_active_minute address t = record t {
    epoch_stats =
        upsert address
          (record {
            shares_count = 0;
            active_minutes = 1;
            total_difficulty = fl.zero;
            best_share_hash = none;
          })
          (λ row. record row { active_minutes = row.active_minutes + 1 }) t.epoch_stats;
  }

  upsert_minute : Bytes → ℤ → F64 → List (MinuteHashrate F64) → List (MinuteHashrate F64)
  upsert_minute address ts diff [] =
      record { miner_address = address; minute_ts = ts; difficulty_sum = diff } ∷ []
  upsert_minute address ts diff (row ∷ rows) =
      let rest = upsert_minute address ts diff rows in
      if list_eq row.miner_address address && int_eq row.minute_ts ts
      then (record row { difficulty_sum = fl.add row.difficulty_sum diff }) ∷ rows
      else row ∷ rest

  -- INSERT INTO minute_hashrates.
  unfoldable pub insert_minute_hashrate : ℤ → Bytes × F64 → Tables F64 → Tables F64
  unfolding upsert_minute
  insert_minute_hashrate ts (address, diff) t = record t {
    minute_hashrates = upsert_minute address ts diff t.minute_hashrates;
  }

unfoldable pub keep_from :
    {F64 : Type 0} → ℤ → List (MinuteHashrate F64) → List (MinuteHashrate F64)
keep_from cutoff [] = []
keep_from cutoff (row ∷ rows) =
    let rest = keep_from cutoff rows in if int_lt row.minute_ts cutoff then rest else row ∷ rest

-- DELETE FROM minute_hashrates WHERE minute_ts < cutoff.
unfoldable pub prune_minutes : {F64 : Type 0} → ℤ → Tables F64 → Tables F64
unfolding keep_from
prune_minutes cutoff t = record t { minute_hashrates = keep_from cutoff t.minute_hashrates }
