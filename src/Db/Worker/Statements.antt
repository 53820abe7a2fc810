-- ===== src/Db/Worker/Statements.antt =====
-- What the calls of a flush of pool/src/db.rs do to the tables, one after the other.
use mining_pool.Base.{
  ◌≡◌, ◌⊎◌, inl, inr, refl, ap, sym, ◌∙◌, ◌&&◌, none, some, List, [], ◌∷◌, ◌++◌, map, append-nil,
  append_assoc, arith, Bool-cases, Outcomes, answer, later,
}
use mining_pool.Base.Int.{ℤ}
use mining_pool.Bitcoin.{Bytes, Floats}
use mining_pool.Db.Event.{ShareEvent}
use mining_pool.Db.Tables.{
  Tables, int_sub, insert_miner, insert_share, upsert_share_stats, insert_minute_hashrate,
  upsert_active_minute, prune_minutes,
}
use mining_pool.Db.Worker.{
  Batches, Worker, Statement, no_batches, minute_retention_secs, floor_minute, is_empty,
  execute_all, share_statements, window_statements, flush_statements, flush_inner, flush_batches,
  flush,
}

-- All statements in turn.
unfoldable pub apply_all : {F64 : Type 0} → List (Statement F64) → Tables F64 → Tables F64
apply_all [] t = t
apply_all (s ∷ ss) t = apply_all ss (s t)

-- A transaction has either the effect of all its statements or none at all.
pub execute_all-apply_all :
    {F64 : Type 0} (ss : List (Statement F64)) (t : Tables F64) (answers : Outcomes)
    → ((execute_all ss t answers).0 ≡ none) ⊎ ((execute_all ss t answers).0 ≡ some (apply_all ss t))
unfolding execute_all apply_all
execute_all-apply_all [] t answers = inr refl
execute_all-apply_all (s ∷ ss) t answers = elim (Bool-cases (answer answers)) [
  | inl up ↦ rw (up, execute_all) (execute_all-apply_all ss (s t) (later answers))
  | inr down ↦ inl (rw (down, execute_all))
]

pub apply_all-append :
    {F64 : Type 0} (ss ts : List (Statement F64)) (t : Tables F64)
    → apply_all (ss ++ ts) t ≡ apply_all ts (apply_all ss t)
unfolding apply_all
apply_all-append [] ts t = refl
apply_all-append (s ∷ ss) ts t = apply_all-append ss ts (s t)

module _ {F32 F64 : Type 0} (fl : Floats F32 F64) where
  pub flush_cases :
      (now : ℤ) (w : Worker F64)
      → ((flush fl now w).tables ≡ w.tables × (flush fl now w).batches ≡ w.batches)
        ⊎ ((flush fl now w).tables
              ≡ apply_all (flush_statements fl w.batches (floor_minute now)) w.tables
            × (flush fl now w).batches ≡ no_batches)
  unfolding flush flush_batches flush_inner
  flush_cases now w =
      elim (execute_all-apply_all (flush_statements fl w.batches (floor_minute now)) w.tables
        w.answers) [
          | inl failed ↦ inl (ground arith)
          | inr applied ↦
              elim (Bool-cases (
                is_empty w.batches.shares
                && (is_empty w.batches.miners && is_empty w.batches.minute_windows))) [
                  | inl nothing ↦ inl (ground arith)
                  | inr something ↦ inr (ground arith)
                ]
        ]

  share_statements-shares :
      (ss : List (ShareEvent F64)) (t : Tables F64)
      → (apply_all (share_statements fl ss) t).shares ≡ t.shares ++ ss
  unfolding apply_all share_statements insert_share upsert_share_stats
  share_statements-shares [] t = sym (append-nil t.shares)
  share_statements-shares (s ∷ ss) t =
      share_statements-shares ss (upsert_share_stats fl s (insert_share s t))
      ∙ append_assoc t.shares (s ∷ []) ss

  window_statements-shares :
      (ts : ℤ) (ws : List (Bytes × F64)) (t : Tables F64)
      → (apply_all (window_statements fl ts ws) t).shares ≡ t.shares
  unfolding apply_all window_statements insert_minute_hashrate upsert_active_minute
  window_statements-shares ts [] t = refl
  window_statements-shares ts (x ∷ ws) t =
      window_statements-shares ts ws
        (upsert_active_minute fl x.0 (insert_minute_hashrate fl ts x t))

  miner_statements-shares :
      (ms : List (Bytes × ℤ)) (t : Tables F64)
      → (apply_all (map insert_miner ms) t).shares ≡ t.shares
  unfolding apply_all insert_miner
  miner_statements-shares [] t = refl
  miner_statements-shares (m ∷ ms) t = miner_statements-shares ms (insert_miner m t)

  -- The statements of a flush run one after the other.
  pub flush_statements_split :
      (b : Batches F64) (ts : ℤ) (t : Tables F64)
      → apply_all (flush_statements fl b ts) t
        ≡ prune_minutes (int_sub ts minute_retention_secs) (
            apply_all
              (window_statements fl ts b.minute_windows)
              (apply_all (share_statements fl b.shares) (apply_all (map insert_miner b.miners) t)))
  unfolding flush_statements apply_all
  flush_statements_split b ts t =
      let last : List (Statement F64) =
        prune_minutes (int_sub ts minute_retention_secs) ∷ (λ t. t) ∷ [] in
      let t1 : Tables F64 = apply_all (map insert_miner b.miners) t in
      let t2 : Tables F64 = apply_all (share_statements fl b.shares) t1 in
      apply_all-append (map insert_miner b.miners)
        (share_statements fl b.shares ++ (window_statements fl ts b.minute_windows ++ last)) t
      ∙ apply_all-append (share_statements fl b.shares)
          (window_statements fl ts b.minute_windows ++ last) t1
      ∙ apply_all-append (window_statements fl ts b.minute_windows) last t2

  pub flush_statements-shares :
      (b : Batches F64) (ts : ℤ) (t : Tables F64)
      → (apply_all (flush_statements fl b ts) t).shares ≡ t.shares ++ b.shares
  unfolding prune_minutes
  flush_statements-shares b ts t =
      let t1 : Tables F64 = apply_all (map insert_miner b.miners) t in
      let t2 : Tables F64 = apply_all (share_statements fl b.shares) t1 in
      ap (λ x. x.shares) (flush_statements_split b ts t)
      ∙ window_statements-shares ts b.minute_windows t2
      ∙ share_statements-shares b.shares t1
      ∙ ap (λ xs. xs ++ b.shares) (miner_statements-shares b.miners t)
