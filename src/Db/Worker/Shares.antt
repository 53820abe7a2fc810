-- ===== src/Db/Worker/Shares.antt =====
-- What becomes of the shares that the worker of pool/src/db.rs receives, whatever calls of the database fail.
use mining_pool.Base.{
  ℕ, ◌≡◌, ◌⊎◌, inl, inr, refl, ap, sym, ◌∙◌, Bool, true, false, List, [], ◌∷◌, ◌++◌, append-nil,
  append_assoc, arith, if◌then◌else◌, Bool-cases, later,
}
use mining_pool.Base.Int.{ℤ}
use mining_pool.Bitcoin.{Floats}
use mining_pool.Db.Event.{ShareEvent, DbEvent, share, miner_connected}
use mining_pool.Db.Worker.{
  Worker, floor_minute, push_event, flush, push_all, got, disconnected, timed_out, Turn,
  flush_if_due, receive, ends, run_worker,
}
use mining_pool.Db.Worker.Faults.{
  Received-cases, all_up, flush-all_up, receive-answers, flush_if_due-all_up,
}
use mining_pool.Db.Worker.Statements.{flush_cases, flush_statements-shares}

module _ {F32 F64 : Type 0} (fl : Floats F32 F64) where
  -- What the worker has of the shares it received: in the table, or still in the batch.
  abbrev pub kept : Worker F64 → List (ShareEvent F64)
  kept w = w.tables.shares ++ w.batches.shares

  flush-kept : (now : ℤ) (w : Worker F64) → kept (flush fl now w) ≡ kept w
  flush-kept now w = elim (flush_cases fl now w) [
    | inl (tables, batches) ↦ rw (tables, batches)
    | inr (tables, batches) ↦
        rw (tables, batches, flush_statements-shares fl w.batches (floor_minute now) w.tables)
          (append-nil (w.tables.shares ++ w.batches.shares))
  ]

  -- The shares among events.
  abbrev pub shares_of : List (DbEvent F64) → List (ShareEvent F64)
  shares_of [] = []
  shares_of (share s ∷ evs) = s ∷ shares_of evs
  shares_of (miner_connected a t ∷ evs) = shares_of evs

  push_all-kept :
      (evs : List (DbEvent F64)) (w : Worker F64)
      → kept (push_all fl evs w) ≡ kept w ++ shares_of evs
  unfolding push_all push_event
  push_all-kept [] w = sym (append-nil (kept w))
  push_all-kept (share s ∷ evs) w =
      push_all-kept evs (record w { batches = push_event fl (share s) w.batches })
      ∙ ap (λ xs. xs ++ shares_of evs)
          (sym (append_assoc w.tables.shares w.batches.shares (s ∷ [])))
      ∙ append_assoc (kept w) (s ∷ []) (shares_of evs)
  push_all-kept (miner_connected a t ∷ evs) w =
      push_all-kept evs (record w { batches = push_event fl (miner_connected a t) w.batches })

  shares_of-append :
      (evs evs' : List (DbEvent F64)) → shares_of (evs ++ evs') ≡ shares_of evs ++ shares_of evs'
  shares_of-append [] evs' = refl
  shares_of-append (share s ∷ evs) evs' = ap (◌∷◌ s) (shares_of-append evs evs')
  shares_of-append (miner_connected a t ∷ evs) evs' = shares_of-append evs evs'

  -- The events of a turn, and those of all turns up to the one that ends the loop.
  abbrev pub events_of_turn : Turn F64 → List (DbEvent F64)
  events_of_turn t = elim t.received [
    | got ev ↦ ev ∷ t.drained
    | disconnected ↦ []
    | timed_out ↦ t.drained
  ]

  abbrev pub events_of : List (Turn F64) → List (DbEvent F64)
  events_of [] = []
  events_of (t ∷ ts) =
      let rest = events_of ts in if ends fl t then events_of_turn t else events_of_turn t ++ rest

  pub receive-kept :
      (t : Turn F64) (w : Worker F64)
      → kept (receive fl t w) ≡ kept w ++ shares_of (events_of_turn t)
  unfolding receive
  receive-kept t w = elim (Received-cases t.received) [
    | inl (ev, e) ↦
        rw (e, receive)
          (push_all-kept t.drained (push_all fl (ev ∷ []) w)
            ∙ ap (λ xs. xs ++ shares_of t.drained) (push_all-kept (ev ∷ []) w)
            ∙ append_assoc (kept w) (shares_of (ev ∷ [])) (shares_of t.drained)
            ∙ ap (λ xs. kept w ++ xs) (sym (shares_of-append (ev ∷ []) t.drained)))
    | inr (inl e) ↦ rw (e, receive) (sym (append-nil (kept w)))
    | inr (inr e) ↦ rw (e, receive) (push_all-kept t.drained w)
  ]

  pub flush_if_due-kept :
      (t : Turn F64) (last : ℕ) (w : Worker F64) → kept (flush_if_due fl t last w).0 ≡ kept w
  unfolding flush_if_due
  flush_if_due-kept t last w = ground (arith, flush-kept t.now w)

  went_on :
      (last : ℕ) (t : Turn F64) (later : List (ShareEvent F64)) (w : Worker F64)
      → kept (flush_if_due fl t last (receive fl t w)).0 ++ later
        ≡ kept w ++ (shares_of (events_of_turn t) ++ later)
  went_on last t later w =
      ap (λ xs. xs ++ later) (flush_if_due-kept t last (receive fl t w) ∙ receive-kept t w)
      ∙ append_assoc (kept w) (shares_of (events_of_turn t)) later

  -- Whether one of the turns ends the loop.
  abbrev pub stops : List (Turn F64) → Bool
  stops [] = false
  stops (t ∷ ts) = let rest = stops ts in if ends fl t then true else rest

  -- Shares may be lost only if the loop has ended and a call of the database failed.
  abbrev pub Lost : List (Turn F64) → Worker F64 → List (ShareEvent F64) → Type 0
  Lost turns w lost = (lost ≡ []) ⊎ ((stops turns ≡ true) × (all_up w.answers ≡ false))

  stopped_lost :
      (t : Turn F64) (w : Worker F64)
      → ((flush fl t.now (receive fl t w)).batches.shares ≡ []) ⊎ (all_up w.answers ≡ false)
  stopped_lost t w = elim (Bool-cases (all_up w.answers)) [
    | inr down ↦ inr down
    | inl up ↦ inl ((flush-all_up fl t.now (receive fl t w) (rw (receive-answers fl t w) up)).0)
  ]

  losing_later :
      (last : ℕ) (t : Turn F64) (ts : List (Turn F64)) (w : Worker F64)
      (lost : List (ShareEvent F64))
      → ends fl t ≡ false
      → Lost ts (flush_if_due fl t last (receive fl t w)).0 lost
      → Lost (t ∷ ts) w lost
  losing_later last t ts w lost on (inl none_lost) = inl none_lost
  losing_later last t ts w lost on (inr (over, down)) = elim (Bool-cases (all_up w.answers)) [
    | inr failed ↦ inr (rw on over, failed)
    | inl up ↦
        let fine =
          flush_if_due-all_up fl t last (receive fl t w) (rw (receive-answers fl t w) up) in
        absurd (ground (arith, fine, down))
  ]

  -- Whatever calls of the database fail, the shares that are in the table or still in the batch, and then those
  -- that are lost, are, in order and each once, those that were there before and those of the events received. None
  -- is lost unless the loop has ended, with which the batch is dropped, and a call of the database has failed.
  pub run_worker-kept :
      (last : ℕ) (turns : List (Turn F64)) (w : Worker F64)
      → (lost : List (ShareEvent F64)) × (kept (run_worker fl last turns w) ++ lost
          ≡ kept w ++ shares_of (events_of turns))
        × Lost turns w lost
  unfolding run_worker
  run_worker-kept last [] w = ([], append-nil (kept w) ∙ sym (append-nil (kept w)), inl refl)
  run_worker-kept last (t ∷ ts) w =
      let w1 = receive fl t w in
      let step = flush_if_due fl t last w1 in
      elim (Bool-cases (ends fl t)) [
        | inl over ↦
            let x = flush fl t.now w1 in
            (
              x.batches.shares,
              rw over (
                  ap (λ xs. xs ++ x.batches.shares) (append-nil x.tables.shares)
                  ∙ flush-kept t.now w1
                  ∙ receive-kept t w),
              elim (stopped_lost t w) [
                | inl none_lost ↦ inl none_lost
                | inr failed ↦ inr (rw over refl, failed)
              ],
            )
        | inr on ↦
            let (lost, same, why) = run_worker-kept step.1 ts step.0 in
            (
              lost,
              rw on (
                  same
                  ∙ went_on last t (shares_of (events_of ts)) w
                  ∙ ap (λ xs. kept w ++ xs)
                      (sym (shares_of-append (events_of_turn t) (events_of ts)))),
              losing_later last t ts w lost on why,
            )
      ]
