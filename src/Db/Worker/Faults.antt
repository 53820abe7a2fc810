-- ===== src/Db/Worker/Faults.antt =====
-- The worker of pool/src/db.rs while no call of the database fails.
use mining_pool.Base.{
  ℕ, ◌≡◌, ◌⊎◌, ◌∙◌, inl, inr, refl, Bool, true, false, ◌&&◌, some, List, [], ◌∷◌, arith, Bool-cases,
  Outcomes, answer, later,
}
use mining_pool.Base.Int.{ℤ}
use mining_pool.Bitcoin.{Floats}
use mining_pool.Db.Event.{DbEvent}
use mining_pool.Db.Tables.{Tables}
use mining_pool.Db.Worker.{
  Worker, Statement, is_empty, execute_all, flush_statements, flush_inner, floor_minute,
  flush_batches, flush, push_event, push_all, Received, got, disconnected, timed_out, Turn,
  flush_if_due, receive,
}

-- No call of the database is to fail.
abbrev pub all_up : Outcomes → Bool
all_up [] = true
all_up (b ∷ bs) = b && all_up bs

all_up-answer : (o : Outcomes) → all_up o ≡ true → (answer o ≡ true) × (all_up (later o) ≡ true)
all_up-answer [] h = (refl, refl)
all_up-answer (true ∷ o) h = (refl, h)
all_up-answer (false ∷ o) h = absurd (ground arith)

execute_all-all_up :
    {F64 : Type 0} (ss : List (Statement F64)) (t : Tables F64) (o : Outcomes)
    → all_up o ≡ true
    → (t' : Tables F64) × ((execute_all ss t o).0 ≡ some t')
      × (all_up (execute_all ss t o).1 ≡ true)
unfolding execute_all
execute_all-all_up [] t o h = (t, refl, h)
execute_all-all_up (s ∷ ss) t o h =
    let (now, rest) = all_up-answer o h in
    rw (now, execute_all) (execute_all-all_up ss (s t) (later o) rest)

is_empty-nil : {A : Type 0} (xs : List A) → is_empty xs ≡ true → xs ≡ []
is_empty-nil [] h = refl
is_empty-nil (x ∷ xs) h = absurd (ground arith)

module _ {F64 : Type 0} where
  pub Received-cases :
      (r : Received F64)
      → ((ev : DbEvent F64) × (r ≡ got ev)) ⊎ ((r ≡ disconnected) ⊎ (r ≡ timed_out))
  Received-cases (got ev) = inl (ev, refl)
  Received-cases disconnected = inr (inl refl)
  Received-cases timed_out = inr (inr refl)

module _ {F32 F64 : Type 0} (fl : Floats F32 F64) where
  -- A flush keeps no share, and uses up answers only.
  pub flush-all_up :
      (now : ℤ) (w : Worker F64)
      → all_up w.answers ≡ true
      → ((flush fl now w).batches.shares ≡ []) × (all_up (flush fl now w).answers ≡ true)
  unfolding flush flush_batches flush_inner
  flush-all_up now w h =
      let (t, stored, rest) =
        execute_all-all_up (flush_statements fl w.batches (floor_minute now)) w.tables w.answers
          h in
      elim (Bool-cases (
        is_empty w.batches.shares
        && (is_empty w.batches.miners && is_empty w.batches.minute_windows))) [
          | inl nothing ↦
              rw (nothing, flush) (is_empty-nil w.batches.shares (ground (arith, nothing)), h)
          | inr something ↦ rw (something, flush, flush_batches, flush_inner, stored) (refl, rest)
        ]

  push_all-answers :
      (evs : List (DbEvent F64)) (w : Worker F64) → (push_all fl evs w).answers ≡ w.answers
  unfolding push_all
  push_all-answers [] w = refl
  push_all-answers (ev ∷ evs) w =
      push_all-answers evs (record w { batches = push_event fl ev w.batches })

  pub receive-answers : (t : Turn F64) (w : Worker F64) → (receive fl t w).answers ≡ w.answers
  unfolding receive
  receive-answers t w = elim (Received-cases t.received) [
    | inl (ev, e) ↦
        rw (e, receive)
          (push_all-answers t.drained (push_all fl (ev ∷ []) w) ∙ push_all-answers (ev ∷ []) w)
    | inr (inl e) ↦ rw (e, receive) refl
    | inr (inr e) ↦ rw (e, receive) (push_all-answers t.drained w)
  ]

  pub flush_if_due-all_up :
      (t : Turn F64) (last : ℕ) (w : Worker F64)
      → all_up w.answers ≡ true
      → all_up (flush_if_due fl t last w).0.answers ≡ true
  unfolding flush_if_due
  flush_if_due-all_up t last w h = ground (arith, flush-all_up t.now w h)
