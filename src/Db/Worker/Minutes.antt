-- ===== src/Db/Worker/Minutes.antt =====
-- The one-minute windows of pool/src/db.rs: what is collected for a window, and which minutes are kept.
use mining_pool.Base.{
  ℕ, ◌-◌, ◌≡◌, inl, inr, refl, ap, ◌∙◌, ◌||◌, Option, none, some, List, [], ◌∷◌, ◌++◌,
  if◌then◌else◌, leb, length, Bool-cases, list_eq,
}
use mining_pool.Base.Int.{ℤ}
use mining_pool.Bitcoin.{Bytes, Floats}
use mining_pool.Db.Event.{ShareEvent, DbEvent, share, miner_connected}
use mining_pool.Db.Tables.{lookup}
use mining_pool.Db.Tables.Laws.{read-upsert}
use mining_pool.Db.Worker.{
  Batches, Worker, no_batches, push_event, push_all, flush, Turn, receive, flush_if_due,
  flush_interval, ends, run_worker,
}
use mining_pool.Db.Worker.Statements.{flush_cases}
use mining_pool.Db.Worker.Faults.{Received-cases}

module _ {F32 F64 : Type 0} (fl : Floats F32 F64) where
  -- The difficulties of an address's shares, added up from 0.0 in the order of the shares; nothing if
  -- the address has none.
  abbrev pub add_to : Option F64 → F64 → Option F64
  add_to none d = some (fl.add fl.zero d)
  add_to (some sum) d = some (fl.add sum d)

  abbrev pub sum_of : Bytes → Option F64 → List (ShareEvent F64) → Option F64
  sum_of a sum [] = sum
  sum_of a sum (s ∷ ss) =
      sum_of a (if list_eq s.miner_address a then add_to sum s.difficulty else sum) ss

  -- The window of every address holds the difficulties of that address's shares in the batch.
  abbrev pub IsWindowed : Batches F64 → Type 0
  IsWindowed b = (a : Bytes) → lookup a b.minute_windows ≡ sum_of a none b.shares

  sum_of-append :
      (a : Bytes) (sum : Option F64) (ss : List (ShareEvent F64)) (s : ShareEvent F64)
      → sum_of a sum (ss ++ (s ∷ [])) ≡ (
          if list_eq s.miner_address a
          then add_to (sum_of a sum ss) s.difficulty
          else sum_of a sum ss)
  sum_of-append a sum [] s = refl
  sum_of-append a sum (x ∷ ss) s =
      sum_of-append a (if list_eq x.miner_address a then add_to sum x.difficulty else sum) ss s

  push_event-IsWindowed :
      (ev : DbEvent F64) (b : Batches F64) → IsWindowed b → IsWindowed (push_event fl ev b)
  unfolding push_event
  push_event-IsWindowed (share s) b v a = rw (sum_of-append a none b.shares s) (
      read-upsert (λ o. o) (λ o. add_to o s.difficulty) s.miner_address a _ _ b.minute_windows refl
        (λ sum. refl)
      ∙ ap (λ o. if list_eq s.miner_address a then add_to o s.difficulty else o) (v a))
  push_event-IsWindowed (miner_connected address ts) b v a = v a

  push_all-IsWindowed :
      (evs : List (DbEvent F64)) (w : Worker F64)
      → IsWindowed w.batches
      → IsWindowed (push_all fl evs w).batches
  unfolding push_all
  push_all-IsWindowed [] w v = v
  push_all-IsWindowed (ev ∷ evs) w v =
      push_all-IsWindowed evs (record w { batches = push_event fl ev w.batches })
        (push_event-IsWindowed ev w.batches v)

  no_batches-IsWindowed : IsWindowed no_batches
  unfolding lookup
  no_batches-IsWindowed a = refl

  flush-IsWindowed :
      (now : ℤ) (w : Worker F64) → IsWindowed w.batches → IsWindowed (flush fl now w).batches
  flush-IsWindowed now w v = elim (flush_cases fl now w) [
    | inl (tables, batches) ↦ rw batches v
    | inr (tables, batches) ↦ rw batches no_batches-IsWindowed
  ]

  receive-IsWindowed :
      (t : Turn F64) (w : Worker F64) → IsWindowed w.batches → IsWindowed (receive fl t w).batches
  unfolding receive
  receive-IsWindowed t w v = elim (Received-cases t.received) [
    | inl (ev, e) ↦
        rw (e, receive)
          (push_all-IsWindowed t.drained (push_all fl (ev ∷ []) w)
            (push_all-IsWindowed (ev ∷ []) w v))
    | inr (inl e) ↦ rw (e, receive) v
    | inr (inr e) ↦ rw (e, receive) (push_all-IsWindowed t.drained w v)
  ]

  flush_if_due-IsWindowed :
      (t : Turn F64) (last : ℕ) (w : Worker F64)
      → IsWindowed w.batches
      → IsWindowed (flush_if_due fl t last w).0.batches
  unfolding flush_if_due
  flush_if_due-IsWindowed t last w v =
      elim (Bool-cases
        (leb flush_interval (t.checked_at - last) || leb 1000 (length w.batches.shares))) [
          | inl due ↦ rw due (flush-IsWindowed t.now w v)
          | inr wait ↦ rw wait v
        ]

  -- Through any run of the worker, whatever calls of the database fail: the window of each address that
  -- is still to be stored holds the sum of the difficulties of just the shares that are still in the
  -- batch, added from 0.0 in the order in which they came, if that is so at the start.
  pub run_worker-IsWindowed :
      (last : ℕ) (turns : List (Turn F64)) (w : Worker F64)
      → IsWindowed w.batches
      → IsWindowed (run_worker fl last turns w).batches
  unfolding run_worker
  run_worker-IsWindowed last [] w v = v
  run_worker-IsWindowed last (t ∷ ts) w v =
      let v1 = receive-IsWindowed t w v in
      let step = flush_if_due fl t last (receive fl t w) in
      elim (Bool-cases (ends fl t)) [
        | inl over ↦ rw over no_batches-IsWindowed
        | inr on ↦ rw on (
            run_worker-IsWindowed step.1 ts step.0
              (flush_if_due-IsWindowed t last (receive fl t w) v1))
      ]
