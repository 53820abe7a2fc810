-- ===== src/Db/Worker/Best.antt =====
-- The best share of a miner in pool/src/db.rs: `best_share_hash` is the least hash of the miner's shares.
use mining_pool.Base.{
  ◌≡◌, ◌⊎◌, inl, inr, true, false, Option, none, some, List, [], ◌∷◌, arith, if◌then◌else◌,
  Bool-cases, Option-cases, All, list_eq, ℕ,
}
use mining_pool.Words.{lex_lt, lex_lt_irrefl, lex_lt_trans}
use mining_pool.Bitcoin.{Bytes, Floats}
use mining_pool.Db.Event.{ShareEvent}
use mining_pool.Db.Tables.{better_hash, lookup}
use mining_pool.Db.Worker.{Worker, Turn, run_worker}
use mining_pool.Db.Worker.Stats.{Tallied, best_of, best_hash, run_worker-Tallied}

-- A best hash that is not above another one.
abbrev pub NotAbove : Option Bytes → Bytes → Type 0
NotAbove none hash = ⊥
NotAbove (some best) hash = lex_lt hash best ≡ false

-- A share of an address with a hash stands in the list.
abbrev pub HasHash : {F64 : Type 0} → Bytes → Bytes → List (ShareEvent F64) → Type 0
HasHash a hash [] = ⊥
HasHash a hash (s ∷ ss) =
    ((list_eq s.miner_address a ≡ true) × (s.block_hash_be ≡ hash)) ⊎ HasHash a hash ss

-- A best hash belongs to a share of the address; none says nothing.
abbrev pub IsAmong : {F64 : Type 0} → Bytes → Option Bytes → List (ShareEvent F64) → Type 0
IsAmong a none ss = Unit
IsAmong a (some hash) ss = HasHash a hash ss

-- A share is of another address, or its hash is no smaller than the best one.
abbrev pub AtLeast : {F64 : Type 0} → Bytes → Option Bytes → ShareEvent F64 → Type 0
AtLeast a best s = if list_eq s.miner_address a then NotAbove best s.block_hash_be else Unit

better_hash-NotAbove :
    (hash x : Bytes) (best : Option Bytes) → NotAbove best x → NotAbove (better_hash hash best) x
unfolding better_hash
better_hash-NotAbove hash x none h = absurd h
better_hash-NotAbove hash x (some best) h = elim (Bool-cases (lex_lt hash best)) [
  | inl less ↦ rw less (elim (Bool-cases (lex_lt x hash)) [
    | inr fine ↦ fine
    | inl below ↦ absurd (ground (arith, lex_lt_trans x hash best below less))
  ])
  | inr not_less ↦ rw not_less h
]

better_hash-NotAbove_self :
    (hash : Bytes) (best : Option Bytes) → NotAbove (better_hash hash best) hash
unfolding better_hash
better_hash-NotAbove_self hash none = lex_lt_irrefl hash
better_hash-NotAbove_self hash (some best) = elim (Bool-cases (lex_lt hash best)) [
  | inl less ↦ rw less (lex_lt_irrefl hash)
  | inr not_less ↦ rw not_less not_less
]

better_hash-some :
    (hash h : Bytes) (best : Option Bytes)
    → better_hash hash best ≡ some h
    → (best ≡ some h) ⊎ (hash ≡ h)
unfolding better_hash
better_hash-some hash h none e = inr (ground arith)
better_hash-some hash h (some best) e = elim (Bool-cases (lex_lt hash best)) [
  | inl less ↦ inr (ground arith)
  | inr not_less ↦ inl (ground arith)
]

module _ {F64 : Type 0} (a : Bytes) where
  best_of-NotAbove :
      (best : Option Bytes) (ss : List (ShareEvent F64)) (x : Bytes)
      → NotAbove best x
      → NotAbove (best_of a best ss) x
  best_of-NotAbove best [] x h = h
  best_of-NotAbove best (s ∷ ss) x h = elim (Bool-cases (list_eq s.miner_address a)) [
    | inl own ↦ rw own (
        best_of-NotAbove (better_hash s.block_hash_be best) ss x
          (better_hash-NotAbove s.block_hash_be x best h))
    | inr other ↦ rw other (best_of-NotAbove best ss x h)
  ]

  best_of-AtLeast :
      (best : Option Bytes) (ss : List (ShareEvent F64)) → All (AtLeast a (best_of a best ss)) ss
  best_of-AtLeast best [] = tt
  best_of-AtLeast best (s ∷ ss) = (
    elim (Bool-cases (list_eq s.miner_address a)) [
      | inl own ↦ rw own (
          best_of-NotAbove (better_hash s.block_hash_be best) ss s.block_hash_be
            (better_hash-NotAbove_self s.block_hash_be best))
      | inr other ↦ rw other tt
    ],
    best_of-AtLeast (if list_eq s.miner_address a then better_hash s.block_hash_be best else best)
        ss,
  )

  best_of-HasHash :
      (best : Option Bytes) (ss : List (ShareEvent F64)) (h : Bytes)
      → best_of a best ss ≡ some h
      → (best ≡ some h) ⊎ HasHash a h ss
  best_of-HasHash best [] h e = inl e
  best_of-HasHash best (s ∷ ss) h e = elim (Bool-cases (list_eq s.miner_address a)) [
    | inl own ↦ elim (best_of-HasHash (better_hash s.block_hash_be best) ss h (rw own at e)) [
      | inr there ↦ inr (inr there)
      | inl here ↦ elim (better_hash-some s.block_hash_be h best here) [
        | inl before ↦ inl before
        | inr this ↦ inr (inl (own, this))
      ]
    ]
    | inr other ↦ elim (best_of-HasHash best ss h (rw other at e)) [
      | inr there ↦ inr (inr there)
      | inl before ↦ inl before
    ]
  ]

  best_of-IsAmong : (ss : List (ShareEvent F64)) → IsAmong a (best_of a none ss) ss
  best_of-IsAmong ss = elim (Option-cases (best_of a none ss)) [
    | inl e ↦ rw e tt
    | inr (h, e) ↦ elim (best_of-HasHash none ss h e) [
      | inl wrong ↦ absurd (ground arith)
      | inr there ↦ rw e there
    ]
  ]

module _ {F32 F64 : Type 0} (fl : Floats F32 F64) where
  -- After any run of the worker from tables whose statistics agree with their shares, whatever calls
  -- of the database fail: a best hash that the statistics of a miner hold is the hash of one of the
  -- miner's shares in the table, and no share of the miner in the table has a smaller one; where they
  -- hold none, the table has no share of the miner.
  pub run_worker-best :
      (last : ℕ) (turns : List (Turn F64)) (w : Worker F64) (a : Bytes)
      → Tallied w.tables
      → let t = (run_worker fl last turns w).tables in
        IsAmong a (best_hash (lookup a t.epoch_stats)) t.shares
        × All (AtLeast a (best_hash (lookup a t.epoch_stats))) t.shares
  run_worker-best last turns w a v =
      let t = (run_worker fl last turns w).tables in
      let same = (run_worker-Tallied fl last turns w v).best a in
      rw same (best_of-IsAmong a t.shares, best_of-AtLeast a none t.shares)
