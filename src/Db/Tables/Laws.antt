-- ===== src/Db/Tables/Laws.antt =====
-- The laws of `lookup` and `upsert` on the tables of pool/src/db.rs, and what the DELETE leaves.
use mining_pool.Base.{
  ◌≡◌, inl, inr, ap, true, false, Option, none, some, List, [], ◌∷◌, arith, if◌then◌else◌,
  Bool-cases, Option-cases, All, list_eq, list_eq→eq,
}
use mining_pool.Base.Int.{ℤ}
use mining_pool.Bitcoin.{Bytes}
use mining_pool.Db.Tables.{MinuteHashrate, int_lt, upsert, lookup, keep_from}

-- What an upsert writes under its key.
pub updated : {A : Type 0} → A → (A → A) → Option A → A
updated fresh update none = fresh
updated fresh update (some v) = update v

-- Keys are compared byte by byte.
pub list_eq_trans : (x y z : Bytes) → list_eq x y ≡ true → list_eq x z ≡ list_eq y z
list_eq_trans x y z h = ap (λ w. list_eq w z) (list_eq→eq x y h)

pub lookup-upsert :
    {A : Type 0} (key j : Bytes) (fresh : A) (update : A → A) (rows : List (Bytes × A))
    → lookup j (upsert key fresh update rows)
      ≡ (if list_eq key j then some (updated fresh update (lookup key rows)) else lookup j rows)
unfolding lookup upsert updated
lookup-upsert key j fresh update [] = ground arith
lookup-upsert key j fresh update ((k, v) ∷ rows) = elim (Bool-cases (list_eq k key)) [
  | inl same ↦ rw same (ground (arith, list_eq_trans k key j same))
  | inr other ↦ elim (Bool-cases (list_eq key j)) [
    | inl here ↦
        let e : key ≡ j = list_eq→eq key j here in
        ground (arith, lookup-upsert key j fresh update rows, e)
    | inr there ↦ ground (arith, lookup-upsert key j fresh update rows)
  ]
]

-- What is read off the row of a key (or off none) changes by `step` if an upsert is for that key, and not
-- otherwise.
pub read-upsert :
    {A B : Type 0} (read : Option A → B) (step : B → B) (key j : Bytes) (fresh : A) (update : A → A)
    (rows : List (Bytes × A))
    → read (some fresh) ≡ step (read none)
    → ((v : A) → read (some (update v)) ≡ step (read (some v)))
    → read (lookup j (upsert key fresh update rows))
      ≡ (if list_eq key j then step (read (lookup j rows)) else read (lookup j rows))
unfolding updated
read-upsert read step key j fresh update rows first again =
    rw (lookup-upsert key j fresh update rows) (elim (Bool-cases (list_eq key j)) [
      | inr other ↦ rw other
      | inl same ↦
          let e : key ≡ j = list_eq→eq key j same in
          rw (same, e)
            (elim (Option-cases (lookup j rows)) [
              | inl missing ↦ rw missing first
              | inr (v, found) ↦ rw found (again v)
            ])
    ])

-- No row older than the cutoff is left.
pub keep_from-young :
    {F64 : Type 0} (cutoff : ℤ) (rows : List (MinuteHashrate F64))
    → All (λ row. int_lt row.minute_ts cutoff ≡ false) (keep_from cutoff rows)
unfolding keep_from
keep_from-young cutoff [] = tt
keep_from-young cutoff (row ∷ rows) = elim (Bool-cases (int_lt row.minute_ts cutoff)) [
  | inl old ↦ rw old (keep_from-young cutoff rows)
  | inr young ↦ rw young (young, keep_from-young cutoff rows)
]
