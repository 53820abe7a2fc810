-- ===== src/Jobs/Split/Laws.antt =====
-- The split of pool/src/jobs.rs at the first placeholder: what its two parts are, and when it exists.
use mining_pool.Base.{
  ℕ, suc, ◌+◌, ◌≤◌, ◌<◌, ◌≡◌, ◌⊎◌, inl, inr, ap, sym, ◌∙◌, true, some, [], ◌∷◌, ◌++◌, arith,
  Bool-cases, Option-cases, length, take, drop, length-append, take-append, take-append-drop,
  length-take, list_eq, list_eq→eq, list_eq_self,
}
use mining_pool.Bitcoin.{Bytes}
use mining_pool.Jobs.Split.{
  CoinbaseParts, position, split_at, split_at_extranonce, split_at_sv2_extranonce,
  extranonce_placeholder, sv2_extranonce_placeholder,
}

module _ (p : Bytes) where
  position_cases :
      (x : ℕ) (xs : Bytes) (i : ℕ)
      → position p (x ∷ xs) ≡ some i
      → ((i ≡ 0) × (take (length p) (x ∷ xs) ≡ p))
        ⊎ ((j : ℕ) × (i ≡ suc j) × (position p xs ≡ some j))
  unfolding position
  position_cases x xs i h = elim (Bool-cases (list_eq (take (length p) (x ∷ xs)) p)) [
    | inl hit ↦ inl (ground arith, list_eq→eq _ p hit)
    | inr miss ↦ elim (Option-cases (position p xs)) [
      | inl e ↦ absurd (ground arith)
      | inr (j, e) ↦ inr (j, ground arith, e)
    ]
  ]

  pub position_sound :
      (raw : Bytes) (i : ℕ)
      → position p raw ≡ some i
      → take i raw ++ (p ++ drop (i + length p) raw) ≡ raw
  position_sound [] i h = unfold position in cc
  position_sound (x ∷ xs) i h = elim (position_cases x xs i h) [
    | inl (e, front) ↦
        let n : 0 + length p ≡ length p = omega arith in
        let rest : Bytes = drop (length p) (x ∷ xs) in
        rw (e, n) (ap (λ q. q ++ rest) (sym front) ∙ take-append-drop (length p) (x ∷ xs))
    | inr (j, e, found) ↦
        let n : suc j + length p ≡ suc (j + length p) = omega arith in
        rw (e, n) (ap (◌∷◌ x) (position_sound xs j found))
  ]

  length-window : (raw : Bytes) → take (length p) raw ≡ p → length p ≤ length raw
  length-window raw e = omega (arith, ap length e, length-take (length p) raw)

  -- The search stops at the start of a slice that begins with `p`, and goes on behind any other.
  position_step :
      (x : ℕ) (xs : Bytes) (i : ℕ)
      → length p ≤ length (x ∷ xs)
      → position p xs ≡ some i
      → (k : ℕ) × (position p (x ∷ xs) ≡ some k) × (k ≤ suc i)
  unfolding position
  position_step x xs i h e = elim (Bool-cases (list_eq (take (length p) (x ∷ xs)) p)) [
    | inl hit ↦ (0, ground arith, omega arith)
    | inr miss ↦ (suc i, ground arith, omega arith)
  ]

  position_here : (raw : Bytes) → 0 < length p → take (length p) raw ≡ p → position p raw ≡ some 0
  unfolding position
  position_here [] h e = absurd (omega (arith, length-window [] e))
  position_here (x ∷ xs) h e =
      let same : list_eq (take (length p) (x ∷ xs)) p ≡ true = rw e (list_eq_self p) in
      ground (arith, length-window (x ∷ xs) e)

  pub position_first :
      (a b : Bytes)
      → 0 < length p
      → (i : ℕ) × (position p (a ++ (p ++ b)) ≡ some i) × (i ≤ length a)
  position_first [] b h = (0, position_here (p ++ b) h (take-append p b), omega arith)
  position_first (x ∷ a) b h =
      let (i, e, le) = position_first a b h in
      let (k, e', le') = position_step x (a ++ (p ++ b)) i long e in (k, e', omega arith)
    where
      long : length p ≤ length (x ∷ (a ++ (p ++ b)))
      long = omega (arith, length-append a (p ++ b), length-append p b)

  -- A successful split: the parts with `p` between them are the input, and no `p` starts earlier.
  abbrev pub Splits : Bytes → CoinbaseParts → Type 0
  Splits raw parts =
      (parts.coinb1 ++ (p ++ parts.coinb2) ≡ raw)
      × ((a b : Bytes) → raw ≡ a ++ (p ++ b) → length parts.coinb1 ≤ length a)

  cut-Splits :
      (raw : Bytes) (i : ℕ)
      → 0 < length p
      → position p raw ≡ some i
      → Splits raw (record { coinb1 = take i raw; coinb2 = drop (i + length p) raw })
  cut-Splits raw i h found = (position_sound raw i found, λ a b e. earliest a b e)
    where
      some_inj : (m n : ℕ) → some m ≡ some n → m ≡ n
      some_inj m n e = ground arith

      earliest : (a b : Bytes) → raw ≡ a ++ (p ++ b) → length (take i raw) ≤ length a
      earliest a b e =
          let (k, found', le) = position_first a b h in
          let same : position p raw ≡ some k = rw e found' in
          omega (arith, length-take i raw, some_inj i k (sym found ∙ same))

  split_at-Splits :
      (raw : Bytes) (parts : CoinbaseParts)
      → 0 < length p
      → split_at p raw ≡ some parts
      → Splits raw parts
  unfolding split_at
  split_at-Splits raw parts h e = elim (Option-cases (position p raw)) [
    | inl missing ↦ absurd (ground arith)
    | inr (i, found) ↦
        let cut : CoinbaseParts = record {
          coinb1 = take i raw;
          coinb2 = drop (i + length p) raw;
        } in
        let same : cut ≡ parts = ground arith in rw (← same) (cut-Splits raw i h found)
  ]

  pub split_at_total :
      (a b : Bytes)
      → 0 < length p
      → (parts : CoinbaseParts) × (split_at p (a ++ (p ++ b)) ≡ some parts)
        × Splits (a ++ (p ++ b)) parts
  unfolding split_at
  split_at_total a b h =
      let (i, found, _) = position_first a b h in
      (
        record { coinb1 = take i (a ++ (p ++ b)); coinb2 = drop (i + length p) (a ++ (p ++ b)) },
        rw found,
        cut-Splits _ i h found,
      )

-- Where the splits succeed, the parts with the placeholder between them are the serialized coinbase,
-- and no earlier occurrence of the placeholder was skipped.
pub split_at_extranonce-Splits :
    (raw sv2_raw : Bytes) (parts sv2_parts : CoinbaseParts)
    → split_at_extranonce raw ≡ some parts
    → split_at_sv2_extranonce sv2_raw ≡ some sv2_parts
    → Splits extranonce_placeholder raw parts × Splits sv2_extranonce_placeholder sv2_raw sv2_parts
unfolding split_at_extranonce split_at_sv2_extranonce
split_at_extranonce-Splits raw sv2_raw parts sv2_parts h k = (
  split_at-Splits extranonce_placeholder raw parts (omega arith) h,
  split_at-Splits sv2_extranonce_placeholder sv2_raw sv2_parts (omega arith) k,
)
