-- ===== src/Jobs/Merkle/Depth.antt =====
-- How long the merkle branch of pool/src/jobs.rs is.
use mining_pool.Base.{
  ℕ, zero, suc, ◌+◌, ◌*◌, ◌/◌, ◌^◌, ◌≤◌, ◌<◌, ◌≡◌, inl, inr, some, List, [], ◌∷◌, ◌++◌, arith,
  Option-cases, length, length-append,
}
use native.Mathlib.Nat.{pow-suc}
use mining_pool.Bitcoin.{Bytes, BitcoinLib}
use mining_pool.Rpc.{TemplateTransaction}
use mining_pool.Jobs.Merkle.{
  sha256d_pair, first_level, merge_pairs, branch_loop, build_merkle_branch,
}

module _ (pair : Bytes → Bytes → Bytes) where
  length-merge_pairs : (l : List Bytes) → length (merge_pairs pair l) ≡ (length l + 1) / 2
  unfolding merge_pairs
  length-merge_pairs [] = omega arith
  length-merge_pairs (a ∷ []) = omega arith
  length-merge_pairs (a ∷ b ∷ rest) = omega (arith, length-merge_pairs rest)

  grow :
      (branch : List Bytes) (x : Bytes) (out : List Bytes)
      → branch ++ (x ∷ []) ≡ out
      → length out ≡ length branch + 1
  grow branch x out e = rw (← e) (length-append branch (x ∷ []))

  -- Every round halves the number of leaves, rounding down.
  branch_loop_depth :
      (fuel : ℕ) (level branch out : List Bytes)
      → branch_loop pair fuel level branch ≡ some out
      → (d : ℕ) × (length out ≡ length branch + d)
        × (length level < 2 ^ d)
        × (2 ^ d ≤ 2 * length level)
  unfolding branch_loop
  branch_loop_depth zero level branch out h = absurd (ground arith)
  branch_loop_depth (suc fuel) [] branch out h = absurd (ground arith)
  branch_loop_depth (suc fuel) (x ∷ []) branch out h =
      (1, grow branch x out h', omega arith, omega arith)
    where
      h' : branch ++ (x ∷ []) ≡ out
      h' = ground arith
  branch_loop_depth (suc fuel) (x ∷ a ∷ rest) branch out h =
      let (d, e, lo, hi) =
        branch_loop_depth fuel (merge_pairs pair (a ∷ rest)) (branch ++ (x ∷ [])) out h in
      let half = length-merge_pairs (a ∷ rest) in
      let double = pow-suc 2 d in
      (
        suc d,
        omega (arith, e, length-append branch (x ∷ [])),
        omega (arith, lo, half, double),
        omega (arith, hi, half, double),
      )

length-first_level :
    (lib : BitcoinLib) (txs : List TemplateTransaction) (ids : List Bytes)
    → first_level lib txs ≡ some ids
    → length ids ≡ length txs
unfolding first_level
length-first_level lib [] ids h = ground arith
length-first_level lib (tx ∷ txs) [] h = absurd (ground arith)
length-first_level lib (tx ∷ txs) (x ∷ ids) h = ground (arith, length-first_level lib txs ids)

-- The branch of `n` transactions has the depth of a tree with `n + 1` leaves: `n` is less than 2 to the
-- length of the branch, which is at most 2 n + 1.
pub build_merkle_branch_depth :
    (lib : BitcoinLib) (txs : List TemplateTransaction) (branch : List Bytes)
    → build_merkle_branch lib txs ≡ some branch
    → (length txs < 2 ^ length branch) × (2 ^ length branch ≤ 2 * length txs + 1)
unfolding build_merkle_branch
build_merkle_branch_depth lib [] branch h =
    let e : branch ≡ [] = ground arith in rw e (omega arith, omega arith)
build_merkle_branch_depth lib (tx ∷ txs) branch h =
    elim (Option-cases (first_level lib (tx ∷ txs))) [
      | inl e ↦ absurd (ground arith)
      | inr (level, e) ↦
          let (d, len, lo, hi) =
            branch_loop_depth (sha256d_pair lib) (length level) level [] branch
              (rw (e, build_merkle_branch) at h) in
          let same : length branch ≡ d = omega (arith, len) in
          let count = length-first_level lib (tx ∷ txs) level e in
          rw same (omega (arith, lo, count), omega (arith, hi, count))
    ]
