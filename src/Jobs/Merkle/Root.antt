-- ===== src/Jobs/Merkle/Root.antt =====
-- The merkle branch of pool/src/jobs.rs leads to the merkle root.
use mining_pool.Base.{
  ℕ, zero, suc, ◌≤◌, ◌≡◌, ◌≢◌, refl, ap, some, List, [], ◌∷◌, ◌++◌, arith, length,
}
use mining_pool.Bitcoin.{Bytes, BitcoinLib}
use mining_pool.Rpc.{TemplateTransaction}
use mining_pool.Jobs.Merkle.{
  sha256d_pair, first_level, merge_pairs, branch_loop, apply_branch, build_merkle_branch,
}

module _ (pair : Bytes → Bytes → Bytes) where
  -- The rule of Bitcoin for a level and the one above it: two neighbours have the hash of both for parent, an
  -- entry that is left over is hashed with itself.
  pub data Above : List Bytes → List Bytes → Type 0 where
    no_more : Above [] []
    left_over : (a : Bytes) → Above (a ∷ []) (pair a a ∷ [])
    neighbours :
        (a b : Bytes) {rest parents : List Bytes}
        → Above rest parents
        → Above (a ∷ b ∷ rest) (pair a b ∷ parents)

  -- The merkle root of a list of leaves: the level above, until one is left.
  pub data MerkleRoot : List Bytes → Bytes → Type 0 where
    leaf : (h : Bytes) → MerkleRoot (h ∷ []) h
    level :
        {a b r : Bytes} {rest parents : List Bytes}
        → Above (a ∷ b ∷ rest) parents
        → MerkleRoot parents r
        → MerkleRoot (a ∷ b ∷ rest) r

  apply_branch-append :
      (hash : Bytes) (xs ys : List Bytes)
      → apply_branch pair hash (xs ++ ys) ≡ apply_branch pair (apply_branch pair hash xs) ys
  unfolding apply_branch
  apply_branch-append hash [] ys = refl
  apply_branch-append hash (x ∷ xs) ys = apply_branch-append (pair hash x) xs ys

  merge_pairs-Above : (l : List Bytes) → Above l (merge_pairs pair l)
  unfolding merge_pairs
  merge_pairs-Above [] = no_more
  merge_pairs-Above (a ∷ []) = left_over a
  merge_pairs-Above (a ∷ b ∷ rest) = neighbours a b (merge_pairs-Above rest)

  length-merge_pairs-le : (l : List Bytes) → length (merge_pairs pair l) ≤ length l
  unfolding merge_pairs
  length-merge_pairs-le [] = omega arith
  length-merge_pairs-le (a ∷ []) = omega arith
  length-merge_pairs-le (a ∷ b ∷ rest) = omega (arith, length-merge_pairs-le rest)

  merge_pairs-cons :
      (a : Bytes) (rest : List Bytes)
      → (y : Bytes) × (l : List Bytes) × (merge_pairs pair (a ∷ rest) ≡ y ∷ l)
  unfolding merge_pairs
  merge_pairs-cons a [] = (pair a a, [], refl)
  merge_pairs-cons a (b ∷ rest) = (pair a b, merge_pairs pair rest, refl)

  apply_branch-snoc :
      (hash x : Bytes) (branch : List Bytes)
      → apply_branch pair hash (branch ++ (x ∷ [])) ≡ pair (apply_branch pair hash branch) x
  unfolding apply_branch
  apply_branch-snoc hash x branch = apply_branch-append hash branch (x ∷ [])

  -- The loop ends, and leads every leaf to the root of the tree in which that leaf comes first.
  branch_loop-MerkleRoot :
      (fuel : ℕ) (x : Bytes) (l branch : List Bytes)
      → length (x ∷ l) ≤ fuel
      → (out : List Bytes) × (branch_loop pair fuel (x ∷ l) branch ≡ some out)
        × ((hash : Bytes)
            → MerkleRoot (apply_branch pair hash branch ∷ x ∷ l) (apply_branch pair hash out))
  unfolding branch_loop merge_pairs
  branch_loop-MerkleRoot zero x l branch h = absurd (omega arith)
  branch_loop-MerkleRoot (suc fuel) x [] branch h = (
    branch ++ (x ∷ []),
    refl,
    λ hash. rw (apply_branch-snoc hash x branch) (level (neighbours _ x no_more) (leaf _)),
  )
  branch_loop-MerkleRoot (suc fuel) x (a ∷ rest) branch h =
      let (y, l, e) = merge_pairs-cons a rest in
      let (out, done, root) =
        branch_loop-MerkleRoot fuel y l (branch ++ (x ∷ []))
          (omega (arith, ap length e, length-merge_pairs-le (a ∷ rest))) in
      (
        out,
        rw e done,
        λ hash.
            level (neighbours _ x (merge_pairs-Above (a ∷ rest)))
              (rw e (rw (apply_branch-snoc hash x branch) at (root hash))),
      )

first_level-ne-nil :
    (lib : BitcoinLib) (tx : TemplateTransaction) (txs : List TemplateTransaction)
    → first_level lib (tx ∷ txs) ≢ some []
unfolding first_level
first_level-ne-nil lib tx txs h = ground arith

-- For a list of transactions whose ids decode to 32 bytes, the branch exists (the loop ends), and for
-- every coinbase hash the hash that the branch leads to, pair by pair, is the merkle root of the block
-- with that coinbase in front of the transactions.
pub build_merkle_branch-MerkleRoot :
    (lib : BitcoinLib) (txs : List TemplateTransaction) (ids : List Bytes)
    → first_level lib txs ≡ some ids
    → (branch : List Bytes) × (build_merkle_branch lib txs ≡ some branch)
      × ((coinbase : Bytes)
          → MerkleRoot
              (sha256d_pair lib)
              (coinbase ∷ ids)
              (apply_branch (sha256d_pair lib) coinbase branch))
unfolding build_merkle_branch
build_merkle_branch-MerkleRoot lib [] [] h =
    ([], refl, λ coinbase. unfold apply_branch in leaf coinbase)
build_merkle_branch-MerkleRoot lib [] (x ∷ ids) h = absurd (unfold first_level in cc)
build_merkle_branch-MerkleRoot lib (tx ∷ txs) [] h = absurd (first_level-ne-nil lib tx txs h)
build_merkle_branch-MerkleRoot lib (tx ∷ txs) (x ∷ l) h =
    let (out, done, root) =
      branch_loop-MerkleRoot (sha256d_pair lib) (length (x ∷ l)) x l [] (omega arith) in
    (out, rw (h, build_merkle_branch) done, λ coinbase. unfold apply_branch in root coinbase)
