-- ===== src/Jobs/Merkle.antt =====
-- `build_merkle_branch` and `sha256d_pair` of pool/src/jobs.rs.
pub mod Root
pub mod Depth
use mining_pool.Base.{
  ℕ, zero, suc, ◌+◌, ◌-◌, ◌*◌, ◌/◌, ◌%◌, ◌^◌, ◌≤◌, ◌<◌, min, ◌≡◌, ◌≢◌, ◌↔◌, ◌⊎◌, inl, inr, refl, ap,
  sym, ◌∙◌, Bool, true, false, not, ◌&&◌, ◌||◌, Option, none, some, List, [], ◌∷◌, ◌++◌, map,
  append-nil, append_assoc, reverse, arith, ltb, leb, ◌==◌, if◌then◌else◌, ltb→lt, lt→ltb, ==_iff,
  ==_self, Bool-cases, Option-cases, length, take, drop, replicate, All, length-append,
  take-append-drop, take-append, drop-append, length-take, length-drop, length-replicate,
  length-reverse, list_eq, list_eq→eq, list_eq_self, Outcomes, answer, later,
}
use mathlib.Core.Option
use mining_pool.Bitcoin.{Bytes, BitcoinLib}
use mining_pool.Rpc.{TemplateTransaction}

pub sha256d_pair : BitcoinLib → Bytes → Bytes → Bytes
sha256d_pair lib a b = lib.sha256d (a ++ b)

-- The id of a transaction in internal byte order. `none` is a panic: of `hex::decode(..).expect`, or
-- of `copy_from_slice` where the id has not 32 bytes.
internal_txid : BitcoinLib → TemplateTransaction → Option Bytes
internal_txid lib tx = elim (lib.hex_decode tx.txid) [
  | none ↦ none
  | some b ↦ if length (reverse b) == 32 then some (reverse b) else none
]

unfoldable pub first_level : BitcoinLib → List TemplateTransaction → Option (List Bytes)
unfolding internal_txid
first_level lib [] = some []
first_level lib (tx ∷ txs) = elim (internal_txid lib tx) [
  | none ↦ none
  | some h ↦ Option.map (λ hs. h ∷ hs) (first_level lib txs)
]

module _ (pair : Bytes → Bytes → Bytes) where
  -- The inner loop from `i` on: the entries in pairs, the last one with itself if it is left over.
  pub merge_pairs : List Bytes → List Bytes
  merge_pairs [] = []
  merge_pairs (a ∷ []) = pair a a ∷ []
  merge_pairs (a ∷ b ∷ rest) = pair a b ∷ merge_pairs rest

  -- The outer loop, with fuel; `none` if that runs out, or for the panic at `level[0]`.
  pub branch_loop : ℕ → List Bytes → List Bytes → Option (List Bytes)
  branch_loop zero level branch = none
  branch_loop (suc fuel) [] branch = none
  branch_loop (suc fuel) (sibling ∷ []) branch = some (branch ++ (sibling ∷ []))
  branch_loop (suc fuel) (sibling ∷ a ∷ rest) branch =
      branch_loop fuel (merge_pairs (a ∷ rest)) (branch ++ (sibling ∷ []))

  -- The fold over `job.merkle_path` of `handle_submit_shares_extended` (pool/src/stratum_sv2.rs).
  unfoldable pub apply_branch : Bytes → List Bytes → Bytes
  apply_branch hash [] = hash
  apply_branch hash (sibling ∷ path) = apply_branch (pair hash sibling) path

-- Each round makes the level shorter, so as many rounds as there are transactions are enough.
unfoldable pub build_merkle_branch : BitcoinLib → List TemplateTransaction → Option (List Bytes)
unfolding merge_pairs branch_loop sha256d_pair
build_merkle_branch lib [] = some []
build_merkle_branch lib (tx ∷ txs) = elim (first_level lib (tx ∷ txs)) [
  | none ↦ none
  | some level ↦ branch_loop (sha256d_pair lib) (length level) level []
]
