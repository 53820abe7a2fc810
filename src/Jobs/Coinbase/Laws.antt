-- ===== src/Jobs/Coinbase/Laws.antt =====
-- The coinbase builders of pool/src/jobs.rs always find their own placeholder.
use mining_pool.Base.{ℕ, ◌<◌, ◌≡◌, refl, Option, some, [], ◌∷◌, ◌++◌, append_assoc, arith, length}
use mining_pool.Base.Int.{ℤ}
use mining_pool.Bitcoin.{Bytes, BitcoinLib, TxIn, Transaction}
use mining_pool.Jobs.Split.{
  CoinbaseParts, split_at, split_at_extranonce, split_at_sv2_extranonce, extranonce_placeholder,
  sv2_extranonce_placeholder,
}
use mining_pool.Jobs.Split.Laws.{Splits, split_at_total}
use mining_pool.Jobs.Coinbase.{
  pool_tag, script_with, build_coinbase_script, build_coinbase_tx, build_coinbase_tx_sv2,
  build_coinbase_parts, build_sv2_coinbase_parts,
}

-- What the builders rely on: a pushed slice ends with its bytes, and a serialized transaction with one
-- input holds that input's script as it is.
pub record IsVerbatim (lib : BitcoinLib) : Type 0 where
  pub pushed : (s : Bytes) → (head : Bytes) × (lib.push_slice s ≡ head ++ s)
  pub serialized :
      (tx : Transaction) (i : TxIn)
      → tx.input ≡ i ∷ []
      → (before : Bytes) × (after : Bytes) × (lib.serialize_tx tx
          ≡ before ++ (i.script_sig ++ after))

module _ (lib : BitcoinLib) (laws : IsVerbatim lib) where
  -- The placeholder stands in the serialized form of a transaction whose script ends with it.
  placeholder_found :
      (p : Bytes) (height : ℕ) (tx : Transaction) (i : TxIn)
      → tx.input ≡ i ∷ []
      → i.script_sig ≡ script_with lib p height
      → (a : Bytes) × (b : Bytes) × (lib.serialize_tx tx ≡ a ++ (p ++ b))
  unfolding script_with
  placeholder_found p height tx i single script =
      let (head, pushed) = laws.pushed p in
      let (before, after, e) = laws.serialized tx i single in
      (
        before ++ (lib.push_int height ++ (lib.push_slice pool_tag ++ head)),
        after,
        rw (e, script, pushed) (simp append_assoc),
      )

  total_of_found :
      (p raw : Bytes)
      → 0 < length p
      → (a : Bytes) × (b : Bytes) × (raw ≡ a ++ (p ++ b))
      → (parts : CoinbaseParts) × (split_at p raw ≡ some parts) × Splits p raw parts
  total_of_found p raw h (a, b, e) = rw e (split_at_total p a b h)

  -- Where serialization keeps pushed bytes and scripts verbatim, both builders return their parts and
  -- never panic: the parts with the placeholder between them are the serialized transaction, and the
  -- cut is at the first occurrence.
  pub build_coinbase_parts_total :
      (height : ℕ) (value : ℤ) (script : Bytes) (wc : Option Bytes)
      → ((parts : CoinbaseParts) × (build_coinbase_parts lib height value script wc ≡ some parts)
          × Splits extranonce_placeholder
              (lib.serialize_tx (build_coinbase_tx lib height value script wc))
              parts)
        × ((parts : CoinbaseParts) × (build_sv2_coinbase_parts lib height value script wc
              ≡ some parts)
            × Splits sv2_extranonce_placeholder
                (lib.serialize_tx (build_coinbase_tx_sv2 lib height value script wc))
                parts)
  unfolding build_coinbase_parts build_sv2_coinbase_parts build_coinbase_tx build_coinbase_tx_sv2
      build_coinbase_script split_at_extranonce split_at_sv2_extranonce
  build_coinbase_parts_total height value script wc = (
    total_of_found extranonce_placeholder _ (omega arith)
        (placeholder_found extranonce_placeholder height _ _ refl refl),
    total_of_found sv2_extranonce_placeholder _ (omega arith)
        (placeholder_found sv2_extranonce_placeholder height _ _ refl refl),
  )
