-- ===== src/Examples/Jobs.antt =====
-- Tests of the models of pool/src/jobs.rs, and its theorems at concrete transactions.
use mining_pool.Base.{
  ℕ, ◌+◌, ◌*◌, ◌^◌, ◌≤◌, ◌<◌, ◌≡◌, refl, true, Option, some, List, [], ◌∷◌, ◌++◌, arith, length,
  replicate,
}
use mining_pool.Base.Int.{pos}
use mining_pool.Bitcoin.{Bytes}
use mining_pool.Rpc.{TemplateTransaction}
use mining_pool.Jobs.Varint.{write_varint, read_varint, read_varint-write_varint}
use mining_pool.Jobs.Split.{
  CoinbaseParts, split_at_extranonce, split_at_sv2_extranonce, extranonce_placeholder,
  sv2_extranonce_placeholder,
}
use mining_pool.Jobs.Split.Laws.{Splits}
use mining_pool.Jobs.Coinbase.{
  build_coinbase_parts, build_sv2_coinbase_parts, build_coinbase_tx, build_coinbase_tx_sv2,
}
use mining_pool.Jobs.Coinbase.Laws.{build_coinbase_parts_total}
use mining_pool.Jobs.Tdp.{build_sv2_coinbase_from_tdp}
use mining_pool.Jobs.Tdp.Format.{read_coinbase}
use mining_pool.Jobs.Tdp.RoundTrip.{
  null_outpoint, tail_of, read_coinbase-build_sv2_coinbase_from_tdp,
}
use mining_pool.Jobs.Merkle.{sha256d_pair, first_level, build_merkle_branch, apply_branch}
use mining_pool.Jobs.Merkle.Root.{MerkleRoot, build_merkle_branch-MerkleRoot}
use mining_pool.Jobs.Merkle.Depth.{build_merkle_branch_depth}
use mining_pool.Examples.Fixtures.{toy_lib, toy_lib-IsVerbatim, toy_encode}

write_varint_515 : write_varint (9 ∷ []) 515 ≡ 9 ∷ 0xfd ∷ 3 ∷ 2 ∷ []
unfolding write_varint
write_varint_515 = refl

read_varint-write_varint_example :
    read_varint (write_varint [] 70000 ++ (7 ∷ [])) ≡ some (70000, 7 ∷ [])
read_varint-write_varint_example = read_varint-write_varint 70000 (7 ∷ []) (omega arith)

abbrev raw : Bytes
raw = 1 ∷ 2 ∷ (extranonce_placeholder ++ (3 ∷ []))

abbrev raw_parts : CoinbaseParts
raw_parts = record { coinb1 = 1 ∷ 2 ∷ []; coinb2 = 3 ∷ [] }

abbrev sv2_raw : Bytes
sv2_raw = 1 ∷ (sv2_extranonce_placeholder ++ (3 ∷ 4 ∷ []))

abbrev sv2_raw_parts : CoinbaseParts
sv2_raw_parts = record { coinb1 = 1 ∷ []; coinb2 = 3 ∷ 4 ∷ [] }

raw_splits : split_at_extranonce raw ≡ some raw_parts
unfolding split_at_extranonce
raw_splits = refl

sv2_raw_splits : split_at_sv2_extranonce sv2_raw ≡ some sv2_raw_parts
unfolding split_at_sv2_extranonce
sv2_raw_splits = refl

abbrev miner_script : Bytes
miner_script = 0 ∷ 20 ∷ 98 ∷ []

abbrev commitment : Option Bytes
commitment = some (0x6a ∷ 0x24 ∷ [])

build_coinbase_parts_total_example :
    ((parts : CoinbaseParts) × (build_coinbase_parts toy_lib 100
          (pos 5_000_000_000)
          miner_script
          commitment
        ≡ some parts)
      × Splits extranonce_placeholder
          (toy_lib.serialize_tx
            (build_coinbase_tx toy_lib 100 (pos 5_000_000_000) miner_script commitment))
          parts)
    × ((parts : CoinbaseParts) × (build_sv2_coinbase_parts toy_lib 100
            (pos 5_000_000_000)
            miner_script
            commitment
          ≡ some parts)
        × Splits sv2_extranonce_placeholder
            (toy_lib.serialize_tx
              (build_coinbase_tx_sv2 toy_lib 100 (pos 5_000_000_000) miner_script commitment))
            parts)
build_coinbase_parts_total_example =
    build_coinbase_parts_total toy_lib toy_lib-IsVerbatim 100 (pos 5_000_000_000) miner_script
      commitment

abbrev tdp_parts : CoinbaseParts
tdp_parts =
    build_sv2_coinbase_from_tdp toy_lib (3 ∷ 1 ∷ 0 ∷ 0 ∷ []) 2 0xffff_ffff 5_000_000_000 1
      (9 ∷ 9 ∷ []) 7 miner_script true

read_coinbase-build_sv2_coinbase_from_tdp_example :
    read_coinbase (tdp_parts.coinb1 ++ (replicate 36 5 ++ tdp_parts.coinb2))
    ≡ some (record {
      version = 2;
      segwit = true;
      outpoint = null_outpoint;
      script_sig = 3 ∷ 1 ∷ 0 ∷ 0 ∷ replicate 36 5;
      sequence = 0xffff_ffff;
      output_count = 2;
      rest = tail_of toy_lib 5_000_000_000 (9 ∷ 9 ∷ []) 7 miner_script true;
    })
read_coinbase-build_sv2_coinbase_from_tdp_example =
    read_coinbase-build_sv2_coinbase_from_tdp toy_lib (3 ∷ 1 ∷ 0 ∷ 0 ∷ []) (9 ∷ 9 ∷ []) miner_script
      (replicate 36 5) 2 0xffff_ffff 5_000_000_000 1 7 true (omega arith) (omega arith)
      (omega arith) (omega arith) refl

abbrev hash_of : ℕ → Bytes
hash_of n = replicate 31 0 ++ (n ∷ [])

abbrev tx_of : ℕ → TemplateTransaction
tx_of n = record {
  raw = 0 ∷ [];
  txid = toy_encode (n ∷ replicate 31 0);
  hash = toy_encode (n ∷ replicate 31 0);
  fee = pos 0;
  weight = 400;
}

abbrev txs : List TemplateTransaction
txs = tx_of 1 ∷ tx_of 2 ∷ tx_of 3 ∷ []

abbrev ids : List Bytes
ids = hash_of 1 ∷ hash_of 2 ∷ hash_of 3 ∷ []

first_level-txs : first_level toy_lib txs ≡ some ids
unfolding first_level
first_level-txs = refl

build_merkle_branch-MerkleRoot_example :
    (branch : List Bytes) × (build_merkle_branch toy_lib txs ≡ some branch)
    × ((coinbase : Bytes)
        → MerkleRoot
            (sha256d_pair toy_lib)
            (coinbase ∷ ids)
            (apply_branch (sha256d_pair toy_lib) coinbase branch))
build_merkle_branch-MerkleRoot_example =
    build_merkle_branch-MerkleRoot toy_lib txs ids first_level-txs

abbrev branch : List Bytes
branch = hash_of 1 ∷ sha256d_pair toy_lib (hash_of 2) (hash_of 3) ∷ []

build_merkle_branch-txs : build_merkle_branch toy_lib txs ≡ some branch
unfolding build_merkle_branch first_level
build_merkle_branch-txs = refl

build_merkle_branch_depth_example :
    (length txs < 2 ^ length branch) × (2 ^ length branch ≤ 2 * length txs + 1)
build_merkle_branch_depth_example =
    build_merkle_branch_depth toy_lib txs branch build_merkle_branch-txs
