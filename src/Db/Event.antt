-- ===== src/Db/Event.antt =====
-- The events that pool/src/stratum_sv2.rs sends to the database worker of pool/src/db.rs, and the
-- difficulty of a hash.
use mining_pool.Base.{ℕ, ◌==◌, if◌then◌else◌, take}
use mining_pool.Base.Int.{ℤ}
use mining_pool.Words.{be_value}
use mining_pool.Bitcoin.{Bytes, Floats}

pub record ShareEvent (F64 : Type 0) : Type 0 where
  pub miner_address : Bytes
  pub difficulty : F64
  pub block_hash_be : Bytes
  pub timestamp : ℤ

pub data DbEvent (F64 : Type 0) : Type 0 where
  share : ShareEvent F64 → DbEvent F64
  miner_connected : (address : Bytes) (timestamp : ℤ) → DbEvent F64

abbrev pdiff1_upper : ℕ
pdiff1_upper = 0x0000_0000_ffff_0000

module _ {F32 F64 : Type 0} (fl : Floats F32 F64) where
  unfoldable pub hash_to_difficulty : Bytes → F64
  hash_to_difficulty hash_be =
      let hash_upper : ℕ = be_value (take 8 hash_be) in
      if hash_upper == 0
      then fl.max_value
      else fl.div (fl.of_u64 pdiff1_upper) (fl.of_u64 hash_upper)
