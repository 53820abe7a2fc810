-- ===== src/Examples/Stratum/Helpers.antt =====
-- The targets, addresses and extranonces of pool/src/stratum_sv2.rs at concrete values.
use mining_pool.Base.{◌*◌, ◌/◌, ◌^◌, ◌≡◌, refl, some, [], ◌∷◌, ◌++◌, arith, length, replicate, take}
use mining_pool.Bitcoin.{Bytes}
use mining_pool.Jobs.Coinbase.{script_from_address}
use mining_pool.Stratum.Target.{
  compact_to_target_be, compact_to_target_hex, hashrate_to_target_be, channel_difficulty,
}
use mining_pool.Stratum.Target.Compact.{Stands, compact_value, compact_to_target_be-Stands}
use mining_pool.Stratum.Target.Division.{hashrate_to_target_be-Stands}
use mining_pool.Stratum.Address.{parse_miner_address, parse_miner_address_lem}
use mining_pool.Stratum.Extranonce.{
  extranonce_prefix_of, build_full_extranonce, build_full_extranonce_lem,
}
use mining_pool.Examples.Fixtures.{toy_lib, toy_floats}
use mining_pool.Examples.Stratum.{alice, pool}

compact_to_target_be-Stands_example :
    Stands (compact_to_target_be 0x207f_ffff) (compact_value 0x207f_ffff)
    × (compact_to_target_hex toy_lib 0x207f_ffff
        ≡ toy_lib.hex_encode (compact_to_target_be 0x207f_ffff))
compact_to_target_be-Stands_example = compact_to_target_be-Stands toy_lib 0x207f_ffff

-- At 2^32 hashes a second a miner has difficulty 30.
pub difficulty_30 : channel_difficulty toy_floats (2 ^ 32) ≡ 30
unfolding channel_difficulty
difficulty_30 = refl

hashrate_to_target_be-Stands_example :
    Stands
      (hashrate_to_target_be toy_floats (2 ^ 32))
      (0xffff * 2 ^ 208 / channel_difficulty toy_floats (2 ^ 32))
hashrate_to_target_be-Stands_example =
    hashrate_to_target_be-Stands toy_floats (2 ^ 32) (omega (arith, difficulty_30))
      (omega (arith, difficulty_30))

abbrev worker : Bytes
worker = b'r' ∷ b'i' ∷ b'g' ∷ []

parse_miner_address_lem_example :
    (parse_miner_address toy_lib alice pool ≡ alice)
    × (parse_miner_address toy_lib (alice ++ (46 ∷ worker)) pool ≡ alice)
    × ((s : Bytes) × (script_from_address toy_lib (parse_miner_address toy_lib worker pool)
          ≡ some s))
unfolding script_from_address
parse_miner_address_lem_example =
    parse_miner_address_lem toy_lib alice worker pool worker (0 ∷ 20 ∷ alice) (0 ∷ 20 ∷ pool)
      (omega arith) refl refl

build_full_extranonce_lem_example :
    (build_full_extranonce (extranonce_prefix_of 7) (5 ∷ 6 ∷ [])
      ≡ extranonce_prefix_of 7 ++ take 4 ((5 ∷ 6 ∷ []) ++ replicate 4 0))
    × (length (build_full_extranonce (extranonce_prefix_of 7) (5 ∷ 6 ∷ [])) ≡ 36)
unfolding extranonce_prefix_of
build_full_extranonce_lem_example =
    build_full_extranonce_lem (extranonce_prefix_of 7) (5 ∷ 6 ∷ []) refl
