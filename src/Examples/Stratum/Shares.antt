-- ===== src/Examples/Stratum/Shares.antt =====
-- Shares that solve a block (pool/src/stratum_sv2.rs), with an easier and a harder channel.
use mining_pool.Base.{ℕ, ◌≡◌, refl, true, [], ◌∷◌, ◌++◌, arith}
use mining_pool.Words.{le_value, le_bytes}
use mining_pool.Bitcoin.{Bytes}
use mining_pool.Stratum.Target.Compact.{compact_value}
use mining_pool.Stratum.State.{after, get, write}
use mining_pool.Stratum.Protocol.{shares_error, difficulty_too_low}
use mining_pool.Stratum.Extranonce.{build_full_extranonce}
use mining_pool.Stratum.Job.{messages_of, parts_of}
use mining_pool.Stratum.Submit.{
  share_coinbase, share_header, solution_of, handle_submit_shares_extended,
}
use mining_pool.Stratum.Submit.Blocks.{IsCurrent, block_submitted, weak_share_refused}
use mining_pool.Jobs.Tdp.{build_sv2_coinbase_from_tdp}
use mining_pool.Jobs.Varint.{write_varint}
use mining_pool.Examples.Fixtures.{toy_lib, toy_floats, toy_codec, toy_lib-IsHex, toy_lib-IsHash}
use mining_pool.Examples.Stratum.{messages, with_current, world_for, payload_of, share_of}

-- Shares with the hash 60, below the network's target of 100, of a channel with a target above and one
-- with a target below.
abbrev Current : ℕ → Type 0
Current t =
    IsCurrent toy_lib toy_codec (world_for t) (payload_of 60) (share_of 60) (with_current t)
      messages.info (le_bytes 32 60)

abbrev txid_60 : Bytes
txid_60 = le_bytes 32 (le_value (share_coinbase (with_current 1000) messages.info (share_of 60)))

easy-Current : Current 1000
unfolding get messages_of share_coinbase build_full_extranonce parts_of build_sv2_coinbase_from_tdp
    write_varint share_header
easy-Current = record {
  txid = txid_60;
  parsed = refl;
  open_channel = refl;
  target = (refl, omega arith);
  has_job = refl;
  same_job = refl;
  readable = refl;
  hashed = refl;
}

hard-Current : Current 50
unfolding get messages_of share_coinbase build_full_extranonce parts_of build_sv2_coinbase_from_tdp
    write_varint share_header
hard-Current = record {
  txid = txid_60;
  parsed = refl;
  open_channel = refl;
  target = (refl, omega arith);
  has_job = refl;
  same_job = refl;
  readable = refl;
  hashed = refl;
}

network_100 : compact_value messages.info.nbits ≡ 100
unfolding messages_of
network_100 = refl

block_submitted_example :
    (after (
      handle_submit_shares_extended toy_lib toy_floats toy_codec
        (payload_of 60)
        (world_for 1000))).solutions
    ≡ []
      ++ (solution_of messages.info
            (share_of 60)
            (share_coinbase (with_current 1000) messages.info (share_of 60))
          ∷ [])
block_submitted_example =
    block_submitted toy_lib toy_floats toy_codec toy_lib-IsHex toy_lib-IsHash (world_for 1000)
      (payload_of 60) (share_of 60) (with_current 1000) messages.info (le_bytes 32 60) easy-Current
      (omega (arith, network_100)) (omega (arith, network_100))

weak_share_refused_example :
    (handle_submit_shares_extended toy_lib toy_floats toy_codec (payload_of 60) (world_for 50)
      ≡ write
          (shares_error (share_of 60).channel_id (share_of 60).sequence_number difficulty_too_low)
          true
          (world_for 50))
    × ((after (
          handle_submit_shares_extended toy_lib toy_floats toy_codec
            (payload_of 60)
            (world_for 50))).solutions
        ≡ (world_for 50).solutions)
    × ((after (
          handle_submit_shares_extended toy_lib toy_floats toy_codec
            (payload_of 60)
            (world_for 50))).events
        ≡ (world_for 50).events)
    × ((after (
          handle_submit_shares_extended toy_lib toy_floats toy_codec
            (payload_of 60)
            (world_for 50))).state
        ≡ (world_for 50).state)
weak_share_refused_example =
    weak_share_refused toy_lib toy_floats toy_codec toy_lib-IsHex toy_lib-IsHash (world_for 50)
      (payload_of 60) (share_of 60) (with_current 50) messages.info (le_bytes 32 60) hard-Current
      (omega arith)
