-- ===== src/Examples/Pool/Delivers.antt =====
-- The block of the run of the whole pool (pool/src/main.rs) on its way to the node.
use mining_pool.Base.{ℕ, ◌≤◌, ◌≡◌, refl, none, some, [], ◌∷◌, ◌++◌, arith}
use mining_pool.Base.Int.{pos}
use mining_pool.Words.{le_bytes, be_value, lex_lt}
use mining_pool.Bitcoin.{Bytes}
use mining_pool.Jobs.Coinbase.{script_from_address}
use mining_pool.Jobs.Tdp.{build_sv2_coinbase_from_tdp}
use mining_pool.Jobs.Varint.{write_varint}
use mining_pool.NodeIpc.Build.{raw_template, empty_outputs, serialized_outputs}
use mining_pool.NodeIpc.Loop.{running, session_of}
use mining_pool.Stratum.Target.{
  compact_to_target_be, hashrate_to_target_be, channel_difficulty, div_loop, target_be_to_sv2,
}
use mining_pool.Stratum.Target.Compact.{compact_value}
use mining_pool.Stratum.State.{
  ChannelInfo, JobInfo, World, write, new, get, insert, keys, set_current_job, alloc_channel_id,
  alloc_job_id,
}
use mining_pool.Stratum.Address.{parse_miner_address}
use mining_pool.Stratum.Extranonce.{build_full_extranonce, extranonce_prefix_of}
use mining_pool.Stratum.Job.{build_job_messages, messages_of, parts_of}
use mining_pool.Stratum.Setup.{handle_setup_connection}
use mining_pool.Stratum.Open.{initial_target, handle_open_extended_mining_channel, new_channel}
use mining_pool.Stratum.Submit.{share_coinbase, share_header, solution_of}
use mining_pool.Stratum.Submit.Blocks.{IsCurrent}
use mining_pool.Stratum.Connection.{dispatch_message}
use mining_pool.Stratum.Connection
use mining_pool.Pool.{Pool, hand_over, started, accepted_slot, Reach}
use mining_pool.Pool.Delivers.{on_block, block_delivered}
use mining_pool.Examples.Fixtures.{toy_lib, toy_floats, toy_codec, toy_lib-IsHex, toy_lib-IsHash}
use mining_pool.Examples.NodeIpc.{toy_node, raw_of}
use mining_pool.Examples.Db.{empty_tables}
use mining_pool.Examples.Stratum.{payload_of, pool, channel_for, messages, share_of}
use mining_pool.Examples.Pool.{opened, opened_reached, opened_phase, session}

abbrev world : World ℕ
world = (opened.connections 0).world

-- The channel that the miner opened, with its job.
abbrev channel : ChannelInfo
channel = elim (get 0 world.state.channels) [ none ↦ channel_for 0 | some c ↦ c ]

abbrev job : JobInfo
job = elim channel.current_job [ none ↦ messages.info | some j ↦ j ]

abbrev txid : Bytes
txid = elim (toy_lib.txid_of_bytes (share_coinbase channel job (share_of 60))) [
  | none ↦ []
  | some t ↦ t
]

share-Current :
    IsCurrent toy_lib toy_codec world (payload_of 60) (share_of 60) channel job (le_bytes 32 60)
unfolding started accepted_slot hand_over handle_setup_connection dispatch_message
    handle_open_extended_mining_channel write new get insert keys set_current_job alloc_channel_id
    alloc_job_id build_job_messages script_from_address parts_of messages_of new_channel
    target_be_to_sv2 initial_target lex_lt hashrate_to_target_be div_loop compact_to_target_be
    channel_difficulty parse_miner_address build_sv2_coinbase_from_tdp write_varint raw_template
    empty_outputs serialized_outputs Connection.turn share_coinbase share_header
    build_full_extranonce extranonce_prefix_of
share-Current = record {
  txid = txid;
  parsed = refl;
  open_channel = refl;
  target = (refl, omega arith);
  has_job = refl;
  same_job = refl;
  readable = refl;
  hashed = refl;
}

network_100 : compact_value job.nbits ≡ 100
unfolding started accepted_slot hand_over handle_setup_connection dispatch_message
    handle_open_extended_mining_channel write new get insert keys set_current_job alloc_channel_id
    alloc_job_id build_job_messages script_from_address parts_of messages_of new_channel
    target_be_to_sv2 initial_target lex_lt hashrate_to_target_be div_loop compact_to_target_be
    channel_difficulty parse_miner_address build_sv2_coinbase_from_tdp write_varint raw_template
    empty_outputs serialized_outputs Connection.turn
network_100 = refl

easy_target : 100 ≤ be_value channel.channel_target_be
unfolding started accepted_slot hand_over handle_setup_connection dispatch_message
    handle_open_extended_mining_channel write new get insert keys set_current_job alloc_channel_id
    alloc_job_id build_job_messages script_from_address parts_of messages_of new_channel
    target_be_to_sv2 initial_target lex_lt hashrate_to_target_be div_loop compact_to_target_be
    channel_difficulty parse_miner_address build_sv2_coinbase_from_tdp write_varint raw_template
    empty_outputs serialized_outputs Connection.turn
easy_target = omega arith

served : world.solutions ≡ []
unfolding started accepted_slot hand_over handle_setup_connection dispatch_message
    handle_open_extended_mining_channel write new get insert keys set_current_job alloc_channel_id
    alloc_job_id build_job_messages script_from_address parts_of messages_of new_channel
    target_be_to_sv2 initial_target lex_lt hashrate_to_target_be div_loop compact_to_target_be
    channel_difficulty parse_miner_address build_sv2_coinbase_from_tdp write_varint raw_template
    empty_outputs serialized_outputs Connection.turn
served = refl

opened_ipc : opened.ipc ≡ running session
unfolding hand_over started
opened_ipc = refl

opened_sent : (session_of opened.ipc).published ≡ [] ++ (raw_of 0 ∷ [])
unfolding hand_over started
opened_sent = refl

block_delivered_example :
    (q : Pool ℕ) × Reach toy_lib toy_floats toy_codec toy_node pool empty_tables q
    × ((session_of q.ipc).submitted
        ≡ []
          ++ on_block toy_lib toy_floats toy_codec toy_node pool empty_tables session (
              opened.solutions
              ++ (world.solutions
                  ++ (solution_of job (share_of 60) (share_coinbase channel job (share_of 60))
                      ∷ []))))
block_delivered_example =
    block_delivered toy_lib toy_floats toy_codec toy_node pool empty_tables toy_lib-IsHex
      toy_lib-IsHash (λ e. absurd (omega (arith, e))) opened 0 session [] (raw_of 0) (payload_of 60)
      (pos 2) (share_of 60) channel job (le_bytes 32 60) opened_reached opened_ipc opened_phase
      opened_sent share-Current (omega (arith, network_100, easy_target))
      (omega (arith, network_100))
