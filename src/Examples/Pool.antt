-- ===== src/Examples/Pool.antt =====
-- A run of the whole pool (pool/src/main.rs): a miner connects, opens a channel and finds a block.
mod Delivers
use mining_pool.Base.{false, ℕ, ◌≡◌, refl, sym, some, List, [], ◌∷◌, ◌++◌, append-nil, All, length}
use mining_pool.Base.Int.{pos}
use mining_pool.Words.{lex_lt}
use mining_pool.Jobs.Coinbase.{script_from_address}
use mining_pool.Jobs.Tdp.{build_sv2_coinbase_from_tdp}
use mining_pool.Jobs.Varint.{write_varint}
use mining_pool.NodeIpc.Template.{SubmitSolutionData}
use mining_pool.NodeIpc.Build.{
  build_raw_template, raw_template, fetch_template, empty_outputs, serialized_outputs, hashes_fit,
}
use mining_pool.NodeIpc.Loop.{
  accepted, solution, close, running, session_of, submit_solution, Session, next_block,
  destroy_block_client,
}
use mining_pool.NodeIpc.Loop
use mining_pool.Db.Event.{ShareEvent}
use mining_pool.Db.Worker.{Turn, timed_out, receive, flush_if_due, ends}
use mining_pool.Db.Worker.Shares.{kept}
use mining_pool.Stratum.Target.{
  compact_to_target_be, compact_to_target_hex, hashrate_to_target_be, channel_difficulty, div_loop,
  target_be_to_sv2,
}
use mining_pool.Stratum.Protocol.{sv2}
use mining_pool.Stratum.State.{
  write, new, get, insert, keys, set_current_job, alloc_channel_id, alloc_job_id,
}
use mining_pool.Stratum.Address.{parse_miner_address}
use mining_pool.Stratum.Job.{build_job_messages, messages_of, parts_of}
use mining_pool.Stratum.Setup.{handle_setup_connection}
use mining_pool.Stratum.Open.{initial_target, handle_open_extended_mining_channel, new_channel}
use mining_pool.Stratum.Submit.{
  send_shares_error, share_coinbase, share_header, handle_submit_shares_extended, solution_of,
}
use mining_pool.Stratum.Connection.{dispatch_message}
use mining_pool.Stratum.Connection
use mining_pool.Stratum.Fair.{IsBlock, IsShare}
use mining_pool.Pool.{
  Pool, Wake, received, event_of, seen_after, hand_over, settle, greeted, accepted_slot, started,
  update, Reach, start, next, serving, accept, greet, serve, submit, work,
}
use mining_pool.Pool.Keeps.{Published}
use mining_pool.Pool.Safe.{history, submitted_blocks, stored_shares}
use mining_pool.Stratum.Connection.Solutions.{Among}
use mining_pool.Examples.Fixtures.{toy_lib, toy_floats, toy_codec, toy_lib-IsHex, toy_lib-IsHash}
use mining_pool.Examples.NodeIpc.{toy_node, block_with, raw_of, found}
use mining_pool.Examples.Db.{empty_tables}
use mining_pool.Examples.Stratum.{payload_of, setup_frame, open_frame, pool}

abbrev at_start : Pool ℕ
at_start =
    started toy_lib toy_floats toy_codec toy_node pool empty_tables [] 0 (block_with 20) (raw_of 0)

abbrev connected : Pool ℕ
connected = record at_start { connections = update at_start.connections 0 (accepted_slot pool []) }

abbrev set_up : Pool ℕ
set_up =
    hand_over 0
      (greeted pool (connected.connections 0).seen
        (handle_setup_connection toy_codec setup_frame (connected.connections 0).world))
      connected

abbrev served : Wake → Pool ℕ → Pool ℕ
served wake p =
    hand_over 0
      (settle (seen_after (length (session_of p.ipc).published) (p.connections 0) wake) (
        Connection.turn toy_lib toy_floats toy_codec (event_of (raw_of 0) wake)
          (p.connections 0).world))
      p

abbrev opens : Wake
opens = received open_frame (pos 0)

abbrev mines : Wake
mines = received (sv2 (some 0x1a) (payload_of 60)) (pos 2)

abbrev pub opened : Pool ℕ
opened = served opens set_up

abbrev mined : Pool ℕ
mined = served mines opened

set_up_reached : Reach toy_lib toy_floats toy_codec toy_node pool empty_tables set_up
unfolding started accepted_slot fetch_template build_raw_template raw_template empty_outputs
    serialized_outputs hashes_fit
set_up_reached =
    next connected set_up
      (next at_start connected (start [] 0 (block_with 20) (raw_of 0) refl) (accept 0 [] refl))
      (greet 0 setup_frame refl)

pub opened_reached : Reach toy_lib toy_floats toy_codec toy_node pool empty_tables opened
unfolding started accepted_slot hand_over handle_setup_connection write
opened_reached = next set_up opened set_up_reached (serve 0 opens [] (raw_of 0) refl refl tt)

pub opened_phase : (opened.connections 0).phase ≡ serving
unfolding started accepted_slot hand_over handle_setup_connection dispatch_message
    handle_open_extended_mining_channel write new get insert keys set_current_job alloc_channel_id
    alloc_job_id build_job_messages script_from_address parts_of messages_of new_channel
    target_be_to_sv2 initial_target lex_lt hashrate_to_target_be div_loop compact_to_target_be
    channel_difficulty parse_miner_address build_sv2_coinbase_from_tdp write_varint raw_template
    empty_outputs serialized_outputs Connection.turn
opened_phase = refl

mined_reached : Reach toy_lib toy_floats toy_codec toy_node pool empty_tables mined
unfolding started hand_over
mined_reached = next opened mined opened_reached (serve 0 mines [] (raw_of 0) opened_phase refl tt)

abbrev pub session : Session
session = Loop.first_session toy_lib toy_node (block_with 20) (raw_of 0)

abbrev block_solution : SubmitSolutionData
block_solution = elim mined.solutions [ [] ↦ found | sol ∷ rest ↦ sol ]

mined_solutions : mined.solutions ≡ block_solution ∷ []
unfolding started accepted_slot hand_over handle_setup_connection dispatch_message
    handle_open_extended_mining_channel write new get insert keys set_current_job alloc_channel_id
    alloc_job_id build_job_messages script_from_address parts_of messages_of new_channel
    target_be_to_sv2 initial_target lex_lt hashrate_to_target_be div_loop compact_to_target_be
    channel_difficulty parse_miner_address build_sv2_coinbase_from_tdp write_varint raw_template
    empty_outputs serialized_outputs Connection.turn handle_submit_shares_extended send_shares_error
    share_coinbase share_header compact_to_target_hex solution_of
mined_solutions = refl

abbrev flushed_turn : Turn ℕ
flushed_turn = record {
  received = timed_out;
  drained = mined.events;
  hung_up = false;
  now = pos 120;
  checked_at = 100;
  flushed_at = 101;
}

abbrev submitted : Pool ℕ
submitted = record mined {
  ipc =
      close toy_lib toy_node
        (Loop.turn toy_lib toy_node (solution block_solution accepted) session);
  solutions = [];
}

abbrev stored : Pool ℕ
stored = record submitted {
  events = [];
  worker =
      (flush_if_due toy_floats flushed_turn submitted.last_flush
        (receive toy_floats flushed_turn submitted.worker)).0;
  last_flush =
      (flush_if_due toy_floats flushed_turn submitted.last_flush
        (receive toy_floats flushed_turn submitted.worker)).1;
}

stored_reached : Reach toy_lib toy_floats toy_codec toy_node pool empty_tables stored
unfolding started hand_over ends
stored_reached =
    next submitted stored
      (next mined submitted mined_reached
        (submit session block_solution [] accepted refl mined_solutions))
      (work flushed_turn [] (sym (append-nil mined.events)) refl)

submitted_blocks_example :
    All
      (λ e. IsBlock toy_lib (Published (session_of stored.ipc)) e.1)
      (session_of stored.ipc).submitted
submitted_blocks_example =
    submitted_blocks toy_lib toy_floats toy_codec toy_node pool toy_lib-IsHex toy_lib-IsHash
      empty_tables stored stored_reached

stored_shares_example :
    (added : List (ShareEvent ℕ)) × (kept toy_floats stored.worker ≡ empty_tables.shares ++ added)
    × All
        (λ s.
          (i : ℕ) × IsShare toy_lib toy_floats toy_codec
            (Published (session_of stored.ipc))
            (λ st e.
              Among
                (history toy_lib toy_floats toy_codec toy_node pool toy_lib-IsHex toy_lib-IsHash
                  empty_tables stored_reached)
                (i, st, e))
            s)
        added
stored_shares_example =
    stored_shares toy_lib toy_floats toy_codec toy_node pool toy_lib-IsHex toy_lib-IsHash
      empty_tables stored stored_reached

-- The run submits the block, and the share is in the table.
submitted_once : (session_of stored.ipc).submitted ≡ (20, block_solution) ∷ []
unfolding Loop.turn submit_solution
submitted_once = refl
