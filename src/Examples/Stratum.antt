-- ===== src/Examples/Stratum.antt =====
-- Tests of the models of pool/src/stratum_sv2.rs, and its theorems at a concrete connection.
mod Channels
mod Shares
mod Setup
mod Helpers
use mining_pool.Base.{
  ℕ, ◌*◌, ◌/◌, ◌%◌, ◌^◌, ◌<◌, ◌≡◌, ◌≢◌, ◌↔◌, ◌⊎◌, refl, true, none, some, List, [], ◌∷◌, ◌++◌,
  arith, length, replicate, take, ltb,
}
use mining_pool.Base.Int.{pos}
use mining_pool.Words.{be_value, le_value, le_bytes, lex_lt}
use mining_pool.Bitcoin.{Bytes}
use mining_pool.NodeIpc.Template.{RawTemplate}
use mining_pool.Jobs.Coinbase.{script_from_address}
use mining_pool.Jobs.Tdp.Format.{read_coinbase}
use mining_pool.Stratum.Target.{
  compact_to_target_be, compact_to_target_hex, hashrate_to_target_be, channel_difficulty,
}
use mining_pool.Stratum.Target.Compact.{Stands, compact_value, compact_to_target_be-Stands}
use mining_pool.Stratum.Target.Division.{hashrate_to_target_be-Stands}
use mining_pool.Stratum.Target.Order.{lex_lt-display_hash}
use mining_pool.Stratum.Protocol.{
  EitherFrame, sv2, SubmitSharesExtended, setup_success, setup_error, Code, mining_protocol,
}
use mining_pool.Stratum.State.{
  ChannelInfo, ConnectionState, World, bad_message_type, after, ok, err, done, get, keys, new,
}
use mining_pool.Stratum.State.Invariant.{Sound, Inv}
use mining_pool.Stratum.Address.{parse_miner_address, parse_miner_address_lem}
use mining_pool.Stratum.Extranonce.{
  extranonce_prefix_of, build_full_extranonce, build_full_extranonce_lem,
}
use mining_pool.Stratum.Job.{JobMessages, build_job_messages, messages_of, parts_of}
use mining_pool.Stratum.Job.Payout.{IsInRange, wire_of, share_coinbase_pays}
use mining_pool.Stratum.Setup.{handle_setup_connection}
use mining_pool.Stratum.Setup.Laws.{
  Offers, told, handle_setup_connection_lem, handle_setup_connection-Refused,
}
use mining_pool.Stratum.Submit.{
  send_shares_error, share_coinbase, share_header, solution_of, handle_submit_shares_extended,
}
use mining_pool.Stratum.Submit.Verdict.{verdict, carry_out, handle_submit_shares_extended-verdict}
use mining_pool.Stratum.Submit.Blocks.{IsCurrent, block_submitted, weak_share_refused}
use mining_pool.Stratum.State.{write, insert, set_current_job, alloc_channel_id, alloc_job_id}
use mining_pool.Stratum.Target.{target_be_to_sv2, div_loop}
use mining_pool.Jobs.Tdp.{build_sv2_coinbase_from_tdp}
use mining_pool.Jobs.Varint.{write_varint}
use mining_pool.Stratum.Open.{initial_target, handle_open_extended_mining_channel, new_channel}
use mining_pool.Stratum.Broadcast.{send_jobs_to_all_channels}
use mining_pool.Stratum.Connection.{
  dispatch_message, Event, frame, closed, template_changed, handle_connection,
}
use mining_pool.Stratum.Connection.Invariant.{
  handle_connection-Sound, handle_connection_extranonces,
}
use mining_pool.Stratum.Connection.Solutions.{Worthy, Among, moments_of, handle_connection-Blocks}
use mining_pool.Examples.Fixtures.{
  toy_lib, toy_floats, toy_codec, toy_lib-IsHex, toy_lib-IsHash, toy_encode,
}

-- "bc1qalice" and the pool's own address.
abbrev alice : Bytes
alice = b'b' ∷ b'c' ∷ b'1' ∷ b'a' ∷ []

abbrev pub pool : Bytes
pool = b'b' ∷ b'c' ∷ b'1' ∷ b'p' ∷ []

abbrev template : RawTemplate
template = record {
  new_template = record {
    template_id = 5;
    future_template = true;
    version = 0x2000_0000;
    coinbase_tx_version = 2;
    coinbase_prefix = 3 ∷ 1 ∷ 0 ∷ 0 ∷ [];
    coinbase_tx_input_sequence = 0xffff_ffff;
    coinbase_tx_value_remaining = 5_000_000_000;
    coinbase_tx_outputs_count = 1;
    coinbase_tx_outputs = 9 ∷ 9 ∷ [];
    coinbase_tx_locktime = 7;
    merkle_path = replicate 32 1 ∷ [];
  };
  set_new_prev_hash = record {
    template_id = 5;
    prev_hash = replicate 32 8;
    header_timestamp = 1700;
    n_bits = 0x0300_0064;
    target = replicate 32 0;
  };
}

-- A channel whose target is `t`, with a job of the template.
abbrev pub channel_for : ℕ → ChannelInfo
channel_for t = record {
  channel_id = 0;
  extranonce_prefix = le_bytes 32 0;
  miner_address = alice;
  current_job = none;
  channel_target_be = replicate 30 0 ++ ((t / 256) ∷ (t % 256) ∷ []);
}

abbrev pub messages : JobMessages
messages =
    messages_of toy_lib (channel_for 1000) 1 template (parts_of toy_lib template (0 ∷ 20 ∷ alice))

abbrev with_current : ℕ → ChannelInfo
with_current t = record (channel_for t) { current_job = some messages.info }

abbrev state_for : ℕ → ConnectionState
state_for t = record {
  next_channel_id = 1;
  next_job_id = 2;
  channels = (0, with_current t) ∷ [];
  pool_address = pool;
}

abbrev fresh : ConnectionState
fresh = record { next_channel_id = 0; next_job_id = 1; channels = []; pool_address = pool }

abbrev world_in : ConnectionState → World ℕ
world_in s = record {
  state = s;
  sent = [];
  writes = [];
  solutions = [];
  has_db = true;
  events = [];
}

abbrev world_for : ℕ → World ℕ
world_for t = world_in (state_for t)

-- A share with a nonce, which is its hash.
abbrev pub payload_of : ℕ → Bytes
payload_of nonce = 0 ∷ 4 ∷ 1 ∷ nonce ∷ 1701 ∷ 0x2000_0000 ∷ 1 ∷ 2 ∷ 3 ∷ 4 ∷ []

abbrev pub share_of : ℕ → SubmitSharesExtended
share_of nonce = record {
  channel_id = 0;
  sequence_number = 4;
  job_id = 1;
  nonce = nonce;
  ntime = 1701;
  version = 0x2000_0000;
  extranonce = 1 ∷ 2 ∷ 3 ∷ 4 ∷ [];
}

state_for-Inv : (t : ℕ) → t < 65536 → Inv (state_for t)
unfolding keys extranonce_prefix_of messages_of
state_for-Inv t h = record {
  entries = (
    record {
      own_id = refl;
      allocated = omega arith;
      prefix = refl;
      target = (refl, omega arith);
      job = λ j e. ground arith;
    },
    tt,
  );
  distinct = (tt, tt);
}

handle_submit_shares_extended-verdict_example :
    handle_submit_shares_extended toy_lib toy_floats toy_codec (payload_of 60) (world_for 1000)
    ≡ carry_out toy_floats
        (share_of 60)
        (verdict toy_lib (state_for 1000) (share_of 60))
        (world_for 1000)
handle_submit_shares_extended-verdict_example =
    handle_submit_shares_extended-verdict toy_lib toy_floats toy_codec toy_lib-IsHex toy_lib-IsHash
      (payload_of 60) (share_of 60) (world_for 1000) refl (state_for-Inv 1000 (omega arith))

built : build_job_messages toy_lib (channel_for 1000) 1 template ≡ done messages
unfolding build_job_messages script_from_address parts_of messages_of build_sv2_coinbase_from_tdp
    write_varint
built = refl

template-IsInRange : IsInRange template
template-IsInRange = record {
  version = omega arith;
  sequence = omega arith;
  count = omega arith;
  script = omega arith;
}

share_coinbase_pays_example :
    (share_coinbase (channel_for 1000) messages.info (share_of 60)
      ≡ messages.job.coinbase_tx_prefix
        ++ ((le_bytes 32 0 ++ (1 ∷ 2 ∷ 3 ∷ 4 ∷ [])) ++ messages.job.coinbase_tx_suffix))
    × ((script : Bytes) × (script_from_address toy_lib alice ≡ some script)
        × (read_coinbase (share_coinbase (channel_for 1000) messages.info (share_of 60))
            ≡ some (wire_of toy_lib template script (le_bytes 32 0 ++ (1 ∷ 2 ∷ 3 ∷ 4 ∷ [])))))
share_coinbase_pays_example =
    share_coinbase_pays toy_lib (channel_for 1000) 1 template messages (share_of 60) built
      template-IsInRange refl refl

fresh-Sound : Sound fresh
unfolding keys
fresh-Sound = (record { entries = tt; distinct = tt }, omega arith)

abbrev pub setup_frame : EitherFrame
setup_frame = sv2 (some 0x00) (0 ∷ 2 ∷ 2 ∷ [])

abbrev pub open_frame : EitherFrame
open_frame = sv2 (some 0x13) (7 ∷ 100 ∷ alice)

abbrev events : List Event
events =
    frame open_frame template (pos 0)
    ∷ frame open_frame template (pos 1)
    ∷ frame (sv2 (some 0x1a) (payload_of 60)) template (pos 2)
    ∷ template_changed template
    ∷ frame (sv2 (some 0x1a) (payload_of 60)) template (pos 2)
    ∷ closed
    ∷ []

abbrev behind : World ℕ
behind =
    after (handle_connection toy_lib toy_floats toy_codec setup_frame pool events (world_in fresh))

handle_connection-Sound_example : Sound behind.state
handle_connection-Sound_example =
    handle_connection-Sound toy_lib toy_floats toy_codec setup_frame pool events (world_in fresh)
      fresh-Sound (omega arith)

handle_connection-Blocks_example :
    Worthy toy_lib toy_floats toy_codec
      (λ t. t ≡ template)
      (λ st e.
        Among
          (moments_of toy_lib toy_floats toy_codec setup_frame pool events (world_in fresh))
          (st, e))
      behind
handle_connection-Blocks_example =
    handle_connection-Blocks toy_lib toy_floats toy_codec toy_lib-IsHex toy_lib-IsHash
      (λ t. t ≡ template) setup_frame pool events (world_in fresh)
      (refl, (refl, (refl, (refl, (refl, (tt, tt)))))) (tt, tt)

-- The channel under an id in the end.
abbrev channel_at : ℕ → ChannelInfo
channel_at id = elim (get id behind.state.channels) [ some c ↦ c | none ↦ channel_for 0 ]

opened :
    (get 0 behind.state.channels ≡ some (channel_at 0))
    × (get 1 behind.state.channels ≡ some (channel_at 1))
unfolding handle_connection handle_setup_connection dispatch_message send_jobs_to_all_channels
    handle_open_extended_mining_channel handle_submit_shares_extended write new get insert keys
    set_current_job alloc_channel_id alloc_job_id build_job_messages script_from_address parts_of
    messages_of new_channel target_be_to_sv2 initial_target lex_lt hashrate_to_target_be div_loop
    compact_to_target_be channel_difficulty parse_miner_address build_sv2_coinbase_from_tdp
    write_varint send_shares_error share_coinbase share_header compact_to_target_hex
opened = (refl, refl)

handle_connection_extranonces_example :
    build_full_extranonce (channel_at 0).extranonce_prefix (1 ∷ 2 ∷ 3 ∷ 4 ∷ [])
    ≢ build_full_extranonce (channel_at 1).extranonce_prefix (1 ∷ 2 ∷ 3 ∷ 4 ∷ [])
handle_connection_extranonces_example =
    handle_connection_extranonces toy_lib toy_floats toy_codec setup_frame pool events
      (world_in fresh) 0 1 (channel_at 0) (channel_at 1) (1 ∷ 2 ∷ 3 ∷ 4 ∷ []) (1 ∷ 2 ∷ 3 ∷ 4 ∷ [])
      fresh-Sound (omega arith) opened.0 opened.1 (omega arith)
