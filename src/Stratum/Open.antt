-- ===== src/Stratum/Open.antt =====
-- `handle_open_extended_mining_channel` of pool/src/stratum_sv2.rs.
pub mod Keeps
pub mod Genuine
pub mod Share
pub mod Opens
use mining_pool.Base.{
  ℕ, zero, suc, ◌+◌, ◌-◌, ◌*◌, ◌/◌, ◌%◌, ◌^◌, ◌≤◌, ◌<◌, min, ◌≡◌, ◌≢◌, ◌↔◌, ◌⊎◌, inl, inr, refl, ap,
  sym, ◌∙◌, Bool, true, false, not, ◌&&◌, ◌||◌, Option, none, some, List, [], ◌∷◌, ◌++◌, map,
  append-nil, append_assoc, reverse, arith, ltb, leb, ◌==◌, if◌then◌else◌, ltb→lt, lt→ltb, ==_iff,
  ==_self, Bool-cases, Option-cases, length, take, drop, replicate, set, All, All-append,
  All-replicate, All-reverse, length-append, take-append-drop, take-append, drop-append,
  length-take, length-drop, length-replicate, length-reverse, list_eq, list_eq→eq, list_eq_self,
  Outcomes, answer, later,
}
use mining_pool.Base.Int.{ℤ}
use mining_pool.Words.{lex_lt}
use mining_pool.Bitcoin.{Bytes, BitcoinLib, Floats}
use mining_pool.Jobs.Split.{sv2_extranonce2_size}
use mining_pool.NodeIpc.Template.{RawTemplate}
use mining_pool.Db.Event.{miner_connected}
use mining_pool.Stratum.Target.{hashrate_to_target_be, compact_to_target_be, target_be_to_sv2}
use mining_pool.Stratum.Protocol.{
  OpenExtendedMiningChannel, Codec, open_success, new_job, new_prev_hash,
}
use mining_pool.Stratum.State.{
  ChannelInfo, JobInfo, Action, Error, Checked, done, fail, parse_error, target_error, bail, check,
  state_of, put_state, write, send_event, alloc_channel_id, alloc_job_id, insert, set_current_job,
  ◌>>=◌, ◌>>◌,
}
use mining_pool.Stratum.Address.{parse_miner_address}
use mining_pool.Stratum.Extranonce.{extranonce_prefix_of}
use mining_pool.Stratum.Job.{JobMessages, build_job_messages}

module _ {F32 F64 : Type 0} (fl : Floats F32 F64) where
  -- The larger, that is the easier one, of the target for the hashrate and the network's target.
  unfoldable pub initial_target : F32 → ℕ → Bytes
  initial_target nominal_hash_rate n_bits =
      let channel_target_be : Bytes = hashrate_to_target_be fl nominal_hash_rate in
      let network_target_be : Bytes = compact_to_target_be n_bits in
      if lex_lt channel_target_be network_target_be then network_target_be else channel_target_be

module _ {F32 F64 : Type 0} (lib : BitcoinLib) (fl : Floats F32 F64) (codec : Codec F32) where
  abbrev wire_target : Bytes → Checked Bytes
  wire_target target_be = elim (target_be_to_sv2 lib target_be) [
    | none ↦ fail target_error
    | some t ↦ done t
  ]

  -- `channels.insert(channel_id, channel)`.
  register : ChannelInfo → Action F64 (Unit {0})
  register channel = do
    s ← state_of
    put_state (record s { channels = insert channel.channel_id channel s.channels })

  store_job : ℕ → JobInfo → Action F64 (Unit {0})
  store_job channel_id info = do
    s ← state_of
    put_state (record s { channels = set_current_job channel_id info s.channels })

  -- The end of the handler: the first job. `now` is the system time in seconds.
  send_first_job : ChannelInfo → ℤ → JobMessages → Action F64 (Unit {0})
  send_first_job channel now messages = do
    store_job channel.channel_id messages.info
    write (new_job messages.job) true
    write (new_prev_hash messages.prev_hash) true
    send_event (miner_connected channel.miner_address now)

  -- What follows the answer.
  start_channel : RawTemplate → ℤ → ChannelInfo → Action F64 (Unit {0})
  start_channel template now channel = do
    register channel
    job_id ← alloc_job_id
    messages ← check (build_job_messages lib channel job_id template)
    send_first_job channel now messages

  answer_open : RawTemplate → ℤ → ℕ → ChannelInfo → Bytes → Action F64 (Unit {0})
  answer_open template now request_id channel channel_target_sv2 = do
    write
        (open_success (record {
          request_id = request_id;
          channel_id = channel.channel_id;
          target = channel_target_sv2;
          extranonce_size = sv2_extranonce2_size;
          extranonce_prefix = channel.extranonce_prefix;
          group_channel_id = 0;
        }))
        false
    start_channel template now channel

  -- The channel that a request opens under an id.
  unfoldable pub new_channel : RawTemplate → OpenExtendedMiningChannel F32 → Bytes → ℕ → ChannelInfo
  new_channel template msg pool_address channel_id = record {
    channel_id = channel_id;
    extranonce_prefix = extranonce_prefix_of channel_id;
    miner_address = parse_miner_address lib msg.user_identity pool_address;
    current_job = none;
    channel_target_be = initial_target fl msg.nominal_hash_rate template.set_new_prev_hash.n_bits;
  }

  open_channel : RawTemplate → ℤ → OpenExtendedMiningChannel F32 → Action F64 (Unit {0})
  open_channel template now msg = do
    s ← state_of
    channel_id ← alloc_channel_id
    let channel : ChannelInfo = new_channel template msg s.pool_address channel_id
    channel_target_sv2 ← check (wire_target channel.channel_target_be)
    answer_open template now msg.request_id channel channel_target_sv2

  unfoldable pub handle_open_extended_mining_channel :
      Bytes → RawTemplate → ℤ → Action F64 (Unit {0})
  unfolding open_channel answer_open start_channel send_first_job register store_job
  handle_open_extended_mining_channel payload template now =
      elim (codec.parse_open_extended_mining_channel payload) [
        | none ↦ bail parse_error
        | some msg ↦ open_channel template now msg
      ]
