-- ===== src/Stratum/Open/Opens.antt =====
-- What opening a channel (pool/src/stratum_sv2.rs) does if nothing fails: the miner has a channel with a job.
use mining_pool.Base.{
  ℕ, ◌+◌, ◌^◌, ◌%◌, ◌≡◌, refl, ◌∙◌, true, false, some, Bool-cases, inl, inr, List, [], ◌∷◌, ◌++◌,
  arith, append_assoc, if◌then◌else◌, ==_self,
}
use mining_pool.Base.Int.{ℤ}
use mining_pool.Bitcoin.{Bytes, BitcoinLib, Floats}
use mining_pool.NodeIpc.Template.{RawTemplate}
use mining_pool.Db.Event.{miner_connected}
use mining_pool.Jobs.Split.{sv2_extranonce2_size}
use mining_pool.Stratum.Protocol.{
  Codec, OpenExtendedMiningChannel, open_success, new_job, new_prev_hash,
}
use mining_pool.Stratum.Target.{target_be_to_sv2}
use mining_pool.Stratum.State.{
  ChannelInfo, JobInfo, Channels, Sent, World, ok, done, get, insert, set_current_job, write,
  alloc_channel_id, alloc_job_id,
}
use mining_pool.Stratum.State.Channels.{with_job, get-insert}
use mining_pool.Stratum.Job.{JobMessages, build_job_messages}
use mining_pool.Stratum.Open.{
  open_channel, wire_target, answer_open, start_channel, send_first_job, register, store_job,
  new_channel, handle_open_extended_mining_channel,
}

set_current_job-insert :
    (id : ℕ) (job : JobInfo) (c : ChannelInfo) (m : Channels)
    → set_current_job id job (insert id c m) ≡ insert id (with_job job c) m
unfolding set_current_job insert
set_current_job-insert id job c [] = ground arith
set_current_job-insert id job c ((k, d) ∷ m) = ground (arith, set_current_job-insert id job c m)

module _ {F32 F64 : Type 0} (lib : BitcoinLib) (fl : Floats F32 F64) (codec : Codec F32) where
  -- The channel that a request opens in a world.
  abbrev pub channel_of : RawTemplate → OpenExtendedMiningChannel F32 → World F64 → ChannelInfo
  channel_of template msg w =
      new_channel lib fl codec template msg w.state.pool_address w.state.next_channel_id

  -- The three answers to a request, for the messages of the channel's first job.
  abbrev pub answers : OpenExtendedMiningChannel F32 → ChannelInfo → Bytes → JobMessages → List Sent
  answers msg channel target m =
      record {
        message = open_success (record {
          request_id = msg.request_id;
          channel_id = channel.channel_id;
          target = target;
          extranonce_size = sv2_extranonce2_size;
          extranonce_prefix = channel.extranonce_prefix;
          group_channel_id = 0;
        });
        is_channel_msg = false;
      }
      ∷ record { message = new_job m.job; is_channel_msg = true }
      ∷ record { message = new_prev_hash m.prev_hash; is_channel_msg = true }
      ∷ []

  -- The world in which the channel is open, its job set and the miner told.
  abbrev pub opened :
      OpenExtendedMiningChannel F32 → ChannelInfo → Bytes → JobMessages → ℤ → World F64 → World F64
  opened msg channel target m now w = record w {
    state = record (w.state) {
      next_channel_id = (w.state.next_channel_id + 1) % 2 ^ 32;
      next_job_id = (w.state.next_job_id + 1) % 2 ^ 32;
      channels = insert channel.channel_id (with_job m.info channel) w.state.channels;
    };
    sent = w.sent ++ answers msg channel target m;
    writes = [];
    events =
        if w.has_db then w.events ++ (miner_connected channel.miner_address now ∷ []) else w.events;
  }

  -- What follows the allocation of an id, for any channel.
  answer_open_lem :
      (template : RawTemplate) (now : ℤ) (channel : ChannelInfo)
      (msg : OpenExtendedMiningChannel F32) (w : World F64) (target : Bytes) (m : JobMessages)
      → build_job_messages lib channel w.state.next_job_id template ≡ done m
      → w.writes ≡ []
      → answer_open lib fl codec template now msg.request_id channel target (record w {
        state = record (w.state) { next_channel_id = (w.state.next_channel_id + 1) % 2 ^ 32 };
      })
        ≡ ok tt (opened msg channel target m now w)
  unfolding answer_open start_channel send_first_job register store_job write alloc_job_id
  answer_open_lem template now channel msg w target m built all_written =
      elim (Bool-cases w.has_db) [
        | inl present ↦
            rw (all_written, built, present, set_current_job-insert, append_assoc, append_assoc)
              refl
        | inr absent ↦
            rw (all_written, built, absent, set_current_job-insert, append_assoc, append_assoc) refl
      ]

  open_channel_lem :
      (template : RawTemplate) (now : ℤ) (msg : OpenExtendedMiningChannel F32) (w : World F64)
      (target : Bytes) (m : JobMessages)
      → target_be_to_sv2 lib (channel_of template msg w).channel_target_be ≡ some target
      → build_job_messages lib (channel_of template msg w) w.state.next_job_id template ≡ done m
      → w.writes ≡ []
      → open_channel lib fl codec template now msg w
        ≡ ok tt (opened msg (channel_of template msg w) target m now w)
  unfolding open_channel alloc_channel_id
  open_channel_lem template now msg w target m fits built all_written =
      rw (fits, open_channel, wire_target)
        (answer_open_lem template now (channel_of template msg w) msg w target m built all_written)

  -- While writes succeed, a request that parses, with a target that can be sent and a first job that can be
  -- built, is answered by OpenExtendedMiningChannelSuccess, NewExtendedMiningJob and SetNewPrevHash in this
  -- order; the channel is stored with that job as its current one, both counters go on by one, and the
  -- database hears of the miner if there is one.
  pub handle_open_extended_mining_channel_lem :
      (payload : Bytes) (template : RawTemplate) (now : ℤ) (msg : OpenExtendedMiningChannel F32)
      (w : World F64) (target : Bytes) (m : JobMessages)
      → codec.parse_open_extended_mining_channel payload ≡ some msg
      → target_be_to_sv2 lib (channel_of template msg w).channel_target_be ≡ some target
      → build_job_messages lib (channel_of template msg w) w.state.next_job_id template ≡ done m
      → w.writes ≡ []
      → (handle_open_extended_mining_channel lib fl codec payload template now w
          ≡ ok tt (opened msg (channel_of template msg w) target m now w))
        × (get w.state.next_channel_id
              (opened msg (channel_of template msg w) target m now w).state.channels
            ≡ some (with_job m.info (channel_of template msg w)))
  unfolding new_channel get handle_open_extended_mining_channel
  handle_open_extended_mining_channel_lem payload template now msg w target m parsed fits built
        all_written =
      (
        rw (parsed, handle_open_extended_mining_channel)
            (open_channel_lem template now msg w target m fits built all_written),
        get-insert w.state.next_channel_id w.state.next_channel_id
              (with_job m.info (channel_of template msg w)) w.state.channels
            ∙ rw (==_self w.state.next_channel_id) refl,
      )
