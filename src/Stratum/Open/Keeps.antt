-- ===== src/Stratum/Open/Keeps.antt =====
-- Opening a channel (pool/src/stratum_sv2.rs) keeps the invariant, on every path.
use mining_pool.Base.{
  ℕ, ◌+◌, ◌%◌, ◌^◌, ◌≤◌, ◌<◌, ◌≡◌, inl, inr, refl, Bool, true, false, arith, if◌then◌else◌,
  Option-cases, All,
}
use mining_pool.Base.Int.{ℤ}
use mining_pool.Bitcoin.{Bytes, BitcoinLib, Floats}
use mining_pool.NodeIpc.Template.{RawTemplate}
use mining_pool.Db.Event.{miner_connected}
use mining_pool.Stratum.Target.{IsTarget}
use mining_pool.Stratum.Target.Compact.{compact_to_target_be-Stands}
use mining_pool.Stratum.Target.Division.{hashrate_to_target_be-IsTarget}
use mining_pool.Stratum.Protocol.{OpenExtendedMiningChannel, Codec}
use mining_pool.Stratum.State.{
  insert, set_current_job, ChannelInfo, World, after, alloc_channel_id, alloc_job_id,
}
use mining_pool.Stratum.State.Steps.{write_then, check_then, send_event-keeps}
use mining_pool.Stratum.State.Invariant.{
  IsEntry, Inv, Within, entries_mono, entries-insert, insert-Distinct, set_current_job-Inv,
}
use mining_pool.Stratum.Job.{JobMessages, build_job_messages, build_job_messages-job_id}
use mining_pool.Stratum.Open.{
  initial_target, wire_target, register, store_job, send_first_job, start_channel, answer_open,
  new_channel, open_channel, handle_open_extended_mining_channel,
}

if-IsTarget : (b : Bool) (x y : Bytes) → IsTarget x → IsTarget y → IsTarget (if b then x else y)
if-IsTarget true x y hx hy = hx
if-IsTarget false x y hx hy = hy

module _ {F32 F64 : Type 0} (lib : BitcoinLib) (fl : Floats F32 F64) (codec : Codec F32) where
  pub initial_target-IsTarget : (rate : F32) (bits : ℕ) → IsTarget (initial_target fl rate bits)
  unfolding initial_target
  initial_target-IsTarget rate bits =
      let (len, bytes, _) = (compact_to_target_be-Stands lib bits).0 in
      if-IsTarget _ _ _ (len, bytes) (hashrate_to_target_be-IsTarget fl rate)

  module _ (c j : ℕ) where
    send_first_job-Within :
        (channel : ChannelInfo) (now : ℤ) (messages : JobMessages) (w : World F64)
        → messages.info.job_id < w.state.next_job_id
        → Within c j w.state
        → Within c j (after (send_first_job lib fl codec channel now messages w)).state
    unfolding send_first_job store_job
    send_first_job-Within channel now messages w h (v, hc, hj) =
        let stored : Within c j (record (w.state) {
          channels = set_current_job channel.channel_id messages.info w.state.channels;
        }) =
          (set_current_job-Inv w.state channel.channel_id messages.info h v, hc, hj) in
        write_then (Within c j) _ _ _ _ stored (λ w1 e1.
          write_then (Within c j) _ _ _ w1 (rw e1 stored) (λ w2 e2.
            rw ((send_event-keeps (miner_connected channel.miner_address now) w2).0, e2, e1)
              stored))

    start_channel-Within :
        (template : RawTemplate) (now : ℤ) (channel : ChannelInfo) (w : World F64)
        → IsEntry w.state.next_channel_id w.state.next_job_id (channel.channel_id, channel)
        → w.state.next_job_id < j
        → j < 2 ^ 32
        → w.state.next_channel_id ≤ c
        → Inv w.state
        → Within c j (after (start_channel lib fl codec template now channel w)).state
    unfolding start_channel register alloc_job_id
    start_channel-Within template now channel w entry hj small hc v =
        let counted : (w.state.next_job_id + 1) % 2 ^ 32 ≡ w.state.next_job_id + 1 = omega arith in
        let w1 : World F64 = record w {
          state = record (w.state) {
            next_job_id = (w.state.next_job_id + 1) % 2 ^ 32;
            channels = insert channel.channel_id channel w.state.channels;
          };
        } in
        let entries1 : All (IsEntry w.state.next_channel_id w.state.next_job_id)
            (insert channel.channel_id channel w.state.channels) =
          entries-insert channel.channel_id channel w.state.channels entry v.entries in
        let v1 : Within c j w1.state = (
          record {
            entries =
                entries_mono (insert channel.channel_id channel w.state.channels) (omega arith)
                  (omega (arith, counted)) entries1;
            distinct = insert-Distinct channel.channel_id channel w.state.channels v.distinct;
          },
          hc,
          omega (arith, counted),
        ) in
        check_then (Within c j) (build_job_messages lib channel w.state.next_job_id template)
          (send_first_job lib fl codec channel now) w1 v1
          (λ messages built.
            let own =
              build_job_messages-job_id lib channel w.state.next_job_id template messages built in
            send_first_job-Within channel now messages w1 (omega (arith, own, counted)) v1)

    answer_open-Within :
        (template : RawTemplate) (now : ℤ) (request_id : ℕ) (channel : ChannelInfo) (t : Bytes)
        (w : World F64)
        → IsEntry w.state.next_channel_id w.state.next_job_id (channel.channel_id, channel)
        → w.state.next_job_id < j
        → j < 2 ^ 32
        → w.state.next_channel_id ≤ c
        → Inv w.state
        → Within c j (after (answer_open lib fl codec template now request_id channel t w)).state
    unfolding answer_open
    answer_open-Within template now request_id channel t w entry hj small hc v =
        write_then (Within c j) _ _ _ w (v, hc, omega (arith, hj))
          (λ w1 e.
            start_channel-Within template now channel w1 (rw e entry) (rw e hj) small (rw e hc)
              (rw e v))

    -- The open request that parses: it takes one channel id and at most one job id.
    open_channel-Within :
        (template : RawTemplate) (now : ℤ) (msg : OpenExtendedMiningChannel F32) (w : World F64)
        → w.state.next_channel_id < c
        → w.state.next_job_id < j
        → c < 2 ^ 32
        → j < 2 ^ 32
        → Inv w.state
        → Within c j (after (open_channel lib fl codec template now msg w)).state
    unfolding open_channel alloc_channel_id new_channel
    open_channel-Within template now msg w hc hj small_c small_j v =
        let counted : (w.state.next_channel_id + 1) % 2 ^ 32 ≡ w.state.next_channel_id + 1 =
          omega arith in
        let w1 : World F64 = record w {
          state = record (w.state) { next_channel_id = (w.state.next_channel_id + 1) % 2 ^ 32 };
        } in
        let v1 : Inv w1.state = record {
          entries = entries_mono w.state.channels (omega (arith, counted)) (omega arith) v.entries;
          distinct = v.distinct;
        } in
        let channel : ChannelInfo =
          new_channel lib fl codec template msg w.state.pool_address w.state.next_channel_id in
        let entry : IsEntry w1.state.next_channel_id w1.state.next_job_id
            (channel.channel_id, channel) =
          record {
            own_id = refl;
            allocated = omega (arith, counted);
            prefix = refl;
            target =
                initial_target-IsTarget msg.nominal_hash_rate template.set_new_prev_hash.n_bits;
            job = λ i e. ground arith;
          } in
        check_then (Within c j) (wire_target lib fl codec channel.channel_target_be)
          (answer_open lib fl codec template now msg.request_id channel) w1
          (v1, omega (arith, counted), omega arith)
          (λ t e.
            answer_open-Within template now msg.request_id channel t w1 entry hj small_j
              (omega (arith, counted)) v1)

    pub handle_open_extended_mining_channel-Within :
        (payload : Bytes) (template : RawTemplate) (now : ℤ) (w : World F64)
        → w.state.next_channel_id < c
        → w.state.next_job_id < j
        → c < 2 ^ 32
        → j < 2 ^ 32
        → Inv w.state
        → Within c j
            (after (handle_open_extended_mining_channel lib fl codec payload template now w)).state
    unfolding handle_open_extended_mining_channel
    handle_open_extended_mining_channel-Within payload template now w hc hj small_c small_j v =
        elim (Option-cases (codec.parse_open_extended_mining_channel payload)) [
          | inl e ↦
              rw (e, after, handle_open_extended_mining_channel)
                (v, omega (arith, hc), omega (arith, hj))
          | inr (msg, e) ↦
              rw (e, after, handle_open_extended_mining_channel)
                (open_channel-Within template now msg w hc hj small_c small_j v)
        ]
