-- ===== src/Stratum/Connection/Invariant.antt =====
-- The invariant of a connection of pool/src/stratum_sv2.rs, from its first frame on, and what follows
-- from it for the channels.
use mining_pool.Base.{
  ◌≢◌, ℕ, suc, ◌+◌, ◌%◌, ◌^◌, ◌<◌, ◌≡◌, refl, ap, ◌∙◌, true, none, some, List, [], ◌∷◌, arith, ◌==◌,
  if◌then◌else◌, length,
}
use mining_pool.Base.Int.{ℤ}
use mining_pool.Bitcoin.{Bytes, BitcoinLib, Floats}
use mining_pool.NodeIpc.Template.{RawTemplate}
use mining_pool.Stratum.Protocol.{EitherFrame, handshake, sv2, Codec}
use mining_pool.Stratum.State.{
  ChannelInfo, ConnectionState, World, Action, after, get, err, ok, Outcome, return, ◌>>◌,
  alloc_job_id, new, put_state,
}
use mining_pool.Stratum.State.Steps.{bind_then, if_then}
use mining_pool.Stratum.State.Invariant.{Inv, Sound, Within, new-Inv, get-IsEntry, entries_mono}
use mining_pool.Stratum.Setup.{handle_setup_connection}
use mining_pool.Stratum.Setup.Keeps.{handle_setup_connection-keeps}
use mining_pool.Stratum.Extranonce.{build_full_extranonce, build_full_extranonce-injective}
use mining_pool.Stratum.Open.{handle_open_extended_mining_channel}
use mining_pool.Stratum.Open.Keeps.{handle_open_extended_mining_channel-Within}
use mining_pool.Stratum.Submit.{handle_submit_shares_extended}
use mining_pool.Stratum.Submit.Keeps.{handle_submit_shares_extended-keeps}
use mining_pool.Stratum.Broadcast.{send_jobs_to_all_channels}
use mining_pool.Stratum.Broadcast.Keeps.{send_jobs_to_all_channels-Within}
use mining_pool.Stratum.Connection.{
  Event, frame, closed, template_changed, dispatch_sv2, dispatch_message, ignore, turn, run,
  handle_connection,
}

module _ {F32 F64 : Type 0} (lib : BitcoinLib) (fl : Floats F32 F64) (codec : Codec F32) where
  calm : Outcome F64 (Unit {0}) → Outcome F64 (Unit {0})
  calm (ok a w) = ok tt w
  calm (err e w) = ok tt w

  calm-after : (o : Outcome F64 (Unit {0})) → after (calm o) ≡ after o
  unfolding calm
  calm-after (ok a w) = refl
  calm-after (err e w) = refl

  calm_cases :
      (o : Outcome F64 (Unit {0})) → (elim o [ ok a w' ↦ ok tt w' | err e w' ↦ ok tt w' ]) ≡ calm o
  unfolding calm
  calm_cases (ok a w) = refl
  calm_cases (err e w) = refl

  -- A dropped error leaves what the action did.
  pub ignore-after :
      (m : Action F64 (Unit {0})) (w : World F64) → after (ignore lib fl codec m w) ≡ after (m w)
  unfolding ignore
  ignore-after m w = ap after (calm_cases (m w)) ∙ calm-after (m w)

  module _ (c j : ℕ) (small_c : c < 2 ^ 32) (small_j : j < 2 ^ 32) where
    dispatch_sv2-Within :
        (msg_type : ℕ) (payload : Bytes) (template : RawTemplate) (now : ℤ) (w : World F64)
        → w.state.next_channel_id < c
        → w.state.next_job_id < j
        → Inv w.state
        → Within c j (after (dispatch_sv2 lib fl codec msg_type payload template now w)).state
    unfolding dispatch_sv2
    dispatch_sv2-Within msg_type payload template now w hc hj v =
        let same : Within c j w.state = (v, omega (arith, hc), omega (arith, hj)) in
        if_then (Within c j) (msg_type == codec.type_open_extended_mining_channel)
          (handle_open_extended_mining_channel lib fl codec payload template now) _ w
          (handle_open_extended_mining_channel-Within lib fl codec c j payload template now w hc hj
            small_c small_j v)
          (if_then (Within c j) (msg_type == codec.type_submit_shares_extended)
            (handle_submit_shares_extended lib fl codec payload) _ w
            (handle_submit_shares_extended-keeps lib fl codec (Within c j) payload w same) same)

    dispatch_message-Within :
        (f : EitherFrame) (template : RawTemplate) (now : ℤ) (w : World F64)
        → w.state.next_channel_id < c
        → w.state.next_job_id < j
        → Inv w.state
        → Within c j (after (dispatch_message lib fl codec f template now w)).state
    unfolding dispatch_message
    dispatch_message-Within handshake template now w hc hj v =
        (v, omega (arith, hc), omega (arith, hj))
    dispatch_message-Within (sv2 none payload) template now w hc hj v =
        (v, omega (arith, hc), omega (arith, hj))
    dispatch_message-Within (sv2 (some t) payload) template now w hc hj v =
        dispatch_sv2-Within t payload template now w hc hj v

    pub turn-Within :
        (e : Event) (w : World F64)
        → w.state.next_channel_id < c
        → w.state.next_job_id < j
        → Inv w.state
        → Within c j (after (turn lib fl codec e w)).state
    unfolding turn alloc_job_id
    turn-Within (frame f template now) w hc hj v =
        bind_then (Within c j) (Within c j) (dispatch_message lib fl codec f template now)
          (λ _. return true) w (dispatch_message-Within f template now w hc hj v) (λ s h. h)
          (λ _ w' h. h)
    turn-Within closed w hc hj v = (v, omega (arith, hc), omega (arith, hj))
    turn-Within (template_changed template) w hc hj v =
        let counted : (w.state.next_job_id + 1) % 2 ^ 32 ≡ w.state.next_job_id + 1 = omega arith in
        let w1 : World F64 = record w {
          state = record (w.state) { next_job_id = (w.state.next_job_id + 1) % 2 ^ 32 };
        } in
        let v1 : Within c j w1.state = (
          record {
            entries =
                entries_mono w.state.channels (omega arith) (omega (arith, counted)) v.entries;
            distinct = v.distinct;
          },
          omega (arith, hc),
          omega (arith, counted),
        ) in
        bind_then (Within c j) (Within c j)
          (ignore lib fl codec (send_jobs_to_all_channels lib template w.state.next_job_id))
          (λ _. return true) w1
          (rw (ignore-after (send_jobs_to_all_channels lib template w.state.next_job_id) w1) (
            send_jobs_to_all_channels-Within lib template w.state.next_job_id c j w1
              (omega (arith, counted)) v1))
          (λ s h. h) (λ _ w' h. h)

  -- As many turns as there are events, and each takes at most one id of each kind.
  run-Sound :
      (events : List Event) (c j : ℕ) (w : World F64)
      → Within c j w.state
      → c + length events < 2 ^ 32
      → j + length events < 2 ^ 32
      → Sound (after (run lib fl codec events w)).state
  unfolding run
  run-Sound [] c j w (v, hc, hj) small_c small_j = (v, omega arith)
  run-Sound (e ∷ es) c j w (v, hc, hj) small_c small_j =
      bind_then (Within (c + 1) (j + 1)) Sound (turn lib fl codec e)
        (λ more. if more then run lib fl codec es else return tt) w
        (turn-Within (c + 1) (j + 1) (omega arith) (omega arith) e w (omega arith) (omega arith) v)
        (λ s h. (h.0, omega (arith, h.1)))
        (λ more w' h.
          if_then Sound more (run lib fl codec es) (return tt) w'
            (run-Sound es (c + 1) (j + 1) w' h (omega arith) (omega arith))
            (h.0, omega (arith, h.1)))

  -- A connection whose state is valid stays so through the setup and any events, errors included, as
  -- long as there are fewer than 2^32 - 1 events: each channel is stored under its own id, which was allocated,
  -- with its own extranonce prefix and a target of 32 bytes; its job was allocated too; and no id is
  -- there twice.
  pub handle_connection-Sound :
      (first : EitherFrame) (pool_address : Bytes) (events : List Event) (w : World F64)
      → Sound w.state
      → suc (length events) < 2 ^ 32
      → Sound (after (handle_connection lib fl codec first pool_address events w)).state
  unfolding handle_connection
  handle_connection-Sound first pool_address events w v small =
      bind_then Sound Sound (handle_setup_connection codec first)
        (λ _. put_state (new pool_address) >> run lib fl codec events) w
        (handle_setup_connection-keeps codec Sound first w v) (λ s h. h)
        (λ _ w' h.
          run-Sound events 0 1 (record w' { state = new pool_address })
            (new-Inv pool_address, unfold new in omega arith, unfold new in omega arith)
            (omega arith) (omega arith))

  -- From a valid start and with fewer than 2^32 - 1 events, two different channels of one connection never
  -- make their miners hash the same coinbase extranonce, whatever bytes the miners add.
  pub handle_connection_extranonces :
      (first : EitherFrame) (pool_address : Bytes) (events : List Event) (w : World F64) (i j : ℕ)
      (x y : ChannelInfo) (ext2 ext2' : Bytes)
      → Sound w.state
      → suc (length events) < 2 ^ 32
      → get i (after (handle_connection lib fl codec first pool_address events w)).state.channels
        ≡ some x
      → get j (after (handle_connection lib fl codec first pool_address events w)).state.channels
        ≡ some y
      → i ≢ j
      → build_full_extranonce x.extranonce_prefix ext2
        ≢ build_full_extranonce y.extranonce_prefix ext2'
  handle_connection_extranonces first pool_address events w i j x y ext2 ext2' v small has_x has_y
        different same =
      let (v', fits) = handle_connection-Sound first pool_address events w v small in
      let s : ConnectionState =
        (after (handle_connection lib fl codec first pool_address events w)).state in
      let entry = λ (k : ℕ) (c : ChannelInfo).
        get-IsEntry s.next_channel_id s.next_job_id k c s.channels v'.entries in
      let at_i = entry i x has_x in
      let at_j = entry j y has_y in
      different (
        build_full_extranonce-injective i j ext2 ext2' (omega (arith, at_i.allocated, fits))
          (omega (arith, at_j.allocated, fits)) (rw (at_i.prefix, at_j.prefix) at same))
