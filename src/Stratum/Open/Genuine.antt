-- ===== src/Stratum/Open/Genuine.antt =====
-- Opening a channel (pool/src/stratum_sv2.rs) gives the miner a genuine channel, on every path.
use mining_pool.Base.{
  ℕ, ◌≡◌, refl, ap, inl, inr, true, false, some, Bool-cases, Option-cases, All-append, ==_self,
}
use mining_pool.Base.Int.{ℤ}
use mining_pool.Bitcoin.{Bytes, BitcoinLib, Floats}
use mining_pool.NodeIpc.Template.{RawTemplate}
use mining_pool.Db.Event.{DbEvent, miner_connected}
use mining_pool.Stratum.Protocol.{Codec, sv2, new_job, new_prev_hash, OpenExtendedMiningChannel}
use mining_pool.Stratum.State.{
  ChannelInfo, ConnectionState, JobInfo, World, done, alloc_channel_id, alloc_job_id, get, insert,
  set_current_job, after, send_event,
}
use mining_pool.Stratum.State.Channels.{
  get-insert, with_job, AllChannels-insert, AllChannels-set_current_job,
}
use mining_pool.Stratum.State.Keeps.{Leads, Keeps, bind-Leads, check_first, write_first}
use mining_pool.Stratum.Job.{JobMessages, build_job_messages}
use mining_pool.Stratum.Open.{
  handle_open_extended_mining_channel, open_channel, answer_open, start_channel, send_first_job,
  register, store_job, wire_target, new_channel,
}
use mining_pool.Stratum.Fair.{IsGenuine, IsCounted, Fair, Arrived, Fair-IsCalm}
use mining_pool.Stratum.Connection.{Event, frame}

module _ {F32 F64 : Type 0} (lib : BitcoinLib) (fl : Floats F32 F64) (codec : Codec F32)
    (Seen : RawTemplate → Type 0) (Met : ConnectionState → Event → Type 0) where
  -- The map holds the channel, and the rest is fair.
  abbrev pub Holds : ℕ → ChannelInfo → World F64 → Type 0
  Holds id channel w = Fair lib fl codec Seen Met w × (get id w.state.channels ≡ some channel)

  same_build :
      (channel : ChannelInfo) (job : JobInfo) (id : ℕ) (template : RawTemplate)
      → build_job_messages lib (with_job job channel) id template
        ≡ build_job_messages lib channel id template
  unfolding build_job_messages
  same_build channel job id template = refl

  -- A genuine channel stays one with the job that was built for it.
  with_job-IsGenuine :
      (channel : ChannelInfo) (id : ℕ) (template : RawTemplate) (m : JobMessages)
      → Seen template
      → build_job_messages lib channel id template ≡ done m
      → IsGenuine lib fl codec Seen Met channel
      → IsGenuine lib fl codec Seen Met (with_job m.info channel)
  with_job-IsGenuine channel id template m seen built v = record {
    opened_in = v.opened_in;
    payload = v.payload;
    opened_with = v.opened_with;
    now = v.now;
    msg = v.msg;
    met = v.met;
    seen = v.seen;
    parsed = v.parsed;
    as_opened = ap (with_job m.info) v.as_opened;
    current = record {
      template = template;
      seen = seen;
      job_id = id;
      messages = m;
      built = rw (same_build channel m.info id template) built;
      info = refl;
    };
  }

  -- So the map with that job is fair.
  pub stored-Fair :
      (id : ℕ) (channel : ChannelInfo) (job_id : ℕ) (template : RawTemplate) (m : JobMessages)
      (w : World F64)
      → Seen template
      → build_job_messages lib channel job_id template ≡ done m
      → IsGenuine lib fl codec Seen Met channel
      → Holds id channel w
      → Fair lib fl codec Seen Met (record w {
        state = record (w.state) { channels = set_current_job id m.info w.state.channels };
      })
  stored-Fair id channel job_id template m w seen built v (h, found) = (
    AllChannels-set_current_job (IsGenuine lib fl codec Seen Met) id m.info channel w.state.channels
        found (with_job-IsGenuine channel job_id template m seen built v) h.0,
    h.1,
    h.2,
  )

  pub send_event-Keeps :
      (e : DbEvent F64)
      → IsCounted lib fl codec Seen Met e
      → Keeps (Fair lib fl codec Seen Met) (send_event e)
  send_event-Keeps e counted = record {
    led = λ w h. elim (Bool-cases w.has_db) [
      | inl db ↦
          rw db
            (h.0, h.1, All-append (IsCounted lib fl codec Seen Met) w.events _ h.2 (counted, tt))
      | inr no_db ↦ rw no_db h
    ];
  }

module _ {F32 F64 : Type 0} (lib : BitcoinLib) (fl : Floats F32 F64) (codec : Codec F32)
    (Seen : RawTemplate → Type 0) (Met : ConnectionState → Event → Type 0) (template : RawTemplate)
    (seen : Seen template) (now : ℤ) where
  start_channel-Leads :
      (channel : ChannelInfo)
      → IsGenuine lib fl codec Seen Met channel
      → Keeps (Fair lib fl codec Seen Met) (start_channel lib fl codec template now channel)
  unfolding start_channel send_first_job store_job register alloc_job_id
  start_channel-Leads channel genuine =
      let id : ℕ = channel.channel_id in
      bind-Leads {R = Holds lib fl codec Seen Met id channel} (register lib fl codec channel)
        (record {
          led = λ w h.
              let stored : get id (insert id channel w.state.channels) ≡ some channel =
                rw (get-insert id id channel w.state.channels, ==_self id) refl in
              (
                (
                  AllChannels-insert (IsGenuine lib fl codec Seen Met) id channel w.state.channels
                      genuine h.0,
                  h.1,
                  h.2,
                ),
                stored,
              );
        })
        (λ _ h. h.0)
        (λ _.
          bind-Leads {R = Holds lib fl codec Seen Met id channel} alloc_job_id
            (record { led = λ w h. h }) (λ _ h. h.0)
            (λ job_id.
              check_first (build_job_messages lib channel job_id template) (λ _ h. h.0)
                (λ m built.
                  bind-Leads (store_job lib fl codec id m.info)
                    (record {
                      led = λ w.
                          stored-Fair lib fl codec Seen Met id channel job_id template m w seen
                            built genuine;
                    })
                    (λ _ h. h)
                    (λ _.
                      write_first (Fair-IsCalm lib fl codec Seen Met) (new_job m.job) true
                        (λ _ h. h)
                        (write_first (Fair-IsCalm lib fl codec Seen Met) (new_prev_hash m.prev_hash)
                          true (λ _ h. h)
                          (send_event-Keeps lib fl codec Seen Met
                            (miner_connected channel.miner_address now) tt))))))

  new_channel-IsGenuine :
      (payload : Bytes) (msg : OpenExtendedMiningChannel F32) (st : ConnectionState)
      → codec.parse_open_extended_mining_channel payload ≡ some msg
      → Met st (frame (sv2 (some codec.type_open_extended_mining_channel) payload) template now)
      → IsGenuine lib fl codec Seen Met
          (new_channel lib fl codec template msg st.pool_address st.next_channel_id)
  unfolding new_channel
  new_channel-IsGenuine payload msg st parsed met = record {
    opened_in = st;
    payload = payload;
    opened_with = template;
    now = now;
    msg = msg;
    met = met;
    seen = seen;
    parsed = parsed;
    as_opened = refl;
    current = tt;
  }

  -- The world when an open request arrives.
  abbrev Asked : Bytes → World F64 → Type 0
  Asked payload w =
      Arrived lib fl codec Seen Met
        (frame (sv2 (some codec.type_open_extended_mining_channel) payload) template now) w

  open_channel-Leads :
      (payload : Bytes) (msg : OpenExtendedMiningChannel F32)
      → codec.parse_open_extended_mining_channel payload ≡ some msg
      → Leads
          (Asked payload)
          (Fair lib fl codec Seen Met)
          (open_channel lib fl codec template now msg)
  unfolding open_channel answer_open alloc_channel_id
  open_channel-Leads payload msg parsed = record {
    led = λ w (met, h).
        (check_first
            (wire_target lib fl codec
              (new_channel lib fl codec template msg w.state.pool_address
                w.state.next_channel_id).channel_target_be)
            (λ _ h. h)
            (λ t _.
              write_first (Fair-IsCalm lib fl codec Seen Met) _ false (λ _ h. h)
                (start_channel-Leads _ (new_channel-IsGenuine payload msg w.state parsed met)))).led
          (after (alloc_channel_id w)) h;
  }

  pub handle_open-Leads :
      (payload : Bytes)
      → Leads
          (Asked payload)
          (Fair lib fl codec Seen Met)
          (handle_open_extended_mining_channel lib fl codec payload template now)
  unfolding handle_open_extended_mining_channel
  handle_open-Leads payload = record {
    led = λ w h. elim (Option-cases (codec.parse_open_extended_mining_channel payload)) [
      | inl e ↦ rw (e, handle_open_extended_mining_channel) (h.1)
      | inr (msg, e) ↦
          rw (e, handle_open_extended_mining_channel) ((open_channel-Leads payload msg e).led w h)
    ];
  }
