-- ===== src/Stratum/Broadcast/Genuine.antt =====
-- A broadcast (pool/src/stratum_sv2.rs) leaves the channels genuine, on every path.
use mining_pool.Base.{ℕ, inl, inr, true, List, [], ◌∷◌, Option-cases}
use mining_pool.Bitcoin.{BitcoinLib, Floats}
use mining_pool.NodeIpc.Template.{RawTemplate}
use mining_pool.Stratum.Protocol.{Codec, new_job, new_prev_hash}
use mining_pool.Stratum.State.{ChannelInfo, ConnectionState, after, keys, get}
use mining_pool.Stratum.State.Channels.{AllChannels-get}
use mining_pool.Stratum.State.Keeps.{
  Leads, Keeps, bind-Leads, check_first, write-Keeps, write_first,
}
use mining_pool.Stratum.Job.{build_job_messages}
use mining_pool.Stratum.Connection.{Event}
use mining_pool.Stratum.Fair.{IsGenuine, Fair, Fair-IsCalm}
use mining_pool.Stratum.Open.Genuine.{Holds, stored-Fair}
use mining_pool.Stratum.Broadcast.{send_jobs_to_all_channels, send_jobs, send_job}

module _ {F32 F64 : Type 0} (lib : BitcoinLib) (fl : Floats F32 F64) (codec : Codec F32)
    (Seen : RawTemplate → Type 0) (Met : ConnectionState → Event → Type 0) (template : RawTemplate)
    (seen : Seen template) (job_id : ℕ) where
  send_job-Leads :
      (id : ℕ) (channel : ChannelInfo)
      → IsGenuine lib fl codec Seen Met channel
      → Leads
          (Holds lib fl codec Seen Met id channel)
          (Fair lib fl codec Seen Met)
          (send_job lib template job_id id channel)
  unfolding send_job
  send_job-Leads id channel genuine =
      check_first (build_job_messages lib channel job_id template) (λ _ h. h.0)
        (λ m built. record {
          led = λ w h.
              (write_first (Fair-IsCalm lib fl codec Seen Met) (new_job m.job) true (λ _ h. h)
                  (write-Keeps (Fair-IsCalm lib fl codec Seen Met) (new_prev_hash m.prev_hash)
                    true)).led
                _
                (stored-Fair lib fl codec Seen Met id channel job_id template m w seen built genuine
                  h);
        })

  send_jobs-Keeps :
      (ids : List ℕ) → Keeps (Fair lib fl codec Seen Met) (send_jobs lib template job_id ids)
  unfolding send_jobs
  send_jobs-Keeps [] = record { led = λ w h. h }
  send_jobs-Keeps (id ∷ ids) = record {
    led = λ w h. elim (Option-cases (get id w.state.channels)) [
      | inl missing ↦ rw (missing, after, send_jobs) h
      | inr (channel, found) ↦
          let genuine : IsGenuine lib fl codec Seen Met channel =
            AllChannels-get (IsGenuine lib fl codec Seen Met) id channel w.state.channels h.0
              found in
          rw (found, send_jobs)
            ((bind-Leads (send_job lib template job_id id channel)
                {f = λ _. send_jobs lib template job_id ids} (send_job-Leads id channel genuine)
                (λ _ h. h) (λ _. send_jobs-Keeps ids)).led
              w (h, found))
    ];
  }

  pub send_jobs_to_all_channels-Keeps :
      Keeps (Fair lib fl codec Seen Met) (send_jobs_to_all_channels lib template job_id)
  unfolding send_jobs_to_all_channels
  send_jobs_to_all_channels-Keeps = record {
    led = λ w h. (send_jobs-Keeps (keys w.state.channels)).led w h;
  }
