-- ===== src/Stratum/Broadcast/Keeps.antt =====
-- A broadcast (pool/src/stratum_sv2.rs) keeps the invariant, and it changes no target.
use mining_pool.Base.{ℕ, ◌<◌, inl, inr, true, List, [], ◌∷◌, arith, Option-cases}
use mining_pool.Bitcoin.{BitcoinLib}
use mining_pool.NodeIpc.Template.{RawTemplate}
use mining_pool.Stratum.State.{
  ChannelInfo, ConnectionState, World, after, get, keys, set_current_job,
}
use mining_pool.Stratum.State.Steps.{write_then, write_last, check_then, bind_then}
use mining_pool.Stratum.State.Invariant.{Within, set_current_job-Inv}
use mining_pool.Stratum.Protocol.{new_job, new_prev_hash}
use mining_pool.Stratum.Job.{build_job_messages, build_job_messages-job_id}
use mining_pool.Stratum.Broadcast.{send_job, send_jobs, send_jobs_to_all_channels}

module _ {F64 : Type 0} (lib : BitcoinLib) (template : RawTemplate) (job_id c j : ℕ) where
  send_job-Within :
      (channel_id : ℕ) (channel : ChannelInfo) (w : World F64)
      → job_id < w.state.next_job_id
      → Within c j w.state
      → (job_id < (after (send_job lib template job_id channel_id channel w)).state.next_job_id)
        × Within c j (after (send_job lib template job_id channel_id channel w)).state
  unfolding send_job
  send_job-Within channel_id channel w h (v, hc, hj) =
      let P : ConnectionState → Type 0 = λ s. (job_id < s.next_job_id) × Within c j s in
      check_then P (build_job_messages lib channel job_id template) _ w (h, (v, hc, hj))
        (λ messages built.
          let own = build_job_messages-job_id lib channel job_id template messages built in
          let stored : P (record (w.state) {
            channels = set_current_job channel_id messages.info w.state.channels;
          }) =
            (
              h,
              (set_current_job-Inv w.state channel_id messages.info (omega (arith, own)) v, hc, hj),
            ) in
          write_then P (new_job messages.job) true _ _ stored
            (λ w1 e1. write_last P (new_prev_hash messages.prev_hash) true w1 (rw e1 stored)))

  send_jobs-Within :
      (channel_ids : List ℕ) (w : World F64)
      → job_id < w.state.next_job_id
      → Within c j w.state
      → Within c j (after (send_jobs lib template job_id channel_ids w)).state
  unfolding send_jobs
  send_jobs-Within [] w h v = v
  send_jobs-Within (id ∷ ids) w h v = elim (Option-cases (get id w.state.channels)) [
    | inl missing ↦ rw (missing, after, send_jobs) v
    | inr (channel, found) ↦
        rw (found, send_jobs)
          (bind_then (λ s. (job_id < s.next_job_id) × Within c j s) (Within c j)
            (send_job lib template job_id id channel) (λ _. send_jobs lib template job_id ids) w
            (send_job-Within id channel w h v) (λ s both. both.1)
            (λ _ w' both. send_jobs-Within ids w' both.0 both.1))
  ]

  pub send_jobs_to_all_channels-Within :
      (w : World F64)
      → job_id < w.state.next_job_id
      → Within c j w.state
      → Within c j (after (send_jobs_to_all_channels lib template job_id w)).state
  unfolding send_jobs_to_all_channels
  send_jobs_to_all_channels-Within w h v = send_jobs-Within (keys w.state.channels) w h v
