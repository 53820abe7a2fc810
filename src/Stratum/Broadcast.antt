-- ===== src/Stratum/Broadcast.antt =====
-- `send_jobs_to_all_channels` of pool/src/stratum_sv2.rs.
pub mod Keeps
pub mod Genuine
pub mod Delivers
use mining_pool.Base.{
  ℕ, zero, suc, ◌+◌, ◌-◌, ◌*◌, ◌/◌, ◌%◌, ◌^◌, ◌≤◌, ◌<◌, min, ◌≡◌, ◌≢◌, ◌↔◌, ◌⊎◌, inl, inr, refl, ap,
  sym, ◌∙◌, Bool, true, false, not, ◌&&◌, ◌||◌, Option, none, some, List, [], ◌∷◌, ◌++◌, map,
  append-nil, append_assoc, reverse, arith, ltb, leb, ◌==◌, if◌then◌else◌, ltb→lt, lt→ltb, ==_iff,
  ==_self, Bool-cases, Option-cases, length, take, drop, replicate, set, All, All-append,
  All-replicate, All-reverse, length-append, take-append-drop, take-append, drop-append,
  length-take, length-drop, length-replicate, length-reverse, list_eq, list_eq→eq, list_eq_self,
  Outcomes, answer, later,
}
use mining_pool.Bitcoin.{Bytes, BitcoinLib}
use mining_pool.NodeIpc.Template.{RawTemplate}
use mining_pool.Stratum.Protocol.{new_job, new_prev_hash}
use mining_pool.Stratum.State.{
  ChannelInfo, JobInfo, Action, panicked, bail, check, return, state_of, put_state, write, get,
  keys, set_current_job, ◌>>=◌, ◌>>◌,
}
use mining_pool.Stratum.Job.{JobMessages, build_job_messages}

module _ {F64 : Type 0} (lib : BitcoinLib) (template : RawTemplate) (job_id : ℕ) where
  -- The body of the loop behind the lookup.
  pub send_job : ℕ → ChannelInfo → Action F64 (Unit {0})
  send_job channel_id channel = do
    messages ← check (build_job_messages lib channel job_id template)
    s ← state_of
    put_state (record s { channels = set_current_job channel_id messages.info s.channels })
    write (new_job messages.job) true
    write (new_prev_hash messages.prev_hash) true

  pub send_jobs : List ℕ → Action F64 (Unit {0})
  send_jobs [] = return tt
  send_jobs (channel_id ∷ channel_ids) = do
    s ← state_of
    elim (get channel_id s.channels) [
      | none ↦ bail panicked
      | some channel ↦ send_job channel_id channel
    ]
    send_jobs channel_ids

  unfoldable pub send_jobs_to_all_channels : Action F64 (Unit {0})
  unfolding send_jobs send_job
  send_jobs_to_all_channels = do s ← state_of; send_jobs (keys s.channels)
