-- ===== src/Stratum/Connection.antt =====
-- `dispatch_message` and the loop of `handle_connection` of pool/src/stratum_sv2.rs.
pub mod Invariant
pub mod Solutions
pub mod Mining
pub mod Submits
use mining_pool.Base.{
  ℕ, zero, suc, ◌+◌, ◌-◌, ◌*◌, ◌/◌, ◌%◌, ◌^◌, ◌≤◌, ◌<◌, min, ◌≡◌, ◌≢◌, ◌↔◌, ◌⊎◌, inl, inr, refl, ap,
  sym, ◌∙◌, Bool, true, false, not, ◌&&◌, ◌||◌, Option, none, some, List, [], ◌∷◌, ◌++◌, map,
  append-nil, append_assoc, reverse, arith, ltb, leb, ◌==◌, if◌then◌else◌, ltb→lt, lt→ltb, ==_iff,
  ==_self, Bool-cases, Option-cases, length, take, drop, replicate, set, All, All-append,
  All-replicate, All-reverse, length-append, take-append-drop, take-append, drop-append,
  length-take, length-drop, length-replicate, length-reverse, list_eq, list_eq→eq, list_eq_self,
  Outcomes, answer, later,
}
use mining_pool.Base.Int.{ℤ}
use mining_pool.Bitcoin.{Bytes, BitcoinLib, Floats}
use mining_pool.NodeIpc.Template.{RawTemplate}
use mining_pool.Stratum.Protocol.{EitherFrame, handshake, sv2, Codec}
use mining_pool.Stratum.State.{
  World, Outcome, ok, err, Action, handshake_frame, missing_header, bail, return, put_state,
  alloc_job_id, new, ◌>>=◌, ◌>>◌,
}
use mining_pool.Stratum.Setup.{handle_setup_connection}
use mining_pool.Stratum.Open.{handle_open_extended_mining_channel}
use mining_pool.Stratum.Submit.{handle_submit_shares_extended}
use mining_pool.Stratum.Broadcast.{send_jobs_to_all_channels}

-- What a turn of the `select!` receives: a frame, with the template that is current then and the time,
-- a read error, or a changed template.
pub data Event : Type 0 where
  frame : EitherFrame → RawTemplate → ℤ → Event
  closed : Event
  template_changed : RawTemplate → Event

module _ {F32 F64 : Type 0} (lib : BitcoinLib) (fl : Floats F32 F64) (codec : Codec F32) where
  dispatch_sv2 : ℕ → Bytes → RawTemplate → ℤ → Action F64 (Unit {0})
  dispatch_sv2 msg_type payload template now =
      if msg_type == codec.type_open_extended_mining_channel
      then handle_open_extended_mining_channel lib fl codec payload template now
      else if msg_type == codec.type_submit_shares_extended
      then handle_submit_shares_extended lib fl codec payload
      else return tt

  unfoldable pub dispatch_message : EitherFrame → RawTemplate → ℤ → Action F64 (Unit {0})
  unfolding dispatch_sv2
  dispatch_message handshake template now = bail handshake_frame
  dispatch_message (sv2 none payload) template now = bail missing_header
  dispatch_message (sv2 (some msg_type) payload) template now =
      dispatch_sv2 msg_type payload template now

  -- An error of the broadcast is logged and dropped.
  pub ignore : Action F64 (Unit {0}) → Action F64 (Unit {0})
  ignore m w = elim (m w) [ ok a w' ↦ ok tt w' | err e w' ↦ ok tt w' ]

  -- One turn: whether the loop goes on.
  unfoldable pub turn : Event → Action F64 Bool
  unfolding ignore
  turn (frame f template now) = do dispatch_message f template now; return true
  turn closed = return false
  turn (template_changed template) = do
    job_id ← alloc_job_id
    ignore (send_jobs_to_all_channels lib template job_id)
    return true

  -- The loop over the events that occur; it ends early with the connection or with an error.
  unfoldable pub run : List Event → Action F64 (Unit {0})
  unfolding turn
  run [] = return tt
  run (e ∷ es) = turn e >>= λ more. if more then run es else return tt

  -- The first frame sets the connection up; the state is created behind it.
  unfoldable pub handle_connection : EitherFrame → Bytes → List Event → Action F64 (Unit {0})
  unfolding run
  handle_connection first pool_address events = do
    handle_setup_connection codec first
    put_state (new pool_address)
    run events
