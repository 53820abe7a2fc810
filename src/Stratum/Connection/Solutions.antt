-- ===== src/Stratum/Connection/Solutions.antt =====
-- What a connection of pool/src/stratum_sv2.rs hands to the node and reports to the database.
use mining_pool.Base.{
  ℕ, ◌≡◌, refl, inl, inr, true, false, none, some, List, [], ◌∷◌, ◌++◌, ◌==◌, ==_iff, if◌then◌else◌,
  All, append_assoc,
}
use mathlib.Core.Path.{subst}
use mining_pool.Base.Int.{ℤ}
use mining_pool.Bitcoin.{Bytes, BitcoinLib, Floats, IsHex}
use mining_pool.NodeIpc.Template.{RawTemplate}
use mining_pool.Stratum.Protocol.{EitherFrame, handshake, sv2, Codec}
use mining_pool.Stratum.State.{World, ConnectionState, Action, ok, err, after, alloc_job_id, new}
use mining_pool.Stratum.State.Keeps.{Leads, Keeps, bind-Keeps, bind-Leads, if_cases}
use mining_pool.Stratum.State.Steps.{bind_ok, bind_err, Outcome-cases}
use mining_pool.Stratum.Fair.{IsBlock, IsCounted, Fair, Arrived}
use mining_pool.Stratum.Setup.Calm.{handle_setup_connection-Keeps}
use mining_pool.Stratum.Setup.{handle_setup_connection}
use mining_pool.Stratum.Open.Genuine.{handle_open-Leads}
use mining_pool.Stratum.Broadcast.{send_jobs_to_all_channels}
use mining_pool.Stratum.Broadcast.Genuine.{send_jobs_to_all_channels-Keeps}
use mining_pool.Stratum.Submit.Verdict.{IsHash}
use mining_pool.Stratum.Submit.Genuine.{handle_submit-Leads}
use mining_pool.Stratum.Connection.{
  Event, frame, closed, template_changed, dispatch_sv2, dispatch_message, ignore, turn, run,
  handle_connection,
}
use mining_pool.Stratum.Connection.Invariant.{ignore-after}

-- The template that an event brings is one of those.
abbrev pub Brings : (RawTemplate → Type 0) → Event → Type 0
Brings Seen (frame f template now) = Seen template
Brings Seen closed = Unit
Brings Seen (template_changed template) = Seen template

-- A list has an entry.
abbrev pub Among : {A : Type 0} → List A → A → Type 0
Among {A} xs x = (earlier : List A) × (later : List A) × (xs ≡ earlier ++ (x ∷ later))

-- All solutions that were handed over are blocks, and all shares that were reported were accepted.
abbrev pub Worthy :
    {F32 F64 : Type 0}
    → BitcoinLib
    → Floats F32 F64
    → Codec F32
    → (RawTemplate → Type 0)
    → (ConnectionState → Event → Type 0)
    → World F64
    → Type 0
Worthy lib fl codec Seen Met w =
    All (IsBlock lib Seen) w.solutions × All (IsCounted lib fl codec Seen Met) w.events

module _ {F32 F64 : Type 0} (lib : BitcoinLib) (fl : Floats F32 F64) (codec : Codec F32) where
  -- The events that the loop meets, each with the state before it.
  pub moments : List Event → World F64 → List (ConnectionState × Event)
  moments [] w = []
  moments (e ∷ es) w = (w.state, e) ∷ elim (turn lib fl codec e w) [
    | ok more w' ↦ let rest = moments es w' in if more then rest else []
    | err error w' ↦ []
  ]

  -- Those behind the setup.
  pub moments_of : EitherFrame → Bytes → List Event → World F64 → List (ConnectionState × Event)
  moments_of first pool_address events w = elim (handle_setup_connection codec first w) [
    | ok done_ w' ↦ moments events (record w' { state = new pool_address })
    | err error w' ↦ []
  ]

module _ {F32 F64 : Type 0} (lib : BitcoinLib) (fl : Floats F32 F64) (codec : Codec F32)
    (hex : IsHex lib) (hashes : IsHash lib) (Seen : RawTemplate → Type 0)
    (Met : ConnectionState → Event → Type 0) where
  dispatch_sv2-Leads :
      (t : ℕ) (payload : Bytes) (template : RawTemplate) (now : ℤ)
      → Seen template
      → Leads
          (Arrived lib fl codec Seen Met (frame (sv2 (some t) payload) template now))
          (Fair lib fl codec Seen Met)
          (dispatch_sv2 lib fl codec t payload template now)
  unfolding dispatch_sv2
  dispatch_sv2-Leads t payload template now seen =
      let as_type : (n : ℕ) (w : World F64)
          → (t == n) ≡ true
          → Arrived lib fl codec Seen Met (frame (sv2 (some t) payload) template now) w
          → Arrived lib fl codec Seen Met (frame (sv2 (some n) payload) template now) w =
        λ n w same arrived.
          subst (λ k. Arrived lib fl codec Seen Met (frame (sv2 (some k) payload) template now) w)
            ((==_iff t n).0 same) arrived in
      if_cases (t == codec.type_open_extended_mining_channel)
        (λ same. record {
          led = λ w h.
              (handle_open-Leads lib fl codec Seen Met template seen now payload).led w
                (as_type codec.type_open_extended_mining_channel w same h);
        })
        (λ _.
          if_cases (t == codec.type_submit_shares_extended)
            (λ same. record {
              led = λ w h.
                  (handle_submit-Leads lib fl codec Seen Met payload template now hex hashes).led w
                    (as_type codec.type_submit_shares_extended w same h);
            })
            (λ _. record { led = λ w h. h.1 }))

  dispatch_message-Leads :
      (f : EitherFrame) (template : RawTemplate) (now : ℤ)
      → Seen template
      → Leads
          (Arrived lib fl codec Seen Met (frame f template now))
          (Fair lib fl codec Seen Met)
          (dispatch_message lib fl codec f template now)
  unfolding dispatch_message
  dispatch_message-Leads handshake template now seen = record { led = λ w h. h.1 }
  dispatch_message-Leads (sv2 none payload) template now seen = record { led = λ w h. h.1 }
  dispatch_message-Leads (sv2 (some t) payload) template now seen =
      dispatch_sv2-Leads t payload template now seen

  ignore-Keeps :
      (m : Action F64 (Unit {0}))
      → Keeps (Fair lib fl codec Seen Met) m
      → Keeps (Fair lib fl codec Seen Met) (ignore lib fl codec m)
  ignore-Keeps m v = record { led = λ w h. rw (ignore-after lib fl codec m w) (v.led w h) }

  changed-Keeps :
      (template : RawTemplate)
      → Seen template
      → Keeps (Fair lib fl codec Seen Met) (turn lib fl codec (template_changed template))
  unfolding turn alloc_job_id
  changed-Keeps template seen =
      bind-Keeps alloc_job_id (record { led = λ w h. h })
        (λ job_id.
          bind-Keeps (ignore lib fl codec (send_jobs_to_all_channels lib template job_id))
            (ignore-Keeps _
              (send_jobs_to_all_channels-Keeps lib fl codec Seen Met template seen job_id))
            (λ _. record { led = λ w h. h }))

  -- One turn of a connection's loop.
  pub turn-Leads :
      (e : Event)
      → Brings Seen e
      → Leads (Arrived lib fl codec Seen Met e) (Fair lib fl codec Seen Met) (turn lib fl codec e)
  unfolding turn alloc_job_id
  turn-Leads (frame f template now) seen =
      bind-Leads (dispatch_message lib fl codec f template now)
        (dispatch_message-Leads f template now seen) (λ _ h. h) (λ _. record { led = λ w h. h })
  turn-Leads closed seen = record { led = λ w h. h.1 }
  turn-Leads (template_changed template) seen = record {
    led = λ w h. (changed-Keeps template seen).led w h.1;
  }

  Worthy-setup :
      (first : EitherFrame)
      → Keeps (Worthy lib fl codec Seen Met) (handle_setup_connection codec first)
  Worthy-setup first =
      handle_setup_connection-Keeps codec (record { told = λ w sent writes h. h }) first

  AllMet : List (ConnectionState × Event) → Type 0
  AllMet ms = All (λ m. Met m.0 m.1) ms

  -- The loop, with what it meets.
  run_leads :
      (events : List Event) (w : World F64)
      → All (Brings Seen) events
      → AllMet (moments lib fl codec events w)
      → Fair lib fl codec Seen Met w
      → Fair lib fl codec Seen Met (after (run lib fl codec events w))
  unfolding run moments AllMet
  run_leads [] w seen met h = h
  run_leads (e ∷ es) w (seen, rest) (met, mets) h =
      let h' = (turn-Leads e seen).led w (met, h) in
      elim (Outcome-cases (turn lib fl codec e w)) [
        | inr (error, w', failed) ↦
            rw (bind_err (turn lib fl codec e) _ w w' error failed) (rw (failed, after) at h')
        | inl (true, w', went_on) ↦
            rw (bind_ok (turn lib fl codec e) _ w w' true went_on)
              (run_leads es w' rest (rw (went_on) at mets) (rw (went_on, after) at h'))
        | inl (false, w', went_on) ↦
            rw (bind_ok (turn lib fl codec e) _ w w' false went_on) (rw (went_on, after) at h')
      ]

  behind_setup :
      (first : EitherFrame) (pool_address : Bytes) (events : List Event) (w : World F64)
      → All (Brings Seen) events
      → AllMet (moments_of lib fl codec first pool_address events w)
      → Worthy lib fl codec Seen Met w
      → Worthy lib fl codec Seen Met
          (after (handle_connection lib fl codec first pool_address events w))
  unfolding handle_connection moments_of AllMet new
  behind_setup first pool_address events w seen met before =
      let h = (Worthy-setup first).led w before in
      elim (Outcome-cases (handle_setup_connection codec first w)) [
        | inr (error, w', failed) ↦
            rw (bind_err (handle_setup_connection codec first) _ w w' error failed)
              (rw (failed, after) at h)
        | inl (a, w', done_) ↦
            let h' : Worthy lib fl codec Seen Met w' = rw (done_, after) at h in
            let (channels, solutions, reports) =
              run_leads events (record w' { state = new pool_address }) seen
                (rw (done_, moments_of) at met) (tt, h'.0, h'.1) in
            rw (bind_ok (handle_setup_connection codec first) _ w w' a done_) (solutions, reports)
      ]

pub All-Among : {A : Type 0} (before xs : List A) → All (Among (before ++ xs)) xs
All-Among before [] = tt
All-Among before (x ∷ xs) = (
  (before, xs, refl),
  subst (λ l. All (Among l) xs) (append_assoc before (x ∷ []) xs)
      (All-Among (before ++ (x ∷ [])) xs),
)

module _ {F32 F64 : Type 0} (lib : BitcoinLib) (fl : Floats F32 F64) (codec : Codec F32)
    (hex : IsHex lib) (hashes : IsHash lib) (Seen : RawTemplate → Type 0) where
  -- Through the setup and any sequence of events, however long and errors included: if the solutions that were handed
  -- over and the shares that were reported before are worthy, so are all that the connection hands over and reports.
  -- A solution is made of a share for a job that was built, from a template that an event brought, for a channel with
  -- its own prefix, and the header that the share's coinbase gives has a hash at most the job's network target as a
  -- number. A reported share was submitted by a request that the loop met, in a state whose map holds, under the share's
  -- channel id, a channel that a request which the loop met opened, with the target, the prefix and the address for
  -- that request; the share is for the channel's current job, its hash is at most the channel's target as
  -- a number, and the report names the channel's address, the hash, its difficulty and the time.
  pub handle_connection-Blocks :
      (first : EitherFrame) (pool_address : Bytes) (events : List Event) (w : World F64)
      → All (Brings Seen) events
      → Worthy lib fl codec Seen
          (λ st e. Among (moments_of lib fl codec first pool_address events w) (st, e))
          w
      → Worthy lib fl codec Seen
          (λ st e. Among (moments_of lib fl codec first pool_address events w) (st, e))
          (after (handle_connection lib fl codec first pool_address events w))
  handle_connection-Blocks first pool_address events w seen before =
      behind_setup lib fl codec hex hashes Seen _ first pool_address events w seen
        (unfold AllMet in All-Among [] (moments_of lib fl codec first pool_address events w)) before
