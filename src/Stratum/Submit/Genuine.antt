-- ===== src/Stratum/Submit/Genuine.antt =====
-- A share (pool/src/stratum_sv2.rs) hands over and reports what it is worth, on every path.
use mining_pool.Base.{
  ◌≡◌, refl, sym, inl, inr, Bool, true, false, none, some, Option, Option-cases, All-append,
}
use mathlib.Core.Path.{subst}
use mining_pool.Base.Int.{ℤ}
use mining_pool.Bitcoin.{Bytes, BitcoinLib, Floats, IsHex}
use mining_pool.NodeIpc.Template.{RawTemplate}
use mining_pool.Db.Event.{share}
use mining_pool.Stratum.Target.{IsTarget}
use mining_pool.Stratum.Protocol.{
  sv2, SubmitSharesExtended, Codec, shares_error, shares_success, stale_share_before_activation,
  difficulty_too_low,
}
use mining_pool.Stratum.State.{
  ChannelInfo, ConnectionState, JobInfo, after, return, get, send_solution,
}
use mining_pool.Stratum.State.Channels.{AllChannels-get}
use mining_pool.Stratum.State.Keeps.{Leads, Keeps, bind-Keeps, write-Keeps, write_first}
use mining_pool.Stratum.Fair.{
  IsGenuine, IsSubmitted, IsBlock, Fair, Arrived, Fair-IsCalm, IsGenuine-target,
}
use mining_pool.Stratum.Connection.{Event, frame}
use mining_pool.Stratum.Open.Genuine.{send_event-Keeps}
use mining_pool.Stratum.Open.Keeps.{initial_target-IsTarget}
use mining_pool.Stratum.Submit.{handle_submit_shares_extended, solution_of}
use mining_pool.Stratum.Submit.Verdict.{
  IsHash, Verdict, silent, stale, too_low, accepted, verdict, verdict_of_found, carry_out,
  handle_submit-verdict,
}
use mining_pool.Stratum.Submit.Justified.{
  report_of, Justified, accepted-IsBlock, accepted-IsShare, verdict_of_current-Justified,
}

module _ {F32 F64 : Type 0} (lib : BitcoinLib) (fl : Floats F32 F64) (codec : Codec F32)
    (Seen : RawTemplate → Type 0) (Met : ConnectionState → Event → Type 0) where
  -- The end of an accepted share: the answer and the report.
  accepted_rest :
      (s : SubmitSharesExtended) (channel : ChannelInfo) (job : JobInfo) (coinbase hash : Bytes)
      (b : Bool)
      → Justified lib fl codec Seen Met s (accepted b channel job coinbase hash)
      → Keeps
          (Fair lib fl codec Seen Met)
          (carry_out fl s (accepted false channel job coinbase hash))
  unfolding carry_out
  accepted_rest s channel job coinbase hash b v =
      bind-Keeps (return tt) (record { led = λ w h. h })
        (λ _.
          write_first (Fair-IsCalm lib fl codec Seen Met)
            (shares_success s.channel_id s.sequence_number 1 1) true (λ _ h. h)
            (send_event-Keeps lib fl codec Seen Met
              (share (report_of lib fl codec Seen Met channel s hash))
              (accepted-IsShare lib fl codec Seen Met s b channel job coinbase hash v)))

  carry_out-Keeps :
      (s : SubmitSharesExtended) (v : Verdict)
      → Justified lib fl codec Seen Met s v
      → Keeps (Fair lib fl codec Seen Met) (carry_out fl s v)
  unfolding carry_out
  carry_out-Keeps s silent j = record { led = λ w h. h }
  carry_out-Keeps s stale j =
      write-Keeps (Fair-IsCalm lib fl codec Seen Met)
        (shares_error s.channel_id s.sequence_number stale_share_before_activation) true
  carry_out-Keeps s too_low j =
      write-Keeps (Fair-IsCalm lib fl codec Seen Met)
        (shares_error s.channel_id s.sequence_number difficulty_too_low) true
  carry_out-Keeps s (accepted false channel job coinbase hash) j =
      accepted_rest s channel job coinbase hash false j
  carry_out-Keeps s (accepted true channel job coinbase hash) j = record {
    led = λ w h.
        (accepted_rest s channel job coinbase hash true j).led
          (after (send_solution (solution_of job s coinbase) w))
          (
            h.0,
            All-append (IsBlock lib Seen) w.solutions _ h.1
                (accepted-IsBlock lib fl codec Seen Met s channel job coinbase hash j, tt),
            h.2,
          );
  }

  found-Justified :
      (found : Option ChannelInfo) (s : SubmitSharesExtended)
      → ((channel : ChannelInfo)
          → found ≡ some channel
          → IsGenuine lib fl codec Seen Met channel × IsSubmitted lib fl codec Seen Met s channel)
      → Justified lib fl codec Seen Met s (verdict_of_found lib found s)
  unfolding verdict_of_found
  found-Justified none s known = tt
  found-Justified (some channel) s known =
      verdict_of_current-Justified lib fl codec Seen Met channel (known channel refl).0 s
        (known channel refl).1 channel.current_job refl

  pub handle_submit-Leads :
      (payload : Bytes) (template : RawTemplate) (now : ℤ)
      → IsHex lib
      → IsHash lib
      → Leads
          (Arrived lib fl codec Seen Met
            (frame (sv2 (some codec.type_submit_shares_extended) payload) template now))
          (Fair lib fl codec Seen Met)
          (handle_submit_shares_extended lib fl codec payload)
  handle_submit-Leads payload template now hex hashes = record {
    led = λ w (met, h). elim (Option-cases (codec.parse_submit_shares_extended payload)) [
      | inl e ↦ unfold handle_submit_shares_extended in rw (e, handle_submit_shares_extended) h
      | inr (s, e) ↦
          let genuine : (channel : ChannelInfo)
              → get s.channel_id w.state.channels ≡ some channel
              → IsGenuine lib fl codec Seen Met channel =
            λ channel found.
              AllChannels-get (IsGenuine lib fl codec Seen Met) s.channel_id channel
                w.state.channels h.0 found in
          rw
            (handle_submit-verdict lib fl codec hex hashes payload s w e (λ channel found.
              subst IsTarget
                (sym (IsGenuine-target lib fl codec Seen Met channel (genuine channel found)))
                (initial_target-IsTarget lib fl codec (genuine channel found).msg.nominal_hash_rate
                  _)))
            ((carry_out-Keeps s (verdict lib w.state s) (
                unfold verdict in
                found-Justified (get s.channel_id w.state.channels) s (λ channel found. (
                  genuine channel found,
                  record {
                    state = w.state;
                    payload = payload;
                    template = template;
                    now = now;
                    met = met;
                    parsed = e;
                    held = found;
                  },
                )))).led
              w h)
    ];
  }
