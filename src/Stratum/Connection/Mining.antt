-- ===== src/Stratum/Connection/Mining.antt =====
-- From opening a channel to an accepted share (pool/src/stratum_sv2.rs).
use mining_pool.Base.{
  ◌≤◌, ◌≡◌, refl, sym, ap, ◌∙◌, inl, inr, Bool, true, false, some, [], ◌∷◌, ◌++◌, arith, leb,
  Bool-cases,
}
use mining_pool.Base.Int.{ℤ}
use mining_pool.Words.{be_value, le_value}
use mining_pool.Bitcoin.{Bytes, BitcoinLib, Floats, IsHex}
use mining_pool.NodeIpc.Template.{RawTemplate}
use mining_pool.Stratum.Target.{target_be_to_sv2}
use mining_pool.Stratum.Target.Compact.{compact_value}
use mining_pool.Stratum.Protocol.{
  Codec, OpenExtendedMiningChannel, SubmitSharesExtended, shares_success,
}
use mining_pool.Stratum.State.{ChannelInfo, JobInfo, World, Sent, ok, done, write, ◌>>◌}
use mining_pool.Stratum.State.Channels.{with_job}
use mining_pool.Stratum.State.Steps.{bind_ok}
use mining_pool.Stratum.Job.{JobMessages, build_job_messages, build_job_messages-job_id}
use mining_pool.Stratum.Open.{new_channel, handle_open_extended_mining_channel}
use mining_pool.Stratum.Open.Keeps.{initial_target-IsTarget}
use mining_pool.Stratum.Open.Opens.{
  channel_of, answers, opened, handle_open_extended_mining_channel_lem,
}
use mining_pool.Stratum.Submit.{share_coinbase, share_header, handle_submit_shares_extended}
use mining_pool.Stratum.Submit.Verdict.{IsHash, weigh, accepted, carry_out}
use mining_pool.Stratum.Submit.Blocks.{IsCurrent, handled}

-- The message that accepts a share.
abbrev pub success_for : SubmitSharesExtended → Sent
success_for s = record {
  message = shares_success s.channel_id s.sequence_number 1 1;
  is_channel_msg = true;
}

module _ {F32 F64 : Type 0} (lib : BitcoinLib) (fl : Floats F32 F64) (codec : Codec F32) where
  accepted_answer :
      (s : SubmitSharesExtended) (is_block : Bool) (channel : ChannelInfo) (job : JobInfo)
      (coinbase hash : Bytes) (w : World F64)
      → w.writes ≡ []
      → (w' : World F64) × (carry_out fl s (accepted is_block channel job coinbase hash) w
          ≡ ok tt w')
        × (w'.sent ≡ w.sent ++ (success_for s ∷ []))
        × (w'.state ≡ w.state)
  unfolding carry_out write
  accepted_answer s true channel job coinbase hash w up = elim (Bool-cases w.has_db) [
    | inl db ↦ rw (up, db) (_, refl, refl, refl)
    | inr no_db ↦ rw (up, no_db) (_, refl, refl, refl)
  ]
  accepted_answer s false channel job coinbase hash w up = elim (Bool-cases w.has_db) [
    | inl db ↦ rw (up, db) (_, refl, refl, refl)
    | inr no_db ↦ rw (up, no_db) (_, refl, refl, refl)
  ]

module _ {F32 F64 : Type 0} (lib : BitcoinLib) (fl : Floats F32 F64) (codec : Codec F32)
    (hex : IsHex lib) (hashes : IsHash lib) where
  -- While writes succeed: where a request opens a channel, and then a share for the channel's first job has a hash at
  -- most the channel's target as a number, both are handled without an error. The miner gets the three answers to
  -- the request and then the success of the share, and the share changes nothing of the connection's state.
  pub share_accepted :
      (payload payload' : Bytes) (template : RawTemplate) (now : ℤ)
      (msg : OpenExtendedMiningChannel F32) (w : World F64) (target txid : Bytes) (m : JobMessages)
      (s : SubmitSharesExtended)
      → codec.parse_open_extended_mining_channel payload ≡ some msg
      → target_be_to_sv2 lib (channel_of lib fl codec template msg w).channel_target_be
        ≡ some target
      → build_job_messages lib (channel_of lib fl codec template msg w) w.state.next_job_id template
        ≡ done m
      → w.writes ≡ []
      → codec.parse_submit_shares_extended payload' ≡ some s
      → s.channel_id ≡ w.state.next_channel_id
      → s.job_id ≡ w.state.next_job_id
      → lib.txid_of_bytes (share_coinbase (channel_of lib fl codec template msg w) m.info s)
        ≡ some txid
      → le_value (lib.block_hash (share_header lib m.info s txid))
        ≤ be_value (channel_of lib fl codec template msg w).channel_target_be
      → (w' : World F64) × ((handle_open_extended_mining_channel lib fl codec payload template now
              >> handle_submit_shares_extended lib fl codec payload')
            w
          ≡ ok tt w')
        × (w'.sent
            ≡ (w.sent ++ answers lib fl codec msg (channel_of lib fl codec template msg w) target m)
              ++ (success_for s ∷ []))
        × (w'.state
            ≡ (opened lib fl codec msg
                (channel_of lib fl codec template msg w)
                target
                m
                now
                w).state)
  share_accepted payload payload' template now msg w target txid m s parsed fits built up parsed'
        same_channel same_job readable meets =
      let channel : ChannelInfo = channel_of lib fl codec template msg w in
      let world : World F64 = opened lib fl codec msg channel target m now w in
      let hash : Bytes = lib.block_hash (share_header lib m.info s txid) in
      let (opens, stored) =
        handle_open_extended_mining_channel_lem lib fl codec payload template now msg w target m
          parsed fits built up in
      let current : IsCurrent lib codec world payload' s (with_job m.info channel) m.info hash =
        record {
          txid = txid;
          parsed = parsed';
          open_channel = rw same_channel stored;
          target =
              unfold new_channel in
              initial_target-IsTarget lib fl codec msg.nominal_hash_rate
                template.set_new_prev_hash.n_bits;
          has_job = refl;
          same_job =
              build_job_messages-job_id lib channel w.state.next_job_id template m built
              ∙ sym same_job;
          readable = unfold share_coinbase in readable;
          hashed = refl;
        } in
      let counted : weigh lib (with_job m.info channel) m.info
            (share_coinbase (with_job m.info channel) m.info s) hash
          ≡ accepted (leb (le_value hash) (compact_value m.info.nbits)) (with_job m.info channel)
              m.info (share_coinbase (with_job m.info channel) m.info s) hash =
        unfold weigh in ground (arith, meets) in
      let (w', ends, sent, state) =
        accepted_answer lib fl codec s (leb (le_value hash) (compact_value m.info.nbits))
          (with_job m.info channel) m.info (share_coinbase (with_job m.info channel) m.info s) hash
          world refl in
      let submits =
        handled lib fl codec hex hashes world payload' s (with_job m.info channel) m.info hash
          current in
      (
        w',
        bind_ok (handle_open_extended_mining_channel lib fl codec payload template now)
              (λ _. handle_submit_shares_extended lib fl codec payload') w world tt opens
            ∙ (submits ∙ (ap (λ v. carry_out fl s v world) counted ∙ ends)),
        sent,
        state,
      )
