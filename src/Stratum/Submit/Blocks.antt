-- ===== src/Stratum/Submit/Blocks.antt =====
-- Shares that solve a block (pool/src/stratum_sv2.rs): when the solution reaches the node.
use mining_pool.Base.{
  ◌≤◌, ◌<◌, ◌≡◌, inl, inr, ap, ◌∙◌, Bool, true, refl, some, [], ◌∷◌, ◌++◌, arith, Bool-cases,
  answer,
}
use mining_pool.Words.{be_value, le_value}
use mining_pool.Bitcoin.{Bytes, BitcoinLib, Floats, IsHex}
use mining_pool.Stratum.Target.{IsTarget}
use mining_pool.Stratum.Target.Compact.{compact_value}
use mining_pool.Stratum.Protocol.{
  Message, SubmitSharesExtended, Codec, shares_error, difficulty_too_low,
}
use mining_pool.Stratum.State.{ChannelInfo, JobInfo, World, after, write, get}
use mining_pool.Stratum.State.Steps.{write_ok, write_down, bind_ok, bind_err, send_event-keeps}
use mining_pool.Stratum.Submit.{
  share_coinbase, share_header, solution_of, handle_submit_shares_extended,
}
use mining_pool.Stratum.Submit.Verdict.{
  IsHash, accepted, too_low, weigh, verdict_of_job, verdict_of_current, verdict_of_found, verdict,
  carry_out, handle_submit-verdict,
}

module _ {F32 F64 : Type 0} (lib : BitcoinLib) (codec : Codec F32) where
  -- A share for the current job of a channel, whose coinbase is a transaction.
  pub record IsCurrent (w : World F64) (payload : Bytes) (s : SubmitSharesExtended)
      (channel : ChannelInfo) (job : JobInfo) (hash : Bytes) : Type 0 where
    pub txid : Bytes
    pub parsed : codec.parse_submit_shares_extended payload ≡ some s
    pub open_channel : get s.channel_id w.state.channels ≡ some channel
    pub target : IsTarget channel.channel_target_be
    pub has_job : channel.current_job ≡ some job
    pub same_job : job.job_id ≡ s.job_id
    pub readable : lib.txid_of_bytes (share_coinbase channel job s) ≡ some txid
    pub hashed : lib.block_hash (share_header lib job s txid) ≡ hash

write_keeps :
    {F64 : Type 0} (m : Message) (b : Bool) (w : World F64)
    → ((after (write m b w)).solutions ≡ w.solutions)
      × ((after (write m b w)).events ≡ w.events)
      × ((after (write m b w)).state ≡ w.state)
unfolding write
write_keeps m b w = elim (Bool-cases (answer w.writes)) [
  | inl up ↦ rw up (refl, refl, refl)
  | inr down ↦ rw down (refl, refl, refl)
]

pub solutions-accepted :
    {F32 F64 : Type 0} (fl : Floats F32 F64) (s : SubmitSharesExtended) (channel : ChannelInfo)
    (job : JobInfo) (coinbase hash : Bytes) (w : World F64)
    → (after (carry_out fl s (accepted true channel job coinbase hash) w)).solutions
      ≡ w.solutions ++ (solution_of job s coinbase ∷ [])
unfolding carry_out
solutions-accepted fl s channel job coinbase hash w = elim (Bool-cases (answer w.writes)) [
  | inr down ↦
      ap (λ o. (after o).solutions) (bind_err (write _ true) _ _ _ _ (write_down _ true _ down))
  | inl up ↦
      ap (λ o. (after o).solutions) (bind_ok (write _ true) _ _ _ _ (write_ok _ true _ up))
      ∙ (send_event-keeps _ _).2
]

module _ {F32 F64 : Type 0} (lib : BitcoinLib) (fl : Floats F32 F64) (codec : Codec F32)
    (hex : IsHex lib) (hashes : IsHash lib) (w : World F64) (payload : Bytes)
    (s : SubmitSharesExtended) (channel : ChannelInfo) (job : JobInfo) (hash : Bytes)
    (cur : IsCurrent lib codec w payload s channel job hash) where
  verdict-weigh : verdict lib w.state s ≡ weigh lib channel job (share_coinbase channel job s) hash
  unfolding verdict verdict_of_found verdict_of_current verdict_of_job
  verdict-weigh =
      ground (arith, cur.open_channel, cur.has_job, cur.same_job, cur.readable, cur.hashed)

  current-IsTarget :
      (c : ChannelInfo) → get s.channel_id w.state.channels ≡ some c → IsTarget c.channel_target_be
  current-IsTarget c e =
      let same : channel ≡ c = ground (arith, cur.open_channel) in rw (← same) cur.target

  pub handled :
      handle_submit_shares_extended lib fl codec payload w
      ≡ carry_out fl s (weigh lib channel job (share_coinbase channel job s) hash) w
  handled =
      handle_submit-verdict lib fl codec hex hashes payload s w cur.parsed current-IsTarget
      ∙ ap (λ v. carry_out fl s v w) verdict-weigh

  -- A share for the current job whose hash meets the network's target is submitted to the node, with the
  -- coinbase that was hashed, as long as the channel's target is no harder than the network's; whether
  -- the answer can be written makes no difference.
  pub block_submitted :
      compact_value job.nbits ≤ be_value channel.channel_target_be
      → le_value hash ≤ compact_value job.nbits
      → (after (handle_submit_shares_extended lib fl codec payload w)).solutions
        ≡ w.solutions ++ (solution_of job s (share_coinbase channel job s) ∷ [])
  block_submitted easier meets = rw (handled, solves) (solutions-accepted fl s channel job _ hash w)
    where
      solves :
          weigh lib channel job (share_coinbase channel job s) hash
          ≡ accepted true channel job (share_coinbase channel job s) hash
      solves = unfold weigh in ground arith

  -- A share for the current job whose hash is above the channel's target has the answer difficulty_too_low, whether
  -- or not it meets the network's target, and no other effect: no solution, no event and no change of the state.
  pub weak_share_refused :
      be_value channel.channel_target_be < le_value hash
      → (handle_submit_shares_extended lib fl codec payload w
          ≡ write (shares_error s.channel_id s.sequence_number difficulty_too_low) true w)
        × ((after (handle_submit_shares_extended lib fl codec payload w)).solutions ≡ w.solutions)
        × ((after (handle_submit_shares_extended lib fl codec payload w)).events ≡ w.events)
        × ((after (handle_submit_shares_extended lib fl codec payload w)).state ≡ w.state)
  weak_share_refused weak =
      let low : weigh lib channel job (share_coinbase channel job s) hash ≡ too_low =
        unfold weigh in ground arith in
      let whole = handled ∙ ap (λ v. carry_out fl s v w) low in
      unfold carry_out in
      (
        whole,
        rw whole (write_keeps _ true w).0,
        rw whole (write_keeps _ true w).1,
        rw whole (write_keeps _ true w).2,
      )
