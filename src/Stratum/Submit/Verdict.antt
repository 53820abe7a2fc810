-- ===== src/Stratum/Submit/Verdict.antt =====
-- What `handle_submit_shares_extended` (pool/src/stratum_sv2.rs) decides, said with numbers in place of
-- hex texts, and that the handler does just that.
use mining_pool.Base.{
  ◌≡◌, inl, inr, refl, sym, ◌∙◌, Bool, true, Option, none, some, reverse, arith, ltb, leb, ◌==◌,
  if◌then◌else◌, Bool-cases, Option-cases, length, All,
}
use mining_pool.Base.Int.{pos}
use mining_pool.Words.{IsByte, be_value, le_value}
use mining_pool.Bitcoin.{Bytes, BitcoinLib, Floats, IsHex}
use mining_pool.Db.Event.{share, hash_to_difficulty}
use mining_pool.Stratum.Target.{IsTarget, compact_to_target_be}
use mining_pool.Stratum.Target.Compact.{compact_value, compact_to_target_be-Stands}
use mining_pool.Stratum.Target.Order.{lex_lt-display_hash}
use mining_pool.Stratum.Protocol.{
  SubmitSharesExtended, Codec, shares_error, shares_success, stale_share_before_activation,
  difficulty_too_low,
}
use mining_pool.Stratum.State.{
  ChannelInfo, JobInfo, ConnectionState, World, Action, write, send_event, send_solution, get,
  return, ◌>>◌,
}
use mining_pool.Stratum.State.Invariant.{Inv, get-IsEntry}
use mining_pool.Stratum.Submit.{
  send_shares_error, share_coinbase, share_header, solution_of, accept_share, judge_share,
  check_share, stale_or_check, found_or_silent, handle_submit_shares_extended,
}

-- No answer at all, a rejection, or an accepted share, which may solve a block.
pub data Verdict : Type 0 where
  silent stale too_low : Verdict
  accepted :
      (is_block : Bool) (channel : ChannelInfo) (job : JobInfo) (coinbase hash : Bytes) → Verdict

-- What the pool relies on: block hashes have 32 bytes.
pub record IsHash (lib : BitcoinLib) : Type 0 where
  pub hash_length : (h : mining_pool.Bitcoin.BlockHeader) → length (lib.block_hash h) ≡ 32
  pub hash_bytes : (h : mining_pool.Bitcoin.BlockHeader) → All IsByte (lib.block_hash h)

module _ (lib : BitcoinLib) where
  -- The hash of a share as a number is compared with the channel's target and the network's.
  unfoldable pub weigh : ChannelInfo → JobInfo → Bytes → Bytes → Verdict
  weigh channel job coinbase hash =
      if ltb (be_value channel.channel_target_be) (le_value hash)
      then too_low
      else accepted (leb (le_value hash) (compact_value job.nbits)) channel job coinbase hash

  unfoldable pub verdict_of_job : ChannelInfo → JobInfo → SubmitSharesExtended → Verdict
  verdict_of_job channel job s =
      if job.job_id == s.job_id
      then (elim (lib.txid_of_bytes (share_coinbase channel job s)) [
        | none ↦ silent
        | some txid ↦
            weigh channel job (share_coinbase channel job s)
              (lib.block_hash (share_header lib job s txid))
      ])
      else stale

  unfoldable pub verdict_of_current : ChannelInfo → Option JobInfo → SubmitSharesExtended → Verdict
  verdict_of_current channel none s = stale
  verdict_of_current channel (some job) s = verdict_of_job channel job s

  unfoldable pub verdict_of_found : Option ChannelInfo → SubmitSharesExtended → Verdict
  verdict_of_found none s = silent
  verdict_of_found (some channel) s = verdict_of_current channel channel.current_job s

  unfoldable pub verdict : ConnectionState → SubmitSharesExtended → Verdict
  verdict st s = verdict_of_found (get s.channel_id st.channels) s

module _ {F32 F64 : Type 0} (fl : Floats F32 F64) where
  -- What each verdict means for the miner, the node and the database.
  unfoldable pub carry_out : SubmitSharesExtended → Verdict → Action F64 (Unit {0})
  carry_out s silent = return tt
  carry_out s stale =
      write (shares_error s.channel_id s.sequence_number stale_share_before_activation) true
  carry_out s too_low = write (shares_error s.channel_id s.sequence_number difficulty_too_low) true
  carry_out s (accepted is_block channel job coinbase hash) = do
    if is_block then send_solution (solution_of job s coinbase) else return tt
    write (shares_success s.channel_id s.sequence_number 1 1) true
    send_event (
        share (record {
          miner_address = channel.miner_address;
          difficulty = hash_to_difficulty fl (reverse hash);
          block_hash_be = reverse hash;
          timestamp = pos s.ntime;
        }))

module _ {F32 F64 : Type 0} (lib : BitcoinLib) (fl : Floats F32 F64) (codec : Codec F32)
    (hex : IsHex lib) (hashes : IsHash lib) where
  judge_share-weigh :
      (channel : ChannelInfo) (job : JobInfo) (s : SubmitSharesExtended) (coinbase txid : Bytes)
      (w : World F64)
      → IsTarget channel.channel_target_be
      → judge_share lib fl codec channel job s coinbase txid w
        ≡ carry_out fl s
            (weigh lib channel job coinbase (lib.block_hash (share_header lib job s txid)))
            w
  unfolding judge_share accept_share send_shares_error weigh carry_out
  judge_share-weigh channel job s coinbase txid w (len, bytes) =
      let header = share_header lib job s txid in
      let hash : Bytes = lib.block_hash header in
      let ((nlen, nbytes, nval), text) = compact_to_target_be-Stands lib job.nbits in
      let own =
        (lex_lt-display_hash lib hex channel.channel_target_be hash bytes (hashes.hash_bytes header)
          (len ∙ sym (hashes.hash_length header))).0 in
      let network =
        (lex_lt-display_hash lib hex (compact_to_target_be job.nbits) hash nbytes
          (hashes.hash_bytes header) (nlen ∙ sym (hashes.hash_length header))).0 in
      rw (own, text, network, nval) (ground arith)

  check_share-verdict :
      (channel : ChannelInfo) (job : JobInfo) (s : SubmitSharesExtended) (w : World F64)
      → IsTarget channel.channel_target_be
      → (job.job_id == s.job_id) ≡ true
      → check_share lib fl codec channel job s w
        ≡ carry_out fl s (verdict_of_job lib channel job s) w
  unfolding check_share verdict_of_job
  check_share-verdict channel job s w t same =
      elim (Option-cases (lib.txid_of_bytes (share_coinbase channel job s))) [
        | inl e ↦ rw (same, e, check_share) (unfold carry_out in refl)
        | inr (txid, e) ↦
            rw (same, e, check_share)
              (judge_share-weigh channel job s (share_coinbase channel job s) txid w t)
      ]

  stale_or_check-verdict :
      (channel : ChannelInfo) (current : Option JobInfo) (s : SubmitSharesExtended) (w : World F64)
      → IsTarget channel.channel_target_be
      → stale_or_check lib fl codec channel current s w
        ≡ carry_out fl s (verdict_of_current lib channel current s) w
  unfolding stale_or_check verdict_of_current
  stale_or_check-verdict channel none s w t = unfold carry_out send_shares_error in refl
  stale_or_check-verdict channel (some job) s w t = elim (Bool-cases (job.job_id == s.job_id)) [
    | inl same ↦ rw same (check_share-verdict channel job s w t same)
    | inr other ↦
        let bad : verdict_of_job lib channel job s ≡ stale = unfold verdict_of_job in rw other in
        rw (other, bad) (unfold carry_out send_shares_error in refl)
  ]

  found_or_silent-verdict :
      (found : Option ChannelInfo) (s : SubmitSharesExtended) (w : World F64)
      → ((channel : ChannelInfo) → found ≡ some channel → IsTarget channel.channel_target_be)
      → found_or_silent lib fl codec found s w ≡ carry_out fl s (verdict_of_found lib found s) w
  unfolding found_or_silent verdict_of_found
  found_or_silent-verdict none s w targets = unfold carry_out in refl
  found_or_silent-verdict (some channel) s w targets =
      stale_or_check-verdict channel channel.current_job s w (targets channel refl)

  pub handle_submit-verdict :
      (payload : Bytes) (s : SubmitSharesExtended) (w : World F64)
      → codec.parse_submit_shares_extended payload ≡ some s
      → ((channel : ChannelInfo)
          → get s.channel_id w.state.channels ≡ some channel
          → IsTarget channel.channel_target_be)
      → handle_submit_shares_extended lib fl codec payload w
        ≡ carry_out fl s (verdict lib w.state s) w
  unfolding handle_submit_shares_extended verdict
  handle_submit-verdict payload s w parsed targets =
      rw (parsed, handle_submit_shares_extended)
        (found_or_silent-verdict (get s.channel_id w.state.channels) s w targets)

  -- For a share that parses, in a state that meets the connection's invariant, the handler does
  -- exactly what the verdict says: nothing for an unknown channel or a coinbase that is no transaction,
  -- an error for a job that is not the current one or for a hash above the channel's target, and for any
  -- other share the answer of success, the event for the database, and before them the solution if
  -- and only if the hash is at most the network's target. Hashes and targets are compared as numbers.
  pub handle_submit_shares_extended-verdict :
      (payload : Bytes) (s : SubmitSharesExtended) (w : World F64)
      → codec.parse_submit_shares_extended payload ≡ some s
      → Inv w.state
      → handle_submit_shares_extended lib fl codec payload w
        ≡ carry_out fl s (verdict lib w.state s) w
  handle_submit_shares_extended-verdict payload s w parsed inv =
      handle_submit-verdict payload s w parsed (λ channel found.
        (get-IsEntry w.state.next_channel_id w.state.next_job_id s.channel_id channel
          w.state.channels inv.entries found).target)
