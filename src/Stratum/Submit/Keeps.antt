-- ===== src/Stratum/Submit/Keeps.antt =====
-- A share (pool/src/stratum_sv2.rs) changes nothing of the connection's state.
use mining_pool.Base.{inl, inr, Bool, true, false, not, Option, none, some, ◌==◌, Option-cases}
use mining_pool.Bitcoin.{Bytes, BitcoinLib, Floats}
use mining_pool.Words.{lex_lt}
use mining_pool.Stratum.Target.{compact_to_target_hex}
use mining_pool.NodeIpc.Template.{SubmitSolutionData}
use mining_pool.Stratum.Protocol.{
  SubmitSharesExtended, Codec, stale_share_before_activation, difficulty_too_low, shares_error,
  shares_success,
}
use mining_pool.Stratum.State.{ChannelInfo, JobInfo, ConnectionState, World, after, get}
use mining_pool.Stratum.State.Steps.{write_then, write_last, if_then, send_event-keeps}
use mining_pool.Stratum.Submit.{
  send_shares_error, share_coinbase, share_header, solution_of, accept_share, judge_share,
  check_share, stale_or_check, found_or_silent, submit_share, handle_submit_shares_extended,
}

module _ {F32 F64 : Type 0} (lib : BitcoinLib) (fl : Floats F32 F64) (codec : Codec F32)
    (P : ConnectionState → Type 0) (s : SubmitSharesExtended) where
  send_shares_error-keeps :
      (code : mining_pool.Stratum.Protocol.Code) (w : World F64)
      → P w.state
      → P (after (send_shares_error s.channel_id s.sequence_number code w)).state
  unfolding send_shares_error
  send_shares_error-keeps code w v = write_last P _ true w v

  accept_share-keeps :
      (channel : ChannelInfo) (sol : SubmitSolutionData) (is_block : Bool) (hash : Bytes)
      (w : World F64)
      → P w.state
      → P (after (accept_share lib fl codec channel s sol is_block hash w)).state
  unfolding accept_share
  accept_share-keeps channel sol true hash w v =
      write_then P (shares_success s.channel_id s.sequence_number 1 1) true _ _ v
        (λ w' e. rw ((send_event-keeps _ w').0, e) v)
  accept_share-keeps channel sol false hash w v =
      write_then P (shares_success s.channel_id s.sequence_number 1 1) true _ w v
        (λ w' e. rw ((send_event-keeps _ w').0, e) v)

  judge_share-keeps :
      (channel : ChannelInfo) (job : JobInfo) (coinbase txid : Bytes) (w : World F64)
      → P w.state
      → P (after (judge_share lib fl codec channel job s coinbase txid w)).state
  unfolding judge_share
  judge_share-keeps channel job coinbase txid w v =
      let hash : Bytes = lib.block_hash (share_header lib job s txid) in
      let is_block : Bool =
        not (lex_lt (compact_to_target_hex lib job.nbits) (lib.display_hash hash)) in
      if_then P (lex_lt (lib.hex_encode channel.channel_target_be) (lib.display_hash hash))
        (send_shares_error s.channel_id s.sequence_number difficulty_too_low)
        (accept_share lib fl codec channel s (solution_of job s coinbase) is_block hash) w
        (send_shares_error-keeps difficulty_too_low w v)
        (accept_share-keeps channel (solution_of job s coinbase) is_block hash w v)

  check_share-keeps :
      (channel : ChannelInfo) (job : JobInfo) (w : World F64)
      → P w.state
      → P (after (check_share lib fl codec channel job s w)).state
  unfolding check_share
  check_share-keeps channel job w v =
      elim (Option-cases (lib.txid_of_bytes (share_coinbase channel job s))) [
        | inl e ↦ rw (e, check_share) v
        | inr (txid, e) ↦
            rw (e, check_share)
              (judge_share-keeps channel job (share_coinbase channel job s) txid w v)
      ]

  stale_or_check-keeps :
      (channel : ChannelInfo) (current : Option JobInfo) (w : World F64)
      → P w.state
      → P (after (stale_or_check lib fl codec channel current s w)).state
  unfolding stale_or_check
  stale_or_check-keeps channel none w v = send_shares_error-keeps stale_share_before_activation w v
  stale_or_check-keeps channel (some job) w v =
      if_then P (job.job_id == s.job_id) (check_share lib fl codec channel job s) _ w
        (check_share-keeps channel job w v)
        (send_shares_error-keeps stale_share_before_activation w v)

  found_or_silent-keeps :
      (found : Option ChannelInfo) (w : World F64)
      → P w.state
      → P (after (found_or_silent lib fl codec found s w)).state
  unfolding found_or_silent
  found_or_silent-keeps none w v = v
  found_or_silent-keeps (some channel) w v = stale_or_check-keeps channel channel.current_job w v

module _ {F32 F64 : Type 0} (lib : BitcoinLib) (fl : Floats F32 F64) (codec : Codec F32)
    (P : ConnectionState → Type 0) where
  pub handle_submit_shares_extended-keeps :
      (payload : Bytes) (w : World F64)
      → P w.state
      → P (after (handle_submit_shares_extended lib fl codec payload w)).state
  unfolding handle_submit_shares_extended submit_share
  handle_submit_shares_extended-keeps payload w v =
      elim (Option-cases (codec.parse_submit_shares_extended payload)) [
        | inl e ↦ rw (e, after, handle_submit_shares_extended) v
        | inr (s, e) ↦
            rw (e, after, handle_submit_shares_extended)
              (found_or_silent-keeps lib fl codec P s (get s.channel_id w.state.channels) w v)
      ]
