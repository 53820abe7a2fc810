-- ===== src/Stratum/Submit.antt =====
-- `handle_submit_shares_extended` and `send_shares_error` of pool/src/stratum_sv2.rs.
pub mod Verdict
pub mod Justified
pub mod Genuine
pub mod Keeps
pub mod Blocks
use mining_pool.Base.{
  ℕ, zero, suc, ◌+◌, ◌-◌, ◌*◌, ◌/◌, ◌%◌, ◌^◌, ◌≤◌, ◌<◌, min, ◌≡◌, ◌≢◌, ◌↔◌, ◌⊎◌, inl, inr, refl, ap,
  sym, ◌∙◌, Bool, true, false, not, ◌&&◌, ◌||◌, Option, none, some, List, [], ◌∷◌, ◌++◌, map,
  append-nil, append_assoc, reverse, arith, ltb, leb, ◌==◌, if◌then◌else◌, ltb→lt, lt→ltb, ==_iff,
  ==_self, Bool-cases, Option-cases, length, take, drop, replicate, set, All, All-append,
  All-replicate, All-reverse, length-append, take-append-drop, take-append, drop-append,
  length-take, length-drop, length-replicate, length-reverse, list_eq, list_eq→eq, list_eq_self,
  Outcomes, answer, later,
}
use mining_pool.Base.Int.{pos}
use mining_pool.Words.{lex_lt}
use mining_pool.Bitcoin.{Bytes, BitcoinLib, BlockHeader, Floats}
use mining_pool.Jobs.Merkle.{sha256d_pair, apply_branch}
use mining_pool.NodeIpc.Template.{SubmitSolutionData}
use mining_pool.Db.Event.{share, hash_to_difficulty}
use mining_pool.Stratum.Target.{compact_to_target_hex}
use mining_pool.Stratum.Protocol.{
  SubmitSharesExtended, Codec, Code, shares_error, shares_success, stale_share_before_activation,
  difficulty_too_low,
}
use mining_pool.Stratum.State.{
  ChannelInfo, JobInfo, Action, parse_error, bail, return, state_of, write, send_event,
  send_solution, get, ◌>>=◌, ◌>>◌,
}
use mining_pool.Stratum.Extranonce.{build_full_extranonce}

unfoldable pub send_shares_error : {F64 : Type 0} → ℕ → ℕ → Code → Action F64 (Unit {0})
send_shares_error channel_id sequence_number error_code =
    write (shares_error channel_id sequence_number error_code) true

-- The coinbase that the miner hashed.
unfoldable pub share_coinbase : ChannelInfo → JobInfo → SubmitSharesExtended → Bytes
share_coinbase channel job s =
    (job.coinb1 ++ build_full_extranonce channel.extranonce_prefix s.extranonce) ++ job.coinb2

-- The header of the share, from the id of its coinbase.
unfoldable pub share_header : BitcoinLib → JobInfo → SubmitSharesExtended → Bytes → BlockHeader
share_header lib job s txid = record {
  version = s.version;
  prev_blockhash = job.prev_hash;
  merkle_root = apply_branch (sha256d_pair lib) txid job.merkle_path;
  time = s.ntime;
  bits = job.nbits;
  nonce = s.nonce;
}

unfoldable pub solution_of : JobInfo → SubmitSharesExtended → Bytes → SubmitSolutionData
solution_of job s coinbase = record {
  template_id = job.template_id;
  version = s.version;
  header_timestamp = s.ntime;
  header_nonce = s.nonce;
  coinbase_tx = coinbase;
}

module _ {F32 F64 : Type 0} (lib : BitcoinLib) (fl : Floats F32 F64) (codec : Codec F32) where
  -- The share has met the channel's target: `is_block` says whether it meets the network's.
  accept_share :
      ChannelInfo → SubmitSharesExtended → SubmitSolutionData → Bool → Bytes → Action F64 (Unit {0})
  accept_share channel s solution is_block hash = do
    if is_block then send_solution solution else return tt
    write (shares_success s.channel_id s.sequence_number 1 1) true
    send_event (
        share (record {
          miner_address = channel.miner_address;
          difficulty = hash_to_difficulty fl (reverse hash);
          block_hash_be = reverse hash;
          timestamp = pos s.ntime;
        }))

  judge_share : ChannelInfo → JobInfo → SubmitSharesExtended → Bytes → Bytes → Action F64 (Unit {0})
  judge_share channel job s coinbase txid =
      let hash : Bytes = lib.block_hash (share_header lib job s txid) in
      let block_hash : Bytes = lib.display_hash hash in
      let channel_target_hex : Bytes = lib.hex_encode channel.channel_target_be in
      let network_target_hex : Bytes = compact_to_target_hex lib job.nbits in
      if lex_lt channel_target_hex block_hash
      then send_shares_error s.channel_id s.sequence_number difficulty_too_low
      else accept_share channel s (solution_of job s coinbase)
          (not (lex_lt network_target_hex block_hash)) hash

  check_share : ChannelInfo → JobInfo → SubmitSharesExtended → Action F64 (Unit {0})
  check_share channel job s =
      let coinbase : Bytes = share_coinbase channel job s in
      elim (lib.txid_of_bytes coinbase) [
        | none ↦ return tt
        | some txid ↦ judge_share channel job s coinbase txid
      ]

  -- The second argument is `channel.current_job`.
  stale_or_check : ChannelInfo → Option JobInfo → SubmitSharesExtended → Action F64 (Unit {0})
  stale_or_check channel none s =
      send_shares_error s.channel_id s.sequence_number stale_share_before_activation
  stale_or_check channel (some job) s =
      if job.job_id == s.job_id
      then check_share channel job s
      else send_shares_error s.channel_id s.sequence_number stale_share_before_activation

  -- The first argument is what the map holds. An unknown channel gets no answer.
  found_or_silent : Option ChannelInfo → SubmitSharesExtended → Action F64 (Unit {0})
  found_or_silent none s = return tt
  found_or_silent (some channel) s = stale_or_check channel channel.current_job s

  submit_share : SubmitSharesExtended → Action F64 (Unit {0})
  submit_share s = do st ← state_of; found_or_silent (get s.channel_id st.channels) s

  unfoldable pub handle_submit_shares_extended : Bytes → Action F64 (Unit {0})
  unfolding submit_share found_or_silent stale_or_check check_share judge_share accept_share
  handle_submit_shares_extended payload = elim (codec.parse_submit_shares_extended payload) [
    | none ↦ bail parse_error
    | some s ↦ submit_share s
  ]
