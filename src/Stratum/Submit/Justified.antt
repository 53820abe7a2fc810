-- ===== src/Stratum/Submit/Justified.antt =====
-- The verdict on a share (pool/src/stratum_sv2.rs) accepts only shares, and calls only what solves a block a block.
use mining_pool.Base.{
  ◌≤◌, ◌≡◌, refl, inl, inr, Bool, true, Option, none, some, arith, ltb, ◌==◌, Bool-cases,
  Option-cases, reverse,
}
use mining_pool.Base.Int.{pos}
use mining_pool.Words.{le_value, be_value}
use mining_pool.Bitcoin.{Bytes, BitcoinLib, Floats}
use mining_pool.NodeIpc.Template.{RawTemplate}
use mining_pool.Db.Event.{ShareEvent, hash_to_difficulty}
use mining_pool.Stratum.Target.Compact.{compact_value}
use mining_pool.Stratum.Protocol.{Codec, SubmitSharesExtended}
use mining_pool.Stratum.State.{ChannelInfo, ConnectionState, JobInfo}
use mining_pool.Stratum.Connection.{Event}
use mining_pool.Stratum.Fair.{
  IsSubmitted, IsGenuine-prefix, IsGenuine, CurrentIsIssued, IsIssued, IsBlock, IsShare,
}
use mining_pool.Stratum.Submit.{share_coinbase, share_header, solution_of}
use mining_pool.Stratum.Submit.Verdict.{
  Verdict, silent, stale, too_low, accepted, weigh, verdict_of_job, verdict_of_current,
}

module _ {F32 F64 : Type 0} (lib : BitcoinLib) (fl : Floats F32 F64) (codec : Codec F32)
    (Seen : RawTemplate → Type 0) (Met : ConnectionState → Event → Type 0) where
  -- What is reported of an accepted share.
  abbrev pub report_of : ChannelInfo → SubmitSharesExtended → Bytes → ShareEvent F64
  report_of channel s hash = record {
    miner_address = channel.miner_address;
    difficulty = hash_to_difficulty fl (reverse hash);
    block_hash_be = reverse hash;
    timestamp = pos s.ntime;
  }

  -- What a verdict that accepts a share knows of it.
  pub record IsAccepted (s : SubmitSharesExtended) (is_block : Bool) (channel : ChannelInfo)
      (job : JobInfo) (coinbase hash : Bytes) : Type 0 where
    pub genuine : IsGenuine lib fl codec Seen Met channel
    pub submitted : IsSubmitted lib fl codec Seen Met s channel
    pub has_job : channel.current_job ≡ some job
    pub same_job : job.job_id ≡ s.job_id
    pub txid : Bytes
    pub coinbase_of : coinbase ≡ share_coinbase channel job s
    pub read : lib.txid_of_bytes (share_coinbase channel job s) ≡ some txid
    pub hash_of : hash ≡ lib.block_hash (share_header lib job s txid)
    pub meets : le_value hash ≤ be_value channel.channel_target_be
    pub block : is_block ≡ true → le_value hash ≤ compact_value job.nbits

  abbrev pub Justified : SubmitSharesExtended → Verdict → Type 0
  Justified s silent = Unit
  Justified s stale = Unit
  Justified s too_low = Unit
  Justified s (accepted is_block channel job coinbase hash) =
      IsAccepted s is_block channel job coinbase hash

  job-IsIssued :
      (channel : ChannelInfo) (current : Option JobInfo) (job : JobInfo)
      → current ≡ some job
      → CurrentIsIssued lib Seen channel current
      → IsIssued lib Seen channel job
  job-IsIssued channel none job e v = absurd (ground arith)
  job-IsIssued channel (some own) job e v =
      let same : own ≡ job = ground (arith, e) in rw (← same) v

  pub accepted-IsBlock :
      (s : SubmitSharesExtended) (channel : ChannelInfo) (job : JobInfo) (coinbase hash : Bytes)
      → Justified s (accepted true channel job coinbase hash)
      → IsBlock lib Seen (solution_of job s coinbase)
  accepted-IsBlock s channel job coinbase hash v = record {
    channel = channel;
    job = job;
    prefix = IsGenuine-prefix lib fl codec Seen Met channel v.genuine;
    issued = job-IsIssued channel channel.current_job job v.has_job v.genuine.current;
    of_share = s;
    txid = v.txid;
    made = rw v.coinbase_of refl;
    read = v.read;
    solved = rw (← v.hash_of) (v.block refl);
  }

  pub accepted-IsShare :
      (s : SubmitSharesExtended) (is_block : Bool) (channel : ChannelInfo) (job : JobInfo)
      (coinbase hash : Bytes)
      → Justified s (accepted is_block channel job coinbase hash)
      → IsShare lib fl codec Seen Met (report_of channel s hash)
  accepted-IsShare s is_block channel job coinbase hash v = record {
    channel = channel;
    job = job;
    genuine = v.genuine;
    has_job = v.has_job;
    of_share = s;
    submitted = v.submitted;
    same_job = v.same_job;
    txid = v.txid;
    read = v.read;
    address = refl;
    hash = rw v.hash_of refl;
    difficulty = refl;
    time = refl;
    meets = rw (← v.hash_of) v.meets;
  }

  module _ (channel : ChannelInfo) (genuine : IsGenuine lib fl codec Seen Met channel)
      (s : SubmitSharesExtended) (submitted : IsSubmitted lib fl codec Seen Met s channel) where
    weigh-Justified :
        (job : JobInfo) (txid : Bytes)
        → channel.current_job ≡ some job
        → job.job_id ≡ s.job_id
        → lib.txid_of_bytes (share_coinbase channel job s) ≡ some txid
        → Justified s (
            weigh lib channel job
              (share_coinbase channel job s)
              (lib.block_hash (share_header lib job s txid)))
    unfolding weigh
    weigh-Justified job txid has_job same e =
        let hash : Bytes = lib.block_hash (share_header lib job s txid) in
        elim (Bool-cases (ltb (be_value channel.channel_target_be) (le_value hash))) [
          | inl high ↦ rw (high, weigh, Justified) tt
          | inr low ↦
              rw (low, weigh, Justified)
                (record {
                  genuine = genuine;
                  submitted = submitted;
                  has_job = has_job;
                  same_job = same;
                  txid = txid;
                  coinbase_of = refl;
                  read = e;
                  hash_of = refl;
                  meets = ground (arith, low);
                  block = λ h. ground (arith, h);
                })
        ]

    verdict_of_job-Justified :
        (job : JobInfo)
        → channel.current_job ≡ some job
        → Justified s (verdict_of_job lib channel job s)
    unfolding verdict_of_job
    verdict_of_job-Justified job has_job = elim (Bool-cases (job.job_id == s.job_id)) [
      | inr other ↦ rw (other, verdict_of_job, Justified) tt
      | inl same ↦ elim (Option-cases (lib.txid_of_bytes (share_coinbase channel job s))) [
        | inl e ↦ rw (same, e, verdict_of_job, Justified) tt
        | inr (txid, e) ↦
            rw (same, e, verdict_of_job) (weigh-Justified job txid has_job (ground (arith, same)) e)
      ]
    ]

    pub verdict_of_current-Justified :
        (current : Option JobInfo)
        → channel.current_job ≡ current
        → Justified s (verdict_of_current lib channel current s)
    unfolding verdict_of_current
    verdict_of_current-Justified none e = tt
    verdict_of_current-Justified (some job) e = verdict_of_job-Justified job e
