-- ===== src/Stratum/Job.antt =====
-- `build_job_messages` of pool/src/stratum_sv2.rs: the messages of a job, and what is kept of it to
-- check the shares.
pub mod Payout
pub mod Node
use mining_pool.Base.{
  ℕ, zero, suc, ◌+◌, ◌-◌, ◌*◌, ◌/◌, ◌%◌, ◌^◌, ◌≤◌, ◌<◌, min, ◌≡◌, ◌≢◌, ◌↔◌, ◌⊎◌, inl, inr, refl, ap,
  sym, ◌∙◌, Bool, true, false, not, ◌&&◌, ◌||◌, Option, none, some, List, [], ◌∷◌, ◌++◌, map,
  append-nil, append_assoc, reverse, arith, ltb, leb, ◌==◌, if◌then◌else◌, ltb→lt, lt→ltb, ==_iff,
  ==_self, Bool-cases, Option-cases, length, take, drop, replicate, set, All, All-append,
  All-replicate, All-reverse, length-append, take-append-drop, take-append, drop-append,
  length-take, length-drop, length-replicate, length-reverse, list_eq, list_eq→eq, list_eq_self,
  Outcomes, answer, later,
}
use mining_pool.Bitcoin.{Bytes, BitcoinLib}
use mining_pool.Jobs.Split.{CoinbaseParts}
use mining_pool.Jobs.Coinbase.{script_from_address}
use mining_pool.Jobs.Tdp.{build_sv2_coinbase_from_tdp}
use mining_pool.NodeIpc.Template.{RawTemplate}
use mining_pool.Stratum.Protocol.{NewExtendedMiningJob, MiningSetNewPrevHash}
use mining_pool.Stratum.State.{
  ChannelInfo, JobInfo, Checked, done, fail, Error, prev_hash_error, address_error, prefix_error,
  suffix_error, path_error,
}

pub record JobMessages : Type 0 where
  pub prev_hash : MiningSetNewPrevHash
  pub job : NewExtendedMiningJob
  pub info : JobInfo

abbrev require : {A : Type 0} → Bool → Error → Checked A → Checked A
require test e k = if test then k else fail e

module _ (lib : BitcoinLib) where
  -- The coinbase of a template for a payout script; segwit if the template has outputs of its own.
  unfoldable pub parts_of : RawTemplate → Bytes → CoinbaseParts
  parts_of raw miner_script =
      let nt = raw.new_template in
      build_sv2_coinbase_from_tdp lib nt.coinbase_prefix nt.coinbase_tx_version
        nt.coinbase_tx_input_sequence nt.coinbase_tx_value_remaining nt.coinbase_tx_outputs_count
        nt.coinbase_tx_outputs nt.coinbase_tx_locktime miner_script
        (ltb 0 nt.coinbase_tx_outputs_count)

  unfoldable pub messages_of : ChannelInfo → ℕ → RawTemplate → CoinbaseParts → JobMessages
  messages_of channel job_id raw parts = record {
    prev_hash = record {
      channel_id = channel.channel_id;
      job_id = job_id;
      prev_hash = raw.set_new_prev_hash.prev_hash;
      min_ntime = raw.set_new_prev_hash.header_timestamp;
      nbits = raw.set_new_prev_hash.n_bits;
    };
    job = record {
      channel_id = channel.channel_id;
      job_id = job_id;
      min_ntime = none;
      version = raw.new_template.version;
      version_rolling_allowed = true;
      merkle_path = raw.new_template.merkle_path;
      coinbase_tx_prefix = parts.coinb1;
      coinbase_tx_suffix = parts.coinb2;
    };
    info = record {
      job_id = job_id;
      template_id = raw.new_template.template_id;
      coinb1 = parts.coinb1;
      coinb2 = parts.coinb2;
      merkle_path = raw.new_template.merkle_path;
      prev_hash = raw.set_new_prev_hash.prev_hash;
      nbits = raw.set_new_prev_hash.n_bits;
      ntime = raw.set_new_prev_hash.header_timestamp;
      version = raw.new_template.version;
    };
  }

  -- The hashes of a template have 32 bytes by their type U256; the code checks that of `prev_hash`.
  unfoldable pub build_job_messages : ChannelInfo → ℕ → RawTemplate → Checked JobMessages
  unfolding messages_of
  build_job_messages channel job_id raw =
      require (length (raw.set_new_prev_hash.prev_hash) == 32) prev_hash_error (
        require (lib.u256_fits (raw.set_new_prev_hash.prev_hash)) prev_hash_error
          (elim (script_from_address lib channel.miner_address) [
            | none ↦ fail address_error
            | some miner_script ↦
                let parts : CoinbaseParts = parts_of raw miner_script in
                require (lib.b064k_fits parts.coinb1) prefix_error (
                  require (lib.b064k_fits parts.coinb2) suffix_error (
                    require (lib.seq0255_fits raw.new_template.merkle_path) path_error
                      (done (messages_of channel job_id raw parts))))
          ]))

  -- The messages carry the id of the job.
  pub build_job_messages-job_id :
      (channel : ChannelInfo) (job_id : ℕ) (raw : RawTemplate) (messages : JobMessages)
      → build_job_messages channel job_id raw ≡ done messages
      → messages.info.job_id ≡ job_id
  unfolding build_job_messages messages_of
  build_job_messages-job_id channel job_id raw messages e = ground arith
