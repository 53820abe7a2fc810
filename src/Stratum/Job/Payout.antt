-- ===== src/Stratum/Job/Payout.antt =====
-- The coinbase of a job (pool/src/stratum_sv2.rs): what the miner hashes is what the pool checks, and it
-- pays the address of the channel.
use mining_pool.Base.{
  ℕ, ◌+◌, ◌^◌, ◌<◌, ◌≡◌, inl, inr, some, ◌++◌, append_assoc, arith, ltb, Option-cases, length,
  length-append,
}
use mining_pool.Bitcoin.{Bytes, BitcoinLib}
use mining_pool.Jobs.Coinbase.{script_from_address}
use mining_pool.Jobs.Tdp.Format.{CoinbaseWire, read_coinbase}
use mining_pool.Jobs.Tdp.RoundTrip.{
  null_outpoint, tail_of, read_coinbase-build_sv2_coinbase_from_tdp,
}
use mining_pool.NodeIpc.Template.{RawTemplate}
use mining_pool.Stratum.Protocol.{SubmitSharesExtended}
use mining_pool.Stratum.State.{ChannelInfo, done}
use mining_pool.Stratum.Extranonce.{build_full_extranonce_four}
use mining_pool.Stratum.Job.{JobMessages, messages_of, parts_of, build_job_messages}
use mining_pool.Stratum.Submit.{share_coinbase}

-- The numbers of a template are in the range of their types, and its script prefix is not absurdly long.
pub record IsInRange (raw : RawTemplate) : Type 0 where
  pub version : raw.new_template.coinbase_tx_version < 2 ^ 32
  pub sequence : raw.new_template.coinbase_tx_input_sequence < 2 ^ 32
  pub count : raw.new_template.coinbase_tx_outputs_count < 2 ^ 32
  pub script : length raw.new_template.coinbase_prefix + 36 < 2 ^ 64

module _ (lib : BitcoinLib) where
  -- A job that was built has a valid address, and its parts are those of the template for that address.
  pub build_job_messages_done :
      (channel : ChannelInfo) (job_id : ℕ) (raw : RawTemplate) (m : JobMessages)
      → build_job_messages lib channel job_id raw ≡ done m
      → (script : Bytes) × (script_from_address lib channel.miner_address ≡ some script)
        × (m ≡ messages_of lib channel job_id raw (parts_of lib raw script))
  unfolding build_job_messages
  build_job_messages_done channel job_id raw m h =
      elim (Option-cases (script_from_address lib channel.miner_address)) [
        | inl e ↦ absurd (ground arith)
        | inr (script, e) ↦ (script, e, ground arith)
      ]

  -- The coinbase in wire form for a template, a payout script and an extranonce.
  abbrev pub wire_of : RawTemplate → Bytes → Bytes → CoinbaseWire
  wire_of raw script extranonce = record {
    version = raw.new_template.coinbase_tx_version;
    segwit = ltb 0 raw.new_template.coinbase_tx_outputs_count;
    outpoint = null_outpoint;
    script_sig = raw.new_template.coinbase_prefix ++ extranonce;
    sequence = raw.new_template.coinbase_tx_input_sequence;
    output_count = 1 + raw.new_template.coinbase_tx_outputs_count;
    rest =
        tail_of lib raw.new_template.coinbase_tx_value_remaining
          raw.new_template.coinbase_tx_outputs raw.new_template.coinbase_tx_locktime script
          (ltb 0 raw.new_template.coinbase_tx_outputs_count);
  }

  parts_wire :
      (raw : RawTemplate) (script extranonce : Bytes)
      → IsInRange raw
      → length extranonce ≡ 36
      → read_coinbase
          ((parts_of lib raw script).coinb1 ++ (extranonce ++ (parts_of lib raw script).coinb2))
        ≡ some (wire_of raw script extranonce)
  unfolding parts_of
  parts_wire raw script extranonce r len =
      let nt = raw.new_template in
      read_coinbase-build_sv2_coinbase_from_tdp lib nt.coinbase_prefix nt.coinbase_tx_outputs script
        extranonce nt.coinbase_tx_version nt.coinbase_tx_input_sequence
        nt.coinbase_tx_value_remaining nt.coinbase_tx_outputs_count nt.coinbase_tx_locktime
        (ltb 0 nt.coinbase_tx_outputs_count) r.version r.sequence r.count r.script len

  -- For a job that was built, a channel with a prefix of 32 bytes and a share with 4 bytes of extranonce:
  -- the coinbase that the pool checks is the one that the miner puts together from the two parts of its
  -- job message, the channel's prefix and its own bytes; it reads as a transaction with a null input
  -- whose script is the template's prefix and the whole extranonce, and whose first output pays the
  -- template's value to the script of the channel's address, before the template's own outputs.
  pub share_coinbase_pays :
      (channel : ChannelInfo) (job_id : ℕ) (raw : RawTemplate) (m : JobMessages)
      (s : SubmitSharesExtended)
      → build_job_messages lib channel job_id raw ≡ done m
      → IsInRange raw
      → length channel.extranonce_prefix ≡ 32
      → length s.extranonce ≡ 4
      → (share_coinbase channel m.info s
          ≡ m.job.coinbase_tx_prefix
            ++ ((channel.extranonce_prefix ++ s.extranonce) ++ m.job.coinbase_tx_suffix))
        × ((script : Bytes) × (script_from_address lib channel.miner_address ≡ some script)
            × (read_coinbase (share_coinbase channel m.info s)
                ≡ some (wire_of raw script (channel.extranonce_prefix ++ s.extranonce))))
  unfolding messages_of share_coinbase
  share_coinbase_pays channel job_id raw m s built r p32 e4 =
      let (script, valid, same) = build_job_messages_done channel job_id raw m built in
      let whole = build_full_extranonce_four channel.extranonce_prefix s.extranonce p32 e4 in
      let len : length (channel.extranonce_prefix ++ s.extranonce) ≡ 36 =
        omega (arith, length-append channel.extranonce_prefix s.extranonce) in
      rw (same, whole)
        (
          append_assoc (parts_of lib raw script).coinb1 (channel.extranonce_prefix ++ s.extranonce)
              (parts_of lib raw script).coinb2,
          (script, valid, rw append_assoc (parts_wire raw script _ r len)),
        )
