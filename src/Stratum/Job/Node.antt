-- ===== src/Stratum/Job/Node.antt =====
-- From the node's coinbase (pool/src/node_ipc.rs) to the one that a miner hashes (pool/src/stratum_sv2.rs).
use mining_pool.Base.{
  ℕ, ◌+◌, ◌^◌, ◌%◌, ◌≤◌, ◌<◌, ◌≡◌, refl, ap, sym, ◌∙◌, inl, inr, some, List, [], ◌∷◌, ◌++◌, map,
  arith, ltb, ◌==◌, ==_iff, Bool-cases, if◌then◌else◌, All, replicate, length, append_assoc,
}
use mathlib.Core.Path.{subst}
use mining_pool.Words.{le_bytes}
use mining_pool.Bitcoin.{Bytes, TxOut, TxIn, Transaction, BlockHeader, BitcoinLib}
use mining_pool.Jobs.Coinbase.{script_from_address}
use mining_pool.Jobs.Tdp.Format.{CoinbaseWire, read_coinbase}
use mining_pool.Jobs.Tdp.RoundTrip.{null_outpoint}
use mining_pool.NodeIpc.Template.{RawTemplate}
use mining_pool.NodeIpc.Build.{
  NodeLib, ready, empty_outputs, serialized_outputs, raw_template, build_raw_template,
}
use mining_pool.NodeIpc.Build.Laws.{IsCheckedSum, sum, build_raw_template_ready}
use mining_pool.Stratum.Protocol.{SubmitSharesExtended}
use mining_pool.Stratum.State.{ChannelInfo, done}
use mining_pool.Stratum.Job.{JobMessages, build_job_messages}
use mining_pool.Stratum.Job.Payout.{IsInRange, wire_of, share_coinbase_pays}
use mining_pool.Stratum.Submit.{share_coinbase}

abbrev pub values : List TxOut → ℕ
values outs = sum (map (λ o. o.value) outs)

values-empty_outputs : (outs : List TxOut) → values (empty_outputs outs) ≡ 0
unfolding empty_outputs
values-empty_outputs [] = refl
values-empty_outputs (o ∷ outs) = elim (Bool-cases (o.value == 0)) [
  | inl zero_value ↦
      rw zero_value (omega (arith, (==_iff o.value 0).0 zero_value, values-empty_outputs outs))
  | inr other ↦ rw other (values-empty_outputs outs)
]

length-empty_outputs : (outs : List TxOut) → length (empty_outputs outs) ≤ length outs
unfolding empty_outputs
length-empty_outputs [] = omega arith
length-empty_outputs (o ∷ outs) = ground (arith, length-empty_outputs outs)

-- The node's coinbase has the numbers of its types, and no absurdly long script or list.
pub record IsNodeCoinbase (cb : Transaction) : Type 0 where
  pub version : cb.version < 2 ^ 32
  pub outputs : length cb.output < 2 ^ 32
  pub inputs : All (λ i. (i.sequence < 2 ^ 32) × (length i.script_sig + 36 < 2 ^ 64)) cb.input

module _ (lib : BitcoinLib) (node : NodeLib) where
  -- The outputs of a coinbase that pays a script: all the value, and the node's outputs without value.
  abbrev pub paid_outputs : Transaction → Bytes → List TxOut
  paid_outputs cb script =
      record { value = values cb.output; script_pubkey = script } ∷ empty_outputs cb.output

  -- The coinbase in wire form for the node's coinbase, its input, a payout script and an extranonce. The
  -- reserved value of the witness commitment is 32 zeros.
  abbrev pub paid_wire : Transaction → TxIn → Bytes → Bytes → CoinbaseWire
  paid_wire cb input script extranonce =
      let count : ℕ = length (empty_outputs cb.output) in
      record {
        version = cb.version;
        segwit = ltb 0 count;
        outpoint = null_outpoint;
        script_sig = input.script_sig ++ extranonce;
        sequence = input.sequence;
        output_count = 1 + count;
        rest =
            serialized_outputs lib node (paid_outputs cb script)
            ++ ((if ltb 0 count then 0x01 ∷ 0x20 ∷ replicate 32 0 else [])
                ++ le_bytes 4 cb.lock_time);
      }

  wire_of-raw_template :
      (k : ℕ) (header : BlockHeader) (cb : Transaction) (path : List Bytes) (input : TxIn)
      (script extranonce : Bytes)
      → length cb.output < 2 ^ 32
      → wire_of lib
          (raw_template lib node k header cb path input (values cb.output))
          script
          extranonce
        ≡ paid_wire cb input script extranonce
  unfolding raw_template serialized_outputs
  wire_of-raw_template k header cb path input script extranonce few =
      let count : length (empty_outputs cb.output) % 2 ^ 32 ≡ length (empty_outputs cb.output) =
        omega (arith, length-empty_outputs cb.output) in
      rw (count, append_assoc) refl

  raw_template-IsInRange :
      (k : ℕ) (header : BlockHeader) (cb : Transaction) (path : List Bytes) (input : TxIn)
      (rest : List TxIn)
      → IsNodeCoinbase cb
      → cb.input ≡ input ∷ rest
      → IsInRange (raw_template lib node k header cb path input (values cb.output))
  unfolding raw_template
  raw_template-IsInRange k header cb path input rest v one =
      let (h, _) = rw one at v.inputs in
      record { version = v.version; sequence = h.0; count = omega arith; script = h.1 }

  -- For a template that was built from the node's coinbase, and a job of it that was built for a channel:
  -- the coinbase that the pool checks of a share reads as a transaction with the version and lock time of the
  -- node's, the node's script with the whole extranonce behind it, and first an output that pays the script of
  -- the channel's address the value of all the node's outputs, then the node's outputs without value. No
  -- value is lost or added. The node's numbers are in range, the prefix has 32 bytes and the share's part 4.
  pub share_coinbase_pays_all :
      (k : ℕ) (header : BlockHeader) (cb : Transaction) (path : List Bytes) (raw : RawTemplate)
      (channel : ChannelInfo) (job_id : ℕ) (m : JobMessages) (s : SubmitSharesExtended)
      → IsCheckedSum node
      → IsNodeCoinbase cb
      → build_raw_template lib node k header cb path ≡ ready raw
      → build_job_messages lib channel job_id raw ≡ done m
      → length channel.extranonce_prefix ≡ 32
      → length s.extranonce ≡ 4
      → (input : TxIn) × (rest : List TxIn) × (script : Bytes) × (cb.input ≡ input ∷ rest)
        × (script_from_address lib channel.miner_address ≡ some script)
        × (read_coinbase (share_coinbase channel m.info s)
            ≡ some (paid_wire cb input script (channel.extranonce_prefix ++ s.extranonce)))
        × (values (paid_outputs cb script) ≡ values cb.output)
  share_coinbase_pays_all k header cb path raw channel job_id m s checked v fetched built p32 e4 =
      let (input, rest, one, small, same) =
        build_raw_template_ready lib node k header cb path raw checked fetched in
      let r : IsInRange raw =
        subst IsInRange (sym same) (raw_template-IsInRange k header cb path input rest v one) in
      let (_, (script, valid, reads)) =
        share_coinbase_pays lib channel job_id raw m s built r p32 e4 in
      (
        input,
        rest,
        script,
        one,
        valid,
        reads
            ∙ ap some (
                ap (λ x. wire_of lib x script (channel.extranonce_prefix ++ s.extranonce)) same
                ∙ wire_of-raw_template k header cb path input script _ v.outputs),
        omega (arith, values-empty_outputs cb.output),
      )
