-- ===== src/Jobs/Tdp.antt =====
-- `build_sv2_coinbase_from_tdp` of pool/src/jobs.rs: the two parts of a miner's coinbase transaction,
-- built from the fields of a template.
pub mod Format
pub mod RoundTrip
use mining_pool.Base.{
  ℕ, zero, suc, ◌+◌, ◌-◌, ◌*◌, ◌/◌, ◌%◌, ◌^◌, ◌≤◌, ◌<◌, min, ◌≡◌, ◌≢◌, ◌↔◌, ◌⊎◌, inl, inr, refl, ap,
  sym, ◌∙◌, Bool, true, false, not, ◌&&◌, ◌||◌, Option, none, some, List, [], ◌∷◌, ◌++◌, map,
  append-nil, append_assoc, reverse, arith, ltb, leb, ◌==◌, if◌then◌else◌, ltb→lt, lt→ltb, ==_iff,
  ==_self, Bool-cases, Option-cases, length, take, drop, replicate, All, length-append,
  take-append-drop, length-take, length-drop, length-replicate, length-reverse, list_eq, list_eq→eq,
  list_eq_self, Outcomes, answer, later,
}
use mining_pool.Words.{le_bytes}
use mining_pool.Bitcoin.{Bytes, BitcoinLib}
use mining_pool.Jobs.Varint.{write_varint}
use mining_pool.Jobs.Split.{CoinbaseParts, sv2_extranonce_total}

-- The transaction up to the extranonce.
tdp_prefix : Bytes → ℕ → Bool → Bytes
tdp_prefix coinbase_script_prefix coinbase_tx_version use_segwit =
    let script_total_len : ℕ = length coinbase_script_prefix + sv2_extranonce_total in
    let version : Bytes = le_bytes 4 coinbase_tx_version in
    let marked : Bytes = if use_segwit then version ++ (0x00 ∷ 0x01 ∷ []) else version in
    let vin : Bytes = marked ++ (1 ∷ []) in
    let prevout : Bytes = (vin ++ replicate 32 0) ++ le_bytes 4 0xffff_ffff in
    write_varint prevout (script_total_len % 2 ^ 64) ++ coinbase_script_prefix

-- And behind it.
tdp_suffix : BitcoinLib → ℕ → ℕ → ℕ → Bytes → ℕ → Bytes → Bool → Bytes
tdp_suffix lib sequence value_remaining outputs_count outputs_bytes locktime miner_script
      use_segwit =
    let counted : Bytes = write_varint (le_bytes 4 sequence) (1 + outputs_count) in
    let paid : Bytes =
      counted
      ++ lib.serialize_out (record { value = value_remaining; script_pubkey = miner_script }) in
    let outputs : Bytes = paid ++ outputs_bytes in
    let witness : Bytes =
      if use_segwit then ((outputs ++ (0x01 ∷ [])) ++ (0x20 ∷ [])) ++ replicate 32 0 else outputs in
    witness ++ le_bytes 4 locktime

unfoldable pub build_sv2_coinbase_from_tdp :
    BitcoinLib → Bytes → ℕ → ℕ → ℕ → ℕ → Bytes → ℕ → Bytes → Bool → CoinbaseParts
unfolding tdp_prefix tdp_suffix
build_sv2_coinbase_from_tdp lib coinbase_script_prefix version sequence value_remaining
      outputs_count outputs_bytes locktime miner_script use_segwit =
    record {
      coinb1 = tdp_prefix coinbase_script_prefix version use_segwit;
      coinb2 =
          tdp_suffix lib sequence value_remaining outputs_count outputs_bytes locktime miner_script
            use_segwit;
    }
