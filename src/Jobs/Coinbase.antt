-- ===== src/Jobs/Coinbase.antt =====
-- The coinbase transaction that pool/src/jobs.rs builds for a miner, serializes and splits at the
-- extranonce: `build_coinbase_parts` (8 bytes) and `build_sv2_coinbase_parts` (36 bytes).
pub mod Laws
use mining_pool.Base.{
  ℕ, zero, suc, ◌+◌, ◌-◌, ◌*◌, ◌/◌, ◌%◌, ◌^◌, ◌≤◌, ◌<◌, min, ◌≡◌, ◌≢◌, ◌↔◌, ◌⊎◌, inl, inr, refl, ap,
  sym, ◌∙◌, Bool, true, false, not, ◌&&◌, ◌||◌, Option, none, some, List, [], ◌∷◌, ◌++◌, map,
  append-nil, append_assoc, reverse, arith, ltb, leb, ◌==◌, if◌then◌else◌, ltb→lt, lt→ltb, ==_iff,
  ==_self, Bool-cases, Option-cases, length, take, drop, replicate, All, length-append,
  take-append-drop, length-take, length-drop, length-replicate, length-reverse, list_eq, list_eq→eq,
  list_eq_self, Outcomes, answer, later,
}
use mining_pool.Base.Int.{ℤ, as_u64}
use mining_pool.Bitcoin.{Bytes, BitcoinLib, TxOut, TxIn, Transaction}
use mining_pool.Jobs.Split.{
  CoinbaseParts, split_at_extranonce, split_at_sv2_extranonce, extranonce_placeholder,
  sv2_extranonce_placeholder,
}

-- "/lottery-pool/"
abbrev pub pool_tag : Bytes
pool_tag =
    0x2f ∷ 0x6c ∷ 0x6f ∷ 0x74 ∷ 0x74 ∷ 0x65 ∷ 0x72 ∷ 0x79 ∷ 0x2d ∷ 0x70 ∷ 0x6f ∷ 0x6f ∷ 0x6c ∷ 0x2f
    ∷ []

module _ (lib : BitcoinLib) where
  -- The BIP34 height, the pool's tag and the place of the extranonce.
  script_with : Bytes → ℕ → Bytes
  script_with placeholder height =
      lib.push_int height ++ (lib.push_slice pool_tag ++ lib.push_slice placeholder)

  coinbase_outputs : ℤ → Bytes → Option Bytes → List TxOut
  coinbase_outputs coinbase_value miner_script none =
      record { value = as_u64 coinbase_value; script_pubkey = miner_script } ∷ []
  coinbase_outputs coinbase_value miner_script (some wc_script) =
      record { value = as_u64 coinbase_value; script_pubkey = miner_script }
      ∷ record { value = 0; script_pubkey = wc_script }
      ∷ []

  coinbase_with : Bytes → ℤ → Bytes → Option Bytes → Transaction
  coinbase_with coinbase_script coinbase_value miner_script witness_commitment = record {
    version = 1;
    lock_time = 0;
    input =
        record {
          previous_output = lib.null_outpoint;
          script_sig = coinbase_script;
          sequence = 0xffff_ffff;
          witness = [];
        }
        ∷ [];
    output = coinbase_outputs coinbase_value miner_script witness_commitment;
  }

  pub build_coinbase_script : ℕ → Bytes
  unfolding script_with
  build_coinbase_script height = script_with extranonce_placeholder height

  pub build_coinbase_tx : ℕ → ℤ → Bytes → Option Bytes → Transaction
  unfolding coinbase_with
  build_coinbase_tx height coinbase_value miner_script witness_commitment =
      coinbase_with (build_coinbase_script height) coinbase_value miner_script witness_commitment

  pub build_coinbase_tx_sv2 : ℕ → ℤ → Bytes → Option Bytes → Transaction
  unfolding coinbase_with script_with
  build_coinbase_tx_sv2 height coinbase_value miner_script witness_commitment =
      coinbase_with (script_with sv2_extranonce_placeholder height) coinbase_value miner_script
        witness_commitment

  pub build_coinbase_parts : ℕ → ℤ → Bytes → Option Bytes → Option CoinbaseParts
  build_coinbase_parts height coinbase_value miner_script witness_commitment =
      split_at_extranonce
        (lib.serialize_tx (build_coinbase_tx height coinbase_value miner_script witness_commitment))

  pub build_sv2_coinbase_parts : ℕ → ℤ → Bytes → Option Bytes → Option CoinbaseParts
  build_sv2_coinbase_parts height coinbase_value miner_script witness_commitment =
      split_at_sv2_extranonce (
        lib.serialize_tx
          (build_coinbase_tx_sv2 height coinbase_value miner_script witness_commitment))

  -- `none` is the error "invalid bitcoin address".
  unfoldable pub script_from_address : Bytes → Option Bytes
  script_from_address address = lib.address_script address

  -- `none` is the panic of `expect`.
  pub witness_commitment_script : Bytes → Option Bytes
  witness_commitment_script hex = lib.hex_decode hex
