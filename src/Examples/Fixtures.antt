-- ===== src/Examples/Fixtures.antt =====
-- Small stand-ins for the crates that the pool calls (bitcoin, hex, binary_sv2, the floats), at which the
-- models run. They meet what the models rely on.
use mining_pool.Base.{
  ℕ, ◌+◌, ◌-◌, ◌*◌, ◌/◌, ◌%◌, ◌^◌, refl, Option, none, some, List, [], ◌∷◌, ◌++◌, ltb, leb, ◌==◌,
  if◌then◌else◌, length, replicate, reverse, append-nil, ap,
}
use mining_pool.Words.{le_bytes, le_value, length-le_bytes, le_bytes-IsByte}
use mining_pool.Bitcoin.{Bytes, TxOut, TxIn, BitcoinLib, Floats, IsHex, hex_digit}
use mining_pool.Jobs.Coinbase.Laws.{IsVerbatim}
use mining_pool.Stratum.Protocol.{
  Codec, SetupConnection, OpenExtendedMiningChannel, SubmitSharesExtended, mining_protocol,
  other_protocol,
}
use mining_pool.Stratum.Submit.Verdict.{IsHash}

abbrev pub toy_encode : Bytes → Bytes
toy_encode [] = []
toy_encode (b ∷ bs) = hex_digit (b / 16) ∷ hex_digit (b % 16) ∷ toy_encode bs

abbrev pub toy_digit : ℕ → ℕ
toy_digit c = if ltb c 58 then c - 48 else c - 87

abbrev pub toy_decode : Bytes → Option Bytes
toy_decode [] = some []
toy_decode (c ∷ []) = none
toy_decode (c ∷ d ∷ rest) = elim (toy_decode rest) [
  | none ↦ none
  | some bs ↦ some ((toy_digit c * 16 + toy_digit d) ∷ bs)
]

abbrev pub toy_out : TxOut → Bytes
toy_out o = le_bytes 8 o.value ++ (length o.script_pubkey ∷ o.script_pubkey)

abbrev pub toy_scripts : List TxIn → Bytes
toy_scripts [] = []
toy_scripts (i ∷ is) = i.script_sig ++ toy_scripts is

abbrev pub toy_outs : List TxOut → Bytes
toy_outs [] = []
toy_outs (o ∷ os) = toy_out o ++ toy_outs os

-- Addresses begin with a "b".
abbrev pub toy_script : Bytes → Option Bytes
toy_script [] = none
toy_script (c ∷ cs) = if c == b'b' then some (0 ∷ 20 ∷ c ∷ cs) else none

abbrev pub toy_txid : Bytes → Option Bytes
toy_txid [] = none
toy_txid (b ∷ bs) = some (le_bytes 32 (le_value (b ∷ bs)))

-- Hashes have 32 bytes; that of a header is its nonce.
abbrev pub toy_lib : BitcoinLib
toy_lib = record {
  null_outpoint = record { txid = replicate 32 0; vout = 0xffff_ffff };
  push_int = λ n. n ∷ [];
  push_slice = λ s. length s ∷ s;
  serialize_tx = λ tx. tx.version ∷ (toy_scripts tx.input ++ toy_outs tx.output);
  serialize_out = toy_out;
  txid_of_bytes = toy_txid;
  sha256d = λ bs. le_bytes 32 (le_value bs);
  block_hash = λ h. le_bytes 32 h.nonce;
  address_script = toy_script;
  hex_decode = toy_decode;
  hex_encode = toy_encode;
  display_hash = λ h. toy_encode (reverse h);
  u256_fits = λ bs. length bs == 32;
  b0255_fits = λ bs. leb (length bs) 255;
  b064k_fits = λ bs. leb (length bs) 65535;
  seq0255_fits = λ hs. leb (length hs) 255;
}

pub toy_lib-IsHex : IsHex toy_lib
toy_lib-IsHex = record { encode_nil = refl; encode_cons = λ b bs. refl; displayed = λ h. refl }

pub toy_lib-IsHash : IsHash toy_lib
toy_lib-IsHash = record {
  hash_length = λ h. length-le_bytes 32 h.nonce;
  hash_bytes = λ h. le_bytes-IsByte 32 h.nonce;
}

pub toy_lib-IsVerbatim : IsVerbatim toy_lib
toy_lib-IsVerbatim = record {
  pushed = λ s. (length s ∷ [], refl);
  serialized = λ tx i e. (
    tx.version ∷ [],
    toy_outs tx.output,
    rw e (ap (λ bs. tx.version ∷ (bs ++ toy_outs tx.output)) (append-nil i.script_sig)),
  );
}

-- Whole numbers for floats.
abbrev pub toy_floats : Floats ℕ ℕ
toy_floats = record {
  widen = λ x. x;
  of_u64 = λ x. x;
  to_u128 = λ x. x;
  mul = λ x y. x * y;
  div = λ x y. x / y;
  add = λ x y. x + y;
  max = λ x y. if ltb x y then y else x;
  zero = 0;
  one = 1;
  thirty = 30;
  sixty = 60;
  max_value = 2 ^ 128;
}

abbrev pub toy_setup : Bytes → Option SetupConnection
toy_setup (p ∷ from ∷ to ∷ []) = some (record {
  protocol = if p == 0 then mining_protocol else other_protocol;
  min_version = from;
  max_version = to;
})
toy_setup _ = none

abbrev pub toy_open : Bytes → Option (OpenExtendedMiningChannel ℕ)
toy_open (id ∷ rate ∷ identity) =
    some (record { request_id = id; user_identity = identity; nominal_hash_rate = rate })
toy_open _ = none

abbrev pub toy_submit : Bytes → Option SubmitSharesExtended
toy_submit (channel ∷ number ∷ job ∷ nonce ∷ ntime ∷ version ∷ extranonce) = some (record {
  channel_id = channel;
  sequence_number = number;
  job_id = job;
  nonce = nonce;
  ntime = ntime;
  version = version;
  extranonce = extranonce;
})
toy_submit _ = none

abbrev pub toy_codec : Codec ℕ
toy_codec = record {
  parse_setup_connection = toy_setup;
  parse_open_extended_mining_channel = toy_open;
  parse_submit_shares_extended = toy_submit;
  type_setup_connection = 0x00;
  type_open_extended_mining_channel = 0x13;
  type_submit_shares_extended = 0x1a;
}
