-- ===== src/Jobs/Tdp/Format.antt =====
-- The wire format of a transaction (BIP144) up to its outputs, as a reader that does not depend on how
-- pool/src/jobs.rs writes it.
use mining_pool.Base.{
  ℕ, ◌^◌, ◌<◌, ◌≡◌, refl, Bool, true, false, ◌&&◌, Option, none, some, [], ◌∷◌, ◌++◌, arith, ltb,
  ◌==◌, if◌then◌else◌, length, take, drop, length-append, take-append, drop-append,
}
use mining_pool.Words.{le_bytes}
use mining_pool.Bitcoin.{Bytes}
use mining_pool.Jobs.Varint.{
  write_varint, read_le, read_varint, read_le-le_bytes, read_varint-write_varint,
}

infixl 5 ◌>>=◌
abbrev pub ◌>>=◌ : {A B : Type 0} → Option A → (A → Option B) → Option B
none >>= f = none
some a >>= f = f a

pub read_bytes : ℕ → Bytes → Option (Bytes × Bytes)
read_bytes n bs = if ltb (length bs) n then none else some (take n bs, drop n bs)

-- The marker 0x00 and the flag 0x01 of a segwit transaction stand where the inputs are counted.
pub read_marker : Bytes → Bool × Bytes
read_marker [] = (false, [])
read_marker (b ∷ []) = (false, b ∷ [])
read_marker (b ∷ c ∷ bs) = if (b == 0) && (c == 1) then (true, bs) else (false, b ∷ c ∷ bs)

-- A transaction with one input: its fields, and the bytes of the outputs and of what follows them.
pub record CoinbaseWire : Type 0 where
  pub version : ℕ
  pub segwit : Bool
  pub outpoint : Bytes
  pub script_sig : Bytes
  pub sequence : ℕ
  pub output_count : ℕ
  pub rest : Bytes

pub read_input : ℕ → Bool → ℕ × Bytes → Option CoinbaseWire
read_input version segwit (inputs, bs) =
    if inputs == 1
    then (do
      (outpoint, bs) ← read_bytes 36 bs
      (len, bs) ← read_varint bs
      (script_sig, bs) ← read_bytes len bs
      (sequence, bs) ← read_le 4 bs
      (output_count, bs) ← read_varint bs
      some (record {
        version = version;
        segwit = segwit;
        outpoint = outpoint;
        script_sig = script_sig;
        sequence = sequence;
        output_count = output_count;
        rest = bs;
      }))
    else none

pub read_coinbase : Bytes → Option CoinbaseWire
read_coinbase bs = do
  (version, bs) ← read_le 4 bs
  let (segwit, bs) = read_marker bs
  counted ← read_varint bs
  read_input version segwit counted

pub read_bytes-append :
    (xs ys : Bytes) (n : ℕ) → length xs ≡ n → read_bytes n (xs ++ ys) ≡ some (xs, ys)
unfolding read_bytes
read_bytes-append xs ys n e =
    rw (← e) (ground (arith, length-append xs ys, take-append xs ys, drop-append xs ys))

abbrev pub marker : Bool → Bytes
marker true = 0x00 ∷ 0x01 ∷ []
marker false = []

read_marker-marker :
    (segwit : Bool) (b : ℕ) (bs : Bytes)
    → read_marker (marker segwit ++ (1 ∷ b ∷ bs)) ≡ (segwit, 1 ∷ b ∷ bs)
unfolding read_marker
read_marker-marker true b bs = refl
read_marker-marker false b bs = refl

read_varint_one : (bs : Bytes) → read_varint (1 ∷ bs) ≡ some (1, bs)
unfolding write_varint
read_varint_one bs = read_varint-write_varint 1 bs (omega arith)

read_input_lem :
    (version : ℕ) (segwit : Bool) (out script rest : Bytes) (len sequence count : ℕ)
    → length out ≡ 36
    → length script ≡ len
    → len < 2 ^ 64
    → sequence < 2 ^ 32
    → count < 2 ^ 64
    → read_input version segwit (
      1,
      out
          ++ (write_varint [] len
              ++ (script ++ (le_bytes 4 sequence ++ (write_varint [] count ++ rest)))),
    )
      ≡ some (record {
        version = version;
        segwit = segwit;
        outpoint = out;
        script_sig = script;
        sequence = sequence;
        output_count = count;
        rest = rest;
      })
unfolding read_input
read_input_lem version segwit out script rest len sequence count ho hs hl hq hc = rw (
  read_bytes-append out _ 36 ho,
  read_varint-write_varint len _ hl,
  read_bytes-append script _ len hs,
  read_le-le_bytes 4 sequence _ hq,
  read_varint-write_varint count rest hc,
)

-- The reader takes apart what is laid out as the format says.
pub read_coinbase_lem :
    (version : ℕ) (segwit : Bool) (b : ℕ) (out script rest : Bytes) (len sequence count : ℕ)
    → version < 2 ^ 32
    → length (b ∷ out) ≡ 36
    → length script ≡ len
    → len < 2 ^ 64
    → sequence < 2 ^ 32
    → count < 2 ^ 64
    → read_coinbase (
        le_bytes 4 version
        ++ (marker segwit
            ++ (1
                ∷ ((b ∷ out)
                    ++ (write_varint [] len
                        ++ (script ++ (le_bytes 4 sequence ++ (write_varint [] count ++ rest))))))))
      ≡ some (record {
        version = version;
        segwit = segwit;
        outpoint = b ∷ out;
        script_sig = script;
        sequence = sequence;
        output_count = count;
        rest = rest;
      })
unfolding read_coinbase
read_coinbase_lem version segwit b out script rest len sequence count hv ho hs hl hq hc =
    rw (read_le-le_bytes 4 version _ hv, read_marker-marker segwit b _, read_varint_one)
      (read_input_lem version segwit (b ∷ out) script rest len sequence count ho hs hl hq hc)
