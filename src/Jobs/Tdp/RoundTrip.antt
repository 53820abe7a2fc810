-- ===== src/Jobs/Tdp/RoundTrip.antt =====
-- `build_sv2_coinbase_from_tdp` of pool/src/jobs.rs against the wire format.
use mining_pool.Base.{
  ℕ, ◌+◌, ◌%◌, ◌^◌, ◌<◌, ◌≡◌, refl, Bool, true, false, some, [], ◌∷◌, ◌++◌, append_assoc, arith,
  if◌then◌else◌, length, replicate, length-append,
}
use mining_pool.Words.{le_bytes}
use mining_pool.Bitcoin.{Bytes, BitcoinLib}
use mining_pool.Jobs.Varint.{write_varint, write_varint-append}
use mining_pool.Jobs.Tdp.{tdp_prefix, tdp_suffix, build_sv2_coinbase_from_tdp}
use mining_pool.Jobs.Tdp.Format.{marker, read_coinbase, read_coinbase_lem}

abbrev pub null_outpoint : Bytes
null_outpoint = replicate 32 0 ++ le_bytes 4 0xffff_ffff

-- The bytes behind the output count.
abbrev pub tail_of : BitcoinLib → ℕ → Bytes → ℕ → Bytes → Bool → Bytes
tail_of lib value outputs locktime script segwit =
    lib.serialize_out (record { value = value; script_pubkey = script })
    ++ (outputs ++ ((if segwit then 0x01 ∷ 0x20 ∷ replicate 32 0 else []) ++ le_bytes 4 locktime))

prefix_shape :
    (script_prefix : Bytes) (version : ℕ) (segwit : Bool)
    → tdp_prefix script_prefix version segwit
      ≡ le_bytes 4 version
        ++ (marker segwit
            ++ (1
                ∷ (null_outpoint
                    ++ (write_varint [] ((length script_prefix + 36) % 2 ^ 64) ++ script_prefix))))
unfolding tdp_prefix
prefix_shape script_prefix version true = rw write_varint-append (simp append_assoc)
prefix_shape script_prefix version false = rw write_varint-append (simp append_assoc)

suffix_shape :
    (lib : BitcoinLib) (sequence value count : ℕ) (outputs : Bytes) (locktime : ℕ) (script : Bytes)
    (segwit : Bool)
    → tdp_suffix lib sequence value count outputs locktime script segwit
      ≡ le_bytes 4 sequence
        ++ (write_varint [] (1 + count) ++ tail_of lib value outputs locktime script segwit)
unfolding tdp_suffix
suffix_shape lib sequence value count outputs locktime script true =
    rw write_varint-append (simp append_assoc)
suffix_shape lib sequence value count outputs locktime script false =
    rw write_varint-append (simp append_assoc)

-- A coinbase that is put together from the two parts and any 36 bytes of extranonce reads back as a
-- transaction with one null input, whose script is the template's prefix and the extranonce, with one
-- output more than the template counts, in front of which stands the payout, and in the segwit form if
-- and only if it was asked for. The template's numbers are in the range of their types, and the script
-- is shorter than 2^64 bytes.
pub read_coinbase-build_sv2_coinbase_from_tdp :
    (lib : BitcoinLib) (script_prefix outputs script extranonce : Bytes)
    (version sequence value count locktime : ℕ) (segwit : Bool)
    → version < 2 ^ 32
    → sequence < 2 ^ 32
    → count < 2 ^ 32
    → length script_prefix + 36 < 2 ^ 64
    → length extranonce ≡ 36
    → let parts =
        build_sv2_coinbase_from_tdp lib script_prefix version sequence value count outputs locktime
          script segwit in
      read_coinbase (parts.coinb1 ++ (extranonce ++ parts.coinb2))
      ≡ some (record {
        version = version;
        segwit = segwit;
        outpoint = null_outpoint;
        script_sig = script_prefix ++ extranonce;
        sequence = sequence;
        output_count = 1 + count;
        rest = tail_of lib value outputs locktime script segwit;
      })
unfolding build_sv2_coinbase_from_tdp
read_coinbase-build_sv2_coinbase_from_tdp lib script_prefix outputs script extranonce version
      sequence value count locktime segwit hv hq hc hl he =
    rw laid_out (
      read_coinbase_lem version segwit 0 _ (script_prefix ++ extranonce) _ len sequence (1 + count)
        hv refl (omega (arith, length-append script_prefix extranonce, small))
        (omega (arith, small)) hq (omega arith))
  where
    len : ℕ
    len = (length script_prefix + 36) % 2 ^ 64

    small : len ≡ length script_prefix + 36
    small = omega arith

    laid_out :
        tdp_prefix script_prefix version segwit
          ++ (extranonce ++ tdp_suffix lib sequence value count outputs locktime script segwit)
        ≡ le_bytes 4 version
          ++ (marker segwit
              ++ (1
                  ∷ (null_outpoint
                      ++ (write_varint [] len
                          ++ ((script_prefix ++ extranonce)
                              ++ (le_bytes 4 sequence
                                  ++ (write_varint [] (1 + count)
                                      ++ tail_of lib value outputs locktime script segwit)))))))
    laid_out = rw (prefix_shape, suffix_shape) (simp append_assoc)
