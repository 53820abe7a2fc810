-- ===== src/Stratum/Target/Order.antt =====
-- Comparing hashes and targets as text (pool/src/stratum_sv2.rs) is comparing them as numbers.
use mining_pool.Base.{
  ℕ, ◌/◌, ◌%◌, ◌≡◌, sym, ◌∙◌, [], ◌∷◌, reverse, arith, ltb, length, All, All-reverse,
  length-reverse,
}
use mining_pool.Words.{IsByte, be_value, le_value, be_value-reverse, lex_lt, lex_lt-be_value}
use mining_pool.Bitcoin.{Bytes, BitcoinLib, IsHex, hex_digit}

hex_digit_mono : (a b : ℕ) → ltb (hex_digit a) (hex_digit b) ≡ ltb a b
hex_digit_mono a b = ground arith

module _ (lib : BitcoinLib) (hex : IsHex lib) where
  -- The text order of two encodings of one length is the order of the bytes.
  lex_lt-hex_encode :
      (xs ys : Bytes)
      → length xs ≡ length ys
      → lex_lt (lib.hex_encode xs) (lib.hex_encode ys) ≡ lex_lt xs ys
  unfolding lex_lt
  lex_lt-hex_encode [] [] e = rw hex.encode_nil
  lex_lt-hex_encode [] (y ∷ ys) e = absurd (omega arith)
  lex_lt-hex_encode (x ∷ xs) [] e = absurd (omega arith)
  lex_lt-hex_encode (x ∷ xs) (y ∷ ys) e =
      rw (hex.encode_cons x xs, hex.encode_cons y ys)
        (ground (
          arith,
          hex_digit_mono (x / 16) (y / 16),
          hex_digit_mono (y / 16) (x / 16),
          hex_digit_mono (x % 16) (y % 16),
          hex_digit_mono (y % 16) (x % 16),
          lex_lt-hex_encode xs ys (omega arith),
        ))

  -- A displayed block hash lies above or below the text of a target exactly if the hash, read as a
  -- little-endian number, is larger or smaller than the target, read as a big-endian one; both have the
  -- same number of bytes.
  pub lex_lt-display_hash :
      (t h : Bytes)
      → All IsByte t
      → All IsByte h
      → length t ≡ length h
      → (lex_lt (lib.hex_encode t) (lib.display_hash h) ≡ ltb (be_value t) (le_value h))
        × (lex_lt (lib.display_hash h) (lib.hex_encode t) ≡ ltb (le_value h) (be_value t))
  lex_lt-display_hash t h ht hh e =
      let e' : length t ≡ length (reverse h) = omega (arith, length-reverse h) in
      let hr : All IsByte (reverse h) = All-reverse IsByte h hh in
      rw (hex.displayed h, ← be_value-reverse h)
        (
          lex_lt-hex_encode t (reverse h) e' ∙ lex_lt-be_value t (reverse h) ht hr e',
          lex_lt-hex_encode (reverse h) t (sym e') ∙ lex_lt-be_value (reverse h) t hr ht (sym e'),
        )
