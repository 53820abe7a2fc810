-- ===== src/Jobs/Varint.antt =====
-- `write_varint` of pool/src/jobs.rs, and the CompactSize format that it writes.
use mining_pool.Base.{
  ℕ, zero, suc, ◌+◌, ◌*◌, ◌/◌, ◌%◌, ◌^◌, ◌<◌, ◌≡◌, List, [], ◌∷◌, ◌++◌, Option, none, some, arith,
  ltb, leb, if◌then◌else◌, append_assoc,
}
use native.Mathlib.Nat.{pow-suc}
use mining_pool.Words.{le_bytes}

-- `n as u16` and `n as u32` keep the low bits.
unfoldable pub write_varint : List ℕ → ℕ → List ℕ
write_varint buf n =
    if ltb n 0xfd
    then buf ++ ((n % 2 ^ 8) ∷ [])
    else if leb n 0xffff
    then (buf ++ (0xfd ∷ [])) ++ le_bytes 2 (n % 2 ^ 16)
    else if leb n 0xffff_ffff
    then (buf ++ (0xfe ∷ [])) ++ le_bytes 4 (n % 2 ^ 32)
    else (buf ++ (0xff ∷ [])) ++ le_bytes 8 n

-- The reader of the format: one byte, or a marker and a little-endian number of 2, 4 or 8 bytes, which no
-- shorter form could hold.
pub read_le : ℕ → List ℕ → Option (ℕ × List ℕ)
read_le zero bs = some (0, bs)
read_le (suc n) [] = none
read_le (suc n) (b ∷ bs) = elim (read_le n bs) [
  | none ↦ none
  | some (v, rest) ↦ some (b + 256 * v, rest)
]

-- A number must have been too large for the shorter forms.
at_least : ℕ → Option (ℕ × List ℕ) → Option (ℕ × List ℕ)
at_least low none = none
at_least low (some (v, rest)) = if leb low v then some (v, rest) else none

pub read_varint : List ℕ → Option (ℕ × List ℕ)
read_varint [] = none
read_varint (b ∷ bs) =
    if ltb b 0xfd
    then some (b, bs)
    else if leb b 0xfd
    then at_least 0xfd (read_le 2 bs)
    else if leb b 0xfe
    then at_least 0x1_0000 (read_le 4 bs)
    else at_least 0x1_0000_0000 (read_le 8 bs)

pub read_le-le_bytes :
    (n v : ℕ) (rest : List ℕ) → v < 256 ^ n → read_le n (le_bytes n v ++ rest) ≡ some (v, rest)
unfolding read_le
read_le-le_bytes zero v rest h = ground arith
read_le-le_bytes (suc n) v rest h =
    ground (arith, read_le-le_bytes n (v / 256) rest (omega (arith, pow-suc 256 n)))

-- Writing appends: what stands in the buffer already is kept.
pub write_varint-append : (buf : List ℕ) (n : ℕ) → write_varint buf n ≡ buf ++ write_varint [] n
unfolding write_varint
write_varint-append buf n = ground (
  arith,
  append_assoc buf (0xfd ∷ []) (le_bytes 2 (n % 2 ^ 16)),
  append_assoc buf (0xfe ∷ []) (le_bytes 4 (n % 2 ^ 32)),
  append_assoc buf (0xff ∷ []) (le_bytes 8 n),
)

-- A u64 that `write_varint` appends to a buffer is read back by the CompactSize reader, which accepts a
-- number in its shortest form only, whatever follows it.
pub read_varint-write_varint :
    (n : ℕ) (rest : List ℕ) → n < 2 ^ 64 → read_varint (write_varint [] n ++ rest) ≡ some (n, rest)
unfolding write_varint read_varint at_least
read_varint-write_varint n rest h = ground (
  arith,
  read_le-le_bytes 2 (n % 2 ^ 16) rest,
  read_le-le_bytes 4 (n % 2 ^ 32) rest,
  read_le-le_bytes 8 n rest,
)
