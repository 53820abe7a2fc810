-- ===== src/Stratum/Extranonce.antt =====
-- The extranonce of pool/src/stratum_sv2.rs: the prefix of a channel and `build_full_extranonce`.
use mining_pool.Base.{
  ℕ, zero, suc, ◌+◌, ◌^◌, ◌≤◌, ◌<◌, min, ◌≡◌, refl, ap, sym, ◌∙◌, [], ◌∷◌, ◌++◌, append-nil, arith,
  length, take, drop, replicate, length-append, take-append, length-take, length-drop,
}
use mining_pool.Words.{le_bytes, le_value, le_value-le_bytes}
use mining_pool.Bitcoin.{Bytes}
use mining_pool.Jobs.Split.{sv2_extranonce2_size, sv2_extranonce_total}

-- `out[at..at + src.len()].copy_from_slice(src)` within the bounds of `out`.
pub copy_into : Bytes → ℕ → Bytes → Bytes
copy_into out at src = take at out ++ (src ++ drop (at + length src) out)

-- The channel id in the first four of 32 bytes.
unfoldable pub extranonce_prefix_of : ℕ → Bytes
unfolding copy_into
extranonce_prefix_of channel_id = copy_into (replicate 32 0) 0 (le_bytes 4 channel_id)

-- `prefix` has 32 bytes.
unfoldable pub build_full_extranonce : Bytes → Bytes → Bytes
unfolding copy_into
build_full_extranonce prefix ext2 =
    let out : Bytes = copy_into (replicate sv2_extranonce_total 0) 0 prefix in
    let ext2_len : ℕ = min (length ext2) sv2_extranonce2_size in
    copy_into out 32 (take ext2_len ext2)

take_prefix : (n : ℕ) (xs ys : Bytes) → length xs ≡ n → take n (xs ++ ys) ≡ xs
take_prefix n xs ys e = rw (← e) (take-append xs ys)

drop_past : (n k : ℕ) (xs ys : Bytes) → length xs ≡ n → drop (n + k) (xs ++ ys) ≡ drop k ys
drop_past n k [] ys e = let e' : n + k ≡ k = omega arith in rw e'
drop_past zero k (x ∷ xs) ys e = absurd (omega arith)
drop_past (suc n) k (x ∷ xs) ys e =
    let e' : suc n + k ≡ suc (n + k) = omega arith in rw e' (drop_past n k xs ys (omega arith))

-- The prefix of 32 bytes, then four bytes: those of the share, padded by zeros or cut.
build_full_extranonce_shape :
    (prefix ext2 : Bytes)
    → length prefix ≡ 32
    → let k = min (length ext2) 4 in
      build_full_extranonce prefix ext2
      ≡ prefix ++ (take k ext2 ++ drop (length (take k ext2)) (replicate 4 0))
unfolding build_full_extranonce
build_full_extranonce_shape prefix ext2 e =
    let k : ℕ = min (length ext2) 4 in
    let z : 0 + length prefix ≡ 32 = omega arith in
    rw (
      z,
      take_prefix 32 prefix (replicate 4 0) e,
      drop_past 32 (length (take k ext2)) prefix (replicate 4 0) e,
    )

-- The four bytes behind the prefix.
abbrev padded : Bytes → Bytes
padded ext2 =
    take (min (length ext2) 4) ext2
    ++ drop (length (take (min (length ext2) 4) ext2)) (replicate 4 0)

length-padded : (ext2 : Bytes) → length (padded ext2) ≡ 4
length-padded ext2 =
    let front : Bytes = take (min (length ext2) 4) ext2 in
    omega (
      arith,
      length-append front (drop (length front) (replicate 4 0)),
      length-take (min (length ext2) 4) ext2,
      length-drop (length front) (replicate {A = ℕ} 4 0),
    )

padded_four : (ext2 : Bytes) → length ext2 ≡ 4 → padded ext2 ≡ ext2
padded_four ext2 four =
    let k : min (length ext2) 4 ≡ length ext2 = omega arith in
    let whole : take (length ext2) ext2 ≡ ext2 = take_all ext2 in
    rw (k, whole, four) (append-nil ext2)
  where
    take_all : (xs : Bytes) → take (length xs) xs ≡ xs
    take_all [] = refl
    take_all (x ∷ xs) = ap (◌∷◌ x) (take_all xs)

take-replicate : (n m : ℕ) → n ≤ m → take n (replicate {A = ℕ} m 0) ≡ replicate n 0
take-replicate zero m h = refl
take-replicate (suc n) zero h = absurd (omega arith)
take-replicate (suc n) (suc m) h = ap (◌∷◌ 0) (take-replicate n m (omega arith))

cut_padded :
    (n m : ℕ) (xs : Bytes)
    → n ≤ m
    → take (min (length xs) n) xs ++ drop (length (take (min (length xs) n) xs)) (replicate n 0)
      ≡ take n (xs ++ replicate m 0)
cut_padded zero m xs h = let e : min (length xs) 0 ≡ 0 = omega arith in rw e
cut_padded (suc n) m [] h =
    let e : min 0 (suc n) ≡ 0 = omega arith in rw (e, take-replicate (suc n) m h)
cut_padded (suc n) m (x ∷ xs) h =
    let e : min (suc (length xs)) (suc n) ≡ suc (min (length xs) n) = omega arith in
    rw e (ap (◌∷◌ x) (cut_padded n m xs (omega arith)))

-- With a prefix of 32 bytes the extranonce is the prefix and four more bytes: those of the share, cut
-- behind the fourth, or filled up with zeros. So it has 36 bytes.
pub build_full_extranonce_lem :
    (prefix ext2 : Bytes)
    → length prefix ≡ 32
    → (build_full_extranonce prefix ext2 ≡ prefix ++ take 4 (ext2 ++ replicate 4 0))
      × (length (build_full_extranonce prefix ext2) ≡ 36)
build_full_extranonce_lem prefix ext2 e = rw (build_full_extranonce_shape prefix ext2 e) (
  ap (◌++◌ prefix) (cut_padded 4 4 ext2 (omega arith)),
  omega (arith, length-append prefix (padded ext2), length-padded ext2),
)

-- Four bytes from the share follow the prefix unchanged.
pub build_full_extranonce_four :
    (prefix ext2 : Bytes)
    → length prefix ≡ 32
    → length ext2 ≡ 4
    → build_full_extranonce prefix ext2 ≡ prefix ++ ext2
build_full_extranonce_four prefix ext2 e four =
    rw (build_full_extranonce_shape prefix ext2 e) (ap (◌++◌ prefix) (padded_four ext2 four))

prefix_kept :
    (prefix ext2 : Bytes)
    → length prefix ≡ 32
    → take 32 (build_full_extranonce prefix ext2) ≡ prefix
prefix_kept prefix ext2 e =
    rw (build_full_extranonce_shape prefix ext2 e) (take_prefix 32 prefix _ e)

-- Two shares of different channels never have the same extranonce, whatever bytes the miners chose.
pub build_full_extranonce-injective :
    (i j : ℕ) (ext2 ext2' : Bytes)
    → i < 2 ^ 32
    → j < 2 ^ 32
    → build_full_extranonce (extranonce_prefix_of i) ext2
      ≡ build_full_extranonce (extranonce_prefix_of j) ext2'
    → i ≡ j
unfolding extranonce_prefix_of
build_full_extranonce-injective i j ext2 ext2' hi hj e =
    sym (le_value-le_bytes 4 i (omega arith))
    ∙ ap (λ bs. le_value (take 4 bs)) same
    ∙ le_value-le_bytes 4 j (omega arith)
  where
    same : extranonce_prefix_of i ≡ extranonce_prefix_of j
    same =
        sym (prefix_kept (extranonce_prefix_of i) ext2 refl)
        ∙ ap (take 32) e
        ∙ prefix_kept (extranonce_prefix_of j) ext2' refl
