-- ===== src/Jobs/Split.antt =====
-- The split of a serialized coinbase at its extranonce placeholder: `split_at_extranonce` and
-- `split_at_sv2_extranonce` of pool/src/jobs.rs.
pub mod Laws
use mining_pool.Base.{
  ℕ, zero, suc, ◌+◌, ◌-◌, ◌≤◌, ◌<◌, ◌≡◌, ◌≢◌, refl, ap, sym, ◌∙◌, List, [], ◌∷◌, ◌++◌, Option, none,
  some, Bool, true, false, arith, ltb, if◌then◌else◌, length, take, drop, replicate, list_eq,
  list_eq→eq, list_eq_self, take-append-drop, length-append, Option-cases, Bool-cases, inl, inr,
}
use mathlib.Core.Option
use mining_pool.Bitcoin.{Bytes}

pub record CoinbaseParts : Type 0 where
  pub coinb1 : Bytes
  pub coinb2 : Bytes

abbrev pub extranonce1_size : ℕ
extranonce1_size = 4

abbrev pub extranonce2_size : ℕ
extranonce2_size = 4

abbrev pub extranonce_placeholder : Bytes
extranonce_placeholder = 0xde ∷ 0xad ∷ 0xbe ∷ 0xef ∷ 0xca ∷ 0xfe ∷ 0xba ∷ 0xbe ∷ []

abbrev pub sv2_extranonce_prefix_size : ℕ
sv2_extranonce_prefix_size = 32

abbrev pub sv2_extranonce2_size : ℕ
sv2_extranonce2_size = 4

abbrev pub sv2_extranonce_total : ℕ
sv2_extranonce_total = sv2_extranonce_prefix_size + sv2_extranonce2_size

abbrev pub sv2_extranonce_placeholder : Bytes
sv2_extranonce_placeholder = replicate sv2_extranonce_total 0xcc

-- `raw.windows(p.len()).position(|w| w == p)` for a placeholder `p` that is not empty.
pub position : Bytes → Bytes → Option ℕ
position p [] = none
position p (x ∷ xs) =
    let rest = Option.map suc (position p xs) in
    if ltb (length (x ∷ xs)) (length p)
    then none
    else if list_eq (take (length p) (x ∷ xs)) p
    then some 0
    else rest

-- `none` is the panic of `expect`.
pub split_at : Bytes → Bytes → Option CoinbaseParts
split_at p raw =
    Option.map (λ pos. record { coinb1 = take pos raw; coinb2 = drop (pos + length p) raw })
      (position p raw)

unfoldable pub split_at_extranonce : Bytes → Option CoinbaseParts
unfolding split_at position
split_at_extranonce raw = split_at extranonce_placeholder raw

unfoldable pub split_at_sv2_extranonce : Bytes → Option CoinbaseParts
unfolding split_at position
split_at_sv2_extranonce raw = split_at sv2_extranonce_placeholder raw
