-- ===== src/Stratum/Address.antt =====
-- `parse_miner_address` of pool/src/stratum_sv2.rs.
use mining_pool.Base.{
  ◌≡◌, ◌≢◌, inl, inr, refl, none, some, [], ◌∷◌, ◌++◌, arith, ◌==◌, if◌then◌else◌, Option-cases,
  All,
}
use mining_pool.Bitcoin.{Bytes, BitcoinLib}
use mining_pool.Jobs.Coinbase.{script_from_address}

-- `split('.').next()`: the text in front of the first dot.
pub until_dot : Bytes → Bytes
until_dot [] = []
until_dot (b ∷ bs) = if b == 46 then [] else b ∷ until_dot bs

unfoldable pub parse_miner_address : BitcoinLib → Bytes → Bytes → Bytes
unfolding until_dot
parse_miner_address lib user_identity pool_address =
    elim (script_from_address lib (until_dot user_identity)) [
      | some script ↦ until_dot user_identity
      | none ↦ pool_address
    ]

abbrev NoDot : Bytes → Type 0
NoDot s = All (λ b. b ≢ 46) s

until_dot-worker :
    (address worker : Bytes) → NoDot address → until_dot (address ++ (46 ∷ worker)) ≡ address
unfolding until_dot
until_dot-worker [] worker h = refl
until_dot-worker (b ∷ bs) worker h = ground (arith, until_dot-worker bs worker h.1)

until_dot-plain : (address : Bytes) → NoDot address → until_dot address ≡ address
unfolding until_dot
until_dot-plain [] h = refl
until_dot-plain (b ∷ bs) h = ground (arith, until_dot-plain bs h.1)

-- A valid address is found alone and in front of any worker name; whatever the identity is, the result
-- is a valid address if the pool's own is one.
pub parse_miner_address_lem :
    (lib : BitcoinLib) (address worker pool identity script pool_script : Bytes)
    → NoDot address
    → script_from_address lib address ≡ some script
    → script_from_address lib pool ≡ some pool_script
    → (parse_miner_address lib address pool ≡ address)
      × (parse_miner_address lib (address ++ (46 ∷ worker)) pool ≡ address)
      × ((s : Bytes) × (script_from_address lib (parse_miner_address lib identity pool) ≡ some s))
unfolding parse_miner_address
parse_miner_address_lem lib address worker pool identity script pool_script nodot valid fallback = (
  rw (until_dot-plain address nodot, valid, parse_miner_address) (until_dot-plain address nodot),
  rw (until_dot-worker address worker nodot, valid, parse_miner_address)
      (until_dot-worker address worker nodot),
  elim (Option-cases (script_from_address lib (until_dot identity))) [
    | inl e ↦ (pool_script, rw (e, parse_miner_address) fallback)
    | inr (s, e) ↦ (s, rw (e, parse_miner_address) e)
  ],
)
