-- ===== src/Stratum/State/Invariant.antt =====
-- The invariant of a connection of pool/src/stratum_sv2.rs, and how its map of channels keeps it.
use mining_pool.Base.{
  ℕ, ◌^◌, ◌≤◌, ◌<◌, ◌≡◌, ◌≢◌, inl, inr, some, List, [], ◌∷◌, arith, ◌==◌, ==_iff, Bool-cases, All,
}
use mining_pool.Bitcoin.{Bytes}
use mining_pool.Stratum.Target.{IsTarget}
use mining_pool.Stratum.Extranonce.{extranonce_prefix_of}
use mining_pool.Stratum.State.{
  ChannelInfo, JobInfo, Channels, ConnectionState, new, get, insert, keys, set_current_job,
}
use mining_pool.Stratum.State.Channels.{keys-set_current_job}

-- An entry of the map, below the next channel id and the next job id.
pub record IsEntry (next_channel next_job : ℕ) (e : ℕ × ChannelInfo) : Type 0 where
  pub own_id : e.1.channel_id ≡ e.0
  pub allocated : e.0 < next_channel
  pub prefix : e.1.extranonce_prefix ≡ extranonce_prefix_of e.0
  pub target : IsTarget e.1.channel_target_be
  pub job : (j : JobInfo) → e.1.current_job ≡ some j → j.job_id < next_job

abbrev pub Distinct : List ℕ → Type 0
Distinct [] = Unit
Distinct (k ∷ ks) = All (λ j. j ≢ k) ks × Distinct ks

pub record Inv (s : ConnectionState) : Type 0 where
  pub entries : All (IsEntry s.next_channel_id s.next_job_id) s.channels
  pub distinct : Distinct (keys s.channels)

-- The invariant of a state between two events: the counter of channels is a `u32`.
abbrev pub Sound : ConnectionState → Type 0
Sound s = Inv s × (s.next_channel_id < 2 ^ 32)

-- The invariant, with the counters no further than given.
abbrev pub Within : ℕ → ℕ → ConnectionState → Type 0
Within c j s = Inv s × (s.next_channel_id ≤ c) × (s.next_job_id ≤ j)

IsEntry-weaken :
    {c c' j j' : ℕ} (e : ℕ × ChannelInfo) → c ≤ c' → j ≤ j' → IsEntry c j e → IsEntry c' j' e
IsEntry-weaken e hc hj v = record {
  own_id = v.own_id;
  allocated = omega (arith, v.allocated);
  prefix = v.prefix;
  target = v.target;
  job = λ i h. omega (arith, v.job i h);
}

pub entries_mono :
    {c c' j j' : ℕ} (m : Channels) → c ≤ c' → j ≤ j' → All (IsEntry c j) m → All (IsEntry c' j') m
entries_mono [] hc hj v = tt
entries_mono (e ∷ m) hc hj v = (IsEntry-weaken e hc hj v.0, entries_mono m hc hj v.1)

pub entries-insert :
    {c j : ℕ} (id : ℕ) (channel : ChannelInfo) (m : Channels)
    → IsEntry c j (id, channel)
    → All (IsEntry c j) m
    → All (IsEntry c j) (insert id channel m)
unfolding insert
entries-insert id channel [] v vs = (v, tt)
entries-insert id channel ((k, d) ∷ m) v vs = elim (Bool-cases (k == id)) [
  | inl same ↦ rw same (v, vs.1)
  | inr other ↦ rw other (vs.0, entries-insert id channel m v vs.1)
]

keys-insert-ne :
    (i id : ℕ) (channel : ChannelInfo) (m : Channels)
    → id ≢ i
    → All (λ j. j ≢ i) (keys m)
    → All (λ j. j ≢ i) (keys (insert id channel m))
unfolding insert keys
keys-insert-ne i id channel [] h v = (h, tt)
keys-insert-ne i id channel ((k, d) ∷ m) h v = elim (Bool-cases (k == id)) [
  | inl same ↦ rw same (h, v.1)
  | inr other ↦ rw other (v.0, keys-insert-ne i id channel m h v.1)
]

pub insert-Distinct :
    (id : ℕ) (channel : ChannelInfo) (m : Channels)
    → Distinct (keys m)
    → Distinct (keys (insert id channel m))
unfolding insert keys
insert-Distinct id channel [] v = (tt, tt)
insert-Distinct id channel ((k, d) ∷ m) v = elim (Bool-cases (k == id)) [
  | inl same ↦ let e : k ≡ id = (==_iff k id).0 same in rw same (rw (← e) v)
  | inr other ↦
      let ne : id ≢ k = λ e. ground arith in
      rw other (keys-insert-ne k id channel m ne v.0, insert-Distinct id channel m v.1)
]

pub entries-set_current_job :
    (c j id : ℕ) (info : JobInfo) (m : Channels)
    → info.job_id < j
    → All (IsEntry c j) m
    → All (IsEntry c j) (set_current_job id info m)
unfolding set_current_job
entries-set_current_job c j id info [] h vs = tt
entries-set_current_job c j id info ((k, d) ∷ m) h vs = elim (Bool-cases (k == id)) [
  | inl same ↦ rw same (
    record {
      own_id = vs.0.own_id;
      allocated = vs.0.allocated;
      prefix = vs.0.prefix;
      target = vs.0.target;
      job = λ i e. ground arith;
    },
    vs.1,
  )
  | inr other ↦ rw other (vs.0, entries-set_current_job c j id info m h vs.1)
]

-- A new job in one channel keeps the invariant.
pub set_current_job-Inv :
    (s : ConnectionState) (id : ℕ) (info : JobInfo)
    → info.job_id < s.next_job_id
    → Inv s
    → Inv (record s { channels = set_current_job id info s.channels })
set_current_job-Inv s id info h v = record {
  entries = entries-set_current_job s.next_channel_id s.next_job_id id info s.channels h v.entries;
  distinct = rw (keys-set_current_job id info s.channels) v.distinct;
}

pub new-Inv : (pool_address : Bytes) → Inv (new pool_address)
unfolding new keys
new-Inv pool_address = record { entries = tt; distinct = tt }

-- What the map holds under an id is an entry for that id.
pub get-IsEntry :
    (c j id : ℕ) (channel : ChannelInfo) (m : Channels)
    → All (IsEntry c j) m
    → get id m ≡ some channel
    → IsEntry c j (id, channel)
unfolding get
get-IsEntry c j id channel [] vs h = absurd (ground arith)
get-IsEntry c j id channel ((k, d) ∷ m) vs h = elim (Bool-cases (k == id)) [
  | inl same ↦
      let e : k ≡ id = (==_iff k id).0 same in
      let e' : d ≡ channel = ground arith in rw (← e, ← e') vs.0
  | inr other ↦ get-IsEntry c j id channel m vs.1 (ground arith)
]
