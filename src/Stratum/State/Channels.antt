-- ===== src/Stratum/State/Channels.antt =====
-- The laws of the channel map of pool/src/stratum_sv2.rs.
use mining_pool.Base.{
  ℕ, ◌≡◌, refl, sym, inl, inr, some, [], ◌∷◌, arith, ◌==◌, if◌then◌else◌, Bool-cases, All,
}
use mathlib.Core.Path.{subst}
use mathlib.Core.Option
use mining_pool.Stratum.State.{ChannelInfo, JobInfo, Channels, get, insert, keys, set_current_job}

pub get-insert :
    (id j : ℕ) (c : ChannelInfo) (m : Channels)
    → get j (insert id c m) ≡ (if id == j then some c else get j m)
unfolding get insert
get-insert id j c [] = refl
get-insert id j c ((k, d) ∷ m) = ground (arith, get-insert id j c m)

-- The channel with a new job.
abbrev pub with_job : JobInfo → ChannelInfo → ChannelInfo
with_job job c = record c { current_job = some job }

pub get-set_current_job :
    (id j : ℕ) (job : JobInfo) (m : Channels)
    → get j (set_current_job id job m)
      ≡ (if id == j then Option.map (with_job job) (get j m) else get j m)
unfolding get set_current_job
get-set_current_job id j job [] = ground arith
get-set_current_job id j job ((k, d) ∷ m) = ground (arith, get-set_current_job id j job m)

pub keys-set_current_job :
    (id : ℕ) (job : JobInfo) (m : Channels) → keys (set_current_job id job m) ≡ keys m
unfolding keys set_current_job
keys-set_current_job id job [] = refl
keys-set_current_job id job ((k, d) ∷ m) = ground (arith, keys-set_current_job id job m)

-- A property of every channel.
abbrev pub AllChannels : (ChannelInfo → Type 0) → Channels → Type 0
AllChannels Q m = All (λ e. Q e.1) m

pub AllChannels-insert :
    (Q : ChannelInfo → Type 0) (id : ℕ) (c : ChannelInfo) (m : Channels)
    → Q c
    → AllChannels Q m
    → AllChannels Q (insert id c m)
unfolding insert
AllChannels-insert Q id c [] h v = (h, tt)
AllChannels-insert Q id c ((k, d) ∷ m) h v = elim (Bool-cases (k == id)) [
  | inl same ↦ rw same (h, v.1)
  | inr other ↦ rw other (v.0, AllChannels-insert Q id c m h v.1)
]

pub AllChannels-set_current_job :
    (Q : ChannelInfo → Type 0) (id : ℕ) (job : JobInfo) (c : ChannelInfo) (m : Channels)
    → get id m ≡ some c
    → Q (with_job job c)
    → AllChannels Q m
    → AllChannels Q (set_current_job id job m)
unfolding set_current_job get
AllChannels-set_current_job Q id job c [] found h v = tt
AllChannels-set_current_job Q id job c ((k, d) ∷ m) found h v = elim (Bool-cases (k == id)) [
  | inl same ↦
      let own : d ≡ c = ground (arith, found) in
      rw same (subst (λ x. Q (with_job job x)) (sym own) h, v.1)
  | inr other ↦
      let rest : get id m ≡ some c = ground (arith, found) in
      rw other (v.0, AllChannels-set_current_job Q id job c m rest h v.1)
]

pub AllChannels-get :
    (Q : ChannelInfo → Type 0) (id : ℕ) (c : ChannelInfo) (m : Channels)
    → AllChannels Q m
    → get id m ≡ some c
    → Q c
unfolding get
AllChannels-get Q id c [] v found = absurd (ground arith)
AllChannels-get Q id c ((k, d) ∷ m) v found = elim (Bool-cases (k == id)) [
  | inl same ↦ let own : d ≡ c = ground (arith, found) in subst Q own v.0
  | inr other ↦ AllChannels-get Q id c m v.1 (ground (arith, found))
]
