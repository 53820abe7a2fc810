-- ===== src/Stratum/Broadcast/Delivers.antt =====
-- What a broadcast (pool/src/stratum_sv2.rs) does if nothing fails: every channel has the new job.
use mining_pool.Base.{
  ℕ, ◌≡◌, ◌≢◌, refl, sym, ◌∙◌, true, some, List, [], ◌∷◌, ◌++◌, arith, append-nil, append_assoc, ap,
  All,
}
use mining_pool.Bitcoin.{BitcoinLib}
use mining_pool.NodeIpc.Template.{RawTemplate}
use mining_pool.Stratum.Protocol.{new_job, new_prev_hash}
use mining_pool.Stratum.State.{
  ChannelInfo, Channels, done, World, Sent, ok, write, get, keys, set_current_job,
}
use mining_pool.Stratum.State.Channels.{with_job}
use mining_pool.Stratum.State.Invariant.{Distinct}
use mining_pool.Stratum.Job.{JobMessages, build_job_messages}
use mining_pool.Stratum.Broadcast.{send_job, send_jobs, send_jobs_to_all_channels}

-- The channels with the jobs of their messages, and the messages in the order in which they are sent.
abbrev pub with_jobs : (ChannelInfo → JobMessages) → Channels → Channels
with_jobs m [] = []
with_jobs m ((k, c) ∷ cs) = (k, with_job (m c).info c) ∷ with_jobs m cs

abbrev pub new_job_sent : (ChannelInfo → JobMessages) → ChannelInfo → Sent
new_job_sent m c = record { message = new_job (m c).job; is_channel_msg = true }

abbrev pub new_prev_hash_sent : (ChannelInfo → JobMessages) → ChannelInfo → Sent
new_prev_hash_sent m c = record { message = new_prev_hash (m c).prev_hash; is_channel_msg = true }

abbrev pub job_messages : (ChannelInfo → JobMessages) → Channels → List Sent
job_messages m [] = []
job_messages m ((k, c) ∷ cs) = new_job_sent m c ∷ new_prev_hash_sent m c ∷ job_messages m cs

get-behind :
    (k : ℕ) (c : ChannelInfo) (xs ys : Channels)
    → All (λ j. j ≢ k) (keys xs)
    → get k (xs ++ ((k, c) ∷ ys)) ≡ some c
unfolding get keys
get-behind k c [] ys h = ground arith
get-behind k c ((j, d) ∷ xs) ys h = ground (arith, get-behind k c xs ys)

set_current_job-behind :
    (k : ℕ) (c : ChannelInfo) (m : JobMessages) (xs ys : Channels)
    → All (λ j. j ≢ k) (keys xs)
    → set_current_job k m.info (xs ++ ((k, c) ∷ ys)) ≡ xs ++ ((k, with_job m.info c) ∷ ys)
unfolding set_current_job keys
set_current_job-behind k c m [] ys h = ground arith
set_current_job-behind k c m ((j, d) ∷ xs) ys h = ground (arith, set_current_job-behind k c m xs ys)

-- A world in which all writes succeed, with these channels and messages.
abbrev pub delivered : {F64 : Type 0} → World F64 → Channels → List Sent → World F64
delivered w channels sent = record w {
  state = record (w.state) { channels = channels };
  sent = sent;
  writes = [];
}

keys-append : (xs ys : Channels) → keys (xs ++ ys) ≡ keys xs ++ keys ys
unfolding keys
keys-append [] ys = refl
keys-append ((j, d) ∷ xs) ys = ap (λ m. j ∷ m) (keys-append xs ys)

Distinct-apart :
    (ks : List ℕ) (k : ℕ) (ls : List ℕ) → Distinct (ks ++ (k ∷ ls)) → All (λ j. j ≢ k) ks
Distinct-apart [] k ls d = tt
Distinct-apart (j ∷ ks) k ls (d, ds) =
    (λ e. All-member k ks ls d (sym e), Distinct-apart ks k ls ds)
  where
    All-member : (k : ℕ) (ks ls : List ℕ) → All (λ i. i ≢ j) (ks ++ (k ∷ ls)) → k ≢ j
    All-member k [] ls d = d.0
    All-member k (i ∷ ks) ls d = All-member k ks ls d.1

-- The code can build the job of each channel.
module _ (lib : BitcoinLib) (template : RawTemplate) (job_id : ℕ)
    (m : ChannelInfo → JobMessages) where
  abbrev pub Built : Channels → Type 0
  Built = All (λ e. build_job_messages lib e.1 job_id template ≡ done (m e.1))

module _ {F64 : Type 0} (lib : BitcoinLib) (template : RawTemplate) (job_id : ℕ)
    (m : ChannelInfo → JobMessages) where
  send_jobs-behind :
      (w : World F64) (ys xs : Channels) (sent : List Sent)
      → Distinct (keys xs ++ keys ys)
      → Built lib template job_id m ys
      → send_jobs lib template job_id (keys ys) (delivered w (xs ++ ys) sent)
        ≡ ok tt (delivered w (xs ++ with_jobs m ys) (sent ++ job_messages m ys))
  unfolding send_jobs send_job write keys
  send_jobs-behind w [] xs sent d b = rw (append-nil sent) refl
  send_jobs-behind w ((k, c) ∷ ys) xs sent d (b, bs) =
      let apart = Distinct-apart (keys xs) k (keys ys) d in
      rw (get-behind k c xs ys apart, b, set_current_job-behind k c (m c) xs ys apart)
        (rw
          (
            append_assoc xs ((k, with_job (m c).info c) ∷ []) ys,
            append_assoc xs ((k, with_job (m c).info c) ∷ []) (with_jobs m ys),
            append_assoc (sent ++ (new_job_sent m c ∷ [])) (new_prev_hash_sent m c ∷ [])
                (job_messages m ys),
            append_assoc sent (new_job_sent m c ∷ []) (new_prev_hash_sent m c ∷ job_messages m ys),
          )
          at
          (send_jobs-behind w ys (xs ++ ((k, with_job (m c).info c) ∷ []))
            ((sent ++ (new_job_sent m c ∷ [])) ++ (new_prev_hash_sent m c ∷ []))
            (rw
              (
                keys-append xs ((k, with_job (m c).info c) ∷ []),
                append_assoc (keys xs) (k ∷ []) (keys ys),
              )
              d)
            bs))

  -- While writes succeed, a broadcast of a job that the code can build for each channel gives every channel
  -- that job, and sends to each channel in turn its NewExtendedMiningJob and then its SetNewPrevHash; nothing
  -- else changes.
  pub send_jobs_to_all_channels_lem :
      (w : World F64)
      → Distinct (keys w.state.channels)
      → Built lib template job_id m w.state.channels
      → w.writes ≡ []
      → send_jobs_to_all_channels lib template job_id w
        ≡ ok tt
            (delivered w (with_jobs m w.state.channels) (w.sent ++ job_messages m w.state.channels))
  unfolding send_jobs_to_all_channels keys
  send_jobs_to_all_channels_lem w d b e =
      let same : delivered w w.state.channels w.sent ≡ w =
        ap (λ o. record w { writes = o }) (sym e) in
      ap (send_jobs lib template job_id (keys w.state.channels)) (sym same)
      ∙ send_jobs-behind w w.state.channels [] w.sent d b
