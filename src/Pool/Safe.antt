-- ===== src/Pool/Safe.antt =====
-- What the running pool (pool/src/main.rs) submits to the node and stores in the database, in every reachable state.
use mining_pool.Base.{
  ℕ, ◌≡◌, refl, sym, ap, ◌∙◌, Bool, true, false, if◌then◌else◌, List, [], ◌∷◌, ◌++◌, All,
  All-append, append-nil, append_assoc, length,
}
use mathlib.Core.Path.{subst}
use mining_pool.Bitcoin.{Bytes, BitcoinLib, Floats, IsHex}
use mining_pool.NodeIpc.Build.{NodeLib}
use mining_pool.NodeIpc.Loop.Waits.{wait_grows}
use mining_pool.NodeIpc.Loop.{is_sent, session_of, submit_solution, turn}
use mining_pool.Db.Event.{ShareEvent}
use mining_pool.Db.Tables.{Tables}
use mining_pool.Db.Worker.Shares.{kept}
use mining_pool.Stratum.Protocol.{Codec}
use mining_pool.Stratum.State.{ConnectionState, new}
use mining_pool.Stratum.Fair.{IsBlock, IsShare, Fair-IsCalm}
use mining_pool.Stratum.Setup.{handle_setup_connection}
use mining_pool.Stratum.Setup.Calm.{handle_setup_connection-Keeps}
use mining_pool.Stratum.Submit.Verdict.{IsHash}
use mining_pool.Stratum.Connection.Solutions.{Among, All-Among, turn-Leads}
use mining_pool.Stratum.Connection.{Event}
use mining_pool.Pool.{
  Pool, seen_after, event_of, accepted_slot, started, Step, accept, greet, serve, wait, submit,
  work, Reach, start, next,
}
use mining_pool.Pool.Keeps.{
  Published, IsSafe, IsSafe-mono, connections-IsSafe, hand_over-IsSafe, settle-Fair, greeted-Fair,
  event_of-Brings, work-IsSafe, ipc-IsSafe,
}

module _ {F32 F64 : Type 0} (lib : BitcoinLib) (fl : Floats F32 F64) (codec : Codec F32)
    (node : NodeLib) (pool_address : Bytes) (hex : IsHex lib) (hashes : IsHash lib)
    (tables : Tables F64) where
  -- What a step has a connection meet: its number, its state and the event.
  pub met_by :
      {p q : Pool F64}
      → Step lib fl codec node pool_address p q
      → List (ℕ × ConnectionState × Event)
  met_by (accept i writes idle) = []
  met_by (greet i first greeting) = []
  met_by {p = p} (serve i wake earlier template serving last awake) =
      (i, (p.connections i).world.state, event_of template wake) ∷ []
  met_by (wait s e on waits) = []
  met_by (submit s sol rest answer on queue) = []
  met_by (work t rest taken going) = []

  -- All that the connections met on the way to a state, in order.
  pub history :
      {p : Pool F64}
      → Reach lib fl codec node pool_address tables p
      → List (ℕ × ConnectionState × Event)
  history (start answers now block raw first) = []
  history (next p q before step) = history before ++ met_by step

  -- What each connection met.
  abbrev pub MetIn : List (ℕ × ConnectionState × Event) → ℕ → ConnectionState → Event → Type 0
  MetIn met i st e = Among met (i, st, e)

  MetIn-append :
      (met more : List (ℕ × ConnectionState × Event)) (i : ℕ) (st : ConnectionState) (e : Event)
      → MetIn met i st e
      → MetIn (met ++ more) i st e
  MetIn-append met more i st e (earlier, later, same) = (
    earlier,
    later ++ more,
    ap (λ l. l ++ more) same ∙ append_assoc earlier ((i, st, e) ∷ later) more,
  )

  submitted_more :
      {A : Type 0} (P : A → Type 0) (b : Bool) (xs : List A) (x : A)
      → All P xs
      → P x
      → All P (if b then xs ++ (x ∷ []) else xs)
  submitted_more P true xs x vs v = All-append P xs (x ∷ []) vs (v, tt)
  submitted_more P false xs x vs v = vs

  module _ (Met : ℕ → ConnectionState → Event → Type 0) where
    Step-IsSafe :
        (p q : Pool F64) (step : Step lib fl codec node pool_address p q)
        → All (λ m. Met m.0 m.1 m.2) (met_by step)
        → IsSafe lib fl codec Met tables p
        → IsSafe lib fl codec Met tables q
    unfolding turn submit_solution accepted_slot new met_by
    Step-IsSafe p q (accept i writes idle) met v =
        connections-IsSafe lib fl codec Met tables p i _ v (tt, tt, tt)
    Step-IsSafe p q (greet i first greeting) met v =
        let w = (p.connections i).world in
        hand_over-IsSafe lib fl codec Met tables p i _ v (
          greeted-Fair lib fl codec (Published (session_of p.ipc)) (Met i) pool_address
            (p.connections i).seen (handle_setup_connection codec first w)
            ((handle_setup_connection-Keeps codec (Fair-IsCalm lib fl codec _ (Met i)) first).led w
              (v.slots i)))
    Step-IsSafe p q (serve i wake earlier template serving last awake) met v =
        let w = (p.connections i).world in
        let e = event_of template wake in
        let sent = Published (session_of p.ipc) in
        hand_over-IsSafe lib fl codec Met tables p i _ v (
          settle-Fair lib fl codec sent (Met i)
            (seen_after (length (session_of p.ipc).published) (p.connections i) wake)
            (mining_pool.Stratum.Connection.turn lib fl codec e w)
            ((turn-Leads lib fl codec hex hashes sent (Met i) e
                (event_of-Brings lib fl codec sent (Met i) template wake (earlier, [], last))).led
              w (met.0, v.slots i)))
    Step-IsSafe p q (wait s e on waits) met v =
        let (more, published, submitted) = wait_grows lib node e s waits in
        let same : session_of p.ipc ≡ s = rw on refl in
        ipc-IsSafe lib fl codec Met tables p _ p.solutions more
          (published ∙ ap (λ x. x.published ++ more) (sym same)) v.solutions
          (subst (All (λ x. IsBlock lib (Published (session_of p.ipc)) x.1))
            (ap (λ x. x.submitted) same ∙ sym submitted) v.submitted)
          v
    Step-IsSafe p q (submit s sol rest answer on queue) met v =
        let same : session_of p.ipc ≡ s = rw on refl in
        let all = subst (All (IsBlock lib (Published (session_of p.ipc)))) queue v.solutions in
        ipc-IsSafe lib fl codec Met tables p _ rest []
          (ap (λ x. x.published) (sym same) ∙ sym (append-nil _)) all.1
          (submitted_more (λ x. IsBlock lib (Published (session_of p.ipc)) x.1) (is_sent answer)
            s.submitted _
            (subst (λ x. All (λ y. IsBlock lib (Published (session_of p.ipc)) y.1) x.submitted) same
              v.submitted)
            all.0)
          v
    Step-IsSafe p q (work t rest taken going) met v =
        work-IsSafe lib fl codec Met tables p t rest taken v

  Reach-IsSafe :
      (p : Pool F64) (reached : Reach lib fl codec node pool_address tables p)
      → IsSafe lib fl codec (MetIn (history reached)) tables p
  unfolding started accepted_slot new history
  Reach-IsSafe p (start answers now block raw first) = record {
    slots = λ i. (tt, tt, tt);
    solutions = tt;
    submitted = tt;
    events = tt;
    stored = ([], refl, tt);
  }
  Reach-IsSafe q (next p q' before step) =
      let whole = MetIn (history before ++ met_by step) in
      Step-IsSafe whole p q step (All-Among (history before) (met_by step)) (
        IsSafe-mono lib fl codec (MetIn (history before)) whole tables p
          (MetIn-append (history before) (met_by step)) (Reach-IsSafe p before))

  -- However the steps of the connections, the node's thread and the database worker interleave, and whatever fails:
  -- every solution that was submitted to the node is made of a share for a job that was built from a template that
  -- the pool had sent, for a channel with its own prefix, and the header that the share's coinbase gives has a hash at
  -- most the job's network target as a number.
  pub submitted_blocks :
      (p : Pool F64)
      → Reach lib fl codec node pool_address tables p
      → All (λ e. IsBlock lib (Published (session_of p.ipc)) e.1) (session_of p.ipc).submitted
  submitted_blocks p reached = (Reach-IsSafe p reached).submitted

  -- However the steps of the connections, the node's thread and the database worker interleave, and whatever fails: the
  -- shares that are in the table or in the worker's batch are those that were in the table at the start and then
  -- accepted ones. An accepted share came in a request that a connection met on the way, in a state whose map
  -- holds, under the share's channel id, a channel that an open request opened that the same connection met. The share
  -- is for the channel's current job, built from a template that the pool had sent, its hash is at most the channel's
  -- target as a number, and it is stored under the channel's address, with that hash, its difficulty and its time.
  pub stored_shares :
      (p : Pool F64) (reached : Reach lib fl codec node pool_address tables p)
      → (added : List (ShareEvent F64)) × (kept fl p.worker ≡ tables.shares ++ added)
        × All
            (λ s.
              (i : ℕ) × IsShare lib fl codec
                (Published (session_of p.ipc))
                (λ st e. Among (history reached) (i, st, e))
                s)
            added
  stored_shares p reached = (Reach-IsSafe p reached).stored
