-- ===== src/Pool/Keeps.antt =====
-- The steps of the running pool (pool/src/main.rs) and what may be on its way in it.
use mining_pool.Base.{
  ℕ, ◌≡◌, sym, ==_iff, ap, ◌∙◌, inl, inr, Bool, true, false, List, [], ◌∷◌, ◌++◌, ◌==◌, Bool-cases,
  All, All-append, All_mono, append_assoc,
}
use mathlib.Core.Path.{subst}
use mining_pool.Bitcoin.{Bytes, BitcoinLib, Floats}
use mining_pool.NodeIpc.Template.{RawTemplate, SubmitSolutionData}
use mining_pool.NodeIpc.Loop.{Session, Progress, session_of}
use mining_pool.Db.Event.{ShareEvent, DbEvent, share, miner_connected}
use mining_pool.Db.Tables.{Tables}
use mining_pool.Db.Worker.{Turn, receive, flush_if_due}
use mining_pool.Db.Worker.Shares.{kept, shares_of, events_of_turn, receive-kept, flush_if_due-kept}
use mining_pool.Stratum.Protocol.{Codec}
use mining_pool.Stratum.Connection.{Event}
use mining_pool.Stratum.State.{ConnectionState, Outcome, ok, err, after, new}
use mining_pool.Stratum.Fair.{IsBlock, IsShare, IsCounted, Fair}
use mining_pool.Stratum.Fair.Mono.{IsBlock-mono, IsShare-mono, IsCounted-mono, Fair-mono}
use mining_pool.Stratum.Connection.Solutions.{Brings}
use mining_pool.Pool.{
  Slot, Pool, Wake, received, hung_up, changed, update, event_of, hand_over, settle, greeted,
}

-- The template was sent at some time.
abbrev pub Published : Session → RawTemplate → Type 0
Published s t =
    (earlier : List RawTemplate) × (later : List RawTemplate) × (s.published
      ≡ earlier ++ (t ∷ later))

pub Published_mono :
    (s s' : Session) (more : List RawTemplate)
    → s'.published ≡ s.published ++ more
    → (t : RawTemplate) → Published s t
    → Published s' t
Published_mono s s' more e t (earlier, later, h) =
    (earlier, later ++ more, e ∙ ap (λ l. l ++ more) h ∙ append_assoc earlier (t ∷ later) more)

module _ {F32 F64 : Type 0} (lib : BitcoinLib) (fl : Floats F32 F64) (codec : Codec F32) where
  -- A report of one of the connections, and a share of one.
  abbrev pub Counted :
      (RawTemplate → Type 0) → (ℕ → ConnectionState → Event → Type 0) → DbEvent F64 → Type 0
  Counted Seen Met e = (i : ℕ) × IsCounted lib fl codec Seen (Met i) e

  abbrev pub Shared :
      (RawTemplate → Type 0) → (ℕ → ConnectionState → Event → Type 0) → ShareEvent F64 → Type 0
  Shared Seen Met s = (i : ℕ) × IsShare lib fl codec Seen (Met i) s

  -- Wherever a share or a solution is on its way, it is worth what it says.
  pub record IsSafe (Met : ℕ → ConnectionState → Event → Type 0) (tables : Tables F64)
      (p : Pool F64) : Type 0 where
    pub slots :
        (i : ℕ) → Fair lib fl codec (Published (session_of p.ipc)) (Met i) (p.connections i).world
    pub solutions : All (IsBlock lib (Published (session_of p.ipc))) p.solutions
    pub submitted :
        All (λ e. IsBlock lib (Published (session_of p.ipc)) e.1) (session_of p.ipc).submitted
    pub events : All (Counted (Published (session_of p.ipc)) Met) p.events
    pub stored :
        (added : List (ShareEvent F64)) × (kept fl p.worker ≡ tables.shares ++ added)
        × All (Shared (Published (session_of p.ipc)) Met) added

  Counted_mono :
      (Seen Wider : RawTemplate → Type 0)
      → ((t : RawTemplate) → Seen t → Wider t)
      → (Met More : ℕ → ConnectionState → Event → Type 0)
      → ((i : ℕ) (st : ConnectionState) (e : Event) → Met i st e → More i st e)
      → (report : DbEvent F64) → Counted Seen Met report
      → Counted Wider More report
  Counted_mono Seen Wider wider Met More more report (i, v) =
      (i, IsCounted-mono lib Seen Wider wider fl codec (Met i) (More i) (more i) report v)

  Shared_mono :
      (Seen Wider : RawTemplate → Type 0)
      → ((t : RawTemplate) → Seen t → Wider t)
      → (Met More : ℕ → ConnectionState → Event → Type 0)
      → ((i : ℕ) (st : ConnectionState) (e : Event) → Met i st e → More i st e)
      → (s : ShareEvent F64) → Shared Seen Met s
      → Shared Wider More s
  Shared_mono Seen Wider wider Met More more s (i, v) =
      (i, IsShare-mono lib Seen Wider wider fl codec (Met i) (More i) (more i) s v)

  -- More was met.
  pub IsSafe-mono :
      (Met More : ℕ → ConnectionState → Event → Type 0) (tables : Tables F64) (p : Pool F64)
      → ((i : ℕ) (st : ConnectionState) (e : Event) → Met i st e → More i st e)
      → IsSafe Met tables p
      → IsSafe More tables p
  IsSafe-mono Met More tables p more v =
      let own = Published (session_of p.ipc) in
      let (added, same, shares) = v.stored in
      record {
        slots = λ i.
            Fair-mono lib own own (λ _ t. t) fl codec (Met i) (More i) (more i)
              (p.connections i).world (v.slots i);
        solutions = v.solutions;
        submitted = v.submitted;
        events = All_mono p.events (Counted_mono own own (λ _ t. t) Met More more) v.events;
        stored =
            (added, same, All_mono added (Shared_mono own own (λ _ t. t) Met More more) shares);
      }

  update_all :
      {A : Type 0} (P : ℕ → A → Type 0) (f : ℕ → A) (i : ℕ) (a : A)
      → ((j : ℕ) → P j (f j))
      → P i a
      → (j : ℕ) → P j (update f i a j)
  update_all P f i a hf ha j = elim (Bool-cases (j == i)) [
    | inl same ↦ rw same (subst (λ k. P k a) (sym ((==_iff j i).0 same)) ha)
    | inr other ↦ rw other (hf j)
  ]

  pub connections-IsSafe :
      (Met : ℕ → ConnectionState → Event → Type 0) (tables : Tables F64) (p : Pool F64) (i : ℕ)
      (slot : Slot F64)
      → IsSafe Met tables p
      → Fair lib fl codec (Published (session_of p.ipc)) (Met i) slot.world
      → IsSafe Met tables (record p { connections = update p.connections i slot })
  connections-IsSafe Met tables p i slot v h = record {
    slots =
        update_all (λ j s. Fair lib fl codec (Published (session_of p.ipc)) (Met j) s.world)
          p.connections i slot v.slots h;
    solutions = v.solutions;
    submitted = v.submitted;
    events = v.events;
    stored = v.stored;
  }

  pub hand_over-IsSafe :
      (Met : ℕ → ConnectionState → Event → Type 0) (tables : Tables F64) (p : Pool F64) (i : ℕ)
      (slot : Slot F64)
      → IsSafe Met tables p
      → Fair lib fl codec (Published (session_of p.ipc)) (Met i) slot.world
      → IsSafe Met tables (hand_over i slot p)
  unfolding hand_over
  hand_over-IsSafe Met tables p i slot v (channels, solutions, events) = record {
    slots =
        update_all (λ j s. Fair lib fl codec (Published (session_of p.ipc)) (Met j) s.world)
          p.connections i
          (record slot { world = record (slot.world) { solutions = []; events = [] } }) v.slots
          (channels, tt, tt);
    solutions = All-append _ p.solutions slot.world.solutions v.solutions solutions;
    submitted = v.submitted;
    events =
        All-append _ p.events slot.world.events v.events
          (All_mono slot.world.events (λ e c. (i, c)) events);
    stored = v.stored;
  }

  module _ (Seen : RawTemplate → Type 0) (Met : ConnectionState → Event → Type 0) where
    pub settle-Fair :
        (seen : ℕ) (o : Outcome F64 Bool)
        → Fair lib fl codec Seen Met (after o)
        → Fair lib fl codec Seen Met (settle seen o).world
    settle-Fair seen (ok true w) h = h
    settle-Fair seen (ok false w) h = h
    settle-Fair seen (err e w) h = h

    pub greeted-Fair :
        (pool_address : Bytes) (seen : ℕ) (o : Outcome F64 (Unit {0}))
        → Fair lib fl codec Seen Met (after o)
        → Fair lib fl codec Seen Met (greeted pool_address seen o).world
    unfolding new
    greeted-Fair pool_address seen (ok a w) h = (tt, h.1, h.2)
    greeted-Fair pool_address seen (err e w) h = h

    pub event_of-Brings :
        (template : RawTemplate) (wake : Wake)
        → Seen template
        → Brings Seen (event_of template wake)
    event_of-Brings template (received f now) seen = seen
    event_of-Brings template hung_up seen = tt
    event_of-Brings template changed seen = seen

  shares_of-Shared :
      (Seen : RawTemplate → Type 0) (Met : ℕ → ConnectionState → Event → Type 0)
      (events : List (DbEvent F64))
      → All (Counted Seen Met) events
      → All (Shared Seen Met) (shares_of fl events)
  shares_of-Shared Seen Met [] v = tt
  shares_of-Shared Seen Met (share s ∷ events) ((i, v), vs) =
      ((i, v), shares_of-Shared Seen Met events vs)
  shares_of-Shared Seen Met (miner_connected a t ∷ events) (v, vs) =
      shares_of-Shared Seen Met events vs

  All_split :
      {A : Type 0} (P : A → Type 0) (xs ys : List A) → All P (xs ++ ys) → All P xs × All P ys
  All_split P [] ys v = (tt, v)
  All_split P (x ∷ xs) ys (v, vs) = let (hx, hy) = All_split P xs ys vs in ((v, hx), hy)

  -- The worker takes the first events from the queue.
  pub work-IsSafe :
      (Met : ℕ → ConnectionState → Event → Type 0) (tables : Tables F64) (p : Pool F64)
      (t : Turn F64) (rest : List (DbEvent F64))
      → p.events ≡ events_of_turn fl t ++ rest
      → IsSafe Met tables p
      → IsSafe Met tables (record p {
        events = rest;
        worker = (flush_if_due fl t p.last_flush (receive fl t p.worker)).0;
        last_flush = (flush_if_due fl t p.last_flush (receive fl t p.worker)).1;
      })
  work-IsSafe Met tables p t rest e v =
      let (taken, left) =
        All_split (Counted (Published (session_of p.ipc)) Met) (events_of_turn fl t) rest
          (subst (All (Counted (Published (session_of p.ipc)) Met)) e v.events) in
      let (added, own, shares) = v.stored in
      record {
        slots = v.slots;
        solutions = v.solutions;
        submitted = v.submitted;
        events = left;
        stored = (
          added ++ shares_of fl (events_of_turn fl t),
          flush_if_due-kept fl t p.last_flush (receive fl t p.worker)
              ∙ receive-kept fl t p.worker
              ∙ ap (λ l. l ++ shares_of fl (events_of_turn fl t)) own
              ∙ append_assoc tables.shares added (shares_of fl (events_of_turn fl t)),
          All-append _ added _ shares
              (shares_of-Shared (Published (session_of p.ipc)) Met (events_of_turn fl t) taken),
        );
      }

  -- The thread of the node goes on: more templates may be there, and more was submitted.
  pub ipc-IsSafe :
      (Met : ℕ → ConnectionState → Event → Type 0) (tables : Tables F64) (p : Pool F64)
      (ipc : Progress) (rest : List SubmitSolutionData) (more : List RawTemplate)
      → (session_of ipc).published ≡ (session_of p.ipc).published ++ more
      → All (IsBlock lib (Published (session_of p.ipc))) rest
      → All (λ e. IsBlock lib (Published (session_of p.ipc)) e.1) (session_of ipc).submitted
      → IsSafe Met tables p
      → IsSafe Met tables (record p { ipc = ipc; solutions = rest })
  ipc-IsSafe Met tables p ipc rest more e queue submitted v =
      let wider = Published_mono (session_of p.ipc) (session_of ipc) more e in
      let own = Published (session_of p.ipc) in
      let wide = Published (session_of ipc) in
      let (added, same, shares) = v.stored in
      record {
        slots = λ i.
            Fair-mono lib own wide wider fl codec (Met i) (Met i) (λ _ _ m. m)
              (p.connections i).world (v.slots i);
        solutions = All_mono rest (IsBlock-mono lib own wide wider) queue;
        submitted =
            All_mono (session_of ipc).submitted (λ x. IsBlock-mono lib own wide wider x.1)
              submitted;
        events = All_mono p.events (Counted_mono own wide wider Met Met (λ _ _ _ m. m)) v.events;
        stored = (
          added,
          same,
          All_mono added (Shared_mono own wide wider Met Met (λ _ _ _ m. m)) shares,
        );
      }
