-- ===== src/Pool.antt =====
-- The running pool: the connections of `Sv2Server::run` (pool/src/stratum_sv2.rs), the IPC thread of pool/src/node_ipc.rs
-- and the database worker of pool/src/db.rs, with the channels between them, as pool/src/main.rs puts them together.
-- A step is what one of them does between two points at which it waits; steps come in any order.
pub mod Keeps
pub mod Safe
pub mod Delivers
use mining_pool.Base.{
  ℕ, ◌<◌, ◌≡◌, Bool, true, false, List, [], ◌∷◌, ◌++◌, ◌==◌, if◌then◌else◌, length, Outcomes,
}
use mining_pool.Base.Int.{ℤ}
use mining_pool.Bitcoin.{Bytes, BitcoinLib, Floats}
use mining_pool.NodeIpc.Template.{RawTemplate, SubmitSolutionData}
use mining_pool.NodeIpc.Build.{NodeLib, BlockClient, ready, fetch_template}
use mining_pool.NodeIpc.Loop.{
  IpcEvent, no_thread, wait_failed, wait_timed_out, next_block, solution, Submission, Session,
  Progress, running, left, gone, close, first_session, session_of, is_wait,
}
use mining_pool.Db.Event.{DbEvent}
use mining_pool.Db.Tables.{Tables}
use mining_pool.Db.Worker.{Worker, Turn, no_batches, receive, ends, flush_if_due}
use mining_pool.Db.Worker.Shares.{events_of_turn}
use mining_pool.Stratum.Protocol.{EitherFrame, Codec}
use mining_pool.Stratum.State.{World, Outcome, ok, err, new}
use mining_pool.Stratum.Setup.{handle_setup_connection}
use mining_pool.Stratum.Connection.{Event, frame, closed, template_changed}

-- A connection is not accepted yet, waits for its first frame, serves its miner, or is over.
pub data Phase : Type 0 where
  waiting greeting serving over : Phase

-- `seen` is how many of the published templates the connection's `template_rx` has seen.
pub record Slot (F64 : Type 0) : Type 0 where
  pub phase : Phase
  pub seen : ℕ
  pub world : World F64

-- The queues hold what was sent through `solution_tx` and `db_tx` and was not received yet.
pub record Pool (F64 : Type 0) : Type 0 where
  pub connections : ℕ → Slot F64
  pub ipc : Progress
  pub solutions : List SubmitSolutionData
  pub events : List (DbEvent F64)
  pub worker : Worker F64
  pub last_flush : ℕ

abbrev pub update : {A : Type 0} → (ℕ → A) → ℕ → A → ℕ → A
update f i a j = if j == i then a else f j

-- What wakes a connection: a frame at a time, the end of the stream, or a changed template.
pub data Wake : Type 0 where
  received : EitherFrame → ℤ → Wake
  hung_up changed : Wake

-- Both branches that need a template read the last one that was sent.
abbrev pub event_of : RawTemplate → Wake → Event
event_of template (received f now) = frame f template now
event_of template hung_up = closed
event_of template changed = template_changed template

-- Whether the branch of the `select!` can be ready, by the number of published templates.
abbrev pub IsAwake : {F64 : Type 0} → ℕ → Slot F64 → Wake → Type 0
IsAwake published slot (received f now) = Unit
IsAwake published slot hung_up = Unit
IsAwake published slot changed = slot.seen < published

abbrev pub seen_after : {F64 : Type 0} → ℕ → Slot F64 → Wake → ℕ
seen_after published slot (received f now) = slot.seen
seen_after published slot hung_up = slot.seen
seen_after published slot changed = published

module _ {F64 : Type 0} where
  -- What a connection handed over goes to the queues.
  unfoldable pub hand_over : ℕ → Slot F64 → Pool F64 → Pool F64
  hand_over i slot p = record p {
    connections =
        update p.connections i
          (record slot { world = record (slot.world) { solutions = []; events = [] } });
    solutions = p.solutions ++ slot.world.solutions;
    events = p.events ++ slot.world.events;
  }

  -- The end of a turn that leaves the loop or goes on.
  abbrev pub settle : ℕ → Outcome F64 Bool → Slot F64
  settle seen (ok true w) = record { phase = serving; seen = seen; world = w }
  settle seen (ok false w) = record { phase = over; seen = seen; world = w }
  settle seen (err e w) = record { phase = over; seen = seen; world = w }

  -- The end of the setup; the state is created behind it.
  abbrev pub greeted : Bytes → ℕ → Outcome F64 (Unit {0}) → Slot F64
  greeted pool_address seen (ok a w) = record {
    phase = serving;
    seen = seen;
    world = record w { state = new pool_address };
  }
  greeted pool_address seen (err e w) = record { phase = over; seen = seen; world = w }

  -- A connection that was just accepted. Its receiver is a clone of the server's, which has seen the first template.
  unfoldable pub accepted_slot : Bytes → Outcomes → Slot F64
  accepted_slot pool_address writes = record {
    phase = greeting;
    seen = 1;
    world = record {
      state = new pool_address;
      sent = [];
      writes = writes;
      solutions = [];
      has_db = true;
      events = [];
    };
  }

module _ {F32 F64 : Type 0} (lib : BitcoinLib) (fl : Floats F32 F64) (codec : Codec F32)
    (node : NodeLib) (pool_address : Bytes) where
  -- The pool behind `main`: the worker is started, and the first template is there.
  unfoldable pub started : Tables F64 → Outcomes → ℕ → BlockClient → RawTemplate → Pool F64
  started tables answers now block raw = record {
    connections = λ i. record (accepted_slot pool_address []) { phase = waiting };
    ipc = running (first_session lib node block raw);
    solutions = [];
    events = [];
    worker = record { batches = no_batches; tables = tables; answers = answers };
    last_flush = now;
  }

  pub data Step (p : Pool F64) : Pool F64 → Type 0 where
    accept :
        (i : ℕ) (writes : Outcomes)
        → (p.connections i).phase ≡ waiting
        → Step p
            (record p { connections = update p.connections i (accepted_slot pool_address writes) })
    greet :
        (i : ℕ) (first : EitherFrame)
        → (p.connections i).phase ≡ greeting
        → Step p (
            hand_over i
              (greeted pool_address
                (p.connections i).seen
                (handle_setup_connection codec first (p.connections i).world))
              p)
    serve :
        (i : ℕ) (wake : Wake) (earlier : List RawTemplate) (template : RawTemplate)
        → (p.connections i).phase ≡ serving
        → (session_of p.ipc).published ≡ earlier ++ (template ∷ [])
        → IsAwake (length (session_of p.ipc).published) (p.connections i) wake
        → Step p (
            hand_over i
              (settle (seen_after (length (session_of p.ipc).published) (p.connections i) wake) (
                mining_pool.Stratum.Connection.turn lib fl codec
                  (event_of template wake)
                  (p.connections i).world))
              p)
    wait :
        (s : Session) (e : IpcEvent)
        → p.ipc ≡ running s
        → is_wait e ≡ true
        → Step p (record p { ipc = close lib node (mining_pool.NodeIpc.Loop.turn lib node e s) })
    submit :
        (s : Session) (sol : SubmitSolutionData) (rest : List SubmitSolutionData)
        (answer : Submission)
        → p.ipc ≡ running s
        → p.solutions ≡ sol ∷ rest
        → Step p (record p {
          ipc = close lib node (mining_pool.NodeIpc.Loop.turn lib node (solution sol answer) s);
          solutions = rest;
        })
    work :
        (t : Turn F64) (rest : List (DbEvent F64))
        → p.events ≡ events_of_turn fl t ++ rest
        → ends fl t ≡ false
        → Step p (record p {
          events = rest;
          worker = (flush_if_due fl t p.last_flush (receive fl t p.worker)).0;
          last_flush = (flush_if_due fl t p.last_flush (receive fl t p.worker)).1;
        })

  -- The states that the pool can reach, from a database that may hold rows already.
  pub data Reach (tables : Tables F64) : Pool F64 → Type 0 where
    start :
        (answers : Outcomes) (now : ℕ) (block : BlockClient) (raw : RawTemplate)
        → fetch_template lib node block 0 ≡ ready raw
        → Reach tables (started tables answers now block raw)
    next : (p q : Pool F64) → Reach tables p → Step p q → Reach tables q
