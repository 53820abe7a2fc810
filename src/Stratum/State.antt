-- ===== src/Stratum/State.antt =====
-- The state of one connection of pool/src/stratum_sv2.rs, and the actions that its handlers are made of.
pub mod Channels
pub mod Steps
pub mod Keeps
pub mod Invariant
use mining_pool.Base.{
  ℕ, zero, suc, ◌+◌, ◌-◌, ◌*◌, ◌/◌, ◌%◌, ◌^◌, ◌≤◌, ◌<◌, min, ◌≡◌, ◌≢◌, ◌↔◌, ◌⊎◌, inl, inr, refl, ap,
  sym, ◌∙◌, Bool, true, false, not, ◌&&◌, ◌||◌, Option, none, some, List, [], ◌∷◌, ◌++◌, map,
  append-nil, append_assoc, reverse, arith, ltb, leb, ◌==◌, if◌then◌else◌, ltb→lt, lt→ltb, ==_iff,
  ==_self, Bool-cases, Option-cases, length, take, drop, replicate, set, All, All-append,
  All-replicate, All-reverse, length-append, take-append-drop, take-append, drop-append,
  length-take, length-drop, length-replicate, length-reverse, list_eq, list_eq→eq, list_eq_self,
  Outcomes, answer, later,
}
use mining_pool.Bitcoin.{Bytes}
use mining_pool.NodeIpc.Template.{SubmitSolutionData}
use mining_pool.Db.Event.{DbEvent}
use mining_pool.Stratum.Protocol.{Message}

pub record JobInfo : Type 0 where
  pub job_id : ℕ
  pub template_id : ℕ
  pub coinb1 : Bytes
  pub coinb2 : Bytes
  pub merkle_path : List Bytes
  pub prev_hash : Bytes
  pub nbits : ℕ
  pub ntime : ℕ
  pub version : ℕ

pub record ChannelInfo : Type 0 where
  pub channel_id : ℕ
  pub extranonce_prefix : Bytes
  pub miner_address : Bytes
  pub current_job : Option JobInfo
  pub channel_target_be : Bytes

-- The hash map of channels, as a list of its entries in the order in which `keys()` lists them.
abbrev pub Channels : Type 0
Channels = List (ℕ × ChannelInfo)

pub record ConnectionState : Type 0 where
  pub next_channel_id : ℕ
  pub next_job_id : ℕ
  pub channels : Channels
  pub pool_address : Bytes

unfoldable pub new : Bytes → ConnectionState
new pool_address = record {
  next_channel_id = 0;
  next_job_id = 1;
  channels = [];
  pool_address = pool_address;
}

unfoldable pub get : ℕ → Channels → Option ChannelInfo
get id [] = none
get id ((k, c) ∷ m) = if k == id then some c else get id m

unfoldable pub insert : ℕ → ChannelInfo → Channels → Channels
insert id c [] = (id, c) ∷ []
insert id c ((k, d) ∷ m) = if k == id then (id, c) ∷ m else (k, d) ∷ insert id c m

unfoldable pub keys : Channels → List ℕ
keys [] = []
keys ((k, c) ∷ m) = k ∷ keys m

-- `channels.get_mut(&id).unwrap().current_job = Some(job_info)`.
unfoldable pub set_current_job : ℕ → JobInfo → Channels → Channels
set_current_job id job [] = []
set_current_job id job ((k, c) ∷ m) =
    if k == id
    then (k, record c { current_job = some job }) ∷ m
    else (k, c) ∷ set_current_job id job m

pub data Error : Type 0 where
  handshake_frame missing_header parse_error bad_message_type bad_protocol bad_version : Error
  target_error prev_hash_error address_error prefix_error suffix_error path_error : Error
  write_error panicked : Error

-- A message with the flag `is_channel_msg` of `write_sv2_message`.
pub record Sent : Type 0 where
  pub message : Message
  pub is_channel_msg : Bool

-- Everything that a handler can change: the connection's state, what was written, how the next writes
-- end, and what was handed to `solution_tx` and `db_tx`.
pub record World (F64 : Type 0) : Type 0 where
  pub state : ConnectionState
  pub sent : List Sent
  pub writes : Outcomes
  pub solutions : List SubmitSolutionData
  pub has_db : Bool
  pub events : List (DbEvent F64)

-- An action ends with a value or an error; either way it leaves a world.
pub data Outcome (F64 A : Type 0) : Type 0 where
  ok : A → World F64 → Outcome F64 A
  err : Error → World F64 → Outcome F64 A

abbrev pub Action : Type 0 → Type 0 → Type 0
Action F64 A = World F64 → Outcome F64 A

abbrev pub after : {F64 A : Type 0} → Outcome F64 A → World F64
after (ok a w) = w
after (err e w) = w

-- The result of a computation that changes nothing.
pub data Checked (A : Type 0) : Type 0 where
  done : A → Checked A
  fail : Error → Checked A

module _ {F64 : Type 0} where
  infixl 5 ◌>>=◌ ◌>>◌
  abbrev pub ◌>>=◌ : {A B : Type 0} → Action F64 A → (A → Action F64 B) → Action F64 B
  ◌>>=◌ m f w = elim (m w) [ ok a w' ↦ f a w' | err e w' ↦ err e w' ]

  abbrev pub ◌>>◌ : {B : Type 0} → Action F64 (Unit {0}) → Action F64 B → Action F64 B
  m >> k = m >>= λ _. k

  abbrev pub return : {A : Type 0} → A → Action F64 A
  return a w = ok a w

  abbrev pub bail : {A : Type 0} → Error → Action F64 A
  bail e w = err e w

  abbrev pub check : {A : Type 0} → Checked A → Action F64 A
  check (done a) w = ok a w
  check (fail e) w = err e w

  abbrev pub state_of : Action F64 ConnectionState
  state_of w = ok w.state w

  abbrev pub put_state : ConnectionState → Action F64 (Unit {0})
  put_state s w = ok tt (record w { state = s })

  -- `writer.write_sv2_message`: serialization, encryption and the socket succeed or fail together.
  unfoldable pub write : Message → Bool → Action F64 (Unit {0})
  write message is_channel_msg w =
      if answer w.writes
      then ok tt (record w {
        sent = w.sent ++ (record { message = message; is_channel_msg = is_channel_msg } ∷ []);
        writes = later w.writes;
      })
      else err write_error (record w { writes = later w.writes })

  abbrev pub send_solution : SubmitSolutionData → Action F64 (Unit {0})
  send_solution s w = ok tt (record w { solutions = w.solutions ++ (s ∷ []) })

  -- `if let Some(tx) = db_tx { let _ = tx.send(..); }`.
  abbrev pub send_event : DbEvent F64 → Action F64 (Unit {0})
  send_event e w = ok tt (if w.has_db then record w { events = w.events ++ (e ∷ []) } else w)

  -- `u32` wraps.
  unfoldable pub alloc_channel_id : Action F64 ℕ
  alloc_channel_id w = ok w.state.next_channel_id (record w {
    state = record (w.state) { next_channel_id = (w.state.next_channel_id + 1) % 2 ^ 32 };
  })

  unfoldable pub alloc_job_id : Action F64 ℕ
  alloc_job_id w =
      ok w.state.next_job_id
        (record w { state = record (w.state) { next_job_id = (w.state.next_job_id + 1) % 2 ^ 32 } })
