-- ===== src/NodeIpc/Loop.antt =====
-- `ipc_main` of pool/src/node_ipc.rs: the connection to the node, as a run over what its `select!` sees.
pub mod Serves
pub mod Blocks
pub mod Waits
use mining_pool.Base.{
  ℕ, ◌+◌, ◌%◌, ◌^◌, Bool, true, false, Option, none, some, List, [], ◌∷◌, ◌++◌, if◌then◌else◌,
}
use mining_pool.Bitcoin.{BitcoinLib}
use mining_pool.NodeIpc.Template.{RawTemplate, SubmitSolutionData}
use mining_pool.NodeIpc.Build.{
  NodeLib, BlockClient, IpcError, Result, ready, failed, rpc_failed, fetch_template,
}

-- How a call of `submit_solution` ends; all but `accepted` are errors, which are logged. The context of the
-- request cannot be set, so that it is not sent, or it is sent and the answer is an error or does not come.
pub data Submission : Type 0 where
  accepted rejected call_failed not_sent : Submission

-- What one turn of the loop sees: no thread for the wait, or the branch of `select!` that was ready. A
-- new block comes with whether anything still listens to templates.
pub data IpcEvent : Type 0 where
  no_thread wait_failed wait_timed_out : IpcEvent
  next_block : BlockClient → Bool → IpcEvent
  solution : SubmitSolutionData → Submission → IpcEvent

-- The variables of `ipc_main`, the templates that were sent, the handles of the blocks that were passed to
-- `destroy_block_client`, and the solutions with the handles of the blocks on which they were submitted.
pub record Session : Type 0 where
  pub block : BlockClient
  pub template_id : ℕ
  pub published : List RawTemplate
  pub destroyed : List ℕ
  pub submitted : List (ℕ × SubmitSolutionData)

-- The loop goes on, was left by `break`, or an error left the function.
pub data Progress : Type 0 where
  running : Session → Progress
  left : Session → Progress
  gone : IpcError → Session → Progress

abbrev pub session_of : Progress → Session
session_of (running s) = s
session_of (left s) = s
session_of (gone e s) = s

-- The wait for the node, beside the queue of solutions. The server keeps its own receiver of templates for good,
-- so that something always listens.
abbrev pub is_wait : IpcEvent → Bool
is_wait no_thread = true
is_wait wait_failed = true
is_wait wait_timed_out = true
is_wait (next_block block listening) = listening
is_wait (solution sol answer) = false

unfoldable pub destroy_block_client : Session → Session
destroy_block_client s = record s { destroyed = s.destroyed ++ (s.block.handle ∷ []) }

abbrev pub is_sent : Submission → Bool
is_sent accepted = true
is_sent rejected = true
is_sent call_failed = true
is_sent not_sent = false

-- `submit_solution` with the error logged.
unfoldable pub submit_solution : SubmitSolutionData → Submission → Session → Session
submit_solution sol answer s = record s {
  submitted = if is_sent answer then s.submitted ++ ((s.block.handle, sol) ∷ []) else s.submitted;
}

abbrev pub next_id : ℕ → ℕ
next_id n = (n + 1) % 2 ^ 64

module _ (lib : BitcoinLib) (node : NodeLib) where
  -- A new block's template is sent if something listens.
  publish : Result RawTemplate → Bool → Session → Progress
  publish (failed e) listening s = gone e s
  publish (ready raw) listening s =
      let numbered : Session = record s { template_id = next_id s.template_id } in
      if listening
      then running (record numbered { published = s.published ++ (raw ∷ []) })
      else left numbered

  unfoldable pub turn : IpcEvent → Session → Progress
  unfolding publish destroy_block_client submit_solution
  turn no_thread s = gone rpc_failed s
  turn wait_failed s = gone rpc_failed s
  turn wait_timed_out s = running s
  turn (next_block block listening) s =
      let replaced : Session = record (destroy_block_client s) { block = block } in
      publish (fetch_template lib node block s.template_id) listening replaced
  turn (solution sol answer) s = running (submit_solution sol answer s)

  unfoldable pub run_loop : List IpcEvent → Session → Progress
  unfolding turn
  run_loop [] s = running s
  run_loop (e ∷ events) s = elim (turn e s) [
    | running s' ↦ run_loop events s'
    | left s' ↦ left s'
    | gone e s' ↦ gone e s'
  ]

  abbrev pub close : Progress → Progress
  close (running s) = running s
  close (left s) = left (destroy_block_client s)
  close (gone e s) = gone e s

  -- The session with the first template; `none` if connecting failed before there was a block.
  abbrev pub first_session : BlockClient → RawTemplate → Session
  first_session block raw = record {
    block = block;
    template_id = 1;
    published = raw ∷ [];
    destroyed = [];
    submitted = [];
  }

  -- `ipc_main` with the block of `new_block_client`, or `none` if a call before failed. An error in front
  -- of the first template leaves no session behind.
  unfoldable pub ipc_main : Option BlockClient → List IpcEvent → Option Progress
  unfolding run_loop destroy_block_client
  ipc_main none events = none
  ipc_main (some block) events = elim (fetch_template lib node block 0) [
    | failed e ↦ none
    | ready raw ↦ some (close (run_loop events (first_session block raw)))
  ]
