-- ===== src/NodeIpc/Loop/Blocks.antt =====
-- What `ipc_main` of pool/src/node_ipc.rs does with the node's blocks and with the solutions that it takes.
use mining_pool.Base.{
  ℕ, ◌≡◌, refl, sym, inl, inr, true, false, some, List, [], ◌∷◌, ◌++◌, map, arith, append_assoc,
  append-nil, Bool-cases, if◌then◌else◌,
}
use mathlib.Core.Path.{subst}
use mining_pool.NodeIpc.Loop.Serves.{ipc_main-some}
use mathlib.Core.List.{map-append}
use mining_pool.Bitcoin.{BitcoinLib}
use mining_pool.NodeIpc.Template.{SubmitSolutionData}
use mining_pool.NodeIpc.Build.{NodeLib, BlockClient, Result-cases, fetch_template}
use mining_pool.NodeIpc.Loop.{
  is_sent, Submission, IpcEvent, Session, Progress, running, left, gone, no_thread, wait_failed,
  wait_timed_out, next_block, solution, turn, run_loop, publish, destroy_block_client,
  submit_solution, first_session, close, ipc_main,
}

-- The handles of the blocks that come, and the solutions whose request is sent.
abbrev pub received : List IpcEvent → List ℕ
received [] = []
received (no_thread ∷ events) = received events
received (wait_failed ∷ events) = received events
received (wait_timed_out ∷ events) = received events
received (next_block block listening ∷ events) = block.handle ∷ received events
received (solution sol answer ∷ events) = received events

abbrev pub solutions : List IpcEvent → List SubmitSolutionData
solutions [] = []
solutions (no_thread ∷ events) = solutions events
solutions (wait_failed ∷ events) = solutions events
solutions (wait_timed_out ∷ events) = solutions events
solutions (next_block block listening ∷ events) = solutions events
solutions (solution sol answer ∷ events) =
    if is_sent answer then sol ∷ solutions events else solutions events

-- The blocks of a session: those destroyed and the current one. The solutions that it submitted.
abbrev pub blocks_of : Session → List ℕ
blocks_of s = s.destroyed ++ (s.block.handle ∷ [])

abbrev pub solutions_of : Session → List SubmitSolutionData
solutions_of s = map (λ p. p.1) s.submitted

-- An account of all blocks and all solutions, in order, where the loop has stopped of a first part of them.
abbrev pub Accounted : Progress → List ℕ → List SubmitSolutionData → Type 0
Accounted (running s) blocks sols = (blocks_of s ≡ blocks) × (solutions_of s ≡ sols)
Accounted (left s) blocks sols =
    ((earlier : List ℕ) × (later : List ℕ) × (s.destroyed ≡ earlier ++ (s.block.handle ∷ []))
      × (s.destroyed ++ later ≡ blocks))
    × ((later : List SubmitSolutionData) × (solutions_of s ++ later ≡ sols))
Accounted (gone e s) blocks sols =
    ((later : List ℕ) × (blocks_of s ++ later ≡ blocks))
    × ((later : List SubmitSolutionData) × (solutions_of s ++ later ≡ sols))

submitted-solutions :
    (sol : SubmitSolutionData) (answer : Submission) (s : Session) (later : List SubmitSolutionData)
    → solutions_of (submit_solution sol answer s) ++ later
      ≡ solutions_of s ++ (if is_sent answer then sol ∷ later else later)
unfolding submit_solution
submitted-solutions sol answer s later = elim (Bool-cases (is_sent answer)) [
  | inl sent ↦
      rw (sent, map-append (λ p. p.1) s.submitted ((s.block.handle, sol) ∷ []))
        (append_assoc (solutions_of s) (sol ∷ []) later)
  | inr unsent ↦ rw unsent refl
]

module _ (lib : BitcoinLib) (node : NodeLib) where
  run_loop-Accounted :
      (events : List IpcEvent) (s : Session)
      → Accounted
          (close lib node (run_loop lib node events s))
          (blocks_of s ++ received events)
          (solutions_of s ++ solutions events)
  unfolding run_loop turn publish submit_solution destroy_block_client
  run_loop-Accounted [] s = (sym (append-nil (blocks_of s)), sym (append-nil (solutions_of s)))
  run_loop-Accounted (no_thread ∷ events) s = ((received events, refl), (solutions events, refl))
  run_loop-Accounted (wait_failed ∷ events) s = ((received events, refl), (solutions events, refl))
  run_loop-Accounted (wait_timed_out ∷ events) s = run_loop-Accounted events s
  run_loop-Accounted (solution sol answer ∷ events) s =
      subst
        (Accounted (close lib node (run_loop lib node events (submit_solution sol answer s)))
          (blocks_of s ++ received events))
        (submitted-solutions sol answer s (solutions events))
        (run_loop-Accounted events (submit_solution sol answer s))
  run_loop-Accounted (next_block block true ∷ events) s =
      elim (Result-cases (fetch_template lib node block s.template_id)) [
        | inl (e, h) ↦
            rw (h, run_loop, publish, close)
              (
                (received events, append_assoc (blocks_of s) (block.handle ∷ []) (received events)),
                (solutions events, refl),
              )
        | inr (raw, h) ↦
            rw
              (
                h,
                run_loop,
                publish,
                ← append_assoc (blocks_of s) (block.handle ∷ []) (received events),
              )
              (run_loop-Accounted events _)
      ]
  run_loop-Accounted (next_block block false ∷ events) s =
      elim (Result-cases (fetch_template lib node block s.template_id)) [
        | inl (e, h) ↦
            rw (h, run_loop, publish, close)
              (
                (received events, append_assoc (blocks_of s) (block.handle ∷ []) (received events)),
                (solutions events, refl),
              )
        | inr (raw, h) ↦
            rw (h, run_loop, publish, close)
              (
                (
                  blocks_of s,
                  received events,
                  refl,
                  append_assoc (blocks_of s) (block.handle ∷ []) (received events),
                ),
                (solutions events, refl),
              )
      ]

  -- From the first block on, whatever fails: the blocks that were destroyed and the current one are, each once
  -- and in order, the first block and those that came, and the solutions that were submitted are those that
  -- were taken and whose request was sent, in order. Where the loop was left, the current block is the last that
  -- was destroyed; where an error ended it, it is not destroyed. An end leaves out what was to come later.
  pub ipc_main-Accounted :
      (block : BlockClient) (events : List IpcEvent) (p : Progress)
      → ipc_main lib node (some block) events ≡ some p
      → Accounted p (block.handle ∷ received events) (solutions events)
  unfolding ipc_main
  ipc_main-Accounted block events p h = elim (Result-cases (fetch_template lib node block 0)) [
    | inl (e, first) ↦ absurd (ground arith)
    | inr (raw, first) ↦
        subst (λ q. Accounted q (block.handle ∷ received events) (solutions events))
          (ipc_main-some lib node block raw events p first h)
          (run_loop-Accounted events (first_session lib node block raw))
  ]
