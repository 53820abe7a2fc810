-- ===== src/NodeIpc/Loop/Waits.antt =====
-- The wait of `ipc_main` of pool/src/node_ipc.rs for the node's next block.
use mining_pool.Base.{◌≡◌, refl, sym, inl, inr, true, false, List, [], ◌∷◌, ◌++◌, append-nil, arith}
use mining_pool.Bitcoin.{BitcoinLib}
use mining_pool.NodeIpc.Template.{RawTemplate}
use mining_pool.NodeIpc.Build.{NodeLib, Result-cases, fetch_template}
use mining_pool.NodeIpc.Loop.{
  IpcEvent, no_thread, wait_failed, wait_timed_out, next_block, solution, Session, session_of,
  is_wait, publish, close, destroy_block_client, turn,
}

module _ (lib : BitcoinLib) (node : NodeLib) where
  -- While it waits, the thread of the node only sends templates.
  pub wait_grows :
      (e : IpcEvent) (s : Session)
      → is_wait e ≡ true
      → (more : List RawTemplate) × ((session_of (close lib node (turn lib node e s))).published
          ≡ s.published ++ more)
        × ((session_of (close lib node (turn lib node e s))).submitted ≡ s.submitted)
  unfolding turn publish destroy_block_client
  wait_grows no_thread s h = ([], sym (append-nil s.published), refl)
  wait_grows wait_failed s h = ([], sym (append-nil s.published), refl)
  wait_grows wait_timed_out s h = ([], sym (append-nil s.published), refl)
  wait_grows (next_block block true) s h =
      elim (Result-cases (fetch_template lib node block s.template_id)) [
        | inl (e, h') ↦ ([], rw (h', publish) (sym (append-nil s.published)), rw (h', publish) refl)
        | inr (raw, h') ↦ (raw ∷ [], rw (h', publish) refl, rw (h', publish) refl)
      ]
  wait_grows (next_block block false) s h = absurd (ground arith)
  wait_grows (solution sol answer) s h = absurd (ground arith)
