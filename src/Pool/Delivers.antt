-- ===== src/Pool/Delivers.antt =====
-- The way of a block through the running pool (pool/src/main.rs), from a share to the node.
use mining_pool.Base.{
  ℕ, ◌≤◌, ◌≡◌, ◌≢◌, refl, sym, ap, ◌∙◌, Bool, true, false, some, List, [], ◌∷◌, ◌++◌, map, length,
  append-nil, append_assoc,
}
use mining_pool.Base.Int.{ℤ}
use mining_pool.Words.{le_value, be_value}
use mining_pool.Bitcoin.{Bytes, BitcoinLib, Floats, IsHex}
use mining_pool.NodeIpc.Template.{RawTemplate, SubmitSolutionData}
use mining_pool.NodeIpc.Build.{NodeLib}
use mining_pool.NodeIpc.Loop.{
  accepted, running, session_of, Session, solution, close, submit_solution, turn,
}
use mining_pool.Db.Tables.{Tables}
use mining_pool.Stratum.Target.Compact.{compact_value}
use mining_pool.Stratum.Protocol.{Codec, sv2, SubmitSharesExtended}
use mining_pool.Stratum.State.{ChannelInfo, JobInfo, World, Outcome, ok, err, after}
use mining_pool.Stratum.Submit.{share_coinbase, solution_of}
use mining_pool.Stratum.Submit.Verdict.{IsHash}
use mining_pool.Stratum.Submit.Blocks.{IsCurrent, block_submitted}
use mining_pool.Stratum.Connection.Submits.{turn_share}
use mining_pool.Stratum.Connection
use mining_pool.Pool.{
  Wake, Pool, Slot, serving, received, hand_over, settle, event_of, seen_after, serve, submit,
  Reach, next,
}

module _ {F32 F64 : Type 0} (lib : BitcoinLib) (fl : Floats F32 F64) (codec : Codec F32)
    (node : NodeLib) (pool_address : Bytes) (tables : Tables F64) where
  -- The solutions on the block of a session.
  abbrev pub on_block : Session → List SubmitSolutionData → List (ℕ × SubmitSolutionData)
  on_block s solutions = map (λ sol. (s.block.handle, sol)) solutions

  -- The thread of the node can submit the whole queue in order.
  drained :
      (queue : List SubmitSolutionData) (p : Pool F64) (s : Session)
      → Reach lib fl codec node pool_address tables p
      → p.ipc ≡ running s
      → p.solutions ≡ queue
      → (q : Pool F64) × Reach lib fl codec node pool_address tables q
        × (q.solutions ≡ [])
        × ((session_of q.ipc).submitted ≡ s.submitted ++ on_block s queue)
  unfolding turn submit_solution
  drained [] p s reached on empty = (p, reached, empty, rw on (sym (append-nil s.submitted)))
  drained (sol ∷ rest) p s reached on same =
      let s1 : Session = record s { submitted = s.submitted ++ ((s.block.handle, sol) ∷ []) } in
      let q1 : Pool F64 = record p {
        ipc = close lib node (turn lib node (solution sol accepted) s);
        solutions = rest;
      } in
      let (q, reached', empty, all) =
        drained rest q1 s1 (next p q1 reached (submit s sol rest accepted on same)) refl refl in
      (
        q,
        reached',
        empty,
        all ∙ append_assoc s.submitted ((s.block.handle, sol) ∷ []) (on_block s rest),
      )

  settle_world : (seen : ℕ) (o : Outcome F64 Bool) → (settle seen o).world ≡ after o
  settle_world seen (ok true w) = refl
  settle_world seen (ok false w) = refl
  settle_world seen (err e w) = refl

  -- A reachable pool that serves a share for the current job of a channel, whose hash meets the network's target, the
  -- channel's target being no harder, while the node's thread runs: from there the pool can reach a state in which the
  -- solution, with the coinbase that was hashed, was submitted to the node behind what waited in the queue before it.
  -- It is submitted on the block that is current, whatever template the share is for.
  pub block_delivered :
      (hex : IsHex lib) (hashes : IsHash lib)
      (other : codec.type_submit_shares_extended ≢ codec.type_open_extended_mining_channel)
      (p : Pool F64) (i : ℕ) (s : Session) (earlier : List RawTemplate) (template : RawTemplate)
      (payload : Bytes) (now : ℤ) (share : SubmitSharesExtended) (channel : ChannelInfo)
      (job : JobInfo) (hash : Bytes)
      → Reach lib fl codec node pool_address tables p
      → p.ipc ≡ running s
      → (p.connections i).phase ≡ serving
      → (session_of p.ipc).published ≡ earlier ++ (template ∷ [])
      → IsCurrent lib codec (p.connections i).world payload share channel job hash
      → compact_value job.nbits ≤ be_value channel.channel_target_be
      → le_value hash ≤ compact_value job.nbits
      → (q : Pool F64) × Reach lib fl codec node pool_address tables q
        × ((session_of q.ipc).submitted
            ≡ s.submitted
              ++ on_block s (
                  p.solutions
                  ++ ((p.connections i).world.solutions
                      ++ (solution_of job share (share_coinbase channel job share) ∷ []))))
  unfolding hand_over
  block_delivered hex hashes other p i s earlier template payload now share channel job hash reached
        on phase last current easier meets =
      let w : World F64 = (p.connections i).world in
      let wake : Wake = received (sv2 (some codec.type_submit_shares_extended) payload) now in
      let sent : ℕ = length (session_of p.ipc).published in
      let slot : Slot F64 =
        settle (seen_after sent (p.connections i) wake)
          (Connection.turn lib fl codec (event_of template wake) w) in
      let found : slot.world.solutions
          ≡ w.solutions ++ (solution_of job share (share_coinbase channel job share) ∷ []) =
        ap (λ x. x.solutions)
          (settle_world (seen_after sent (p.connections i) wake)
              (Connection.turn lib fl codec (event_of template wake) w)
            ∙ turn_share lib fl codec other payload template now w)
        ∙ block_submitted lib fl codec hex hashes w payload share channel job hash current easier
            meets in
      let (q, reached', _, all) =
        drained (p.solutions ++ slot.world.solutions) (hand_over i slot p) s
          (next p (hand_over i slot p) reached (serve i wake earlier template phase last tt)) on
          refl in
      (q, reached', all ∙ ap (λ l. s.submitted ++ on_block s (p.solutions ++ l)) found)
