-- ===== src/NodeIpc/Loop/Serves.antt =====
-- The templates that `ipc_main` of pool/src/node_ipc.rs sends, and the block on which it submits.
use mining_pool.Base.{
  ℕ, ◌+◌, ◌^◌, ◌<◌, ◌≡◌, refl, ap, zero, suc, inl, inr, true, false, some, List, [], ◌∷◌, ◌++◌,
  arith, length, length-append,
}
use mathlib.Core.Path.{subst}
use mining_pool.Bitcoin.{BitcoinLib}
use mining_pool.NodeIpc.Template.{RawTemplate}
use mining_pool.NodeIpc.Build.{NodeLib, BlockClient, Result-cases, ready, fetch_template}
use mining_pool.NodeIpc.Build.Laws.{fetch_template-template_id}
use mining_pool.NodeIpc.Loop.{
  IpcEvent, Session, Progress, running, left, gone, no_thread, wait_failed, wait_timed_out,
  next_block, solution, turn, run_loop, publish, destroy_block_client, submit_solution, next_id,
  first_session, close, ipc_main,
}

-- The template ids of templates, and the first n numbers.
abbrev pub ids : List RawTemplate → List ℕ
ids [] = []
ids (r ∷ rs) = r.new_template.template_id ∷ ids rs

abbrev pub count_from : ℕ → ℕ → List ℕ
count_from k zero = []
count_from k (suc n) = k ∷ count_from (k + 1) n

ids-append :
    (xs : List RawTemplate) (r : RawTemplate)
    → ids (xs ++ (r ∷ [])) ≡ ids xs ++ (r.new_template.template_id ∷ [])
ids-append [] r = refl
ids-append (x ∷ xs) r = ap (λ l. x.new_template.template_id ∷ l) (ids-append xs r)

count_from_end : (k n : ℕ) → count_from k (n + 1) ≡ count_from k n ++ ((k + n) ∷ [])
count_from_end k zero = ground arith
count_from_end k (suc n) =
    let e1 : suc n + 1 ≡ suc (n + 1) = omega arith in
    let e2 : k + suc n ≡ (k + 1) + n = omega arith in
    rw (e1, e2) (ap (λ l. k ∷ l) (count_from_end (k + 1) n))

module _ (lib : BitcoinLib) (node : NodeLib) where
  -- The ids count up, the next one is their number, and the last template is that of the block.
  pub record Serves (s : Session) : Type 0 where
    pub numbered : ids s.published ≡ count_from 0 (length s.published)
    pub counted : s.template_id ≡ length s.published
    pub current :
        (earlier : List RawTemplate) × (raw : RawTemplate) × (s.published ≡ earlier ++ (raw ∷ []))
        × (fetch_template lib node s.block (length earlier) ≡ ready raw)

  -- One more template of a new block.
  publish-Serves :
      (s : Session) (block : BlockClient) (raw : RawTemplate)
      → Serves s
      → s.template_id + 1 < 2 ^ 64
      → fetch_template lib node block s.template_id ≡ ready raw
      → Serves (record (destroy_block_client s) {
        block = block;
        template_id = next_id s.template_id;
        published = s.published ++ (raw ∷ []);
      })
  unfolding destroy_block_client
  publish-Serves s block raw v small h =
      let own = fetch_template-template_id lib node block s.template_id raw h in
      let len = length-append s.published (raw ∷ []) in
      let start : 0 + length s.published ≡ length s.published = omega arith in
      record {
        numbered =
            rw
              (
                ids-append s.published raw,
                len,
                count_from_end 0 (length s.published),
                start,
                v.numbered,
                own,
                v.counted,
              )
              refl;
        counted = omega (arith, len, v.counted);
        current = (s.published, raw, refl, rw (← v.counted) h);
      }

  -- What an end of the loop guarantees: the ids count up, and while it runs all of the above.
  abbrev pub Served : Progress → Type 0
  Served (running s) = Serves s
  Served (left s) = ids s.published ≡ count_from 0 (length s.published)
  Served (gone e s) = ids s.published ≡ count_from 0 (length s.published)

  run_loop-Served :
      (events : List IpcEvent) (s : Session)
      → Serves s
      → s.template_id + length events < 2 ^ 64
      → Served (run_loop lib node events s)
  unfolding run_loop turn publish submit_solution destroy_block_client
  run_loop-Served [] s v small = v
  run_loop-Served (no_thread ∷ events) s v small = v.numbered
  run_loop-Served (wait_failed ∷ events) s v small = v.numbered
  run_loop-Served (wait_timed_out ∷ events) s v small =
      run_loop-Served events s v (omega (arith, small))
  run_loop-Served (solution sol answer ∷ events) s v small =
      run_loop-Served events (submit_solution sol answer s)
        (record { numbered = v.numbered; counted = v.counted; current = v.current })
        (omega (arith, small))
  run_loop-Served (next_block block true ∷ events) s v small =
      elim (Result-cases (fetch_template lib node block s.template_id)) [
        | inl (e, h) ↦ rw (h, Served, run_loop, publish) v.numbered
        | inr (raw, h) ↦
            let next = publish-Serves s block raw v (omega (arith, small)) h in
            rw (h, run_loop, publish) (run_loop-Served events _ next (omega (arith, small)))
      ]
  run_loop-Served (next_block block false ∷ events) s v small =
      elim (Result-cases (fetch_template lib node block s.template_id)) [
        | inl (e, h) ↦ rw (h, Served, run_loop, publish) v.numbered
        | inr (raw, h) ↦ rw (h, Served, run_loop, publish) v.numbered
      ]

  close-Served : (p : Progress) → Served p → Served (close lib node p)
  unfolding destroy_block_client
  close-Served (running s) v = v
  close-Served (left s) v = v
  close-Served (gone e s) v = v

  -- With a first template the function runs the loop and closes.
  pub ipc_main-some :
      (block : BlockClient) (raw : RawTemplate) (events : List IpcEvent) (p : Progress)
      → fetch_template lib node block 0 ≡ ready raw
      → ipc_main lib node (some block) events ≡ some p
      → close lib node (run_loop lib node events (first_session lib node block raw)) ≡ p
  unfolding ipc_main
  ipc_main-some block raw events p first h = let whole = rw (ipc_main, first) at h in cc

  -- From the first block on, for fewer than 2^64 - 1 events: the templates that were sent have the ids 0, 1,
  -- 2 and so on with no gap, whatever fails, and while the loop runs the last one is the template of the
  -- block on which solutions are submitted.
  pub ipc_main-Served :
      (block : BlockClient) (events : List IpcEvent) (p : Progress)
      → ipc_main lib node (some block) events ≡ some p
      → 1 + length events < 2 ^ 64
      → Served p
  unfolding ipc_main destroy_block_client
  ipc_main-Served block events p h small = elim (Result-cases (fetch_template lib node block 0)) [
    | inl (e, first) ↦ absurd (ground arith)
    | inr (raw, first) ↦
        let own = fetch_template-template_id lib node block 0 raw first in
        let begins : Serves (first_session lib node block raw) = record {
          numbered = rw own refl;
          counted = refl;
          current = ([], raw, refl, first);
        } in
        let served = run_loop-Served events (first_session lib node block raw) begins small in
        let same : close lib node (run_loop lib node events (first_session lib node block raw))
            ≡ p =
          ipc_main-some block raw events p first h in
        subst Served same (close-Served _ served)
  ]
