-- ===== src/Runtime/Orchestrator/Loop/Results.antt =====
-- What `run` promises of its result.
use bpg.Common.{
  ℕ, ◌≤◌, String, ◌≡◌, refl, sym, ◌∙◌, ◌⊎◌, inl, inr, true, false, Option, none, some, List, [],
  ◌∷◌, ◌++◌, ◌==◌, Dict, get, contains, arith, All, Bool-cases, Option-cases, text_test_refl,
  eq_iff,
}
use bpg.Value.{Value, Fields}
use bpg.Compiler.Schema.{Edge}
use bpg.Runtime.Replay.{replay_state_from_events}
use bpg.Runtime.Replay.Last.{replay_state_from_events-last}
use bpg.Runtime.Orchestrator.{
  Outcome, done, raised, ◌>>=◌, Host, ExecutionIr, Machine, incoming_table, no_edges, incoming_of,
  any_unsettled, is_terminal,
}
use bpg.Runtime.Orchestrator.Loop.{
  RunResult, run, finish_run, finish_runs, output_of, result_of, closing_status, initial,
}
use bpg.Runtime.Orchestrator.Loop.Steps.{Reach}
use bpg.Runtime.Orchestrator.Loop.Scheduling.{NamesTasks, >>=-eq-done, done_injective}
use bpg.Runtime.Orchestrator.Loop.Unrolling.{is_over, rounds, run_loop-Reach}
use bpg.Runtime.Orchestrator.Loop.Phases.{
  AllAgree, Reach-AllAgree, start-AllAgree, run_failed, is_good, agrees_settled,
}
use bpg.Runtime.Orchestrator.Loop.Logged.{IsLogged, Reach-IsLogged, Reach-prefix}
use bpg.Runtime.Orchestrator.Loop.Sources.{AllReady, Reach-AllReady}
use bpg.Runtime.Orchestrator.Loop.Order.{IsCompiled, compiled-IsSourced}
use bpg.Runtime.Orchestrator.Loop.Failing.{
  HasBadNode, IsBlamed, Reach-IsBlamed, incoming_table-settled,
}
use bpg.Runtime.Orchestrator.Loop.Once.{starts, Reach-IsOnce}
use bpg.Runtime.Orchestrator.Loop.Ending.{run_loop_over, nil-has_key, nil-contains, over_parts}

-- The node ended well.
abbrev pub IsGoodNode : Dict String → String → Type 0
IsGoodNode statuses n = (s : String) × (get n statuses ≡ some s) × (is_good s ≡ true)

-- The source of the edge is settled, unless its target has not been looked at, or is the trigger.
abbrev pub IsRespected : String → Dict String → Edge → Type 0
IsRespected trigger statuses e =
    ((e.target == trigger) ≡ true)
    ⊎ (get e.target statuses ≡ none)
    ⊎ (is_terminal (get e.source statuses) ≡ true)

abbrev pub HasNames : Edge → Type 0
HasNames e = ((e.source == "") ≡ false) × ((e.target == "") ≡ false)

All-of_contains {ℓ} :
    (P : String → Type ℓ) (xs : List String)
    → ((n : String) → contains xs n ≡ true → P n)
    → All P xs
unfolding contains
All-of_contains P [] h = tt
All-of_contains P (x ∷ xs) h =
    (h x (ground (arith, text_test_refl x)), All-of_contains P xs (λ n e. h n (ground arith)))

module _ (host : Host) (ir : ExecutionIr) (run_id : String) (trigger_input : Fields)
    (named : NamesTasks host) where
  -- The statuses that a log gives when it is replayed.
  abbrev pub statuses_of : String → List Fields → Dict String
  statuses_of now log =
      (replay_state_from_events host.str_of host.numbers.is_zero now log).node_statuses

  -- The state that the loop was left in.
  record Ended (fuel : ℕ) (w : host.World) (r : RunResult) : Type 0 where
    incoming : Dict (List Edge)
    built : incoming_table ir.resolved_edges (no_edges ir.resolved_nodes) ≡ some incoming
    final : Machine host.World
    looped :
        rounds host ir incoming run_id trigger_input fuel (initial host ir run_id trigger_input w)
        ≡ some (done final)
    output : Option Value
    result : r ≡ result_of host ir run_id trigger_input final output

  finish_runs-Ended :
      (incoming : Dict (List Edge)) (fuel : ℕ) (w : host.World) (r : RunResult)
      (o : Option (Outcome (Machine host.World)))
      → incoming_table ir.resolved_edges (no_edges ir.resolved_nodes) ≡ some incoming
      → rounds host ir incoming run_id trigger_input fuel (initial host ir run_id trigger_input w)
        ≡ o
      → finish_runs host ir run_id trigger_input o ≡ some (done r)
      → Ended fuel w r
  finish_runs-Ended incoming fuel w r none built looped h = absurd (cc)
  finish_runs-Ended incoming fuel w r (some (raised e)) built looped h = absurd (cc)
  finish_runs-Ended incoming fuel w r (some (done m)) built looped h =
      let (output, made, result) =
        >>=-eq-done (output_of host ir run_id trigger_input ir.output m)
          (λ output. done (result_of host ir run_id trigger_input m output)) (unfinished h) in
      record {
        incoming = incoming;
        built = built;
        final = m;
        looped = looped;
        output = output;
        result = sym (done_injective result);
      }
    where
      unfinished :
          finish_runs host ir run_id trigger_input (some (done m)) ≡ some (done r)
          → (output_of host ir run_id trigger_input ir.output m >>= λ output.
              done (result_of host ir run_id trigger_input m output))
            ≡ done r
      unfinished e = unfold finish_run in cc e

  run-Ended :
      (fuel : ℕ) (w : host.World) (r : RunResult)
      → run host ir run_id trigger_input fuel w ≡ some (done r)
      → Ended fuel w r
  unfolding run
  run-Ended fuel w r h =
      elim (Option-cases (incoming_table ir.resolved_edges (no_edges ir.resolved_nodes))) [
        | inl broken ↦ absurd (cc (rw (broken, run) at h))
        | inr (incoming, built) ↦
            finish_runs-Ended incoming fuel w r _ built refl (rw (built, run) at h)
      ]

  -- The log of a run that has returned, replayed, gives every node that has a name the status that the
  -- run gives it.
  pub run-replay :
      (fuel : ℕ) (w : host.World) (r : RunResult) (now n : String)
      → run host ir run_id trigger_input fuel w ≡ some (done r)
      → (n == "") ≡ false
      → get n
          (replay_state_from_events host.str_of host.numbers.is_zero now
            r.execution_log).node_statuses
        ≡ get n r.node_statuses
  run-replay fuel w r now n h is_named =
      let e = run-Ended fuel w r h in
      let reach =
        run_loop-Reach host ir e.incoming run_id trigger_input now named fuel
          (initial host ir run_id trigger_input w) e.final tt e.looped in
      let logged =
        Reach-IsLogged host ir e.incoming now reach (λ k k_named. unfold get in refl) n is_named in
      rw e.result (
        replay_state_from_events-last host.str_of host.numbers.is_zero now e.final.execution_log n
        ∙ logged)

  -- The log of a run that has returned holds at most one entry, by its replay, that says of a node that it
  -- is running: no node is started twice.
  pub run-starts_once :
      (fuel : ℕ) (w : host.World) (r : RunResult) (now n : String)
      → run host ir run_id trigger_input fuel w ≡ some (done r)
      → (n == "") ≡ false
      → starts host now n r.execution_log ≤ 1
  run-starts_once fuel w r now n h is_named =
      let e = run-Ended fuel w r h in
      let reach =
        run_loop-Reach host ir e.incoming run_id trigger_input now named fuel
          (initial host ir run_id trigger_input w) e.final tt e.looped in
      let once = Reach-IsOnce host now ir e.incoming reach (λ k k_named. ground arith) n is_named in
      rw e.result (omega (arith, once))

  module _ (fuel : ℕ) (w : host.World) {r : RunResult} (e : Ended fuel w r) where
    reached : Reach host ir e.incoming "" (initial host ir run_id trigger_input w) e.final
    reached =
        run_loop-Reach host ir e.incoming run_id trigger_input "" named fuel
          (initial host ir run_id trigger_input w) e.final tt e.looped

    final-AllAgree : AllAgree host ir e.final
    final-AllAgree =
        Reach-AllAgree host ir e.incoming "" reached (start-AllAgree host ir run_id trigger_input w)

    final-IsBlamed : IsBlamed host ir e.incoming "" e.final
    final-IsBlamed =
        Reach-IsBlamed host ir e.incoming "" reached (start-AllAgree host ir run_id trigger_input w)
          (λ failed. absurd (cc failed))

    final_good :
        run_failed e.final.run_status ≡ false
        → is_over e.final ≡ true
        → All (IsGoodNode e.final.node_statuses) ir.topological_order
    final_good fine over =
        All-of_contains (IsGoodNode e.final.node_statuses) ir.topological_order λ n listed.
          let (s, status, terminal, how) =
            agrees_settled _ _ _ _ _ (final-AllAgree n) listed
              (nil-contains e.final.pending n (over_parts e.final over).0)
              (nil-has_key e.final.inflight n (over_parts e.final over).1) in
          (s, status, good s how)
      where
        good :
            (s : String)
            → (run_failed e.final.run_status ≡ true) ⊎ (is_good s ≡ true)
            → is_good s ≡ true
        good s (inl failed) = absurd (cc)
        good s (inr g) = g

    final_outcome :
        (run_failed e.final.run_status ≡ true) ⊎ (is_over e.final ≡ true)
        → ((closing_status e.final.run_status ≡ "completed")
            × All (IsGoodNode e.final.node_statuses) ir.topological_order)
          ⊎ ((closing_status e.final.run_status ≡ "failed") × HasBadNode e.final.node_statuses)
    final_outcome how = elim (Bool-cases (run_failed e.final.run_status)) [
      | inl failed ↦ inr (rw failed ((eq_iff _ _).0 failed), final-IsBlamed failed)
      | inr fine ↦ elim how [
        | inl failed ↦ absurd (cc)
        | inr over ↦ inl (rw fine refl, final_good fine over)
      ]
    ]

  -- The run of a compiled process that returns has completed, and then every node of the order has
  -- completed or was skipped; or it has failed, and then some node has failed or timed out.
  pub run-settles :
      (fuel : ℕ) (w : host.World) (r : RunResult)
      → IsCompiled ir
      → run host ir run_id trigger_input fuel w ≡ some (done r)
      → ((r.run_status ≡ "completed") × All (IsGoodNode r.node_statuses) ir.topological_order)
        ⊎ ((r.run_status ≡ "failed") × HasBadNode r.node_statuses)
  run-settles fuel w r c h =
      let e = run-Ended fuel w r h in
      rw e.result (
        final_outcome fuel w e (
          run_loop_over host ir e.incoming run_id trigger_input named fuel
            (initial host ir run_id trigger_input w) e.final
            (start-AllAgree host ir run_id trigger_input w) tt
            (compiled-IsSourced ir e.incoming c e.built) e.looped))

  module _ (now : String) (incoming : Dict (List Edge)) (m : Machine host.World)
      (logged : IsLogged host ir incoming now m) (log : List Fields)
      (same_log : m.execution_log ≡ log) where
    replayed :
        (n : String) → (n == "") ≡ false → get n (statuses_of now log) ≡ get n m.node_statuses
    replayed n is_named = rw (← same_log) (
        replay_state_from_events-last host.str_of host.numbers.is_zero now m.execution_log n
        ∙ logged n is_named)

    edges-IsRespected :
        (edges : List Edge)
        → AllReady host ir incoming m
        → All HasNames edges
        → All
            (λ (k : Edge).
              any_unsettled m.node_statuses (incoming_of k.target incoming) ≡ false
              → is_terminal (get k.source m.node_statuses) ≡ true)
            edges
        → All (IsRespected ir.trigger (statuses_of now log)) edges
    edges-IsRespected [] ready has_names settled = tt
    edges-IsRespected (k ∷ edges) ready ((source_named, target_named), has_names) (settled, rest) =
        (
          rw (replayed k.source source_named, replayed k.target target_named)
              (elim (Option-cases (get k.target m.node_statuses)) [
                | inl unseen ↦ inr (inl unseen)
                | inr (s, status) ↦ elim (ready k.target s status) [
                  | inl trigger ↦ inl trigger
                  | inr all_settled ↦ inr (inr (settled all_settled))
                ]
              ]),
          edges-IsRespected edges ready has_names rest,
        )

  -- Where the edges join nodes that have names: at every point of the log of a run that has returned, by
  -- the replay of the entries up to there, if a node other than the trigger has started, was skipped or
  -- has failed, then the sources of all edges to it have completed, been skipped, failed or timed out.
  pub run-respects_edges :
      (fuel : ℕ) (w : host.World) (r : RunResult) (now : String) (before after : List Fields)
      → All HasNames ir.resolved_edges
      → run host ir run_id trigger_input fuel w ≡ some (done r)
      → r.execution_log ≡ before ++ after
      → All (IsRespected ir.trigger (statuses_of now before)) ir.resolved_edges
  run-respects_edges fuel w r now before after has_names h parts =
      let e = run-Ended fuel w r h in
      let reach =
        run_loop-Reach host ir e.incoming run_id trigger_input now named fuel
          (initial host ir run_id trigger_input w) e.final tt e.looped in
      let (m, on_way, log) =
        Reach-prefix host ir e.incoming now before after refl reach (rw e.result at parts) in
      edges-IsRespected now e.incoming m
        (Reach-IsLogged host ir e.incoming now on_way (λ k k_named. unfold get in refl)) before log
        ir.resolved_edges
        (Reach-AllReady host ir e.incoming now on_way
          (start-AllAgree host ir run_id trigger_input w)
          (λ n s none_yet. absurd (unfold get in cc none_yet)))
        has_names
        (incoming_table-settled m.node_statuses ir.resolved_edges (no_edges ir.resolved_nodes)
          e.incoming e.built).1
