-- ===== src/Runtime/Orchestrator/Loop/Ends.antt =====
-- The loop ends: every round moves a node or a task, or waits for a task that the adapter says is running.
use bpg.Common.{
  ℕ, zero, suc, ◌+◌, ◌*◌, ◌≤◌, ◌<◌, String, ◌≡◌, refl, sym, ap, ◌∙◌, ◌⊎◌, inl, inr, Bool, true,
  false, some, List, [], ◌∷◌, ◌==◌, if◌then◌else◌, Dict, has_key, length, arith, Bool-cases,
  Option-cases, text_test_refl,
}
use bpg.Value.{Fields}
use bpg.Compiler.Schema.{Edge}
use bpg.Runtime.Orchestrator.{
  Outcome, done, raised, ◌>>=◌, running, Host, InflightTask, ExecutionIr, Machine, incoming_table,
  no_edges, key_error,
}
use bpg.Runtime.Orchestrator.Loop.{
  is_nil, poll_task, poll_pass, schedule_node, schedule_pass, round_end, round, RunResult, run,
  finish_run, finish_runs, initial,
}
use bpg.Runtime.Orchestrator.Loop.Steps.{
  Calls, no_call, monotonic_call, length-remove_name, length-drop_key, length-drop_key-le,
  length-put-le,
}
use bpg.Runtime.Orchestrator.Loop.Scheduling.{NamesTasks, >>=-eq-done, done_injective}
use bpg.Runtime.Orchestrator.Loop.Polling.{scheduled_from, polled_from, ticked}
use bpg.Runtime.Orchestrator.Loop.Unrolling.{one_round, rounds, empty, broken, last, more, unroll}
use bpg.Runtime.Orchestrator.Loop.Progress.{Visited, passed, blocked, moved, schedule_node-Visited}
use bpg.Runtime.Orchestrator.Loop.Waiting.{Looked, waited, ended, poll_task-Looked}

-- The adapter says of its tasks that they are running only so many times: `left` bounds how often.
pub record Patience (host : Host) : Type 0 where
  pub left : host.World → ℕ
  pub poll_running :
      (task_id : String) (w : host.World)
      → (host.poll task_id w).0 ≡ some running
      → left (host.poll task_id w).1 < left w
  pub calls_le : (w w' : host.World) → Calls host w w' → left w' ≤ left w
  pub sleep_le : (w : host.World) → left (host.sleep w) ≤ left w

abbrev bit : Bool → ℕ
bit true = 1
bit false = 0

module _ (host : Host) (patience : Patience host) where
  -- What is left to do.
  abbrev weight : Machine host.World → ℕ
  weight m = 2 * length m.pending + length m.inflight + patience.left m.world

  Looked-weight-le :
      (ir : ExecutionIr) (node : String) (task : InflightTask) (m m' : Machine host.World)
      → Looked host ir node task m m'
      → weight m' ≤ weight m
  Looked-weight-le ir node task m m' (waited e next) =
      rw next (omega (arith, patience.poll_running task.task_id m.world e))
  Looked-weight-le ir node task m m' (ended p i on calls) =
      rw (p, i)
        (omega
          (arith, length-drop_key-le node m.inflight, patience.calls_le m.world m'.world calls))

  Looked-weight-lt :
      (ir : ExecutionIr) (node : String) (task : InflightTask) (m m' : Machine host.World)
      → has_key node m.inflight ≡ true
      → Looked host ir node task m m'
      → weight m' < weight m
  Looked-weight-lt ir node task m m' flying (waited e next) =
      rw next (omega (arith, patience.poll_running task.task_id m.world e))
  Looked-weight-lt ir node task m m' flying (ended p i on calls) =
      rw (p, i)
        (omega
          (arith, length-drop_key node m.inflight flying, patience.calls_le m.world m'.world calls))

  poll_pass-weight-le :
      (ir : ExecutionIr) (time : ℕ) (tasks : Dict InflightTask) (m m' : Machine host.World)
      → poll_pass host ir time tasks m ≡ done m'
      → weight m' ≤ weight m
  unfolding poll_pass
  poll_pass-weight-le ir time [] m m' h = rw (done_injective h) (omega arith)
  poll_pass-weight-le ir time ((node, task) ∷ tasks) m m' h =
      let (m1, first, rest) =
        >>=-eq-done (poll_task host ir time node task m) (λ m1. poll_pass host ir time tasks m1)
          h in
      let one =
        Looked-weight-le ir node task m m1 (poll_task-Looked host ir time node task m m1 first) in
      let more = poll_pass-weight-le ir time tasks m1 m' rest in omega arith

  poll_pass-weight-lt :
      (ir : ExecutionIr) (time : ℕ) (tasks : Dict InflightTask) (m m' : Machine host.World)
      → m.inflight ≡ tasks
      → is_nil tasks ≡ false
      → poll_pass host ir time tasks m ≡ done m'
      → weight m' < weight m
  unfolding poll_pass
  poll_pass-weight-lt ir time [] m m' own some_left h = absurd (cc)
  poll_pass-weight-lt ir time ((node, task) ∷ tasks) m m' own some_left h =
      let (m1, first, rest) =
        >>=-eq-done (poll_task host ir time node task m) (λ m1. poll_pass host ir time tasks m1)
          h in
      let one =
        Looked-weight-lt ir node task m m1 (rw own (own_key node task tasks))
          (poll_task-Looked host ir time node task m m1 first) in
      let more = poll_pass-weight-le ir time tasks m1 m' rest in omega arith
    where
      own_key :
          (n : String) (t : InflightTask) (ts : Dict InflightTask) → has_key n ((n, t) ∷ ts) ≡ true
      own_key n t ts = unfold has_key in rw (text_test_refl n) refl

  module _ (ir : ExecutionIr) (incoming : Dict (List Edge)) (run_id : String)
      (trigger_input : Fields) (named : NamesTasks host) where
    Visited-weight :
        (node : String) (m m' : Machine host.World)
        → Visited host ir incoming run_id trigger_input named node m m'
        → weight m' + bit m'.progressed ≤ weight m + bit m.progressed
    Visited-weight node m m' (passed e absent) = rw e (omega arith)
    Visited-weight node m m' (blocked e stuck) = rw e (omega arith)
    Visited-weight node m m' (moved pending p (inl i) on calls) =
        rw (p, i, on)
          (omega (
            arith,
            length-remove_name node m.pending pending,
            patience.calls_le m.world m'.world calls,
          ))
    Visited-weight node m m' (moved pending p (inr (task, i)) on calls) =
        rw (p, i, on)
          (omega (
            arith,
            length-remove_name node m.pending pending,
            length-put-le node task m.inflight,
            patience.calls_le m.world m'.world calls,
          ))

    schedule_pass-weight :
        (nodes : List String) (m m' : Machine host.World)
        → schedule_pass host ir run_id trigger_input incoming nodes m ≡ done m'
        → weight m' + bit m'.progressed ≤ weight m + bit m.progressed
    unfolding schedule_pass
    schedule_pass-weight [] m m' h = rw (done_injective h) (omega arith)
    schedule_pass-weight (node ∷ nodes) m m' h =
        let (m1, first, rest) =
          >>=-eq-done (schedule_node host ir run_id trigger_input incoming node m)
            (λ m1. schedule_pass host ir run_id trigger_input incoming nodes m1) h in
        let one =
          Visited-weight node m m1
            (schedule_node-Visited host ir incoming run_id trigger_input named node m m1 first) in
        let more = schedule_pass-weight nodes m1 m' rest in omega arith

    ticked-weight :
        (m : Machine host.World)
        → weight (ticked host ir incoming "" run_id trigger_input named m) ≤ weight m
    ticked-weight m =
        omega (arith, patience.calls_le m.world (host.monotonic m.world).1 (monotonic_call no_call))

    round_end-weight :
        (m m' : Machine host.World)
        → round_end host m ≡ (true, m')
        → (weight m' ≤ weight m) × ((m.progressed ≡ true) ⊎ (is_nil m.inflight ≡ false))
    round_end-weight m m' h = elim (Bool-cases m.progressed) [
      | inl on ↦
          let here : round_end host m ≡ (true, m) = rw on refl in
          let same : m ≡ m' = ap (λ (r : Bool × Machine host.World). r.1) (sym here ∙ h) in
          (rw (← same) (omega arith), inl on)
      | inr still ↦ elim (Bool-cases (is_nil m.inflight)) [
        | inl idle ↦
            absurd (cc (ap (λ (r : Bool × Machine host.World). r.0) (rw (still, idle) at h)))
        | inr waits ↦
            let here : round_end host m ≡ (true, record m { world = host.sleep m.world }) =
              rw (still, waits) refl in
            let slept : record m { world = host.sleep m.world } ≡ m' =
              ap (λ (r : Bool × Machine host.World). r.1) (sym here ∙ h) in
            (rw (← slept) (omega (arith, patience.sleep_le m.world)), inr waits)
      ]
    ]

    nothing_polled :
        (time : ℕ) (tasks : Dict InflightTask) (m m' : Machine host.World)
        → is_nil tasks ≡ true
        → poll_pass host ir time tasks m ≡ done m'
        → m ≡ m'
    unfolding poll_pass
    nothing_polled time [] m m' idle h = done_injective h
    nothing_polled time (t ∷ tasks) m m' idle h = absurd (cc)

    -- The second pass and the end of the round.
    rest-weight :
        (m mp m' : Machine host.World)
        → polled_from host ir incoming "" run_id trigger_input named m ≡ done mp
        → round_end host mp ≡ (true, m')
        → (weight m' < weight m) ⊎ ((weight m' ≤ weight m) × (m.progressed ≡ true))
    rest-weight m mp m' polled end =
        let (after, why) = round_end-weight mp m' end in
        let tick = ticked-weight m in
        elim (Bool-cases (is_nil m.inflight)) [
          | inr flying ↦
              let fell =
                poll_pass-weight-lt ir _ m.inflight
                  (ticked host ir incoming "" run_id trigger_input named m) mp refl flying polled in
              inl (omega arith)
          | inl idle ↦
              let same =
                nothing_polled _ m.inflight
                  (ticked host ir incoming "" run_id trigger_input named m) mp idle polled in
              let kept : weight mp ≤ weight m = rw (← same) tick in
              elim why [
                | inl on ↦
                    inr (omega arith, ap (λ (k : Machine host.World). k.progressed) same ∙ on)
                | inr waits ↦ absurd (
                    cc (sym idle ∙ ap (λ (k : Machine host.World). is_nil k.inflight) same ∙ waits))
              ]
        ]

    round-weight :
        (m m' : Machine host.World)
        → one_round host ir incoming run_id trigger_input m ≡ done (true, m')
        → weight m' < weight m
    unfolding round
    round-weight m m' h =
        let (ms, scheduled, rest) =
          >>=-eq-done (scheduled_from host ir incoming "" run_id trigger_input named m)
            (λ ms.
              if ms.run_status == "failed"
              then done (false, ms)
              else polled_from host ir incoming "" run_id trigger_input named ms >>= λ mp.
                  done (round_end host mp))
            h in
        let first =
          schedule_pass-weight ir.topological_order (record m { progressed = false }) ms
            scheduled in
        elim (Bool-cases (ms.run_status == "failed")) [
          | inl over ↦
              absurd (
                cc (ap (λ (r : Bool × Machine host.World). r.0) (done_injective (rw over at rest))))
          | inr goes_on ↦
              let (mp, polled, end) =
                >>=-eq-done (polled_from host ir incoming "" run_id trigger_input named ms)
                  (λ mp. done (round_end host mp)) (rw goes_on at rest) in
              elim (rest-weight ms mp m' polled (done_injective end)) [
                | inl fell ↦ omega arith
                | inr (kept, on) ↦ omega (arith, rw on at first)
              ]
        ]

    run_loop-total :
        (fuel : ℕ) (m : Machine host.World)
        → weight m < fuel
        → (o : Outcome (Machine host.World)) × (rounds host ir incoming run_id trigger_input fuel m
            ≡ some o)
    run_loop-total zero m h = elim h [ ]
    run_loop-total (suc fuel) m h = elim (unroll host ir incoming run_id trigger_input fuel m) [
      | empty over e ↦ (done m, e)
      | broken e broke e' ↦ (raised e, e')
      | last m1 left ran e ↦ (done m1, e)
      | more m1 left ran e ↦
          let fell = round-weight m m1 ran in
          let (o, ends) = run_loop-total fuel m1 (omega arith) in (o, e ∙ ends)
    ]

  finish_runs-total :
      (ir : ExecutionIr) (run_id : String) (trigger_input : Fields)
      (o : Outcome (Machine host.World))
      → (r : Outcome RunResult) × (finish_runs host ir run_id trigger_input (some o) ≡ some r)
  finish_runs-total ir run_id trigger_input (done m) =
      (finish_run host ir run_id trigger_input m, refl)
  finish_runs-total ir run_id trigger_input (raised e) = (raised e, refl)

  -- Where the adapter answers that tasks are running at most `left` times, the run ends, with a result or an
  -- exception: its loop takes no more rounds than twice the number of nodes and `left` more.
  pub run-total :
      (ir : ExecutionIr) (run_id : String) (trigger_input : Fields)
      → NamesTasks host
      → (fuel : ℕ) (w : host.World) → 2 * length ir.topological_order + patience.left w < fuel
      → (r : Outcome RunResult) × (run host ir run_id trigger_input fuel w ≡ some r)
  unfolding run
  run-total ir run_id trigger_input named fuel w h =
      elim (Option-cases (incoming_table ir.resolved_edges (no_edges ir.resolved_nodes))) [
        | inl missing ↦ (raised key_error, rw (missing, run) refl)
        | inr (incoming, built) ↦
            let (o, looped) =
              run_loop-total ir incoming run_id trigger_input named fuel
                (initial host ir run_id trigger_input w) (omega arith) in
            let (r, finished) = finish_runs-total ir run_id trigger_input o in
            (r, rw (built, looped, run) finished)
      ]
