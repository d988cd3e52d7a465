-- ===== src/Runtime/Orchestrator/Loop/Scheduling.antt =====
-- What `_schedule_if_ready` and the first pass do to the state of a run, as steps.
use bpg.Common.{
  ℕ, String, ◌≡◌, refl, sym, ap, ◌⊎◌, inl, inr, true, false, Option, none, some, List, [], ◌∷◌,
  ◌==◌, Dict, get, put, contains, Bool-cases, Option-cases,
}
use Prim.Native.String.{◌++◌}
use bpg.Value.{Fields, end, get_field}
use bpg.Compiler.Schema.{NodeType, Edge, ResolvedNode}
use bpg.Runtime.Payload.{validate_payload, parse_duration_seconds}
use bpg.Runtime.Orchestrator.{
  Outcome, done, raised, ◌>>=◌, Host, InflightTask, StartCall, ExecutionIr, Machine, Merged, merged,
  conflict, incoming_of, any_unsettled, note, Started, skip_node, refuse_node, after_start,
  deadline_from, start_task, start_node, firing_edges, merge_edges, start_merged, start_firing,
  start_incoming, schedule_if_ready, run_state, error_of, failed_entry, invalid_entry,
}
use bpg.Runtime.Orchestrator.Loop.{remove_name, settle, schedule_node, schedule_pass}
use bpg.Runtime.Orchestrator.Entries.{
  Reports, Reports-skipped_entry, Reports-failed_entry, Reports-invalid_entry,
  Reports-scheduled_entry,
}
use bpg.Runtime.Orchestrator.Loop.Steps.{
  Calls, no_call, start_call, monotonic_call, now_call, IsReady, HasFate, Step, tick,
  settle_pending, begin, Reach, here, next, reach_trans,
}

pub >>=-eq-done {ℓ κ} :
    {A : Type ℓ} {B : Type κ} (o : Outcome A) (f : A → Outcome B) {b : B}
    → (o >>= f) ≡ done b
    → (a : A) × (o ≡ done a) × (f a ≡ done b)
>>=-eq-done (done a) f h = (a, refl, h)
>>=-eq-done (raised e) f h = absurd (cc)

pub done_injective {ℓ} : {A : Type ℓ} {a b : A} → done a ≡ done b → a ≡ b
done_injective h = cc

-- The adapter gives its tasks names, as `uuid4` does.
abbrev pub NamesTasks : Host → Type 0
NamesTasks host =
    (call : StartCall) (w : host.World) (task_id : String)
    → (host.start_node call w).0 ≡ some task_id
    → (task_id == "") ≡ false

module _ (host : Host) (now : String) where
  -- What an answer of `_schedule_if_ready` has done.
  pub data Effect (node : String) (m : Machine host.World) (s : Started host) : Type 0 where
    settles :
        (status : String) (entry : Fields) (task : InflightTask)
        → s.0.node_statuses ≡ (note node status entry m).node_statuses
        → s.0.execution_log ≡ (note node status entry m).execution_log
        → Reports host.str_of host.numbers.is_zero now node status entry
        → HasFate host "skipped" status m s.0
        → s.0.pending ≡ m.pending
        → s.0.inflight ≡ m.inflight
        → Calls host m.world s.0.world
        → s.1 ≡ some task
        → (task.task_id == "") ≡ true
        → Effect node m s
    begins :
        (entry : Fields) (task : InflightTask)
        → s.0.node_statuses ≡ (note node "running" entry m).node_statuses
        → s.0.execution_log ≡ (note node "running" entry m).execution_log
        → Reports host.str_of host.numbers.is_zero now node "running" entry
        → s.0.run_status ≡ m.run_status
        → s.0.pending ≡ m.pending
        → s.0.inflight ≡ m.inflight
        → Calls host m.world s.0.world
        → s.1 ≡ some task
        → (task.task_id == "") ≡ false
        → Effect node m s

  skip_node-Effect :
      (node : String) (m : Machine host.World) → Effect node m (skip_node host node m)
  unfolding skip_node note
  skip_node-Effect node m =
      settles "skipped" _ _ refl refl
        (Reports-skipped_entry host.str_of host.numbers.is_zero now node _) (inl (refl, refl)) refl
        refl (now_call (now_call no_call)) refl refl

  refuse_node-Effect :
      (node : String) (entry : String → Fields) (m : Machine host.World)
      → ((time : String) → Reports host.str_of host.numbers.is_zero now node "failed" (entry time))
      → Effect node m (refuse_node host node entry m)
  unfolding refuse_node note
  refuse_node-Effect node entry m reports =
      settles "failed" _ _ refl refl (reports _) (inr (inl refl, refl)) refl refl
        (now_call (now_call no_call)) refl refl

  deadline_from-Calls :
      (timeout : Option ℕ) (w : host.World) → Calls host w (deadline_from host timeout w).1
  deadline_from-Calls none w = no_call
  deadline_from-Calls (some s) w = monotonic_call no_call

  after_start-Effect :
      (node : String) (task_for : String → InflightTask) (answer : Option String × host.World)
      (m : Machine host.World) (s : Started host)
      → ((task_id : String) → answer.0 ≡ some task_id → ((task_for task_id).task_id == "") ≡ false)
      → Calls host m.world answer.1
      → after_start host node task_for answer m ≡ done s
      → Effect node m s
  unfolding after_start note
  after_start-Effect node task_for (none, w) m s named calls h = absurd (cc)
  after_start-Effect node task_for (some task_id, w) m s named calls h = rw (← done_injective h) (
      begins _ (task_for task_id) refl refl
        (Reports-scheduled_entry host.str_of host.numbers.is_zero now node (task_for task_id)) refl
        refl refl calls refl (named task_id refl))

-- Some source of the node's edges is not settled.
abbrev pub IsBlocked : {W : Type 0} → Dict (List Edge) → String → Machine W → Type 0
IsBlocked incoming node m = any_unsettled m.node_statuses (incoming_of node incoming) ≡ true

module _ (host : Host) (now : String) (ir : ExecutionIr) (run_id : String) (trigger_input : Fields)
    (named : NamesTasks host) where
  start_task-Effect :
      (node : String) (n : ResolvedNode) (node_type : NodeType) (input : Fields)
      (m : Machine host.World) (s : Started host)
      → start_task host ir run_id trigger_input node n node_type input m ≡ done s
      → Effect host now node m s
  unfolding start_task
  start_task-Effect node n node_type input m s h =
      after_start-Effect host now node _ _ m s (λ task_id e. named _ _ task_id e)
        (start_call _ (
          now_call (
            deadline_from-Calls host now
              (parse_duration_seconds host.literals.chars host.seconds
                (get_field "timeout" n.instance_.config))
              m.world)))
        h

  start_node-Effect :
      (node : String) (n : ResolvedNode) (input : Fields) (m : Machine host.World)
      (s : Started host)
      → start_node host ir run_id trigger_input node n input m ≡ done s
      → Effect host now node m s
  unfolding start_node
  start_node-Effect node n input m s h =
      elim (Option-cases (validate_payload input n.in_type (node ++ ".in"))) [
        | inr (e, invalid) ↦ rw (← done_injective (rw (invalid, start_node) at h)) (
            refuse_node-Effect host now node
              (invalid_entry node input (error_of "input_validation_error" (host.message e))) m
              (λ time. Reports-invalid_entry host.str_of host.numbers.is_zero now node _ _ time))
        | inl valid ↦ elim (Option-cases n.node_type) [
          | inl is_module ↦ rw (← done_injective (rw (valid, is_module, start_node) at h)) (
              refuse_node-Effect host now node
                (failed_entry node
                  (error_of "module_not_executable" "Cannot execute unresolved module node"))
                m (λ time. Reports-failed_entry host.str_of host.numbers.is_zero now node _ time))
          | inr (node_type, typed) ↦
              start_task-Effect node n node_type input m s (rw (valid, typed, start_node) at h)
        ]
      ]

  start_merged-Effect :
      (node : String) (n : ResolvedNode) (m : Machine host.World) (out : Merged) (s : Started host)
      → start_merged host ir run_id trigger_input node n m out ≡ done s
      → Effect host now node m s
  unfolding start_merged
  start_merged-Effect node n m (merged input) s h = start_node-Effect node n input m s h
  start_merged-Effect node n m (conflict key) s h = rw (← done_injective h) (
      refuse_node-Effect host now node
        (failed_entry node (error_of "input_conflict" (host.conflict_message key))) m
        (λ time. Reports-failed_entry host.str_of host.numbers.is_zero now node _ time))

  start_firing-Effect :
      (node : String) (n : ResolvedNode) (m : Machine host.World) (edges : List Edge)
      (s : Started host)
      → start_firing host ir run_id trigger_input node n m edges ≡ done s
      → Effect host now node m s
  unfolding start_firing
  start_firing-Effect node n m [] s h = rw (← done_injective h) (skip_node-Effect host now node m)
  start_firing-Effect node n m (e ∷ edges) s h =
      let (out, _, run) =
        >>=-eq-done
          (merge_edges host ir run_id trigger_input (run_state host ir run_id trigger_input m)
            (e ∷ edges) end)
          (λ out. start_merged host ir run_id trigger_input node n m out) h in
      start_merged-Effect node n m out s run

  start_incoming-Effect :
      (node : String) (n : ResolvedNode) (m : Machine host.World) (edges : List Edge)
      (s : Started host)
      → start_incoming host ir run_id trigger_input node n m edges ≡ done s
      → ((s ≡ (m, none)) × (any_unsettled m.node_statuses edges ≡ true))
        ⊎ ((any_unsettled m.node_statuses edges ≡ false) × Effect host now node m s)
  unfolding start_incoming
  start_incoming-Effect node n m [] s h =
      inr (unfold any_unsettled in refl, start_node-Effect node n end m s h)
  start_incoming-Effect node n m (e ∷ edges) s h =
      elim (Bool-cases (any_unsettled m.node_statuses (e ∷ edges))) [
        | inl waits ↦ inl (sym (done_injective (rw (waits, start_incoming) at h)), waits)
        | inr ready ↦
            let (firing, _, run) =
              >>=-eq-done (firing_edges host ir run_id trigger_input m (e ∷ edges))
                (λ firing. start_firing host ir run_id trigger_input node n m firing)
                (rw (ready, start_incoming) at h) in
            inr (ready, start_firing-Effect node n m firing s run)
      ]

  pub schedule_if_ready-Effect :
      (incoming : Dict (List Edge)) (node : String) (m : Machine host.World) (s : Started host)
      → schedule_if_ready host ir run_id trigger_input incoming node m ≡ done s
      → ((s ≡ (m, none)) × IsBlocked incoming node m)
        ⊎ (IsReady host ir incoming node m × Effect host now node m s)
  unfolding schedule_if_ready
  schedule_if_ready-Effect incoming node m s h = elim (Option-cases (get node ir.resolved_nodes)) [
    | inl missing ↦ absurd (cc (rw (missing, schedule_if_ready) at h))
    | inr (n, found) ↦ elim (Bool-cases (node == ir.trigger)) [
      | inl trigger ↦ inr (
        inl trigger,
        start_node-Effect node n trigger_input m s (rw (found, trigger, schedule_if_ready) at h),
      )
      | inr other ↦
          elim (start_incoming-Effect node n m (incoming_of node incoming) s
            (rw (found, other, schedule_if_ready) at h)) [
              | inl waits ↦ inl waits
              | inr (ready, effect) ↦ inr (inr ready, effect)
            ]
    ]
  ]

module _ (host : Host) (now : String) (ir : ExecutionIr) (incoming : Dict (List Edge)) where
  Effect-quiet :
      (node : String) (m m' : Machine host.World) → Effect host now node m (m', none) → m' ≡ m
  Effect-quiet node m m' (settles status entry task st lg rep fate p i calls t unnamed) =
      absurd (cc)
  Effect-quiet node m m' (begins entry task st lg rep r p i calls t is_named) = absurd (cc)

  Effect-Step :
      (node : String) (m m' : Machine host.World) (task : InflightTask)
      → contains m.pending node ≡ true
      → IsReady host ir incoming node m
      → Effect host now node m (m', some task)
      → Step host ir incoming now m (settle host node (m', some task))
  unfolding note
  Effect-Step node m m' task pending ready
        (settles status entry task' st lg rep fate p i calls t e) =
      let same : task ≡ task' = cc in
      rw (same, e)
        (settle_pending node status entry pending ready
          (record { statuses = st; logged = lg; reports = rep }) fate (ap (remove_name node) p) i)
  Effect-Step node m m' task pending ready (begins entry task' st lg rep r p i calls t e) =
      let same : task ≡ task' = cc in
      rw (same, e)
        (begin node entry task' pending ready (record { statuses = st; logged = lg; reports = rep })
          r (ap (remove_name node) p) (ap (put node task') i))

  -- A node of the first pass takes one step, or the answer is `None` and nothing has changed.
  settle-Step :
      (node : String) (m : Machine host.World) (s : Started host)
      → contains m.pending node ≡ true
      → ((s ≡ (m, none)) × IsBlocked incoming node m)
        ⊎ (IsReady host ir incoming node m × Effect host now node m s)
      → Step host ir incoming now m (settle host node s)
  settle-Step node m (m', none) pending (inl (e, _)) =
      let same : m' ≡ m = ap (λ (s : Started host). s.0) e in
      rw same (tick refl refl refl refl refl)
  settle-Step node m (m', some task) pending (inl (e, _)) =
      let impossible : some task ≡ none = ap (λ (s : Started host). s.1) e in absurd (cc)
  settle-Step node m (m', none) pending (inr (ready, effect)) =
      rw (Effect-quiet node m m' effect) (tick refl refl refl refl refl)
  settle-Step node m (m', some task) pending (inr (ready, effect)) =
      Effect-Step node m m' task pending ready effect

  module _ (run_id : String) (trigger_input : Fields) (named : NamesTasks host) where
    pub schedule_node-Step :
        (node : String) (m m' : Machine host.World)
        → schedule_node host ir run_id trigger_input incoming node m ≡ done m'
        → Step host ir incoming now m m'
    unfolding schedule_node
    schedule_node-Step node m m' h = elim (Bool-cases (contains m.pending node)) [
      | inr absent ↦
          rw (← done_injective (rw (absent, schedule_node) at h)) (tick refl refl refl refl refl)
      | inl pending ↦
          let (s, ran, settled) =
            >>=-eq-done (schedule_if_ready host ir run_id trigger_input incoming node m)
              (λ s. done (settle host node s)) (rw (pending, schedule_node) at h) in
          rw (← done_injective settled) (
            settle-Step node m s pending (
              schedule_if_ready-Effect host now ir run_id trigger_input named incoming node m s
                ran))
    ]

    pub schedule_pass-Reach :
        (nodes : List String) (m m' : Machine host.World)
        → schedule_pass host ir run_id trigger_input incoming nodes m ≡ done m'
        → Reach host ir incoming now m m'
    unfolding schedule_pass
    schedule_pass-Reach [] m m' h = rw (done_injective h) here
    schedule_pass-Reach (node ∷ nodes) m m' h =
        let (m1, first, rest) =
          >>=-eq-done (schedule_node host ir run_id trigger_input incoming node m)
            (λ m1. schedule_pass host ir run_id trigger_input incoming nodes m1) h in
        reach_trans host ir incoming now (next here (schedule_node-Step node m m1 first))
          (schedule_pass-Reach nodes m1 m' rest)
