-- ===== src/Runtime/Orchestrator/Loop.antt =====
-- `BpgOrchestrator.run` of src/bpg/runtime/orchestrator.py: passes over the nodes and over the tasks in
-- flight, until neither is left, a node has failed, or nothing moves.
pub mod Steps
pub mod Scheduling
pub mod Polling
pub mod Unrolling
pub mod Phases
pub mod Logged
pub mod Sources
pub mod Progress
pub mod Waiting
pub mod Order
pub mod Ending
pub mod Failing
pub mod Once
pub mod Results
pub mod Ends
mod Examples
use Prim.Native.String.{◌++◌}
use bpg.Common.{
  ℕ, zero, suc, String, Bool, true, false, not, ◌&&◌, ◌||◌, Option, none, some, List, [], ◌∷◌, ◌==◌,
  if◌then◌else◌, Dict, get, put, contains,
}
use bpg.Value.{Value, Fields, null, str, dict, end, field, get_field, put_field}
use bpg.Compiler.Schema.{ResolvedNode}
use bpg.Expr.Mapping.{resolve_mapping}
use bpg.Runtime.Payload.{validate_payload}
use bpg.Runtime.Orchestrator.{
  RunError, key_error, mapping_failed, adapter_error, invalid_output, Outcome, done, raised, ◌>>=◌,
  Polled, running, completed, unsuccessful, Host, InflightTask, ExecutionIr, Machine,
  incoming_table, no_edges, error_of, note, Started, run_state, schedule_if_ready,
}
use bpg.Compiler.Schema.{Edge}

-- `pending.remove(name)`
pub remove_name : String → List String → List String
remove_name name [] = []
remove_name name (x ∷ xs) = let rest = remove_name name xs in if x == name then rest else x ∷ rest

-- `inflight.pop(name, None)`
pub drop_key {ℓ} : {V : Type ℓ} → String → Dict V → Dict V
drop_key k [] = []
drop_key k ((j, v) ∷ d) = let rest = drop_key k d in if j == k then rest else (j, v) ∷ rest

abbrev pub is_nil {ℓ} : {A : Type ℓ} → List A → Bool
is_nil [] = true
is_nil (x ∷ xs) = false

abbrev pub task_fields : InflightTask → String → Fields
task_fields task time =
    field "idempotency_key" (str task.idempotency_key)
      (field "started_at" (str task.started_at) (field "completed_at" (str time) end))

abbrev pub task_failed_entry : String → String → InflightTask → Fields → String → Fields
task_failed_entry node status task error time = field "event" (str "node_failed") (
    field "node" (str node) (
      field "status" (str status) (
        field "input" (dict task.node_input) (field "error" (dict error) (task_fields task time)))))

abbrev pub completed_entry : String → InflightTask → Fields → String → Fields
completed_entry node task output time = field "event" (str "node_completed") (
    field "node" (str node) (
      field "status" (str "completed") (
        field "input" (dict task.node_input)
          (field "output" (dict output) (task_fields task time)))))

-- `output or {}`
abbrev pub or_empty : Option Fields → Fields
or_empty none = end
or_empty (some d) = d

-- `error or {…}`
abbrev pub or_provider_failed : Option Fields → Fields
or_provider_failed none = error_of "provider_failed" "Node execution failed"
or_provider_failed (some end) = error_of "provider_failed" "Node execution failed"
or_provider_failed (some (field k v d)) = field k v d

pub record RunResult : Type 0 where
  pub run_status : String
  pub execution_log : List Fields
  pub node_outputs : Fields
  pub node_statuses : Dict String
  pub process_output : Option Value
  pub audit : Option Fields

-- `if state["run_status"] != "failed": state["run_status"] = "completed"`
abbrev pub closing_status : String → String
closing_status status = if status == "failed" then status else "completed"

module _ (host : Host) where
  -- What the first pass makes of the answer of `_schedule_if_ready`.
  abbrev pub settle : String → Started host → Machine host.World
  settle node (m, none) = m
  settle node (m, some task) =
      let moved = record m { pending = remove_name node m.pending; progressed = true } in
      if task.task_id == "" then moved else record moved { inflight = put node task m.inflight }

  -- A task that is over is taken out of `inflight`, and its node has failed.
  pub fail_task : String → String → InflightTask → Fields → Machine host.World → Machine host.World
  unfolding note drop_key
  fail_task node status task error m =
      let (time, w) = host.now_iso m.world in
      let noted =
        note node status (task_failed_entry node status task error time) (record m { world = w }) in
      record noted { run_status = "failed"; inflight = drop_key node m.inflight; progressed = true }

  abbrev pub deadline_reached : ℕ → Option ℕ → Bool
  deadline_reached now none = false
  deadline_reached now (some deadline) = host.reached now deadline

  abbrev pub asleep : Machine host.World → Machine host.World
  asleep m = record m { world = host.sleep m.world }

  -- The end of a round, and whether another follows.
  abbrev pub round_end : Machine host.World → Bool × Machine host.World
  round_end m =
      if m.progressed then (true, m) else if is_nil m.inflight then (false, m) else (true, asleep m)

  module _ (ir : ExecutionIr) where
    pub complete_task :
        String → InflightTask → Fields → Machine host.World → Outcome (Machine host.World)
    unfolding note drop_key validate_payload get put_field
    complete_task node task output m = elim (get node ir.resolved_nodes) [
      | none ↦ raised key_error
      | some n ↦ elim (validate_payload output n.out_type (node ++ ".out")) [
        | some e ↦ raised (invalid_output e)
        | none ↦
            let (time, w) = host.now_iso m.world in
            let noted =
              note node "completed" (completed_entry node task output time)
                (record m { world = w }) in
            done (record noted {
              node_outputs = put_field node (dict output) m.node_outputs;
              inflight = drop_key node m.inflight;
              progressed = true;
            })
      ]
    ]

    abbrev pub after_poll :
        String → InflightTask → Option Polled → Machine host.World → Outcome (Machine host.World)
    after_poll node task none m = raised adapter_error
    after_poll node task (some running) m = done m
    after_poll node task (some (completed output)) m = complete_task node task (or_empty output) m
    after_poll node task (some (unsuccessful error)) m =
        done (fail_task node "failed" task (or_provider_failed error) m)

    -- The body of the second pass.
    pub poll_task : ℕ → String → InflightTask → Machine host.World → Outcome (Machine host.World)
    unfolding fail_task complete_task
    poll_task now node task m =
        if deadline_reached now task.deadline
        then elim (host.cancel task.task_id m.world) [
          | none ↦ raised adapter_error
          | some w ↦ done (
              fail_task node "timed_out" task (error_of "timeout" "Node execution timed out")
                (record m { world = w }))
        ]
        else let (answer, w) = host.poll task.task_id m.world in
          after_poll node task answer (record m { world = w })

    pub poll_pass : ℕ → Dict InflightTask → Machine host.World → Outcome (Machine host.World)
    unfolding poll_task
    poll_pass now [] m = done m
    poll_pass now ((node, task) ∷ tasks) m =
        poll_task now node task m >>= λ m'. poll_pass now tasks m'

    module _ (run_id : String) (trigger_input : Fields) where
      -- One node of the first pass.
      pub schedule_node :
          Dict (List Edge) → String → Machine host.World → Outcome (Machine host.World)
      unfolding schedule_if_ready contains
      schedule_node incoming node m =
          if contains m.pending node
          then (schedule_if_ready host ir run_id trigger_input incoming node m >>= λ started.
              done (settle node started))
          else done m

      pub schedule_pass :
          Dict (List Edge) → List String → Machine host.World → Outcome (Machine host.World)
      unfolding schedule_node
      schedule_pass incoming [] m = done m
      schedule_pass incoming (node ∷ nodes) m =
          schedule_node incoming node m >>= λ m'. schedule_pass incoming nodes m'

      -- One round of the `while` loop.
      pub round : Dict (List Edge) → Machine host.World → Outcome (Bool × Machine host.World)
      unfolding schedule_pass poll_pass
      round incoming m =
          schedule_pass incoming ir.topological_order (record m { progressed = false }) >>= λ m1.
          if m1.run_status == "failed"
          then done (false, m1)
          else let (now, w) = host.monotonic m1.world in
            poll_pass now m1.inflight (record m1 { world = w }) >>= λ m2. done (round_end m2)

      -- The loop; `none` means that the fuel ran out.
      pub run_loop :
          ℕ → Dict (List Edge) → Machine host.World → Option (Outcome (Machine host.World))
      unfolding round
      run_loop zero incoming m = none
      run_loop (suc fuel) incoming m =
          if is_nil m.pending && is_nil m.inflight then some (done m) else elim (round incoming m) [
            | raised e ↦ some (raised e)
            | done (again, m') ↦ elim again [
              | true ↦ run_loop fuel incoming m'
              | false ↦ some (done m')
            ]
          ]

      abbrev pub initial : host.World → Machine host.World
      initial w = record {
        node_outputs = end;
        node_statuses = [];
        execution_log = [];
        run_status = "running";
        pending = ir.topological_order;
        inflight = [];
        progressed = false;
        world = w;
      }

      abbrev or_null_at : String → Fields → Value
      or_null_at k d = elim (get_field k d) [ none ↦ null | some v ↦ v ]

      pub output_of : Option String → Machine host.World → Outcome (Option Value)
      unfolding resolve_mapping
      output_of none m = done none
      output_of (some ref) m =
          if ref == "" || m.run_status == "failed"
          then done none
          else elim (resolve_mapping host.literals host.str_of
              (run_state host ir run_id trigger_input m) ir.trigger (field "_" (str ref) end)) [
                | none ↦ raised mapping_failed
                | some d ↦ done (some (or_null_at "_" d))
              ]

      abbrev pub result_of : Machine host.World → Option Value → RunResult
      result_of m output = record {
        run_status = closing_status m.run_status;
        execution_log = m.execution_log;
        node_outputs = m.node_outputs;
        node_statuses = m.node_statuses;
        process_output = output;
        audit = ir.audit;
      }

      -- What follows the loop.
      pub finish_run : Machine host.World → Outcome RunResult
      unfolding output_of
      finish_run m = output_of ir.output m >>= λ output. done (result_of m output)

      abbrev pub finish_runs : Option (Outcome (Machine host.World)) → Option (Outcome RunResult)
      finish_runs none = none
      finish_runs (some (raised e)) = some (raised e)
      finish_runs (some (done m)) = some (finish_run m)

      -- The constructor of `BpgOrchestrator`, and `run`.
      pub run : ℕ → host.World → Option (Outcome RunResult)
      unfolding incoming_table no_edges run_loop finish_run
      run fuel w = elim (incoming_table ir.resolved_edges (no_edges ir.resolved_nodes)) [
        | none ↦ some (raised key_error)
        | some incoming ↦ finish_runs (run_loop fuel incoming (initial w))
      ]
