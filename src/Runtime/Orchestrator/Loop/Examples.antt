-- ===== src/Runtime/Orchestrator/Loop/Examples.antt =====
-- A run of a small process.
use bpg.Common.{
  List, ℕ, zero, suc, ◌≤◌, ◌<◌, String, ◌≡◌, refl, ◌⊎◌, Option, none, some, [], ◌∷◌, ◌==◌, Dict,
  get, put, has_key, contains, keys, arith, All, if◌then◌else◌, distinct→count-le,
}
use bpg.Common.Text.{is_space, split, strip, after_prefix, sort_names}
use bpg.Value.{Fields, get_field, put_field, has_field, truthy, str, dict, end, field}
use bpg.Compiler.Topology.{topological_sort}
use bpg.Expr.Scan.{scan, span, take_text, drop_text, starts_word, word_length}
use bpg.Expr.Paths.{resolve_path}
use bpg.Expr.Compare.{same, apply_cmp}
use bpg.Expr.Eval.{eval_when}
use bpg.Expr.Source.{eval_expression}
use bpg.Expr.Mapping.{has_text, is_field_ref, resolve_mapping}
use bpg.Runtime.Payload.{
  validate_payload, idempotency_payload, parse_duration_seconds, missing_required,
}
use bpg.Runtime.Orchestrator.{
  Outcome, done, raised, invalid_output, Host, InflightTask, ExecutionIr, running, completed,
  unsuccessful, skipped_entry, scheduled_entry,
}
use bpg.Runtime.Orchestrator.Samples.{
  answer, sample_host, sample_ir, untyped, report_type, node, edge,
}
use bpg.Runtime.Orchestrator.Loop.{RunResult, run, completed_entry, remove_name}
use bpg.Runtime.Replay.{replay_state_from_events}
use bpg.Runtime.Orchestrator.Loop.Steps.{
  Calls, no_call, start_call, poll_call, cancel_call, monotonic_call, now_call,
}
use bpg.Runtime.Orchestrator.Loop.Scheduling.{NamesTasks}
use bpg.Runtime.Orchestrator.Loop.Order.{IsCompiled}
use bpg.Runtime.Orchestrator.Loop.Once.{starts}
use bpg.Runtime.Orchestrator.Loop.Failing.{HasBadNode}
use bpg.Runtime.Orchestrator.Loop.Results.{
  IsGoodNode, IsRespected, HasNames, run-replay, run-settles, run-respects_edges, run-starts_once,
}
use bpg.Runtime.Orchestrator.Loop.Ends.{Patience, run-total}

abbrev risk : Fields
risk = field "risk" (str "high") end

abbrev task : String → Fields → InflightTask
task name input = record {
  task_id = "task";
  node_name = name;
  node_input = input;
  idempotency_key = if name == "intake" then "r1:intake:{}" else "r1:file:{}";
  started_at = "now";
  deadline = none;
}

abbrev result : RunResult
result = record {
  run_status = "completed";
  execution_log =
      scheduled_entry "intake" (task "intake" end)
      ∷ completed_entry "intake" (task "intake" end) risk "now"
      ∷ scheduled_entry "file" (task "file" risk)
      ∷ skipped_entry "close" "now"
      ∷ completed_entry "file" (task "file" risk) risk "now"
      ∷ [];
  node_outputs = field "intake" (dict risk) (field "file" (dict risk) end);
  node_statuses = ("intake", "completed") ∷ ("file", "completed") ∷ ("close", "skipped") ∷ [];
  process_output = some (str "high");
  audit = none;
}

run-sample : run sample_host sample_ir "r1" end 20 3 ≡ some (done result)
unfolding run get put has_key contains get_field put_field has_field truthy is_space split strip
    after_prefix sort_names scan span take_text drop_text starts_word word_length resolve_path same
    eval_expression has_text is_field_ref resolve_mapping validate_payload idempotency_payload
    parse_duration_seconds remove_name eval_when apply_cmp
run-sample = refl

-- A task whose output does not fit the type of its node is no failure of the node: the error leaves `run`.
abbrev careless_host : Host
careless_host = record sample_host { poll = λ task_id w. (some (completed none), w) }

run-careless :
    run careless_host sample_ir "r1" end 20 3
    ≡ some (raised (invalid_output (missing_required "intake.out" ("risk" ∷ []) "Report")))
unfolding run get put has_key contains get_field put_field has_field truthy is_space split strip
    after_prefix sort_names scan span take_text drop_text starts_word word_length resolve_path same
    eval_expression has_text is_field_ref resolve_mapping validate_payload idempotency_payload
    parse_duration_seconds remove_name eval_when apply_cmp
run-careless = refl

sample_host-NamesTasks : NamesTasks sample_host
sample_host-NamesTasks call w task_id e = rw (← injective e) refl
  where
    injective : some "task" ≡ some task_id → "task" ≡ task_id
    injective e = cc

sample_ir-IsCompiled : IsCompiled sample_ir
unfolding topological_sort get put keys
sample_ir-IsCompiled = record {
  unique = unfold contains in distinct→count-le ("intake" ∷ "file" ∷ "close" ∷ []) refl;
  in_order = refl;
}

sample_ir-HasNames : All HasNames sample_ir.resolved_edges
sample_ir-HasNames = ((refl, refl), ((refl, refl), tt))

run-replay_example :
    get "close"
      (replay_state_from_events sample_host.str_of sample_host.numbers.is_zero "later"
        result.execution_log).node_statuses
    ≡ get "close" result.node_statuses
run-replay_example =
    run-replay sample_host sample_ir "r1" end sample_host-NamesTasks 20 3 result "later" "close"
      run-sample refl

run-settles_example :
    ((result.run_status ≡ "completed")
      × All (IsGoodNode result.node_statuses) sample_ir.topological_order)
    ⊎ ((result.run_status ≡ "failed") × HasBadNode result.node_statuses)
run-settles_example =
    run-settles sample_host sample_ir "r1" end sample_host-NamesTasks 20 3 result
      sample_ir-IsCompiled run-sample

abbrev first_entries : List Fields
first_entries =
    scheduled_entry "intake" (task "intake" end)
    ∷ completed_entry "intake" (task "intake" end) risk "now"
    ∷ scheduled_entry "file" (task "file" risk)
    ∷ []

abbrev last_entries : List Fields
last_entries =
    skipped_entry "close" "now" ∷ completed_entry "file" (task "file" risk) risk "now" ∷ []

run-respects_edges_example :
    All
      (IsRespected sample_ir.trigger
        (replay_state_from_events sample_host.str_of sample_host.numbers.is_zero "later"
          first_entries).node_statuses)
      sample_ir.resolved_edges
run-respects_edges_example =
    run-respects_edges sample_host sample_ir "r1" end sample_host-NamesTasks 20 3 result "later"
      first_entries last_entries sample_ir-HasNames run-sample refl

run-starts_once_example : starts sample_host "later" "file" result.execution_log ≤ 1
run-starts_once_example =
    run-starts_once sample_host sample_ir "r1" end sample_host-NamesTasks 20 3 result "later" "file"
      run-sample refl

answer-patience : (w : ℕ) → (answer w).0 ≡ some running → (answer w).1 < w
answer-patience zero e = absurd (cc)
answer-patience (suc n) e = omega arith

answer-le : (w : ℕ) → (answer w).1 ≤ w
answer-le zero = omega arith
answer-le (suc n) = omega arith

Calls-le : (w w' : ℕ) → Calls sample_host w w' → w' ≤ w
Calls-le w w' no_call = omega arith
Calls-le w w' (start_call {v} call c) = Calls-le w v c
Calls-le w w' (poll_call {v} task_id c) = omega (arith, Calls-le w v c, answer-le v)
Calls-le w w' (cancel_call {v} {u} task_id c e) =
    let same : v ≡ u = cc in omega (arith, Calls-le w v c, same)
Calls-le w w' (monotonic_call {v} c) = Calls-le w v c
Calls-le w w' (now_call {v} c) = Calls-le w v c

abbrev sample_patience : Patience sample_host
sample_patience = record {
  left = λ w. w;
  poll_running = λ task_id w e. answer-patience w e;
  calls_le = Calls-le;
  sleep_le = λ w. omega arith;
}

run-total_example : (r : Outcome RunResult) × (run sample_host sample_ir "r1" end 20 3 ≡ some r)
run-total_example =
    run-total sample_host sample_patience sample_ir "r1" end sample_host-NamesTasks 20 3
      (omega arith)

-- Two nodes start together; one completes, the other fails in the same pass. The next pass still starts the
-- node behind the first before the loop is left, and its task is never looked at again.
abbrev split_host : Host
split_host = record sample_host {
  start_node = λ call w. (some call.node_name, w);
  poll = λ task_id w.
      (some (if task_id == "audit" then unsuccessful none else completed (some risk)), w);
}

abbrev split_ir : ExecutionIr
split_ir = record sample_ir {
  resolved_edges = edge "intake" "file" none (some (field "risk" (str "intake.out.risk") end)) ∷ [];
  resolved_nodes =
      ("intake", node "intake" (untyped "object"))
      ∷ ("audit", node "audit" (untyped "object"))
      ∷ ("file", node "file" report_type)
      ∷ [];
  topological_order = "intake" ∷ "audit" ∷ "file" ∷ [];
}

abbrev statuses_of : Option (Outcome RunResult) → Dict String
statuses_of none = []
statuses_of (some (raised e)) = []
statuses_of (some (done r)) = r.node_statuses

run-split :
    statuses_of (run split_host split_ir "r1" end 20 0)
    ≡ ("intake", "completed") ∷ ("audit", "failed") ∷ ("file", "running") ∷ []
unfolding run get put has_key contains get_field put_field has_field truthy is_space split strip
    after_prefix sort_names scan span take_text drop_text starts_word word_length resolve_path same
    eval_expression has_text is_field_ref resolve_mapping validate_payload idempotency_payload
    parse_duration_seconds remove_name eval_when apply_cmp
run-split = refl
