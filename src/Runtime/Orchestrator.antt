-- ===== src/Runtime/Orchestrator.antt =====
-- `BpgOrchestrator` of src/bpg/runtime/orchestrator.py: the state of a run, what the run asks of its
-- surroundings, and the start of a node, `_schedule_if_ready`.
pub mod Loop
pub mod Entries
mod Samples
use Prim.Native.String.{◌++◌}
use bpg.Common.{
  ℕ, String, Bool, true, false, not, ◌&&◌, ◌||◌, Option, none, some, List, [], ◌∷◌, ◌==◌,
  if◌then◌else◌, Dict, get, put, contains,
}
use mathlib.Core.List.{◌++◌ as onto_list}
use bpg.Value.{
  Value, Fields, null, bool, str, list, dict, end, field, get_field, put_field, has_field, truthy,
}
use bpg.Compiler.Schema.{NodeType, NodeInstance, Edge, ResolvedTypeDef, ResolvedNode, mapping_of}
use bpg.Expr.Paths.{RunState}
use bpg.Expr.Compare.{Numbers, same}
use bpg.Expr.Eval.{EvalError, Evaluated, evaluated, failed, unevaluated}
use bpg.Expr.Source.{eval_expression}
use bpg.Expr.Mapping.{Literals, resolve_mapping}
use bpg.Runtime.Payload.{
  PayloadError, validate_payload, idempotency_payload, parse_duration_seconds,
}

-- What escapes from `run`.
pub data RunError : Type 0 where
  key_error : RunError
  eval_failed : EvalError → RunError
  mapping_failed : RunError
  adapter_error : RunError
  invalid_output : PayloadError → RunError
  unfinished : RunError

pub data Outcome {ℓ} (A : Type ℓ) : Type ℓ where
  done : A → Outcome A
  raised : RunError → Outcome A

infixl 5 ◌>>=◌
abbrev pub ◌>>=◌ {ℓ κ} : {A : Type ℓ} {B : Type κ} → Outcome A → (A → Outcome B) → Outcome B
done a >>= f = f a
raised e >>= f = raised e

-- The arguments of `start_node`.
pub record StartCall : Type 0 where
  pub run_id : String
  pub process_name : String
  pub node_name : String
  pub node_type : NodeType
  pub input_payload : Fields
  pub config : Fields
  pub idempotency_key : String

-- The three results of `poll`, a status other than the first two with its error.
pub data Polled : Type 0 where
  running : Polled
  completed : Option Fields → Polled
  unsuccessful : Option Fields → Polled

-- The surroundings: the node adapter, whose calls raise where they give `none`, and the clocks. Each call
-- may change the world. The pure functions of Python follow; times are floats.
pub record Host : Type 1 where
  pub World : Type 0
  pub start_node : StartCall → World → Option String × World
  pub poll : String → World → Option Polled × World
  pub cancel : String → World → Option World
  pub monotonic : World → ℕ × World
  pub now_iso : World → String × World
  pub sleep : World → World
  pub seconds : String → String → ℕ
  pub plus : ℕ → ℕ → ℕ
  pub reached : ℕ → ℕ → Bool
  pub canonical : Fields → String
  pub sha256 : String → String
  pub message : PayloadError → String
  pub conflict_message : String → String
  pub numbers : Numbers
  pub literals : Literals
  pub str_of : Value → String

-- `_InflightTask`
pub record InflightTask : Type 0 where
  pub task_id : String
  pub node_name : String
  pub node_input : Fields
  pub idempotency_key : String
  pub started_at : String
  pub deadline : Option ℕ

-- The parts of `ExecutionIR` that a run reads. The source and the target of a resolved edge are nodes by
-- these names.
pub record ExecutionIr : Type 0 where
  pub process_name : String
  pub resolved_nodes : Dict ResolvedNode
  pub resolved_edges : List Edge
  pub topological_order : List String
  pub trigger : String
  pub output : Option String
  pub audit : Option Fields

-- What changes during a run: `RunState`, `pending`, `inflight`, `progressed`, and the world.
pub record Machine (W : Type 0) : Type 0 where
  pub node_outputs : Fields
  pub node_statuses : Dict String
  pub execution_log : List Fields
  pub run_status : String
  pub pending : List String
  pub inflight : Dict InflightTask
  pub progressed : Bool
  pub world : W

-- `self._incoming`
abbrev pub add_incoming : Edge → Dict (List Edge) → Option (Dict (List Edge))
add_incoming e table = elim (get e.target table) [
  | none ↦ none
  | some edges ↦ some (put e.target (onto_list edges (e ∷ [])) table)
]

pub incoming_table : List Edge → Dict (List Edge) → Option (Dict (List Edge))
unfolding get put
incoming_table [] table = some table
incoming_table (e ∷ edges) table = elim (add_incoming e table) [
  | none ↦ none
  | some table' ↦ incoming_table edges table'
]

pub no_edges : Dict ResolvedNode → Dict (List Edge)
no_edges [] = []
no_edges ((name, n) ∷ nodes) = (name, []) ∷ no_edges nodes

-- `self._incoming.get(node_name, [])`
abbrev pub incoming_of : String → Dict (List Edge) → List Edge
incoming_of name table = elim (get name table) [ none ↦ [] | some edges ↦ edges ]

-- `status in _TERMINAL_STATUSES`
abbrev pub is_terminal : Option String → Bool
is_terminal none = false
is_terminal (some s) = s == "completed" || s == "skipped" || s == "failed" || s == "timed_out"

abbrev pub is_completed : Option String → Bool
is_completed none = false
is_completed (some s) = s == "completed"

pub any_unsettled : Dict String → List Edge → Bool
unfolding get
any_unsettled statuses [] = false
any_unsettled statuses (e ∷ edges) =
    not (is_terminal (get e.source statuses)) || any_unsettled statuses edges

-- The entries of the execution log.
abbrev pub skipped_entry : String → String → Fields
skipped_entry node time =
    field "event" (str "node_completed") (
      field "node" (str node)
        (field "status" (str "skipped") (field "completed_at" (str time) end)))

abbrev pub error_of : String → String → Fields
error_of code message = field "code" (str code) (field "message" (str message) end)

abbrev pub failed_entry : String → Fields → String → Fields
failed_entry node error time = field "event" (str "node_failed") (
    field "node" (str node) (
      field "status" (str "failed")
        (field "error" (dict error) (field "completed_at" (str time) end))))

abbrev pub invalid_entry : String → Fields → Fields → String → Fields
invalid_entry node input error time = field "event" (str "node_failed") (
    field "node" (str node) (
      field "status" (str "failed") (
        field "input" (dict input)
          (field "error" (dict error) (field "completed_at" (str time) end)))))

abbrev pub scheduled_entry : String → InflightTask → Fields
scheduled_entry node task = field "event" (str "node_scheduled") (
    field "node" (str node) (
      field "status" (str "running") (
        field "input" (dict task.node_input) (
          field "idempotency_key" (str task.idempotency_key)
            (field "started_at" (str task.started_at) end)))))

-- `state["node_statuses"][node] = status` and `state["execution_log"].append(entry)`
pub note : {W : Type 0} → String → String → Fields → Machine W → Machine W
unfolding put
note node status entry m = record m {
  node_statuses = put node status m.node_statuses;
  execution_log = onto_list m.execution_log (entry ∷ []);
}

-- The result of merging mapped values, with the key of a conflict.
pub data Merged : Type 0 where
  merged : Fields → Merged
  conflict : String → Merged

module _ (host : Host) where
  abbrev pub Started : Type 0
  Started = Machine host.World × Option InflightTask

  -- `_InflightTask("", node_name, {}, "", _now_iso(), None)`
  abbrev pub no_task : String → Machine host.World → Started
  no_task node m =
      let (time, w) = host.now_iso m.world in
      (
        record m { world = w },
        some (record {
          task_id = "";
          node_name = node;
          node_input = end;
          idempotency_key = "";
          started_at = time;
          deadline = none;
        }),
      )

  pub skip_node : String → Machine host.World → Started
  unfolding note
  skip_node node m =
      let (time, w) = host.now_iso m.world in
      no_task node (note node "skipped" (skipped_entry node time) (record m { world = w }))

  -- A node that fails before it starts.
  pub refuse_node : String → (String → Fields) → Machine host.World → Started
  unfolding note
  refuse_node node entry m =
      let (time, w) = host.now_iso m.world in
      let noted = note node "failed" (entry time) (record m { world = w }) in
      no_task node (record noted { run_status = "failed" })

  -- `for key, value in part.items()`
  pub merge_part : Fields → Fields → Merged
  unfolding get_field put_field same
  merge_part end out = merged out
  merge_part (field key value part) out =
      let rest = merge_part part (put_field key value out) in
      elim (get_field key out) [
        | none ↦ rest
        | some old ↦ if same host.numbers old value then rest else conflict key
      ]

  abbrev pub deadline_from : Option ℕ → host.World → Option ℕ × host.World
  deadline_from none w = (none, w)
  deadline_from (some s) w = let (now, w') = host.monotonic w in (some (host.plus now s), w')

  -- `compute_idempotency_key` of src/bpg/providers/base.py
  pub compute_idempotency_key : String → String → Fields → String
  compute_idempotency_key run_id node payload =
      host.sha256 (run_id ++ (":" ++ (node ++ (":" ++ host.canonical payload))))

  -- What follows the answer of the adapter.
  pub after_start :
      String
      → (String → InflightTask)
      → Option String × host.World
      → Machine host.World
      → Outcome Started
  unfolding note
  after_start node task_for (none, w) m = raised adapter_error
  after_start node task_for (some task_id, w) m =
      let task = task_for task_id in
      done (note node "running" (scheduled_entry node task) (record m { world = w }), some task)

  module _ (ir : ExecutionIr) (run_id : String) (trigger_input : Fields) where
    abbrev pub run_state : Machine host.World → RunState
    run_state m = record { trigger_input = trigger_input; node_outputs = m.node_outputs }

    -- What follows the checks: the adapter starts the task.
    pub start_task :
        String → ResolvedNode → NodeType → Fields → Machine host.World → Outcome Started
    unfolding after_start compute_idempotency_key idempotency_payload parse_duration_seconds
    start_task node n node_type input m =
        let key = compute_idempotency_key run_id node (idempotency_payload n.instance_ input) in
        let (deadline, w1) =
          deadline_from
            (parse_duration_seconds host.literals.chars host.seconds
              (get_field "timeout" n.instance_.config))
            m.world in
        let (started_at, w2) = host.now_iso w1 in
        after_start node
          (λ task_id. record {
            task_id = task_id;
            node_name = node;
            node_input = input;
            idempotency_key = key;
            started_at = started_at;
            deadline = deadline;
          })
          (host.start_node
            (record {
              run_id = run_id;
              process_name = ir.process_name;
              node_name = node;
              node_type = node_type;
              input_payload = input;
              config = n.instance_.config;
              idempotency_key = key;
            })
            w2)
          m

    -- From the validation of the input on.
    pub start_node : String → ResolvedNode → Fields → Machine host.World → Outcome Started
    unfolding refuse_node start_task validate_payload
    start_node node n input m = elim (validate_payload input n.in_type (node ++ ".in")) [
      | some e ↦ done (
          refuse_node node
            (invalid_entry node input (error_of "input_validation_error" (host.message e))) m)
      | none ↦ elim n.node_type [
        | none ↦ done (
            refuse_node node
              (failed_entry node
                (error_of "module_not_executable" "Cannot execute unresolved module node"))
              m)
        | some node_type ↦ start_task node n node_type input m
      ]
    ]

    -- The truth of `edge.when and not eval_when(…)`, negated.
    pub condition_holds : Option String → RunState → Outcome Bool
    unfolding eval_expression truthy
    condition_holds none state = done true
    condition_holds (some expr) state =
        if expr == ""
        then done true
        else elim (eval_expression host.literals.chars host.numbers state ir.trigger expr) [
          | evaluated v rest ↦ done (truthy host.numbers.is_zero v)
          | failed e ↦ raised (eval_failed e)
          | unevaluated ↦ raised unfinished
        ]

    -- The loop that collects `firing_edges`.
    pub firing_edges : Machine host.World → List Edge → Outcome (List Edge)
    unfolding condition_holds get
    firing_edges m [] = done []
    firing_edges m (e ∷ edges) =
        let rest = firing_edges m edges in
        if is_completed (get e.source m.node_statuses)
        then (condition_holds e.when (run_state m) >>= λ fires.
            rest >>= λ more. done (if fires then e ∷ more else more))
        else rest

    -- The loop that builds `resolved_input`.
    pub merge_edges : RunState → List Edge → Fields → Outcome Merged
    unfolding merge_part resolve_mapping
    merge_edges state [] out = done (merged out)
    merge_edges state (e ∷ edges) out =
        elim (resolve_mapping host.literals host.str_of state ir.trigger (mapping_of e)) [
          | none ↦ raised mapping_failed
          | some part ↦ elim (merge_part part out) [
            | conflict key ↦ done (conflict key)
            | merged out' ↦ merge_edges state edges out'
          ]
        ]

    pub start_merged : String → ResolvedNode → Machine host.World → Merged → Outcome Started
    unfolding start_node refuse_node
    start_merged node n m (merged input) = start_node node n input m
    start_merged node n m (conflict key) = done (
        refuse_node node (failed_entry node (error_of "input_conflict" (host.conflict_message key)))
          m)

    pub start_firing : String → ResolvedNode → Machine host.World → List Edge → Outcome Started
    unfolding skip_node merge_edges start_merged
    start_firing node n m [] = done (skip_node node m)
    start_firing node n m (e ∷ edges) =
        merge_edges (run_state m) (e ∷ edges) end >>= λ out. start_merged node n m out

    pub start_incoming : String → ResolvedNode → Machine host.World → List Edge → Outcome Started
    unfolding start_node any_unsettled firing_edges start_firing
    start_incoming node n m [] = start_node node n end m
    start_incoming node n m (e ∷ edges) =
        if any_unsettled m.node_statuses (e ∷ edges)
        then done (m, none)
        else firing_edges m (e ∷ edges) >>= λ firing. start_firing node n m firing

    -- `_schedule_if_ready`
    pub schedule_if_ready : Dict (List Edge) → String → Machine host.World → Outcome Started
    unfolding start_node start_incoming get
    schedule_if_ready incoming node m = elim (get node ir.resolved_nodes) [
      | none ↦ raised key_error
      | some n ↦
          if node == ir.trigger
          then start_node node n trigger_input m
          else start_incoming node n m (incoming_of node incoming)
    ]
