-- ===== src/Runtime/Orchestrator/Samples.antt =====
-- A small process, and surroundings in which every task runs for a while and then completes.
use bpg.Common.{ℕ, zero, suc, ◌+◌, ◌-◌, String, false, ◌&&◌, Option, none, some, [], ◌∷◌, leb}
use bpg.Value.{Fields, str, end, field}
use bpg.Compiler.Schema.{NodeType, NodeInstance, Edge, ResolvedTypeDef, ResolvedNode}
use bpg.Expr.Scan.{CharClass}
use bpg.Expr.Compare.{Numbers}
use bpg.Expr.Mapping.{Literals}
use bpg.Runtime.Orchestrator.{Polled, running, completed, Host, ExecutionIr}

abbrev pub ascii : CharClass
ascii = record { is_digit = λ c. leb b'0' c && leb c b'9'; is_word = λ c. leb b'0' c && leb c b'9' }

abbrev pub python : Numbers
python = record {
  float_of = λ s. 0;
  is_zero = λ x. false;
  same_floats = λ v w. false;
  order_floats = λ c v w. false;
  digit_value = λ c. c - b'0';
}

abbrev pub literals : Literals
literals = record { chars = ascii; digit_value = λ c. c - b'0'; float_literal = λ s. none }

-- A world is the number of polls that are answered by `running` before the tasks complete.
abbrev pub answer : ℕ → Option Polled × ℕ
answer zero = (some (completed (some (field "risk" (str "high") end))), 0)
answer (suc n) = (some running, n)

abbrev pub sample_host : Host
sample_host = record {
  World = ℕ;
  start_node = λ call w. (some "task", w);
  poll = λ task_id w. answer w;
  cancel = λ task_id w. some w;
  monotonic = λ w. (0, w);
  now_iso = λ w. ("now", w);
  sleep = λ w. w;
  seconds = λ number unit. 0;
  plus = λ a b. a + b;
  reached = λ now deadline. leb deadline now;
  canonical = λ d. "{}";
  sha256 = λ s. s;
  message = λ e. "invalid";
  conflict_message = λ key. key;
  numbers = python;
  literals = literals;
  str_of = λ v. "";
}

abbrev pub untyped : String → ResolvedTypeDef
untyped name = record { name = name; fields = [] }

abbrev pub report_type : ResolvedTypeDef
report_type = record {
  name = "Report";
  fields =
      ("risk", record { base = "string"; optional = false; enum_values = []; list_element = "" })
      ∷ [];
}

abbrev instance_of : NodeInstance
instance_of = record {
  node_type = "agent@v1";
  config = end;
  stable_input_fields = [];
  unstable_input_fields = [];
  on_timeout = none;
  rest = end;
}

abbrev agent : NodeType
agent = record {
  input_type = "object";
  output_type = "Report";
  provider = "mock";
  version = "v1";
  config_schema = [];
  rest = end;
}

abbrev pub node : String → ResolvedTypeDef → ResolvedNode
node name in_type = record {
  name = name;
  instance_ = instance_of;
  node_type = some agent;
  in_type = in_type;
  out_type = report_type;
}

abbrev pub edge : String → String → Option String → Option Fields → Edge
edge source target when mapping = record {
  source = source;
  target = target;
  when = when;
  mapping = mapping;
  rest = end;
}

-- The intake is triaged, and filed if the risk is high; a low risk would be closed.
abbrev pub sample_ir : ExecutionIr
sample_ir = record {
  process_name = "bugs";
  resolved_nodes =
      ("intake", node "intake" (untyped "object"))
      ∷ ("file", node "file" report_type)
      ∷ ("close", node "close" (untyped "object"))
      ∷ [];
  resolved_edges =
      edge "intake" "file" (some "intake.out.risk == 'high'")
        (some (field "risk" (str "intake.out.risk") end))
      ∷ edge "intake" "close" (some "intake.out.risk == 'low'") none
      ∷ [];
  topological_order = "intake" ∷ "file" ∷ "close" ∷ [];
  trigger = "intake";
  output = some "file.out.risk";
  audit = none;
}
