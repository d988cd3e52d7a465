-- ===== src/Compiler/Plan/Examples.antt =====
-- A small process planned against the deployed one, and the theorems about plans at it.
use bpg.Common.{
  All, String, ◌≡◌, refl, ◌↔◌, true, false, Option, none, some, List, [], ◌∷◌, Dict, contains, get,
  keys,
}
use bpg.Common.Text.{sort_names, union}
use bpg.Value.{Fields, str, end, field}
use bpg.Compiler.Types.{parse_field_type}
use bpg.Compiler.Schema.{NodeType, NodeInstance, Edge, ResolvedNode}
use bpg.Compiler.Config.{fine, validate_config}
use bpg.Compiler.Config.Breaking.{is_breaking_node_type_change}
use bpg.Compiler.Config.Examples.{
  readers, node_type_of, old_schema, new_schema, config, new_schema-IsUnique, fields-IsOldOrAbsent,
  accepts_config,
}
use bpg.Compiler.Plan.{ProcessIr, SameModels, Plan, compute_diff, planned, make_plan, plan_is_empty}
use bpg.Compiler.Plan.EdgeIds.{has_space, HasPlainNames}
use bpg.Compiler.Plan.Changes.{IsUnchanged, plan_is_empty-IsUnchanged}
use bpg.Compiler.Plan.Guards.{
  IsCompatible, make_plan-IsCompatible, make_plan-keeps_config, with_mappings,
  compute_diff_ignores_mappings,
}

abbrev models : SameModels
models = record {
  same_instance = λ a b. true;
  same_definition = λ a b. true;
  same_type = λ a b. false;
  same_module = λ a b. true;
}

abbrev instance_of : String → NodeInstance
instance_of type_name = record {
  node_type = type_name;
  config = config;
  stable_input_fields = [];
  unstable_input_fields = [];
  on_timeout = none;
  rest = end;
}

abbrev resolved : String → NodeType → ResolvedNode
resolved name t = record {
  name = name;
  instance_ = instance_of "call";
  node_type = some t;
  in_type = record { name = "Request"; fields = [] };
  out_type = record { name = "Reply"; fields = [] };
}

abbrev edge : String → String → Option Fields → Edge
edge a b mapping = record {
  source = a;
  target = b;
  when = some "a.out.ok == true";
  mapping = mapping;
  rest = end;
}

abbrev ir_of : Dict String → List String → ProcessIr
ir_of schema names = record {
  process = record {
    types = [];
    node_types = ("call", node_type_of schema) ∷ [];
    modules = [];
    node_names = names;
    edges = edge "a" "b" none ∷ [];
    trigger = "a";
  };
  resolved_nodes =
      ("a", resolved "a" (node_type_of schema)) ∷ ("b", resolved "b" (node_type_of schema)) ∷ [];
}

abbrev deployed : ProcessIr
deployed = ir_of old_schema ("a" ∷ "b" ∷ [])

abbrev proposed : ProcessIr
proposed = ir_of new_schema ("a" ∷ "b" ∷ [])

abbrev plan : Plan
plan = record {
  added_nodes = [];
  removed_nodes = [];
  modified_nodes = [];
  added_edges = [];
  removed_edges = [];
  trigger_changed = false;
}

makes_plan : make_plan models proposed (some deployed) ≡ planned plan
unfolding make_plan is_breaking_node_type_change parse_field_type get contains keys sort_names union
makes_plan = refl

plain_names : All HasPlainNames (edge "a" "b" none ∷ [])
unfolding has_space
plain_names = ((refl, refl), tt)

plan_is_empty-IsUnchanged_example :
    (plan_is_empty (compute_diff models proposed (some deployed)) ≡ true)
    ↔ IsUnchanged models proposed deployed
plan_is_empty-IsUnchanged_example =
    plan_is_empty-IsUnchanged models proposed deployed plain_names plain_names

make_plan-IsCompatible_example : IsCompatible models deployed.process proposed.process
make_plan-IsCompatible_example = make_plan-IsCompatible models proposed deployed plan makes_plan

finds_old : get "call" deployed.process.node_types ≡ some (node_type_of old_schema)
unfolding get
finds_old = refl

finds_new : get "call" proposed.process.node_types ≡ some (node_type_of new_schema)
unfolding get
finds_new = refl

make_plan-keeps_config_example : validate_config readers new_schema config ≡ fine
make_plan-keeps_config_example =
    make_plan-keeps_config models proposed deployed plan readers "call" (node_type_of old_schema)
      (node_type_of new_schema) config makes_plan finds_old finds_new refl new_schema-IsUnique
      fields-IsOldOrAbsent accepts_config

abbrev other_mapping : Edge → Option Fields
other_mapping e = some (field "x" (str "a.out.y") end)

compute_diff_ignores_mappings_example :
    plan_is_empty (compute_diff models (with_mappings other_mapping deployed) (some deployed))
    ≡ true
compute_diff_ignores_mappings_example =
    compute_diff_ignores_mappings models other_mapping deployed (λ n. (refl, refl))
