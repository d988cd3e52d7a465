-- ===== src/Expr/Paths.antt =====
-- `_resolve_path` of src/bpg/runtime/expr.py: a dotted reference into the state of a run.
use bpg.Common.{String, Option, none, some, List, [], ◌∷◌, ◌==◌, ◌&&◌, if◌then◌else◌}
use bpg.Common.Text.{split}
use bpg.Value.{Value, Fields, null, bool, int, float, str, list, dict, get_field}

-- The parts of `RunState` that an expression reads.
pub record RunState : Type 0 where
  pub trigger_input : Fields
  pub node_outputs : Fields

abbrev or_null : Option Value → Value
or_null none = null
or_null (some v) = v

-- The loop over `field_parts`; `none` is an `_EvalError`.
pub walk : List String → Value → Option Value
unfolding get_field
walk [] v = some v
walk (part ∷ parts) (dict d) = walk parts (or_null (get_field part d))
walk (part ∷ parts) null = none
walk (part ∷ parts) (bool b) = none
walk (part ∷ parts) (int i) = none
walk (part ∷ parts) (float x) = none
walk (part ∷ parts) (str s) = none
walk (part ∷ parts) (list xs) = none

walk_output : Option Value → List String → Option Value
unfolding walk
walk_output none parts = none
walk_output (some v) parts = walk parts v

pub resolve_parts : RunState → String → List String → Option Value
unfolding walk walk_output get_field
resolve_parts state trigger_name [] = none
resolve_parts state trigger_name (node_ref ∷ []) = none
resolve_parts state trigger_name (node_ref ∷ segment ∷ field_parts) =
    if node_ref == "trigger" && segment == "in"
    then walk field_parts (dict state.trigger_input)
    else if segment == "out"
    then walk_output
        (get_field (if node_ref == "trigger" then trigger_name else node_ref) state.node_outputs)
        field_parts
    else none

unfoldable pub resolve_path : RunState → String → String → Option Value
unfolding resolve_parts split
resolve_path state trigger_name path = resolve_parts state trigger_name (split b'.' path)
