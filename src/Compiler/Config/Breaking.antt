-- ===== src/Compiler/Config/Breaking.antt =====
-- `is_breaking_node_type_change` of src/bpg/compiler/validator.py.
pub mod Values
pub mod Fields
pub mod Keeps
use bpg.Common.{
  String, Bool, true, false, ◌&&◌, not, Option, none, some, List, [], ◌∷◌, ◌==◌, Dict, get,
  if◌then◌else◌,
}
use bpg.Compiler.Types.{FieldType}
use bpg.Compiler.Schema.{NodeType, resolve_fields}

pub data Reason : Type 0 where
  input_type_changed : Reason
  output_type_changed : Reason
  provider_changed : Reason
  field_removed : String → Reason
  type_changed : String → Reason
  enum_values_changed : String → Reason
  list_element_changed : String → Reason
  now_required : String → Reason

-- `unreadable` is the `ValueError` of a type string.
pub data BreakCheck : Type 0 where
  not_breaking : BreakCheck
  breaking : Reason → BreakCheck
  unreadable : BreakCheck

pub same_names : List String → List String → Bool
same_names [] [] = true
same_names (x ∷ xs) (y ∷ ys) = x == y && same_names xs ys
same_names _ _ = false

-- The tests on a field that both schemas have.
pub field_change : String → FieldType → FieldType → Option Reason
unfolding same_names
field_change name old new =
    if not (old.base == new.base)
    then some (type_changed name)
    else if not (same_names old.enum_values new.enum_values)
    then some (enum_values_changed name)
    else if not (old.list_element == new.list_element)
    then some (list_element_changed name)
    else if old.optional && not new.optional
    then some (now_required name)
    else none

-- The loop over the old schema.
pub schema_change : Dict FieldType → Dict FieldType → Option Reason
unfolding field_change get
schema_change [] new = none
schema_change ((name, old_ft) ∷ old) new = elim (get name new) [
  | none ↦ some (field_removed name)
  | some new_ft ↦ elim (field_change name old_ft new_ft) [
    | some reason ↦ some reason
    | none ↦ schema_change old new
  ]
]

pub compared : Option (Dict FieldType) → Option (Dict FieldType) → BreakCheck
unfolding schema_change
compared none new = unreadable
compared (some old) none = unreadable
compared (some old) (some new) = elim (schema_change old new) [
  | none ↦ not_breaking
  | some reason ↦ breaking reason
]

-- The whole function.
unfoldable pub is_breaking_node_type_change : NodeType → NodeType → BreakCheck
unfolding compared resolve_fields
is_breaking_node_type_change old new =
    if not (old.input_type == new.input_type)
    then breaking input_type_changed
    else if not (old.output_type == new.output_type)
    then breaking output_type_changed
    else if not (old.provider == new.provider)
    then breaking provider_changed
    else compared (resolve_fields old.config_schema) (resolve_fields new.config_schema)
