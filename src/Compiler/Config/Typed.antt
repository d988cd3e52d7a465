-- ===== src/Compiler/Config/Typed.antt =====
-- `_validate_typed_payload` of src/bpg/compiler/validator.py: the payload that a human node answers with
-- after its timeout, against the type of its output. `key_error` is the `KeyError` of
-- `resolved_type.fields[fname]`.
pub mod Runs
use bpg.Common.{
  String, Bool, true, false, Option, none, some, List, [], ◌∷◌, Dict, get, has_key, if◌then◌else◌,
  not,
}
use bpg.Common.Text.{sort_names}
use bpg.Value.{Value, Fields, null, bool, int, float, str, list, dict, end, field, has_field}
use bpg.Compiler.Types.{FieldType}
use bpg.Compiler.Schema.{ResolvedTypeDef, required_fields, names_where}
use bpg.Compiler.Config.{
  ConfigFault, Verdict, fine, invalid, value_error, Readers, validate_config_value,
}

pub data TypedFault : Type 0 where
  not_an_object : TypedFault
  extra_fields_given : List String → TypedFault
  required_fields_missing : List String → TypedFault
  bad_field : String → ConfigFault → TypedFault

pub data TypedVerdict : Type 0 where
  conforms : TypedVerdict
  refuses : TypedFault → TypedVerdict
  unreadable_type : TypedVerdict
  key_error : TypedVerdict

-- `payload_keys - schema_keys`
pub extra_names : Fields → Dict FieldType → List String
unfolding has_key
extra_names end fields = []
extra_names (field name v payload) fields =
    let more = extra_names payload fields in if has_key name fields then more else name ∷ more

-- `required - payload_keys`
pub missing_names : List String → Fields → List String
unfolding has_field
missing_names [] payload = []
missing_names (name ∷ names) payload =
    let more = missing_names names payload in if has_field name payload then more else name ∷ more

-- The loop over the values.
pub check_values : Readers → Fields → Dict FieldType → TypedVerdict
unfolding get validate_config_value
check_values readers end fields = conforms
check_values readers (field name v payload) fields = elim (get name fields) [
  | none ↦ key_error
  | some t ↦ elim (validate_config_value readers t v) [
    | fine ↦ check_values readers payload fields
    | invalid fault ↦ refuses (bad_field name fault)
    | value_error ↦ unreadable_type
  ]
]

pub check_object : Readers → ResolvedTypeDef → Fields → TypedVerdict
unfolding extra_names missing_names check_values sort_names names_where
check_object readers t payload = elim (extra_names payload t.fields) [
  | x ∷ xs ↦ refuses (extra_fields_given (sort_names (x ∷ xs)))
  | [] ↦ elim (missing_names (required_fields t) payload) [
    | x ∷ xs ↦ refuses (required_fields_missing (sort_names (x ∷ xs)))
    | [] ↦ check_values readers payload t.fields
  ]
]

pub check_payload : Readers → ResolvedTypeDef → Value → TypedVerdict
unfolding check_object
check_payload readers t (dict d) = check_object readers t d
check_payload readers t null = refuses not_an_object
check_payload readers t (bool b) = refuses not_an_object
check_payload readers t (int i) = refuses not_an_object
check_payload readers t (float x) = refuses not_an_object
check_payload readers t (str s) = refuses not_an_object
check_payload readers t (list xs) = refuses not_an_object

unfoldable pub validate_typed_payload : Readers → Value → ResolvedTypeDef → TypedVerdict
unfolding check_payload
validate_typed_payload readers payload resolved_type = elim resolved_type.fields [
  | [] ↦ conforms
  | f ∷ fs ↦ check_payload readers resolved_type payload
]
