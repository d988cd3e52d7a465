-- ===== src/Compiler/Config.antt =====
-- Configurations of nodes, in src/bpg/compiler/validator.py: `_validate_config_value`, the check of a
-- node's configuration against the schema of its type in `_validate_provider_configs`, and
-- `is_breaking_node_type_change`. Of an error its kind and its field are kept. `value_error` is the
-- `ValueError` of `parse_field_type`, which none of the functions catches.
pub mod Breaking
pub mod Typed
pub mod Examples
use bpg.Common.{
  ℕ, suc, String, Bool, true, false, ◌&&◌, ◌||◌, not, Option, none, some, List, [], ◌∷◌, ◌++◌, ◌==◌,
  Dict, keys, contains, if◌then◌else◌, leb,
}
use Prim.Native.String.{◌++◌ as append}
use bpg.Common.Text.{after_prefix, split}
use bpg.Value.{
  Value, Items, Fields, null, bool, int, float, str, list, dict, nil, cons, end, field, get_field,
}
use bpg.Expr.Scan.{CharClass, drop_text, span}
use bpg.Compiler.Types.{FieldType, ParsedType, field_type, parse_field_type, is_required}
use bpg.Compiler.Types as Types

pub data ConfigFault : Type 0 where
  cannot_be_null : ConfigFault
  expected : String → ConfigFault
  missing_required : String → ConfigFault
  unknown_fields : ConfigFault

pub data Verdict : Type 0 where
  fine : Verdict
  invalid : ConfigFault → Verdict
  value_error : Verdict

-- What Python does with characters and dates: the class `\d`, and whether `datetime.fromisoformat`
-- reads a text in which `+00:00` stands for each `Z`.
pub record Readers : Type 0 where
  pub chars : CharClass
  pub reads_datetime : String → Bool

module _ (readers : Readers) where
  -- `^\d+[smhd]$`; `$` also stands before a line feed at the end.
  pub is_duration : String → Bool
  unfolding drop_text span
  is_duration s =
      let digits = span readers.chars.is_digit s in
      let unit = drop_text digits s in
      leb 1 digits && contains ("s" ∷ "m" ∷ "h" ∷ "d" ∷ "s\n" ∷ "m\n" ∷ "h\n" ∷ "d\n" ∷ []) unit

  pub text_accepted : FieldType → String → Bool
  unfolding is_duration after_prefix
  text_accepted t s =
      if t.base == "string"
      then true
      else if t.base == "number" || t.base == "bool" || t.base == "list"
      then false
      else if t.base == "enum"
      then contains t.enum_values s
      else if t.base == "duration"
      then is_duration s || elim (after_prefix "P" s) [ none ↦ false | some _ ↦ true ]
      else if t.base == "datetime"
      then readers.reads_datetime s
      else true

  -- The bases that a value which is no text can be refused by.
  pub checked_bases : List String
  checked_bases = "string" ∷ "number" ∷ "bool" ∷ "enum" ∷ "list" ∷ "duration" ∷ "datetime" ∷ []

  -- A `bool` is an `int` of Python. A base that is not checked accepts all values.
  pub accepted_value : FieldType → Value → Bool
  unfolding text_accepted checked_bases
  accepted_value t (str s) = text_accepted t s
  accepted_value t (bool b) =
      if t.base == "number" || t.base == "bool" then true else not (contains checked_bases t.base)
  accepted_value t (int i) =
      if t.base == "number" then true else not (contains checked_bases t.base)
  accepted_value t (float x) =
      if t.base == "number" then true else not (contains checked_bases t.base)
  accepted_value t (list xs) =
      if t.base == "list" then true else not (contains checked_bases t.base)
  accepted_value t (dict d) = not (contains checked_bases t.base)
  accepted_value t null = t.optional

  pub verdict_of : FieldType → Bool → Verdict
  verdict_of t true = fine
  verdict_of t false = invalid (expected t.base)

  -- `_validate_config_value`
  mutual
    unfolding accepted_value verdict_of

    pub validate_config_value : FieldType → Value → Verdict
    validate_config_value t null = if t.optional then fine else invalid cannot_be_null
    validate_config_value t (list xs) = elim (t.base == "list") [
      | true ↦ validate_elements (parse_field_type t.list_element) xs
      | false ↦ verdict_of t (accepted_value t (list xs))
    ]
    validate_config_value t (bool b) = verdict_of t (accepted_value t (bool b))
    validate_config_value t (int i) = verdict_of t (accepted_value t (int i))
    validate_config_value t (float x) = verdict_of t (accepted_value t (float x))
    validate_config_value t (str s) = verdict_of t (accepted_value t (str s))
    validate_config_value t (dict d) = verdict_of t (accepted_value t (dict d))

    pub validate_elements : ParsedType → Items → Verdict
    validate_elements (field_type t) nil = fine
    validate_elements (field_type t) (cons v vs) = elim (validate_config_value t v) [
      | fine ↦ validate_elements (field_type t) vs
      | invalid fault ↦ invalid fault
      | value_error ↦ value_error
    ]
    validate_elements Types.value_error xs = value_error
    validate_elements Types.unfinished xs = value_error

-- `_flatten_leaf_paths`: the dotted paths of the leaves, as a list in place of a set.
abbrev joined : String → String → String
joined prefix k = if prefix == "" then k else append prefix (append "." k)

mutual
  pub leaf_paths : String → Value → List String
  leaf_paths prefix (dict d) = field_paths prefix d
  leaf_paths prefix null = if prefix == "" then [] else prefix ∷ []
  leaf_paths prefix (bool b) = if prefix == "" then [] else prefix ∷ []
  leaf_paths prefix (int i) = if prefix == "" then [] else prefix ∷ []
  leaf_paths prefix (float x) = if prefix == "" then [] else prefix ∷ []
  leaf_paths prefix (str s) = if prefix == "" then [] else prefix ∷ []
  leaf_paths prefix (list xs) = if prefix == "" then [] else prefix ∷ []

  pub field_paths : String → Fields → List String
  field_paths prefix end = []
  field_paths prefix (field k v d) = leaf_paths (joined prefix k) v ++ field_paths prefix d

-- `_get_path`; `none` is a path that is not present.
pub walk_path : List String → Value → Option Value
unfolding get_field
walk_path [] v = some v
walk_path (seg ∷ segs) (dict d) = elim (get_field seg d) [ none ↦ none | some v ↦ walk_path segs v ]
walk_path (seg ∷ segs) null = none
walk_path (seg ∷ segs) (bool b) = none
walk_path (seg ∷ segs) (int i) = none
walk_path (seg ∷ segs) (float x) = none
walk_path (seg ∷ segs) (str s) = none
walk_path (seg ∷ segs) (list xs) = none

pub get_path : Fields → String → Option Value
unfolding walk_path split
get_path config dotted = walk_path (split b'.' dotted) (dict config)

pub all_in : List String → List String → Bool
all_in names [] = true
all_in names (x ∷ xs) = contains names x && all_in names xs

-- One field of the schema.
pub check_present : Readers → String → ParsedType → Option Value → Verdict
unfolding validate_config_value
check_present readers name (field_type t) (some v) = validate_config_value readers t v
check_present readers name (field_type t) none =
    if is_required t then invalid (missing_required name) else fine
check_present readers name Types.value_error found = value_error
check_present readers name Types.unfinished found = value_error

pub check_schema : Readers → Dict String → Fields → Verdict
unfolding check_present get_path
check_schema readers [] config = fine
check_schema readers ((name, type_str) ∷ schema) config =
    elim (check_present readers name (parse_field_type type_str) (get_path config name)) [
      | fine ↦ check_schema readers schema config
      | invalid fault ↦ invalid fault
      | value_error ↦ value_error
    ]

-- The body of the first loop of `_validate_provider_configs`.
pub validate_config : Readers → Dict String → Fields → Verdict
unfolding all_in field_paths keys check_schema
validate_config readers schema config = elim (all_in (keys schema) (field_paths "" config)) [
  | false ↦ invalid unknown_fields
  | true ↦ check_schema readers schema config
]
