-- ===== src/Compiler/Schema.antt =====
-- The process model of src/bpg/models/schema.py, as far as the compiler and the runtime read it, and the
-- resolved types and nodes of src/bpg/compiler/validator.py. `rest` holds the fields of a model that are
-- only compared; a list that is `None` is empty.
use bpg.Common.{String, Bool, not, Option, none, some, List, [], ◌∷◌, if◌then◌else◌, Dict}
use bpg.Value.{Fields}
use bpg.Compiler.Types.{
  FieldType, ParsedType, field_type, value_error, unfinished, parse_field_type,
}

pub record NodeType : Type 0 where
  pub input_type : String
  pub output_type : String
  pub provider : String
  pub version : String
  pub config_schema : Dict String
  pub rest : Fields

pub record NodeInstance : Type 0 where
  pub node_type : String
  pub config : Fields
  pub stable_input_fields : List String
  pub unstable_input_fields : List String
  pub on_timeout : Option Fields
  pub rest : Fields

pub record Edge : Type 0 where
  pub source : String
  pub target : String
  pub when : Option String
  pub mapping : Option Fields
  pub rest : Fields

-- `edge.mapping or {}`
abbrev pub mapping_of : Edge → Fields
mapping_of e = elim e.mapping [ none ↦ Fields.end | some d ↦ d ]

pub record ResolvedTypeDef : Type 0 where
  pub name : String
  pub fields : Dict FieldType

-- `required_fields()` and `optional_fields()`
unfoldable pub names_where : (FieldType → Bool) → Dict FieldType → List String
names_where p [] = []
names_where p ((name, t) ∷ fields) =
    let more = names_where p fields in if p t then name ∷ more else more

abbrev pub required_fields : ResolvedTypeDef → List String
required_fields t = names_where (λ f. not f.optional) t.fields

abbrev pub optional_fields : ResolvedTypeDef → List String
optional_fields t = names_where (λ f. f.optional) t.fields

abbrev pub with_type : String → ParsedType → Option (Dict FieldType) → Option (Dict FieldType)
with_type name (field_type t) (some fields) = some ((name, t) ∷ fields)
with_type name (field_type t) none = none
with_type name value_error fields = none
with_type name unfinished fields = none

-- The fields of `resolve_typedef`; `none` is a `ValueError`.
unfoldable pub resolve_fields : Dict String → Option (Dict FieldType)
resolve_fields [] = some []
resolve_fields ((name, type_str) ∷ typedef) =
    with_type name (parse_field_type type_str) (resolve_fields typedef)

-- `resolve_typedef`
unfoldable pub resolve_typedef : String → Dict String → Option ResolvedTypeDef
unfolding resolve_fields
resolve_typedef name typedef = elim (resolve_fields typedef) [
  | none ↦ none
  | some fields ↦ some (record { name = name; fields = fields })
]

-- The node type is `none` for a module.
pub record ResolvedNode : Type 0 where
  pub name : String
  pub instance_ : NodeInstance
  pub node_type : Option NodeType
  pub in_type : ResolvedTypeDef
  pub out_type : ResolvedTypeDef
