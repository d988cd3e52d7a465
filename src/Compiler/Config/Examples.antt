-- ===== src/Compiler/Config/Examples.antt =====
-- Small configurations checked, and the theorem about changes of node types at one of them.
use bpg.Common.{
  none, get, has_key, All, String, ◌≡◌, refl, true, false, ◌&&◌, inl, inr, [], ◌∷◌, Dict, leb,
  contains, keys, distinct→count-le,
}
use bpg.Value.{null, has_field, Fields, bool, int, str, list, dict, nil, cons, end, field}
use bpg.Common.Int.{pos}
use bpg.Compiler.Types.{FieldType, parse_field_type}
use bpg.Compiler.Topology.Correct.{IsUnique}
use bpg.Compiler.Schema.{ResolvedTypeDef, names_where, NodeType}
use bpg.Runtime.Payload.{validate_payload}
use bpg.Compiler.Config.Typed.{conforms, refuses, bad_field, validate_typed_payload}
use bpg.Compiler.Config.Typed.Runs.{validate_typed_payload-validate_payload}
use bpg.Compiler.Config.{
  cannot_be_null, Readers, fine, invalid, unknown_fields, missing_required, expected, get_path,
  validate_config,
}
use bpg.Compiler.Config.Breaking.{
  not_breaking, breaking, field_removed, is_breaking_node_type_change,
}
use bpg.Compiler.Config.Breaking.Keeps.{IsOldOrAbsent, is_breaking_node_type_change-keeps}

abbrev pub readers : Readers
readers = record {
  chars = record {
    is_digit = λ c. leb b'0' c && leb c b'9';
    is_word = λ c. leb b'a' c && leb c b'z';
  };
  reads_datetime = λ s. false;
}

abbrev pub node_type_of : Dict String → NodeType
node_type_of schema = record {
  input_type = "Request";
  output_type = "Reply";
  provider = "http.webhook";
  version = "v1";
  config_schema = schema;
  rest = end;
}

abbrev pub old_schema : Dict String
old_schema = ("http.url", "string") ∷ ("wait", "duration?") ∷ ("codes", "list<number>") ∷ []

abbrev pub new_schema : Dict String
new_schema =
    ("codes", "list<number>?")
    ∷ ("http.url", "string")
    ∷ ("mode", "enum(fast,safe)?")
    ∷ ("wait", "duration?")
    ∷ []

abbrev pub config : Fields
config = field "http" (dict (field "url" (str "https://example.org") end)) (
    field "codes" (list (cons (int (pos 200)) (cons (bool true) nil)))
      (field "wait" (str "30s") end))

pub accepts_config : validate_config readers old_schema config ≡ fine
unfolding validate_config contains parse_field_type
accepts_config = refl

refuses_element :
    validate_config readers
      (("codes", "list<number>") ∷ [])
      (field "codes" (list (cons (str "x") nil)) end)
    ≡ invalid (expected "number")
unfolding validate_config contains parse_field_type
refuses_element = refl

refuses_unknown :
    validate_config readers old_schema (field "port" (int (pos 80)) config) ≡ invalid unknown_fields
unfolding validate_config contains parse_field_type
refuses_unknown = refl

refuses_missing : validate_config readers old_schema end ≡ invalid (missing_required "http.url")
unfolding validate_config contains parse_field_type
refuses_missing = refl

removal :
    is_breaking_node_type_change
      (node_type_of old_schema)
      (node_type_of (("wait", "duration?") ∷ []))
    ≡ breaking (field_removed "http.url")
unfolding is_breaking_node_type_change parse_field_type get
removal = refl

loosened :
    is_breaking_node_type_change (node_type_of old_schema) (node_type_of new_schema) ≡ not_breaking
unfolding is_breaking_node_type_change parse_field_type get
loosened = refl

pub new_schema-IsUnique : IsUnique (keys new_schema)
unfolding keys contains
new_schema-IsUnique = distinct→count-le (keys new_schema) refl

abbrev mode_type : FieldType
mode_type = record {
  base = "enum";
  optional = true;
  enum_values = "fast" ∷ "safe" ∷ [];
  list_element = "";
}

pub fields-IsOldOrAbsent :
    All
      (IsOldOrAbsent readers (node_type_of old_schema) (node_type_of new_schema) config)
      new_schema
unfolding get_path parse_field_type has_key
fields-IsOldOrAbsent = (inl refl, (inl refl, (inr (mode_type, refl, refl, refl), (inl refl, tt))))

is_breaking_node_type_change-keeps_example : validate_config readers new_schema config ≡ fine
is_breaking_node_type_change-keeps_example =
    is_breaking_node_type_change-keeps readers (node_type_of old_schema) (node_type_of new_schema)
      config loosened new_schema-IsUnique fields-IsOldOrAbsent accepts_config

abbrev reply_type : ResolvedTypeDef
reply_type = record {
  name = "Reply";
  fields =
      ("mode", mode_type)
      ∷ ("note", record { base = "string"; optional = false; enum_values = []; list_element = "" })
      ∷ [];
}

abbrev reply : Fields
reply = field "note" (str "timed out") end

reply_type-IsUnique : IsUnique (keys reply_type.fields)
unfolding keys contains
reply_type-IsUnique = distinct→count-le (keys reply_type.fields) refl

accepts_reply : validate_typed_payload readers (dict reply) reply_type ≡ conforms
unfolding validate_typed_payload get has_key has_field names_where
accepts_reply = refl

refuses_null :
    validate_typed_payload readers (dict (field "note" null end)) reply_type
    ≡ refuses (bad_field "note" cannot_be_null)
unfolding validate_typed_payload get has_key has_field names_where
refuses_null = refl

validate_typed_payload-validate_payload_example :
    validate_payload reply reply_type "node review output" ≡ none
validate_typed_payload-validate_payload_example =
    validate_typed_payload-validate_payload readers reply reply_type "node review output"
      reply_type-IsUnique accepts_reply
