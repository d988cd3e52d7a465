-- ===== src/Compiler/Config/Typed/Runs.antt =====
-- What the compiler accepts as the answer of a node, the orchestrator accepts as its output.
use bpg.Common.{
  String, ◌≡◌, refl, false, not, none, some, List, [], ◌∷◌, ◌==◌, inl, inr, arith, Dict, get, keys,
  All, Bool-cases, Option-cases, text_cases, text_test_refl,
}
use bpg.Common.Text.{sort_names}
use bpg.Value.{
  Value, Fields, null, bool, int, float, str, list, dict, end, field, get_field, has_field,
}
use bpg.Compiler.Types.{FieldType}
use bpg.Compiler.Schema.{ResolvedTypeDef, names_where}
use bpg.Compiler.Topology.Correct.{IsUnique}
use bpg.Compiler.Config.{Verdict, Readers, fine, invalid, value_error, validate_config_value}
use bpg.Compiler.Config.Breaking.Fields.{All-get}
use bpg.Compiler.Config.Typed.{
  TypedVerdict, conforms, refuses, bad_field, extra_fields_given, required_fields_missing,
  unreadable_type, extra_names, missing_names, check_values, check_object, check_payload,
  validate_typed_payload,
}
use bpg.Runtime.Payload.{lacks_value, missing_fields, extra_fields, validate_payload}

extra_fields-extra_names :
    (payload : Fields) (fields : Dict FieldType)
    → extra_fields payload fields ≡ extra_names payload fields
unfolding extra_fields extra_names
extra_fields-extra_names end fields = refl
extra_fields-extra_names (field name v payload) fields =
    rw (extra_fields-extra_names payload fields) refl

get_field-none :
    (name : String) (payload : Fields)
    → get_field name payload ≡ none
    → has_field name payload ≡ false
unfolding get_field has_field
get_field-none name end h = refl
get_field-none name (field k v payload) h = elim (Bool-cases (k == name)) [
  | inl is ↦ absurd (cc (rw is at h))
  | inr other ↦ rw other (get_field-none name payload (rw other at h))
]

verdict_fine :
    (name : String) (verdict : Verdict) (rest : TypedVerdict)
    → elim verdict [
      | fine ↦ rest
      | invalid fault ↦ refuses (bad_field name fault)
      | value_error ↦ unreadable_type
    ]
      ≡ conforms
    → (verdict ≡ fine) × (rest ≡ conforms)
verdict_fine name fine rest h = (refl, h)
verdict_fine name (invalid fault) rest h = absurd cc
verdict_fine name value_error rest h = absurd cc

no_fault :
    (extra missing : List String) (values : TypedVerdict)
    → elim extra [
      | x ∷ xs ↦ refuses (extra_fields_given (sort_names (x ∷ xs)))
      | [] ↦ elim missing [
        | x ∷ xs ↦ refuses (required_fields_missing (sort_names (x ∷ xs)))
        | [] ↦ values
      ]
    ]
      ≡ conforms
    → (extra ≡ []) × (missing ≡ []) × (values ≡ conforms)
no_fault [] [] values h = (refl, refl, h)
no_fault [] (x ∷ xs) values h = absurd cc
no_fault (x ∷ xs) missing values h = absurd cc

module _ (readers : Readers) where
  check_values-get :
      (payload : Fields) (fields : Dict FieldType)
      → check_values readers payload fields ≡ conforms
      → (name : String) (v : Value) → get_field name payload ≡ some v
      → (t : FieldType) → get name fields ≡ some t
      → validate_config_value readers t v ≡ fine
  unfolding check_values get_field
  check_values-get end fields h name v on t found = absurd cc
  check_values-get (field k w payload) fields h name v on t found =
      elim (Option-cases (get k fields)) [
        | inl absent ↦ absurd (cc (rw (absent, check_values) at h))
        | inr (u, at_k) ↦
            let (here, rest) =
              verdict_fine k (validate_config_value readers u w)
                (check_values readers payload fields) (rw (at_k, check_values) at h) in
            elim (text_cases k name) [
              | inr other ↦
                  check_values-get payload fields rest name v (ground (arith, on, other)) t found
              | inl is ↦
                  let same_v : w ≡ v = ground (arith, on, is, text_test_refl name) in
                  let same_t : u ≡ t = cc (at_k, found, is) in rw (← same_v, ← same_t) here
            ]
      ]

  -- A required field that is given is not null.
  lacks_value-some :
      (t : FieldType) (payload : Fields) (name : String) (v : Value)
      → t.optional ≡ false
      → get_field name payload ≡ some v
      → validate_config_value readers t v ≡ fine
      → lacks_value payload name ≡ false
  unfolding lacks_value validate_config_value
  lacks_value-some t payload name null required on valid = absurd (cc (rw required at valid))
  lacks_value-some t payload name (bool b) required on valid = rw (on, lacks_value) refl
  lacks_value-some t payload name (int i) required on valid = rw (on, lacks_value) refl
  lacks_value-some t payload name (float x) required on valid = rw (on, lacks_value) refl
  lacks_value-some t payload name (str s) required on valid = rw (on, lacks_value) refl
  lacks_value-some t payload name (list xs) required on valid = rw (on, lacks_value) refl
  lacks_value-some t payload name (dict d) required on valid = rw (on, lacks_value) refl

  module _ (payload : Fields) (all : Dict FieldType)
      (values : check_values readers payload all ≡ conforms) where
    nothing_missing :
        (fields : Dict FieldType)
        → All (λ e. get e.0 all ≡ some e.1) fields
        → missing_names (names_where (λ t. not t.optional) fields) payload ≡ []
        → missing_fields payload fields ≡ []
    unfolding missing_fields missing_names names_where
    nothing_missing [] known h = refl
    nothing_missing ((name, t) ∷ fields) known h = elim (Bool-cases t.optional) [
      | inl is_optional ↦
          rw is_optional (nothing_missing fields known.1 (rw (is_optional, names_where) at h))
      | inr required ↦ elim (Bool-cases (has_field name payload)) [
        | inr absent ↦ absurd (cc (rw (required, names_where, missing_names, absent) at h))
        | inl on ↦
            let rest =
              nothing_missing fields known.1 (rw (required, names_where, missing_names, on) at h) in
            elim (Option-cases (get_field name payload)) [
              | inl none_found ↦ absurd (cc (get_field-none name payload none_found, on))
              | inr (v, found) ↦
                  let valid = check_values-get payload all values name v found t known.0 in
                  rw (required, lacks_value-some t payload name v required found valid) rest
            ]
      ]
    ]

  accepted_payload :
      (name : String) (fields : Dict FieldType) (payload : Fields) (context : String)
      → IsUnique (keys fields)
      → validate_typed_payload readers (dict payload) (record { name = name; fields = fields })
        ≡ conforms
      → validate_payload payload (record { name = name; fields = fields }) context ≡ none
  unfolding validate_typed_payload validate_payload check_payload check_object
  accepted_payload name [] payload context unique h = refl
  accepted_payload name (f ∷ fs) payload context unique h =
      let (extra, missing, values) =
        no_fault (extra_names payload (f ∷ fs))
          (missing_names (names_where (λ t. not t.optional) (f ∷ fs)) payload)
          (check_values readers payload (f ∷ fs)) h in
      rw
        (
          nothing_missing payload (f ∷ fs) values (f ∷ fs) (All-get (f ∷ fs) unique) missing,
          extra_fields-extra_names payload (f ∷ fs),
          extra,
        )
        refl

  -- What the check of a typed payload accepts, for a type with unique field names, is accepted by the
  -- orchestrator as a payload of that type.
  pub validate_typed_payload-validate_payload :
      (payload : Fields) (t : ResolvedTypeDef) (context : String)
      → IsUnique (keys t.fields)
      → validate_typed_payload readers (dict payload) t ≡ conforms
      → validate_payload payload t context ≡ none
  validate_typed_payload-validate_payload payload t context unique h =
      accepted_payload t.name t.fields payload context unique h
