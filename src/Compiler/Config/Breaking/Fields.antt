-- ===== src/Compiler/Config/Breaking/Fields.antt =====
-- The fields of two schemas compared: what the loop of `is_breaking_node_type_change` lets pass is looser.
use bpg.Common.{
  String, ◌≡◌, refl, Bool, true, false, Option, none, some, List, [], ◌∷◌, ◌==◌, Dict, get, has_key,
  keys, contains, count, arith, inl, inr, All, All-map, Bool-cases, Option-cases, text_cases,
  text_test_refl, contains-keys, contains-count, get-eq-none, ◌∙◌,
}
use bpg.Value.{Value}
use bpg.Compiler.Types.{FieldType, ParsedType, field_type, parse_field_type, is_required}
use bpg.Compiler.Types as Types
use bpg.Compiler.Topology.Correct.{IsUnique}
use bpg.Compiler.Schema.{with_type, resolve_fields}
use bpg.Compiler.Config.{Readers, Verdict, fine, invalid, check_present, unknown_fields, all_in}
use bpg.Compiler.Config.Breaking.{field_change, schema_change, compared, not_breaking}
use bpg.Compiler.Config.Breaking.Values.{IsLooser, field_change-IsLooser, check_present-IsLooser}

with_type-some :
    (name : String) (p : ParsedType) (o : Option (Dict FieldType)) (fields : Dict FieldType)
    → with_type name p o ≡ some fields
    → (t : FieldType) × (rest : Dict FieldType) × (p ≡ field_type t)
      × (o ≡ some rest)
      × (fields ≡ (name, t) ∷ rest)
with_type-some name (field_type t) (some rest) fields h = (t, rest, refl, refl, cc)
with_type-some name (field_type t) none fields h = absurd cc
with_type-some name Types.value_error o fields h = absurd cc
with_type-some name Types.unfinished o fields h = absurd cc

-- The parsed schema, name by name.
pub get-resolve_fields :
    (schema : Dict String) (fields : Dict FieldType)
    → resolve_fields schema ≡ some fields
    → (name type_str : String) → get name schema ≡ some type_str
    → (t : FieldType) × (get name fields ≡ some t) × (parse_field_type type_str ≡ field_type t)
unfolding resolve_fields get
get-resolve_fields [] fields h name type_str on = absurd cc
get-resolve_fields ((k, s) ∷ schema) fields h name type_str on =
    let (t, rest, parsed, resolved, is_fields) =
      with_type-some k (parse_field_type s) (resolve_fields schema) fields h in
    elim (text_cases k name) [
      | inl is ↦
          let same : s ≡ type_str = ground (arith, on, is, text_test_refl name) in
          (t, rw (is_fields, is, text_test_refl name) refl, rw (← same) parsed)
      | inr other ↦
          let (t', found, parsed') =
            get-resolve_fields schema rest resolved name type_str (ground (arith, on, other)) in
          (t', rw (is_fields, other) found, parsed')
    ]

pub resolve_fields_absent :
    (schema : Dict String) (fields : Dict FieldType)
    → resolve_fields schema ≡ some fields
    → (name : String) → has_key name schema ≡ false
    → get name fields ≡ none
unfolding resolve_fields get has_key
resolve_fields_absent [] [] h name absent = refl
resolve_fields_absent [] (f ∷ fields) h name absent = absurd cc
resolve_fields_absent ((k, s) ∷ schema) fields h name absent =
    let (t, rest, parsed, resolved, is_fields) =
      with_type-some k (parse_field_type s) (resolve_fields schema) fields h in
    let later = resolve_fields_absent schema rest resolved name (ground (arith, absent)) in
    rw is_fields (ground (arith, absent, later))

pub other_key {ℓ} :
    {V : Type ℓ} (k : String) (v : V) (d : Dict V)
    → IsUnique (keys ((k, v) ∷ d))
    → (name : String) (w : V) → get name d ≡ some w
    → (k == name) ≡ false
unfolding keys count
other_key k v d unique name w on = elim (Bool-cases (k == name)) [
  | inr other ↦ other
  | inl is ↦ elim (Bool-cases (has_key name d)) [
    | inr absent ↦ absurd (cc (get-eq-none name d absent, on))
    | inl listed ↦
        let twice = contains-count (keys d) name (contains-keys name d ∙ listed) in
        absurd (ground (arith, unique name, is, twice))
  ]
]

pub All-get {ℓ} : {V : Type ℓ} (d : Dict V) → IsUnique (keys d) → All (λ e. get e.0 d ≡ some e.1) d
unfolding get keys count
All-get [] unique = tt
All-get ((k, v) ∷ d) unique = (
  rw (text_test_refl k) refl,
  All-map {A = String × _} (λ e (h : get e.0 d ≡ some e.1). rw (other_key k v d unique e.0 e.1 h) h)
      d (All-get d (λ x. ground (arith, unique x))),
)

-- Every old field is in the new schema, with a looser type.
pub schema_change-get :
    (old new : Dict FieldType)
    → schema_change old new ≡ none
    → (name : String) (t : FieldType) → get name old ≡ some t
    → (t' : FieldType) × (get name new ≡ some t') × IsLooser t t'
unfolding schema_change get
schema_change-get [] new h name t on = absurd cc
schema_change-get ((k, old_ft) ∷ old) new h name t on = elim (Option-cases (get k new)) [
  | inl missing ↦ absurd (cc (rw (missing, schema_change) at h))
  | inr (t', found) ↦ elim (Option-cases (field_change k old_ft t')) [
    | inr (reason, changed) ↦ absurd (cc (rw (found, changed, schema_change) at h))
    | inl same ↦ elim (text_cases k name) [
      | inl is ↦
          let same_t : old_ft ≡ t = ground (arith, on, is, text_test_refl name) in
          (t', rw (← is) found, rw (← same_t) (field_change-IsLooser k old_ft t' same))
      | inr other ↦
          schema_change-get old new (rw (found, same, schema_change) at h) name t
            (ground (arith, on, other))
    ]
  ]
]

pub all_in-widens :
    (names more found : List String)
    → ((x : String) → contains names x ≡ true → contains more x ≡ true)
    → all_in names found ≡ true
    → all_in more found ≡ true
unfolding all_in
all_in-widens names more [] wider h = refl
all_in-widens names more (x ∷ found) wider h =
    ground (arith, h, wider x, all_in-widens names more found wider)

pub within :
    (inside : Bool) (verdict : Verdict)
    → elim inside [ false ↦ invalid unknown_fields | true ↦ verdict ] ≡ fine
    → (inside ≡ true) × (verdict ≡ fine)
within true verdict h = (refl, h)
within false verdict h = absurd cc

pub passes_looser :
    (readers : Readers) (name old_str new_str : String) (t t' t'' : FieldType)
    (found : Option Value)
    → parse_field_type old_str ≡ field_type t
    → parse_field_type new_str ≡ field_type t''
    → t' ≡ t''
    → IsLooser t t'
    → check_present readers name (parse_field_type old_str) found ≡ fine
    → check_present readers name (parse_field_type new_str) found ≡ fine
passes_looser readers name old_str new_str t t' t'' found parsed parsed' same looser h =
    rw (parsed', ← same) (check_present-IsLooser readers name t t' found looser (rw parsed at h))

pub compared-not_breaking :
    (o n : Option (Dict FieldType))
    → compared o n ≡ not_breaking
    → (old : Dict FieldType) × (new : Dict FieldType) × (o ≡ some old)
      × (n ≡ some new)
      × (schema_change old new ≡ none)
unfolding compared
compared-not_breaking none n h = absurd cc
compared-not_breaking (some old) none h = absurd cc
compared-not_breaking (some old) (some new) h = elim (Option-cases (schema_change old new)) [
  | inl same ↦ (old, new, refl, refl, same)
  | inr (reason, changed) ↦ absurd (cc (rw (changed, compared) at h))
]
