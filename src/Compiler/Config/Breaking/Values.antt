-- ===== src/Compiler/Config/Breaking/Values.antt =====
-- A looser type accepts every value that the old one accepts, and the verdict on a schema is that of its
-- fields.
use bpg.Common.{
  String, ◌≡◌, refl, Bool, true, false, Option, none, some, List, [], ◌∷◌, Dict, get, arith, eq_iff,
  inl, inr, All, text_cases, text_test_refl,
}
use bpg.Value.{Value, Fields, null, bool, int, float, str, list, dict}
use bpg.Compiler.Types.{FieldType, field_type, parse_field_type}
use bpg.Compiler.Config.{
  Readers, Verdict, fine, invalid, value_error, validate_config_value, accepted_value,
  text_accepted, check_present, check_schema, get_path, verdict_of,
}
use bpg.Compiler.Config.Breaking.{same_names, field_change}

same_names-eq : (xs ys : List String) → same_names xs ys ≡ true → xs ≡ ys
unfolding same_names
same_names-eq [] [] h = refl
same_names-eq (x ∷ xs) (y ∷ ys) h =
    let rest = same_names-eq xs ys (ground (arith, h)) in ground (arith, eq_iff x y, rest)
same_names-eq [] (y ∷ ys) h = cc
same_names-eq (x ∷ xs) [] h = cc

-- The same type, which may have become optional.
pub record IsLooser (old new : FieldType) : Type 0 where
  pub same_base : old.base ≡ new.base
  pub same_enum : old.enum_values ≡ new.enum_values
  pub same_element : old.list_element ≡ new.list_element
  pub still_optional : old.optional ≡ true → new.optional ≡ true

pub field_change-IsLooser :
    (name : String) (old new : FieldType) → field_change name old new ≡ none → IsLooser old new
unfolding field_change
field_change-IsLooser name old new h = record {
  same_base = ground (arith, h, eq_iff old.base new.base);
  same_enum = same_names-eq old.enum_values new.enum_values (ground (arith, h));
  same_element = ground (arith, h, eq_iff old.list_element new.list_element);
  still_optional = λ o. ground (arith, h, o);
}

abbrev type_with : String → List String → String → Bool → FieldType
type_with base values element optional = record {
  base = base;
  optional = optional;
  enum_values = values;
  list_element = element;
}

both_fine :
    (verdict rest : Verdict)
    → elim verdict [ fine ↦ rest | invalid fault ↦ invalid fault | value_error ↦ value_error ]
      ≡ fine
    → (verdict ≡ fine) × (rest ≡ fine)
both_fine fine rest h = (refl, h)
both_fine (invalid fault) rest h = absurd cc
both_fine value_error rest h = absurd cc

module _ (readers : Readers) where
  -- Whether a type is optional matters to null alone.
  validate_config_value-optional :
      (base element : String) (values : List String) (o o' : Bool) (v : Value)
      → (o ≡ true → o' ≡ true)
      → validate_config_value readers (type_with base values element o) v ≡ fine
      → validate_config_value readers (type_with base values element o') v ≡ fine
  unfolding validate_config_value accepted_value text_accepted verdict_of
  validate_config_value-optional base element values true true null still h = h
  validate_config_value-optional base element values true false null still h =
      absurd (cc (still refl))
  validate_config_value-optional base element values false o' null still h = cc
  validate_config_value-optional base element values o o' (list xs) still h = h
  validate_config_value-optional base element values o o' (str s) still h = h
  validate_config_value-optional base element values o o' (bool b) still h = h
  validate_config_value-optional base element values o o' (int i) still h = h
  validate_config_value-optional base element values o o' (float x) still h = h
  validate_config_value-optional base element values o o' (dict d) still h = h

  validate_config_value-same :
      (b b' l l' : String) (e e' : List String) (o : Bool) (v : Value)
      → b ≡ b'
      → l ≡ l'
      → e ≡ e'
      → validate_config_value readers (type_with b e l o) v ≡ fine
      → validate_config_value readers (type_with b' e' l' o) v ≡ fine
  validate_config_value-same b b' l l' e e' o v same_b same_l same_e h =
      rw (← same_b, ← same_l, ← same_e) h

  validate_config_value-IsLooser :
      (old new : FieldType) (v : Value)
      → IsLooser old new
      → validate_config_value readers old v ≡ fine
      → validate_config_value readers new v ≡ fine
  validate_config_value-IsLooser old new v l h =
      validate_config_value-optional new.base new.list_element new.enum_values old.optional
        new.optional v l.still_optional
        (validate_config_value-same old.base new.base old.list_element new.list_element
          old.enum_values new.enum_values old.optional v l.same_base l.same_element l.same_enum h)

  pub check_present-IsLooser :
      (name : String) (old new : FieldType) (found : Option Value)
      → IsLooser old new
      → check_present readers name (field_type old) found ≡ fine
      → check_present readers name (field_type new) found ≡ fine
  unfolding check_present
  check_present-IsLooser name old new none l h = ground (arith, h, l.still_optional)
  check_present-IsLooser name old new (some v) l h = validate_config_value-IsLooser old new v l h

  -- The verdict on the whole schema is the verdicts on its fields.
  abbrev pub Passes : Fields → String × String → Type 0
  Passes config (name, type_str) =
      check_present readers name (parse_field_type type_str) (get_path config name) ≡ fine

  pub check_schema-get :
      (schema : Dict String) (config : Fields)
      → check_schema readers schema config ≡ fine
      → (name type_str : String) → get name schema ≡ some type_str
      → Passes config (name, type_str)
  unfolding check_schema get
  check_schema-get [] config h name type_str on = cc
  check_schema-get ((k, s) ∷ schema) config h name type_str on =
      let (here, rest) =
        both_fine (check_present readers k (parse_field_type s) (get_path config k))
          (check_schema readers schema config) h in
      elim (text_cases k name) [
        | inr other ↦ check_schema-get schema config rest name type_str (ground (arith, on, other))
        | inl is ↦
            let same : s ≡ type_str = ground (arith, on, is, text_test_refl name) in
            rw (← is, ← same) here
      ]

  pub All-check_schema :
      (schema : Dict String) (config : Fields)
      → All (Passes config) schema
      → check_schema readers schema config ≡ fine
  unfolding check_schema
  All-check_schema [] config h = refl
  All-check_schema ((name, type_str) ∷ schema) config h =
      rw (h.0, check_schema) (All-check_schema schema config h.1)
