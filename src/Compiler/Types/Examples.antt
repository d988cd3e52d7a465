-- ===== src/Compiler/Types/Examples.antt =====
-- Field types parsed.
use bpg.Common.{◌≡◌, refl, true, false, [], ◌∷◌, ◌⊎◌}
use bpg.Common.Text.{strip, split, after_prefix}
use bpg.Compiler.Types.{FieldType, field_type, value_error, parse_field_type}
use bpg.Compiler.Types.Total.{parse_field_type-total, parse_field_type-list_element}

abbrev nested : FieldType
nested = record { base = "list"; optional = true; enum_values = []; list_element = "list<string>" }

nested-type : parse_field_type " list<list<string>>? " ≡ field_type nested
unfolding parse_field_type strip split after_prefix
nested-type = refl

enum-type :
    parse_field_type "enum(S1, S2)"
    ≡ field_type (record {
      base = "enum";
      optional = false;
      enum_values = "S1" ∷ "S2" ∷ [];
      list_element = "";
    })
unfolding parse_field_type strip split after_prefix
enum-type = refl

unbalanced : parse_field_type "list<list<string>" ≡ value_error
unfolding parse_field_type strip split after_prefix
unbalanced = refl

-- An element that starts as a list but does not end as one is a base type.
loose_element :
    parse_field_type "list<list<string>x>"
    ≡ field_type (record {
      base = "list";
      optional = false;
      enum_values = [];
      list_element = "list<string>x";
    })
unfolding parse_field_type strip split after_prefix
loose_element = refl

parse_field_type-total_example :
    ((t : FieldType) × (parse_field_type "list<list<string>" ≡ field_type t))
    ⊎ (parse_field_type "list<list<string>" ≡ value_error)
parse_field_type-total_example = parse_field_type-total "list<list<string>"

parse_field_type-list_element_example :
    (u : FieldType) × (parse_field_type "list<string>" ≡ field_type u)
parse_field_type-list_element_example =
    unfold after_prefix in
    parse_field_type-list_element " list<list<string>>? " nested nested-type refl
