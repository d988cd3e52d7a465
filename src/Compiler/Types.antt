-- ===== src/Compiler/Types.antt =====
-- The grammar of field types: `parse_field_type` of src/bpg/compiler/types.py.
pub mod Nested
pub mod Total
mod Examples
use Prim.Native.Char.{code}
use bpg.Common.{
  ℕ, zero, suc, ◌+◌, ◌-◌, String, Bool, true, false, not, ◌&&◌, ◌||◌, Option, none, some, List, [],
  ◌∷◌, map, ◌==◌, if◌then◌else◌, nat_eq,
}
use bpg.Common.Text.{strip, after_prefix, split}

pub record FieldType : Type 0 where
  pub base : String
  pub optional : Bool
  pub enum_values : List String
  pub list_element : String

abbrev pub is_required : FieldType → Bool
is_required t = not t.optional

pub data ParsedType : Type 0 where
  field_type : FieldType → ParsedType
  value_error : ParsedType
  unfinished : ParsedType

-- `len(s)`
pub size : String → ℕ
size String.[] = 0
size (String.◌∷◌ c s) = suc (size s)

-- What stands before a last character `c`, if the text ends in one.
pub before_last : ℕ → String → Option String
before_last c String.[] = none
before_last c (String.◌∷◌ d s) =
    let rest = before_last c s in
    if s == ""
    then (if nat_eq (code d) c then some "" else none)
    else elim rest [ none ↦ none | some t ↦ some (String.◌∷◌ d t) ]

-- `[^)]+`
lacks : ℕ → String → Bool
lacks c String.[] = true
lacks c (String.◌∷◌ d s) = not (nat_eq (code d) c) && lacks c s

-- The group of `^enum\(([^)]+)\)$`
enum_body : String → Option String
unfolding after_prefix before_last lacks
enum_body core = elim (after_prefix "enum(" core) [
  | none ↦ none
  | some rest ↦ elim (before_last b')' rest) [
    | none ↦ none
    | some body ↦ if not (body == "") && lacks b')' body then some body else none
  ]
]

-- The loop over the characters, from a depth; the loop ends well at depth zero.
pub balanced : ℕ → String → Bool
balanced depth String.[] = nat_eq depth 0
balanced depth (String.◌∷◌ c s) =
    let deeper = balanced (suc depth) s in
    let higher = balanced (depth - 1) s in
    let same = balanced depth s in
    if nat_eq (code c) b'<'
    then deeper
    else if nat_eq (code c) b'>'
    then (if nat_eq depth 0 then false else higher)
    else same

-- `core[5:-1]` where the core starts with `list<` and ends with `>`
pub list_body : String → Option String
unfolding after_prefix before_last
list_body core = elim (after_prefix "list<" core) [
  | none ↦ none
  | some rest ↦ before_last b'>' rest
]

abbrev starts_list : String → Bool
starts_list s = elim (after_prefix "list<" s) [ none ↦ false | some rest ↦ true ]

-- `inner` has been parsed, where it is a list again.
abbrev after_inner : ParsedType → FieldType → ParsedType
after_inner (field_type u) t = field_type t
after_inner value_error t = value_error
after_inner unfinished t = unfinished

strip_all : List String → List String
unfolding strip
strip_all [] = []
strip_all (x ∷ xs) = strip x ∷ strip_all xs

abbrev typed : String → Bool → FieldType
typed base optional = record {
  base = base;
  optional = optional;
  enum_values = [];
  list_element = "";
}

-- The core of a type and whether it is optional.
pub core_of : String → String × Bool
unfolding strip before_last
core_of type_str = elim (before_last b'?' (strip type_str)) [
  | none ↦ (strip type_str, false)
  | some core ↦ (strip core, true)
]

list_type : (core inner : String) → Bool → ParsedType → ParsedType
unfolding balanced
list_type core inner optional nested =
    let t : FieldType = record {
      base = "list";
      optional = optional;
      enum_values = [];
      list_element = inner;
    } in
    if not (balanced 0 core)
    then value_error
    else if inner == ""
    then value_error
    else if starts_list inner
    then after_inner nested t
    else field_type t

-- The body of `parse_field_type`; `nested` parses the element of a list.
parse_core : String → Bool → (String → ParsedType) → ParsedType
unfolding enum_body list_body list_type strip_all split strip
parse_core core optional nested = elim (enum_body core) [
  | some body ↦ field_type (record {
    base = "enum";
    optional = optional;
    enum_values = strip_all (split b',' body);
    list_element = "";
  })
  | none ↦ elim (list_body core) [
    | none ↦ field_type (typed core optional)
    | some body ↦ list_type core (strip body) optional (nested (strip body))
  ]
]

pub parse_types : ℕ → String → ParsedType
unfolding parse_core core_of
parse_types zero s = unfinished
parse_types (suc n) s =
    let (core, optional) = core_of s in parse_core core optional (λ inner. parse_types n inner)

-- `parse_field_type`. An element is shorter than its list, so that the length is fuel enough.
unfoldable pub parse_field_type : String → ParsedType
unfolding parse_types size
parse_field_type type_str = parse_types (suc (size type_str)) type_str
