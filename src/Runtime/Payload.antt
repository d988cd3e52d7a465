-- ===== src/Runtime/Payload.antt =====
-- Payloads of nodes: `_validate_payload`, `_idempotency_payload` and `_parse_duration_seconds` of
-- src/bpg/runtime/orchestrator.py.
use bpg.Common.{
  ℕ, suc, ◌+◌, String, Bool, true, false, not, ◌&&◌, ◌||◌, Option, none, some, List, [], ◌∷◌, ◌==◌,
  if◌then◌else◌, leb, Dict, has_key, contains,
}
use bpg.Common.Text.{strip, is_space, after_prefix, sort_names}
use bpg.Value.{
  Value, Fields, null, bool, int, float, str, list, dict, end, field, get_field, put_field,
}
use bpg.Compiler.Types.{FieldType}
use bpg.Compiler.Schema.{ResolvedTypeDef, NodeInstance}
use bpg.Expr.Scan.{CharClass, span, take_text, drop_text}

-- A `_RuntimeValidationError`: the names, sorted, the type, and what the payload is for.
pub data PayloadError : Type 0 where
  missing_required : (context : String) (names : List String) (type_name : String) → PayloadError
  unexpected : (context : String) (names : List String) (type_name : String) → PayloadError

-- `name not in payload or payload[name] is None`
unfoldable pub lacks_value : Fields → String → Bool
unfolding get_field
lacks_value payload name = elim (get_field name payload) [
  | none ↦ true
  | some null ↦ true
  | some (bool b) ↦ false
  | some (int i) ↦ false
  | some (float x) ↦ false
  | some (str s) ↦ false
  | some (list xs) ↦ false
  | some (dict d) ↦ false
]

unfoldable pub missing_fields : Fields → Dict FieldType → List String
missing_fields payload [] = []
missing_fields payload ((name, t) ∷ fields) =
    let more = missing_fields payload fields in
    if not t.optional && lacks_value payload name then name ∷ more else more

unfoldable pub extra_fields : Fields → Dict FieldType → List String
extra_fields end fields = []
extra_fields (field name v payload) fields =
    let more = extra_fields payload fields in if has_key name fields then more else name ∷ more

abbrev pub extra_error : String → String → List String → Option PayloadError
extra_error context type_name [] = none
extra_error context type_name (x ∷ xs) = some (unexpected context (sort_names (x ∷ xs)) type_name)

abbrev pub payload_error : String → String → List String → List String → Option PayloadError
payload_error context type_name [] extra = extra_error context type_name extra
payload_error context type_name (x ∷ xs) extra =
    some (missing_required context (sort_names (x ∷ xs)) type_name)

abbrev pub validate_against : Fields → Dict FieldType → String → String → Option PayloadError
validate_against payload [] context type_name = none
validate_against payload (f ∷ fields) context type_name =
    payload_error context type_name (missing_fields payload (f ∷ fields))
      (extra_fields payload (f ∷ fields))

-- `_validate_payload`; `none` means that no error is raised.
unfoldable pub validate_payload : Fields → ResolvedTypeDef → String → Option PayloadError
unfolding missing_fields extra_fields lacks_value
validate_payload payload resolved_type context =
    validate_against payload resolved_type.fields context resolved_type.name

-- `out` holds the keys that were kept so far.
keep_stable : Fields → List String → Fields → Fields
unfolding get_field put_field
keep_stable payload [] out = out
keep_stable payload (key ∷ keys) out =
    keep_stable payload keys
      (elim (get_field key payload) [ none ↦ out | some v ↦ put_field key v out ])

drop_unstable : List String → Fields → Fields
drop_unstable unstable end = end
drop_unstable unstable (field key v payload) =
    let more = drop_unstable unstable payload in
    if contains unstable key then more else field key v more

idempotency_fields : List String → List String → Fields → Fields
unfolding keep_stable drop_unstable
idempotency_fields (key ∷ stable) unstable payload = keep_stable payload (key ∷ stable) end
idempotency_fields [] (key ∷ unstable) payload = drop_unstable (key ∷ unstable) payload
idempotency_fields [] [] payload = payload

-- `_idempotency_payload`
unfoldable pub idempotency_payload : NodeInstance → Fields → Fields
unfolding idempotency_fields
idempotency_payload node payload =
    idempotency_fields node.stable_input_fields node.unstable_input_fields payload

is_unit : String → Bool
is_unit u = u == "ms" || u == "s" || u == "m" || u == "h" || u == "d"

module _ (chars : CharClass) where
  fraction_length : String → ℕ
  fraction_length rest = elim (after_prefix "." rest) [
    | none ↦ 0
    | some digits ↦ let n = span chars.is_digit digits in if leb 1 n then suc n else 0
  ]

  -- The two groups of `_DURATION_RE`.
  duration_parts : String → Option (String × String)
  unfolding is_unit fraction_length
  duration_parts s =
      let whole = span chars.is_digit s in
      let digits = whole + fraction_length (drop_text whole s) in
      let behind = drop_text digits s in
      let unit = drop_text (span is_space behind) behind in
      if leb 1 whole && is_unit unit then some (take_text digits s, unit) else none

  -- `_parse_duration_seconds`; `seconds` is the product of the number and the unit.
  unfoldable pub parse_duration_seconds : (String → String → ℕ) → Option Value → Option ℕ
  unfolding duration_parts
  parse_duration_seconds seconds (some (str value)) = elim (duration_parts (strip value)) [
    | none ↦ none
    | some (number, unit) ↦ some (seconds number unit)
  ]
  parse_duration_seconds seconds none = none
  parse_duration_seconds seconds (some null) = none
  parse_duration_seconds seconds (some (bool b)) = none
  parse_duration_seconds seconds (some (int i)) = none
  parse_duration_seconds seconds (some (float x)) = none
  parse_duration_seconds seconds (some (list xs)) = none
  parse_duration_seconds seconds (some (dict d)) = none
