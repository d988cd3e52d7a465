-- ===== src/Expr/Mapping.antt =====
-- `resolve_mapping` of src/bpg/runtime/expr.py: the values that a `with` block gives a node. `text_of`
-- is what `str` gives for a value that is no text, `float_literal` what `float` reads.
use Prim.Native.Char.{code}
use Prim.Native.String.{◌++◌}
use bpg.Common.{
  ℕ, zero, suc, ◌+◌, ◌*◌, String, Bool, true, false, ◌&&◌, ◌||◌, Option, none, some, ◌==◌,
  if◌then◌else◌, leb, nat_eq,
}
use bpg.Common.Int.{ℤ, pos, negsuc}
use bpg.Common.Text.{strip, after_prefix}
use bpg.Value.{Value, Fields, null, bool, int, float, str, list, dict, end, field}
use bpg.Expr.Eval.{max_str_digits}
use bpg.Expr.Scan.{CharClass, take_text, drop_text, starts_word, word_length}
use bpg.Expr.Paths.{RunState, resolve_path}

-- `part in s`, for a part that is not empty
unfoldable pub has_text : String → String → Bool
unfolding after_prefix
has_text part String.[] = false
has_text part (String.◌∷◌ c s) =
    let later = has_text part s in
    elim (after_prefix part (String.◌∷◌ c s)) [ none ↦ later | some rest ↦ true ]

-- How many characters come before the first `c`, none where there is no `c`.
before_char : ℕ → String → Option ℕ
before_char c String.[] = none
before_char c (String.◌∷◌ d s) =
    let rest = before_char c s in
    if nat_eq (code d) c then some 0 else elim rest [ none ↦ none | some n ↦ some (suc n) ]

-- The length of the group of `\{\{([^}]+)\}\}` behind the opening braces.
group_length : String → Option ℕ
unfolding before_char after_prefix drop_text
group_length s = elim (before_char b'}' s) [
  | none ↦ none
  | some zero ↦ none
  | some (suc n) ↦ elim (after_prefix "}}" (drop_text (suc n) s)) [
    | none ↦ none
    | some rest ↦ some (suc n)
  ]
]

-- The expression of a match at the head of the text, and the match's length without its first character.
interpolation : String → Option (String × ℕ)
unfolding after_prefix group_length take_text
interpolation s = elim (after_prefix "{{" s) [
  | none ↦ none
  | some rest ↦ elim (group_length rest) [ none ↦ none | some n ↦ some (take_text n rest, n + 3) ]
]

abbrev minus : Option ℤ → Option ℤ
minus none = none
minus (some (pos zero)) = some (pos 0)
minus (some (pos (suc n))) = some (negsuc n)
minus (some (negsuc n)) = none

-- The tables of Unicode, and `float(s)`.
pub record Literals : Type 0 where
  pub chars : CharClass
  pub digit_value : ℕ → ℕ
  pub float_literal : String → Option ℕ

module _ (literals : Literals) where
  -- Digits, with single underscores between them: `after_digit` says what came before, `count` how many
  -- digits have been read.
  digits_from : Bool → (count n : ℕ) → String → Option ℤ
  digits_from after_digit count n String.[] =
      if after_digit && leb count max_str_digits then some (pos n) else none
  digits_from after_digit count n (String.◌∷◌ c s) =
      let next = digits_from true (suc count) (10 * n + literals.digit_value (code c)) s in
      let gap = digits_from false count n s in
      if literals.chars.is_digit (code c)
      then next
      else if nat_eq (code c) b'_' && after_digit
      then gap
      else none

  signed_literal : String → Option ℤ
  unfolding digits_from
  signed_literal String.[] = none
  signed_literal (String.◌∷◌ c s) =
      if nat_eq (code c) b'-'
      then minus (digits_from false 0 0 s)
      else if nat_eq (code c) b'+'
      then digits_from false 0 0 s
      else digits_from false 0 0 (String.◌∷◌ c s)

  -- `int(value)`; `none` is a `ValueError`.
  int_literal : String → Option ℤ
  unfolding signed_literal strip
  int_literal value = signed_literal (strip value)

  -- `_coerce_literal`
  pub coerce_literal : String → Value
  unfolding int_literal
  coerce_literal value =
      if value == "true"
      then bool true
      else if value == "false"
      then bool false
      else elim (int_literal value) [
        | some i ↦ int i
        | none ↦ elim (literals.float_literal value) [ some x ↦ float x | none ↦ str value ]
      ]

  -- `_RE_FIELD_REF.match(s)`: a dotted word, behind which one line end may stand.
  unfoldable pub is_field_ref : String → Bool
  unfolding starts_word word_length drop_text take_text has_text
  is_field_ref String.[] = false
  is_field_ref (String.◌∷◌ c s) =
      let n = word_length literals.chars s in
      starts_word (String.◌∷◌ c s)
      && has_text "." (take_text n s)
      && (drop_text n s == "" || drop_text n s == "\n")

  module _ (text_of : Value → String) (state : RunState) (trigger_name : String) where
    -- `str(resolved) if resolved is not None else ""`
    abbrev interpolated : Value → String
    interpolated null = ""
    interpolated (str s) = s
    interpolated (bool b) = text_of (bool b)
    interpolated (int i) = text_of (int i)
    interpolated (float x) = text_of (float x)
    interpolated (list xs) = text_of (list xs)
    interpolated (dict d) = text_of (dict d)

    abbrev before_rest : String → Option String → Option String
    before_rest s none = none
    before_rest s (some rest) = some (s ++ rest)

    -- `_RE_INTERPOLATE.sub(_substitute, raw)`: `skip` characters belong to the match before.
    substitute : (skip : ℕ) → String → Option String
    unfolding interpolation resolve_path strip
    substitute skip String.[] = some ""
    substitute (suc skip) (String.◌∷◌ c s) = substitute skip s
    substitute zero (String.◌∷◌ c s) = elim (interpolation (String.◌∷◌ c s)) [
      | none ↦ before_rest (String.◌∷◌ c "") (substitute 0 s)
      | some (inner, more) ↦ elim (resolve_path state trigger_name (strip inner)) [
        | none ↦ none
        | some v ↦ before_rest (interpolated v) (substitute more s)
      ]
    ]

    abbrev as_text : Option String → Option Value
    as_text none = none
    as_text (some s) = some (str s)

    resolve_text : String → Option Value
    unfolding has_text substitute is_field_ref resolve_path coerce_literal
    resolve_text raw =
        if has_text "{{" raw
        then as_text (substitute 0 raw)
        else if is_field_ref raw
        then resolve_path state trigger_name raw
        else some (coerce_literal raw)

    -- `_resolve_value`; `none` is an `_EvalError`.
    pub resolve_value : Value → Option Value
    unfolding resolve_text
    resolve_value (str raw) = resolve_text raw
    resolve_value null = some null
    resolve_value (bool b) = some (bool b)
    resolve_value (int i) = some (int i)
    resolve_value (float x) = some (float x)
    resolve_value (list xs) = some (list xs)
    resolve_value (dict d) = some (dict d)

    abbrev with_entry : String → Option Value → Option Fields → Option Fields
    with_entry key none rest = none
    with_entry key (some v) none = none
    with_entry key (some v) (some d) = some (field key v d)

    -- `resolve_mapping`
    unfoldable pub resolve_mapping : Fields → Option Fields
    unfolding resolve_value
    resolve_mapping end = some end
    resolve_mapping (field key raw mapping) =
        with_entry key (resolve_value raw) (resolve_mapping mapping)
