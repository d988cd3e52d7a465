-- ===== src/Compiler/Patching.antt =====
-- JSON patches of a process document: src/bpg/compiler/patching.py without the reading of the file.
-- A document is a tree: one whose YAML uses aliases, so that a mapping or a list stands at two places and
-- an update shows at both, is outside the model. A patch that is read from JSON shares no part with the
-- document. Under these two conditions assignment is update.
-- `digit_value` is the value of a decimal digit, `none` for another character.
pub mod Lookup
pub mod Applied
pub mod Operations
mod Examples
use Prim.Native.Char.{code}
use Prim.Native.String.{◌++◌ as append}
use bpg.Common.{
  ℕ, zero, suc, ◌+◌, ◌*◌, String, Bool, true, false, not, ◌&&◌, ◌||◌, Option, none, some, List, [],
  ◌∷◌, ◌++◌, ◌==◌, if◌then◌else◌, leb, ltb, nat_eq, ◌⊎◌, inl, inr,
}
use bpg.Common.Text.{after_prefix, split}
use bpg.Value.{
  Value, Items, Fields, null, bool, int, float, str, list, dict, nil, cons, end, field, get_field,
  put_field, has_field,
}

pub data PathToken : Type 0 where
  key : String → PathToken
  index : ℕ → PathToken

-- The reasons of a `PatchApplyError`.
pub data PatchApplyError : Type 0 where
  unsupported_path invalid_segment root_target index_out_of_range key_not_found : PatchApplyError
  operation_not_object missing_op_or_path missing_value list_parent_required : PatchApplyError
  dict_parent_required unsupported_op : PatchApplyError

pub data Patched : Type 0 where
  patched : Value → Patched
  refused : PatchApplyError → Patched

abbrev pub then_patch : Patched → (Value → Patched) → Patched
then_patch (patched v) k = k v
then_patch (refused e) k = refused e

module _ (digit_value : ℕ → Option ℕ) where
  -- Where the scan of a segment stands: between tokens, in a key, behind a bracket, behind its digits.
  data Scan : Type 0 where
    between : Scan
    in_key : String → Scan
    behind_bracket : Scan
    in_digits : ℕ → Scan

  abbrev close : Scan → List PathToken → Option (List PathToken)
  close between tokens = some tokens
  close (in_key k) tokens = some (tokens ++ key k ∷ [])
  close behind_bracket tokens = none
  close (in_digits n) tokens = none

  -- The loop over one part: keys of characters other than brackets, and numbers in brackets.
  parse_part : Scan → List PathToken → String → Option (List PathToken)
  parse_part s tokens String.[] = close s tokens
  parse_part between tokens (String.◌∷◌ c cs) =
      let number = parse_part behind_bracket tokens cs in
      let name = parse_part (in_key (String.◌∷◌ c "")) tokens cs in
      if nat_eq (code c) b'[' then number else if nat_eq (code c) b']' then none else name
  parse_part (in_key k) tokens (String.◌∷◌ c cs) =
      let number = parse_part behind_bracket (tokens ++ key k ∷ []) cs in
      let longer = parse_part (in_key (append k (String.◌∷◌ c ""))) tokens cs in
      if nat_eq (code c) b'[' then number else if nat_eq (code c) b']' then none else longer
  parse_part behind_bracket tokens (String.◌∷◌ c cs) = elim (digit_value (code c)) [
    | none ↦ none
    | some d ↦ parse_part (in_digits d) tokens cs
  ]
  parse_part (in_digits n) tokens (String.◌∷◌ c cs) =
      let done = parse_part between (tokens ++ index n ∷ []) cs in
      elim (digit_value (code c)) [
        | none ↦ if nat_eq (code c) b']' then done else none
        | some d ↦ parse_part (in_digits (10 * n + d)) tokens cs
      ]

  parse_parts : List PathToken → List String → Option (List PathToken)
  unfolding parse_part
  parse_parts tokens [] = some tokens
  parse_parts tokens (part ∷ parts) = elim (parse_part between tokens part) [
    | none ↦ none
    | some more ↦ parse_parts more parts
  ]

  -- `_parse_path`
  pub parse_path : String → PatchApplyError ⊎ List PathToken
  unfolding parse_parts
  parse_path path = if path == "$" then inr [] else elim (after_prefix "$." path) [
    | none ↦ inl unsupported_path
    | some remainder ↦ elim (parse_parts [] (split b'.' remainder)) [
      | none ↦ inl invalid_segment
      | some tokens ↦ inr tokens
    ]
  ]

-- `xs[n]`, `xs[n] = v`, `xs.insert(n, v)` and `del xs[n]`, within bounds
abbrev pub nth : Items → ℕ → Option Value
nth nil n = none
nth (cons x xs) zero = some x
nth (cons x xs) (suc n) = nth xs n

abbrev pub set_nth : Items → ℕ → Value → Items
set_nth nil n v = nil
set_nth (cons x xs) zero v = cons v xs
set_nth (cons x xs) (suc n) v = cons x (set_nth xs n v)

abbrev pub insert_nth : Items → ℕ → Value → Items
insert_nth xs zero v = cons v xs
insert_nth nil (suc n) v = cons v nil
insert_nth (cons x xs) (suc n) v = cons x (insert_nth xs n v)

abbrev pub delete_nth : Items → ℕ → Items
delete_nth nil n = nil
delete_nth (cons x xs) zero = xs
delete_nth (cons x xs) (suc n) = cons x (delete_nth xs n)

abbrev pub items_length : Items → ℕ
items_length nil = 0
items_length (cons x xs) = suc (items_length xs)

-- `del d[k]`
abbrev pub delete_field : String → Fields → Fields
delete_field k end = end
delete_field k (field j v d) = if j == k then delete_field k d else field j v (delete_field k d)

-- One step of `_resolve_parent`.
abbrev pub child : PathToken → Value → PatchApplyError ⊎ Value
child (index n) (list xs) = elim (nth xs n) [ none ↦ inl index_out_of_range | some v ↦ inr v ]
child (index n) _ = inl index_out_of_range
child (key k) (dict d) = elim (get_field k d) [ none ↦ inl key_not_found | some v ↦ inr v ]
child (key k) _ = inl key_not_found

-- The changed child is in its place.
abbrev pub with_child : PathToken → Value → Value → Value
with_child (index n) (list xs) v = list (set_nth xs n v)
with_child (key k) (dict d) v = dict (put_field k v d)
with_child _ parent v = parent

-- `_resolve_parent`, and what is done to the parent and the last token.
pub at_parent : List PathToken → (PathToken → Value → Patched) → Value → Patched
unfolding get_field put_field
at_parent [] edit v = refused root_target
at_parent (t ∷ []) edit v = edit t v
at_parent (t ∷ u ∷ ts) edit v = elim (child t v) [
  | inl e ↦ refused e
  | inr c ↦ then_patch (at_parent (u ∷ ts) edit c) (λ c'. patched (with_child t v c'))
]

pub add_value : Value → PathToken → Value → Patched
unfolding put_field
add_value v (index n) (list xs) =
    if ltb (items_length xs) n
    then refused index_out_of_range
    else patched (list (insert_nth xs n v))
add_value v (index n) _ = refused list_parent_required
add_value v (key k) (dict d) = patched (dict (put_field k v d))
add_value v (key k) _ = refused dict_parent_required

pub replace_value : Value → PathToken → Value → Patched
unfolding put_field
replace_value v (index n) (list xs) =
    if leb (items_length xs) n then refused index_out_of_range else patched (list (set_nth xs n v))
replace_value v (index n) _ = refused list_parent_required
replace_value v (key k) (dict d) = patched (dict (put_field k v d))
replace_value v (key k) _ = refused dict_parent_required

pub remove_value : PathToken → Value → Patched
unfolding has_field
remove_value (index n) (list xs) =
    if leb (items_length xs) n then refused index_out_of_range else patched (list (delete_nth xs n))
remove_value (index n) _ = refused index_out_of_range
remove_value (key k) (dict d) =
    if has_field k d then patched (dict (delete_field k d)) else refused key_not_found
remove_value (key k) _ = refused key_not_found

-- The branches on `action`, with `op.get("value")`.
pub edit_for : String → Option Value → PathToken → Value → Patched
unfolding add_value replace_value remove_value
edit_for action value t parent =
    if action == "add"
    then elim value [ none ↦ refused missing_value | some v ↦ add_value v t parent ]
    else if action == "replace"
    then elim value [ none ↦ refused missing_value | some v ↦ replace_value v t parent ]
    else if action == "remove"
    then remove_value t parent
    else refused unsupported_op

abbrev pub text_of : Option Value → Option String
text_of (some (str s)) = some s
text_of _ = none

module _ (digit_value : ℕ → Option ℕ) where
  apply_texts : Value → Option String → Option String → Option Value → Patched
  unfolding at_parent edit_for
  apply_texts doc none path value = refused missing_op_or_path
  apply_texts doc (some action) none value = refused missing_op_or_path
  apply_texts doc (some action) (some path) value = elim (parse_path digit_value path) [
    | inl e ↦ refused e
    | inr tokens ↦ at_parent tokens (λ t parent. edit_for action value t parent) doc
  ]

  -- The body of the loop.
  pub apply_operation : Value → Value → Patched
  unfolding apply_texts get_field
  apply_operation doc (dict op) =
      apply_texts doc (text_of (get_field "op" op)) (text_of (get_field "path" op))
        (get_field "value" op)
  apply_operation doc _ = refused operation_not_object

  -- `apply_json_patch`
  pub apply_json_patch : Value → List Value → Patched
  unfolding apply_operation
  apply_json_patch doc [] = patched doc
  apply_json_patch doc (op ∷ ops) =
      then_patch (apply_operation doc op) (λ doc'. apply_json_patch doc' ops)
