-- ===== src/Compiler/Patching/Operations.antt =====
-- What `apply_json_patch` of src/bpg/compiler/patching.py does with an operation of a patch.
use bpg.Common.{
  ℕ, String, ◌≡◌, refl, Option, some, List, [], ◌∷◌, leb, ltb, ◌⊎◌, inl, inr, arith, Bool-cases,
}
use bpg.Value.{Value, str, list, dict, end, field, get_field, put_field}
use bpg.Compiler.Patching.{
  PathToken, key, index, patched, parse_path, items_length, set_nth, insert_nth, child, at_parent,
  add_value, replace_value, edit_for, apply_texts, apply_operation,
}
use bpg.Compiler.Patching.Lookup.{lookup, nth-set_nth, nth-insert_nth, put_here}
use bpg.Compiler.Patching.Applied.{lookup-edited}

-- An operation with a value.
abbrev pub operation : String → String → Value → Value
operation action path v =
    dict (field "op" (str action) (field "path" (str path) (field "value" v end)))

-- Putting a value below a token can succeed in two ways only.
add_value-found :
    (v : Value) (t : PathToken) (p p' : Value)
    → add_value v t p ≡ patched p'
    → lookup (t ∷ []) p' ≡ some v
unfolding add_value
add_value-found v (index n) (list xs) p' h = elim (Bool-cases (ltb (items_length xs) n)) [
  | inl e ↦ absurd (cc (rw e at h))
  | inr e ↦
      let same : list (insert_nth xs n v) ≡ p' = cc (rw e at h) in
      rw (← same) (rw (lookup, child, nth-insert_nth xs n v (ground arith)) refl)
]
add_value-found v (key k) (dict d) p' h =
    let same : dict (put_field k v d) ≡ p' = cc in
    rw (← same) (rw (lookup, child, put_here k v d) refl)
add_value-found v t p p' h = cc

replace_value-found :
    (v : Value) (t : PathToken) (p p' : Value)
    → replace_value v t p ≡ patched p'
    → lookup (t ∷ []) p' ≡ some v
unfolding replace_value
replace_value-found v (index n) (list xs) p' h = elim (Bool-cases (leb (items_length xs) n)) [
  | inl e ↦ absurd (cc (rw e at h))
  | inr e ↦
      let same : list (set_nth xs n v) ≡ p' = cc (rw e at h) in
      rw (← same) (rw (lookup, child, nth-set_nth xs n v (ground arith)) refl)
]
replace_value-found v (key k) (dict d) p' h =
    let same : dict (put_field k v d) ≡ p' = cc in
    rw (← same) (rw (lookup, child, put_here k v d) refl)
replace_value-found v t p p' h = cc

module _ (digit_value : ℕ → Option ℕ) where
  applied :
      (doc doc' v : Value) (action path : String) (tokens : List PathToken)
      → parse_path digit_value path ≡ inr tokens
      → apply_operation digit_value doc (operation action path v) ≡ patched doc'
      → at_parent tokens (λ t parent. edit_for action (some v) t parent) doc ≡ patched doc'
  unfolding apply_operation apply_texts get_field
  applied doc doc' v action path tokens is h = rw (apply_operation, apply_texts, is) at h

  -- In a document without aliases: after an `add` or a `replace` at a path, the path leads to the value
  -- of the operation.
  pub apply_operation-lookup :
      (doc doc' v : Value) (action path : String) (tokens : List PathToken)
      → (action ≡ "add") ⊎ (action ≡ "replace")
      → parse_path digit_value path ≡ inr tokens
      → apply_operation digit_value doc (operation action path v) ≡ patched doc'
      → lookup tokens doc' ≡ some v
  unfolding at_parent edit_for
  apply_operation-lookup doc doc' v action path [] which is h =
      absurd (cc (applied doc doc' v action path [] is h))
  apply_operation-lookup doc doc' v action path (t ∷ ts) (inl add) is h =
      let done = applied doc doc' v action path (t ∷ ts) is h in
      (lookup-edited (λ u p. add_value v u p) (λ u. some v) (add_value-found v) t ts doc doc'
        (rw add at done)).1
  apply_operation-lookup doc doc' v action path (t ∷ ts) (inr replace) is h =
      let done = applied doc doc' v action path (t ∷ ts) is h in
      (lookup-edited (λ u p. replace_value v u p) (λ u. some v) (replace_value-found v) t ts doc
        doc' (rw replace at done)).1
