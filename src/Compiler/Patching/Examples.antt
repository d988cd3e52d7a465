-- ===== src/Compiler/Patching/Examples.antt =====
-- A patch of a small process document.
use bpg.Common.{ℕ, ◌≡◌, refl, Option, none, some, List, [], ◌∷◌, ◌-◌, ◌&&◌, leb, if◌then◌else◌, inr}
use bpg.Common.Text.{after_prefix, split}
use bpg.Value.{Value, str, list, dict, nil, cons, end, field, get_field, put_field}
use bpg.Compiler.Patching.{
  PathToken, key, index, patched, refused, index_out_of_range, parse_path, at_parent, edit_for,
  apply_operation, apply_json_patch,
}
use bpg.Compiler.Patching.Lookup.{lookup}
use bpg.Compiler.Patching.Operations.{operation, apply_operation-lookup}

abbrev ascii_digit : ℕ → Option ℕ
ascii_digit c = if leb b'0' c && leb c b'9' then some (c - b'0') else none

abbrev document : Value
document = dict (
    field "trigger" (str "intake") (
      field "edges"
        (list (cons (dict (field "from" (str "intake") (field "to" (str "triage") end))) nil)) end))

abbrev changed : Value
changed = dict (
    field "trigger" (str "intake") (
      field "edges"
        (list (cons (dict (field "from" (str "intake") (field "to" (str "approve") end))) nil))
        end))

abbrev tokens : List PathToken
tokens = key "edges" ∷ index 0 ∷ key "to" ∷ []

parsed-path : parse_path ascii_digit "$.edges[0].to" ≡ inr tokens
unfolding parse_path after_prefix split
parsed-path = refl

changed-document :
    apply_operation ascii_digit document (operation "replace" "$.edges[0].to" (str "approve"))
    ≡ patched changed
unfolding apply_operation parse_path after_prefix split at_parent edit_for get_field put_field
changed-document = refl

out_of_range :
    apply_json_patch ascii_digit document (operation "add" "$.edges[2]" (str "x") ∷ [])
    ≡ refused index_out_of_range
unfolding apply_json_patch parse_path after_prefix split at_parent edit_for get_field put_field
out_of_range = refl

apply_operation-lookup_example : lookup tokens changed ≡ some (str "approve")
apply_operation-lookup_example =
    apply_operation-lookup ascii_digit document changed (str "approve") "replace" "$.edges[0].to"
      tokens (inr refl) parsed-path changed-document
