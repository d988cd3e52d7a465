-- ===== src/Value.antt =====
-- The values of the Python program: what YAML and JSON documents, payloads and configurations hold.
-- A float is its 64-bit pattern; what the program computes with floats is a parameter where it is used.
use bpg.Common.{
  ℕ, String, ◌≡◌, refl, Bool, true, false, Option, none, some, List, [], ◌∷◌, ◌==◌, eq_iff, arith,
  if◌then◌else◌, contains,
}
use bpg.Common.Int.{ℤ, pos, int_eq}

mutual
  pub data Value : Type 0 where
    null : Value
    bool : Bool → Value
    int : ℤ → Value
    float : ℕ → Value
    str : String → Value
    list : Items → Value
    dict : Fields → Value

  pub data Items : Type 0 where
    nil : Items
    cons : Value → Items → Items

  pub data Fields : Type 0 where
    end : Fields
    field : String → Value → Fields → Fields

-- `d.get(k)`, with `none` for a missing key
unfoldable pub get_field : String → Fields → Option Value
get_field k end = none
get_field k (field j v d) = if j == k then some v else get_field k d

-- `k in d`
unfoldable pub has_field : String → Fields → Bool
has_field k end = false
has_field k (field j v d) = if j == k then true else has_field k d

-- `d[k] = v`
unfoldable pub put_field : String → Value → Fields → Fields
put_field k v end = field k v end
put_field k v (field j w d) = if j == k then field j v d else field j w (put_field k v d)

unfoldable pub field_names : Fields → List String
field_names end = []
field_names (field j v d) = j ∷ field_names d

pub get_field-put_field :
    (k j : String) (v : Value) (d : Fields)
    → get_field j (put_field k v d) ≡ (if k == j then some v else get_field j d)
unfolding get_field put_field
get_field-put_field k j v end = refl
get_field-put_field k j v (field i w d) =
    ground (arith, eq_iff k j, eq_iff i k, eq_iff i j, get_field-put_field k j v d)

pub has_field-put_field :
    (k j : String) (v : Value) (d : Fields)
    → has_field j (put_field k v d) ≡ (if k == j then true else has_field j d)
unfolding has_field put_field
has_field-put_field k j v end = refl
has_field-put_field k j v (field i w d) =
    ground (arith, eq_iff k j, eq_iff i k, eq_iff i j, has_field-put_field k j v d)

pub contains-field_names : (k : String) (d : Fields) → contains (field_names d) k ≡ has_field k d
unfolding contains field_names has_field
contains-field_names k end = refl
contains-field_names k (field j v d) = ground (arith, contains-field_names k d)

-- `bool(v)`; `is_zero` says which float patterns are zeros.
unfoldable pub truthy : (ℕ → Bool) → Value → Bool
truthy is_zero null = false
truthy is_zero (bool b) = b
truthy is_zero (int i) = if int_eq i (pos 0) then false else true
truthy is_zero (float x) = if is_zero x then false else true
truthy is_zero (str s) = if s == "" then false else true
truthy is_zero (list nil) = false
truthy is_zero (list (cons x xs)) = true
truthy is_zero (dict end) = false
truthy is_zero (dict (field k v d)) = true
