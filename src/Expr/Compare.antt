-- ===== src/Expr/Compare.antt =====
-- `_apply_cmp` of src/bpg/runtime/expr.py: Python's comparisons of JSON values, with `none` for a
-- `TypeError`. Lists and dictionaries compare their parts by value.
use Prim.Native.Nat.{Ordering}
use Prim.Native.String.{compare}
use bpg.Common.{
  ℕ, suc, String, Bool, true, false, not, ◌&&◌, Option, none, some, ◌==◌, if◌then◌else◌, nat_eq,
}
use bpg.Common.Int.{ℤ, pos, int_eq, int_lt, int_le}
use bpg.Value.{
  Value, Items, Fields, null, bool, int, float, str, list, dict, nil, cons, end, field, get_field,
}

pub data Cmp : Type 0 where
  less less_or_equal greater greater_or_equal : Cmp

-- What Python computes with floats: the value of a literal, which are zeros, and the comparisons of
-- two numbers of which one is a float at least; and the value of a decimal digit.
pub record Numbers : Type 0 where
  pub float_of : String → ℕ
  pub is_zero : ℕ → Bool
  pub same_floats : Value → Value → Bool
  pub order_floats : Cmp → Value → Value → Bool
  pub digit_value : ℕ → ℕ

-- A truth value is a number.
abbrev pub as_number : Value → Value
as_number (bool b) = int (pos (if b then 1 else 0))
as_number null = null
as_number (int i) = int i
as_number (float x) = float x
as_number (str s) = str s
as_number (list xs) = list xs
as_number (dict d) = dict d

abbrev pub order_ints : Cmp → ℤ → ℤ → Bool
order_ints less i j = int_lt i j
order_ints less_or_equal i j = int_le i j
order_ints greater i j = int_lt j i
order_ints greater_or_equal i j = int_le j i

-- A comparison that the order of two texts, or two lengths, decides.
abbrev pub by_ordering : Cmp → Ordering → Bool
by_ordering less Ordering.lt = true
by_ordering less Ordering.eq = false
by_ordering less Ordering.gt = false
by_ordering less_or_equal Ordering.lt = true
by_ordering less_or_equal Ordering.eq = true
by_ordering less_or_equal Ordering.gt = false
by_ordering greater Ordering.lt = false
by_ordering greater Ordering.eq = false
by_ordering greater Ordering.gt = true
by_ordering greater_or_equal Ordering.lt = false
by_ordering greater_or_equal Ordering.eq = true
by_ordering greater_or_equal Ordering.gt = true

abbrev pub size : Fields → ℕ
size end = 0
size (field k v d) = suc (size d)

module _ (python : Numbers) where
  same_numbers : Value → Value → Bool
  same_numbers (int i) (int j) = int_eq i j
  same_numbers (int i) (float y) = python.same_floats (int i) (float y)
  same_numbers (float x) (int j) = python.same_floats (float x) (int j)
  same_numbers (float x) (float y) = python.same_floats (float x) (float y)
  same_numbers _ _ = false

  -- `==`
  unfoldable mutual
    unfolding same_numbers

    pub same : Value → Value → Bool
    same null null = true
    same (str s) (str t) = s == t
    same (list xs) (list ys) = same_items xs ys
    same (dict d) (dict e) = nat_eq (size d) (size e) && within d e
    same v w = same_numbers (as_number v) (as_number w)

    same_items : Items → Items → Bool
    same_items nil nil = true
    same_items (cons x xs) (cons y ys) = same x y && same_items xs ys
    same_items _ _ = false

    within : Fields → Fields → Bool
    within end e = true
    within (field k v d) e = elim (get_field k e) [ none ↦ false | some w ↦ same v w && within d e ]

  order_numbers : Cmp → Value → Value → Option Bool
  order_numbers c (int i) (int j) = some (order_ints c i j)
  order_numbers c (int i) (float y) = some (python.order_floats c (int i) (float y))
  order_numbers c (float x) (int j) = some (python.order_floats c (float x) (int j))
  order_numbers c (float x) (float y) = some (python.order_floats c (float x) (float y))
  order_numbers c _ _ = none

  -- `<`, `<=`, `>` and `>=`; lists are decided by their first differing items.
  mutual
    unfolding order_numbers same

    pub order : Cmp → Value → Value → Option Bool
    order c (str s) (str t) = some (by_ordering c (compare s t))
    order c (list xs) (list ys) = order_items c xs ys
    order c v w = order_numbers c (as_number v) (as_number w)

    order_items : Cmp → Items → Items → Option Bool
    order_items c nil nil = some (by_ordering c Ordering.eq)
    order_items c nil (cons y ys) = some (by_ordering c Ordering.lt)
    order_items c (cons x xs) nil = some (by_ordering c Ordering.gt)
    order_items c (cons x xs) (cons y ys) =
        let rest = order_items c xs ys in let here = order c x y in if same x y then rest else here

  -- The operators that the grammar has; no other reaches `_apply_cmp`.
  unfoldable pub apply_cmp : String → Value → Value → Option Bool
  unfolding same order
  apply_cmp op left right =
      if op == "=="
      then some (same left right)
      else if op == "!="
      then some (not (same left right))
      else if op == ">"
      then order greater left right
      else if op == "<"
      then order less left right
      else if op == ">="
      then order greater_or_equal left right
      else if op == "<="
      then order less_or_equal left right
      else none
