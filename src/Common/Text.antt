-- ===== src/Common/Text.antt =====
-- Python's operations on texts that the program uses: `strip`, `startswith` with a slice, `split`,
-- `join`, `sorted`, and the decimal of a number in an f-string.
use Prim.Native.Nat.{ℕ, zero, suc, ◌/◌, ◌%◌, Ordering}
use Prim.Native.Char.{code}
use Prim.Native.String.{String, compare, ◌++◌}
use mathlib.Core.Path.{◌≡◌, refl}
use mathlib.Core.Bool.{Bool, ◌&&◌, ◌||◌}
use mathlib.Core.Option.{Option, none, some}
use mathlib.Core.List.{List, [], ◌∷◌}
use text.Mathlib.Text.{◌==◌}
use bpg.Common.Tests.{leb, nat_eq, if◌then◌else◌}
use bpg.Common.Lists.{contains}

-- `c.isspace()`
unfoldable pub is_space : ℕ → Bool
is_space c =
    (leb 9 c && leb c 13)
    || (leb 28 c && leb c 32)
    || nat_eq c 0x85
    || nat_eq c 0xa0
    || nat_eq c 0x1680
    || (leb 0x2000 c && leb c 0x200a)
    || nat_eq c 0x2028
    || nat_eq c 0x2029
    || nat_eq c 0x202f
    || nat_eq c 0x205f
    || nat_eq c 0x3000

unfoldable pub strip_left : String → String
unfolding is_space
strip_left String.[] = ""
strip_left (String.◌∷◌ c s) =
    let rest = strip_left s in if is_space (code c) then rest else String.◌∷◌ c s

unfoldable pub strip_right : String → String
unfolding is_space
strip_right String.[] = ""
strip_right (String.◌∷◌ c s) =
    let rest = strip_right s in if is_space (code c) && rest == "" then "" else String.◌∷◌ c rest

-- `s.strip()`
unfoldable pub strip : String → String
unfolding strip_left strip_right
strip s = strip_right (strip_left s)

-- What stands behind a prefix, if the text starts with it.
unfoldable pub after_prefix : String → String → Option String
after_prefix String.[] s = some s
after_prefix (String.◌∷◌ c p) String.[] = none
after_prefix (String.◌∷◌ c p) (String.◌∷◌ d s) =
    let rest = after_prefix p s in if nat_eq (code c) (code d) then rest else none

onto_head : String → List String → List String
onto_head s [] = s ∷ []
onto_head s (x ∷ xs) = (s ++ x) ∷ xs

-- `s.split(sep)` for a separator of one character
unfoldable pub split : ℕ → String → List String
unfolding onto_head
split sep String.[] = "" ∷ []
split sep (String.◌∷◌ c s) =
    let rest = split sep s in
    if nat_eq (code c) sep then "" ∷ rest else onto_head (String.◌∷◌ c "") rest

-- `sep.join(parts)`
unfoldable pub join : String → List String → String
join sep [] = ""
join sep (x ∷ []) = x
join sep (x ∷ y ∷ ys) = x ++ (sep ++ join sep (y ∷ ys))

digit : ℕ → String
digit d =
    if nat_eq d 0
    then "0"
    else if nat_eq d 1
    then "1"
    else if nat_eq d 2
    then "2"
    else if nat_eq d 3
    then "3"
    else if nat_eq d 4
    then "4"
    else if nat_eq d 5
    then "5"
    else if nat_eq d 6
    then "6"
    else if nat_eq d 7
    then "7"
    else if nat_eq d 8
    then "8"
    else "9"

decimal_digits : ℕ → ℕ → String
unfolding digit
decimal_digits zero n = ""
decimal_digits (suc fuel) n =
    let front = decimal_digits fuel (n / 10) in if leb n 9 then digit n else front ++ digit (n % 10)

-- `str(n)`: a number has at most as many digits as one more than its value.
unfoldable pub decimal : ℕ → String
unfolding decimal_digits
decimal n = decimal_digits (suc n) n

-- `paths.add(x)`, for a set as a list without repetition
unfoldable pub add_name : String → List String → List String
unfolding contains
add_name x xs = if contains xs x then xs else x ∷ xs

unfoldable pub union : List String → List String → List String
unfolding add_name
union [] ys = ys
union (x ∷ xs) ys = add_name x (union xs ys)

insert_name : String → List String → List String
insert_name x [] = x ∷ []
insert_name x (y ∷ ys) = elim (compare x y) [ Ordering.gt ↦ y ∷ insert_name x ys | _ ↦ x ∷ y ∷ ys ]

-- `sorted(names)`
unfoldable pub sort_names : List String → List String
unfolding insert_name
sort_names [] = []
sort_names (x ∷ xs) = insert_name x (sort_names xs)

insert_name-cons :
    (x : String) (xs : List String)
    → (y : String) × (ys : List String) × (insert_name x xs ≡ y ∷ ys)
unfolding insert_name
insert_name-cons x [] = (x, [], refl)
insert_name-cons x (z ∷ zs) = at (compare x z)
  where
    at :
        (o : Ordering)
        → (y : String) × (ys : List String) × (elim o [
          | Ordering.gt ↦ z ∷ insert_name x zs
          | _ ↦ x ∷ z ∷ zs
        ]
            ≡ y ∷ ys)
    at Ordering.lt = (x, z ∷ zs, refl)
    at Ordering.eq = (x, z ∷ zs, refl)
    at Ordering.gt = (z, insert_name x zs, refl)

pub sort_names-cons :
    (x : String) (xs : List String)
    → (y : String) × (ys : List String) × (sort_names (x ∷ xs) ≡ y ∷ ys)
unfolding sort_names
sort_names-cons x xs = insert_name-cons x (sort_names xs)
