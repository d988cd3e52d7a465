-- ===== src/Common/Lists.antt =====
-- Lists of names: length, membership test and multiplicity, over native numbers.
use Prim.Native.Nat.{ℕ, suc, ◌+◌, ◌≤◌, ◌<◌}
use Prim.Native.String.{String}
use mathlib.Core.Path.{◌≡◌, refl, sym, ap, ◌∙◌}
use mathlib.Core.Logic.{inl, inr}
use mathlib.Core.Bool.{Bool, true, false, not, ◌&&◌, ◌||◌}
use mathlib.Core.List.{List, [], ◌∷◌, ◌++◌, map, append-nil}
use native.Mathlib.Decide.{dec_lt}
use native.Mathlib.Omega.{arith}
use text.Mathlib.Text.{◌==◌}
use text.Mathlib.TextEquality.{eq_iff}
use bpg.Common.Tests.{if◌then◌else◌, text_cases, text_test_refl}

abbrev pub length {ℓ} : {A : Type ℓ} → List A → ℕ
length [] = 0
length (x ∷ xs) = suc (length xs)

pub length-append {ℓ} : {A : Type ℓ} (xs ys : List A) → length (xs ++ ys) ≡ length xs + length ys
length-append [] ys = omega arith
length-append (x ∷ xs) ys = omega (arith, length-append xs ys)

-- `name in names`
unfoldable pub contains : List String → String → Bool
contains [] a = false
contains (x ∷ xs) a = x == a || contains xs a

-- How often a name stands in a list.
unfoldable pub count : String → List String → ℕ
count a [] = 0
count a (x ∷ xs) = (if x == a then 1 else 0) + count a xs

pub count-append : (a : String) (xs ys : List String) → count a (xs ++ ys) ≡ count a xs + count a ys
unfolding count
count-append a [] ys = omega arith
count-append a (x ∷ xs) ys = ground (arith, count-append a xs ys)

pub contains-count : (xs : List String) (a : String) → contains xs a ≡ true → 0 < count a xs
unfolding contains count
contains-count (x ∷ xs) a h = ground (arith, contains-count xs a)
contains-count [] a h = cc

pub count-contains : (xs : List String) (a : String) → 0 < count a xs → contains xs a ≡ true
unfolding contains count
count-contains (x ∷ xs) a h = ground (arith, count-contains xs a)
count-contains [] a h = absurd (omega arith)

-- Drops the first occurrence.
erase : String → List String → List String
erase a [] = []
erase a (x ∷ xs) = if x == a then xs else x ∷ erase a xs

length-erase :
    (a : String) (xs : List String) → 0 < count a xs → suc (length (erase a xs)) ≡ length xs
unfolding erase count
length-erase a [] h = absurd (omega arith)
length-erase a (x ∷ xs) h = ground (arith, length-erase a xs)

count-erase :
    (a b : String) (xs : List String)
    → count b xs ≤ (if a == b then 1 else 0) + count b (erase a xs)
unfolding erase count
count-erase a b [] = ground arith
count-erase a b (x ∷ xs) = ground (arith, count-erase a b xs, eq_iff x a, eq_iff x b, eq_iff a b)

-- A list that holds no name more often than another is no longer.
pub length-le_of_count-le :
    (xs ys : List String) → ((a : String) → count a xs ≤ count a ys) → length xs ≤ length ys
length-le_of_count-le [] ys h = omega arith
length-le_of_count-le (x ∷ xs) ys h =
    omega (arith, length-erase x ys here, length-le_of_count-le xs (erase x ys) rest)
  where
    here : 0 < count x ys
    here = unfold count in ground (arith, h x, text_test_refl x)

    rest : (a : String) → count a xs ≤ count a (erase x ys)
    rest a = unfold count in ground (arith, h a, count-erase x a ys)

-- If it is as long too, the two hold the same names, as often.
pub count-eq_of_length-eq :
    (xs ys : List String)
    → ((a : String) → count a xs ≤ count a ys)
    → length xs ≡ length ys
    → (a : String) → count a xs ≡ count a ys
count-eq_of_length-eq xs ys h e a = elim (dec_lt (count a xs) (count a ys)) [
  | yes less ↦ absurd (omega (arith, length-le_of_count-le (a ∷ xs) ys (more less), e))
  | no same ↦ omega (arith, h a)
]
  where
    more : count a xs < count a ys → (b : String) → count b (a ∷ xs) ≤ count b ys
    more less b = elim (text_cases a b) [
      | inl is ↦ rw (← is) (unfold count in ground (arith, text_test_refl a))
      | inr other ↦ unfold count in rw other (omega (arith, h b))
    ]

-- A predicate at every element.
abbrev pub All {ℓ κ} : {A : Type ℓ} → (A → Type κ) → List A → Type κ
All P [] = Unit
All P (x ∷ xs) = P x × All P xs

pub All-map {ℓ κ μ} :
    {A : Type ℓ} {P : A → Type κ} {Q : A → Type μ} (f : (a : A) → P a → Q a) (xs : List A)
    → All P xs
    → All Q xs
All-map f [] h = tt
All-map f (x ∷ xs) h = (f x h.0, All-map f xs h.1)

-- A list at a place where a name stands in it.
pub split_at :
    (a : String) (xs : List String)
    → 0 < count a xs
    → (before : List String) × (after : List String) × (xs ≡ before ++ a ∷ after)
unfolding count
split_at a [] h = absurd (omega arith)
split_at a (x ∷ xs) h = elim (text_cases x a) [
  | inl is ↦ ([], xs, rw is)
  | inr other ↦
      let (before, after, e) = split_at a xs (ground arith) in (x ∷ before, after, rw (← e))
]

pub All-zip {ℓ κ μ} :
    {A : Type ℓ} (P : A → Type κ) (Q : A → Type μ) (xs : List A)
    → All P xs
    → All Q xs
    → All (λ a. P a × Q a) xs
All-zip P Q [] h k = tt
All-zip P Q (x ∷ xs) h k = ((h.0, k.0), All-zip P Q xs h.1 k.1)

-- What holds at every index of all elements holds of every element at all indices.
pub All-forall {ℓ κ μ} :
    {A : Type ℓ} {I : Type μ} (P : I → A → Type κ) (xs : List A)
    → ((i : I) → All (P i) xs)
    → All (λ a. (i : I) → P i a) xs
All-forall P [] h = tt
All-forall P (x ∷ xs) h = ((λ i. (h i).0), All-forall P xs (λ i. (h i).1))

-- No name twice, as a test and as a property.
abbrev pub distinct : List String → Bool
distinct [] = true
distinct (x ∷ xs) = not (contains xs x) && distinct xs

pub distinct→count-le : (xs : List String) → distinct xs ≡ true → (a : String) → count a xs ≤ 1
unfolding count
distinct→count-le [] h a = omega arith
distinct→count-le (x ∷ xs) h a = ground (
  arith,
  distinct→count-le xs,
  count-contains xs a,
  eq_iff x a,
  distinct→count-le xs (ground arith) a,
)

-- The reversed list in front of another.
module _ {ℓ} {A : Type ℓ} where
  abbrev pub onto : List A → List A → List A
  onto [] out = out
  onto (x ∷ xs) out = onto xs (x ∷ out)

  pub onto-onto : (xs acc out : List A) → onto (onto xs acc) out ≡ onto acc (xs ++ out)
  onto-onto [] acc out = refl
  onto-onto (x ∷ xs) acc out = onto-onto xs (x ∷ acc) out

  pub All-onto {κ} : (P : A → Type κ) (xs out : List A) → All P xs → All P out → All P (onto xs out)
  All-onto P [] out h k = k
  All-onto P (x ∷ xs) out h k = All-onto P xs (x ∷ out) h.1 (h.0, k)

pub map-onto {ℓ κ} :
    {A : Type ℓ} {B : Type κ} (f : A → B) (xs out : List A)
    → map f (onto xs out) ≡ onto (map f xs) (map f out)
map-onto f [] out = refl
map-onto f (x ∷ xs) out = map-onto f xs (x ∷ out)

-- Lists are equal if they are equal reversed.
pub onto_cancel {ℓ} : {A : Type ℓ} (xs ys : List A) → onto xs [] ≡ onto ys [] → xs ≡ ys
onto_cancel xs ys e =
    sym (append-nil xs)
    ∙ sym (onto-onto xs [] [])
    ∙ ap (λ l. onto l []) e
    ∙ onto-onto ys [] []
    ∙ append-nil ys
