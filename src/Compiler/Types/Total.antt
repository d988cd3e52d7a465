-- ===== src/Compiler/Types/Total.antt =====
-- Parsing a field type ends, and so does it for the elements of lists.
use bpg.Common.{
  ℕ, zero, suc, ◌<◌, String, ◌≡◌, refl, sym, ap, ◌∙◌, Bool, true, false, not, [], ◌==◌,
  if◌then◌else◌, arith, Option-cases, Bool-cases, inl, inr, ◌⊎◌,
}
use bpg.Common.Text.{strip, after_prefix}
use bpg.Compiler.Types.{
  FieldType, ParsedType, field_type, value_error, unfinished, size, list_body, enum_body, balanced,
  starts_list, after_inner, core_of, list_type, parse_core, parse_types, parse_field_type,
}
use bpg.Compiler.Types.Nested.{size-strip, size-list_body, size-core_of}

abbrev IsFinished : ParsedType → Type 0
IsFinished (field_type t) = Unit
IsFinished value_error = Unit
IsFinished unfinished = ⊥

IsFinished-if :
    (b : Bool) (r s : ParsedType) → IsFinished r → IsFinished s → IsFinished (if b then r else s)
IsFinished-if true r s h k = h
IsFinished-if false r s h k = k

IsFinished-after_inner :
    (r : ParsedType) (t : FieldType) → IsFinished r → IsFinished (after_inner r t)
IsFinished-after_inner (field_type u) t h = tt
IsFinished-after_inner value_error t h = tt
IsFinished-after_inner unfinished t h = h

list_type-IsFinished :
    (core inner : String) (optional : Bool) (nested : ParsedType)
    → IsFinished nested
    → IsFinished (list_type core inner optional nested)
unfolding list_type
list_type-IsFinished core inner optional nested h = IsFinished-if (not (balanced 0 core)) _ _ tt (
    IsFinished-if (inner == "") _ _ tt
      (IsFinished-if (starts_list inner) _ _ (IsFinished-after_inner nested _ h) tt))

module _ (core : String) (optional : Bool) where
  parse_core-IsFinished :
      (f : String → ParsedType)
      → ((s : String) → size s < size core → IsFinished (f s))
      → IsFinished (parse_core core optional f)
  unfolding parse_core
  parse_core-IsFinished f h = elim (Option-cases (enum_body core)) [
    | inr (body, e) ↦ rw (parse_core, e) tt
    | inl e ↦ elim (Option-cases (list_body core)) [
      | inl e' ↦ rw (parse_core, e, e') tt
      | inr (body, e') ↦
          rw (parse_core, e, e')
            (list_type-IsFinished core (strip body) optional _
              (h (strip body) (omega (arith, size-strip body, size-list_body core body e'))))
    ]
  ]

  parse_core_same :
      (f g : String → ParsedType)
      → ((s : String) → size s < size core → f s ≡ g s)
      → parse_core core optional f ≡ parse_core core optional g
  unfolding parse_core
  parse_core_same f g h = elim (Option-cases (enum_body core)) [
    | inr (body, e) ↦ rw (parse_core, e) refl
    | inl e ↦ elim (Option-cases (list_body core)) [
      | inl e' ↦ rw (parse_core, e, e') refl
      | inr (body, e') ↦
          rw (parse_core, e, e')
            (ap (list_type core (strip body) optional)
              (h (strip body) (omega (arith, size-strip body, size-list_body core body e'))))
    ]
  ]

parse_types-IsFinished : (n : ℕ) (s : String) → size s < n → IsFinished (parse_types n s)
unfolding parse_types
parse_types-IsFinished zero s h = absurd (omega arith)
parse_types-IsFinished (suc n) s h =
    parse_core-IsFinished (core_of s).0 (core_of s).1 (λ inner. parse_types n inner)
      (λ inner lt. parse_types-IsFinished n inner (omega (arith, size-core_of s)))

-- More fuel changes nothing.
parse_types_same :
    (n m : ℕ) (s : String) → size s < n → size s < m → parse_types n s ≡ parse_types m s
unfolding parse_types
parse_types_same zero m s h k = absurd (omega arith)
parse_types_same (suc n) zero s h k = absurd (omega arith)
parse_types_same (suc n) (suc m) s h k =
    parse_core_same (core_of s).0 (core_of s).1 (λ inner. parse_types n inner)
      (λ inner. parse_types m inner)
      (λ inner lt.
        parse_types_same n m inner (omega (arith, size-core_of s)) (omega (arith, size-core_of s)))

finished_cases :
    (r : ParsedType) → IsFinished r → ((t : FieldType) × (r ≡ field_type t)) ⊎ (r ≡ value_error)
finished_cases (field_type t) h = inl (t, refl)
finished_cases value_error h = inr refl
finished_cases unfinished h = absurd h

-- For every text the parser ends, with a field type or a `ValueError`.
pub parse_field_type-total :
    (s : String)
    → ((t : FieldType) × (parse_field_type s ≡ field_type t)) ⊎ (parse_field_type s ≡ value_error)
unfolding parse_field_type
parse_field_type-total s = finished_cases _ (parse_types-IsFinished (suc (size s)) s (omega arith))

-- Its recursive calls are calls of the whole parser.
parse_field_type-unfold :
    (s : String)
    → parse_field_type s ≡ parse_core (core_of s).0 (core_of s).1 (λ inner. parse_field_type inner)
unfolding parse_field_type parse_types
parse_field_type-unfold s =
    parse_core_same (core_of s).0 (core_of s).1 (λ inner. parse_types (size s) inner)
      (λ inner. parse_field_type inner)
      (λ inner lt.
        parse_types_same (size s) (suc (size inner)) inner (omega (arith, size-core_of s))
          (omega arith))

-- What a parser makes of an element that is a list again.
abbrev HasElement : (String → ParsedType) → FieldType → Type 0
HasElement f t =
    starts_list t.list_element ≡ true → (u : FieldType) × (f t.list_element ≡ field_type u)

after_inner_cases :
    (r : ParsedType) (made t : FieldType)
    → after_inner r made ≡ field_type t
    → ((u : FieldType) × (r ≡ field_type u)) × (made ≡ t)
after_inner_cases (field_type u) made t h = ((u, refl), cc)
after_inner_cases value_error made t h = cc
after_inner_cases unfinished made t h = cc

list_type-HasElement :
    (core inner : String) (optional : Bool) (f : String → ParsedType) (t : FieldType)
    → list_type core inner optional (f inner) ≡ field_type t
    → HasElement f t
unfolding list_type
list_type-HasElement core inner optional f t h again = elim (Bool-cases (balanced 0 core)) [
  | inr b ↦ absurd (cc (rw (list_type, b) at h))
  | inl b ↦ elim (Bool-cases (inner == "")) [
    | inl e ↦ absurd (cc (rw (list_type, b, e) at h))
    | inr e ↦ elim (Bool-cases (starts_list inner)) [
      | inl l ↦
          let inside : after_inner (f inner) made ≡ field_type t = rw (list_type, b, e, l) at h in
          let ((u, is), same) = after_inner_cases (f inner) made t inside in
          let element : inner ≡ t.list_element = ap (λ x. x.list_element) same in
          (u, rw (← element) is)
      | inr l ↦
          let same : made ≡ t = cc (rw (list_type, b, e, l) at h) in
          let element : inner ≡ t.list_element = ap (λ x. x.list_element) same in
          absurd (cc (rw (← element) at again))
    ]
  ]
]
  where
    made : FieldType
    made = record { base = "list"; optional = optional; enum_values = []; list_element = inner }

parse_core-HasElement :
    (core : String) (optional : Bool) (f : String → ParsedType) (t : FieldType)
    → parse_core core optional f ≡ field_type t
    → HasElement f t
unfolding parse_core after_prefix
parse_core-HasElement core optional f t h = elim (Option-cases (enum_body core)) [
  | inr (body, e) ↦
      let same : "" ≡ t.list_element = ap element_of (rw (parse_core, e) at h) in
      λ again. absurd (no_list t.list_element same again)
  | inl e ↦ elim (Option-cases (list_body core)) [
    | inl e' ↦
        let same : "" ≡ t.list_element = ap element_of (rw (parse_core, e, e') at h) in
        λ again. absurd (no_list t.list_element same again)
    | inr (body, e') ↦
        list_type-HasElement core (strip body) optional f t (rw (parse_core, e, e') at h)
  ]
]
  where
    element_of : ParsedType → String
    element_of (field_type u) = u.list_element
    element_of value_error = ""
    element_of unfinished = ""

    no_list : (x : String) → "" ≡ x → starts_list x ≡ true → ⊥
    no_list x same h = let none_left : false ≡ true = rw (← same) at h in cc

-- Where a list type is accepted and its element starts as a list type, the element is accepted by the
-- parser, too, and so at every depth.
pub parse_field_type-list_element :
    (s : String) (t : FieldType)
    → parse_field_type s ≡ field_type t
    → starts_list t.list_element ≡ true
    → (u : FieldType) × (parse_field_type t.list_element ≡ field_type u)
parse_field_type-list_element s t h =
    parse_core-HasElement (core_of s).0 (core_of s).1 (λ inner. parse_field_type inner) t
      (sym (parse_field_type-unfold s) ∙ h)
