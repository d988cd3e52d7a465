-- ===== src/Compiler/Plan/EdgeIds.antt =====
-- What `_edge_id` of src/bpg/compiler/planner.py tells apart.
use Prim.Native.String.{◌++◌ as append}
use Prim.Native.Char.{code}
use text.Mathlib.TextLemmas.{
  nil-append, cons-append, append_cancel_left, append_cancel_right, append-eq-nil_iff,
}
use bpg.Common.{
  String, ◌≡◌, refl, sym, ap, ◌∙◌, ◌⊎◌, inl, inr, Bool, true, false, ◌||◌, Option, none, some, List,
  nat_eq, [], ◌∷◌, ◌==◌, if◌then◌else◌, contains, arith, All, Bool-cases, eq_iff, text_cases,
  text_test_refl,
}
use bpg.Compiler.Schema.{Edge}
use bpg.Compiler.Plan.{condition_of, edge_id, edge_ids}

unfoldable pub has_space : String → Bool
has_space String.[] = false
has_space (String.◌∷◌ c s) = nat_eq (code c) 32 || has_space s

-- The text before the first space, and the text from there.
before_space : String → String
before_space String.[] = ""
before_space (String.◌∷◌ c s) =
    let rest = before_space s in if nat_eq (code c) 32 then "" else String.◌∷◌ c rest

from_space : String → String
from_space String.[] = ""
from_space (String.◌∷◌ c s) =
    let rest = from_space s in if nat_eq (code c) 32 then String.◌∷◌ c s else rest

starts_space : String → Bool
starts_space String.[] = false
starts_space (String.◌∷◌ c s) = nat_eq (code c) 32

-- What stands behind a name: nothing, or a text that starts with a space.
abbrev IsTail : String → Type 0
IsTail t = (before_space t ≡ "") × (from_space t ≡ t)

before_space-append :
    (name tail : String)
    → has_space name ≡ false
    → IsTail tail
    → before_space (append name tail) ≡ name
unfolding has_space before_space
before_space-append String.[] tail plain (h, h') = rw (nil-append tail) h
before_space-append (String.◌∷◌ c name) tail plain h = elim (Bool-cases (nat_eq (code c) 32)) [
  | inl space ↦ absurd (cc (rw space at plain))
  | inr other ↦
      rw (cons-append c name tail, other)
        (ap (λ s. String.◌∷◌ c s) (before_space-append name tail (rw other at plain) h))
]

from_space-append :
    (name tail : String)
    → has_space name ≡ false
    → IsTail tail
    → from_space (append name tail) ≡ tail
unfolding has_space from_space
from_space-append String.[] tail plain (h, h') = rw (nil-append tail) h'
from_space-append (String.◌∷◌ c name) tail plain h = elim (Bool-cases (nat_eq (code c) 32)) [
  | inl space ↦ absurd (cc (rw space at plain))
  | inr other ↦
      rw (cons-append c name tail, other) (from_space-append name tail (rw other at plain) h)
]

append-IsTail : (t s : String) → starts_space t ≡ true → IsTail (append t s)
unfolding starts_space before_space from_space
append-IsTail String.[] s h = absurd (cc)
append-IsTail (String.◌∷◌ c t) s h = rw (cons-append c t s, h) (refl, refl)

-- Two texts that start with a name without a space, and end with such tails.
split_name :
    (name name' tail tail' : String)
    → has_space name ≡ false
    → has_space name' ≡ false
    → IsTail tail
    → IsTail tail'
    → append name tail ≡ append name' tail'
    → (name ≡ name') × (tail ≡ tail')
split_name name name' tail tail' plain plain' h h' e = (
  sym (before_space-append name tail plain h)
      ∙ ap before_space e
      ∙ before_space-append name' tail' plain' h',
  sym (from_space-append name tail plain h)
      ∙ ap from_space e
      ∙ from_space-append name' tail' plain' h',
)

-- `edge.when or ""`
abbrev pub condition_text : Option String → String
condition_text none = ""
condition_text (some when) = when

bracketed : String → String
bracketed text = append " [when: " (append text "]")

condition_of-text :
    (when : Option String)
    → condition_of when
      ≡ (if condition_text when == "" then "" else bracketed (condition_text when))
unfolding condition_of bracketed
condition_of-text none = refl
condition_of-text (some when) = refl

condition_of-IsTail : (when : Option String) → IsTail (condition_of when)
unfolding bracketed
condition_of-IsTail when =
    rw (condition_of-text when) (elim (Bool-cases (condition_text when == "")) [
      | inl lacking ↦ rw lacking (unfold before_space from_space in (refl, refl))
      | inr there ↦ rw there (append-IsTail " [when: " _ (unfold starts_space in refl))
    ])

bracketed-ne-nil : (text : String) → bracketed text ≡ "" → ⊥
unfolding bracketed starts_space
bracketed-ne-nil text e = nil_apart " [when: " (append-eq-nil_iff.0 e).0 refl
  where
    nil_apart : (s : String) → s ≡ "" → starts_space s ≡ true → ⊥
    nil_apart s nothing starts = absurd (cc (rw nothing at starts))

bracketed_inj : (s t : String) → bracketed s ≡ bracketed t → s ≡ t
unfolding bracketed
bracketed_inj s t e = append_cancel_right s t "]" (append_cancel_left " [when: " _ _ e)

condition_of_inj :
    (a b : Option String) → condition_of a ≡ condition_of b → condition_text a ≡ condition_text b
condition_of_inj a b e = elim (Bool-cases (condition_text a == "")) [
  | inl lacking ↦ elim (Bool-cases (condition_text b == "")) [
    | inl lacking' ↦ (eq_iff _ _).0 lacking ∙ sym ((eq_iff _ _).0 lacking')
    | inr there' ↦ absurd (bracketed-ne-nil _ (sym (rw (lacking, there') at texts)))
  ]
  | inr there ↦ elim (Bool-cases (condition_text b == "")) [
    | inl lacking' ↦ absurd (bracketed-ne-nil _ (rw (there, lacking') at texts))
    | inr there' ↦ bracketed_inj _ _ (rw (there, there') at texts)
  ]
]
  where
    texts :
        (if condition_text a == "" then "" else bracketed (condition_text a))
        ≡ (if condition_text b == "" then "" else bracketed (condition_text b))
    texts = sym (condition_of-text a) ∙ e ∙ condition_of-text b

-- The same nodes joined under the same condition; no condition is an empty one.
abbrev pub JoinsAlike : Edge → Edge → Type 0
JoinsAlike e f =
    (e.source ≡ f.source) × (e.target ≡ f.target) × (condition_text e.when ≡ condition_text f.when)

abbrev pub HasAlike : List Edge → Edge → Type 0
HasAlike [] e = ⊥
HasAlike (f ∷ edges) e = JoinsAlike e f ⊎ HasAlike edges e

abbrev pub HasPlainNames : Edge → Type 0
HasPlainNames e = (has_space e.source ≡ false) × (has_space e.target ≡ false)

edge_id_inj :
    (e f : Edge) → HasPlainNames e → HasPlainNames f → edge_id e ≡ edge_id f → JoinsAlike e f
unfolding edge_id
edge_id_inj e f (s, t) (s', t') same =
    let (sources, rests) =
      split_name e.source f.source _ _ s s' (append-IsTail " -> " _ (unfold starts_space in refl))
        (append-IsTail " -> " _ (unfold starts_space in refl)) same in
    let (targets, conditions) =
      split_name e.target f.target _ _ t t' (condition_of-IsTail e.when)
        (condition_of-IsTail f.when) (append_cancel_left " -> " _ _ rests) in
    (sources, targets, condition_of_inj e.when f.when conditions)

edge_id-JoinsAlike : (e f : Edge) → JoinsAlike e f → edge_id e ≡ edge_id f
unfolding edge_id
edge_id-JoinsAlike e f (s, t, w) =
    rw (s, t, condition_of-text e.when, w, ← condition_of-text f.when) refl

contains-HasAlike :
    (e : Edge) (edges : List Edge)
    → HasPlainNames e
    → All HasPlainNames edges
    → contains (edge_ids edges) (edge_id e) ≡ true
    → HasAlike edges e
unfolding edge_ids contains
contains-HasAlike e [] plain plains h = absurd (cc)
contains-HasAlike e (f ∷ edges) plain (plain', plains) h =
    elim (text_cases (edge_id f) (edge_id e)) [
      | inl same ↦ inl (edge_id_inj e f plain plain' (sym same))
      | inr other ↦ inr (contains-HasAlike e edges plain plains (rw other at h))
    ]

HasAlike-contains :
    (e : Edge) (edges : List Edge) → HasAlike edges e → contains (edge_ids edges) (edge_id e) ≡ true
unfolding edge_ids contains
HasAlike-contains e [] h = absurd h
HasAlike-contains e (f ∷ edges) (inl alike) =
    rw (edge_id-JoinsAlike e f alike) (ground (arith, text_test_refl (edge_id f)))
HasAlike-contains e (f ∷ edges) (inr h) = ground (arith, HasAlike-contains e edges h)

pub alike_edges_of_ids :
    (small large : List Edge)
    → All HasPlainNames small
    → All HasPlainNames large
    → ((x : String) → contains (edge_ids small) x ≡ true → contains (edge_ids large) x ≡ true)
    → All (HasAlike large) small
unfolding edge_ids contains
alike_edges_of_ids [] large plains plains' h = tt
alike_edges_of_ids (e ∷ small) large (plain, plains) plains' h = (
  contains-HasAlike e large plain plains'
      (h (edge_id e) (ground (arith, text_test_refl (edge_id e)))),
  alike_edges_of_ids small large plains plains' (λ x on. h x (ground (arith, on))),
)

pub ids_of_alike_edges :
    (small large : List Edge)
    → All (HasAlike large) small
    → (x : String) → contains (edge_ids small) x ≡ true
    → contains (edge_ids large) x ≡ true
unfolding edge_ids contains
ids_of_alike_edges [] large h x on = absurd (cc)
ids_of_alike_edges (e ∷ small) large (alike, h) x on = elim (text_cases (edge_id e) x) [
  | inl same ↦ rw (← same) (HasAlike-contains e large alike)
  | inr other ↦ ids_of_alike_edges small large h x (rw other at on)
]
