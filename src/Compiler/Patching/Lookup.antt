-- ===== src/Compiler/Patching/Lookup.antt =====
-- What is found in a document after an operation of a patch.
use bpg.Common.{
  ℕ, zero, suc, ◌≤◌, ◌<◌, String, ◌≡◌, refl, Option, none, some, List, [], ◌∷◌, inl, inr, arith,
  Option-cases, text_test_refl,
}
use bpg.Value.{
  Value, Items, Fields, null, bool, int, float, str, list, dict, nil, cons, get_field, put_field,
  get_field-put_field,
}
use bpg.Compiler.Patching.{
  PathToken, key, index, nth, set_nth, insert_nth, items_length, child, with_child,
}

-- The value at a path, if it leads somewhere.
abbrev pub lookup : List PathToken → Value → Option Value
lookup [] v = some v
lookup (t ∷ ts) v = elim (child t v) [ inl e ↦ none | inr c ↦ lookup ts c ]

pub nth-set_nth :
    (xs : Items) (n : ℕ) (v : Value) → n < items_length xs → nth (set_nth xs n v) n ≡ some v
nth-set_nth nil n v h = absurd (omega arith)
nth-set_nth (cons x xs) zero v h = refl
nth-set_nth (cons x xs) (suc n) v h = nth-set_nth xs n v (omega arith)

pub nth-insert_nth :
    (xs : Items) (n : ℕ) (v : Value) → n ≤ items_length xs → nth (insert_nth xs n v) n ≡ some v
nth-insert_nth xs zero v h = refl
nth-insert_nth nil (suc n) v h = absurd (omega arith)
nth-insert_nth (cons x xs) (suc n) v h = nth-insert_nth xs n v (omega arith)

nth-length : (xs : Items) (n : ℕ) (c : Value) → nth xs n ≡ some c → n < items_length xs
nth-length nil n c h = cc
nth-length (cons x xs) zero c h = omega arith
nth-length (cons x xs) (suc n) c h = omega (arith, nth-length xs n c h)

pub put_here : (k : String) (v : Value) (d : Fields) → get_field k (put_field k v d) ≡ some v
put_here k v d = ground (arith, get_field-put_field k k v d, text_test_refl k)

-- A token leads to what was put there.
pub child-with_child :
    (t : PathToken) (p c c' : Value) → child t p ≡ inr c → child t (with_child t p c') ≡ inr c'
child-with_child (index n) (list xs) c c' h = elim (Option-cases (nth xs n)) [
  | inl e ↦ absurd (cc (rw (child, e) at h))
  | inr (w, e) ↦ rw (child, nth-set_nth xs n c' (nth-length xs n w e)) refl
]
child-with_child (key k) (dict d) c c' h = rw (child, put_here k c' d) refl
child-with_child (index n) null c c' h = cc
child-with_child (index n) (bool b) c c' h = cc
child-with_child (index n) (int i) c c' h = cc
child-with_child (index n) (float x) c c' h = cc
child-with_child (index n) (str s) c c' h = cc
child-with_child (index n) (dict d) c c' h = cc
child-with_child (key k) null c c' h = cc
child-with_child (key k) (bool b) c c' h = cc
child-with_child (key k) (int i) c c' h = cc
child-with_child (key k) (float x) c c' h = cc
child-with_child (key k) (str s) c c' h = cc
child-with_child (key k) (list xs) c c' h = cc

-- The same below a token, for a child that was changed in its place.
pub lookup_below :
    (t : PathToken) (ts : List PathToken) (p c c' p' : Value) (found : Option Value)
    → child t p ≡ inr c
    → with_child t p c' ≡ p'
    → lookup ts c' ≡ found
    → lookup (t ∷ ts) p' ≡ found
lookup_below t ts p c c' p' found is put h =
    rw (← put) (rw (lookup, child-with_child t p c c' is) h)
