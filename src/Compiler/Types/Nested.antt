-- ===== src/Compiler/Types/Nested.antt =====
-- The elements of list types.
use Prim.Native.Char.{code}
use bpg.Common.{
  ℕ, ◌≤◌, ◌<◌, String, ◌≡◌, ◌&&◌, some, ◌==◌, nat_eq, arith, Option-cases, Bool-cases, inl, inr,
}
use bpg.Common.Text.{strip, strip_left, strip_right, after_prefix, is_space}
use bpg.Compiler.Types.{size, before_last, list_body, core_of}

size-strip_left : (s : String) → size (strip_left s) ≤ size s
unfolding strip_left size
size-strip_left String.[] = omega arith
size-strip_left (String.◌∷◌ c s) = elim (Bool-cases (is_space (code c))) [
  | inl e ↦ rw e (omega (arith, size-strip_left s))
  | inr e ↦ rw e (omega arith)
]

size-strip_right : (s : String) → size (strip_right s) ≤ size s
unfolding strip_right size
size-strip_right String.[] = omega arith
size-strip_right (String.◌∷◌ c s) = elim (Bool-cases (is_space (code c) && strip_right s == "")) [
  | inl e ↦ rw e (omega arith)
  | inr e ↦ rw e (omega (arith, size-strip_right s))
]

pub size-strip : (s : String) → size (strip s) ≤ size s
unfolding strip
size-strip s = omega (arith, size-strip_left s, size-strip_right (strip_left s))

size-before_last : (c : ℕ) (s t : String) → before_last c s ≡ some t → size t < size s
unfolding before_last size
size-before_last c String.[] t h = absurd (cc)
size-before_last c (String.◌∷◌ d s) t h = elim (Bool-cases (s == "")) [
  | inl e ↦ elim (Bool-cases (nat_eq (code d) c)) [
    | inl e' ↦ let is : "" ≡ t = cc (rw (before_last, e, e') at h) in rw (← is) (omega arith)
    | inr e' ↦ absurd (cc (rw (before_last, e, e') at h))
  ]
  | inr e ↦ elim (Option-cases (before_last c s)) [
    | inl n ↦ absurd (cc (rw (before_last, e, n) at h))
    | inr (u, n) ↦
        let is : String.◌∷◌ d u ≡ t = cc (rw (before_last, e, n) at h) in
        rw (← is) (omega (arith, size-before_last c s u n))
  ]
]

size-after_prefix : (p s t : String) → after_prefix p s ≡ some t → size t ≤ size s
unfolding after_prefix size
size-after_prefix String.[] s t h = let is : s ≡ t = cc in rw is (omega arith)
size-after_prefix (String.◌∷◌ c p) String.[] t h = absurd (cc)
size-after_prefix (String.◌∷◌ c p) (String.◌∷◌ d s) t h =
    elim (Bool-cases (nat_eq (code c) (code d))) [
      | inl e ↦ omega (arith, size-after_prefix p s t (rw e at h))
      | inr e ↦ absurd (cc (rw e at h))
    ]

-- An element is shorter than its list.
pub size-list_body : (core body : String) → list_body core ≡ some body → size body < size core
unfolding list_body
size-list_body core body h = elim (Option-cases (after_prefix "list<" core)) [
  | inl e ↦ absurd (cc (rw (list_body, e) at h))
  | inr (rest, e) ↦
      let inside : before_last b'>' rest ≡ some body = rw (list_body, e) at h in
      omega (arith, size-after_prefix "list<" core rest e, size-before_last b'>' rest body inside)
]

pub size-core_of : (s : String) → size (core_of s).0 ≤ size s
unfolding core_of
size-core_of s = elim (Option-cases (before_last b'?' (strip s))) [
  | inl e ↦ rw (core_of, e) (size-strip s)
  | inr (core, e) ↦
      rw (core_of, e)
        (omega (arith, size-strip s, size-strip core, size-before_last b'?' (strip s) core e))
]
