-- ===== src/Compiler/Patching/Applied.antt =====
-- The operations of a patch, by what is found in the document afterwards.
use bpg.Common.{◌≡◌, refl, Option, List, [], ◌∷◌, ◌⊎◌, inl, inr}
use bpg.Value.{Value}
use bpg.Compiler.Patching.{
  PathToken, PatchApplyError, Patched, patched, refused, then_patch, child, with_child, at_parent,
}
use bpg.Compiler.Patching.Lookup.{lookup, lookup_below}

-- A successful edit below a parent is one of a child, put in its place.
edit_cases :
    (s : PatchApplyError ⊎ Value) (t : PathToken) (p p' : Value) (go : Value → Patched)
    → (elim s [ inl e ↦ refused e | inr c ↦ then_patch (go c) (λ c'. patched (with_child t p c')) ])
      ≡ patched p'
    → (c : Value) × (c' : Value) × (s ≡ inr c) × (go c ≡ patched c') × (with_child t p c' ≡ p')
edit_cases (inl e) t p p' go h = cc
edit_cases (inr c) t p p' go h = let (c', is, put) = edited (go c) h in (c, c', refl, is, put)
  where
    edited :
        (r : Patched)
        → then_patch r (λ c'. patched (with_child t p c')) ≡ patched p'
        → (c' : Value) × (r ≡ patched c') × (with_child t p c' ≡ p')
    edited (patched c') h' = (c', refl, cc)
    edited (refused e) h' = cc

-- What an edit does at its last token, it does at the end of the path.
module _ (edit : PathToken → Value → Patched) where
  pub lookup-edited :
      (found : PathToken → Option Value)
      → ((t : PathToken) (p p' : Value) → edit t p ≡ patched p' → lookup (t ∷ []) p' ≡ found t)
      → (t : PathToken) (ts : List PathToken) (p p' : Value)
      → at_parent (t ∷ ts) edit p ≡ patched p'
      → (last : PathToken) × (lookup (t ∷ ts) p' ≡ found last)
  unfolding at_parent
  lookup-edited found here t [] p p' h = (t, here t p p' h)
  lookup-edited found here t (u ∷ ts) p p' h =
      let (c, c', is, edited, put) =
        edit_cases (child t p) t p p' (λ c. at_parent (u ∷ ts) edit c) h in
      let (last, there) = lookup-edited found here u ts c c' edited in
      (last, lookup_below t (u ∷ ts) p c c' p' (found last) is put there)
