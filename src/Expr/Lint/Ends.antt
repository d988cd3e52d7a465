-- ===== src/Expr/Lint/Ends.antt =====
-- The linter ends: its rules consume tokens, so that the fuel is enough.
use bpg.Common.{
  ℕ, zero, suc, ◌+◌, ◌*◌, ◌≤◌, ◌<◌, ◌≡◌, refl, Bool, true, false, ◌&&◌, List, [], ◌∷◌, ◌==◌,
  if◌then◌else◌, length, arith, ◌⊎◌, inl, inr,
}
use bpg.Expr.Tokens.{
  Kind, string_lit, float_lit, int_lit, op, not_sign, lparen, rparen, comma, word, ExprToken, is_op,
  is_not, is_lparen, is_rparen, one_of, comparisons,
}
use bpg.Expr.Lint.{
  ExprLintError, Parsed, parsed, rejected, unfinished, then_parse, at_token, expect_rparen, or_expr,
  or_loop, and_expr, and_loop, not_expr, cmp_expr, cmp_tail, primary, primary_kind, word_tail,
  all_used, lint,
}

-- An outcome other than lack of fuel, with fewer tokens left than `limit`.
abbrev Ends : ℕ → Parsed → Type 0
Ends limit (parsed rest) = length rest < limit
Ends limit (rejected e) = Unit
Ends limit unfinished = ⊥

Ends-weaken : (m n : ℕ) (r : Parsed) → m ≤ n → Ends m r → Ends n r
Ends-weaken m n (parsed rest) h k = omega arith
Ends-weaken m n (rejected e) h k = tt
Ends-weaken m n unfinished h k = k

Ends-then :
    (m n : ℕ) (r : Parsed) (k : List ExprToken → Parsed)
    → Ends m r
    → ((rest : List ExprToken) → length rest < m → Ends n (k rest))
    → Ends n (then_parse r k)
Ends-then m n (parsed rest) k h go = go rest h
Ends-then m n (rejected e) k h go = tt
Ends-then m n unfinished k h go = h

Ends-if : (m : ℕ) (b : Bool) (r s : Parsed) → Ends m r → Ends m s → Ends m (if b then r else s)
Ends-if m true r s h k = h
Ends-if m false r s h k = k

module _ (expr_len : ℕ) where
  Ends-rparen :
      (m : ℕ) (ts : List ExprToken) → length ts < suc m → Ends m (expect_rparen expr_len ts)
  Ends-rparen m [] h = tt
  Ends-rparen m (t ∷ ts) h = Ends-if m (is_rparen t.kind) _ _ (omega arith) tt

  mutual
    unfolding or_expr

    Ends-or :
        (n : ℕ) (ts : List ExprToken)
        → 8 * length ts + 6 ≤ n
        → Ends (length ts) (or_expr expr_len n ts)
    Ends-or zero ts h = absurd (omega arith)
    Ends-or (suc n) ts h =
        Ends-then (length ts) (length ts) _ _ (Ends-and n ts (omega arith))
          (λ rest lt. Ends-weaken _ _ _ (omega arith) (Ends-or_loop n rest (omega arith)))

    Ends-or_loop :
        (n : ℕ) (ts : List ExprToken)
        → 8 * length ts + 6 ≤ n
        → Ends (suc (length ts)) (or_loop expr_len n ts)
    Ends-or_loop zero ts h = absurd (omega arith)
    Ends-or_loop (suc n) [] h = omega arith
    Ends-or_loop (suc n) (t ∷ ts) h =
        Ends-if _ (is_op t.kind && t.value == "||") _ _
          (Ends-then (length ts) _ _ _ (Ends-and n ts (omega arith))
            (λ rest lt. Ends-weaken _ _ _ (omega arith) (Ends-or_loop n rest (omega arith))))
          (omega arith)

    Ends-and :
        (n : ℕ) (ts : List ExprToken)
        → 8 * length ts + 5 ≤ n
        → Ends (length ts) (and_expr expr_len n ts)
    Ends-and zero ts h = absurd (omega arith)
    Ends-and (suc n) ts h =
        Ends-then (length ts) (length ts) _ _ (Ends-not n ts (omega arith))
          (λ rest lt. Ends-weaken _ _ _ (omega arith) (Ends-and_loop n rest (omega arith)))

    Ends-and_loop :
        (n : ℕ) (ts : List ExprToken)
        → 8 * length ts + 6 ≤ n
        → Ends (suc (length ts)) (and_loop expr_len n ts)
    Ends-and_loop zero ts h = absurd (omega arith)
    Ends-and_loop (suc n) [] h = omega arith
    Ends-and_loop (suc n) (t ∷ ts) h =
        Ends-if _ (is_op t.kind && t.value == "&&") _ _
          (Ends-then (length ts) _ _ _ (Ends-not n ts (omega arith))
            (λ rest lt. Ends-weaken _ _ _ (omega arith) (Ends-and_loop n rest (omega arith))))
          (omega arith)

    Ends-not :
        (n : ℕ) (ts : List ExprToken)
        → 8 * length ts + 4 ≤ n
        → Ends (length ts) (not_expr expr_len n ts)
    Ends-not zero ts h = absurd (omega arith)
    Ends-not (suc n) [] h = Ends-cmp n [] (omega arith)
    Ends-not (suc n) (t ∷ ts) h =
        Ends-if _ (is_not t.kind) _ _
          (Ends-weaken (length ts) _ _ (omega arith) (Ends-not n ts (omega arith)))
          (Ends-cmp n (t ∷ ts) (omega arith))

    Ends-cmp :
        (n : ℕ) (ts : List ExprToken)
        → 8 * length ts + 3 ≤ n
        → Ends (length ts) (cmp_expr expr_len n ts)
    Ends-cmp zero ts h = absurd (omega arith)
    Ends-cmp (suc n) ts h =
        Ends-then (length ts) (length ts) _ _ (Ends-primary n ts (omega arith))
          (λ rest lt. Ends-weaken _ _ _ (omega arith) (Ends-cmp_tail n rest (omega arith)))

    Ends-cmp_tail :
        (n : ℕ) (ts : List ExprToken)
        → 8 * length ts + 6 ≤ n
        → Ends (suc (length ts)) (cmp_tail expr_len n ts)
    Ends-cmp_tail zero ts h = absurd (omega arith)
    Ends-cmp_tail (suc n) [] h = omega arith
    Ends-cmp_tail (suc n) (t ∷ ts) h =
        Ends-if _ (is_op t.kind && one_of comparisons t.value) _ _
          (Ends-weaken (length ts) _ _ (omega arith) (Ends-primary n ts (omega arith)))
          (omega arith)

    Ends-primary :
        (n : ℕ) (ts : List ExprToken)
        → 8 * length ts + 2 ≤ n
        → Ends (length ts) (primary expr_len n ts)
    Ends-primary zero ts h = absurd (omega arith)
    Ends-primary (suc n) [] h = tt
    Ends-primary (suc n) (t ∷ ts) h = Ends-kind n t.kind t ts (omega arith)

    Ends-kind :
        (n : ℕ) (k : Kind) (t : ExprToken) (ts : List ExprToken)
        → 8 * length ts + 7 ≤ n
        → Ends (suc (length ts)) (primary_kind expr_len n k t ts)
    Ends-kind zero k t ts h = absurd (omega arith)
    Ends-kind (suc n) lparen t ts h =
        Ends-then (length ts) _ _ _ (Ends-or n ts (omega arith))
          (λ rest lt. Ends-rparen _ rest (omega arith))
    Ends-kind (suc n) string_lit t ts h = omega arith
    Ends-kind (suc n) float_lit t ts h = omega arith
    Ends-kind (suc n) int_lit t ts h = omega arith
    Ends-kind (suc n) word t ts h = Ends-word n t ts (omega arith)
    Ends-kind (suc n) op t ts h = tt
    Ends-kind (suc n) not_sign t ts h = tt
    Ends-kind (suc n) rparen t ts h = tt
    Ends-kind (suc n) comma t ts h = tt

    Ends-word :
        (n : ℕ) (t : ExprToken) (ts : List ExprToken)
        → 8 * length ts + 1 ≤ n
        → Ends (suc (length ts)) (word_tail expr_len n t ts)
    Ends-word zero t ts h = absurd (omega arith)
    Ends-word (suc n) t [] h = omega arith
    Ends-word (suc n) t (u ∷ us) h =
        Ends-if _ (one_of ("true" ∷ "false" ∷ "null" ∷ []) t.value) _ _ (omega arith) (
          Ends-if _ (is_lparen u.kind) _ _
            (Ends-if _ (one_of ("is_null" ∷ "is_present" ∷ []) t.value) _ _
              (Ends-then (length us) _ _ _ (Ends-primary n us (omega arith))
                (λ rest lt. Ends-rparen _ rest (omega arith)))
              tt)
            (omega arith))

  all_used-Ends :
      (m : ℕ) (r : Parsed)
      → Ends m r
      → (all_used r ≡ parsed []) ⊎ ((e : ExprLintError) × (all_used r ≡ rejected e))
  all_used-Ends m (parsed []) h = inl refl
  all_used-Ends m (parsed (t ∷ ts)) h = inr (at_token "E_EXPR_UNEXPECTED_TOKEN" t, refl)
  all_used-Ends m (rejected e) h = inr (e, refl)
  all_used-Ends m unfinished h = absurd h

  -- For every list of tokens the linter ends: it accepts, with no token left, or gives an error.
  pub lint-total :
      (ts : List ExprToken)
      → (lint expr_len ts ≡ parsed []) ⊎ ((e : ExprLintError) × (lint expr_len ts ≡ rejected e))
  unfolding lint
  lint-total [] = inr (_, refl)
  lint-total (t ∷ ts) = all_used-Ends _ _ (Ends-or _ (t ∷ ts) (omega arith))
