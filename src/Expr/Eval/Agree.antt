-- ===== src/Expr/Eval/Agree.antt =====
-- The evaluator consumes what the linter consumes.
use bpg.Common.{
  ℕ, zero, suc, String, ◌≡◌, refl, Bool, true, false, not, ◌&&◌, Option, none, some, List, [], ◌∷◌,
  leb, map, ◌==◌, if◌then◌else◌, Bool-cases, inl, inr,
}
use bpg.Value.{Value, bool}
use bpg.Expr.Tokens.{
  Kind, string_lit, float_lit, int_lit, op, not_sign, lparen, rparen, comma, word, ExprToken, Token,
  plain, is_op, is_not, is_lparen, is_rparen, one_of, comparisons,
}
use bpg.Expr.Paths.{RunState, resolve_path}
use bpg.Expr.Compare.{Numbers, apply_cmp}
use bpg.Expr.Lint.{
  ExprLintError, Parsed, parsed, rejected, unfinished, then_parse, at_token, expect_rparen, or_expr,
  or_loop, and_expr, and_loop, not_expr, cmp_expr, cmp_tail, primary, primary_kind, word_tail,
}
use bpg.Expr.Eval.{
  EvalError, syntax_error, unknown_function, unresolved_path, cannot_compare, int_too_long,
  Evaluated, evaluated, int_or_fail, count_digits, max_str_digits, failed, unevaluated, then_eval,
  eval_rparen, found_or_fail, compared_or_fail, call_function, is_null, eval_or, eval_or_loop,
  eval_and, eval_and_loop, eval_not, eval_cmp, eval_cmp_tail, eval_primary, eval_kind, eval_word,
  constant_or,
}

-- An error that the linter does not exclude: by the data of the run, or by the length of a number.
abbrev pub IsUnlinted : EvalError → Type 0
IsUnlinted syntax_error = ⊥
IsUnlinted unknown_function = ⊥
IsUnlinted unresolved_path = Unit
IsUnlinted cannot_compare = Unit
IsUnlinted int_too_long = Unit

-- What the evaluator gives where the linter accepts: the same rest, or an error of the data. Where it
-- does not, no value.
abbrev pub Agrees : Parsed → Evaluated → Type 0
Agrees (parsed rest) (evaluated v rest') = map plain rest ≡ rest'
Agrees (parsed rest) (failed e) = IsUnlinted e
Agrees (parsed rest) unevaluated = ⊥
Agrees (rejected e) (evaluated v rest) = ⊥
Agrees (rejected e) (failed e') = Unit
Agrees (rejected e) unevaluated = Unit
Agrees unfinished (evaluated v rest) = ⊥
Agrees unfinished (failed e) = Unit
Agrees unfinished unevaluated = Unit

Agrees-data : (r : Parsed) (e : EvalError) → IsUnlinted e → Agrees r (failed e)
Agrees-data (parsed rest) e h = h
Agrees-data (rejected e') e h = tt
Agrees-data unfinished e h = tt

Agrees-then :
    (r : Parsed) (s : Evaluated) (k : List ExprToken → Parsed) (k' : Value → List Token → Evaluated)
    → Agrees r s
    → ((rest : List ExprToken) (v : Value) → Agrees (k rest) (k' v (map plain rest)))
    → Agrees (then_parse r k) (then_eval s k')
Agrees-then (parsed rest) (evaluated v rest') k k' h go = rw (← h) (go rest v)
Agrees-then (parsed rest) (failed e) k k' h go = Agrees-data (k rest) e h
Agrees-then (parsed rest) unevaluated k k' h go = absurd h
Agrees-then (rejected e) (evaluated v rest) k k' h go = absurd h
Agrees-then (rejected e) (failed e') k k' h go = tt
Agrees-then (rejected e) unevaluated k k' h go = tt
Agrees-then unfinished (evaluated v rest) k k' h go = absurd h
Agrees-then unfinished (failed e) k k' h go = tt
Agrees-then unfinished unevaluated k k' h go = tt

Agrees-if :
    (b : Bool) (r r' : Parsed) (s s' : Evaluated)
    → Agrees r s
    → Agrees r' s'
    → Agrees (if b then r else r') (if b then s else s')
Agrees-if true r r' s s' h h' = h
Agrees-if false r r' s s' h h' = h'

Agrees-found :
    (found : Option Value) (rest : List ExprToken)
    → Agrees (parsed rest) (found_or_fail found (map plain rest))
Agrees-found none rest = tt
Agrees-found (some v) rest = refl

Agrees-compared :
    (b : Option Bool) (rest : List ExprToken)
    → Agrees (parsed rest) (compared_or_fail b (map plain rest))
Agrees-compared none rest = tt
Agrees-compared (some b) rest = refl

Agrees-int :
    (digit_value : ℕ → ℕ) (text : String) (rest : List ExprToken)
    → Agrees (parsed rest) (int_or_fail digit_value text (map plain rest))
unfolding int_or_fail
Agrees-int digit_value text rest = elim (Bool-cases (leb (count_digits text) max_str_digits)) [
  | inl short ↦ rw short refl
  | inr long ↦ rw long tt
]

Agrees-last :
    (r : Parsed) (s : Evaluated) (k' : Value → List Token → Evaluated)
    → Agrees r s
    → ((rest : List ExprToken) (v : Value) → Agrees (parsed rest) (k' v (map plain rest)))
    → Agrees r (then_eval s k')
Agrees-last (parsed rest) (evaluated v rest') k' h go = rw (← h) (go rest v)
Agrees-last (parsed rest) (failed e) k' h go = h
Agrees-last (parsed rest) unevaluated k' h go = absurd h
Agrees-last (rejected e) (evaluated v rest) k' h go = absurd h
Agrees-last (rejected e) (failed e') k' h go = tt
Agrees-last (rejected e) unevaluated k' h go = tt
Agrees-last unfinished (evaluated v rest) k' h go = absurd h
Agrees-last unfinished (failed e) k' h go = tt
Agrees-last unfinished unevaluated k' h go = tt

Agrees-constant :
    (name : String) (ts : List ExprToken) (r : Parsed) (s : Evaluated)
    → Agrees r s
    → Agrees
        (if one_of ("true" ∷ "false" ∷ "null" ∷ []) name then parsed ts else r)
        (constant_or name (map plain ts) s)
Agrees-constant name ts r s h = elim (Bool-cases (name == "true")) [
  | inl e ↦ rw e refl
  | inr e ↦ elim (Bool-cases (name == "false")) [
    | inl e' ↦ rw (e, e') refl
    | inr e' ↦ elim (Bool-cases (name == "null")) [
      | inl e'' ↦ rw (e, e', e'') refl
      | inr e'' ↦ rw (e, e', e'') h
    ]
  ]
]

Agrees-constant_last :
    (name : String) (ts : List ExprToken) (s : Evaluated)
    → Agrees (parsed ts) s
    → Agrees (parsed ts) (constant_or name (map plain ts) s)
Agrees-constant_last name ts s h =
    let either = Agrees-constant name ts (parsed ts) s h in
    elim (Bool-cases (one_of ("true" ∷ "false" ∷ "null" ∷ []) name)) [
      | inl e ↦ rw e at either
      | inr e ↦ rw e at either
    ]

module _ (expr_len : ℕ) where
  Agrees-rparen :
      (rest : List ExprToken) (v : Value)
      → Agrees (expect_rparen expr_len rest) (eval_rparen v (map plain rest))
  Agrees-rparen [] v = tt
  Agrees-rparen (t ∷ ts) v = Agrees-if (is_rparen t.kind) _ _ _ _ refl tt

  -- A known function gives a truth value for every argument, an unknown one fails.
  known_call :
      (r : Parsed) (s : Evaluated) (f : Value → Bool)
      → Agrees r s
      → Agrees (then_parse r (λ rest. expect_rparen expr_len rest)) (
          then_eval s (λ arg rest.
            then_eval (eval_rparen arg rest) (λ v after. evaluated (bool (f v)) after)))
  known_call r s f h =
      Agrees-then _ _ _ _ h (λ rest v. Agrees-last _ _ _ (Agrees-rparen rest v) (λ after w. refl))

  unknown_rest :
      (e : ExprLintError) (s : Evaluated)
      → Agrees (rejected e) (then_eval s (λ v after. failed unknown_function))
  unknown_rest e (evaluated v rest) = tt
  unknown_rest e (failed e') = tt
  unknown_rest e unevaluated = tt

  unknown_call :
      (e : ExprLintError) (s : Evaluated)
      → Agrees (rejected e) (
          then_eval s
            (λ arg rest. then_eval (eval_rparen arg rest) (λ v after. failed unknown_function)))
  unknown_call e (evaluated v rest) = unknown_rest e (eval_rparen v rest)
  unknown_call e (failed e') = tt
  unknown_call e unevaluated = tt

  agree_call :
      (t : ExprToken) (r : Parsed) (s : Evaluated)
      → Agrees r s
      → Agrees
          (if one_of ("is_null" ∷ "is_present" ∷ []) t.value
            then then_parse r (λ rest. expect_rparen expr_len rest)
            else rejected (at_token "E_EXPR_UNKNOWN_FUNCTION" t))
          (then_eval s (λ arg rest.
            then_eval (eval_rparen arg rest) (λ v after. call_function t.value v after)))
  agree_call t r s h = elim (Bool-cases (t.value == "is_null")) [
    | inl e ↦ rw e (known_call r s is_null h)
    | inr e ↦ elim (Bool-cases (t.value == "is_present")) [
      | inl e' ↦ rw (e, e') (known_call r s (λ v. not (is_null v)) h)
      | inr e' ↦ rw (e, e') (unknown_call (at_token "E_EXPR_UNKNOWN_FUNCTION" t) s)
    ]
  ]

  module _ (python : Numbers) (state : RunState) (trigger_name : String) where
    mutual
      unfolding or_expr eval_or

      pub agree_or :
          (n : ℕ) (ts : List ExprToken)
          → Agrees (or_expr expr_len n ts) (eval_or python state trigger_name n (map plain ts))
      agree_or zero ts = tt
      agree_or (suc n) ts = Agrees-then _ _ _ _ (agree_and n ts) (λ rest v. agree_or_loop n v rest)

      agree_or_loop :
          (n : ℕ) (left : Value) (ts : List ExprToken)
          → Agrees
              (or_loop expr_len n ts)
              (eval_or_loop python state trigger_name n left (map plain ts))
      agree_or_loop zero left ts = tt
      agree_or_loop (suc n) left [] = refl
      agree_or_loop (suc n) left (t ∷ ts) =
          let more = Agrees-then _ _ _ _ (agree_and n ts) (λ rest v. agree_or_loop n _ rest) in
          Agrees-if (is_op t.kind && t.value == "||") _ _ _ _ more refl

      agree_and :
          (n : ℕ) (ts : List ExprToken)
          → Agrees (and_expr expr_len n ts) (eval_and python state trigger_name n (map plain ts))
      agree_and zero ts = tt
      agree_and (suc n) ts =
          Agrees-then _ _ _ _ (agree_not n ts) (λ rest v. agree_and_loop n v rest)

      agree_and_loop :
          (n : ℕ) (left : Value) (ts : List ExprToken)
          → Agrees
              (and_loop expr_len n ts)
              (eval_and_loop python state trigger_name n left (map plain ts))
      agree_and_loop zero left ts = tt
      agree_and_loop (suc n) left [] = refl
      agree_and_loop (suc n) left (t ∷ ts) =
          Agrees-if (is_op t.kind && t.value == "&&") _ _ _ _
            (Agrees-then _ _ _ _ (agree_not n ts) (λ rest v. agree_and_loop n _ rest)) refl

      agree_not :
          (n : ℕ) (ts : List ExprToken)
          → Agrees (not_expr expr_len n ts) (eval_not python state trigger_name n (map plain ts))
      agree_not zero ts = tt
      agree_not (suc n) [] = agree_cmp n []
      agree_not (suc n) (t ∷ ts) =
          Agrees-if (is_not t.kind) _ _ _ _ (Agrees-last _ _ _ (agree_not n ts) (λ rest v. refl))
            (agree_cmp n (t ∷ ts))

      agree_cmp :
          (n : ℕ) (ts : List ExprToken)
          → Agrees (cmp_expr expr_len n ts) (eval_cmp python state trigger_name n (map plain ts))
      agree_cmp zero ts = tt
      agree_cmp (suc n) ts =
          Agrees-then _ _ _ _ (agree_primary n ts) (λ rest v. agree_cmp_tail n v rest)

      agree_cmp_tail :
          (n : ℕ) (left : Value) (ts : List ExprToken)
          → Agrees
              (cmp_tail expr_len n ts)
              (eval_cmp_tail python state trigger_name n left (map plain ts))
      agree_cmp_tail zero left ts = tt
      agree_cmp_tail (suc n) left [] = refl
      agree_cmp_tail (suc n) left (t ∷ ts) =
          Agrees-if (is_op t.kind && one_of comparisons t.value) _ _ _ _
            (Agrees-last _ _ _ (agree_primary n ts)
              (λ rest v. Agrees-compared (apply_cmp python t.value left v) rest))
            refl

      agree_primary :
          (n : ℕ) (ts : List ExprToken)
          → Agrees (primary expr_len n ts) (eval_primary python state trigger_name n (map plain ts))
      agree_primary zero ts = tt
      agree_primary (suc n) [] = tt
      agree_primary (suc n) (t ∷ ts) = agree_kind n t.kind t ts

      agree_kind :
          (n : ℕ) (k : Kind) (t : ExprToken) (ts : List ExprToken)
          → Agrees
              (primary_kind expr_len n k t ts)
              (eval_kind python state trigger_name n k t.value (map plain ts))
      agree_kind zero k t ts = tt
      agree_kind (suc n) lparen t ts =
          Agrees-then _ _ _ _ (agree_or n ts) (λ rest v. Agrees-rparen rest v)
      agree_kind (suc n) string_lit t ts = refl
      agree_kind (suc n) float_lit t ts = refl
      agree_kind (suc n) int_lit t ts = Agrees-int python.digit_value t.value ts
      agree_kind (suc n) word t ts = agree_word n t ts
      agree_kind (suc n) op t ts = tt
      agree_kind (suc n) not_sign t ts = tt
      agree_kind (suc n) rparen t ts = tt
      agree_kind (suc n) comma t ts = tt

      agree_word :
          (n : ℕ) (t : ExprToken) (ts : List ExprToken)
          → Agrees
              (word_tail expr_len n t ts)
              (eval_word python state trigger_name n t.value (map plain ts))
      agree_word zero t ts = tt
      agree_word (suc n) t [] =
          Agrees-constant_last t.value [] _
            (Agrees-found (resolve_path state trigger_name t.value) [])
      agree_word (suc n) t (u ∷ us) = Agrees-constant t.value (u ∷ us) _ _ (
          Agrees-if (is_lparen u.kind) _ _ _ _ (agree_call t _ _ (agree_primary n us))
            (Agrees-found (resolve_path state trigger_name t.value) (u ∷ us)))
