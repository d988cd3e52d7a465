-- ===== src/Expr/Eval/Sound.antt =====
-- What the linter promises the evaluator.
use bpg.Common.{ℕ, suc, String, ◌≡◌, refl, sym, ap, Bool, List, [], ◌∷◌, map, length, ◌⊎◌, inl, inr}
use bpg.Value.{Value, bool}
use bpg.Expr.Tokens.{ExprToken, Token, plain}
use bpg.Expr.Paths.{RunState}
use bpg.Expr.Compare.{Numbers}
use bpg.Expr.Lint.{
  ExprLintError, Parsed, parsed, rejected, unfinished, all_used, enough, or_expr, lint,
}
use bpg.Expr.Eval.{
  EvalError, Evaluated, evaluated, failed, unevaluated, then_eval, only_value, eval_or, evaluate,
  eval_when,
}
use bpg.Expr.Eval.Agree.{IsUnlinted, Agrees, agree_or}

length-map-plain : (ts : List ExprToken) → length (map plain ts) ≡ length ts
length-map-plain [] = refl
length-map-plain (t ∷ ts) = ap suc (length-map-plain ts)

module _ (expr_len : ℕ) (python : Numbers) (state : RunState) (trigger_name : String) where
  used :
      (r : Parsed) (s : Evaluated)
      → Agrees r s
      → Agrees (all_used r) (only_value python state trigger_name s)
  used (parsed []) (evaluated v []) h = refl
  used (parsed []) (evaluated v (t ∷ ts)) h = cc
  used (parsed (t ∷ ts)) (evaluated v []) h = cc
  used (parsed (t ∷ ts)) (evaluated v (t' ∷ ts')) h = tt
  used (parsed []) (failed e) h = h
  used (parsed (t ∷ ts)) (failed e) h = tt
  used (parsed rest) unevaluated h = absurd h
  used (rejected e) (evaluated v rest) h = absurd h
  used (rejected e) (failed e') h = tt
  used (rejected e) unevaluated h = tt
  used unfinished (evaluated v rest) h = absurd h
  used unfinished (failed e) h = tt
  used unfinished unevaluated h = tt

  lint-Agrees :
      (ts : List ExprToken)
      → Agrees (lint expr_len ts) (evaluate python state trigger_name (map plain ts))
  unfolding lint evaluate or_expr eval_or
  lint-Agrees [] = tt
  lint-Agrees (t ∷ ts) =
      rw (length-map-plain ts)
        (used _ _ (agree_or expr_len python state trigger_name (enough (length (t ∷ ts))) (t ∷ ts)))

  -- The value is a truth value, or the error one of the data.
  abbrev IsResult : Evaluated → Type 0
  IsResult s =
      ((b : Bool) × (s ≡ evaluated (bool b) [])) ⊎ ((e : EvalError) × IsUnlinted e × (s ≡ failed e))

  accepted :
      (s : Evaluated) (test : Value → Bool)
      → Agrees (parsed []) s
      → IsResult (then_eval s (λ v rest. evaluated (bool (test v)) rest))
  accepted (evaluated v rest) test h = inl (test v, ap (λ l. evaluated (bool (test v)) l) (sym h))
  accepted (failed e) test h = inr (e, h, refl)
  accepted unevaluated test h = absurd h

  refused :
      (e : ExprLintError) (s : Evaluated) (test : Value → Bool) (v : Value) (rest : List Token)
      → Agrees (rejected e) s
      → then_eval s (λ w after. evaluated (bool (test w)) after) ≡ evaluated v rest
      → ⊥
  refused e (evaluated w after) test v rest h is = absurd h
  refused e (failed e') test v rest h is = cc
  refused e unevaluated test v rest h is = cc

  -- An expression that the linter accepts evaluates, in every state of a run, to a truth value, or
  -- fails because a path leads nowhere, two values cannot be compared or a number has more than 4300
  -- digits: never by its syntax, by an unknown function, or by not ending.
  pub eval_when_of_lint :
      (ts : List ExprToken)
      → lint expr_len ts ≡ parsed []
      → ((b : Bool) × (eval_when python state trigger_name (map plain ts) ≡ evaluated (bool b) []))
        ⊎ ((e : EvalError) × IsUnlinted e
            × (eval_when python state trigger_name (map plain ts) ≡ failed e))
  unfolding eval_when
  eval_when_of_lint ts h = let agrees = lint-Agrees ts in accepted _ _ (rw h at agrees)

  -- An expression that the linter rejects has no value in any state of a run.
  pub eval_when_rejected :
      (ts : List ExprToken) (e : ExprLintError) (v : Value) (rest : List Token)
      → lint expr_len ts ≡ rejected e
      → ¬ (eval_when python state trigger_name (map plain ts) ≡ evaluated v rest)
  unfolding eval_when
  eval_when_rejected ts e v rest h =
      let agrees = lint-Agrees ts in refused e _ _ v rest (rw h at agrees)
