-- ===== src/Expr/Source/Sound.antt =====
-- What the linter promises the evaluator, for expressions as texts.
use Prim.Native.Char.{code}
use bpg.Common.{
  ℕ, zero, suc, ◌+◌, String, ◌≡◌, refl, ap, Bool, Option, none, some, List, [], ◌∷◌, map, ◌⊎◌, inr,
}
use bpg.Value.{Value, bool}
use bpg.Expr.Tokens.{Kind, Token, plain}
use bpg.Expr.Scan.{CharClass, Match, scan, take_text}
use bpg.Expr.Lint.{ExprLintError, parsed, rejected}
use bpg.Expr.Lint.Ends.{lint-total}
use bpg.Expr.Paths.{RunState}
use bpg.Expr.Compare.{Numbers}
use bpg.Expr.Eval.{EvalError, Evaluated, evaluated, failed}
use bpg.Expr.Eval.Agree.{IsUnlinted}
use bpg.Expr.Eval.Sound.{eval_when_of_lint, eval_when_rejected}
use bpg.Expr.Source.{
  LintTokens, tokens, unexpected_char, with_token, with_plain, text_length, lint_tokens,
  eval_tokens, lint_all, lint_when_expression, eval_all, eval_expression,
}

-- The same tokens, or an error for both.
abbrev SameTokens : LintTokens → Option (List Token) → Type 0
SameTokens (tokens ts) none = ⊥
SameTokens (tokens ts) (some ts') = map plain ts ≡ ts'
SameTokens (unexpected_char pos) none = Unit
SameTokens (unexpected_char pos) (some ts') = ⊥

SameTokens-with_token :
    (k : Option Kind) (value : String) (start stop : ℕ) (r : LintTokens) (s : Option (List Token))
    → SameTokens r s
    → SameTokens (with_token k value start stop r) (with_plain k value s)
SameTokens-with_token none value start stop r s h = h
SameTokens-with_token (some k) value start stop (tokens ts) none h = absurd h
SameTokens-with_token (some k) value start stop (tokens ts) (some ts') h =
    ap (λ l. record { kind = k; value = value } ∷ l) h
SameTokens-with_token (some k) value start stop (unexpected_char pos) none h = tt
SameTokens-with_token (some k) value start stop (unexpected_char pos) (some ts') h = absurd h

SameTokens-match :
    (found : Option Match) (pos : ℕ) (value : Match → String) (rest : ℕ → LintTokens)
    (rest' : ℕ → Option (List Token))
    → ((n : ℕ) → SameTokens (rest n) (rest' n))
    → SameTokens
        (elim found [
          | none ↦ unexpected_char pos
          | some m ↦ with_token m.kind (value m) pos (pos + 1 + m.more) (rest m.more)
        ])
        (elim found [ none ↦ none | some m ↦ with_plain m.kind (value m) (rest' m.more) ])
SameTokens-match none pos value rest rest' h = tt
SameTokens-match (some m) pos value rest rest' h =
    SameTokens-with_token m.kind (value m) pos (pos + 1 + m.more) (rest m.more) (rest' m.more)
      (h m.more)

module _ (chars : CharClass) where
  same_tokens :
      (skip pos : ℕ) (s : String)
      → SameTokens (lint_tokens chars skip pos s) (eval_tokens chars skip s)
  unfolding lint_tokens eval_tokens
  same_tokens skip pos String.[] = refl
  same_tokens (suc skip) pos (String.◌∷◌ c s) = same_tokens skip (pos + 1) s
  same_tokens zero pos (String.◌∷◌ c s) =
      SameTokens-match (scan chars (code c) s) pos (λ m. String.◌∷◌ c (take_text m.more s))
        (λ n. lint_tokens chars n (pos + 1) s) (λ n. eval_tokens chars n s)
        (λ n. same_tokens n (pos + 1) s)

  -- For every text the linter ends: it accepts, or gives an error.
  pub lint_when_expression-total :
      (expr : String)
      → (lint_when_expression chars expr ≡ parsed [])
        ⊎ ((e : ExprLintError) × (lint_when_expression chars expr ≡ rejected e))
  unfolding lint_when_expression
  lint_when_expression-total expr = total (lint_tokens chars 0 0 expr)
    where
      total :
          (r : LintTokens)
          → (lint_all chars (text_length expr) r ≡ parsed [])
            ⊎ ((e : ExprLintError) × (lint_all chars (text_length expr) r ≡ rejected e))
      total (tokens ts) = lint-total (text_length expr) ts
      total (unexpected_char pos) = inr (_, refl)

  module _ (python : Numbers) (state : RunState) (trigger_name : String) where
    abbrev eval : Option (List Token) → Evaluated
    eval s = eval_all chars python state trigger_name s

    accepted :
        (n : ℕ) (r : LintTokens) (s : Option (List Token))
        → SameTokens r s
        → lint_all chars n r ≡ parsed []
        → ((b : Bool) × (eval s ≡ evaluated (bool b) []))
          ⊎ ((e : EvalError) × IsUnlinted e × (eval s ≡ failed e))
    accepted n (tokens ts) none same h = absurd same
    accepted n (tokens ts) (some ts') same h =
        rw (← same) (eval_when_of_lint n python state trigger_name ts h)
    accepted n (unexpected_char pos) s same h = cc

    refused :
        (n : ℕ) (r : LintTokens) (s : Option (List Token)) (e : ExprLintError) (v : Value)
        (rest : List Token)
        → SameTokens r s
        → lint_all chars n r ≡ rejected e
        → ¬ (eval s ≡ evaluated v rest)
    refused n (tokens ts) none e v rest same h is = absurd same
    refused n (tokens ts) (some ts') e v rest same h is =
        eval_when_rejected n python state trigger_name ts e v rest h (rw (← same) at is)
    refused n (unexpected_char pos) none e v rest same h is = absurd (cc)
    refused n (unexpected_char pos) (some ts') e v rest same h is = absurd same

    -- An expression that the linter accepts evaluates, in every state of a run, to a truth value, or
    -- fails because a path leads nowhere, two values cannot be compared or a number has more than 4300
    -- digits: never by its characters or its syntax, by an unknown function, or by not ending.
    pub eval_expression_of_lint :
        (expr : String)
        → lint_when_expression chars expr ≡ parsed []
        → ((b : Bool) × (eval_expression chars python state trigger_name expr
              ≡ evaluated (bool b) []))
          ⊎ ((e : EvalError) × IsUnlinted e
              × (eval_expression chars python state trigger_name expr ≡ failed e))
    unfolding lint_when_expression eval_expression
    eval_expression_of_lint expr h = accepted _ _ _ (same_tokens 0 0 expr) h

    -- An expression that the linter rejects has no value in any state of a run.
    pub eval_expression_rejected :
        (expr : String) (e : ExprLintError) (v : Value) (rest : List Token)
        → lint_when_expression chars expr ≡ rejected e
        → ¬ (eval_expression chars python state trigger_name expr ≡ evaluated v rest)
    unfolding lint_when_expression eval_expression
    eval_expression_rejected expr e v rest h = refused _ _ _ e v rest (same_tokens 0 0 expr) h
