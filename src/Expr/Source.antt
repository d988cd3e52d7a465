-- ===== src/Expr/Source.antt =====
-- Expressions as texts: the two tokenizers, `lint_when_expression` of src/bpg/compiler/expr_lint.py and
-- `eval_when` of src/bpg/runtime/expr.py. A tokenizer walks over the text, `skip` characters of which
-- belong to the match before.
pub mod Sound
mod Examples
use Prim.Native.Char.{code}
use bpg.Common.{ℕ, zero, suc, ◌+◌, String, Bool, Option, none, some, List, [], ◌∷◌}
use bpg.Value.{Value}
use bpg.Expr.Tokens.{Kind, ExprToken, Token}
use bpg.Expr.Scan.{CharClass, Match, scan, take_text}
use bpg.Expr.Lint.{ExprLintError, at_offset, Parsed, parsed, rejected, unfinished, lint}
use bpg.Expr.Paths.{RunState}
use bpg.Expr.Compare.{Numbers}
use bpg.Expr.Eval.{Evaluated, failed, syntax_error, eval_when}

pub data LintTokens : Type 0 where
  tokens : List ExprToken → LintTokens
  unexpected_char : ℕ → LintTokens

abbrev pub with_token : Option Kind → String → ℕ → ℕ → LintTokens → LintTokens
with_token none value start stop rest = rest
with_token (some k) value start stop (unexpected_char n) = unexpected_char n
with_token (some k) value start stop (tokens ts) =
    tokens (record { kind = k; value = value; start = start; stop = stop } ∷ ts)

abbrev pub with_plain : Option Kind → String → Option (List Token) → Option (List Token)
with_plain none value rest = rest
with_plain (some k) value none = none
with_plain (some k) value (some ts) = some (record { kind = k; value = value } ∷ ts)

-- `len(expr)`
pub text_length : String → ℕ
text_length String.[] = 0
text_length (String.◌∷◌ c s) = suc (text_length s)

module _ (chars : CharClass) where
  -- `_tokenize` of the linter, from position `pos`
  pub lint_tokens : (skip pos : ℕ) → String → LintTokens
  unfolding take_text
  lint_tokens skip pos String.[] = tokens []
  lint_tokens (suc skip) pos (String.◌∷◌ c s) = lint_tokens skip (pos + 1) s
  lint_tokens zero pos (String.◌∷◌ c s) = elim (scan chars (code c) s) [
    | none ↦ unexpected_char pos
    | some m ↦
        with_token m.kind (String.◌∷◌ c (take_text m.more s)) pos (pos + 1 + m.more)
          (lint_tokens m.more (pos + 1) s)
  ]

  -- `_tokenize` of the evaluator. Where nothing matches, `finditer` goes on to a later match, whose start
  -- is not the position reached, or to the end, which the position does not reach: an error either way.
  pub eval_tokens : (skip : ℕ) → String → Option (List Token)
  unfolding take_text
  eval_tokens skip String.[] = some []
  eval_tokens (suc skip) (String.◌∷◌ c s) = eval_tokens skip s
  eval_tokens zero (String.◌∷◌ c s) = elim (scan chars (code c) s) [
    | none ↦ none
    | some m ↦ with_plain m.kind (String.◌∷◌ c (take_text m.more s)) (eval_tokens m.more s)
  ]

  abbrev pub lint_all : ℕ → LintTokens → Parsed
  lint_all expr_len (tokens ts) = lint expr_len ts
  lint_all expr_len (unexpected_char pos) = rejected (at_offset "E_EXPR_TOKEN_UNEXPECTED_CHAR" pos)

  -- `lint_when_expression`
  pub lint_when_expression : String → Parsed
  unfolding text_length lint_tokens
  lint_when_expression expr = lint_all (text_length expr) (lint_tokens 0 0 expr)

  module _ (python : Numbers) (state : RunState) (trigger_name : String) where
    abbrev pub eval_all : Option (List Token) → Evaluated
    eval_all none = failed syntax_error
    eval_all (some ts) = eval_when python state trigger_name ts

    -- `eval_when`
    unfoldable pub eval_expression : String → Evaluated
    unfolding eval_tokens
    eval_expression expr = eval_all (eval_tokens 0 expr)
