-- ===== src/Expr/Source/Examples.antt =====
-- Conditions on the state of a run, linted and evaluated.
use bpg.Common.{String, ◌≡◌, refl, Bool, true, false, [], ◌⊎◌, ◌-◌, ◌&&◌, leb}
use bpg.Common.Text.{is_space}
use bpg.Common.Int.{pos}
use bpg.Value.{bool, int, str, dict, end, field}
use bpg.Expr.Tokens.{word}
use bpg.Expr.Scan.{CharClass, scan, take_text}
use bpg.Expr.Paths.{RunState}
use bpg.Expr.Compare.{Numbers}
use bpg.Expr.Lint.{ExprLintError, parsed, rejected, lint, or_expr, at_token, at_offset}
use bpg.Expr.Eval.{EvalError, evaluated, failed}
use bpg.Expr.Eval.Agree.{IsUnlinted}
use bpg.Expr.Source.{lint_when_expression, eval_expression}
use bpg.Expr.Source.Sound.{
  lint_when_expression-total, eval_expression_of_lint, eval_expression_rejected,
}

abbrev ascii : CharClass
ascii = record { is_digit = λ c. leb b'0' c && leb c b'9'; is_word = λ c. leb b'0' c && leb c b'9' }

abbrev python : Numbers
python = record {
  float_of = λ s. 0;
  is_zero = λ x. false;
  same_floats = λ v w. false;
  order_floats = λ c v w. false;
  digit_value = λ c. c - b'0';
}

abbrev state : RunState
state = record {
  trigger_input = field "amount" (int (pos 12)) end;
  node_outputs = field "triage" (dict (field "risk" (str "high") end)) end;
}

abbrev condition : String
condition = "triage.out.risk == 'high' && !is_null(trigger.in.amount)"

abbrev unknown : String
unknown = "is_empty(triage.out.risk)"

abbrev unknown_error : ExprLintError
unknown_error =
    at_token "E_EXPR_UNKNOWN_FUNCTION"
      (record { kind = word; value = "is_empty"; start = 0; stop = 8 })

condition-accepted : lint_when_expression ascii condition ≡ parsed []
unfolding lint_when_expression scan take_text lint or_expr is_space
condition-accepted = refl

unknown-rejected : lint_when_expression ascii unknown ≡ rejected unknown_error
unfolding lint_when_expression scan take_text lint or_expr is_space
unknown-rejected = refl

stray-rejected :
    lint_when_expression ascii "a.out.b = 1" ≡ rejected (at_offset "E_EXPR_TOKEN_UNEXPECTED_CHAR" 8)
unfolding lint_when_expression scan take_text lint or_expr is_space
stray-rejected = refl

lint_when_expression-total_example :
    (lint_when_expression ascii unknown ≡ parsed [])
    ⊎ ((e : ExprLintError) × (lint_when_expression ascii unknown ≡ rejected e))
lint_when_expression-total_example = lint_when_expression-total ascii unknown

eval_expression_of_lint_example :
    ((b : Bool) × (eval_expression ascii python state "intake" condition ≡ evaluated (bool b) []))
    ⊎ ((e : EvalError) × IsUnlinted e
        × (eval_expression ascii python state "intake" condition ≡ failed e))
eval_expression_of_lint_example =
    eval_expression_of_lint ascii python state "intake" condition condition-accepted

eval_expression_rejected_example :
    ¬ (eval_expression ascii python state "intake" unknown ≡ evaluated (bool true) [])
eval_expression_rejected_example =
    eval_expression_rejected ascii python state "intake" unknown unknown_error (bool true) []
      unknown-rejected
