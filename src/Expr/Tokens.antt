-- ===== src/Expr/Tokens.antt =====
-- The tokens of a `when` expression, as the two tokenizers of src/bpg/compiler/expr_lint.py and
-- src/bpg/runtime/expr.py give them: white space is dropped, and the evaluator keeps no positions.
use bpg.Common.{ℕ, String, Bool, true, false, ◌==◌, if◌then◌else◌, List, [], ◌∷◌}

-- The groups of `_TOKEN_SPEC` without `WS`.
pub data Kind : Type 0 where
  string_lit float_lit int_lit op not_sign lparen rparen comma word : Kind

pub record ExprToken : Type 0 where
  pub kind : Kind
  pub value : String
  pub start : ℕ
  pub stop : ℕ

-- The `(kind, value)` pairs of the evaluator.
pub record Token : Type 0 where
  pub kind : Kind
  pub value : String

abbrev pub plain : ExprToken → Token
plain t = record { kind = t.kind; value = t.value }

abbrev pub is_op : Kind → Bool
is_op op = true
is_op _ = false

abbrev pub is_not : Kind → Bool
is_not not_sign = true
is_not _ = false

abbrev pub is_lparen : Kind → Bool
is_lparen lparen = true
is_lparen _ = false

abbrev pub is_rparen : Kind → Bool
is_rparen rparen = true
is_rparen _ = false

-- `value in {…}`
abbrev pub one_of : List String → String → Bool
one_of [] s = false
one_of (x ∷ xs) s = if s == x then true else one_of xs s

abbrev pub comparisons : List String
comparisons = "==" ∷ "!=" ∷ ">=" ∷ "<=" ∷ ">" ∷ "<" ∷ []
