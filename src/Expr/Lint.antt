-- ===== src/Expr/Lint.antt =====
-- The parser of src/bpg/compiler/expr_lint.py over a list of tokens: what is left is what was not
-- consumed. Every call of a rule takes one unit of fuel.
pub mod Ends
use bpg.Common.{
  ℕ, zero, suc, ◌+◌, ◌*◌, String, Bool, true, false, ◌&&◌, Option, none, some, List, [], ◌∷◌, ◌==◌,
  if◌then◌else◌, length,
}
use bpg.Expr.Tokens.{
  Kind, string_lit, float_lit, int_lit, op, not_sign, lparen, rparen, comma, word, ExprToken, is_op,
  is_not, is_lparen, is_rparen, one_of, comparisons,
}

-- Without the message, which spells the code, and the token or the expected kind, out.
pub record ExprLintError : Type 0 where
  pub code : String
  pub token : Option ExprToken
  pub offset : Option ℕ

-- `column`
pub column : ExprLintError → Option ℕ
column e = elim e.token [
  | some t ↦ some (t.start + 1)
  | none ↦ elim e.offset [ none ↦ none | some n ↦ some (n + 1) ]
]

pub data Parsed : Type 0 where
  parsed : List ExprToken → Parsed
  rejected : ExprLintError → Parsed
  unfinished : Parsed

abbrev pub then_parse : Parsed → (List ExprToken → Parsed) → Parsed
then_parse (parsed rest) k = k rest
then_parse (rejected e) k = rejected e
then_parse unfinished k = unfinished

abbrev pub at_token : String → ExprToken → ExprLintError
at_token code t = record { code = code; token = some t; offset = none }

abbrev pub at_offset : String → ℕ → ExprLintError
at_offset code n = record { code = code; token = none; offset = some n }

module _ (expr_len : ℕ) where
  abbrev pub expect_rparen : List ExprToken → Parsed
  expect_rparen [] = rejected (at_offset "E_EXPR_UNEXPECTED_END" expr_len)
  expect_rparen (t ∷ ts) =
      if is_rparen t.kind then parsed ts else rejected (at_token "E_EXPR_EXPECTED_TOKEN" t)

  unfoldable mutual
    -- `_or_expr`, its loop, `_and_expr`, its loop, `_not_expr`, `_cmp_expr` and `_primary`.
    pub or_expr : ℕ → List ExprToken → Parsed
    or_expr zero ts = unfinished
    or_expr (suc n) ts = then_parse (and_expr n ts) (λ rest. or_loop n rest)

    pub or_loop : ℕ → List ExprToken → Parsed
    or_loop zero ts = unfinished
    or_loop (suc n) [] = parsed []
    or_loop (suc n) (t ∷ ts) =
        let more = then_parse (and_expr n ts) (λ rest. or_loop n rest) in
        if is_op t.kind && t.value == "||" then more else parsed (t ∷ ts)

    pub and_expr : ℕ → List ExprToken → Parsed
    and_expr zero ts = unfinished
    and_expr (suc n) ts = then_parse (not_expr n ts) (λ rest. and_loop n rest)

    pub and_loop : ℕ → List ExprToken → Parsed
    and_loop zero ts = unfinished
    and_loop (suc n) [] = parsed []
    and_loop (suc n) (t ∷ ts) =
        let more = then_parse (not_expr n ts) (λ rest. and_loop n rest) in
        if is_op t.kind && t.value == "&&" then more else parsed (t ∷ ts)

    pub not_expr : ℕ → List ExprToken → Parsed
    not_expr zero ts = unfinished
    not_expr (suc n) [] = cmp_expr n []
    not_expr (suc n) (t ∷ ts) =
        let inner = not_expr n ts in
        let plain_case = cmp_expr n (t ∷ ts) in if is_not t.kind then inner else plain_case

    pub cmp_expr : ℕ → List ExprToken → Parsed
    cmp_expr zero ts = unfinished
    cmp_expr (suc n) ts = then_parse (primary n ts) (λ rest. cmp_tail n rest)

    pub cmp_tail : ℕ → List ExprToken → Parsed
    cmp_tail zero ts = unfinished
    cmp_tail (suc n) [] = parsed []
    cmp_tail (suc n) (t ∷ ts) =
        let right = primary n ts in
        if is_op t.kind && one_of comparisons t.value then right else parsed (t ∷ ts)

    pub primary : ℕ → List ExprToken → Parsed
    primary zero ts = unfinished
    primary (suc n) [] = rejected (at_offset "E_EXPR_UNEXPECTED_END" expr_len)
    primary (suc n) (t ∷ ts) = primary_kind n t.kind t ts

    pub primary_kind : ℕ → Kind → ExprToken → List ExprToken → Parsed
    primary_kind zero k t ts = unfinished
    primary_kind (suc n) lparen t ts = then_parse (or_expr n ts) (λ rest. expect_rparen rest)
    primary_kind (suc n) string_lit t ts = parsed ts
    primary_kind (suc n) float_lit t ts = parsed ts
    primary_kind (suc n) int_lit t ts = parsed ts
    primary_kind (suc n) word t ts = word_tail n t ts
    primary_kind (suc n) op t ts = rejected (at_token "E_EXPR_UNEXPECTED_TOKEN" t)
    primary_kind (suc n) not_sign t ts = rejected (at_token "E_EXPR_UNEXPECTED_TOKEN" t)
    primary_kind (suc n) rparen t ts = rejected (at_token "E_EXPR_UNEXPECTED_TOKEN" t)
    primary_kind (suc n) comma t ts = rejected (at_token "E_EXPR_UNEXPECTED_TOKEN" t)

    -- A word: a constant, a call of a known function, or a path.
    pub word_tail : ℕ → ExprToken → List ExprToken → Parsed
    word_tail zero t ts = unfinished
    word_tail (suc n) t [] = parsed []
    word_tail (suc n) t (u ∷ us) =
        let call = then_parse (primary n us) (λ rest. expect_rparen rest) in
        if one_of ("true" ∷ "false" ∷ "null" ∷ []) t.value
        then parsed (u ∷ us)
        else if is_lparen u.kind
        then (if one_of ("is_null" ∷ "is_present" ∷ []) t.value
            then call
            else rejected (at_token "E_EXPR_UNKNOWN_FUNCTION" t))
        else parsed (u ∷ us)

abbrev pub all_used : Parsed → Parsed
all_used (parsed []) = parsed []
all_used (parsed (t ∷ ts)) = rejected (at_token "E_EXPR_UNEXPECTED_TOKEN" t)
all_used (rejected e) = rejected e
all_used unfinished = unfinished

-- Units of fuel for so many tokens.
abbrev pub enough : ℕ → ℕ
enough n = 8 * n + 8

-- `lint_when_expression` behind its tokenizer.
unfoldable pub lint : (expr_len : ℕ) → List ExprToken → Parsed
unfolding or_expr
lint expr_len [] = rejected (at_offset "E_EXPR_EMPTY" 0)
lint expr_len (t ∷ ts) = all_used (or_expr expr_len (enough (length (t ∷ ts))) (t ∷ ts))
