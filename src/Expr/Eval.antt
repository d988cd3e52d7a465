-- ===== src/Expr/Eval.antt =====
-- `_Evaluator` of src/bpg/runtime/expr.py over a list of tokens. Every call of a rule takes one unit
-- of fuel.
pub mod Agree
pub mod Sound
use Prim.Native.Char.{code}
use bpg.Common.{
  ℕ, zero, suc, ◌+◌, ◌*◌, String, Bool, true, false, not, ◌&&◌, ◌||◌, Option, none, some, List, [],
  ◌∷◌, ◌==◌, if◌then◌else◌, length, leb,
}
use bpg.Common.Int.{pos}
use bpg.Value.{Value, null, bool, int, float, str, truthy}
use bpg.Expr.Tokens.{
  Kind, string_lit, float_lit, int_lit, op, not_sign, lparen, rparen, comma, word, Token, is_op,
  is_not, is_lparen, is_rparen, one_of, comparisons,
}
use bpg.Expr.Paths.{RunState, resolve_path}
use bpg.Expr.Compare.{Numbers, apply_cmp}
use bpg.Expr.Lint.{enough}

-- Why an `_EvalError` is raised; `int_too_long` is the `ValueError` of `int` for too many digits.
pub data EvalError : Type 0 where
  syntax_error unknown_function unresolved_path cannot_compare int_too_long : EvalError

pub data Evaluated : Type 0 where
  evaluated : Value → List Token → Evaluated
  failed : EvalError → Evaluated
  unevaluated : Evaluated

abbrev pub then_eval : Evaluated → (Value → List Token → Evaluated) → Evaluated
then_eval (evaluated v rest) k = k v rest
then_eval (failed e) k = failed e
then_eval unevaluated k = unevaluated

abbrev pub eval_rparen : Value → List Token → Evaluated
eval_rparen v [] = failed syntax_error
eval_rparen v (t ∷ ts) = if is_rparen t.kind then evaluated v ts else failed syntax_error

-- `value[1:-1]`
without_last : String → String
without_last String.[] = ""
without_last (String.◌∷◌ c s) =
    let rest = without_last s in if s == "" then "" else String.◌∷◌ c rest

unquoted : String → String
unfolding without_last
unquoted String.[] = ""
unquoted (String.◌∷◌ c s) = without_last s

-- `int(value)` of digits
number_from : (ℕ → ℕ) → ℕ → String → ℕ
number_from digit_value n String.[] = n
number_from digit_value n (String.◌∷◌ c s) =
    number_from digit_value (10 * n + digit_value (code c)) s

-- The longest decimal that `int` reads, `sys.get_int_max_str_digits()`.
abbrev pub max_str_digits : ℕ
max_str_digits = 4300

count_digits : String → ℕ
count_digits String.[] = 0
count_digits (String.◌∷◌ c s) = suc (count_digits s)

-- `int(value)` for the text of a token, which consists of digits.
pub int_or_fail : (ℕ → ℕ) → String → List Token → Evaluated
unfolding number_from count_digits
int_or_fail digit_value s ts =
    if leb (count_digits s) max_str_digits
    then evaluated (int (pos (number_from digit_value 0 s))) ts
    else failed int_too_long

abbrev pub is_null : Value → Bool
is_null null = true
is_null _ = false

abbrev pub found_or_fail : Option Value → List Token → Evaluated
found_or_fail none ts = failed unresolved_path
found_or_fail (some v) ts = evaluated v ts

abbrev pub compared_or_fail : Option Bool → List Token → Evaluated
compared_or_fail none ts = failed cannot_compare
compared_or_fail (some b) ts = evaluated (bool b) ts

abbrev pub call_function : String → Value → List Token → Evaluated
call_function name arg ts =
    if name == "is_null"
    then evaluated (bool (is_null arg)) ts
    else if name == "is_present"
    then evaluated (bool (not (is_null arg))) ts
    else failed unknown_function

-- The words `true`, `false` and `null`.
abbrev pub constant_or : String → List Token → Evaluated → Evaluated
constant_or name ts otherwise =
    if name == "true"
    then evaluated (bool true) ts
    else if name == "false"
    then evaluated (bool false) ts
    else if name == "null"
    then evaluated null ts
    else otherwise

module _ (python : Numbers) (state : RunState) (trigger_name : String) where
  -- `bool(v)`
  abbrev pub test : Value → Bool
  test v = truthy python.is_zero v

  mutual
    unfolding unquoted int_or_fail truthy

    -- `_or_expr`, its loop, `_and_expr`, its loop, `_not_expr`, `_cmp_expr` and `_primary`.
    pub eval_or : ℕ → List Token → Evaluated
    eval_or zero ts = unevaluated
    eval_or (suc n) ts = then_eval (eval_and n ts) (λ left rest. eval_or_loop n left rest)

    pub eval_or_loop : ℕ → Value → List Token → Evaluated
    eval_or_loop zero left ts = unevaluated
    eval_or_loop (suc n) left [] = evaluated left []
    eval_or_loop (suc n) left (t ∷ ts) =
        let more =
          then_eval (eval_and n ts)
            (λ right rest. eval_or_loop n (bool (test left || test right)) rest) in
        if is_op t.kind && t.value == "||" then more else evaluated left (t ∷ ts)

    pub eval_and : ℕ → List Token → Evaluated
    eval_and zero ts = unevaluated
    eval_and (suc n) ts = then_eval (eval_not n ts) (λ left rest. eval_and_loop n left rest)

    pub eval_and_loop : ℕ → Value → List Token → Evaluated
    eval_and_loop zero left ts = unevaluated
    eval_and_loop (suc n) left [] = evaluated left []
    eval_and_loop (suc n) left (t ∷ ts) =
        let more =
          then_eval (eval_not n ts)
            (λ right rest. eval_and_loop n (bool (test left && test right)) rest) in
        if is_op t.kind && t.value == "&&" then more else evaluated left (t ∷ ts)

    pub eval_not : ℕ → List Token → Evaluated
    eval_not zero ts = unevaluated
    eval_not (suc n) [] = eval_cmp n []
    eval_not (suc n) (t ∷ ts) =
        let negated = then_eval (eval_not n ts) (λ v rest. evaluated (bool (not (test v))) rest) in
        let plain_case = eval_cmp n (t ∷ ts) in if is_not t.kind then negated else plain_case

    pub eval_cmp : ℕ → List Token → Evaluated
    eval_cmp zero ts = unevaluated
    eval_cmp (suc n) ts = then_eval (eval_primary n ts) (λ left rest. eval_cmp_tail n left rest)

    pub eval_cmp_tail : ℕ → Value → List Token → Evaluated
    eval_cmp_tail zero left ts = unevaluated
    eval_cmp_tail (suc n) left [] = evaluated left []
    eval_cmp_tail (suc n) left (t ∷ ts) =
        let compared =
          then_eval (eval_primary n ts)
            (λ right rest. compared_or_fail (apply_cmp python t.value left right) rest) in
        if is_op t.kind && one_of comparisons t.value then compared else evaluated left (t ∷ ts)

    pub eval_primary : ℕ → List Token → Evaluated
    eval_primary zero ts = unevaluated
    eval_primary (suc n) [] = failed syntax_error
    eval_primary (suc n) (t ∷ ts) = eval_kind n t.kind t.value ts

    pub eval_kind : ℕ → Kind → String → List Token → Evaluated
    eval_kind zero k s ts = unevaluated
    eval_kind (suc n) lparen s ts = then_eval (eval_or n ts) (λ v rest. eval_rparen v rest)
    eval_kind (suc n) string_lit s ts = evaluated (str (unquoted s)) ts
    eval_kind (suc n) float_lit s ts = evaluated (float (python.float_of s)) ts
    eval_kind (suc n) int_lit s ts = int_or_fail python.digit_value s ts
    eval_kind (suc n) word s ts = eval_word n s ts
    eval_kind (suc n) op s ts = failed syntax_error
    eval_kind (suc n) not_sign s ts = failed syntax_error
    eval_kind (suc n) rparen s ts = failed syntax_error
    eval_kind (suc n) comma s ts = failed syntax_error

    -- A constant, a call, or a path.
    pub eval_word : ℕ → String → List Token → Evaluated
    eval_word zero name ts = unevaluated
    eval_word (suc n) name [] =
        constant_or name [] (found_or_fail (resolve_path state trigger_name name) [])
    eval_word (suc n) name (u ∷ us) =
        let called =
          then_eval (eval_primary n us) (λ arg rest.
            then_eval (eval_rparen arg rest) (λ v after. call_function name v after)) in
        constant_or name (u ∷ us) (
          if is_lparen u.kind
          then called
          else found_or_fail (resolve_path state trigger_name name) (u ∷ us))

  abbrev pub only_value : Evaluated → Evaluated
  only_value (evaluated v []) = evaluated v []
  only_value (evaluated v (t ∷ ts)) = failed syntax_error
  only_value (failed e) = failed e
  only_value unevaluated = unevaluated

  -- `_Evaluator(tokens, …).evaluate()`
  pub evaluate : List Token → Evaluated
  unfolding eval_or
  evaluate ts = only_value (eval_or (enough (length ts)) ts)

  -- `eval_when` behind its tokenizer: `bool(result)`.
  unfoldable pub eval_when : List Token → Evaluated
  unfolding evaluate truthy
  eval_when ts = then_eval (evaluate ts) (λ v rest. evaluated (bool (test v)) rest)
