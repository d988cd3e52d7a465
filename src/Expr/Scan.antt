-- ===== src/Expr/Scan.antt =====
-- One match of the regular expression `_TOKEN_SPEC`, which src/bpg/compiler/expr_lint.py and
-- src/bpg/runtime/expr.py share: its alternatives in their order, each greedy. `is_digit` and
-- `is_word` are `\d` and `\w`, which Python's Unicode tables decide.
use Prim.Native.Char.{code}
use bpg.Common.{
  ℕ, zero, suc, ◌+◌, String, Bool, false, ◌&&◌, ◌||◌, Option, none, some, nat_eq, leb,
  if◌then◌else◌,
}
use bpg.Common.Text.{is_space}
use mathlib.Core.Option
use bpg.Expr.Tokens.{
  Kind, string_lit, float_lit, int_lit, op, not_sign, lparen, rparen, comma, word,
}

pub record CharClass : Type 0 where
  pub is_digit : ℕ → Bool
  pub is_word : ℕ → Bool

-- How many characters from the first on satisfy a test.
unfoldable pub span : (ℕ → Bool) → String → ℕ
span p String.[] = 0
span p (String.◌∷◌ c s) = let n = span p s in if p (code c) then suc n else 0

unfoldable pub drop_text : ℕ → String → String
drop_text zero s = s
drop_text (suc n) String.[] = ""
drop_text (suc n) (String.◌∷◌ c s) = drop_text n s

unfoldable pub take_text : ℕ → String → String
take_text zero s = ""
take_text (suc n) String.[] = ""
take_text (suc n) (String.◌∷◌ c s) = String.◌∷◌ c (take_text n s)

-- The characters up to the closing quote and with it.
closing : ℕ → String → Option ℕ
closing quote String.[] = none
closing quote (String.◌∷◌ c s) =
    let rest = closing quote s in if nat_eq (code c) quote then some 1 else Option.map suc rest

starts_with : ℕ → String → Bool
starts_with c String.[] = false
starts_with c (String.◌∷◌ d s) = nat_eq (code d) c

-- `[a-zA-Z_]`
is_start : ℕ → Bool
is_start c = (leb b'a' c && leb c b'z') || (leb b'A' c && leb c b'Z') || nat_eq c b'_'

unfoldable pub starts_word : String → Bool
unfolding is_start
starts_word String.[] = false
starts_word (String.◌∷◌ c s) = is_start (code c)

-- What a match is, `none` for white space, and how many characters it has behind its first.
pub record Match : Type 0 where
  pub kind : Option Kind
  pub more : ℕ

abbrev of_kind : Kind → ℕ → Option Match
of_kind k n = some (record { kind = some k; more = n })

module _ (chars : CharClass) where
  -- The digits, and a point with digits behind it.
  number : String → Option Match
  unfolding span drop_text starts_with
  number s =
      let whole = span chars.is_digit s in
      let rest = drop_text whole s in
      let fraction = span chars.is_digit (drop_text 1 rest) in
      if starts_with b'.' rest && leb 1 fraction
      then of_kind float_lit (whole + 1 + fraction)
      else of_kind int_lit whole

  -- `\w*(?:\.[a-zA-Z_]\w*)*`
  unfoldable pub word_length : String → ℕ
  unfolding is_start starts_word
  word_length String.[] = 0
  word_length (String.◌∷◌ c s) =
      let n = word_length s in
      if is_start (code c) || chars.is_word (code c)
      then suc n
      else if nat_eq (code c) b'.' && starts_word s
      then suc n
      else 0

  quoted : Option ℕ → Option Match
  quoted none = none
  quoted (some n) = of_kind string_lit n

  unfoldable pub scan : ℕ → String → Option Match
  unfolding is_space number word_length closing quoted starts_with is_start span
  scan c s =
      if is_space c
      then some (record { kind = none; more = span is_space s })
      else if nat_eq c b'"'
      then quoted (closing b'"' s)
      else if nat_eq c 39
      then quoted (closing 39 s)
      else if chars.is_digit c
      then number s
      else if nat_eq c b'='
      then (if starts_with b'=' s then of_kind op 1 else none)
      else if nat_eq c b'!'
      then (if starts_with b'=' s then of_kind op 1 else of_kind not_sign 0)
      else if nat_eq c b'>' || nat_eq c b'<'
      then (if starts_with b'=' s then of_kind op 1 else of_kind op 0)
      else if nat_eq c b'|'
      then (if starts_with b'|' s then of_kind op 1 else none)
      else if nat_eq c b'&'
      then (if starts_with b'&' s then of_kind op 1 else none)
      else if nat_eq c b'('
      then of_kind lparen 0
      else if nat_eq c b')'
      then of_kind rparen 0
      else if nat_eq c b','
      then of_kind comma 0
      else if is_start c
      then of_kind word (word_length s)
      else none
