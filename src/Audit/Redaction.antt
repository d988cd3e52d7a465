-- ===== src/Audit/Redaction.antt =====
-- Redaction of audit payloads: `redact_payload` of src/bpg/audit/policy.py and its helpers, over
-- values whose keys are texts. In-place mutation returns the new value.
pub mod Sensitive
pub mod Paths
pub mod Copies
mod Examples
use Prim.Native.Char.{code}
use Prim.Native.String.{◌++◌ as append, compare}
use bpg.Common.{
  ℕ, zero, suc, ◌+◌, ◌-◌, ◌≡◌, Bool, true, false, ◌&&◌, ◌||◌, not, String, List, [], ◌∷◌, ◌++◌,
  Option, none, some, nat_eq, leb, ◌==◌, if◌then◌else◌, contains,
}
use Prim.Native.Nat.{Ordering, ◌/◌, ◌%◌}
use mathlib.Core.Option
use bpg.Common.Text.{strip, after_prefix, split, join, decimal, add_name, union}
use bpg.Value.{Value, Items, Fields, null, bool, int, float, str, list, dict, nil, cons, end, field}

abbrev pub redacted : Value
redacted = str "[REDACTED]"

-- `c.lower()` as far as the result can be an ASCII letter: A to Z, and the Kelvin sign.
lower_code : ℕ → ℕ
lower_code c = if leb b'A' c && leb c b'Z' then c + 32 else if nat_eq c 0x212A then b'k' else c

pub codes : String → List ℕ
codes String.[] = []
codes (String.◌∷◌ c s) = code c ∷ codes s

lower_codes : String → List ℕ
unfolding lower_code
lower_codes String.[] = []
lower_codes (String.◌∷◌ c s) = lower_code (code c) ∷ lower_codes s

same_codes : List ℕ → List ℕ → Bool
same_codes [] [] = true
same_codes (c ∷ cs) (d ∷ ds) = nat_eq c d && same_codes cs ds
same_codes _ _ = false

any_codes : List String → List ℕ → Bool
unfolding codes same_codes
any_codes [] key = false
any_codes (name ∷ names) key = same_codes (codes name) key || any_codes names key

abbrev sensitive_keys : List String
sensitive_keys =
    "api_key" ∷ "apikey" ∷ "authorization" ∷ "access_token" ∷ "refresh_token" ∷ "secret" ∷ "token"
    ∷ "password" ∷ []

-- `key_str.lower() in _SENSITIVE_KEYS`
pub is_sensitive : String → Bool
unfolding any_codes lower_codes
is_sensitive key = any_codes sensitive_keys (lower_codes key)

-- `_redact_sensitive_keys`. Its own path set is thrown away by the caller and is left out.
mutual
  pub redact_sensitive_keys : Value → Value
  redact_sensitive_keys (dict d) = dict (redact_sensitive_fields d)
  redact_sensitive_keys (list xs) = list (redact_sensitive_items xs)
  redact_sensitive_keys null = null
  redact_sensitive_keys (bool b) = bool b
  redact_sensitive_keys (int i) = int i
  redact_sensitive_keys (float x) = float x
  redact_sensitive_keys (str s) = str s

  pub redact_sensitive_items : Items → Items
  redact_sensitive_items nil = nil
  redact_sensitive_items (cons x xs) = cons (redact_sensitive_keys x) (redact_sensitive_items xs)

  pub redact_sensitive_fields : Fields → Fields
  redact_sensitive_fields end = end
  redact_sensitive_fields (field k v d) =
      field k (if is_sensitive k then redacted else redact_sensitive_keys v)
        (redact_sensitive_fields d)

-- What the assignment and the answer are where the path ends, and where it goes on.
pub replace : List String → Value → Value
replace [] v = redacted
replace (k ∷ ks) v = v

pub at_end : List String → Bool → Bool
at_end [] hit = true
at_end (k ∷ ks) hit = hit

-- `_redact_path`: the new value, and whether anything matched. A path goes through every item of a
-- list, and ends at the first key that is not there.
mutual
  pub redact_path : Value → List String → Value × Bool
  redact_path v [] = (v, false)
  redact_path (dict d) (key ∷ rest) = let (d', hit) = redact_fields d key rest in (dict d', hit)
  redact_path (list xs) (key ∷ rest) =
      let (xs', hit) = redact_items xs (key ∷ rest) in (list xs', hit)
  redact_path null (key ∷ rest) = (null, false)
  redact_path (bool b) (key ∷ rest) = (bool b, false)
  redact_path (int i) (key ∷ rest) = (int i, false)
  redact_path (float x) (key ∷ rest) = (float x, false)
  redact_path (str s) (key ∷ rest) = (str s, false)

  pub redact_items : Items → List String → Items × Bool
  redact_items nil path = (nil, false)
  redact_items (cons x xs) path =
      let (x', hit) = redact_path x path in
      let (xs', more) = redact_items xs path in (cons x' xs', hit || more)

  pub redact_fields : Fields → String → List String → Fields × Bool
  redact_fields end key rest = (end, false)
  redact_fields (field k v d) key rest =
      let (v', hit) = redact_path v rest in
      let (d', more) = redact_fields d key rest in
      if k == key then (field k (replace rest v') d, at_end rest hit) else (field k v d', more)

-- `child == _REDACTED`
is_redacted : Value → Bool
is_redacted (str s) = s == "[REDACTED]"
is_redacted _ = false

-- `_collect_sensitive_paths`: the paths found. The copy of the value that it also makes equals the
-- value, since all keys are texts.
mutual
  unfolding is_redacted

  pub collect_sensitive_paths : Value → String → List String
  collect_sensitive_paths (dict d) path = collect_fields d path
  collect_sensitive_paths (list xs) path = collect_items xs path 0
  collect_sensitive_paths null path = []
  collect_sensitive_paths (bool b) path = []
  collect_sensitive_paths (int i) path = []
  collect_sensitive_paths (float x) path = []
  collect_sensitive_paths (str s) path = []

  pub collect_items : Items → String → ℕ → List String
  collect_items nil path index = []
  collect_items (cons x xs) path index =
      union (collect_sensitive_paths x (append path (append "[" (append (decimal index) "]"))))
        (collect_items xs path (index + 1))

  pub collect_fields : Fields → String → List String
  collect_fields end path = []
  collect_fields (field k v d) path =
      let child_path = append path (append "." k) in
      let nested = collect_sensitive_paths v child_path in
      union (if is_redacted v && is_sensitive k then add_name child_path nested else nested)
        (collect_fields d path)

drop_empty : List String → List String
drop_empty [] = []
drop_empty (x ∷ xs) = if x == "" then drop_empty xs else x ∷ drop_empty xs

without_prefix : String → String → String
without_prefix prefix s = Option.get_or (after_prefix prefix s) s

-- `_normalize_path`
pub normalize_path : String → List String
unfolding drop_empty without_prefix
normalize_path path =
    drop_empty (split b'.' (without_prefix "payload." (without_prefix "$." (strip path))))

-- `_display_path`
display_path : List String → String
display_path path = append "$." (join "." path)

-- The loop over the configured paths.
pub redact_configured : Value → List String → Value × List String
unfolding display_path
redact_configured v [] = (v, [])
redact_configured v (raw ∷ more) =
    let path = normalize_path raw in
    let (v', hit) = redact_path v path in
    let (v'', paths) = redact_configured v' more in
    (v'', if hit then add_name (display_path path) paths else paths)

-- `redact_payload`: the redacted payload, and the paths that were redacted.
pub redact_payload : Value → List String → Value × List String
redact_payload payload configured_paths =
    let (v, paths) = redact_configured (redact_sensitive_keys payload) configured_paths in
    (v, union (collect_sensitive_paths v "$") paths)
