-- ===== src/Audit/Redaction/Sensitive.antt =====
-- Under a sensitive key nothing but the redaction mark is left, at any depth.
use bpg.Common.{◌≡◌, refl, true, false, inl, inr, List, [], ◌∷◌, String, Bool-cases, ◌==◌}
use bpg.Value.{Value, Items, Fields, null, bool, int, float, str, list, dict, nil, cons, end, field}
use bpg.Audit.Redaction.{
  redacted, is_sensitive, redact_sensitive_keys, redact_sensitive_items, redact_sensitive_fields,
  replace, redact_path, redact_items, redact_fields, normalize_path, redact_configured,
  redact_payload,
}

abbrev mutual
  pub IsHidden : Value → Type 0
  IsHidden (dict d) = IsHiddenFields d
  IsHidden (list xs) = IsHiddenItems xs
  IsHidden null = Unit
  IsHidden (bool b) = Unit
  IsHidden (int i) = Unit
  IsHidden (float x) = Unit
  IsHidden (str s) = Unit

  pub IsHiddenItems : Items → Type 0
  IsHiddenItems nil = Unit
  IsHiddenItems (cons x xs) = IsHidden x × IsHiddenItems xs

  pub IsHiddenFields : Fields → Type 0
  IsHiddenFields end = Unit
  IsHiddenFields (field k v d) =
      (is_sensitive k ≡ true → v ≡ redacted) × IsHidden v × IsHiddenFields d

pub redact_path-redacted : (path : List String) → redact_path redacted path ≡ (redacted, false)
unfolding redact_path
redact_path-redacted [] = refl
redact_path-redacted (k ∷ ks) = refl

replace-redacted :
    (rest : List String) (v : Value) → v ≡ redacted → replace rest (redact_path v rest).0 ≡ redacted
unfolding replace
replace-redacted [] v e = refl
replace-redacted (k ∷ ks) v e = rw (e, redact_path-redacted)

replace-IsHidden : (rest : List String) (v : Value) → IsHidden v → IsHidden (replace rest v)
unfolding replace
replace-IsHidden [] v h = tt
replace-IsHidden (k ∷ ks) v h = h

mutual
  unfolding redact_sensitive_keys

  hide : (v : Value) → IsHidden (redact_sensitive_keys v)
  hide (dict d) = hide_fields d
  hide (list xs) = hide_items xs
  hide null = tt
  hide (bool b) = tt
  hide (int i) = tt
  hide (float x) = tt
  hide (str s) = tt

  hide_items : (xs : Items) → IsHiddenItems (redact_sensitive_items xs)
  hide_items nil = tt
  hide_items (cons x xs) = (hide x, hide_items xs)

  hide_fields : (d : Fields) → IsHiddenFields (redact_sensitive_fields d)
  hide_fields end = tt
  hide_fields (field k v d) = elim (Bool-cases (is_sensitive k)) [
    | inl e ↦ rw e ((λ _. refl), tt, hide_fields d)
    | inr e ↦ rw e ((λ (h : false ≡ true). cc), hide v, hide_fields d)
  ]

mutual
  unfolding redact_path

  keep : (v : Value) (path : List String) → IsHidden v → IsHidden (redact_path v path).0
  keep v [] h = h
  keep (dict d) (k ∷ ks) h = keep_fields d k ks h
  keep (list xs) (k ∷ ks) h = keep_items xs (k ∷ ks) h
  keep null (k ∷ ks) h = tt
  keep (bool b) (k ∷ ks) h = tt
  keep (int i) (k ∷ ks) h = tt
  keep (float x) (k ∷ ks) h = tt
  keep (str s) (k ∷ ks) h = tt

  keep_items :
      (xs : Items) (path : List String) → IsHiddenItems xs → IsHiddenItems (redact_items xs path).0
  keep_items nil path h = tt
  keep_items (cons x xs) path h = (keep x path h.0, keep_items xs path h.1)

  keep_fields :
      (d : Fields) (key : String) (rest : List String)
      → IsHiddenFields d
      → IsHiddenFields (redact_fields d key rest).0
  keep_fields end key rest h = tt
  keep_fields (field k v d) key rest h = elim (Bool-cases (k == key)) [
    | inl e ↦
        rw e
          ((λ is. replace-redacted rest v (h.0 is)), replace-IsHidden rest _ (keep v rest h.1), h.2)
    | inr e ↦ rw e (h.0, h.1, keep_fields d key rest h.2)
  ]

redact_configured-IsHidden :
    (v : Value) (paths : List String) → IsHidden v → IsHidden (redact_configured v paths).0
unfolding redact_configured
redact_configured-IsHidden v [] h = h
redact_configured-IsHidden v (raw ∷ more) h =
    redact_configured-IsHidden (redact_path v (normalize_path raw)).0 more
      (keep v (normalize_path raw) h)

-- Whatever the payload and the configured paths, every dictionary entry of the redacted payload, at
-- any depth, whose key is sensitive holds the redaction mark.
pub redact_payload-IsHidden :
    (payload : Value) (configured_paths : List String)
    → IsHidden (redact_payload payload configured_paths).0
unfolding redact_payload
redact_payload-IsHidden payload configured_paths =
    redact_configured-IsHidden (redact_sensitive_keys payload) configured_paths (hide payload)
