-- ===== src/Audit/Redaction/Paths.antt =====
-- A configured path leads to nothing but the redaction mark.
use bpg.Common.{◌≡◌, refl, true, false, inl, inr, List, [], ◌∷◌, String, All, Bool-cases, ◌==◌}
use bpg.Value.{Value, Items, Fields, null, bool, int, float, str, list, dict, nil, cons, end, field}
use bpg.Audit.Redaction.{
  redacted, redact_sensitive_keys, replace, redact_path, redact_items, redact_fields,
  normalize_path, redact_configured, redact_payload,
}
use bpg.Audit.Redaction.Sensitive.{redact_path-redacted}

-- Everything that a path of keys reaches, through every item of the lists on its way, is the mark.
abbrev mutual
  pub IsMasked : List String → Value → Type 0
  IsMasked [] v = v ≡ redacted
  IsMasked (k ∷ ks) (dict d) = IsMaskedFields k ks d
  IsMasked (k ∷ ks) (list xs) = IsMaskedItems (k ∷ ks) xs
  IsMasked (k ∷ ks) null = Unit
  IsMasked (k ∷ ks) (bool b) = Unit
  IsMasked (k ∷ ks) (int i) = Unit
  IsMasked (k ∷ ks) (float x) = Unit
  IsMasked (k ∷ ks) (str s) = Unit

  pub IsMaskedItems : List String → Items → Type 0
  IsMaskedItems path nil = Unit
  IsMaskedItems path (cons x xs) = IsMasked path x × IsMaskedItems path xs

  pub IsMaskedFields : String → List String → Fields → Type 0
  IsMaskedFields key rest end = Unit
  IsMaskedFields key rest (field k v d) =
      ((k == key) ≡ true → IsMasked rest v) × ((k == key) ≡ false → IsMaskedFields key rest d)

IsMasked-redacted : (path : List String) → IsMasked path redacted
IsMasked-redacted [] = refl
IsMasked-redacted (k ∷ ks) = tt

mutual
  unfolding redact_path replace

  mask : (v : Value) (k : String) (ks : List String) → IsMasked (k ∷ ks) (redact_path v (k ∷ ks)).0
  mask (dict d) k ks = mask_fields d k ks
  mask (list xs) k ks = mask_items xs k ks
  mask null k ks = tt
  mask (bool b) k ks = tt
  mask (int i) k ks = tt
  mask (float x) k ks = tt
  mask (str s) k ks = tt

  mask_items :
      (xs : Items) (k : String) (ks : List String)
      → IsMaskedItems (k ∷ ks) (redact_items xs (k ∷ ks)).0
  mask_items nil k ks = tt
  mask_items (cons x xs) k ks = (mask x k ks, mask_items xs k ks)

  mask_fields :
      (d : Fields) (key : String) (rest : List String)
      → IsMaskedFields key rest (redact_fields d key rest).0
  mask_fields end key rest = tt
  mask_fields (field k v d) key [] = elim (Bool-cases (k == key)) [
    | inl e ↦ rw e ((λ _. refl), (λ h. cc))
    | inr e ↦ rw e ((λ h. cc), (λ _. mask_fields d key []))
  ]
  mask_fields (field k v d) key (r ∷ rs) = elim (Bool-cases (k == key)) [
    | inl e ↦ rw e ((λ _. mask v r rs), (λ h. cc))
    | inr e ↦ rw e ((λ h. cc), (λ _. mask_fields d key (r ∷ rs)))
  ]

masked_end :
    (v : Value) (q : String) (qs : List String)
    → v ≡ redacted
    → (redact_path v (q ∷ qs)).0 ≡ redacted
masked_end v q qs e = rw (e, redact_path-redacted)

-- Redacting along another path leaves it so.
mutual
  unfolding redact_path replace

  keep :
      (v : Value) (path other : List String)
      → IsMasked path v
      → IsMasked path (redact_path v other).0
  keep v path [] h = h
  keep v [] (q ∷ qs) h = masked_end v q qs h
  keep (dict d) (k ∷ ks) (q ∷ qs) h = keep_fields d k ks q qs h
  keep (list xs) (k ∷ ks) (q ∷ qs) h = keep_items xs (k ∷ ks) (q ∷ qs) h
  keep null (k ∷ ks) (q ∷ qs) h = tt
  keep (bool b) (k ∷ ks) (q ∷ qs) h = tt
  keep (int i) (k ∷ ks) (q ∷ qs) h = tt
  keep (float x) (k ∷ ks) (q ∷ qs) h = tt
  keep (str s) (k ∷ ks) (q ∷ qs) h = tt

  keep_items :
      (xs : Items) (path other : List String)
      → IsMaskedItems path xs
      → IsMaskedItems path (redact_items xs other).0
  keep_items nil path other h = tt
  keep_items (cons x xs) path other h = (keep x path other h.0, keep_items xs path other h.1)

  keep_fields :
      (d : Fields) (key : String) (rest : List String) (q : String) (qs : List String)
      → IsMaskedFields key rest d
      → IsMaskedFields key rest (redact_fields d q qs).0
  keep_fields end key rest q qs h = tt
  keep_fields (field k v d) key rest q [] h = elim (Bool-cases (k == q)) [
    | inl e ↦ rw e ((λ _. IsMasked-redacted rest), h.1)
    | inr e ↦ rw e (h.0, λ other. keep_fields d key rest q [] (h.1 other))
  ]
  keep_fields (field k v d) key rest q (r ∷ rs) h = elim (Bool-cases (k == q)) [
    | inl e ↦ rw e ((λ here. keep v rest (r ∷ rs) (h.0 here)), h.1)
    | inr e ↦ rw e (h.0, λ other. keep_fields d key rest q (r ∷ rs) (h.1 other))
  ]

redact_configured_keeps :
    (v : Value) (paths : List String) (path : List String)
    → IsMasked path v
    → IsMasked path (redact_configured v paths).0
unfolding redact_configured
redact_configured_keeps v [] path h = h
redact_configured_keeps v (raw ∷ more) path h =
    redact_configured_keeps (redact_path v (normalize_path raw)).0 more path
      (keep v path (normalize_path raw) h)

-- A path that names something: with no key left after normalisation nothing is redacted.
abbrev pub Masks : Value → List String → Type 0
Masks v [] = Unit
Masks v (k ∷ ks) = IsMasked (k ∷ ks) v

redact_path-Masks : (v : Value) (path : List String) → Masks (redact_path v path).0 path
redact_path-Masks v [] = tt
redact_path-Masks v (k ∷ ks) = mask v k ks

Masks-later :
    (v : Value) (paths path : List String) → Masks v path → Masks (redact_configured v paths).0 path
Masks-later v paths [] h = tt
Masks-later v paths (k ∷ ks) h = redact_configured_keeps v paths (k ∷ ks) h

redact_configured-Masks :
    (v : Value) (paths : List String)
    → All (λ raw. Masks (redact_configured v paths).0 (normalize_path raw)) paths
unfolding redact_configured
redact_configured-Masks v [] = tt
redact_configured-Masks v (raw ∷ more) = (
  Masks-later (redact_path v (normalize_path raw)).0 more (normalize_path raw)
      (redact_path-Masks v (normalize_path raw)),
  redact_configured-Masks (redact_path v (normalize_path raw)).0 more,
)

-- Whatever the payload, every configured path with at least one key leads, in the redacted payload, to nothing but the
-- redaction mark, through the items of lists too, and no later path undoes this.
pub redact_payload-Masks :
    (payload : Value) (configured_paths : List String)
    → All
        (λ raw. Masks (redact_payload payload configured_paths).0 (normalize_path raw))
        configured_paths
unfolding redact_payload
redact_payload-Masks payload configured_paths =
    redact_configured-Masks (redact_sensitive_keys payload) configured_paths
