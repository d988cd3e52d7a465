-- ===== src/Audit/Redaction/Copies.antt =====
-- What `redact_payload` of src/bpg/audit/policy.py leaves as it was.
use mathlib.Core.Path.{subst}
use bpg.Common.{
  All, String, ◌≡◌, refl, sym, ◌⊎◌, inl, inr, ◌∙◌, true, Option, none, some, List, [], ◌∷◌,
  Bool-cases, ◌==◌, eq_iff,
}
use bpg.Value.{Value, Items, Fields, null, bool, int, float, str, list, dict, nil, cons, end, field}
use bpg.Audit.Redaction.{
  redacted, is_sensitive, redact_sensitive_keys, redact_sensitive_items, redact_sensitive_fields,
  replace, redact_path, redact_items, redact_fields, redact_configured, redact_payload,
  normalize_path,
}

pub last_key : List String → Option String
last_key [] = none
last_key (k ∷ []) = some k
last_key (k ∷ l ∷ ks) = last_key (l ∷ ks)

module _ (IsOpen : String → Type 0) where
  -- The two have the same keys and items and the same values, but the first may hold the mark under a
  -- key that is open to it.
  mutual
    pub IsCopy : Value → Value → Type 0
    IsCopy (dict d') (dict d) = AreCopiedFields d' d
    IsCopy (dict d') _ = ⊥
    IsCopy (list xs') (list xs) = AreCopiedItems xs' xs
    IsCopy (list xs') _ = ⊥
    IsCopy v' v = v' ≡ v

    pub AreCopiedItems : Items → Items → Type 0
    AreCopiedItems nil nil = Unit
    AreCopiedItems (cons x' xs') (cons x xs) = IsCopy x' x × AreCopiedItems xs' xs
    AreCopiedItems _ _ = ⊥

    pub AreCopiedFields : Fields → Fields → Type 0
    AreCopiedFields end end = Unit
    AreCopiedFields (field k' v' d') (field k v d) =
        (k' ≡ k) × (IsCopy v' v ⊎ (IsOpen k × (v' ≡ redacted))) × AreCopiedFields d' d
    AreCopiedFields _ _ = ⊥

  module _ (sensitive_open : (k : String) → is_sensitive k ≡ true → IsOpen k) where
    mutual
      unfolding IsCopy redact_sensitive_keys

      pub redact_sensitive_keys-IsCopy : (v : Value) → IsCopy (redact_sensitive_keys v) v
      redact_sensitive_keys-IsCopy (dict d) = redact_sensitive_fields-copied d
      redact_sensitive_keys-IsCopy (list xs) = redact_sensitive_items-copied xs
      redact_sensitive_keys-IsCopy null = refl
      redact_sensitive_keys-IsCopy (bool b) = refl
      redact_sensitive_keys-IsCopy (int i) = refl
      redact_sensitive_keys-IsCopy (float x) = refl
      redact_sensitive_keys-IsCopy (str s) = refl

      redact_sensitive_items-copied : (xs : Items) → AreCopiedItems (redact_sensitive_items xs) xs
      redact_sensitive_items-copied nil = tt
      redact_sensitive_items-copied (cons x xs) =
          (redact_sensitive_keys-IsCopy x, redact_sensitive_items-copied xs)

      redact_sensitive_fields-copied : (d : Fields) → AreCopiedFields (redact_sensitive_fields d) d
      redact_sensitive_fields-copied end = tt
      redact_sensitive_fields-copied (field k v d) =
          let copied = redact_sensitive_keys-IsCopy v in
          (
            refl,
            elim (Bool-cases (is_sensitive k)) [
              | inl is ↦ rw is (inr (sensitive_open k is, refl))
              | inr other ↦ rw other (inl copied)
            ],
            redact_sensitive_fields-copied d,
          )

  abbrev EndsOpen : List String → Type 0
  EndsOpen path = (k : String) → last_key path ≡ some k → IsOpen k

  EndsOpen-rest : (key : String) (rest : List String) → EndsOpen (key ∷ rest) → EndsOpen rest
  unfolding last_key
  EndsOpen-rest key [] h k e = absurd (cc)
  EndsOpen-rest key (l ∷ rest) h k e = h k e

  mark_stays : (rest : List String) → (redact_path redacted rest).0 ≡ redacted
  unfolding redact_path
  mark_stays [] = refl
  mark_stays (l ∷ rest) = refl

  redacted_value :
      (v' v : Value) (rest : List String) (k : String)
      → (IsCopy v' v → IsCopy (redact_path v' rest).0 v)
      → IsCopy v' v ⊎ (IsOpen k × (v' ≡ redacted))
      → IsCopy (redact_path v' rest).0 v ⊎ (IsOpen k × ((redact_path v' rest).0 ≡ redacted))
  redacted_value v' v rest k below (inl copied) = inl (below copied)
  redacted_value v' v rest k below (inr (is_open, mark)) = inr (is_open, rw mark (mark_stays rest))

  masked_value :
      (k' key : String) (rest : List String) (w v : Value) (k : String)
      → EndsOpen (key ∷ rest)
      → (k' == key) ≡ true
      → k' ≡ k
      → IsCopy w v ⊎ (IsOpen k × (w ≡ redacted))
      → IsCopy (replace rest w) v ⊎ (IsOpen k × (replace rest w ≡ redacted))
  unfolding replace last_key
  masked_value k' key [] w v k opens is same below =
      inr (subst IsOpen (sym ((eq_iff k' key).0 is) ∙ same) (opens key refl), refl)
  masked_value k' key (l ∷ rest) w v k opens is same below = below

  mutual
    unfolding IsCopy redact_path

    pub redact_path-IsCopy :
        (v' v : Value) (path : List String)
        → EndsOpen path
        → IsCopy v' v
        → IsCopy (redact_path v' path).0 v
    redact_path-IsCopy v' v [] opens h = h
    redact_path-IsCopy (dict d') (dict d) (key ∷ rest) opens h =
        redact_fields-copied d' d key rest opens h
    redact_path-IsCopy (list xs') (list xs) (key ∷ rest) opens h =
        redact_items-copied xs' xs (key ∷ rest) opens h
    redact_path-IsCopy (dict d') null (key ∷ rest) opens h = absurd h
    redact_path-IsCopy (dict d') (bool b) (key ∷ rest) opens h = absurd h
    redact_path-IsCopy (dict d') (int i) (key ∷ rest) opens h = absurd h
    redact_path-IsCopy (dict d') (float x) (key ∷ rest) opens h = absurd h
    redact_path-IsCopy (dict d') (str s) (key ∷ rest) opens h = absurd h
    redact_path-IsCopy (dict d') (list xs) (key ∷ rest) opens h = absurd h
    redact_path-IsCopy (list xs') null (key ∷ rest) opens h = absurd h
    redact_path-IsCopy (list xs') (bool b) (key ∷ rest) opens h = absurd h
    redact_path-IsCopy (list xs') (int i) (key ∷ rest) opens h = absurd h
    redact_path-IsCopy (list xs') (float x) (key ∷ rest) opens h = absurd h
    redact_path-IsCopy (list xs') (str s) (key ∷ rest) opens h = absurd h
    redact_path-IsCopy (list xs') (dict d) (key ∷ rest) opens h = absurd h
    redact_path-IsCopy null v (key ∷ rest) opens h = h
    redact_path-IsCopy (bool b) v (key ∷ rest) opens h = h
    redact_path-IsCopy (int i) v (key ∷ rest) opens h = h
    redact_path-IsCopy (float x) v (key ∷ rest) opens h = h
    redact_path-IsCopy (str s) v (key ∷ rest) opens h = h

    redact_items-copied :
        (xs' xs : Items) (path : List String)
        → EndsOpen path
        → AreCopiedItems xs' xs
        → AreCopiedItems (redact_items xs' path).0 xs
    redact_items-copied nil nil path opens h = tt
    redact_items-copied nil (cons x xs) path opens h = absurd h
    redact_items-copied (cons x' xs') nil path opens h = absurd h
    redact_items-copied (cons x' xs') (cons x xs) path opens h =
        (redact_path-IsCopy x' x path opens h.0, redact_items-copied xs' xs path opens h.1)

    redact_fields-copied :
        (d' d : Fields) (key : String) (rest : List String)
        → EndsOpen (key ∷ rest)
        → AreCopiedFields d' d
        → AreCopiedFields (redact_fields d' key rest).0 d
    redact_fields-copied end end key rest opens h = tt
    redact_fields-copied end (field k v d) key rest opens h = absurd h
    redact_fields-copied (field k' v' d') end key rest opens h = absurd h
    redact_fields-copied (field k' v' d') (field k v d) key rest opens (same, value, h) =
        let later = redact_fields-copied d' d key rest opens h in
        let below =
          redacted_value v' v rest k (redact_path-IsCopy v' v rest (EndsOpen-rest key rest opens))
            value in
        elim (Bool-cases (k' == key)) [
          | inl is ↦ rw is (same, masked_value k' key rest _ v k opens is same below, h)
          | inr other ↦ rw other (same, value, later)
        ]

  redact_configured-IsCopy :
      (v' v : Value) (paths : List String)
      → All (λ raw. EndsOpen (normalize_path raw)) paths
      → IsCopy v' v
      → IsCopy (redact_configured v' paths).0 v
  unfolding redact_configured
  redact_configured-IsCopy v' v [] opens h = h
  redact_configured-IsCopy v' v (raw ∷ paths) (opens, rest) h =
      redact_configured-IsCopy (redact_path v' (normalize_path raw)).0 v paths rest
        (redact_path-IsCopy v' v (normalize_path raw) opens h)

-- A key that is sensitive, or the last of a configured path.
abbrev pub IsEnd : List String → String → Type 0
IsEnd [] k = ⊥
IsEnd (raw ∷ paths) k = (last_key (normalize_path raw) ≡ some k) ⊎ IsEnd paths k

abbrev pub IsMaskable : List String → String → Type 0
IsMaskable paths k = (is_sensitive k ≡ true) ⊎ IsEnd paths k

ends_open :
    (all paths : List String)
    → ((k : String) → IsEnd paths k → IsMaskable all k)
    → All (λ raw. EndsOpen (IsMaskable all) (normalize_path raw)) paths
ends_open all [] h = tt
ends_open all (raw ∷ paths) h = (λ k e. h k (inl e), ends_open all paths (λ k e. h k (inr e)))

pub redact_payload-IsCopy :
    (payload : Value) (paths : List String)
    → IsCopy (IsMaskable paths) (redact_payload payload paths).0 payload
unfolding redact_payload
redact_payload-IsCopy payload paths =
    redact_configured-IsCopy (IsMaskable paths) (redact_sensitive_keys payload) payload paths
      (ends_open paths paths (λ k e. inr e))
      (redact_sensitive_keys-IsCopy (IsMaskable paths) (λ k is. inl is) payload)
