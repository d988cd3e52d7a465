-- ===== src/Audit/Ledger/Verify/Tamper.antt =====
-- What a verified chain protects, and what it does not.
use bpg.Common.{
  String, ◌≡◌, refl, sym, ◌∙◌, ap, Bool, true, Option, none, some, List, [], ◌∷◌, map, All, All-map,
  onto, All-onto, map-onto, onto_cancel,
}
use bpg.Value.{Value, Fields, dict, get_field}
use bpg.Audit.Ledger.{AuditRecord, text_or_null, sort_rows, hash_fields, compute_audit_event_hash}
use bpg.Audit.Ledger.Verify.{verify_audit_chain}
use bpg.Audit.Ledger.Verify.Chain.{IsGenuine, IsChain, head_hash}
use bpg.Audit.Ledger.Verify.Decides.{IsWhole, verify_audit_chain_iff}

module _ (sha256_json : Value → String) where
  -- The digest tells the two rows apart, and their payloads, unless they are the same.
  pub record IsCollisionFree (a b : AuditRecord) : Type 0 where
    pub rows_differ :
        sha256_json (dict (hash_fields a)) ≡ sha256_json (dict (hash_fields b))
        → hash_fields a ≡ hash_fields b
    pub payloads_differ :
        sha256_json (dict a.payload) ≡ sha256_json (dict b.payload) → a.payload ≡ b.payload

  -- What the digests of a row cover.
  abbrev pub content : AuditRecord → Fields × Fields
  content r = (hash_fields r, r.payload)

  -- A chain with its last row first.
  abbrev newest : List AuditRecord → Option String
  newest [] = none
  newest (r ∷ older) = some r.event_hash

  abbrev IsBackChain : String → String → List AuditRecord → Type 0
  IsBackChain scope id [] = Unit
  IsBackChain scope id (r ∷ older) =
      IsGenuine sha256_json scope id (newest older) r × IsBackChain scope id older

  IsBackChain-onto :
      (scope id : String) (rows older : List AuditRecord)
      → IsChain sha256_json scope id (newest older) rows
      → IsBackChain scope id older
      → IsBackChain scope id (onto rows older)
  IsBackChain-onto scope id [] older h k = k
  IsBackChain-onto scope id (r ∷ rows) older h k =
      IsBackChain-onto scope id rows (r ∷ older) h.1 (h.0, k)

  newest-onto :
      (scope id : String) (rows older : List AuditRecord)
      → newest (onto rows older) ≡ head_hash sha256_json scope id (newest older) rows
  newest-onto scope id [] older = refl
  newest-onto scope id (r ∷ rows) older = newest-onto scope id rows (r ∷ older)

  hash_fields_parts :
      (a b : AuditRecord)
      → hash_fields a ≡ hash_fields b
      → (a.previous_hash ≡ b.previous_hash) × (a.payload_sha256 ≡ b.payload_sha256)
  unfolding hash_fields get_field
  hash_fields_parts a b e =
      (previous a.previous_hash b.previous_hash (cc (at "previous_hash")), cc (at "payload_sha256"))
    where
      at : (k : String) → get_field k (hash_fields a) ≡ get_field k (hash_fields b)
      at k = ap (get_field k) e

      previous : (p q : Option String) → text_or_null p ≡ text_or_null q → p ≡ q
      previous none none h = refl
      previous none (some q) h = cc
      previous (some p) none h = cc
      previous (some p) (some q) h = cc

  same_row :
      (scope id scope' id' : String) (p q : Option String) (a b : AuditRecord)
      → IsGenuine sha256_json scope id p a
      → IsGenuine sha256_json scope' id' q b
      → IsCollisionFree a b
      → a.event_hash ≡ b.event_hash
      → (content a ≡ content b) × (p ≡ q)
  unfolding compute_audit_event_hash
  same_row scope id scope' id' p q a b g h free e =
      let same : hash_fields a ≡ hash_fields b = free.rows_differ (sym g.sealed ∙ e ∙ h.sealed) in
      let (previous, digest) = hash_fields_parts a b same in
      let payloads : a.payload ≡ b.payload =
        free.payloads_differ (sym g.payload_fits ∙ digest ∙ h.payload_fits) in
      (cc, sym g.linked ∙ previous ∙ h.linked)

  same_content :
      (scope id scope' id' : String) (rows rows' : List AuditRecord)
      → IsBackChain scope id rows
      → IsBackChain scope' id' rows'
      → newest rows ≡ newest rows'
      → All (λ a. All (λ b. IsCollisionFree a b) rows') rows
      → map content rows ≡ map content rows'
  same_content scope id scope' id' [] [] h h' e free = refl
  same_content scope id scope' id' [] (b ∷ older') h h' e free = cc
  same_content scope id scope' id' (a ∷ older) [] h h' e free = cc
  same_content scope id scope' id' (a ∷ older) (b ∷ older') h h' e free =
      let (same, before) =
        same_row scope id scope' id' (newest older) (newest older') a b h.0 h'.0 free.0.0 (cc) in
      let rest =
        same_content scope id scope' id' older older' h.1 h'.1 before
          (All-map (λ _ f. f.1) older free.1) in
      cc

  IsWhole→IsBackChain :
      (rows : List AuditRecord)
      → IsWhole sha256_json rows
      → (scope : String) × (id : String) × IsBackChain scope id (onto rows [])
  IsWhole→IsBackChain [] h = ("", "", tt)
  IsWhole→IsBackChain (r ∷ rows) h =
      (r.chain_scope, r.chain_id, IsBackChain-onto r.chain_scope r.chain_id (r ∷ rows) [] h tt)

  free_onto :
      (rows rows' : List AuditRecord)
      → All (λ a. All (λ b. IsCollisionFree a b) rows') rows
      → All (λ a. All (λ b. IsCollisionFree a b) (onto rows' [])) (onto rows [])
  free_onto rows rows' free =
      All-onto _ rows [] (All-map (λ a f. All-onto (IsCollisionFree a) rows' [] f tt) rows free) tt

  reversed_back :
      (rows rows' : List AuditRecord)
      → map content (onto rows []) ≡ map content (onto rows' [])
      → map content rows ≡ map content rows'
  reversed_back rows rows' e =
      onto_cancel _ _ (sym (map-onto content rows []) ∙ e ∙ map-onto content rows' [])

  -- The event hash of the last row, `none` for no rows.
  abbrev pub last_hash : List AuditRecord → Option String
  last_hash rows = newest (onto rows [])

  module _ (hmac_sha256 : String → Value → String) (require_anchor : Bool)
      (key : Option String) where
    abbrev Passes : List AuditRecord → Type 0
    Passes rows =
        (verify_audit_chain sha256_json hmac_sha256 rows none require_anchor key).is_ok ≡ true

    -- Two sets of rows that both pass the check from the first row and end in the same event hash have
    -- the same hashed fields and the same payloads, row by row, unless the digest collides on two of
    -- their rows: below a known head hash no hashed field and no payload can be changed, and no row
    -- dropped, added or moved.
    pub head_hash_determines_rows :
        (rows rows' : List AuditRecord)
        → Passes rows
        → Passes rows'
        → last_hash (sort_rows rows) ≡ last_hash (sort_rows rows')
        → All (λ a. All (λ b. IsCollisionFree a b) (sort_rows rows')) (sort_rows rows)
        → map content (sort_rows rows) ≡ map content (sort_rows rows')
    head_hash_determines_rows rows rows' ok ok' e free =
        let (scope, id, h) =
          IsWhole→IsBackChain (sort_rows rows)
            ((verify_audit_chain_iff sha256_json hmac_sha256 require_anchor key rows).0 ok) in
        let (scope', id', h') =
          IsWhole→IsBackChain (sort_rows rows')
            ((verify_audit_chain_iff sha256_json hmac_sha256 require_anchor key rows').0 ok') in
        reversed_back (sort_rows rows) (sort_rows rows') (
          same_content scope id scope' id' _ _ h h' e
            (free_onto (sort_rows rows) (sort_rows rows') free))
