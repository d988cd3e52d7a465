-- ===== src/Audit/Ledger/Verify/Decides.antt =====
-- The outcome of `verify_audit_chain`, from the first row and from a checkpoint.
use bpg.Common.{
  String, ◌≡◌, refl, ◌↔◌, Bool, true, false, not, ◌&&◌, Option, none, some, List, [], ◌∷◌,
  Bool-cases, inl, inr,
}
use bpg.Value.{Value}
use bpg.Audit.Ledger.{
  AuditRecord, AuditChainCheckpoint, AuditChainVerification, sort_rows, rows_after,
}
use bpg.Audit.Ledger.Verify.{
  is_present, verify_checkpoint_signature, verify_sorted, verify_audit_chain,
}
use bpg.Audit.Ledger.Verify.Chain.{IsChain, check_rows_chain, IsChain-of_check_rows}

module _ (sha256_json : Value → String) where
  -- The rows form one chain of the first row's scope and id, from an absent hash.
  abbrev pub IsWhole : List AuditRecord → Type 0
  IsWhole [] = Unit
  IsWhole (r ∷ rows) = IsChain sha256_json r.chain_scope r.chain_id none (r ∷ rows)

  module _ (hmac_sha256 : String → Value → String) (require_anchor : Bool)
      (key : Option String) where
    abbrev verify : List AuditRecord → Option AuditChainCheckpoint → AuditChainVerification
    verify rows c = verify_audit_chain sha256_json hmac_sha256 rows c require_anchor key

    genesis_iff :
        (rows : List AuditRecord)
        → ((verify_sorted sha256_json hmac_sha256 rows none require_anchor key).is_ok ≡ true)
          ↔ IsWhole rows
    unfolding verify_sorted
    genesis_iff [] = ((λ _. tt), (λ _. refl))
    genesis_iff (r ∷ rows) = (
      IsChain-of_check_rows sha256_json r.chain_scope r.chain_id none _ 0 none (r ∷ rows),
      λ h. rw (check_rows_chain sha256_json r.chain_scope r.chain_id none _ 0 none (r ∷ rows) h),
    )

    -- Without a checkpoint the check succeeds exactly when the rows, in the order of their numbers, are
    -- one chain of a single scope and id: each row names the hash of the row before it, the first none,
    -- and both of its digests fit its contents.
    pub verify_audit_chain_iff :
        (rows : List AuditRecord) → ((verify rows none).is_ok ≡ true) ↔ IsWhole (sort_rows rows)
    unfolding verify_audit_chain
    verify_audit_chain_iff rows = genesis_iff (sort_rows rows)

    -- The checkpoint's signature fits, an anchor is there if one is required, and the rows behind the
    -- checkpoint continue its hash in the first row's scope and id. With no rows nothing is asked.
    abbrev pub IsContinued : AuditChainCheckpoint → List AuditRecord → Type 0
    IsContinued c [] = Unit
    IsContinued c (r ∷ rows) =
        (verify_checkpoint_signature hmac_sha256 c key ≡ true)
        × ((require_anchor && not (is_present c.anchored_ref)) ≡ false)
        × IsChain sha256_json r.chain_scope r.chain_id (some c.chain_head_hash)
            (rows_after c.last_sequence_id (r ∷ rows))

    module _ (c : AuditChainCheckpoint) (r : AuditRecord) (rows : List AuditRecord) where
      abbrev later : List AuditRecord
      later = rows_after c.last_sequence_id (r ∷ rows)

      accepted :
          (verify_sorted sha256_json hmac_sha256 (r ∷ rows) (some c) require_anchor key).is_ok
            ≡ true
          → IsContinued c (r ∷ rows)
      unfolding verify_sorted
      accepted h = elim (Bool-cases (verify_checkpoint_signature hmac_sha256 c key)) [
        | inl signed ↦ elim (Bool-cases (require_anchor && not (is_present c.anchored_ref))) [
          | inl lacking ↦ absurd (cc (rw (signed, lacking) at h))
          | inr anchored ↦ (
            signed,
            anchored,
            IsChain-of_check_rows sha256_json r.chain_scope r.chain_id c.checkpoint_id _ 0
                (some c.chain_head_hash) later (rw (signed, anchored) at h),
          )
        ]
        | inr unsigned ↦ absurd (cc (rw unsigned at h))
      ]

    IsContinued-iff :
        (c : AuditChainCheckpoint) (rows : List AuditRecord)
        → ((verify_sorted sha256_json hmac_sha256 rows (some c) require_anchor key).is_ok ≡ true)
          ↔ IsContinued c rows
    unfolding verify_sorted
    IsContinued-iff c [] = ((λ _. tt), (λ _. refl))
    IsContinued-iff c (r ∷ rows) = (
      accepted c r rows,
      λ (signed, anchored, h).
          rw (signed, anchored)
            (rw (
              check_rows_chain sha256_json r.chain_scope r.chain_id c.checkpoint_id _ 0 _
                (later c r rows) h)),
    )

    -- With a checkpoint the check succeeds exactly when there are no rows, or the checkpoint's
    -- signature fits, its anchor is there if one is required, and the rows with later numbers continue
    -- its hash in one chain, of the scope and the id of the first of all the rows.
    pub verify_audit_chain_checkpoint_iff :
        (c : AuditChainCheckpoint) (rows : List AuditRecord)
        → ((verify rows (some c)).is_ok ≡ true) ↔ IsContinued c (sort_rows rows)
    unfolding verify_audit_chain
    verify_audit_chain_checkpoint_iff c rows = IsContinued-iff c (sort_rows rows)
