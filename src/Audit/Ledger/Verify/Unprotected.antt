-- ===== src/Audit/Ledger/Verify/Unprotected.antt =====
-- The actor's type is a column of the ledger that no digest covers.
use bpg.Common.{
  ℕ, suc, ◌+◌, String, ◌≡◌, refl, ap, Bool, Option, none, some, List, [], ◌∷◌, map, leb, ltb,
  length, Bool-cases, inl, inr,
}
use bpg.Value.{Value}
use bpg.Audit.Ledger.{
  AuditRecord, AuditChainCheckpoint, AuditChainVerification, insert_row, sort_rows, rows_after,
  compute_audit_event_hash,
}
use bpg.Audit.Ledger.Verify.{Heading, check_rows, behind, verify_sorted, verify_audit_chain}

module _ (who : AuditRecord → Option String) where
  -- Another actor type in each row.
  abbrev pub relabel : AuditRecord → AuditRecord
  relabel r = record r { actor_type = who r }

  insert_row-map :
      (r : AuditRecord) (rows : List AuditRecord)
      → insert_row (relabel r) (map relabel rows) ≡ map relabel (insert_row r rows)
  unfolding insert_row
  insert_row-map r [] = refl
  insert_row-map r (s ∷ rows) = elim (Bool-cases (leb r.sequence_id s.sequence_id)) [
    | inl e ↦ rw e refl
    | inr e ↦ rw e (ap (λ l. relabel s ∷ l) (insert_row-map r rows))
  ]

  sort_rows-map :
      (rows : List AuditRecord) → sort_rows (map relabel rows) ≡ map relabel (sort_rows rows)
  unfolding sort_rows
  sort_rows-map [] = refl
  sort_rows-map (r ∷ rows) = rw (sort_rows-map rows) (insert_row-map r (sort_rows rows))

  rows_after-map :
      (n : ℕ) (rows : List AuditRecord)
      → rows_after n (map relabel rows) ≡ map relabel (rows_after n rows)
  unfolding rows_after
  rows_after-map n [] = refl
  rows_after-map n (r ∷ rows) = elim (Bool-cases (ltb n r.sequence_id)) [
    | inl e ↦ rw e (ap (λ l. relabel r ∷ l) (rows_after-map n rows))
    | inr e ↦ rw e (rows_after-map n rows)
  ]

  length-map : (rows : List AuditRecord) → length (map relabel rows) ≡ length rows
  length-map [] = refl
  length-map (r ∷ rows) = ap suc (length-map rows)

  module _ (sha256_json : Value → String) where
    check_rows-map :
        (h : Heading) (final : AuditChainVerification) (done : ℕ) (previous : Option String)
        (rows : List AuditRecord)
        → check_rows sha256_json h final done previous (map relabel rows)
          ≡ check_rows sha256_json h final done previous rows
    unfolding check_rows compute_audit_event_hash
    check_rows-map h final done previous [] = refl
    check_rows-map h final done previous (r ∷ rows) =
        rw (check_rows-map h final (done + 1) (some r.event_hash) rows) refl

    behind-map :
        (h : Heading) (c : AuditChainCheckpoint) (rows : List AuditRecord)
        → behind sha256_json h c (rows_after c.last_sequence_id (map relabel rows))
          ≡ behind sha256_json h c (rows_after c.last_sequence_id rows)
    unfolding behind
    behind-map h c rows =
        rw
          (
            rows_after-map c.last_sequence_id rows,
            length-map (rows_after c.last_sequence_id rows),
            check_rows-map h _ 0 (some c.chain_head_hash) (rows_after c.last_sequence_id rows),
          )
          refl

    module _ (hmac_sha256 : String → Value → String) where
      verify_sorted-map :
          (rows : List AuditRecord) (c : Option AuditChainCheckpoint) (require_anchor : Bool)
          (key : Option String)
          → verify_sorted sha256_json hmac_sha256 (map relabel rows) c require_anchor key
            ≡ verify_sorted sha256_json hmac_sha256 rows c require_anchor key
      unfolding verify_sorted
      verify_sorted-map [] c require_anchor key = refl
      verify_sorted-map (r ∷ rows) none require_anchor key =
          rw (length-map rows, check_rows-map _ _ 0 none (r ∷ rows)) refl
      verify_sorted-map (r ∷ rows) (some c) require_anchor key =
          rw
            (behind-map
              (record { scope = r.chain_scope; id = r.chain_id; checkpoint = c.checkpoint_id }) c
              (r ∷ rows))
            refl

      -- Whatever actor types are written over those of the rows, the result of the check is the same: a
      -- changed `actor_type` is not detected.
      pub verify_audit_chain_ignores_actor_type :
          (rows : List AuditRecord) (c : Option AuditChainCheckpoint) (require_anchor : Bool)
          (key : Option String)
          → verify_audit_chain sha256_json hmac_sha256 (map relabel rows) c require_anchor key
            ≡ verify_audit_chain sha256_json hmac_sha256 rows c require_anchor key
      unfolding verify_audit_chain
      verify_audit_chain_ignores_actor_type rows c require_anchor key =
          rw sort_rows-map (verify_sorted-map (sort_rows rows) c require_anchor key)
