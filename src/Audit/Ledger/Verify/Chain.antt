-- ===== src/Audit/Ledger/Verify/Chain.antt =====
-- What it means that a list of rows is a chain, and that the check of a chain decides it.
use bpg.Common.{
  ℕ, ◌+◌, String, ◌≡◌, refl, ◌↔◌, true, Option, none, some, List, [], ◌∷◌, ◌++◌, ◌==◌, eq_iff,
  arith,
}
use bpg.Value.{Value, dict}
use bpg.Audit.Ledger.{AuditRecord, AuditChainVerification, compute_audit_event_hash}
use bpg.Audit.Ledger.Verify.{same_option, Heading, check_rows}

pub same_option_iff : (a b : Option String) → (same_option a b ≡ true) ↔ (a ≡ b)
unfolding same_option
same_option_iff none none = ground arith
same_option_iff none (some b) = ground arith
same_option_iff (some a) none = ground arith
same_option_iff (some a) (some b) = ground (arith, eq_iff a b)

module _ (sha256_json : Value → String) (scope id : String) where
  -- A row that belongs to the chain, behind `previous`, with digests that fit its contents.
  pub record IsGenuine (previous : Option String) (row : AuditRecord) : Type 0 where
    pub scope_fits : row.chain_scope ≡ scope
    pub id_fits : row.chain_id ≡ id
    pub linked : row.previous_hash ≡ previous
    pub payload_fits : row.payload_sha256 ≡ sha256_json (dict row.payload)
    pub sealed : row.event_hash ≡ compute_audit_event_hash sha256_json row

  abbrev pub IsChain : Option String → List AuditRecord → Type 0
  IsChain previous [] = Unit
  IsChain previous (row ∷ rows) = IsGenuine previous row × IsChain (some row.event_hash) rows

  abbrev pub head_hash : Option String → List AuditRecord → Option String
  head_hash previous [] = previous
  head_hash previous (row ∷ rows) = head_hash (some row.event_hash) rows

  pub IsChain-snoc :
      (previous : Option String) (rows : List AuditRecord) (row : AuditRecord)
      → IsChain previous rows
      → IsGenuine (head_hash previous rows) row
      → IsChain previous (rows ++ row ∷ [])
  IsChain-snoc previous [] row h g = (g, tt)
  IsChain-snoc previous (r ∷ rows) row h g = (h.0, IsChain-snoc (some r.event_hash) rows row h.1 g)

  module _ (checkpoint : Option ℕ) (final : AuditChainVerification) where
    abbrev heading : Heading
    heading = record { scope = scope; id = id; checkpoint = checkpoint }

    pub check_rows_chain :
        (done : ℕ) (previous : Option String) (rows : List AuditRecord)
        → IsChain previous rows
        → check_rows sha256_json heading final done previous rows ≡ final
    unfolding check_rows
    check_rows_chain done previous [] h = refl
    check_rows_chain done previous (row ∷ rows) (g, h) =
        rw
          (
            (eq_iff row.chain_scope scope).1 g.scope_fits,
            (eq_iff row.chain_id id).1 g.id_fits,
            (same_option_iff row.previous_hash previous).1 g.linked,
            (eq_iff row.payload_sha256 (sha256_json (dict row.payload))).1 g.payload_fits,
            (eq_iff row.event_hash (compute_audit_event_hash sha256_json row)).1 g.sealed,
          )
          (check_rows_chain (done + 1) (some row.event_hash) rows h)

    row_passed :
        (done : ℕ) (previous : Option String) (row : AuditRecord) (rows : List AuditRecord)
        → (check_rows sha256_json heading final done previous (row ∷ rows)).is_ok ≡ true
        → ((row.chain_scope == scope) ≡ true)
          × ((row.chain_id == id) ≡ true)
          × (same_option row.previous_hash previous ≡ true)
          × ((row.payload_sha256 == sha256_json (dict row.payload)) ≡ true)
          × ((row.event_hash == compute_audit_event_hash sha256_json row) ≡ true)
          × ((check_rows sha256_json heading final (done + 1) (some row.event_hash) rows).is_ok
              ≡ true)
    unfolding check_rows
    row_passed done previous row rows h =
        (ground arith, ground arith, ground arith, ground arith, ground arith, ground arith)

    pub IsChain-of_check_rows :
        (done : ℕ) (previous : Option String) (rows : List AuditRecord)
        → (check_rows sha256_json heading final done previous rows).is_ok ≡ true
        → IsChain previous rows
    unfolding check_rows
    IsChain-of_check_rows done previous [] h = tt
    IsChain-of_check_rows done previous (row ∷ rows) h =
        let passed = row_passed done previous row rows h in
        (
          record {
            scope_fits = (eq_iff row.chain_scope scope).0 passed.0;
            id_fits = (eq_iff row.chain_id id).0 passed.1;
            linked = (same_option_iff row.previous_hash previous).0 passed.2;
            payload_fits = (eq_iff row.payload_sha256 (sha256_json (dict row.payload))).0 passed.3;
            sealed = (eq_iff row.event_hash (compute_audit_event_hash sha256_json row)).0 passed.4;
          },
          IsChain-of_check_rows (done + 1) (some row.event_hash) rows passed.5,
        )
