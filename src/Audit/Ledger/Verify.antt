-- ===== src/Audit/Ledger/Verify.antt =====
-- `verify_audit_chain` of src/bpg/audit/postgres.py and the signatures of checkpoints.
pub mod Chain
pub mod Decides
pub mod Tamper
pub mod Signing
pub mod Unprotected
mod Examples
use Prim.Native.String.{◌++◌ as append}
use bpg.Common.{
  ℕ, zero, suc, ◌+◌, ◌-◌, String, Bool, true, false, not, ◌&&◌, ◌||◌, Option, none, some, List, [],
  ◌∷◌, ◌==◌, if◌then◌else◌, length,
}
use bpg.Common.Int.{pos}
use bpg.Value.{Value, Fields, int, str, dict, end, field}
use bpg.Audit.Ledger.{
  AuditRecord, AuditChainCheckpoint, AuditChainVerification, compute_audit_event_hash, sort_rows,
  rows_after,
}

pub same_option : Option String → Option String → Bool
same_option none none = true
same_option (some a) (some b) = a == b
same_option _ _ = false

-- `if not ref`
pub is_present : Option String → Bool
is_present none = false
is_present (some s) = not (s == "")

-- `checkpoint_material`
pub checkpoint_material : AuditChainCheckpoint → Fields
checkpoint_material c = field "scope" (str c.scope) (
    field "last_sequence_id" (int (pos c.last_sequence_id))
      (field "chain_head_hash" (str c.chain_head_hash) end))

present_text : Option String → String
present_text none = ""
present_text (some s) = s

module _ (hmac_sha256 : String → Value → String) where
  -- `sign_checkpoint`: no key, or an empty one, signs nothing.
  pub sign_checkpoint : AuditChainCheckpoint → Option String → Option String
  unfolding checkpoint_material
  sign_checkpoint c none = none
  sign_checkpoint c (some key) =
      if key == ""
      then none
      else some (append "hmac-sha256:" (hmac_sha256 key (dict (checkpoint_material c))))

  signature_matches : AuditChainCheckpoint → Option String → Bool
  unfolding present_text
  signature_matches c none = true
  signature_matches c (some expected) = present_text c.signature == expected

  -- `verify_checkpoint_signature`
  pub verify_checkpoint_signature : AuditChainCheckpoint → Option String → Bool
  unfolding sign_checkpoint signature_matches
  verify_checkpoint_signature c key = signature_matches c (sign_checkpoint c key)

-- What the results of one call share.
pub record Heading : Type 0 where
  pub scope : String
  pub id : String
  pub checkpoint : Option ℕ

mismatch :
    Heading → ℕ → AuditRecord → Option String → Option String → String → AuditChainVerification
mismatch h done row expected actual message = record {
  is_ok = false;
  checked = done;
  chain_scope = some h.scope;
  chain_id = some h.id;
  first_mismatch_sequence_id = some row.sequence_id;
  expected_hash = expected;
  actual_hash = actual;
  message = message;
  checkpoint_id = h.checkpoint;
  anchor_verified = none;
  anchor_message = none;
}

-- A result that names no row.
verdict : Heading → Bool → ℕ → String → Option Bool → Option String → AuditChainVerification
verdict h good done message anchored note = record {
  is_ok = good;
  checked = done;
  chain_scope = some h.scope;
  chain_id = some h.id;
  first_mismatch_sequence_id = none;
  expected_hash = none;
  actual_hash = none;
  message = message;
  checkpoint_id = h.checkpoint;
  anchor_verified = anchored;
  anchor_message = note;
}

anchor_note : Bool → String
anchor_note b = if b then "anchor present" else "missing external anchor"

no_rows : AuditChainVerification
no_rows = record {
  is_ok = true;
  checked = 0;
  chain_scope = none;
  chain_id = none;
  first_mismatch_sequence_id = none;
  expected_hash = none;
  actual_hash = none;
  message = "no audit rows";
  checkpoint_id = none;
  anchor_verified = none;
  anchor_message = none;
}

module _ (sha256_json : Value → String) where
  -- The `for` loop over the rows, from the hash before them; `final` is the result of a full pass.
  pub check_rows :
      Heading
      → AuditChainVerification
      → ℕ
      → Option String
      → List AuditRecord
      → AuditChainVerification
  unfolding same_option mismatch
  check_rows h final done previous [] = final
  check_rows h final done previous (row ∷ rows) =
      let rest = check_rows h final (done + 1) (some row.event_hash) rows in
      if not (row.chain_scope == h.scope) || not (row.chain_id == h.id)
      then mismatch h done row none none "chain contains rows from multiple scopes or IDs"
      else if not (same_option row.previous_hash previous)
      then mismatch h done row previous row.previous_hash
          "previous_hash does not match prior event_hash"
      else if not (row.payload_sha256 == sha256_json (dict row.payload))
      then mismatch h done row (some (sha256_json (dict row.payload))) (some row.payload_sha256)
          "payload_sha256 mismatch"
      else if not (row.event_hash == compute_audit_event_hash sha256_json row)
      then mismatch h done row (some (compute_audit_event_hash sha256_json row))
          (some row.event_hash) "event_hash mismatch"
      else rest

  from_genesis : Heading → List AuditRecord → AuditChainVerification
  unfolding verdict
  from_genesis h rows =
      check_rows h (verdict h true (length rows) "audit chain verified" none none) 0 none rows

  behind : Heading → AuditChainCheckpoint → List AuditRecord → AuditChainVerification
  unfolding is_present verdict anchor_note
  behind h c rows =
      let anchored = is_present c.anchored_ref in
      check_rows h
        (verdict h true (length rows) "audit chain verified from checkpoint" (some anchored)
          (some (anchor_note anchored)))
        0 (some c.chain_head_hash) rows

  module _ (hmac_sha256 : String → Value → String) where
    from_checkpoint :
        Heading
        → AuditChainCheckpoint
        → (require_anchor : Bool) → Option String
        → List AuditRecord
        → AuditChainVerification
    unfolding verify_checkpoint_signature behind
    from_checkpoint h c require_anchor signing_key rows =
        if not (verify_checkpoint_signature hmac_sha256 c signing_key)
        then verdict h false 0 "checkpoint signature mismatch" none none
        else if require_anchor && not (is_present c.anchored_ref)
        then verdict h false 0 "checkpoint anchor missing" (some false)
            (some "missing external anchor")
        else behind h c (rows_after c.last_sequence_id rows)

    verify_sorted :
        List AuditRecord
        → Option AuditChainCheckpoint
        → (require_anchor : Bool) → Option String
        → AuditChainVerification
    unfolding no_rows from_genesis from_checkpoint
    verify_sorted [] checkpoint require_anchor signing_key = no_rows
    verify_sorted (r ∷ rows) none require_anchor signing_key =
        from_genesis (record { scope = r.chain_scope; id = r.chain_id; checkpoint = none })
          (r ∷ rows)
    verify_sorted (r ∷ rows) (some c) require_anchor signing_key =
        from_checkpoint
          (record { scope = r.chain_scope; id = r.chain_id; checkpoint = c.checkpoint_id }) c
          require_anchor signing_key (r ∷ rows)

    -- `verify_audit_chain`
    pub verify_audit_chain :
        List AuditRecord
        → Option AuditChainCheckpoint
        → (require_anchor : Bool) → Option String
        → AuditChainVerification
    unfolding verify_sorted
    verify_audit_chain rows checkpoint require_anchor signing_key =
        verify_sorted (sort_rows rows) checkpoint require_anchor signing_key
