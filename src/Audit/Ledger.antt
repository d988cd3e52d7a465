-- ===== src/Audit/Ledger.antt =====
-- The hash-chained audit ledger of src/bpg/audit/postgres.py: rows, their hashes, and the check of a
-- chain. `sha256_json` is the digest of the canonical JSON text of a value, `hmac_sha256` the keyed
-- one, and `timestamp_for_hash` the respelling of a timestamp by `datetime`.
pub mod Verify
pub mod Store
pub mod Checkpoints
pub mod Retention
mod Examples
use Prim.Native.String.{◌++◌ as append}
use bpg.Common.{
  ℕ, zero, suc, ◌+◌, String, Bool, true, false, Option, none, some, List, [], ◌∷◌, ◌==◌,
  if◌then◌else◌, leb, ltb,
}
use bpg.Common.Int.{pos}
use mathlib.Core.Option
use bpg.Value.{Value, Fields, null, int, str, dict, end, field}
use bpg.Audit.Event.{BpgEvent}
use bpg.Audit.Policy.{
  AuditPolicyConfig, or_else, payload_or_empty, apply_audit_policy, audit_payload_for_event,
  enrich_audit_payload_with_correlation,
}

pub record AuditRecord : Type 0 where
  pub sequence_id : ℕ
  pub chain_scope : String
  pub chain_id : String
  pub event_id : String
  pub event_type : String
  pub occurred_at : String
  pub run_id : String
  pub process_name : String
  pub process_version : Option String
  pub process_hash : Option String
  pub node_id : Option String
  pub node_type : Option String
  pub actor_id : Option String
  pub actor_type : Option String
  pub policy_id : Option String
  pub correlation_id : Option String
  pub external_ref : Option String
  pub trace_id : Option String
  pub span_id : Option String
  pub payload : Fields
  pub payload_sha256 : String
  pub previous_hash : Option String
  pub event_hash : String

pub record AuditChainCheckpoint : Type 0 where
  pub checkpoint_id : Option ℕ
  pub created_at : Option String
  pub scope : String
  pub last_sequence_id : ℕ
  pub chain_head_hash : String
  pub anchored_ref : Option String
  pub signature : Option String

pub record AuditChainVerification : Type 0 where
  pub is_ok : Bool
  pub checked : ℕ
  pub chain_scope : Option String
  pub chain_id : Option String
  pub first_mismatch_sequence_id : Option ℕ
  pub expected_hash : Option String
  pub actual_hash : Option String
  pub message : String
  pub checkpoint_id : Option ℕ
  pub anchor_verified : Option Bool
  pub anchor_message : Option String

abbrev pub text_or_null : Option String → Value
text_or_null none = null
text_or_null (some s) = str s

-- The dictionary that `compute_audit_event_hash` digests.
pub hash_fields : AuditRecord → Fields
hash_fields r = field "previous_hash" (text_or_null r.previous_hash) (
    field "chain_scope" (str r.chain_scope) (
      field "chain_id" (str r.chain_id) (
        field "sequence_id" (int (pos r.sequence_id)) (
          field "event_id" (str r.event_id) (
            field "event_type" (str r.event_type) (
              field "occurred_at" (str r.occurred_at) (
                field "run_id" (str r.run_id) (
                  field "process_name" (str r.process_name) (
                    field "process_version" (text_or_null r.process_version) (
                      field "process_hash" (text_or_null r.process_hash) (
                        field "node_id" (text_or_null r.node_id) (
                          field "node_type" (text_or_null r.node_type) (
                            field "actor_id" (text_or_null r.actor_id) (
                              field "policy_id" (text_or_null r.policy_id) (
                                field "correlation_id" (text_or_null r.correlation_id) (
                                  field "external_ref" (text_or_null r.external_ref) (
                                    field "trace_id" (text_or_null r.trace_id) (
                                      field "span_id" (text_or_null r.span_id) (
                                        field "payload_sha256" (str r.payload_sha256)
                                          end)))))))))))))))))))

-- `sorted(rows, key=sequence_id)`, which keeps rows of one number in their order
insert_row : AuditRecord → List AuditRecord → List AuditRecord
insert_row r [] = r ∷ []
insert_row r (s ∷ rows) =
    if leb r.sequence_id s.sequence_id then r ∷ s ∷ rows else s ∷ insert_row r rows

pub sort_rows : List AuditRecord → List AuditRecord
unfolding insert_row
sort_rows [] = []
sort_rows (r ∷ rows) = insert_row r (sort_rows rows)

-- The rows behind a checkpoint.
pub rows_after : ℕ → List AuditRecord → List AuditRecord
rows_after n [] = []
rows_after n (r ∷ rows) =
    let rest = rows_after n rows in if ltb n r.sequence_id then r ∷ rest else rest

module _ (sha256_json : Value → String) where
  -- `compute_audit_event_hash`
  pub compute_audit_event_hash : AuditRecord → String
  unfolding hash_fields
  compute_audit_event_hash r = sha256_json (dict (hash_fields r))

  payload_for_audit : BpgEvent → Option AuditPolicyConfig → Fields
  payload_for_audit event none =
      enrich_audit_payload_with_correlation (payload_or_empty event) event
  payload_for_audit event (some policy) =
      enrich_audit_payload_with_correlation (audit_payload_for_event sha256_json event policy) event

  apply_policy : BpgEvent → Option AuditPolicyConfig → BpgEvent
  apply_policy event none = event
  apply_policy event (some policy) = apply_audit_policy sha256_json event policy

  unsealed :
      (timestamp_for_hash : String → String)
      → BpgEvent
      → Fields
      → ℕ
      → Option String
      → String
      → Option String
      → AuditRecord
  unsealed timestamp_for_hash e payload sequence_id previous_hash chain_scope chain_id = record {
    sequence_id = sequence_id;
    chain_scope = chain_scope;
    chain_id = or_else chain_id e.run_id;
    event_id = e.event_id;
    event_type = e.event_type;
    occurred_at = timestamp_for_hash e.occurred_at;
    run_id = e.run_id;
    process_name = e.process_name;
    process_version = some e.process_version;
    process_hash = some e.process_hash;
    node_id = e.node_id;
    node_type = e.node_type;
    actor_id = e.actor_id;
    actor_type = e.actor_type;
    policy_id = e.policy_id;
    correlation_id = e.correlation_id;
    external_ref = e.external_ref;
    trace_id = e.trace_id;
    span_id = e.span_id;
    payload = payload;
    payload_sha256 = sha256_json (dict payload);
    previous_hash = previous_hash;
    event_hash = "";
  }

  seal : AuditRecord → AuditRecord
  seal r = record r { event_hash = compute_audit_event_hash r }

  -- `build_audit_record`
  pub build_audit_record :
      (timestamp_for_hash : String → String)
      → BpgEvent
      → ℕ
      → Option String
      → String
      → Option String
      → Option AuditPolicyConfig
      → AuditRecord
  unfolding apply_policy payload_for_audit unsealed seal compute_audit_event_hash
  build_audit_record timestamp_for_hash event sequence_id previous_hash chain_scope chain_id
        policy =
      let e = apply_policy event policy in
      seal (
        unsealed timestamp_for_hash e (payload_for_audit e policy) sequence_id previous_hash
          chain_scope chain_id)
