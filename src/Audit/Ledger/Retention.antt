-- ===== src/Audit/Ledger/Retention.antt =====
-- What a row of the ledger holds of the payload of its event.
use bpg.Common.{String, ◌≡◌, Option, some, List}
use bpg.Value.{Value, get_field}
use bpg.Audit.Event.{BpgEvent}
use bpg.Audit.Policy.{
  AuditPolicyConfig, PayloadRetention, hash_only, only_redacted, full, apply_audit_policy,
}
use bpg.Audit.Policy.Kept.{apply_audit_policy-payload}
use bpg.Audit.Policy.Retention.{IsRetained, audit_payload-IsRetained}
use bpg.Audit.Ledger.{build_audit_record}
use bpg.Common.{ℕ}

IsRetained-same :
    (retention : PayloadRetention) (event event' : BpgEvent) (paths : List String)
    (stored : Option Value)
    → event'.payload ≡ event.payload
    → IsRetained retention event' paths stored
    → IsRetained retention event paths stored
IsRetained-same hash_only event event' paths stored e h = h
IsRetained-same only_redacted event event' paths stored e h = rw (← e) h
IsRetained-same full event event' paths stored e h = rw (← e) h

module _ (sha256_json : Value → String) (timestamp_for_hash : String → String) where
  -- Of the payload of its event, the row that is built under a policy stores under `event_payload`
  -- nothing when the policy keeps hashes only, the whole payload when it keeps all, and otherwise a
  -- copy: with the same keys, items and values but for the redaction mark, which stands only under
  -- sensitive keys and under the last keys of configured paths, and which every sensitive key, at any
  -- depth, and everything that a configured path reaches do hold.
  pub build_audit_record-IsRetained :
      (event : BpgEvent) (sequence_id : ℕ) (previous_hash : Option String) (scope : String)
      (id : Option String) (policy : AuditPolicyConfig)
      → IsRetained policy.payload_retention event policy.redacted_field_paths (
          get_field "event_payload"
            (build_audit_record sha256_json timestamp_for_hash event sequence_id previous_hash scope
              id
              (some policy)).payload)
  unfolding build_audit_record
  build_audit_record-IsRetained event sequence_id previous_hash scope id policy =
      let audited = apply_audit_policy sha256_json event policy in
      IsRetained-same policy.payload_retention event audited policy.redacted_field_paths _
        (apply_audit_policy-payload sha256_json event policy)
        (audit_payload-IsRetained sha256_json audited policy audited)
