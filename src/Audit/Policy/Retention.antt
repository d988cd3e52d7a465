-- ===== src/Audit/Policy/Retention.antt =====
-- What an audit payload holds of the payload of its event, by the `payload_retention` of the policy.
use bpg.Common.{String, ◌≡◌, refl, Option, none, some, List, All}
use bpg.Value.{Value, Fields, dict, end, field, get_field, get_field-put_field}
use bpg.Audit.Event.{BpgEvent}
use bpg.Audit.Redaction.{redact_payload, normalize_path}
use bpg.Audit.Redaction.Sensitive.{IsHidden, redact_payload-IsHidden}
use bpg.Audit.Redaction.Paths.{Masks, redact_payload-Masks}
use bpg.Audit.Redaction.Copies.{IsCopy, IsMaskable, redact_payload-IsCopy}
use bpg.Audit.Policy.{
  AuditPolicyConfig, PayloadRetention, hash_only, only_redacted, full, payload_or_empty,
  stored_part, audit_payload_for_event, attach, correlation_context_for_event,
  enrich_audit_payload_with_correlation,
}

-- Nothing of it, a masked copy, or the whole. The copy differs from the payload only by the mark under
-- sensitive keys and under last keys of configured paths; every sensitive key and everything that a
-- configured path reaches holds the mark.
abbrev pub IsRetained : PayloadRetention → BpgEvent → List String → Option Value → Type 0
IsRetained hash_only event paths stored = stored ≡ none
IsRetained only_redacted event paths stored =
    (masked : Value) × (stored ≡ some masked)
    × IsCopy (IsMaskable paths) masked (dict (payload_or_empty event))
    × IsHidden masked
    × All (λ raw. Masks masked (normalize_path raw)) paths
IsRetained full event paths stored = stored ≡ some (dict (payload_or_empty event))

attach_elsewhere :
    (payload context : Fields)
    → get_field "event_payload" (attach payload context) ≡ get_field "event_payload" payload
unfolding attach
attach_elsewhere payload end = refl
attach_elsewhere payload (field k v d) =
    get_field-put_field "_correlation" "event_payload" (dict (field k v d)) payload

stored_part-IsRetained :
    (retention : PayloadRetention) (event : BpgEvent) (paths : List String)
    → IsRetained retention event paths (
        get_field "event_payload" (
          stored_part retention
            (dict (payload_or_empty event))
            (redact_payload (dict (payload_or_empty event)) paths).0))
unfolding stored_part get_field
stored_part-IsRetained hash_only event paths = refl
stored_part-IsRetained only_redacted event paths =
    let original = dict (payload_or_empty event) in
    (
      (redact_payload original paths).0,
      refl,
      redact_payload-IsCopy original paths,
      redact_payload-IsHidden original paths,
      redact_payload-Masks original paths,
    )
stored_part-IsRetained full event paths = refl

module _ (sha256_json : Value → String) (event : BpgEvent) (policy : AuditPolicyConfig) where
  unenriched :
      get_field "event_payload" (audit_payload_for_event sha256_json event policy)
      ≡ get_field "event_payload" (
          stored_part policy.payload_retention
            (dict (payload_or_empty event))
            (redact_payload (dict (payload_or_empty event)) policy.redacted_field_paths).0)
  unfolding audit_payload_for_event get_field
  unenriched = refl

  -- The event is the one that the policy was applied to before.
  pub audit_payload-IsRetained :
      (enriched_for : BpgEvent)
      → IsRetained policy.payload_retention event policy.redacted_field_paths (
          get_field "event_payload" (
            enrich_audit_payload_with_correlation
              (audit_payload_for_event sha256_json event policy)
              enriched_for))
  unfolding enrich_audit_payload_with_correlation
  audit_payload-IsRetained enriched_for =
      rw
        (
          attach_elsewhere (audit_payload_for_event sha256_json event policy)
              (correlation_context_for_event enriched_for),
          unenriched,
        )
        (stored_part-IsRetained policy.payload_retention event policy.redacted_field_paths)
