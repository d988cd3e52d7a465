-- ===== src/Audit/Policy.antt =====
-- Audit policy of src/bpg/audit/policy.py: what is added to an event, and which part of its payload
-- is stored. `sha256_json` is the digest of the canonical JSON text of a value.
pub mod Retention
pub mod Kept
use bpg.Common.{
  ℕ, String, Bool, true, false, Option, none, some, List, [], ◌∷◌, Dict, ◌==◌, if◌then◌else◌, put,
}
use bpg.Common.Int.{pos}
use bpg.Common.Text.{sort_names}
use mathlib.Core.Option
use bpg.Value.{Value, Items, Fields, int, str, list, dict, nil, cons, end, field, put_field}
use bpg.Audit.Event.{BpgEvent}
use bpg.Audit.Redaction.{redact_payload}

pub data PayloadRetention : Type 0 where
  hash_only only_redacted full : PayloadRetention

pub data FailurePolicy : Type 0 where
  fail_run warn disabled : FailurePolicy

pub data DuplicateStrategy : Type 0 where
  reject ignore : DuplicateStrategy

pub record AuditPolicyConfig : Type 0 where
  pub enabled : Bool
  pub dsn : Option String
  pub failure_policy : FailurePolicy
  pub retention : Option String
  pub payload_retention : PayloadRetention
  pub redaction_policy_id : String
  pub redacted_field_paths : List String
  pub duplicate_strategy : DuplicateStrategy
  pub tags : Dict String

-- `dict(event.payload or {})`
abbrev pub payload_or_empty : BpgEvent → Fields
payload_or_empty event = Option.get_or event.payload end

-- `a or b` for an optional text: the empty text counts as absent.
abbrev pub or_else : Option String → String → String
or_else none b = b
or_else (some a) b = if a == "" then b else a

-- `{**left, **right}`
pub merge_tags : Dict String → Dict String → Dict String
merge_tags left [] = left
merge_tags left ((k, v) ∷ right) = merge_tags (put k v left) right

abbrev pub text_items : List String → Items
text_items [] = nil
text_items (x ∷ xs) = cons (str x) (text_items xs)

abbrev pub text_fields : Dict String → Fields
text_fields [] = end
text_fields ((k, v) ∷ d) = field k (str v) (text_fields d)

-- `if value is not None: correlation[name] = value`
with_text : String → Option String → Fields → Fields
with_text name none d = d
with_text name (some v) d = put_field name (str v) d

with_number : String → Option ℕ → Fields → Fields
with_number name none d = d
with_number name (some v) d = put_field name (int (pos v)) d

with_paths : List String → Fields → Fields
with_paths [] d = d
with_paths (p ∷ ps) d = put_field "redacted_field_paths" (list (text_items (p ∷ ps))) d

with_tags : Dict String → Fields → Fields
with_tags [] d = d
with_tags (t ∷ ts) d = put_field "tags" (dict (text_fields (t ∷ ts))) d

-- `correlation_context_for_event`
pub correlation_context_for_event : BpgEvent → Fields
unfolding with_text with_number with_paths with_tags
correlation_context_for_event e =
    let temporal = with_text "temporal_child_workflow_id" e.temporal_child_workflow_id (
      with_text "temporal_signal_name" e.temporal_signal_name (
        with_text "temporal_timer_id" e.temporal_timer_id (
          with_text "temporal_task_queue" e.temporal_task_queue (
            with_number "temporal_attempt" e.temporal_attempt (
              with_text "temporal_activity_type" e.temporal_activity_type (
                with_text "temporal_activity_id" e.temporal_activity_id (
                  with_text "temporal_run_id" e.temporal_run_id (
                    with_text "temporal_workflow_id" e.temporal_workflow_id
                      (with_text "temporal_namespace" e.temporal_namespace end))))))))) in
    with_tags e.tags (
      with_paths e.redacted_field_paths (
        with_text "redaction_policy_id" e.redaction_policy_id (
          with_text "output_sha256" e.output_sha256
            (with_text "input_sha256" e.input_sha256 temporal))))

attach : Fields → Fields → Fields
attach payload end = payload
attach payload (field k v d) = put_field "_correlation" (dict (field k v d)) payload

-- `enrich_audit_payload_with_correlation`
pub enrich_audit_payload_with_correlation : Fields → BpgEvent → Fields
unfolding attach correlation_context_for_event
enrich_audit_payload_with_correlation payload event =
    attach payload (correlation_context_for_event event)

retention_name : PayloadRetention → String
retention_name hash_only = "hash_only"
retention_name only_redacted = "redacted"
retention_name full = "full"

stored_part : PayloadRetention → Value → Value → Fields
stored_part hash_only original masked = end
stored_part only_redacted original masked = field "event_payload" masked end
stored_part full original masked = field "event_payload" original end

module _ (sha256_json : Value → String) where
  -- `apply_audit_policy`
  pub apply_audit_policy : BpgEvent → AuditPolicyConfig → BpgEvent
  unfolding merge_tags
  apply_audit_policy event policy =
      let payload = dict (payload_or_empty event) in
      record event {
        redaction_policy_id = some policy.redaction_policy_id;
        redacted_field_paths = sort_names (redact_payload payload policy.redacted_field_paths).1;
        payload_sha256 = some (or_else event.payload_sha256 (sha256_json payload));
        tags = merge_tags event.tags policy.tags;
      }

  audit_metadata : Value → List String → AuditPolicyConfig → Fields
  unfolding retention_name with_text
  audit_metadata payload redacted_paths policy = with_text "retention" policy.retention (
      field "payload_retention" (str (retention_name policy.payload_retention)) (
        field "payload_sha256" (str (sha256_json payload)) (
          field "redaction_policy_id" (str policy.redaction_policy_id) (
            field "redacted_field_paths" (list (text_items (sort_names redacted_paths)))
              (field "tags" (dict (text_fields policy.tags)) end)))))

  -- `audit_payload_for_event`
  pub audit_payload_for_event : BpgEvent → AuditPolicyConfig → Fields
  unfolding audit_metadata stored_part
  audit_payload_for_event event policy =
      let original = dict (payload_or_empty event) in
      let (masked, paths) = redact_payload original policy.redacted_field_paths in
      field "_audit" (dict (audit_metadata original paths policy))
        (stored_part policy.payload_retention original masked)
