-- ===== src/Audit/Samples.antt =====
-- Sample data for the tests of the audit part: a stand-in digest, a policy and events.
use Prim.Native.String.{◌++◌ as append}
use bpg.Common.{String, ◌==◌, if◌then◌else◌, true, none, some, List, [], ◌∷◌}
use bpg.Value.{Value, Items, Fields, null, bool, int, float, str, list, dict, nil, cons, end, field}
use bpg.Audit.Ledger.Store.{Storage}
use bpg.Audit.Event.{BpgEvent}
use bpg.Audit.Policy.{AuditPolicyConfig, only_redacted, fail_run, reject}

-- A text for a value, as a digest that can be evaluated.
abbrev mutual
  pub spell : Value → String
  spell null = "null"
  spell (bool b) = "bool"
  spell (int i) = "int"
  spell (float x) = "float"
  spell (str s) = s
  spell (list xs) = append "[" (append (spell_items xs) "]")
  spell (dict d) = append "{" (append (spell_fields d) "}")

  pub spell_items : Items → String
  spell_items nil = ""
  spell_items (cons x xs) = append (spell x) (append "," (spell_items xs))

  pub spell_fields : Fields → String
  spell_fields end = ""
  spell_fields (field k v d) =
      append k (append ":" (append (spell v) (append "," (spell_fields d))))

abbrev pub keyed : String → Value → String
keyed key v = append key (spell v)

abbrev pub same_time : String → String
same_time s = s

-- Timestamps as `datetime` spells them, and a session in the zone UTC.
abbrev pub stamp : String → String
stamp s =
    if s == "2026-01-01T00:00:00Z"
    then "2026-01-01 00:00:00+00:00"
    else if s == "2026-01-02T00:00:00Z"
    then "2026-01-02 00:00:00+00:00"
    else s

abbrev pub storage : Storage
storage = record {
  timestamp_for_hash = stamp;
  column_time = λ s. if s == "2026-01-01 02:00:00+02:00" then "2026-01-01 00:00:00+00:00" else s;
  column_payload = λ p. p;
}

abbrev pub login : Fields
login = field "user" (str "ann") (
    field "Password" (str "hunter2") (
      field "accounts"
        (list (
          cons (dict (field "iban" (str "NL01") (field "bank" (str "b1") end)))
            (cons (dict (field "iban" (str "NL02") end)) nil)))
        end))

abbrev pub paths : List String
paths = "payload.accounts.iban" ∷ "$.nothing.here" ∷ []

abbrev pub policy : AuditPolicyConfig
policy = record {
  enabled = true;
  dsn = none;
  failure_policy = fail_run;
  retention = some "7y";
  payload_retention = only_redacted;
  redaction_policy_id = "default-redaction-v1";
  redacted_field_paths = paths;
  duplicate_strategy = reject;
  tags = ("team", "risk") ∷ [];
}

abbrev pub event : String → String → BpgEvent
event id run_id = record {
  schema_version = 1;
  event_id = id;
  event_type = "node_completed";
  occurred_at = "2026-01-01T00:00:00Z";
  run_id = run_id;
  process_name = "onboarding";
  process_version = "1.0";
  process_hash = "abc";
  engine_backend = "langgraph";
  node_id = some "login";
  node_type = none;
  node_package = none;
  trace_id = none;
  span_id = none;
  parent_span_id = none;
  correlation_id = none;
  causation_id = none;
  actor_id = none;
  actor_type = none;
  policy_id = none;
  external_ref = none;
  temporal_namespace = none;
  temporal_workflow_id = none;
  temporal_run_id = none;
  temporal_activity_id = none;
  temporal_activity_type = none;
  temporal_attempt = none;
  temporal_task_queue = none;
  temporal_timer_id = none;
  temporal_signal_name = none;
  temporal_child_workflow_id = none;
  provider_id = none;
  provider_job_id = none;
  artifact_name = none;
  artifact_sha256 = none;
  input_sha256 = none;
  output_sha256 = none;
  redaction_policy_id = none;
  redacted_field_paths = [];
  payload = some login;
  payload_sha256 = none;
  tags = ("env", "test") ∷ [];
}
