-- ===== src/Audit/Event.antt =====
-- The canonical event envelope `BpgEvent` of src/bpg/runtime/events.py.
use bpg.Common.{ℕ, String, Option, List, Dict}
use bpg.Value.{Fields}

pub record BpgEvent : Type 0 where
  pub schema_version : ℕ
  pub event_id : String
  pub event_type : String
  pub occurred_at : String
  pub run_id : String
  pub process_name : String
  pub process_version : String
  pub process_hash : String
  pub engine_backend : String
  pub node_id : Option String
  pub node_type : Option String
  pub node_package : Option String
  pub trace_id : Option String
  pub span_id : Option String
  pub parent_span_id : Option String
  pub correlation_id : Option String
  pub causation_id : Option String
  pub actor_id : Option String
  pub actor_type : Option String
  pub policy_id : Option String
  pub external_ref : Option String
  pub temporal_namespace : Option String
  pub temporal_workflow_id : Option String
  pub temporal_run_id : Option String
  pub temporal_activity_id : Option String
  pub temporal_activity_type : Option String
  pub temporal_attempt : Option ℕ
  pub temporal_task_queue : Option String
  pub temporal_timer_id : Option String
  pub temporal_signal_name : Option String
  pub temporal_child_workflow_id : Option String
  pub provider_id : Option String
  pub provider_job_id : Option String
  pub artifact_name : Option String
  pub artifact_sha256 : Option String
  pub input_sha256 : Option String
  pub output_sha256 : Option String
  pub redaction_policy_id : Option String
  pub redacted_field_paths : List String
  pub payload : Option Fields
  pub payload_sha256 : Option String
  pub tags : Dict String
