-- ===== src/Audit/Policy/Kept.antt =====
-- What `apply_audit_policy` of src/bpg/audit/policy.py leaves as it was.
use bpg.Common.{String, ◌≡◌, refl}
use bpg.Value.{Value}
use bpg.Audit.Event.{BpgEvent}
use bpg.Audit.Policy.{AuditPolicyConfig, apply_audit_policy}

module _ (sha256_json : Value → String) (event : BpgEvent) (policy : AuditPolicyConfig) where
  pub apply_audit_policy-run_id :
      (apply_audit_policy sha256_json event policy).run_id ≡ event.run_id
  unfolding apply_audit_policy
  apply_audit_policy-run_id = refl

  pub apply_audit_policy-payload :
      (apply_audit_policy sha256_json event policy).payload ≡ event.payload
  unfolding apply_audit_policy
  apply_audit_policy-payload = refl

  pub apply_audit_policy-occurred_at :
      (apply_audit_policy sha256_json event policy).occurred_at ≡ event.occurred_at
  unfolding apply_audit_policy
  apply_audit_policy-occurred_at = refl
