-- ===== src/Audit/Ledger/Examples.antt =====
-- The theorems on rows at sample events.
use bpg.Common.{none, some}
use bpg.Value.{get_field}
use bpg.Audit.Samples.{spell, same_time, policy, event}
use bpg.Audit.Policy.{only_redacted}
use bpg.Audit.Policy.Retention.{IsRetained}
use bpg.Audit.Ledger.{build_audit_record}
use bpg.Audit.Ledger.Retention.{build_audit_record-IsRetained}

build_audit_record-IsRetained_example :
    IsRetained only_redacted (event "e1" "r1") policy.redacted_field_paths (
      get_field "event_payload"
        (build_audit_record spell same_time
          (event "e1" "r1")
          1
          none
          "run"
          none
          (some policy)).payload)
build_audit_record-IsRetained_example =
    build_audit_record-IsRetained spell same_time (event "e1" "r1") 1 none "run" none policy
