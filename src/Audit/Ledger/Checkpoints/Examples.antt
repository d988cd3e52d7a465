-- ===== src/Audit/Ledger/Checkpoints/Examples.antt =====
-- Events of two runs and checkpoints between them, and the theorems at them.
use bpg.Common.{String, ◌≡◌, refl, Bool, true, false, Option, none, some, List, [], ◌∷◌, All}
use bpg.Audit.Samples.{spell, keyed, storage, policy, event}
use bpg.Audit.Policy.{apply_audit_policy}
use bpg.Audit.Policy.Kept.{apply_audit_policy-occurred_at}
use bpg.Audit.Ledger.{AuditChainCheckpoint}
use bpg.Audit.Ledger.Store.{empty_ledger}
use bpg.Audit.Ledger.Store.Sound.{Survives}
use bpg.Audit.Ledger.Checkpoints.{
  Call, checkpoint_to_event, emitted, checkpointed, verify_run, verify_from_latest_checkpoint,
  steps,
}
use bpg.Audit.Ledger.Checkpoints.Latest.{IsSigned, verify_from_latest_checkpoint-steps}
use bpg.Audit.Ledger.Checkpoints.Sound.{IsStored, verify_run-steps}

abbrev in_order : String → String → Bool
in_order a b = true

abbrev checkpoint_of : Option String → Call
checkpoint_of run_id = checkpointed (record {
  scope = "global";
  run_id = run_id;
  anchor = λ c. some "anchor-1";
  signing_key = some "key";
  emit_event = true;
  now = "2026-01-02T00:00:00Z";
})

abbrev calls : List Call
calls =
    emitted (event "e1" "r1")
    ∷ emitted (event "e2" "r2")
    ∷ checkpoint_of (some "r1")
    ∷ emitted (event "e1" "r1")
    ∷ emitted (event "e3" "r1")
    ∷ checkpoint_of none
    ∷ []

event-Survives :
    (id run_id : String)
    → Survives spell storage policy (apply_audit_policy spell (event id run_id) policy)
event-Survives id run_id = record {
  time_kept = rw (apply_audit_policy-occurred_at spell (event id run_id) policy) refl;
  payload_kept = refl;
}

checkpoint-Survives :
    (c : AuditChainCheckpoint)
    → Survives spell storage policy (checkpoint_to_event spell "2026-01-02T00:00:00Z" c)
unfolding checkpoint_to_event
checkpoint-Survives c = record { time_kept = refl; payload_kept = refl }

calls-IsStored : All (IsStored spell storage policy) calls
calls-IsStored = (
  event-Survives "e1" "r1",
  (
    event-Survives "e2" "r2",
    (
      checkpoint-Survives,
      (event-Survives "e1" "r1", (event-Survives "e3" "r1", (checkpoint-Survives, tt))),
    ),
  ),
)

verify_run-steps_example :
    (verify_run spell keyed in_order storage policy
      (steps spell keyed in_order storage policy empty_ledger calls)
      "r1"
      none
      true
      (some "key")).is_ok
    ≡ true
verify_run-steps_example =
    verify_run-steps spell keyed in_order storage policy calls "r1" true (some "key") calls-IsStored

calls-IsSigned : All (IsSigned (some "key")) calls
calls-IsSigned = (tt, (tt, (refl, (tt, (tt, (refl, tt))))))

verify_from_latest_checkpoint-steps_example :
    (verify_from_latest_checkpoint spell keyed in_order storage policy
      (steps spell keyed in_order storage policy empty_ledger calls)
      "r1"
      false
      (some "key")).is_ok
    ≡ true
verify_from_latest_checkpoint-steps_example =
    verify_from_latest_checkpoint-steps spell keyed (some "key") in_order storage policy calls "r1"
      calls-IsSigned calls-IsStored
