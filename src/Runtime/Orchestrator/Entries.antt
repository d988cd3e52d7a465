-- ===== src/Runtime/Orchestrator/Entries.antt =====
-- What the entries of the execution log say when they are replayed: each gives its node the status that
-- the orchestrator writes beside it.
use bpg.Common.{
  ℕ, String, ◌≡◌, refl, Bool, true, false, none, some, ◌==◌, if◌then◌else◌, eq_iff, Bool-cases, inl,
  inr,
}
use bpg.Value.{Value, Fields, truthy}
use bpg.Runtime.Events.{normalize_event}
use bpg.Runtime.Replay.{status_for, type_of, node_of}
use bpg.Runtime.Replay.Last.{says}
use bpg.Runtime.Orchestrator.{
  InflightTask, skipped_entry, failed_entry, invalid_entry, scheduled_entry,
}
use bpg.Runtime.Orchestrator.Loop.{task_failed_entry, completed_entry}

module _ (text_of : Value → String) (is_zero : ℕ → Bool) (now : String) where
  -- Replayed, the entry gives this node this status, and says nothing of other nodes. A node without a
  -- name is no node in the log.
  abbrev pub Reports : String → String → Fields → Type 0
  Reports node status entry =
      (n : String)
      → (n == "") ≡ false
      → says text_of is_zero now n entry ≡ (if node == n then some status else none)

  module _ (node : String) where
    nameless : (n : String) → (n == "") ≡ false → (node == "") ≡ true → (node == n) ≡ false
    nameless n named e = elim (Bool-cases (node == n)) [
      | inl same ↦ cc ((eq_iff node n).0 same, (eq_iff node "").0 e)
      | inr other ↦ other
    ]

    pub Reports-skipped_entry : (time : String) → Reports node "skipped" (skipped_entry node time)
    unfolding status_for type_of node_of normalize_event truthy
    Reports-skipped_entry time n named = elim (Bool-cases (node == "")) [
      | inl e ↦ rw (e, nameless n named e) refl
      | inr e ↦ rw e refl
    ]

    pub Reports-failed_entry :
        (error : Fields) (time : String) → Reports node "failed" (failed_entry node error time)
    unfolding status_for type_of node_of normalize_event truthy
    Reports-failed_entry error time n named = elim (Bool-cases (node == "")) [
      | inl e ↦ rw (e, nameless n named e) refl
      | inr e ↦ rw e refl
    ]

    pub Reports-invalid_entry :
        (input error : Fields) (time : String)
        → Reports node "failed" (invalid_entry node input error time)
    unfolding status_for type_of node_of normalize_event truthy
    Reports-invalid_entry input error time n named = elim (Bool-cases (node == "")) [
      | inl e ↦ rw (e, nameless n named e) refl
      | inr e ↦ rw e refl
    ]

    pub Reports-scheduled_entry :
        (task : InflightTask) → Reports node "running" (scheduled_entry node task)
    unfolding status_for type_of node_of normalize_event truthy
    Reports-scheduled_entry task n named = elim (Bool-cases (node == "")) [
      | inl e ↦ rw (e, nameless n named e) refl
      | inr e ↦ rw e refl
    ]

    pub Reports-task_failed_entry :
        (status : String) (task : InflightTask) (error : Fields) (time : String)
        → Reports node status (task_failed_entry node status task error time)
    unfolding status_for type_of node_of normalize_event truthy
    Reports-task_failed_entry status task error time n named = elim (Bool-cases (node == "")) [
      | inl e ↦ rw (e, nameless n named e) refl
      | inr e ↦ rw e refl
    ]

    pub Reports-completed_entry :
        (task : InflightTask) (output : Fields) (time : String)
        → Reports node "completed" (completed_entry node task output time)
    unfolding status_for type_of node_of normalize_event truthy
    Reports-completed_entry task output time n named = elim (Bool-cases (node == "")) [
      | inl e ↦ rw (e, nameless n named e) refl
      | inr e ↦ rw e refl
    ]
