-- ===== src/Runtime/Replay/Examples.antt =====
-- A run with a failed node, replayed.
use bpg.Common.{
  ℕ, String, ◌≡◌, refl, ◌↔◌, ◌⊎◌, Bool, false, none, some, List, [], ◌∷◌, get, put, contains,
}
use bpg.Common.Text.{after_prefix}
use bpg.Value.{Value, Fields, str, end, field, get_field, put_field, has_field, truthy}
use bpg.Runtime.Replay.{replay_state_from_events, replay_from}
use bpg.Runtime.Replay.Last.{last_run}
use bpg.Runtime.Replay.Outcome.{HasFailedNode, replay_state_from_events-failed}

abbrev no_text : Value → String
no_text v = ""

abbrev no_zero : ℕ → Bool
no_zero x = false

abbrev entry : String → String → String → Fields
entry event node status =
    field "event" (str event) (field "node" (str node) (field "status" (str status) end))

abbrev events : List Fields
events =
    entry "node_scheduled" "intake" "running"
    ∷ entry "node_completed" "intake" "completed"
    ∷ entry "node_scheduled" "triage" "running"
    ∷ entry "node_failed" "triage" "timed_out"
    ∷ []

replayed-events :
    (replay_state_from_events no_text no_zero "now" events).node_statuses
    ≡ ("intake", "completed") ∷ ("triage", "timed_out") ∷ []
unfolding replay_state_from_events replay_from put get contains after_prefix get_field put_field
    has_field truthy
replayed-events = refl

replay_state_from_events-failed_example :
    ((replay_state_from_events no_text no_zero "now" events).run_status ≡ "failed") ↔ (
      (last_run no_text no_zero "now" events ≡ some "failed")
      ⊎ ((last_run no_text no_zero "now" events ≡ none)
          × HasFailedNode no_text no_zero "now" events))
replay_state_from_events-failed_example =
    replay_state_from_events-failed no_text no_zero "now" events
