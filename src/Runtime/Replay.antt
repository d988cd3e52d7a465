-- ===== src/Runtime/Replay.antt =====
-- Events of a run and the state that they stand for: `replay_state_from_events` of
-- src/bpg/runtime/events.py, over entries that are dictionaries. `is_zero` says which floats are zeros,
-- `now` is the time, and `text_of` what `str` gives for a value that is no text.
pub mod Last
pub mod Outcome
mod Examples
use bpg.Common.{
  ℕ, zero, suc, ◌+◌, String, Bool, true, false, not, ◌&&◌, ◌||◌, Option, none, some, List, [], ◌∷◌,
  ◌==◌, if◌then◌else◌, Dict, get, put, length, contains,
}
use bpg.Common.Int.{pos}
use bpg.Common.Text.{after_prefix}
use bpg.Value.{
  Value, Fields, null, bool, int, float, str, list, dict, end, field, get_field, put_field,
  has_field, truthy,
}
use bpg.Runtime.Events.{get_or_null, or_value, normalize_event}

pub record ReplayState : Type 0 where
  pub node_statuses : Dict String
  pub run_status : String
  pub counts : Dict ℕ

abbrev pub start_state : ReplayState
start_state = record { node_statuses = []; run_status = "running"; counts = [] }

-- `counts[event_type] += 1`
pub count_type : String → Dict ℕ → Dict ℕ
unfolding get put
count_type t counts = put t (elim (get t counts) [ none ↦ 1 | some n ↦ n + 1 ]) counts

pub set_status : Value → Option String → Dict String → Dict String
unfolding put
set_status (str node) (some status) statuses = put node status statuses
set_status _ _ statuses = statuses

pub run_status_after : String → String → String
run_status_after event_type run_status =
    if event_type == "run_completed"
    then "completed"
    else if event_type == "run_failed"
    then "failed"
    else run_status

pub any_failed : Dict String → Bool
any_failed [] = false
any_failed ((node, status) ∷ statuses) =
    status == "failed" || status == "timed_out" || any_failed statuses

pub all_done : Dict String → Bool
all_done [] = true
all_done ((node, status) ∷ statuses) =
    (status == "completed" || status == "skipped") && all_done statuses

abbrev pub is_empty : Dict String → Bool
is_empty [] = true
is_empty (x ∷ xs) = false

-- What follows the loop.
pub final_status : ReplayState → String
unfolding any_failed all_done
final_status s =
    if s.run_status == "running"
    then (if any_failed s.node_statuses
        then "failed"
        else if not (is_empty s.node_statuses) && all_done s.node_statuses
        then "completed"
        else s.run_status)
    else s.run_status

module _ (text_of : Value → String) where
  -- `str(event.get("status", fallback))`
  status_text : String → Option Value → String
  status_text fallback none = fallback
  status_text fallback (some (str s)) = s
  status_text fallback (some v) = text_of v

  -- The status that an event of a type gives its node.
  unfoldable pub status_for : String → Fields → Option String
  unfolding status_text get_field
  status_for event_type event =
      if event_type == "node_scheduled" || event_type == "node_started"
      then some "running"
      else if event_type == "node_completed"
      then some (status_text "completed" (get_field "status" event))
      else if event_type == "node_failed"
      then some (status_text "failed" (get_field "status" event))
      else none

  module _ (is_zero : ℕ → Bool) (now : String) where
    -- `event["event_type"]` and the node of a normalized event
    unfoldable pub type_of : Fields → String
    unfolding normalize_event
    type_of raw = elim (get_or_null "event_type" (normalize_event is_zero now raw none)) [
      | str s ↦ s
      | null ↦ ""
      | bool b ↦ ""
      | int i ↦ ""
      | float x ↦ ""
      | list xs ↦ ""
      | dict d ↦ ""
    ]

    unfoldable pub node_of : Fields → Value
    unfolding normalize_event truthy
    node_of raw =
        let event = normalize_event is_zero now raw none in
        or_value is_zero (get_or_null "node" event) (get_or_null "node_id" event)

    -- The body of the loop.
    pub replay_step : ReplayState → Fields → ReplayState
    unfolding count_type status_for set_status run_status_after type_of node_of
    replay_step s raw = record {
      node_statuses =
          set_status (node_of raw) (status_for (type_of raw) (normalize_event is_zero now raw none))
            s.node_statuses;
      run_status = run_status_after (type_of raw) s.run_status;
      counts = count_type (type_of raw) s.counts;
    }

    pub replay_from : ReplayState → List Fields → ReplayState
    unfolding replay_step
    replay_from s [] = s
    replay_from s (raw ∷ events) = replay_from (replay_step s raw) events

    pub record Replayed : Type 0 where
      pub run_status : String
      pub node_statuses : Dict String
      pub event_counts : Dict ℕ
      pub event_total : ℕ

    -- `replay_state_from_events`
    pub replay_state_from_events : List Fields → Replayed
    unfolding replay_from final_status
    replay_state_from_events events =
        let s = replay_from start_state events in
        record {
          run_status = final_status s;
          node_statuses = s.node_statuses;
          event_counts = s.counts;
          event_total = length events;
        }
