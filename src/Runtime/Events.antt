-- ===== src/Runtime/Events.antt =====
-- The types of events and their normal form: `_infer_event_type` and `normalize_event` of
-- src/bpg/runtime/events.py, over entries that are dictionaries. `is_zero` says which floats are zeros,
-- and `now` is the time.
use bpg.Common.{
  ℕ, String, Bool, true, false, ◌||◌, Option, none, some, List, [], ◌∷◌, ◌==◌, if◌then◌else◌, Dict,
  get, contains,
}
use bpg.Common.Int.{pos}
use bpg.Common.Text.{after_prefix}
use bpg.Value.{Value, Fields, null, int, str, get_field, put_field, has_field, truthy}

abbrev pub event_types : List String
event_types =
    "run_started" ∷ "run_completed" ∷ "run_failed" ∷ "node_scheduled" ∷ "node_started"
    ∷ "node_completed" ∷ "node_failed" ∷ "node_skipped" ∷ "node_retry_scheduled" ∷ "edge_fired"
    ∷ "policy_checked" ∷ "policy_blocked" ∷ "approval_requested" ∷ "approval_resolved"
    ∷ "approval_timed_out" ∷ "artifact_written" ∷ "audit_checkpointed" ∷ []

abbrev pub legacy_event_type_aliases : Dict String
legacy_event_type_aliases =
    ("human_requested", "approval_requested")
    ∷ ("human_received", "approval_resolved")
    ∷ ("node_retrying", "node_retry_scheduled")
    ∷ ("node_timed_out", "node_failed")
    ∷ ("approved", "approval_resolved")
    ∷ ("rejected", "approval_resolved")
    ∷ ("escalated", "approval_resolved")
    ∷ ("timed_out", "approval_timed_out")
    ∷ []

-- `_canonical_event_type`
pub canonical_event_type : String → String
unfolding get
canonical_event_type event_type = elim (get event_type legacy_event_type_aliases) [
  | none ↦ event_type
  | some t ↦ t
]

is_extension : String → Bool
unfolding after_prefix
is_extension t = elim (after_prefix "extension." t) [ none ↦ false | some rest ↦ true ]

is_supported : String → Bool
unfolding contains is_extension
is_supported t = contains event_types t || is_extension t

-- What the `event` of a legacy entry says.
type_of_event : String → String
type_of_event event =
    if event == "node_scheduled"
    then "node_scheduled"
    else if event == "node_failed"
    then "node_failed"
    else if event == "node_completed"
    then "node_completed"
    else if event == "node_started"
    then "node_started"
    else if event == "node_retrying"
    then "node_retry_scheduled"
    else if event == "node_skipped"
    then "node_skipped"
    else if event == "human_requested"
    then "approval_requested"
    else if event == "human_received"
    then "approval_resolved"
    else "node_completed"

legacy_type : Option Value → String
unfolding type_of_event
legacy_type (some (str event)) = type_of_event event
legacy_type _ = "node_completed"

typed_or : Option Value → String → String
unfolding canonical_event_type is_supported
typed_or (some (str t)) legacy =
    if is_supported (canonical_event_type t) then canonical_event_type t else legacy
typed_or _ legacy = legacy

-- `_infer_event_type`
pub infer_event_type : Fields → String
unfolding typed_or legacy_type get_field
infer_event_type entry =
    typed_or (get_field "event_type" entry) (legacy_type (get_field "event" entry))

-- `d.setdefault(k, v)`
set_default : String → Value → Fields → Fields
unfolding has_field put_field
set_default k v d = if has_field k d then d else put_field k v d

-- `d.get(k)`
abbrev pub get_or_null : String → Fields → Value
get_or_null k d = elim (get_field k d) [ none ↦ null | some v ↦ v ]

set_run_id : Option String → Fields → Fields
unfolding set_default
set_run_id none d = d
set_run_id (some run_id) d = set_default "run_id" (str run_id) d

module _ (is_zero : ℕ → Bool) where
  -- `a or b`
  abbrev pub or_value : Value → Value → Value
  or_value a b = if truthy is_zero a then a else b

  module _ (now : String) where
    -- `normalize_event`
    unfoldable pub normalize_event : Fields → Option String → Fields
    unfolding set_run_id set_default put_field get_field infer_event_type truthy
    normalize_event entry run_id =
        let numbered = put_field "schema_version" (int (pos 1)) entry in
        let typed = put_field "event_type" (str (infer_event_type numbered)) numbered in
        let of_run = set_run_id run_id typed in
        let stamped =
          set_default "timestamp"
            (or_value (get_or_null "completed_at" of_run)
              (or_value (get_or_null "started_at" of_run) (str now)))
            of_run in
        set_default "occurred_at" (get_or_null "timestamp" stamped) stamped
