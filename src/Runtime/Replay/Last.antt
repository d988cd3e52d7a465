-- ===== src/Runtime/Replay/Last.antt =====
-- Replay by what the events say one by one: the last word on a node counts.
use bpg.Common.{
  ℕ, String, ◌≡◌, refl, ap, ◌∙◌, Bool, true, false, Option, none, some, List, [], ◌∷◌, ◌==◌,
  if◌then◌else◌, Dict, get, put, has_key, get-put, has_key-put, arith, Bool-cases, inl, inr, eq_iff,
  ◌⊎◌, text_cases, text_test_refl,
}
use bpg.Value.{Value, Fields, null, bool, int, float, str, list, dict}
use bpg.Runtime.Events.{normalize_event}
use bpg.Runtime.Replay.{
  ReplayState, start_state, status_for, set_status, run_status_after, any_failed, type_of, node_of,
  replay_step, replay_from, replay_state_from_events,
}

abbrev pub first_of : Option String → Option String → Option String
first_of none b = b
first_of (some a) b = some a

abbrev pub says_of : String → Value → Option String → Option String
says_of node (str n) status = if n == node then status else none
says_of node null status = none
says_of node (bool b) status = none
says_of node (int i) status = none
says_of node (float x) status = none
says_of node (list xs) status = none
says_of node (dict d) status = none

get-set_status :
    (node : String) (who : Value) (status : Option String) (statuses : Dict String)
    → get node (set_status who status statuses)
      ≡ first_of (says_of node who status) (get node statuses)
unfolding set_status
get-set_status node (str n) none statuses = ground arith
get-set_status node (str n) (some s) statuses = ground (arith, get-put n node s statuses)
get-set_status node null status statuses = refl
get-set_status node (bool b) status statuses = refl
get-set_status node (int i) status statuses = refl
get-set_status node (float x) status statuses = refl
get-set_status node (list xs) status statuses = refl
get-set_status node (dict d) status statuses = refl

-- Each key once.
abbrev pub IsSimple : Dict String → Type 0
IsSimple [] = Unit
IsSimple ((k, v) ∷ d) = (has_key k d ≡ false) × IsSimple d

put-IsSimple : (k v : String) (d : Dict String) → IsSimple d → IsSimple (put k v d)
unfolding put has_key
put-IsSimple k v [] h = (refl, tt)
put-IsSimple k v ((j, w) ∷ d) h = elim (Bool-cases (j == k)) [
  | inl e ↦ rw e h
  | inr e ↦
      rw e
        (ground (arith, has_key-put k j v d, eq_iff j k, eq_iff k j, h.0), put-IsSimple k v d h.1)
]

set_status-IsSimple :
    (who : Value) (status : Option String) (d : Dict String)
    → IsSimple d
    → IsSimple (set_status who status d)
unfolding set_status
set_status-IsSimple (str n) none d h = h
set_status-IsSimple (str n) (some s) d h = put-IsSimple n s d h
set_status-IsSimple null status d h = h
set_status-IsSimple (bool b) status d h = h
set_status-IsSimple (int i) status d h = h
set_status-IsSimple (float x) status d h = h
set_status-IsSimple (list xs) status d h = h
set_status-IsSimple (dict e) status d h = h

-- Some node's last status is a failure.
abbrev pub HasFailed : (String → Option String) → Type 0
HasFailed status_of =
    (node : String) × ((status_of node ≡ some "failed") ⊎ (status_of node ≡ some "timed_out"))

get-missing : (k : String) (d : Dict String) → has_key k d ≡ false → get k d ≡ none
unfolding get has_key
get-missing k [] h = refl
get-missing k ((j, v) ∷ d) h = ground (arith, get-missing k d)

get-behind :
    (k s n t : String) (d : Dict String)
    → has_key k d ≡ false
    → get n d ≡ some t
    → get n ((k, s) ∷ d) ≡ some t
unfolding get
get-behind k s n t d fresh h = ground (arith, get-missing k d fresh, eq_iff k n)

pub HasFailed-any_failed :
    (d : Dict String) → IsSimple d → any_failed d ≡ true → HasFailed (λ n. get n d)
unfolding any_failed get
HasFailed-any_failed [] h e = cc
HasFailed-any_failed ((k, s) ∷ d) (fresh, h) e = elim (text_cases s "failed") [
  | inl is ↦ (k, inl (ground (arith, text_test_refl k)))
  | inr not_failed ↦ elim (text_cases s "timed_out") [
    | inl is ↦ (k, inr (ground (arith, text_test_refl k)))
    | inr not_timed_out ↦
        let (n, found) = HasFailed-any_failed d h (ground arith) in
        elim found [
          | inl f ↦ (n, inl (get-behind k s n "failed" d fresh f))
          | inr f ↦ (n, inr (get-behind k s n "timed_out" d fresh f))
        ]
  ]
]

pub any_failed_of_get :
    (n s : String) (d : Dict String)
    → (s ≡ "failed") ⊎ (s ≡ "timed_out")
    → get n d ≡ some s
    → any_failed d ≡ true
unfolding any_failed get
any_failed_of_get n s [] which h = cc
any_failed_of_get n s ((k, t) ∷ d) which h =
    ground (arith, any_failed_of_get n s d which, eq_iff t "failed", eq_iff t "timed_out")

pub first_of_assoc : (a b c : Option String) → first_of a (first_of b c) ≡ first_of (first_of a b) c
first_of_assoc none b c = refl
first_of_assoc (some a) b c = refl

abbrev pub or_text : Option String → String → String
or_text none b = b
or_text (some a) b = a

pub first_of-none : (a : Option String) → first_of a none ≡ a
first_of-none none = refl
first_of-none (some a) = refl

-- The status that an event of this type gives the run.
abbrev pub run_end : String → Option String
run_end t =
    if t == "run_completed"
    then some "completed"
    else if t == "run_failed"
    then some "failed"
    else none

module _ (text_of : Value → String) (is_zero : ℕ → Bool) (now : String) where
  -- The status that one event gives a node.
  abbrev pub says : String → Fields → Option String
  says node raw =
      says_of node (node_of text_of is_zero now raw) (
        status_for text_of (type_of text_of is_zero now raw) (normalize_event is_zero now raw none))

  -- What the last event on a node says.
  abbrev pub last_status : String → List Fields → Option String
  last_status node [] = none
  last_status node (raw ∷ events) = first_of (last_status node events) (says node raw)

  -- The last of the events that end a run.
  abbrev pub last_run : List Fields → Option String
  last_run [] = none
  last_run (raw ∷ events) = first_of (last_run events) (run_end (type_of text_of is_zero now raw))

  pub get-replay_from :
      (node : String) (s : ReplayState) (events : List Fields)
      → get node (replay_from text_of is_zero now s events).node_statuses
        ≡ first_of (last_status node events) (get node s.node_statuses)
  unfolding replay_from replay_step
  get-replay_from node s [] = refl
  get-replay_from node s (raw ∷ events) =
      get-replay_from node (replay_step text_of is_zero now s raw) events
      ∙ ap (first_of (last_status node events)) (get-set_status node _ _ s.node_statuses)
      ∙ first_of_assoc (last_status node events) (says node raw) (get node s.node_statuses)

  pub run_status-replay_from :
      (s : ReplayState) (events : List Fields)
      → (replay_from text_of is_zero now s events).run_status
        ≡ or_text (last_run events) s.run_status
  unfolding replay_from replay_step run_status_after
  run_status-replay_from s [] = refl
  run_status-replay_from s (raw ∷ events) =
      ground (arith, run_status-replay_from (replay_step text_of is_zero now s raw) events)

  pub replay_from-IsSimple :
      (s : ReplayState) (events : List Fields)
      → IsSimple s.node_statuses
      → IsSimple (replay_from text_of is_zero now s events).node_statuses
  unfolding replay_from replay_step
  replay_from-IsSimple s [] h = h
  replay_from-IsSimple s (raw ∷ events) h =
      replay_from-IsSimple (replay_step text_of is_zero now s raw) events
        (set_status-IsSimple _ _ s.node_statuses h)

  -- In the replayed state a node has the status that the last event on it gives, and is missing when no
  -- event gives it one.
  pub replay_state_from_events-last :
      (events : List Fields) (node : String)
      → get node (replay_state_from_events text_of is_zero now events).node_statuses
        ≡ last_status node events
  unfolding replay_state_from_events get
  replay_state_from_events-last events node =
      get-replay_from node start_state events ∙ first_of-none (last_status node events)
