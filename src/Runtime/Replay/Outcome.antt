-- ===== src/Runtime/Replay/Outcome.antt =====
-- The run status and the counts of a replay.
use bpg.Common.{
  ℕ, String, ◌≡◌, refl, sym, ap, ◌∙◌, ◌↔◌, Bool, true, false, none, some, List, [], ◌∷◌, ◌==◌,
  if◌then◌else◌, get, arith, Bool-cases, Option-cases, inl, inr, eq_iff, ◌⊎◌,
}
use bpg.Value.{Value, Fields}
use bpg.Runtime.Replay.{
  ReplayState, start_state, any_failed, final_status, type_of, replay_from,
  replay_state_from_events,
}
use bpg.Runtime.Replay.Last.{
  last_status, last_run, run_end, get-replay_from, run_status-replay_from, replay_from-IsSimple,
  first_of-none, HasFailed-any_failed, any_failed_of_get,
}

abbrev open_name : Bool → String
open_name b = if b then "completed" else "running"

final_status_open :
    (s : ReplayState)
    → s.run_status ≡ "running"
    → (final_status s ≡ "failed") ↔ (any_failed s.node_statuses ≡ true)
unfolding final_status
final_status_open s e = elim (Bool-cases (any_failed s.node_statuses)) [
  | inl f ↦ rw (e, f) ((λ _. refl), (λ _. refl))
  | inr f ↦ rw (e, f) ((λ h. absurd (open_state _ h)), (λ h. cc))
]
  where
    open_state : (b : Bool) → open_name b ≡ "failed" → ⊥
    open_state true h = let t : false ≡ true = (eq_iff "completed" "failed").1 h in cc
    open_state false h = let t : false ≡ true = (eq_iff "running" "failed").1 h in cc

final_status_ended :
    (s : ReplayState) → (s.run_status == "running") ≡ false → final_status s ≡ s.run_status
unfolding final_status
final_status_ended s e = rw e refl

run_end-ended : (t a : String) → run_end t ≡ some a → (a == "running") ≡ false
run_end-ended t a h = elim (Bool-cases (t == "run_completed")) [
  | inl e ↦ let is : "completed" ≡ a = cc (rw (run_end, e) at h) in rw (← is) refl
  | inr e ↦ elim (Bool-cases (t == "run_failed")) [
    | inl e' ↦ let is : "failed" ≡ a = cc (rw (run_end, e, e') at h) in rw (← is) refl
    | inr e' ↦ absurd (cc (rw (run_end, e, e') at h))
  ]
]

module _ (text_of : Value → String) (is_zero : ℕ → Bool) (now : String) where
  abbrev end_state : List Fields → ReplayState
  end_state events = replay_from text_of is_zero now start_state events

  last_run_ended :
      (events : List Fields) (a : String)
      → last_run text_of is_zero now events ≡ some a
      → (a == "running") ≡ false
  last_run_ended [] a h = cc
  last_run_ended (raw ∷ events) a h =
      ground (arith, last_run_ended events a, run_end-ended (type_of text_of is_zero now raw) a)

  -- Some node's last status is `failed` or `timed_out`.
  abbrev pub HasFailedNode : List Fields → Type 0
  HasFailedNode events =
      (node : String) × ((last_status text_of is_zero now node events ≡ some "failed")
        ⊎ (last_status text_of is_zero now node events ≡ some "timed_out"))

  status_at_end :
      (events : List Fields) (node : String)
      → get node (end_state events).node_statuses ≡ last_status text_of is_zero now node events
  unfolding get
  status_at_end events node =
      get-replay_from text_of is_zero now node start_state events
      ∙ first_of-none (last_status text_of is_zero now node events)

  any_failed_iff :
      (events : List Fields)
      → (any_failed (end_state events).node_statuses ≡ true) ↔ HasFailedNode events
  any_failed_iff events = (there, back)
    where
      there : any_failed (end_state events).node_statuses ≡ true → HasFailedNode events
      there h =
          let (n, found) =
            HasFailed-any_failed (end_state events).node_statuses
              (replay_from-IsSimple text_of is_zero now start_state events tt) h in
          elim found [
            | inl f ↦ (n, inl (sym (status_at_end events n) ∙ f))
            | inr f ↦ (n, inr (sym (status_at_end events n) ∙ f))
          ]

      back : HasFailedNode events → any_failed (end_state events).node_statuses ≡ true
      back (n, inl f) =
          any_failed_of_get n "failed" (end_state events).node_statuses (inl refl)
            (status_at_end events n ∙ f)
      back (n, inr f) =
          any_failed_of_get n "timed_out" (end_state events).node_statuses (inr refl)
            (status_at_end events n ∙ f)

  open_back :
      (events : List Fields)
      → last_run text_of is_zero now events ≡ none
      → (end_state events).run_status ≡ "running"
      → (last_run text_of is_zero now events ≡ some "failed")
        ⊎ ((last_run text_of is_zero now events ≡ none) × HasFailedNode events)
      → final_status (end_state events) ≡ "failed"
  open_back events e running (inl f) = absurd (cc)
  open_back events e running (inr (_, f)) =
      (final_status_open (end_state events) running).1 ((any_failed_iff events).1 f)

  ended_back :
      (events : List Fields) (a : String)
      → last_run text_of is_zero now events ≡ some a
      → final_status (end_state events) ≡ a
      → (last_run text_of is_zero now events ≡ some "failed")
        ⊎ ((last_run text_of is_zero now events ≡ none) × HasFailedNode events)
      → final_status (end_state events) ≡ "failed"
  ended_back events a e ended (inl f) = cc
  ended_back events a e ended (inr (f, _)) = absurd (cc)

  -- The replayed run has failed exactly when the last event that ends the run says so, or no event ends
  -- it and the last event on some node leaves the node failed or timed out.
  pub replay_state_from_events-failed :
      (events : List Fields)
      → ((replay_state_from_events text_of is_zero now events).run_status ≡ "failed") ↔ (
          (last_run text_of is_zero now events ≡ some "failed")
          ⊎ ((last_run text_of is_zero now events ≡ none) × HasFailedNode events))
  unfolding replay_state_from_events
  replay_state_from_events-failed events =
      let status = run_status-replay_from text_of is_zero now start_state events in
      elim (Option-cases (last_run text_of is_zero now events)) [
        | inl e ↦
            let running : (end_state events).run_status ≡ "running" = rw e at status in
            (
              λ h. inr (
                e,
                (any_failed_iff events).0 ((final_status_open (end_state events) running).0 h),
              ),
              open_back events e running,
            )
        | inr (a, e) ↦
            let named : (end_state events).run_status ≡ a = rw e at status in
            let ended =
              final_status_ended (end_state events) (rw named (last_run_ended events a e))
              ∙ named in
            (λ h. inl (e ∙ ap some (sym ended ∙ h)), ended_back events a e ended)
      ]
