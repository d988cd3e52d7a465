-- ===== src/Runtime/Orchestrator/Loop/Waiting.antt =====
-- The second pass: every task that is looked at ends, or its adapter has answered that it is running.
use bpg.Common.{
  ℕ, String, ◌≡◌, refl, sym, ap, ◌∙◌, inl, inr, true, false, Option, none, some, [], ◌∷◌, Dict, get,
  Bool-cases, Option-cases,
}
use Prim.Native.String.{◌++◌}
use bpg.Value.{Fields}
use bpg.Runtime.Payload.{validate_payload}
use bpg.Runtime.Orchestrator.{
  done, Polled, running, completed, unsuccessful, Host, InflightTask, ExecutionIr, Machine, note,
}
use bpg.Runtime.Orchestrator.Loop.{
  drop_key, fail_task, complete_task, after_poll, poll_task, poll_pass, deadline_reached,
}
use bpg.Runtime.Orchestrator.Loop.Steps.{Calls, no_call, poll_call, cancel_call, now_call}
use bpg.Runtime.Orchestrator.Loop.Scheduling.{>>=-eq-done, done_injective}

module _ (host : Host) (ir : ExecutionIr) where
  -- What the second pass does to one task.
  pub data Looked (node : String) (task : InflightTask) (m m' : Machine host.World) : Type 0 where
    waited :
        (host.poll task.task_id m.world).0 ≡ some running
        → m' ≡ record m { world = (host.poll task.task_id m.world).1 }
        → Looked node task m m'
    ended :
        m'.pending ≡ m.pending
        → m'.inflight ≡ drop_key node m.inflight
        → m'.progressed ≡ true
        → Calls host m.world m'.world
        → Looked node task m m'

  fail_task-Looked :
      (node status : String) (task : InflightTask) (error : Fields) (m : Machine host.World)
      (w : host.World)
      → Calls host m.world w
      → Looked node task m (fail_task host node status task error (record m { world = w }))
  unfolding fail_task note
  fail_task-Looked node status task error m w calls = ended refl refl refl (now_call calls)

  complete_task-Looked :
      (node : String) (task : InflightTask) (output : Fields) (m m' : Machine host.World)
      (w : host.World)
      → Calls host m.world w
      → complete_task host ir node task output (record m { world = w }) ≡ done m'
      → Looked node task m m'
  unfolding complete_task note
  complete_task-Looked node task output m m' w calls h =
      elim (Option-cases (get node ir.resolved_nodes)) [
        | inl missing ↦ absurd (cc (rw (missing, complete_task) at h))
        | inr (n, found) ↦
            elim (Option-cases (validate_payload output n.out_type (node ++ ".out"))) [
              | inr (e, invalid) ↦ absurd (cc (rw (found, invalid, complete_task) at h))
              | inl valid ↦
                  rw (← done_injective (rw (found, valid, complete_task) at h))
                    (ended refl refl refl (now_call calls))
            ]
      ]

  after_poll-Looked :
      (node : String) (task : InflightTask) (answer : Option Polled) (m m' : Machine host.World)
      → (host.poll task.task_id m.world).0 ≡ answer
      → after_poll host ir node task answer
          (record m { world = (host.poll task.task_id m.world).1 })
        ≡ done m'
      → Looked node task m m'
  after_poll-Looked node task none m m' e h = absurd (cc)
  after_poll-Looked node task (some running) m m' e h = waited e (sym (done_injective h))
  after_poll-Looked node task (some (completed output)) m m' e h =
      complete_task-Looked node task _ m m' _ (poll_call task.task_id no_call) h
  after_poll-Looked node task (some (unsuccessful error)) m m' e h =
      rw (← done_injective h)
        (fail_task-Looked node "failed" task _ m _ (poll_call task.task_id no_call))

  pub poll_task-Looked :
      (time : ℕ) (node : String) (task : InflightTask) (m m' : Machine host.World)
      → poll_task host ir time node task m ≡ done m'
      → Looked node task m m'
  unfolding poll_task
  poll_task-Looked time node task m m' h =
      elim (Bool-cases (deadline_reached host time task.deadline)) [
        | inl late ↦ elim (Option-cases (host.cancel task.task_id m.world)) [
          | inl broken ↦ absurd (cc (rw (late, broken, poll_task) at h))
          | inr (w, cancelled) ↦ rw (← done_injective (rw (late, cancelled, poll_task) at h)) (
              fail_task-Looked node "timed_out" task _ m w
                (cancel_call task.task_id no_call cancelled))
        ]
        | inr early ↦ after_poll-Looked node task _ m m' refl (rw early at h)
      ]

  pub poll_pass-quiet :
      (time : ℕ) (tasks : Dict InflightTask) (m m' : Machine host.World)
      → poll_pass host ir time tasks m ≡ done m'
      → m'.progressed ≡ false
      → (m'.inflight ≡ m.inflight) × (m.progressed ≡ false)
  unfolding poll_pass
  poll_pass-quiet time [] m m' h quiet = rw (done_injective h) (refl, quiet)
  poll_pass-quiet time ((node, task) ∷ tasks) m m' h quiet =
      let (m1, first, rest) =
        >>=-eq-done (poll_task host ir time node task m) (λ m1. poll_pass host ir time tasks m1)
          h in
      let (same, quiet1) = poll_pass-quiet time tasks m1 m' rest quiet in
      elim (poll_task-Looked time node task m m1 first) [
        | waited e next ↦ (
          same ∙ ap (λ (k : Machine host.World). k.inflight) next,
          ap (λ (k : Machine host.World). k.progressed) (sym next) ∙ quiet1,
        )
        | ended p i on calls ↦ absurd (cc)
      ]
