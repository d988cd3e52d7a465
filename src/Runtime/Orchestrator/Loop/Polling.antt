-- ===== src/Runtime/Orchestrator/Loop/Polling.antt =====
-- What the second pass and the whole loop do to the state of a run, as steps.
use bpg.Common.{
  ℕ, String, ◌≡◌, refl, ap, ◌⊎◌, inl, inr, Bool, true, false, Option, none, some, List, [], ◌∷◌,
  ◌==◌, if◌then◌else◌, Dict, get, put, has_key, arith, eq_iff, Bool-cases, Option-cases,
  has_key-put, All, text_test_refl,
}
use Prim.Native.String.{◌++◌}
use bpg.Value.{Fields}
use bpg.Compiler.Schema.{Edge}
use bpg.Runtime.Payload.{validate_payload}
use bpg.Runtime.Orchestrator.{
  Outcome, done, ◌>>=◌, Polled, running, completed, unsuccessful, Host, InflightTask, ExecutionIr,
  Machine, note,
}
use bpg.Runtime.Orchestrator.Loop.{
  drop_key, is_nil, fail_task, complete_task, after_poll, poll_task, poll_pass, schedule_pass,
  deadline_reached, round_end, round,
}
use bpg.Runtime.Orchestrator.Entries.{Reports-task_failed_entry, Reports-completed_entry}
use bpg.Runtime.Orchestrator.Loop.Steps.{
  Step, tick, settle_pending, begin, settle_inflight, Reach, here, next, reach_trans,
  has_key-drop_key,
}
use bpg.Runtime.Orchestrator.Loop.Scheduling.{
  NamesTasks, >>=-eq-done, done_injective, schedule_pass-Reach,
}

-- Each key once.
abbrev pub IsDistinct {ℓ} : {V : Type ℓ} → Dict V → Type 0
IsDistinct [] = Unit
IsDistinct ((k, v) ∷ d) = (has_key k d ≡ false) × IsDistinct d

put-IsDistinct {ℓ} :
    {V : Type ℓ} (k : String) (v : V) (d : Dict V) → IsDistinct d → IsDistinct (put k v d)
unfolding put has_key
put-IsDistinct k v [] h = (refl, tt)
put-IsDistinct k v ((j, w) ∷ d) h = elim (Bool-cases (j == k)) [
  | inl e ↦ rw e h
  | inr e ↦
      rw e
        (ground (arith, has_key-put k j v d, eq_iff j k, eq_iff k j, h.0), put-IsDistinct k v d h.1)
]

drop_key-IsDistinct {ℓ} :
    {V : Type ℓ} (k : String) (d : Dict V) → IsDistinct d → IsDistinct (drop_key k d)
unfolding drop_key
drop_key-IsDistinct k [] h = tt
drop_key-IsDistinct k ((j, w) ∷ d) h = elim (Bool-cases (j == k)) [
  | inl e ↦ rw e (drop_key-IsDistinct k d h.1)
  | inr e ↦
      rw e (ground (arith, has_key-drop_key k j d, eq_iff j k, h.0), drop_key-IsDistinct k d h.1)
]

module _ (host : Host) (ir : ExecutionIr) (incoming : Dict (List Edge)) (now : String) where
  Step-IsDistinct :
      {m m' : Machine host.World}
      → Step host ir incoming now m m'
      → IsDistinct m.inflight
      → IsDistinct m'.inflight
  Step-IsDistinct (tick st lg r p i) h = rw i h
  Step-IsDistinct (settle_pending node status entry pending ready marked fate p i) h = rw i h
  Step-IsDistinct {m} (begin node entry task pending ready marked r p i) h =
      rw i (put-IsDistinct node task m.inflight h)
  Step-IsDistinct {m} (settle_inflight node status entry flying marked fate p i) h =
      rw i (drop_key-IsDistinct node m.inflight h)

  pub Reach-IsDistinct :
      {m m' : Machine host.World}
      → Reach host ir incoming now m m'
      → IsDistinct m.inflight
      → IsDistinct m'.inflight
  Reach-IsDistinct here h = h
  Reach-IsDistinct (next r step) h = Step-IsDistinct step (Reach-IsDistinct r h)

  -- A task that is looked at stays in flight, or is taken out by a step.
  Polls : String → Machine host.World → Machine host.World → Type 0
  Polls node m m' =
      (has_key node m.inflight ≡ true → Step host ir incoming now m m')
      × ((m'.inflight ≡ m.inflight) ⊎ (m'.inflight ≡ drop_key node m.inflight))

  fail_task-Polls :
      (node status : String) (task : InflightTask) (error : Fields) (m : Machine host.World)
      (w : host.World)
      → (status ≡ "failed") ⊎ (status ≡ "timed_out")
      → Polls node m (fail_task host node status task error (record m { world = w }))
  unfolding Polls fail_task note
  fail_task-Polls node status task error m w failed = (
    λ flying.
        settle_inflight node status _ flying
          (record {
            statuses = refl;
            logged = refl;
            reports =
                Reports-task_failed_entry host.str_of host.numbers.is_zero now node status task
                  error _;
          })
          (inr (failed, refl)) refl refl,
    inr refl,
  )

  complete_task-Polls :
      (node : String) (task : InflightTask) (output : Fields) (m m' : Machine host.World)
      (w : host.World)
      → complete_task host ir node task output (record m { world = w }) ≡ done m'
      → Polls node m m'
  unfolding Polls complete_task note
  complete_task-Polls node task output m m' w h = elim (Option-cases (get node ir.resolved_nodes)) [
    | inl missing ↦ absurd (cc (rw (missing, complete_task) at h))
    | inr (n, found) ↦ elim (Option-cases (validate_payload output n.out_type (node ++ ".out"))) [
      | inr (e, invalid) ↦ absurd (cc (rw (found, invalid, complete_task) at h))
      | inl valid ↦ rw (← done_injective (rw (found, valid, complete_task) at h)) (
        λ flying.
            settle_inflight node "completed" _ flying
              (record {
                statuses = refl;
                logged = refl;
                reports =
                    Reports-completed_entry host.str_of host.numbers.is_zero now node task output _;
              })
              (inl (refl, refl)) refl refl,
        inr refl,
      )
    ]
  ]

  after_poll-Polls :
      (node : String) (task : InflightTask) (answer : Option Polled) (m m' : Machine host.World)
      (w : host.World)
      → after_poll host ir node task answer (record m { world = w }) ≡ done m'
      → Polls node m m'
  after_poll-Polls node task none m m' w h = absurd (cc)
  after_poll-Polls node task (some running) m m' w h =
      unfold Polls in rw (← done_injective h) ((λ flying. tick refl refl refl refl refl), inl refl)
  after_poll-Polls node task (some (completed output)) m m' w h =
      complete_task-Polls node task _ m m' w h
  after_poll-Polls node task (some (unsuccessful error)) m m' w h =
      rw (← done_injective h) (fail_task-Polls node "failed" task _ m w (inl refl))

  poll_task-Polls :
      (time : ℕ) (node : String) (task : InflightTask) (m m' : Machine host.World)
      → poll_task host ir time node task m ≡ done m'
      → Polls node m m'
  unfolding poll_task
  poll_task-Polls time node task m m' h =
      elim (Bool-cases (deadline_reached host time task.deadline)) [
        | inl late ↦ elim (Option-cases (host.cancel task.task_id m.world)) [
          | inl broken ↦ absurd (cc (rw (late, broken) at h))
          | inr (w, cancelled) ↦
              rw (← done_injective (rw (late, cancelled) at h))
                (fail_task-Polls node "timed_out" task _ m w (inr refl))
        ]
        | inr early ↦ after_poll-Polls node task _ m m' _ (rw early at h)
      ]

  has_key-Polls :
      (node n : String) (m m' : Machine host.World)
      → Polls node m m'
      → (node == n) ≡ false
      → has_key n m.inflight ≡ true
      → has_key n m'.inflight ≡ true
  unfolding Polls
  has_key-Polls node n m m' (_, inl same) other h = rw same h
  has_key-Polls node n m m' (_, inr out) other h =
      rw (out, has_key-drop_key node n m.inflight, other) h

  -- Every task of the list is in flight.
  abbrev AllFlying : Dict InflightTask → Machine host.World → Type 0
  AllFlying tasks m = All (λ (t : String × InflightTask). has_key t.0 m.inflight ≡ true) tasks

  behind-AllFlying :
      (node : String) (tasks : Dict InflightTask) (m m' : Machine host.World)
      → Polls node m m'
      → has_key node tasks ≡ false
      → AllFlying tasks m
      → AllFlying tasks m'
  unfolding has_key
  behind-AllFlying node [] m m' polls fresh h = tt
  behind-AllFlying node ((n, t) ∷ tasks) m m' polls fresh h = (
    has_key-Polls node n m m' polls (ground (arith, eq_iff n node, eq_iff node n)) h.0,
    behind-AllFlying node tasks m m' polls (ground arith) h.1,
  )

  poll_pass-Reach :
      (time : ℕ) (tasks : Dict InflightTask) (m m' : Machine host.World)
      → IsDistinct tasks
      → AllFlying tasks m
      → poll_pass host ir time tasks m ≡ done m'
      → Reach host ir incoming now m m'
  unfolding poll_pass Polls
  poll_pass-Reach time [] m m' distinct flying h = rw (done_injective h) here
  poll_pass-Reach time ((node, task) ∷ tasks) m m' distinct flying h =
      let (m1, first, rest) =
        >>=-eq-done (poll_task host ir time node task m) (λ m1. poll_pass host ir time tasks m1)
          h in
      let polls = poll_task-Polls time node task m m1 first in
      reach_trans host ir incoming now (next here (polls.0 flying.0)) (
        poll_pass-Reach time tasks m1 m' distinct.1
          (behind-AllFlying node tasks m m1 polls distinct.0 flying.1) rest)

  own-AllFlying :
      (tasks : Dict InflightTask) (m : Machine host.World)
      → ((n : String) → has_key n tasks ≡ true → has_key n m.inflight ≡ true)
      → AllFlying tasks m
  unfolding has_key
  own-AllFlying [] m h = tt
  own-AllFlying ((n, t) ∷ tasks) m h = (
    h n (rw (text_test_refl n)),
    own-AllFlying tasks m (λ k e. h k (ground (arith, Bool-cases (n == k)))),
  )

  round_end-Step :
      (m m' : Machine host.World) (again : Bool)
      → round_end host m ≡ (again, m')
      → Step host ir incoming now m m'
  round_end-Step m m' again h = elim (Bool-cases m.progressed) [
    | inl moved ↦
        rw (← ap (λ (r : Bool × Machine host.World). r.1) (rw moved at h))
          (tick refl refl refl refl refl)
    | inr still ↦ elim (Bool-cases (is_nil m.inflight)) [
      | inl stuck ↦
          rw (← ap (λ (r : Bool × Machine host.World). r.1) (rw (still, stuck) at h))
            (tick refl refl refl refl refl)
      | inr waits ↦
          rw (← ap (λ (r : Bool × Machine host.World). r.1) (rw (still, waits) at h))
            (tick refl refl refl refl refl)
    ]
  ]

  module _ (run_id : String) (trigger_input : Fields) (named : NamesTasks host) where
    abbrev pub scheduled_from : Machine host.World → Outcome (Machine host.World)
    scheduled_from m =
        schedule_pass host ir run_id trigger_input incoming ir.topological_order
          (record m { progressed = false })

    abbrev pub ticked : Machine host.World → Machine host.World
    ticked m = record m { world = (host.monotonic m.world).1 }

    abbrev pub polled_from : Machine host.World → Outcome (Machine host.World)
    polled_from m = poll_pass host ir (host.monotonic m.world).0 m.inflight (ticked m)

    polled-Reach :
        (m m' : Machine host.World)
        → IsDistinct m.inflight
        → polled_from m ≡ done m'
        → Reach host ir incoming now m m'
    polled-Reach m m' distinct h =
        reach_trans host ir incoming now (next here (tick refl refl refl refl refl)) (
          poll_pass-Reach _ m.inflight (ticked m) m' distinct
            (own-AllFlying m.inflight (ticked m) (λ n e. e)) h)

    pub round-Reach :
        (m m' : Machine host.World) (again : Bool)
        → IsDistinct m.inflight
        → round host ir run_id trigger_input incoming m ≡ done (again, m')
        → Reach host ir incoming now m m'
    unfolding round
    round-Reach m m' again distinct h =
        let (m1, scheduled, rest) =
          >>=-eq-done (scheduled_from m)
            (λ m1.
              if m1.run_status == "failed"
              then done (false, m1)
              else polled_from m1 >>= λ m2. done (round_end host m2))
            h in
        let to_m1 : Reach host ir incoming now m m1 =
          reach_trans host ir incoming now (next here (tick refl refl refl refl refl)) (
            schedule_pass-Reach host now ir incoming run_id trigger_input named ir.topological_order
              _ m1 scheduled) in
        elim (Bool-cases (m1.run_status == "failed")) [
          | inl over ↦
              rw (← ap (λ (r : Bool × Machine host.World). r.1) (done_injective (rw over at rest)))
                to_m1
          | inr goes_on ↦
              let (m2, polled, end) =
                >>=-eq-done (polled_from m1) (λ m2. done (round_end host m2))
                  (rw goes_on at rest) in
              next
                (reach_trans host ir incoming now to_m1
                  (polled-Reach m1 m2 (Reach-IsDistinct to_m1 distinct) polled))
                (round_end-Step m2 m' again (done_injective end))
        ]
