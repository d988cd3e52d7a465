-- ===== src/Runtime/Orchestrator/Loop/Once.antt =====
-- A node is started once at most.
use bpg.Common.{
  ℕ, ◌+◌, ◌≤◌, String, ◌≡◌, refl, inl, inr, Bool, true, false, Option, none, some, List, [], ◌∷◌,
  ◌++◌, ◌==◌, if◌then◌else◌, Dict, contains, arith, eq_iff,
}
use bpg.Value.{Fields}
use bpg.Compiler.Schema.{Edge}
use bpg.Runtime.Replay.Last.{says}
use bpg.Runtime.Orchestrator.{Host, ExecutionIr, Machine}
use bpg.Runtime.Orchestrator.Loop.Steps.{
  Marked, HasFate, Step, tick, settle_pending, begin, settle_inflight, Reach, here, next,
  contains-remove_name,
}

abbrev pub is_running : Option String → Bool
is_running none = false
is_running (some s) = s == "running"

module _ (host : Host) (now : String) where
  -- How many entries of the log say that the node is running.
  abbrev pub starts : String → List Fields → ℕ
  starts n [] = 0
  starts n (entry ∷ log) =
      (if is_running (says host.str_of host.numbers.is_zero now n entry) then 1 else 0)
      + starts n log

  starts-append :
      (n : String) (log : List Fields) (entry : Fields)
      → starts n (log ++ entry ∷ [])
        ≡ starts n log
          + (if is_running (says host.str_of host.numbers.is_zero now n entry) then 1 else 0)
  starts-append n [] entry = omega arith
  starts-append n (raw ∷ log) entry = omega (arith, starts-append n log entry)

  -- Every node with a name has started once at most, and not while it is pending.
  abbrev pub IsOnce : Machine host.World → Type 0
  IsOnce m =
      (n : String)
      → (n == "") ≡ false
      → starts n m.execution_log + (if contains m.pending n then 1 else 0) ≤ 1

  fate_not_running :
      (good status : String) (m m' : Machine host.World)
      → HasFate host good status m m'
      → (good == "running") ≡ false
      → (status == "running") ≡ false
  fate_not_running good status m m' (inl (e, r)) g = rw e g
  fate_not_running good status m m' (inr (inl e, r)) g = rw e refl
  fate_not_running good status m m' (inr (inr e, r)) g = rw e refl

  starts-Marked :
      (node status : String) (entry : Fields) (m m' : Machine host.World) (n : String)
      → Marked host now node status entry m m'
      → (n == "") ≡ false
      → starts n m'.execution_log
        ≡ starts n m.execution_log
          + (if node == n then (if status == "running" then 1 else 0) else 0)
  starts-Marked node status entry m m' n marked is_named =
      rw (marked.logged, starts-append n m.execution_log entry, marked.reports n is_named)
        (ground arith)

  module _ (ir : ExecutionIr) (incoming : Dict (List Edge)) where
    Step-IsOnce :
        {m m' : Machine host.World} → Step host ir incoming now m m' → IsOnce m → IsOnce m'
    Step-IsOnce (tick st lg r p i) h = λ n is_named. rw (lg, p) (h n is_named)
    Step-IsOnce {m} {m'} (settle_pending node status entry pending ready marked fate p i) h =
        λ n is_named.
          let calm = fate_not_running "skipped" status m m' fate refl in
          rw (p, contains-remove_name node n m.pending)
            (ground (arith, h n is_named, starts-Marked node status entry m m' n marked is_named))
    Step-IsOnce {m} {m'} (begin node entry task pending ready marked r p i) h = λ n is_named.
        rw (p, contains-remove_name node n m.pending)
          (ground (
            arith,
            h n is_named,
            starts-Marked node "running" entry m m' n marked is_named,
            eq_iff node n,
            pending_too node n m.pending pending,
          ))
      where
        pending_too :
            (k j : String) (xs : List String) → contains xs k ≡ true → k ≡ j → contains xs j ≡ true
        pending_too k j xs e same = rw (← same) e
    Step-IsOnce {m} {m'} (settle_inflight node status entry flying marked fate p i) h =
        λ n is_named.
          let calm = fate_not_running "completed" status m m' fate refl in
          rw p
            (ground (arith, h n is_named, starts-Marked node status entry m m' n marked is_named))

    pub Reach-IsOnce :
        {m m' : Machine host.World} → Reach host ir incoming now m m' → IsOnce m → IsOnce m'
    Reach-IsOnce here h = h
    Reach-IsOnce (next r step) h = Step-IsOnce step (Reach-IsOnce r h)
