-- ===== src/Runtime/Orchestrator/Loop/Progress.antt =====
-- A pass that reports no progress has changed nothing, and every pending node is blocked.
use bpg.Common.{
  String, ◌≡◌, refl, sym, ap, ◌∙◌, ◌⊎◌, inl, inr, true, false, none, some, List, [], ◌∷◌, Dict, put,
  contains, Bool-cases, All,
}
use mathlib.Core.Path.{subst}
use bpg.Value.{Fields}
use bpg.Compiler.Schema.{Edge}
use bpg.Runtime.Orchestrator.{
  done, Host, InflightTask, ExecutionIr, Machine, Started, schedule_if_ready,
}
use bpg.Runtime.Orchestrator.Loop.{remove_name, settle, schedule_node, schedule_pass}
use bpg.Runtime.Orchestrator.Loop.Steps.{Calls, IsReady}
use bpg.Runtime.Orchestrator.Loop.Scheduling.{
  NamesTasks, >>=-eq-done, done_injective, Effect, settles, begins, IsBlocked,
  schedule_if_ready-Effect,
}

-- The node is not pending, or it is blocked.
abbrev pub IsStill : {W : Type 0} → Dict (List Edge) → Machine W → String → Type 0
IsStill incoming m node = (contains m.pending node ≡ false) ⊎ IsBlocked incoming node m

module _ (host : Host) (ir : ExecutionIr) (incoming : Dict (List Edge)) (run_id : String)
    (trigger_input : Fields) (named : NamesTasks host) where
  -- What the first pass does to one node.
  pub data Visited (node : String) (m m' : Machine host.World) : Type 0 where
    passed : m' ≡ m → contains m.pending node ≡ false → Visited node m m'
    blocked : m' ≡ m → IsBlocked incoming node m → Visited node m m'
    moved :
        contains m.pending node ≡ true
        → m'.pending ≡ remove_name node m.pending
        → (m'.inflight ≡ m.inflight)
          ⊎ ((task : InflightTask) × (m'.inflight ≡ put node task m.inflight))
        → m'.progressed ≡ true
        → Calls host m.world m'.world
        → Visited node m m'

  settle-Visited :
      (node : String) (m m' : Machine host.World) (task : InflightTask)
      → contains m.pending node ≡ true
      → Effect host "" node m (m', some task)
      → Visited node m (settle host node (m', some task))
  settle-Visited node m m' task pending (settles status entry task' st lg rep fate p i calls t e) =
      let same : task ≡ task' = cc in
      rw (same, e) (moved pending (ap (remove_name node) p) (inl i) refl calls)
  settle-Visited node m m' task pending (begins entry task' st lg rep r p i calls t e) =
      let same : task ≡ task' = cc in
      rw (same, e)
        (moved pending (ap (remove_name node) p) (inr (task', ap (put node task') i)) refl calls)

  answer-Visited :
      (node : String) (m : Machine host.World) (s : Started host)
      → contains m.pending node ≡ true
      → ((s ≡ (m, none)) × IsBlocked incoming node m)
        ⊎ (IsReady host ir incoming node m × Effect host "" node m s)
      → Visited node m (settle host node s)
  answer-Visited node m (m', none) pending (inl (e, stuck)) =
      blocked (ap (λ (s : Started host). s.0) e) stuck
  answer-Visited node m (m', some task) pending (inl (e, stuck)) =
      let impossible : some task ≡ none = ap (λ (s : Started host). s.1) e in absurd (cc)
  answer-Visited node m (m', none) pending
        (inr (ready, settles status entry task st lg rep fate p i calls t e)) =
      absurd (cc)
  answer-Visited node m (m', none) pending
        (inr (ready, begins entry task st lg rep r p i calls t e)) =
      absurd (cc)
  answer-Visited node m (m', some task) pending (inr (ready, effect)) =
      settle-Visited node m m' task pending effect

  pub schedule_node-Visited :
      (node : String) (m m' : Machine host.World)
      → schedule_node host ir run_id trigger_input incoming node m ≡ done m'
      → Visited node m m'
  unfolding schedule_node
  schedule_node-Visited node m m' h = elim (Bool-cases (contains m.pending node)) [
    | inr absent ↦ passed (sym (done_injective (rw (absent, schedule_node) at h))) absent
    | inl pending ↦
        let (s, ran, settled) =
          >>=-eq-done (schedule_if_ready host ir run_id trigger_input incoming node m)
            (λ s. done (settle host node s)) (rw (pending, schedule_node) at h) in
        rw (← done_injective settled) (
          answer-Visited node m s pending
            (schedule_if_ready-Effect host "" ir run_id trigger_input named incoming node m s ran))
  ]

  Visited-quiet :
      (node : String) (m m' : Machine host.World)
      → Visited node m m'
      → m'.progressed ≡ false
      → (m' ≡ m) × IsStill incoming m node
  Visited-quiet node m m' (passed e absent) quiet = (e, inl absent)
  Visited-quiet node m m' (blocked e stuck) quiet = (e, inr stuck)
  Visited-quiet node m m' (moved pending p i on calls) quiet = absurd (cc)

  pub schedule_pass-quiet :
      (nodes : List String) (m m' : Machine host.World)
      → schedule_pass host ir run_id trigger_input incoming nodes m ≡ done m'
      → m'.progressed ≡ false
      → (m' ≡ m) × All (IsStill incoming m) nodes
  unfolding schedule_pass
  schedule_pass-quiet [] m m' h quiet = (sym (done_injective h), tt)
  schedule_pass-quiet (node ∷ nodes) m m' h quiet =
      let (m1, first, rest) =
        >>=-eq-done (schedule_node host ir run_id trigger_input incoming node m)
          (λ m1. schedule_pass host ir run_id trigger_input incoming nodes m1) h in
      let (same, still) = schedule_pass-quiet nodes m1 m' rest quiet in
      let (same1, still1) =
        Visited-quiet node m m1 (schedule_node-Visited node m m1 first)
          (ap (λ (k : Machine host.World). k.progressed) (sym same) ∙ quiet) in
      (same ∙ same1, (still1, subst (λ k. All (IsStill incoming k) nodes) same1 still))
