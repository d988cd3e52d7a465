-- ===== src/Runtime/Orchestrator/Loop/Failing.antt =====
-- A run that has failed has a node that failed; and every edge is looked up at its target.
use bpg.Common.{
  String, ◌≡◌, refl, sym, ap, ◌∙◌, ◌⊎◌, inl, inr, true, false, some, List, [], ◌∷◌, ◌++◌, ◌==◌,
  Dict, get, put, arith, get-put, text_cases, text_test_refl, All, Option-cases,
}
use mathlib.Core.Path.{subst}
use bpg.Value.{Fields}
use bpg.Compiler.Schema.{Edge}
use bpg.Runtime.Orchestrator.{
  Host, ExecutionIr, Machine, incoming_of, incoming_table, add_incoming, any_unsettled, is_terminal,
}
use bpg.Runtime.Orchestrator.Loop.Order.{or_no_edges, incoming_of-elsewhere, incoming_of-put}
use bpg.Runtime.Orchestrator.Loop.Steps.{
  Marked, HasFate, Step, tick, settle_pending, begin, settle_inflight, Reach, here, next,
}
use bpg.Runtime.Orchestrator.Loop.Phases.{AllAgree, Reach-AllAgree, agrees_open, run_failed, is_bad}

-- Some node has failed or timed out.
abbrev pub HasBadNode : Dict String → Type 0
HasBadNode statuses = (n : String) × (s : String) × (get n statuses ≡ some s) × (is_bad s ≡ true)

bad-terminal : (s : String) → is_bad s ≡ true → is_terminal (some s) ≡ true
bad-terminal s h = ground arith

HasBadNode-put :
    (node status : String) (statuses : Dict String)
    → is_terminal (get node statuses) ≡ false
    → HasBadNode statuses
    → HasBadNode (put node status statuses)
HasBadNode-put node status statuses unsettled (n, s, e, bad) = elim (text_cases node n) [
  | inl same ↦ absurd (cc (bad-terminal s bad, rw (same, e) at unsettled))
  | inr other ↦ (n, s, rw (get-put node n status statuses, other) e, bad)
]

module _ (host : Host) (ir : ExecutionIr) (incoming : Dict (List Edge)) (now : String) where
  abbrev pub IsBlamed : Machine host.World → Type 0
  IsBlamed m = run_failed m.run_status ≡ true → HasBadNode m.node_statuses

  fated :
      (node status good : String) (entry : Fields) (m m' : Machine host.World)
      → is_terminal (get node m.node_statuses) ≡ false
      → Marked host now node status entry m m'
      → HasFate host good status m m'
      → IsBlamed m
      → IsBlamed m'
  fated node status good entry m m' unsettled marked (inl (e, r)) h failed =
      rw marked.statuses
        (HasBadNode-put node status m.node_statuses unsettled (h (ap run_failed (sym r) ∙ failed)))
  fated node status good entry m m' unsettled marked (inr (which, r)) h failed = (
    node,
    status,
    rw (marked.statuses, get-put node node status m.node_statuses, text_test_refl node) refl,
    bad which,
  )
    where
      bad : (status ≡ "failed") ⊎ (status ≡ "timed_out") → is_bad status ≡ true
      bad (inl e) = rw e refl
      bad (inr e) = rw e refl

  Step-IsBlamed :
      {m m' : Machine host.World}
      → Step host ir incoming now m m'
      → AllAgree host ir m
      → IsBlamed m
      → IsBlamed m'
  Step-IsBlamed (tick st lg r p i) agree h = λ failed. rw st (h (ap run_failed (sym r) ∙ failed))
  Step-IsBlamed {m} {m'} (settle_pending node status entry pending ready marked fate p i) agree h =
      fated node status "skipped" entry m m' (agrees_open _ _ _ _ _ (agree node) (inl pending))
        marked fate h
  Step-IsBlamed {m} {m'} (begin node entry task pending ready marked r p i) agree h = λ failed.
      rw marked.statuses (
        HasBadNode-put node "running" m.node_statuses
          (agrees_open _ _ _ _ _ (agree node) (inl pending)) (h (ap run_failed (sym r) ∙ failed)))
  Step-IsBlamed {m} {m'} (settle_inflight node status entry flying marked fate p i) agree h =
      fated node status "completed" entry m m' (agrees_open _ _ _ _ _ (agree node) (inr flying))
        marked fate h

  pub Reach-IsBlamed :
      {m m' : Machine host.World}
      → Reach host ir incoming now m m'
      → AllAgree host ir m
      → IsBlamed m
      → IsBlamed m'
  Reach-IsBlamed here agree h = h
  Reach-IsBlamed (next r step) agree h =
      Step-IsBlamed step (Reach-AllAgree host ir incoming now r agree) (Reach-IsBlamed r agree h)

module _ (statuses : Dict String) where
  settled_front :
      (xs ys : List Edge)
      → any_unsettled statuses (xs ++ ys) ≡ false
      → (any_unsettled statuses xs ≡ false) × (any_unsettled statuses ys ≡ false)
  unfolding any_unsettled
  settled_front [] ys h = (refl, h)
  settled_front (x ∷ xs) ys h = ground (arith, settled_front xs ys)

  settled_single :
      (e : Edge)
      → any_unsettled statuses (e ∷ []) ≡ false
      → is_terminal (get e.source statuses) ≡ true
  unfolding any_unsettled
  settled_single e h = ground arith

  abbrev AreSettled : String → Dict (List Edge) → Type 0
  AreSettled n table = any_unsettled statuses (incoming_of n table) ≡ false

  add_incoming-settled :
      (e : Edge) (table table' : Dict (List Edge)) (n : String)
      → add_incoming e table ≡ some table'
      → AreSettled n table'
      → AreSettled n table × ((e.target == n) ≡ true → is_terminal (get e.source statuses) ≡ true)
  add_incoming-settled e table table' n h settled = elim (Option-cases (get e.target table)) [
    | inl missing ↦ absurd (cc (rw (missing, add_incoming) at h))
    | inr (edges, found) ↦
        let made : put e.target (edges ++ e ∷ []) table ≡ table' =
          cc (rw (found, add_incoming) at h) in
        let settled' : AreSettled n (put e.target (edges ++ e ∷ []) table) = rw made settled in
        elim (text_cases e.target n) [
          | inr other ↦ (
            rw (incoming_of-elsewhere e.target n (edges ++ e ∷ []) table other) at settled',
            λ same. absurd (cc),
          )
          | inl same ↦
              let at_target : AreSettled e.target (put e.target (edges ++ e ∷ []) table) =
                subst (λ k. AreSettled k (put e.target (edges ++ e ∷ []) table)) (sym same)
                  settled' in
              let (old, new) =
                settled_front edges (e ∷ [])
                  (rw (incoming_of-put e.target (edges ++ e ∷ []) table) at at_target) in
              let before : incoming_of e.target table ≡ edges = ap or_no_edges found in
              (subst (λ k. AreSettled k table) same (rw before old), λ _. settled_single e new)
        ]
  ]

  pub incoming_table-settled :
      (edges : List Edge) (table table' : Dict (List Edge))
      → incoming_table edges table ≡ some table'
      → ((n : String) → AreSettled n table' → AreSettled n table)
        × All
            (λ (e : Edge). AreSettled e.target table' → is_terminal (get e.source statuses) ≡ true)
            edges
  unfolding incoming_table
  incoming_table-settled [] table table' h =
      let same : table ≡ table' = cc in ((λ n settled. rw same settled), tt)
  incoming_table-settled (e ∷ edges) table table' h = elim (Option-cases (add_incoming e table)) [
    | inl broken ↦ absurd (cc (rw (broken, incoming_table) at h))
    | inr (table1, added) ↦
        let (later, all) =
          incoming_table-settled edges table1 table' (rw (added, incoming_table) at h) in
        (
          λ n settled. (add_incoming-settled e table table1 n added (later n settled)).0,
          (
            λ settled.
                (add_incoming-settled e table table1 e.target added (later e.target settled)).1
                  (text_test_refl e.target),
            all,
          ),
        )
  ]
