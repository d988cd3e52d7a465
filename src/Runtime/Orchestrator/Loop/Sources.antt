-- ===== src/Runtime/Orchestrator/Loop/Sources.antt =====
-- No node moves before the sources of its edges are settled.
use bpg.Common.{
  String, ◌≡◌, refl, inl, inr, true, false, some, List, [], ◌∷◌, Dict, get, put, has_key, arith,
  get-put, text_cases,
}
use bpg.Value.{Fields}
use bpg.Compiler.Schema.{Edge}
use bpg.Runtime.Orchestrator.{Host, ExecutionIr, Machine, any_unsettled, is_terminal}
use bpg.Runtime.Orchestrator.Loop.Steps.{
  IsReady, Marked, Step, tick, settle_pending, begin, settle_inflight, Reach, here, next,
}
use bpg.Runtime.Orchestrator.Loop.Phases.{AllAgree, Reach-AllAgree, agrees_open, agrees_running}

any_unsettled-put :
    (k status : String) (statuses : Dict String) (edges : List Edge)
    → is_terminal (get k statuses) ≡ false
    → any_unsettled statuses edges ≡ false
    → any_unsettled (put k status statuses) edges ≡ false
unfolding any_unsettled
any_unsettled-put k status statuses [] unsettled h = refl
any_unsettled-put k status statuses (e ∷ edges) unsettled h = elim (text_cases k e.source) [
  | inl same ↦ absurd (ground (arith, ap_terminal same))
  | inr other ↦
      rw (get-put k e.source status statuses, other)
        (ground (arith, any_unsettled-put k status statuses edges unsettled))
]
  where
    ap_terminal : k ≡ e.source → is_terminal (get e.source statuses) ≡ false
    ap_terminal same = rw (← same) unsettled

module _ (host : Host) (ir : ExecutionIr) (incoming : Dict (List Edge)) where
  -- Every node with a status is the trigger, or the sources of its edges are settled.
  abbrev pub AllReady : Machine host.World → Type 0
  AllReady m = (n s : String) → get n m.node_statuses ≡ some s → IsReady host ir incoming n m

  module _ (now : String) where
    kept :
        (node status : String) (entry : Fields) (n : String) (m m' : Machine host.World)
        → is_terminal (get node m.node_statuses) ≡ false
        → Marked host now node status entry m m'
        → IsReady host ir incoming n m
        → IsReady host ir incoming n m'
    kept node status entry n m m' unsettled marked (inl t) = inl t
    kept node status entry n m m' unsettled marked (inr r) =
        inr (rw marked.statuses (any_unsettled-put node status m.node_statuses _ unsettled r))

    Marked-AllReady :
        (node status : String) (entry : Fields) (m m' : Machine host.World)
        → is_terminal (get node m.node_statuses) ≡ false
        → Marked host now node status entry m m'
        → IsReady host ir incoming node m
        → AllReady m
        → AllReady m'
    Marked-AllReady node status entry m m' unsettled marked ready h n s e =
        elim (text_cases node n) [
          | inl same ↦ rw (← same) (kept node status entry node m m' unsettled marked ready)
          | inr other ↦
              kept node status entry n m m' unsettled marked
                (h n s (rw (marked.statuses, get-put node n status m.node_statuses, other) at e))
        ]

    -- A task that ends was started, and its node had a status then.
    moved_again :
        (node status : String) (entry : Fields) (n s : String) (m m' : Machine host.World)
        → AllAgree host ir m
        → AllReady m
        → has_key node m.inflight ≡ true
        → Marked host now node status entry m m'
        → get n m'.node_statuses ≡ some s
        → IsReady host ir incoming n m'
    moved_again node status entry n s m m' agree h flying marked e =
        let (t, running) = agrees_running _ _ _ _ _ (agree node) flying in
        Marked-AllReady node status entry m m' (agrees_open _ _ _ _ _ (agree node) (inr flying))
          marked (h node t running) h n s e

    Step-AllReady :
        {m m' : Machine host.World}
        → Step host ir incoming now m m'
        → AllAgree host ir m
        → AllReady m
        → AllReady m'
    Step-AllReady (tick st lg r p i) agree h = λ n s e. rw st (h n s (rw st at e))
    Step-AllReady {m} {m'} (settle_pending node status entry pending ready marked fate p i) agree
          h =
        Marked-AllReady node status entry m m' (agrees_open _ _ _ _ _ (agree node) (inl pending))
          marked ready h
    Step-AllReady {m} {m'} (begin node entry task pending ready marked r p i) agree h =
        Marked-AllReady node "running" entry m m' (agrees_open _ _ _ _ _ (agree node) (inl pending))
          marked ready h
    Step-AllReady {m} {m'} (settle_inflight node status entry flying marked fate p i) agree h =
        λ n s e. moved_again node status entry n s m m' agree h flying marked e

    -- The sources of the edges of every node that has moved are settled, all through a run.
    pub Reach-AllReady :
        {m m' : Machine host.World}
        → Reach host ir incoming now m m'
        → AllAgree host ir m
        → AllReady m
        → AllReady m'
    Reach-AllReady here agree h = h
    Reach-AllReady (next r step) agree h =
        Step-AllReady step (Reach-AllAgree host ir incoming now r agree) (Reach-AllReady r agree h)
