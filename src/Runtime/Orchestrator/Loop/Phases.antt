-- ===== src/Runtime/Orchestrator/Loop/Phases.antt =====
-- Where a node stands during a run: it waits, its task is in flight, or it is settled, and the tables agree
-- on it.
use bpg.Common.{
  String, ◌≡◌, refl, ◌⊎◌, inl, inr, Bool, true, false, not, ◌&&◌, ◌||◌, Option, none, some, List,
  ◌==◌, if◌then◌else◌, Dict, get, put, has_key, contains, arith, eq_iff, Bool-cases, get-put,
  text_cases, text_test_refl, has_key-put,
}
use bpg.Value.{Fields}
use bpg.Compiler.Schema.{Edge}
use bpg.Runtime.Orchestrator.{Host, ExecutionIr, InflightTask, Machine, is_terminal}
use bpg.Runtime.Orchestrator.Loop.{remove_name, initial}
use bpg.Runtime.Orchestrator.Loop.Steps.{
  Marked, HasFate, Step, tick, settle_pending, begin, settle_inflight, Reach, here, next,
  contains-remove_name, has_key-drop_key,
}

abbrev pub is_good : String → Bool
is_good status = status == "completed" || status == "skipped"

abbrev pub is_bad : String → Bool
is_bad status = status == "failed" || status == "timed_out"

-- Whether the tables agree on a node: is it one of the order, is it pending, is it in flight, its status,
-- and whether the run has failed.
pub agrees : Bool → Bool → Bool → Option String → Bool → Bool
agrees listed true true status run_failed = false
agrees listed true false none run_failed = listed
agrees listed true false (some s) run_failed = false
agrees listed false true none run_failed = false
agrees listed false true (some s) run_failed = listed && s == "running"
agrees listed false false none run_failed = not listed
agrees listed false false (some s) run_failed = listed && (is_good s || (is_bad s && run_failed))

agrees_failed :
    (l p i : Bool) (s : Option String) (f : Bool)
    → agrees l p i s f ≡ true
    → agrees l p i s true ≡ true
unfolding agrees
agrees_failed l true true s f h = h
agrees_failed l true false none f h = h
agrees_failed l true false (some s) f h = h
agrees_failed l false true none f h = h
agrees_failed l false true (some s) f h = h
agrees_failed l false false none f h = h
agrees_failed l false false (some s) f h = ground arith

-- A node that is pending, and one that is in flight.
pub agrees_pending :
    (l p i : Bool) (s : Option String) (f : Bool)
    → agrees l p i s f ≡ true
    → p ≡ true
    → (l ≡ true) × (i ≡ false) × (s ≡ none)
unfolding agrees
agrees_pending l true true s f h e = absurd (cc)
agrees_pending l true false none f h e = (h, refl, refl)
agrees_pending l true false (some s) f h e = absurd (cc)
agrees_pending l false i s f h e = absurd (cc)

pub agrees_inflight :
    (l p i : Bool) (s : Option String) (f : Bool)
    → agrees l p i s f ≡ true
    → i ≡ true
    → (l ≡ true) × (p ≡ false)
unfolding agrees
agrees_inflight l true true s f h e = absurd (cc)
agrees_inflight l true false s f h e = absurd (cc)
agrees_inflight l false true none f h e = absurd (cc)
agrees_inflight l false true (some s) f h e = (ground arith, refl)
agrees_inflight l false false s f h e = absurd (cc)

-- A node of the order that neither waits nor runs is settled, and well unless the run has failed.
pub agrees_settled :
    (l p i : Bool) (s : Option String) (f : Bool)
    → agrees l p i s f ≡ true
    → l ≡ true
    → p ≡ false
    → i ≡ false
    → (t : String) × (s ≡ some t) × (is_terminal s ≡ true) × ((f ≡ true) ⊎ (is_good t ≡ true))
unfolding agrees
agrees_settled l true i s f h listed e k = absurd (cc)
agrees_settled l false true s f h listed e k = absurd (cc)
agrees_settled l false false none f h listed e k = absurd (ground arith)
agrees_settled l false false (some s) f h listed e k = (s, refl, ground arith, ground arith)

agrees_listed : (l p i : Bool) (s : String) (f : Bool) → agrees l p i (some s) f ≡ true → l ≡ true
unfolding agrees
agrees_listed l true true s f h = absurd (cc)
agrees_listed l true false s f h = absurd (cc)
agrees_listed l false true s f h = ground arith
agrees_listed l false false s f h = ground arith

-- A node in flight has a status.
pub agrees_running :
    (l p i : Bool) (s : Option String) (f : Bool)
    → agrees l p i s f ≡ true
    → i ≡ true
    → (t : String) × (s ≡ some t)
unfolding agrees
agrees_running l true true s f h e = absurd (cc)
agrees_running l true false s f h e = absurd (cc)
agrees_running l false true none f h e = absurd (cc)
agrees_running l false true (some s) f h e = (s, refl)
agrees_running l false false s f h e = absurd (cc)

-- A node that moves is not settled yet.
pub agrees_open :
    (l p i : Bool) (s : Option String) (f : Bool)
    → agrees l p i s f ≡ true
    → (p ≡ true) ⊎ (i ≡ true)
    → is_terminal s ≡ false
unfolding agrees
agrees_open l true true s f h e = absurd (cc)
agrees_open l true false none f h e = refl
agrees_open l true false (some s) f h e = absurd (cc)
agrees_open l false true none f h e = refl
agrees_open l false true (some s) f h e = rw (running_of s (ground arith)) refl
  where
    running_of : (t : String) → (t == "running") ≡ true → t ≡ "running"
    running_of t e = (eq_iff t "running").0 e
agrees_open l false false s f h e = absurd (ground arith)

abbrev pub run_failed : String → Bool
run_failed status = status == "failed"

unmoved :
    (test : String → Bool) (node : String)
    → test node ≡ false
    → (n : String) → test n ≡ (if node == n then false else test n)
unmoved test node e n = elim (text_cases node n) [
  | inl same ↦ rw (← same) (rw (text_test_refl node) e)
  | inr other ↦ rw other refl
]

module _ (host : Host) (ir : ExecutionIr) where
  -- The tables agree on every node.
  abbrev pub AllAgree : Machine host.World → Type 0
  AllAgree m =
      (n : String)
      → agrees (contains ir.topological_order n) (contains m.pending n) (has_key n m.inflight)
          (get n m.node_statuses) (run_failed m.run_status)
        ≡ true

  settled_fate :
      (status good : String) (m m' : Machine host.World)
      → HasFate host good status m m'
      → is_good good ≡ true
      → agrees true false false (some status) (run_failed m'.run_status) ≡ true
  unfolding agrees
  settled_fate status good m m' (inl (e, r)) g = rw e (ground arith)
  settled_fate status good m m' (inr (inl e, r)) g = rw (e, r) refl
  settled_fate status good m m' (inr (inr e, r)) g = rw (e, r) refl

  -- Only one node moves, to where it is now settled.
  moved :
      (node status good : String) (m m' : Machine host.World)
      → AllAgree m
      → m'.node_statuses ≡ put node status m.node_statuses
      → HasFate host good status m m'
      → is_good good ≡ true
      → contains ir.topological_order node ≡ true
      → ((n : String) → contains m'.pending n ≡ (if node == n then false else contains m.pending n))
      → ((n : String) → has_key n m'.inflight ≡ (if node == n then false else has_key n m.inflight))
      → AllAgree m'
  moved node status good m m' h st fate g listed pending inflight n = elim (text_cases node n) [
    | inl same ↦ rw (← same) (
        rw
          (
            st,
            pending node,
            inflight node,
            get-put node node status m.node_statuses,
            text_test_refl node,
            listed,
          )
          (settled_fate status good m m' fate g))
    | inr other ↦ elim fate [
      | inl (_, r) ↦
          rw (st, pending n, inflight n, get-put node n status m.node_statuses, other, r) (h n)
      | inr (_, r) ↦
          rw (st, pending n, inflight n, get-put node n status m.node_statuses, other, r)
            (agrees_failed _ _ _ _ _ (h n))
    ]
  ]

  module _ (incoming : Dict (List Edge)) (now : String) where
    started :
        (node : String) (entry : Fields) (task : InflightTask) (m m' : Machine host.World)
        → AllAgree m
        → contains m.pending node ≡ true
        → Marked host now node "running" entry m m'
        → m'.run_status ≡ m.run_status
        → m'.pending ≡ remove_name node m.pending
        → m'.inflight ≡ put node task m.inflight
        → AllAgree m'
    started node entry task m m' h pending marked r p i n = elim (text_cases node n) [
      | inl same ↦
          let (listed, flying, unset) = agrees_pending _ _ _ _ _ (h node) pending in
          rw (← same) (
            rw
              (
                marked.statuses,
                p,
                i,
                contains-remove_name node node m.pending,
                has_key-put node node task m.inflight,
                get-put node node "running" m.node_statuses,
                text_test_refl node,
                listed,
              )
              (unfold agrees in refl))
      | inr other ↦
          rw
            (
              marked.statuses,
              p,
              i,
              r,
              contains-remove_name node n m.pending,
              has_key-put node n task m.inflight,
              get-put node n "running" m.node_statuses,
              other,
            )
            (h n)
    ]

    Step-AllAgree :
        {m m' : Machine host.World} → Step host ir incoming now m m' → AllAgree m → AllAgree m'
    Step-AllAgree (tick st lg r p i) h = λ n. rw (st, r, p, i) (h n)
    Step-AllAgree {m} {m'} (settle_pending node status entry pending ready marked fate p i) h =
        let (listed, flying, unset) = agrees_pending _ _ _ _ _ (h node) pending in
        moved node status "skipped" m m' h marked.statuses fate refl listed
          (λ n. rw p (contains-remove_name node n m.pending))
          (λ n. rw i (unmoved (λ k. has_key k m.inflight) node flying n))
    Step-AllAgree {m} {m'} (begin node entry task pending ready marked r p i) h =
        started node entry task m m' h pending marked r p i
    Step-AllAgree {m} {m'} (settle_inflight node status entry flying marked fate p i) h =
        let (listed, unset) = agrees_inflight _ _ _ _ _ (h node) flying in
        moved node status "completed" m m' h marked.statuses fate refl listed
          (λ n. rw p (unmoved (λ k. contains m.pending k) node unset n))
          (λ n. rw i (has_key-drop_key node n m.inflight))

    pub Reach-AllAgree :
        {m m' : Machine host.World} → Reach host ir incoming now m m' → AllAgree m → AllAgree m'
    Reach-AllAgree here h = h
    Reach-AllAgree (next r step) h = Step-AllAgree step (Reach-AllAgree r h)

  pub start-AllAgree :
      (run_id : String) (trigger_input : Fields) (w : host.World)
      → AllAgree (initial host ir run_id trigger_input w)
  unfolding agrees get has_key
  start-AllAgree run_id trigger_input w n = elim (Bool-cases (contains ir.topological_order n)) [
    | inl e ↦ rw e refl
    | inr e ↦ rw e refl
  ]

  -- A node that has a status is one of the order.
  pub listed_of_status :
      (m : Machine host.World) (n s : String)
      → AllAgree m
      → get n m.node_statuses ≡ some s
      → contains ir.topological_order n ≡ true
  listed_of_status m n s h e = agrees_listed _ _ _ s _ (rw e at (h n))
