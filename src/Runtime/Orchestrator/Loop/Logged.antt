-- ===== src/Runtime/Orchestrator/Loop/Logged.antt =====
-- The execution log of a run, replayed, gives the statuses of the run.
use bpg.Common.{
  ℕ, String, ◌≡◌, sym, Bool, false, Option, List, [], ◌∷◌, ◌==◌, Dict, get, arith, get-put, ◌⊎◌,
  inl, inr, refl, ◌∙◌,
}
use mathlib.Core.List.{◌++◌ as onto_list}
use bpg.Value.{Value, Fields}
use bpg.Compiler.Schema.{Edge}
use bpg.Runtime.Replay.Last.{first_of, says, last_status, first_of_assoc, first_of-none}
use bpg.Runtime.Orchestrator.{Host, ExecutionIr, Machine}
use bpg.Runtime.Orchestrator.Loop.Steps.{
  Marked, Step, tick, settle_pending, begin, settle_inflight, Reach, here, next,
}

last_status-append :
    (text_of : Value → String) (is_zero : ℕ → Bool) (now n : String) (log : List Fields)
    (entry : Fields)
    → last_status text_of is_zero now n (onto_list log (entry ∷ []))
      ≡ first_of (says text_of is_zero now n entry) (last_status text_of is_zero now n log)
last_status-append text_of is_zero now n [] entry =
    sym (first_of-none (says text_of is_zero now n entry))
last_status-append text_of is_zero now n (raw ∷ log) entry =
    rw (last_status-append text_of is_zero now n log entry) (
      sym (
        first_of_assoc (says text_of is_zero now n entry) (last_status text_of is_zero now n log)
          (says text_of is_zero now n raw)))

module _ (host : Host) (ir : ExecutionIr) (incoming : Dict (List Edge)) (now : String) where
  abbrev pub logged_status : String → List Fields → Option String
  logged_status n log = last_status host.str_of host.numbers.is_zero now n log

  -- Of every node with a name, the log's last word is its status.
  abbrev pub IsLogged : Machine host.World → Type 0
  IsLogged m =
      (n : String) → (n == "") ≡ false → logged_status n m.execution_log ≡ get n m.node_statuses

  Marked-IsLogged :
      (node status : String) (entry : Fields) (m m' : Machine host.World)
      → Marked host now node status entry m m'
      → IsLogged m
      → IsLogged m'
  Marked-IsLogged node status entry m m' marked h n named =
      rw
        (
          marked.logged,
          marked.statuses,
          last_status-append host.str_of host.numbers.is_zero now n m.execution_log entry,
          marked.reports n named,
          get-put node n status m.node_statuses,
        )
        (ground (arith, h n named))

  Step-IsLogged :
      {m m' : Machine host.World} → Step host ir incoming now m m' → IsLogged m → IsLogged m'
  Step-IsLogged (tick st lg r p i) h = λ n named. rw (st, lg) (h n named)
  Step-IsLogged {m} {m'} (settle_pending node status entry pending ready marked fate p i) h =
      Marked-IsLogged node status entry m m' marked h
  Step-IsLogged {m} {m'} (begin node entry task pending ready marked r p i) h =
      Marked-IsLogged node "running" entry m m' marked h
  Step-IsLogged {m} {m'} (settle_inflight node status entry flying marked fate p i) h =
      Marked-IsLogged node status entry m m' marked h

  pub Reach-IsLogged :
      {m m' : Machine host.World} → Reach host ir incoming now m m' → IsLogged m → IsLogged m'
  Reach-IsLogged here h = h
  Reach-IsLogged (next r step) h = Step-IsLogged step (Reach-IsLogged r h)

-- A part from the front of a list with one entry more is a part of the list, or all.
shorter_prefix {ℓ} :
    {A : Type ℓ} (before after log : List A) (entry : A)
    → onto_list log (entry ∷ []) ≡ onto_list before after
    → (before ≡ onto_list log (entry ∷ [])) ⊎ ((rest : List A) × (log ≡ onto_list before rest))
shorter_prefix [] after log entry e = inr (log, refl)
shorter_prefix (b ∷ []) after [] entry e = let same : entry ≡ b = cc in inl (rw same refl)
shorter_prefix (b ∷ c ∷ before) after [] entry e = absurd (cc)
shorter_prefix (b ∷ before) after (l ∷ log) entry e =
    let tails : onto_list log (entry ∷ []) ≡ onto_list before after = cc in
    elim (shorter_prefix before after log entry tails) [
      | inl all ↦ inl (cc (all, e))
      | inr (rest, part) ↦ inr (rest, cc (part, e))
    ]

module _ (host : Host) (ir : ExecutionIr) (incoming : Dict (List Edge)) (now : String) where
  -- A step leaves the log as it was, or adds one entry.
  Step-log :
      {m m' : Machine host.World}
      → Step host ir incoming now m m'
      → (m'.execution_log ≡ m.execution_log)
        ⊎ ((entry : Fields) × (m'.execution_log ≡ onto_list m.execution_log (entry ∷ [])))
  Step-log (tick st lg r p i) = inl lg
  Step-log (settle_pending node status entry pending ready marked fate p i) =
      inr (entry, marked.logged)
  Step-log (begin node entry task pending ready marked r p i) = inr (entry, marked.logged)
  Step-log (settle_inflight node status entry flying marked fate p i) = inr (entry, marked.logged)

  -- Each part from the front of the log was the log of a state on the way.
  abbrev pub OnWay : Machine host.World → List Fields → Type 0
  OnWay m log =
      (on_way : Machine host.World) × Reach host ir incoming now m on_way
      × (on_way.execution_log ≡ log)

  pub Reach-prefix :
      {m m' : Machine host.World} (before after : List Fields)
      → m.execution_log ≡ []
      → Reach host ir incoming now m m'
      → m'.execution_log ≡ onto_list before after
      → OnWay m before
  Reach-prefix {m} [] after first r log = (m, here, first)
  Reach-prefix (b ∷ before) after first here log = absurd (cc)
  Reach-prefix {m} {m'} (b ∷ before) after first (next {m = m1} r step) log = elim (Step-log step) [
    | inl same ↦ Reach-prefix (b ∷ before) after first r (sym same ∙ log)
    | inr (entry, longer) ↦
        elim (shorter_prefix (b ∷ before) after m1.execution_log entry (sym longer ∙ log)) [
          | inl all ↦ (m', next r step, longer ∙ sym all)
          | inr (rest, part) ↦ Reach-prefix (b ∷ before) rest first r part
        ]
  ]
