-- ===== src/Runtime/Orchestrator/Loop/Steps.antt =====
-- The steps of a run, as a relation between its states, and what they do to the tables.
use bpg.Common.{
  suc, ◌≤◌, ◌<◌, String, ◌≡◌, ◌⊎◌, true, false, some, List, [], ◌∷◌, ◌==◌, if◌then◌else◌, Dict, put,
  has_key, contains, length, arith, eq_iff,
}
use mathlib.Core.List.{◌++◌ as onto_list}
use bpg.Value.{Fields}
use bpg.Compiler.Schema.{Edge}
use bpg.Runtime.Orchestrator.{
  Host, StartCall, InflightTask, ExecutionIr, Machine, incoming_of, any_unsettled,
}
use bpg.Runtime.Orchestrator.Loop.{remove_name, drop_key}
use bpg.Runtime.Orchestrator.Entries.{Reports}

pub contains-remove_name :
    (k n : String) (xs : List String)
    → contains (remove_name k xs) n ≡ (if k == n then false else contains xs n)
unfolding contains remove_name
contains-remove_name k n [] = ground arith
contains-remove_name k n (x ∷ xs) =
    ground (arith, contains-remove_name k n xs, eq_iff x k, eq_iff x n, eq_iff k n)

pub length-remove_name :
    (k : String) (xs : List String) → contains xs k ≡ true → length (remove_name k xs) < length xs
unfolding contains remove_name
length-remove_name k [] h = cc
length-remove_name k (x ∷ xs) h = ground (arith, length-remove_name k xs, shorter xs)
  where
    shorter : (ys : List String) → length (remove_name k ys) ≤ length ys
    shorter [] = omega arith
    shorter (y ∷ ys) = ground (arith, shorter ys)

module _ {ℓ} {V : Type ℓ} where
  pub has_key-drop_key :
      (k n : String) (d : Dict V)
      → has_key n (drop_key k d) ≡ (if k == n then false else has_key n d)
  unfolding has_key drop_key
  has_key-drop_key k n [] = ground arith
  has_key-drop_key k n ((j, v) ∷ d) =
      ground (arith, has_key-drop_key k n d, eq_iff j k, eq_iff j n, eq_iff k n)

  pub length-drop_key-le : (k : String) (d : Dict V) → length (drop_key k d) ≤ length d
  unfolding drop_key
  length-drop_key-le k [] = omega arith
  length-drop_key-le k ((j, v) ∷ d) = ground (arith, length-drop_key-le k d)

  pub length-drop_key :
      (k : String) (d : Dict V) → has_key k d ≡ true → length (drop_key k d) < length d
  unfolding has_key drop_key
  length-drop_key k [] h = cc
  length-drop_key k ((j, v) ∷ d) h = ground (arith, length-drop_key k d, length-drop_key-le k d)

  pub length-put-le : (k : String) (v : V) (d : Dict V) → length (put k v d) ≤ suc (length d)
  unfolding put
  length-put-le k v [] = omega arith
  length-put-le k v ((j, w) ∷ d) = ground (arith, length-put-le k v d)

module _ (host : Host) where
  -- The world after some calls of the surroundings.
  pub data Calls (w : host.World) : host.World → Type 0 where
    no_call : Calls w w
    start_call :
        {v : host.World} (call : StartCall) → Calls w v → Calls w (host.start_node call v).1
    poll_call : {v : host.World} (task_id : String) → Calls w v → Calls w (host.poll task_id v).1
    cancel_call :
        {v u : host.World} (task_id : String)
        → Calls w v
        → host.cancel task_id v ≡ some u
        → Calls w u
    monotonic_call : {v : host.World} → Calls w v → Calls w (host.monotonic v).1
    now_call : {v : host.World} → Calls w v → Calls w (host.now_iso v).1

  -- The status is the good one and the run goes on as before, or the run has failed with the node.
  abbrev pub HasFate : String → String → Machine host.World → Machine host.World → Type 0
  HasFate good status m m' =
      ((status ≡ good) × (m'.run_status ≡ m.run_status))
      ⊎ (((status ≡ "failed") ⊎ (status ≡ "timed_out")) × (m'.run_status ≡ "failed"))

  module _ (now : String) where
    -- The node has this status now, and the log says so; all else of the two is as before.
    pub record Marked (node status : String) (entry : Fields) (m m' : Machine host.World)
        : Type 0 where
      pub statuses : m'.node_statuses ≡ put node status m.node_statuses
      pub logged : m'.execution_log ≡ onto_list m.execution_log (entry ∷ [])
      pub reports : Reports host.str_of host.numbers.is_zero now node status entry

module _ (host : Host) (ir : ExecutionIr) (incoming : Dict (List Edge)) where
  -- The sources of the node's edges are settled, or it is the trigger.
  abbrev pub IsReady : String → Machine host.World → Type 0
  IsReady node m =
      ((node == ir.trigger) ≡ true)
      ⊎ (any_unsettled m.node_statuses (incoming_of node incoming) ≡ false)

  module _ (now : String) where
    pub data Step (m m' : Machine host.World) : Type 0 where
      -- A call of the surroundings, or none.
      tick :
          m'.node_statuses ≡ m.node_statuses
          → m'.execution_log ≡ m.execution_log
          → m'.run_status ≡ m.run_status
          → m'.pending ≡ m.pending
          → m'.inflight ≡ m.inflight
          → Step m m'
      -- A pending node is skipped or refused.
      settle_pending :
          (node status : String) (entry : Fields)
          → contains m.pending node ≡ true
          → IsReady node m
          → Marked host now node status entry m m'
          → HasFate host "skipped" status m m'
          → m'.pending ≡ remove_name node m.pending
          → m'.inflight ≡ m.inflight
          → Step m m'
      -- A pending node starts.
      begin :
          (node : String) (entry : Fields) (task : InflightTask)
          → contains m.pending node ≡ true
          → IsReady node m
          → Marked host now node "running" entry m m'
          → m'.run_status ≡ m.run_status
          → m'.pending ≡ remove_name node m.pending
          → m'.inflight ≡ put node task m.inflight
          → Step m m'
      -- A task in flight ends.
      settle_inflight :
          (node status : String) (entry : Fields)
          → has_key node m.inflight ≡ true
          → Marked host now node status entry m m'
          → HasFate host "completed" status m m'
          → m'.pending ≡ m.pending
          → m'.inflight ≡ drop_key node m.inflight
          → Step m m'

    pub data Reach (s : Machine host.World) : Machine host.World → Type 0 where
      here : Reach s s
      next : {m m' : Machine host.World} → Reach s m → Step m m' → Reach s m'

    pub reach_trans : {s m t : Machine host.World} → Reach s m → Reach m t → Reach s t
    reach_trans r here = r
    reach_trans r (next q step) = next (reach_trans r q) step
