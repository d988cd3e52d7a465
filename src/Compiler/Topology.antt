-- ===== src/Compiler/Topology.antt =====
-- `_topological_sort` of src/bpg/compiler/ir.py: Kahn's algorithm over the nodes and edges of a
-- process. Only the endpoints of an edge matter to it. A `KeyError` of `adj[edge.source]` or
-- `in_degree[edge.target]` is the outcome `key_error`.
pub mod Counting
pub mod Build
pub mod Loop
pub mod Invariant
pub mod Correct
mod Examples
use bpg.Common.{
  ℕ, zero, suc, ◌+◌, ◌-◌, String, ◌≡◌, Option, none, some, List, [], ◌∷◌, ◌++◌, Dict, get, put,
  nat_eq, length, if◌then◌else◌,
}

pub record Arc : Type 0 where
  pub source : String
  pub target : String

pub data Sorted : Type 0 where
  sorted : List String → Sorted
  cycle_detected : Sorted
  key_error : Sorted

-- `{name: [] for name in process.nodes}` and `{name: 0 for name in process.nodes}`
unfoldable pub fill {ℓ} : {V : Type ℓ} → V → List String → Dict V
fill v [] = []
fill v (name ∷ names) = (name, v) ∷ fill v names

pub record Tables : Type 0 where
  pub adj : Dict (List String)
  pub in_degree : Dict ℕ

-- One edge: `adj[source].append(target)`, then `in_degree[target] += 1`.
pub add_edge : Arc → Tables → Option Tables
add_edge e t = elim (get e.source t.adj) [
  | none ↦ none
  | some out ↦ elim (get e.target t.in_degree) [
    | none ↦ none
    | some d ↦ some (record {
      adj = put e.source (out ++ e.target ∷ []) t.adj;
      in_degree = put e.target (d + 1) t.in_degree;
    })
  ]
]

pub add_edges : List Arc → Tables → Option Tables
unfolding add_edge
add_edges [] t = some t
add_edges (e ∷ es) t = elim (add_edge e t) [ none ↦ none | some t' ↦ add_edges es t' ]

-- The nodes without incoming edges, in declaration order.
pub seed : List String → Dict ℕ → List String
seed [] degrees = []
seed (name ∷ names) degrees =
    let rest = seed names degrees in
    elim (get name degrees) [ none ↦ rest | some d ↦ if nat_eq d 0 then name ∷ rest else rest ]

pub record Work : Type 0 where
  pub degrees : Dict ℕ
  pub queue : List String

-- The body of the inner `for`: the count falls by one, and at zero the neighbour is enqueued. The
-- count before is tested against one, which is the test of the count after against zero.
-- Every neighbour has a count, since `add_edge` found one.
pub relax : List String → Work → Work
relax [] w = w
relax (n ∷ ns) w = elim (get n w.degrees) [
  | none ↦ relax ns w
  | some d ↦ relax ns (record {
    degrees = put n (d - 1) w.degrees;
    queue = if nat_eq d 1 then w.queue ++ n ∷ [] else w.queue;
  })
]

unfoldable pub neighbours : String → Dict (List String) → List String
neighbours node adj = elim (get node adj) [ none ↦ [] | some out ↦ out ]

-- The `while queue` loop; `none` is fuel that ran out, which `Loop` shows not to happen.
pub drain : ℕ → Dict (List String) → Work → List String → Option (List String)
unfolding relax neighbours
drain zero adj w order = none
drain (suc fuel) adj w order = elim w.queue [
  | [] ↦ some order
  | node ∷ rest ↦
      drain fuel adj (relax (neighbours node adj) (record { degrees = w.degrees; queue = rest }))
        (order ++ node ∷ [])
]

pub finish : List String → Option (List String) → Option Sorted
finish nodes none = none
finish nodes (some order) =
    some (if nat_eq (length order) (length nodes) then sorted order else cycle_detected)

-- The whole function. Every node enters the queue at most once, so one round more than there are
-- nodes is enough.
unfoldable pub topological_sort : List String → List Arc → Option Sorted
unfolding fill add_edges seed drain finish
topological_sort nodes edges =
    elim (add_edges edges (record { adj = fill [] nodes; in_degree = fill 0 nodes })) [
      | none ↦ some key_error
      | some t ↦ finish nodes (
          drain (suc (length nodes)) t.adj
            (record { degrees = t.in_degree; queue = seed nodes t.in_degree }) [])
    ]
