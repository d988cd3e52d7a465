-- ===== src/Compiler/Cycles.antt =====
-- The graph checks of `validate_graph_structure` in src/bpg/compiler/validator.py: the trigger, the
-- endpoints of the edges and the search for a cycle. An `elim` on a test is an `if` whose other branch
-- is not computed.
pub mod Search
pub mod Ranks
pub mod Decides
mod Examples
use bpg.Common.{
  ℕ, zero, suc, String, Bool, true, false, Option, none, some, List, [], ◌∷◌, ◌++◌, ◌==◌, Dict, get,
  put, contains, length, if◌then◌else◌,
}
use bpg.Compiler.Topology.{Arc, fill, neighbours}

pub data GraphError : Type 0 where
  unknown_trigger : GraphError
  input_outside_module : GraphError
  unknown_source : String → GraphError
  unknown_target : String → GraphError
  trigger_entered : GraphError
  cycle_detected_at : String → GraphError

-- The name that stands for the input of a module.
abbrev pub input_name : String
input_name = "__input__"

pub data Linked : Type 0 where
  linked : Dict (List String) → Linked
  refused : GraphError → Linked

-- The body of the loop over the edges.
pub link_edge : String → Arc → Dict (List String) → Linked
link_edge trigger e adj =
    if e.source == input_name
    then (if trigger == input_name then linked adj else refused input_outside_module)
    else elim (get e.source adj) [
      | none ↦ refused (unknown_source e.source)
      | some out ↦ elim (get e.target adj) [
        | none ↦ refused (unknown_target e.target)
        | some _ ↦ linked (put e.source (out ++ e.target ∷ []) adj)
      ]
    ]

pub link_edges : String → List Arc → Dict (List String) → Linked
unfolding link_edge
link_edges trigger [] adj = linked adj
link_edges trigger (e ∷ es) adj = elim (link_edge trigger e adj) [
  | refused error ↦ refused error
  | linked adj' ↦ link_edges trigger es adj'
]

-- An edge leads to the trigger.
pub enters : String → List Arc → Bool
enters trigger [] = false
enters trigger (e ∷ es) = if e.target == trigger then true else enters trigger es

-- What a visit leaves: the set `visited`, or the error with the node that `path` holds already.
pub data Visit : Type 0 where
  visited : List String → Visit
  cycle_at : String → Visit

-- `for v in …: visit(v)`, the first error ends it.
pub visit_each : (List String → String → Option Visit) → List String → List String → Option Visit
visit_each go done [] = some (visited done)
visit_each go done (v ∷ vs) = elim (go done v) [
  | none ↦ none
  | some result ↦ elim result [
    | cycle_at u ↦ some (cycle_at u)
    | visited done' ↦ visit_each go done' vs
  ]
]

-- `visited.add(u)`
pub leave : String → Option Visit → Option Visit
leave u none = none
leave u (some (cycle_at w)) = some (cycle_at w)
leave u (some (visited done)) = some (visited (u ∷ done))

-- `visit(u)`; `path` grows on the way down and is as before after the call. `none` is fuel that ran out.
pub visit : ℕ → Dict (List String) → List String → List String → String → Option Visit
unfolding neighbours visit_each leave
visit zero adj path done u = none
visit (suc fuel) adj path done u = elim (contains path u) [
  | true ↦ some (cycle_at u)
  | false ↦ elim (contains done u) [
    | true ↦ some (visited done)
    | false ↦ leave u (visit_each (λ d v. visit fuel adj (u ∷ path) d v) done (neighbours u adj))
  ]
]

-- `if node not in visited: visit(node)`
pub visit_root : ℕ → Dict (List String) → List String → String → Option Visit
unfolding visit
visit_root fuel adj done u = elim (contains done u) [
  | true ↦ some (visited done)
  | false ↦ visit fuel adj [] done u
]

-- The path holds each node at most once, so one call more than there are nodes is deep enough.
pub find_cycle : List String → Dict (List String) → Option Visit
unfolding visit_root visit_each
find_cycle nodes adj = visit_each (λ d u. visit_root (suc (length nodes)) adj d u) [] nodes

pub data GraphCheck : Type 0 where
  accepted : GraphCheck
  rejected : GraphError → GraphCheck

pub checked : Option Visit → Option GraphCheck
checked none = none
checked (some (visited done)) = some accepted
checked (some (cycle_at u)) = some (rejected (cycle_detected_at u))

-- Past the loop over the edges.
pub check_linked : List String → String → List Arc → Linked → Option GraphCheck
unfolding enters find_cycle checked
check_linked nodes trigger edges (refused error) = some (rejected error)
check_linked nodes trigger edges (linked adj) =
    elim (if trigger == input_name then false else enters trigger edges) [
      | true ↦ some (rejected trigger_entered)
      | false ↦ checked (find_cycle nodes adj)
    ]

-- The part of the function that is about the graph alone.
pub check_graph : List String → String → List Arc → Option GraphCheck
unfolding fill link_edges check_linked
check_graph nodes trigger edges =
    elim (if trigger == input_name then true else contains nodes trigger) [
      | false ↦ some (rejected unknown_trigger)
      | true ↦ check_linked nodes trigger edges (link_edges trigger edges (fill [] nodes))
    ]
