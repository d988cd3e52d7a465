-- ===== src/Compiler/Plan.antt =====
-- The plan of src/bpg/compiler/planner.py: the difference between a process and the deployed one, and
-- the changes that are refused. Sets are lists of which only the members matter; the sorted lists of the
-- plan are without repetition. `==` of models is pydantic's, and a parameter.
mod EdgeIds
pub mod Changes
pub mod Guards
mod Examples
use Prim.Native.String.{◌++◌ as append}
use bpg.Common.{
  String, Bool, true, false, ◌&&◌, not, Option, none, some, List, [], ◌∷◌, ◌==◌, Dict, get, has_key,
  keys, contains, map, if◌then◌else◌,
}
use bpg.Common.Text.{sort_names, union}
use bpg.Value.{Fields}
use bpg.Compiler.Schema.{NodeType, Edge, ResolvedNode}
use bpg.Compiler.Config.Breaking.{
  Reason, BreakCheck, not_breaking, breaking, unreadable, is_breaking_node_type_change,
}

pub record ModuleDefinition : Type 0 where
  pub version : String
  pub rest : Fields

-- What the plan reads of a `Process`.
pub record Process : Type 0 where
  pub types : Dict (Dict String)
  pub node_types : Dict NodeType
  pub modules : Dict ModuleDefinition
  pub node_names : List String
  pub edges : List Edge
  pub trigger : String

pub record ProcessIr : Type 0 where
  pub process : Process
  pub resolved_nodes : Dict ResolvedNode

-- `==` of models; of two resolved nodes it compares `instance`, and `node_type`.
pub record SameModels : Type 0 where
  pub same_instance : ResolvedNode → ResolvedNode → Bool
  pub same_definition : ResolvedNode → ResolvedNode → Bool
  pub same_type : Dict String → Dict String → Bool
  pub same_module : ModuleDefinition → ModuleDefinition → Bool

pub record Plan : Type 0 where
  pub added_nodes : List String
  pub removed_nodes : List String
  pub modified_nodes : List String
  pub added_edges : List String
  pub removed_edges : List String
  pub trigger_changed : Bool

pub condition_of : Option String → String
condition_of none = ""
condition_of (some when) = if when == "" then "" else append " [when: " (append when "]")

-- `_edge_id`
pub edge_id : Edge → String
unfolding condition_of
edge_id e = append e.source (append " -> " (append e.target (condition_of e.when)))

pub edge_ids : List Edge → List String
unfolding edge_id
edge_ids [] = []
edge_ids (e ∷ es) = edge_id e ∷ edge_ids es

-- The members that a test picks, each once.
pub members_where : (String → Bool) → List String → List String
unfolding union
members_where p [] = []
members_where p (x ∷ xs) =
    let rest = members_where p xs in if p x then union (x ∷ []) rest else rest

-- `sorted(list(xs - ys))`
pub difference : List String → List String → List String
unfolding members_where sort_names contains
difference xs ys = sort_names (members_where (λ x. not (contains ys x)) xs)

module _ (models : SameModels) where
  pub is_modified : Dict ResolvedNode → Dict ResolvedNode → String → Bool
  unfolding get
  is_modified new old name = elim (get name new) [
    | none ↦ false
    | some new_node ↦ elim (get name old) [
      | none ↦ false
      | some old_node ↦
          not (models.same_instance new_node old_node && models.same_definition new_node old_node)
    ]
  ]

  -- `_compute_diff`, without the checks at its end.
  pub compute_diff : ProcessIr → Option ProcessIr → Plan
  unfolding edge_ids difference is_modified keys sort_names
  compute_diff new none = record {
    added_nodes = sort_names new.process.node_names;
    removed_nodes = [];
    modified_nodes = [];
    added_edges = edge_ids new.process.edges;
    removed_edges = [];
    trigger_changed = true;
  }
  compute_diff new (some old) = record {
    added_nodes = difference (keys new.resolved_nodes) (keys old.resolved_nodes);
    removed_nodes = difference (keys old.resolved_nodes) (keys new.resolved_nodes);
    modified_nodes = sort_names (
        members_where (is_modified new.resolved_nodes old.resolved_nodes)
          (keys new.resolved_nodes));
    added_edges = difference (edge_ids new.process.edges) (edge_ids old.process.edges);
    removed_edges = difference (edge_ids old.process.edges) (edge_ids new.process.edges);
    trigger_changed = not (new.process.trigger == old.process.trigger);
  }

-- Also the `ValueError` of a type that cannot be read, `type_unreadable`.
pub data ImmutabilityError : Type 0 where
  type_immutable : String → ImmutabilityError
  version_required : String → Reason → ImmutabilityError
  module_immutable : String → ImmutabilityError
  type_unreadable : ImmutabilityError

module _ (models : SameModels) where
  -- One type, node type or module of the old process that the new one has as well.
  pub type_error : String → Dict String → Dict String → Option ImmutabilityError
  type_error name old_type new_type =
      if models.same_type new_type old_type then none else some (type_immutable name)

  pub break_error : String → BreakCheck → Option ImmutabilityError
  break_error name not_breaking = none
  break_error name (breaking reason) = some (version_required name reason)
  break_error name unreadable = some type_unreadable

  pub node_type_error : String → NodeType → NodeType → Option ImmutabilityError
  unfolding break_error
  node_type_error name old_nt new_nt =
      if new_nt.version == old_nt.version
      then break_error name (is_breaking_node_type_change old_nt new_nt)
      else none

  pub module_error : String → ModuleDefinition → ModuleDefinition → Option ImmutabilityError
  module_error name old_module new_module =
      if new_module.version == old_module.version && not (models.same_module new_module old_module)
      then some (module_immutable name)
      else none

-- `for name, old in olds.items(): if name in news: …`
pub first_error {ℓ} :
    {A : Type ℓ}
    → (String → A → A → Option ImmutabilityError)
    → Dict A
    → Dict A
    → Option ImmutabilityError
unfolding get
first_error check [] news = none
first_error check ((name, old) ∷ olds) news = elim (get name news) [
  | none ↦ first_error check olds news
  | some new ↦ elim (check name old new) [
    | some error ↦ some error
    | none ↦ first_error check olds news
  ]
]

pub data Planned : Type 0 where
  planned : Plan → Planned
  refused : ImmutabilityError → Planned

module _ (models : SameModels) where
  -- `_validate_immutability`
  pub validate_immutability : Process → Process → Option ImmutabilityError
  unfolding first_error type_error node_type_error module_error
  validate_immutability old new = elim (first_error (type_error models) old.types new.types) [
    | some error ↦ some error
    | none ↦ elim (first_error (node_type_error models) old.node_types new.node_types) [
      | some error ↦ some error
      | none ↦ first_error (module_error models) old.modules new.modules
    ]
  ]

  -- `Plan.__init__`
  unfoldable pub make_plan : ProcessIr → Option ProcessIr → Planned
  unfolding compute_diff validate_immutability
  make_plan new none = planned (compute_diff models new none)
  make_plan new (some old) = elim (validate_immutability old.process new.process) [
    | some error ↦ refused error
    | none ↦ planned (compute_diff models new (some old))
  ]

pub no_names : List String → Bool
no_names [] = true
no_names (x ∷ xs) = false

-- `Plan.plan_is_empty`
unfoldable pub plan_is_empty : Plan → Bool
unfolding no_names
plan_is_empty plan =
    no_names plan.added_nodes
    && no_names plan.removed_nodes
    && no_names plan.modified_nodes
    && no_names plan.added_edges
    && no_names plan.removed_edges
    && not plan.trigger_changed
