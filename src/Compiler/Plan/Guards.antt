-- ===== src/Compiler/Plan/Guards.antt =====
-- What a plan that is made does not change, and what it does not see.
use bpg.Common.{
  String, ◌≡◌, refl, inl, inr, true, Option, none, some, List, [], ◌∷◌, arith, Dict, get, keys, map,
  All, Option-cases, text_cases, text_test_refl,
}
use bpg.Value.{Fields}
use bpg.Compiler.Schema.{NodeType, Edge, ResolvedNode}
use bpg.Compiler.Topology.Correct.{IsUnique}
use bpg.Compiler.Config.{Readers, fine, validate_config}
use bpg.Compiler.Config.Breaking.{
  BreakCheck, not_breaking, breaking, unreadable, is_breaking_node_type_change,
}
use bpg.Compiler.Config.Breaking.Keeps.{IsOldOrAbsent, is_breaking_node_type_change-keeps}
use bpg.Compiler.Plan.{
  ModuleDefinition, Process, ProcessIr, SameModels, Plan, ImmutabilityError, compute_diff,
  type_error, break_error, node_type_error, module_error, first_error, validate_immutability,
  planned, make_plan, plan_is_empty,
}
use bpg.Compiler.Plan.Changes.{plan_is_empty_of_IsUnchanged}
use bpg.Compiler.Plan.EdgeIds.{HasAlike}

first_error-get {ℓ} :
    {A : Type ℓ} (check : String → A → A → Option ImmutabilityError) (olds news : Dict A)
    → first_error check olds news ≡ none
    → (name : String) (old new : A) → get name olds ≡ some old
    → get name news ≡ some new
    → check name old new ≡ none
unfolding first_error get
first_error-get check [] news h name old new there here = absurd cc
first_error-get check ((k, x) ∷ olds) news h name old new there here = elim (text_cases k name) [
  | inl is ↦ elim (Option-cases (check name old new)) [
    | inl passed ↦ passed
    | inr (error, failed) ↦
        let same : x ≡ old = ground (arith, there, is, text_test_refl name) in
        let at_k : get k news ≡ some new = rw is here in
        let failed_at : check k x new ≡ some error = rw (is, same) failed in
        absurd (cc (rw (at_k, failed_at, first_error) at h))
  ]
  | inr other ↦ elim (Option-cases (get k news)) [
    | inl absent ↦
        first_error-get check olds news (rw (absent, first_error) at h) name old new
          (ground (arith, there, other)) here
    | inr (y, found) ↦ elim (Option-cases (check k x y)) [
      | inl passed ↦
          first_error-get check olds news (rw (found, passed, first_error) at h) name old new
            (ground (arith, there, other)) here
      | inr (error, failed) ↦ absurd (cc (rw (found, failed, first_error) at h))
    ]
  ]
]

no_error :
    (a b c : Option ImmutabilityError)
    → elim a [ some e ↦ some e | none ↦ elim b [ some e ↦ some e | none ↦ c ] ] ≡ none
    → (a ≡ none) × (b ≡ none) × (c ≡ none)
no_error none none c h = (refl, refl, h)
no_error (some e) b c h = absurd cc
no_error none (some e) c h = absurd cc

module _ (models : SameModels) (old new : Process) where
  -- A type keeps its definition; a node type that keeps its version does not break, and a module that
  -- keeps its version stays the same.
  pub record IsCompatible : Type 0 where
    pub types_kept :
        (name : String) (t t' : Dict String)
        → get name old.types ≡ some t
        → get name new.types ≡ some t'
        → models.same_type t' t ≡ true
    pub node_types_kept :
        (name : String) (t t' : NodeType)
        → get name old.node_types ≡ some t
        → get name new.node_types ≡ some t'
        → t'.version ≡ t.version
        → is_breaking_node_type_change t t' ≡ not_breaking
    pub modules_kept :
        (name : String) (m m' : ModuleDefinition)
        → get name old.modules ≡ some m
        → get name new.modules ≡ some m'
        → m'.version ≡ m.version
        → models.same_module m' m ≡ true

  break_error-none :
      (name : String) (check : BreakCheck)
      → break_error models name check ≡ none
      → check ≡ not_breaking
  unfolding break_error
  break_error-none name not_breaking h = refl
  break_error-none name (breaking reason) h = absurd cc
  break_error-none name unreadable h = absurd cc

  passed_node_type :
      (name : String) (t t' : NodeType)
      → node_type_error models name t t' ≡ none
      → t'.version ≡ t.version
      → is_breaking_node_type_change t t' ≡ not_breaking
  unfolding node_type_error
  passed_node_type name t t' h same =
      break_error-none name (is_breaking_node_type_change t t')
        (ground (arith, h, same, text_test_refl t.version))

  passed_type :
      (name : String) (t t' : Dict String)
      → type_error models name t t' ≡ none
      → models.same_type t' t ≡ true
  unfolding type_error
  passed_type name t t' h = ground (arith, h)

  passed_module :
      (name : String) (m m' : ModuleDefinition)
      → module_error models name m m' ≡ none
      → m'.version ≡ m.version
      → models.same_module m' m ≡ true
  unfolding module_error
  passed_module name m m' h same = ground (arith, h, same, text_test_refl m.version)

  validate_immutability-IsCompatible : validate_immutability models old new ≡ none → IsCompatible
  unfolding validate_immutability
  validate_immutability-IsCompatible h =
      let (types, node_types, modules) =
        no_error (first_error (type_error models) old.types new.types)
          (first_error (node_type_error models) old.node_types new.node_types)
          (first_error (module_error models) old.modules new.modules) h in
      record {
        types_kept = λ name t t' there here.
            passed_type name t t'
              (first_error-get _ old.types new.types types name t t' there here);
        node_types_kept = λ name t t' there here.
            passed_node_type name t t'
              (first_error-get _ old.node_types new.node_types node_types name t t' there here);
        modules_kept = λ name m m' there here.
            passed_module name m m'
              (first_error-get _ old.modules new.modules modules name m m' there here);
      }

module _ (models : SameModels) (new old : ProcessIr) (plan : Plan) where
  -- A plan is made from a deployed process only if no type of both changes, no node type of both that
  -- keeps its version breaks, and no module of both that keeps its version changes.
  pub make_plan-IsCompatible :
      make_plan models new (some old) ≡ planned plan → IsCompatible models old.process new.process
  unfolding make_plan
  make_plan-IsCompatible h =
      validate_immutability-IsCompatible models old.process new.process
        (elim (Option-cases (validate_immutability models old.process new.process)) [
          | inl none_found ↦ none_found
          | inr (error, found) ↦ absurd (cc (rw (found, make_plan) at h))
        ])

  -- If a plan is made and a node type keeps its version, a configuration that was valid for it stays
  -- valid, provided that the fields which are new in the schema are optional and it does not have them.
  pub make_plan-keeps_config :
      (readers : Readers) (name : String) (t t' : NodeType) (config : Fields)
      → make_plan models new (some old) ≡ planned plan
      → get name old.process.node_types ≡ some t
      → get name new.process.node_types ≡ some t'
      → t'.version ≡ t.version
      → IsUnique (keys t'.config_schema)
      → All (IsOldOrAbsent readers t t' config) t'.config_schema
      → validate_config readers t.config_schema config ≡ fine
      → validate_config readers t'.config_schema config ≡ fine
  make_plan-keeps_config readers name t t' config made there here version unique added valid =
      is_breaking_node_type_change-keeps readers t t' config
        ((make_plan-IsCompatible made).node_types_kept name t t' there here version) unique added
        valid

-- A process whose edges have other mappings.
abbrev pub remapped : (Edge → Option Fields) → Edge → Edge
remapped f e = record {
  source = e.source;
  target = e.target;
  when = e.when;
  mapping = f e;
  rest = e.rest;
}

abbrev pub with_mappings : (Edge → Option Fields) → ProcessIr → ProcessIr
with_mappings f ir = record {
  process = record {
    types = ir.process.types;
    node_types = ir.process.node_types;
    modules = ir.process.modules;
    node_names = ir.process.node_names;
    edges = map (remapped f) ir.process.edges;
    trigger = ir.process.trigger;
  };
  resolved_nodes = ir.resolved_nodes;
}

-- The mapping of an edge is no part of what it joins.
remapped-HasAlike :
    (f : Edge → Option Fields) (large es : List Edge)
    → All (HasAlike large) es
    → All (HasAlike large) (map (remapped f) es)
remapped-HasAlike f large [] h = tt
remapped-HasAlike f large (e ∷ es) (alike, h) = (again large alike, remapped-HasAlike f large es h)
  where
    again : (edges : List Edge) → HasAlike edges e → HasAlike edges (remapped f e)
    again [] h = absurd h
    again (k ∷ edges) (inl joins) = inl joins
    again (k ∷ edges) (inr h) = inr (again edges h)

alike_to_own :
    (f : Edge → Option Fields) (es : List Edge)
    → All (HasAlike es) es × All (HasAlike (map (remapped f) es)) es
alike_to_own f [] = (tt, tt)
alike_to_own f (e ∷ es) =
    let (own, other) = alike_to_own f es in
    (
      (inl (refl, refl, refl), wider e es es own),
      (inl (refl, refl, refl), wider (remapped f e) (map (remapped f) es) es other),
    )
  where
    wider :
        (k : Edge) (edges small : List Edge)
        → All (HasAlike edges) small
        → All (HasAlike (k ∷ edges)) small
    wider k edges [] h = tt
    wider k edges (x ∷ small) (alike, h) = (inr alike, wider k edges small h)

-- If equal models are equal for `==`, a process that differs from the deployed one only in the mappings
-- of its edges has an empty plan.
pub compute_diff_ignores_mappings :
    (models : SameModels) (f : Edge → Option Fields) (ir : ProcessIr)
    → ((n : ResolvedNode) → (models.same_instance n n ≡ true) × (models.same_definition n n ≡ true))
    → plan_is_empty (compute_diff models (with_mappings f ir) (some ir)) ≡ true
compute_diff_ignores_mappings models f ir reflexive =
    plan_is_empty_of_IsUnchanged models (with_mappings f ir) ir (record {
      no_node_added = λ x on. on;
      no_node_removed = λ x on. on;
      same_nodes = λ name n o here there. let same : n ≡ o = cc in rw (← same) (reflexive n);
      no_edge_added =
          remapped-HasAlike f ir.process.edges ir.process.edges (alike_to_own f ir.process.edges).0;
      no_edge_removed = (alike_to_own f ir.process.edges).1;
      same_trigger = refl;
    })
