-- ===== src/Compiler/Plan/Changes.antt =====
-- When a plan is empty.
use bpg.Common.{
  All, String, ◌≡◌, refl, sym, ap, ◌∙◌, ◌↔◌, inl, inr, Bool, true, false, ◌&&◌, not, some, List, [],
  ◌∷◌, eq_iff, arith, get, get-eq-none, has_key, keys, contains, contains-keys, Bool-cases,
  Option-cases, text_cases, text_test_refl,
}
use bpg.Common.Text.{sort_names, sort_names-cons, add_name, union}
use bpg.Compiler.Schema.{ResolvedNode}
use bpg.Compiler.Plan.EdgeIds.{HasAlike, HasPlainNames, alike_edges_of_ids, ids_of_alike_edges}
use bpg.Compiler.Plan.{
  ProcessIr, SameModels, edge_ids, members_where, difference, is_modified, compute_diff, no_names,
  plan_is_empty,
}

no_names-sort_names : (xs : List String) → no_names (sort_names xs) ≡ no_names xs
unfolding no_names sort_names
no_names-sort_names [] = refl
no_names-sort_names (x ∷ xs) = let (y, ys, e) = sort_names-cons x xs in ap no_names e

none_of : (String → Bool) → List String → Bool
none_of p [] = true
none_of p (x ∷ xs) = not (p x) && none_of p xs

no_names-add_name : (x : String) (xs : List String) → no_names (add_name x xs) ≡ false
unfolding no_names add_name contains
no_names-add_name x [] = refl
no_names-add_name x (y ∷ ys) = ground arith

no_names-members_where :
    (p : String → Bool) (xs : List String) → no_names (members_where p xs) ≡ none_of p xs
unfolding members_where none_of union
no_names-members_where p [] = unfold no_names in refl
no_names-members_where p (x ∷ xs) = elim (Bool-cases (p x)) [
  | inl picked ↦ rw picked (no_names-add_name x (members_where p xs))
  | inr skipped ↦ rw skipped (no_names-members_where p xs)
]

none_of-each :
    (p : String → Bool) (xs : List String)
    → none_of p xs ≡ true
    → (x : String) → contains xs x ≡ true
    → p x ≡ false
unfolding none_of contains
none_of-each p [] h x on = cc
none_of-each p (y ∷ ys) h x on = elim (text_cases y x) [
  | inl is ↦ rw (← is) (ground (arith, h))
  | inr other ↦ none_of-each p ys (ground (arith, h)) x (ground (arith, on, other))
]

none_of-all :
    (p : String → Bool) (xs : List String)
    → ((x : String) → contains xs x ≡ true → p x ≡ false)
    → none_of p xs ≡ true
unfolding none_of contains
none_of-all p [] h = refl
none_of-all p (y ∷ ys) h = ground (
  arith,
  h y (ground (arith, text_test_refl y)),
  none_of-all p ys (λ x on. h x (ground (arith, on))),
)

-- The test of a sorted list of members.
picked_iff :
    (p : String → Bool) (xs : List String)
    → (no_names (sort_names (members_where p xs)) ≡ true)
      ↔ ((x : String) → contains xs x ≡ true → p x ≡ false)
picked_iff p xs = (λ h. none_of-each p xs (sym count_all ∙ h), λ h. count_all ∙ none_of-all p xs h)
  where
    count_all : no_names (sort_names (members_where p xs)) ≡ none_of p xs
    count_all = no_names-sort_names (members_where p xs) ∙ no_names-members_where p xs

abbrev pub Includes : List String → List String → Type 0
Includes small large = (x : String) → contains small x ≡ true → contains large x ≡ true

difference_iff : (xs ys : List String) → (no_names (difference xs ys) ≡ true) ↔ Includes xs ys
unfolding difference
difference_iff xs ys = (
  λ h x on. ground (arith, (picked_iff (λ x. not (contains ys x)) xs).0 h x on),
  λ h. (picked_iff (λ x. not (contains ys x)) xs).1 (λ x on. ground (arith, h x on)),
)

module _ (models : SameModels) (new old : ProcessIr) where
  -- Nothing that the plan compares has changed.
  pub record IsUnchanged : Type 0 where
    pub no_node_added : Includes (keys new.resolved_nodes) (keys old.resolved_nodes)
    pub no_node_removed : Includes (keys old.resolved_nodes) (keys new.resolved_nodes)
    pub same_nodes :
        (name : String) (n o : ResolvedNode)
        → get name new.resolved_nodes ≡ some n
        → get name old.resolved_nodes ≡ some o
        → (models.same_instance n o ≡ true) × (models.same_definition n o ≡ true)
    pub no_edge_added : All (HasAlike old.process.edges) new.process.edges
    pub no_edge_removed : All (HasAlike new.process.edges) old.process.edges
    pub same_trigger : new.process.trigger ≡ old.process.trigger

  modified_same :
      ((name : String)
        → contains (keys new.resolved_nodes) name ≡ true
        → is_modified models new.resolved_nodes old.resolved_nodes name ≡ false)
      → (name : String) (n o : ResolvedNode) → get name new.resolved_nodes ≡ some n
      → get name old.resolved_nodes ≡ some o
      → (models.same_instance n o ≡ true) × (models.same_definition n o ≡ true)
  unfolding is_modified
  modified_same h name n o here there = (ground (arith, compared), ground (arith, compared))
    where
      listed : contains (keys new.resolved_nodes) name ≡ true
      listed =
          contains-keys name new.resolved_nodes
          ∙ elim (Bool-cases (has_key name new.resolved_nodes)) [
            | inl on ↦ on
            | inr absent ↦ absurd (cc (here, get-eq-none name new.resolved_nodes absent))
          ]

      compared : not (models.same_instance n o && models.same_definition n o) ≡ false
      compared = rw (here, there, is_modified) at (h name listed)

  same_modified :
      ((name : String) (n o : ResolvedNode)
        → get name new.resolved_nodes ≡ some n
        → get name old.resolved_nodes ≡ some o
        → (models.same_instance n o ≡ true) × (models.same_definition n o ≡ true))
      → (name : String) → is_modified models new.resolved_nodes old.resolved_nodes name ≡ false
  unfolding is_modified
  same_modified h name = elim (Option-cases (get name new.resolved_nodes)) [
    | inl absent ↦ rw (absent, is_modified) refl
    | inr (n, here) ↦ elim (Option-cases (get name old.resolved_nodes)) [
      | inl absent ↦ rw (here, absent, is_modified) refl
      | inr (o, there) ↦
          let (i, d) = h name n o here there in rw (here, there, i, d, is_modified) refl
    ]
  ]

  abbrev IsEmptyPlan : Type 0
  IsEmptyPlan = plan_is_empty (compute_diff models new (some old)) ≡ true

  unchanged :
      All HasPlainNames new.process.edges
      → All HasPlainNames old.process.edges
      → IsEmptyPlan
      → IsUnchanged
  unfolding plan_is_empty compute_diff
  unchanged plain plain' h = record {
    no_node_added = (difference_iff _ _).0 (ground (arith, h));
    no_node_removed = (difference_iff _ _).0 (ground (arith, h));
    same_nodes = modified_same ((picked_iff _ (keys new.resolved_nodes)).0 (ground (arith, h)));
    no_edge_added =
        alike_edges_of_ids new.process.edges old.process.edges plain plain'
          ((difference_iff _ _).0 (ground (arith, h)));
    no_edge_removed =
        alike_edges_of_ids old.process.edges new.process.edges plain' plain
          ((difference_iff _ _).0 (ground (arith, h)));
    same_trigger = ground (arith, h, eq_iff new.process.trigger old.process.trigger);
  }

  -- This direction asks nothing of the names.
  pub plan_is_empty_of_IsUnchanged : IsUnchanged → IsEmptyPlan
  unfolding plan_is_empty compute_diff
  plan_is_empty_of_IsUnchanged u = ground (
    arith,
    (difference_iff (keys new.resolved_nodes) (keys old.resolved_nodes)).1 u.no_node_added,
    (difference_iff (keys old.resolved_nodes) (keys new.resolved_nodes)).1 u.no_node_removed,
    (picked_iff (is_modified models new.resolved_nodes old.resolved_nodes)
          (keys new.resolved_nodes)).1
        (λ x _. same_modified u.same_nodes x),
    (difference_iff (edge_ids new.process.edges) (edge_ids old.process.edges)).1
        (ids_of_alike_edges new.process.edges old.process.edges u.no_edge_added),
    (difference_iff (edge_ids old.process.edges) (edge_ids new.process.edges)).1
        (ids_of_alike_edges old.process.edges new.process.edges u.no_edge_removed),
    eq_iff new.process.trigger old.process.trigger,
    u.same_trigger,
  )

  -- When the edges of both join nodes whose names have no space, the plan from a deployed process is
  -- empty exactly when both have the same nodes, with the same instances and definitions, edges between
  -- the same nodes under the same conditions, and the same trigger. An empty condition is none.
  pub plan_is_empty-IsUnchanged :
      All HasPlainNames new.process.edges
      → All HasPlainNames old.process.edges
      → (plan_is_empty (compute_diff models new (some old)) ≡ true) ↔ IsUnchanged
  plan_is_empty-IsUnchanged plain plain' = (unchanged plain plain', plan_is_empty_of_IsUnchanged)
