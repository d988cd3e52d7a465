-- ===== src/Compiler/Topology/Examples.antt =====
-- A small process sorted, and the theorems about the sort at it.
use bpg.Common.{
  ℕ, String, ◌≡◌, refl, List, some, [], ◌∷◌, ◌⊎◌, ◌↔◌, distinct→count-le, false, ◌==◌,
  if◌then◌else◌, contains, count, get, put,
}
use bpg.Compiler.Topology.{Arc, sorted, cycle_detected, key_error, topological_sort}
use bpg.Compiler.Topology.Build.{known}
use bpg.Compiler.Topology.Correct.{
  IsUnique, IsOrderOf, IsRanked, topological_sort-decides, topological_sort_key_error,
}

abbrev arc : String → String → Arc
arc a b = record { source = a; target = b }

abbrev nodes : List String
nodes = "file" ∷ "approve" ∷ "intake" ∷ "triage" ∷ []

abbrev edges : List Arc
edges =
    arc "intake" "triage" ∷ arc "triage" "approve" ∷ arc "approve" "file" ∷ arc "triage" "file" ∷ []

abbrev depth : String → ℕ
depth name =
    if name == "intake"
    then 0
    else if name == "triage"
    then 1
    else if name == "approve"
    then 2
    else 3

sorted_nodes :
    topological_sort nodes edges ≡ some (sorted ("intake" ∷ "triage" ∷ "approve" ∷ "file" ∷ []))
unfolding topological_sort get put
sorted_nodes = refl

cyclic : topological_sort ("a" ∷ "b" ∷ []) (arc "a" "b" ∷ arc "b" "a" ∷ []) ≡ some cycle_detected
unfolding topological_sort get put
cyclic = refl

dangling : topological_sort ("a" ∷ []) (arc "a" "b" ∷ []) ≡ some key_error
unfolding topological_sort get put
dangling = refl

nodes-IsUnique : IsUnique nodes
nodes-IsUnique = unfold contains in distinct→count-le nodes refl

topological_sort-decides_example :
    ((order : List String) × (topological_sort nodes edges ≡ some (sorted order))
      × IsOrderOf nodes edges order)
    ⊎ ((topological_sort nodes edges ≡ some cycle_detected)
        × ((rank : String → ℕ) → ¬ IsRanked rank edges))
topological_sort-decides_example =
    unfold count in topological_sort-decides nodes edges nodes-IsUnique refl

topological_sort_key_error_example :
    (topological_sort nodes (arc "intake" "lost" ∷ []) ≡ some key_error)
    ↔ (known nodes (arc "intake" "lost" ∷ []) ≡ false)
topological_sort_key_error_example =
    topological_sort_key_error nodes (arc "intake" "lost" ∷ []) nodes-IsUnique
