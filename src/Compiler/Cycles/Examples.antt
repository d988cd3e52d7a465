-- ===== src/Compiler/Cycles/Examples.antt =====
-- Small graphs checked, and the theorem about the check at one of them.
use bpg.Common.{
  String, ◌≡◌, refl, ◌⊎◌, true, false, some, List, [], ◌∷◌, distinct→count-le, contains, get, put,
}
use bpg.Compiler.Topology.{Arc, sorted, cycle_detected, topological_sort}
use bpg.Compiler.Topology.Correct.{IsOrderOf}
use bpg.Compiler.Cycles.{
  GraphError, unknown_target, trigger_entered, cycle_detected_at, accepted, rejected, check_graph,
}
use bpg.Compiler.Cycles.Decides.{well_formed, check_graph-decides}

abbrev arc : String → String → Arc
arc a b = record { source = a; target = b }

abbrev nodes : List String
nodes = "file" ∷ "intake" ∷ "triage" ∷ []

abbrev edges : List Arc
edges = arc "intake" "triage" ∷ arc "triage" "file" ∷ arc "intake" "file" ∷ []

accepts : check_graph nodes "intake" edges ≡ some accepted
unfolding check_graph get put contains
accepts = refl

finds_cycle :
    check_graph nodes "intake" (arc "triage" "file" ∷ arc "file" "triage" ∷ [])
    ≡ some (rejected (cycle_detected_at "file"))
unfolding check_graph get put contains
finds_cycle = refl

finds_lost_target :
    check_graph nodes "intake" (arc "intake" "lost" ∷ []) ≡ some (rejected (unknown_target "lost"))
unfolding check_graph get put contains
finds_lost_target = refl

finds_entered_trigger :
    check_graph nodes "intake" (arc "file" "intake" ∷ []) ≡ some (rejected trigger_entered)
unfolding check_graph get put contains
finds_entered_trigger = refl

check_graph-decides_example :
    ((check_graph nodes "intake" edges ≡ some accepted)
      × (well_formed nodes "intake" edges ≡ true)
      × ((order : List String) × (topological_sort nodes edges ≡ some (sorted order))
          × IsOrderOf nodes edges order))
    ⊎ ((error : GraphError) × (check_graph nodes "intake" edges ≡ some (rejected error))
        × ((well_formed nodes "intake" edges ≡ false)
            ⊎ (topological_sort nodes edges ≡ some cycle_detected)))
check_graph-decides_example =
    check_graph-decides nodes "intake" edges refl (unfold contains in distinct→count-le nodes refl)
