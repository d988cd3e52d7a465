-- ===== src/Compiler/Topology/Invariant.antt =====
-- The invariant of the `while queue` loop.
use bpg.Common.{
  ℕ, ◌+◌, ◌-◌, ◌≤◌, ◌<◌, String, ◌≡◌, true, ◌&&◌, none, some, List, [], ◌∷◌, ◌++◌, arith, count,
  count-append, if◌then◌else◌, text_test_refl, All, Dict, get, nat_eq, append_assoc, append-nil,
}
use bpg.Compiler.Topology.{Arc, Work, relax, neighbours}
use bpg.Compiler.Topology.Counting.{successors, in_count, weight, weight-snoc, sources_placed}
use bpg.Compiler.Topology.Build.{declared}
use bpg.Compiler.Topology.Loop.{get-relax, queue-relax}

-- Behind the names of `seen`, each name of the order comes after the sources of its edges.
abbrev pub IsOrdered : List Arc → List String → List String → Type 0
IsOrdered edges seen [] = Unit
IsOrdered edges seen (x ∷ xs) =
    All (λ e. e.target ≡ x → 0 < count e.source seen) edges × IsOrdered edges (seen ++ x ∷ []) xs

IsOrdered-snoc :
    (edges : List Arc) (seen xs : List String) (x : String)
    → IsOrdered edges seen xs
    → All (λ e. e.target ≡ x → 0 < count e.source (seen ++ xs)) edges
    → IsOrdered edges seen (xs ++ x ∷ [])
IsOrdered-snoc edges seen [] x h new = (rw append-nil at new, tt)
IsOrdered-snoc edges seen (y ∷ xs) x h new = (
  h.0,
  IsOrdered-snoc edges (seen ++ y ∷ []) xs x h.1 (rw (← append_assoc seen (y ∷ []) xs) at new),
)

pub IsOrdered-at :
    (edges : List Arc) (seen before after : List String) (x : String)
    → IsOrdered edges seen (before ++ x ∷ after)
    → All (λ e. e.target ≡ x → 0 < count e.source (seen ++ before)) edges
IsOrdered-at edges seen [] after x h = rw append-nil h.0
IsOrdered-at edges seen (y ∷ before) after x h =
    rw append_assoc at (IsOrdered-at edges (seen ++ y ∷ []) before after x h.1)

module _ (nodes : List String) (edges : List Arc) where
  -- How many edges into a node have a source that is not placed yet.
  abbrev pub open_edges : List String → String → ℕ
  open_edges order v = in_count v edges - weight order v edges

  -- Placed or queued: the declared nodes with no open edge, once each.
  abbrev pub due : List String → String → ℕ
  due order v = if declared nodes v && nat_eq (open_edges order v) 0 then 1 else 0

  pub record IsSound (adj : Dict (List String)) (w : Work) (order : List String) : Type 0 where
    pub next_at :
        (v : String) → get v adj ≡ (if declared nodes v then some (successors v edges) else none)
    pub degree_at :
        (v : String)
        → get v w.degrees ≡ (if declared nodes v then some (open_edges order v) else none)
    pub placed : (v : String) → count v order + count v w.queue ≡ due order v
    pub in_order : IsOrdered edges [] order

  module _ {adj : Dict (List String)} {w : Work} {order : List String}
      (s : IsSound adj w order) where
    pub placed_once : (v : String) → count v order ≤ 1
    placed_once v = ground (arith, s.placed v)

  module _ {adj : Dict (List String)} {degrees : Dict ℕ} {node : String} {rest order : List String}
      (s : IsSound adj (record { degrees = degrees; queue = node ∷ rest }) order) where
    popped_due : (declared nodes node ≡ true) × (in_count node edges ≤ weight order node edges)
    popped_due = unfold count in ground (arith, s.placed node, text_test_refl node)

    popped_neighbours : neighbours node adj ≡ successors node edges
    unfolding neighbours
    popped_neighbours = ground (arith, s.next_at node, popped_due)

    abbrev pub after_pop : Work
    after_pop = relax (neighbours node adj) (record { degrees = degrees; queue = rest })

    pop-degrees :
        (v : String)
        → get v after_pop.degrees
          ≡ (if declared nodes v then some (open_edges (order ++ node ∷ []) v) else none)
    pop-degrees v =
        rw (popped_neighbours, get-relax, s.degree_at v)
          (ground (arith, weight-snoc order node v edges))

    pop-placed :
        (v : String)
        → count v (order ++ node ∷ []) + count v after_pop.queue ≡ due (order ++ node ∷ []) v
    pop-placed v =
        rw (popped_neighbours, queue-relax, s.degree_at v, count-append)
          (unfold count in ground (arith, s.placed v, weight-snoc order node v edges))

    pub pop-IsSound : IsSound adj after_pop (order ++ node ∷ [])
    pop-IsSound = record {
      next_at = s.next_at;
      degree_at = pop-degrees;
      placed = pop-placed;
      in_order =
          IsOrdered-snoc edges [] order node s.in_order
            (sources_placed order (placed_once s) node edges popped_due.1);
    }
