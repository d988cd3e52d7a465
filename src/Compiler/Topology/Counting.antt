-- ===== src/Compiler/Topology/Counting.antt =====
-- Edges counted: into a node, and into a node from the nodes of a list.
use bpg.Common.{
  ℕ, ◌+◌, ◌≤◌, ◌<◌, String, ◌≡◌, refl, List, [], ◌∷◌, ◌++◌, inl, inr, arith, ◌==◌, eq_iff, count,
  count-append, if◌then◌else◌, text_cases, All,
}
use bpg.Compiler.Topology.{Arc}

-- The targets of the edges that leave a node, in the order of the edges.
abbrev pub successors : String → List Arc → List String
successors u [] = []
successors u (e ∷ es) = if e.source == u then e.target ∷ successors u es else successors u es

-- How many edges enter a node.
abbrev pub in_count : String → List Arc → ℕ
in_count v [] = 0
in_count v (e ∷ es) = (if e.target == v then 1 else 0) + in_count v es

-- How many edges enter a node from nodes of a list.
abbrev pub weight : List String → String → List Arc → ℕ
weight o v [] = 0
weight o v (e ∷ es) = (if e.target == v then count e.source o else 0) + weight o v es

pub weight-nil : (v : String) (es : List Arc) → weight [] v es ≡ 0
unfolding count
weight-nil v [] = refl
weight-nil v (e ∷ es) = ground (arith, weight-nil v es)

pub weight-snoc :
    (o : List String) (u v : String) (es : List Arc)
    → weight (o ++ u ∷ []) v es ≡ weight o v es + count v (successors u es)
unfolding count
weight-snoc o u v [] = refl
weight-snoc o u v (e ∷ es) = ground (
  arith,
  weight-snoc o u v es,
  count-append e.source o (u ∷ []),
  eq_iff e.source u,
  eq_iff u e.source,
)

module _ (o : List String) (once : (s : String) → count s o ≤ 1) (v : String) where
  pub weight-le : (es : List Arc) → weight o v es ≤ in_count v es
  weight-le [] = omega arith
  weight-le (e ∷ es) = ground (arith, weight-le es, once e.source)

  -- If every edge into a node is accounted for, its sources are all in the list.
  pub sources_placed :
      (es : List Arc)
      → in_count v es ≤ weight o v es
      → All (λ e. e.target ≡ v → 0 < count e.source o) es
  sources_placed [] h = tt
  sources_placed (e ∷ es) h = (
    λ is. ground (arith, weight-le es, once e.source, eq_iff e.target v),
    sources_placed es (ground (arith, weight-le es, once e.source)),
  )

-- And conversely.
pub le-weight :
    (o : List String) (v : String) (es : List Arc)
    → All (λ e. e.target ≡ v → 0 < count e.source o) es
    → in_count v es ≤ weight o v es
le-weight o v [] h = omega arith
le-weight o v (e ∷ es) h = elim (text_cases e.target v) [
  | inl is ↦ ground (arith, h.0 is, le-weight o v es h.1)
  | inr other ↦ rw other (ground (arith, le-weight o v es h.1))
]
