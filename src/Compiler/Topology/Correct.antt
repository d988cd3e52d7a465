-- ===== src/Compiler/Topology/Correct.antt =====
-- What the sort promises: an order of all nodes in which sources stand before targets, found exactly
-- when the edges have no cycle.
use bpg.Common.{
  ℕ, zero, suc, ◌+◌, ◌≤◌, ◌<◌, String, ◌≡◌, refl, ◌∙◌, ap, ◌⊎◌, ◌↔◌, true, false, some, List, [],
  ◌∷◌, ◌++◌, inl, inr, arith, count, All, All-map, All-zip, All-forall, Dict, nat_eq, length,
  length-append, length-le_of_count-le, count-eq_of_length-eq, split_at, Bool-cases,
}
use bpg.Compiler.Topology.{
  Arc, Tables, Work, sorted, cycle_detected, key_error, fill, seed, drain, finish, topological_sort,
}
use bpg.Compiler.Topology.Counting.{successors, in_count, weight-nil, le-weight}
use bpg.Compiler.Topology.Build.{
  declared, known, Tracks, Tracks-fill, add_edges-known, add_edges_unknown,
}
use bpg.Compiler.Topology.Loop.{count-seed}
use bpg.Compiler.Topology.Invariant.{IsOrdered-at, due, IsSound, after_pop, pop-IsSound}

-- The keys of a `dict`: no name twice.
abbrev pub IsUnique : List String → Type 0
IsUnique names = (v : String) → count v names ≤ 1

-- `b` stands in the order, behind `a`.
abbrev pub Precedes : List String → String → String → Type 0
Precedes order a b =
    (before : List String) × (after : List String) × (order ≡ before ++ b ∷ after)
    × (0 < count a before)

pub record IsOrderOf (nodes : List String) (edges : List Arc) (order : List String) : Type 0 where
  pub same_nodes : (v : String) → count v order ≡ count v nodes
  pub sources_first : All (λ e. Precedes order e.source e.target) edges

-- A rank that grows along every edge, which is what it means that there is no cycle.
abbrev pub IsRanked : (String → ℕ) → List Arc → Type 0
IsRanked rank edges = All (λ e. rank e.source < rank e.target) edges

module _ (nodes : List String) (edges : List Arc) where
  module _ {adj : Dict (List String)} {w : Work} {order : List String}
      (s : IsSound nodes edges adj w order) where
    length-placed : length order ≤ length nodes
    length-placed = length-le_of_count-le order nodes (λ v. ground (arith, s.placed v))

  drain-IsSound :
      (adj : Dict (List String)) (fuel : ℕ) (degrees : Dict ℕ) (queue order : List String)
      → IsSound nodes edges adj (record { degrees = degrees; queue = queue }) order
      → length nodes < length order + fuel
      → (final : List String) × (left : Dict ℕ) × (drain fuel adj
            (record { degrees = degrees; queue = queue })
            order
          ≡ some final)
        × IsSound nodes edges adj (record { degrees = left; queue = [] }) final
  unfolding drain
  drain-IsSound adj zero degrees queue order s h = absurd (omega (arith, length-placed s))
  drain-IsSound adj (suc fuel) degrees [] order s h = (order, degrees, refl, s)
  drain-IsSound adj (suc fuel) degrees (node ∷ rest) order s h =
      drain-IsSound adj fuel (after_pop nodes edges s).degrees (after_pop nodes edges s).queue
        (order ++ node ∷ []) (pop-IsSound nodes edges s)
        (omega (arith, length-append order (node ∷ [])))

  IsSound-start :
      (t : Tables)
      → IsUnique nodes
      → Tracks nodes t (λ v. [] ++ successors v edges) (λ v. 0 + in_count v edges)
      → IsSound nodes edges t.adj
          (record { degrees = t.in_degree; queue = seed nodes t.in_degree })
          []
  IsSound-start t unique h = record {
    next_at = h.adj_at;
    degree_at = λ v. ground (arith, h.degree_at v, weight-nil v edges);
    placed = λ v.
        unfold count in
        ground (arith, h.degree_at v, weight-nil v edges, count-seed nodes t.in_degree v, unique v);
    in_order = tt;
  }

  endpoints_declared :
      (es : List Arc)
      → known nodes es ≡ true
      → All (λ e. (declared nodes e.source ≡ true) × (declared nodes e.target ≡ true)) es
  endpoints_declared [] k = tt
  endpoints_declared (e ∷ es) k =
      ((ground (arith), ground (arith)), endpoints_declared es (ground arith))

  module _ {adj : Dict (List String)} {left : Dict ℕ} {final : List String}
      (s : IsSound nodes edges adj (record { degrees = left; queue = [] }) final) where
    final_count : (v : String) → count v final ≡ due nodes edges final v
    final_count v = unfold count in ground (arith, s.placed v)

    -- Enough nodes placed: it is an order.
    IsSound-IsOrderOf :
        known nodes edges ≡ true → length final ≡ length nodes → IsOrderOf nodes edges final
    IsSound-IsOrderOf k e = record {
      same_nodes = same;
      sources_first =
          All-map (λ (a : Arc) h. behind a h.0 h.1) edges
            (All-zip _ _ edges (endpoints_declared edges k) (All-forall _ edges at));
    }
      where
        same : (v : String) → count v final ≡ count v nodes
        same = count-eq_of_length-eq final nodes (λ v. ground (arith, final_count v)) e

        Split : Type 0
        Split =
            (x : String) × (before : List String) × (after : List String) × (final
              ≡ before ++ x ∷ after)

        at : (i : Split) → All (λ a. a.target ≡ i.0 → 0 < count a.source i.1) edges
        at (x, before, after, is) = IsOrdered-at edges [] before after x (rw is at s.in_order)

        behind :
            (a : Arc)
            → (declared nodes a.source ≡ true) × (declared nodes a.target ≡ true)
            → ((i : Split) → a.target ≡ i.0 → 0 < count a.source i.1)
            → Precedes final a.source a.target
        behind a d h =
            let (before, after, is) =
              split_at a.target final (ground (arith, same a.target, d.1)) in
            (before, after, is, h (a.target, before, after, is) refl)

    -- With a rank every node is placed.
    ranked_placed :
        (rank : String → ℕ)
        → known nodes edges ≡ true
        → IsRanked rank edges
        → (bound : ℕ) (v : String) → rank v < bound
        → declared nodes v ≡ true
        → 0 < count v final
    ranked_placed rank k ranked zero v b d = absurd (omega arith)
    ranked_placed rank k ranked (suc bound) v b d =
        let placed : All (λ e. e.target ≡ v → 0 < count e.source final) edges =
          All-map {Q = λ (e : Arc). e.target ≡ v → 0 < count e.source final}
            (λ e h is. ranked_placed rank k ranked bound e.source (below e h.0 is) h.1.0) edges
            (All-zip _ _ edges ranked (endpoints_declared edges k)) in
        ground (arith, final_count v, le-weight final v edges placed)
      where
        below : (e : Arc) → rank e.source < rank e.target → e.target ≡ v → rank e.source < bound
        below e h is = omega (arith, ap rank is)

module _ (nodes : List String) (edges : List Arc) where
  abbrev start : Tables
  start = record { adj = fill [] nodes; in_degree = fill 0 nodes }

  -- The loop over declared endpoints ends, in a sound state with nothing queued.
  sorted_or_cycle :
      IsUnique nodes
      → known nodes edges ≡ true
      → (final : List String) × (adj : Dict (List String)) × (left : Dict ℕ) × (topological_sort
            nodes edges
          ≡ finish nodes (some final))
        × IsSound nodes edges adj (record { degrees = left; queue = [] }) final
  unfolding topological_sort
  sorted_or_cycle unique k =
      let (t, built, tracks) =
        add_edges-known nodes edges start (λ v. []) (λ v. 0) (Tracks-fill nodes) k in
      let (final, left, ran, sound) =
        drain-IsSound nodes edges t.adj (suc (length nodes)) t.in_degree (seed nodes t.in_degree) []
          (IsSound-start nodes edges t unique tracks) (omega arith) in
      (final, t.adj, left, ground (arith, built, ran), sound)

  all_placed :
      {adj : Dict (List String)} {left : Dict ℕ} {final : List String}
      → IsSound nodes edges adj (record { degrees = left; queue = [] }) final
      → IsUnique nodes
      → known nodes edges ≡ true
      → (rank : String → ℕ) → IsRanked rank edges
      → length final ≡ length nodes
  all_placed {adj} {left} {final} sound unique k rank ranked =
      omega (arith, length-placed nodes edges sound, length-le_of_count-le nodes final at_least)
    where
      at_least : (v : String) → count v nodes ≤ count v final
      at_least v = elim (Bool-cases (declared nodes v)) [
        | inl d ↦ ground (
          arith,
          unique v,
          ranked_placed nodes edges sound rank k ranked (suc (rank v)) v (omega arith) d,
        )
        | inr d ↦ ground arith
      ]

finish_full :
    (nodes final : List String)
    → nat_eq (length final) (length nodes) ≡ true
    → finish nodes (some final) ≡ some (sorted final)
unfolding finish
finish_full nodes final h = rw h

finish_short :
    (nodes final : List String)
    → nat_eq (length final) (length nodes) ≡ false
    → finish nodes (some final) ≡ some cycle_detected
unfolding finish
finish_short nodes final h = rw h

-- For unique node names and edges between them, the sort ends either with an order that holds every
-- node once and in which the source of each edge stands before its target, or with the report of a
-- cycle, and then no rank of the nodes grows along every edge.
pub topological_sort-decides :
    (nodes : List String) (edges : List Arc)
    → IsUnique nodes
    → known nodes edges ≡ true
    → ((order : List String) × (topological_sort nodes edges ≡ some (sorted order))
        × IsOrderOf nodes edges order)
      ⊎ ((topological_sort nodes edges ≡ some cycle_detected)
          × ((rank : String → ℕ) → ¬ IsRanked rank edges))
topological_sort-decides nodes edges unique k =
    let (final, adj, left, ran, sound) = sorted_or_cycle nodes edges unique k in
    elim (Bool-cases (nat_eq (length final) (length nodes))) [
      | inl full ↦ inl (
        final,
        ran ∙ finish_full nodes final full,
        IsSound-IsOrderOf nodes edges sound k (ground arith),
      )
      | inr short ↦ inr (
        ran ∙ finish_short nodes final short,
        λ rank ranked. ground (arith, all_placed nodes edges sound unique k rank ranked),
      )
    ]

-- A process with unique node names, whose edges join its nodes and lead from lower to higher rank, is
-- sorted, whatever the ranks.
pub topological_sort-total :
    (nodes : List String) (edges : List Arc) (rank : String → ℕ)
    → IsUnique nodes
    → known nodes edges ≡ true
    → IsRanked rank edges
    → (order : List String) × (topological_sort nodes edges ≡ some (sorted order))
      × IsOrderOf nodes edges order
topological_sort-total nodes edges rank unique k ranked =
    elim (topological_sort-decides nodes edges unique k) [
      | inl found ↦ found
      | inr cycle ↦ absurd (cycle.1 rank ranked)
    ]

topological_sort_unknown :
    (nodes : List String) (edges : List Arc)
    → known nodes edges ≡ false
    → topological_sort nodes edges ≡ some key_error
unfolding topological_sort
topological_sort_unknown nodes edges k = ground (
  arith,
  add_edges_unknown nodes edges (start nodes edges) (λ v. []) (λ v. 0) (Tracks-fill nodes) k,
)

-- For unique node names, the sort fails with a `KeyError` exactly when an edge has an endpoint that is no node.
pub topological_sort_key_error :
    (nodes : List String) (edges : List Arc)
    → IsUnique nodes
    → (topological_sort nodes edges ≡ some key_error) ↔ (known nodes edges ≡ false)
topological_sort_key_error nodes edges unique = (unknown, missing)
  where
    unknown : topological_sort nodes edges ≡ some key_error → known nodes edges ≡ false
    unknown e = elim (Bool-cases (known nodes edges)) [
      | inl k ↦ elim (topological_sort-decides nodes edges unique k) [
        | inl (order, found, _) ↦ cc (e, found)
        | inr (found, _) ↦ cc (e, found)
      ]
      | inr k ↦ k
    ]

    missing : known nodes edges ≡ false → topological_sort nodes edges ≡ some key_error
    missing k = topological_sort_unknown nodes edges k
