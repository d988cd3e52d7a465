-- ===== src/Compiler/Cycles/Decides.antt =====
-- What the graph check decides: it accepts a process exactly when the compiler can sort it.
use bpg.Common.{
  ℕ, String, ◌≡◌, refl, ◌⊎◌, inl, inr, Bool, true, false, ◌&&◌, not, none, some, List, [], ◌∷◌,
  ◌++◌, ◌==◌, Dict, get, put, get-put, contains, contains-count, count-contains, All, arith,
  Bool-cases, if◌then◌else◌, text_cases, text_test_refl, append_assoc, append-nil, eq_iff,
}
use bpg.Compiler.Topology.{Arc, fill, neighbours, sorted, cycle_detected, topological_sort}
use bpg.Compiler.Topology.Build.{declared, known, get-fill}
use bpg.Compiler.Topology.Counting.{successors}
use bpg.Compiler.Topology.Correct.{
  IsUnique, IsOrderOf, IsRanked, topological_sort-total, topological_sort-decides,
}
use bpg.Compiler.Cycles.{
  GraphError, unknown_source, unknown_target, unknown_trigger, trigger_entered, cycle_detected_at,
  input_name, input_outside_module, linked, refused, link_edge, link_edges, enters, accepted,
  rejected, checked, check_linked, check_graph,
}
use bpg.Compiler.Cycles.Search.{find_cycle-Ends}
use bpg.Compiler.Cycles.Ranks.{place, IsClosed-IsRanked, IsOrderOf-IsRanked}

-- No edge starts at the input of a module.
abbrev pub without_input : List Arc → Bool
without_input [] = true
without_input (e ∷ es) = not (e.source == input_name) && without_input es

module _ (nodes : List String) (trigger : String) where
  abbrev Lists : Dict (List String) → (String → List String) → Type 0
  Lists adj out = (v : String) → get v adj ≡ (if declared nodes v then some (out v) else none)

  link_edge-eq :
      (e : Arc) (adj : Dict (List String)) (out : String → List String)
      → Lists adj out
      → (e.source == input_name) ≡ false
      → link_edge trigger e adj ≡ (
          if declared nodes e.source
          then (if declared nodes e.target
              then linked (put e.source (out e.source ++ e.target ∷ []) adj)
              else refused (unknown_target e.target))
          else refused (unknown_source e.source))
  unfolding link_edge
  link_edge-eq e adj out h other = ground (arith, h e.source, h e.target, other)

  Lists-neighbours :
      (adj : Dict (List String)) (out : String → List String)
      → Lists adj out
      → (u : String) → declared nodes u ≡ true
      → neighbours u adj ≡ out u
  unfolding neighbours
  Lists-neighbours adj out h u d = ground (arith, h u, d)

  Lists-put :
      (e : Arc) (adj : Dict (List String)) (out : String → List String)
      → Lists adj out
      → declared nodes e.source ≡ true
      → Lists
          (put e.source (out e.source ++ e.target ∷ []) adj)
          (λ v. out v ++ successors v (e ∷ []))
  Lists-put e adj out h d v = ground (
    arith,
    get-put e.source v (out e.source ++ e.target ∷ []) adj,
    h v,
    eq_iff e.source v,
    append-nil (out v),
  )

  Lists-cons :
      (e : Arc) (es : List Arc) (adj : Dict (List String)) (out : String → List String)
      → Lists adj (λ v. (out v ++ successors v (e ∷ [])) ++ successors v es)
      → Lists adj (λ v. out v ++ successors v (e ∷ es))
  Lists-cons e es adj out h v =
      ground (arith, h v, append_assoc (out v) (successors v (e ∷ [])) (successors v es))

  -- The table is built if no edge starts at `__input__` and all endpoints are declared.
  link_edges-Lists :
      (es : List Arc) (adj : Dict (List String)) (out : String → List String)
      → Lists adj out
      → without_input es ≡ true
      → known nodes es ≡ true
      → (adj' : Dict (List String)) × (link_edges trigger es adj ≡ linked adj')
        × Lists adj' (λ v. out v ++ successors v es)
  unfolding link_edges
  link_edges-Lists [] adj out h w k = (adj, refl, λ v. ground (arith, h v, append-nil (out v)))
  link_edges-Lists (e ∷ es) adj out h w k =
      let (adj', run, h') =
        link_edges-Lists es (put e.source (out e.source ++ e.target ∷ []) adj)
          (λ v. out v ++ successors v (e ∷ [])) (Lists-put e adj out h (ground arith))
          (ground arith) (ground arith) in
      (adj', ground (arith, link_edge-eq e adj out h, run), Lists-cons e es adj' out h')

  -- Otherwise it is refused, in a process.
  link_edges-refused :
      (es : List Arc) (adj : Dict (List String)) (out : String → List String)
      → (trigger == input_name) ≡ false
      → Lists adj out
      → (without_input es && known nodes es) ≡ false
      → (error : GraphError) × (link_edges trigger es adj ≡ refused error)
  unfolding link_edges link_edge
  link_edges-refused [] adj out t h w = absurd cc
  link_edges-refused (e ∷ es) adj out t h w = elim (Bool-cases (e.source == input_name)) [
    | inl input ↦ (input_outside_module, ground (arith, input, t))
    | inr other ↦ elim (Bool-cases (declared nodes e.source)) [
      | inr lost ↦ (unknown_source e.source, ground (arith, h e.source, other))
      | inl from ↦ elim (Bool-cases (declared nodes e.target)) [
        | inr lost ↦ (unknown_target e.target, ground (arith, h e.source, h e.target, other))
        | inl to ↦
            let (error, run) =
              link_edges-refused es (put e.source (out e.source ++ e.target ∷ []) adj)
                (λ v. out v ++ successors v (e ∷ [])) t (Lists-put e adj out h from)
                (ground (arith, w, other, from, to)) in
            (error, ground (arith, link_edge-eq e adj out h, run))
      ]
    ]
  ]

-- What the check asks for besides the absence of a cycle.
abbrev pub well_formed : List String → String → List Arc → Bool
well_formed nodes trigger edges =
    contains nodes trigger
    && (without_input edges && known nodes edges)
    && not (enters trigger edges)

module _ (nodes : List String) (trigger : String) (edges : List Arc) where
  All-declared :
      (names : List String)
      → ((v : String) → contains names v ≡ true → declared nodes v ≡ true)
      → All (λ v. declared nodes v ≡ true) names
  unfolding contains
  All-declared [] h = tt
  All-declared (v ∷ vs) h =
      (h v (ground (arith, text_test_refl v)), All-declared vs (λ x on. h x (ground (arith, on))))

  everywhere :
      (done names : List String)
      → All (λ v. contains done v ≡ true) names
      → (v : String) → contains names v ≡ true
      → contains done v ≡ true
  unfolding contains
  everywhere done [] h v on = cc
  everywhere done (u ∷ us) h v on = elim (text_cases u v) [
    | inl is ↦ rw (← is) h.0
    | inr other ↦ everywhere done us h.1 v (ground (arith, on, other))
  ]

  sources_on :
      (done : List String)
      → All (λ v. contains done v ≡ true) nodes
      → (es : List Arc) → known nodes es ≡ true
      → All (λ e. contains done e.source ≡ true) es
  sources_on done h [] k = tt
  sources_on done h (e ∷ es) k = (
    everywhere done nodes h e.source (count-contains nodes e.source (ground arith)),
    sources_on done h es (ground arith),
  )

  known_targets :
      (es : List Arc) → known nodes es ≡ true → All (λ e. declared nodes e.target ≡ true) es
  known_targets [] k = tt
  known_targets (e ∷ es) k = (ground arith, known_targets es (ground arith))

  cyclic_sort :
      IsUnique nodes
      → known nodes edges ≡ true
      → ((rank : String → ℕ) → ¬ IsRanked rank edges)
      → topological_sort nodes edges ≡ some cycle_detected
  cyclic_sort unique k cyclic = elim (topological_sort-decides nodes edges unique k) [
    | inr (found, _) ↦ found
    | inl (order, _, o) ↦
        absurd (cyclic (place order) (IsOrderOf-IsRanked nodes edges order unique o))
  ]

  abbrev Accepts : Type 0
  Accepts =
      (check_graph nodes trigger edges ≡ some accepted)
      × (well_formed nodes trigger edges ≡ true)
      × ((order : List String) × (topological_sort nodes edges ≡ some (sorted order))
          × IsOrderOf nodes edges order)

  abbrev Rejects : Type 0
  Rejects =
      (error : GraphError) × (check_graph nodes trigger edges ≡ some (rejected error))
      × ((well_formed nodes trigger edges ≡ false)
          ⊎ (topological_sort nodes edges ≡ some cycle_detected))

  -- A process whose edges are linked: the search decides, if no edge leads to its trigger.
  searched :
      (trigger == input_name) ≡ false
      → IsUnique nodes
      → contains nodes trigger ≡ true
      → (without_input edges && known nodes edges) ≡ true
      → (adj : Dict (List String)) → link_edges trigger edges (fill [] nodes) ≡ linked adj
      → Lists nodes trigger adj (λ v. successors v edges)
      → Accepts ⊎ Rejects
  unfolding check_graph check_linked checked
  searched process unique on good adj run lists = elim (Bool-cases (enters trigger edges)) [
    | inl entered ↦ inr (
      trigger_entered,
      rw (process, on, run, process, entered, check_graph, check_linked) refl,
      inl (ground (arith, entered)),
    )
    | inr free ↦
        elim (find_cycle-Ends nodes edges adj (known_targets edges k)
          (Lists-neighbours nodes trigger adj (λ v. successors v edges) lists)
          (All-declared nodes (λ v h. ground (arith, contains-count nodes v h)))) [
            | inl (done, found, closed, all) ↦ inl (
              rw (process, on, run, process, free, found, check_graph, check_linked) refl,
              rw (on, good, free) refl,
              topological_sort-total nodes edges (place done) unique k
                  (IsClosed-IsRanked edges done closed (sources_on done all edges k)),
            )
            | inr (u, found, cyclic) ↦ inr (
              cycle_detected_at u,
              rw (process, on, run, process, free, found, check_graph, check_linked) refl,
              inr (cyclic_sort unique k cyclic),
            )
          ]
  ]
    where
      k : known nodes edges ≡ true
      k = ground (arith, good)

  -- The check of a process with unique node names always ends. If it accepts, the trigger is a node that no edge enters, all
  -- endpoints are nodes, and the compiler's sort finds an order of all nodes in which sources stand
  -- before targets. If it rejects, one of these conditions fails, or the sort reports a cycle.
  pub check_graph-decides : (trigger == input_name) ≡ false → IsUnique nodes → Accepts ⊎ Rejects
  unfolding check_graph check_linked
  check_graph-decides process unique = elim (Bool-cases (contains nodes trigger)) [
    | inr lost ↦ inr (
      unknown_trigger,
      rw (process, lost, check_graph, check_linked) refl,
      inl (ground (arith, lost)),
    )
    | inl on ↦ elim (Bool-cases (without_input edges && known nodes edges)) [
      | inr bad ↦
          let (error, run) =
            link_edges-refused nodes trigger edges (fill [] nodes) (λ v. []) process
              (get-fill nodes [] nodes) bad in
          inr (
            error,
            rw (process, on, run, check_graph, check_linked) refl,
            inl (ground (arith, bad)),
          )
      | inl good ↦
          let (adj, run, lists) =
            link_edges-Lists nodes trigger edges (fill [] nodes) (λ v. []) (get-fill nodes [] nodes)
              (ground (arith, good)) (ground (arith, good)) in
          searched process unique on good adj run lists
    ]
  ]
