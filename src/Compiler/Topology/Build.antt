-- ===== src/Compiler/Topology/Build.antt =====
-- The tables that the edges leave: `adj` lists the successors, `in_degree` counts the edges in.
use bpg.Common.{
  ℕ, ◌+◌, String, ◌≡◌, refl, Bool, true, false, ◌&&◌, none, some, List, [], ◌∷◌, ◌++◌, inl, inr,
  arith, eq_iff, count, if◌then◌else◌, get, put, get-put, leb, append_assoc, append-nil, Bool-cases,
}
use bpg.Compiler.Topology.{Arc, Tables, fill, add_edge, add_edges}
use bpg.Compiler.Topology.Counting.{successors, in_count}

-- A name that the process declares.
abbrev pub declared : List String → String → Bool
declared nodes v = leb 1 (count v nodes)

abbrev pub known : List String → List Arc → Bool
known nodes [] = true
known nodes (e ∷ es) = declared nodes e.source && declared nodes e.target && known nodes es

pub record Tracks (nodes : List String) (t : Tables) (out : String → List String) (deg : String → ℕ)
    : Type 0 where
  pub adj_at : (v : String) → get v t.adj ≡ (if declared nodes v then some (out v) else none)
  pub degree_at :
      (v : String) → get v t.in_degree ≡ (if declared nodes v then some (deg v) else none)

module _ (nodes : List String) where
  pub get-fill {ℓ} :
      {V : Type ℓ} (x : V) (names : List String) (v : String)
      → get v (fill x names) ≡ (if declared names v then some x else none)
  unfolding get fill count
  get-fill x [] v = ground arith
  get-fill x (n ∷ ns) v = ground (arith, get-fill x ns v)

  pub Tracks-fill :
      Tracks nodes (record { adj = fill [] nodes; in_degree = fill 0 nodes }) (λ v. []) (λ v. 0)
  Tracks-fill = record { adj_at = get-fill [] nodes; degree_at = get-fill 0 nodes }

  abbrev added : Arc → Tables → List String → ℕ → Tables
  added e t out d = record {
    adj = put e.source (out ++ e.target ∷ []) t.adj;
    in_degree = put e.target (d + 1) t.in_degree;
  }

  add_edge-eq :
      (e : Arc) (t : Tables) (out : String → List String) (deg : String → ℕ)
      → Tracks nodes t out deg
      → add_edge e t ≡ (
          if declared nodes e.source && declared nodes e.target
          then some (added e t (out e.source) (deg e.target))
          else none)
  unfolding add_edge
  add_edge-eq e t out deg h = ground (arith, h.adj_at e.source, h.degree_at e.target)

  Tracks-added :
      (e : Arc) (t : Tables) (out : String → List String) (deg : String → ℕ)
      → Tracks nodes t out deg
      → declared nodes e.source ≡ true
      → declared nodes e.target ≡ true
      → Tracks nodes
          (added e t (out e.source) (deg e.target))
          (λ v. out v ++ successors v (e ∷ []))
          (λ v. deg v + in_count v (e ∷ []))
  Tracks-added e t out deg h hs ht = record {
    adj_at = λ v. ground (
      arith,
      get-put e.source v (out e.source ++ e.target ∷ []) t.adj,
      h.adj_at v,
      eq_iff e.source v,
      append-nil (out v),
    );
    degree_at = λ v. ground (
      arith,
      get-put e.target v (deg e.target + 1) t.in_degree,
      h.degree_at v,
      eq_iff e.target v,
    );
  }

  Tracks-cons :
      (e : Arc) (es : List Arc) (t : Tables) (out : String → List String) (deg : String → ℕ)
      → Tracks nodes t
          (λ v. (out v ++ successors v (e ∷ [])) ++ successors v es)
          (λ v. (deg v + in_count v (e ∷ [])) + in_count v es)
      → Tracks nodes t (λ v. out v ++ successors v (e ∷ es)) (λ v. deg v + in_count v (e ∷ es))
  Tracks-cons e es t out deg h = record {
    adj_at = λ v.
        ground (arith, h.adj_at v, append_assoc (out v) (successors v (e ∷ [])) (successors v es));
    degree_at = λ v. ground (arith, h.degree_at v);
  }

  -- All edges between declared nodes: the loop ends, with the tables of all edges.
  pub add_edges-known :
      (es : List Arc) (t : Tables) (out : String → List String) (deg : String → ℕ)
      → Tracks nodes t out deg
      → known nodes es ≡ true
      → (t' : Tables) × (add_edges es t ≡ some t')
        × Tracks nodes t' (λ v. out v ++ successors v es) (λ v. deg v + in_count v es)
  unfolding add_edges
  add_edges-known [] t out deg h k = (
    t,
    refl,
    record {
      adj_at = λ v. ground (arith, h.adj_at v, append-nil (out v));
      degree_at = λ v. ground (arith, h.degree_at v);
    },
  )
  add_edges-known (e ∷ es) t out deg h k =
      let (t', run, h') =
        add_edges-known es (added e t (out e.source) (deg e.target)) _ _
          (Tracks-added e t out deg h (ground arith) (ground arith)) (ground arith) in
      (t', ground (arith, add_edge-eq e t out deg h, run), Tracks-cons e es t' out deg h')

  -- An edge with an endpoint that is no node: a `KeyError`.
  pub add_edges_unknown :
      (es : List Arc) (t : Tables) (out : String → List String) (deg : String → ℕ)
      → Tracks nodes t out deg
      → known nodes es ≡ false
      → add_edges es t ≡ none
  unfolding add_edges
  add_edges_unknown [] t out deg h k = cc
  add_edges_unknown (e ∷ es) t out deg h k =
      elim (Bool-cases (declared nodes e.source && declared nodes e.target)) [
        | inl both ↦
            let rest =
              add_edges_unknown es (added e t (out e.source) (deg e.target)) _ _
                (Tracks-added e t out deg h (ground arith) (ground arith)) (ground arith) in
            ground (arith, add_edge-eq e t out deg h, rest)
        | inr either ↦ ground (arith, add_edge-eq e t out deg h)
      ]
