-- ===== src/Runtime/Orchestrator/Loop/Order.antt =====
-- The plan that a run follows: the order of `_topological_sort`, in which the sources of a node's edges
-- stand before it.
use bpg.Common.{
  ◌≤◌, String, ◌≡◌, refl, sym, ap, ◌∙◌, inl, inr, true, false, Option, none, some, List, [], ◌∷◌,
  ◌++◌, map, ◌==◌, Dict, get, put, keys, contains, count, arith, All, Bool-cases, Option-cases,
  get-put, text_cases, text_test_refl, count-append, count-contains, append_assoc,
}
use mathlib.Core.Path.{subst}
use bpg.Compiler.Schema.{Edge, ResolvedNode}
use bpg.Compiler.Topology.{Arc, sorted, topological_sort}
use bpg.Compiler.Topology.Build.{known}
use bpg.Compiler.Topology.Correct.{
  IsUnique, Precedes, IsOrderOf, topological_sort-decides, topological_sort_key_error,
}
use bpg.Runtime.Orchestrator.{ExecutionIr, incoming_table, add_incoming, no_edges, incoming_of}

abbrev pub arc_of : Edge → Arc
arc_of e = record { source = e.source; target = e.target }

-- What the compiler hands over: nodes with names of their own, in the order of the sort.
pub record IsCompiled (ir : ExecutionIr) : Type 0 where
  pub unique : IsUnique (keys ir.resolved_nodes)
  pub in_order :
      topological_sort (keys ir.resolved_nodes) (map arc_of ir.resolved_edges)
      ≡ some (sorted ir.topological_order)

compiled_order :
    (ir : ExecutionIr)
    → IsCompiled ir
    → IsOrderOf (keys ir.resolved_nodes) (map arc_of ir.resolved_edges) ir.topological_order
compiled_order ir c = elim (Bool-cases (known nodes arcs)) [
  | inr unknown ↦
      absurd (cc ((topological_sort_key_error nodes arcs c.unique).1 unknown, c.in_order))
  | inl is_known ↦ elim (topological_sort-decides nodes arcs c.unique is_known) [
    | inr (cycle, _) ↦ absurd (cc (cycle, c.in_order))
    | inl (order, found, ordered) ↦
        let same : order ≡ ir.topological_order = cc (found, c.in_order) in rw (← same) ordered
  ]
]
  where
    nodes : List String
    nodes = keys ir.resolved_nodes

    arcs : List Arc
    arcs = map arc_of ir.resolved_edges

-- A name that stands once splits a list in one way.
split_unique :
    (v : String) (b b' r r' : List String)
    → count v (b ++ v ∷ r) ≤ 1
    → b ++ v ∷ r ≡ b' ++ v ∷ r'
    → b ≡ b'
unfolding count
split_unique v [] [] r r' once e = refl
split_unique v [] (x ∷ b') r r' once e =
    absurd (ground (arith, count-append v b' (v ∷ r'), text_test_refl v, tail))
  where
    tail : r ≡ b' ++ v ∷ r'
    tail = cc
split_unique v (x ∷ b) [] r r' once e =
    absurd (ground (arith, count-append v b (v ∷ r), text_test_refl v, head))
  where
    head : x ≡ v
    head = cc
split_unique v (x ∷ b) (y ∷ b') r r' once e =
    let head : x ≡ y = cc in
    let rest : b ≡ b' = split_unique v b b' r r' (ground arith) (cc) in rw (head, rest) refl

All-append {ℓ κ} :
    {A : Type ℓ} (P : A → Type κ) (xs ys : List A) → All P xs → All P ys → All P (xs ++ ys)
All-append P [] ys h k = k
All-append P (x ∷ xs) ys h k = (h.0, All-append P xs ys h.1 k)

All-of-map {ℓ κ μ} :
    {A : Type ℓ} {B : Type κ} (P : B → Type μ) (f : A → B) (xs : List A)
    → All P (map f xs)
    → All (λ a. P (f a)) xs
All-of-map P f [] h = tt
All-of-map P f (x ∷ xs) h = (h.0, All-of-map P f xs h.1)

-- The default of `get(node_name, [])`.
abbrev pub or_no_edges : Option (List Edge) → List Edge
or_no_edges none = []
or_no_edges (some edges) = edges

incoming_of-no_edges :
    (n : String) (nodes : Dict ResolvedNode) → incoming_of n (no_edges nodes) ≡ []
unfolding no_edges get
incoming_of-no_edges n [] = refl
incoming_of-no_edges n ((name, r) ∷ nodes) = ground (arith, incoming_of-no_edges n nodes)

pub incoming_of-elsewhere :
    (k n : String) (edges : List Edge) (table : Dict (List Edge))
    → (k == n) ≡ false
    → incoming_of n (put k edges table) ≡ incoming_of n table
incoming_of-elsewhere k n edges table other = ap or_no_edges looked_up
  where
    looked_up : get n (put k edges table) ≡ get n table
    looked_up = rw (get-put k n edges table, other) refl

pub incoming_of-put :
    (k : String) (edges : List Edge) (table : Dict (List Edge))
    → incoming_of k (put k edges table) ≡ edges
incoming_of-put k edges table = ap or_no_edges looked_up
  where
    looked_up : get k (put k edges table) ≡ some edges
    looked_up = rw (get-put k k edges table, text_test_refl k) refl

-- What holds of every edge and its target holds at each name of the edges that lead to it.
module _ (Q : String → Edge → Type 0) where
  abbrev AllIncoming : Dict (List Edge) → Type 0
  AllIncoming table = (n : String) → All (Q n) (incoming_of n table)

  add_incoming-All :
      (e : Edge) (table table' : Dict (List Edge))
      → add_incoming e table ≡ some table'
      → Q e.target e
      → AllIncoming table
      → AllIncoming table'
  add_incoming-All e table table' h q all n = elim (Option-cases (get e.target table)) [
    | inl missing ↦ absurd (cc (rw (missing, add_incoming) at h))
    | inr (edges, found) ↦
        let made : put e.target (edges ++ e ∷ []) table ≡ table' =
          cc (rw (found, add_incoming) at h) in
        elim (text_cases e.target n) [
          | inr other ↦
              rw (← made, incoming_of-elsewhere e.target n (edges ++ e ∷ []) table other) (all n)
          | inl same ↦
              let before : incoming_of e.target table ≡ edges = ap or_no_edges found in
              rw (← made, ← same, incoming_of-put e.target (edges ++ e ∷ []) table)
                (All-append (Q e.target) edges (e ∷ [])
                  (subst (All (Q e.target)) before (all e.target)) (q, tt))
        ]
  ]

  pub incoming_table-All :
      (edges : List Edge) (table table' : Dict (List Edge))
      → incoming_table edges table ≡ some table'
      → All (λ (e : Edge). Q e.target e) edges
      → AllIncoming table
      → AllIncoming table'
  unfolding incoming_table
  incoming_table-All [] table table' h q all = let same : table ≡ table' = cc in rw (← same) all
  incoming_table-All (e ∷ edges) table table' h q all = elim (Option-cases (add_incoming e table)) [
    | inl broken ↦ absurd (cc (rw (broken, incoming_table) at h))
    | inr (table1, added) ↦
        incoming_table-All edges table1 table' (rw (added, incoming_table) at h) q.1
          (add_incoming-All e table table1 added q.0 all)
  ]

  pub no_edges-All : (nodes : Dict ResolvedNode) → AllIncoming (no_edges nodes)
  no_edges-All nodes n = rw (incoming_of-no_edges n nodes) tt

-- Behind the names that were seen, each name's edges lead from names seen before it.
abbrev pub IsSourced : Dict (List Edge) → List String → List String → Type 0
IsSourced table seen [] = Unit
IsSourced table seen (v ∷ rest) =
    All (λ (e : Edge). contains seen e.source ≡ true) (incoming_of v table)
    × IsSourced table (seen ++ v ∷ []) rest

preceded :
    (v : String) (seen rest order : List String) (edges : List Edge)
    → order ≡ seen ++ v ∷ rest
    → count v order ≤ 1
    → All (λ (e : Edge). Precedes order e.source v) edges
    → All (λ (e : Edge). contains seen e.source ≡ true) edges
preceded v seen rest order [] split once h = tt
preceded v seen rest order (e ∷ edges) split once h =
    let (before, after, split', there) = h.0 in
    let same : seen ≡ before =
      split_unique v seen before rest after (rw split at once) (sym split ∙ split') in
    (
      rw same (count-contains before e.source there),
      preceded v seen rest order edges split once h.1,
    )

order-IsSourced :
    (table : Dict (List Edge)) (order seen rest : List String)
    → order ≡ seen ++ rest
    → IsUnique order
    → ((n : String) → All (λ (e : Edge). Precedes order e.source n) (incoming_of n table))
    → IsSourced table seen rest
order-IsSourced table order seen [] split once h = tt
order-IsSourced table order seen (v ∷ rest) split once h = (
  preceded v seen rest order (incoming_of v table) split (once v) (h v),
  order-IsSourced table order (seen ++ v ∷ []) rest (split ∙ sym (append_assoc seen (v ∷ []) rest))
      once h,
)

pub compiled-IsSourced :
    (ir : ExecutionIr) (table : Dict (List Edge))
    → IsCompiled ir
    → incoming_table ir.resolved_edges (no_edges ir.resolved_nodes) ≡ some table
    → IsSourced table [] ir.topological_order
compiled-IsSourced ir table c h =
    let order = compiled_order ir c in
    order-IsSourced table ir.topological_order [] ir.topological_order refl
      (λ v. omega (arith, order.same_nodes v, c.unique v))
      (incoming_table-All (λ n e. Precedes ir.topological_order e.source n) ir.resolved_edges
        (no_edges ir.resolved_nodes) table h
        (All-of-map (λ (a : Arc). Precedes ir.topological_order a.source a.target) arc_of
          ir.resolved_edges order.sources_first)
        (no_edges-All (λ n e. Precedes ir.topological_order e.source n) ir.resolved_nodes))
