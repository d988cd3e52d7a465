-- ===== src/Compiler/Cycles/Search.antt =====
-- The search itself: it always ends, in a list of visited nodes in which every node's successors were
-- visited before it, or at a cycle.
use bpg.Common.{
  ℕ, zero, suc, ◌+◌, ◌≤◌, ◌<◌, String, ◌≡◌, refl, ap, ◌⊎◌, inl, inr, true, false, Option, some,
  List, [], ◌∷◌, Dict, contains, count, length, length-le_of_count-le, All, All-map, All-zip,
  All-forall, arith, Bool-cases, text_cases, text_test_refl, count-contains,
}
use bpg.Compiler.Topology.{Arc, neighbours}
use bpg.Compiler.Topology.Build.{declared}
use bpg.Compiler.Topology.Counting.{successors}
use bpg.Compiler.Topology.Correct.{IsRanked}
use bpg.Compiler.Cycles.{Visit, visited, cycle_at, visit_each, leave, visit, visit_root, find_cycle}

abbrev pub Includes : List String → List String → Type 0
Includes small large = (v : String) → contains small v ≡ true → contains large v ≡ true

-- The latest first: the successors of a node stand behind it, and it is not among them.
abbrev pub IsClosed : List Arc → List String → Type 0
IsClosed edges [] = Unit
IsClosed edges (u ∷ done) =
    (contains done u ≡ false)
    × (All (λ v. contains done v ≡ true) (successors u edges))
    × IsClosed edges done

-- What a visit promises, for an invariant of the visited nodes and a proof that there is a cycle.
abbrev Visits : (List String → Type 0) → Type 0 → List String → List String → Option Visit → Type 0
Visits Good Cyclic done targets r =
    ((done' : List String) × (r ≡ some (visited done'))
      × Good done'
      × Includes done done'
      × All (λ v. contains done' v ≡ true) targets)
    ⊎ ((u : String) × (r ≡ some (cycle_at u)) × Cyclic)

visit_each-Visits :
    (Good : List String → Type 0) (Cyclic : Type 0) (Ok : String → Type 0)
    (go : List String → String → Option Visit)
    → ((done : List String) (v : String)
        → Good done
        → Ok v
        → Visits Good Cyclic done (v ∷ []) (go done v))
    → (done targets : List String) → Good done
    → All Ok targets
    → Visits Good Cyclic done targets (visit_each go done targets)
unfolding visit_each
visit_each-Visits Good Cyclic Ok go spec done [] good ok = inl (done, refl, good, λ v h. h, tt)
visit_each-Visits Good Cyclic Ok go spec done (v ∷ vs) good ok = elim (spec done v good ok.0) [
  | inr (u, ran, cyclic) ↦ inr (u, rw (ran, visit_each) refl, cyclic)
  | inl (done', ran, good', more, has) ↦
      elim (visit_each-Visits Good Cyclic Ok go spec done' vs good' ok.1) [
        | inr (u, ran', cyclic) ↦ inr (u, rw (ran, ran', visit_each) refl, cyclic)
        | inl (final, ran', good'', more', all) ↦ inl (
          final,
          rw (ran, ran', visit_each) refl,
          good'',
          λ x h. more' x (more x h),
          (more' v has.0, all),
        )
      ]
]

module _ (nodes : List String) (edges : List Arc) (adj : Dict (List String)) where
  abbrev IsCyclic : Type 0
  IsCyclic = (rank : String → ℕ) → ¬ IsRanked rank edges

  -- The table of the loop over the edges.
  abbrev IsTable : Type 0
  IsTable = (u : String) → declared nodes u ≡ true → neighbours u adj ≡ successors u edges

  -- Every rank grows from the nodes of the path to the node that is visited.
  abbrev Leads : List String → String → Type 0
  Leads path u =
      (rank : String → ℕ)
      → IsRanked rank edges
      → (p : String) → contains path p ≡ true
      → rank p < rank u

  abbrev IsApart : List String → List String → Type 0
  IsApart path done = (p : String) → contains path p ≡ true → contains done p ≡ false

  abbrev IsGood : List String → List String → Type 0
  IsGood path done = IsClosed edges done × IsApart path done

  abbrev IsNext : List String → String → Type 0
  IsNext path u = (declared nodes u ≡ true) × Leads path u

  successors-grow :
      (rank : String → ℕ) (u : String) (es : List Arc)
      → IsRanked rank es
      → All (λ v. rank u < rank v) (successors u es)
  successors-grow rank u [] ranked = tt
  successors-grow rank u (e ∷ es) ranked = elim (text_cases e.source u) [
    | inr other ↦ rw other (successors-grow rank u es ranked.1)
    | inl is ↦
        rw (is, text_test_refl u)
          (omega (arith, ranked.0, ap rank is), successors-grow rank u es ranked.1)
  ]

  module _ (known_targets : All (λ e. declared nodes e.target ≡ true) edges) (table : IsTable) where
    successors-declared :
        (u : String) (es : List Arc)
        → All (λ e. declared nodes e.target ≡ true) es
        → All (λ v. declared nodes v ≡ true) (successors u es)
    successors-declared u [] d = tt
    successors-declared u (e ∷ es) d = elim (text_cases e.source u) [
      | inr other ↦ rw other (successors-declared u es d.1)
      | inl is ↦ rw (is, text_test_refl u) (d.0, successors-declared u es d.1)
    ]

    -- The successors of the node that is visited lie beyond the path with it.
    All-IsNext :
        (path : List String) (u : String)
        → Leads path u
        → All (IsNext (u ∷ path)) (successors u edges)
    All-IsNext path u leads =
        All-map (λ v h. (h.0, λ rank ranked p on. h.1 (rank, ranked) p on)) (successors u edges)
          (All-zip _ _ (successors u edges) (successors-declared u edges known_targets)
            (All-forall beyond (successors u edges) grows))
      where
        Ranking : Type 0
        Ranking = (rank : String → ℕ) × IsRanked rank edges

        beyond : Ranking → String → Type 0
        beyond r v = (p : String) → contains (u ∷ path) p ≡ true → r.0 p < r.0 v

        step : (r : Ranking) (v : String) → r.0 u < r.0 v → beyond r v
        step (rank, ranked) v up p on = elim (text_cases u p) [
          | inl is ↦ omega (arith, ap rank is)
          | inr other ↦
              omega (arith, leads rank ranked p (unfold contains in ground (arith, other)))
        ]

        grows : (r : Ranking) → All (beyond r) (successors u edges)
        grows r = All-map (step r) (successors u edges) (successors-grow r.0 u edges r.1)

    -- The path with the node that is visited.
    path-count :
        (path : List String) (u : String)
        → ((v : String) → count v path ≤ count v nodes)
        → declared nodes u ≡ true
        → contains path u ≡ false
        → (v : String) → count v (u ∷ path) ≤ count v nodes
    unfolding count
    path-count path u once d fresh v = elim (text_cases u v) [
      | inl is ↦ rw (← is) (ground (arith, text_test_refl u, count-contains path u))
      | inr other ↦ rw other (omega (arith, once v))
    ]

    IsApart-cons :
        (path done : List String) (u : String)
        → IsApart path done
        → contains done u ≡ false
        → IsApart (u ∷ path) done
    unfolding contains
    IsApart-cons path done u apart unseen p on = elim (text_cases u p) [
      | inl is ↦ rw (← is) unseen
      | inr other ↦ apart p (ground (arith, other))
    ]

    -- Back on the path before, the node is visited.
    left_behind :
        (path done : List String) (u : String)
        → IsApart (u ∷ path) done
        → contains path u ≡ false
        → IsApart path (u ∷ done)
    unfolding contains
    left_behind path done u apart fresh p on = elim (text_cases u p) [
      | inl is ↦ absurd (cc (is, fresh, on))
      | inr other ↦ rw other (apart p (ground (arith, other)))
    ]

    leave-Visits :
        (path done : List String) (u : String) (r : Option Visit)
        → contains path u ≡ false
        → Visits (IsGood (u ∷ path)) IsCyclic done (successors u edges) r
        → Visits (IsGood path) IsCyclic done (u ∷ []) (leave u r)
    unfolding leave
    leave-Visits path done u r fresh (inr (w, ran, cyclic)) = inr (w, rw (ran, leave) refl, cyclic)
    leave-Visits path done u r fresh (inl (done', ran, good, more, all)) = inl (
      u ∷ done',
      rw (ran, leave) refl,
      (
        (good.1 u (unfold contains in ground (arith, text_test_refl u)), all, good.0),
        left_behind path done' u good.1 fresh,
      ),
      λ v h. unfold contains in ground (arith, more v h),
      (unfold contains in ground (arith, text_test_refl u), tt),
    )

    visit-Visits :
        (fuel : ℕ) (path done : List String) (u : String)
        → length nodes < length path + fuel
        → ((v : String) → count v path ≤ count v nodes)
        → IsGood path done
        → IsNext path u
        → Visits (IsGood path) IsCyclic done (u ∷ []) (visit fuel adj path done u)
    unfolding visit
    visit-Visits zero path done u enough once good next =
        absurd (omega (arith, length-le_of_count-le path nodes once))
    visit-Visits (suc fuel) path done u enough once good next =
        elim (Bool-cases (contains path u)) [
          | inl back ↦
              inr
                (u, rw (back, visit) refl, λ rank ranked. omega (arith, next.1 rank ranked u back))
          | inr fresh ↦ elim (Bool-cases (contains done u)) [
            | inl before ↦ inl (done, rw (fresh, before, visit) refl, good, λ v h. h, (before, tt))
            | inr unseen ↦
                let inner =
                  visit_each-Visits (IsGood (u ∷ path)) IsCyclic (IsNext (u ∷ path))
                    (λ d v. visit fuel adj (u ∷ path) d v)
                    (λ d v g n.
                      visit-Visits fuel (u ∷ path) d v (omega arith)
                        (path-count path u once next.0 fresh) g n)
                    done (successors u edges) (good.0, IsApart-cons path done u good.1 unseen)
                    (All-IsNext path u next.1) in
                let left = leave-Visits path done u _ fresh inner in
                rw (fresh, unseen, table u next.0, visit) left
          ]
        ]

    visit_root-Visits :
        (done : List String) (u : String)
        → IsClosed edges done
        → declared nodes u ≡ true
        → Visits
            (IsClosed edges)
            IsCyclic
            done
            (u ∷ [])
            (visit_root (suc (length nodes)) adj done u)
    unfolding visit_root
    visit_root-Visits done u closed d = elim (Bool-cases (contains done u)) [
      | inl before ↦ inl (done, rw (before, visit_root) refl, closed, λ v h. h, (before, tt))
      | inr unseen ↦
          elim (visit-Visits (suc (length nodes)) [] done u (omega arith)
            (λ v. unfold count in omega arith) (closed, λ p on. unfold contains in cc)
            (d, λ rank ranked p on. unfold contains in cc)) [
              | inr (w, ran, cyclic) ↦ inr (w, rw (unseen, visit_root) ran, cyclic)
              | inl (done', ran, good, more, has) ↦
                  inl (done', rw (unseen, visit_root) ran, good.0, more, has)
            ]
    ]

    -- All nodes visited, or a cycle.
    pub find_cycle-Ends :
        All (λ v. declared nodes v ≡ true) nodes
        → ((done : List String) × (find_cycle nodes adj ≡ some (visited done))
            × IsClosed edges done
            × All (λ v. contains done v ≡ true) nodes)
          ⊎ ((u : String) × (find_cycle nodes adj ≡ some (cycle_at u)) × IsCyclic)
    unfolding find_cycle
    find_cycle-Ends all =
        elim (visit_each-Visits (IsClosed edges) IsCyclic (λ v. declared nodes v ≡ true)
          (λ d u. visit_root (suc (length nodes)) adj d u) visit_root-Visits [] nodes tt all) [
            | inr (u, ran, cyclic) ↦ inr (u, ran, cyclic)
            | inl (done, ran, closed, more, has) ↦ inl (done, ran, closed, has)
          ]
