-- ===== src/Compiler/Cycles/Ranks.antt =====
-- The visited nodes give a rank: the place in the list, latest first.
use bpg.Common.{
  ℕ, suc, ◌+◌, ◌≤◌, ◌<◌, String, ◌≡◌, refl, ap, inl, inr, true, false, List, [], ◌∷◌, ◌++◌, ◌==◌,
  contains, count, count-append, length, All, All-map, All-zip, arith, if◌then◌else◌, text_cases,
  text_test_refl,
}
use bpg.Compiler.Topology.{Arc}
use bpg.Compiler.Topology.Counting.{successors}
use bpg.Compiler.Topology.Correct.{IsUnique, Precedes, IsOrderOf, IsRanked}
use bpg.Compiler.Cycles.Search.{IsClosed}

abbrev pub place : List String → String → ℕ
place [] v = 0
place (u ∷ done) v = if u == v then 0 else suc (place done v)

-- What holds of all successors holds of the target of each edge that leaves the node.
targets_of {ℓ} :
    (P : String → Type ℓ) (u : String) (es : List Arc)
    → All P (successors u es)
    → All (λ e. e.source ≡ u → P e.target) es
targets_of P u [] h = tt
targets_of P u (e ∷ es) h = elim (text_cases e.source u) [
  | inl is ↦
      let split : P e.target × All P (successors u es) = rw (is, text_test_refl u) at h in
      (λ _. split.0, targets_of P u es split.1)
  | inr other ↦
      let rest : All P (successors u es) = rw other at h in
      (λ is. absurd (cc (is, other, text_test_refl u)), targets_of P u es rest)
]

-- An edge from a node of the list leads to a later place of it.
abbrev Grows : List String → Arc → Type 0
Grows done e =
    contains done e.source ≡ true
    → (contains done e.target ≡ true) × (place done e.source < place done e.target)

Grows-cons :
    (u : String) (done : List String) (e : Arc)
    → contains done u ≡ false
    → (e.source ≡ u → contains done e.target ≡ true)
    → Grows done e
    → Grows (u ∷ done) e
unfolding contains
Grows-cons u done e new here later on = elim (text_cases u e.source) [
  | inl is ↦
      let on_target = here (cc is) in
      elim (text_cases u e.target) [
        | inl self ↦ absurd (cc (self, on_target, new))
        | inr other ↦ (ground arith, rw (other, is, text_test_refl e.source) (omega arith))
      ]
  | inr other ↦
      let (on_target, up) = later (ground (arith, other)) in
      elim (text_cases u e.target) [
        | inl self ↦ absurd (cc (self, on_target, new))
        | inr apart ↦ (ground arith, rw (other, apart) (omega arith))
      ]
]

none_on : (es : List Arc) → All (Grows []) es
unfolding contains
none_on [] = tt
none_on (e ∷ es) = (λ on. cc, none_on es)

IsClosed-Grows :
    (edges : List Arc) (done : List String) → IsClosed edges done → All (Grows done) edges
IsClosed-Grows edges [] closed = none_on edges
IsClosed-Grows edges (u ∷ done) closed =
    All-map (λ (e : Arc) h. Grows-cons u done e closed.0 h.0 h.1) edges
      (All-zip _ _ edges (targets_of (λ v. contains done v ≡ true) u edges closed.1)
        (IsClosed-Grows edges done closed.2))

pub IsClosed-IsRanked :
    (edges : List Arc) (done : List String)
    → IsClosed edges done
    → All (λ e. contains done e.source ≡ true) edges
    → IsRanked (place done) edges
IsClosed-IsRanked edges done closed on =
    All-map (λ (e : Arc) h. (h.0 h.1).1) edges
      (All-zip _ _ edges (IsClosed-Grows edges done closed) on)

-- An order without repetition gives a rank as well.
place-before :
    (v : String) (before rest : List String)
    → 0 < count v before
    → place (before ++ rest) v < length before
unfolding count
place-before v [] rest h = absurd (omega arith)
place-before v (u ∷ before) rest h = elim (text_cases u v) [
  | inl is ↦ rw (is, text_test_refl v) (omega arith)
  | inr other ↦ rw other (omega (arith, place-before v before rest (ground (arith, other, h))))
]

place-at :
    (v : String) (before rest : List String)
    → count v before ≤ 0
    → place (before ++ v ∷ rest) v ≡ length before
unfolding count
place-at v [] rest h = rw (text_test_refl v) refl
place-at v (u ∷ before) rest h = elim (text_cases u v) [
  | inl is ↦ absurd (ground (arith, is, text_test_refl v))
  | inr other ↦ rw other (ap suc (place-at v before rest (ground (arith, other, h))))
]

pub Precedes-place :
    (order : List String)
    → ((v : String) → count v order ≤ 1)
    → (a b : String) → Precedes order a b
    → place order a < place order b
unfolding count
Precedes-place order once a b (before, after, is, h) =
    rw is (omega (arith, place-before a before (b ∷ after) h, place-at b before after none_before))
  where
    here : count b (b ∷ after) ≡ 1 + count b after
    here = rw (text_test_refl b) refl

    none_before : count b before ≤ 0
    none_before = omega (arith, once b, ap (count b) is, count-append b before (b ∷ after), here)

pub IsOrderOf-IsRanked :
    (nodes : List String) (edges : List Arc) (order : List String)
    → IsUnique nodes
    → IsOrderOf nodes edges order
    → IsRanked (place order) edges
IsOrderOf-IsRanked nodes edges order unique o =
    All-map
      (λ (e : Arc) h.
        Precedes-place order (λ v. omega (arith, unique v, o.same_nodes v)) e.source e.target h)
      edges o.sources_first
