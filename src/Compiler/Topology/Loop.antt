-- ===== src/Compiler/Topology/Loop.antt =====
-- What the loops of the sort compute, in counts.
use bpg.Common.{
  ℕ, ◌+◌, ◌-◌, ◌<◌, String, ◌≡◌, Option, none, some, List, [], ◌∷◌, ◌++◌, inl, inr, arith, eq_iff,
  count, count-append, if◌then◌else◌, text_cases, text_test_refl, Dict, get, put, get-put, leb, ltb,
  ◌&&◌, Option-cases, nat_eq,
}
use mathlib.Core.Option
use bpg.Compiler.Topology.{Work, fill, seed, relax}

-- One for a node whose count reaches zero within `n` steps down.
abbrev pub reached : ℕ → Option ℕ → ℕ
reached n none = 0
reached n (some d) = if ltb 0 d && leb d n then 1 else 0

pub get-fill {ℓ} :
    {V : Type ℓ} (v : V) (a : String) (names : List String)
    → 0 < count a names
    → get a (fill v names) ≡ some v
unfolding get fill count
get-fill v a [] h = absurd (omega arith)
get-fill v a (x ∷ xs) h = ground (arith, get-fill v a xs)

-- The work list after one neighbour.
abbrev lowered : String → ℕ → Work → Work
lowered n d w = record {
  degrees = put n (d - 1) w.degrees;
  queue = if nat_eq d 1 then w.queue ++ n ∷ [] else w.queue;
}

-- The inner loop lowers each count by the number of edges to that neighbour.
pub get-relax :
    (ns : List String) (w : Work) (v : String)
    → get v (relax ns w).degrees ≡ Option.map (λ d. d - count v ns) (get v w.degrees)
unfolding relax count
get-relax [] w v = ground arith
get-relax (n ∷ ns) w v = elim (Option-cases (get n w.degrees)) [
  | inl e ↦ rw (e, relax) (ground (arith, get-relax ns w v, eq_iff n v))
  | inr (d, e) ↦
      rw (e, relax)
        (ground (arith, get-relax ns (lowered n d w) v, get-put n v (d - 1) w.degrees, eq_iff n v))
]

-- And it enqueues a neighbour once, when its count reaches zero.
pub queue-relax :
    (ns : List String) (w : Work) (v : String)
    → count v (relax ns w).queue ≡ count v w.queue + reached (count v ns) (get v w.degrees)
unfolding relax count
queue-relax [] w v = ground arith
queue-relax (n ∷ ns) w v = elim (Option-cases (get n w.degrees)) [
  | inl e ↦ rw (e, relax) (ground (arith, queue-relax ns w v, eq_iff n v))
  | inr (d, e) ↦
      rw (e, relax)
        (ground (
          arith,
          queue-relax ns (lowered n d w) v,
          get-put n v (d - 1) w.degrees,
          count-append v w.queue (n ∷ []),
          eq_iff n v,
        ))
]

-- The queue starts with the nodes whose count is zero, each as often as it is listed.
pub count-seed :
    (names : List String) (degrees : Dict ℕ) (v : String)
    → count v (seed names degrees)
      ≡ (elim (get v degrees) [ none ↦ 0 | some d ↦ if nat_eq d 0 then count v names else 0 ])
unfolding seed count
count-seed [] degrees v = ground arith
count-seed (n ∷ ns) degrees v = elim (text_cases n v) [
  | inl is ↦ rw is (ground (arith, count-seed ns degrees v, text_test_refl v))
  | inr other ↦ ground (arith, count-seed ns degrees v)
]
