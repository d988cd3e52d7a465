-- ===== src/Runtime/Orchestrator/Loop/Unrolling.antt =====
-- The `while` loop of `run`, round by round.
use bpg.Common.{
  ℕ, zero, suc, String, ◌≡◌, refl, sym, ◌∙◌, ◌⊎◌, inl, inr, Bool, true, false, ◌&&◌, Option, none,
  some, List, Dict, Bool-cases,
}
use bpg.Value.{Fields}
use bpg.Compiler.Schema.{Edge}
use bpg.Runtime.Orchestrator.{RunError, Outcome, done, raised, Host, ExecutionIr, Machine}
use bpg.Runtime.Orchestrator.Loop.{is_nil, round, run_loop}
use bpg.Runtime.Orchestrator.Loop.Steps.{Reach, here, reach_trans}
use bpg.Runtime.Orchestrator.Loop.Scheduling.{NamesTasks}
use bpg.Runtime.Orchestrator.Loop.Polling.{IsDistinct, Reach-IsDistinct, round-Reach}

Outcome-cases {ℓ} :
    {A : Type ℓ} (o : Outcome A) → ((e : RunError) × (o ≡ raised e)) ⊎ ((a : A) × (o ≡ done a))
Outcome-cases (done a) = inr (a, refl)
Outcome-cases (raised e) = inl (e, refl)

-- `not (pending or inflight)`
abbrev pub is_over : {W : Type 0} → Machine W → Bool
is_over m = is_nil m.pending && is_nil m.inflight

module _ (host : Host) (ir : ExecutionIr) (incoming : Dict (List Edge)) (run_id : String)
    (trigger_input : Fields) where
  abbrev pub one_round : Machine host.World → Outcome (Bool × Machine host.World)
  one_round m = round host ir run_id trigger_input incoming m

  abbrev pub Ran : Type 0
  Ran = Option (Outcome (Machine host.World))

  abbrev pub rounds : ℕ → Machine host.World → Ran
  rounds fuel m = run_loop host ir run_id trigger_input fuel incoming m

  -- How a loop with a unit of fuel goes on.
  pub data Unrolled (fuel : ℕ) (m : Machine host.World) (r : Ran) : Type 0 where
    empty : is_over m ≡ true → r ≡ some (done m) → Unrolled fuel m r
    broken : (e : RunError) → one_round m ≡ raised e → r ≡ some (raised e) → Unrolled fuel m r
    last :
        (m1 : Machine host.World)
        → is_over m ≡ false
        → one_round m ≡ done (false, m1)
        → r ≡ some (done m1)
        → Unrolled fuel m r
    more :
        (m1 : Machine host.World)
        → is_over m ≡ false
        → one_round m ≡ done (true, m1)
        → r ≡ rounds fuel m1
        → Unrolled fuel m r

  pub run_loop-zero : (m : Machine host.World) → rounds zero m ≡ none
  unfolding run_loop
  run_loop-zero m = refl

  pub unroll : (fuel : ℕ) (m : Machine host.World) → Unrolled fuel m (rounds (suc fuel) m)
  unfolding run_loop
  unroll fuel m = elim (Bool-cases (is_over m)) [
    | inl over ↦ empty over (rw (over, run_loop) refl)
    | inr left ↦ elim (Outcome-cases (one_round m)) [
      | inl (e, broke) ↦ broken e broke (rw (left, broke, run_loop) refl)
      | inr ((false, m1), ran) ↦ last m1 left ran (rw (left, ran, run_loop) refl)
      | inr ((true, m1), ran) ↦ more m1 left ran (rw (left, ran, run_loop) refl)
    ]
  ]

  module _ (now : String) (named : NamesTasks host) where
    -- Whatever the loop ends in, it has come to by steps.
    pub run_loop-Reach :
        (fuel : ℕ) (m m' : Machine host.World)
        → IsDistinct m.inflight
        → run_loop host ir run_id trigger_input fuel incoming m ≡ some (done m')
        → Reach host ir incoming now m m'
    run_loop-Reach zero m m' distinct h = absurd (cc (run_loop-zero m))
    run_loop-Reach (suc fuel) m m' distinct h = elim (unroll fuel m) [
      | empty over e ↦ let same : m ≡ m' = cc in rw same here
      | broken e broke e' ↦ absurd (cc)
      | last m1 left ran e ↦
          let same : m1 ≡ m' = cc in
          rw (← same)
            (round-Reach host ir incoming now run_id trigger_input named m m1 false distinct ran)
      | more m1 left ran e ↦
          let first =
            round-Reach host ir incoming now run_id trigger_input named m m1 true distinct ran in
          reach_trans host ir incoming now first (
            run_loop-Reach fuel m1 m' (Reach-IsDistinct host ir incoming now first distinct)
              (sym e ∙ h))
    ]
