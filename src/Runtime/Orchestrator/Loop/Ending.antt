-- ===== src/Runtime/Orchestrator/Loop/Ending.antt =====
-- The loop never stops with a node left over: it ends when the run has failed, or when every node is settled.
use bpg.Common.{
  ℕ, zero, suc, String, ◌≡◌, refl, sym, ap, ◌∙◌, ◌⊎◌, inl, inr, Bool, true, false, ◌&&◌, some, List,
  [], ◌∷◌, ◌++◌, ◌==◌, if◌then◌else◌, Dict, get, has_key, contains, arith, All, Bool-cases,
  text_test_refl, text_cases,
}
use bpg.Value.{Fields}
use bpg.Compiler.Schema.{Edge}
use bpg.Runtime.Orchestrator.{
  done, ◌>>=◌, Host, ExecutionIr, Machine, incoming_of, any_unsettled, is_terminal,
}
use bpg.Runtime.Orchestrator.Loop.{is_nil, round_end, round}
use bpg.Runtime.Orchestrator.Loop.Scheduling.{NamesTasks, >>=-eq-done, done_injective}
use bpg.Runtime.Orchestrator.Loop.Polling.{
  IsDistinct, Reach-IsDistinct, round-Reach, scheduled_from, polled_from, ticked,
}
use bpg.Runtime.Orchestrator.Loop.Unrolling.{
  is_over, one_round, rounds, empty, broken, last, more, unroll, run_loop-zero,
}
use bpg.Runtime.Orchestrator.Loop.Phases.{
  AllAgree, Reach-AllAgree, run_failed, agrees_settled, agrees_pending,
}
use bpg.Runtime.Orchestrator.Loop.Progress.{IsStill, schedule_pass-quiet}
use bpg.Runtime.Orchestrator.Loop.Waiting.{poll_pass-quiet}
use bpg.Runtime.Orchestrator.Loop.Order.{IsSourced}

pub nil-has_key {ℓ} : {V : Type ℓ} (d : Dict V) (n : String) → is_nil d ≡ true → has_key n d ≡ false
unfolding has_key
nil-has_key [] n h = refl
nil-has_key (e ∷ d) n h = absurd (cc)

pub nil-contains : (xs : List String) (n : String) → is_nil xs ≡ true → contains xs n ≡ false
unfolding contains
nil-contains [] n h = refl
nil-contains (x ∷ xs) n h = absurd (cc)

pub over_parts :
    {W : Type 0} (m : Machine W)
    → is_over m ≡ true
    → (is_nil m.pending ≡ true) × (is_nil m.inflight ≡ true)
over_parts m h = ground arith

nil_of_contains : (xs : List String) → ((n : String) → contains xs n ≡ false) → is_nil xs ≡ true
unfolding contains
nil_of_contains [] h = refl
nil_of_contains (x ∷ xs) h = absurd (ground (arith, h x, text_test_refl x))

any_unsettled-seen :
    (statuses : Dict String) (seen : List String) (edges : List Edge)
    → ((n : String) → contains seen n ≡ true → is_terminal (get n statuses) ≡ true)
    → All (λ (e : Edge). contains seen e.source ≡ true) edges
    → any_unsettled statuses edges ≡ false
unfolding any_unsettled
any_unsettled-seen statuses seen [] settled h = refl
any_unsettled-seen statuses seen (e ∷ edges) settled h =
    rw (settled e.source h.0) (any_unsettled-seen statuses seen edges settled h.1)

contains-append :
    (xs ys : List String) (n : String)
    → contains (xs ++ ys) n ≡ (if contains xs n then true else contains ys n)
unfolding contains
contains-append [] ys n = refl
contains-append (x ∷ xs) ys n = ground (arith, contains-append xs ys n)

both : {a b : Bool} → a ≡ true → b ≡ true → a && b ≡ true
both {a} {b} h k = ground arith

round_end-last :
    (host : Host) (m m1 : Machine host.World)
    → round_end host m ≡ (false, m1)
    → (m.progressed ≡ false) × (is_nil m.inflight ≡ true)
round_end-last host m m1 h = elim (Bool-cases m.progressed) [
  | inl moved ↦ absurd (cc (ap (λ (r : Bool × Machine host.World). r.0) (rw moved at h)))
  | inr still ↦ elim (Bool-cases (is_nil m.inflight)) [
    | inl idle ↦ (still, idle)
    | inr waits ↦ absurd (cc (ap (λ (r : Bool × Machine host.World). r.0) (rw (still, waits) at h)))
  ]
]

contains-tail :
    (v k : String) (xs : List String) → contains xs k ≡ true → contains (v ∷ xs) k ≡ true
unfolding contains
contains-tail v k xs e = ground arith

contains-head : (v : String) (xs : List String) → contains (v ∷ xs) v ≡ true
unfolding contains
contains-head v xs = ground (arith, text_test_refl v)

contains-behind :
    (v n : String) (xs : List String)
    → (v == n) ≡ false
    → contains (v ∷ xs) n ≡ true
    → contains xs n ≡ true
unfolding contains
contains-behind v n xs other h = ground arith

contains-front :
    (v k : String) (xs : List String)
    → (v == k) ≡ false
    → contains (xs ++ v ∷ []) k ≡ true
    → contains xs k ≡ true
unfolding contains
contains-front v k xs other h = ground (arith, contains-append xs (v ∷ []) k)

module _ (host : Host) (ir : ExecutionIr) (incoming : Dict (List Edge)) (run_id : String)
    (trigger_input : Fields) (named : NamesTasks host) where
  -- Where nothing is in flight and no pending node can move, no node of the order is pending.
  none_pending :
      (m : Machine host.World) (seen rest : List String)
      → AllAgree host ir m
      → is_nil m.inflight ≡ true
      → All (IsStill incoming m) rest
      → IsSourced incoming seen rest
      → ((n : String) → contains rest n ≡ true → contains ir.topological_order n ≡ true)
      → ((n : String) → contains seen n ≡ true → is_terminal (get n m.node_statuses) ≡ true)
      → (n : String) → contains rest n ≡ true
      → contains m.pending n ≡ false
  none_pending m seen [] agree idle still sourced listed settled n h = absurd (cc (unlisted n))
    where
      unlisted : (k : String) → contains [] k ≡ false
      unlisted k = unfold contains in refl
  none_pending m seen (v ∷ rest) agree idle still sourced listed settled n h =
      elim (text_cases v n) [
        | inl same ↦ rw (← same) absent
        | inr other ↦
            none_pending m (seen ++ v ∷ []) rest agree idle still.1 sourced.1
              (λ k e. listed k (tail_listed k e)) settled_too n (contains-behind v n rest other h)
      ]
    where
      absent : contains m.pending v ≡ false
      absent = elim still.0 [
        | inl a ↦ a
        | inr blocked ↦ absurd (
            cc (any_unsettled-seen m.node_statuses seen (incoming_of v incoming) settled sourced.0))
      ]

      tail_listed : (k : String) → contains rest k ≡ true → contains (v ∷ rest) k ≡ true
      tail_listed k e = contains-tail v k rest e

      done_v : is_terminal (get v m.node_statuses) ≡ true
      done_v =
          let (t, status, terminal, how) =
            agrees_settled _ _ _ _ _ (agree v) (listed v (contains-head v rest)) absent
              (nil-has_key m.inflight v idle) in
          terminal

      settled_too :
          (k : String)
          → contains (seen ++ v ∷ []) k ≡ true
          → is_terminal (get k m.node_statuses) ≡ true
      settled_too k e = elim (text_cases v k) [
        | inl same ↦ rw (← same) done_v
        | inr other ↦ settled k (contains-front v k seen other e)
      ]

  nobody_pending :
      (m : Machine host.World)
      → AllAgree host ir m
      → is_nil m.inflight ≡ true
      → All (IsStill incoming m) ir.topological_order
      → IsSourced incoming [] ir.topological_order
      → is_nil m.pending ≡ true
  nobody_pending m agree idle still sourced = nil_of_contains m.pending (λ n. absent n)
    where
      nothing_seen :
          (k : String) → contains [] k ≡ true → is_terminal (get k m.node_statuses) ≡ true
      nothing_seen k e = absurd (unfold contains in cc e)

      absent : (n : String) → contains m.pending n ≡ false
      absent n = elim (Bool-cases (contains m.pending n)) [
        | inr out ↦ out
        | inl pending ↦
            let (listed, flying, unset) = agrees_pending _ _ _ _ _ (agree n) pending in
            none_pending m [] ir.topological_order agree idle still sourced (λ k e. e) nothing_seen
              n listed
      ]

  -- A round that leaves the loop has failed, or nothing was left before it.
  last_round :
      (m m1 : Machine host.World)
      → AllAgree host ir m
      → IsSourced incoming [] ir.topological_order
      → one_round host ir incoming run_id trigger_input m ≡ done (false, m1)
      → (run_failed m1.run_status ≡ true) ⊎ (is_over m ≡ true)
  unfolding round
  last_round m m1 agree sourced h =
      let (ms, scheduled, rest) =
        >>=-eq-done (scheduled_from host ir incoming "" run_id trigger_input named m)
          (λ ms.
            if ms.run_status == "failed"
            then done (false, ms)
            else polled_from host ir incoming "" run_id trigger_input named ms >>= λ mp.
                done (round_end host mp))
          h in
      elim (Bool-cases (ms.run_status == "failed")) [
        | inl over ↦
            let same : ms ≡ m1 =
              ap (λ (r : Bool × Machine host.World). r.1) (done_injective (rw over at rest)) in
            inl (rw (← same) over)
        | inr goes_on ↦
            let (mp, polled, end) =
              >>=-eq-done (polled_from host ir incoming "" run_id trigger_input named ms)
                (λ mp. done (round_end host mp)) (rw goes_on at rest) in
            let (quiet, idle) = round_end-last host mp m1 (done_injective end) in
            let (flying, quiet_s) =
              poll_pass-quiet host ir _ ms.inflight
                (ticked host ir incoming "" run_id trigger_input named ms) mp polled quiet in
            let (same, still) =
              schedule_pass-quiet host ir incoming run_id trigger_input named ir.topological_order
                (record m { progressed = false }) ms scheduled quiet_s in
            let idle_m : is_nil m.inflight ≡ true =
              ap is_nil (sym (flying ∙ ap (λ (k : Machine host.World). k.inflight) same)) ∙ idle in
            inr (both (nobody_pending m agree idle_m still sourced) idle_m)
      ]

  -- However the loop is left, the run has failed or nothing is left.
  pub run_loop_over :
      (fuel : ℕ) (m m' : Machine host.World)
      → AllAgree host ir m
      → IsDistinct m.inflight
      → IsSourced incoming [] ir.topological_order
      → rounds host ir incoming run_id trigger_input fuel m ≡ some (done m')
      → (run_failed m'.run_status ≡ true) ⊎ (is_over m' ≡ true)
  run_loop_over zero m m' agree distinct sourced h =
      absurd (cc (run_loop-zero host ir incoming run_id trigger_input m))
  run_loop_over (suc fuel) m m' agree distinct sourced h =
      elim (unroll host ir incoming run_id trigger_input fuel m) [
        | empty over e ↦ let same : m ≡ m' = cc in inr (rw (← same) over)
        | broken e broke e' ↦ absurd (cc)
        | last m1 left ran e ↦
            let same : m1 ≡ m' = cc in
            rw (← same) (elim (last_round m m1 agree sourced ran) [
              | inl over ↦ inl over
              | inr over ↦ absurd (cc)
            ])
        | more m1 left ran e ↦
            let first =
              round-Reach host ir incoming "" run_id trigger_input named m m1 true distinct ran in
            run_loop_over fuel m1 m' (Reach-AllAgree host ir incoming "" first agree)
              (Reach-IsDistinct host ir incoming "" first distinct) sourced (sym e ∙ h)
      ]
