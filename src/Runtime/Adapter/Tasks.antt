-- ===== src/Runtime/Adapter/Tasks.antt =====
-- What the adapter keeps of a task.
use bpg.Common.{
  String, ◌≡◌, refl, sym, ap, ◌∙◌, inl, inr, false, Option, some, List, [], ◌∷◌, Option-cases, Dict,
  get, put, get-put, ◌==◌, Bool-cases, text_test_refl,
}
use bpg.Runtime.Orchestrator.{StartCall}
use bpg.Runtime.Adapter.{
  Called, Providers, AdapterState, returned, provider_error, other_error, remember, after_invoke,
  adapter_start, adapter_poll, poll_handle,
}

some_same : (a b : String) → some a ≡ some b → a ≡ b
some_same a b h = cc

get-here {ℓ} : {V : Type ℓ} (k : String) (v : V) (d : Dict V) → get k (put k v d) ≡ some v
get-here k v d = rw (get-put k k v d, text_test_refl k) refl

get-apart {ℓ} :
    {V : Type ℓ} (k j : String) (v : V) (d : Dict V)
    → (k == j) ≡ false
    → get j (put k v d) ≡ get j d
get-apart k j v d other = rw (get-put k j v d, other) refl

module _ {W Handle : Type 0} (providers : Providers W Handle) where
  -- A task was started: its provider gave a handle, and the table holds both.
  abbrev Started : StartCall → AdapterState W Handle → String → AdapterState W Handle → Type 0
  Started call s id s' =
      (handle : Handle) × (w : W) × (providers.invoke call.node_type.provider call s.outer
        ≡ (returned handle, w))
      × (s'.tasks ≡ put id (call.node_type.provider, handle) s.tasks)

  after_invoke-Started :
      (call : StartCall) (s : AdapterState W Handle) (called : Called Handle × W) (id : String)
      (s' : AdapterState W Handle)
      → providers.invoke call.node_type.provider call s.outer ≡ called
      → after_invoke providers s.tasks call.node_type.provider called ≡ (some id, s')
      → Started call s id s'
  unfolding after_invoke remember
  after_invoke-Started call s (returned handle, w) id s' invoked h =
      let same : (providers.new_id w).0 ≡ id = some_same _ id (ap (λ r. r.0) h) in
      (
        handle,
        w,
        invoked,
        sym (ap (λ (r : Option String × AdapterState W Handle). r.1.tasks) h)
            ∙ ap (λ i. put i (call.node_type.provider, handle) s.tasks) same,
      )
  after_invoke-Started call s (provider_error e, w) id s' invoked h = absurd (cc (ap (λ r. r.0) h))
  after_invoke-Started call s (other_error e, w) id s' invoked h = absurd (cc (ap (λ r. r.0) h))

  adapter_start-Started :
      (call : StartCall) (s : AdapterState W Handle) (id : String) (s' : AdapterState W Handle)
      → adapter_start providers call s ≡ (some id, s')
      → Started call s id s'
  unfolding adapter_start
  adapter_start-Started call s id s' h =
      elim (Bool-cases (providers.registered call.node_type.provider)) [
        | inl on ↦ after_invoke-Started call s _ id s' refl (rw (on, adapter_start) at h)
        | inr off ↦ absurd (cc (ap (λ r. r.0) (rw (off, adapter_start) at h)))
      ]

  poll_task-eq :
      (id provider : String) (handle : Handle) (s : AdapterState W Handle)
      → get id s.tasks ≡ some (provider, handle)
      → (adapter_poll providers id s).0 ≡ (poll_handle providers provider handle s.outer).0
  unfolding adapter_poll
  poll_task-eq id provider handle s found = rw (found, adapter_poll) refl

  adapter_poll-tasks :
      (id : String) (s : AdapterState W Handle) → (adapter_poll providers id s).1.tasks ≡ s.tasks
  unfolding adapter_poll
  adapter_poll-tasks id s = elim (Option-cases (get id s.tasks)) [
    | inl none_found ↦ rw (none_found, adapter_poll) refl
    | inr (task, found) ↦ rw (found, adapter_poll) refl
  ]

  abbrev pub poll_all : List String → AdapterState W Handle → AdapterState W Handle
  poll_all [] s = s
  poll_all (id ∷ ids) s = poll_all ids (adapter_poll providers id s).1

  poll_all-tasks :
      (ids : List String) (s : AdapterState W Handle) → (poll_all ids s).tasks ≡ s.tasks
  poll_all-tasks [] s = refl
  poll_all-tasks (id ∷ ids) s =
      poll_all-tasks ids (adapter_poll providers id s).1 ∙ adapter_poll-tasks id s

  -- A task that was started is polled at the provider of its node, with the handle that the provider gave
  -- when it was invoked, however often other tasks were polled in between; and tasks with other ids are
  -- kept.
  pub adapter_start-poll :
      (call : StartCall) (s : AdapterState W Handle) (id : String) (s' : AdapterState W Handle)
      (others : List String)
      → adapter_start providers call s ≡ (some id, s')
      → (handle : Handle) × (w : W) × (providers.invoke call.node_type.provider call s.outer
          ≡ (returned handle, w))
        × ((adapter_poll providers id (poll_all others s')).0
            ≡ (poll_handle providers call.node_type.provider handle (poll_all others s').outer).0)
        × ((other : String)
            → (id == other) ≡ false
            → get other (poll_all others s').tasks ≡ get other s.tasks)
  adapter_start-poll call s id s' others h =
      let (handle, w, invoked, kept) = adapter_start-Started call s id s' h in
      let tasks = poll_all-tasks others s' ∙ kept in
      (
        handle,
        w,
        invoked,
        poll_task-eq id call.node_type.provider handle (poll_all others s')
            (ap (get id) tasks ∙ get-here id (call.node_type.provider, handle) s.tasks),
        λ other apart.
            ap (get other) tasks
            ∙ get-apart id other (call.node_type.provider, handle) s.tasks apart,
      )
