-- ===== src/Runtime/Adapter/Examples.antt =====
-- An adapter over one provider whose tasks complete, and the theorem about its tasks at it.
use bpg.Common.{ℕ, suc, String, ◌≡◌, refl, false, some, [], ◌∷◌, ◌==◌, get, put}
use bpg.Value.{str, end, field}
use bpg.Compiler.Schema.{NodeType}
use bpg.Runtime.Orchestrator.{StartCall, completed}
use bpg.Runtime.Adapter.{
  Providers, AdapterState, returned, has_completed, adapter_start, adapter_poll, poll_handle,
}
use bpg.Runtime.Adapter.Tasks.{poll_all, adapter_start-poll}

abbrev node_type : NodeType
node_type = record {
  input_type = "Request";
  output_type = "Reply";
  provider = "http.webhook";
  version = "v1";
  config_schema = [];
  rest = end;
}

abbrev call : StartCall
call = record {
  run_id = "r1";
  process_name = "p";
  node_name = "notify";
  node_type = node_type;
  input_payload = end;
  config = end;
  idempotency_key = "k";
}

-- The world counts the calls of the provider.
abbrev providers : Providers ℕ String
providers = record {
  registered = λ name. name == "http.webhook";
  invoke = λ name c calls. (returned c.node_name, suc calls);
  poll = λ name handle calls. (returned has_completed, suc calls);
  await_result = λ name handle calls. (returned (field "of" (str handle) end), suc calls);
  cancel = λ name handle calls. some calls;
  new_id = λ calls. ("task-2", calls);
}

abbrev before : AdapterState ℕ String
before = record { tasks = ("task-1", ("http.webhook", "other")) ∷ []; outer = 0 }

abbrev after : AdapterState ℕ String
after = record {
  tasks = ("task-1", ("http.webhook", "other")) ∷ ("task-2", ("http.webhook", "notify")) ∷ [];
  outer = 1;
}

starts : adapter_start providers call before ≡ (some "task-2", after)
unfolding adapter_start put
starts = refl

polls :
    (adapter_poll providers "task-2" after).0
    ≡ some (completed (some (field "of" (str "notify") end)))
unfolding adapter_poll get
polls = refl

adapter_start-poll_example :
    (handle : String) × (w : ℕ) × (providers.invoke "http.webhook" call 0 ≡ (returned handle, w))
    × ((adapter_poll providers "task-2" (poll_all providers ("task-1" ∷ []) after)).0
        ≡ (poll_handle providers "http.webhook" handle
            (poll_all providers ("task-1" ∷ []) after).outer).0)
    × ((other : String)
        → ("task-2" == other) ≡ false
        → get other (poll_all providers ("task-1" ∷ []) after).tasks ≡ get other before.tasks)
adapter_start-poll_example =
    adapter_start-poll providers call before "task-2" after ("task-1" ∷ []) starts
