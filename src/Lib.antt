-- ===== src/Lib.antt =====
-- A model of the core of BPG, the compiler and runtime for business process graphs (src/bpg).
--
-- Parts, and how they interact. A process document can be edited by patches. It is compiled: the
-- validator checks its graph, the configurations of its nodes and the conditions on its edges, and
-- the compiler orders its nodes along their edges. It is planned against the deployed process, and
-- changes that break what is published are refused. The orchestrator runs the nodes in that order:
-- it evaluates the conditions on the edges into a node, maps the outputs of their sources to its
-- input, checks the input, and hands the node to an adapter, which it polls. It logs events, which
-- are replayed to its state, and emits them; the audit sink applies the audit policy to each
-- event, redacts its payload, and stores it as a row of a hash-chained ledger. Checkpoints record
-- the head of a chain, are signed and anchored outside, and are events of the ledger themselves.
-- Verification recomputes the hashes of a run's rows, from the first row or from a checkpoint.
--
-- Files.
--   Common.antt, Common/: names of the library, tests, lists, dictionaries, integers and texts.
--   Value.antt: JSON values, which payloads, mappings and configurations consist of.
--   Compiler/Topology.antt: `_topological_sort` of src/bpg/compiler/ir.py.
--   Compiler/Cycles.antt: the checks of `validate_graph_structure` of src/bpg/compiler/validator.py on
--     the trigger, the endpoints of edges and cycles; its depth-first search is proved to agree with
--     the sort.
--   Compiler/Config.antt: `_validate_config_value` and the check of configurations in
--     `_validate_provider_configs`; Compiler/Config/Breaking.antt: `is_breaking_node_type_change`;
--     Compiler/Config/Typed.antt: `_validate_typed_payload`; all of src/bpg/compiler/validator.py.
--   Compiler/Plan.antt: src/bpg/compiler/planner.py. `compute_diff` is `Plan._compute_diff` without the
--     checks at its end, which are `validate_immutability`; `make_plan` joins them.
--   Compiler/Types.antt: `parse_field_type` of src/bpg/compiler/types.py.
--   Compiler/Patching.antt: the patches of src/bpg/compiler/patching.py, of documents that are trees.
--   Expr/Tokens.antt, Expr/Lint.antt: the parser of src/bpg/compiler/expr_lint.py.
--   Expr/Scan.antt, Expr/Source.antt: the two tokenizers, `lint_when_expression` and `eval_when`.
--   Expr/Paths.antt, Expr/Compare.antt, Expr/Eval.antt: path resolution, comparisons and the evaluator
--     of src/bpg/runtime/expr.py.
--   Runtime/Events.antt, Runtime/Replay.antt: `normalize_event` and `replay_state_from_events` of
--     src/bpg/runtime/events.py.
--   Expr/Mapping.antt: `resolve_mapping` of src/bpg/runtime/expr.py.
--   Compiler/Schema.antt: node types, nodes and edges of src/bpg/models/schema.py, and resolved types.
--   Runtime/Payload.antt: the helpers of src/bpg/runtime/orchestrator.py.
--   Runtime/Orchestrator.antt, Runtime/Orchestrator/Loop.antt: `BpgOrchestrator` of the same file. A
--     `Machine` is the state that `run` keeps in its variables; the node adapter and the clocks are the
--     record `Host`, whose calls change a world. Loop/Steps.antt is the step relation of a run, which
--     the passes refine; the files beside it prove invariants along the steps.
--   Runtime/Adapter.antt: `ProviderNodeExecutionAdapter`, same file, over a record of providers.
--   Audit/Event.antt: `BpgEvent` of src/bpg/runtime/events.py.
--   Audit/Redaction.antt: `redact_payload` and its helpers, of src/bpg/audit/policy.py.
--   Audit/Policy.antt: the rest of src/bpg/audit/policy.py, without the reading of configurations.
--   Audit/Ledger.antt: `AuditRecord`, `compute_audit_event_hash` and `build_audit_record` of
--     src/bpg/audit/postgres.py.
--   Audit/Ledger/Verify.antt: `verify_audit_chain` and the signatures of checkpoints, same file.
--   Audit/Ledger/Store.antt: `insert_event` and `emit` of `PostgresAuditEventSink`, same file. Its
--     table, its sequence and its unique constraint are a record `Ledger`, what its columns give back is
--     a record `Storage`; a transaction is a step.
--   Audit/Ledger/Checkpoints.antt: `create_checkpoint`, `verify_run` and
--     `verify_from_latest_checkpoint`, same file.
--   Files below one of these prove what their names say; `Examples` files hold tests and witnesses.
--
-- Bounds and fuel. The queue loop of the sort runs on fuel, one round more than there are nodes;
-- every node is enqueued at most once. The search for a cycle has one call more than there are
-- nodes, since its path holds no node twice. The rules of the two expression parsers run on eight
-- units of fuel for a token and eight more: a rule calls at most seven others before a token is
-- consumed. The parser of field types runs on the length of the text, and an element of a list is
-- shorter than the list. The loop of the orchestrator runs on fuel, a unit for a round; twice the
-- number of nodes, one more, and the number of times that tasks are said to be running are enough.
-- All other loops are structural. Python's integers have no bound, and neither have the model's.
--
-- Parameters. The node adapter, SHA-256 over canonical JSON, HMAC, the respelling of timestamps,
-- what the database gives back for a time and for a JSON document that it stores, its order of
-- texts, the anchor provider, the clock, what Python does with floats, and the Unicode tables of
-- the regular expressions are arguments. A theorem that needs a digest without collisions says so
-- for the rows at hand.
--
-- Not modelled. Connections, SQL text and locks, of which only the effect of a transaction is
-- kept; database errors other than a duplicate event; the command line, the dashboard, rendering
-- and network providers, which are input and output. Documents whose YAML uses aliases, through
-- which an update shows at several paths. The LangGraph runtime, which drives a third-party
-- engine, and the run store, which is files and locks. Of the compiler, the policies, the modules
-- and their inlining, the references in mappings, and the coverage of inputs. The packages of
-- nodes and backends adapt services.

pub mod Common
pub mod Value
pub mod Compiler
pub mod Expr
pub mod Runtime
pub mod Audit
