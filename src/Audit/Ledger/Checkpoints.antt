-- ===== src/Audit/Ledger/Checkpoints.antt =====
-- The checkpoints of `PostgresAuditEventSink` (src/bpg/audit/postgres.py), and the sink as its clients
-- see it. `collate` is the database's order of texts.
pub mod Sound
pub mod Continued
pub mod Latest
mod Examples
use Prim.Native.String.{◌++◌ as append}
use bpg.Common.{
  ℕ, zero, suc, ◌+◌, String, Bool, true, false, not, ◌&&◌, ◌||◌, Option, none, some, List, [], ◌∷◌,
  ◌++◌, ◌==◌, if◌then◌else◌, leb, ltb,
}
use bpg.Common.Int.{pos}
use bpg.Common.Text.{decimal}
use bpg.Value.{Value, Items, Fields, null, int, str, list, dict, nil, cons, end, field}
use bpg.Audit.Event.{BpgEvent}
use bpg.Audit.Policy.{AuditPolicyConfig}
use bpg.Audit.Ledger.{
  AuditRecord, AuditChainCheckpoint, AuditChainVerification, text_or_null, sort_rows,
}
use bpg.Audit.Ledger.Verify.{sign_checkpoint, verify_audit_chain}
use bpg.Audit.Ledger.Store.{Storage, Ledger, select_chain, later_of, latest, insert_event, emit}

-- `order by chain_scope, chain_id, sequence_id desc` with `distinct on (chain_scope, chain_id)`: the
-- newest row of each chain.
module _ (collate : String → String → Bool) where
  before : AuditRecord → AuditRecord → Bool
  before a b =
      if a.chain_scope == b.chain_scope
      then collate a.chain_id b.chain_id
      else collate a.chain_scope b.chain_scope

  pub insert_head : AuditRecord → List AuditRecord → List AuditRecord
  unfolding before
  insert_head r [] = r ∷ []
  insert_head r (s ∷ heads) =
      if r.chain_scope == s.chain_scope && r.chain_id == s.chain_id
      then later_of r (some s) ∷ heads
      else if before r s
      then r ∷ s ∷ heads
      else s ∷ insert_head r heads

  pub chain_heads : List AuditRecord → List AuditRecord
  unfolding insert_head later_of
  chain_heads [] = []
  chain_heads (r ∷ rows) = insert_head r (chain_heads rows)

head_items : List AuditRecord → Items
head_items [] = nil
head_items (r ∷ rows) =
    cons
      (dict (
        field "chain_scope" (str r.chain_scope) (
          field "chain_id" (str r.chain_id) (
            field "sequence_id" (int (pos r.sequence_id))
              (field "event_hash" (str r.event_hash) end)))))
      (head_items rows)

max_sequence : List AuditRecord → ℕ
max_sequence [] = 0
max_sequence (r ∷ rows) =
    let m = max_sequence rows in if ltb m r.sequence_id then r.sequence_id else m

pub unsigned_checkpoint : String → ℕ → String → AuditChainCheckpoint
unsigned_checkpoint scope last_sequence_id chain_head_hash = record {
  checkpoint_id = none;
  created_at = none;
  scope = scope;
  last_sequence_id = last_sequence_id;
  chain_head_hash = chain_head_hash;
  anchored_ref = none;
  signature = none;
}

module _ (sha256_json : Value → String) (collate : String → String → Bool) where
  run_checkpoint : String → Option AuditRecord → Option AuditChainCheckpoint
  run_checkpoint run_id none = none
  run_checkpoint run_id (some r) =
      some (unsigned_checkpoint (append "run:" run_id) r.sequence_id r.event_hash)

  global_checkpoint : List AuditRecord → Option AuditChainCheckpoint
  unfolding chain_heads head_items max_sequence
  global_checkpoint [] = none
  global_checkpoint (r ∷ rows) = some (
      unsigned_checkpoint "global" (max_sequence (r ∷ rows))
        (sha256_json (list (head_items (chain_heads collate (r ∷ rows))))))

  -- `_build_checkpoint`; `none` is its `ValueError`: an empty chain, or a scope of one's own.
  pub build_checkpoint : Ledger → String → Option String → Option AuditChainCheckpoint
  unfolding run_checkpoint global_checkpoint unsigned_checkpoint
  build_checkpoint ledger scope (some run_id) =
      run_checkpoint run_id (latest (select_chain "run" run_id ledger.rows))
  build_checkpoint ledger scope none =
      if scope == "global" then global_checkpoint ledger.rows else none

or_number : Option ℕ → ℕ → ℕ
or_number none n = n
or_number (some zero) n = n
or_number (some (suc m)) n = suc m

number_or_null : Option ℕ → Value
number_or_null none = null
number_or_null (some n) = int (pos n)

checkpoint_payload : AuditChainCheckpoint → Fields → Fields
unfolding number_or_null
checkpoint_payload c between = field "checkpoint_id" (number_or_null c.checkpoint_id) between

checkpoint_fields : AuditChainCheckpoint → Fields
checkpoint_fields c = field "scope" (str c.scope) (
    field "last_sequence_id" (int (pos c.last_sequence_id)) (
      field "chain_head_hash" (str c.chain_head_hash) (
        field "anchored_ref" (text_or_null c.anchored_ref)
          (field "signature" (text_or_null c.signature) end))))

-- `checkpoint_to_event`, at the time `now`
unfoldable pub checkpoint_to_event :
    (Value → String) → (now : String) → AuditChainCheckpoint → BpgEvent
unfolding or_number checkpoint_payload checkpoint_fields
checkpoint_to_event sha256_json now c = record {
  schema_version = 1;
  event_id = append "audit-checkpoint-" (decimal (or_number c.checkpoint_id c.last_sequence_id));
  event_type = "audit_checkpointed";
  occurred_at = now;
  run_id = "__audit_checkpoint__";
  process_name = "bpg.audit";
  process_version = "v1";
  process_hash = "audit-ledger";
  engine_backend = "audit";
  node_id = none;
  node_type = none;
  node_package = none;
  trace_id = none;
  span_id = none;
  parent_span_id = none;
  correlation_id = none;
  causation_id = none;
  actor_id = none;
  actor_type = none;
  policy_id = none;
  external_ref = none;
  temporal_namespace = none;
  temporal_workflow_id = none;
  temporal_run_id = none;
  temporal_activity_id = none;
  temporal_activity_type = none;
  temporal_attempt = none;
  temporal_task_queue = none;
  temporal_timer_id = none;
  temporal_signal_name = none;
  temporal_child_workflow_id = none;
  provider_id = none;
  provider_job_id = none;
  artifact_name = none;
  artifact_sha256 = none;
  input_sha256 = none;
  output_sha256 = none;
  redaction_policy_id = none;
  redacted_field_paths = [];
  payload = some (checkpoint_payload c (checkpoint_fields c));
  payload_sha256 = some (
      sha256_json (
        dict (
          checkpoint_payload c
            (field "created_at" (text_or_null c.created_at) (checkpoint_fields c)))));
  tags = [];
}

-- `where scope = …`
pub select_scope : String → List AuditChainCheckpoint → List AuditChainCheckpoint
select_scope scope [] = []
select_scope scope (c ∷ cs) =
    let rest = select_scope scope cs in if c.scope == scope then c ∷ rest else rest

abbrev number_of : AuditChainCheckpoint → ℕ
number_of c = elim c.checkpoint_id [ none ↦ 0 | some n ↦ n ]

abbrev later_checkpoint : AuditChainCheckpoint → Option AuditChainCheckpoint → AuditChainCheckpoint
later_checkpoint c none = c
later_checkpoint c (some d) = if ltb (number_of d) (number_of c) then c else d

newest_checkpoint : List AuditChainCheckpoint → Option AuditChainCheckpoint
newest_checkpoint [] = none
newest_checkpoint (c ∷ cs) = some (later_checkpoint c (newest_checkpoint cs))

-- `latest_checkpoint`: `order by checkpoint_id desc limit 1`
pub latest_checkpoint : String → Ledger → Option AuditChainCheckpoint
unfolding select_scope newest_checkpoint
latest_checkpoint scope ledger = newest_checkpoint (select_scope scope ledger.checkpoints)

-- `fetch_checkpoints`: the numbers grow with the insertions, so that the order is that of the table.
pub fetch_checkpoints : Option String → Ledger → List AuditChainCheckpoint
unfolding select_scope
fetch_checkpoints none ledger = ledger.checkpoints
fetch_checkpoints (some scope) ledger = select_scope scope ledger.checkpoints

-- What `create_checkpoint` is called with, and what it meets outside: the anchor that the provider
-- gives, the key, and the time.
pub record CheckpointCall : Type 0 where
  pub scope : String
  pub run_id : Option String
  pub anchor : AuditChainCheckpoint → Option String
  pub signing_key : Option String
  pub emit_event : Bool
  pub now : String

-- What clients of the sink do.
pub data Call : Type 0 where
  emitted : BpgEvent → Call
  checkpointed : CheckpointCall → Call

module _ (sha256_json : Value → String) (hmac_sha256 : String → Value → String)
    (collate : String → String → Bool) (storage : Storage) (policy : AuditPolicyConfig) where
  pub saved_checkpoint : Ledger → CheckpointCall → AuditChainCheckpoint → AuditChainCheckpoint
  saved_checkpoint ledger call built =
      let signed = record built {
        signature = sign_checkpoint hmac_sha256 built call.signing_key;
      } in
      record signed {
        checkpoint_id = some (ledger.last_checkpoint_id + 1);
        created_at = some call.now;
        anchored_ref = call.anchor signed;
      }

  pub save : Ledger → AuditChainCheckpoint → Ledger
  save ledger saved = record ledger {
    checkpoints = ledger.checkpoints ++ saved ∷ [];
    last_checkpoint_id = ledger.last_checkpoint_id + 1;
  }

  pub announce : Bool → String → Ledger → AuditChainCheckpoint → Ledger
  announce false now ledger saved = ledger
  announce true now ledger saved =
      (insert_event sha256_json storage policy ledger (checkpoint_to_event sha256_json now saved)).0

  pub checkpoint_with :
      Ledger → CheckpointCall → Option AuditChainCheckpoint → Ledger × Option AuditChainCheckpoint
  unfolding saved_checkpoint save announce
  checkpoint_with ledger call none = (ledger, none)
  checkpoint_with ledger call (some built) =
      let saved = saved_checkpoint ledger call built in
      (announce call.emit_event call.now (save ledger saved) saved, some saved)

  -- `create_checkpoint`. (A duplicate checkpoint event is an exception after the checkpoint is saved;
  -- the ledger is the same either way.)
  pub create_checkpoint : Ledger → CheckpointCall → Ledger × Option AuditChainCheckpoint
  unfolding checkpoint_with
  create_checkpoint ledger call =
      checkpoint_with ledger call
        (build_checkpoint sha256_json collate ledger call.scope call.run_id)

  -- `fetch_run_records`
  pub fetch_run_records : Ledger → String → List AuditRecord
  fetch_run_records ledger run_id = sort_rows (select_chain "run" run_id ledger.rows)

  -- `verify_run`
  pub verify_run :
      Ledger
      → String
      → Option AuditChainCheckpoint
      → (require_anchor : Bool) → Option String
      → AuditChainVerification
  unfolding fetch_run_records
  verify_run ledger run_id checkpoint require_anchor signing_key =
      verify_audit_chain sha256_json hmac_sha256 (fetch_run_records ledger run_id) checkpoint
        require_anchor signing_key

  -- `verify_from_latest_checkpoint`
  pub verify_from_latest_checkpoint :
      Ledger → String → (require_anchor : Bool) → Option String → AuditChainVerification
  unfolding verify_run latest_checkpoint
  verify_from_latest_checkpoint ledger run_id require_anchor signing_key =
      verify_run ledger run_id (latest_checkpoint (append "run:" run_id) ledger) require_anchor
        signing_key

  pub step : Ledger → Call → Ledger
  step ledger (emitted event) = (emit sha256_json storage policy ledger event).0
  step ledger (checkpointed call) = (create_checkpoint ledger call).0

  pub steps : Ledger → List Call → Ledger
  unfolding step
  steps ledger [] = ledger
  steps ledger (c ∷ calls) = steps (step ledger c) calls
