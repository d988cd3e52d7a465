-- ===== src/Audit/Ledger/Store.antt =====
-- `PostgresAuditEventSink` of src/bpg/audit/postgres.py over a table of rows. A transaction on one
-- chain is atomic by its advisory lock, so that the calls are a sequence of steps. What the database does
-- with the two columns that it stores in a form of its own is a parameter, in `Storage`.
pub mod Rows
pub mod Sound
pub mod Continues
use Prim.Native.String.{◌++◌ as append}
use bpg.Common.{
  ℕ, zero, suc, ◌+◌, String, Bool, true, false, not, ◌&&◌, ◌||◌, Option, none, some, List, [], ◌∷◌,
  ◌++◌, ◌==◌, if◌then◌else◌, leb, ltb,
}
use bpg.Common.Int.{pos}
use bpg.Common.Text.{decimal}
use mathlib.Core.Option
use bpg.Value.{Value, Items, Fields, null, int, str, list, dict, nil, cons, end, field}
use bpg.Audit.Event.{BpgEvent}
use bpg.Audit.Policy.{
  AuditPolicyConfig, FailurePolicy, fail_run, DuplicateStrategy, reject, ignore, apply_audit_policy,
}
use bpg.Audit.Ledger.{
  AuditRecord, AuditChainCheckpoint, AuditChainVerification, text_or_null, build_audit_record,
  sort_rows,
}
use bpg.Audit.Ledger.Verify.{sign_checkpoint, verify_audit_chain}

-- `timestamp_for_hash` is the respelling of a timestamp by `datetime`. A text that goes into the column
-- `occurred_at`, a `timestamptz`, is read back as `column_time` of it: the same instant, in the time zone
-- of the session. A dictionary that goes into the column `payload`, a `jsonb`, is read back as
-- `column_payload` of it: with other spellings of numbers and another order of keys.
pub record Storage : Type 0 where
  pub timestamp_for_hash : String → String
  pub column_time : String → String
  pub column_payload : Fields → Fields

-- The row that the table gives back for an inserted one.
pub read_back : Storage → AuditRecord → AuditRecord
read_back storage r = record r {
  occurred_at = storage.column_time r.occurred_at;
  payload = storage.column_payload r.payload;
}

-- The rows are as they are read.
pub record Ledger : Type 0 where
  pub rows : List AuditRecord
  pub last_sequence_id : ℕ
  pub checkpoints : List AuditChainCheckpoint
  pub last_checkpoint_id : ℕ

abbrev pub empty_ledger : Ledger
empty_ledger = record { rows = []; last_sequence_id = 0; checkpoints = []; last_checkpoint_id = 0 }

pub data Insertion : Type 0 where
  inserted : AuditRecord → Insertion
  skipped : Insertion
  duplicate_event : String → Insertion

-- `where chain_scope = … and chain_id = …`
pub select_chain : String → String → List AuditRecord → List AuditRecord
select_chain scope id [] = []
select_chain scope id (r ∷ rows) =
    let rest = select_chain scope id rows in
    if r.chain_scope == scope && r.chain_id == id then r ∷ rest else rest

unfoldable pub later_of : AuditRecord → Option AuditRecord → AuditRecord
later_of r none = r
later_of r (some s) = if ltb s.sequence_id r.sequence_id then r else s

-- `order by sequence_id desc limit 1`
pub latest : List AuditRecord → Option AuditRecord
unfolding later_of
latest [] = none
latest (r ∷ rows) = some (later_of r (latest rows))

-- The unique constraint on `event_id`.
pub has_event : String → List AuditRecord → Bool
has_event event_id [] = false
has_event event_id (r ∷ rows) = r.event_id == event_id || has_event event_id rows

on_duplicate : DuplicateStrategy → String → Insertion
on_duplicate ignore event_id = skipped
on_duplicate reject event_id = duplicate_event event_id

after_insertion : FailurePolicy → BpgEvent → Insertion → Option BpgEvent
after_insertion fail_run event (duplicate_event event_id) = none
after_insertion failure_policy event _ = some event

module _ (sha256_json : Value → String) (storage : Storage) (policy : AuditPolicyConfig) where
  -- The row that an event becomes in a ledger.
  pub next_row : Ledger → BpgEvent → AuditRecord
  unfolding latest select_chain
  next_row ledger event =
      build_audit_record sha256_json storage.timestamp_for_hash event (ledger.last_sequence_id + 1)
        (Option.map (λ r. r.event_hash) (latest (select_chain "run" event.run_id ledger.rows)))
        "run" (some event.run_id) (some policy)

  -- `insert_event`. The sequence does not go back when the transaction does.
  pub insert_event : Ledger → BpgEvent → Ledger × Insertion
  unfolding has_event on_duplicate next_row read_back
  insert_event ledger event =
      let row = next_row ledger event in
      if has_event event.event_id ledger.rows
      then (
        record ledger { last_sequence_id = ledger.last_sequence_id + 1 },
        on_duplicate policy.duplicate_strategy event.event_id,
      )
      else (
        record ledger {
          rows = ledger.rows ++ read_back storage row ∷ [];
          last_sequence_id = ledger.last_sequence_id + 1;
        },
        inserted row,
      )

  -- `emit`: the audited event, or `none` for a failure that must fail the run.
  pub emit : Ledger → BpgEvent → Ledger × Option BpgEvent
  unfolding insert_event
  emit ledger event =
      let audited = apply_audit_policy sha256_json event policy in
      let (ledger', outcome) = insert_event ledger audited in
      (ledger', after_insertion policy.failure_policy audited outcome)
