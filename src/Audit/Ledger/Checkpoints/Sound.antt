-- ===== src/Audit/Ledger/Checkpoints/Sound.antt =====
-- The runs of a ledger that its clients have written to verify.
use bpg.Common.{String, ◌≡◌, Bool, true, false, Option, none, some, List, [], ◌∷◌, All}
use bpg.Value.{Value}
use bpg.Audit.Policy.{AuditPolicyConfig, apply_audit_policy}
use bpg.Audit.Ledger.{AuditRecord, AuditChainCheckpoint, sort_rows}
use bpg.Audit.Ledger.Verify.Chain.{IsChain}
use bpg.Audit.Ledger.Verify.Decides.{IsWhole, verify_audit_chain_iff}
use bpg.Audit.Ledger.Store.{Storage, Ledger, empty_ledger, select_chain}
use bpg.Audit.Ledger.Store.Rows.{select_chain-IsAscending, sort_rows_of_IsAscending}
use bpg.Audit.Ledger.Store.Sound.{
  IsLinked, Survives, empty_ledger-IsLinked, insert_event-IsLinked, emit-IsLinked,
}
use bpg.Audit.Ledger.Checkpoints.{
  CheckpointCall, Call, emitted, checkpointed, create_checkpoint, checkpoint_with, announce, save,
  checkpoint_to_event, fetch_run_records, verify_run, steps,
}

-- What the calls write survives the columns: of a checkpoint its event, whatever was saved.
abbrev pub IsStored : (Value → String) → Storage → AuditPolicyConfig → Call → Type 0
IsStored sha256_json storage policy (emitted event) =
    Survives sha256_json storage policy (apply_audit_policy sha256_json event policy)
IsStored sha256_json storage policy (checkpointed call) =
    (c : AuditChainCheckpoint)
    → Survives sha256_json storage policy (checkpoint_to_event sha256_json call.now c)

module _ (sha256_json : Value → String) where
  pub rechain :
      (scope scope' id id' : String) (rows : List AuditRecord)
      → scope' ≡ scope
      → id' ≡ id
      → IsChain sha256_json scope id none rows
      → IsChain sha256_json scope' id' none rows
  rechain scope scope' id id' rows same_scope same_id h = rw (same_scope, same_id) h

  -- A chain of run `id` is whole by its first row.
  whole :
      (id : String) (rows : List AuditRecord)
      → IsChain sha256_json "run" id none rows
      → IsWhole sha256_json rows
  whole id [] h = tt
  whole id (r ∷ rows) h =
      rechain "run" r.chain_scope id r.chain_id (r ∷ rows) h.0.scope_fits h.0.id_fits h

  module _ (hmac_sha256 : String → Value → String) (collate : String → String → Bool)
      (storage : Storage) (policy : AuditPolicyConfig) where
    pub save-IsLinked :
        (ledger : Ledger) (c : AuditChainCheckpoint)
        → IsLinked sha256_json ledger
        → IsLinked sha256_json (save sha256_json hmac_sha256 collate storage policy ledger c)
    unfolding save
    save-IsLinked ledger c h = record { ascending = h.ascending; chains = h.chains }

    pub announce-IsLinked :
        (b : Bool) (now : String) (ledger : Ledger) (c : AuditChainCheckpoint)
        → Survives sha256_json storage policy (checkpoint_to_event sha256_json now c)
        → IsLinked sha256_json ledger
        → IsLinked sha256_json
            (announce sha256_json hmac_sha256 collate storage policy b now ledger c)
    unfolding announce
    announce-IsLinked false now ledger c kept h = h
    announce-IsLinked true now ledger c kept h =
        insert_event-IsLinked sha256_json storage policy ledger
          (checkpoint_to_event sha256_json now c) kept h

    pub checkpoint_with-IsLinked :
        (ledger : Ledger) (call : CheckpointCall) (built : Option AuditChainCheckpoint)
        → IsStored sha256_json storage policy (checkpointed call)
        → IsLinked sha256_json ledger
        → IsLinked sha256_json
            (checkpoint_with sha256_json hmac_sha256 collate storage policy ledger call built).0
    unfolding checkpoint_with
    checkpoint_with-IsLinked ledger call none kept h = h
    checkpoint_with-IsLinked ledger call (some built) kept h =
        announce-IsLinked call.emit_event call.now _ _ (kept _) (save-IsLinked ledger _ h)

    pub steps-IsLinked :
        (calls : List Call) (ledger : Ledger)
        → All (IsStored sha256_json storage policy) calls
        → IsLinked sha256_json ledger
        → IsLinked sha256_json (steps sha256_json hmac_sha256 collate storage policy ledger calls)
    unfolding steps create_checkpoint
    steps-IsLinked [] ledger kept h = h
    steps-IsLinked (emitted event ∷ calls) ledger kept h =
        steps-IsLinked calls _ kept.1
          (emit-IsLinked sha256_json storage policy ledger event kept.0 h)
    steps-IsLinked (checkpointed call ∷ calls) ledger kept h =
        steps-IsLinked calls _ kept.1 (checkpoint_with-IsLinked ledger call _ kept.0 h)

    abbrev written : List Call → Ledger
    written calls = steps sha256_json hmac_sha256 collate storage policy empty_ledger calls

    -- Whatever events are emitted and whatever checkpoints are made, in any order and starting from an
    -- empty ledger, every run of the resulting ledger passes `verify_run` without a checkpoint, provided
    -- that the database gives back, for the row of each emitted event and of the events of the
    -- checkpoints, the time spelled as it was inserted and a payload with the same digest.
    pub verify_run-steps :
        (calls : List Call) (run_id : String) (require_anchor : Bool) (key : Option String)
        → All (IsStored sha256_json storage policy) calls
        → (verify_run sha256_json hmac_sha256 collate storage policy
            (written calls)
            run_id
            none
            require_anchor
            key).is_ok
          ≡ true
    unfolding verify_run fetch_run_records
    verify_run-steps calls run_id require_anchor key kept =
        let h : IsLinked sha256_json (written calls) =
          steps-IsLinked calls empty_ledger kept (empty_ledger-IsLinked sha256_json) in
        let chain = select_chain "run" run_id (written calls).rows in
        let up =
          select_chain-IsAscending "run" run_id 0 (written calls).rows
            (written calls).last_sequence_id h.ascending in
        let same = sort_rows_of_IsAscending 0 chain (written calls).last_sequence_id up in
        (verify_audit_chain_iff sha256_json hmac_sha256 require_anchor key (sort_rows chain)).1
          (rw same (rw same (whole run_id chain (h.chains run_id))))
