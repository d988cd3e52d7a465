-- ===== src/Audit/Ledger/Checkpoints/Latest.antt =====
-- The latest checkpoint of a run, after any calls.
use bpg.Common.{
  String, ◌≡◌, refl, Bool, true, false, Option, none, some, List, [], ◌∷◌, All, ◌==◌, Option-cases,
  Bool-cases, inl, inr, eq_iff, ltb,
}
use bpg.Value.{Value}
use bpg.Audit.Policy.{AuditPolicyConfig, apply_audit_policy}
use bpg.Audit.Ledger.{AuditRecord, AuditChainCheckpoint, sort_rows, rows_after}
use bpg.Audit.Ledger.Verify.Chain.{IsChain}
use bpg.Audit.Ledger.Verify.Decides.{IsContinued, verify_audit_chain_checkpoint_iff}
use bpg.Audit.Ledger.Store.{Storage, Ledger, empty_ledger, select_chain}
use bpg.Audit.Ledger.Store.Rows.{select_chain-IsAscending, sort_rows_of_IsAscending}
use bpg.Audit.Ledger.Store.Sound.{Survives, empty_ledger-IsLinked}
use bpg.Audit.Ledger.Store.Continues.{emit-eq-insert_event}
use bpg.Audit.Ledger.Checkpoints.{
  CheckpointCall, Call, emitted, checkpointed, create_checkpoint, checkpoint_with, announce,
  build_checkpoint, checkpoint_to_event, fetch_run_records, verify_run, select_scope,
  newest_checkpoint, later_checkpoint, number_of, latest_checkpoint, verify_from_latest_checkpoint,
  steps,
}
use bpg.Audit.Ledger.Checkpoints.Sound.{IsStored, verify_run-steps}
use bpg.Audit.Ledger.Checkpoints.Continued.{
  run_scope, IsKept, IsAnchored, inserted-IsAnchored, saved-IsAnchored,
}

All-select_scope :
    (P : AuditChainCheckpoint → Type 0) (scope : String) (cs : List AuditChainCheckpoint)
    → All P cs
    → All (λ c. P c × (c.scope ≡ scope)) (select_scope scope cs)
unfolding select_scope
All-select_scope P scope [] h = tt
All-select_scope P scope (c ∷ cs) h = elim (Bool-cases (c.scope == scope)) [
  | inl e ↦ rw e ((h.0, (eq_iff c.scope scope).0 e), All-select_scope P scope cs h.1)
  | inr e ↦ rw e (All-select_scope P scope cs h.1)
]

All-newest :
    (P : AuditChainCheckpoint → Type 0) (cs : List AuditChainCheckpoint) (c : AuditChainCheckpoint)
    → All P cs
    → newest_checkpoint cs ≡ some c
    → P c
unfolding newest_checkpoint
All-newest P [] c h e = absurd (cc)
All-newest P (d ∷ cs) c h e = elim (Option-cases (newest_checkpoint cs)) [
  | inl is ↦ let same : d ≡ c = cc (rw is at e) in rw (← same) h.0
  | inr (b, is) ↦ elim (Bool-cases (ltb (number_of b) (number_of d))) [
    | inl later ↦ let same : d ≡ c = cc (rw (is, later_checkpoint, later) at e) in rw (← same) h.0
    | inr earlier ↦
        let same : b ≡ c = cc (rw (is, later_checkpoint, earlier) at e) in
        rw (← same) (All-newest P cs b h.1 is)
  ]
]

-- A checkpoint call signs with the key.
abbrev pub IsSigned : Option String → Call → Type 0
IsSigned key (emitted event) = Unit
IsSigned key (checkpointed call) = call.signing_key ≡ key

module _ (sha256_json : Value → String) (hmac_sha256 : String → Value → String)
    (key : Option String) (collate : String → String → Bool) (storage : Storage)
    (policy : AuditPolicyConfig) where
  abbrev Anchored : Ledger → Type 0
  Anchored ledger = IsAnchored sha256_json hmac_sha256 key ledger

  announce-IsAnchored :
      (b : Bool) (now : String) (ledger : Ledger) (c : AuditChainCheckpoint)
      → Survives sha256_json storage policy (checkpoint_to_event sha256_json now c)
      → Anchored ledger
      → Anchored (announce sha256_json hmac_sha256 collate storage policy b now ledger c)
  unfolding announce
  announce-IsAnchored false now ledger c stored h = h
  announce-IsAnchored true now ledger c stored h =
      inserted-IsAnchored sha256_json hmac_sha256 key collate storage policy ledger
        (checkpoint_to_event sha256_json now c) stored h

  checkpoint_with-IsAnchored :
      (ledger : Ledger) (call : CheckpointCall) (built : Option AuditChainCheckpoint)
      → IsStored sha256_json storage policy (checkpointed call)
      → Anchored ledger
      → call.signing_key ≡ key
      → build_checkpoint sha256_json collate ledger call.scope call.run_id ≡ built
      → Anchored
          (checkpoint_with sha256_json hmac_sha256 collate storage policy ledger call built).0
  unfolding checkpoint_with
  checkpoint_with-IsAnchored ledger call none stored h same is = h
  checkpoint_with-IsAnchored ledger call (some built) stored h same is =
      announce-IsAnchored call.emit_event call.now _ _ (stored _) (
        saved-IsAnchored sha256_json hmac_sha256 key collate storage policy ledger call built h same
          is)

  steps-IsAnchored :
      (calls : List Call) (ledger : Ledger)
      → All (IsSigned key) calls
      → All (IsStored sha256_json storage policy) calls
      → Anchored ledger
      → Anchored (steps sha256_json hmac_sha256 collate storage policy ledger calls)
  unfolding steps create_checkpoint
  steps-IsAnchored [] ledger signed stored h = h
  steps-IsAnchored (emitted event ∷ calls) ledger signed stored h =
      steps-IsAnchored calls _ signed.1 stored.1 (
        rw (emit-eq-insert_event sha256_json storage policy ledger event) (
          inserted-IsAnchored sha256_json hmac_sha256 key collate storage policy ledger
            (apply_audit_policy sha256_json event policy) stored.0 h))
  steps-IsAnchored (checkpointed call ∷ calls) ledger signed stored h =
      steps-IsAnchored calls _ signed.1 stored.1
        (checkpoint_with-IsAnchored ledger call _ stored.0 h signed.0 refl)

  empty_ledger-IsAnchored : Anchored empty_ledger
  empty_ledger-IsAnchored = record { linked = empty_ledger-IsLinked sha256_json; kept = tt }

  rechain_from :
      (scope scope' id id' : String) (previous : Option String) (rows : List AuditRecord)
      → scope' ≡ scope
      → id' ≡ id
      → IsChain sha256_json scope id previous rows
      → IsChain sha256_json scope' id' previous rows
  rechain_from scope scope' id id' previous rows same_scope same_id h = rw (same_scope, same_id) h

  continued :
      (id : String) (ledger : Ledger) (c : AuditChainCheckpoint) (rows : List AuditRecord)
      → IsKept sha256_json hmac_sha256 key ledger c
      → IsChain sha256_json "run" id none rows
      → IsChain sha256_json "run" id (some c.chain_head_hash) (rows_after c.last_sequence_id rows)
      → IsContinued sha256_json hmac_sha256 false key c rows
  continued id ledger c [] k h on = tt
  continued id ledger c (r ∷ rows) k h on = (
    k.signed,
    refl,
    rechain_from "run" r.chain_scope id r.chain_id _ _ h.0.scope_fits h.0.id_fits on,
  )

  abbrev written : List Call → Ledger
  written calls = steps sha256_json hmac_sha256 collate storage policy empty_ledger calls

  -- When every checkpoint is signed with one key, or all are made without a key, then, whatever events
  -- are emitted and checkpoints are made, in any order and starting from an empty ledger, every run of
  -- the resulting ledger verifies from its latest checkpoint with that key, or from its first row if it
  -- has no checkpoint, provided that the database gives back, for the row of each emitted event and of
  -- the events of the checkpoints, the time spelled as it was inserted and a payload with the same
  -- digest.
  pub verify_from_latest_checkpoint-steps :
      (calls : List Call) (run_id : String)
      → All (IsSigned key) calls
      → All (IsStored sha256_json storage policy) calls
      → (verify_from_latest_checkpoint sha256_json hmac_sha256 collate storage policy
          (written calls)
          run_id
          false
          key).is_ok
        ≡ true
  unfolding verify_from_latest_checkpoint latest_checkpoint verify_run fetch_run_records
  verify_from_latest_checkpoint-steps calls run_id signed stored =
      let h = steps-IsAnchored calls empty_ledger signed stored empty_ledger-IsAnchored in
      let chain = select_chain "run" run_id (written calls).rows in
      let up =
        select_chain-IsAscending "run" run_id 0 (written calls).rows
          (written calls).last_sequence_id h.linked.ascending in
      let same = sort_rows_of_IsAscending 0 chain (written calls).last_sequence_id up in
      elim (Option-cases
        (newest_checkpoint (select_scope (run_scope run_id) (written calls).checkpoints))) [
          | inl e ↦ rw e (
              verify_run-steps sha256_json hmac_sha256 collate storage policy calls run_id false key
                stored)
          | inr (c, e) ↦
              let kept =
                All-newest _ _ c
                  (All-select_scope _ (run_scope run_id) (written calls).checkpoints h.kept) e in
              rw e (
                (verify_audit_chain_checkpoint_iff sha256_json hmac_sha256 false key c
                    (sort_rows chain)).1
                  (rw same (
                    rw same (
                      continued run_id (written calls) c chain kept.0 (h.linked.chains run_id)
                        (kept.0.goes_on run_id kept.1).chained))))
        ]
