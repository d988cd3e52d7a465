-- ===== src/Audit/Ledger/Checkpoints/Continued.antt =====
-- Runs verify from their latest checkpoints.
use Prim.Native.String.{◌++◌ as append}
use bpg.Common.{
  ℕ, String, ◌≡◌, refl, sym, ap, ◌∙◌, Bool, true, Option, none, some, List, [], ◌∷◌, ◌++◌, All,
  All-map, ◌==◌, Option-cases, Bool-cases, inl, inr,
}
use bpg.Common.Prefix.{run_scope_injective, global-run_scope}
use mathlib.Core.Option
use bpg.Value.{Value}
use bpg.Audit.Event.{BpgEvent}
use bpg.Audit.Policy.{AuditPolicyConfig}
use bpg.Audit.Ledger.{AuditRecord, AuditChainCheckpoint}
use bpg.Audit.Ledger.Verify.{verify_checkpoint_signature}
use bpg.Audit.Ledger.Verify.Signing.{verify_checkpoint_signature-sign_checkpoint}
use bpg.Audit.Ledger.Store.{Storage, Ledger, insert_event, select_chain, latest}
use bpg.Audit.Ledger.Store.Sound.{IsLinked, Survives, insert_event-IsLinked}
use bpg.Audit.Ledger.Store.Continues.{
  Continues, Continues-latest, insert_event-Continues, insert_event-checkpoints,
}
use bpg.Audit.Ledger.Checkpoints.{
  CheckpointCall, save, saved_checkpoint, build_checkpoint, run_checkpoint, global_checkpoint,
  unsigned_checkpoint,
}
use bpg.Audit.Ledger.Checkpoints.Sound.{save-IsLinked}

abbrev pub run_scope : String → String
run_scope id = append "run:" id

module _ (sha256_json : Value → String) (hmac_sha256 : String → Value → String)
    (key : Option String) where
  -- A checkpoint is signed with the key, and if it is one of a run, the run goes on from it.
  pub record IsKept (ledger : Ledger) (c : AuditChainCheckpoint) : Type 0 where
    pub signed : verify_checkpoint_signature hmac_sha256 c key ≡ true
    pub goes_on :
        (id : String)
        → c.scope ≡ run_scope id
        → Continues sha256_json id c.last_sequence_id c.chain_head_hash ledger

  pub record IsAnchored (ledger : Ledger) : Type 0 where
    pub linked : IsLinked sha256_json ledger
    pub kept : All (IsKept ledger) ledger.checkpoints

  module _ (collate : String → String → Bool) (storage : Storage) (policy : AuditPolicyConfig) where
    saved-signed :
        (ledger : Ledger) (call : CheckpointCall) (built : AuditChainCheckpoint)
        → call.signing_key ≡ key
        → verify_checkpoint_signature hmac_sha256
            (saved_checkpoint sha256_json hmac_sha256 collate storage policy ledger call built)
            key
          ≡ true
    unfolding saved_checkpoint
    saved-signed ledger call built same =
        verify_checkpoint_signature-sign_checkpoint hmac_sha256 built
          (saved_checkpoint sha256_json hmac_sha256 collate storage policy ledger call built) key
          refl refl refl (rw same refl)

    global-scope :
        (rows : List AuditRecord) (built : AuditChainCheckpoint)
        → global_checkpoint sha256_json collate rows ≡ some built
        → built.scope ≡ "global"
    unfolding global_checkpoint unsigned_checkpoint
    global-scope [] built is = absurd (cc)
    global-scope (r ∷ rows) built is = let e = ap (Option.map (λ c. c.scope)) is in cc

    no_run : (id : String) → "global" ≡ run_scope id → ⊥
    no_run id e = global-run_scope id e

    same_run : (id id' : String) → run_scope id ≡ run_scope id' → id ≡ id'
    same_run id id' e = run_scope_injective id id' e

    built_parts :
        (ledger : Ledger) (run_id : String) (built : AuditChainCheckpoint) (r : AuditRecord)
        → latest (select_chain "run" run_id ledger.rows) ≡ some r
        → run_checkpoint sha256_json collate run_id (latest (select_chain "run" run_id ledger.rows))
          ≡ some built
        → (built.scope ≡ run_scope run_id)
          × (built.last_sequence_id ≡ r.sequence_id)
          × (built.chain_head_hash ≡ r.event_hash)
    unfolding run_checkpoint unsigned_checkpoint
    built_parts ledger run_id built r e is =
        let found = rw e at is in
        let scope = ap (Option.map (λ c. c.scope)) found in
        let number = ap (Option.map (λ c. c.last_sequence_id)) found in
        let head = ap (Option.map (λ c. c.chain_head_hash)) found in (cc, cc, cc)

    -- What is built for a run is its newest row.
    built-goes_on :
        (ledger : Ledger) (scope : String) (run_id : Option String) (built : AuditChainCheckpoint)
        (id : String)
        → IsLinked sha256_json ledger
        → build_checkpoint sha256_json collate ledger scope run_id ≡ some built
        → built.scope ≡ run_scope id
        → Continues sha256_json id built.last_sequence_id built.chain_head_hash ledger
    unfolding build_checkpoint run_checkpoint unsigned_checkpoint
    built-goes_on ledger scope none built id h is own = elim (Bool-cases (scope == "global")) [
      | inl e ↦ absurd (no_run id (sym (global-scope ledger.rows built (rw e at is)) ∙ own))
      | inr e ↦ absurd (cc (rw e at is))
    ]
    built-goes_on ledger scope (some run_id) built id h is own =
        elim (Option-cases (latest (select_chain "run" run_id ledger.rows))) [
          | inl e ↦ absurd (cc (rw (run_checkpoint, e) at is))
          | inr (r, e) ↦
              let parts = built_parts ledger run_id built r e is in
              let same = same_run id run_id (sym own ∙ parts.0) in
              rw (parts.1, parts.2) (Continues-latest sha256_json id ledger r h (rw same e))
        ]

    -- A kept checkpoint stays one when the ledger changes but every chain goes on.
    IsKept-on :
        (ledger ledger' : Ledger) (cs : List AuditChainCheckpoint)
        → ((id : String) (n : ℕ) (hash : String)
            → Continues sha256_json id n hash ledger
            → Continues sha256_json id n hash ledger')
        → All (IsKept ledger) cs
        → All (IsKept ledger') cs
    IsKept-on ledger ledger' cs on h =
        All-map
          (λ c k. record {
            signed = k.signed;
            goes_on = λ id own. on id c.last_sequence_id c.chain_head_hash (k.goes_on id own);
          })
          cs h

    All-snoc :
        (P : AuditChainCheckpoint → Type 0) (cs : List AuditChainCheckpoint)
        (c : AuditChainCheckpoint)
        → All P cs
        → P c
        → All P (cs ++ c ∷ [])
    All-snoc P [] c h p = (p, tt)
    All-snoc P (d ∷ cs) c h p = (h.0, All-snoc P cs c h.1 p)

    pub inserted-IsAnchored :
        (ledger : Ledger) (event : BpgEvent)
        → Survives sha256_json storage policy event
        → IsAnchored ledger
        → IsAnchored (insert_event sha256_json storage policy ledger event).0
    inserted-IsAnchored ledger event kept h = record {
      linked = insert_event-IsLinked sha256_json storage policy ledger event kept h.linked;
      kept = rw (insert_event-checkpoints sha256_json storage policy ledger event) (
          IsKept-on ledger _ ledger.checkpoints
            (λ id n hash c.
              insert_event-Continues sha256_json id storage policy n hash ledger event kept h.linked
                c)
            h.kept);
    }

    pub saved-IsAnchored :
        (ledger : Ledger) (call : CheckpointCall) (built : AuditChainCheckpoint)
        → IsAnchored ledger
        → call.signing_key ≡ key
        → build_checkpoint sha256_json collate ledger call.scope call.run_id ≡ some built
        → IsAnchored (
            save sha256_json hmac_sha256 collate storage policy ledger
              (saved_checkpoint sha256_json hmac_sha256 collate storage policy ledger call built))
    unfolding save saved_checkpoint
    saved-IsAnchored ledger call built h same is =
        let same_rows : (id : String) (n : ℕ) (hash : String)
            → Continues sha256_json id n hash ledger
            → Continues sha256_json id n hash (
                save sha256_json hmac_sha256 collate storage policy ledger (
                  saved_checkpoint sha256_json hmac_sha256 collate storage policy ledger call
                    built)) =
          λ id n hash c. record {
            numbered = c.numbered;
            chained = c.chained;
            to_head = c.to_head;
          } in
        record {
          linked = save-IsLinked sha256_json hmac_sha256 collate storage policy ledger _ h.linked;
          kept =
              All-snoc _ ledger.checkpoints _
                (IsKept-on ledger _ ledger.checkpoints same_rows h.kept)
                (record {
                  signed = saved-signed ledger call built same;
                  goes_on = λ id own.
                      same_rows id _ _
                        (built-goes_on ledger call.scope call.run_id built id h.linked is own);
                });
        }
