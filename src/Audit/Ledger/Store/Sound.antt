-- ===== src/Audit/Ledger/Store/Sound.antt =====
-- Inserting an event keeps every chain of the ledger genuine.
use mathlib.Core.Option
use bpg.Common.{
  ◌+◌, String, ◌≡◌, refl, ap, ◌∙◌, sym, false, Option, none, some, List, [], ◌∷◌, ◌++◌, arith,
  Bool-cases, inl, inr, ◌==◌, eq_iff, append-nil, text_cases,
}
use bpg.Value.{Value, Fields, dict}
use bpg.Audit.Event.{BpgEvent}
use bpg.Audit.Policy.{AuditPolicyConfig, or_else, apply_audit_policy}
use bpg.Audit.Policy.Kept.{apply_audit_policy-run_id, apply_audit_policy-occurred_at}
use bpg.Audit.Ledger.{AuditRecord, build_audit_record, compute_audit_event_hash, hash_fields}
use bpg.Audit.Ledger.Verify.Chain.{IsGenuine, IsChain, head_hash, IsChain-snoc}
use bpg.Audit.Ledger.Store.{
  Storage, Ledger, empty_ledger, select_chain, latest, has_event, next_row, read_back, insert_event,
  emit,
}
use bpg.Audit.Ledger.Store.Rows.{
  IsAscending, IsAscending-snoc, IsAscending-weaken, select_chain-IsAscending, select_chain-snoc,
  head_hash-eq-latest,
}

module _ (sha256_json : Value → String) where
  -- The rows stand in the order of their numbers, none above the sequence, and the rows of each run are
  -- a chain.
  pub record IsLinked (ledger : Ledger) : Type 0 where
    pub ascending : IsAscending 0 ledger.rows ledger.last_sequence_id
    pub chains :
        (id : String) → IsChain sha256_json "run" id none (select_chain "run" id ledger.rows)

  -- Of the two columns the hash of a row reads the time alone.
  sealed-respelled :
      (r : AuditRecord) (time : String) (payload : Fields)
      → time ≡ r.occurred_at
      → compute_audit_event_hash sha256_json r
        ≡ compute_audit_event_hash sha256_json (record r { occurred_at = time; payload = payload })
  unfolding compute_audit_event_hash hash_fields
  sealed-respelled r time payload e =
      ap (λ t. sha256_json (dict (hash_fields (record r { occurred_at = t; payload = payload }))))
        (sym e)

  pub empty_ledger-IsLinked : IsLinked empty_ledger
  unfolding select_chain
  empty_ledger-IsLinked = record { ascending = omega arith; chains = λ id. tt }

  module _ (storage : Storage) (policy : AuditPolicyConfig) where
    abbrev pub row : Ledger → BpgEvent → AuditRecord
    row ledger event = read_back storage (next_row sha256_json storage policy ledger event)

    -- The two columns give back the time and the payload of the event's row as far as its hashes go: the
    -- time as it is spelled, and a payload with the same digest.
    pub record Survives (event : BpgEvent) : Type 0 where
      pub time_kept :
          storage.column_time (storage.timestamp_for_hash event.occurred_at)
          ≡ storage.timestamp_for_hash event.occurred_at
      pub payload_kept :
          sha256_json (
            dict (
              storage.column_payload
                (next_row sha256_json storage policy empty_ledger event).payload))
          ≡ sha256_json (dict (next_row sha256_json storage policy empty_ledger event).payload)

    next_row-occurred_at :
        (ledger : Ledger) (event : BpgEvent)
        → (next_row sha256_json storage policy ledger event).occurred_at
          ≡ storage.timestamp_for_hash event.occurred_at
    unfolding next_row build_audit_record
    next_row-occurred_at ledger event =
        ap storage.timestamp_for_hash (apply_audit_policy-occurred_at sha256_json event policy)

    run_id_row :
        (ledger : Ledger) (event : BpgEvent)
        → or_else (some event.run_id) (apply_audit_policy sha256_json event policy).run_id
          ≡ event.run_id
    run_id_row ledger event = ground (arith, apply_audit_policy-run_id sha256_json event policy)

    pub row-fields :
        (ledger : Ledger) (event : BpgEvent)
        → ((row ledger event).sequence_id ≡ ledger.last_sequence_id + 1)
          × ((row ledger event).chain_scope ≡ "run")
          × ((row ledger event).chain_id ≡ event.run_id)
    unfolding next_row build_audit_record read_back
    row-fields ledger event = (refl, refl, run_id_row ledger event)

    pub row-IsGenuine :
        (ledger : Ledger) (event : BpgEvent)
        → Survives event
        → IsLinked ledger
        → IsGenuine sha256_json "run" event.run_id
            (head_hash sha256_json "run" event.run_id none
              (select_chain "run" event.run_id ledger.rows))
            (row ledger event)
    unfolding next_row build_audit_record compute_audit_event_hash hash_fields read_back
    row-IsGenuine ledger event kept h =
        let chain = select_chain "run" event.run_id ledger.rows in
        record {
          scope_fits = refl;
          id_fits = run_id_row ledger event;
          linked =
              newest_hash (latest chain)
              ∙ sym (
                  head_hash-eq-latest sha256_json "run" event.run_id 0 chain ledger.last_sequence_id
                    none
                    (select_chain-IsAscending "run" event.run_id 0 ledger.rows
                      ledger.last_sequence_id h.ascending));
          payload_fits = sym kept.payload_kept;
          sealed =
              sealed-respelled (next_row sha256_json storage policy ledger event)
                (storage.column_time (next_row sha256_json storage policy ledger event).occurred_at)
                (storage.column_payload (next_row sha256_json storage policy ledger event).payload)
                (ap storage.column_time (next_row-occurred_at ledger event)
                  ∙ kept.time_kept
                  ∙ sym (next_row-occurred_at ledger event));
        }
      where
        newest_hash :
            (found : Option AuditRecord)
            → Option.map (λ r. r.event_hash) found
              ≡ (elim found [ none ↦ none | some r ↦ some r.event_hash ])
        newest_hash none = refl
        newest_hash (some r) = refl

    -- A row joins its own chain only.
    pub selected-own :
        (rows : List AuditRecord) (r : AuditRecord) (id : String)
        → r.chain_scope ≡ "run"
        → r.chain_id ≡ id
        → select_chain "run" id (rows ++ r ∷ []) ≡ select_chain "run" id rows ++ r ∷ []
    selected-own rows r id scope own =
        select_chain-snoc "run" id rows r
        ∙ rw ((eq_iff r.chain_scope "run").1 scope, (eq_iff r.chain_id id).1 own) refl

    pub selected-other :
        (rows : List AuditRecord) (r : AuditRecord) (id : String)
        → r.chain_scope ≡ "run"
        → (r.chain_id == id) ≡ false
        → select_chain "run" id (rows ++ r ∷ []) ≡ select_chain "run" id rows
    selected-other rows r id scope other =
        select_chain-snoc "run" id rows r
        ∙ rw ((eq_iff r.chain_scope "run").1 scope, other) (append-nil (select_chain "run" id rows))

    IsChain-extended :
        (ledger : Ledger) (event : BpgEvent) (id : String)
        → Survives event
        → IsLinked ledger
        → IsChain sha256_json "run" id none
            (select_chain "run" id (ledger.rows ++ row ledger event ∷ []))
    IsChain-extended ledger event id kept h =
        let fields = row-fields ledger event in
        elim (text_cases event.run_id id) [
          | inl same ↦
              rw (selected-own ledger.rows (row ledger event) id fields.1 (fields.2 ∙ same)) (
                IsChain-snoc sha256_json "run" id none (select_chain "run" id ledger.rows)
                  (row ledger event) (h.chains id)
                  (rw (← same) (row-IsGenuine ledger event kept h)))
          | inr other ↦
              rw (selected-other ledger.rows (row ledger event) id fields.1 (rw fields.2 other))
                (h.chains id)
        ]

    rows-extended :
        (ledger : Ledger) (event : BpgEvent)
        → IsLinked ledger
        → IsAscending 0 (ledger.rows ++ row ledger event ∷ []) (ledger.last_sequence_id + 1)
    rows-extended ledger event h =
        let number = (row-fields ledger event).0 in
        rw (← number) (
          IsAscending-snoc 0 ledger.rows ledger.last_sequence_id (row ledger event) h.ascending
            (omega (arith, number)))

    pub insert_event-IsLinked :
        (ledger : Ledger) (event : BpgEvent)
        → Survives event
        → IsLinked ledger
        → IsLinked (insert_event sha256_json storage policy ledger event).0
    unfolding insert_event
    insert_event-IsLinked ledger event kept h =
        elim (Bool-cases (has_event event.event_id ledger.rows)) [
          | inl taken ↦ rw taken (record {
            ascending =
                IsAscending-weaken 0 0 ledger.rows ledger.last_sequence_id
                  (ledger.last_sequence_id + 1) h.ascending (omega arith) (omega arith);
            chains = h.chains;
          })
          | inr fresh ↦ rw fresh (record {
            ascending = rows-extended ledger event h;
            chains = λ id. IsChain-extended ledger event id kept h;
          })
        ]

    pub emit-IsLinked :
        (ledger : Ledger) (event : BpgEvent)
        → Survives (apply_audit_policy sha256_json event policy)
        → IsLinked ledger
        → IsLinked (emit sha256_json storage policy ledger event).0
    unfolding emit
    emit-IsLinked ledger event kept h =
        insert_event-IsLinked ledger (apply_audit_policy sha256_json event policy) kept h
