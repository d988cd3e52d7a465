-- ===== src/Audit/Ledger/Store/Continues.antt =====
-- Rows behind a checkpoint of a run go on from its head.
use bpg.Common.{
  ℕ, ◌+◌, ◌≤◌, ◌<◌, String, ◌≡◌, refl, ap, ◌∙◌, sym, true, false, Option, none, some, List, [], ◌∷◌,
  ◌++◌, arith, ltb, Bool-cases, inl, inr, text_cases,
}
use bpg.Value.{Value}
use bpg.Audit.Event.{BpgEvent}
use bpg.Audit.Policy.{AuditPolicyConfig, apply_audit_policy}
use bpg.Audit.Ledger.{AuditRecord, rows_after}
use bpg.Audit.Ledger.Verify.Chain.{IsGenuine, IsChain, head_hash, IsChain-snoc}
use bpg.Audit.Ledger.Store.{
  Storage, Ledger, select_chain, later_of, latest, has_event, insert_event, emit,
}
use bpg.Audit.Ledger.Store.Rows.{
  IsAscending, select_chain-IsAscending, head_hash-eq-latest, low-le-high, latest-cons, latest-gt,
}
use bpg.Audit.Ledger.Store.Sound.{
  IsLinked, Survives, row, row-fields, row-IsGenuine, selected-own, selected-other,
}

rows_after-snoc :
    (n : ℕ) (rows : List AuditRecord) (r : AuditRecord)
    → n < r.sequence_id
    → rows_after n (rows ++ r ∷ []) ≡ rows_after n rows ++ r ∷ []
unfolding rows_after
rows_after-snoc n [] r h = let e : ltb n r.sequence_id ≡ true = ground arith in rw e refl
rows_after-snoc n (s ∷ rows) r h = elim (Bool-cases (ltb n s.sequence_id)) [
  | inl e ↦ rw e (ap (λ l. s ∷ l) (rows_after-snoc n rows r h))
  | inr e ↦ rw e (rows_after-snoc n rows r h)
]

rows_after-none :
    (low : ℕ) (rows : List AuditRecord) (n : ℕ) → IsAscending low rows n → rows_after n rows ≡ []
unfolding rows_after
rows_after-none low [] n h = refl
rows_after-none low (r ∷ rows) n h =
    let e : ltb n r.sequence_id ≡ false = ground (arith, low-le-high r.sequence_id rows n h.1) in
    rw e (rows_after-none r.sequence_id rows n h.1)

-- The newest row has the highest number.
IsAscending-latest :
    (low : ℕ) (rows : List AuditRecord) (high : ℕ) (r : AuditRecord)
    → IsAscending low rows high
    → latest rows ≡ some r
    → (r.sequence_id ≤ high) × IsAscending low rows r.sequence_id
unfolding latest later_of
IsAscending-latest low [] high r h e = absurd (cc)
IsAscending-latest low (s ∷ []) high r h e =
    let same : s ≡ r = cc in
    let number : s.sequence_id ≡ r.sequence_id = ap (λ x. x.sequence_id) same in
    (omega (arith, h.1, number), (h.0, omega (arith, number)))
IsAscending-latest low (s ∷ t ∷ rows) high r h e =
    let found =
      latest-cons s (t ∷ rows) (λ u is. latest-gt s.sequence_id (t ∷ rows) high u h.1 is) in
    let below = IsAscending-latest s.sequence_id (t ∷ rows) high r h.1 (sym found ∙ e) in
    (below.0, (h.0, below.1))

module _ (sha256_json : Value → String) (id : String) where
  head_hash-snoc :
      (previous : Option String) (rows : List AuditRecord) (r : AuditRecord)
      → head_hash sha256_json "run" id previous (rows ++ r ∷ []) ≡ some r.event_hash
  head_hash-snoc previous [] r = refl
  head_hash-snoc previous (s ∷ rows) r = head_hash-snoc (some s.event_hash) rows r

  -- From number `n` and hash `hash` the chain of the run goes on to its head.
  pub record Continues (n : ℕ) (hash : String) (ledger : Ledger) : Type 0 where
    pub numbered : n ≤ ledger.last_sequence_id
    pub chained :
        IsChain sha256_json "run" id (some hash) (rows_after n (select_chain "run" id ledger.rows))
    pub to_head :
        head_hash sha256_json "run" id none (select_chain "run" id ledger.rows)
        ≡ head_hash sha256_json "run" id
            (some hash)
            (rows_after n (select_chain "run" id ledger.rows))

  pub Continues-latest :
      (ledger : Ledger) (r : AuditRecord)
      → IsLinked sha256_json ledger
      → latest (select_chain "run" id ledger.rows) ≡ some r
      → Continues r.sequence_id r.event_hash ledger
  Continues-latest ledger r h e =
      let chain = select_chain "run" id ledger.rows in
      let up =
        select_chain-IsAscending "run" id 0 ledger.rows ledger.last_sequence_id h.ascending in
      let newest = IsAscending-latest 0 chain ledger.last_sequence_id r up e in
      let none_after = rows_after-none 0 chain r.sequence_id newest.1 in
      let head = head_hash-eq-latest sha256_json "run" id 0 chain ledger.last_sequence_id none up in
      record {
        numbered = newest.0;
        chained = rw none_after tt;
        to_head = rw none_after (rw e at head);
      }

  -- A row of another run changes nothing, and one of the run is the next.
  extended :
      (n : ℕ) (hash : String) (ledger ledger' : Ledger) (r : AuditRecord)
      → Continues n hash ledger
      → ledger'.last_sequence_id ≡ ledger.last_sequence_id + 1
      → r.sequence_id ≡ ledger.last_sequence_id + 1
      → select_chain "run" id ledger'.rows ≡ select_chain "run" id ledger.rows ++ r ∷ []
      → IsGenuine sha256_json "run" id
          (head_hash sha256_json "run" id none (select_chain "run" id ledger.rows))
          r
      → Continues n hash ledger'
  extended n hash ledger ledger' r c last number rows genuine =
      let chain = select_chain "run" id ledger.rows in
      let behind = rows_after-snoc n chain r (omega (arith, c.numbered, number)) in
      record {
        numbered = omega (arith, c.numbered, last);
        chained =
            rw (rows, behind)
              (IsChain-snoc sha256_json "run" id (some hash) (rows_after n chain) r c.chained
                (rw (← c.to_head) genuine));
        to_head =
            rw (rows, behind)
              (head_hash-snoc none chain r
                ∙ sym (head_hash-snoc (some hash) (rows_after n chain) r));
      }

  module _ (storage : Storage) (policy : AuditPolicyConfig) where
    pub insert_event-Continues :
        (n : ℕ) (hash : String) (ledger : Ledger) (event : BpgEvent)
        → Survives sha256_json storage policy event
        → IsLinked sha256_json ledger
        → Continues n hash ledger
        → Continues n hash (insert_event sha256_json storage policy ledger event).0
    unfolding insert_event
    insert_event-Continues n hash ledger event kept h c =
        elim (Bool-cases (has_event event.event_id ledger.rows)) [
          | inl taken ↦ rw taken (record {
            numbered = omega (arith, c.numbered);
            chained = c.chained;
            to_head = c.to_head;
          })
          | inr fresh ↦
              let r = row sha256_json storage policy ledger event in
              let fields = row-fields sha256_json storage policy ledger event in
              rw fresh (elim (text_cases event.run_id id) [
                | inl same ↦
                    extended n hash ledger _ r c refl fields.0
                      (selected-own sha256_json storage policy ledger.rows r id fields.1
                        (fields.2 ∙ same))
                      (rw (← same) (row-IsGenuine sha256_json storage policy ledger event kept h))
                | inr other ↦
                    let rows =
                      selected-other sha256_json storage policy ledger.rows r id fields.1
                        (rw fields.2 other) in
                    record {
                      numbered = omega (arith, c.numbered);
                      chained = rw rows c.chained;
                      to_head = rw rows c.to_head;
                    }
              ])
        ]

pub insert_event-checkpoints :
    (sha256_json : Value → String) (storage : Storage) (policy : AuditPolicyConfig)
    (ledger : Ledger) (event : BpgEvent)
    → (insert_event sha256_json storage policy ledger event).0.checkpoints ≡ ledger.checkpoints
unfolding insert_event
insert_event-checkpoints sha256_json storage policy ledger event =
    elim (Bool-cases (has_event event.event_id ledger.rows)) [
      | inl taken ↦ rw taken refl
      | inr fresh ↦ rw fresh refl
    ]

pub emit-eq-insert_event :
    (sha256_json : Value → String) (storage : Storage) (policy : AuditPolicyConfig)
    (ledger : Ledger) (event : BpgEvent)
    → (emit sha256_json storage policy ledger event).0
      ≡ (insert_event sha256_json storage policy ledger
          (apply_audit_policy sha256_json event policy)).0
unfolding emit
emit-eq-insert_event sha256_json storage policy ledger event = refl
