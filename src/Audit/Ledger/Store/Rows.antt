-- ===== src/Audit/Ledger/Store/Rows.antt =====
-- Rows in the order of their numbers: selecting, sorting and finding the newest.
use bpg.Common.{
  ℕ, ◌≤◌, ◌<◌, String, ◌≡◌, refl, ap, true, false, ◌&&◌, Option, none, some, List, [], ◌∷◌, ◌++◌,
  arith, if◌then◌else◌, leb, ltb, Bool-cases, Option-cases, inl, inr, ◌==◌,
}
use bpg.Value.{Value}
use bpg.Audit.Ledger.{AuditRecord, insert_row, sort_rows}
use bpg.Audit.Ledger.Verify.Chain.{head_hash}
use bpg.Audit.Ledger.Store.{select_chain, later_of, latest}

-- Numbers that grow from above `low`, none above `high`.
abbrev pub IsAscending : ℕ → List AuditRecord → ℕ → Type 0
IsAscending low [] high = low ≤ high
IsAscending low (r ∷ rows) high = (low < r.sequence_id) × IsAscending r.sequence_id rows high

pub IsAscending-snoc :
    (low : ℕ) (rows : List AuditRecord) (high : ℕ) (r : AuditRecord)
    → IsAscending low rows high
    → high < r.sequence_id
    → IsAscending low (rows ++ r ∷ []) r.sequence_id
IsAscending-snoc low [] high r h lt = (omega arith, omega arith)
IsAscending-snoc low (s ∷ rows) high r h lt =
    (h.0, IsAscending-snoc s.sequence_id rows high r h.1 lt)

pub IsAscending-weaken :
    (low low' : ℕ) (rows : List AuditRecord) (high high' : ℕ)
    → IsAscending low rows high
    → low' ≤ low
    → high ≤ high'
    → IsAscending low' rows high'
IsAscending-weaken low low' [] high high' h l k = omega arith
IsAscending-weaken low low' (r ∷ rows) high high' h l k = (
  omega (arith, h.0),
  IsAscending-weaken r.sequence_id r.sequence_id rows high high' h.1 (omega arith) k,
)

pub low-le-high :
    (low : ℕ) (rows : List AuditRecord) (high : ℕ) → IsAscending low rows high → low ≤ high
low-le-high low [] high h = h
low-le-high low (r ∷ rows) high h = omega (arith, h.0, low-le-high r.sequence_id rows high h.1)

module _ (scope id : String) where
  pub select_chain-IsAscending :
      (low : ℕ) (rows : List AuditRecord) (high : ℕ)
      → IsAscending low rows high
      → IsAscending low (select_chain scope id rows) high
  unfolding select_chain
  select_chain-IsAscending low [] high h = h
  select_chain-IsAscending low (r ∷ rows) high h =
      let rest = select_chain-IsAscending r.sequence_id rows high h.1 in
      elim (Bool-cases (r.chain_scope == scope && r.chain_id == id)) [
        | inl e ↦ rw e (h.0, rest)
        | inr e ↦ rw e (
            IsAscending-weaken r.sequence_id low (select_chain scope id rows) high high rest
              (omega (arith, h.0)) (omega arith))
      ]

  pub select_chain-snoc :
      (rows : List AuditRecord) (r : AuditRecord)
      → select_chain scope id (rows ++ r ∷ [])
        ≡ select_chain scope id rows
          ++ (if r.chain_scope == scope && r.chain_id == id then r ∷ [] else [])
  unfolding select_chain
  select_chain-snoc [] r = refl
  select_chain-snoc (s ∷ rows) r = elim (Bool-cases (s.chain_scope == scope && s.chain_id == id)) [
    | inl e ↦ rw e (ap (λ l. s ∷ l) (select_chain-snoc rows r))
    | inr e ↦ rw e (select_chain-snoc rows r)
  ]

insert_row-first :
    (r : AuditRecord) (rows : List AuditRecord) (high : ℕ)
    → IsAscending r.sequence_id rows high
    → insert_row r rows ≡ r ∷ rows
unfolding insert_row
insert_row-first r [] high h = refl
insert_row-first r (s ∷ rows) high h =
    let e : leb r.sequence_id s.sequence_id ≡ true = ground (arith, h.0) in rw e refl

-- Rows in order are sorted already.
pub sort_rows_of_IsAscending :
    (low : ℕ) (rows : List AuditRecord) (high : ℕ)
    → IsAscending low rows high
    → sort_rows rows ≡ rows
unfolding sort_rows
sort_rows_of_IsAscending low [] high h = refl
sort_rows_of_IsAscending low (r ∷ rows) high h =
    rw (sort_rows_of_IsAscending r.sequence_id rows high h.1) (insert_row-first r rows high h.1)

pub latest-cons :
    (r : AuditRecord) (rows : List AuditRecord)
    → ((t : AuditRecord) → latest rows ≡ some t → r.sequence_id < t.sequence_id)
    → latest (r ∷ rows) ≡ (elim (latest rows) [ none ↦ some r | some t ↦ some t ])
unfolding latest
latest-cons r rows newer = elim (Option-cases (latest rows)) [
  | inl e ↦ rw (e, later_of) refl
  | inr (t, e) ↦ rw (e, later_of) (ap some (older t (newer t e)))
]
  where
    older : (t : AuditRecord) → r.sequence_id < t.sequence_id → later_of r (some t) ≡ t
    older t lt = let e : ltb t.sequence_id r.sequence_id ≡ false = ground arith in rw e refl

pub latest-gt :
    (low : ℕ) (rows : List AuditRecord) (high : ℕ) (s : AuditRecord)
    → IsAscending low rows high
    → latest rows ≡ some s
    → low < s.sequence_id
latest-gt low [] high s h e = unfold latest in cc
latest-gt low (r ∷ rows) high s h e =
    let newer : (t : AuditRecord) → latest rows ≡ some t → r.sequence_id < t.sequence_id =
      λ t is. latest-gt r.sequence_id rows high t h.1 is in
    elim (Option-cases (latest rows)) [
      | inl is ↦ ground (arith, h.0, latest-cons r rows newer)
      | inr (t, is) ↦ ground (arith, h.0, newer t is, latest-cons r rows newer)
    ]

-- The newest row is the last one.
pub head_hash-eq-latest :
    (sha256_json : Value → String) (scope id : String) (low : ℕ) (rows : List AuditRecord)
    (high : ℕ) (previous : Option String)
    → IsAscending low rows high
    → head_hash sha256_json scope id previous rows
      ≡ (elim (latest rows) [ none ↦ previous | some r ↦ some r.event_hash ])
head_hash-eq-latest sha256_json scope id low [] high previous h = unfold latest in refl
head_hash-eq-latest sha256_json scope id low (r ∷ rows) high previous h = ground (
  arith,
  head_hash-eq-latest sha256_json scope id r.sequence_id rows high (some r.event_hash) h.1,
  latest-cons r rows (λ t is. latest-gt r.sequence_id rows high t h.1 is),
)
