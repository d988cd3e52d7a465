-- ===== src/Audit/Ledger/Verify/Examples.antt =====
-- A chain of two rows, and the theorems on verification at it.
use bpg.Common.{
  ℕ, String, ◌≡◌, refl, sym, ap, ◌↔◌, true, false, Option, none, some, List, [], ◌∷◌, map, All,
  ◌==◌, eq_iff,
}
use bpg.Value.{Fields, str, dict, end, field}
use bpg.Audit.Samples.{spell, keyed}
use bpg.Audit.Ledger.{
  AuditRecord, AuditChainCheckpoint, sort_rows, compute_audit_event_hash, hash_fields,
}
use bpg.Audit.Ledger.Verify.{check_rows, verify_audit_chain, sign_checkpoint}
use bpg.Audit.Ledger.Verify.Decides.{
  IsWhole, IsContinued, verify_audit_chain_iff, verify_audit_chain_checkpoint_iff,
}
use bpg.Audit.Ledger.Verify.Tamper.{IsCollisionFree, content, last_hash, head_hash_determines_rows}
use bpg.Audit.Ledger.Verify.Unprotected.{relabel, verify_audit_chain_ignores_actor_type}

abbrev unsealed_row : ℕ → String → Option String → Fields → AuditRecord
unsealed_row n event_id previous payload = record {
  sequence_id = n;
  chain_scope = "run";
  chain_id = "r1";
  event_id = event_id;
  event_type = "node_completed";
  occurred_at = "2026-01-01T00:00:00Z";
  run_id = "r1";
  process_name = "onboarding";
  process_version = none;
  process_hash = none;
  node_id = none;
  node_type = none;
  actor_id = some "ann";
  actor_type = some "human";
  policy_id = none;
  correlation_id = none;
  external_ref = none;
  trace_id = none;
  span_id = none;
  payload = payload;
  payload_sha256 = spell (dict payload);
  previous_hash = previous;
  event_hash = "";
}

abbrev sealed_row : ℕ → String → Option String → Fields → AuditRecord
sealed_row n event_id previous payload =
    let r = unsealed_row n event_id previous payload in
    record r { event_hash = spell (dict (hash_fields r)) }

abbrev first_row : AuditRecord
first_row = sealed_row 1 "e1" none (field "amount" (str "10") end)

abbrev second_row : AuditRecord
second_row = sealed_row 2 "e2" (some first_row.event_hash) (field "amount" (str "20") end)

abbrev rows : List AuditRecord
rows = first_row ∷ second_row ∷ []

abbrev shuffled : List AuditRecord
shuffled = second_row ∷ first_row ∷ []

abbrev checkpoint : AuditChainCheckpoint
checkpoint = record {
  checkpoint_id = some 1;
  created_at = none;
  scope = "run:r1";
  last_sequence_id = 1;
  chain_head_hash = first_row.event_hash;
  anchored_ref = none;
  signature = none;
}

rows-IsWhole : IsWhole spell (sort_rows rows)
unfolding sort_rows compute_audit_event_hash
rows-IsWhole = (
  record { scope_fits = refl; id_fits = refl; linked = refl; payload_fits = refl; sealed = refl },
  (
    record { scope_fits = refl; id_fits = refl; linked = refl; payload_fits = refl; sealed = refl },
    tt,
  ),
)

sorted_same : sort_rows shuffled ≡ sort_rows rows
unfolding sort_rows
sorted_same = refl

rows_pass : (verify_audit_chain spell keyed rows none false none).is_ok ≡ true
rows_pass = (verify_audit_chain_iff spell keyed false none rows).1 rows-IsWhole

shuffled_pass : (verify_audit_chain spell keyed shuffled none false none).is_ok ≡ true
shuffled_pass =
    (verify_audit_chain_iff spell keyed false none shuffled).1 (rw sorted_same rows-IsWhole)

dropped : (verify_audit_chain spell keyed (second_row ∷ []) none false none).is_ok ≡ false
unfolding verify_audit_chain sort_rows check_rows
dropped = refl

apart : (a b : String) → (a == b) ≡ false → a ≡ b → ⊥
apart a b e h = let equal = (eq_iff a b).1 h in cc

free_same : (a : AuditRecord) → IsCollisionFree spell a a
free_same a = record { rows_differ = λ _. refl; payloads_differ = λ _. refl }

free_first : IsCollisionFree spell first_row second_row
unfolding hash_fields
free_first = record {
  rows_differ = λ h. absurd (apart _ _ refl h);
  payloads_differ = λ h. absurd (apart _ _ refl h);
}

free_second : IsCollisionFree spell second_row first_row
unfolding hash_fields
free_second = record {
  rows_differ = λ h. absurd (apart _ _ refl h);
  payloads_differ = λ h. absurd (apart _ _ refl h);
}

rows-free : All (λ a. All (λ b. IsCollisionFree spell a b) (sort_rows shuffled)) (sort_rows rows)
unfolding sort_rows
rows-free =
    ((free_same first_row, (free_first, tt)), ((free_second, (free_same second_row, tt)), tt))

verify_audit_chain_iff_example :
    ((verify_audit_chain spell keyed shuffled none false none).is_ok ≡ true)
    ↔ IsWhole spell (sort_rows shuffled)
verify_audit_chain_iff_example = verify_audit_chain_iff spell keyed false none shuffled

verify_audit_chain_checkpoint_iff_example :
    ((verify_audit_chain spell keyed rows (some checkpoint) false (some "")).is_ok ≡ true)
    ↔ IsContinued spell keyed false (some "") checkpoint (sort_rows rows)
verify_audit_chain_checkpoint_iff_example =
    verify_audit_chain_checkpoint_iff spell keyed false (some "") checkpoint rows

head_hash_determines_rows_example :
    map (content spell) (sort_rows rows) ≡ map (content spell) (sort_rows shuffled)
head_hash_determines_rows_example =
    head_hash_determines_rows spell keyed false none rows shuffled rows_pass shuffled_pass
      (ap (last_hash spell) (sym sorted_same)) rows-free

verify_audit_chain_ignores_actor_type_example :
    verify_audit_chain spell keyed (map (relabel (λ r. some "service")) rows) none true none
    ≡ verify_audit_chain spell keyed rows none true none
verify_audit_chain_ignores_actor_type_example =
    verify_audit_chain_ignores_actor_type (λ r. some "service") spell keyed rows none true none

abbrev signed_checkpoint : AuditChainCheckpoint
signed_checkpoint = record checkpoint {
  signature = sign_checkpoint keyed checkpoint (some "key");
  anchored_ref = some "anchor-1";
}
