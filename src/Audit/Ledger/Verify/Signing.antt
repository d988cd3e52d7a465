-- ===== src/Audit/Ledger/Verify/Signing.antt =====
-- Signatures of checkpoints.
use bpg.Common.{String, ◌≡◌, refl, true, Option, none, some, text_test_refl}
use bpg.Value.{Value}
use bpg.Audit.Ledger.{AuditChainCheckpoint}
use bpg.Audit.Ledger.Verify.{
  sign_checkpoint, signature_matches, checkpoint_material, verify_checkpoint_signature,
  present_text,
}

module _ (hmac_sha256 : String → Value → String) where
  sign_same :
      (c c' : AuditChainCheckpoint) (key : Option String)
      → checkpoint_material c' ≡ checkpoint_material c
      → sign_checkpoint hmac_sha256 c' key ≡ sign_checkpoint hmac_sha256 c key
  unfolding sign_checkpoint
  sign_same c c' none e = refl
  sign_same c c' (some key) e = rw (sign_checkpoint, e) refl

  matches_own :
      (c : AuditChainCheckpoint) (signature : Option String)
      → c.signature ≡ signature
      → signature_matches hmac_sha256 c signature ≡ true
  unfolding signature_matches present_text
  matches_own c none e = refl
  matches_own c (some s) e = rw e (text_test_refl s)

  -- A checkpoint that carries the signature of a key over its own scope, number and head hash passes the
  -- signature check with that key, also where there is no key and no signature.
  pub verify_checkpoint_signature-sign_checkpoint :
      (c c' : AuditChainCheckpoint) (key : Option String)
      → c'.scope ≡ c.scope
      → c'.last_sequence_id ≡ c.last_sequence_id
      → c'.chain_head_hash ≡ c.chain_head_hash
      → c'.signature ≡ sign_checkpoint hmac_sha256 c key
      → verify_checkpoint_signature hmac_sha256 c' key ≡ true
  unfolding verify_checkpoint_signature checkpoint_material
  verify_checkpoint_signature-sign_checkpoint c c' key scope number head signature =
      rw (sign_same c c' key (rw (scope, number, head) refl))
        (matches_own c' (sign_checkpoint hmac_sha256 c key) signature)
