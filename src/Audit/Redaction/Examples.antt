-- ===== src/Audit/Redaction/Examples.antt =====
-- A payload with secrets, redacted.
use bpg.Common.{◌≡◌, refl, All}
use bpg.Value.{str, list, dict, nil, cons, end, field}
use bpg.Common.Text.{split, after_prefix, strip}
use bpg.Audit.Samples.{login, paths}
use bpg.Audit.Redaction.{
  redacted, redact_payload, redact_configured, redact_sensitive_keys, redact_path, replace,
  is_sensitive, normalize_path,
}
use bpg.Audit.Redaction.Sensitive.{IsHidden, redact_payload-IsHidden}
use bpg.Audit.Redaction.Paths.{Masks, redact_payload-Masks}

redacted-login :
    (redact_payload (dict login) paths).0
    ≡ dict (
        field "user" (str "ann") (
          field "Password" redacted (
            field "accounts"
              (list (
                cons
                  (dict (field "iban" redacted (field "bank" (str "b1") end)))
                  (cons (dict (field "iban" redacted end)) nil)))
              end)))
unfolding redact_payload redact_configured redact_sensitive_keys redact_path replace is_sensitive
    normalize_path split after_prefix strip
redacted-login = refl

redact_payload-IsHidden_example : IsHidden (redact_payload (dict login) paths).0
redact_payload-IsHidden_example = redact_payload-IsHidden (dict login) paths

redact_payload-Masks_example :
    All (λ raw. Masks (redact_payload (dict login) paths).0 (normalize_path raw)) paths
redact_payload-Masks_example = redact_payload-Masks (dict login) paths
