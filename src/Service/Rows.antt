-- ===== src/Service/Rows.antt =====
-- The metadata that internal/service/client_access.go and audit_helper.go build, as
-- internal/storage/audit_logger.go keeps it.
use authgate.Prelude.{◌≡◌, refl, Bool, false, String, Bytes, str_eq, Bool-cases, inl, inr}
use authgate.ClientAccess.{Reason}
use authgate.ClientAccess.Normalize.{email_domain, is_empty}
use authgate.Storage.Audit.{Value, text, sanitize, sanitize_with, allowed_keys}
use authgate.Service.Access.{access_denied_audit_metadata, lifecycle_audit_metadata}

-- No metadata of a refusal is lost in its row; and none of a cancelled deletion, whose session id, if
-- there is one, is replaced by its hash.
pub sanitize-access_denied_audit_metadata :
    (session_hash : Value → String) (client_id client_name channel session_id : String)
    (reason : Reason) (email : Bytes) (signup : Bool)
    → str_eq session_id "" ≡ false
    → (sanitize session_hash "auth.access_denied"
          (access_denied_audit_metadata client_id client_name channel reason email signup)
        ≡ access_denied_audit_metadata client_id client_name channel reason email signup)
      × (sanitize session_hash "auth.deletion_cancelled"
            (lifecycle_audit_metadata channel session_id client_id client_name)
          ≡ lifecycle_audit_metadata channel (session_hash (text session_id)) client_id client_name)
unfolding sanitize sanitize_with allowed_keys
sanitize-access_denied_audit_metadata session_hash client_id client_name channel session_id reason
      email signup sent =
    (
      elim (Bool-cases (is_empty (email_domain email))) [
        | inl bare ↦ rw bare refl
        | inr named ↦ rw named refl
      ],
      rw sent refl,
    )
