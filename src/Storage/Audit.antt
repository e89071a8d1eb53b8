-- ===== src/Storage/Audit.antt =====
-- internal/storage/audit.go and audit_logger.go: which metadata of an audit event reaches its row.
mod Sanitized
mod Tests
use authgate.Prelude.{
  ℕ, Bool, true, false, not, ◌&&◌, List, [], ◌∷◌, String, Bytes, str_eq, if◌then◌else◌, any, length,
  ◌==◌,
}

-- The values of an audit row's metadata; `text` and `bytes` are both strings of the source.
pub data Value : Type 0 where
  text : String → Value
  bytes : Bytes → Value
  flag : Bool → Value

abbrev pub Metadata : Type 0
Metadata = List (String × Value)

abbrev pub client_keys : List String
client_keys = "client_id" ∷ "client_name" ∷ []

-- `auditMetadataAllowlist`.
abbrev pub audit_metadata_allowlist : List (String × List String)
audit_metadata_allowlist =
    ("auth.channel_mismatch", "expected_channel" ∷ "actual_channel" ∷ client_keys)
    ∷ ("auth.login", "channel" ∷ "session_id" ∷ "reused_session" ∷ "signup" ∷ client_keys)
    ∷ ("auth.signup", "channel" ∷ client_keys)
    ∷ ("auth.access_denied", "channel" ∷ "reason" ∷ "domain" ∷ "signup" ∷ client_keys)
    ∷ ("auth.inactive_user", "status" ∷ "channel" ∷ "phase" ∷ [])
    ∷ ("auth.deletion_requested", "channel" ∷ "session_id" ∷ client_keys)
    ∷ ("auth.deletion_cancelled", "channel" ∷ "session_id" ∷ client_keys)
    ∷ ("auth.deletion_completed", "reason" ∷ [])
    ∷ ("auth.device_denied", client_keys)
    ∷ ("auth.device_approved", client_keys)
    ∷ ("auth.device_code_issued", client_keys)
    ∷ ("auth.logout", client_keys)
    ∷ ("auth.token_revoked", client_keys)
    ∷ ("auth.refresh_reuse_detected", "family_id" ∷ [])
    ∷ ("auth.refresh_family_revoked", "family_id" ∷ [])
    ∷ ("auth.refresh_reuse_grace", "family_id" ∷ "outcome" ∷ [])
    ∷ []

abbrev keys_in : String → List (String × List String) → List String
keys_in event_type [] = []
keys_in event_type ((event, keys) ∷ rest) =
    let others = keys_in event_type rest in if str_eq event event_type then keys else others

-- The keys of an event; an unknown event has none.
unfoldable pub allowed_keys : String → List String
allowed_keys event_type = keys_in event_type audit_metadata_allowlist

abbrev pub is_listed : String → List String → Bool
is_listed key keys = any (λ k. str_eq k key) keys

-- A string of the source other than the empty one, as text or as bytes.
abbrev pub is_some_string : Value → Bool
is_some_string (text raw) = not (str_eq raw "")
is_some_string (bytes raw) = not (length raw == 0)
is_some_string (flag b) = false

-- The value that is kept: a session id is replaced by its hash, which `session_hash` gives for a string
-- in either form.
abbrev pub kept_value : (Value → String) → String → Value → Value
kept_value session_hash key value =
    if str_eq key "session_id" && is_some_string value then text (session_hash value) else value

-- The loop over the metadata.
unfoldable pub sanitize_with : (Value → String) → List String → Metadata → Metadata
sanitize_with session_hash allowed [] = []
sanitize_with session_hash allowed ((key, value) ∷ rest) =
    let others = sanitize_with session_hash allowed rest in
    if is_listed key allowed then (key, kept_value session_hash key value) ∷ others else others

-- `sanitize`; the empty list is nil.
unfoldable pub sanitize : (Value → String) → String → Metadata → Metadata
unfolding allowed_keys
sanitize session_hash event_type metadata =
    sanitize_with session_hash (allowed_keys event_type) metadata
