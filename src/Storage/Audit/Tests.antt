-- ===== src/Storage/Audit/Tests.antt =====
-- The row of a login that sends a raw session id and a key that is not on the list.
use authgate.Prelude.{◌≡◌, refl, All, [], ◌∷◌}
use authgate.Storage.Audit.{Metadata, text, allowed_keys, sanitize, sanitize_with}
use authgate.Storage.Audit.Sanitized.{IsClean, sanitize-IsClean}

abbrev login_metadata : Metadata
login_metadata =
    ("channel", text "browser")
    ∷ ("session_id", text "raw")
    ∷ ("email", text "alice@example.com")
    ∷ []

login_row :
    (sanitize (λ s. "hash") "auth.login" login_metadata
      ≡ ("channel", text "browser") ∷ ("session_id", text "hash") ∷ [])
    × (sanitize (λ s. "hash") "auth.unknown" login_metadata ≡ [])
unfolding sanitize sanitize_with allowed_keys
login_row = (refl, refl)

sanitize-IsClean_example :
    All
      (IsClean (λ s. "hash") (allowed_keys "auth.login"))
      (sanitize (λ s. "hash") "auth.login" login_metadata)
sanitize-IsClean_example = sanitize-IsClean (λ s. "hash") "auth.login" login_metadata
