-- ===== src/Storage/Audit/Sanitized.antt =====
-- What the rows of internal/storage/audit_logger.go hold.
use authgate.Prelude.{
  ◌≡◌, ◌⊎◌, refl, inl, inr, true, false, List, [], ◌∷◌, String, str_eq, All, Bool-cases, eq_iff,
  arith,
}
use authgate.Storage.Audit.{
  Value, text, bytes, flag, Metadata, allowed_keys, is_listed, is_some_string, kept_value,
  sanitize_with, sanitize,
}

-- A string under `session_id` is empty or the hash of some string; a flag is no session id.
abbrev pub IsHashed : (Value → String) → Value → Type 0
IsHashed session_hash (text t) = (t ≡ "") ⊎ ((raw : Value) × (t ≡ session_hash raw))
IsHashed session_hash (bytes b) = b ≡ []
IsHashed session_hash (flag b) = Unit

-- An entry of an event's row: its key is allowed, and under `session_id` is no raw session id.
abbrev pub IsClean : (Value → String) → List String → String × Value → Type 0
IsClean session_hash allowed (key, value) =
    (is_listed key allowed ≡ true)
    × ((str_eq key "session_id" ≡ false) ⊎ IsHashed session_hash value)

empty_lem : (s : String) → str_eq s "" ≡ true → s ≡ ""
empty_lem s e = (eq_iff s "").0 e

blank_lem :
    (session_hash : Value → String) (value : Value)
    → is_some_string value ≡ false
    → IsHashed session_hash value
blank_lem session_hash (text raw) e = inl (empty_lem raw (ground (arith, e)))
blank_lem session_hash (bytes []) e = refl
blank_lem session_hash (bytes (b ∷ raw)) e = absurd (ground (arith, e))
blank_lem session_hash (flag b) e = tt

kept_value_lem :
    (session_hash : Value → String) (key : String) (value : Value)
    → (str_eq key "session_id" ≡ false) ⊎ IsHashed session_hash (kept_value session_hash key value)
kept_value_lem session_hash key value = elim (Bool-cases (str_eq key "session_id")) [
  | inr other ↦ inl other
  | inl session ↦ elim (Bool-cases (is_some_string value)) [
    | inl given ↦ rw (session, given) (inr (inr (value, refl)))
    | inr blank ↦ rw (session, blank) (inr (blank_lem session_hash value blank))
  ]
]

sanitize_with_lem :
    (session_hash : Value → String) (allowed : List String) (metadata : Metadata)
    → All (IsClean session_hash allowed) (sanitize_with session_hash allowed metadata)
unfolding sanitize_with
sanitize_with_lem session_hash allowed [] = tt
sanitize_with_lem session_hash allowed ((key, value) ∷ rest) =
    elim (Bool-cases (is_listed key allowed)) [
      | inl listed ↦ rw listed (
        (listed, kept_value_lem session_hash key value),
        sanitize_with_lem session_hash allowed rest,
      )
      | inr dropped ↦ rw dropped (sanitize_with_lem session_hash allowed rest)
    ]

-- Whatever metadata a caller passes, the row of an event holds only keys on that event's allow-list,
-- none for an unknown event, and no raw session id under `session_id`: a string there is empty or a
-- hash.
pub sanitize-IsClean :
    (session_hash : Value → String) (event_type : String) (metadata : Metadata)
    → All
        (IsClean session_hash (allowed_keys event_type))
        (sanitize session_hash event_type metadata)
unfolding sanitize
sanitize-IsClean session_hash event_type metadata =
    sanitize_with_lem session_hash (allowed_keys event_type) metadata
