-- ===== src/Storage/Cleanup/Account.antt =====
-- internal/storage/cleanup_runner.go: the deletion of an account whose term is over, with its statements
-- in internal/db/storeq/cleanup.sql.go.
use authgate.Prelude.{
  ℕ, Bool, true, false, ◌&&◌, Option, none, some, [], String, str_eq, ltb, ◌==◌, if◌then◌else◌,
}
use authgate.Storage.Db.{Db, UserRow, AuditRow}
use authgate.Storage.Rows.{count, update, remove}
use authgate.Storage.Exec.{
  StoreError, Exec, pure, fail, query, ◌>>=◌, ◌>>◌, commit, in_tx, audit_log,
}
use authgate.Storage.Lifecycle.{in_status}

abbrev before : ℕ → Option ℕ → Bool
before at none = false
before at (some scheduled) = ltb scheduled at

-- The account waits for its deletion, and the scheduled time is over.
abbrev pub due : ℕ → String → UserRow → Bool
due at id u = in_status id "pending_deletion" u && before at u.deletion_scheduled_at

-- The columns of the address and the name are NULL, which is read as the empty text.
abbrev pub scrubbed : ℕ → UserRow → UserRow
scrubbed at u = record u {
  email = [];
  name = "";
  status = "deleted";
  deleted_at = some at;
  deletion_requested_at = none;
  deletion_scheduled_at = none;
}

unfoldable pub mark_user_deleted_by_id : ℕ → String → Db → Option (ℕ × Db)
mark_user_deleted_by_id at id d =
    some (count (due at id) d.users, record d { users = update (due at id) (scrubbed at) d.users })

unfoldable pub delete_user_identities_by_user_id : String → Db → Option (Unit {0} × Db)
delete_user_identities_by_user_id id d =
    some (tt, record d { identities = remove (λ r. str_eq r.user_id id) d.identities })

unfoldable pub delete_sessions_by_user_id : String → Db → Option (Unit {0} × Db)
delete_sessions_by_user_id id d =
    some (tt, record d { sessions = remove (λ r. str_eq r.user_id id) d.sessions })

unfoldable pub delete_refresh_tokens_by_user_id : String → Db → Option (Unit {0} × Db)
delete_refresh_tokens_by_user_id id d =
    some (tt, record d { refresh_tokens = remove (λ r. str_eq r.user_id id) d.refresh_tokens })

-- RedactAuditLogPIIByUserID, which may fail, writes columns of audit_log that AuditRow does not have.
abbrev pub redact_audit_log : Exec (Unit {0})
redact_audit_log = query λ d. some (tt, d)

-- The hook, if there is one, by the error that it returns.
abbrev pub or_hook_error : Option StoreError → Exec (Unit {0})
or_hook_error none = pure tt
or_hook_error (some e) = fail e

abbrev pub run_hook : Option (String → Option StoreError) → String → Exec (Unit {0})
run_hook none id = pure tt
run_hook (some hook) id = or_hook_error (hook id)

-- InsertDeletionCompletedAudit.
abbrev pub completed : ℕ → String → AuditRow
completed at id = record {
  user_id = if str_eq id "" then none else some id;
  event_type = "auth.deletion_completed";
  about = "pending_deletion_expired";
  outcome = "";
  created_at = at;
}

-- The statements of the transaction behind the first one.
unfoldable pub delete_children : Option (String → Option StoreError) → String → Exec Bool
delete_children hook id = do
  query (delete_user_identities_by_user_id id)
  query (delete_sessions_by_user_id id)
  query (delete_refresh_tokens_by_user_id id)
  redact_audit_log
  run_hook hook id
  commit
  pure true

-- `DeleteUser`; a failure to write the audit row is only logged.
unfoldable pub delete_user : Option (String → Option StoreError) → String → ℕ → Exec (Unit {0})
delete_user hook id at = do
  deleted ← in_tx (do
    rows ← query (mark_user_deleted_by_id at id)
    if rows == 0 then pure false else delete_children hook id)
  if deleted then audit_log (completed at id) else pure tt
