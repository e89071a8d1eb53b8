-- ===== src/Storage/Lifecycle.antt =====
-- internal/storage/user_lifecycle.go and its statements in internal/db/storeq/users.sql.go: the status
-- of an account.
pub mod SignedOut
mod Tests
use authgate.Prelude.{
  ℕ, ◌+◌, Bool, true, false, ◌&&◌, ◌||◌, Option, none, some, String, str_eq, ◌==◌, if◌then◌else◌,
}
use authgate.Storage.Db.{Db, UserRow}
use authgate.Storage.Rows.{count, update}
use authgate.Storage.Exec.{
  StoreError, user_account_closed, other, Exec, pure, query, autocommit, ◌>>=◌, ◌>>◌, commit, in_tx,
  now,
}
use authgate.Storage.Users.{get_user_by_id}
use authgate.Storage.Refresh.Tables.{revoke_active_refresh_tokens_by_user_id}

-- The statements.
abbrev pub in_status : String → String → UserRow → Bool
in_status id status u = str_eq u.id id && str_eq u.status status

unfoldable pub mark_user_pending_deletion_by_id : ℕ → ℕ → String → Db → Option (ℕ × Db)
mark_user_pending_deletion_by_id at scheduled id d = some (
  count (in_status id "active") d.users,
  record d {
    users =
        update (in_status id "active")
          (λ u. record u {
            status = "pending_deletion";
            deletion_requested_at = some at;
            deletion_scheduled_at = some scheduled;
            updated_at = at;
          })
          d.users;
  },
)

unfoldable pub recover_pending_deletion_user_by_id : ℕ → String → Db → Option (Unit {0} × Db)
recover_pending_deletion_user_by_id at id d = some (
  tt,
  record d {
    users =
        update (in_status id "pending_deletion")
          (λ u. record u {
            status = "active";
            deletion_requested_at = none;
            deletion_scheduled_at = none;
            updated_at = at;
          })
          d.users;
  },
)

unfoldable pub set_user_status_by_id : String → ℕ → String → Db → Option (Unit {0} × Db)
set_user_status_by_id status at id d = some (
  tt,
  record d {
    users =
        update (λ u. str_eq u.id id) (λ u. record u { status = status; updated_at = at }) d.users;
  },
)

-- `RecoverUser`.
unfoldable pub recover_user : String → Exec (Unit {0})
recover_user id = do at ← now; autocommit (recover_pending_deletion_user_by_id at id)

-- `SetUserStatus` and `setUserStatus`.
unfoldable pub set_user_status : String → String → Exec (Unit {0})
set_user_status id status = do at ← now; autocommit (set_user_status_by_id status at id)

-- `DisableUser`.
unfoldable pub disable_user : String → Exec (Unit {0})
disable_user id = set_user_status id "disabled"

-- Thirty days, in nanoseconds.
abbrev pub deletion_delay : ℕ
deletion_delay = 2592000000000000

unfoldable pub revoke_and_commit : String → ℕ → Exec (String × Option StoreError)
revoke_and_commit id at =
    query (revoke_active_refresh_tokens_by_user_id at id) >> (commit >> pure ("", none))

-- The live status decides when no active row was found. The text of the last error goes on with it.
unfoldable pub not_active : String → ℕ → String → Exec (String × Option StoreError)
not_active id at status =
    if str_eq status "pending_deletion"
    then revoke_and_commit id at
    else if str_eq status "disabled" || str_eq status "deleted"
    then pure (status, some user_account_closed)
    else pure (status, some (other "unexpected user status for deletion: "))

-- `RequestDeletion`: the status that goes with the error, and the error.
unfoldable pub request_deletion : String → Exec (String × Option StoreError)
request_deletion id = do
  at ← now
  in_tx (do
    rows ← query (mark_user_pending_deletion_by_id at (at + deletion_delay) id)
    if rows == 0
        then (do current ← get_user_by_id id; not_active id at current.status)
        else revoke_and_commit id at)
