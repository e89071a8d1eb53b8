-- ===== src/Storage/Sessions.antt =====
-- internal/storage/sessions.go over internal/db/storeq/sessions.sql.go: the browser's sessions.
pub mod LoggedOut
pub mod Valid
mod Tests
use authgate.Prelude.{
  ℕ, ◌+◌, Bool, true, false, not, ◌&&◌, ◌||◌, Option, none, some, List, [], ◌∷◌, ◌++◌, String,
  str_eq, ltb, any, ◌==◌, if◌then◌else◌,
}
use authgate.Storage.Db.{Db, SessionRow, UserRow, AuditRow}
use authgate.Storage.Rows.{find, count, update, is_none, is_some_eq}
use authgate.Storage.Exec.{
  StoreError, not_found, other, user_account_closed, Exec, pure, autocommit, ◌>>=◌, ◌>>◌, audit_log,
  now, take_id, or_fail,
}
use authgate.Storage.Settings.{Settings, User}
use authgate.Storage.Users.{build_user}

abbrev pub same_hash : Option String → SessionRow → Bool
same_hash none s = false
same_hash (some hash) s = is_some_eq s.token_hash hash

-- The primary key, the unique token hash and the foreign key to the account.
abbrev pub refused : SessionRow → Db → Bool
refused row d =
    any (λ s. str_eq s.id row.id) d.sessions
    || any (same_hash row.token_hash) d.sessions
    || not (any (λ u. str_eq u.id row.user_id) d.users)

unfoldable pub insert_session : SessionRow → Db → Option (Unit {0} × Db)
insert_session row d =
    if refused row d then none else some (tt, record d { sessions = d.sessions ++ row ∷ [] })

-- The WHERE clause of GetValidSessionUser and of GetValidSessionCreatedAt.
abbrev pub is_valid_session : String → ℕ → SessionRow → Bool
is_valid_session hash at s =
    is_some_eq s.token_hash hash && ltb at s.expires_at && is_none s.revoked_at

abbrev pub owner : Db → Option SessionRow → Option User
owner d none = none
owner d (some s) = elim (find (λ u. str_eq u.id s.user_id) d.users) [
  | none ↦ none
  | some row ↦ some (build_user d.identities row)
]

unfoldable pub get_valid_session_user : String → ℕ → Db → Option (Option User × Db)
unfolding build_user
get_valid_session_user hash at d = some (owner d (find (is_valid_session hash at) d.sessions), d)

abbrev pub created : Option SessionRow → Option ℕ
created none = none
created (some s) = some s.created_at

unfoldable pub get_valid_session_created_at : String → ℕ → Db → Option (Option ℕ × Db)
get_valid_session_created_at hash at d =
    some (created (find (is_valid_session hash at) d.sessions), d)

-- The rows that RevokeSessionsByUserID updates.
abbrev pub live_of : String → SessionRow → Bool
live_of user_id s = str_eq s.user_id user_id && is_none s.revoked_at

unfoldable pub revoke_sessions_by_user_id : ℕ → String → Db → Option (ℕ × Db)
revoke_sessions_by_user_id at user_id d = some (
  count (live_of user_id) d.sessions,
  record d {
    sessions = update (live_of user_id) (λ s. record s { revoked_at = some at }) d.sessions;
  },
)

abbrev pub new_session : Settings → String → String → String → ℕ → ℕ → SessionRow
new_session cfg id user_id token at ttl = record {
  id = id;
  user_id = user_id;
  token_hash = some (cfg.session_hash token);
  expires_at = cfg.timestamptz (at + ttl);
  revoked_at = none;
  created_at = cfg.timestamptz at;
}

-- `CreateSession`: the token that the cookie carries.
unfoldable pub create_session : Settings → String → ℕ → Exec String
unfolding insert_session
create_session cfg user_id ttl = do
  n ← take_id
  token ← or_fail (cfg.opaque_token n) (other "opaque token")
  at ← now
  m ← take_id
  autocommit (insert_session (new_session cfg (cfg.uuid m) user_id token at ttl))
  pure token

-- `SessionAuthTime`.
unfoldable pub session_auth_time : Settings → String → Exec ℕ
unfolding get_valid_session_created_at
session_auth_time cfg token = do
  at ← now
  found ← autocommit (get_valid_session_created_at (cfg.session_hash token) (cfg.timestamptz at))
  or_fail found not_found

-- `requireUsableUser`.
unfoldable pub require_usable_user : User → Option StoreError
require_usable_user u =
    if str_eq u.status "disabled" || str_eq u.status "deleted"
    then some user_account_closed
    else none

-- `GetValidSession`: the account, and an error beside it if it is closed.
unfoldable pub get_valid_session : Settings → String → Exec (User × Option StoreError)
unfolding get_valid_session_user require_usable_user
get_valid_session cfg token = do
  at ← now
  found ← autocommit (get_valid_session_user (cfg.session_hash token) (cfg.timestamptz at))
  user ← or_fail found not_found
  pure (user, require_usable_user user)

-- What TerminateSession gives to `AuditLog`.
abbrev pub logout_row : String → String → ℕ → AuditRow
logout_row user_id client_id at = record {
  user_id = some user_id;
  event_type = "auth.logout";
  about = client_id;
  outcome = "";
  created_at = at;
}

abbrev pub audit_logout : ℕ → AuditRow → Exec (Unit {0})
audit_logout n row = if n == 0 then pure tt else audit_log row

-- `TerminateSession`.
unfoldable pub terminate_session : String → String → Exec (Unit {0})
unfolding revoke_sessions_by_user_id
terminate_session user_id client_id = do
  at ← now
  n ← autocommit (revoke_sessions_by_user_id at user_id)
  audit_logout n (logout_row user_id client_id at)
