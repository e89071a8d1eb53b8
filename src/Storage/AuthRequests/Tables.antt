-- ===== src/Storage/AuthRequests/Tables.antt =====
-- internal/db/storeq/auth_requests.sql.go, and CompleteAuthRequestByID of users.sql.go.
use authgate.Prelude.{
  ℕ, Bool, true, ◌&&◌, Option, none, some, [], ◌∷◌, ◌++◌, String, str_eq, ltb, any, if◌then◌else◌,
}
use authgate.Storage.Db.{Db, AuthRequestRow}
use authgate.Storage.Rows.{find, count, update, remove, is_some_eq}

-- The primary key refuses a second row of an id.
unfoldable pub insert_auth_request : AuthRequestRow → Db → Option (Unit {0} × Db)
insert_auth_request row d =
    if any (λ r. str_eq r.id row.id) d.auth_requests
    then none
    else some (tt, record d { auth_requests = d.auth_requests ++ row ∷ [] })

unfoldable pub get_auth_request_by_id : String → Db → Option (Option AuthRequestRow × Db)
get_auth_request_by_id id d = some (find (λ r. str_eq r.id id) d.auth_requests, d)

unfoldable pub get_auth_request_by_code : String → Db → Option (Option AuthRequestRow × Db)
get_auth_request_by_code code d = some (find (λ r. is_some_eq r.code code) d.auth_requests, d)

unfoldable pub update_auth_request_code : String → String → Db → Option (Unit {0} × Db)
update_auth_request_code code id d = some (
  tt,
  record d {
    auth_requests =
        update (λ r. str_eq r.id id) (λ r. record r { code = some code }) d.auth_requests;
  },
)

unfoldable pub delete_auth_request_by_id : String → Db → Option (Unit {0} × Db)
delete_auth_request_by_id id d =
    some (tt, record d { auth_requests = remove (λ r. str_eq r.id id) d.auth_requests })

-- The rows that CompleteAuthRequestByID updates.
abbrev pub completable : String → ℕ → AuthRequestRow → Bool
completable id auth_time r = str_eq r.id id && ltb auth_time r.expires_at

unfoldable pub complete_auth_request_by_id : String → ℕ → String → Db → Option (ℕ × Db)
complete_auth_request_by_id user_id auth_time id d = some (
  count (completable id auth_time) d.auth_requests,
  record d {
    auth_requests =
        update (completable id auth_time)
          (λ r. record r { subject = some user_id; auth_time = some auth_time; is_done = true })
          d.auth_requests;
  },
)
