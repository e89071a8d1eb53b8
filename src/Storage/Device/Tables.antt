-- ===== src/Storage/Device/Tables.antt =====
-- internal/db/storeq/device_codes.sql.go: the statements on device_codes, as functions on the tables.
use authgate.Prelude.{
  ℕ, Bool, ◌&&◌, ◌||◌, Option, none, some, List, ◌∷◌, String, str_eq, any, ltb, if◌then◌else◌,
}
use authgate.Storage.Db.{Db, DeviceRow}
use authgate.Storage.Rows.{find, count, update}

abbrev pub set_device : Db → List DeviceRow → Db
set_device d rows = record d { device_codes = rows }

-- `id`, `device_code` and `user_code` are unique.
unfoldable pub insert_device_code : DeviceRow → Db → Option (Unit {0} × Db)
insert_device_code row d =
    if any
      (λ r.
        str_eq r.id row.id
        || str_eq r.device_code row.device_code
        || str_eq r.user_code row.user_code)
      d.device_codes
    then none
    else some (tt, set_device d (row ∷ d.device_codes))

unfoldable pub get_device_authorization_for_update :
    String → String → Db → Option (Option DeviceRow × Db)
get_device_authorization_for_update device_code client_id d =
    some (
      find (λ r. str_eq r.device_code device_code && str_eq r.client_id client_id) d.device_codes,
      d,
    )

unfoldable pub get_device_code_by_user_code : String → Db → Option (Option DeviceRow × Db)
get_device_code_by_user_code user_code d =
    some (find (λ r. str_eq r.user_code user_code) d.device_codes, d)

unfoldable pub update_device_code_last_polled_at : ℕ → String → Db → Option (Unit {0} × Db)
update_device_code_last_polled_at at id d = some (
  tt,
  set_device d
      (update (λ r. str_eq r.id id) (λ r. record r { last_polled_at = some at }) d.device_codes),
)

unfoldable pub update_device_code_state_consumed_by_id : String → Db → Option (Unit {0} × Db)
update_device_code_state_consumed_by_id id d = some (
  tt,
  set_device d (update (λ r. str_eq r.id id) (λ r. record r { state = "consumed" }) d.device_codes),
)

-- The expiry is compared with `auth_time`.
abbrev pub approvable : String → ℕ → DeviceRow → Bool
approvable user_code auth_time r =
    str_eq r.user_code user_code && str_eq r.state "pending" && ltb auth_time r.expires_at

unfoldable pub approve_device_code_by_user_code : String → ℕ → String → Db → Option (ℕ × Db)
approve_device_code_by_user_code subject auth_time user_code d = some (
  count (approvable user_code auth_time) d.device_codes,
  set_device d (
      update (approvable user_code auth_time)
        (λ r. record r { state = "approved"; subject = some subject; auth_time = some auth_time })
        d.device_codes),
)

unfoldable pub deny_device_code_by_user_code : String → Db → Option (Unit {0} × Db)
deny_device_code_by_user_code user_code d = some (
  tt,
  set_device d (
      update (λ r. str_eq r.user_code user_code && str_eq r.state "pending")
        (λ r. record r { state = "denied" }) d.device_codes),
)
