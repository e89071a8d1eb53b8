-- ===== src/Storage/Device.antt =====
-- internal/storage/storage_oidc_device.go: device authorization, from the request of a code to the poll
-- that consumes it.
pub mod Tables
pub mod Polls
pub mod Resolved
pub mod Once
mod Tests
use authgate.Prelude.{
  ℕ, ◌-◌, Bool, true, false, not, ◌&&◌, ◌||◌, Option, none, some, List, [], ◌∷◌, String, str_eq,
  ltb, ◌==◌, if◌then◌else◌,
}
use authgate.Client.{static_access}
use authgate.ClientAccess.{restricted}
use authgate.Storage.Db.{Db, DeviceRow, AuditRow}
use authgate.Storage.Rows.{is_none}
use authgate.Storage.Exec.{
  StoreError, not_found, oauth, other, slow_down, Exec, pure, fail, query, autocommit, ◌>>=◌, ◌>>◌,
  commit, in_tx, audit_log, now, take_id, or_fail, guard, map_err,
}
use authgate.Storage.Settings.{Settings, DeviceState}
use authgate.Storage.Users.{get_user_by_id, enforce_static_client_access, check_state}
use Tables.{
  insert_device_code, get_device_authorization_for_update, get_device_code_by_user_code,
  update_device_code_last_polled_at, update_device_code_state_consumed_by_id,
  approve_device_code_by_user_code, deny_device_code_by_user_code,
}

-- `now.Sub(last) < interval`, also for a clock that went back.
abbrev pub polled_within : ℕ → ℕ → Option ℕ → Bool
polled_within interval at none = false
polled_within interval at (some last) = ltb at last || ltb (at - last) interval

abbrev text : Option String → String
text none = ""
text (some t) = t

abbrev time : Option ℕ → ℕ
time none = 0
time (some t) = t

-- A state with nothing set but the expiry.
abbrev pub unset : DeviceRow → DeviceState
unset dc = record {
  client_id = "";
  scopes = [];
  expires = dc.expires_at;
  is_done = false;
  denied = false;
  subject = "";
  auth_time = 0;
}

-- `toApprovedDeviceAuthorizationState`.
abbrev pub to_approved : DeviceRow → DeviceState
to_approved dc = record {
  client_id = dc.client_id;
  scopes = dc.scopes;
  expires = dc.expires_at;
  is_done = true;
  denied = false;
  subject = text dc.subject;
  auth_time = time dc.auth_time;
}

-- `resolveDeviceAuthorizationState`.
unfoldable pub resolve_device_authorization_state : DeviceRow → ℕ → Exec DeviceState
resolve_device_authorization_state dc at =
    if ltb dc.expires_at at
    then commit >> pure (unset dc)
    else if str_eq dc.state "denied"
    then commit >> pure (record (unset dc) { denied = true })
    else if str_eq dc.state "approved"
    then query (update_device_code_state_consumed_by_id dc.id) >> (commit >> pure (to_approved dc))
    else if str_eq dc.state "consumed"
    then commit >> fail (oauth "invalid_grant")
    else commit >> pure (record (unset dc) { client_id = dc.client_id; scopes = dc.scopes })

-- `loadDeviceAuthorizationForUpdate`.
unfoldable pub load_device_authorization_for_update : String → String → Exec DeviceRow
load_device_authorization_for_update client_id device_code = do
  found ← query (get_device_authorization_for_update device_code client_id)
  or_fail found not_found

module _ (s : Settings) where
  -- The poll interval, which a finished code is not held to.
  unfoldable pub throttle : DeviceRow → ℕ → Exec (Unit {0})
  throttle dc at = if str_eq dc.state "denied" || str_eq dc.state "consumed" then pure tt else (do
    query (update_device_code_last_polled_at at dc.id)
    if polled_within s.device_poll_interval at dc.last_polled_at && str_eq dc.state "pending"
        then commit >> fail slow_down
        else pure tt)

  unfoldable pub check_subject : DeviceRow → String → Exec (Unit {0})
  check_subject dc subject = do
    user ← map_err (λ e. oauth "invalid_grant") (get_user_by_id subject)
    check_state s.state_checker user
    enforce_static_client_access (static_access s.registry dc.client_id) dc.client_id user

  -- The checks of an approved code.
  unfoldable pub check_approved : DeviceRow → Option String → Exec (Unit {0})
  check_approved dc none = pure tt
  check_approved dc (some subject) =
      if str_eq dc.state "approved"
        && (not (is_none s.state_checker) || restricted (static_access s.registry dc.client_id))
      then check_subject dc subject
      else pure tt

  -- `GetDeviceAuthorizatonState`.
  unfoldable pub get_device_authorization_state : String → String → Exec DeviceState
  get_device_authorization_state client_id device_code = in_tx (do
    dc ← load_device_authorization_for_update client_id (s.code_hash device_code)
    at ← now
    throttle dc at
    check_approved dc dc.subject
    resolve_device_authorization_state dc at)

  abbrev issued_row : String → ℕ → AuditRow
  issued_row client_id at = record {
    user_id = none;
    event_type = "auth.device_code_issued";
    about = client_id;
    outcome = "";
    created_at = at;
  }

  abbrev pending_row : String → String → String → String → ℕ → List String → ℕ → DeviceRow
  pending_row id client_id device_code user_code expires scopes at = record {
    id = id;
    device_code = device_code;
    user_code = user_code;
    client_id = client_id;
    scopes = scopes;
    state = "pending";
    subject = none;
    expires_at = expires;
    auth_time = none;
    last_polled_at = none;
    created_at = at;
  }

  -- `StoreDeviceAuthorization`.
  unfoldable pub store_device_authorization :
      String → String → String → ℕ → List String → Exec (Unit {0})
  store_device_authorization client_id device_code user_code expires scopes = do
    n ← take_id
    at ← now
    autocommit (
        insert_device_code (
          pending_row (s.uuid n) client_id (s.code_hash device_code) (s.code_hash user_code) expires
            scopes at))
    audit_log (issued_row client_id at)

  -- `GetDeviceCodeByUserCode`, with the codes that it was given.
  unfoldable pub get_device_code : String → Exec DeviceRow
  get_device_code user_code = do
    found ← autocommit (get_device_code_by_user_code (s.code_hash user_code))
    row ← or_fail found not_found
    pure (record row { device_code = ""; user_code = user_code; last_polled_at = none })

  -- `ApproveDeviceCode`; a zero `auth_time` is replaced by now.
  unfoldable pub approve_device_code : String → String → ℕ → Exec (Unit {0})
  approve_device_code user_code subject auth_time = do
    at ← now
    rows ← autocommit (
        approve_device_code_by_user_code subject (if auth_time == 0 then at else auth_time)
          (s.code_hash user_code))
    guard (not (rows == 0)) (other "device code not found, expired, or already processed")

  -- `DenyDeviceCode`.
  unfoldable pub deny_device_code : String → Exec (Unit {0})
  deny_device_code user_code = autocommit (deny_device_code_by_user_code (s.code_hash user_code))
