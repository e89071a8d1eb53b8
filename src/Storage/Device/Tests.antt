-- ===== src/Storage/Device/Tests.antt =====
-- A device code that is approved and polled twice.
use authgate.Prelude.{◌≡◌, refl, true, false, none, some, [], ◌∷◌, ok, err}
use authgate.Client.{Model, core_validate_token, static_access, load}
use authgate.ClientAccess.{restricted}
use authgate.Storage.Db.{Db, DeviceRow}
use authgate.Storage.Rows.{find, count, update}
use authgate.Storage.Exec.{
  oauth, other, slow_down, ◌>>=◌, query, autocommit, begin, commit, in_tx, map_err,
}
use authgate.Storage.Settings.{Settings, DeviceState}
use authgate.Storage.Device.Tables.{
  get_device_authorization_for_update, update_device_code_last_polled_at,
  update_device_code_state_consumed_by_id, approve_device_code_by_user_code,
  deny_device_code_by_user_code,
}
use authgate.Storage.Device.{
  resolve_device_authorization_state, load_device_authorization_for_update, throttle, check_subject,
  check_approved, get_device_authorization_state, approve_device_code, deny_device_code, unset,
}
use authgate.Storage.Device.Polls.{IsOnly}
use authgate.Storage.Device.Once.{at_rest, get_device_authorization_state-once}

-- All that a run calls.
evaluated : Unit {0}
unfolding get_device_authorization_state resolve_device_authorization_state
    load_device_authorization_for_update throttle check_subject check_approved approve_device_code
    deny_device_code get_device_authorization_for_update update_device_code_last_polled_at
    update_device_code_state_consumed_by_id approve_device_code_by_user_code
    deny_device_code_by_user_code find count update ◌>>=◌ query autocommit begin commit in_tx
    map_err static_access restricted load
evaluated = tt

abbrev web : Model
web = record {
  id = "web";
  secret_hash = some "hash";
  kind = "confidential";
  login_channel = "browser";
  name = "Web";
  redirect_uri_list = [];
  allowed_scope_list = "openid" ∷ [];
  allowed_grant_type_list = "authorization_code" ∷ [];
  skip_pkce = false;
  uuid = "";
  url = "";
  id_token_userinfo_assertion = false;
  access = none;
}

abbrev settings : Settings
settings = record {
  refresh_hash = λ t. t;
  code_hash = λ t. t;
  session_hash = λ t. t;
  uuid = λ n. "id";
  opaque_token = λ n. none;
  timestamptz = λ t. t;
  is_uuid = λ t. true;
  access_token_ttl = 900;
  refresh_token_ttl = 1000;
  device_poll_interval = 5;
  refresh_reuse_grace = 10;
  state_checker = none;
  registry = web ∷ [];
  resolve_client = λ id. none;
  validate_authorize_request = λ client requested. ok tt;
  validate_token_request = λ client stored requested. core_validate_token stored requested;
}

abbrev row : DeviceRow
row = record {
  id = "1";
  device_code = "device";
  user_code = "USER";
  client_id = "web";
  scopes = "openid" ∷ [];
  state = "pending";
  subject = none;
  expires_at = 900;
  auth_time = none;
  last_polled_at = none;
  created_at = 0;
}

abbrev tables : DeviceRow → Db
tables r = record {
  users = [];
  identities = [];
  refresh_tokens = [];
  families = [];
  auth_requests = [];
  sessions = [];
  device_codes = r ∷ [];
  audit_log = [];
}

abbrev approved : DeviceRow
approved = record row { state = "approved"; subject = some "user"; auth_time = some 10 }

-- Approval, also of a code that has expired since the session began, and polls in each state.
approvals :
    (((approve_device_code settings "USER" "user" 10 (at_rest (tables row) 20 0 [])).1).db
      ≡ tables approved)
    × (((approve_device_code settings "USER" "user" 10 (at_rest (tables row) 1000 0 [])).1).db
        ≡ tables approved)
    × ((approve_device_code settings "USER" "user" 10 (at_rest (tables approved) 20 0 [])).0
        ≡ err (other "device code not found, expired, or already processed"))
unfolding evaluated
approvals = (refl, refl, refl)

polls :
    ((get_device_authorization_state settings "web" "device"
        (at_rest (tables (record row { last_polled_at = some 18 })) 20 0 [])).0
      ≡ err slow_down)
    × ((get_device_authorization_state settings "web" "device"
          (at_rest (tables (record row { state = "denied" })) 20 0 [])).0
        ≡ ok (record (unset row) { denied = true }))
    × ((get_device_authorization_state settings "web" "device"
          (at_rest (tables (record row { state = "consumed" })) 20 0 [])).0
        ≡ err (oauth "invalid_grant"))
    × ((get_device_authorization_state settings "web" "device"
          (at_rest (tables approved) 901 0 [])).0
        ≡ ok (unset approved))
unfolding evaluated
polls = (refl, refl, refl, refl)

abbrev grant : DeviceState
grant = record {
  client_id = "web";
  scopes = "openid" ∷ [];
  expires = 900;
  is_done = true;
  denied = false;
  subject = "user";
  auth_time = 10;
}

granted :
    (get_device_authorization_state settings "web" "device" (at_rest (tables approved) 20 0 [])).0
    ≡ ok grant
unfolding evaluated
granted = refl

abbrev polled_row : DeviceRow
polled_row = record approved { state = "consumed"; last_polled_at = some 20 }

left :
    (tables polled_row).device_codes
    ≡ ((get_device_authorization_state settings "web" "device"
        (at_rest (tables approved) 20 0 [])).1
      ).db.device_codes
unfolding evaluated
left = refl

-- A second poll that is answered at all: the code has expired.
answered :
    (get_device_authorization_state settings "web" "device"
      (at_rest (tables polled_row) 901 0 (false ∷ []))).0
    ≡ ok (unset polled_row)
unfolding evaluated
answered = refl

only : IsOnly "device" "web" "1" (tables approved).device_codes
only = ((λ e. refl), tt)

get_device_authorization_state-once_example : (unset polled_row).is_done ≡ false
get_device_authorization_state-once_example =
    get_device_authorization_state-once settings "web" "device" "1" (tables approved)
      (tables polled_row) 20 901 0 0 [] (false ∷ []) grant (unset polled_row) only granted refl left
      answered
