-- ===== src/Service/Device.antt =====
-- internal/service/device.go: the pages of the device flow and its callback.
pub mod Approval
use authgate.Prelude.{
  ℕ, Bool, true, false, not, Option, none, some, List, [], ◌∷◌, String, str_eq, if◌then◌else◌, ltb,
  Result, ok, err,
}
use authgate.Client.{Model}
use authgate.Storage.Db.{DeviceRow}
use authgate.Storage.Exec.{StoreError, not_found}
use authgate.Storage.Settings.{User, access_subject}
use authgate.Service.Step.{Step, call, answer, answer_if, run_if, or_answer, pure, ◌>>=◌, ◌>>◌}
use authgate.Service.Store.{
  Value, text, SessionLookup, session, closed, no_session, Service, Origin, UserInfo,
  CallbackResult,
}
use authgate.Service.Access.{
  check_access, is_allow, audit, resolve_client_name, check_client_access,
  check_existing_account_access, record_hosted_domain,
}
use authgate.Service.Login.{audit_inactive_user}

pub data DeviceAction : Type 0 where
  show_entry show_approve show_result redirect_idp redirect_back device_error : DeviceAction

-- The CSRF token is set by the HTTP handler.
pub record DevicePageResult : Type 0 where
  pub action : DeviceAction
  pub user_code : String
  pub session_id : String
  pub error_text : String
  pub error_code : ℕ

abbrev pub page : DeviceAction → String → String → DevicePageResult
page act code opened = record {
  action = act;
  user_code = code;
  session_id = opened;
  error_text = "";
  error_code = 0;
}

abbrev pub page_error : String → ℕ → DevicePageResult
page_error message code = record (page device_error "" "") {
  error_text = message;
  error_code = code;
}

abbrev pub entry_error : String → DevicePageResult
entry_error message = record (page show_entry "" "") { error_text = message }

abbrev pub device_access_denied_message : String
device_access_denied_message =
    "This account is not allowed to use this application. You can close this window."

-- The error of a page that loads the device code.
abbrev entry_load_error : StoreError → DevicePageResult
entry_load_error not_found = entry_error "Invalid code. Please check and try again."
entry_load_error e = page_error "internal_error" 500

abbrev callback_load_error : StoreError → DevicePageResult
callback_load_error not_found = page_error "invalid_request" 400
callback_load_error e = page_error "internal_error" 500

abbrev find_error : StoreError → DevicePageResult
find_error not_found = page_error "account_not_found: please sign up via browser first" 403
find_error e = page_error "internal_error" 500

module _ {S : Type 0} (service : Service S) (origin : Origin) where
  open service use {store, provider_name, session_ttl, now}

  -- `validateDevicePage`.
  unfoldable pub validate_device_page : String → Step S DevicePageResult (Unit {0})
  validate_device_page user_code = do
    found ← call (store.get_device_code_by_user_code user_code)
    dc ← or_answer found entry_load_error
    at ← call now
    answer_if (ltb dc.expires_at at)
        (entry_error "This code has expired. Please request a new one.")
    answer_if (not (str_eq dc.state "pending")) (entry_error "This code has already been used.")

  -- `ensureDeviceSessionAccess` and `ensureDeviceCallbackAccess`.
  unfoldable pub ensure_device_access : User → Step S DevicePageResult (Unit {0})
  ensure_device_access user = run_if (not (is_allow (check_access user.status "device"))) (do
    audit_inactive_user service origin "device" user
    answer (page_error "account_inactive" 403))

  abbrev page_of_session : String → SessionLookup → Step S DevicePageResult (Unit {0})
  page_of_session user_code (no_session not_found) = answer (page redirect_idp user_code "")
  page_of_session user_code (no_session e) = answer (page_error "internal_error" 500)
  page_of_session user_code (closed user) = ensure_device_access user
  page_of_session user_code (session user) = do
    ensure_device_access user
    answer (page show_approve user_code "")

  -- `HandleDevicePage`; going on is its nil.
  unfoldable pub handle_device_page : String → String → Step S DevicePageResult (Unit {0})
  handle_device_page user_code session_id = do
    answer_if (str_eq user_code "") (page show_entry "" "")
    validate_device_page user_code
    answer_if (str_eq session_id "") (page redirect_idp user_code "")
    found ← call (store.get_valid_session session_id)
    page_of_session user_code found

  -- The checks of `CompleteDeviceLogin` on the code.
  unfoldable pub check_callback_code : String → Step S DevicePageResult DeviceRow
  check_callback_code user_code = do
    found ← call (store.get_device_code_by_user_code user_code)
    dc ← or_answer found callback_load_error
    at ← call now
    answer_if (ltb dc.expires_at at) (page_error "invalid_request" 400)
    answer_if (not (str_eq dc.state "pending")) (page_error "invalid_request" 400)
    pure dc

  -- `findDeviceCallbackUser`.
  unfoldable pub find_device_callback_user : String → Step S DevicePageResult User
  find_device_callback_user sub = do
    found ← call (store.get_user_by_provider_identity provider_name sub)
    or_answer found find_error

  abbrev admit_to : Option Model → User → UserInfo → Step S DevicePageResult (Unit {0})
  admit_to none user info = pure tt
  admit_to (some client) user info = do
    admitted ← check_existing_account_access service origin client "device" user info
    answer_if (not admitted) (page_error device_access_denied_message 403)

  -- `ensureDeviceCallbackClientAccess`.
  unfoldable pub ensure_device_callback_client_access :
      String → User → UserInfo → Step S DevicePageResult (Unit {0})
  ensure_device_callback_client_access client_id user info = do
    client ← call (store.resolve_client client_id)
    admit_to client user info

  abbrev of_callback : CallbackResult → DevicePageResult
  of_callback r = page_error r.error_text r.error_code

  abbrev complete_with : String → Option UserInfo → Step S DevicePageResult (Unit {0})
  complete_with user_code none = answer (page_error "invalid_request" 400)
  complete_with user_code (some info) = do
    dc ← check_callback_code user_code
    found ← find_device_callback_user info.sub
    user ← record_hosted_domain service origin of_callback info found
    ensure_device_access user
    ensure_device_callback_client_access dc.client_id user info
    created ← call (store.create_session user.id session_ttl)
    session_id ← or_answer created (λ e. page_error "session creation failed" 500)
    client_name ← resolve_client_name service origin dc.client_id
    audit service origin (some user.id) "auth.login" (
        ("channel", text "device")
        ∷ ("session_id", text session_id)
        ∷ ("client_id", text dc.client_id)
        ∷ ("client_name", text client_name)
        ∷ [])
    answer (page redirect_back user_code session_id)

  -- `CompleteDeviceLogin`; `none` is a nil identity.
  unfoldable pub complete_device_login :
      String → Option UserInfo → Step S DevicePageResult (Unit {0})
  complete_device_login user_code info = do
    answer_if (str_eq user_code "") (page_error "invalid_request" 400)
    complete_with user_code info
