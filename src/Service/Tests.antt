-- ===== src/Service/Tests.antt =====
-- A small store that keeps a log of the calls that change it, for runs of the services.
mod Runs
mod Examples
use authgate.Prelude.{
  ℕ, ◌+◌, ◌*◌, ◌≤◌, ◌<◌, ◌≡◌, ◌≢◌, ◌↔◌, refl, Bool, true, false, Option, none, some, List, [], ◌∷◌,
  ◌++◌, String, codes, bytes_eq, str_eq, if◌then◌else◌, Result, ok, err, inl, inr, arith,
}
use authgate.Client.{Model}
use authgate.ClientAccess.{Policy, not_allowed, evaluate, restricted, matches_email}
use authgate.ClientAccess.Normalize.{email_domain, ascii_lower}
use authgate.Strings.{split_last}
use authgate.DomainName.{valid}
use authgate.Storage.Db.{DeviceRow}
use authgate.Storage.Exec.{StoreError, not_found}
use authgate.Storage.Settings.{User, AuthRequestModel}
use authgate.Service.Step.{Call, returns, call, ◌>>=◌}
use authgate.Service.Store.{
  LoginStore, Service, Origin, UserInfo, SessionLookup, session, no_session, LoginResult,
  LoginAction, no_login, login_error, auto_approve, redirect_to_idp, redirect_to_client,
  callback_result, callback_error,
}
use authgate.Service.Access.{
  check_client_access, check_existing_account_access, record_hosted_domain, resolve_client_name,
}
use authgate.Service.Request.{
  prompt_silent, login_prompt_mode, session_too_old_for_max_age, prompt_mode_from,
  redirect_to_provider_selecting_account, second, access_denied_redirect, callback_result_from,
  complete_reused_session_login, login_required, max_age_exceeded, verify_auth_request_channel,
  authorization_error_redirect,
}
use authgate.Service.Login.{
  handle_login, login_with, handle_session_login, handle_existing_session, account_inactive,
  recover_access,
}
use authgate.Service.Mcp.{
  handle_mcp_login, mcp_login_with, session_login, reuse_session, complete_mcp_login,
  check_mcp_user, finish_mcp_login,
}
use authgate.Service.Callback.{
  complete_browser_login, prepare_browser_callback_user, prepare_existing_user, prepare_new_user,
  signup_browser_user, ensure_browser_access, finish_browser_login,
}
use authgate.Service.Device.{
  complete_device_login, check_callback_code, find_device_callback_user, ensure_device_access,
  ensure_device_callback_client_access, handle_device_page, validate_device_page, page, page_error,
  show_approve, redirect_back,
}
use authgate.Service.Device.Approval.{
  handle_device_approve, approve_code, deny_code, load_device_audit_context, not_approved,
}
use authgate.Service.Prompts.{
  handle_login-silent, handle_login-interactive, login_prompt_mode_lem, mode_of,
}
use authgate.Service.Recovery.{with_recover, handle_login-silent_recover}
use authgate.Service.Approved.{Reuses, handle_login-approved}
use authgate.Service.Approved.Mcp.{handle_mcp_login-approved}
use authgate.Service.Signup.{MayFinish, complete_browser_login-approved}
use authgate.Service.Refused.{
  complete_browser_login-refused_signup, handle_existing_session-refused,
}
use authgate.Service.DeviceApproved.{MayApprove, handle_device_approve-approved}
use authgate.Service.MaxAge.{session_too_old_for_max_age_iff, session_too_old_for_max_age_large}

abbrev pub Log : Type 0
Log = List String

abbrev pub alice : User
alice = record {
  id = "alice";
  email = codes "alice@example.com";
  email_verified = true;
  name = "Alice";
  status = "active";
  hosted_domain = [];
}

abbrev pub leaving : User
leaving = record alice { id = "leaving"; status = "pending_deletion" }

-- Admits the addresses of example.com.
abbrev pub policy : Policy
policy = record {
  is_public = false;
  hosted_domains = [];
  email_domains = codes "example.com" ∷ [];
  emails = [];
  deny_emails = [];
}

abbrev pub client : String → Model
client channel = record {
  id = channel;
  secret_hash = none;
  kind = "public";
  login_channel = channel;
  name = "Client";
  redirect_uri_list = [];
  allowed_scope_list = "openid" ∷ [];
  allowed_grant_type_list = "authorization_code" ∷ [];
  skip_pkce = false;
  uuid = "";
  url = "";
  id_token_userinfo_assertion = false;
  access = some policy;
}

abbrev pub request : String → List String → AuthRequestModel
request channel prompt = record {
  id = "request";
  client_id = channel;
  resource = "https://api.example.com";
  redirect_uri = "https://app.example.com/callback";
  scopes = "openid" ∷ [];
  state = "xyz";
  nonce = "";
  code_challenge = "challenge";
  code_challenge_method = "S256";
  prompt = prompt;
  max_age = some 60;
  subject = "";
  auth_time = none;
  is_done = false;
  code = none;
  expires_at = 1000;
  created_at = 0;
}

abbrev pub find_request : String → Result StoreError AuthRequestModel
find_request id =
    if str_eq id "browser"
    then ok (request "browser" [])
    else if str_eq id "mcp"
    then ok (request "mcp" [])
    else if str_eq id "silent"
    then ok (request "browser" ("none" ∷ []))
    else if str_eq id "login"
    then ok (request "browser" ("login" ∷ []))
    else err not_found

abbrev pub find_session : String → SessionLookup
find_session id =
    if str_eq id "alice"
    then session alice
    else if str_eq id "leaving"
    then session leaving
    else no_session not_found

abbrev pub device_code : DeviceRow
device_code = record {
  id = "device";
  device_code = "";
  user_code = "ABCD";
  client_id = "device";
  scopes = "openid" ∷ [];
  state = "pending";
  subject = none;
  expires_at = 500 * second;
  auth_time = none;
  last_polled_at = none;
  created_at = 0;
}

abbrev pub noted : {A : Type 0} → String → A → Call Log A
noted entry a log = (a, log ++ entry ∷ [])

abbrev pub silently : {A : Type 0} → A → Call Log A
silently a log = (a, log)

abbrev pub small_store : LoginStore Log
small_store = record {
  get_valid_session = λ id. silently (find_session id);
  audit_log = λ event. noted event.event_type tt;
  recover_user = λ id. noted "recover" (ok tt);
  complete_auth_request = λ id user_id at. noted "complete" (ok tt);
  session_auth_time = λ id. silently (ok (100 * second));
  get_user_by_provider_identity =
      λ provider sub. silently (if str_eq sub "alice" then ok alice else err not_found);
  create_user_with_identity = λ input. noted "create" (ok alice);
  get_user_by_id = λ id. silently (ok alice);
  create_session = λ user_id ttl. noted "session" (ok "new");
  get_auth_request_model = λ id. silently (find_request id);
  resolve_client = λ id. silently (some (client id));
  set_identity_hosted_domain = λ provider sub domain. noted "hosted domain" (ok tt);
  get_device_code_by_user_code = λ code. silently (ok device_code);
  deny_device_code = λ code. noted "deny" (ok tt);
  approve_device_code = λ code subject at. noted "approve" (ok tt);
}

abbrev pub small : Service Log
small = record {
  store = small_store;
  provider_name = "google";
  issuer = "https://auth.example.com";
  session_ttl = 3600;
  now = silently (130 * second);
  with_query = λ uri parameters. some uri;
}

abbrev pub from : Origin
from = record { ip_address = "192.0.2.1"; user_agent = "test" }

abbrev pub info_of : String → String → UserInfo
info_of sub email = record {
  sub = sub;
  email = codes email;
  email_verified = true;
  name = "";
  hosted_domain = [];
}

abbrev pub approved : LoginResult
approved = record no_login { action = auto_approve; auth_request_id = "request" }

-- All that a run calls.
pub evaluated : Unit {0}
unfolding handle_login login_with handle_session_login handle_existing_session account_inactive
    recover_access handle_mcp_login mcp_login_with session_login reuse_session
    complete_browser_login prepare_browser_callback_user prepare_existing_user prepare_new_user
    signup_browser_user ensure_browser_access finish_browser_login complete_mcp_login check_mcp_user
    finish_mcp_login complete_device_login check_callback_code find_device_callback_user
    ensure_device_access ensure_device_callback_client_access handle_device_page
    validate_device_page handle_device_approve approve_code deny_code load_device_audit_context
    record_hosted_domain check_existing_account_access check_client_access resolve_client_name
    complete_reused_session_login login_required max_age_exceeded verify_auth_request_channel
    authorization_error_redirect session_too_old_for_max_age prompt_mode_from evaluate restricted
    matches_email email_domain bytes_eq ascii_lower split_last valid call ◌>>=◌
evaluated = tt

abbrev pub answered : LoginAction → String → LoginResult
answered act url = record no_login { action = act; auth_request_id = "request"; redirect_url = url }
