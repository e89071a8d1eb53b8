-- ===== src/Service/Store.antt =====
-- internal/service/login_contract.go: the store that the services call, and what their handlers answer.
-- A store is any state with these operations. Nothing is assumed of what they return.
use authgate.Prelude.{ℕ, Bool, Option, List, String, Bytes, Result}
use authgate.Client.{Model}
use authgate.Storage.Db.{DeviceRow}
use authgate.Storage.Exec.{StoreError}
use authgate.Storage.Settings.{User, AuthRequestModel}
pub use authgate.Storage.Audit.{Value, text, bytes, flag}
use authgate.Service.Step.{Call}

pub record AuditEvent : Type 0 where
  pub user_id : Option String
  pub event_type : String
  pub ip_address : String
  pub user_agent : String
  pub metadata : List (String × Value)

-- What GetValidSession returns: an account that is closed comes with its error.
pub data SessionLookup : Type 0 where
  session : User → SessionLookup
  closed : User → SessionLookup
  no_session : StoreError → SessionLookup

-- `upstream.UserInfo`.
pub record UserInfo : Type 0 where
  pub sub : String
  pub email : Bytes
  pub email_verified : Bool
  pub name : String
  pub hosted_domain : Bytes

-- `storage.CreateUserWithIdentityInput`.
pub record NewUser : Type 0 where
  pub email : Bytes
  pub email_verified : Bool
  pub name : String
  pub provider : String
  pub provider_user_id : String
  pub hosted_domain : Bytes

-- `LoginStore`, and the operations that DeviceStore has beyond it. ResolveClient gives `none` for an
-- error and for a nil client, which no caller tells apart. A time is in nanoseconds since the zero
-- time of Go.
pub record LoginStore (S : Type 0) : Type 0 where
  pub get_valid_session : String → Call S SessionLookup
  pub audit_log : AuditEvent → Call S (Unit {0})
  pub recover_user : String → Call S (Result StoreError (Unit {0}))
  pub complete_auth_request : String → String → ℕ → Call S (Result StoreError (Unit {0}))
  pub session_auth_time : String → Call S (Result StoreError ℕ)
  pub get_user_by_provider_identity : String → String → Call S (Result StoreError User)
  pub create_user_with_identity : NewUser → Call S (Result StoreError User)
  pub get_user_by_id : String → Call S (Result StoreError User)
  pub create_session : String → ℕ → Call S (Result StoreError String)
  pub get_auth_request_model : String → Call S (Result StoreError AuthRequestModel)
  pub resolve_client : String → Call S (Option Model)
  pub set_identity_hosted_domain : String → String → Bytes → Call S (Result StoreError (Unit {0}))
  pub get_device_code_by_user_code : String → Call S (Result StoreError DeviceRow)
  pub deny_device_code : String → Call S (Result StoreError (Unit {0}))
  pub approve_device_code : String → String → ℕ → Call S (Result StoreError (Unit {0}))

-- The fields of LoginService, MCPLoginService and DeviceService, and the libraries they call.
pub record Service (S : Type 0) : Type 0 where
  pub store : LoginStore S
  pub provider_name : String
  pub issuer : String
  pub session_ttl : ℕ
  pub now : Call S ℕ
  -- net/url: the parsed address with these query parameters set; `none` if it does not parse or is
  -- not absolute.
  pub with_query : String → List (String × String) → Option String

-- Where a request came from, as the HTTP handler passes it on.
pub record Origin : Type 0 where
  pub ip_address : String
  pub user_agent : String

pub data LoginAction : Type 0 where
  redirect_to_idp auto_approve error redirect_to_client : LoginAction

pub record LoginResult : Type 0 where
  pub action : LoginAction
  pub redirect_url : String
  pub auth_request_id : String
  pub upstream_prompt : String
  pub error_text : String
  pub error_code : ℕ

pub record CallbackResult : Type 0 where
  pub action : LoginAction
  pub redirect_url : String
  pub auth_request_id : String
  pub session_id : String
  pub error_text : String
  pub error_code : ℕ

abbrev pub no_login : LoginResult
no_login = record {
  action = redirect_to_idp;
  redirect_url = "";
  auth_request_id = "";
  upstream_prompt = "";
  error_text = "";
  error_code = 0;
}

abbrev pub login_error : String → ℕ → LoginResult
login_error message code = record no_login {
  action = error;
  error_text = message;
  error_code = code;
}

abbrev pub callback_result : LoginAction → String → String → String → ℕ → CallbackResult
callback_result act id opened message code = record {
  action = act;
  redirect_url = "";
  auth_request_id = id;
  session_id = opened;
  error_text = message;
  error_code = code;
}

abbrev pub callback_error : String → ℕ → CallbackResult
callback_error message code = callback_result error "" "" message code
