-- ===== src/Service/Request.antt =====
-- internal/service/prompt.go and login_request.go: what the login and callback handlers of the
-- browser and mcp channels share.
use authgate.Prelude.{
  ℕ, ◌-◌, ◌/◌, min, Bool, true, false, not, Option, none, some, List, [], ◌∷◌, ◌++◌, String, str_eq,
  if◌then◌else◌, ltb, ◌==◌,
}
use authgate.Client.{Model}
use authgate.Storage.Exec.{StoreError, not_found, oauth}
use authgate.Storage.Settings.{User, AuthRequestModel}
use authgate.Service.Step.{Step, call, answer, or_answer, pure, ◌>>=◌, ◌>>◌}
use authgate.Service.Store.{
  text, flag, Service, Origin, LoginResult, CallbackResult, no_login, login_error, callback_error,
  callback_result, redirect_to_client, auto_approve,
}
use authgate.Service.Access.{audit, audit_if, lifecycle_audit_metadata}

-- `promptMode`.
pub data PromptMode : Type 0 where
  prompt_default prompt_silent prompt_interactive : PromptMode

abbrev pub is_interactive : PromptMode → Bool
is_interactive prompt_default = false
is_interactive prompt_silent = false
is_interactive prompt_interactive = true

abbrev pub is_silent : PromptMode → Bool
is_silent prompt_default = false
is_silent prompt_silent = true
is_silent prompt_interactive = false

-- The loop of `loginPromptMode`, with the mode so far.
unfoldable pub prompt_mode_from : PromptMode → List String → PromptMode
prompt_mode_from mode [] = mode
prompt_mode_from mode (value ∷ prompt) =
    let rest = prompt_mode_from mode prompt in
    let rest_interactive = prompt_mode_from prompt_interactive prompt in
    if str_eq value "none"
    then prompt_silent
    else if str_eq value "login"
    then rest_interactive
    else if str_eq value "select_account"
    then rest_interactive
    else rest

-- `loginPromptMode`.
abbrev pub login_prompt_mode : List String → PromptMode
login_prompt_mode prompt = prompt_mode_from prompt_default prompt

-- The largest Duration, in nanoseconds, at which `Sub` stops.
abbrev pub max_duration : ℕ
max_duration = 9223372036854775807

abbrev pub second : ℕ
second = 1000000000

-- `sessionTooOldForMaxAge`. The zero time is 0.
unfoldable pub session_too_old_for_max_age : Option ℕ → ℕ → ℕ → Bool
session_too_old_for_max_age none auth_time now = false
session_too_old_for_max_age (some max_age) auth_time now =
    if auth_time == 0
    then true
    else if ltb now auth_time
    then false
    else ltb max_age (min (now - auth_time) max_duration / second)

-- `redirectToProviderSelectingAccount`.
abbrev pub redirect_to_provider_selecting_account : String → LoginResult
redirect_to_provider_selecting_account id = record no_login {
  auth_request_id = id;
  upstream_prompt = "select_account";
}

-- The answer of `loadLoginAuthRequest` to an error of the store.
abbrev pub load_login_error : StoreError → LoginResult
load_login_error not_found = login_error "auth_request_not_found" 400
load_login_error (oauth e) = login_error "auth_request_expired" 400
load_login_error e = login_error "internal_error" 500

-- The answer of `loadCallbackAuthRequest` to an error of the store.
abbrev pub load_callback_error : StoreError → CallbackResult
load_callback_error not_found = callback_error "auth_request_not_found" 400
load_callback_error e = callback_error "internal_error" 500

abbrev state_parameter : String → List (String × String)
state_parameter state = if str_eq state "" then [] else ("state", state) ∷ []

abbrev pub redirect_result : String → Option String → LoginResult
redirect_result id none = login_error "internal_error" 500
redirect_result id (some url) = record no_login {
  action = redirect_to_client;
  auth_request_id = id;
  redirect_url = url;
}

-- `callbackResultFrom`.
abbrev pub callback_result_from : LoginResult → CallbackResult
callback_result_from r =
    record (callback_result r.action r.auth_request_id "" r.error_text r.error_code) {
      redirect_url = r.redirect_url;
    }

module _ {S : Type 0} (service : Service S) where
  open service use {issuer, with_query}

  -- `authorizationErrorRedirect`.
  unfoldable pub authorization_error_redirect : AuthRequestModel → String → LoginResult
  authorization_error_redirect auth_req error_code = redirect_result auth_req.id (
      with_query auth_req.redirect_uri
        (("error", error_code) ∷ (state_parameter auth_req.state ++ ("iss", issuer) ∷ [])))

  -- `accessDeniedRedirect`.
  abbrev pub access_denied_redirect : AuthRequestModel → LoginResult
  access_denied_redirect auth_req = authorization_error_redirect auth_req "access_denied"

module _ {S R : Type 0} (service : Service S) (origin : Origin) (on_error : String → ℕ → R) where
  open service use {store}

  -- `loadLoginAuthRequest` and `loadCallbackAuthRequest`, which differ in their answers to errors.
  abbrev pub load_auth_request : (StoreError → R) → String → Step S R AuthRequestModel
  load_auth_request failed id = do
    found ← call (store.get_auth_request_model id)
    or_answer found failed

  abbrev pub verify_channel :
      Option Model → AuthRequestModel → String → Option String → Step S R Model
  verify_channel none auth_req expected user_id = answer (on_error "internal_error" 500)
  verify_channel (some client) auth_req expected user_id =
      if not (str_eq client.login_channel expected)
      then (do
        audit service origin user_id "auth.channel_mismatch" (
            ("expected_channel", text expected)
            ∷ ("actual_channel", text client.login_channel)
            ∷ ("client_id", text auth_req.client_id)
            ∷ ("client_name", text client.name)
            ∷ [])
        answer (on_error "channel_mismatch" 400))
      else pure client

  -- `verifyAuthRequestChannel`, with its caller's answer to a mismatch or an error.
  unfoldable pub verify_auth_request_channel :
      AuthRequestModel → String → Option String → Step S R Model
  verify_auth_request_channel auth_req expected user_id = do
    client ← call (store.resolve_client auth_req.client_id)
    verify_channel client auth_req expected user_id

module _ {S A : Type 0} (service : Service S) (origin : Origin) (channel : String) where
  open service use {store}

  -- `loginRequired`.
  unfoldable pub login_required : AuthRequestModel → Step S LoginResult A
  login_required auth_req = do
    client ← verify_auth_request_channel service origin login_error auth_req channel none
    answer (authorization_error_redirect service auth_req "login_required")

  -- `maxAgeExceeded`.
  unfoldable pub max_age_exceeded : AuthRequestModel → PromptMode → Step S LoginResult A
  max_age_exceeded auth_req mode =
      if is_silent mode
      then login_required auth_req
      else answer (redirect_to_provider_selecting_account auth_req.id)

  -- `completeReusedSessionLogin`.
  unfoldable pub complete_reused_session_login :
      String → User → AuthRequestModel → ℕ → String → Bool → Step S LoginResult A
  complete_reused_session_login client_name user auth_req auth_time session_id recovered = do
    audit_if service origin recovered (some user.id) "auth.deletion_cancelled"
        (lifecycle_audit_metadata channel session_id auth_req.client_id client_name)
    completed ← call (store.complete_auth_request auth_req.id user.id auth_time)
    done ← or_answer completed (λ e. login_error "failed to complete auth request" 500)
    audit service origin (some user.id) "auth.login" (
        ("channel", text channel)
        ∷ ("session_id", text session_id)
        ∷ ("client_id", text auth_req.client_id)
        ∷ ("client_name", text client_name)
        ∷ ("reused_session", flag true)
        ∷ [])
    answer (record no_login { action = auto_approve; auth_request_id = auth_req.id })
