-- ===== src/Service/Login.antt =====
-- internal/service/login.go: GET /login of the browser channel.
use authgate.Prelude.{ℕ, Bool, true, false, not, some, [], ◌∷◌, String, str_eq, if◌then◌else◌}
use authgate.Storage.Settings.{User, AuthRequestModel, access_subject}
use authgate.Service.Step.{Step, call, answer, answer_if, run_if, or_answer, pure, ◌>>=◌, ◌>>◌}
use authgate.Service.Store.{
  text, SessionLookup, session, closed, no_session, Service, Origin, LoginResult, no_login,
  login_error,
}
use authgate.Service.Access.{
  AccessResult, access_allow, access_recover, access_deny, check_access, audit, check_client_access,
}
use authgate.Service.Request.{
  PromptMode, prompt_silent, is_interactive, is_silent, login_prompt_mode,
  session_too_old_for_max_age, redirect_to_provider_selecting_account, load_login_error,
  authorization_error_redirect, access_denied_redirect, load_auth_request,
  verify_auth_request_channel, login_required, max_age_exceeded, complete_reused_session_login,
}
use authgate.Prelude.{Result, ok, err}
use authgate.Storage.Exec.{StoreError}

module _ {S : Type 0} (service : Service S) (origin : Origin) where
  open service use {store, now}

  -- `auditInactiveUser`.
  abbrev pub audit_inactive_user : {R : Type 0} → String → User → Step S R (Unit {0})
  audit_inactive_user channel user =
      audit service origin (some user.id) "auth.inactive_user"
        (("status", text user.status) ∷ ("channel", text channel) ∷ [])

  -- `accountInactive`, in the given channel.
  unfoldable pub account_inactive :
      {A : Type 0} → String → AuthRequestModel → PromptMode → Step S LoginResult A
  account_inactive channel auth_req mode =
      if is_silent mode
      then login_required service origin channel auth_req
      else answer (login_error "account_inactive" 403)

  abbrev recover : PromptMode → User → AuthRequestModel → Step S LoginResult Bool
  recover prompt_silent user auth_req = do
    audit_inactive_user "browser" user
    answer (authorization_error_redirect service auth_req "login_required")
  recover mode user auth_req = do
    recovered ← call (store.recover_user user.id)
    done ← or_answer recovered (λ e. login_error "failed to recover account" 500)
    pure true

  -- The recovery in `handleExistingSession`: whether the account was recovered.
  unfoldable pub recover_access :
      AccessResult → User → AuthRequestModel → PromptMode → Step S LoginResult Bool
  recover_access access_recover user auth_req mode = recover mode user auth_req
  recover_access access_allow user auth_req mode = pure false
  recover_access access_deny user auth_req mode = pure false

  -- The first guard of `handleExistingSession`.
  abbrev pub refuse_inactive :
      AccessResult → User → AuthRequestModel → PromptMode → Step S LoginResult (Unit {0})
  refuse_inactive access_deny user auth_req mode = do
    audit_inactive_user "browser" user
    account_inactive "browser" auth_req mode
  refuse_inactive access_recover user auth_req mode = pure tt
  refuse_inactive access_allow user auth_req mode = pure tt

  -- `handleExistingSession`.
  unfoldable pub handle_existing_session :
      User → AuthRequestModel → ℕ → PromptMode → String → Step S LoginResult (Unit {0})
  handle_existing_session user auth_req auth_time mode session_id = do
    refuse_inactive (check_access user.status "browser") user auth_req mode
    client ←
        verify_auth_request_channel service origin login_error auth_req "browser" (some user.id)
    admitted ←
        check_client_access service origin client "browser" (some user.id) (access_subject user)
          false
    answer_if (not admitted) (access_denied_redirect service auth_req)
    recovered ← recover_access (check_access user.status "browser") user auth_req mode
    complete_reused_session_login service origin "browser" client.name user auth_req auth_time
        session_id recovered

  -- `handleSessionLogin` after GetValidSession; going on is its nil.
  abbrev pub with_auth_time :
      User
      → AuthRequestModel
      → PromptMode
      → String
      → Result StoreError ℕ
      → Step S LoginResult (Unit {0})
  with_auth_time user auth_req mode session_id (err e) = pure tt
  with_auth_time user auth_req mode session_id (ok auth_time) = do
    at ← call now
    run_if (session_too_old_for_max_age auth_req.max_age auth_time at)
        (max_age_exceeded service origin "browser" auth_req mode)
    handle_existing_session user auth_req auth_time mode session_id

  abbrev pub with_session :
      AuthRequestModel → PromptMode → String → SessionLookup → Step S LoginResult (Unit {0})
  with_session auth_req mode session_id (closed user) = do
    audit_inactive_user "browser" user
    account_inactive "browser" auth_req mode
  with_session auth_req mode session_id (no_session e) = pure tt
  with_session auth_req mode session_id (session user) = do
    auth_time ← call (store.session_auth_time session_id)
    with_auth_time user auth_req mode session_id auth_time

  -- `handleSessionLogin`.
  unfoldable pub handle_session_login :
      AuthRequestModel → PromptMode → String → Step S LoginResult (Unit {0})
  handle_session_login auth_req mode session_id = if str_eq session_id "" then pure tt else (do
    found ← call (store.get_valid_session session_id)
    with_session auth_req mode session_id found)

  -- The end of `HandleLogin`, without a session that serves.
  abbrev pub sign_in :
      String → AuthRequestModel → PromptMode → String → Step S LoginResult (Unit {0})
  sign_in channel auth_req mode id =
      if is_silent mode
      then login_required service origin channel auth_req
      else answer (record no_login { auth_request_id = id })

  -- `HandleLogin` once the request is loaded.
  unfoldable pub login_with :
      AuthRequestModel → PromptMode → String → String → Step S LoginResult (Unit {0})
  login_with auth_req mode id session_id = do
    answer_if (is_interactive mode) (redirect_to_provider_selecting_account id)
    handle_session_login auth_req mode session_id
    sign_in "browser" auth_req mode id

  -- `HandleLogin`.
  unfoldable pub handle_login : String → String → Step S LoginResult (Unit {0})
  handle_login id session_id = do
    answer_if (str_eq id "") (login_error "missing authRequestID" 400)
    auth_req ← load_auth_request service origin login_error load_login_error id
    login_with auth_req (login_prompt_mode auth_req.prompt) id session_id
