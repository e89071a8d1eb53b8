-- ===== src/Service/Mcp.antt =====
-- internal/service/mcp_login.go: login and callback of the mcp channel, which signs nobody up and
-- recovers nobody.
use authgate.Prelude.{
  ℕ, false, not, Option, none, some, [], ◌∷◌, String, str_eq, if◌then◌else◌, Result, ok, err,
}
use authgate.Client.{Model}
use authgate.Storage.Exec.{StoreError, not_found}
use authgate.Storage.Settings.{User, AuthRequestModel, access_subject}
use authgate.Service.Step.{Step, call, answer, answer_if, run_if, or_answer, pure, ◌>>=◌, ◌>>◌}
use authgate.Service.Store.{
  text, SessionLookup, session, closed, no_session, Service, Origin, LoginResult, login_error,
  CallbackResult, callback_error, callback_result, UserInfo, auto_approve,
}
use authgate.Service.Access.{
  check_access, is_allow, audit, check_client_access, check_existing_account_access,
  record_hosted_domain,
}
use authgate.Service.Request.{
  PromptMode, is_interactive, login_prompt_mode, session_too_old_for_max_age,
  redirect_to_provider_selecting_account, load_login_error, load_callback_error,
  callback_result_from, access_denied_redirect, load_auth_request, verify_auth_request_channel,
  max_age_exceeded, complete_reused_session_login,
}
use authgate.Service.Login.{audit_inactive_user, account_inactive, sign_in}

module _ {S : Type 0} (service : Service S) (origin : Origin) where
  open service use {store, provider_name, session_ttl, now}

  -- The session branch of `HandleLogin` from the auth time on.
  unfoldable pub reuse_session :
      User → AuthRequestModel → ℕ → PromptMode → String → Step S LoginResult (Unit {0})
  reuse_session user auth_req auth_time mode session_id = do
    at ← call now
    run_if (session_too_old_for_max_age auth_req.max_age auth_time at)
        (max_age_exceeded service origin "mcp" auth_req mode)
    client ← verify_auth_request_channel service origin login_error auth_req "mcp" (some user.id)
    admitted ←
        check_client_access service origin client "mcp" (some user.id) (access_subject user) false
    answer_if (not admitted) (access_denied_redirect service auth_req)
    complete_reused_session_login service origin "mcp" client.name user auth_req auth_time
        session_id false

  abbrev pub with_auth_time :
      User
      → AuthRequestModel
      → PromptMode
      → String
      → String
      → Result StoreError ℕ
      → Step S LoginResult (Unit {0})
  with_auth_time user auth_req mode id session_id (err e) =
      sign_in service origin "mcp" auth_req mode id
  with_auth_time user auth_req mode id session_id (ok auth_time) =
      reuse_session user auth_req auth_time mode session_id

  abbrev pub refuse_inactive : User → AuthRequestModel → PromptMode → Step S LoginResult (Unit {0})
  refuse_inactive user auth_req mode = do
    audit_inactive_user service origin "mcp" user
    account_inactive service origin "mcp" auth_req mode

  abbrev pub with_session :
      AuthRequestModel
      → PromptMode
      → String
      → String
      → SessionLookup
      → Step S LoginResult (Unit {0})
  with_session auth_req mode id session_id (closed user) = refuse_inactive user auth_req mode
  with_session auth_req mode id session_id (no_session e) = pure tt
  with_session auth_req mode id session_id (session user) = do
    run_if (not (is_allow (check_access user.status "mcp"))) (refuse_inactive user auth_req mode)
    auth_time ← call (store.session_auth_time session_id)
    with_auth_time user auth_req mode id session_id auth_time

  -- The branch of `HandleLogin` for a request with a session.
  unfoldable pub session_login :
      AuthRequestModel → PromptMode → String → String → Step S LoginResult (Unit {0})
  session_login auth_req mode id session_id = if str_eq session_id "" then pure tt else (do
    found ← call (store.get_valid_session session_id)
    with_session auth_req mode id session_id found)

  -- `HandleLogin` of the MCPLoginService, once the request is loaded.
  unfoldable pub mcp_login_with :
      AuthRequestModel → PromptMode → String → String → Step S LoginResult (Unit {0})
  mcp_login_with auth_req mode id session_id = do
    answer_if (is_interactive mode) (redirect_to_provider_selecting_account id)
    session_login auth_req mode id session_id
    sign_in service origin "mcp" auth_req mode id

  -- `HandleLogin` of the MCPLoginService.
  unfoldable pub handle_mcp_login : String → String → Step S LoginResult (Unit {0})
  handle_mcp_login id session_id = do
    answer_if (str_eq id "") (login_error "missing authRequestID" 400)
    auth_req ← load_auth_request service origin login_error load_login_error id
    mcp_login_with auth_req (login_prompt_mode auth_req.prompt) id session_id

  abbrev pub find_error : StoreError → CallbackResult
  find_error not_found = callback_error "account_not_found" 403
  find_error e = callback_error "internal_error" 500

  -- The checks of `CompleteMCPLogin` on the account: the user that may sign in.
  unfoldable pub check_mcp_user : UserInfo → AuthRequestModel → Model → Step S CallbackResult User
  check_mcp_user info auth_req client = do
    looked_up ← call (store.get_user_by_provider_identity provider_name info.sub)
    found ← or_answer looked_up find_error
    user ← record_hosted_domain service origin (λ r. r) info found
    run_if (not (is_allow (check_access user.status "mcp"))) (do
      audit_inactive_user service origin "mcp" user
      answer (callback_error "account_inactive" 403))
    admitted ← check_existing_account_access service origin client "mcp" user info
    answer_if (not admitted) (callback_result_from (access_denied_redirect service auth_req))
    pure user

  -- `CompleteMCPLogin` from the creation of the session on.
  unfoldable pub finish_mcp_login :
      String → AuthRequestModel → Model → User → Step S CallbackResult (Unit {0})
  finish_mcp_login id auth_req client user = do
    created ← call (store.create_session user.id session_ttl)
    session_id ← or_answer created (λ e. callback_error "session creation failed" 500)
    completed ← call (store.complete_auth_request id user.id 0)
    done ← or_answer completed (λ e. callback_error "failed to complete auth request" 500)
    audit service origin (some user.id) "auth.login" (
        ("channel", text "mcp")
        ∷ ("session_id", text session_id)
        ∷ ("client_id", text auth_req.client_id)
        ∷ ("client_name", text client.name)
        ∷ [])
    answer (callback_result auto_approve id session_id "" 0)

  abbrev complete_with : String → Option UserInfo → Step S CallbackResult (Unit {0})
  complete_with id none = answer (callback_error "missing code or state" 400)
  complete_with id (some info) = do
    auth_req ← load_auth_request service origin callback_error load_callback_error id
    answer_if (str_eq auth_req.resource "") (callback_error "invalid_target" 400)
    client ← verify_auth_request_channel service origin callback_error auth_req "mcp" none
    user ← check_mcp_user info auth_req client
    finish_mcp_login id auth_req client user

  -- `CompleteMCPLogin`; `none` is a nil identity.
  unfoldable pub complete_mcp_login : String → Option UserInfo → Step S CallbackResult (Unit {0})
  complete_mcp_login id info = do
    answer_if (str_eq id "") (callback_error "missing code or state" 400)
    complete_with id info
