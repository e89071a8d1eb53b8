-- ===== src/Service/Answers.antt =====
-- The answers of the login handlers: internal/service/login.go and mcp_login.go.
use authgate.Prelude.{
  ℕ, ◌≡◌, ◌⊎◌, inl, inr, arith, refl, Bool, true, false, Option, none, some, String, Result, ok,
  err, ◌==◌, ◌||◌,
}
use authgate.Client.{Model}
use authgate.ClientAccess.{Subject, Decision, allowed, refused, evaluate}
use authgate.Storage.Exec.{StoreError}
use authgate.Storage.Settings.{User, AuthRequestModel}
use authgate.Service.Step.{returns}
use authgate.Service.Step.Rules.{Answers, answers}
use authgate.Service.Store.{
  Service, Origin, LoginResult, LoginAction, error, redirect_to_client, redirect_to_idp,
  auto_approve, login_error, SessionLookup, session, closed, no_session,
}
use authgate.Service.Access.{
  AccessResult, access_allow, access_recover, access_deny, check_client_access, audit_decision,
}
use authgate.Service.Request.{
  PromptMode, authorization_error_redirect, login_required, verify_auth_request_channel,
  redirect_result, verify_channel, max_age_exceeded, load_login_error,
  complete_reused_session_login, prompt_default, prompt_silent, prompt_interactive,
}
use authgate.Service.Login.{
  handle_login, handle_session_login, login_with, account_inactive, recover_access, refuse_inactive,
  handle_existing_session, with_auth_time, with_session,
}
use authgate.Service.Mcp
use authgate.Service.Mcp.{handle_mcp_login, mcp_login_with, session_login, reuse_session}

-- Whether the status fits the action: an error has 400, 403 or 500, and anything else has none.
abbrev fits : LoginAction → ℕ → Bool
fits error code = code == 400 || code == 403 || code == 500
fits redirect_to_idp code = code == 0
fits auto_approve code = code == 0
fits redirect_to_client code = code == 0

abbrev is_fit : LoginResult → Bool
is_fit r = fits r.action r.error_code

module _ {S : Type 0} (service : Service S) (origin : Origin) where
  open service use {store}

  decision_Answers :
      {R : Type 0} {p : R → Bool} (c : Model) (channel : String) (u : Option String)
      (subject : Subject) (signup : Bool) (d : Option Decision)
      → Answers p (audit_decision {S = S} {R = R} service origin c channel u subject signup d)
  decision_Answers c channel u subject signup none = search answers
  decision_Answers c channel u subject signup (some allowed) = search answers
  decision_Answers c channel u subject signup (some (refused reason)) = search answers

  redirect_is_fit :
      (q : AuthRequestModel) (e : String) → is_fit (authorization_error_redirect service q e) ≡ true
  unfolding authorization_error_redirect
  redirect_is_fit q e = redirected q.id (service.with_query q.redirect_uri _)
    where
      redirected : (id : String) (url : Option String) → is_fit (redirect_result id url) ≡ true
      redirected id none = refl
      redirected id (some url) = refl

  verify_Answers :
      (c : Option Model) (q : AuthRequestModel) (expected : String) (u : Option String)
      → Answers is_fit
          (verify_channel {S = S} {R = LoginResult} service origin login_error c q expected u)
  verify_Answers none q expected u = search answers
  verify_Answers (some c) q expected u = search answers

  check_Answers :
      (c : Model) (channel : String) (u : Option String) (subject : Subject) (signup : Bool)
      → Answers is_fit (check_client_access {S = S} service origin c channel u subject signup)
  unfolding check_client_access
  check_Answers c channel u subject signup =
      decision_Answers c channel u subject signup (evaluate c.access subject)

  channel_Answers :
      (q : AuthRequestModel) (expected : String) (u : Option String)
      → Answers is_fit (verify_auth_request_channel {S = S} service origin login_error q expected u)
  unfolding verify_auth_request_channel
  channel_Answers q expected u = search (answers, verify_Answers)

  login_required-Answers :
      {A : Type 0} (channel : String) (q : AuthRequestModel)
      → Answers is_fit (login_required {A = A} service origin channel q)
  unfolding login_required
  login_required-Answers channel q = search (answers, channel_Answers, redirect_is_fit)

  max_age_Answers :
      {A : Type 0} (channel : String) (q : AuthRequestModel) (mode : PromptMode)
      → Answers is_fit (max_age_exceeded {A = A} service origin channel q mode)
  unfolding max_age_exceeded
  max_age_Answers channel q mode = search (answers, login_required-Answers)

  inactive_Answers :
      {A : Type 0} (channel : String) (q : AuthRequestModel) (mode : PromptMode)
      → Answers is_fit (account_inactive service origin {A = A} channel q mode)
  unfolding account_inactive
  inactive_Answers channel q mode = search (answers, login_required-Answers)

  complete_Answers :
      {A : Type 0} (channel name : String) (u : User) (q : AuthRequestModel) (t : ℕ)
      (session_id : String) (b : Bool)
      → Answers is_fit
          (complete_reused_session_login {A = A} service origin channel name u q t session_id b)
  unfolding complete_reused_session_login
  complete_Answers channel name u q t session_id true = search answers
  complete_Answers channel name u q t session_id false = search answers

  recover_Answers :
      (a : AccessResult) (u : User) (q : AuthRequestModel) (mode : PromptMode)
      → Answers is_fit (recover_access service origin a u q mode)
  unfolding recover_access
  recover_Answers access_recover u q prompt_default = search answers
  recover_Answers access_recover u q prompt_silent = search (answers, redirect_is_fit)
  recover_Answers access_recover u q prompt_interactive = search answers
  recover_Answers access_allow u q mode = search answers
  recover_Answers access_deny u q mode = search answers

  refuse_Answers :
      (a : AccessResult) (u : User) (q : AuthRequestModel) (mode : PromptMode)
      → Answers is_fit (refuse_inactive service origin a u q mode)
  refuse_Answers access_recover u q mode = search answers
  refuse_Answers access_allow u q mode = search answers
  refuse_Answers access_deny u q mode = search (answers, inactive_Answers)

  existing_Answers :
      (u : User) (q : AuthRequestModel) (t : ℕ) (mode : PromptMode) (session_id : String)
      → Answers is_fit (handle_existing_session service origin u q t mode session_id)
  unfolding handle_existing_session
  existing_Answers u q t mode session_id =
      search
        (
          answers, refuse_Answers, recover_Answers, check_Answers, channel_Answers,
          complete_Answers, redirect_is_fit,
        )
        depth 14

  time_Answers :
      (u : User) (q : AuthRequestModel) (mode : PromptMode) (session_id : String)
      (t : Result StoreError ℕ)
      → Answers is_fit (with_auth_time service origin u q mode session_id t)
  time_Answers u q mode session_id (err e) = search answers
  time_Answers u q mode session_id (ok t) = search (answers, max_age_Answers, existing_Answers)

  session_Answers :
      (q : AuthRequestModel) (mode : PromptMode) (session_id : String) (l : SessionLookup)
      → Answers is_fit (with_session service origin q mode session_id l)
  session_Answers q mode session_id (session u) = search (answers, time_Answers)
  session_Answers q mode session_id (closed u) = search (answers, inactive_Answers)
  session_Answers q mode session_id (no_session e) = search answers

  login_Answers :
      (q : AuthRequestModel) (mode : PromptMode) (id session_id : String)
      → Answers is_fit (login_with service origin q mode id session_id)
  unfolding login_with handle_session_login
  login_Answers q mode id session_id = search (answers, session_Answers, login_required-Answers)

  mcp_time_Answers :
      (u : User) (q : AuthRequestModel) (mode : PromptMode) (id session_id : String)
      (t : Result StoreError ℕ)
      → Answers is_fit (Mcp.with_auth_time service origin u q mode id session_id t)
  unfolding reuse_session
  mcp_time_Answers u q mode id session_id (err e) = search (answers, login_required-Answers)
  mcp_time_Answers u q mode id session_id (ok t) =
      search
        (
          answers, max_age_Answers, channel_Answers, check_Answers, complete_Answers,
          redirect_is_fit,
        )
        depth 14

  mcp_session_Answers :
      (q : AuthRequestModel) (mode : PromptMode) (id session_id : String) (l : SessionLookup)
      → Answers is_fit (Mcp.with_session service origin q mode id session_id l)
  mcp_session_Answers q mode id session_id (session u) =
      search (answers, mcp_time_Answers, inactive_Answers)
  mcp_session_Answers q mode id session_id (closed u) = search (answers, inactive_Answers)
  mcp_session_Answers q mode id session_id (no_session e) = search answers

  mcp_login_Answers :
      (q : AuthRequestModel) (mode : PromptMode) (id session_id : String)
      → Answers is_fit (mcp_login_with service origin q mode id session_id)
  unfolding mcp_login_with session_login
  mcp_login_Answers q mode id session_id =
      search (answers, mcp_session_Answers, login_required-Answers)

  load_error_is_fit : (e : StoreError) → is_fit (load_login_error e) ≡ true
  load_error_is_fit e = ground arith

  browser_Answers :
      (id session_id : String) → Answers is_fit (handle_login service origin id session_id)
  unfolding handle_login
  browser_Answers id session_id = search (answers, login_Answers, load_error_is_fit)

  mcp_Answers :
      (id session_id : String) → Answers is_fit (handle_mcp_login service origin id session_id)
  unfolding handle_mcp_login
  mcp_Answers id session_id = search (answers, mcp_login_Answers, load_error_is_fit)

  -- Whatever the store answers, a browser or mcp login that ends in an error page has status 400, 403
  -- or 500, and any other answer of it carries no status.
  handle_login-fits :
      (id session_id : String) (s s' : S) (r : LoginResult)
      → (handle_login service origin id session_id s ≡ (returns r, s'))
        ⊎ (handle_mcp_login service origin id session_id s ≡ (returns r, s'))
      → fits r.action r.error_code ≡ true
  handle_login-fits id session_id s s' r (inl h) = (browser_Answers id session_id).at s s' r h
  handle_login-fits id session_id s s' r (inr h) = (mcp_Answers id session_id).at s s' r h
