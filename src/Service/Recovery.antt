-- ===== src/Service/Recovery.antt =====
-- Recovery of an account in internal/service/login.go under prompt=none.
use authgate.Prelude.{
  ℕ, ◌≡◌, refl, inl, inr, false, String, str_eq, arith, Result, ok, err, Bool-cases,
}
use authgate.Storage.Exec.{StoreError}
use authgate.Storage.Settings.{User, AuthRequestModel}
use authgate.Service.Step.{Call, call, ◌>>=◌}
use authgate.Service.Store.{Service, Origin, SessionLookup, session, closed, no_session}
use authgate.Service.Access.{
  AccessResult, access_allow, access_recover, access_deny, check_access, check_client_access,
}
use authgate.Service.Request.{
  prompt_silent, login_prompt_mode, session_too_old_for_max_age, authorization_error_redirect,
  login_required, max_age_exceeded, verify_auth_request_channel, complete_reused_session_login,
}
use authgate.Service.Login.{
  handle_login, login_with, handle_session_login, handle_existing_session, account_inactive,
  recover_access, with_auth_time, with_session,
}
use authgate.Service.Prompts.{handle_login-load}

module _ {S : Type 0} (service : Service S) (origin : Origin) where
  open service use {store}

  -- The same service over a store that recovers accounts in another way.
  abbrev pub with_recover : (String → Call S (Result StoreError (Unit {0}))) → Service S
  with_recover f = record service { store = record store { recover_user = f } }

  module _ (f : String → Call S (Result StoreError (Unit {0}))) where
    recover_access-silent :
        (a : AccessResult) (u : User) (q : AuthRequestModel)
        → recover_access (with_recover f) origin a u q prompt_silent
          ≡ recover_access service origin a u q prompt_silent
    unfolding recover_access authorization_error_redirect
    recover_access-silent access_allow u q = refl
    recover_access-silent access_recover u q = refl
    recover_access-silent access_deny u q = refl

    existing_silent :
        (u : User) (q : AuthRequestModel) (t : ℕ) (session_id : String) (s : S)
        → handle_existing_session (with_recover f) origin u q t prompt_silent session_id s
          ≡ handle_existing_session service origin u q t prompt_silent session_id s
    unfolding handle_existing_session account_inactive check_client_access
        complete_reused_session_login login_required verify_auth_request_channel
        authorization_error_redirect call ◌>>=◌
    existing_silent u q t session_id s =
        rw (recover_access-silent (check_access u.status "browser") u q) refl

    with_auth_time-silent :
        (u : User) (q : AuthRequestModel) (session_id : String) (t : Result StoreError ℕ) (s : S)
        → with_auth_time (with_recover f) origin u q prompt_silent session_id t s
          ≡ with_auth_time service origin u q prompt_silent session_id t s
    unfolding login_required verify_auth_request_channel authorization_error_redirect call ◌>>=◌
        max_age_exceeded
    with_auth_time-silent u q session_id (err e) s = refl
    with_auth_time-silent u q session_id (ok t) s =
        elim (Bool-cases (session_too_old_for_max_age q.max_age t (service.now s).0)) [
          | inl old ↦ ground (arith, old)
          | inr young ↦ rw young (existing_silent u q t session_id (service.now s).1)
        ]

    with_session-silent :
        (q : AuthRequestModel) (session_id : String) (found : SessionLookup) (s : S)
        → with_session (with_recover f) origin q prompt_silent session_id found s
          ≡ with_session service origin q prompt_silent session_id found s
    unfolding account_inactive login_required verify_auth_request_channel
        authorization_error_redirect call ◌>>=◌
    with_session-silent q session_id (closed u) s = refl
    with_session-silent q session_id (no_session e) s = refl
    with_session-silent q session_id (session u) s =
        with_auth_time-silent u q session_id (store.session_auth_time session_id s).0
          (store.session_auth_time session_id s).1

    session_silent :
        (q : AuthRequestModel) (session_id : String) (s : S)
        → handle_session_login (with_recover f) origin q prompt_silent session_id s
          ≡ handle_session_login service origin q prompt_silent session_id s
    unfolding handle_session_login call ◌>>=◌
    session_silent q session_id s = elim (Bool-cases (str_eq session_id "")) [
      | inl none_sent ↦ rw none_sent refl
      | inr sent ↦ rw sent (
          with_session-silent q session_id (store.get_valid_session session_id s).0
            (store.get_valid_session session_id s).1)
    ]

    login_silent :
        (id session_id : String) (q : AuthRequestModel) (s : S)
        → login_with (with_recover f) origin q prompt_silent id session_id s
          ≡ login_with service origin q prompt_silent id session_id s
    unfolding login_with login_required verify_auth_request_channel authorization_error_redirect
        call ◌>>=◌
    login_silent id session_id q s = rw (session_silent q session_id s) refl

    -- Under prompt=none a browser login never recovers an account: over a store that recovers accounts
    -- in any other way, the request that the store knows ends with the same answer in the same state.
    pub handle_login-silent_recover :
        (id session_id : String) (q : AuthRequestModel) (s : S)
        → str_eq id "" ≡ false
        → (store.get_auth_request_model id s).0 ≡ ok q
        → login_prompt_mode q.prompt ≡ prompt_silent
        → handle_login (with_recover f) origin id session_id s
          ≡ handle_login service origin id session_id s
    handle_login-silent_recover id session_id q s named loaded silent =
        rw
          (
            handle_login-load service origin id session_id q s named loaded,
            handle_login-load (with_recover f) origin id session_id q s named loaded,
            silent,
          )
          (login_silent id session_id q (store.get_auth_request_model id s).1)
