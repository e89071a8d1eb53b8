-- ===== src/Service/Callback.antt =====
-- internal/service/login_callback.go: the browser callback, after the exchange with the IdP.
use authgate.Prelude.{
  Bool, true, false, not, Option, none, some, [], ◌∷◌, String, str_eq, Result, ok, err,
}
use authgate.Client.{Model}
use authgate.Storage.Exec.{StoreError, not_found, email_conflict}
use authgate.Storage.Settings.{User, AuthRequestModel}
use authgate.Service.Step.{Step, call, answer, answer_if, or_answer, pure, ◌>>=◌, ◌>>◌}
use authgate.Service.Store.{
  text, flag, Service, Origin, CallbackResult, callback_error, callback_result, UserInfo,
  auto_approve,
}
use authgate.Service.Access.{
  AccessResult, access_allow, access_recover, access_deny, check_access, audit, resolve_client_name,
  check_client_access, check_existing_account_access, record_hosted_domain,
  access_subject_from_upstream, lifecycle_audit_metadata,
}
use authgate.Service.Request.{
  load_callback_error, callback_result_from, access_denied_redirect, load_auth_request,
  verify_auth_request_channel,
}
use authgate.Service.Login.{audit_inactive_user}

-- What `prepareBrowserCallbackUser` returns: the user, signedUp and recovered.
pub record Prepared : Type 0 where
  pub user : User
  pub signed_up : Bool
  pub recovered : Bool

module _ {S : Type 0} (service : Service S) (origin : Origin) where
  open service use {store, provider_name, session_ttl}

  -- `auditDeletionCancelled`.
  abbrev audit_deletion_cancelled :
      Bool → String → String → AuthRequestModel → Step S CallbackResult (Unit {0})
  audit_deletion_cancelled false user_id session_id auth_req = pure tt
  audit_deletion_cancelled true user_id session_id auth_req = do
    client_name ← resolve_client_name service origin auth_req.client_id
    audit service origin (some user_id) "auth.deletion_cancelled"
        (lifecycle_audit_metadata "browser" session_id auth_req.client_id client_name)

  -- The message of the wrapped error is left out of `signup failed: …`.
  abbrev signup_error : StoreError → CallbackResult
  signup_error email_conflict = callback_error "email_conflict" 409
  signup_error e = callback_error "signup failed" 500

  -- `signupBrowserUser`.
  unfoldable pub signup_browser_user : UserInfo → AuthRequestModel → Step S CallbackResult User
  signup_browser_user info auth_req = do
    created ← call (
        store.create_user_with_identity (record {
          email = info.email;
          email_verified = info.email_verified;
          name = info.name;
          provider = provider_name;
          provider_user_id = info.sub;
          hosted_domain = info.hosted_domain;
        }))
    user ← or_answer created signup_error
    client_name ← resolve_client_name service origin auth_req.client_id
    audit service origin (some user.id) "auth.signup" (
        ("channel", text "browser")
        ∷ ("client_id", text auth_req.client_id)
        ∷ ("client_name", text client_name)
        ∷ [])
    pure user

  abbrev ensure_access : AccessResult → User → Step S CallbackResult (User × Bool)
  ensure_access access_deny user = do
    audit_inactive_user service origin "browser" user
    answer (callback_error "account_inactive" 403)
  ensure_access access_recover user = do
    recovered ← call (store.recover_user user.id)
    done ← or_answer recovered (λ e. callback_error "recovery failed" 500)
    found ← call (store.get_user_by_id user.id)
    recovered_user ← or_answer found (λ e. callback_error "failed to read user after recovery" 500)
    pure (recovered_user, true)
  ensure_access access_allow user = pure (user, false)

  -- `ensureBrowserAccess`: the user, and whether it was recovered.
  unfoldable pub ensure_browser_access : User → Step S CallbackResult (User × Bool)
  ensure_browser_access user = ensure_access (check_access user.status "browser") user

  -- The policy in `prepareBrowserCallbackUser`, which is not evaluated for a denied account.
  abbrev admit :
      AccessResult → User → UserInfo → AuthRequestModel → Model → Step S CallbackResult (Unit {0})
  admit access_deny user info auth_req client = pure tt
  admit access user info auth_req client = do
    admitted ← check_existing_account_access service origin client "browser" user info
    answer_if (not admitted) (callback_result_from (access_denied_redirect service auth_req))

  -- `prepareBrowserCallbackUser` for a person without an account.
  unfoldable pub prepare_new_user :
      UserInfo → AuthRequestModel → Model → Step S CallbackResult Prepared
  prepare_new_user info auth_req client = do
    admitted ←
        check_client_access service origin client "browser" none (access_subject_from_upstream info)
          true
    answer_if (not admitted) (callback_result_from (access_denied_redirect service auth_req))
    user ← signup_browser_user info auth_req
    pure (record { user = user; signed_up = true; recovered = false })

  -- The same for an account.
  unfoldable pub prepare_existing_user :
      User → UserInfo → AuthRequestModel → Model → Step S CallbackResult Prepared
  prepare_existing_user found info auth_req client = do
    user ← record_hosted_domain service origin (λ r. r) info found
    admit (check_access user.status "browser") user info auth_req client
    ensured ← ensure_browser_access user
    pure (record { user = ensured.0; signed_up = false; recovered = ensured.1 })

  abbrev pub prepare_found :
      Result StoreError User → UserInfo → AuthRequestModel → Model → Step S CallbackResult Prepared
  prepare_found (ok user) info auth_req client = prepare_existing_user user info auth_req client
  prepare_found (err not_found) info auth_req client = prepare_new_user info auth_req client
  prepare_found (err e) info auth_req client = answer (callback_error "internal_error" 500)

  -- `prepareBrowserCallbackUser`.
  unfoldable pub prepare_browser_callback_user :
      UserInfo → AuthRequestModel → Model → Step S CallbackResult Prepared
  prepare_browser_callback_user info auth_req client = do
    found ← call (store.get_user_by_provider_identity provider_name info.sub)
    prepare_found found info auth_req client

  -- `CompleteBrowserLogin` from the creation of the session on.
  unfoldable pub finish_browser_login :
      String → AuthRequestModel → Model → Prepared → Step S CallbackResult (Unit {0})
  finish_browser_login id auth_req client p = do
    created ← call (store.create_session p.user.id session_ttl)
    session_id ← or_answer created (λ e. callback_error "session creation failed" 500)
    audit_deletion_cancelled p.recovered p.user.id session_id auth_req
    completed ← call (store.complete_auth_request id p.user.id 0)
    done ← or_answer completed (λ e. callback_error "failed to complete auth request" 500)
    audit service origin (some p.user.id) "auth.login" (
        ("channel", text "browser")
        ∷ ("session_id", text session_id)
        ∷ ("client_id", text auth_req.client_id)
        ∷ ("client_name", text client.name)
        ∷ ("signup", flag p.signed_up)
        ∷ [])
    answer (callback_result auto_approve id session_id "" 0)

  abbrev complete_with : String → Option UserInfo → Step S CallbackResult (Unit {0})
  complete_with id none = answer (callback_error "missing code or state" 400)
  complete_with id (some info) = do
    auth_req ← load_auth_request service origin callback_error load_callback_error id
    client ← verify_auth_request_channel service origin callback_error auth_req "browser" none
    prepared ← prepare_browser_callback_user info auth_req client
    finish_browser_login id auth_req client prepared

  -- `CompleteBrowserLogin`; `none` is a nil identity.
  unfoldable pub complete_browser_login :
      String → Option UserInfo → Step S CallbackResult (Unit {0})
  complete_browser_login id info = do
    answer_if (str_eq id "") (callback_error "missing code or state" 400)
    complete_with id info
