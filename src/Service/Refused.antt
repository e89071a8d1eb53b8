-- ===== src/Service/Refused.antt =====
-- What a refusal by a client's access policy leaves undone: internal/service/login.go and
-- login_callback.go.
use authgate.Prelude.{
  ℕ, ◌≡◌, Bool, true, false, none, some, String, Bytes, Option, str_eq, refl, ok, err,
}
use authgate.Client.{Model}
use authgate.ClientAccess.{Reason, refused, evaluate}
use authgate.Storage.Exec.{not_found}
use authgate.Storage.Settings.{User, AuthRequestModel, access_subject}
use authgate.Service.Step.{call, ◌>>=◌, returns, pure}
use authgate.Service.Store.{Service, Origin, AuditEvent, UserInfo}
use authgate.Service.Access.{
  AccessResult, access_allow, access_recover, access_deny, check_access, check_client_access,
  is_deny, access_subject_from_upstream, access_denied_audit_metadata,
}
use authgate.Service.Request.{
  PromptMode, access_denied_redirect, callback_result_from, verify_auth_request_channel,
}
use authgate.Service.Login.{handle_existing_session, refuse_inactive}
use authgate.Service.Callback.{prepare_new_user}
use authgate.Service.Callback.{complete_browser_login}
use authgate.Service.Signup.{loaded, resolved, identified, callback_path}

module _ {S : Type 0} (service : Service S) (origin : Origin) where
  open service use {store}

  -- The auth.access_denied row of an account without id, or of the given one.
  abbrev pub denied_event : Option String → Model → Reason → Bytes → Bool → AuditEvent
  denied_event user_id c reason email signup = record {
    user_id = user_id;
    event_type = "auth.access_denied";
    ip_address = origin.ip_address;
    user_agent = origin.user_agent;
    metadata = access_denied_audit_metadata c.id c.name "browser" reason email signup;
  }

  prepare_refused :
      (info : UserInfo) (q : AuthRequestModel) (c : Model) (s : S) (reason : Reason)
      → evaluate c.access (access_subject_from_upstream info) ≡ some (refused reason)
      → prepare_new_user service origin info q c s ≡ (
        returns (callback_result_from (access_denied_redirect service q)),
        (store.audit_log (denied_event none c reason info.email true) s).1,
      )
  unfolding prepare_new_user check_client_access call ◌>>=◌
  prepare_refused info q c s reason denied = rw denied refl

  -- A person without an account whom the client's policy refuses at the browser callback is sent to
  -- the client with access_denied, and the calls of the store are the load of the request, the
  -- resolution of the client, the lookup of the identity and one audit row without an account: no
  -- account, no session and no completion of the request.
  pub complete_browser_login-refused_signup :
      (id : String) (info : UserInfo) (q : AuthRequestModel) (c : Model) (s : S) (reason : Reason)
      → str_eq id "" ≡ false
      → (loaded service origin id s).0 ≡ ok q
      → (resolved service origin id q.client_id s).0 ≡ some c
      → str_eq c.login_channel "browser" ≡ true
      → (identified service origin id q.client_id info.sub s).0 ≡ err not_found
      → evaluate c.access (access_subject_from_upstream info) ≡ some (refused reason)
      → complete_browser_login service origin id (some info) s ≡ (
        returns (callback_result_from (access_denied_redirect service q)),
        (store.audit_log
            (denied_event none c reason info.email true)
            (identified service origin id q.client_id info.sub s).1).1,
      )
  unfolding ◌>>=◌
  complete_browser_login-refused_signup id info q c s reason named found known right new denied =
      rw
        (
          callback_path service origin id info q c s named found known right,
          new,
          prepare_refused info q c (identified service origin id q.client_id info.sub s).1 reason
              denied,
        )
        refl

  may_pass :
      (a : AccessResult) (u : User) (q : AuthRequestModel) (mode : PromptMode)
      → is_deny a ≡ false
      → refuse_inactive service origin a u q mode ≡ pure tt
  may_pass access_allow u q mode may = refl
  may_pass access_recover u q mode may = refl
  may_pass access_deny u q mode may = cc

  -- An account with a session that may sign in, also one to be recovered, and that the client's policy
  -- refuses, is sent to the client with access_denied after the resolution of the client and one audit
  -- row: the account is not recovered and the request is not completed.
  pub handle_existing_session-refused :
      (u : User) (q : AuthRequestModel) (t : ℕ) (mode : PromptMode) (session_id : String)
      (c : Model) (s : S) (reason : Reason)
      → is_deny (check_access u.status "browser") ≡ false
      → (store.resolve_client q.client_id s).0 ≡ some c
      → str_eq c.login_channel "browser" ≡ true
      → evaluate c.access (access_subject u) ≡ some (refused reason)
      → handle_existing_session service origin u q t mode session_id s ≡ (
        returns (access_denied_redirect service q),
        (store.audit_log
            (denied_event (some u.id) c reason u.email false)
            (store.resolve_client q.client_id s).1).1,
      )
  unfolding handle_existing_session verify_auth_request_channel check_client_access call ◌>>=◌
  handle_existing_session-refused u q t mode session_id c s reason may known right denied =
      rw (may_pass (check_access u.status "browser") u q mode may, known, right, denied) refl
