-- ===== src/Service/Approved/Mcp.antt =====
-- What stands behind an approval of a login over the mcp channel: internal/service/mcp_login.go.
use authgate.Prelude.{
  ℕ, ◌≡◌, ◌≢◌, ◌∙◌, sym, refl, inl, inr, true, false, String, str_eq, arith, ok, err, Bool-cases,
  Option-cases, Result-cases,
}
use authgate.Storage.Exec.{StoreError}
use authgate.Storage.Settings.{User, AuthRequestModel}
use authgate.Service.Step.{Step, call, ◌>>=◌, returns, >>=-returns}
use authgate.Service.Store.{Service, Origin, LoginResult, auto_approve, session}
use authgate.Service.Access.{check_access, check_client_access, is_deny, is_allow}
use authgate.Service.Request.{
  PromptMode, prompt_default, prompt_silent, prompt_interactive, login_prompt_mode, is_interactive,
  session_too_old_for_max_age, authorization_error_redirect, login_required, max_age_exceeded,
  verify_auth_request_channel, complete_reused_session_login,
}
use authgate.Service.Login.{account_inactive, sign_in}
use authgate.Service.Mcp.{
  handle_mcp_login, mcp_login_with, session_login, reuse_session, with_session, with_auth_time,
  refuse_inactive,
}
use authgate.Service.Prompts.{handle_mcp_login-load}
use authgate.Service.Approved.{
  Admits, Serves, Reuses, looked_up, timed, SessionLookup-cases, sign_in_refuses,
}

module _ {S : Type 0} (service : Service S) (origin : Origin) where
  open service use {store, now}

  reuse_admitted :
      (u : User) (q : AuthRequestModel) (t : ℕ) (mode : PromptMode) (session_id : String) (s s' : S)
      (r : LoginResult)
      → reuse_session service origin u q t mode session_id s ≡ (returns r, s')
      → r.action ≡ auto_approve
      → (session_too_old_for_max_age q.max_age t (now s).0 ≡ false)
        × Admits service origin "mcp" q u (now s).1
  unfolding reuse_session check_client_access complete_reused_session_login login_required
      verify_auth_request_channel authorization_error_redirect max_age_exceeded call ◌>>=◌
  reuse_admitted u q t mode session_id s s' r h a =
      elim (Option-cases (store.resolve_client q.client_id (now s).1).0) [
        | inl lost ↦ ground (arith, lost)
        | inr (c, found) ↦
            (ground (arith, found), (c, found, ground (arith, found), ground (arith, found)))
      ]

  session_path :
      (q : AuthRequestModel) (mode : PromptMode) (id session_id : String) (s : S) (u : User) (t : ℕ)
      → (looked_up service origin session_id s).0 ≡ session u
      → is_allow (check_access u.status "mcp") ≡ true
      → (timed service origin session_id s).0 ≡ ok t
      → with_session service origin q mode id session_id
          (looked_up service origin session_id s).0
          (looked_up service origin session_id s).1
        ≡ reuse_session service origin u q t mode session_id (timed service origin session_id s).1
  unfolding call ◌>>=◌
  session_path q mode id session_id s u t found may at = rw (found, may, at) refl

  allowed_not_denied :
      (status channel : String)
      → is_allow (check_access status channel) ≡ true
      → is_deny (check_access status channel) ≡ false
  allowed_not_denied status channel may = ground arith

  refused :
      (u : User) (q : AuthRequestModel) (mode : PromptMode) (next : Step S LoginResult (Unit {0}))
      (s s' : S) (r : LoginResult)
      → (refuse_inactive service origin u q mode >>= λ _. next) s ≡ (returns r, s')
      → r.action ≢ auto_approve
  unfolding account_inactive login_required verify_auth_request_channel authorization_error_redirect
      call ◌>>=◌
  refused u q mode next s s' r h = ground arith

  shut_path :
      (q : AuthRequestModel) (mode : PromptMode) (id session_id : String) (s : S) (u : User)
      → (looked_up service origin session_id s).0 ≡ session u
      → is_allow (check_access u.status "mcp") ≡ false
      → with_session service origin q mode id session_id
          (looked_up service origin session_id s).0
          (looked_up service origin session_id s).1
        ≡ (refuse_inactive service origin u q mode >>= λ _. (do
          auth_time ← call (store.session_auth_time session_id)
          with_auth_time service origin u q mode id session_id auth_time))
            (looked_up service origin session_id s).1
  shut_path q mode id session_id s u found shut = rw (found, shut) refl

  lost_path :
      (q : AuthRequestModel) (mode : PromptMode) (id session_id : String) (s : S) (u : User)
      (e : StoreError)
      → (looked_up service origin session_id s).0 ≡ session u
      → is_allow (check_access u.status "mcp") ≡ true
      → (timed service origin session_id s).0 ≡ err e
      → with_session service origin q mode id session_id
          (looked_up service origin session_id s).0
          (looked_up service origin session_id s).1
        ≡ sign_in service origin "mcp" q mode id (timed service origin session_id s).1
  unfolding call ◌>>=◌
  lost_path q mode id session_id s u e found may lost = rw (found, may, lost) refl

  with_session-Serves :
      (q : AuthRequestModel) (mode : PromptMode) (id session_id : String) (s s' : S)
      (r : LoginResult)
      → with_session service origin q mode id session_id
          (looked_up service origin session_id s).0
          (looked_up service origin session_id s).1
        ≡ (returns r, s')
      → r.action ≡ auto_approve
      → Serves service origin "mcp" q session_id s
  unfolding account_inactive login_required verify_auth_request_channel authorization_error_redirect
      call ◌>>=◌
  with_session-Serves q mode id session_id s s' r h a =
      elim (SessionLookup-cases (looked_up service origin session_id s).0) [
        | inr (inl (u, c)) ↦ ground (arith, c)
        | inr (inr (e, c)) ↦ ground (arith, c)
        | inl (u, found) ↦ elim (Bool-cases (is_allow (check_access u.status "mcp"))) [
          | inr shut ↦ absurd (
              refused u q mode _ (looked_up service origin session_id s).1 s' r
                (sym (shut_path q mode id session_id s u found shut) ∙ h) a)
          | inl may ↦ elim (Result-cases (timed service origin session_id s).0) [
            | inl (e, lost) ↦ absurd (
                sign_in_refuses service origin "mcp" id q mode (timed service origin session_id s).1
                  s' r (sym (lost_path q mode id session_id s u e found may lost) ∙ h) a)
            | inr (t, at) ↦
                let (young, admitted) =
                  reuse_admitted u q t mode session_id (timed service origin session_id s).1 s' r
                    (sym (session_path q mode id session_id s u t found may at) ∙ h) a in
                (u, t, found, at, allowed_not_denied u.status "mcp" may, young, admitted)
          ]
        ]
      ]

  session_sent :
      (q : AuthRequestModel) (mode : PromptMode) (id session_id : String) (s : S)
      → str_eq session_id "" ≡ false
      → session_login service origin q mode id session_id s
        ≡ with_session service origin q mode id session_id
            (looked_up service origin session_id s).0
            (looked_up service origin session_id s).1
  unfolding session_login call ◌>>=◌
  session_sent q mode id session_id s sent = rw sent refl

  session_login-Serves :
      (q : AuthRequestModel) (mode : PromptMode) (id session_id : String) (s s' : S)
      (r : LoginResult)
      → session_login service origin q mode id session_id s ≡ (returns r, s')
      → r.action ≡ auto_approve
      → (str_eq session_id "" ≡ false) × Serves service origin "mcp" q session_id s
  unfolding session_login
  session_login-Serves q mode id session_id s s' r h a = elim (Bool-cases (str_eq session_id "")) [
    | inl unsent ↦ ground (arith, unsent)
    | inr sent ↦ (
      sent,
      with_session-Serves q mode id session_id s s' r
          (sym (session_sent q mode id session_id s sent) ∙ h) a,
    )
  ]

  served :
      (id session_id : String) (q : AuthRequestModel) (mode : PromptMode) (s s' : S)
      (r : LoginResult)
      → (session_login service origin q mode id session_id >>= λ _.
            sign_in service origin "mcp" q mode id)
          s
        ≡ (returns r, s')
      → r.action ≡ auto_approve
      → (str_eq session_id "" ≡ false) × Serves service origin "mcp" q session_id s
  served id session_id q mode s s' r h a =
      elim (>>=-returns (session_login service origin q mode id session_id)
        (λ _. sign_in service origin "mcp" q mode id) s h) [
          | inl found ↦ session_login-Serves q mode id session_id s s' r found a
          | inr (_, s₁, _, unserved) ↦
              absurd (sign_in_refuses service origin "mcp" id q mode s₁ s' r unserved a)
        ]

  mcp_login_with-Serves :
      (id session_id : String) (q : AuthRequestModel) (mode : PromptMode) (s s' : S)
      (r : LoginResult)
      → mcp_login_with service origin q mode id session_id s ≡ (returns r, s')
      → r.action ≡ auto_approve
      → (is_interactive mode ≡ false)
        × (str_eq session_id "" ≡ false)
        × Serves service origin "mcp" q session_id s
  unfolding mcp_login_with ◌>>=◌
  mcp_login_with-Serves id session_id q prompt_interactive s s' r h a = ground arith
  mcp_login_with-Serves id session_id q prompt_default s s' r h a =
      let (sent, serves) = served id session_id q prompt_default s s' r h a in (refl, sent, serves)
  mcp_login_with-Serves id session_id q prompt_silent s s' r h a =
      let (sent, serves) = served id session_id q prompt_silent s s' r h a in (refl, sent, serves)

  -- A login over the mcp channel is approved without the IdP only for a request that the store knows
  -- and that does not ask to sign in again, with a session that serves it (`Reuses`): one that the
  -- store finds, of an account that may sign in there, whose authentication is young enough for the
  -- request's max_age, and that the client, which is of the mcp channel, admits by its access policy.
  pub handle_mcp_login-approved :
      (id session_id : String) (s s' : S) (r : LoginResult)
      → handle_mcp_login service origin id session_id s ≡ (returns r, s')
      → r.action ≡ auto_approve
      → Reuses service origin "mcp" id session_id s
  unfolding handle_mcp_login call ◌>>=◌
  handle_mcp_login-approved id session_id s s' r h a =
      elim (Result-cases (store.get_auth_request_model id s).0) [
        | inl (e, lost) ↦ ground (arith, lost)
        | inr (q, found) ↦ elim (Bool-cases (str_eq id "")) [
          | inl unnamed ↦ ground (arith, unnamed)
          | inr named ↦
              let (kept, sent, serves) =
                mcp_login_with-Serves id session_id q (login_prompt_mode q.prompt)
                  (store.get_auth_request_model id s).1 s' r
                  (sym (handle_mcp_login-load service origin id session_id q s named found) ∙ h)
                  a in
              (q, found, kept, sent, serves)
        ]
      ]
