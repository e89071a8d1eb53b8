-- ===== src/Service/Approved.antt =====
-- What stands behind an approval of a login that reuses a session: internal/service/login.go and
-- mcp_login.go.
pub mod Mcp
use authgate.Prelude.{
  ℕ, ◌≡◌, ◌≢◌, ◌∙◌, sym, ◌⊎◌, refl, inl, inr, true, false, some, String, str_eq, arith, Result, ok,
  Bool-cases, Option-cases, Result-cases,
}
use authgate.Client.{Model}
use authgate.ClientAccess.{allowed, evaluate}
use authgate.Storage.Exec.{StoreError}
use authgate.Storage.Settings.{User, AuthRequestModel, access_subject}
use authgate.Service.Step.{call, ◌>>=◌, returns, >>=-returns}
use authgate.Service.Store.{
  Service, Origin, LoginResult, auto_approve, SessionLookup, session, closed, no_session,
}
use authgate.Service.Access.{check_access, check_client_access, is_deny}
use authgate.Service.Request.{
  PromptMode, prompt_default, prompt_silent, prompt_interactive, login_prompt_mode, is_interactive,
  session_too_old_for_max_age, authorization_error_redirect, login_required, max_age_exceeded,
  verify_auth_request_channel, complete_reused_session_login,
}
use authgate.Service.Login.{
  handle_login, login_with, handle_session_login, handle_existing_session, account_inactive,
  recover_access, with_session, sign_in,
}
use authgate.Service.Prompts.{handle_login-load}

pub SessionLookup-cases :
    (l : SessionLookup)
    → ((u : User) × (l ≡ session u))
      ⊎ (((u : User) × (l ≡ closed u)) ⊎ ((e : StoreError) × (l ≡ no_session e)))
SessionLookup-cases (session u) = inl (u, refl)
SessionLookup-cases (closed u) = inr (inl (u, refl))
SessionLookup-cases (no_session e) = inr (inr (e, refl))

module _ {S : Type 0} (service : Service S) (origin : Origin) where
  open service use {store, now}

  -- The client of a request passes: it is of the channel, and its policy admits the stored account.
  abbrev pub Admits : String → AuthRequestModel → User → S → Type 0
  Admits channel q u s =
      (c : Model) × ((store.resolve_client q.client_id s).0 ≡ some c)
      × (str_eq c.login_channel channel ≡ true)
      × (evaluate c.access (access_subject u) ≡ some allowed)

  existing_admitted :
      (u : User) (q : AuthRequestModel) (t : ℕ) (mode : PromptMode) (session_id : String) (s s' : S)
      (r : LoginResult)
      → handle_existing_session service origin u q t mode session_id s ≡ (returns r, s')
      → r.action ≡ auto_approve
      → (is_deny (check_access u.status "browser") ≡ false) × Admits "browser" q u s
  unfolding handle_existing_session account_inactive recover_access check_client_access
      complete_reused_session_login login_required verify_auth_request_channel
      authorization_error_redirect call ◌>>=◌
  existing_admitted u q t mode session_id s s' r h a =
      elim (Option-cases (store.resolve_client q.client_id s).0) [
        | inl lost ↦ ground (arith, lost)
        | inr (c, found) ↦
            (ground (arith, found), (c, found, ground (arith, found), ground (arith, found)))
      ]

  -- The reads of a login with a session: which session, when its owner signed in, and the clock.
  abbrev pub looked_up : String → S → SessionLookup × S
  looked_up session_id s = store.get_valid_session session_id s

  abbrev pub timed : String → S → Result StoreError ℕ × S
  timed session_id s = store.session_auth_time session_id (looked_up session_id s).1

  abbrev pub clock : String → S → ℕ × S
  clock session_id s = now (timed session_id s).1

  -- A session of the store that may answer the request in the channel: of an account that may sign in
  -- there, young enough for the request's max_age, and admitted by the client.
  abbrev pub Serves : String → AuthRequestModel → String → S → Type 0
  Serves channel q session_id s =
      (u : User) × (t : ℕ) × ((looked_up session_id s).0 ≡ session u)
      × ((timed session_id s).0 ≡ ok t)
      × (is_deny (check_access u.status channel) ≡ false)
      × (session_too_old_for_max_age q.max_age t (clock session_id s).0 ≡ false)
      × Admits channel q u (clock session_id s).1

  -- A request that the store knows and that does not ask to sign in again, with a session that the
  -- browser sent and that serves it in the channel.
  abbrev pub Reuses : String → String → String → S → Type 0
  Reuses channel id session_id s =
      (q : AuthRequestModel) × ((store.get_auth_request_model id s).0 ≡ ok q)
      × (is_interactive (login_prompt_mode q.prompt) ≡ false)
      × (str_eq session_id "" ≡ false)
      × Serves channel q session_id (store.get_auth_request_model id s).1

  session_path :
      (q : AuthRequestModel) (mode : PromptMode) (session_id : String) (s : S) (u : User) (t : ℕ)
      → (looked_up session_id s).0 ≡ session u
      → (timed session_id s).0 ≡ ok t
      → session_too_old_for_max_age q.max_age t (clock session_id s).0 ≡ false
      → with_session service origin q mode session_id
          (looked_up session_id s).0
          (looked_up session_id s).1
        ≡ handle_existing_session service origin u q t mode session_id (clock session_id s).1
  unfolding call ◌>>=◌
  session_path q mode session_id s u t found at young = rw (found, at, young) refl

  with_session-Serves :
      (q : AuthRequestModel) (mode : PromptMode) (session_id : String) (s s' : S) (r : LoginResult)
      → with_session service origin q mode session_id
          (looked_up session_id s).0
          (looked_up session_id s).1
        ≡ (returns r, s')
      → r.action ≡ auto_approve
      → Serves "browser" q session_id s
  unfolding account_inactive login_required verify_auth_request_channel authorization_error_redirect
      call max_age_exceeded ◌>>=◌
  with_session-Serves q mode session_id s s' r h a =
      elim (SessionLookup-cases (looked_up session_id s).0) [
        | inr (inl (u, c)) ↦ ground (arith, c)
        | inr (inr (e, c)) ↦ ground (arith, c)
        | inl (u, found) ↦ elim (Result-cases (timed session_id s).0) [
          | inl (e, lost) ↦ ground (arith, found, lost)
          | inr (t, at) ↦
              elim (Bool-cases (session_too_old_for_max_age q.max_age t (clock session_id s).0)) [
                | inl old ↦ ground (arith, found, at, old)
                | inr young ↦
                    let (may, admitted) =
                      existing_admitted u q t mode session_id (clock session_id s).1 s' r
                        (sym (session_path q mode session_id s u t found at young) ∙ h) a in
                    (u, t, found, at, may, young, admitted)
              ]
        ]
      ]

  session_sent :
      (q : AuthRequestModel) (mode : PromptMode) (session_id : String) (s : S)
      → str_eq session_id "" ≡ false
      → handle_session_login service origin q mode session_id s
        ≡ with_session service origin q mode session_id
            (looked_up session_id s).0
            (looked_up session_id s).1
  unfolding handle_session_login call ◌>>=◌
  session_sent q mode session_id s sent = rw sent refl

  session_login-Serves :
      (q : AuthRequestModel) (mode : PromptMode) (session_id : String) (s s' : S) (r : LoginResult)
      → handle_session_login service origin q mode session_id s ≡ (returns r, s')
      → r.action ≡ auto_approve
      → (str_eq session_id "" ≡ false) × Serves "browser" q session_id s
  unfolding handle_session_login
  session_login-Serves q mode session_id s s' r h a = elim (Bool-cases (str_eq session_id "")) [
    | inl unsent ↦ ground (arith, unsent)
    | inr sent ↦ (
      sent,
      with_session-Serves q mode session_id s s' r (sym (session_sent q mode session_id s sent) ∙ h)
          a,
    )
  ]

  pub sign_in_refuses :
      (channel id : String) (q : AuthRequestModel) (mode : PromptMode) (s s' : S) (r : LoginResult)
      → sign_in service origin channel q mode id s ≡ (returns r, s')
      → r.action ≢ auto_approve
  unfolding login_required verify_auth_request_channel authorization_error_redirect call ◌>>=◌
  sign_in_refuses channel id q mode s s' r h = ground arith

  served :
      (id session_id : String) (q : AuthRequestModel) (mode : PromptMode) (s s' : S)
      (r : LoginResult)
      → (handle_session_login service origin q mode session_id >>= λ _.
            sign_in service origin "browser" q mode id)
          s
        ≡ (returns r, s')
      → r.action ≡ auto_approve
      → (str_eq session_id "" ≡ false) × Serves "browser" q session_id s
  served id session_id q mode s s' r h a =
      elim (>>=-returns (handle_session_login service origin q mode session_id)
        (λ _. sign_in service origin "browser" q mode id) s h) [
          | inl found ↦ session_login-Serves q mode session_id s s' r found a
          | inr (_, s₁, _, unserved) ↦
              absurd (sign_in_refuses "browser" id q mode s₁ s' r unserved a)
        ]

  login_with-Serves :
      (id session_id : String) (q : AuthRequestModel) (mode : PromptMode) (s s' : S)
      (r : LoginResult)
      → login_with service origin q mode id session_id s ≡ (returns r, s')
      → r.action ≡ auto_approve
      → (is_interactive mode ≡ false)
        × (str_eq session_id "" ≡ false)
        × Serves "browser" q session_id s
  unfolding login_with ◌>>=◌
  login_with-Serves id session_id q prompt_interactive s s' r h a = ground arith
  login_with-Serves id session_id q prompt_default s s' r h a =
      let (sent, serves) = served id session_id q prompt_default s s' r h a in (refl, sent, serves)
  login_with-Serves id session_id q prompt_silent s s' r h a =
      let (sent, serves) = served id session_id q prompt_silent s s' r h a in (refl, sent, serves)

  -- A browser login is approved without a page or the IdP only for a request that the store knows and
  -- that does not ask to sign in again, with a session that serves it (`Reuses`): one that the store
  -- finds, of an account that may sign in, whose authentication is young enough for the request's
  -- max_age, and that the client, which is of the browser channel, admits by its access policy.
  pub handle_login-approved :
      (id session_id : String) (s s' : S) (r : LoginResult)
      → handle_login service origin id session_id s ≡ (returns r, s')
      → r.action ≡ auto_approve
      → Reuses "browser" id session_id s
  unfolding handle_login call ◌>>=◌
  handle_login-approved id session_id s s' r h a =
      elim (Result-cases (store.get_auth_request_model id s).0) [
        | inl (e, lost) ↦ ground (arith, lost)
        | inr (q, found) ↦ elim (Bool-cases (str_eq id "")) [
          | inl unnamed ↦ ground (arith, unnamed)
          | inr named ↦
              let (kept, sent, serves) =
                login_with-Serves id session_id q (login_prompt_mode q.prompt)
                  (store.get_auth_request_model id s).1 s' r
                  (sym (handle_login-load service origin id session_id q s named found) ∙ h) a in
              (q, found, kept, sent, serves)
        ]
      ]
