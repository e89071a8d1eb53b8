-- ===== src/Service/Signup.antt =====
-- What stands behind an approval of a browser callback: internal/service/login_callback.go.
use authgate.Prelude.{
  ◌≡◌, ◌≢◌, ◌∙◌, sym, refl, inl, inr, true, false, Option, some, String, str_eq, arith, Result, ok,
  err, Bool-cases, Option-cases, Result-cases,
}
use authgate.Client.{Model}
use authgate.ClientAccess.{allowed, evaluate}
use authgate.Storage.Exec.{StoreError, not_found}
use authgate.Storage.Settings.{User, AuthRequestModel, access_subject}
use authgate.Service.Step.{call, ◌>>=◌, returns, continues, >>=-returns}
use authgate.Service.Store.{Service, Origin, CallbackResult, auto_approve, UserInfo}
use authgate.Service.Access.{
  check_access, is_deny, check_client_access, check_existing_account_access, record_hosted_domain,
  access_subject_from_upstream, resolve_client_name,
}
use authgate.Service.Request.{authorization_error_redirect, verify_auth_request_channel}
use authgate.Service.Callback.{
  Prepared, prepare_new_user, prepare_existing_user, prepare_found, prepare_browser_callback_user,
  ensure_browser_access, signup_browser_user, finish_browser_login, complete_browser_login,
}

module _ {S : Type 0} (service : Service S) (origin : Origin) where
  open service use {store, provider_name}

  existing_admitted :
      (u : User) (info : UserInfo) (q : AuthRequestModel) (c : Model) (s s' : S) (p : Prepared)
      → prepare_existing_user service origin u info q c s ≡ (continues p, s')
      → (is_deny (check_access u.status "browser") ≡ false)
        × (evaluate c.access (access_subject_from_upstream info) ≡ some allowed)
        × (evaluate c.access (access_subject (record u { hosted_domain = info.hosted_domain }))
            ≡ some allowed)
  unfolding prepare_existing_user ensure_browser_access check_existing_account_access
      check_client_access record_hosted_domain authorization_error_redirect call ◌>>=◌
  existing_admitted u info q c s s' p h = ground arith

  new_admitted :
      (info : UserInfo) (q : AuthRequestModel) (c : Model) (s s' : S) (p : Prepared)
      → prepare_new_user service origin info q c s ≡ (continues p, s')
      → evaluate c.access (access_subject_from_upstream info) ≡ some allowed
  unfolding prepare_new_user check_client_access authorization_error_redirect call ◌>>=◌
  new_admitted info q c s s' p h = ground arith

  existing_refuses :
      (u : User) (info : UserInfo) (q : AuthRequestModel) (c : Model) (s s' : S)
      (r : CallbackResult)
      → prepare_existing_user service origin u info q c s ≡ (returns r, s')
      → r.action ≢ auto_approve
  unfolding prepare_existing_user ensure_browser_access check_existing_account_access
      check_client_access record_hosted_domain authorization_error_redirect call ◌>>=◌
  existing_refuses u info q c s s' r h = ground arith

  new_refuses :
      (info : UserInfo) (q : AuthRequestModel) (c : Model) (s s' : S) (r : CallbackResult)
      → prepare_new_user service origin info q c s ≡ (returns r, s')
      → r.action ≢ auto_approve
  unfolding prepare_new_user signup_browser_user check_client_access authorization_error_redirect
      call ◌>>=◌ resolve_client_name
  new_refuses info q c s s' r h = ground arith

  -- Who may finish a callback, by what the store knows of the identity: an account that may sign in
  -- and whose fresh and stored claims the client admits, or a new person whose claims it admits.
  abbrev pub Admitted : Result StoreError User → UserInfo → Model → Type 0
  Admitted (ok u) info c =
      (is_deny (check_access u.status "browser") ≡ false)
      × (evaluate c.access (access_subject_from_upstream info) ≡ some allowed)
      × (evaluate c.access (access_subject (record u { hosted_domain = info.hosted_domain }))
          ≡ some allowed)
  Admitted (err not_found) info c =
      evaluate c.access (access_subject_from_upstream info) ≡ some allowed
  Admitted (err e) info c = ⊥

  found-Admitted :
      (f : Result StoreError User) (info : UserInfo) (q : AuthRequestModel) (c : Model) (s s' : S)
      (p : Prepared)
      → prepare_found service origin f info q c s ≡ (continues p, s')
      → Admitted f info c
  found-Admitted (ok u) info q c s s' p h = existing_admitted u info q c s s' p h
  found-Admitted (err not_found) info q c s s' p h = new_admitted info q c s s' p h
  found-Admitted (err e) info q c s s' p h = ground arith

  found_refuses :
      (f : Result StoreError User) (info : UserInfo) (q : AuthRequestModel) (c : Model) (s s' : S)
      (r : CallbackResult)
      → prepare_found service origin f info q c s ≡ (returns r, s')
      → r.action ≢ auto_approve
  found_refuses (ok u) info q c s s' r h = existing_refuses u info q c s s' r h
  found_refuses (err not_found) info q c s s' r h = new_refuses info q c s s' r h
  found_refuses (err e) info q c s s' r h = ground arith

  -- The calls before the account is known: the request, its client, and the account of the identity.
  abbrev pub loaded : String → S → Result StoreError AuthRequestModel × S
  loaded id s = store.get_auth_request_model id s

  abbrev pub resolved : String → String → S → Option Model × S
  resolved id client_id s = store.resolve_client client_id (loaded id s).1

  abbrev pub identified : String → String → String → S → Result StoreError User × S
  identified id client_id sub s =
      store.get_user_by_provider_identity provider_name sub (resolved id client_id s).1

  abbrev pub MayFinish : String → UserInfo → S → Type 0
  MayFinish id info s =
      (q : AuthRequestModel) × (c : Model) × ((loaded id s).0 ≡ ok q)
      × ((resolved id q.client_id s).0 ≡ some c)
      × (str_eq c.login_channel "browser" ≡ true)
      × Admitted (identified id q.client_id info.sub s).0 info c

  pub callback_path :
      (id : String) (info : UserInfo) (q : AuthRequestModel) (c : Model) (s : S)
      → str_eq id "" ≡ false
      → (loaded id s).0 ≡ ok q
      → (resolved id q.client_id s).0 ≡ some c
      → str_eq c.login_channel "browser" ≡ true
      → complete_browser_login service origin id (some info) s
        ≡ (prepare_found service origin (identified id q.client_id info.sub s).0 info q c
              >>= finish_browser_login service origin id q c)
            (identified id q.client_id info.sub s).1
  unfolding complete_browser_login verify_auth_request_channel prepare_browser_callback_user call
      ◌>>=◌
  callback_path id info q c s named found known right = rw (named, found, known, right) refl

  finished :
      (id : String) (info : UserInfo) (q : AuthRequestModel) (c : Model) (s s' : S)
      (r : CallbackResult)
      → (prepare_found service origin (identified id q.client_id info.sub s).0 info q c
            >>= finish_browser_login service origin id q c)
          (identified id q.client_id info.sub s).1
        ≡ (returns r, s')
      → r.action ≡ auto_approve
      → Admitted (identified id q.client_id info.sub s).0 info c
  finished id info q c s s' r h a =
      let f = (identified id q.client_id info.sub s).0 in
      let s₁ = (identified id q.client_id info.sub s).1 in
      elim (>>=-returns (prepare_found service origin f info q c)
        (finish_browser_login service origin id q c) s₁ h) [
          | inl k ↦ absurd (found_refuses f info q c s₁ s' r k a)
          | inr (p, s₂, k, _) ↦ found-Admitted f info q c s₁ s₂ p k
        ]

  -- A browser callback is approved only for a request that the store knows, whose client is of the
  -- browser channel, and (`MayFinish`) for a person that `Admitted` describes: an account that may sign in, with
  -- the claims that the IdP just made and the stored ones both admitted by the client's policy, or
  -- without an account a person whose fresh claims it admits.
  pub complete_browser_login-approved :
      (id : String) (info : UserInfo) (s s' : S) (r : CallbackResult)
      → complete_browser_login service origin id (some info) s ≡ (returns r, s')
      → r.action ≡ auto_approve
      → MayFinish id info s
  unfolding complete_browser_login verify_auth_request_channel call ◌>>=◌
  complete_browser_login-approved id info s s' r h a = elim (Result-cases (loaded id s).0) [
    | inl (e, lost) ↦ ground (arith, lost)
    | inr (q, found) ↦ elim (Option-cases (resolved id q.client_id s).0) [
      | inl gone ↦ ground (arith, found, gone)
      | inr (c, known) ↦ elim (Bool-cases (str_eq c.login_channel "browser")) [
        | inr wrong ↦ ground (arith, found, known, wrong)
        | inl right ↦ elim (Bool-cases (str_eq id "")) [
          | inl unnamed ↦ ground (arith, unnamed)
          | inr named ↦ (
            q,
            c,
            found,
            known,
            right,
            finished id info q c s s' r
                (sym (callback_path id info q c s named found known right) ∙ h) a,
          )
        ]
      ]
    ]
  ]
