-- ===== src/Service/Prompts.antt =====
-- What the prompt of a request makes of a login: internal/service/prompt.go as login.go and
-- mcp_login.go use it.
use authgate.Prelude.{
  ◌≡◌, ◌≢◌, ◌⊎◌, refl, inl, inr, Bool, true, false, ◌||◌, List, [], ◌∷◌, String, str_eq, arith, ok,
  any,
}
use authgate.Storage.Settings.{AuthRequestModel}
use authgate.Service.Step.{call, ◌>>=◌, returns}
use authgate.Service.Store.{Service, Origin, LoginResult, redirect_to_idp}
use authgate.Service.Access.{check_client_access}
use authgate.Service.Request.{
  PromptMode, prompt_default, prompt_silent, prompt_interactive, prompt_mode_from,
  login_prompt_mode, redirect_to_provider_selecting_account, authorization_error_redirect,
  login_required, max_age_exceeded, verify_auth_request_channel, complete_reused_session_login,
}
use authgate.Service.Login.{
  handle_login, login_with, handle_session_login, handle_existing_session, account_inactive,
  recover_access,
}
use authgate.Service.Mcp.{handle_mcp_login, mcp_login_with, session_login, reuse_session}

abbrev pub asks_to_sign_in : String → Bool
asks_to_sign_in value = str_eq value "login" || str_eq value "select_account"

abbrev pub is_none : String → Bool
is_none value = str_eq value "none"

-- The mode of a list by which of the values it has, in any order.
abbrev pub mode_of : Bool → Bool → PromptMode
mode_of true interactive = prompt_silent
mode_of false true = prompt_interactive
mode_of false false = prompt_default

mode_from :
    (prompt : List String)
    → (mode_of (any is_none prompt) (any asks_to_sign_in prompt)
        ≡ prompt_mode_from prompt_default prompt)
      × (mode_of (any is_none prompt) true ≡ prompt_mode_from prompt_interactive prompt)
unfolding prompt_mode_from
mode_from [] = (refl, refl)
mode_from (value ∷ prompt) = ground (arith, mode_from prompt)

-- The prompt mode of a request depends only on which values its prompt has: it is silent if one of
-- them is `none`, else interactive if one is `login` or `select_account`, and else the default.
pub login_prompt_mode_lem :
    (prompt : List String)
    → login_prompt_mode prompt ≡ mode_of (any is_none prompt) (any asks_to_sign_in prompt)
login_prompt_mode_lem prompt = ground (arith, mode_from prompt)

module _ {S : Type 0} (service : Service S) (origin : Origin) where
  open service use {store}

  -- A request that the store knows goes on with its prompt mode.
  pub handle_login-load :
      (id session_id : String) (q : AuthRequestModel) (s : S)
      → str_eq id "" ≡ false
      → (store.get_auth_request_model id s).0 ≡ ok q
      → handle_login service origin id session_id s
        ≡ login_with service origin q
            (login_prompt_mode q.prompt)
            id
            session_id
            (store.get_auth_request_model id s).1
  unfolding handle_login call ◌>>=◌
  handle_login-load id session_id q s named loaded = rw (named, loaded) refl

  pub handle_mcp_login-load :
      (id session_id : String) (q : AuthRequestModel) (s : S)
      → str_eq id "" ≡ false
      → (store.get_auth_request_model id s).0 ≡ ok q
      → handle_mcp_login service origin id session_id s
        ≡ mcp_login_with service origin q
            (login_prompt_mode q.prompt)
            id
            session_id
            (store.get_auth_request_model id s).1
  unfolding handle_mcp_login call ◌>>=◌
  handle_mcp_login-load id session_id q s named loaded = rw (named, loaded) refl

  login_with-silent :
      (id session_id : String) (q : AuthRequestModel) (s s' : S) (r : LoginResult)
      → login_with service origin q prompt_silent id session_id s ≡ (returns r, s')
      → r.action ≢ redirect_to_idp
  unfolding login_with handle_session_login handle_existing_session account_inactive recover_access
      check_client_access complete_reused_session_login login_required verify_auth_request_channel
      authorization_error_redirect call ◌>>=◌ max_age_exceeded
  login_with-silent id session_id q s s' r h = ground arith

  mcp_login_with-silent :
      (id session_id : String) (q : AuthRequestModel) (s s' : S) (r : LoginResult)
      → mcp_login_with service origin q prompt_silent id session_id s ≡ (returns r, s')
      → r.action ≢ redirect_to_idp
  unfolding mcp_login_with session_login reuse_session account_inactive check_client_access
      complete_reused_session_login login_required verify_auth_request_channel
      authorization_error_redirect call ◌>>=◌ max_age_exceeded
  mcp_login_with-silent id session_id q s s' r h = ground arith

  -- A browser or mcp login for a request with prompt=none that the store knows is never answered with
  -- a redirect to the IdP, whatever the session, the account, the client and the store's errors.
  pub handle_login-silent :
      (id session_id : String) (q : AuthRequestModel) (s s' : S) (r : LoginResult)
      → str_eq id "" ≡ false
      → (store.get_auth_request_model id s).0 ≡ ok q
      → login_prompt_mode q.prompt ≡ prompt_silent
      → (handle_login service origin id session_id s ≡ (returns r, s'))
        ⊎ (handle_mcp_login service origin id session_id s ≡ (returns r, s'))
      → r.action ≢ redirect_to_idp
  handle_login-silent id session_id q s s' r named loaded silent (inl h) =
      login_with-silent id session_id q (store.get_auth_request_model id s).1 s' r
        (rw (← silent, ← handle_login-load id session_id q s named loaded) h)
  handle_login-silent id session_id q s s' r named loaded silent (inr h) =
      mcp_login_with-silent id session_id q (store.get_auth_request_model id s).1 s' r
        (rw (← silent, ← handle_mcp_login-load id session_id q s named loaded) h)

  -- A browser or mcp login for a request with prompt=login or prompt=select_account, and not none, is
  -- answered with a redirect to the IdP that asks for its account chooser. It makes no call of the
  -- store beyond the load of the request, so it reads no session, whichever one the browser sent.
  pub handle_login-interactive :
      (id session_id : String) (q : AuthRequestModel) (s : S)
      → str_eq id "" ≡ false
      → (store.get_auth_request_model id s).0 ≡ ok q
      → login_prompt_mode q.prompt ≡ prompt_interactive
      → (handle_login service origin id session_id s ≡ (
        returns (redirect_to_provider_selecting_account id),
        (store.get_auth_request_model id s).1,
      ))
        × (handle_mcp_login service origin id session_id s ≡ (
          returns (redirect_to_provider_selecting_account id),
          (store.get_auth_request_model id s).1,
        ))
  unfolding login_with mcp_login_with ◌>>=◌
  handle_login-interactive id session_id q s named loaded interactive = (
    rw (handle_login-load id session_id q s named loaded, interactive) refl,
    rw (handle_mcp_login-load id session_id q s named loaded, interactive) refl,
  )
