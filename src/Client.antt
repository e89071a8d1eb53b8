-- ===== src/Client.antt =====
-- internal/client: the client model, the static registry, and the resource binding policies of
-- internal/client/policy.go and internal/adapter/mcp/policy.go.
pub mod Resources
pub mod Config
pub mod Loaded
mod Tests
use authgate.Prelude.{
  Bool, true, false, not, ◌&&◌, ◌||◌, Option, none, some, List, [], ◌∷◌, String, str_eq, Result, ok,
  err, if◌then◌else◌, any,
}
use authgate.ClientAccess.{Policy}

pub record Model : Type 0 where
  pub uuid : String
  pub id : String
  pub secret_hash : Option String
  pub kind : String
  pub login_channel : String
  pub name : String
  pub url : String
  pub redirect_uri_list : List String
  pub allowed_scope_list : List String
  pub allowed_grant_type_list : List String
  pub skip_pkce : Bool
  pub id_token_userinfo_assertion : Bool
  pub access : Option Policy

-- The `sync.Map` from client_id to model.
abbrev pub Registry : Type 0
Registry = List Model

-- `clients.Load`.
unfoldable pub load : Registry → String → Option Model
load [] client_id = none
load (c ∷ reg) client_id = if str_eq c.id client_id then some c else load reg client_id

unfoldable pub static_access : Registry → String → Option Policy
static_access reg client_id = elim (load reg client_id) [ none ↦ none | some c ↦ c.access ]

unfoldable pub static_login_channel : Registry → String → String
static_login_channel reg client_id = elim (load reg client_id) [
  | none ↦ ""
  | some c ↦ c.login_channel
]

unfoldable pub static_name : Registry → String → String
static_name reg client_id = elim (load reg client_id) [ none ↦ "" | some c ↦ c.name ]

abbrev pub has_secret : Option String → Bool
has_secret none = false
has_secret (some hash) = not (str_eq hash "")

unfoldable pub static_refresh_grace_allowed : Registry → String → Bool
unfolding load
static_refresh_grace_allowed reg client_id = elim (load reg client_id) [
  | none ↦ false
  | some c ↦ str_eq c.kind "confidential" && has_secret c.secret_hash
]

-- `IsScopeAllowed`.
unfoldable pub is_scope_allowed : Model → String → Bool
is_scope_allowed c scope = any (λ s. str_eq s scope) c.allowed_scope_list

-- The error types of an *oidc.Error that the policies return.
pub data ResourceError : Type 0 where
  invalid_target invalid_grant : ResourceError

-- `coreResourceBindingPolicy.ValidateTokenRequest`; its ValidateAuthorizeRequest accepts.
unfoldable pub core_validate_token : String → String → Result ResourceError (Unit {0})
core_validate_token stored requested =
    if not (str_eq stored "")
    then (if str_eq requested ""
        then err invalid_target
        else if not (str_eq requested stored)
        then err invalid_target
        else ok tt)
    else if not (str_eq requested "")
    then err invalid_target
    else ok tt

-- `resourceBindingPolicy.ValidateAuthorizeRequest` over the core policy.
unfoldable pub mcp_validate_authorize : Option Model → String → Result ResourceError (Unit {0})
mcp_validate_authorize none requested = ok tt
mcp_validate_authorize (some c) requested =
    if str_eq c.login_channel "mcp"
    then (if str_eq requested "" then err invalid_target else ok tt)
    else if not (str_eq requested "")
    then err invalid_target
    else ok tt

-- `resourceBindingPolicy.ValidateTokenRequest`, with the core registry as its resolver.
unfoldable pub mcp_refuses : Option Model → Bool
mcp_refuses none = false
mcp_refuses (some c) = not (str_eq c.login_channel "mcp")

unfoldable pub mcp_validate_token :
    Registry → String → String → String → Result ResourceError (Unit {0})
unfolding core_validate_token
mcp_validate_token reg client_id stored requested =
    if (not (str_eq stored "") || not (str_eq requested "")) && mcp_refuses (load reg client_id)
    then (if not (str_eq stored "") then err invalid_grant else err invalid_target)
    else core_validate_token stored requested
