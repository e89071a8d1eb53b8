-- ===== src/Client/Tests.antt =====
-- A registry of two clients, and the resource policies at it.
use authgate.Prelude.{◌≡◌, refl, false, none, some, [], ◌∷◌, String, ok, err}
use authgate.Client.{
  Model, Registry, load, mcp_refuses, core_validate_token, invalid_target, invalid_grant,
  mcp_validate_authorize, mcp_validate_token,
}

abbrev agent : Model
agent = record {
  id = "agent";
  secret_hash = none;
  kind = "public";
  login_channel = "mcp";
  name = "Agent";
  redirect_uri_list = [];
  allowed_scope_list = "openid" ∷ [];
  allowed_grant_type_list = "authorization_code" ∷ [];
  skip_pkce = false;
  uuid = "";
  url = "";
  id_token_userinfo_assertion = false;
  access = none;
}

abbrev web : Model
web = record agent { id = "web"; login_channel = "browser"; name = "Web" }

abbrev registry : Registry
registry = agent ∷ web ∷ []

-- Both policies evaluated at one accepted and at several refused requests.
runs :
    (mcp_validate_token registry "agent" "https://api" "https://api" ≡ ok tt)
    × (mcp_validate_token registry "agent" "https://api" "" ≡ err invalid_target)
    × (mcp_validate_token registry "web" "https://api" "https://api" ≡ err invalid_grant)
    × (mcp_validate_token registry "web" "" "https://api" ≡ err invalid_target)
    × (mcp_validate_authorize (some web) "https://api" ≡ err invalid_target)
unfolding mcp_validate_token mcp_validate_authorize mcp_refuses core_validate_token load
runs = (refl, refl, refl, refl, refl)

abbrev api : String
api = "https://api"
