-- ===== src/Client/Loaded/Tests.antt =====
-- A clients.yaml of two clients, and the theorems at it.
use authgate.Prelude.{
  ◌≡◌, refl, true, false, none, some, List, [], ◌∷◌, String, bytes_eq, All, ok, err,
}
use authgate.Strings.{trim_space}
use authgate.Client.{load}
use authgate.Cimd.Url.{Library, is_cimd_client_id}
use authgate.Client.Config.{
  ConfigEntry, ConfigFile, scalar, alias, other_node, access_empty, reject_empty_access,
  check_entry, check_entries, check_uris, load_config, load_clients, utf8, pkce_public, pkce_mcp,
  duplicate_client_id,
}
use authgate.Client.Loaded.{
  IsServable, Distinct, AccessGiven, find_entry, model_in, load_config-IsServable, load-load_config,
}

-- A library that takes no text for a URL.
abbrev no_urls : Library
no_urls = record {
  parse = λ s. none;
  parse_request_uri = λ s. none;
  hostname = λ u. "";
  port = λ u. "";
  to_string = λ u. "";
  query_get = λ u key. "";
  clean = λ path. path;
  to_lower = λ s. s;
}

abbrev entry : String → String → ConfigEntry
entry id channel = record {
  client_id = id;
  client_secret_hash = some "hash";
  client_type = "confidential";
  skip_pkce = false;
  url = "";
  id_token_userinfo_assertion = false;
  login_channel = channel;
  name = "Web";
  redirect_uris = "https://app.example.com" ∷ [];
  allowed_scopes = "openid" ∷ [];
  allowed_grant_types = "authorization_code" ∷ "refresh_token" ∷ [];
  access = none;
}

-- A file whose second client's access, an alias, is given.
abbrev file : List ConfigEntry → ConfigFile
file entries = record {
  clients = entries;
  access_nodes = some (other_node ∷ alias (scalar "!!str") ∷ []);
}

abbrev declared : List ConfigEntry
declared = record (entry "web" "") { skip_pkce = true } ∷ entry "agent" "mcp" ∷ []

abbrev returned : List ConfigEntry
returned = record (entry "web" "browser") { skip_pkce = true } ∷ entry "agent" "mcp" ∷ []

loads :
    (load_config no_urls (file declared) ≡ ok returned)
    × (load_config no_urls (file (entry "web" "" ∷ entry "web" "mcp" ∷ []))
        ≡ err duplicate_client_id)
    × (load_config no_urls (file (record (entry "web" "mcp") { skip_pkce = true } ∷ []))
        ≡ err pkce_mcp)
    × (load_config no_urls
          (file (record (entry "web" "") { skip_pkce = true; client_type = "public" } ∷ []))
        ≡ err pkce_public)
    × (load_config no_urls
          (record (file declared) { access_nodes = some (alias (scalar "!!null") ∷ []) })
        ≡ err access_empty)
unfolding check_entries check_entry reject_empty_access check_uris utf8 trim_space bytes_eq
    is_cimd_client_id
loads = (refl, refl, refl, refl, refl)

load_config-IsServable_example :
    All (IsServable no_urls) returned × Distinct returned × AccessGiven (file declared).access_nodes
unfolding check_entries check_entry reject_empty_access check_uris utf8 trim_space bytes_eq
    is_cimd_client_id
load_config-IsServable_example = load_config-IsServable no_urls (file declared) returned refl

load-load_config_example :
    load (load_clients no_urls returned []) "agent" ≡ model_in (find_entry "agent" returned) none
unfolding check_entries check_entry reject_empty_access check_uris utf8 trim_space bytes_eq
    is_cimd_client_id
load-load_config_example = load-load_config no_urls (file declared) returned "agent" refl
