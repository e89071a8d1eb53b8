-- ===== src/Client/Config.antt =====
-- internal/client/config.go and `Load` of registry.go: the checks on clients.yaml once it is decoded,
-- and the table of static clients that it fills.
use Prim.Native.Char.{code}
use authgate.Prelude.{
  ℕ, ◌+◌, ◌/◌, ◌%◌, Bool, true, false, not, ◌&&◌, Option, none, some, List, [], ◌∷◌, String, Bytes,
  bytes_eq, str_eq, if◌then◌else◌, any, ltb, length, Result, ok, err, ◌>>=◌, ◌>>◌, refuse,
}
use authgate.Strings.{trim_space}
use authgate.ClientAccess.{Policy}
use authgate.Client.{Model, Registry}
use authgate.Cimd.Url.{Library, is_cimd_client_id}

-- `ConfigEntry`.
pub record ConfigEntry : Type 0 where
  pub client_id : String
  pub client_secret_hash : Option String
  pub client_type : String
  pub skip_pkce : Bool
  pub id_token_userinfo_assertion : Bool
  pub login_channel : String
  pub name : String
  pub url : String
  pub redirect_uris : List String
  pub allowed_scopes : List String
  pub allowed_grant_types : List String
  pub access : Option Policy

-- What `rejectEmptyAccess` reads of a node: a scalar with its short tag, an alias with the node that it
-- stands for, or anything else, the node of a missing key included.
pub data YamlNode : Type 0 where
  scalar : String → YamlNode
  alias : YamlNode → YamlNode
  other_node : YamlNode

-- What the YAML decoder gives of clients.yaml: its clients, and the nodes of their access keys, which
-- are decoded a second time, `none` if that fails.
pub record ConfigFile : Type 0 where
  pub clients : List ConfigEntry
  pub access_nodes : Option (List YamlNode)

pub data ConfigError : Type 0 where
  client_id_required client_id_untrimmed client_id_too_long url_form duplicate_client_id :
      ConfigError
  bad_client_type secret_required bad_login_channel pkce_public pkce_mcp name_required : ConfigError
  name_too_long redirect_uri_required too_many_redirect_uris redirect_uri_empty : ConfigError
  redirect_uri_too_long scope_required grant_type_required too_many_grant_types : ConfigError
  unsupported_grant_type unreadable access_empty : ConfigError

-- The UTF-8 bytes of a string.
abbrev encode : ℕ → Bytes → Bytes
encode c rest =
    if ltb c 128
    then c ∷ rest
    else if ltb c 2048
    then (192 + c / 64) ∷ (128 + c % 64) ∷ rest
    else if ltb c 65536
    then (224 + c / 4096) ∷ (128 + (c / 64) % 64) ∷ (128 + c % 64) ∷ rest
    else (240 + c / 262144)
      ∷ (128 + (c / 4096) % 64)
      ∷ (128 + (c / 64) % 64)
      ∷ (128 + c % 64)
      ∷ rest

unfoldable pub utf8 : String → Bytes
utf8 String.[] = []
utf8 (String.◌∷◌ c s) = encode (code c) (utf8 s)

abbrev is_trimmed : String → Bool
is_trimmed s = bytes_eq (trim_space (utf8 s)) (utf8 s)

abbrev is_blank : String → Bool
is_blank s = bytes_eq (trim_space (utf8 s)) []

abbrev pub secret_missing : Option String → Bool
secret_missing none = true
secret_missing (some hash) = is_blank hash

abbrev is_nil : List String → Bool
is_nil [] = true
is_nil (x ∷ xs) = false

abbrev pub listed : String → List String → Bool
listed text texts = any (λ t. str_eq t text) texts

abbrev pub allowed_grants : List String
allowed_grants =
    "authorization_code" ∷ "refresh_token" ∷ "urn:ietf:params:oauth:grant-type:device_code" ∷ []

-- The channel with its default.
abbrev pub channel_of : String → String
channel_of channel = if str_eq channel "" then "browser" else channel

-- The loops over redirect_uris and allowed_grant_types.
unfoldable pub check_uris : List String → Result ConfigError (Unit {0})
check_uris [] = ok tt
check_uris (uri ∷ uris) =
    let rest = check_uris uris in
    if is_blank uri
    then err redirect_uri_empty
    else if ltb 2048 (length (utf8 uri))
    then err redirect_uri_too_long
    else rest

abbrev grants_allowed : List String → Bool
grants_allowed grants = not (any (λ g. not (listed g allowed_grants)) grants)

-- One round of the loop of `LoadConfig`: the entry with its channel.
unfoldable pub check_entry : Library → List String → ConfigEntry → Result ConfigError ConfigEntry
check_entry lib seen c = do
  refuse (str_eq c.client_id "") client_id_required
  refuse (not (is_trimmed c.client_id)) client_id_untrimmed
  refuse (ltb 2048 (length (utf8 c.client_id))) client_id_too_long
  refuse (is_cimd_client_id lib c.client_id) url_form
  refuse (listed c.client_id seen) duplicate_client_id
  refuse (not (str_eq c.client_type "public") && not (str_eq c.client_type "confidential"))
      bad_client_type
  refuse (str_eq c.client_type "confidential" && secret_missing c.client_secret_hash)
      secret_required
  refuse
      (not (str_eq (channel_of c.login_channel) "browser")
        && not (str_eq (channel_of c.login_channel) "mcp"))
      bad_login_channel
  refuse (c.skip_pkce && not (str_eq c.client_type "confidential")) pkce_public
  refuse (c.skip_pkce && str_eq (channel_of c.login_channel) "mcp") pkce_mcp
  refuse (str_eq c.name "") name_required
  refuse (ltb 256 (length (utf8 c.name))) name_too_long
  refuse (is_nil c.redirect_uris) redirect_uri_required
  refuse (ltb 10 (length c.redirect_uris)) too_many_redirect_uris
  check_uris c.redirect_uris
  refuse (is_nil c.allowed_scopes) scope_required
  refuse (is_nil c.allowed_grant_types) grant_type_required
  refuse (ltb 3 (length c.allowed_grant_types)) too_many_grant_types
  refuse (not (grants_allowed c.allowed_grant_types)) unsupported_grant_type
  ok (record c { login_channel = channel_of c.login_channel })

-- The loop of `LoadConfig`, with the ids seen so far.
unfoldable pub check_entries :
    Library → List String → List ConfigEntry → Result ConfigError (List ConfigEntry)
check_entries lib seen [] = ok []
check_entries lib seen (c ∷ cs) = do
  kept ← check_entry lib seen c
  rest ← check_entries lib (c.client_id ∷ seen) cs
  ok (kept ∷ rest)

-- A null, itself or through aliases.
unfoldable pub is_null : YamlNode → Bool
is_null (scalar tag) = str_eq tag "!!null"
is_null (alias node) = is_null node
is_null other_node = false

-- `rejectEmptyAccess`.
unfoldable pub reject_empty_access : Option (List YamlNode) → Result ConfigError (Unit {0})
unfolding is_null
reject_empty_access none = err unreadable
reject_empty_access (some nodes) = refuse (any is_null nodes) access_empty

-- `LoadConfig` on what the YAML decoder gives.
abbrev pub load_config : Library → ConfigFile → Result ConfigError (List ConfigEntry)
load_config lib file = reject_empty_access file.access_nodes >> check_entries lib [] file.clients

abbrev pub model_of : ConfigEntry → Model
model_of c = record {
  uuid = "";
  id = c.client_id;
  secret_hash = c.client_secret_hash;
  kind = c.client_type;
  login_channel = c.login_channel;
  name = c.name;
  url = c.url;
  redirect_uri_list = c.redirect_uris;
  allowed_scope_list = c.allowed_scopes;
  allowed_grant_type_list = c.allowed_grant_types;
  skip_pkce = c.skip_pkce;
  id_token_userinfo_assertion = c.id_token_userinfo_assertion;
  access = c.access;
}

-- `Load`: a stored model hides an earlier one of the same id.
unfoldable pub load_clients : Library → List ConfigEntry → Registry → Registry
load_clients lib [] reg = reg
load_clients lib (c ∷ cs) reg =
    load_clients lib cs (if is_cimd_client_id lib c.client_id then reg else model_of c ∷ reg)
