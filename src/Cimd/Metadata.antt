-- ===== src/Cimd/Metadata.antt =====
-- internal/adapter/mcp/cimd_validate.go: what a document must say to be taken as a client.
use Prim.Native.Char.{code}
use authgate.Prelude.{
  ℕ, ◌+◌, Bool, true, false, not, ◌&&◌, ◌||◌, Option, none, some, List, [], ◌∷◌, ◌++◌, String,
  Bytes, str_eq, if◌then◌else◌, any, ltb, ◌==◌, length, Result, ok, err, ◌>>=◌,
}
use authgate.Client.{Model}
use authgate.Cimd.Url.{Library, Url}

pub record CimdMetadata : Type 0 where
  pub client_id : String
  pub client_name : String
  pub redirect_uris : List String
  pub grant_types : List String
  pub response_types : List String
  pub token_endpoint_auth_method : String
  pub token_endpoint_auth_methods_supported : List String

pub data MetadataError : Type 0 where
  invalid_json client_id_mismatch client_id_too_long name_required name_too_long : MetadataError
  redirect_uris_required too_many_redirect_uris redirect_uri_empty redirect_uri_too_long :
      MetadataError
  too_many_grant_types no_authorization_code unsupported_auth_method : MetadataError
  unsupported_response_type too_many_response_types : MetadataError

-- The bytes of a code point in UTF-8, and `len` of a string.
abbrev utf8_length : ℕ → ℕ
utf8_length c = if ltb c 128 then 1 else if ltb c 2048 then 2 else if ltb c 65536 then 3 else 4

unfoldable pub len : String → ℕ
len String.[] = 0
len (String.◌∷◌ c s) = utf8_length (code c) + len s

-- `stripCIMDQuery`: the text before the first `?`.
unfoldable pub strip_cimd_query : String → String
strip_cimd_query String.[] = ""
strip_cimd_query (String.◌∷◌ c s) =
    let rest = strip_cimd_query s in if code c == b'?' then "" else String.◌∷◌ c rest

abbrev guard : Bool → MetadataError → Result MetadataError (Unit {0})
guard true e = ok tt
guard false e = err e

infixl 5 ◌>>◌
abbrev ◌>>◌ {ℓ} :
    {B : Type ℓ} → Result MetadataError (Unit {0}) → Result MetadataError B → Result MetadataError B
m >> n = m >>= λ _. n

-- The loop over `redirect_uris`.
unfoldable pub check_redirect_uris : List String → Result MetadataError (Unit {0})
check_redirect_uris [] = ok tt
check_redirect_uris (uri ∷ uris) =
    let rest = check_redirect_uris uris in
    if len uri == 0
    then err redirect_uri_empty
    else if ltb 2048 (len uri)
    then err redirect_uri_too_long
    else rest

abbrev pub contains : String → List String → Bool
contains text texts = any (λ t. str_eq t text) texts

-- The loop of `supportedCIMDGrantTypes`, where `seen` is the list built so far.
unfoldable pub known_grant_types : List String → List String → List String
known_grant_types [] supported = supported
known_grant_types (gt ∷ grant_types) supported = known_grant_types grant_types (
    if (str_eq gt "authorization_code" || str_eq gt "refresh_token") && not (contains gt supported)
    then supported ++ gt ∷ []
    else supported)

abbrev pub is_nil : {A : Type 0} → List A → Bool
is_nil [] = true
is_nil (x ∷ xs) = false

-- `supportedCIMDGrantTypes`.
unfoldable pub supported_cimd_grant_types : List String → Result MetadataError (List String)
supported_cimd_grant_types grant_types =
    if is_nil grant_types
    then ok ("authorization_code" ∷ [])
    else if ltb 8 (length grant_types)
    then err too_many_grant_types
    else if not (contains "authorization_code" (known_grant_types grant_types []))
    then err no_authorization_code
    else ok (known_grant_types grant_types [])

abbrev query_offers_none : Library → Option Url → Bool
query_offers_none lib none = false
query_offers_none lib (some u) = str_eq (lib.query_get u "token_endpoint_auth_method") "none"

-- `cimdClientOffersNone`.
unfoldable pub cimd_client_offers_none : Library → String → List String → Bool
cimd_client_offers_none lib client_id supported =
    query_offers_none lib (lib.parse client_id) || contains "none" supported

-- Whether the auth method of the document will do; an empty one is read as `none`.
abbrev pub auth_method_accepted : Library → String → CimdMetadata → Bool
auth_method_accepted lib client_id meta =
    str_eq meta.token_endpoint_auth_method ""
    || str_eq meta.token_endpoint_auth_method "none"
    || cimd_client_offers_none lib client_id meta.token_endpoint_auth_methods_supported

-- The loop over `response_types`.
abbrev pub only_code : List String → Bool
only_code types = not (any (λ t. not (str_eq t "code")) types)

abbrev pub cimd_model : String → CimdMetadata → List String → Model
cimd_model client_id meta grant_types = record {
  id = client_id;
  secret_hash = none;
  kind = "public";
  login_channel = "mcp";
  name = meta.client_name;
  redirect_uri_list = meta.redirect_uris;
  allowed_scope_list = "openid" ∷ "profile" ∷ "email" ∷ "offline_access" ∷ [];
  allowed_grant_type_list = grant_types;
  skip_pkce = false;
  uuid = "";
  url = "";
  id_token_userinfo_assertion = false;
  access = none;
}

-- `validateCIMDMetadata` on the decoded document.
unfoldable pub check_metadata : Library → String → CimdMetadata → Result MetadataError Model
check_metadata lib client_id meta = do
  guard (str_eq meta.client_id client_id || str_eq meta.client_id (strip_cimd_query client_id))
      client_id_mismatch
  guard (not (ltb 2048 (len meta.client_id))) client_id_too_long
  guard (not (str_eq meta.client_name "")) name_required
  guard (not (ltb 256 (len meta.client_name))) name_too_long
  guard (not (is_nil meta.redirect_uris)) redirect_uris_required
  guard (not (ltb 10 (length meta.redirect_uris))) too_many_redirect_uris
  check_redirect_uris meta.redirect_uris
  grant_types ← supported_cimd_grant_types meta.grant_types
  guard (auth_method_accepted lib client_id meta) unsupported_auth_method
  guard (only_code meta.response_types) unsupported_response_type
  guard (not (ltb 1 (length meta.response_types))) too_many_response_types
  ok (cimd_model client_id meta grant_types)

-- `validateCIMDMetadata`, with json.Unmarshal as `decode`.
unfoldable pub validate_cimd_metadata :
    Library → (Bytes → Option CimdMetadata) → Bytes → String → Result MetadataError Model
validate_cimd_metadata lib decode body client_id = elim (decode body) [
  | none ↦ err invalid_json
  | some meta ↦ check_metadata lib client_id meta
]
