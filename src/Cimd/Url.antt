-- ===== src/Cimd/Url.antt =====
-- What the code uses of net/url, path and encoding/json, and internal/client/cimd.go with the canonical
-- form of internal/adapter/mcp/cimd.go.
use authgate.Prelude.{
  Bool, false, not, ◌&&◌, ◌||◌, Option, none, some, String, codes, str_eq, if◌then◌else◌, ltb, any,
  all, ◌==◌,
}

-- The `+` of strings.
unfoldable pub append : String → String → String
append String.[] t = t
append (String.◌∷◌ c s) t = String.◌∷◌ c (append s t)

-- `url.URL` without its opaque and forced-query fields, which an https URL leaves alone.
pub record Url : Type 0 where
  pub scheme : String
  -- Whether there is a userinfo.
  pub has_user : Bool
  pub host : String
  pub path : String
  pub raw_path : String
  pub raw_query : String
  pub fragment : String

-- The functions of the libraries.
pub record Library : Type 0 where
  -- url.Parse and url.ParseRequestURI; `none` is an error.
  pub parse : String → Option Url
  pub parse_request_uri : String → Option Url
  -- The methods Hostname, Port and String of a URL, and Get on its Query.
  pub hostname : Url → String
  pub port : Url → String
  pub to_string : Url → String
  pub query_get : Url → String → String
  -- path.Clean and strings.ToLower.
  pub clean : String → String
  pub to_lower : String → String

abbrev has_hash : String → Bool
has_hash text = any (λ c. c == b'#') (codes text)

abbrev request_uri_is_cimd : Library → Option Url → Bool
request_uri_is_cimd lib none = false
request_uri_is_cimd lib (some u) =
    if not (str_eq u.scheme "https")
    then false
    else if str_eq u.host "" || str_eq (lib.hostname u) ""
    then false
    else if u.has_user
    then false
    else not (str_eq u.path "" || str_eq u.path "/")

-- `isCIMDClientID`.
unfoldable pub is_cimd_client_id : Library → String → Bool
is_cimd_client_id lib client_id =
    if has_hash client_id then false else request_uri_is_cimd lib (lib.parse_request_uri client_id)

abbrev canonical_host : Library → Url → String
canonical_host lib u =
    let host = lib.to_lower (lib.hostname u) in
    if not (str_eq (lib.port u) "") && not (str_eq (lib.port u) "443")
    then append host (append ":" (lib.port u))
    else host

abbrev canonical_path : Library → String → String
canonical_path lib path =
    if str_eq path "" then path else if str_eq (lib.clean path) "." then "/" else lib.clean path

abbrev canonical_of : Library → String → Option Url → String
canonical_of lib client_id none = client_id
canonical_of lib client_id (some u) =
    if str_eq u.scheme "" || str_eq u.host ""
    then client_id
    else lib.to_string (record u {
      host = canonical_host lib u;
      path = canonical_path lib u.path;
      raw_path = "";
      fragment = "";
    })

-- `canonicalCIMDKey`.
unfoldable pub canonical_cimd_key : Library → String → String
canonical_cimd_key lib client_id = canonical_of lib client_id (lib.parse client_id)

-- `isCanonicalCIMDClientID`.
unfoldable pub is_canonical_cimd_client_id : Library → String → Bool
unfolding canonical_cimd_key
is_canonical_cimd_client_id lib client_id =
    all (λ c. not (ltb 127 c)) (codes client_id)
    && str_eq (canonical_cimd_key lib client_id) client_id
