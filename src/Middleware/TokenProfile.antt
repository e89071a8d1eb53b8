-- ===== src/Middleware/TokenProfile.antt =====
-- internal/middleware/access_token_typ.go: the access token of a token response is signed again with the
-- type at+jwt, and the id token bound to it.
use authgate.Prelude.{
  ℕ, not, ◌&&◌, Option, none, some, List, [], ◌∷◌, String, Bytes, bytes_eq, codes, length, ◌==◌,
  if◌then◌else◌, Result, ok, err, ◌>>=◌,
}
use authgate.Strings.{trim_space}
use authgate.Cimd.CacheControl.{split}
use authgate.Signing.Json.{Json, text, Members, no_members, member, has_name}
use authgate.Signing.Keys.{get_field}
use authgate.Middleware.Header.{Header, del, set, copy_header}

pub data UpgradeError : Type 0 where
  -- errSkipUpgrade.
  skip_upgrade : UpgradeError
  -- The errors of encoding/json, base64, go-jose and of the key source.
  invalid_json invalid_base64 no_signing_key cannot_sign cannot_hash : UpgradeError

-- The functions of the libraries, over the keys that sign.
pub record Library (Key : Type 0) : Type 0 where
  -- json.Unmarshal into a map, which a null leaves empty, and json.Marshal of one. The program writes
  -- to the map of a null payload too, where Go panics.
  pub unmarshal : Bytes → Option Members
  pub marshal : Members → Option Bytes
  pub base64_decode : Bytes → Option Bytes
  -- The key source.
  pub current_signing_key : Option Key
  -- A compact JWS with this `typ` over the payload: `signJWS`.
  pub sign_jws : Key → Bytes → Bytes → Option Bytes
  -- oidc.ClaimHash by the key's algorithm.
  pub claim_hash : Key → Bytes → Option Bytes
  pub itoa : ℕ → String

-- strings.Split at the dots of a compact JWS.
unfoldable pub parts_of : Bytes → List Bytes
unfolding split
parts_of token = let parts = split b'.' token in parts.0 ∷ parts.1

unfoldable pub remove_field : Bytes → Members → Members
remove_field name no_members = no_members
remove_field name (member other old rest) =
    let later = remove_field name rest in
    if bytes_eq other name then later else member other old later

-- Writing a member of a map.
unfoldable pub set_field : Bytes → Json → Members → Members
unfolding remove_field
set_field name value no_members = member name value no_members
set_field name value (member other old rest) =
    let later = set_field name value rest in
    if bytes_eq other name
    then member name value (remove_field name rest)
    else member other old later

abbrev pub or_error : {A : Type 0} → UpgradeError → Option A → Result UpgradeError A
or_error e none = err e
or_error e (some a) = ok a

-- json.Unmarshal of a field into a string; a null leaves it empty.
abbrev pub string_of : Json → Result UpgradeError Bytes
string_of (text s) = ok s
string_of Json.null = ok []
string_of _ = err invalid_json

-- A type assertion to a string, the empty one if it fails.
abbrev pub asserted_string : Option Json → Bytes
asserted_string (some (text s)) = s
asserted_string _ = []

module _ {Key : Type 0} (lib : Library Key) where
  -- The claims of the access token with the scope, once the response has one.
  abbrev pub add_scope : Bytes → Bytes → Members → Result UpgradeError Bytes
  add_scope payload scope claims =
      if not (length (trim_space (asserted_string (get_field (codes "scope") claims))) == 0)
      then ok payload
      else or_error invalid_json (lib.marshal (set_field (codes "scope") (text scope) claims))

  abbrev pub scope_into : Bytes → Bytes → Result UpgradeError Bytes
  scope_into payload scope =
      if length (trim_space scope) == 0
      then ok payload
      else (or_error invalid_json (lib.unmarshal payload) >>= add_scope payload scope)

  -- `withScopeClaim`.
  unfoldable pub with_scope_claim : Bytes → Members → Result UpgradeError Bytes
  unfolding get_field set_field
  with_scope_claim payload response = elim (get_field (codes "scope") response) [
    | none ↦ ok payload
    | some raw ↦ string_of raw >>= scope_into payload
  ]

  -- The id token with the hash of the new access token.
  unfoldable pub resign_id_token : Key → Members → Bytes → Members → Result UpgradeError Members
  unfolding set_field
  resign_id_token key response access_token claims = do
    hash ← or_error cannot_hash (lib.claim_hash key access_token)
    repacked ← or_error invalid_json (lib.marshal (set_field (codes "at_hash") (text hash) claims))
    resigned ← or_error cannot_sign (lib.sign_jws key (codes "JWT") repacked)
    ok (set_field (codes "id_token") (text resigned) response)

  unfoldable pub rebind_claims : Key → Members → Bytes → Members → Result UpgradeError Members
  unfolding resign_id_token
  rebind_claims key response access_token claims =
      if has_name (codes "at_hash") claims
      then resign_id_token key response access_token claims
      else ok response

  -- The parts of the id token; anything but three is left alone.
  unfoldable pub rebind_parts : Key → Members → Bytes → List Bytes → Result UpgradeError Members
  rebind_parts key response access_token (header ∷ payload ∷ signature ∷ []) = do
    decoded ← or_error invalid_base64 (lib.base64_decode payload)
    claims ← or_error invalid_json (lib.unmarshal decoded)
    rebind_claims key response access_token claims
  rebind_parts key response access_token _ = ok response

  -- `rebindIDTokenAtHash`.
  unfoldable pub rebind_id_token_at_hash : Key → Members → Bytes → Result UpgradeError Members
  unfolding get_field rebind_parts split
  rebind_id_token_at_hash key response access_token = elim (get_field (codes "id_token") response) [
    | none ↦ ok response
    | some raw ↦
        string_of raw >>= λ id_token. rebind_parts key response access_token (parts_of id_token)
  ]

  -- `upgradeAccessTokenTyp` from the payload of the access token on.
  unfoldable pub resign : Members → Bytes → Result UpgradeError Bytes
  unfolding with_scope_claim rebind_id_token_at_hash set_field
  resign response payload = do
    scoped ← with_scope_claim payload response
    key ← or_error no_signing_key lib.current_signing_key
    rewritten ← or_error cannot_sign (lib.sign_jws key (codes "at+jwt") scoped)
    rebound ←
        rebind_id_token_at_hash key (set_field (codes "access_token") (text rewritten) response)
          rewritten
    or_error invalid_json (lib.marshal rebound)

  abbrev pub upgrade_header : Bytes → Members → Bytes → Members → Result UpgradeError Bytes
  upgrade_header body response payload header =
      if bytes_eq (asserted_string (get_field (codes "typ") header)) (codes "at+jwt")
      then ok body
      else (or_error invalid_base64 (lib.base64_decode payload) >>= resign response)

  unfoldable pub upgrade_parts : Bytes → Members → List Bytes → Result UpgradeError Bytes
  unfolding get_field resign
  upgrade_parts body response (head ∷ payload ∷ signature ∷ []) = do
    header_json ← or_error invalid_base64 (lib.base64_decode head)
    header ← or_error invalid_json (lib.unmarshal header_json)
    upgrade_header body response payload header
  upgrade_parts body response _ = err skip_upgrade

  -- `upgradeAccessTokenTyp`.
  unfoldable pub upgrade_access_token_typ : Bytes → Result UpgradeError Bytes
  unfolding get_field upgrade_parts split
  upgrade_access_token_typ body = do
    response ← or_error invalid_json (lib.unmarshal body)
    raw ← or_error skip_upgrade (get_field (codes "access_token") response)
    token ← string_of raw
    upgrade_parts body response (parts_of token)

  pub record RecordedResponse : Type 0 where
    pub code : ℕ
    pub header : Header
    pub body : Bytes

  abbrev pub server_error : Bytes
  server_error = codes "{\"error\":\"server_error\"}"

  -- The recorded response with its body upgraded. Every error ends as server_error, skip_upgrade too.
  unfoldable pub rewritten : RecordedResponse → RecordedResponse
  unfolding upgrade_access_token_typ del
  rewritten recorded =
      if recorded.code == 200 && not (length recorded.body == 0)
      then elim (upgrade_access_token_typ recorded.body) [
        | ok upgraded ↦ record recorded { body = upgraded }
        | err e ↦ record {
          code = 500;
          header = set "Content-Type" ("application/json" ∷ []) recorded.header;
          body = server_error;
        }
      ]
      else recorded

  -- `WrapAccessTokenJWTType` on what the inner handler has recorded, over the headers set before.
  unfoldable pub wrap_access_token_jwt_type : Header → RecordedResponse → RecordedResponse
  unfolding rewritten copy_header del
  wrap_access_token_jwt_type outer recorded =
      let r = rewritten recorded in
      record r {
        header =
            set "Content-Length" (lib.itoa (length r.body) ∷ [])
              (del "Repr-Digest" (del "Content-Digest" (del "Etag" (copy_header r.header outer))));
      }
