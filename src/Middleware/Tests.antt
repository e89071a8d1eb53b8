-- ===== src/Middleware/Tests.antt =====
-- A token response with an id token, and a request of an allowed origin, with the theorems at them.
use authgate.Prelude.{
  ◌≡◌, ◌⊎◌, refl, true, false, Option, none, some, List, [], ◌∷◌, ◌++◌, String, Bytes, bytes_eq,
  codes, if◌then◌else◌, err, ok,
}
use authgate.Strings.{trim_space}
use authgate.Cimd.CacheControl.{split}
use authgate.Signing.Json.{text, Members, no_members, member}
use authgate.Signing.Keys.{get_field}
use authgate.Middleware.TokenProfile.{
  Library, RecordedResponse, skip_upgrade, upgrade_access_token_typ, upgrade_parts, resign,
  with_scope_claim, rebind_id_token_at_hash, rebind_parts, rebind_claims, resign_id_token,
  set_field, remove_field, parts_of, wrap_access_token_jwt_type, rewritten, server_error,
}
use authgate.Middleware.Header.{copy_header, set, del}
use authgate.Middleware.Cors.{is_matched, serve, change, write}
use authgate.Middleware.Enforced.{IsEnforced, serve-IsEnforced}
use authgate.Middleware.Released.{IsReleased, wrap_access_token_jwt_type-IsReleased}

abbrev response : Members
response = member (codes "access_token") (text (codes "h.p.s")) (
    member (codes "id_token") (text (codes "h.q.s"))
      (member (codes "scope") (text (codes "openid")) no_members))

abbrev document : Bytes → Option Members
document s =
    if bytes_eq s (codes "R")
    then some response
    else if bytes_eq s (codes "h")
    then some (member (codes "typ") (text (codes "JWT")) no_members)
    else if bytes_eq s (codes "q")
    then some (member (codes "at_hash") (text (codes "old")) no_members)
    else if bytes_eq s (codes "p")
    then some no_members
    else none

abbrev field_text : Members → Bytes → Bytes
field_text m name = elim (get_field name m) [ some (text s) ↦ s | _ ↦ [] ]

-- The texts of the members that the program writes.
abbrev written : Members → Bytes
written m =
    field_text m (codes "access_token")
    ++ field_text m (codes "id_token")
    ++ field_text m (codes "at_hash")
    ++ field_text m (codes "scope")

abbrev library : Library (Unit {0})
library = record {
  unmarshal = document;
  marshal = λ m. some (written m);
  base64_decode = λ s. some s;
  current_signing_key = some tt;
  sign_jws = λ key typ payload. some (typ ++ b'(' ∷ payload ++ b')' ∷ []);
  claim_hash = λ key token. some (codes "#" ++ token);
  itoa = λ n. "many";
}

abbrev token_answer : RecordedResponse library
token_answer = record { code = 200; header = ("Etag", "old" ∷ []) ∷ []; body = codes "R" }

-- The scope is in the access token, and the hash of that token in the id token.
upgraded :
    upgrade_access_token_typ library (codes "R")
    ≡ ok (codes "at+jwt(openid)JWT(#at+jwt(openid))openid")
unfolding upgrade_access_token_typ upgrade_parts resign with_scope_claim rebind_id_token_at_hash
    rebind_parts rebind_claims resign_id_token set_field remove_field parts_of get_field split
    bytes_eq trim_space
upgraded = refl

-- A response that cannot be upgraded for want of an access token is answered as a server error.
skipped :
    (upgrade_access_token_typ library (codes "p") ≡ err skip_upgrade)
    × ((wrap_access_token_jwt_type library [] (record token_answer { body = codes "p" })).code
        ≡ 500)
unfolding wrap_access_token_jwt_type rewritten upgrade_access_token_typ get_field bytes_eq
skipped = (refl, refl)

-- The integrity headers of the token_answer response do not pass.
headers :
    (wrap_access_token_jwt_type library [] token_answer).header
    ≡ ("Content-Length", "many" ∷ []) ∷ []
unfolding wrap_access_token_jwt_type rewritten copy_header set del upgrade_access_token_typ
    upgrade_parts resign with_scope_claim rebind_id_token_at_hash rebind_parts rebind_claims
    resign_id_token set_field remove_field parts_of get_field split bytes_eq trim_space
headers = refl

abbrev Profiled : Type 0
Profiled =
    (((wrap_access_token_jwt_type library [] token_answer).code ≡ 500)
      × ((wrap_access_token_jwt_type library [] token_answer).body ≡ server_error library))
    ⊎ (((wrap_access_token_jwt_type library [] token_answer).code ≡ 200)
        × IsReleased library (codes "R") (wrap_access_token_jwt_type library [] token_answer).body)

wrap_access_token_jwt_type-IsReleased_example : Profiled
wrap_access_token_jwt_type-IsReleased_example =
    wrap_access_token_jwt_type-IsReleased library [] token_answer refl refl

-- A handler that opens the response to anyone, before and after it writes.
abbrev origins : List String
origins = "" ∷ "https://app.example" ∷ []

serve-IsEnforced_example :
    IsEnforced (is_matched origins "https://evil.example") "https://evil.example" (
      serve origins "POST" "https://evil.example" [] (
        change (λ h. ("Access-Control-Allow-Origin", "*" ∷ []) ∷ h)
        ∷ write
        ∷ change (λ h. ("Access-Control-Allow-Origin", "*" ∷ []) ∷ h)
        ∷ []))
serve-IsEnforced_example =
    serve-IsEnforced origins "POST" "https://evil.example" []
      (change (λ h. ("Access-Control-Allow-Origin", "*" ∷ []) ∷ h)
        ∷ write
        ∷ change (λ h. ("Access-Control-Allow-Origin", "*" ∷ []) ∷ h)
        ∷ [])
      (refl, refl)

matches :
    (is_matched origins "https://app.example" ≡ true)
    × (is_matched origins "https://evil.example" ≡ false)
    × (is_matched origins "" ≡ false)
unfolding is_matched
matches = (refl, refl, refl)
