-- ===== src/Storage/AuthRequests.antt =====
-- internal/storage/auth_requests.go: an authorization request from /authorize to its code.
pub mod Tables
pub mod Kept
pub mod Exchanged
pub mod Sample
mod Tests
use authgate.Prelude.{
  ℕ, ◌+◌, ◌*◌, ◌%◌, ◌^◌, Bool, true, false, not, ◌&&◌, ◌||◌, Option, none, some, List, [], ◌∷◌,
  String, str_eq, ltb, ◌==◌, if◌then◌else◌, Result, ok, err,
}
use authgate.Client.{Model, static_access}
use authgate.ClientAccess.{restricted, Policy}
use authgate.Storage.Db.{Db, AuthRequestRow}
use authgate.Storage.Rows.{find}
use authgate.Storage.Exec.{
  StoreError, not_found, oauth, Exec, pure, fail, autocommit, ◌>>=◌, ◌>>◌, now, take_id, or_fail,
  guard, map_err,
}
use authgate.Storage.Settings.{Settings, User, AuthRequestModel}
use authgate.Storage.Users.{build_user, enforce_static_client_access, check_state}
use authgate.Storage.Refresh.Consume.{resource_error}
use Tables.{
  insert_auth_request, get_auth_request_by_id, get_auth_request_by_code, update_auth_request_code,
  delete_auth_request_by_id, complete_auth_request_by_id,
}

-- oidc.AuthRequest, the fields that are stored.
pub record NewAuthRequest : Type 0 where
  pub client_id : String
  pub redirect_uri : String
  pub scopes : List String
  pub state : String
  pub nonce : String
  pub code_challenge : String
  pub code_challenge_method : String
  pub prompt : List String
  pub max_age : Option ℕ

-- 10 minutes.
abbrev pub auth_request_ttl : ℕ
auth_request_ttl = 600 * 1000000000

-- `maxAgeToNullInt64`: a uint of 64 bits becomes the int64 with the same bits.
unfoldable pub max_age_to_null_int64 : Option ℕ → Option ℕ
max_age_to_null_int64 none = none
max_age_to_null_int64 (some seconds) = some (seconds % 2 ^ 64)

-- `maxAgeFromNullInt64`: a negative int64 is nil.
unfoldable pub max_age_from_null_int64 : Option ℕ → Option ℕ
max_age_from_null_int64 none = none
max_age_from_null_int64 (some v) = if ltb v (2 ^ 63) then some v else none

abbrev pub pkce_missing : NewAuthRequest → Bool
pkce_missing req = str_eq req.code_challenge "" || not (str_eq req.code_challenge_method "S256")

-- The checks on the client: the resource policy, and PKCE for all but a client that opted out.
unfoldable pub check_client : Settings → String → NewAuthRequest → Option Model → Exec (Unit {0})
check_client cfg resource req none = guard (not (pkce_missing req)) (oauth "invalid_request")
check_client cfg resource req (some client) = do
  resource_error (cfg.validate_authorize_request client resource)
  guard (client.skip_pkce || not (pkce_missing req)) (oauth "invalid_request")

abbrev pub known_method : String → Bool
known_method method = str_eq method "" || str_eq method "plain" || str_eq method "S256"

-- What `CreateAuthRequest` returns.
abbrev pub new_model : String → NewAuthRequest → String → ℕ → AuthRequestModel
new_model resource req id at = record {
  id = id;
  client_id = req.client_id;
  resource = resource;
  redirect_uri = req.redirect_uri;
  scopes = req.scopes;
  state = req.state;
  nonce = req.nonce;
  code_challenge = req.code_challenge;
  code_challenge_method = req.code_challenge_method;
  prompt = req.prompt;
  max_age = req.max_age;
  subject = "";
  auth_time = none;
  is_done = false;
  code = none;
  expires_at = at + auth_request_ttl;
  created_at = at;
}

-- The columns that InsertAuthRequest is given; the others have their defaults.
unfoldable pub row_of : Settings → AuthRequestModel → AuthRequestRow
unfolding max_age_to_null_int64
row_of cfg ar = record {
  id = ar.id;
  client_id = ar.client_id;
  resource = ar.resource;
  redirect_uri = ar.redirect_uri;
  scopes = ar.scopes;
  state = ar.state;
  nonce = ar.nonce;
  code_challenge = ar.code_challenge;
  code_challenge_method = ar.code_challenge_method;
  prompt = ar.prompt;
  max_age = max_age_to_null_int64 ar.max_age;
  subject = none;
  auth_time = none;
  is_done = false;
  code = none;
  expires_at = cfg.timestamptz ar.expires_at;
  created_at = cfg.timestamptz ar.created_at;
}

-- `CreateAuthRequest`, with the resource of the request's context.
unfoldable pub create_auth_request : Settings → String → NewAuthRequest → Exec AuthRequestModel
unfolding check_client row_of
create_auth_request cfg resource req = do
  check_client cfg resource req (cfg.resolve_client req.client_id)
  guard (str_eq req.code_challenge "" || known_method req.code_challenge_method)
      (oauth "invalid_request")
  n ← take_id
  at ← now
  autocommit (insert_auth_request (row_of cfg (new_model resource req (cfg.uuid n) at)))
  pure (new_model resource req (cfg.uuid n) at)

abbrev pub or_empty : Option String → String
or_empty none = ""
or_empty (some s) = s

-- `authRequestModelFromRowByID` and `authRequestModelFromRowByCode`.
unfoldable pub auth_request_model_from_row : AuthRequestRow → AuthRequestModel
unfolding max_age_from_null_int64
auth_request_model_from_row row = record {
  id = row.id;
  client_id = row.client_id;
  resource = row.resource;
  redirect_uri = row.redirect_uri;
  scopes = row.scopes;
  state = row.state;
  nonce = row.nonce;
  code_challenge = row.code_challenge;
  code_challenge_method = row.code_challenge_method;
  prompt = row.prompt;
  max_age = max_age_from_null_int64 row.max_age;
  subject = or_empty row.subject;
  auth_time = row.auth_time;
  is_done = row.is_done;
  code = row.code;
  expires_at = row.expires_at;
  created_at = row.created_at;
}

-- `GetAuthRequestModel`, and `AuthRequestByID`, which returns the same.
unfoldable pub get_auth_request_model : String → Exec AuthRequestModel
unfolding auth_request_model_from_row
get_auth_request_model id = do
  found ← autocommit (get_auth_request_by_id id)
  row ← or_fail found not_found
  at ← now
  guard (not (ltb row.expires_at at)) (oauth "invalid_request")
  pure (auth_request_model_from_row row)

-- GetUserByID.
unfoldable pub get_user_by_id_row : String → Db → Option (Option User × Db)
unfolding build_user
get_user_by_id_row id d = some (
  elim (find (λ u. str_eq u.id id) d.users) [
    | none ↦ none
    | some row ↦ some (build_user d.identities row)
  ],
  d,
)

-- `GetUserByID` of Storage.
unfoldable pub find_user_by_id : String → Exec User
unfolding get_user_by_id_row
find_user_by_id id = do found ← autocommit (get_user_by_id_row id); or_fail found not_found

abbrev pub has_checker : Option (User → Option String) → Bool
has_checker none = false
has_checker (some check) = true

-- The account's state and the client's policy at a code exchange; every refusal is invalid_grant.
unfoldable pub check_request_subject : Settings → Option Policy → AuthRequestModel → Exec (Unit {0})
unfolding find_user_by_id check_state enforce_static_client_access
check_request_subject cfg access ar =
    map_err (λ e. oauth "invalid_grant")
      (do
        user ← find_user_by_id ar.subject
        check_state cfg.state_checker user
        enforce_static_client_access access ar.client_id user)

abbrev pub checked : Settings → Option Policy → AuthRequestModel → Exec (Unit {0})
unfolding check_request_subject
checked cfg access ar =
    if (has_checker cfg.state_checker || restricted access) && not (str_eq ar.subject "")
    then check_request_subject cfg access ar
    else pure tt

-- `AuthRequestByCode`, with the resource of the request's context.
unfoldable pub auth_request_by_code : Settings → String → String → Exec AuthRequestModel
unfolding auth_request_model_from_row check_request_subject
auth_request_by_code cfg requested code = do
  found ← autocommit (get_auth_request_by_code (cfg.code_hash code))
  row ← or_fail found not_found
  at ← now
  guard (not (ltb row.expires_at at)) (oauth "invalid_grant")
  resource_error (cfg.validate_token_request row.client_id row.resource requested)
  checked cfg (static_access cfg.registry row.client_id) (auth_request_model_from_row row)
  pure (record (auth_request_model_from_row row) { code = some code })

-- `SaveAuthCode` and `DeleteAuthRequest`.
unfoldable pub save_auth_code : Settings → String → String → Exec (Unit {0})
save_auth_code cfg id code = autocommit (update_auth_request_code (cfg.code_hash code) id)

unfoldable pub delete_auth_request : String → Exec (Unit {0})
delete_auth_request id = autocommit (delete_auth_request_by_id id)

-- `CompleteAuthRequest`; a zero time is now.
unfoldable pub complete_auth_request : Settings → String → String → ℕ → Exec (Unit {0})
complete_auth_request cfg id user_id auth_time = do
  at ← now
  rows ← autocommit (
      complete_auth_request_by_id user_id
        (cfg.timestamptz (if auth_time == 0 then at else auth_time)) id)
  guard (ltb 0 rows) not_found
