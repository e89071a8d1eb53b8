-- ===== src/Storage/AuthRequests/Tests.antt =====
-- A request of a browser client, from its creation to its code, and the theorems at it.
use authgate.Prelude.{◌^◌, ◌≡◌, refl, true, none, some, [], ◌∷◌, arith, Result, ok, err}
use authgate.Client.{core_validate_token, load, static_access}
use authgate.ClientAccess.{evaluate}
use authgate.Storage.Db.{AuthRequestRow}
use authgate.Storage.Rows.{find, update, count, remove}
use authgate.Storage.Exec.{StoreError, World, oauth, not_found, ◌>>=◌, ◌>>◌, autocommit, map_err}
use authgate.Storage.Settings.{AuthRequestModel}
use authgate.Storage.Users.{
  build_user, latest_hosted_domain, check_state, enforce_static_client_access, after_decision,
}
use authgate.Storage.AuthRequests.Sample.{web, cfg, tables, world}
use authgate.Storage.AuthRequests.Tables.{
  insert_auth_request, get_auth_request_by_code, update_auth_request_code,
  delete_auth_request_by_id, complete_auth_request_by_id,
}
use authgate.Storage.AuthRequests.{
  NewAuthRequest, create_auth_request, check_client, row_of, new_model, get_auth_request_model,
  auth_request_by_code, auth_request_model_from_row, check_request_subject, find_user_by_id,
  get_user_by_id_row, save_auth_code, complete_auth_request, delete_auth_request,
  max_age_to_null_int64, max_age_from_null_int64,
}
use authgate.Storage.AuthRequests.Kept.{
  PkceKept, create_auth_request-PkceKept, create_auth_request-get_auth_request_model, later,
}
use authgate.Storage.AuthRequests.Exchanged.{IsExchange, auth_request_by_code-IsExchange}

abbrev asked : NewAuthRequest
asked = record {
  client_id = "web";
  redirect_uri = "https://app.example/callback";
  scopes = "openid" ∷ [];
  state = "xyz";
  nonce = "n";
  code_challenge = "challenge";
  code_challenge_method = "S256";
  prompt = [];
  max_age = some 60;
}

abbrev made : AuthRequestModel
made = new_model "" asked "request" 100

created : (create_auth_request cfg "" asked (world [])).0 ≡ ok made
unfolding create_auth_request check_client row_of max_age_to_null_int64 insert_auth_request
    autocommit ◌>>=◌
created = refl

-- Without a challenge the request is refused.
no_pkce :
    (create_auth_request cfg "" (record asked { code_challenge = "" }) (world [])).0
    ≡ err (oauth "invalid_request")
unfolding create_auth_request check_client row_of max_age_to_null_int64 insert_auth_request
    autocommit ◌>>=◌
no_pkce = refl

create_auth_request-PkceKept_example : PkceKept (some web) asked
create_auth_request-PkceKept_example =
    create_auth_request-PkceKept cfg "" asked (world []) made created

create_auth_request-get_auth_request_model_example :
    (get_auth_request_model "request" (later 500 (create_auth_request cfg "" asked (world [])).1)).0
    ≡ ok made
create_auth_request-get_auth_request_model_example =
    create_auth_request-get_auth_request_model cfg "" asked (world []) made 500 created
      (omega arith) (omega arith)

-- A max_age of 2 ^ 63 is read back as none.
too_long : max_age_from_null_int64 (max_age_to_null_int64 (some (2 ^ 63))) ≡ none
unfolding max_age_from_null_int64 max_age_to_null_int64
too_long = refl

abbrev login_and_code : World → Result StoreError (Unit {0}) × World
login_and_code =
    complete_auth_request cfg "request" "user" 90 >> save_auth_code cfg "request" "code"

abbrev with_code : AuthRequestRow
with_code = record (row_of cfg made) {
  subject = some "user";
  auth_time = some 90;
  is_done = true;
  code = some "code";
}

coded : login_and_code (world (row_of cfg made ∷ [])) ≡ (ok tt, world (with_code ∷ []))
unfolding complete_auth_request save_auth_code complete_auth_request_by_id update_auth_request_code
    row_of max_age_to_null_int64 count update autocommit ◌>>=◌
coded = refl

abbrev exchanged : AuthRequestModel
exchanged = record (auth_request_model_from_row with_code) { code = some "code" }

exchange_runs : (auth_request_by_code cfg "" "code" (world (with_code ∷ []))).0 ≡ ok exchanged
unfolding auth_request_by_code get_auth_request_by_code auth_request_model_from_row
    check_request_subject find_user_by_id get_user_by_id_row check_state
    enforce_static_client_access after_decision evaluate build_user latest_hosted_domain
    core_validate_token load static_access find map_err row_of max_age_to_null_int64 autocommit
    ◌>>=◌
exchange_runs = refl

-- A code that nobody was given finds nothing, and a request that is deleted has no code.
unknown :
    ((auth_request_by_code cfg "" "guess" (world (with_code ∷ []))).0 ≡ err not_found)
    × (delete_auth_request "request" (world (with_code ∷ [])) ≡ (ok tt, world []))
unfolding auth_request_by_code get_auth_request_by_code delete_auth_request
    delete_auth_request_by_id find remove autocommit ◌>>=◌ row_of
unknown = (refl, refl)

auth_request_by_code-IsExchange_example :
    IsExchange cfg "" "code" (tables (with_code ∷ [])) 100 exchanged
auth_request_by_code-IsExchange_example =
    auth_request_by_code-IsExchange cfg "" "code" (world (with_code ∷ [])) exchanged exchange_runs
