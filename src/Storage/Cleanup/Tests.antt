-- ===== src/Storage/Cleanup/Tests.antt =====
-- The batches on a small table of authorization requests.
use authgate.Prelude.{ℕ, ◌+◌, ◌≡◌, refl, true, some, none, List, [], ◌∷◌, arith}
use authgate.Storage.Db.{AuthRequestRow}
use authgate.Storage.Rows.{count, remove}
use authgate.Storage.Cleanup.{
  remove_batch, delete_in_batches, delete_expired_auth_requests_before, auth_request_expired,
  run_expired_auth_requests, run_expired_device_codes, run_expired_refresh_tokens,
  run_revoked_refresh_tokens, run_expired_or_revoked_sessions, run_stale_refresh_token_families,
}
use authgate.Storage.Cleanup.Drained.{delete_in_batches-statement_on}

abbrev request_until : ℕ → AuthRequestRow
request_until expires_at = record {
  id = "request";
  client_id = "web";
  resource = "";
  redirect_uri = "https://app.example/callback";
  scopes = "openid" ∷ [];
  state = "";
  nonce = "";
  code_challenge = "challenge";
  code_challenge_method = "S256";
  prompt = [];
  max_age = none;
  subject = none;
  auth_time = none;
  is_done = true;
  code = none;
  expires_at = expires_at;
  created_at = 0;
}

abbrev requests : List AuthRequestRow
requests =
    request_until 5 ∷ request_until 30 ∷ request_until 6 ∷ request_until 7 ∷ request_until 8 ∷ []

drained :
    (run_expired_auth_requests 6 10 requests ≡ (some (4, none), request_until 30 ∷ []))
    × (run_expired_device_codes 1 10 [] ≡ (some (0, none), []))
    × (run_expired_refresh_tokens 1 10 [] ≡ (some (0, none), []))
    × (run_revoked_refresh_tokens 1 10 [] ≡ (some (0, none), []))
    × (run_expired_or_revoked_sessions 1 10 [] ≡ (some (0, none), []))
    × (run_stale_refresh_token_families 1 10 [] ≡ (some (0, none), []))
unfolding delete_in_batches remove_batch
drained = (refl, refl, refl, refl, refl, refl)

in_twos :
    delete_in_batches 6 (delete_expired_auth_requests_before 10) 2 0 requests
    ≡ (some (4, none), request_until 30 ∷ [])
unfolding delete_in_batches remove_batch
in_twos = refl

delete_in_batches-statement_on_example :
    delete_in_batches 6 (delete_expired_auth_requests_before 10) 2 0 requests ≡ (
      some (0 + count (auth_request_expired 10) requests, none),
      remove (auth_request_expired 10) requests,
    )
delete_in_batches-statement_on_example =
    delete_in_batches-statement_on (auth_request_expired 10) 6 2 0 requests (omega arith)
      (omega arith)
