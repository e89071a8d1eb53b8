-- ===== src/Storage/Refresh/Issue.antt =====
-- internal/storage/token_issuance.go and auth_code.go: access and refresh token issuance.
use authgate.Prelude.{
  ℕ, ◌+◌, Bool, false, not, ◌&&◌, Option, none, some, List, String, str_eq, ltb, ◌==◌,
  if◌then◌else◌,
}
use authgate.Storage.Db.{Db, RefreshRow, AuthRequestRow}
use authgate.Storage.Rows.{count, remove, is_some_eq}
use authgate.Storage.Exec.{
  other, Exec, pure, query, autocommit, ◌>>=◌, ◌>>◌, commit, in_tx, now, take_id, or_fail, guard,
}
use authgate.Storage.Settings.{
  Settings, TokenRequest, auth_request, device_request, refresh_request,
}
use authgate.Storage.Refresh.Tables.{insert_refresh_token}
use authgate.Storage.Refresh.Consume.{
  Consumed, consume_refresh_token, audit_refresh_reuse_grace, grant_refused,
}

-- The WHERE clause of ConsumeAuthCode.
abbrev pub consumable : String → String → String → ℕ → AuthRequestRow → Bool
consumable id client_id code at r =
    str_eq r.id id
    && str_eq r.client_id client_id
    && is_some_eq r.code code
    && r.is_done
    && ltb at r.expires_at

unfoldable pub consume_auth_code_rows : String → String → String → ℕ → Db → Option (ℕ × Db)
consume_auth_code_rows id client_id code at d = some (
  count (consumable id client_id code at) d.auth_requests,
  record d { auth_requests = remove (consumable id client_id code at) d.auth_requests },
)

abbrev pub code_of : Option String → String
code_of none = ""
code_of (some c) = c

module _ (s : Settings) where
  -- `consumeAuthCode`, over the caller's connection.
  unfoldable pub consume_auth_code :
      ((Db → Option (ℕ × Db)) → Exec ℕ) → TokenRequest → Exec (Unit {0})
  consume_auth_code run (auth_request ar) = do
    guard (not (str_eq (code_of ar.code) "")) grant_refused
    at ← now
    n ← run (consume_auth_code_rows ar.id ar.client_id (s.code_hash (code_of ar.code)) at)
    guard (n == 1) grant_refused
  consume_auth_code run (device_request d) = pure tt
  consume_auth_code run (refresh_request r) = pure tt

  -- `CreateAccessToken`: the token's id and when it expires.
  unfoldable pub create_access_token : TokenRequest → Exec (String × ℕ)
  create_access_token request = do
    consume_auth_code autocommit request
    n ← take_id
    at ← now
    pure (s.uuid n, at + s.access_token_ttl)

  abbrev pub subject_of : TokenRequest → String
  subject_of (auth_request ar) = ar.subject
  subject_of (device_request d) = d.subject
  subject_of (refresh_request r) = r.subject

  abbrev pub scopes_of : TokenRequest → List String
  scopes_of (auth_request ar) = ar.scopes
  scopes_of (device_request d) = d.scopes
  scopes_of (refresh_request r) = r.scopes

  abbrev pub client_of : TokenRequest → String
  client_of (auth_request ar) = ar.client_id
  client_of (device_request d) = d.client_id
  client_of (refresh_request r) = ""

  abbrev pub resource_of : TokenRequest → String
  resource_of (auth_request ar) = ar.resource
  resource_of _ = ""

  -- `initialRefreshTokenAttributes`; no token is the parent yet.
  unfoldable pub initial_refresh_token_attributes : TokenRequest → ℕ → Consumed
  initial_refresh_token_attributes request n = record {
    family_id = s.uuid n;
    user_id = subject_of request;
    client_id = client_of request;
    resource = resource_of request;
    scopes = scopes_of request;
    parent = "";
    grace_child = false;
  }

  -- The attributes of the new token and its parent_id.
  unfoldable pub attributes :
      String → TokenRequest → Consumed → String → Exec (Consumed × Option String)
  attributes resource request initial current =
      if str_eq current "" then pure (initial, none) else (do
        derived ← consume_refresh_token s resource request current
        guard (s.is_uuid derived.parent) (other "invalid UUID")
        pure (derived, some derived.parent))

  abbrev pub child_row : String → String → Consumed → Option String → ℕ → RefreshRow
  child_row id hash derived parent at = record {
    id = id;
    token_hash = hash;
    family_id = derived.family_id;
    user_id = derived.user_id;
    client_id = derived.client_id;
    resource = derived.resource;
    scopes = derived.scopes;
    expires_at = at + s.refresh_token_ttl;
    revoked_at = none;
    used_at = none;
    created_at = at;
    parent_id = parent;
  }

  -- The transaction of CreateAccessAndRefreshTokens, with the grace audit after its commit.
  unfoldable pub issue : String → TokenRequest → String → String → ℕ → Exec (Unit {0})
  issue resource request current new_refresh at = do
    consume_auth_code query request
    family ← take_id
    (derived, parent) ←
        attributes resource request (initial_refresh_token_attributes request family) current
    n ← take_id
    query
        (insert_refresh_token (child_row (s.uuid n) (s.refresh_hash new_refresh) derived parent at))
    commit
    if derived.grace_child
        then audit_refresh_reuse_grace derived.user_id derived.family_id "issued"
        else pure tt

  -- `CreateAccessAndRefreshTokens`: access token id, refresh token and expiry. `current` is the
  -- presented refresh token, or "".
  unfoldable pub create_access_and_refresh_tokens :
      String → TokenRequest → String → Exec (String × String × ℕ)
  create_access_and_refresh_tokens resource request current = do
    n ← take_id
    at ← now
    m ← take_id
    new_refresh ← or_fail (s.opaque_token m) (other "generate token")
    in_tx (issue resource request current new_refresh at)
    pure (s.uuid n, new_refresh, at + s.access_token_ttl)
