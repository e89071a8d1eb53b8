-- ===== src/Storage/Refresh/Consume.antt =====
-- internal/storage/refresh_redemption.go, refresh_grace.go and refresh_consumption.go: the decision
-- whether a presented refresh token is redeemed.
use authgate.Prelude.{
  ℕ, ◌-◌, Bool, true, false, not, ◌&&◌, ◌||◌, Option, none, some, List, [], String, str_eq, any,
  all, ltb, leb, ◌==◌, if◌then◌else◌, Result, ok, err,
}
use authgate.Client.{
  ResourceError, invalid_target, invalid_grant, static_access, static_refresh_grace_allowed,
}
use authgate.ClientAccess.{restricted}
use authgate.Storage.Db.{RefreshRow, AuditRow}
use authgate.Storage.Rows.{is_none}
use authgate.Storage.Exec.{
  StoreError, oauth, invalid_refresh_token, Exec, pure, fail, query, ◌>>=◌, ◌>>◌, commit, in_tx,
  audit_log, audit_log_tx, now, or_fail, guard, map_err,
}
use authgate.Storage.Settings.{Settings, TokenRequest, refresh_request}
use authgate.Storage.Users.{get_user_by_id, enforce_static_client_access, check_state}
use authgate.Storage.Refresh.Tables.{
  get_refresh_family_id_by_token_hash, lock_refresh_family, get_refresh_token_for_update_by_hash,
  revoke_refresh_family, mark_refresh_token_used_and_revoked_by_id, is_refresh_family_revoked,
  tombstone_refresh_family, count_refresh_token_children,
  has_revoked_unredeemed_refresh_token_in_family,
}

-- `errRefreshGrantRefused`.
abbrev pub grant_refused : StoreError
grant_refused = oauth "invalid_grant"

abbrev pub resource_error : Result ResourceError (Unit {0}) → Exec (Unit {0})
resource_error (ok a) = pure a
resource_error (err invalid_target) = fail (oauth "invalid_target")
resource_error (err invalid_grant) = fail (oauth "invalid_grant")

-- `loadRefreshTokenForUpdate`.
unfoldable pub load_refresh_token_for_update : String → Exec RefreshRow
load_refresh_token_for_update hash = do
  found ← query (get_refresh_token_for_update_by_hash hash)
  or_fail found invalid_refresh_token

unfoldable pub is_refresh_token_used_or_revoked : RefreshRow → Bool
is_refresh_token_used_or_revoked rt = not (is_none rt.revoked_at) || not (is_none rt.used_at)

module _ (s : Settings) where
  unfoldable pub check_account : RefreshRow → Exec (Unit {0})
  check_account rt = do
    user ← map_err (λ e. invalid_refresh_token) (get_user_by_id rt.user_id)
    check_state s.state_checker user
    enforce_static_client_access (static_access s.registry rt.client_id) rt.client_id user

  -- `validateRefreshTokenRequest`; `resource` is the resource of the request's context.
  unfoldable pub validate_refresh_token_request : String → RefreshRow → ℕ → Exec (Unit {0})
  validate_refresh_token_request resource rt at = do
    guard (ltb at rt.expires_at) invalid_refresh_token
    resource_error (s.validate_token_request rt.client_id rt.resource resource)
    if is_none s.state_checker && not (restricted (static_access s.registry rt.client_id))
        then pure tt
        else check_account rt

  -- `TokenRequestByRefreshToken`, which reads only.
  unfoldable pub token_request_by_refresh_token : String → String → Exec RefreshRow
  token_request_by_refresh_token resource token = in_tx (do
    at ← now
    rt ← load_refresh_token_for_update (s.refresh_hash token)
    validate_refresh_token_request resource rt at
    commit
    pure rt)

pub data Grace : Type 0 where
  grace_none grace_issue grace_refuse : Grace

-- refreshReuseGraceMaxIssued.
abbrev pub max_issued : ℕ
max_issued = 3

-- used_at and revoked_at are set, and to the same instant.
abbrev pub redeemed : Option ℕ → Option ℕ → Bool
redeemed (some used) (some revoked) = revoked == used
redeemed _ _ = false

abbrev pub within : ℕ → ℕ → Option ℕ → Bool
within grace at none = false
within grace at (some used) = leb (at - used) grace

unfoldable pub grace_by_children : ℕ → Grace
grace_by_children children = if leb max_issued children then grace_refuse else grace_issue

-- The queries of refreshReuseGraceDecision.
unfoldable pub grace_by_family : RefreshRow → Exec Grace
unfolding grace_by_children
grace_by_family rt = do
  tombstoned ← query (is_refresh_family_revoked rt.family_id)
  if tombstoned then pure grace_none else (do
    revoked_on_purpose ← query (has_revoked_unredeemed_refresh_token_in_family rt.family_id)
    if revoked_on_purpose then pure grace_none else (do
      children ← query (count_refresh_token_children rt.id)
      pure (grace_by_children children)))

module _ (s : Settings) where
  -- The tests of refreshReuseGraceDecision that need no query.
  unfoldable pub grace_applies : RefreshRow → ℕ → Bool
  grace_applies rt at =
      ltb 0 s.refresh_reuse_grace
      && redeemed rt.used_at rt.revoked_at
      && static_refresh_grace_allowed s.registry rt.client_id
      && within s.refresh_reuse_grace at rt.used_at

  unfoldable pub refresh_reuse_grace_decision : RefreshRow → ℕ → Exec Grace
  refresh_reuse_grace_decision rt at =
      if grace_applies rt at then grace_by_family rt else pure grace_none

-- What a consumed token hands on to its child: refreshTokenAttributes, the parent and whether the
-- child is a grace child.
pub record Consumed : Type 0 where
  pub family_id : String
  pub user_id : String
  pub client_id : String
  pub resource : String
  pub scopes : List String
  pub parent : String
  pub grace_child : Bool

abbrev pub same_subject : TokenRequest → RefreshRow → Bool
same_subject (refresh_request r) rt = str_eq r.client_id rt.client_id && str_eq r.subject rt.user_id
same_subject _ rt = false

abbrev pub requested_scopes : TokenRequest → List String
requested_scopes (refresh_request r) = r.scopes
requested_scopes _ = []

-- Errors of validation other than an *oidc.Error are answered as a refused grant.
abbrev pub as_grant_error : StoreError → StoreError
as_grant_error (oauth kind) = oauth kind
as_grant_error _ = grant_refused

abbrev pub event : String → String → String → String → ℕ → AuditRow
event kind outcome user family at = record {
  user_id = some user;
  event_type = kind;
  about = family;
  outcome = outcome;
  created_at = at;
}

-- `auditRefreshReuseGrace`.
unfoldable pub audit_refresh_reuse_grace : String → String → String → Exec (Unit {0})
audit_refresh_reuse_grace user family outcome = do
  at ← now
  audit_log (event "auth.refresh_reuse_grace" outcome user family at)

-- `auditRefreshReuseDetectionTx`; the second row is written if this request made the tombstone.
unfoldable pub audit_refresh_reuse_detection_tx : String → String → ℕ → Bool → Exec (Unit {0})
audit_refresh_reuse_detection_tx user family at created = do
  audit_log_tx (event "auth.refresh_reuse_detected" "" user family at)
  if not created
      then pure tt
      else audit_log_tx (event "auth.refresh_family_revoked" "" user family at)

-- Replay: revoke the family, entomb it, commit, and refuse.
unfoldable pub revoke_on_reuse : RefreshRow → ℕ → Exec Bool
unfolding audit_refresh_reuse_detection_tx
revoke_on_reuse rt at = do
  _ ← query (revoke_refresh_family at rt.family_id)
  made ← query (
      tombstone_refresh_family (record {
        family_id = rt.family_id;
        user_id = rt.user_id;
        reason = "reuse_detected";
        revoked_at = at;
      }))
  audit_refresh_reuse_detection_tx rt.user_id rt.family_id at (ltb 0 made)
  commit
  fail grant_refused

unfoldable pub act_on_grace : RefreshRow → ℕ → Grace → Exec Bool
unfolding revoke_on_reuse
act_on_grace rt at grace_issue = pure true
act_on_grace rt at grace_refuse = do
  audit_refresh_reuse_grace rt.user_id rt.family_id "refused"
  fail grant_refused
act_on_grace rt at grace_none = revoke_on_reuse rt at

module _ (s : Settings) where
  -- Whether the token is redeemed again under the grace.
  unfoldable pub decide_replay : RefreshRow → ℕ → Exec Bool
  decide_replay rt at = do
    tombstoned ← query (is_refresh_family_revoked rt.family_id)
    if is_refresh_token_used_or_revoked rt || tombstoned
        then (do grace ← refresh_reuse_grace_decision s rt at; act_on_grace rt at grace)
        else pure false

  unfoldable pub mark_redeemed : RefreshRow → ℕ → Bool → Exec (Unit {0})
  mark_redeemed rt at grace_child =
      if grace_child then pure tt else query (mark_refresh_token_used_and_revoked_by_id rt.id at)

  abbrev pub consumed : RefreshRow → Bool → Consumed
  consumed rt grace_child = record {
    family_id = rt.family_id;
    user_id = rt.user_id;
    client_id = rt.client_id;
    resource = rt.resource;
    scopes = rt.scopes;
    parent = rt.id;
    grace_child = grace_child;
  }

  -- The checks under the family and row locks. The locks serialise such transactions; a single
  -- operation runs alone here.
  unfoldable pub load_for_consumption : String → TokenRequest → String → ℕ → Exec RefreshRow
  load_for_consumption resource request token at = do
    family ← query (get_refresh_family_id_by_token_hash (s.refresh_hash token))
    id ← or_fail family grant_refused
    query (lock_refresh_family id)
    rt ←
        map_err (λ e. elim e [ invalid_refresh_token ↦ grant_refused | x ↦ x ])
          (load_refresh_token_for_update (s.refresh_hash token))
    guard (same_subject request rt) grant_refused
    guard (all (λ scope. any (λ g. str_eq g scope) rt.scopes) (requested_scopes request))
        (oauth "invalid_scope")
    map_err as_grant_error (validate_refresh_token_request s resource rt at)
    pure rt

  -- `consumeRefreshToken`.
  unfoldable pub consume_refresh_token : String → TokenRequest → String → Exec Consumed
  consume_refresh_token resource request token = do
    at ← now
    rt ← load_for_consumption resource request token at
    grace_child ← decide_replay rt at
    mark_redeemed rt at grace_child
    pure (consumed rt grace_child)
