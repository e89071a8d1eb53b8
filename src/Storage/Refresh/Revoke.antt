-- ===== src/Storage/Refresh/Revoke.antt =====
-- internal/storage/refresh_revocation.go and user_lifecycle.go: revocation of a grant.
use authgate.Prelude.{
  ℕ, Bool, false, Option, none, some, String, str_eq, ltb, if◌then◌else◌, Result, ok, err,
}
use authgate.Storage.Db.{RefreshRow, AuditRow}
use authgate.Storage.Exec.{
  StoreError, oauth, Exec, pure, fail, query, ◌>>=◌, ◌>>◌, commit, in_tx, now, audit_log,
}
use authgate.Storage.Settings.{Settings}
use authgate.Storage.Refresh.Tables.{
  get_refresh_token_grant_by_hash, get_refresh_token_grant_by_id, revoke_refresh_family,
  tombstone_refresh_family, lock_refresh_family,
}

module _ (s : Settings) where
  -- `lookupRefreshGrant`: by the token's hash, or by the row's id.
  unfoldable pub lookup_refresh_grant : String → String → Exec (Option RefreshRow)
  lookup_refresh_grant token client_id = do
    found ← query (get_refresh_token_grant_by_hash (s.refresh_hash token) client_id)
    elim found [
      | some rt ↦ pure (some rt)
      | none ↦
          if s.is_uuid token
          then query (get_refresh_token_grant_by_id token client_id)
          else pure none
    ]

  unfoldable pub revoke_found : RefreshRow → ℕ → Exec (Bool × String)
  revoke_found rt at = do
    query (lock_refresh_family rt.family_id)
    n ← query (revoke_refresh_family at rt.family_id)
    _ ← query (
        tombstone_refresh_family (record {
          family_id = rt.family_id;
          user_id = rt.user_id;
          reason = "revoked";
          revoked_at = at;
        }))
    commit
    pure (ltb 0 n, rt.user_id)

  unfoldable pub revoke_if_found : Option RefreshRow → ℕ → Exec (Bool × String)
  revoke_if_found none at = pure (false, "")
  revoke_if_found (some rt) at = revoke_found rt at

  -- `revokeRefreshGrant`: whether a live token was revoked, and the grant's user.
  unfoldable pub revoke_refresh_grant : String → String → Exec (Bool × String)
  revoke_refresh_grant token client_id = do
    at ← now
    in_tx (do found ← lookup_refresh_grant token client_id; revoke_if_found found at)

  abbrev pub revoked_row : String → String → ℕ → AuditRow
  revoked_row user_id client_id at = record {
    user_id = some user_id;
    event_type = "auth.token_revoked";
    about = client_id;
    outcome = "";
    created_at = at;
  }

  -- Any error of the revocation is answered as server_error.
  unfoldable pub answer_revocation :
      Result StoreError (Bool × String) → String → String → Exec (Unit {0})
  answer_revocation (err e) user_id client_id = fail (oauth "server_error")
  answer_revocation (ok (revoked, owner)) user_id client_id =
      if revoked
      then (do
        at ← now
        audit_log (revoked_row (if str_eq owner "" then user_id else owner) client_id at))
      else pure tt

  -- `RevokeToken`.
  unfoldable pub revoke_token : String → String → String → Exec (Unit {0})
  revoke_token token user_id client_id w =
      let (r, w') = revoke_refresh_grant token client_id w in
      answer_revocation r user_id client_id w'
