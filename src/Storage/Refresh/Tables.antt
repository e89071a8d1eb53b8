-- ===== src/Storage/Refresh/Tables.antt =====
-- internal/db/storeq/refresh_tokens.sql.go: the statements on refresh_tokens and
-- refresh_token_families, as functions on the tables. `none` is a violated unique constraint.
use authgate.Prelude.{
  ℕ, Bool, not, ◌&&◌, ◌||◌, Option, none, some, List, ◌∷◌, String, str_eq, any, if◌then◌else◌,
}
use authgate.Storage.Db.{Db, RefreshRow, FamilyRow}
use authgate.Storage.Rows.{find, count, update, is_none, is_some_eq}

abbrev pub set_refresh : Db → List RefreshRow → Db
set_refresh d rows = record d { refresh_tokens = rows }

unfoldable pub get_refresh_family_id_by_token_hash : String → Db → Option (Option String × Db)
get_refresh_family_id_by_token_hash hash d = some (
  elim (find (λ r. str_eq r.token_hash hash) d.refresh_tokens) [
    | none ↦ none
    | some r ↦ some r.family_id
  ],
  d,
)

-- pg_advisory_xact_lock; a single operation runs alone here.
unfoldable pub lock_refresh_family : String → Db → Option (Unit {0} × Db)
lock_refresh_family family d = some (tt, d)

unfoldable pub get_refresh_token_for_update_by_hash : String → Db → Option (Option RefreshRow × Db)
get_refresh_token_for_update_by_hash hash d =
    some (find (λ r. str_eq r.token_hash hash) d.refresh_tokens, d)

-- `GetRefreshTokenGrantByHash` and `GetRefreshTokenInfoByHashAndClientID`.
unfoldable pub get_refresh_token_grant_by_hash :
    String → String → Db → Option (Option RefreshRow × Db)
get_refresh_token_grant_by_hash hash client_id d =
    some (find (λ r. str_eq r.token_hash hash && str_eq r.client_id client_id) d.refresh_tokens, d)

unfoldable pub get_refresh_token_grant_by_id :
    String → String → Db → Option (Option RefreshRow × Db)
get_refresh_token_grant_by_id id client_id d =
    some (find (λ r. str_eq r.id id && str_eq r.client_id client_id) d.refresh_tokens, d)

-- `id` is the primary key and `token_hash` is unique.
unfoldable pub insert_refresh_token : RefreshRow → Db → Option (Unit {0} × Db)
insert_refresh_token row d =
    if any (λ r. str_eq r.id row.id || str_eq r.token_hash row.token_hash) d.refresh_tokens
    then none
    else some (tt, set_refresh d (row ∷ d.refresh_tokens))

abbrev pub revoke_row : ℕ → RefreshRow → RefreshRow
revoke_row now r = record r { revoked_at = some now }

abbrev pub live_in : String → RefreshRow → Bool
live_in family r = str_eq r.family_id family && is_none r.revoked_at

unfoldable pub revoke_refresh_family : ℕ → String → Db → Option (ℕ × Db)
revoke_refresh_family now family d = some (
  count (live_in family) d.refresh_tokens,
  set_refresh d (update (live_in family) (revoke_row now) d.refresh_tokens),
)

abbrev pub use_row : ℕ → RefreshRow → RefreshRow
use_row now r = record r { used_at = some now; revoked_at = some now }

unfoldable pub mark_refresh_token_used_and_revoked_by_id : String → ℕ → Db → Option (Unit {0} × Db)
mark_refresh_token_used_and_revoked_by_id id now d =
    some (tt, set_refresh d (update (λ r. str_eq r.id id) (use_row now) d.refresh_tokens))

unfoldable pub revoke_active_refresh_tokens_by_user_id : ℕ → String → Db → Option (Unit {0} × Db)
revoke_active_refresh_tokens_by_user_id now user_id d = some (
  tt,
  set_refresh d (
      update (λ r. str_eq r.user_id user_id && is_none r.revoked_at) (revoke_row now)
        d.refresh_tokens),
)

abbrev pub tombstoned_in : List FamilyRow → String → Bool
tombstoned_in rows family = any (λ f. str_eq f.family_id family) rows

unfoldable pub is_refresh_family_revoked : String → Db → Option (Bool × Db)
is_refresh_family_revoked family d = some (tombstoned_in d.families family, d)

-- ON CONFLICT DO NOTHING: the result is the number of rows inserted.
abbrev pub insert_tombstone : FamilyRow → Db → Bool → ℕ × Db
insert_tombstone row d conflict =
    if conflict then (0, d) else (1, record d { families = row ∷ d.families })

unfoldable pub tombstone_refresh_family : FamilyRow → Db → Option (ℕ × Db)
tombstone_refresh_family row d =
    some (insert_tombstone row d (tombstoned_in d.families row.family_id))

unfoldable pub count_refresh_token_children : String → Db → Option (ℕ × Db)
count_refresh_token_children parent d =
    some (count (λ r. is_some_eq r.parent_id parent) d.refresh_tokens, d)

unfoldable pub has_revoked_unredeemed_refresh_token_in_family : String → Db → Option (Bool × Db)
has_revoked_unredeemed_refresh_token_in_family family d = some (
  any (λ r. str_eq r.family_id family && not (is_none r.revoked_at) && is_none r.used_at)
      d.refresh_tokens,
  d,
)
