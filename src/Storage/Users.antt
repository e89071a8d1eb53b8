-- ===== src/Storage/Users.antt =====
-- internal/storage/users.go and client_access.go: the reads of an account on the token paths, and the
-- re-evaluation of the client's access policy there.
use authgate.Prelude.{
  ℕ, Option, none, some, List, [], ◌∷◌, String, Bytes, str_eq, ltb, if◌then◌else◌,
}
use authgate.ClientAccess.{Policy, Decision, allowed, refused, evaluate}
use authgate.Storage.Db.{Db, UserRow, IdentityRow, AuditRow}
use authgate.Storage.Rows.{find}
use authgate.Storage.Exec.{
  not_found, oauth, other, Exec, pure, fail, query, ◌>>=◌, ◌>>◌, audit_log, now, or_fail,
}
use authgate.Storage.Settings.{User, access_subject}

unfoldable pub newer : Option IdentityRow → IdentityRow → Option IdentityRow
newer none j = some j
newer (some b) j = if ltb b.created_at j.created_at then some j else some b

-- ORDER BY created_at DESC LIMIT 1, or the empty text.
unfoldable pub latest_hosted_domain : String → Option IdentityRow → List IdentityRow → Bytes
unfolding newer
latest_hosted_domain user_id none [] = []
latest_hosted_domain user_id (some best) [] = best.hosted_domain
latest_hosted_domain user_id best (i ∷ is) =
    latest_hosted_domain user_id (if str_eq i.user_id user_id then newer best i else best) is

unfoldable pub build_user : List IdentityRow → UserRow → User
unfolding latest_hosted_domain
build_user identities row = record {
  id = row.id;
  email = row.email;
  email_verified = row.email_verified;
  name = row.name;
  status = row.status;
  hosted_domain = latest_hosted_domain row.id none identities;
}

unfoldable pub get_user_for_tx_by_id : String → Db → Option (Option User × Db)
unfolding build_user
get_user_for_tx_by_id id d = some (
  elim (find (λ u. str_eq u.id id) d.users) [
    | none ↦ none
    | some row ↦ some (build_user d.identities row)
  ],
  d,
)

-- `getUserByID`.
unfoldable pub get_user_by_id : String → Exec User
get_user_by_id id = do found ← query (get_user_for_tx_by_id id); or_fail found not_found

-- What `AuditLog` is given on a refusal. The event's other fields are constants of the call.
unfoldable pub access_denied_row : String → String → ℕ → AuditRow
access_denied_row user_id client_id at = record {
  user_id = some user_id;
  event_type = "auth.access_denied";
  about = client_id;
  outcome = "";
  created_at = at;
}

-- The error of enforceStaticClientAccess. `none` is the index fault of `evaluate`, a panic.
unfoldable pub after_decision : User → String → Option Decision → Exec (Unit {0})
unfolding access_denied_row
after_decision user client_id none = fail (other "panic")
after_decision user client_id (some allowed) = pure tt
after_decision user client_id (some (refused reason)) = do
  at ← now
  audit_log (access_denied_row user.id client_id at)
  fail (oauth "invalid_grant")

-- `enforceStaticClientAccess`.
unfoldable pub enforce_static_client_access : Option Policy → String → User → Exec (Unit {0})
enforce_static_client_access access client_id user =
    after_decision user client_id (evaluate access (access_subject user))

-- A state checker that is nil accepts everyone; an error of it ends as invalid_grant.
unfoldable pub check_state : Option (User → Option String) → User → Exec (Unit {0})
check_state none user = pure tt
check_state (some check) user = elim (check user) [
  | none ↦ pure tt
  | some message ↦ fail (oauth "invalid_grant")
]
