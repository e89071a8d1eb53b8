-- ===== src/Storage/Cleanup/AccountTests.antt =====
-- The deletion of one of two accounts, with and without a failing statement.
use authgate.Prelude.{
  ◌≡◌, ◌⊎◌, refl, true, false, none, some, List, [], ◌∷◌, Bool, String, any, ok, err,
}
use authgate.Storage.Db.{Db, UserRow, SessionRow}
use authgate.Storage.Rows.{count, update, remove}
use authgate.Storage.Exec.{
  StoreError, database, World, ◌>>=◌, query, begin, commit, in_tx, audit_log, log_row, other,
}
use authgate.Storage.Cleanup.Account.{
  due, mark_user_deleted_by_id, delete_user_identities_by_user_id, delete_sessions_by_user_id,
  delete_refresh_tokens_by_user_id, completed, delete_children, delete_user,
}
use authgate.Storage.Cleanup.Purged.{IsPurged, IsGone, purged, delete_user_all_or_nothing}

-- All that a run calls.
evaluated : Unit {0}
unfolding delete_user delete_children mark_user_deleted_by_id delete_user_identities_by_user_id
    delete_sessions_by_user_id delete_refresh_tokens_by_user_id count update remove ◌>>=◌ query
    begin commit in_tx audit_log
evaluated = tt

abbrev leaving : UserRow
leaving = record {
  id = "user";
  email = [];
  email_verified = true;
  name = "User";
  status = "pending_deletion";
  deletion_requested_at = some 5;
  deletion_scheduled_at = some 90;
  deleted_at = none;
  created_at = 0;
  updated_at = 5;
}

abbrev session_of : String → SessionRow
session_of user = record {
  id = user;
  user_id = user;
  token_hash = some user;
  expires_at = 1000;
  revoked_at = none;
  created_at = 0;
}

abbrev tables : Db
tables = record {
  users = leaving ∷ record leaving { id = "other"; status = "active" } ∷ [];
  identities = [];
  refresh_tokens = [];
  families = [];
  auth_requests = [];
  sessions = session_of "user" ∷ session_of "other" ∷ [];
  device_codes = [];
  audit_log = [];
}

abbrev world : List Bool → World
world faults = record {
  state = record { db = tables; tx = tables; now = 100; next_id = 0 };
  faults = faults;
}

-- The deletion, one whose statement on the sessions fails, one whose hook fails, and one of an account
-- that is not due.
runs :
    ((delete_user none "user" 100 (world [])).1.db
      ≡ log_row (completed 100 "user") (purged 100 "user" tables))
    × ((delete_user none "user" 100 (world [])).1.db.sessions ≡ session_of "other" ∷ [])
    × ((delete_user none "user" 100 (world (false ∷ false ∷ false ∷ true ∷ []))).0 ≡ err database)
    × ((delete_user none "user" 100 (world (false ∷ false ∷ false ∷ true ∷ []))).1.db ≡ tables)
    × ((delete_user (some (λ id. some (other "hook"))) "user" 100 (world [])).1.db ≡ tables)
    × ((delete_user none "other" 100 (world [])).0 ≡ ok tt)
    × ((delete_user none "other" 100 (world [])).1.db ≡ tables)
unfolding evaluated
runs = (refl, refl, refl, refl, refl, refl, refl)

delete_user_all_or_nothing_example :
    let (r, w') = delete_user none "user" 100 (world []) in
    (IsPurged 100 "user" tables w'.db × IsGone "user" w'.db)
    ⊎ ((w'.db ≡ tables)
        × ((any (due 100 "user") tables.users ≡ false) ⊎ ((e : StoreError) × (r ≡ err e))))
delete_user_all_or_nothing_example = delete_user_all_or_nothing none "user" 100 (world [])
