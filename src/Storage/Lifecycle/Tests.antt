-- ===== src/Storage/Lifecycle/Tests.antt =====
-- A request for deletion of an account with one live token.
use authgate.Prelude.{◌≡◌, refl, true, none, some, [], ◌∷◌, String, ok}
use authgate.Storage.Db.{Db, UserRow, RefreshRow}
use authgate.Storage.Rows.{find, count, update}
use authgate.Storage.Exec.{World, ◌>>=◌, query, begin, commit, in_tx, user_account_closed}
use authgate.Storage.Users.{get_user_by_id, get_user_for_tx_by_id, build_user, latest_hosted_domain}
use authgate.Storage.Refresh.Tables.{revoke_active_refresh_tokens_by_user_id}
use authgate.Storage.Lifecycle.{
  mark_user_pending_deletion_by_id, revoke_and_commit, not_active, request_deletion,
}
use authgate.Storage.Lifecycle.SignedOut.{IsSignedOut, request_deletion-IsSignedOut}

-- All that a run calls.
evaluated : Unit {0}
unfolding request_deletion not_active revoke_and_commit mark_user_pending_deletion_by_id
    get_user_by_id get_user_for_tx_by_id build_user latest_hosted_domain
    revoke_active_refresh_tokens_by_user_id find count update ◌>>=◌ query begin commit in_tx
evaluated = tt

abbrev account : UserRow
account = record {
  id = "user";
  email = [];
  email_verified = true;
  name = "User";
  status = "active";
  deletion_requested_at = none;
  deletion_scheduled_at = none;
  deleted_at = none;
  created_at = 0;
  updated_at = 0;
}

abbrev token : RefreshRow
token = record {
  id = "1";
  token_hash = "hash";
  family_id = "family";
  user_id = "user";
  client_id = "web";
  resource = "";
  scopes = [];
  expires_at = 1000;
  revoked_at = none;
  used_at = none;
  created_at = 0;
  parent_id = none;
}

abbrev world : String → World
world status = record {
  state = record { db = tables; tx = tables; now = 100; next_id = 0 };
  faults = [];
}
  where
    tables : Db
    tables = record {
      users = record account { status = status } ∷ [];
      identities = [];
      refresh_tokens = token ∷ [];
      families = [];
      auth_requests = [];
      sessions = [];
      device_codes = [];
      audit_log = [];
    }

answers :
    ((request_deletion "user" (world "pending_deletion")).0 ≡ ok ("", none))
    × ((request_deletion "user" (world "disabled")).0 ≡ ok ("disabled", some user_account_closed))
unfolding evaluated
answers = (refl, refl)

accepted : (request_deletion "user" (world "active")).0 ≡ ok ("", none)
unfolding evaluated
accepted = refl

request_deletion-IsSignedOut_example :
    IsSignedOut "user" ((request_deletion "user" (world "active")).1.db)
request_deletion-IsSignedOut_example =
    request_deletion-IsSignedOut "user" "" (world "active") accepted
