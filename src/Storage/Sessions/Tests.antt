-- ===== src/Storage/Sessions/Tests.antt =====
-- A session of one account, and the theorems at it.
use authgate.Prelude.{◌≡◌, ◌≢◌, refl, Option, none, some, [], ◌∷◌, String, ok, err, arith, str_eq}
use authgate.Storage.Db.{Db, SessionRow}
use authgate.Storage.Rows.{find, update, count}
use authgate.Storage.Exec.{World, StoreError, not_found, audit_log, ◌>>=◌, autocommit}
use authgate.Storage.Settings.{User}
use authgate.Storage.Users.{build_user, latest_hosted_domain}
use authgate.Storage.AuthRequests.Sample.{cfg, world, tables, ada}
use authgate.Storage.AuthRequests.Kept.{later}
use authgate.Storage.Sessions.{
  create_session, insert_session, get_valid_session, get_valid_session_user, require_usable_user,
  session_auth_time, terminate_session, revoke_sessions_by_user_id,
}
use authgate.Storage.Sessions.Valid.{create_session-get_valid_session}
use authgate.Storage.Sessions.LoggedOut.{terminate_session-get_valid_session}

abbrev opened : World
opened = (create_session cfg "user" 60 (world [])).1

opens : (create_session cfg "user" 60 (world [])).0 ≡ ok "token"
unfolding create_session insert_session autocommit ◌>>=◌
opens = refl

-- Nobody has the account.
refused_account : (create_session cfg "nobody" 60 (world [])).0 ≡ err StoreError.database
unfolding create_session insert_session autocommit ◌>>=◌
refused_account = refl

found_ada : find (λ u. str_eq u.id "user") (ada ∷ []) ≡ some ada
unfolding find
found_ada = refl

create_session-get_valid_session_example :
    ((get_valid_session cfg "token" (later 159 opened)).0
      ≡ ok (build_user [] ada, require_usable_user (build_user [] ada)))
    × ((session_auth_time cfg "token" (later 159 opened)).0 ≡ ok 100)
create_session-get_valid_session_example =
    create_session-get_valid_session cfg "user" "token" 60 (world []) ada 159 opens found_ada
      (omega arith)

-- Two accounts with a session each.
abbrev session_of : String → String → SessionRow
session_of id user_id = record {
  id = id;
  user_id = user_id;
  token_hash = some id;
  expires_at = 200;
  revoked_at = none;
  created_at = 90;
}

abbrev both_tables : Db
both_tables = record (tables []) {
  users = ada ∷ record ada { id = "other" } ∷ [];
  sessions = session_of "one" "user" ∷ session_of "two" "other" ∷ [];
}

abbrev both : World
both = record {
  state = record { db = both_tables; tx = both_tables; now = 100; next_id = 0 };
  faults = [];
}

logs_out : (terminate_session "user" "web" both).0 ≡ ok tt
unfolding terminate_session revoke_sessions_by_user_id count update audit_log autocommit ◌>>=◌
logs_out = refl

abbrev other_found : User × Option StoreError
other_found = (build_user [] (record ada { id = "other" }), none)

abbrev after_logout : World
after_logout = later 150 (terminate_session "user" "web" both).1

other_stays : (get_valid_session cfg "two" after_logout).0 ≡ ok other_found
unfolding terminate_session revoke_sessions_by_user_id count update audit_log get_valid_session
    get_valid_session_user require_usable_user build_user latest_hosted_domain find autocommit ◌>>=◌
other_stays = refl

first_gone : (get_valid_session cfg "one" after_logout).0 ≡ err not_found
unfolding terminate_session revoke_sessions_by_user_id count update audit_log get_valid_session
    get_valid_session_user find autocommit ◌>>=◌
first_gone = refl

terminate_session-get_valid_session_example : other_found.0.id ≢ "user"
terminate_session-get_valid_session_example =
    terminate_session-get_valid_session cfg "user" "web" "two" both 150 [] other_found logs_out
      other_stays
