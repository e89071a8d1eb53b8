-- ===== src/Storage/Refresh/Tests.antt =====
-- Runs of the refresh token operations on one client with an empty store.
use authgate.Prelude.{
  ◌≡◌, refl, ap, ℕ, zero, suc, ◌<◌, ◌↔◌, ◌≤◌, Bool, true, false, ◌||◌, none, some, List, [], ◌∷◌,
  String, str_eq, ok, codes, length, arith,
}
use authgate.Client.{Model, load, static_access, static_refresh_grace_allowed, core_validate_token}
use authgate.ClientAccess.{restricted}
use authgate.Storage.Db.{Db, RefreshRow, AuthRequestRow}
use authgate.Storage.Rows.{find, count, update, remove, is_none}
use authgate.Storage.Exec.{
  State, ◌>>=◌, query, autocommit, begin, commit, in_tx, audit_log, map_err,
}
use authgate.Storage.Settings.{
  Settings, TokenRequest, AuthRequestModel, auth_request, refresh_request,
}
use authgate.Storage.Refresh.Sound.{NeverRepeats}
use authgate.Storage.Refresh.Tables.{
  tombstoned_in, get_refresh_family_id_by_token_hash, lock_refresh_family,
  get_refresh_token_for_update_by_hash, get_refresh_token_grant_by_hash,
  get_refresh_token_grant_by_id, insert_refresh_token, revoke_refresh_family,
  mark_refresh_token_used_and_revoked_by_id, is_refresh_family_revoked, tombstone_refresh_family,
  count_refresh_token_children, has_revoked_unredeemed_refresh_token_in_family,
}
use authgate.Storage.Refresh.Consume.{
  load_refresh_token_for_update, is_refresh_token_used_or_revoked, check_account,
  validate_refresh_token_request, token_request_by_refresh_token, grace_issue, grace_by_children,
  grace_by_family, grace_applies, refresh_reuse_grace_decision, audit_refresh_reuse_grace,
  audit_refresh_reuse_detection_tx, revoke_on_reuse, act_on_grace, decide_replay, mark_redeemed,
  load_for_consumption, consume_refresh_token,
}
use authgate.Storage.Refresh.Issue.{
  consume_auth_code_rows, consume_auth_code, create_access_token, initial_refresh_token_attributes,
  attributes, issue, create_access_and_refresh_tokens,
}
use authgate.Storage.Refresh.Revoke.{
  lookup_refresh_grant, revoke_found, revoke_if_found, revoke_refresh_grant, answer_revocation,
  revoke_token,
}
use authgate.Storage.Refresh.Grace.{
  IsRecentRedemption, revoked_unredeemed_in, children_of, refresh_reuse_grace_decision-issue_iff,
}
use authgate.Storage.Refresh.CodeOnce.{
  access_only, with_refresh, exchange_at, NoneAdded, exchange_once,
}
use authgate.Storage.Refresh.Reach.{Call, call, exchange, wait, revoke, run, run-revoked_family}
use authgate.Storage.Refresh.Replay.{running, consume_refresh_token-replay, IsRefusedReplay}

-- Distinct texts: as many strokes as the number.
strokes : ℕ → String
strokes zero = ""
strokes (suc n) = String.◌∷◌ "i" (strokes n)

length-strokes : (n : ℕ) → length (codes (strokes n)) ≡ n
unfolding strokes
length-strokes zero = refl
length-strokes (suc n) = omega (arith, length-strokes n)

-- All that a run calls.
evaluated : Unit {0}
unfolding strokes run call create_access_and_refresh_tokens issue attributes
    initial_refresh_token_attributes create_access_token consume_auth_code consume_auth_code_rows
    consume_refresh_token load_for_consumption mark_redeemed decide_replay act_on_grace
    revoke_on_reuse audit_refresh_reuse_detection_tx audit_refresh_reuse_grace
    refresh_reuse_grace_decision grace_applies grace_by_family grace_by_children
    token_request_by_refresh_token validate_refresh_token_request check_account
    is_refresh_token_used_or_revoked load_refresh_token_for_update revoke_token answer_revocation
    revoke_refresh_grant revoke_if_found revoke_found lookup_refresh_grant
    get_refresh_family_id_by_token_hash lock_refresh_family get_refresh_token_for_update_by_hash
    get_refresh_token_grant_by_hash get_refresh_token_grant_by_id insert_refresh_token
    revoke_refresh_family mark_refresh_token_used_and_revoked_by_id is_refresh_family_revoked
    tombstone_refresh_family count_refresh_token_children
    has_revoked_unredeemed_refresh_token_in_family find count update remove ◌>>=◌ query autocommit
    begin commit in_tx audit_log map_err load static_access restricted static_refresh_grace_allowed
    core_validate_token
evaluated = tt

strokes-NeverRepeats : NeverRepeats strokes
strokes-NeverRepeats a b e =
    omega (arith, length-strokes a, length-strokes b, ap (λ t. length (codes t)) e)

abbrev web : Model
web = record {
  id = "web";
  secret_hash = some "hash";
  kind = "confidential";
  login_channel = "browser";
  name = "Web";
  redirect_uri_list = [];
  allowed_scope_list = "openid" ∷ [];
  allowed_grant_type_list = "authorization_code" ∷ [];
  skip_pkce = false;
  uuid = "";
  url = "";
  id_token_userinfo_assertion = false;
  access = none;
}

abbrev settings : Settings
settings = record {
  refresh_hash = λ t. t;
  code_hash = λ t. t;
  session_hash = λ t. t;
  uuid = strokes;
  opaque_token = λ n. some (strokes n);
  timestamptz = λ t. t;
  is_uuid = λ t. true;
  access_token_ttl = 900;
  refresh_token_ttl = 1000;
  device_poll_interval = 5;
  refresh_reuse_grace = 10;
  state_checker = none;
  registry = web ∷ [];
  resolve_client = λ id. none;
  validate_authorize_request = λ client requested. ok tt;
  validate_token_request = λ client stored requested. core_validate_token stored requested;
}

abbrev login : AuthRequestModel
login = record {
  id = "request";
  client_id = "web";
  resource = "";
  redirect_uri = "https://app.example/callback";
  scopes = "openid" ∷ [];
  state = "";
  nonce = "";
  code_challenge = "challenge";
  code_challenge_method = "S256";
  prompt = [];
  max_age = none;
  subject = "user";
  auth_time = some 0;
  is_done = true;
  code = some "code";
  expires_at = 300;
  created_at = 0;
}

abbrev login_row : AuthRequestRow
login_row = record {
  id = "request";
  client_id = "web";
  resource = "";
  redirect_uri = "https://app.example/callback";
  scopes = "openid" ∷ [];
  state = "";
  nonce = "";
  code_challenge = "challenge";
  code_challenge_method = "S256";
  prompt = [];
  max_age = none;
  subject = some "user";
  auth_time = some 0;
  is_done = true;
  code = some "code";
  expires_at = 300;
  created_at = 0;
}

abbrev start : State
start = record { db = tables; tx = tables; now = 100; next_id = 0 }
  where
    tables : Db
    tables = record {
      users = [];
      identities = [];
      refresh_tokens = [];
      families = [];
      auth_requests = login_row ∷ [];
      sessions = [];
      device_codes = [];
      audit_log = [];
    }

abbrev again : TokenRequest
again = refresh_request (record { client_id = "web"; subject = "user"; scopes = "openid" ∷ [] })

-- A login at 100, a redemption of its token at 101, in which a statement of the audit log would fail,
-- and a revocation of the first token.
abbrev calls : List (Call × List Bool)
calls =
    (exchange "" (auth_request login) "", [])
    ∷ (wait 1, [])
    ∷ (exchange "" again "i", false ∷ false ∷ false ∷ [])
    ∷ (revoke "i" "user" "web", [])
    ∷ []

abbrev first_token : RefreshRow
first_token = record {
  id = "iii";
  token_hash = "i";
  family_id = "ii";
  user_id = "user";
  client_id = "web";
  resource = "";
  scopes = "openid" ∷ [];
  expires_at = 1100;
  revoked_at = some 101;
  used_at = some 101;
  created_at = 100;
  parent_id = none;
}

found :
    find (λ r. str_eq r.token_hash "i") ((run settings calls start).db.refresh_tokens)
    ≡ some first_token
unfolding evaluated
found = refl

revoked : tombstoned_in ((run settings calls start).db.families) "ii" ≡ true
unfolding evaluated
revoked = refl

run-revoked_family_example : is_none first_token.revoked_at ≡ false
run-revoked_family_example =
    run-revoked_family settings strokes-NeverRepeats calls start (refl, refl) (refl, refl) "i"
      first_token found revoked

-- A token redeemed at 100, and its child, twenty nanoseconds later: the grace is over.
abbrev replayed_token : RefreshRow
replayed_token = record first_token { revoked_at = some 100; used_at = some 100 }

abbrev child_token : RefreshRow
child_token = record first_token {
  id = "iiiii";
  token_hash = "iiii";
  revoked_at = none;
  used_at = none;
  parent_id = some "iii";
}

abbrev redeemed_twice : State
redeemed_twice = record { db = tables; tx = tables; now = 120; next_id = 6 }
  where
    tables : Db
    tables = record {
      users = [];
      identities = [];
      refresh_tokens = child_token ∷ replayed_token ∷ [];
      families = [];
      auth_requests = [];
      sessions = [];
      device_codes = [];
      audit_log = [];
    }

loaded :
    load_for_consumption settings "" again "i" redeemed_twice.now (running redeemed_twice)
    ≡ (ok replayed_token, running redeemed_twice)
unfolding evaluated
loaded = refl

used :
    (is_refresh_token_used_or_revoked replayed_token
      || tombstoned_in redeemed_twice.tx.families "ii")
    ≡ true
unfolding evaluated
used = refl

too_late : grace_applies settings replayed_token redeemed_twice.now ≡ false
unfolding evaluated
too_late = refl

consume_refresh_token-replay_example :
    IsRefusedReplay "ii" (consume_refresh_token settings "" again "i" (running redeemed_twice))
consume_refresh_token-replay_example =
    consume_refresh_token-replay settings "" again "i" redeemed_twice redeemed_twice replayed_token
      loaded used too_late

refresh_reuse_grace_decision-issue_iff_example :
    ((refresh_reuse_grace_decision settings replayed_token 105 (running redeemed_twice)).0
      ≡ ok grace_issue)
    ↔ (IsRecentRedemption settings replayed_token 105
        × (tombstoned_in redeemed_twice.tx.families "ii" ≡ false)
        × (revoked_unredeemed_in "ii" redeemed_twice.tx.refresh_tokens ≡ false)
        × (children_of "iii" redeemed_twice.tx.refresh_tokens < 3))
refresh_reuse_grace_decision-issue_iff_example =
    refresh_reuse_grace_decision-issue_iff settings replayed_token 105 redeemed_twice

-- The same code once more, after an exchange with a refresh token.
abbrev exchanged : State
exchanged = ((exchange_at settings login (with_refresh "") start []).1).state

abbrev exchanged_later : State
exchanged_later = record exchanged { now = 101 }

accepted :
    ((exchange_at settings login (with_refresh "") start []).0 ≡ true)
    × ((exchange_at settings login access_only start []).0 ≡ true)
unfolding evaluated
accepted = (refl, refl)

none_added :
    NoneAdded login.id
      ((exchange_at settings login (with_refresh "") start []).1.db.auth_requests)
      exchanged_later.db.auth_requests
unfolding evaluated
none_added = tt

in_order : start.now ≤ exchanged_later.now
unfolding evaluated
in_order = omega arith

exchange_once_example : (exchange_at settings login access_only exchanged_later []).0 ≡ false
exchange_once_example =
    exchange_once settings login (with_refresh "") access_only start exchanged_later [] []
      accepted.0 none_added in_order
