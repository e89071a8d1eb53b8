-- ===== src/Storage/AuthRequests/Sample.antt =====
-- A client, settings, an account and a world of tests.
use authgate.Prelude.{
  ◌-◌, ◌%◌, true, false, none, some, List, [], ◌∷◌, ok, codes, str_eq, if◌then◌else◌,
}
use authgate.Client.{Model, core_validate_token}
use authgate.Storage.Db.{Db, UserRow, AuthRequestRow}
use authgate.Storage.Exec.{World}
use authgate.Storage.Settings.{Settings}

abbrev pub web : Model
web = record {
  id = "web";
  secret_hash = none;
  kind = "public";
  login_channel = "browser";
  name = "Web";
  redirect_uri_list = "https://app.example/callback" ∷ [];
  allowed_scope_list = "openid" ∷ [];
  allowed_grant_type_list = "authorization_code" ∷ [];
  skip_pkce = false;
  uuid = "";
  url = "";
  id_token_userinfo_assertion = false;
  access = none;
}

abbrev pub cfg : Settings
cfg = record {
  refresh_hash = λ s. s;
  code_hash = λ s. s;
  session_hash = λ s. s;
  uuid = λ n. "request";
  opaque_token = λ n. some "token";
  -- A column that keeps tens.
  timestamptz = λ t. t - t % 10;
  is_uuid = λ s. true;
  access_token_ttl = 100;
  refresh_token_ttl = 1000;
  device_poll_interval = 5;
  refresh_reuse_grace = 10;
  state_checker = some (λ u. if str_eq u.status "active" then none else some "not active");
  registry = web ∷ [];
  resolve_client = λ id. if str_eq id "web" then some web else none;
  validate_authorize_request = λ client requested. ok tt;
  validate_token_request = λ client stored requested. core_validate_token stored requested;
}

abbrev pub ada : UserRow
ada = record {
  id = "user";
  email = codes "ada@example.com";
  email_verified = true;
  name = "Ada";
  status = "active";
  deletion_requested_at = none;
  deletion_scheduled_at = none;
  deleted_at = none;
  created_at = 1;
  updated_at = 1;
}

abbrev pub tables : List AuthRequestRow → Db
tables requests = record {
  users = ada ∷ [];
  identities = [];
  refresh_tokens = [];
  families = [];
  auth_requests = requests;
  sessions = [];
  device_codes = [];
  audit_log = [];
}

abbrev pub world : List AuthRequestRow → World
world requests = record {
  state = record { db = tables requests; tx = tables requests; now = 100; next_id = 0 };
  faults = [];
}
