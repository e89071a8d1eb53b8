-- ===== src/Storage/Db.antt =====
-- The tables of migrations/*.up.sql that the modelled queries read and write. Times are nanoseconds
-- since Go's zero time, as the columns hold them. The encrypted columns of `users` are the values
-- that they hold: a failure to decrypt them is one of the faults of Storage/Exec.
use authgate.Prelude.{ℕ, Bool, Option, List, String, Bytes}

pub record UserRow : Type 0 where
  pub id : String
  pub email : Bytes
  pub email_verified : Bool
  pub name : String
  pub status : String
  pub deletion_requested_at : Option ℕ
  pub deletion_scheduled_at : Option ℕ
  pub deleted_at : Option ℕ
  pub created_at : ℕ
  pub updated_at : ℕ

pub record IdentityRow : Type 0 where
  pub id : String
  pub user_id : String
  pub provider : String
  pub provider_sub_hash : String
  pub hosted_domain : Bytes
  pub created_at : ℕ

pub record RefreshRow : Type 0 where
  pub id : String
  pub token_hash : String
  pub family_id : String
  pub user_id : String
  pub client_id : String
  pub resource : String
  pub scopes : List String
  pub expires_at : ℕ
  pub revoked_at : Option ℕ
  pub used_at : Option ℕ
  pub created_at : ℕ
  pub parent_id : Option String

pub record FamilyRow : Type 0 where
  pub family_id : String
  pub user_id : String
  pub reason : String
  pub revoked_at : ℕ

pub record AuthRequestRow : Type 0 where
  pub id : String
  pub client_id : String
  pub resource : String
  pub redirect_uri : String
  pub scopes : List String
  pub state : String
  pub nonce : String
  pub code_challenge : String
  pub code_challenge_method : String
  pub prompt : List String
  -- A signed 64-bit number, by its bit pattern.
  pub max_age : Option ℕ
  pub subject : Option String
  pub auth_time : Option ℕ
  pub is_done : Bool
  pub code : Option String
  pub expires_at : ℕ
  pub created_at : ℕ

pub record SessionRow : Type 0 where
  pub id : String
  pub user_id : String
  pub token_hash : Option String
  pub expires_at : ℕ
  pub revoked_at : Option ℕ
  pub created_at : ℕ

pub record DeviceRow : Type 0 where
  pub id : String
  pub device_code : String
  pub user_code : String
  pub client_id : String
  pub scopes : List String
  pub state : String
  pub subject : Option String
  pub expires_at : ℕ
  pub auth_time : Option ℕ
  pub last_polled_at : Option ℕ
  pub created_at : ℕ

pub record AuditRow : Type 0 where
  pub user_id : Option String
  pub event_type : String
  -- The value of `family_id`, `client_id` and the like; which one the event says.
  pub about : String
  pub outcome : String
  pub created_at : ℕ

pub record Db : Type 0 where
  pub users : List UserRow
  pub identities : List IdentityRow
  pub refresh_tokens : List RefreshRow
  pub families : List FamilyRow
  pub auth_requests : List AuthRequestRow
  pub sessions : List SessionRow
  pub device_codes : List DeviceRow
  pub audit_log : List AuditRow
