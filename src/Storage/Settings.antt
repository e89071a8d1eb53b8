-- ===== src/Storage/Settings.antt =====
-- internal/storage/storage.go and models.go: what a Storage is made with, and the models it returns.
-- Hashing (HMAC), UUIDs and random tokens come from libraries: they are fields here.
use authgate.Prelude.{ℕ, Bool, Option, List, String, Bytes}
use authgate.Client.{Model, Registry, ResourceError}
use authgate.Prelude.{Result}
use authgate.ClientAccess.{Subject}

pub record User : Type 0 where
  pub id : String
  pub email : Bytes
  pub email_verified : Bool
  pub name : String
  pub status : String
  pub hosted_domain : Bytes

-- `AccessSubject`.
abbrev pub access_subject : User → Subject
access_subject u = record {
  email = u.email;
  email_verified = u.email_verified;
  hosted_domain = u.hosted_domain;
}

pub record Settings : Type 0 where
  -- crypto.Keys: the lookup hashes.
  pub refresh_hash : String → String
  pub code_hash : String → String
  pub session_hash : String → String
  -- The n-th value of NewUUID and of NewOpaqueToken, which may fail.
  pub uuid : ℕ → String
  pub opaque_token : ℕ → Option String
  -- What a timestamptz column holds of a time that the driver is given: PostgreSQL keeps microseconds.
  pub timestamptz : ℕ → ℕ
  -- Whether uuid.Parse accepts.
  pub is_uuid : String → Bool
  pub access_token_ttl : ℕ
  pub refresh_token_ttl : ℕ
  pub device_poll_interval : ℕ
  -- 0 disables the grace.
  pub refresh_reuse_grace : ℕ
  -- `none` is a nil checker; the checker returns the message of its error.
  pub state_checker : Option (User → Option String)
  pub registry : Registry
  -- The resolution policy: a client, or `none` for any error.
  pub resolve_client : String → Option Model
  -- resourcePolicy.ValidateAuthorizeRequest, with the client and the requested resource.
  pub validate_authorize_request : Model → String → Result ResourceError (Unit {0})
  -- resourcePolicy.ValidateTokenRequest, with client, stored and requested resource.
  pub validate_token_request : String → String → String → Result ResourceError (Unit {0})

-- The request that the provider hands to token issuance.
pub record RefreshRequest : Type 0 where
  pub client_id : String
  pub subject : String
  pub scopes : List String

pub record AuthRequestModel : Type 0 where
  pub id : String
  pub client_id : String
  pub resource : String
  pub redirect_uri : String
  pub scopes : List String
  pub state : String
  pub nonce : String
  pub code_challenge : String
  pub code_challenge_method : String
  pub prompt : List String
  -- In seconds, a uint; `none` if the client sent no max_age.
  pub max_age : Option ℕ
  -- `GetSubject`, which is "" for a nil subject.
  pub subject : String
  pub auth_time : Option ℕ
  pub is_done : Bool
  pub code : Option String
  pub expires_at : ℕ
  pub created_at : ℕ

pub record DeviceState : Type 0 where
  pub client_id : String
  pub scopes : List String
  pub expires : ℕ
  pub is_done : Bool
  pub denied : Bool
  pub subject : String
  pub auth_time : ℕ

pub data TokenRequest : Type 0 where
  auth_request : AuthRequestModel → TokenRequest
  device_request : DeviceState → TokenRequest
  refresh_request : RefreshRequest → TokenRequest
