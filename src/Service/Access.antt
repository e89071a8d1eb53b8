-- ===== src/Service/Access.antt =====
-- internal/service/access.go, client_access.go and audit_helper.go, with the metadata of
-- internal/storage/client_access.go: who may go on, and the audit row of a refusal.
use authgate.Prelude.{
  Bool, true, false, ◌||◌, Option, none, some, List, [], ◌∷◌, String, Bytes, str_eq, if◌then◌else◌,
  Result, ok, err,
}
use authgate.ClientAccess.{
  Subject, Reason, deny_listed, not_allowed, email_unverified, Decision, allowed, refused, evaluate,
}
use authgate.ClientAccess.Normalize.{email_domain, is_empty}
use authgate.Client.{Model}
use authgate.Storage.Exec.{StoreError}
use authgate.Storage.Settings.{User, access_subject}
use authgate.Service.Step.{Step, call, answer, panic, pure, ◌>>=◌, ◌>>◌}
use authgate.Service.Store.{
  Value, text, bytes, flag, UserInfo, CallbackResult, callback_error, Service, Origin,
}

pub data AccessResult : Type 0 where
  access_allow access_recover access_deny : AccessResult

-- `CheckAccess`.
abbrev pub check_access : String → String → AccessResult
check_access status channel =
    if str_eq status "disabled" || str_eq status "deleted"
    then access_deny
    else if str_eq status "pending_deletion"
    then (if str_eq channel "browser" then access_recover else access_deny)
    else access_allow

-- `CheckAccess(...) == AccessAllow`, and `== AccessDeny`.
abbrev pub is_allow : AccessResult → Bool
is_allow access_allow = true
is_allow access_recover = false
is_allow access_deny = false

abbrev pub is_deny : AccessResult → Bool
is_deny access_allow = false
is_deny access_recover = false
is_deny access_deny = true

-- `accessSubjectFromUpstream`.
abbrev pub access_subject_from_upstream : UserInfo → Subject
access_subject_from_upstream info = record {
  email = info.email;
  email_verified = info.email_verified;
  hosted_domain = info.hosted_domain;
}

abbrev pub reason_text : Reason → String
reason_text deny_listed = "deny_listed"
reason_text not_allowed = "not_allowed"
reason_text email_unverified = "email_unverified"

-- `AccessDeniedAuditMetadata`.
abbrev pub access_denied_audit_metadata :
    String → String → String → Reason → Bytes → Bool → List (String × Value)
access_denied_audit_metadata client_id client_name channel reason email signup =
    ("client_id", text client_id)
    ∷ ("client_name", text client_name)
    ∷ ("channel", text channel)
    ∷ ("reason", text (reason_text reason))
    ∷ ("signup", flag signup)
    ∷ (if is_empty (email_domain email) then [] else ("domain", bytes (email_domain email)) ∷ [])

-- `lifecycleAuditMetadata`.
abbrev pub lifecycle_audit_metadata : String → String → String → String → List (String × Value)
lifecycle_audit_metadata channel session_id client_id client_name =
    ("channel", text channel)
    ∷ ("session_id", text session_id)
    ∷ ("client_id", text client_id)
    ∷ ("client_name", text client_name)
    ∷ []

abbrev name_of : Option Model → String
name_of none = ""
name_of (some c) = c.name

-- What each handler of a request shares: the service, where the request came from, and how its
-- answers (of type R) are made.
module _ {S R : Type 0} (service : Service S) (origin : Origin) where
  open service use {store, provider_name}

  -- The call of AuditLog.
  abbrev pub audit : Option String → String → List (String × Value) → Step S R (Unit {0})
  audit user_id event_type metadata = call (
      store.audit_log (record {
        user_id = user_id;
        event_type = event_type;
        ip_address = origin.ip_address;
        user_agent = origin.user_agent;
        metadata = metadata;
      }))

  abbrev pub audit_if : Bool → Option String → String → List (String × Value) → Step S R (Unit {0})
  audit_if true user_id event_type metadata = audit user_id event_type metadata
  audit_if false user_id event_type metadata = pure tt

  -- `resolveClientName`.
  unfoldable pub resolve_client_name : String → Step S R String
  resolve_client_name client_id =
      if str_eq client_id ""
      then pure ""
      else (do client ← call (store.resolve_client client_id); pure (name_of client))

  abbrev pub audit_decision :
      Model → String → Option String → Subject → Bool → Option Decision → Step S R Bool
  audit_decision client channel user_id subject signup none = panic
  audit_decision client channel user_id subject signup (some allowed) = pure true
  audit_decision client channel user_id subject signup (some (refused reason)) = do
    audit user_id "auth.access_denied"
        (access_denied_audit_metadata client.id client.name channel reason subject.email signup)
    pure false

  -- `checkClientAccess`.
  unfoldable pub check_client_access :
      Model → String → Option String → Subject → Bool → Step S R Bool
  check_client_access client channel user_id subject signup =
      audit_decision client channel user_id subject signup (evaluate client.access subject)

  -- `a && b` of calls.
  abbrev pub and_then : Bool → Step S R Bool → Step S R Bool
  and_then true next = next
  and_then false next = pure false

  -- `checkExistingAccountAccess`: what the IdP says now, then what is stored.
  unfoldable pub check_existing_account_access : Model → String → User → UserInfo → Step S R Bool
  check_existing_account_access client channel user info = do
    fresh ←
        check_client_access client channel (some user.id) (access_subject_from_upstream info) false
    and_then fresh (check_client_access client channel (some user.id) (access_subject user) false)

  abbrev pub hosted_domain_recorded :
      (CallbackResult → R) → Result StoreError (Unit {0}) → User → UserInfo → Step S R User
  hosted_domain_recorded to_answer (err e) user info =
      answer (to_answer (callback_error "internal_error" 500))
  hosted_domain_recorded to_answer (ok done) user info =
      pure (record user { hosted_domain = info.hosted_domain })

  -- `recordHostedDomain`, which gives the user with the domain; `to_answer` is what the caller makes
  -- of a result that is not nil.
  unfoldable pub record_hosted_domain : (CallbackResult → R) → UserInfo → User → Step S R User
  record_hosted_domain to_answer info user = do
    stored ← call (store.set_identity_hosted_domain provider_name info.sub info.hosted_domain)
    hosted_domain_recorded to_answer stored user info
