-- ===== src/Service/Device/Approval.antt =====
-- internal/service/device.go: the approval and the denial of a device code.
use authgate.Prelude.{
  ℕ, Bool, true, false, not, Option, none, some, List, [], ◌∷◌, String, str_eq, if◌then◌else◌,
  Result, ok, err,
}
use authgate.Client.{Model}
use authgate.Storage.Db.{DeviceRow}
use authgate.Storage.Exec.{StoreError}
use authgate.Storage.Settings.{User, access_subject}
use authgate.Service.Step.{Step, call, answer, answer_if, run_if, or_answer, pure, ◌>>=◌, ◌>>◌}
use authgate.Service.Store.{
  Value, text, SessionLookup, session, closed, no_session, Service, Origin,
}
use authgate.Service.Access.{check_access, is_allow, audit, check_client_access}
use authgate.Service.Login.{audit_inactive_user}
use authgate.Service.Device.{device_access_denied_message}

pub record DeviceApproveResult : Type 0 where
  pub success : Bool
  pub message : String
  pub error_code : ℕ

abbrev pub not_approved : String → ℕ → DeviceApproveResult
not_approved message code = record { success = false; message = message; error_code = code }

abbrev pub code_processed_message : String
code_processed_message = "Device code expired or already processed."

abbrev device_metadata : String → Option Model → List (String × Value)
device_metadata client_id none = ("client_id", text client_id) ∷ []
device_metadata client_id (some c) =
    ("client_id", text client_id) ∷ ("client_name", text c.name) ∷ []

module _ {S : Type 0} (service : Service S) (origin : Origin) where
  open service use {store, provider_name, session_ttl, now}

  abbrev audit_context :
      {R : Type 0}
      → Result StoreError DeviceRow
      → Step S R (Result StoreError (DeviceRow × List (String × Value)))
  audit_context (err e) = pure (err e)
  audit_context (ok dc) = do
    client ← call (store.resolve_client dc.client_id)
    pure (ok (dc, device_metadata dc.client_id client))

  -- `loadDeviceAuditContext`.
  unfoldable pub load_device_audit_context :
      {R : Type 0} → String → Step S R (Result StoreError (DeviceRow × List (String × Value)))
  load_device_audit_context user_code = do
    found ← call (store.get_device_code_by_user_code user_code)
    audit_context found

  abbrev audit_denied :
      {R : Type 0}
      → String
      → List (String × Value)
      → Result StoreError (Unit {0})
      → Step S R (Unit {0})
  audit_denied user_id metadata (err e) = pure tt
  audit_denied user_id metadata (ok done) =
      audit service origin (some user_id) "auth.device_denied" metadata

  abbrev deny_loaded :
      {R : Type 0}
      → String
      → String
      → Result StoreError (DeviceRow × List (String × Value))
      → Step S R (Unit {0})
  deny_loaded user_code user_id (err e) = pure tt
  deny_loaded user_code user_id (ok (dc, metadata)) =
      run_if (str_eq dc.state "pending")
        (do denied ← call (store.deny_device_code user_code); audit_denied user_id metadata denied)

  -- `denyDeviceCode`.
  unfoldable pub deny_code : {R : Type 0} → String → String → Step S R (Unit {0})
  deny_code user_code user_id = do
    loaded ← load_device_audit_context user_code
    deny_loaded user_code user_id loaded

  abbrev client_or_answer : Option Model → Step S DeviceApproveResult Model
  client_or_answer none = answer (not_approved code_processed_message 400)
  client_or_answer (some client) = pure client

  -- `approveDeviceCode`.
  unfoldable pub approve_code : String → User → String → Step S DeviceApproveResult (Unit {0})
  approve_code user_code user session_id = do
    loaded ← load_device_audit_context user_code
    context ← or_answer loaded (λ e. not_approved code_processed_message 400)
    found ← call (store.resolve_client context.0.client_id)
    client ← client_or_answer found
    admitted ←
        check_client_access service origin client "device" (some user.id) (access_subject user)
          false
    answer_if (not admitted) (not_approved device_access_denied_message 403)
    looked_up ← call (store.session_auth_time session_id)
    auth_time ←
        or_answer looked_up (λ e. not_approved "Your session has expired. Sign in again." 401)
    approved ← call (store.approve_device_code user_code user.id auth_time)
    done ← or_answer approved (λ e. not_approved code_processed_message 400)
    audit service origin (some user.id) "auth.device_approved" context.1
    answer (record {
      success = true;
      message = "You have successfully authorized the CLI application. You can close this window.";
      error_code = 0;
    })

  abbrev pub act_on : String → String → String → User → Step S DeviceApproveResult (Unit {0})
  act_on user_code act session_id user =
      if str_eq act "approve"
      then approve_code user_code user session_id
      else if str_eq act "deny"
      then deny_code user_code user.id
        >> answer
            (not_approved "You denied the authorization request. You can close this window." 0)
      else answer (not_approved "invalid action" 400)

  abbrev pub approve_with_session :
      String → String → String → SessionLookup → Step S DeviceApproveResult (Unit {0})
  approve_with_session user_code act session_id (closed user) = do
    audit_inactive_user service origin "device" user
    answer (not_approved "account_inactive" 403)
  approve_with_session user_code act session_id (no_session e) =
      answer (not_approved "invalid session" 401)
  approve_with_session user_code act session_id (session user) = do
    answer_if (not (is_allow (check_access user.status "device")))
        (not_approved "account_inactive" 403)
    act_on user_code act session_id user

  -- `HandleDeviceApprove`.
  unfoldable pub handle_device_approve :
      String → String → String → Step S DeviceApproveResult (Unit {0})
  handle_device_approve user_code act session_id = do
    answer_if (str_eq session_id "") (not_approved "no session" 401)
    found ← call (store.get_valid_session session_id)
    approve_with_session user_code act session_id found
