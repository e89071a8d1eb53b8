-- ===== src/Service/DeviceApproved.antt =====
-- What stands behind the approval of a device code: internal/service/device.go.
use authgate.Prelude.{
  ℕ, ◌≡◌, ◌≢◌, ◌∙◌, sym, refl, inl, inr, true, false, Option, some, String, str_eq, arith, Result,
  ok, Bool-cases, Option-cases, Result-cases,
}
use authgate.Client.{Model}
use authgate.ClientAccess.{allowed, evaluate}
use authgate.Storage.Db.{DeviceRow}
use authgate.Storage.Exec.{StoreError}
use authgate.Storage.Settings.{User, access_subject}
use authgate.Service.Step.{call, ◌>>=◌, returns}
use authgate.Service.Store.{Service, Origin, session}
use authgate.Service.Access.{check_access, check_client_access, is_allow}
use authgate.Service.Device.Approval.{
  DeviceApproveResult, handle_device_approve, approve_code, act_on, deny_code,
  load_device_audit_context,
}
use authgate.Service.Approved.{SessionLookup-cases}

module _ {S : Type 0} (service : Service S) (origin : Origin) where
  open service use {store}

  -- The reads of an approval: the code, its client for the audit row and for the policy, and when the
  -- session's owner signed in.
  abbrev pub code_read : String → S → Result StoreError DeviceRow × S
  code_read code s = store.get_device_code_by_user_code code s

  abbrev pub client_read : String → String → S → Option Model × S
  client_read code client_id s =
      store.resolve_client client_id (store.resolve_client client_id (code_read code s).1).1

  abbrev pub time_read : String → String → String → S → Result StoreError ℕ × S
  time_read code client_id session_id s =
      store.session_auth_time session_id (client_read code client_id s).1

  -- An approval of the code for the account: its client resolves and admits the account, and the store
  -- took the approval, with the time at which the session's owner signed in.
  abbrev pub Approves : String → User → String → S → Type 0
  Approves code u session_id s =
      (dc : DeviceRow) × (c : Model) × (t : ℕ) × ((code_read code s).0 ≡ ok dc)
      × ((client_read code dc.client_id s).0 ≡ some c)
      × (evaluate c.access (access_subject u) ≡ some allowed)
      × ((time_read code dc.client_id session_id s).0 ≡ ok t)
      × ((store.approve_device_code code u.id t (time_read code dc.client_id session_id s).1).0
          ≡ ok tt)

  abbrev pub MayApprove : String → String → String → S → Type 0
  MayApprove code act session_id s =
      (u : User) × ((store.get_valid_session session_id s).0 ≡ session u)
      × (str_eq act "approve" ≡ true)
      × (is_allow (check_access u.status "device") ≡ true)
      × Approves code u session_id (store.get_valid_session session_id s).1

  approve_code-Approves :
      (code : String) (u : User) (session_id : String) (s s' : S) (r : DeviceApproveResult)
      → approve_code service origin code u session_id s ≡ (returns r, s')
      → r.success ≡ true
      → Approves code u session_id s
  unfolding approve_code load_device_audit_context check_client_access call ◌>>=◌
  approve_code-Approves code u session_id s s' r h a = elim (Result-cases (code_read code s).0) [
    | inl (e, lost) ↦ ground (arith, lost)
    | inr (dc, found) ↦ elim (Option-cases (client_read code dc.client_id s).0) [
      | inl gone ↦ ground (arith, found, gone)
      | inr (c, known) ↦ elim (Result-cases (time_read code dc.client_id session_id s).0) [
        | inl (e, late) ↦ ground (arith, found, known, late)
        | inr (t, at) ↦ (
          dc,
          c,
          t,
          found,
          known,
          ground (arith, found, known),
          at,
          ground (arith, found, known, at),
        )
      ]
    ]
  ]

  deny_refuses :
      (code act session_id : String) (u : User) (s s' : S) (r : DeviceApproveResult)
      → str_eq act "approve" ≡ false
      → act_on service origin code act session_id u s ≡ (returns r, s')
      → r.success ≢ true
  unfolding deny_code load_device_audit_context call ◌>>=◌
  deny_refuses code act session_id u s s' r other h = ground arith

  approve_path :
      (code act session_id : String) (u : User) (s : S)
      → str_eq act "approve" ≡ true
      → act_on service origin code act session_id u s
        ≡ approve_code service origin code u session_id s
  approve_path code act session_id u s approve = rw approve refl

  acted :
      (code act session_id : String) (u : User) (s s' : S) (r : DeviceApproveResult)
      → act_on service origin code act session_id u s ≡ (returns r, s')
      → r.success ≡ true
      → (str_eq act "approve" ≡ true) × Approves code u session_id s
  acted code act session_id u s s' r h a = elim (Bool-cases (str_eq act "approve")) [
    | inl approve ↦ (
      approve,
      approve_code-Approves code u session_id s s' r
          (sym (approve_path code act session_id u s approve) ∙ h) a,
    )
    | inr other ↦ absurd (deny_refuses code act session_id u s s' r other h a)
  ]

  session_path :
      (code act session_id : String) (s : S) (u : User)
      → str_eq session_id "" ≡ false
      → (store.get_valid_session session_id s).0 ≡ session u
      → is_allow (check_access u.status "device") ≡ true
      → handle_device_approve service origin code act session_id s
        ≡ act_on service origin code act session_id u (store.get_valid_session session_id s).1
  unfolding handle_device_approve call ◌>>=◌
  session_path code act session_id s u sent found may = rw (sent, found, may) refl

  -- An answer to POST /device/approve reports success only for the action `approve` with a session
  -- that the store finds, of an account that may use the device channel, when the code's client
  -- resolves and its policy admits the account, and the store has approved the code for that account
  -- with the session's own authentication time.
  pub handle_device_approve-approved :
      (code act session_id : String) (s s' : S) (r : DeviceApproveResult)
      → handle_device_approve service origin code act session_id s ≡ (returns r, s')
      → r.success ≡ true
      → MayApprove code act session_id s
  unfolding handle_device_approve call ◌>>=◌
  handle_device_approve-approved code act session_id s s' r h a =
      elim (SessionLookup-cases (store.get_valid_session session_id s).0) [
        | inr (inl (u, shut)) ↦ ground (arith, shut)
        | inr (inr (e, gone)) ↦ ground (arith, gone)
        | inl (u, found) ↦ elim (Bool-cases (str_eq session_id "")) [
          | inl unsent ↦ ground (arith, unsent)
          | inr sent ↦ elim (Bool-cases (is_allow (check_access u.status "device"))) [
            | inr shut ↦ ground (arith, sent, found, shut)
            | inl may ↦
                let (approve, approved) =
                  acted code act session_id u (store.get_valid_session session_id s).1 s' r
                    (sym (session_path code act session_id s u sent found may) ∙ h) a in
                (u, found, approve, may, approved)
          ]
        ]
      ]
