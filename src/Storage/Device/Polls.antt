-- ===== src/Storage/Device/Polls.antt =====
-- The steps of GetDeviceAuthorizatonState before the state is resolved: what they keep of the rows.
use authgate.Prelude.{
  ◌≡◌, ℕ, Bool, true, not, ◌&&◌, ◌||◌, Option, none, some, List, String, str_eq, All,
}
use authgate.Client.{static_access}
use authgate.ClientAccess.{restricted}
use authgate.Storage.Db.{DeviceRow}
use authgate.Storage.Rows.{find, update, is_none}
use authgate.Storage.Exec.{not_found, commit, slow_down}
use authgate.Storage.Exec.Keeps.{
  Pred, Always, Keeps, Stable, Keeps-query_total, Keeps-bind, Keeps-or_fail, Keeps-pure, Keeps-fail,
  Keeps-if, Keeps-map_err,
}
use authgate.Storage.Exec.Transactions.{Keeps-commit}
use authgate.Storage.Settings.{Settings}
use authgate.Storage.Refresh.Reads.{
  get_user_by_id-Keeps, check_state-Keeps, enforce_static_client_access-Keeps,
}
use authgate.Storage.Device.Tables.{
  get_device_authorization_for_update, update_device_code_last_polled_at,
}
use authgate.Storage.Device.{
  polled_within, load_device_authorization_for_update, throttle, check_subject, check_approved,
}

-- The rows that a poll of the client for a stored device code reads.
abbrev pub polled : String → String → DeviceRow → Bool
polled code client_id r = str_eq r.device_code code && str_eq r.client_id client_id

-- Only the row with this id, as the unique constraint on device_code ensures.
abbrev pub IsOnly : String → String → String → List DeviceRow → Type 0
IsOnly code client_id id rows = All (λ r. polled code client_id r ≡ true → r.id ≡ id) rows

abbrev pub IsConsumed : String → String → List DeviceRow → Type 0
IsConsumed code client_id rows =
    All (λ r. polled code client_id r ≡ true → r.state ≡ "consumed") rows

abbrev pub Both : (List DeviceRow → Type 0) → Pred
Both P st = P st.db.device_codes × P st.tx.device_codes

module _ (P : List DeviceRow → Type 0) where
  pub Both-Stable : Stable (Both P)
  Both-Stable st row h = h

  pub Both-commit : {F : Pred} → Keeps (Both P) F commit (λ _. Always)
  Both-commit = Keeps-commit (λ st i p. (i.1, i.1))

module _ (P : List DeviceRow → Type 0) (F : Type 0) (s : Settings) (dc : DeviceRow) where
  pub check_subject-Keeps :
      (subject : String) → Keeps (Both P) (λ _. F) (check_subject s dc subject) (λ _ _. F)
  unfolding check_subject
  check_subject-Keeps subject =
      Keeps-bind (λ _ _. F)
        (Keeps-map_err _ (get_user_by_id-Keeps (Both-Stable P) (λ st row p. p) subject))
        (λ user.
          Keeps-bind (λ _ _. F)
            (check_state-Keeps (Both-Stable P) (λ st row p. p) s.state_checker user)
            (λ _.
              enforce_static_client_access-Keeps (Both-Stable P) (λ st row p. p)
                (static_access s.registry dc.client_id) dc.client_id user))

  pub check_approved-Keeps :
      (subject : Option String) → Keeps (Both P) (λ _. F) (check_approved s dc subject) (λ _ _. F)
  unfolding check_approved
  check_approved-Keeps none = Keeps-pure tt (λ st i p. p)
  check_approved-Keeps (some subject) =
      Keeps-if
        (str_eq dc.state "approved"
          && (not (is_none s.state_checker) || restricted (static_access s.registry dc.client_id)))
        (λ e. check_subject-Keeps subject) (λ e. Keeps-pure tt (λ st i p. p))

  -- A poll time changes nothing that `P` reads.
  pub throttle-Keeps :
      (at : ℕ)
      → ((rows : List DeviceRow)
          → P rows
          → P (update (λ r. str_eq r.id dc.id) (λ r. record r { last_polled_at = some at }) rows))
      → Keeps (Both P) (λ _. F) (throttle s dc at) (λ _ _. F)
  unfolding throttle update_device_code_last_polled_at
  throttle-Keeps at kept =
      Keeps-if (str_eq dc.state "denied" || str_eq dc.state "consumed")
        (λ e. Keeps-pure tt (λ st i p. p))
        (λ e.
          Keeps-bind (λ _ _. F)
            (Keeps-query_total _ (λ st i p. ((i.0, kept st.tx.device_codes i.1), p)))
            (λ _.
              Keeps-if
                (polled_within s.device_poll_interval at dc.last_polled_at
                  && str_eq dc.state "pending")
                (λ k. Keeps-bind (λ _. Always) (Both-commit P) (λ _. Keeps-fail slow_down))
                (λ k. Keeps-pure tt (λ st i p. p))))

pub load_device_authorization_for_update-Keeps :
    (P : List DeviceRow → Type 0) (client_id code : String) (G : DeviceRow → Type 0)
    → ((rows : List DeviceRow) (dc : DeviceRow)
        → find (polled code client_id) rows ≡ some dc
        → P rows
        → G dc)
    → Keeps (Both P) Always (load_device_authorization_for_update client_id code) (λ dc _. G dc)
unfolding load_device_authorization_for_update get_device_authorization_for_update
load_device_authorization_for_update-Keeps P client_id code G given =
    Keeps-bind (λ found _. (dc : DeviceRow) → found ≡ some dc → G dc)
      (Keeps-query_total _ (λ st i p. (i, λ dc e. given st.tx.device_codes dc e i.1)))
      (λ found. Keeps-or_fail found not_found (λ dc st e i p. p dc e))
