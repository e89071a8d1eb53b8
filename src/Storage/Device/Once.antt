-- ===== src/Storage/Device/Once.antt =====
-- A device code is granted to at most one poll.
use authgate.Prelude.{◌≡◌, refl, ℕ, Bool, true, false, some, List, String, str_eq, ok}
use authgate.Storage.Db.{Db, DeviceRow}
use authgate.Storage.Rows.{update}
use authgate.Storage.Rows.Laws.{find-All, find-hit, All-update}
use authgate.Storage.Exec.{World}
use authgate.Storage.Exec.Keeps.{Always, Keeps, Keeps-bind, Keeps-now, Keeps-result}
use authgate.Storage.Exec.Transactions.{Keeps-in_tx_post}
use authgate.Storage.Settings.{Settings, DeviceState}
use authgate.Storage.Device.{get_device_authorization_state}
use authgate.Storage.Device.Polls.{
  polled, IsOnly, IsConsumed, Both, check_approved-Keeps, throttle-Keeps,
  load_device_authorization_for_update-Keeps,
}
use authgate.Storage.Device.Resolved.{IsOnly-update, resolve-consumes, resolve-refuses}

IsConsumed-polled :
    (code client_id id : String) (at : ℕ) (rows : List DeviceRow)
    → IsConsumed code client_id rows
    → IsConsumed code client_id
        (update (λ r. str_eq r.id id) (λ r. record r { last_polled_at = some at }) rows)
IsConsumed-polled code client_id id at rows h =
    All-update (λ r. polled code client_id r ≡ true → r.state ≡ "consumed")
      (λ r. polled code client_id r ≡ true → r.state ≡ "consumed") _ _ (λ r e k. k) (λ r e k. k)
      rows h

module _ (s : Settings) (client_id device_code id : String) where
  abbrev stored : String
  stored = s.code_hash device_code

  poll-consumes :
      Keeps
        (Both (IsOnly stored client_id id))
        Always
        (get_device_authorization_state s client_id device_code)
        (λ ds st. ds.is_done ≡ true → IsConsumed stored client_id st.db.device_codes)
  unfolding get_device_authorization_state
  poll-consumes =
      Keeps-in_tx_post (λ st i. (i.0, i.0)) (λ ds st q. q)
        (Keeps-bind (λ dc _. dc.id ≡ id)
          (load_device_authorization_for_update-Keeps (IsOnly stored client_id id) client_id stored
            (λ dc. dc.id ≡ id)
            (λ rows dc found only.
              find-All (λ r. polled stored client_id r ≡ true → r.id ≡ id) _ rows dc found only
                (find-hit _ rows dc found)))
          (λ dc.
            Keeps-bind (λ _ _. dc.id ≡ id) Keeps-now
              (λ at.
                Keeps-bind (λ _ _. dc.id ≡ id)
                  (throttle-Keeps (IsOnly stored client_id id) (dc.id ≡ id) s dc at (λ rows only.
                    IsOnly-update stored client_id id dc _ rows (λ r. refl) (λ r. refl) only))
                  (λ _.
                    Keeps-bind (λ _ _. dc.id ≡ id)
                      (check_approved-Keeps (IsOnly stored client_id id) (dc.id ≡ id) s dc
                        dc.subject)
                      (λ _. resolve-consumes stored client_id id dc at)))))

  poll-refuses :
      Keeps
        (Both (IsConsumed stored client_id))
        Always
        (get_device_authorization_state s client_id device_code)
        (λ ds st. ds.is_done ≡ false)
  unfolding get_device_authorization_state
  poll-refuses =
      Keeps-in_tx_post (λ st i. (i.0, i.0)) (λ ds st q. q)
        (Keeps-bind (λ dc _. dc.state ≡ "consumed")
          (load_device_authorization_for_update-Keeps (IsConsumed stored client_id) client_id stored
            (λ dc. dc.state ≡ "consumed")
            (λ rows dc found h.
              find-All (λ r. polled stored client_id r ≡ true → r.state ≡ "consumed") _ rows dc
                found h (find-hit _ rows dc found)))
          (λ dc.
            Keeps-bind (λ _ _. dc.state ≡ "consumed") Keeps-now
              (λ at.
                Keeps-bind (λ _ _. dc.state ≡ "consumed")
                  (throttle-Keeps (IsConsumed stored client_id) (dc.state ≡ "consumed") s dc at
                    (λ rows h. IsConsumed-polled stored client_id dc.id at rows h))
                  (λ _.
                    Keeps-bind (λ _ _. dc.state ≡ "consumed")
                      (check_approved-Keeps (IsConsumed stored client_id) (dc.state ≡ "consumed") s
                        dc dc.subject)
                      (λ _. resolve-refuses stored client_id id dc at)))))

-- The world between two operations.
abbrev pub at_rest : Db → ℕ → ℕ → List Bool → World
at_rest d now next_id faults = record {
  state = record { db = d; tx = d; now = now; next_id = next_id };
  faults = faults;
}

-- If at most one row stands for a client's device code, then after a poll that was answered with the
-- approval, no later poll of the same rows is, at whatever times and whichever statements fail.
pub get_device_authorization_state-once :
    (s : Settings) (client_id device_code id : String) (d later : Db) (now now' next next' : ℕ)
    (faults faults' : List Bool) (ds ds' : DeviceState)
    → IsOnly (s.code_hash device_code) client_id id d.device_codes
    → (get_device_authorization_state s client_id device_code (at_rest d now next faults)).0 ≡ ok ds
    → ds.is_done ≡ true
    → later.device_codes
      ≡ ((get_device_authorization_state s client_id device_code (at_rest d now next faults)).1
        ).db.device_codes
    → (get_device_authorization_state s client_id device_code (at_rest later now' next' faults')).0
      ≡ ok ds'
    → ds'.is_done ≡ false
get_device_authorization_state-once s client_id device_code id d later now now' next next' faults
      faults' ds ds' only first granted same second =
    let used =
      Keeps-result (poll-consumes s client_id device_code id) (at_rest d now next faults) ds
        (only, only) tt first granted in
    let used' : IsConsumed (s.code_hash device_code) client_id later.device_codes = rw same used in
    Keeps-result (poll-refuses s client_id device_code id) (at_rest later now' next' faults') ds'
      (used', used') tt second
