-- ===== src/Storage/Device/Resolved.antt =====
-- resolveDeviceAuthorizationState: an approval consumes the row, and a consumed row is refused.
use authgate.Prelude.{◌≡◌, refl, sym, ◌∙◌, ℕ, true, false, List, String, str_eq, eq_iff, arith, ltb}
use authgate.Storage.Db.{DeviceRow}
use authgate.Storage.Rows.{update}
use authgate.Storage.Rows.Laws.{All-update}
use authgate.Storage.Exec.{Exec, ◌>>◌, oauth, commit, pure}
use authgate.Storage.Exec.Keeps.{
  Pred, Always, Keeps, Keeps-query_total, Keeps-bind, Keeps-pure, Keeps-fail, Keeps-if,
}
use authgate.Storage.Exec.Transactions.{Keeps-commit_post}
use authgate.Storage.Settings.{DeviceState}
use authgate.Storage.Device.Tables.{update_device_code_state_consumed_by_id}
use authgate.Storage.Device.{unset, to_approved, resolve_device_authorization_state}
use authgate.Storage.Device.Polls.{polled, IsOnly, IsConsumed, Both, Both-commit}

module _ (code client_id id : String) where
  pub IsConsumed-update :
      (dc : DeviceRow) (rows : List DeviceRow)
      → dc.id ≡ id
      → IsOnly code client_id id rows
      → IsConsumed code client_id
          (update (λ r. str_eq r.id dc.id) (λ r. record r { state = "consumed" }) rows)
  IsConsumed-update dc rows same only =
      All-update (λ r. polled code client_id r ≡ true → r.id ≡ id)
        (λ r. polled code client_id r ≡ true → r.state ≡ "consumed") _ _ (λ r e h k. refl)
        (λ r miss h k. absurd (ground (arith, h k, eq_iff r.id dc.id, same))) rows only

  pub IsOnly-update :
      (dc : DeviceRow) (f : DeviceRow → DeviceRow) (rows : List DeviceRow)
      → ((r : DeviceRow) → polled code client_id (f r) ≡ polled code client_id r)
      → ((r : DeviceRow) → (f r).id ≡ r.id)
      → IsOnly code client_id id rows
      → IsOnly code client_id id (update (λ r. str_eq r.id dc.id) f rows)
  IsOnly-update dc f rows same same_id only =
      All-update (λ r. polled code client_id r ≡ true → r.id ≡ id)
        (λ r. polled code client_id r ≡ true → r.id ≡ id) _ f
        (λ r e h k. same_id r ∙ h (sym (same r) ∙ k)) (λ r e h. h) rows only

  abbrev pub Only : Pred
  Only = Both (IsOnly code client_id id)

  pub resolve-consumes :
      (dc : DeviceRow) (at : ℕ)
      → Keeps Only
          (λ _. dc.id ≡ id)
          (resolve_device_authorization_state dc at)
          (λ ds st. ds.is_done ≡ true → IsConsumed code client_id st.db.device_codes)
  unfolding resolve_device_authorization_state update_device_code_state_consumed_by_id
  resolve-consumes dc at =
      Keeps-if (ltb dc.expires_at at) (λ e. undone (unset dc))
        (λ e.
          Keeps-if (str_eq dc.state "denied") (λ e. undone (record (unset dc) { denied = true }))
            (λ e.
              Keeps-if (str_eq dc.state "approved")
                (λ e.
                  Keeps-bind (λ _ st. IsConsumed code client_id st.tx.device_codes)
                    (Keeps-query_total _ (λ st i p. (
                      (i.0, IsOnly-update dc _ st.tx.device_codes (λ r. refl) (λ r. refl) i.1),
                      IsConsumed-update dc st.tx.device_codes p i.1,
                    )))
                    (λ _.
                      Keeps-bind (λ _ st. IsConsumed code client_id st.db.device_codes)
                        consumed_commit (λ _. Keeps-pure (to_approved dc) (λ st i p k. p))))
                (λ e.
                  Keeps-if (str_eq dc.state "consumed")
                    (λ e.
                      Keeps-bind (λ _. Always) (Both-commit (IsOnly code client_id id))
                        (λ _. Keeps-fail (oauth "invalid_grant")))
                    (λ e.
                      undone
                        (record (unset dc) { client_id = dc.client_id; scopes = dc.scopes })))))
    where
      undone :
          (ds : DeviceState)
          → Keeps Only
              (λ _. dc.id ≡ id)
              (commit >> pure (record ds { is_done = false }))
              (λ ds st. ds.is_done ≡ true → IsConsumed code client_id st.db.device_codes)
      undone ds =
          Keeps-bind (λ _. Always) (Both-commit (IsOnly code client_id id))
            (λ _. Keeps-pure (record ds { is_done = false }) (λ st i p k. absurd (cc)))

      consumed_commit :
          Keeps Only
            (λ st. IsConsumed code client_id st.tx.device_codes)
            commit
            (λ _ st. IsConsumed code client_id st.db.device_codes)
      consumed_commit = Keeps-commit_post (λ st i p. ((i.1, i.1), p))

  pub resolve-refuses :
      (dc : DeviceRow) (at : ℕ)
      → Keeps
          (Both (IsConsumed code client_id))
          (λ _. dc.state ≡ "consumed")
          (resolve_device_authorization_state dc at)
          (λ ds st. ds.is_done ≡ false)
  unfolding resolve_device_authorization_state
  resolve-refuses dc at =
      Keeps-if (ltb dc.expires_at at) (λ e. undone (unset dc))
        (λ e.
          Keeps-if (str_eq dc.state "denied") (λ e. undone (record (unset dc) { denied = true }))
            (λ e. Keeps-if (str_eq dc.state "approved") never (λ e.
              Keeps-if (str_eq dc.state "consumed")
                (λ e.
                  Keeps-bind (λ _. Always) (Both-commit (IsConsumed code client_id))
                    (λ _. Keeps-fail (oauth "invalid_grant")))
                (λ e.
                  undone (record (unset dc) { client_id = dc.client_id; scopes = dc.scopes })))))
    where
      undone :
          (ds : DeviceState)
          → Keeps
              (Both (IsConsumed code client_id))
              (λ _. dc.state ≡ "consumed")
              (commit >> pure (record ds { is_done = false }))
              (λ ds st. ds.is_done ≡ false)
      undone ds =
          Keeps-bind (λ _. Always) (Both-commit (IsConsumed code client_id))
            (λ _. Keeps-pure (record ds { is_done = false }) (λ st i p. refl))

      never :
          {m : Exec DeviceState}
          → str_eq dc.state "approved" ≡ true
          → Keeps
              (Both (IsConsumed code client_id))
              (λ _. dc.state ≡ "consumed")
              m
              (λ ds st. ds.is_done ≡ false)
      never e = record {
        at = λ w i p.
            let clash : str_eq dc.state "approved" ≡ false = rw p refl in
            absurd (ground (arith, clash, e));
      }
