-- ===== src/Storage/Refresh/Replayed.antt =====
-- The invariant of the storage as a predicate, and that the end of a replayed family keeps it.
use authgate.Prelude.{◌≡◌, refl, ℕ, Bool, true, false, not, String}
use authgate.Storage.Db.{RefreshRow, FamilyRow}
use authgate.Storage.Exec.{State, query, audit_log_tx, log_row, commit}
use authgate.Storage.Exec.Keeps.{
  Pred, Always, Keeps, Stable, Keeps-query_total, Keeps-bind, Keeps-pure, Keeps-fail, Keeps-if,
}
use authgate.Storage.Exec.Transactions.{Keeps-commit}
use authgate.Storage.Settings.{Settings}
use authgate.Storage.Refresh.Tables.{
  tombstoned_in, insert_tombstone, revoke_refresh_family, tombstone_refresh_family,
}
use authgate.Storage.Refresh.Consume.{audit_refresh_reuse_detection_tx, revoke_on_reuse}
use authgate.Storage.Refresh.Entombed.{
  IsPast, IsEntombed, IsSound, IsEntombed-update, IsEntombed-tombstone, IsEntombed-other,
  IsSound-log_both, IsRevoked, revoke_refresh_family-IsRevoked,
}

module _ (s : Settings) where
  -- The invariant of the storage.
  abbrev pub Sound : Pred
  Sound = IsSound s.uuid

  abbrev pub Past : String → Pred
  Past family st = IsPast s.uuid st.next_id family

  -- The family is known, and not revoked as the open transaction sees it.
  abbrev pub Open : String → Pred
  Open family st = Past family st × (tombstoned_in st.tx.families family ≡ false)

  pub Sound-Stable : Stable Sound
  Sound-Stable st row h = IsSound-log_both s.uuid st row h

  Keeps-audit_log_tx :
      (family : String) (row : _) → Keeps Sound (Past family) (audit_log_tx row) (λ _. Past family)
  Keeps-audit_log_tx family row =
      Keeps-query_total (λ d. (tt, log_row row d))
        (λ st i p. (
          (
            i.0,
            IsEntombed-other s.uuid st.next_id st.tx st.tx.auth_requests
                (log_row row st.tx).audit_log i.1,
          ),
          p,
        ))

  audit_refresh_reuse_detection_tx-Keeps :
      (user family : String) (at : ℕ) (created : Bool)
      → Keeps Sound
          (Past family)
          (audit_refresh_reuse_detection_tx user family at created)
          (λ _. Past family)
  unfolding audit_refresh_reuse_detection_tx
  audit_refresh_reuse_detection_tx-Keeps user family at created =
      Keeps-bind (λ _. Past family) (Keeps-audit_log_tx family _)
        (λ _.
          Keeps-if (not created) (λ e. Keeps-pure tt (λ st i p. p))
            (λ e. Keeps-audit_log_tx family _))

  -- The family's rows are revoked before its tombstone is written.
  pub revoke_refresh_family-Keeps :
      (at : ℕ) (family : String)
      → Keeps Sound
          (Past family)
          (query (revoke_refresh_family at family))
          (λ _ st. Past family st × IsRevoked family st.tx)
  unfolding revoke_refresh_family
  revoke_refresh_family-Keeps at family = Keeps-query_total _ (λ st i p. (
    (i.0, IsEntombed-update s.uuid st.next_id _ _ st.tx (λ r. refl) (λ r. refl) i.1),
    (p, revoke_refresh_family-IsRevoked at family st.tx),
  ))

  pub tombstone_refresh_family-Keeps :
      (row : FamilyRow)
      → Keeps Sound
          (λ st. Past row.family_id st × IsRevoked row.family_id st.tx)
          (query (tombstone_refresh_family row))
          (λ _. Past row.family_id)
  unfolding tombstone_refresh_family
  tombstone_refresh_family-Keeps row =
      Keeps-query_total _
        (λ st i p. ((i.0, entombed st i.1 p (tombstoned_in st.tx.families row.family_id)), p.0))
    where
      entombed :
          (st : State)
          → IsEntombed s.uuid st.next_id st.tx
          → Past row.family_id st × IsRevoked row.family_id st.tx
          → (b : Bool) → IsEntombed s.uuid st.next_id ((insert_tombstone row st.tx b).1)
      entombed st g p true = g
      entombed st g (past, dead) false =
          IsEntombed-tombstone s.uuid st.next_id row st.tx dead past g

  pub Sound-commit : {P : Pred} → Keeps Sound P commit (λ _. Always)
  Sound-commit = Keeps-commit (λ st i p. (i.1, i.1))

  -- A replay ends without a value.
  pub revoke_on_reuse-Keeps :
      {Q : Bool → Pred} (rt : RefreshRow) (at : ℕ)
      → Keeps Sound (Past rt.family_id) (revoke_on_reuse rt at) Q
  unfolding revoke_on_reuse
  revoke_on_reuse-Keeps rt at =
      Keeps-bind (λ _ st. Past rt.family_id st × IsRevoked rt.family_id st.tx)
        (revoke_refresh_family-Keeps at rt.family_id)
        (λ _.
          Keeps-bind (λ _. Past rt.family_id) (tombstone_refresh_family-Keeps _)
            (λ made.
              Keeps-bind (λ _. Past rt.family_id) (audit_refresh_reuse_detection_tx-Keeps _ _ _ _)
                (λ _. Keeps-bind (λ _. Always) Sound-commit (λ _. Keeps-fail _))))
