-- ===== src/Storage/Refresh/Deletion.antt =====
-- Account status changes and the refresh tables: the invariant through a request for deletion.
use authgate.Prelude.{refl, ℕ, ◌==◌, ◌||◌, String, str_eq, List, none}
use authgate.Storage.Db.{Db, UserRow}
use authgate.Storage.Exec.Keeps.{
  Always, Keeps, Keeps-query_total, Keeps-autocommit, Keeps-bind, Keeps-pure, Keeps-if, Keeps-now,
}
use authgate.Storage.Exec.Transactions.{Keeps-in_tx}
use authgate.Storage.Settings.{Settings}
use authgate.Storage.Refresh.Tables.{revoke_active_refresh_tokens_by_user_id}
use authgate.Storage.Refresh.Entombed.{IsEntombed, IsEntombed-update}
use authgate.Storage.Refresh.Reads.{get_user_by_id-Keeps}
use authgate.Storage.Refresh.Replayed.{Sound, Sound-Stable, Sound-commit}
use authgate.Storage.Lifecycle.{
  mark_user_pending_deletion_by_id, recover_pending_deletion_user_by_id, set_user_status_by_id,
  revoke_and_commit, not_active, request_deletion, recover_user, set_user_status,
}

IsEntombed-users :
    (uuid : ℕ → String) (n : ℕ) (d : Db) (rows : List UserRow)
    → IsEntombed uuid n d
    → IsEntombed uuid n (record d { users = rows })
IsEntombed-users uuid n d rows g = record {
  closed = g.closed;
  past_rows = g.past_rows;
  past_families = g.past_families;
}

module _ (s : Settings) where
  revoke_and_commit-Sound :
      (user : String) (at : ℕ) → Keeps (Sound s) Always (revoke_and_commit user at) (λ _. Always)
  unfolding revoke_and_commit revoke_active_refresh_tokens_by_user_id
  revoke_and_commit-Sound user at =
      Keeps-bind (λ _. Always)
        (Keeps-query_total _ (λ st i p.
          ((i.0, IsEntombed-update s.uuid st.next_id _ _ st.tx (λ r. refl) (λ r. refl) i.1), tt)))
        (λ _. Keeps-bind (λ _. Always) (Sound-commit s) (λ _. Keeps-pure ("", none) (λ st i p. tt)))

  not_active-Sound :
      (user : String) (at : ℕ) (status : String)
      → Keeps (Sound s) Always (not_active user at status) (λ _. Always)
  unfolding not_active
  not_active-Sound user at status =
      Keeps-if (str_eq status "pending_deletion") (λ e. revoke_and_commit-Sound user at)
        (λ e.
          Keeps-if (str_eq status "disabled" || str_eq status "deleted")
            (λ k. Keeps-pure _ (λ st i p. tt)) (λ k. Keeps-pure _ (λ st i p. tt)))

  pub request_deletion-Sound :
      (user : String) → Keeps (Sound s) Always (request_deletion user) (λ _. Always)
  unfolding request_deletion mark_user_pending_deletion_by_id
  request_deletion-Sound user =
      Keeps-bind (λ _. Always) Keeps-now
        (λ at.
          Keeps-in_tx (λ st i. (i.0, i.0))
            (Keeps-bind (λ _. Always)
              (Keeps-query_total _
                (λ st i p. ((i.0, IsEntombed-users s.uuid st.next_id st.tx _ i.1), tt)))
              (λ rows.
                Keeps-if (rows == 0)
                  (λ e.
                    Keeps-bind (λ _. Always)
                      (get_user_by_id-Keeps (Sound-Stable s) (λ st row p. p) user)
                      (λ current. not_active-Sound user at current.status))
                  (λ e. revoke_and_commit-Sound user at))))

  pub recover_user-Sound :
      (user : String) → Keeps (Sound s) Always (recover_user user) (λ _. Always)
  unfolding recover_user recover_pending_deletion_user_by_id
  recover_user-Sound user =
      Keeps-bind (λ _. Always) Keeps-now
        (λ at. Keeps-autocommit _ (λ st i p. (
          (
            IsEntombed-users s.uuid st.next_id st.db _ i.0,
            IsEntombed-users s.uuid st.next_id st.db _ i.0,
          ),
          tt,
        )))

  pub set_user_status-Sound :
      (user status : String) → Keeps (Sound s) Always (set_user_status user status) (λ _. Always)
  unfolding set_user_status set_user_status_by_id
  set_user_status-Sound user status =
      Keeps-bind (λ _. Always) Keeps-now
        (λ at. Keeps-autocommit _ (λ st i p. (
          (
            IsEntombed-users s.uuid st.next_id st.db _ i.0,
            IsEntombed-users s.uuid st.next_id st.db _ i.0,
          ),
          tt,
        )))
