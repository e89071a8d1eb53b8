-- ===== src/Storage/Lifecycle/SignedOut.antt =====
-- A request for deletion signs the account out.
use authgate.Prelude.{
  ◌≡◌, refl, ℕ, false, ◌&&◌, ◌||◌, ◌==◌, Option, none, List, [], ◌∷◌, String, str_eq, All, ok,
  arith,
}
use authgate.Storage.Db.{Db, RefreshRow}
use authgate.Storage.Rows.{is_none}
use authgate.Storage.Rows.Laws.{All-update}
use authgate.Storage.Exec.{StoreError, World}
use authgate.Storage.Exec.Keeps.{
  Pred, Always, Keeps, Keeps-query_total, Keeps-bind, Keeps-pure, Keeps-if, Keeps-now, Keeps-result,
}
use authgate.Storage.Exec.Transactions.{Keeps-commit_post, Keeps-in_tx_post}
use authgate.Storage.Refresh.Tables.{revoke_active_refresh_tokens_by_user_id, revoke_row}
use authgate.Storage.Refresh.Reads.{get_user_by_id-Keeps}
use authgate.Storage.Lifecycle.{
  mark_user_pending_deletion_by_id, revoke_and_commit, not_active, request_deletion,
}

-- The account has no live refresh token.
abbrev pub IsSignedOut : String → Db → Type 0
IsSignedOut user d =
    All (λ r. (str_eq r.user_id user && is_none r.revoked_at) ≡ false) d.refresh_tokens

abbrev Done : String → String × Option StoreError → Pred
Done user answer st = answer.1 ≡ none → IsSignedOut user st.db

everything : (rows : List RefreshRow) → All (λ r. Unit {0}) rows
everything [] = tt
everything (r ∷ rows) = (tt, everything rows)

revoke_and_commit-Keeps :
    (user : String) (at : ℕ) → Keeps Always Always (revoke_and_commit user at) (Done user)
unfolding revoke_and_commit revoke_active_refresh_tokens_by_user_id
revoke_and_commit-Keeps user at =
    Keeps-bind (λ _ st. IsSignedOut user st.tx)
      (Keeps-query_total _ (λ st i p. (
        tt,
        All-update (λ r. Unit {0}) (λ r. (str_eq r.user_id user && is_none r.revoked_at) ≡ false) _
            (revoke_row at) (λ r e h. ground arith) (λ r e h. e) st.tx.refresh_tokens
            (everything st.tx.refresh_tokens),
      )))
      (λ _.
        Keeps-bind (λ _ st. IsSignedOut user st.db) (Keeps-commit_post (λ st i p. (tt, p)))
          (λ _. Keeps-pure ("", none) (λ st i p k. p)))

not_active-Keeps :
    (user : String) (at : ℕ) (status : String)
    → Keeps Always Always (not_active user at status) (Done user)
unfolding not_active
not_active-Keeps user at status =
    Keeps-if (str_eq status "pending_deletion") (λ e. revoke_and_commit-Keeps user at)
      (λ e.
        Keeps-if (str_eq status "disabled" || str_eq status "deleted")
          (λ k. Keeps-pure _ (λ st i p none_given. absurd (cc)))
          (λ k. Keeps-pure _ (λ st i p none_given. absurd (cc))))

request_deletion-Keeps : (user : String) → Keeps Always Always (request_deletion user) (Done user)
unfolding request_deletion mark_user_pending_deletion_by_id
request_deletion-Keeps user =
    Keeps-bind (λ _. Always) Keeps-now
      (λ at.
        Keeps-in_tx_post (λ st i. tt) (λ answer st q. q)
          (Keeps-bind (λ _. Always) (Keeps-query_total _ (λ st i p. (tt, tt)))
            (λ rows.
              Keeps-if (rows == 0)
                (λ e.
                  Keeps-bind (λ _. Always)
                    (get_user_by_id-Keeps (λ st row p. p) (λ st row p. p) user)
                    (λ current. not_active-Keeps user at current.status))
                (λ e. revoke_and_commit-Keeps user at))))

-- When a request for deletion returns without an error, the account has no live refresh token in what
-- is committed, whether the request was the first or a repeated one.
pub request_deletion-IsSignedOut :
    (user status : String) (w : World)
    → (request_deletion user w).0 ≡ ok (status, none)
    → IsSignedOut user ((request_deletion user w).1.db)
request_deletion-IsSignedOut user status w returned =
    Keeps-result (request_deletion-Keeps user) w (status, none) tt tt returned refl
