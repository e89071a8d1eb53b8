-- ===== src/Storage/Refresh/Ends.antt =====
-- The invariant through the lookups of a refresh token and through its revocation.
use authgate.Prelude.{
  ◌≡◌, refl, ℕ, Bool, false, Option, none, some, String, Result, ok, err, if◌then◌else◌,
}
use authgate.Storage.Db.{RefreshRow}
use authgate.Storage.Rows.Laws.{find-All}
use authgate.Storage.Exec.{StoreError, World, pure, query}
use authgate.Storage.Exec.Keeps.{
  Pred, Always, Keeps, Keeps-query_total, Keeps-bind, Keeps-pure, Keeps-fail, Keeps-if, Keeps-now,
  Keeps-audit_log, Keeps-require, Keeps-state,
}
use authgate.Storage.Exec.Transactions.{Keeps-in_tx}
use authgate.Storage.Settings.{Settings}
use authgate.Storage.Refresh.Tables.{lock_refresh_family}
use authgate.Storage.Refresh.Tables.{get_refresh_token_grant_by_hash, get_refresh_token_grant_by_id}
use authgate.Storage.Refresh.Consume.{token_request_by_refresh_token}
use authgate.Storage.Refresh.Revoke.{
  lookup_refresh_grant, revoke_found, revoke_if_found, revoke_refresh_grant, answer_revocation,
  revoke_token,
}
use authgate.Storage.Refresh.Entombed.{IsPast}
use authgate.Storage.Refresh.Reads.{validate_refresh_token_request-Keeps}
use authgate.Storage.Refresh.Redeem.{load_refresh_token_for_update-Keeps}
use authgate.Storage.Refresh.Replayed.{
  Sound, Past, Sound-Stable, Sound-commit, revoke_refresh_family-Keeps,
  tombstone_refresh_family-Keeps,
}

module _ (s : Settings) where
  pub token_request_by_refresh_token-Keeps :
      (resource token : String)
      → Keeps (Sound s) Always (token_request_by_refresh_token s resource token) (λ _. Always)
  unfolding token_request_by_refresh_token
  token_request_by_refresh_token-Keeps resource token =
      Keeps-in_tx (λ st i. (i.0, i.0))
        (Keeps-bind (λ _. Always) Keeps-now
          (λ at.
            Keeps-bind (λ rt. Past s rt.family_id)
              (load_refresh_token_for_update-Keeps s (s.refresh_hash token))
              (λ rt.
                Keeps-bind (λ _. Always)
                  (Keeps-require (λ st i p. tt)
                    (validate_refresh_token_request-Keeps (Sound-Stable s) (λ st row p. tt) s
                      resource rt at))
                  (λ _.
                    Keeps-bind (λ _. Always) (Sound-commit s)
                      (λ _. Keeps-pure rt (λ st i p. tt))))))

  abbrev Found : Option RefreshRow → Pred
  Found found st = (rt : RefreshRow) → found ≡ some rt → Past s rt.family_id st

  lookup_refresh_grant-Keeps :
      (token client_id : String)
      → Keeps (Sound s) Always (lookup_refresh_grant s token client_id) Found
  unfolding lookup_refresh_grant get_refresh_token_grant_by_hash get_refresh_token_grant_by_id
  lookup_refresh_grant-Keeps token client_id =
      Keeps-bind Found
        (Keeps-query_total _ (λ st i p. (
          i,
          λ rt e.
              find-All (λ r. IsPast s.uuid st.next_id r.family_id) _ st.tx.refresh_tokens rt e
                i.1.past_rows,
        )))
        by_id
    where
      by_id :
          (found : Option RefreshRow)
          → Keeps
              (Sound s)
              (Found found)
              (elim found [
                | some rt ↦ pure (some rt)
                | none ↦
                    if s.is_uuid token
                    then query (get_refresh_token_grant_by_id token client_id)
                    else pure none
              ])
              Found
      by_id (some rt) = Keeps-pure (some rt) (λ st i p. p)
      by_id none =
          Keeps-if (s.is_uuid token)
            (λ e. Keeps-query_total _ (λ st i p. (
              i,
              λ rt k.
                  find-All (λ r. IsPast s.uuid st.next_id r.family_id) _ st.tx.refresh_tokens rt k
                    i.1.past_rows,
            )))
            (λ e. Keeps-pure none (λ st i p rt k. absurd (cc)))

  revoke_refresh_grant-Keeps :
      (token client_id : String)
      → Keeps (Sound s) Always (revoke_refresh_grant s token client_id) (λ _. Always)
  unfolding revoke_refresh_grant revoke_found revoke_if_found lock_refresh_family
  revoke_refresh_grant-Keeps token client_id =
      Keeps-bind (λ _. Always) Keeps-now
        (λ at.
          Keeps-in_tx (λ st i. (i.0, i.0))
            (Keeps-bind Found (lookup_refresh_grant-Keeps token client_id) (revoked at)))
    where
      revoked :
          (at : ℕ) (found : Option RefreshRow)
          → Keeps (Sound s) (Found found) (revoke_if_found s found at) (λ _. Always)
      revoked at none = Keeps-pure (false, "") (λ st i p. tt)
      revoked at (some rt) =
          Keeps-bind (λ _. Past s rt.family_id) (Keeps-query_total _ (λ st i p. (i, p rt refl)))
            (λ _. Keeps-bind _ (revoke_refresh_family-Keeps s at rt.family_id) (λ n.
              Keeps-bind (λ _. Past s rt.family_id) (tombstone_refresh_family-Keeps s _)
                (λ _.
                  Keeps-bind (λ _. Always) (Sound-commit s) (λ _. Keeps-pure _ (λ st i p. tt)))))

  answer_revocation-Keeps :
      (r : Result StoreError (Bool × String)) (user_id client_id : String)
      → Keeps (Sound s) Always (answer_revocation s r user_id client_id) (λ _. Always)
  unfolding answer_revocation
  answer_revocation-Keeps (err e) user_id client_id = Keeps-fail _
  answer_revocation-Keeps (ok (revoked, owner)) user_id client_id =
      Keeps-if revoked
        (λ e.
          Keeps-bind (λ _. Always) Keeps-now
            (λ at. Keeps-audit_log (Sound-Stable s) (λ st row p. tt) _))
        (λ e. Keeps-pure tt (λ st i p. tt))

  pub revoke_token-state :
      (token user_id client_id : String) (w : World)
      → Sound s w.state
      → Sound s ((revoke_token s token user_id client_id w).1).state
  unfolding revoke_token
  revoke_token-state token user_id client_id w i =
      let (r, v) = revoke_refresh_grant s token client_id w in
      Keeps-state (answer_revocation-Keeps r user_id client_id) v
        (Keeps-state (revoke_refresh_grant-Keeps token client_id) w i tt) tt
