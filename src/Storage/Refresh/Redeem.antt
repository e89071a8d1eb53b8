-- ===== src/Storage/Refresh/Redeem.antt =====
-- Redemption keeps the invariant, and hands on a family only if it is not revoked.
use authgate.Prelude.{◌≡◌, refl, ℕ, Bool, true, false, ◌||◌, some, String, arith}
use authgate.Storage.Db.{RefreshRow}
use authgate.Storage.Rows.Laws.{find-All}
use authgate.Storage.Exec.{invalid_refresh_token}
use authgate.Storage.Exec.Keeps.{
  Always, Keeps, Keeps-query_total, Keeps-bind, Keeps-or_fail, Keeps-pure, Keeps-fail, Keeps-guard,
  Keeps-if, Keeps-map_err, Keeps-now, Keeps-audit_log, Keeps-require,
}
use authgate.Storage.Settings.{Settings, TokenRequest}
use authgate.Storage.Refresh.Tables.{
  tombstoned_in, get_refresh_family_id_by_token_hash, lock_refresh_family,
  get_refresh_token_for_update_by_hash, is_refresh_family_revoked,
  has_revoked_unredeemed_refresh_token_in_family, count_refresh_token_children,
  mark_refresh_token_used_and_revoked_by_id,
}
use authgate.Storage.Refresh.Consume.{
  grant_refused, load_refresh_token_for_update, is_refresh_token_used_or_revoked, Grace, grace_none,
  grace_issue, grace_refuse, grace_by_children, grace_by_family, grace_applies,
  refresh_reuse_grace_decision, as_grant_error, audit_refresh_reuse_grace, act_on_grace,
  decide_replay, mark_redeemed, consumed, load_for_consumption, consume_refresh_token,
}
use authgate.Storage.Refresh.Entombed.{IsPast, IsEntombed-update}
use authgate.Storage.Refresh.Reads.{Keeps-select, validate_refresh_token_request-Keeps}
use authgate.Storage.Refresh.Replayed.{Sound, Past, Open, Sound-Stable, revoke_on_reuse-Keeps}

module _ (s : Settings) where
  pub load_refresh_token_for_update-Keeps :
      (hash : String)
      → Keeps (Sound s) Always (load_refresh_token_for_update hash) (λ rt. Past s rt.family_id)
  unfolding load_refresh_token_for_update get_refresh_token_for_update_by_hash
  load_refresh_token_for_update-Keeps hash =
      Keeps-bind (λ found st. (rt : RefreshRow) → found ≡ some rt → Past s rt.family_id st)
        (Keeps-query_total _ (λ st i p. (
          i,
          λ rt e.
              find-All (λ r. IsPast s.uuid st.next_id r.family_id) _ st.tx.refresh_tokens rt e
                i.1.past_rows,
        )))
        (λ found. Keeps-or_fail found invalid_refresh_token (λ rt st e i p. p rt e))

  load_for_consumption-Keeps :
      (resource : String) (request : TokenRequest) (token : String) (at : ℕ)
      → Keeps
          (Sound s)
          Always
          (load_for_consumption s resource request token at)
          (λ rt. Past s rt.family_id)
  unfolding load_for_consumption get_refresh_family_id_by_token_hash lock_refresh_family
  load_for_consumption-Keeps resource request token at =
      Keeps-bind (λ _. Always) (Keeps-select (Sound-Stable s) (λ st row p. tt) _)
        (λ family.
          Keeps-bind (λ _. Always) (Keeps-or_fail family grant_refused (λ a st e i p. tt))
            (λ id.
              Keeps-bind (λ _. Always) (Keeps-select (Sound-Stable s) (λ st row p. tt) _)
                (λ _.
                  Keeps-bind (λ rt. Past s rt.family_id)
                    (Keeps-map_err _ (load_refresh_token_for_update-Keeps (s.refresh_hash token)))
                    (λ rt.
                      Keeps-bind (λ _. Past s rt.family_id) (Keeps-guard _ _)
                        (λ _.
                          Keeps-bind (λ _. Past s rt.family_id) (Keeps-guard _ _)
                            (λ _.
                              Keeps-bind (λ _. Past s rt.family_id)
                                (Keeps-map_err as_grant_error (
                                  validate_refresh_token_request-Keeps (Sound-Stable s)
                                    (λ st row p. p) s resource rt at))
                                (λ _. Keeps-pure rt (λ st i p. p))))))))

  grace_by_family-Keeps :
      (rt : RefreshRow)
      → Keeps (Sound s) (Past s rt.family_id) (grace_by_family rt) (λ grace st.
        Past s rt.family_id st
        × (grace ≡ grace_issue → tombstoned_in st.tx.families rt.family_id ≡ false))
  unfolding grace_by_family grace_by_children is_refresh_family_revoked
      has_revoked_unredeemed_refresh_token_in_family count_refresh_token_children
  grace_by_family-Keeps rt =
      Keeps-bind (λ t st. Past s rt.family_id st × (tombstoned_in st.tx.families rt.family_id ≡ t))
        (Keeps-query_total _ (λ st i p. (i, (p, refl))))
        (λ t.
          Keeps-if t (λ e. Keeps-pure grace_none (λ st i p. (p.0, λ k. absurd (cc))))
            (λ e.
              Keeps-bind (λ _. Open s rt.family_id)
                (Keeps-query_total _ (λ st i p. (i, (p.0, ground arith))))
                (λ b.
                  Keeps-if b (λ k. Keeps-pure grace_none (λ st i p. (p.0, λ x. p.1)))
                    (λ k.
                      Keeps-bind (λ _. Open s rt.family_id) (Keeps-query_total _ (λ st i p. (i, p)))
                        (λ children.
                          Keeps-pure (grace_by_children children) (λ st i p. (p.0, λ x. p.1)))))))

  refresh_reuse_grace_decision-Keeps :
      (rt : RefreshRow) (at : ℕ)
      → Keeps (Sound s) (Past s rt.family_id) (refresh_reuse_grace_decision s rt at) (λ grace st.
        Past s rt.family_id st
        × (grace ≡ grace_issue → tombstoned_in st.tx.families rt.family_id ≡ false))
  unfolding refresh_reuse_grace_decision
  refresh_reuse_grace_decision-Keeps rt at =
      Keeps-if (grace_applies s rt at) (λ e. grace_by_family-Keeps rt)
        (λ e. Keeps-pure grace_none (λ st i p. (p, λ k. absurd (cc))))

  act_on_grace-Keeps :
      (rt : RefreshRow) (at : ℕ) (grace : Grace)
      → Keeps
          (Sound s)
          (λ st.
            Past s rt.family_id st
            × (grace ≡ grace_issue → tombstoned_in st.tx.families rt.family_id ≡ false))
          (act_on_grace rt at grace)
          (λ _. Open s rt.family_id)
  unfolding act_on_grace audit_refresh_reuse_grace
  act_on_grace-Keeps rt at grace_issue = Keeps-pure true (λ st i p. (p.0, p.1 refl))
  act_on_grace-Keeps rt at grace_refuse =
      Keeps-bind (λ _. Always)
        (Keeps-bind (λ _. Always) (Keeps-require (λ st i p. tt) Keeps-now)
          (λ now. Keeps-audit_log (Sound-Stable s) (λ st row p. tt) _))
        (λ _. Keeps-fail _)
  act_on_grace-Keeps rt at grace_none =
      Keeps-require (λ st i p. p.0) (revoke_on_reuse-Keeps s rt at)

  decide_replay-Keeps :
      (rt : RefreshRow) (at : ℕ)
      → Keeps (Sound s) (Past s rt.family_id) (decide_replay s rt at) (λ _. Open s rt.family_id)
  unfolding decide_replay is_refresh_family_revoked
  decide_replay-Keeps rt at =
      Keeps-bind (λ t st. Past s rt.family_id st × (tombstoned_in st.tx.families rt.family_id ≡ t))
        (Keeps-query_total _ (λ st i p. (i, (p, refl))))
        (λ t.
          Keeps-if (is_refresh_token_used_or_revoked rt || t)
            (λ e.
              Keeps-bind _
                (Keeps-require (λ st i p. p.0) (refresh_reuse_grace_decision-Keeps rt at))
                (λ grace. act_on_grace-Keeps rt at grace))
            (λ e. Keeps-pure false (λ st i p. (p.0, ground arith))))

  mark_redeemed-Keeps :
      (rt : RefreshRow) (at : ℕ) (grace_child : Bool)
      → Keeps
          (Sound s)
          (Open s rt.family_id)
          (mark_redeemed s rt at grace_child)
          (λ _. Open s rt.family_id)
  unfolding mark_redeemed mark_refresh_token_used_and_revoked_by_id
  mark_redeemed-Keeps rt at grace_child =
      Keeps-if grace_child (λ e. Keeps-pure tt (λ st i p. p))
        (λ e. Keeps-query_total _ (λ st i p.
          ((i.0, IsEntombed-update s.uuid st.next_id _ _ st.tx (λ r. refl) (λ r. refl) i.1), p)))

  pub consume_refresh_token-Keeps :
      (resource : String) (request : TokenRequest) (token : String)
      → Keeps
          (Sound s)
          Always
          (consume_refresh_token s resource request token)
          (λ c. Open s c.family_id)
  unfolding consume_refresh_token
  consume_refresh_token-Keeps resource request token =
      Keeps-bind (λ _. Always) Keeps-now
        (λ at.
          Keeps-bind (λ rt. Past s rt.family_id)
            (load_for_consumption-Keeps resource request token at)
            (λ rt.
              Keeps-bind (λ _. Open s rt.family_id) (decide_replay-Keeps rt at)
                (λ g.
                  Keeps-bind (λ _. Open s rt.family_id) (mark_redeemed-Keeps rt at g)
                    (λ _. Keeps-pure (consumed s rt g) (λ st i p. p)))))
