-- ===== src/Storage/Refresh/Sound.antt =====
-- The invariant over every operation on refresh tokens, and over every sequence of them.
use authgate.Prelude.{◌≡◌, ℕ, Option, ◌∷◌, String, arith, str_eq}
use authgate.Storage.Db.{Db, RefreshRow}
use authgate.Storage.Exec.{Exec, query, autocommit, take_id}
use authgate.Storage.Exec.Keeps.{
  Always, Keeps, Keeps-query, Keeps-query_total, Keeps-bind, Keeps-or_fail, Keeps-pure, Keeps-guard,
  Keeps-if, Keeps-now, Keeps-audit_log, Keeps-autocommit, Keeps-weaken, Keeps-require,
}
use authgate.Storage.Exec.Transactions.{Keeps-in_tx}
use authgate.Storage.Settings.{
  Settings, TokenRequest, auth_request, device_request, refresh_request,
}
use authgate.Storage.Refresh.Tables.{set_refresh, insert_refresh_token}
use authgate.Storage.Refresh.Consume.{Consumed, audit_refresh_reuse_grace}
use authgate.Storage.Refresh.Issue.{
  consume_auth_code, consume_auth_code_rows, create_access_token, attributes,
  initial_refresh_token_attributes, child_row, issue, create_access_and_refresh_tokens,
}
use authgate.Storage.Refresh.Entombed.{
  IsEntombed-next, IsEntombed-insert, IsEntombed-other, IsPast-tombstoned_in,
}
use authgate.Storage.Refresh.Redeem.{consume_refresh_token-Keeps}
use authgate.Storage.Refresh.Replayed.{Sound, Open, Sound-Stable, Sound-commit}

-- What the id generator is trusted with.
abbrev pub NeverRepeats : (ℕ → String) → Type 0
NeverRepeats uuid = (a b : ℕ) → uuid a ≡ uuid b → a ≡ b

module _ (s : Settings) (distinct : NeverRepeats s.uuid) where
  -- The next id names no family yet.
  take_id-Keeps : Keeps (Sound s) Always take_id (λ n. Open s (s.uuid n))
  take_id-Keeps = record {
    at = λ w i p. (
      (IsEntombed-next s.uuid w.next_id w.db i.0, IsEntombed-next s.uuid w.next_id w.tx i.1),
      (
        (λ m le e. ground (arith, distinct w.next_id m e)),
        IsPast-tombstoned_in s.uuid w.next_id w.next_id w.tx i.1 (omega arith),
      ),
    );
  }

  take_id-frame : (family : String) → Keeps (Sound s) (Open s family) take_id (λ _. Open s family)
  take_id-frame family = record {
    at = λ w i p. (
      (IsEntombed-next s.uuid w.next_id w.db i.0, IsEntombed-next s.uuid w.next_id w.tx i.1),
      ((λ m le e. p.0 m (omega arith) e), p.1),
    );
  }

  take_id-Always : Keeps (Sound s) Always take_id (λ _. Always)
  take_id-Always = Keeps-weaken take_id-Keeps (λ a st i q. tt)

  consume_auth_code-Keeps :
      (run : (Db → Option (ℕ × Db)) → Exec ℕ) (request : TokenRequest)
      → ((id client_id code : String) (at : ℕ)
          → Keeps
              (Sound s)
              Always
              (run (consume_auth_code_rows id client_id code at))
              (λ _. Always))
      → Keeps (Sound s) Always (consume_auth_code s run request) (λ _. Always)
  unfolding consume_auth_code
  consume_auth_code-Keeps run (auth_request ar) h =
      Keeps-bind (λ _. Always) (Keeps-guard _ _)
        (λ _.
          Keeps-bind (λ _. Always) Keeps-now
            (λ at. Keeps-bind (λ _. Always) (h _ _ _ at) (λ n. Keeps-guard _ _)))
  consume_auth_code-Keeps run (device_request d) h = Keeps-pure tt (λ st i p. tt)
  consume_auth_code-Keeps run (refresh_request r) h = Keeps-pure tt (λ st i p. tt)

  consume_auth_code_rows-tx :
      (id client_id code : String) (at : ℕ)
      → Keeps (Sound s) Always (query (consume_auth_code_rows id client_id code at)) (λ _. Always)
  unfolding consume_auth_code_rows
  consume_auth_code_rows-tx id client_id code at =
      Keeps-query_total _
        (λ st i p. ((i.0, IsEntombed-other s.uuid st.next_id st.tx _ st.tx.audit_log i.1), tt))

  consume_auth_code_rows-own :
      (id client_id code : String) (at : ℕ)
      → Keeps
          (Sound s)
          Always
          (autocommit (consume_auth_code_rows id client_id code at))
          (λ _. Always)
  unfolding consume_auth_code_rows
  consume_auth_code_rows-own id client_id code at = Keeps-autocommit _ (λ st i p. (
    (
      IsEntombed-other s.uuid st.next_id st.db _ st.db.audit_log i.0,
      IsEntombed-other s.uuid st.next_id st.db _ st.db.audit_log i.0,
    ),
    tt,
  ))

  pub create_access_token-Keeps :
      (request : TokenRequest)
      → Keeps (Sound s) Always (create_access_token s request) (λ _. Always)
  unfolding create_access_token
  create_access_token-Keeps request =
      Keeps-bind (λ _. Always)
        (consume_auth_code-Keeps autocommit request
          (λ id c k at. consume_auth_code_rows-own id c k at))
        (λ _.
          Keeps-bind (λ _. Always) take_id-Always
            (λ n. Keeps-bind (λ _. Always) Keeps-now (λ at. Keeps-pure _ (λ st i p. tt))))

  insert_refresh_token-Keeps :
      (row : RefreshRow)
      → Keeps (Sound s) (Open s row.family_id) (query (insert_refresh_token row)) (λ _. Always)
  unfolding insert_refresh_token
  insert_refresh_token-Keeps row = Keeps-query (insert_refresh_token row) (λ st a d i p e.
      let same : d ≡ set_refresh st.tx (row ∷ st.tx.refresh_tokens) = ground arith in
      ((i.0, rw same (IsEntombed-insert s.uuid st.next_id row st.tx p.1 p.0 i.1)), tt))

  attributes-Keeps :
      (resource : String) (request : TokenRequest) (initial : Consumed) (current : String)
      → Keeps
          (Sound s)
          (Open s initial.family_id)
          (attributes s resource request initial current)
          (λ r. Open s (r.0.family_id))
  unfolding attributes
  attributes-Keeps resource request initial current =
      Keeps-if (str_eq current "") (λ e. Keeps-pure _ (λ st i p. p))
        (λ e.
          Keeps-bind (λ c. Open s c.family_id)
            (Keeps-require (λ st i p. tt) (consume_refresh_token-Keeps s resource request current))
            (λ c.
              Keeps-bind (λ _. Open s c.family_id) (Keeps-guard _ _)
                (λ _. Keeps-pure _ (λ st i p. p))))

  audit_refresh_reuse_grace-Keeps :
      (user family outcome : String)
      → Keeps (Sound s) Always (audit_refresh_reuse_grace user family outcome) (λ _. Always)
  unfolding audit_refresh_reuse_grace
  audit_refresh_reuse_grace-Keeps user family outcome =
      Keeps-bind (λ _. Always) Keeps-now (λ at. Keeps-audit_log (Sound-Stable s) (λ st row p. tt) _)

  issue-Keeps :
      (resource : String) (request : TokenRequest) (current new_refresh : String) (at : ℕ)
      → Keeps (Sound s) Always (issue s resource request current new_refresh at) (λ _. Always)
  unfolding issue initial_refresh_token_attributes
  issue-Keeps resource request current new_refresh at =
      Keeps-bind (λ _. Always)
        (consume_auth_code-Keeps query request (λ id c k at. consume_auth_code_rows-tx id c k at))
        (λ _.
          Keeps-bind (λ n. Open s (s.uuid n)) take_id-Keeps
            (λ n.
              Keeps-bind (λ r. Open s (r.0.family_id))
                (attributes-Keeps resource request (initial_refresh_token_attributes s request n)
                  current)
                (λ r.
                  Keeps-bind (λ _. Open s (r.0.family_id)) (take_id-frame (r.0.family_id))
                    (λ m.
                      Keeps-bind (λ _. Always)
                        (insert_refresh_token-Keeps
                          (child_row s (s.uuid m) (s.refresh_hash new_refresh) r.0 r.1 at))
                        (λ _.
                          Keeps-bind (λ _. Always) (Sound-commit s)
                            (λ _.
                              Keeps-if (r.0.grace_child)
                                (λ e. audit_refresh_reuse_grace-Keeps _ _ _)
                                (λ e. Keeps-pure tt (λ st i p. tt))))))))

  pub create_access_and_refresh_tokens-Keeps :
      (resource : String) (request : TokenRequest) (current : String)
      → Keeps
          (Sound s)
          Always
          (create_access_and_refresh_tokens s resource request current)
          (λ _. Always)
  unfolding create_access_and_refresh_tokens
  create_access_and_refresh_tokens-Keeps resource request current =
      Keeps-bind (λ _. Always) take_id-Always
        (λ n.
          Keeps-bind (λ _. Always) Keeps-now
            (λ at.
              Keeps-bind (λ _. Always) take_id-Always
                (λ m.
                  Keeps-bind (λ _. Always) (Keeps-or_fail (s.opaque_token m) _ (λ a st e i p. tt))
                    (λ new_refresh.
                      Keeps-bind (λ _. Always)
                        (Keeps-in_tx (λ st i. (i.0, i.0))
                          (issue-Keeps resource request current new_refresh at))
                        (λ _. Keeps-pure _ (λ st i p. tt))))))
