-- ===== src/Storage/Refresh/Reads.antt =====
-- The checks of a presented refresh token change no table but the audit log: they keep every
-- predicate that the audit log does not matter to.
use authgate.Prelude.{ℕ, not, ◌&&◌, Option, none, some, String, Result, ok, err}
use authgate.Client.{invalid_target, invalid_grant, ResourceError, static_access}
use authgate.ClientAccess.{Policy, Decision, allowed, refused, evaluate, restricted}
use authgate.Storage.Db.{Db, RefreshRow}
use authgate.Storage.Rows.{is_none}
use authgate.Storage.Exec.{pure, fail, query, invalid_refresh_token, not_found, oauth}
use authgate.Storage.Exec.Keeps.{
  Pred, Keeps, Stable, Keeps-query_total, Keeps-bind, Keeps-or_fail, Keeps-pure, Keeps-fail,
  Keeps-guard, Keeps-if, Keeps-map_err, Keeps-now, Keeps-audit_log,
}
use authgate.Storage.Settings.{Settings, User, access_subject}
use authgate.Storage.Users.{
  get_user_by_id, get_user_for_tx_by_id, enforce_static_client_access, after_decision,
  access_denied_row, check_state,
}
use authgate.Storage.Refresh.Consume.{check_account, resource_error, validate_refresh_token_request}

module _ {I P : Pred} (is : Stable I) (ps : Stable P) where
  pub Keeps-select : {A : Type 0} (f : Db → A) → Keeps I P (query (λ d. some (f d, d))) (λ _. P)
  Keeps-select f = Keeps-query_total (λ d. (f d, d)) (λ s i p. (i, p))

  pub get_user_by_id-Keeps : (id : String) → Keeps I P (get_user_by_id id) (λ _. P)
  unfolding get_user_by_id get_user_for_tx_by_id
  get_user_by_id-Keeps id =
      Keeps-bind (λ _. P) (Keeps-select _) (λ found. Keeps-or_fail found not_found (λ a s e i p. p))

  pub check_state-Keeps :
      (checker : Option (User → Option String)) (user : User)
      → Keeps I P (check_state checker user) (λ _. P)
  unfolding check_state
  check_state-Keeps none user = Keeps-pure tt (λ s i p. p)
  check_state-Keeps (some check) user = answered (check user)
    where
      answered :
          (o : Option String)
          → Keeps I P
              (elim o [ none ↦ pure tt | some message ↦ fail (oauth "invalid_grant") ])
              (λ _. P)
      answered none = Keeps-pure tt (λ s i p. p)
      answered (some message) = Keeps-fail _

  after_decision-Keeps :
      (user : User) (client_id : String) (decision : Option Decision)
      → Keeps I P (after_decision user client_id decision) (λ _. P)
  unfolding after_decision
  after_decision-Keeps user client_id none = Keeps-fail _
  after_decision-Keeps user client_id (some allowed) = Keeps-pure tt (λ s i p. p)
  after_decision-Keeps user client_id (some (refused reason)) =
      Keeps-bind (λ _. P) Keeps-now
        (λ at.
          Keeps-bind (λ _. P) (Keeps-audit_log is ps (access_denied_row user.id client_id at))
            (λ _. Keeps-fail _))

  pub enforce_static_client_access-Keeps :
      (access : Option Policy) (client_id : String) (user : User)
      → Keeps I P (enforce_static_client_access access client_id user) (λ _. P)
  unfolding enforce_static_client_access
  enforce_static_client_access-Keeps access client_id user =
      after_decision-Keeps user client_id (evaluate access (access_subject user))

  check_account-Keeps : (s : Settings) (rt : RefreshRow) → Keeps I P (check_account s rt) (λ _. P)
  unfolding check_account
  check_account-Keeps s rt =
      Keeps-bind (λ _. P)
        (Keeps-map_err (λ e. invalid_refresh_token) (get_user_by_id-Keeps rt.user_id))
        (λ user.
          Keeps-bind (λ _. P) (check_state-Keeps s.state_checker user)
            (λ _.
              enforce_static_client_access-Keeps (static_access s.registry rt.client_id)
                rt.client_id user))

  pub resource_error-Keeps :
      (r : Result ResourceError (Unit {0})) → Keeps I P (resource_error r) (λ _. P)
  resource_error-Keeps (ok a) = Keeps-pure a (λ s i p. p)
  resource_error-Keeps (err invalid_target) = Keeps-fail _
  resource_error-Keeps (err invalid_grant) = Keeps-fail _

  pub validate_refresh_token_request-Keeps :
      (s : Settings) (resource : String) (rt : RefreshRow) (at : ℕ)
      → Keeps I P (validate_refresh_token_request s resource rt at) (λ _. P)
  unfolding validate_refresh_token_request
  validate_refresh_token_request-Keeps s resource rt at =
      Keeps-bind (λ _. P) (Keeps-guard _ _)
        (λ _.
          Keeps-bind (λ _. P)
            (resource_error-Keeps (s.validate_token_request rt.client_id rt.resource resource))
            (λ _.
              Keeps-if
                (is_none s.state_checker
                  && not (restricted (static_access s.registry rt.client_id)))
                (λ e. Keeps-pure tt (λ st i p. p)) (λ e. check_account-Keeps s rt)))
