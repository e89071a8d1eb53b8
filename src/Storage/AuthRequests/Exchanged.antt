-- ===== src/Storage/AuthRequests/Exchanged.antt =====
-- internal/storage/auth_requests.go, `AuthRequestByCode`: what holds of a request that a code is exchanged
-- for.
use mathlib.Core.Path.{subst}
use authgate.Prelude.{
  ℕ, ◌≤◌, ◌≡◌, ◌⊎◌, inl, inr, refl, sym, ap, ◌∙◌, true, false, not, ◌&&◌, ◌||◌, Option, none, some,
  String, str_eq, ltb, arith, Result, ok, err, Option-cases,
}
use authgate.Client.{ResourceError, invalid_target, invalid_grant, static_access}
use authgate.ClientAccess.{Policy, Decision, allowed, refused, evaluate, restricted}
use authgate.Storage.Db.{Db, AuthRequestRow, UserRow}
use authgate.Storage.Rows.{find, is_some_eq}
use authgate.Storage.Exec.{World, pure, ◌>>◌, oauth}
use authgate.Storage.Exec.Keeps.{
  Pred, Always, Keeps, Keeps-bind, Keeps-pure, Keeps-fail, Keeps-if, Keeps-weaken, Keeps-require,
  Keeps-result, Keeps-now, Keeps-or_fail, Keeps-map_err, Keeps-autocommit, Keeps-audit_log,
}
use authgate.Storage.Exec.Posts.{Keeps-guard_passed, Keeps-now_at, Keeps-known}
use authgate.Storage.Settings.{Settings, User, AuthRequestModel, access_subject}
use authgate.Storage.Users.{build_user, check_state, enforce_static_client_access, after_decision}
use authgate.Storage.Refresh.Consume.{resource_error}
use authgate.Storage.AuthRequests.Tables.{get_auth_request_by_code}
use authgate.Storage.AuthRequests.{
  has_checker, check_request_subject, find_user_by_id, get_user_by_id_row, auth_request_by_code,
  checked, auth_request_model_from_row, or_empty,
}

-- The tables and the clock.
abbrev At : Db → ℕ → Pred
At d t s = (s.db ≡ d) × (s.now ≡ t)

-- A nil checker accepts everyone.
abbrev pub Passes : Option (User → Option String) → User → Type 0
Passes none user = Unit
Passes (some check) user = check user ≡ none

-- The account that the request names is there, its state passes, and the policy allows it.
abbrev pub Admitted : Settings → Option Policy → String → Db → Type 0
Admitted cfg access subject d =
    (row : UserRow) × (find (λ u. str_eq u.id subject) d.users ≡ some row)
    × Passes cfg.state_checker (build_user d.identities row)
    × (evaluate access (access_subject (build_user d.identities row)) ≡ some allowed)

module _ {P : Pred} where
  check_state-Passes :
      (checker : Option (User → Option String)) (user : User)
      → Keeps Always P (check_state checker user) (λ _ s. P s × Passes checker user)
  unfolding check_state
  check_state-Passes none user = Keeps-pure tt (λ s i p. (p, tt))
  check_state-Passes (some check) user = elim (Option-cases (check user)) [
    | inl fine ↦ rw fine (Keeps-pure tt (λ s i p. (p, refl)))
    | inr (message, bad) ↦ rw bad (Keeps-fail _)
  ]

  after_decision-allowed :
      (user : User) (client_id : String) (decision : Option Decision)
      → Keeps Always P
          (after_decision user client_id decision)
          (λ _ s. P s × (decision ≡ some allowed))
  unfolding after_decision
  after_decision-allowed user client_id none = Keeps-fail _
  after_decision-allowed user client_id (some allowed) = Keeps-pure tt (λ s i p. (p, refl))
  after_decision-allowed user client_id (some (refused reason)) =
      Keeps-require (λ s i p. tt)
        (Keeps-bind (λ _. Always) Keeps-now
          (λ at.
            Keeps-bind (λ _. Always) (Keeps-audit_log (λ s row p. p) (λ s row p. p) _)
              (λ _. Keeps-fail _)))

  -- A resource policy that lets an action go on has accepted.
  resource_error-accepted :
      (r : Result ResourceError (Unit {0}))
      → Keeps Always P (resource_error r) (λ _ s. P s × (r ≡ ok tt))
  resource_error-accepted (ok tt) = Keeps-pure tt (λ s i p. (p, refl))
  resource_error-accepted (err invalid_target) = Keeps-fail _
  resource_error-accepted (err invalid_grant) = Keeps-fail _

abbrev look : String → Db → Option User
look id d = elim (find (λ u. str_eq u.id id) d.users) [
  | none ↦ none
  | some row ↦ some (build_user d.identities row)
]

look-some :
    (id : String) (d : Db) (user : User)
    → look id d ≡ some user
    → (row : UserRow) × (find (λ u. str_eq u.id id) d.users ≡ some row)
      × (user ≡ build_user d.identities row)
look-some id d user e = elim (Option-cases (find (λ u. str_eq u.id id) d.users)) [
  | inl missing ↦ absurd (ground (arith, e, missing))
  | inr (row, found) ↦ (row, found, ground (arith, e, found))
]

find_user_by_id-found :
    (id : String) (d : Db) (t : ℕ)
    → Keeps Always (At d t) (find_user_by_id id) (λ user s.
      At d t s
      × ((row : UserRow) × (find (λ u. str_eq u.id id) d.users ≡ some row)
          × (user ≡ build_user d.identities row)))
unfolding find_user_by_id get_user_by_id_row
find_user_by_id-found id d t =
    Keeps-bind (λ found s. At d t s × (found ≡ look id d))
      (Keeps-autocommit _ (λ s i p. (tt, (p, ap (look id) p.0))))
      (λ found. Keeps-or_fail found _ (λ user s e i p. (p.0, look-some id d user (sym p.1 ∙ e))))

check_request_subject-Admitted :
    (cfg : Settings) (access : Option Policy) (ar : AuthRequestModel) (d : Db) (t : ℕ)
    → Keeps Always
        (At d t)
        (check_request_subject cfg access ar)
        (λ _ s. At d t s × Admitted cfg access ar.subject d)
unfolding check_request_subject enforce_static_client_access
check_request_subject-Admitted cfg access ar d t =
    Keeps-map_err (λ e. oauth "invalid_grant")
      (Keeps-bind _ (find_user_by_id-found ar.subject d t) (λ user.
        Keeps-bind _ (check_state-Passes cfg.state_checker user) (λ _.
          Keeps-weaken
            (after_decision-allowed user ar.client_id (evaluate access (access_subject user)))
            (λ _ s i q.
              let (row, found, same) = q.0.0.1 in
              (
                q.0.0.0,
                (
                  row,
                  found,
                  subst (λ u. Passes cfg.state_checker u) same q.0.1,
                  ap (λ u. evaluate access (access_subject u)) (sym same) ∙ q.1,
                ),
              )))))

-- What is checked of a request's account: nothing if the request names none, or if there is neither a
-- state checker nor a rule for the client.
abbrev pub AccountChecked : Settings → Option Policy → String → Db → Type 0
AccountChecked cfg access subject d =
    ((has_checker cfg.state_checker || restricted access) && not (str_eq subject "") ≡ false)
    ⊎ Admitted cfg access subject d

checked-AccountChecked :
    (cfg : Settings) (access : Option Policy) (ar : AuthRequestModel) (d : Db) (t : ℕ)
    → Keeps Always (At d t) (checked cfg access ar) (λ _ s. AccountChecked cfg access ar.subject d)
unfolding checked
checked-AccountChecked cfg access ar d t =
    Keeps-if ((has_checker cfg.state_checker || restricted access) && not (str_eq ar.subject ""))
      (λ needed.
        Keeps-weaken (check_request_subject-Admitted cfg access ar d t) (λ _ s i q. inr q.1))
      (λ free. Keeps-pure tt (λ s i p. inl free))

-- What a code is exchanged for: the request that holds the code's hash, in time, for a resource that the
-- policy accepts, its account checked.
abbrev pub IsExchange : Settings → String → String → Db → ℕ → AuthRequestModel → Type 0
IsExchange cfg requested code d t ar =
    (row : AuthRequestRow) × (find (λ r. is_some_eq r.code (cfg.code_hash code)) d.auth_requests
      ≡ some row)
    × (ar ≡ record (auth_request_model_from_row row) { code = some code })
    × (t ≤ row.expires_at)
    × (cfg.validate_token_request row.client_id row.resource requested ≡ ok tt)
    × AccountChecked cfg (static_access cfg.registry row.client_id) (or_empty row.subject) d

-- What is known once the row is found and the checks before the account's have passed.
abbrev Found : Settings → String → String → Db → AuthRequestRow → ℕ → Type 0
Found cfg requested code d row t =
    (find (λ r. is_some_eq r.code (cfg.code_hash code)) d.auth_requests ≡ some row)
    × (t ≤ row.expires_at)
    × (cfg.validate_token_request row.client_id row.resource requested ≡ ok tt)

finish-Keeps :
    (cfg : Settings) (requested code : String) (d : Db) (t : ℕ) (row : AuthRequestRow)
    → Found cfg requested code d row t
    → Keeps Always
        (At d t)
        (checked cfg (static_access cfg.registry row.client_id) (auth_request_model_from_row row)
          >> pure (record (auth_request_model_from_row row) { code = some code }))
        (λ ar s. IsExchange cfg requested code d t ar)
unfolding auth_request_model_from_row
finish-Keeps cfg requested code d t row known =
    Keeps-bind _
      (checked-AccountChecked cfg (static_access cfg.registry row.client_id)
        (auth_request_model_from_row row) d t)
      (λ _. Keeps-pure _ (λ s i p. (row, known.0, refl, known.1, known.2, p)))

in_time_lem :
    (expires now t at : ℕ) → now ≡ t → now ≡ at → not (ltb expires at) ≡ true → t ≤ expires
in_time_lem expires now t at same here in_time = ground (arith, same, here, in_time)

auth_request_by_code-Keeps :
    (cfg : Settings) (requested code : String) (d : Db) (t : ℕ)
    → Keeps Always
        (At d t)
        (auth_request_by_code cfg requested code)
        (λ ar s. IsExchange cfg requested code d t ar)
unfolding auth_request_by_code get_auth_request_by_code auth_request_model_from_row
auth_request_by_code-Keeps cfg requested code d t =
    Keeps-bind
      (λ found s.
        At d t s × (found ≡ find (λ r. is_some_eq r.code (cfg.code_hash code)) d.auth_requests))
      (Keeps-autocommit _ (λ s i p. (
        tt,
        (p, ap (λ e. find (λ r. is_some_eq r.code (cfg.code_hash code)) e.auth_requests) p.0),
      )))
      (λ found.
        Keeps-bind
          (λ row s.
            At d t s
            × (find (λ r. is_some_eq r.code (cfg.code_hash code)) d.auth_requests ≡ some row))
          (Keeps-or_fail found _ (λ row s e i p. (p.0, sym p.1 ∙ e)))
          (λ row. Keeps-bind _ Keeps-now_at (λ at.
            Keeps-bind _ (Keeps-guard_passed (not (ltb row.expires_at at)) _) (λ _.
              Keeps-bind _
                (resource_error-accepted
                  (cfg.validate_token_request row.client_id row.resource requested))
                (λ _.
                  Keeps-known (Found cfg requested code d row t)
                    (λ s p.
                      let ((((here, found_row), at_now), in_time), accepted) = p in
                      (
                        here,
                        (
                          found_row,
                          in_time_lem row.expires_at s.now t at here.1 at_now in_time,
                          accepted,
                        ),
                      ))
                    (finish-Keeps cfg requested code d t row))))))

-- When AuthRequestByCode returns a request, the request holds the hash of the code, has not expired and is
-- returned as it is stored, and the resource policy has accepted the resource. Where there is a state
-- checker or a rule for the client, and the request names an account, the account is found, passes the
-- checker and is allowed by the rule; a request that names none is not checked further.
pub auth_request_by_code-IsExchange :
    (cfg : Settings) (requested code : String) (w : World) (ar : AuthRequestModel)
    → (auth_request_by_code cfg requested code w).0 ≡ ok ar
    → IsExchange cfg requested code w.db w.now ar
auth_request_by_code-IsExchange cfg requested code w ar returned =
    Keeps-result (auth_request_by_code-Keeps cfg requested code w.db w.now) w ar tt (refl, refl)
      returned
