-- ===== src/Storage/AuthRequests/Kept.antt =====
-- internal/storage/auth_requests.go: a request that is created is kept as it was, and not without PKCE.
use authgate.Prelude.{
  ℕ, ◌%◌, ◌^◌, ◌≤◌, ◌<◌, ◌≡◌, ◌⊎◌, inl, inr, refl, sym, ap, ◌∙◌, Bool, true, false, not, ◌||◌,
  Option, none, some, List, [], ◌∷◌, ◌++◌, String, str_eq, eq_iff, any, ltb, arith, ok, Bool-cases,
}
use authgate.Client.{Model}
use authgate.Storage.Db.{Db, AuthRequestRow}
use authgate.Storage.Rows.{find}
use authgate.Storage.Exec.{World, ◌>>=◌, autocommit}
use authgate.Storage.Exec.Keeps.{
  Pred, Always, Keeps, Keeps-bind, Keeps-pure, Keeps-weaken, Keeps-result, Keeps-now, Keeps-guard,
}
use authgate.Storage.Exec.Posts.{Keeps-autocommit-some, Keeps-guard_passed, Keeps-take_id}
use authgate.Storage.Settings.{Settings, AuthRequestModel}
use authgate.Storage.Refresh.Reads.{resource_error-Keeps}
use authgate.Storage.AuthRequests.Tables.{insert_auth_request, get_auth_request_by_id}
use authgate.Storage.AuthRequests.{
  NewAuthRequest, pkce_missing, check_client, new_model, row_of, create_auth_request,
  auth_request_model_from_row, get_auth_request_model, max_age_to_null_int64,
  max_age_from_null_int64,
}

-- The row that is added last is found when no other passes the test.
pub find-snoc :
    {A : Type 0} (p : A → Bool) (xs : List A) (y : A)
    → any p xs ≡ false
    → p y ≡ true
    → find p (xs ++ y ∷ []) ≡ some y
unfolding find
find-snoc p [] y none_passes passes = rw passes refl
find-snoc p (x ∷ xs) y none_passes passes =
    ground (arith, none_passes, find-snoc p xs y (ground (arith, none_passes)) passes)

-- The client is known and has opted out of PKCE.
abbrev pub IsRelaxed : Option Model → Type 0
IsRelaxed client = (c : Model) × (client ≡ some c) × (c.skip_pkce ≡ true)

-- The request is held to PKCE with S256, or the client has opted out.
abbrev pub PkceKept : Option Model → NewAuthRequest → Type 0
PkceKept client req = (pkce_missing req ≡ false) ⊎ IsRelaxed client

check_client-Keeps :
    (cfg : Settings) (resource : String) (req : NewAuthRequest) (client : Option Model)
    → Keeps Always Always (check_client cfg resource req client) (λ _ s. PkceKept client req)
unfolding check_client
check_client-Keeps cfg resource req none =
    Keeps-weaken (Keeps-guard_passed (not (pkce_missing req)) _)
      (λ _ s i q. inl (ground (arith, q.1)))
check_client-Keeps cfg resource req (some client) =
    Keeps-bind (λ _. Always)
      (resource_error-Keeps (λ s row p. p) (λ s row p. p)
        (cfg.validate_authorize_request client resource))
      (λ _.
        Keeps-weaken (Keeps-guard_passed (client.skip_pkce || not (pkce_missing req)) _) (λ _ s i q.
          elim (Bool-cases client.skip_pkce) [
            | inl relaxed ↦ inr (client, refl, relaxed)
            | inr strict ↦ inl (ground (arith, q.1, strict))
          ]))

-- What creating a request leaves: its model, its row, found by its id, and PKCE.
abbrev Stored : Settings → String → NewAuthRequest → AuthRequestModel → Pred
Stored cfg resource req ar s =
    ((id : String) × (at : ℕ) × (ar ≡ new_model resource req id at))
    × (find (λ r. str_eq r.id ar.id) s.db.auth_requests ≡ some (row_of cfg ar))
    × PkceKept (cfg.resolve_client req.client_id) req

insert_auth_request-found :
    (row : AuthRequestRow) (d e : Db)
    → insert_auth_request row d ≡ some (tt, e)
    → find (λ r. str_eq r.id row.id) e.auth_requests ≡ some row
unfolding insert_auth_request
insert_auth_request-found row d e inserted =
    elim (Bool-cases (any (λ r. str_eq r.id row.id) d.auth_requests)) [
      | inl taken ↦ absurd (ground (arith, inserted, taken))
      | inr free ↦
          let same : e ≡ record d { auth_requests = d.auth_requests ++ row ∷ [] } =
            ground (arith, inserted, free) in
          rw same (
            find-snoc (λ r. str_eq r.id row.id) d.auth_requests row free
              ((eq_iff row.id row.id).1 refl))
    ]

create_auth_request-Keeps :
    (cfg : Settings) (resource : String) (req : NewAuthRequest)
    → Keeps Always Always (create_auth_request cfg resource req) (Stored cfg resource req)
unfolding create_auth_request row_of
create_auth_request-Keeps cfg resource req =
    Keeps-bind (λ _ s. PkceKept (cfg.resolve_client req.client_id) req)
      (check_client-Keeps cfg resource req (cfg.resolve_client req.client_id))
      (λ _.
        Keeps-bind (λ _ s. PkceKept (cfg.resolve_client req.client_id) req) (Keeps-guard _ _)
          (λ _.
            Keeps-bind (λ _ s. PkceKept (cfg.resolve_client req.client_id) req)
              (Keeps-take_id (λ s i. tt) (λ s p. p))
              (λ n.
                Keeps-bind (λ _ s. PkceKept (cfg.resolve_client req.client_id) req) Keeps-now
                  (λ at.
                    Keeps-bind
                      (λ _ s.
                        (find (λ r. str_eq r.id (cfg.uuid n)) s.db.auth_requests
                          ≡ some (row_of cfg (new_model resource req (cfg.uuid n) at)))
                        × PkceKept (cfg.resolve_client req.client_id) req)
                      (Keeps-autocommit-some _ (λ s a d i p e. (
                        tt,
                        (
                          insert_auth_request-found
                              (row_of cfg (new_model resource req (cfg.uuid n) at)) s.db d e,
                          p,
                        ),
                      )))
                      (λ _.
                        Keeps-pure (new_model resource req (cfg.uuid n) at)
                          (λ s i p. ((cfg.uuid n, at, refl), p.0, p.1)))))))

-- An authorization request is created only with a code challenge by S256, unless its client is known and
-- has opted out of PKCE, whatever the database does.
pub create_auth_request-PkceKept :
    (cfg : Settings) (resource : String) (req : NewAuthRequest) (w : World) (ar : AuthRequestModel)
    → (create_auth_request cfg resource req w).0 ≡ ok ar
    → PkceKept (cfg.resolve_client req.client_id) req
create_auth_request-PkceKept cfg resource req w ar created =
    (Keeps-result (create_auth_request-Keeps cfg resource req) w ar tt tt created).2

-- The world as another request finds it: a later time, and a database that answers.
abbrev pub later : ℕ → World → World
later t w = record { state = record (w.state) { now = t }; faults = [] }

-- A max_age that an int64 holds.
abbrev pub FitsInt64 : Option ℕ → Type 0
FitsInt64 none = Unit
FitsInt64 (some seconds) = seconds < 2 ^ 63

max_age_lem :
    (age : Option ℕ) → FitsInt64 age → max_age_from_null_int64 (max_age_to_null_int64 age) ≡ age
unfolding max_age_from_null_int64 max_age_to_null_int64
max_age_lem none fits = refl
max_age_lem (some seconds) fits =
    let same : seconds % 2 ^ 64 ≡ seconds = omega (arith, fits) in ground (arith, same, fits)

-- The request as its row holds it: the times are those that the columns keep.
abbrev pub kept_times : Settings → AuthRequestModel → AuthRequestModel
kept_times cfg ar = record ar {
  expires_at = cfg.timestamptz ar.expires_at;
  created_at = cfg.timestamptz ar.created_at;
}

model-row :
    (cfg : Settings) (resource : String) (req : NewAuthRequest) (id : String) (at : ℕ)
    → FitsInt64 req.max_age
    → auth_request_model_from_row (row_of cfg (new_model resource req id at))
      ≡ kept_times cfg (new_model resource req id at)
unfolding auth_request_model_from_row row_of
model-row cfg resource req id at fits = rw (max_age_lem req.max_age fits) refl

row_of-expires_at :
    (cfg : Settings) (ar : AuthRequestModel)
    → (row_of cfg ar).expires_at ≡ cfg.timestamptz ar.expires_at
unfolding row_of
row_of-expires_at cfg ar = refl

get-found :
    (id : String) (w : World) (row : AuthRequestRow) (t : ℕ)
    → find (λ r. str_eq r.id id) w.db.auth_requests ≡ some row
    → t ≤ row.expires_at
    → (get_auth_request_model id (later t w)).0 ≡ ok (auth_request_model_from_row row)
unfolding get_auth_request_model get_auth_request_by_id autocommit ◌>>=◌
get-found id w row t found fresh =
    let in_time : ltb row.expires_at t ≡ false = ground (arith, fresh) in rw (found, in_time) refl

-- A request that is created is read back by its id until the expiry in its row, for a max_age that an
-- int64 holds: every field as it was returned, but for expires_at and created_at, which are what a
-- timestamptz column keeps of the returned times.
pub create_auth_request-get_auth_request_model :
    (cfg : Settings) (resource : String) (req : NewAuthRequest) (w : World) (ar : AuthRequestModel)
    (t : ℕ)
    → (create_auth_request cfg resource req w).0 ≡ ok ar
    → FitsInt64 req.max_age
    → t ≤ cfg.timestamptz ar.expires_at
    → (get_auth_request_model ar.id (later t (create_auth_request cfg resource req w).1)).0
      ≡ ok (kept_times cfg ar)
create_auth_request-get_auth_request_model cfg resource req w ar t created fits fresh =
    let (made, found, _) =
      Keeps-result (create_auth_request-Keeps cfg resource req) w ar tt tt created in
    let (id, at, same) = made in
    get-found ar.id (create_auth_request cfg resource req w).1 (row_of cfg ar) t found
      (rw (row_of-expires_at cfg ar) fresh)
    ∙ ap ok (
        ap (λ m. auth_request_model_from_row (row_of cfg m)) same
        ∙ model-row cfg resource req id at fits
        ∙ ap (kept_times cfg) (sym same))
