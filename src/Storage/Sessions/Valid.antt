-- ===== src/Storage/Sessions/Valid.antt =====
-- internal/storage/sessions.go: a session is found until its lifetime is over.
use authgate.Prelude.{
  ℕ, ◌+◌, ◌<◌, ◌≡◌, inl, inr, refl, sym, ap, ◌∙◌, Bool, true, false, some, List, [], ◌∷◌, ◌++◌,
  String, str_eq, eq_iff, any, arith, ok, Bool-cases,
}
use authgate.Storage.Db.{Db, SessionRow, UserRow}
use authgate.Storage.Rows.{find}
use authgate.Storage.Exec.{World, ◌>>=◌, autocommit}
use authgate.Storage.Exec.Keeps.{
  Pred, Always, Keeps, Keeps-bind, Keeps-pure, Keeps-result, Keeps-or_fail,
}
use authgate.Storage.Exec.Posts.{Keeps-autocommit-some, Keeps-now_at, Keeps-take_id}
use authgate.Storage.Settings.{Settings, User}
use authgate.Storage.Users.{build_user}
use authgate.Storage.AuthRequests.Kept.{later, find-snoc}
use authgate.Storage.Sessions.{
  refused, insert_session, is_valid_session, owner, get_valid_session_user, new_session,
  create_session, get_valid_session, session_auth_time, same_hash, get_valid_session_created_at,
  require_usable_user,
}

any_weaker :
    {A : Type 0} (p q : A → Bool)
    → ((x : A) → q x ≡ true → p x ≡ true)
    → (xs : List A) → any p xs ≡ false
    → any q xs ≡ false
any_weaker p q h [] e = refl
any_weaker p q h (x ∷ xs) e = elim (Bool-cases (q x)) [
  | inl passes ↦ absurd (ground (arith, e, h x passes))
  | inr fails ↦ ground (arith, fails, any_weaker p q h xs (ground (arith, e)))
]

is_valid_session-new_session :
    (cfg : Settings) (id user_id token : String) (t ttl at : ℕ)
    → at < cfg.timestamptz (t + ttl)
    → is_valid_session (cfg.session_hash token) at (new_session cfg id user_id token t ttl) ≡ true
is_valid_session-new_session cfg id user_id token t ttl at fresh =
    ground (arith, fresh, (eq_iff (cfg.session_hash token) (cfg.session_hash token)).1 refl)

hash_free :
    (row : SessionRow) (d : Db)
    → refused row d ≡ false
    → any (same_hash row.token_hash) d.sessions ≡ false
hash_free row d free = ground (arith, free)

-- The tables after the insertion of a session.
abbrev Opened : Settings → String → String → String → ℕ → ℕ → Db → Db → Type 0
Opened cfg id user_id token t ttl d e =
    (e.users ≡ d.users)
    × (e.identities ≡ d.identities)
    × ((at : ℕ)
        → at < cfg.timestamptz (t + ttl)
        → find (is_valid_session (cfg.session_hash token) at) e.sessions
          ≡ some (new_session cfg id user_id token t ttl))

-- A new row has a hash of its own, so that it is the row found by it.
insert_session-Opened :
    (cfg : Settings) (id user_id token : String) (t ttl : ℕ) (d e : Db)
    → insert_session (new_session cfg id user_id token t ttl) d ≡ some (tt, e)
    → Opened cfg id user_id token t ttl d e
unfolding insert_session
insert_session-Opened cfg id user_id token t ttl d e inserted =
    let row = new_session cfg id user_id token t ttl in
    elim (Bool-cases (refused row d)) [
      | inl taken ↦ absurd (ground (arith, inserted, taken))
      | inr free ↦
          let same : e ≡ record d { sessions = d.sessions ++ row ∷ [] } =
            ground (arith, inserted, free) in
          rw same (
            refl,
            refl,
            λ at fresh.
                find-snoc (is_valid_session (cfg.session_hash token) at) d.sessions row
                  (any_weaker (same_hash row.token_hash)
                    (is_valid_session (cfg.session_hash token) at) (λ s e. ground (arith, e))
                    d.sessions (hash_free row d free))
                  (is_valid_session-new_session cfg id user_id token t ttl at fresh),
          )
    ]

inserted_at :
    (cfg : Settings) (id user_id token : String) (at t ttl : ℕ) (before d e : Db)
    → before ≡ d
    → at ≡ t
    → insert_session (new_session cfg id user_id token at ttl) before ≡ some (tt, e)
    → Opened cfg id user_id token t ttl d e
inserted_at cfg id user_id token at t ttl before d e same here inserted =
    insert_session-Opened cfg id user_id token t ttl d e (rw (sym same, sym here) inserted)

abbrev Made : Settings → String → ℕ → Db → ℕ → String → Pred
Made cfg user_id ttl d t token s = (id : String) × Opened cfg id user_id token t ttl d s.db

abbrev At : Db → ℕ → Pred
At d t s = (s.db ≡ d) × (s.now ≡ t)

create_session-Keeps :
    (cfg : Settings) (user_id : String) (ttl : ℕ) (d : Db) (t : ℕ)
    → Keeps Always (At d t) (create_session cfg user_id ttl) (Made cfg user_id ttl d t)
unfolding create_session
create_session-Keeps cfg user_id ttl d t =
    Keeps-bind (λ _. At d t) (Keeps-take_id (λ s i. tt) (λ s p. p))
      (λ n.
        Keeps-bind (λ _. At d t) (Keeps-or_fail (cfg.opaque_token n) _ (λ _ s e i p. p))
          (λ token.
            Keeps-bind (λ at s. At d t s × (s.now ≡ at)) Keeps-now_at
              (λ at.
                Keeps-bind (λ _ s. At d t s × (s.now ≡ at)) (Keeps-take_id (λ s i. tt) (λ s p. p))
                  (λ m.
                    Keeps-bind (λ _ s. Made cfg user_id ttl d t token s)
                      (Keeps-autocommit-some _ (λ s a e i p inserted. (
                        tt,
                        (
                          cfg.uuid m,
                          inserted_at cfg (cfg.uuid m) user_id token at t ttl s.db d e p.0.0
                              (sym p.1 ∙ p.0.1) inserted,
                        ),
                      )))
                      (λ _. Keeps-pure token (λ s i p. p))))))

find-owner :
    (d e : Db) (user_id : String) (row : UserRow) (s : SessionRow)
    → e.users ≡ d.users
    → e.identities ≡ d.identities
    → s.user_id ≡ user_id
    → find (λ u. str_eq u.id user_id) d.users ≡ some row
    → owner e (some s) ≡ some (build_user d.identities row)
find-owner d e user_id row s users identities same found =
    let here : find (λ u. str_eq u.id s.user_id) e.users ≡ some row =
      ap (λ us. find (λ u. str_eq u.id s.user_id) us) users
      ∙ ap (λ x. find (λ u. str_eq u.id x) d.users) same
      ∙ found in
    rw (owner, here) (ap (λ is. some (build_user is row)) identities)

looked_up :
    (cfg : Settings) (token : String) (w : World) (t : ℕ) (s : SessionRow) (u : User)
    → find (is_valid_session (cfg.session_hash token) (cfg.timestamptz t)) w.db.sessions ≡ some s
    → owner w.db (some s) ≡ some u
    → ((get_valid_session cfg token (later t w)).0 ≡ ok (u, require_usable_user u))
      × ((session_auth_time cfg token (later t w)).0 ≡ ok s.created_at)
unfolding get_valid_session session_auth_time get_valid_session_user get_valid_session_created_at
    autocommit ◌>>=◌
looked_up cfg token w t s u found owned = (rw (found, owned) refl, rw found refl)

-- While nothing else is written, so with no logout in between, the token of a session that is created for
-- an account finds that account, with an error beside it if it is closed, and the time of the login as a
-- timestamptz column keeps it, until the expiry in the session's row, by the clock as a statement is given
-- it.
pub create_session-get_valid_session :
    (cfg : Settings) (user_id token : String) (ttl : ℕ) (w : World) (row : UserRow) (t : ℕ)
    → (create_session cfg user_id ttl w).0 ≡ ok token
    → find (λ u. str_eq u.id user_id) w.db.users ≡ some row
    → cfg.timestamptz t < cfg.timestamptz (w.now + ttl)
    → ((get_valid_session cfg token (later t (create_session cfg user_id ttl w).1)).0
        ≡ ok (build_user w.db.identities row, require_usable_user (build_user w.db.identities row)))
      × ((session_auth_time cfg token (later t (create_session cfg user_id ttl w).1)).0
          ≡ ok (cfg.timestamptz w.now))
create_session-get_valid_session cfg user_id token ttl w row t opened found fresh =
    let (id, (users, identities, kept)) =
      Keeps-result (create_session-Keeps cfg user_id ttl w.db w.now) w token tt (refl, refl)
        opened in
    looked_up cfg token (create_session cfg user_id ttl w).1 t
      (new_session cfg id user_id token w.now ttl) (build_user w.db.identities row)
      (kept (cfg.timestamptz t) fresh)
      (find-owner w.db ((create_session cfg user_id ttl w).1.db) user_id row
        (new_session cfg id user_id token w.now ttl) users identities refl found)
