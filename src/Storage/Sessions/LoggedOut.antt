-- ===== src/Storage/Sessions/LoggedOut.antt =====
-- internal/storage/sessions.go: no session of an account is found after a logout.
use authgate.Prelude.{
  ℕ, ◌≡◌, ◌≢◌, inl, inr, refl, sym, ap, ◌∙◌, Bool, true, false, Option, none, some, List, [], ◌∷◌,
  String, str_eq, eq_iff, All, ◌==◌, arith, ok, Option-cases,
}
use authgate.Storage.Db.{Db, SessionRow}
use authgate.Storage.Rows.{find}
use authgate.Storage.Rows.Laws.{All-update, find-All, find-hit}
use authgate.Storage.Exec.{StoreError, World}
use authgate.Storage.Exec.Keeps.{
  Always, Keeps, Keeps-bind, Keeps-pure, Keeps-result, Keeps-now, Keeps-if, Keeps-or_fail,
  Keeps-autocommit, Keeps-audit_log,
}
use authgate.Storage.Settings.{Settings, User}
use authgate.Storage.Users.{build_user}
use authgate.Storage.AuthRequests.Kept.{later}
use authgate.Storage.Sessions.{
  is_valid_session, owner, get_valid_session_user, live_of, revoke_sessions_by_user_id,
  get_valid_session, terminate_session,
}

-- The account has no session that is not revoked.
abbrev pub IsLoggedOut : String → Db → Type 0
IsLoggedOut user d = All (λ s. live_of user s ≡ false) d.sessions

everything : (rows : List SessionRow) → All (λ s. Unit {0}) rows
everything [] = tt
everything (s ∷ rows) = (tt, everything rows)

terminate_session-Keeps :
    (user client : String)
    → Keeps Always Always (terminate_session user client) (λ _ s. IsLoggedOut user s.db)
unfolding terminate_session revoke_sessions_by_user_id
terminate_session-Keeps user client =
    Keeps-bind (λ _. Always) Keeps-now
      (λ at.
        Keeps-bind (λ _ s. IsLoggedOut user s.db)
          (Keeps-autocommit _ (λ s i p. (
            tt,
            All-update (λ s. Unit {0}) (λ s. live_of user s ≡ false) (live_of user)
                (λ s. record s { revoked_at = some at }) (λ s e h. ground arith) (λ s e h. e)
                s.db.sessions (everything s.db.sessions),
          )))
          (λ n.
            Keeps-if (n == 0) (λ e. Keeps-pure tt (λ s i p. p))
              (λ e. Keeps-audit_log (λ s row p. p) (λ s row p. p) _)))

-- The account of a session that is found is that of a session in the table.
owner_lem :
    (d : Db) (o : Option SessionRow) (u : User)
    → owner d o ≡ some u
    → (s : SessionRow) × (o ≡ some s) × (u.id ≡ s.user_id)
unfolding build_user
owner_lem d none u e = cc
owner_lem d (some s) u e = elim (Option-cases (find (λ r. str_eq r.id s.user_id) d.users)) [
  | inl missing ↦ absurd (ground (arith, e, missing))
  | inr (row, found) ↦ (
    s,
    refl,
    (let same : u ≡ build_user d.identities row = ground (arith, e, found) in
        ap (λ v. v.id) same
        ∙ (eq_iff row.id s.user_id).0 (find-hit (λ r. str_eq r.id s.user_id) d.users row found)),
  )
]

live_lem :
    (user hash : String) (at : ℕ) (s : SessionRow)
    → s.user_id ≡ user
    → live_of user s ≡ false
    → is_valid_session hash at s ≡ true
    → ⊥
live_lem user hash at s same dead found =
    ground (arith, (eq_iff s.user_id user).1 same, dead, found)

get_valid_session-owned :
    (cfg : Settings) (token user : String) (d : Db)
    → IsLoggedOut user d
    → Keeps Always (λ s. s.db ≡ d) (get_valid_session cfg token) (λ found s. found.0.id ≢ user)
unfolding get_valid_session get_valid_session_user
get_valid_session-owned cfg token user d none_live = Keeps-bind _ Keeps-now (λ at.
    Keeps-bind
      (λ found s.
        found
        ≡ owner d
            (find (is_valid_session (cfg.session_hash token) (cfg.timestamptz at)) d.sessions))
      (Keeps-autocommit _ (λ s i p. (
        tt,
        ap
            (λ e.
              owner e
                (find (is_valid_session (cfg.session_hash token) (cfg.timestamptz at)) e.sessions))
            p,
      )))
      (λ found.
        Keeps-bind (λ u s. u.id ≢ user)
          (Keeps-or_fail found _ (λ u s e i p same_id.
            let hash = cfg.session_hash token in
            let (row, hit, owned) =
              owner_lem d (find (is_valid_session hash (cfg.timestamptz at)) d.sessions) u
                (sym p ∙ e) in
            live_lem user hash (cfg.timestamptz at) row (sym owned ∙ same_id)
              (find-All (λ r. live_of user r ≡ false) (is_valid_session hash (cfg.timestamptz at))
                d.sessions row hit none_live)
              (find-hit (is_valid_session hash (cfg.timestamptz at)) d.sessions row hit)))
          (λ u. Keeps-pure _ (λ s i p. p))))

-- After a logout that returns without an error, no token finds a session of that account, at any time
-- and whatever statement fails.
pub terminate_session-get_valid_session :
    (cfg : Settings) (user client token : String) (w : World) (t : ℕ) (faults : List Bool)
    (found : User × Option StoreError)
    → (terminate_session user client w).0 ≡ ok tt
    → (get_valid_session cfg token
        (record (later t (terminate_session user client w).1) { faults = faults })).0
      ≡ ok found
    → found.0.id ≢ user
terminate_session-get_valid_session cfg user client token w t faults found ended returned =
    Keeps-result
      (get_valid_session-owned cfg token user ((terminate_session user client w).1.db)
        (Keeps-result (terminate_session-Keeps user client) w tt tt tt ended))
      (record (later t (terminate_session user client w).1) { faults = faults }) found tt refl
      returned
