-- ===== src/Storage/Exec.antt =====
-- Database transactions that may fail at every statement, as actions on a world.
-- `db` is what is committed, `tx` what the open transaction sees. Each statement takes the next
-- entry of `faults`: `true` is a failure of the connection, and the empty list means no failure.
-- The clock stands still during one operation.
pub mod Keeps
pub mod Transactions
pub mod Posts
use authgate.Prelude.{
  ℕ, ◌+◌, Bool, true, false, Option, none, some, List, [], ◌∷◌, ◌++◌, String, Result, ok, err,
  if◌then◌else◌,
}
use authgate.Storage.Db.{Db, AuditRow}

pub data StoreError : Type 0 where
  -- An error of the database driver.
  database : StoreError
  not_found user_account_closed email_conflict : StoreError
  -- op.ErrInvalidRefreshToken.
  invalid_refresh_token : StoreError
  -- context.DeadlineExceeded, which the provider answers as slow_down.
  slow_down : StoreError
  -- An *oidc.Error with its error type.
  oauth : String → StoreError
  -- Any other error value.
  other : String → StoreError

pub record State : Type 0 where
  pub db : Db
  pub tx : Db
  pub now : ℕ
  -- How many ids the generator has given out.
  pub next_id : ℕ

pub record World : Type 0 where
  pub state : State
  pub open state use *
  pub faults : List Bool

abbrev pub Exec : Type 0 → Type 0
Exec A = World → Result StoreError A × World

module _ {A : Type 0} where
  abbrev pub pure : A → Exec A
  pure a w = (ok a, w)

  abbrev pub fail : StoreError → Exec A
  fail e w = (err e, w)

  -- An error of the driver at a statement, by the fault that is next.
  abbrev pub statement :
      (World → Result StoreError A × World) → List Bool → World → Result StoreError A × World
  statement run [] w = run w
  statement run (true ∷ rest) w = (err database, record w { faults = rest })
  statement run (false ∷ rest) w = run (record w { faults = rest })

  abbrev pub settle : World → Option (A × Db) → Result StoreError A × World
  settle w none = (err database, w)
  settle w (some (a, d)) = (ok a, record w { state = record (w.state) { tx = d } })

  -- A statement in the open transaction; `none` is a violated constraint.
  unfoldable pub query : (Db → Option (A × Db)) → Exec A
  query f w = statement (λ v. settle v (f v.tx)) w.faults w

  abbrev pub settle_both : World → Option (A × Db) → Result StoreError A × World
  settle_both w none = (err database, w)
  settle_both w (some (a, d)) = (ok a, record w { state = record (w.state) { db = d; tx = d } })

  -- A statement on its own connection while no transaction is open.
  unfoldable pub autocommit : (Db → Option (A × Db)) → Exec A
  autocommit f w = statement (λ v. settle_both v (f v.db)) w.faults w

module _ {A B : Type 0} where
  abbrev pub continue : Result StoreError A → (A → Exec B) → Exec B
  continue (ok a) f w = f a w
  continue (err e) f w = (err e, w)

  infixl 5 ◌>>=◌ ◌>>◌
  unfoldable pub ◌>>=◌ : Exec A → (A → Exec B) → Exec B
  ◌>>=◌ m f w = let (r, w') = m w in continue r f w'

  abbrev pub ◌>>◌ : Exec A → Exec B → Exec B
  m >> n = m >>= λ _. n

unfoldable pub begin : Exec (Unit {0})
begin w = statement (λ v. (ok tt, record v { state = record (v.state) { tx = v.db } })) w.faults w

unfoldable pub commit : Exec (Unit {0})
commit w = statement (λ v. (ok tt, record v { state = record (v.state) { db = v.tx } })) w.faults w

abbrev pub rollback : World → World
rollback w = record w { state = record (w.state) { tx = w.db } }

-- BeginTx with the deferred Rollback, which does nothing after a commit.
unfoldable pub in_tx : {A : Type 0} → Exec A → Exec A
unfolding begin ◌>>=◌
in_tx body w = let (r, w') = (begin >> body) w in (r, rollback w')

abbrev pub log_row : AuditRow → Db → Db
log_row row d = record d { audit_log = d.audit_log ++ row ∷ [] }

abbrev pub log_both : AuditRow → State → State
log_both row s = record s { db = log_row row s.db; tx = log_row row s.tx }

-- The audit row goes through a connection of its own: a failure is only logged.
unfoldable pub audit_log : AuditRow → Exec (Unit {0})
audit_log row w = (
  ok tt,
  elim w.faults [
    | [] ↦ record w { state = log_both row w.state }
    | true ∷ rest ↦ record w { faults = rest }
    | false ∷ rest ↦ record { state = log_both row w.state; faults = rest }
  ],
)

-- The same in the open transaction, where a failure is an error.
abbrev pub audit_log_tx : AuditRow → Exec (Unit {0})
audit_log_tx row = query λ d. some (tt, log_row row d)

abbrev pub now : Exec ℕ
now w = (ok w.now, w)

-- The next number for the id generator.
abbrev pub take_id : Exec ℕ
take_id w = (ok w.next_id, record w { state = record (w.state) { next_id = w.next_id + 1 } })

-- `errors.Is(err, sql.ErrNoRows)` on a `:one` query.
abbrev pub or_fail : {A : Type 0} → Option A → StoreError → Exec A
or_fail none e = fail e
or_fail (some a) e = pure a

abbrev pub guard : Bool → StoreError → Exec (Unit {0})
guard true e = pure tt
guard false e = fail e

-- The errors of an action, replaced.
unfoldable pub map_err : {A : Type 0} → (StoreError → StoreError) → Exec A → Exec A
map_err f m w = let (r, w') = m w in (elim r [ ok a ↦ ok a | err e ↦ err (f e) ], w')
