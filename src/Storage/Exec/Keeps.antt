-- ===== src/Storage/Exec/Keeps.antt =====
-- Invariants and postconditions of actions, one rule for each way to build an action.
use authgate.Prelude.{
  ◌≡◌, sym, refl, true, false, none, some, Option, List, [], ◌∷◌, Bool, Result, ok, err,
  if◌then◌else◌,
}
use authgate.Storage.Db.{Db, AuditRow}
use authgate.Storage.Exec.{
  StoreError, State, World, Exec, pure, fail, query, autocommit, statement, settle, settle_both,
  continue, ◌>>=◌, audit_log, now, or_fail, guard, map_err, log_both,
}

abbrev pub Pred : Type 1
Pred = State → Type 0

-- What holds after an action: `I` in any case, and `Q` of a value that it returns.
abbrev pub After : {A : Type 0} → Pred → (A → Pred) → Result StoreError A × World → Type 0
After I Q (ok a, w) = I w.state × Q a w.state
After I Q (err e, w) = I w.state

-- From `I` and `P` the action keeps `I`, and establishes `Q` if it returns.
pub record Keeps {A : Type 0} (I P : Pred) (m : Exec A) (Q : A → Pred) : Type 0 where
  pub at : (w : World) → I w.state → P w.state → After I Q (m w)

abbrev pub Always : Pred
Always s = Unit

abbrev pub set_tx : State → Db → State
set_tx s d = record s { tx = d }

module _ {A : Type 0} {I P : Pred} {Q : A → Pred} where
  pub Keeps-pure : (a : A) → ((s : State) → I s → P s → Q a s) → Keeps I P (pure a) Q
  Keeps-pure a h = record { at = λ w i p. (i, h w.state i p) }

  pub Keeps-fail : (e : StoreError) → Keeps I P (fail e) Q
  Keeps-fail e = record { at = λ w i p. i }

  pub Keeps-query :
      (f : Db → Option (A × Db))
      → ((s : State) (a : A) (d : Db)
          → I s
          → P s
          → f s.tx ≡ some (a, d)
          → I (set_tx s d) × Q a (set_tx s d))
      → Keeps I P (query f) Q
  unfolding query
  Keeps-query f h = record { at = λ w i p. run w.faults w i p }
    where
      settled :
          (v : World) (r : Option (A × Db))
          → I v.state
          → ((a : A) (d : Db) → r ≡ some (a, d) → I (set_tx v.state d) × Q a (set_tx v.state d))
          → After I Q (settle v r)
      settled v none i k = i
      settled v (some (a, d)) i k = k a d refl

      run :
          (fs : List Bool) (w : World)
          → I w.state
          → P w.state
          → After I Q (statement (λ v. settle v (f v.tx)) fs w)
      run [] w i p = settled w (f w.tx) i (λ a d e. h w.state a d i p e)
      run (true ∷ fs) w i p = i
      run (false ∷ fs) w i p =
          settled (record w { faults = fs }) (f w.tx) i (λ a d e. h w.state a d i p e)

module _ {A B : Type 0} {I P : Pred} (Q : A → Pred) {R : B → Pred} where
  pub Keeps-bind :
      {m : Exec A} {f : A → Exec B}
      → Keeps I P m Q
      → ((a : A) → Keeps I (Q a) (f a) R)
      → Keeps I P (m >>= f) R
  unfolding ◌>>=◌
  Keeps-bind {m} {f} km kf = record { at = λ w i p. let (r, v) = m w in next r v (km.at w i p) }
    where
      next : (r : Result StoreError A) (v : World) → After I Q (r, v) → After I R (continue r f v)
      next (ok a) v h = (kf a).at v h.0 h.1
      next (err e) v h = h

module _ {A : Type 0} {I P : Pred} {Q : A → Pred} where
  -- A statement that no constraint refuses.
  pub Keeps-query_total :
      (g : Db → A × Db)
      → ((s : State) → I s → P s → I (set_tx s (g s.tx).1) × Q (g s.tx).0 (set_tx s (g s.tx).1))
      → Keeps I P (query (λ d. some (g d))) Q
  unfolding query
  Keeps-query_total g h = record { at = λ w i p. run w.faults w i p }
    where
      run :
          (fs : List Bool) (w : World)
          → I w.state
          → P w.state
          → After I Q (statement (λ v. settle v (some (g v.tx))) fs w)
      run [] w i p = h w.state i p
      run (true ∷ fs) w i p = i
      run (false ∷ fs) w i p = h w.state i p

  pub Keeps-autocommit :
      (g : Db → A × Db)
      → ((s : State)
          → I s
          → P s
          → I (record s { db = (g s.db).1; tx = (g s.db).1 })
            × Q (g s.db).0 (record s { db = (g s.db).1; tx = (g s.db).1 }))
      → Keeps I P (autocommit (λ d. some (g d))) Q
  unfolding autocommit
  Keeps-autocommit g h = record { at = λ w i p. run w.faults w i p }
    where
      run :
          (fs : List Bool) (w : World)
          → I w.state
          → P w.state
          → After I Q (statement (λ v. settle_both v (some (g v.db))) fs w)
      run [] w i p = h w.state i p
      run (true ∷ fs) w i p = i
      run (false ∷ fs) w i p = h w.state i p

  pub Keeps-weaken :
      {R : A → Pred} {m : Exec A}
      → Keeps I P m Q
      → ((a : A) (s : State) → I s → Q a s → R a s)
      → Keeps I P m R
  Keeps-weaken {R} {m} k h = record { at = λ w i p. let (r, v) = m w in weak r v (k.at w i p) }
    where
      weak : (r : Result StoreError A) (v : World) → After I Q (r, v) → After I R (r, v)
      weak (ok a) v (i, q) = (i, h a v.state i q)
      weak (err e) v i = i

  pub Keeps-require :
      {P' : Pred} {m : Exec A} → ((s : State) → I s → P' s → P s) → Keeps I P m Q → Keeps I P' m Q
  Keeps-require h k = record { at = λ w i p. k.at w i (h w.state i p) }

  pub Keeps-map_err :
      {m : Exec A} (f : StoreError → StoreError) → Keeps I P m Q → Keeps I P (map_err f m) Q
  unfolding map_err
  Keeps-map_err {m} f k = record { at = λ w i p. let (r, v) = m w in again r v (k.at w i p) }
    where
      again :
          (r : Result StoreError A) (v : World)
          → After I Q (r, v)
          → After I Q (elim r [ ok a ↦ ok a | err e ↦ err (f e) ], v)
      again (ok a) v h = h
      again (err e) v h = h

  -- The state of the invariant, whatever the result.
  pub Keeps-state :
      {m : Exec A} → Keeps I P m Q → (w : World) → I w.state → P w.state → I ((m w).1).state
  Keeps-state {m} k w i p = let (r, v) = m w in kept r v (k.at w i p)
    where
      kept : (r : Result StoreError A) (v : World) → After I Q (r, v) → I v.state
      kept (ok a) v h = h.0
      kept (err e) v h = h

-- Actions that change no table but the audit log.
abbrev pub Stable : Pred → Type 0
Stable P = (s : State) (row : AuditRow) → P s → P (log_both row s)

module _ {I P : Pred} where
  pub Keeps-or_fail :
      {A : Type 0} {Q : A → Pred} (o : Option A) (e : StoreError)
      → ((a : A) (s : State) → o ≡ some a → I s → P s → Q a s)
      → Keeps I P (or_fail o e) Q
  Keeps-or_fail none e h = Keeps-fail e
  Keeps-or_fail (some a) e h = Keeps-pure a (λ s i p. h a s refl i p)

  pub Keeps-guard : (b : Bool) (e : StoreError) → Keeps I P (guard b e) (λ _. P)
  Keeps-guard true e = Keeps-pure tt (λ s i p. p)
  Keeps-guard false e = Keeps-fail e

  pub Keeps-if :
      {A : Type 0} {Q : A → Pred} {m n : Exec A} (b : Bool)
      → (b ≡ true → Keeps I P m Q)
      → (b ≡ false → Keeps I P n Q)
      → Keeps I P (if b then m else n) Q
  Keeps-if true km kn = km refl
  Keeps-if false km kn = kn refl

  pub Keeps-now : Keeps I P now (λ _. P)
  Keeps-now = record { at = λ w i p. (i, p) }

  -- The audit log is written on its own connection, or not.
  pub Keeps-audit_log_post :
      {Q : Pred} (row : AuditRow)
      → ((s : State) → I s → P s → I (log_both row s) × Q (log_both row s))
      → ((s : State) → I s → P s → Q s)
      → Keeps I P (audit_log row) (λ _. Q)
  unfolding audit_log
  Keeps-audit_log_post {Q} row logged lost = record { at = λ w i p. run w.faults w i p }
    where
      run :
          (fs : List Bool) (w : World)
          → I w.state
          → P w.state
          → After I (λ _. Q) (audit_log row (record w { faults = fs }))
      run [] w i p = logged w.state i p
      run (true ∷ fs) w i p = (i, lost w.state i p)
      run (false ∷ fs) w i p = logged w.state i p

  pub Keeps-audit_log : Stable I → Stable P → (row : AuditRow) → Keeps I P (audit_log row) (λ _. P)
  Keeps-audit_log is ps row =
      Keeps-audit_log_post row (λ s i p. (is s row i, ps s row p)) (λ s i p. p)

-- The postcondition at a value that was returned.
pub Keeps-result :
    {A : Type 0} {I P : Pred} {Q : A → Pred} {m : Exec A}
    → Keeps I P m Q
    → (w : World) (a : A) → I w.state
    → P w.state
    → (m w).0 ≡ ok a
    → Q a ((m w).1.state)
Keeps-result {A} {I} {P} {Q} {m} k w a i p e = let (r, v) = m w in returned r v (k.at w i p) e
  where
    returned : (r : Result StoreError A) (v : World) → After I Q (r, v) → r ≡ ok a → Q a v.state
    returned (ok b) v (j, q) e = let eq : b ≡ a = cc in rw (sym eq) q
    returned (err x) v j e = absurd (cc)
