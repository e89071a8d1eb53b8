-- ===== src/Storage/Exec/Posts.antt =====
-- More proof rules for actions: what a statement that a constraint may refuse, a guard and the clock
-- leave known.
use authgate.Prelude.{◌≡◌, refl, Bool, true, false, Option, none, some, List, [], ◌∷◌, ◌+◌}
use authgate.Storage.Db.{Db}
use authgate.Storage.Exec.{
  StoreError, State, World, Exec, autocommit, statement, settle_both, now, guard, take_id,
}
use authgate.Storage.Exec.Keeps.{Pred, After, Keeps, Keeps-pure, Keeps-fail}

module _ {A : Type 0} {I P : Pred} {Q : A → Pred} where
  -- A statement on its own connection, which a constraint may refuse.
  pub Keeps-autocommit-some :
      (f : Db → Option (A × Db))
      → ((s : State) (a : A) (d : Db)
          → I s
          → P s
          → f s.db ≡ some (a, d)
          → I (record s { db = d; tx = d }) × Q a (record s { db = d; tx = d }))
      → Keeps I P (autocommit f) Q
  unfolding autocommit
  Keeps-autocommit-some f h = record { at = λ w i p. run w.faults w i p }
    where
      settled :
          (v : World) (r : Option (A × Db))
          → I v.state
          → ((a : A) (d : Db)
              → r ≡ some (a, d)
              → I (record (v.state) { db = d; tx = d }) × Q a (record (v.state) { db = d; tx = d }))
          → After I Q (settle_both v r)
      settled v none i k = i
      settled v (some (a, d)) i k = k a d refl

      run :
          (fs : List Bool) (w : World)
          → I w.state
          → P w.state
          → After I Q (statement (λ v. settle_both v (f v.db)) fs w)
      run [] w i p = settled w (f w.db) i (λ a d e. h w.state a d i p e)
      run (true ∷ fs) w i p = i
      run (false ∷ fs) w i p =
          settled (record w { faults = fs }) (f w.db) i (λ a d e. h w.state a d i p e)

module _ {I P : Pred} where
  -- A guard that returns has passed its test.
  pub Keeps-guard_passed :
      (b : Bool) (e : StoreError) → Keeps I P (guard b e) (λ _ s. P s × (b ≡ true))
  Keeps-guard_passed true e = Keeps-pure tt (λ s i p. (p, refl))
  Keeps-guard_passed false e = Keeps-fail e

  pub Keeps-now_at : Keeps I P now (λ at s. P s × (s.now ≡ at))
  Keeps-now_at = record { at = λ w i p. (i, (p, refl)) }

  pub Keeps-take_id :
      ((s : State) → I s → I (record s { next_id = s.next_id + 1 }))
      → ((s : State) → P s → P (record s { next_id = s.next_id + 1 }))
      → Keeps I P take_id (λ _. P)
  Keeps-take_id is ps = record { at = λ w i p. (is w.state i, ps w.state p) }

  -- What the precondition says of anything but the state is known throughout.
  pub Keeps-known :
      {A : Type 0} {R : Pred} {Q : A → Pred} {m : Exec A} (Fact : Type 0)
      → ((s : State) → P s → R s × Fact)
      → (Fact → Keeps I R m Q)
      → Keeps I P m Q
  Keeps-known fact h k = record { at = λ w i p. (k (h w.state p).1).at w i ((h w.state p).0) }
