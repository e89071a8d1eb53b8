-- ===== src/Storage/Exec/Transactions.antt =====
-- The proof rules for a commit and for a transaction.
use authgate.Prelude.{true, false, List, [], ◌∷◌, Bool, Result, ok, err}
use authgate.Storage.Exec.{StoreError, State, World, Exec, ◌>>=◌, begin, commit, in_tx, rollback}
use authgate.Storage.Exec.Keeps.{Pred, After, Keeps, Always}

module _ {I P : Pred} where
  pub Keeps-commit_post :
      {Q : Pred}
      → ((s : State) → I s → P s → I (record s { db = s.tx }) × Q (record s { db = s.tx }))
      → Keeps I P commit (λ _. Q)
  unfolding commit
  Keeps-commit_post {Q} h = record { at = λ w i p. run w.faults w i p }
    where
      run :
          (fs : List Bool) (w : World)
          → I w.state
          → P w.state
          → After I (λ _. Q) (commit (record w { faults = fs }))
      run [] w i p = h w.state i p
      run (true ∷ fs) w i p = i
      run (false ∷ fs) w i p = h w.state i p

  pub Keeps-commit :
      ((s : State) → I s → P s → I (record s { db = s.tx })) → Keeps I P commit (λ _. Always)
  Keeps-commit h = Keeps-commit_post (λ s i p. (h s i p, tt))

  -- What the body establishes counts as the rollback leaves it. The body starts from what is committed.
  pub Keeps-in_tx_from :
      {A : Type 0} (P' : Pred) {Q R : A → Pred} {body : Exec A}
      → ((s : State) → I s → I (record s { tx = s.db }))
      → ((s : State) → P s → P' (record s { tx = s.db }))
      → ((a : A) (s : State) → Q a s → R a (record s { tx = s.db }))
      → Keeps I P' body Q
      → Keeps I P (in_tx body) R
  unfolding in_tx begin ◌>>=◌
  Keeps-in_tx_from {A} P' {Q} {R} {body} h pre post k = record { at = λ w i p. run w.faults w i p }
    where
      ended : (r : Result StoreError A) (v : World) → After I Q (r, v) → After I R (r, rollback v)
      ended (ok a) v (i, q) = (h v.state i, post a v.state q)
      ended (err e) v i = h v.state i

      run :
          (fs : List Bool) (w : World)
          → I w.state
          → P w.state
          → After I R (in_tx body (record w { faults = fs }))
      run [] w i p =
          let w' = record w { faults = []; state = record (w.state) { tx = w.db } } in
          let (r, v) = body w' in ended r v (k.at w' (h w.state i) (pre w.state p))
      run (true ∷ fs) w i p = h w.state i
      run (false ∷ fs) w i p =
          let w' = record w { faults = fs; state = record (w.state) { tx = w.db } } in
          let (r, v) = body w' in ended r v (k.at w' (h w.state i) (pre w.state p))

  pub Keeps-in_tx_post :
      {A : Type 0} {Q R : A → Pred} {body : Exec A}
      → ((s : State) → I s → I (record s { tx = s.db }))
      → ((a : A) (s : State) → Q a s → R a (record s { tx = s.db }))
      → Keeps I Always body Q
      → Keeps I P (in_tx body) R
  Keeps-in_tx_post h post k = Keeps-in_tx_from Always h (λ s p. tt) post k

  pub Keeps-in_tx :
      {A : Type 0} {Q : A → Pred} {body : Exec A}
      → ((s : State) → I s → I (record s { tx = s.db }))
      → Keeps I Always body Q
      → Keeps I P (in_tx body) (λ _. Always)
  Keeps-in_tx h k = Keeps-in_tx_post h (λ a s q. tt) k
