-- ===== src/Storage/Cleanup/Purged.antt =====
-- The deletion of an account is all or nothing.
use mathlib.Core.Path.{subst}
use authgate.Prelude.{
  ℕ, if◌then◌else◌, ◌≡◌, ◌⊎◌, inl, inr, refl, sym, ap, Bool, true, false, not, Option, none, some,
  List, [], ◌∷◌, String, str_eq, ◌==◌, any, All, Bool-cases, Result-cases, err, arith,
}
use authgate.Storage.Db.{Db}
use authgate.Storage.Rows.Laws.{remove-All}
use authgate.Storage.Rows.{count, update, remove}
use authgate.Storage.Exec.{StoreError, State, World, Exec, pure, query, log_row, audit_log}
use authgate.Storage.Exec.Keeps.{
  Pred, Keeps, Keeps-query_total, Keeps-bind, Keeps-pure, Keeps-fail, Keeps-if, Keeps-result,
  Keeps-state, Keeps-weaken, Keeps-audit_log_post,
}
use authgate.Storage.Exec.Transactions.{Keeps-in_tx_from, Keeps-commit_post}
use authgate.Storage.Cleanup.Account.{
  due, scrubbed, mark_user_deleted_by_id, delete_user_identities_by_user_id,
  delete_sessions_by_user_id, delete_refresh_tokens_by_user_id, run_hook, or_hook_error, completed,
  delete_children, delete_user,
}

-- The tables as a whole deletion leaves them: the account is scrubbed, its rows are gone, and those of
-- the others stand.
abbrev pub purged : ℕ → String → Db → Db
purged at id d = record d {
  users = update (due at id) (scrubbed at) d.users;
  identities = remove (λ r. str_eq r.user_id id) d.identities;
  sessions = remove (λ r. str_eq r.user_id id) d.sessions;
  refresh_tokens = remove (λ r. str_eq r.user_id id) d.refresh_tokens;
}

-- The deletion has happened, with its audit row or without.
abbrev pub IsPurged : ℕ → String → Db → Db → Type 0
IsPurged at id before after =
    (any (due at id) before.users ≡ true)
    × ((after ≡ purged at id before) ⊎ (after ≡ log_row (completed at id) (purged at id before)))

count-any : {A : Type 0} (p : A → Bool) (rows : List A) → any p rows ≡ not (count p rows == 0)
unfolding count
count-any p [] = refl
count-any p (r ∷ rows) = ground (arith, count-any p rows)

module _ (at : ℕ) (id : String) (d : Db) where
  Kept : Pred
  Kept st = (st.db ≡ d) ⊎ IsPurged at id d st.db

  -- Nothing is committed yet, and the transaction has got so far.
  abbrev Stage : Db → Pred
  Stage e st = (st.db ≡ d) × (st.tx ≡ e)

  -- A statement that takes the transaction on.
  step :
      {A : Type 0} (g : Db → A × Db) (e : Db)
      → Keeps Kept (Stage e) (query (λ t. some (g t))) (λ a st. (a ≡ (g e).0) × Stage (g e).1 st)
  unfolding Kept
  step g e =
      Keeps-query_total g (λ st i p. (i, (ap (λ t. (g t).0) p.1, (p.0, ap (λ t. (g t).1) p.1))))

  next :
      {A : Type 0} (g : Db → A × Db) (e : Db)
      → Keeps Kept (Stage e) (query (λ t. some (g t))) (λ _. Stage (g e).1)
  next g e = Keeps-weaken (step g e) (λ a st i q. q.1)

  abbrev marked : Db
  marked = record d { users = update (due at id) (scrubbed at) d.users }

  -- By whether the account was due, and so deleted.
  abbrev Deleted : Bool → Pred
  Deleted true st = (any (due at id) d.users ≡ true) × (st.db ≡ purged at id d)
  Deleted false st = (any (due at id) d.users ≡ false) × (st.db ≡ d)

  or_hook_error-Keeps : (o : Option StoreError) (P : Pred) → Keeps Kept P (or_hook_error o) (λ _. P)
  or_hook_error-Keeps none P = Keeps-pure tt (λ st i p. p)
  or_hook_error-Keeps (some e) P = Keeps-fail e

  run_hook-Keeps :
      (hook : Option (String → Option StoreError)) (P : Pred)
      → Keeps Kept P (run_hook hook id) (λ _. P)
  run_hook-Keeps none P = Keeps-pure tt (λ st i p. p)
  run_hook-Keeps (some hook) P = or_hook_error-Keeps (hook id) P

  delete_children-Keeps :
      (hook : Option (String → Option StoreError))
      → any (due at id) d.users ≡ true
      → Keeps Kept (Stage marked) (delete_children hook id) Deleted
  unfolding delete_children delete_user_identities_by_user_id delete_sessions_by_user_id
      delete_refresh_tokens_by_user_id Kept
  delete_children-Keeps hook is_due =
      Keeps-bind (λ _. Stage _) (next _ marked)
        (λ _.
          Keeps-bind (λ _. Stage _) (next _ _)
            (λ _.
              Keeps-bind (λ _. Stage (purged at id d)) (next _ _)
                (λ _.
                  Keeps-bind (λ _. Stage (purged at id d)) (next _ (purged at id d))
                    (λ _.
                      Keeps-bind (λ _. Stage (purged at id d)) (run_hook-Keeps hook _)
                        (λ _.
                          Keeps-bind (λ _ st. st.db ≡ purged at id d)
                            (Keeps-commit_post (λ st i p. (inr (is_due, inl p.1), p.1)))
                            (λ _. Keeps-pure true (λ st i p. (is_due, p))))))))

  known :
      {A : Type 0} {F : Type 0} {I P : Pred} {Q : A → Pred} {m : Exec A}
      → (F → Keeps I P m Q)
      → Keeps I (λ st. F × P st) m Q
  known k = record { at = λ w i p. (k p.0).at w i p.1 }

  finish-Keeps :
      (b : Bool)
      → Keeps Kept
          (Deleted b)
          (if b then audit_log (completed at id) else pure tt)
          (λ _ st. any (due at id) d.users ≡ true → IsPurged at id d st.db)
  unfolding Kept
  finish-Keeps true =
      Keeps-audit_log_post (completed at id)
        (λ st i p.
          let done : IsPurged at id d (log_row (completed at id) st.db) =
            (p.0, inr (ap (λ e. log_row (completed at id) e) p.1)) in
          (inr done, λ is_due. done))
        (λ st i p is_due. (p.0, inl p.1))
  finish-Keeps false = Keeps-pure tt (λ st i p is_due. absurd (ground (arith, p.0, is_due)))

  -- An account that is due is gone once the call returns without an error.
  delete_user-Keeps :
      (hook : Option (String → Option StoreError))
      → Keeps Kept
          (λ st. st.db ≡ d)
          (delete_user hook id at)
          (λ _ st. any (due at id) d.users ≡ true → IsPurged at id d st.db)
  unfolding delete_user mark_user_deleted_by_id Kept
  delete_user-Keeps hook =
      Keeps-bind Deleted
        (Keeps-in_tx_from (Stage d) (λ st i. i) (λ st p. (p, p)) deleted_stays
          (Keeps-bind (λ rows st. (rows ≡ count (due at id) d.users) × Stage marked st) (step _ d)
            (λ rows. known (λ counted.
              Keeps-if (rows == 0)
                (λ e.
                  Keeps-pure false
                    (λ st i p. (ground (arith, e, counted, count-any (due at id) d.users), p.0)))
                (λ e.
                  delete_children-Keeps hook
                    (ground (arith, e, counted, count-any (due at id) d.users)))))))
        finish-Keeps
    where
      deleted_stays : (b : Bool) (st : State) → Deleted b st → Deleted b (record st { tx = st.db })
      deleted_stays true st q = q
      deleted_stays false st q = q

-- The account has no identity, session or refresh token.
abbrev pub IsGone : String → Db → Type 0
IsGone id d =
    All (λ r. str_eq r.user_id id ≡ false) d.identities
    × All (λ r. str_eq r.user_id id ≡ false) d.sessions
    × All (λ r. str_eq r.user_id id ≡ false) d.refresh_tokens

IsPurged-IsGone :
    (at : ℕ) (id : String) (before after : Db) → IsPurged at id before after → IsGone id after
IsPurged-IsGone at id before after (is_due, inl e) =
    subst (λ d. IsGone id d) (sym e) (remove-All _ _, remove-All _ _, remove-All _ _)
IsPurged-IsGone at id before after (is_due, inr e) =
    subst (λ d. IsGone id d) (sym e) (remove-All _ _, remove-All _ _, remove-All _ _)

-- Whatever statement fails, and whatever the hook says, a deletion that was due happens as a whole, so that
-- the account is scrubbed and no identity, session or refresh token of it is left, or the committed
-- tables are as they were, and then the account was not due or the call answers with an error.
pub delete_user_all_or_nothing :
    (hook : Option (String → Option StoreError)) (id : String) (at : ℕ) (w : World)
    → let (r, w') = delete_user hook id at w in
      (IsPurged at id w.db w'.db × IsGone id w'.db)
      ⊎ ((w'.db ≡ w.db) × ((any (due at id) w.db.users ≡ false) ⊎ ((e : StoreError) × (r ≡ err e))))
unfolding Kept
delete_user_all_or_nothing hook id at w =
    let k = delete_user-Keeps at id w.db hook in
    let w' = (delete_user hook id at w).1 in
    let gone : IsPurged at id w.db w'.db → IsPurged at id w.db w'.db × IsGone id w'.db =
      λ done. (done, IsPurged-IsGone at id w.db w'.db done) in
    elim (Keeps-state k w (inl refl) refl) [
      | inr done ↦ inl (gone done)
      | inl same ↦ elim (Result-cases (delete_user hook id at w).0) [
        | inl (e, failed) ↦ inr (same, inr (e, failed))
        | inr (done, returned) ↦ elim (Bool-cases (any (due at id) w.db.users)) [
          | inl is_due ↦ inl (gone (Keeps-result k w done (inl refl) refl returned is_due))
          | inr not_due ↦ inr (same, inl not_due)
        ]
      ]
    ]
