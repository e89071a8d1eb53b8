-- ===== src/Storage/Refresh/CodeOnce.antt =====
-- An authorization code is exchanged at most once, for an access token alone or with a refresh token.
use mathlib.Core.Path.{subst}
use authgate.Prelude.{
  ◌≡◌, ◌⊎◌, inl, inr, refl, sym, ap, ◌∙◌, ℕ, ◌≤◌, Bool, true, false, some, List, [], ◌∷◌, String,
  str_eq, Result, ok, err, arith, All, Any, Bool-cases, ◌==◌,
}
use authgate.Storage.Db.{Db, AuthRequestRow, RefreshRow}
use authgate.Storage.Rows.{count, remove}
use authgate.Storage.Rows.Laws.{remove-All}
use authgate.Storage.Exec.{StoreError, State, World, query}
use authgate.Storage.Exec.Keeps.{
  Pred, Always, Keeps, Keeps-bind, Keeps-pure, Keeps-if, Keeps-query, Keeps-query_total,
  Keeps-autocommit, Keeps-weaken, Keeps-now, Keeps-or_fail, Keeps-audit_log, Keeps-result,
}
use authgate.Storage.Exec.Posts.{Keeps-guard_passed, Keeps-now_at, Keeps-take_id}
use authgate.Storage.Exec.Transactions.{Keeps-commit_post, Keeps-in_tx_from}
use authgate.Storage.Settings.{Settings, AuthRequestModel, auth_request}
use authgate.Storage.Refresh.Tables.{insert_refresh_token}
use authgate.Storage.Refresh.Consume.{audit_refresh_reuse_grace}
use authgate.Storage.Refresh.Issue.{
  consumable, consume_auth_code, consume_auth_code_rows, create_access_token, code_of, attributes,
  issue, create_access_and_refresh_tokens,
}

-- How a code is exchanged: by CreateAccessToken, or by CreateAccessAndRefreshTokens without a current
-- refresh token, for a resource of the request's context.
pub data Way : Type 0 where
  access_only : Way
  with_refresh : String → Way

abbrev succeeded : {A : Type 0} → Result StoreError A → Bool
succeeded (ok a) = true
succeeded (err e) = false

-- Whether an exchange of the request's code gives tokens, and the world behind it.
abbrev pub exchange : Settings → AuthRequestModel → Way → World → Bool × World
exchange s ar access_only w =
    let (r, w') = create_access_token s (auth_request ar) w in (succeeded r, w')
exchange s ar (with_refresh resource) w =
    let (r, w') = create_access_and_refresh_tokens s resource (auth_request ar) "" w in
    (succeeded r, w')

abbrev pub exchange_at : Settings → AuthRequestModel → Way → State → List Bool → Bool × World
exchange_at s ar way st faults = exchange s ar way (record { state = st; faults = faults })

abbrev matching : Settings → AuthRequestModel → ℕ → AuthRequestRow → Bool
matching s ar at = consumable ar.id ar.client_id (s.code_hash (code_of ar.code)) at

module _ (s : Settings) (ar : AuthRequestModel) (rows : List AuthRequestRow) (t : ℕ) where
  -- One row stood for the code, and that row is gone.
  abbrev Taken : List AuthRequestRow → Type 0
  Taken left = (count (matching s ar t) rows ≡ 1) × (left ≡ remove (matching s ar t) rows)

  abbrev Before : Pred
  Before st = (st.db.auth_requests ≡ rows) × (st.now ≡ t)

  abbrev Open : Pred
  Open st = (st.tx.auth_requests ≡ rows) × (st.now ≡ t)

  abbrev Done : Pred
  Done st = Taken st.db.auth_requests

  abbrev Spent : Pred
  Spent st = Taken st.tx.auth_requests

  -- What a statement has counted and left.
  abbrev Counted : ℕ → List AuthRequestRow → Type 0
  Counted n left = (n ≡ count (matching s ar t) rows) × (left ≡ remove (matching s ar t) rows)

  counted :
      (d : Db) (at now : ℕ)
      → d.auth_requests ≡ rows
      → now ≡ t
      → now ≡ at
      → (count (matching s ar at) d.auth_requests ≡ count (matching s ar t) rows)
        × (remove (matching s ar at) d.auth_requests ≡ remove (matching s ar t) rows)
  counted d at now same here read =
      let at_t : at ≡ t = sym read ∙ here in
      (
        ap (λ x. count (matching s ar x) d.auth_requests) at_t
            ∙ ap (λ x. count (matching s ar t) x) same,
        ap (λ x. remove (matching s ar x) d.auth_requests) at_t
            ∙ ap (λ x. remove (matching s ar t) x) same,
      )

  taken : (n : ℕ) (left : List AuthRequestRow) → Counted n left → (n == 1) ≡ true → Taken left
  taken n left c one = (ground (arith, c.0, one), c.1)

  create_access_token-Keeps :
      Keeps Always Before (create_access_token s (auth_request ar)) (λ _. Done)
  unfolding create_access_token consume_auth_code consume_auth_code_rows
  create_access_token-Keeps =
      Keeps-bind (λ _. Done)
        (Keeps-bind (λ _. Before) (Keeps-weaken (Keeps-guard_passed _ _) (λ _ st i q. q.0))
          (λ _.
            Keeps-bind (λ at st. Before st × (st.now ≡ at)) Keeps-now_at
              (λ at.
                Keeps-bind (λ n st. Counted n st.db.auth_requests)
                  (Keeps-autocommit _ (λ st i p. (tt, counted st.db at st.now p.0.0 p.0.1 p.1)))
                  (λ n.
                    Keeps-weaken (Keeps-guard_passed (n == 1) _)
                      (λ _ st i q. taken n st.db.auth_requests q.0 q.1)))))
        (λ _.
          Keeps-bind (λ _. Done) (Keeps-take_id (λ st i. tt) (λ st p. p))
            (λ n. Keeps-bind (λ _. Done) Keeps-now (λ at. Keeps-pure _ (λ st i p. p))))

  consume_auth_code-Keeps :
      Keeps Always Open (consume_auth_code s query (auth_request ar)) (λ _. Spent)
  unfolding consume_auth_code consume_auth_code_rows
  consume_auth_code-Keeps =
      Keeps-bind (λ _. Open) (Keeps-weaken (Keeps-guard_passed _ _) (λ _ st i q. q.0))
        (λ _.
          Keeps-bind (λ at st. Open st × (st.now ≡ at)) Keeps-now_at
            (λ at.
              Keeps-bind (λ n st. Counted n st.tx.auth_requests)
                (Keeps-query_total _ (λ st i p. (tt, counted st.tx at st.now p.0.0 p.0.1 p.1)))
                (λ n.
                  Keeps-weaken (Keeps-guard_passed (n == 1) _)
                    (λ _ st i q. taken n st.tx.auth_requests q.0 q.1))))

  insert_refresh_token-Keeps :
      (row : RefreshRow) → Keeps Always Spent (query (insert_refresh_token row)) (λ _. Spent)
  unfolding insert_refresh_token
  insert_refresh_token-Keeps row =
      Keeps-query (insert_refresh_token row) (λ st a d i p e. (tt, (p.0, kept st.tx d a e ∙ p.1)))
    where
      kept :
          (d e : Db) (a : Unit {0})
          → insert_refresh_token row d ≡ some (a, e)
          → e.auth_requests ≡ d.auth_requests
      kept d e a inserted = ground (arith, inserted)

  issue-Keeps :
      (resource new_refresh : String) (at : ℕ)
      → Keeps Always Open (issue s resource (auth_request ar) "" new_refresh at) (λ _. Done)
  unfolding issue attributes audit_refresh_reuse_grace
  issue-Keeps resource new_refresh at =
      Keeps-bind (λ _. Spent) consume_auth_code-Keeps
        (λ _.
          Keeps-bind (λ _. Spent) (Keeps-take_id (λ st i. tt) (λ st p. p))
            (λ family.
              Keeps-bind (λ _. Spent) (Keeps-pure _ (λ st i p. p))
                (λ r.
                  Keeps-bind (λ _. Spent) (Keeps-take_id (λ st i. tt) (λ st p. p))
                    (λ n.
                      Keeps-bind (λ _. Spent) (insert_refresh_token-Keeps _)
                        (λ _.
                          Keeps-bind (λ _. Done) (Keeps-commit_post (λ st i p. (tt, p)))
                            (λ _.
                              Keeps-if (r.0.grace_child)
                                (λ e.
                                  Keeps-bind (λ _. Done) Keeps-now
                                    (λ at. Keeps-audit_log (λ st row p. p) (λ st row p. p) _))
                                (λ e. Keeps-pure tt (λ st i p. p))))))))

  create_access_and_refresh_tokens-Keeps :
      (resource : String)
      → Keeps Always Before
          (create_access_and_refresh_tokens s resource (auth_request ar) "")
          (λ _. Done)
  unfolding create_access_and_refresh_tokens
  create_access_and_refresh_tokens-Keeps resource =
      Keeps-bind (λ _. Before) (Keeps-take_id (λ st i. tt) (λ st p. p))
        (λ n.
          Keeps-bind (λ _. Before) Keeps-now
            (λ at.
              Keeps-bind (λ _. Before) (Keeps-take_id (λ st i. tt) (λ st p. p))
                (λ m.
                  Keeps-bind (λ _. Before) (Keeps-or_fail (s.opaque_token m) _ (λ x st e i p. p))
                    (λ new_refresh.
                      Keeps-bind (λ _. Done)
                        (Keeps-in_tx_from Open (λ st i. tt) (λ st p. p) (λ a st q. q)
                          (issue-Keeps resource new_refresh at))
                        (λ _. Keeps-pure _ (λ st i p. p))))))

result-ok : {A : Type 0} (r : Result StoreError A) → succeeded r ≡ true → (a : A) × (r ≡ ok a)
result-ok (ok a) e = (a, refl)
result-ok (err x) e = absurd (cc)

-- Tokens are given for one row that stands for the code, which is then gone.
exchange-Taken :
    (s : Settings) (ar : AuthRequestModel) (way : Way) (w : World)
    → (exchange s ar way w).0 ≡ true
    → Taken s ar w.db.auth_requests w.now ((exchange s ar way w).1.db.auth_requests)
exchange-Taken s ar access_only w granted =
    let (a, e) = result-ok (create_access_token s (auth_request ar) w).0 granted in
    Keeps-result (create_access_token-Keeps s ar w.db.auth_requests w.now) w a tt (refl, refl) e
exchange-Taken s ar (with_refresh resource) w granted =
    let (a, e) =
      result-ok (create_access_and_refresh_tokens s resource (auth_request ar) "" w).0 granted in
    Keeps-result (create_access_and_refresh_tokens-Keeps s ar w.db.auth_requests w.now resource) w a
      tt (refl, refl) e

-- Every request of a later table that has this id was in the table before.
abbrev pub NoneAdded : String → List AuthRequestRow → List AuthRequestRow → Type 0
NoneAdded id before after = All (λ r. (str_eq r.id id ≡ false) ⊎ Any (λ q. q ≡ r) before) after

module _ (s : Settings) (ar : AuthRequestModel) where
  matching-later :
      (at later : ℕ)
      → at ≤ later
      → (r : AuthRequestRow) → matching s ar at r ≡ false
      → matching s ar later r ≡ false
  matching-later at later le r miss = elim (Bool-cases (matching s ar later r)) [
    | inl hit ↦ absurd (ground (arith, hit, miss, le))
    | inr other ↦ other
  ]

  Any-All :
      (P : AuthRequestRow → Type 0) (r : AuthRequestRow) (xs : List AuthRequestRow)
      → Any (λ q. q ≡ r) xs
      → All P xs
      → P r
  Any-All P r [] found ps = absurd found
  Any-All P r (x ∷ xs) (inl same) (p, ps) = subst P same p
  Any-All P r (x ∷ xs) (inr later) (p, ps) = Any-All P r xs later ps

  count-none :
      (p : AuthRequestRow → Bool) (xs : List AuthRequestRow)
      → All (λ r. p r ≡ false) xs
      → count p xs ≡ 0
  unfolding count
  count-none p [] ps = refl
  count-none p (x ∷ xs) (miss, ps) = ground (arith, miss, count-none p xs ps)

  none_matching :
      (at later : ℕ) (before after : List AuthRequestRow)
      → at ≤ later
      → All (λ r. matching s ar at r ≡ false) before
      → NoneAdded ar.id before after
      → All (λ r. matching s ar later r ≡ false) after
  none_matching at later before [] le gone none_added = tt
  none_matching at later before (r ∷ after) le gone (inl other, rest) =
      (ground (arith, other), none_matching at later before after le gone rest)
  none_matching at later before (r ∷ after) le gone (inr held, rest) = (
    matching-later at later le r (Any-All (λ q. matching s ar at q ≡ false) r before held gone),
    none_matching at later before after le gone rest,
  )

-- An authorization code that has been exchanged, for an access token alone or with a refresh token, is
-- exchanged neither way at any later time, whichever statements fail. In between, requests may be added
-- under other ids, and any request may be deleted or, under another id, changed.
pub exchange_once :
    (s : Settings) (ar : AuthRequestModel) (first second : Way) (st later : State)
    (faults faults' : List Bool)
    → (exchange_at s ar first st faults).0 ≡ true
    → NoneAdded ar.id ((exchange_at s ar first st faults).1.db.auth_requests) later.db.auth_requests
    → st.now ≤ later.now
    → (exchange_at s ar second later faults').0 ≡ false
exchange_once s ar first second st later faults faults' granted none_added le =
    elim (Bool-cases (exchange_at s ar second later faults').0) [
      | inr refused ↦ refused
      | inl again ↦
          let w : World = record { state = st; faults = faults } in
          let (_, left) = exchange-Taken s ar first w granted in
          let (one, _) =
            exchange-Taken s ar second (record { state = later; faults = faults' }) again in
          let gone : All (λ r. matching s ar st.now r ≡ false)
              ((exchange s ar first w).1.db.auth_requests) =
            subst (λ rows. All (λ r. matching s ar st.now r ≡ false) rows) (sym left)
              (remove-All (matching s ar st.now) st.db.auth_requests) in
          let zero : count (matching s ar later.now) later.db.auth_requests ≡ 0 =
            count-none s ar (matching s ar later.now) later.db.auth_requests (
              none_matching s ar st.now later.now ((exchange s ar first w).1.db.auth_requests)
                later.db.auth_requests le gone none_added) in
          absurd (omega (arith, one, zero))
    ]
