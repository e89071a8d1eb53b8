-- ===== src/Storage/Refresh/Entombed.antt =====
-- No live token in a revoked family: what the refresh tables satisfy at all times, and how each
-- statement on them keeps it.
use authgate.Prelude.{
  ℕ, ◌+◌, ◌≤◌, ◌≡◌, ◌≢◌, sym, ◌∙◌, Bool, false, ◌&&◌, List, [], ◌∷◌, String, str_eq, eq_iff, All,
  any, arith,
}
use authgate.Storage.Db.{Db, RefreshRow, FamilyRow, AuthRequestRow, AuditRow}
use authgate.Storage.Rows.{update, is_none}
use authgate.Storage.Rows.Laws.{All-map, All-update, All-any-false}
use authgate.Storage.Exec.{State, log_row, log_both}
use authgate.Storage.Refresh.Tables.{set_refresh, tombstoned_in, live_in, revoke_row}

-- The row is revoked if its family is.
abbrev pub IsClosed : List FamilyRow → RefreshRow → Type 0
IsClosed families r = (is_none r.revoked_at && tombstoned_in families r.family_id) ≡ false

module _ (uuid : ℕ → String) where
  -- The generator gives this id out no more.
  abbrev pub IsPast : ℕ → String → Type 0
  IsPast n id = (m : ℕ) → n ≤ m → id ≢ uuid m

  pub record IsEntombed (n : ℕ) (d : Db) : Type 0 where
    pub closed : All (IsClosed d.families) d.refresh_tokens
    pub past_rows : All (λ r. IsPast n r.family_id) d.refresh_tokens
    pub past_families : All (λ f. IsPast n f.family_id) d.families

  -- The committed tables and those of the open transaction.
  abbrev pub IsSound : State → Type 0
  IsSound st = IsEntombed st.next_id st.db × IsEntombed st.next_id st.tx

  IsPast-next : (n : ℕ) (id : String) → IsPast n id → IsPast (n + 1) id
  IsPast-next n id h m le = h m (omega arith)

  pub IsEntombed-next : (n : ℕ) (d : Db) → IsEntombed n d → IsEntombed (n + 1) d
  IsEntombed-next n d g = record {
    closed = g.closed;
    past_rows = All-map _ _ (λ r. IsPast-next n r.family_id) d.refresh_tokens g.past_rows;
    past_families = All-map _ _ (λ f. IsPast-next n f.family_id) d.families g.past_families;
  }

  pub IsPast-tombstoned_in :
      (n m : ℕ) (d : Db) → IsEntombed n d → n ≤ m → tombstoned_in d.families (uuid m) ≡ false
  IsPast-tombstoned_in n m d g le =
      All-any-false (λ f. IsPast n f.family_id) (λ f. str_eq f.family_id (uuid m))
        (λ f past. ground (arith, past m le, eq_iff f.family_id (uuid m))) d.families
        g.past_families

  pub IsEntombed-update :
      (n : ℕ) (p : RefreshRow → Bool) (f : RefreshRow → RefreshRow) (d : Db)
      → ((r : RefreshRow) → (f r).family_id ≡ r.family_id)
      → ((r : RefreshRow) → is_none ((f r).revoked_at) ≡ false)
      → IsEntombed n d
      → IsEntombed n (set_refresh d (update p f d.refresh_tokens))
  IsEntombed-update n p f d same revoked g = record {
    closed =
        All-update (IsClosed d.families) (IsClosed d.families) p f
          (λ r e h. ground (arith, revoked r)) (λ r e h. h) d.refresh_tokens g.closed;
    past_rows =
        All-update (λ r. IsPast n r.family_id) (λ r. IsPast n r.family_id) p f
          (λ r e h m le k. h m le (sym (same r) ∙ k)) (λ r e h. h) d.refresh_tokens g.past_rows;
    past_families = g.past_families;
  }

  pub IsEntombed-insert :
      (n : ℕ) (row : RefreshRow) (d : Db)
      → tombstoned_in d.families row.family_id ≡ false
      → IsPast n row.family_id
      → IsEntombed n d
      → IsEntombed n (set_refresh d (row ∷ d.refresh_tokens))
  IsEntombed-insert n row d open_family past g = record {
    closed = (ground arith, g.closed);
    past_rows = (past, g.past_rows);
    past_families = g.past_families;
  }

-- No row of the family is live.
abbrev pub IsRevoked : String → Db → Type 0
IsRevoked family d = All (λ r. live_in family r ≡ false) d.refresh_tokens

All-any :
    (p : RefreshRow → Bool) (xs : List RefreshRow) → All (λ r. p r ≡ false) xs → any p xs ≡ false
All-any p xs ps = All-any-false (λ r. p r ≡ false) p (λ x h. h) xs ps

pub revoke_refresh_family-IsRevoked :
    (now : ℕ) (family : String) (d : Db)
    → IsRevoked family (set_refresh d (update (live_in family) (revoke_row now) d.refresh_tokens))
revoke_refresh_family-IsRevoked now family d =
    All-update (λ r. Unit {0}) (λ r. live_in family r ≡ false) (live_in family) (revoke_row now)
      (λ r e h. ground arith) (λ r e h. e) d.refresh_tokens (everything d.refresh_tokens)
  where
    everything : (xs : List RefreshRow) → All (λ r. Unit {0}) xs
    everything [] = tt
    everything (x ∷ xs) = (tt, everything xs)

IsClosed-tombstone :
    (row : FamilyRow) (families : List FamilyRow) (rs : List RefreshRow)
    → All (λ r. live_in row.family_id r ≡ false) rs
    → All (IsClosed families) rs
    → All (IsClosed (row ∷ families)) rs
IsClosed-tombstone row families [] dead closed = tt
IsClosed-tombstone row families (r ∷ rs) (x, dead) (y, closed) = (
  ground (arith, eq_iff r.family_id row.family_id, eq_iff row.family_id r.family_id),
  IsClosed-tombstone row families rs dead closed,
)

module _ (uuid : ℕ → String) where
  pub IsEntombed-tombstone :
      (n : ℕ) (row : FamilyRow) (d : Db)
      → IsRevoked row.family_id d
      → IsPast uuid n row.family_id
      → IsEntombed uuid n d
      → IsEntombed uuid n (record d { families = row ∷ d.families })
  IsEntombed-tombstone n row d dead past g = record {
    closed = IsClosed-tombstone row d.families d.refresh_tokens dead g.closed;
    past_rows = g.past_rows;
    past_families = (past, g.past_families);
  }

  -- Other tables do not matter.
  pub IsEntombed-other :
      (n : ℕ) (d : Db) (requests : List AuthRequestRow) (log : List AuditRow)
      → IsEntombed uuid n d
      → IsEntombed uuid n (record d { auth_requests = requests; audit_log = log })
  IsEntombed-other n d requests log g = record {
    closed = g.closed;
    past_rows = g.past_rows;
    past_families = g.past_families;
  }

  pub IsSound-log_both :
      (st : State) (row : AuditRow) → IsSound uuid st → IsSound uuid (log_both row st)
  IsSound-log_both st row (g, h) = (
    IsEntombed-other st.next_id st.db st.db.auth_requests (log_row row st.db).audit_log g,
    IsEntombed-other st.next_id st.tx st.tx.auth_requests (log_row row st.tx).audit_log h,
  )
