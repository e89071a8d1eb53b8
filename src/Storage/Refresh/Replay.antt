-- ===== src/Storage/Refresh/Replay.antt =====
-- Replay of a refresh token outside the grace.
use authgate.Prelude.{
  ◌≡◌, ℕ, Bool, true, false, ◌||◌, [], String, Result, ok, err, arith, eq_iff, inl, inr, Bool-cases,
}
use authgate.Storage.Db.{Db, RefreshRow, FamilyRow}
use authgate.Storage.Exec.{StoreError, State, World, ◌>>=◌, ◌>>◌, query, commit, pure, continue}
use authgate.Storage.Settings.{Settings, TokenRequest}
use authgate.Storage.Refresh.Tables.{
  tombstoned_in, revoke_refresh_family, tombstone_refresh_family, is_refresh_family_revoked,
  insert_tombstone,
}
use authgate.Storage.Refresh.Consume.{
  grant_refused, is_refresh_token_used_or_revoked, grace_applies, refresh_reuse_grace_decision,
  revoke_on_reuse, act_on_grace, decide_replay, load_for_consumption, consume_refresh_token,
  audit_refresh_reuse_detection_tx, mark_redeemed, consumed,
}
use authgate.Storage.Refresh.Entombed.{IsRevoked, revoke_refresh_family-IsRevoked}

abbrev pub running : State → World
running st = record { state = st; faults = [] }

-- The request is refused, and what is committed has a tombstone for the family and no live token in it.
abbrev pub IsRefusedReplay : {A : Type 0} → String → Result StoreError A × World → Type 0
IsRefusedReplay family (r, w) =
    (r ≡ err grant_refused) × (tombstoned_in w.db.families family ≡ true) × IsRevoked family w.db

tombstoned_in-insert_tombstone :
    (row : FamilyRow) (d : Db) (b : Bool)
    → tombstoned_in d.families row.family_id ≡ b
    → tombstoned_in ((insert_tombstone row d b).1).families row.family_id ≡ true
tombstoned_in-insert_tombstone row d true e = e
tombstoned_in-insert_tombstone row d false e = ground (arith, eq_iff row.family_id row.family_id)

revoke_on_reuse-refuses :
    (rt : RefreshRow) (at : ℕ) (st : State)
    → IsRefusedReplay rt.family_id (revoke_on_reuse rt at (running st))
unfolding revoke_on_reuse ◌>>=◌ query commit revoke_refresh_family tombstone_refresh_family
    audit_refresh_reuse_detection_tx
revoke_on_reuse-refuses rt at st = elim (Bool-cases (tombstoned_in st.tx.families rt.family_id)) [
  | inl e ↦ (
    ground (arith, e),
    ground (arith, e),
    rw e (revoke_refresh_family-IsRevoked at rt.family_id st.tx),
  )
  | inr e ↦ (
    ground (arith, e),
    ground (arith, e, eq_iff rt.family_id rt.family_id),
    rw e (revoke_refresh_family-IsRevoked at rt.family_id st.tx),
  )
]

module _ (s : Settings) where
  decide_replay-refuses :
      (rt : RefreshRow) (at : ℕ) (st : State)
      → (is_refresh_token_used_or_revoked rt || tombstoned_in st.tx.families rt.family_id) ≡ true
      → grace_applies s rt at ≡ false
      → IsRefusedReplay rt.family_id (decide_replay s rt at (running st))
  unfolding decide_replay ◌>>=◌ query is_refresh_family_revoked refresh_reuse_grace_decision
      act_on_grace
  decide_replay-refuses rt at st replayed ends =
      rw replayed (rw ends (revoke_on_reuse-refuses rt at st))

  -- If no statement fails: a refresh token that passes the checks before the decision on replay, that was
  -- redeemed or revoked before or whose family was revoked, and that no grace applies to, is refused;
  -- and then the family has a tombstone and no live token in what is committed.
  pub consume_refresh_token-replay :
      (resource : String) (request : TokenRequest) (token : String) (st st' : State)
      (rt : RefreshRow)
      → load_for_consumption s resource request token st.now (running st) ≡ (ok rt, running st')
      → (is_refresh_token_used_or_revoked rt || tombstoned_in st'.tx.families rt.family_id) ≡ true
      → grace_applies s rt st.now ≡ false
      → IsRefusedReplay rt.family_id (consume_refresh_token s resource request token (running st))
  unfolding consume_refresh_token ◌>>=◌
  consume_refresh_token-replay resource request token st st' rt loaded replayed ends = rw loaded (
      continued (decide_replay s rt st.now (running st'))
        (decide_replay-refuses rt st.now st' replayed ends))
    where
      continued :
          (r : Result StoreError Bool × World)
          → IsRefusedReplay rt.family_id r
          → IsRefusedReplay rt.family_id
              (continue (r.0) (λ g. mark_redeemed s rt st.now g >> pure (consumed s rt g)) (r.1))
      continued (ok g, w) (e, h, k) = absurd (cc)
      continued (err x, w) (e, h, k) = (cc, h, k)
