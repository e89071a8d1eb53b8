-- ===== src/Storage/Refresh/Reach.antt =====
-- Sequences of operations on refresh tokens, each with the statements that fail in it.
use authgate.Prelude.{◌≡◌, ℕ, ◌+◌, Bool, true, false, some, List, [], ◌∷◌, String, arith, str_eq}
use authgate.Storage.Db.{Db, RefreshRow}
use authgate.Storage.Rows.{find, is_none}
use authgate.Storage.Rows.Laws.{find-All}
use authgate.Storage.Exec.{State}
use authgate.Storage.Exec.Keeps.{Keeps-state}
use authgate.Storage.Settings.{Settings, TokenRequest}
use authgate.Storage.Refresh.Tables.{tombstoned_in}
use authgate.Storage.Refresh.Consume.{token_request_by_refresh_token}
use authgate.Storage.Refresh.Issue.{create_access_token, create_access_and_refresh_tokens}
use authgate.Storage.Refresh.Revoke.{revoke_token}
use authgate.Storage.Refresh.Entombed.{IsEntombed, IsClosed}
use authgate.Storage.Refresh.Replayed.{Sound}
use authgate.Storage.Lifecycle.{request_deletion, recover_user, set_user_status}
use authgate.Storage.Refresh.Deletion.{
  request_deletion-Sound, recover_user-Sound, set_user_status-Sound,
}
use authgate.Storage.Refresh.Ends.{token_request_by_refresh_token-Keeps, revoke_token-state}
use authgate.Storage.Refresh.Sound.{
  NeverRepeats, create_access_token-Keeps, create_access_and_refresh_tokens-Keeps,
}

-- What clients and accounts can make the storage do, and the passing of time.
pub data Call : Type 0 where
  exchange : String → TokenRequest → String → Call
  access : TokenRequest → Call
  check : String → String → Call
  revoke : String → String → String → Call
  delete : String → Call
  recover : String → Call
  set_status : String → String → Call
  wait : ℕ → Call

module _ (s : Settings) where
  -- The state after one call in which the given statements fail.
  unfoldable pub call : Call → List Bool → State → State
  call (exchange resource request current) faults st =
      ((create_access_and_refresh_tokens s resource request current
        (record { state = st; faults = faults })).1
      ).state
  call (access request) faults st =
      ((create_access_token s request (record { state = st; faults = faults })).1).state
  call (check resource token) faults st =
      ((token_request_by_refresh_token s resource token (record { state = st; faults = faults })).1
      ).state
  call (revoke token user_id client_id) faults st =
      ((revoke_token s token user_id client_id (record { state = st; faults = faults })).1).state
  call (delete user) faults st =
      ((request_deletion user (record { state = st; faults = faults })).1).state
  call (recover user) faults st =
      ((recover_user user (record { state = st; faults = faults })).1).state
  call (set_status user status) faults st =
      ((set_user_status user status (record { state = st; faults = faults })).1).state
  call (wait time) faults st = record st { now = st.now + time }

  unfoldable pub run : List (Call × List Bool) → State → State
  run [] st = st
  run ((c, faults) ∷ calls) st = run calls (call c faults st)

-- The tables hold users, sessions and codes, and no refresh token yet.
abbrev pub HasNoTokens : Db → Type 0
HasNoTokens d = (d.refresh_tokens ≡ []) × (d.families ≡ [])

module _ (s : Settings) (distinct : NeverRepeats s.uuid) where
  call-Sound :
      (c : Call) (faults : List Bool) (st : State) → Sound s st → Sound s (call s c faults st)
  unfolding call
  call-Sound (exchange resource request current) faults st i =
      Keeps-state (create_access_and_refresh_tokens-Keeps s distinct resource request current) _ i
        tt
  call-Sound (access request) faults st i =
      Keeps-state (create_access_token-Keeps s distinct request) _ i tt
  call-Sound (check resource token) faults st i =
      Keeps-state (token_request_by_refresh_token-Keeps s resource token) _ i tt
  call-Sound (revoke token user_id client_id) faults st i =
      revoke_token-state s token user_id client_id _ i
  call-Sound (delete user) faults st i = Keeps-state (request_deletion-Sound s user) _ i tt
  call-Sound (recover user) faults st i = Keeps-state (recover_user-Sound s user) _ i tt
  call-Sound (set_status user status) faults st i =
      Keeps-state (set_user_status-Sound s user status) _ i tt
  call-Sound (wait time) faults st i = i

  run-Sound : (calls : List (Call × List Bool)) (st : State) → Sound s st → Sound s (run s calls st)
  unfolding run
  run-Sound [] st i = i
  run-Sound ((c, faults) ∷ calls) st i =
      run-Sound calls (call s c faults st) (call-Sound c faults st i)

  HasNoTokens-IsEntombed : (n : ℕ) (d : Db) → HasNoTokens d → IsEntombed s.uuid n d
  HasNoTokens-IsEntombed n d (rows, families) = record {
    closed = rw rows tt;
    past_rows = rw rows tt;
    past_families = rw families tt;
  }

  -- From tables without tokens, if the id generator never repeats itself: after any sequence of token
  -- exchanges, checks, revocations, changes of an account's status and waits, whichever statements
  -- failed in them, the committed token with a given hash is revoked if its family is.
  pub run-revoked_family :
      (calls : List (Call × List Bool)) (st : State)
      → HasNoTokens st.db
      → HasNoTokens st.tx
      → (hash : String) (rt : RefreshRow)
      → find (λ r. str_eq r.token_hash hash) ((run s calls st).db.refresh_tokens) ≡ some rt
      → tombstoned_in ((run s calls st).db.families) rt.family_id ≡ true
      → is_none rt.revoked_at ≡ false
  run-revoked_family calls st none_db none_tx hash rt found revoked =
      let sound = run-Sound calls st (
        HasNoTokens-IsEntombed st.next_id st.db none_db,
        HasNoTokens-IsEntombed st.next_id st.tx none_tx,
      ) in
      let closed =
        find-All (IsClosed ((run s calls st).db.families)) _ ((run s calls st).db.refresh_tokens) rt
          found sound.0.closed in
      ground (arith, closed)
