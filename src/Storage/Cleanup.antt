-- ===== src/Storage/Cleanup.antt =====
-- internal/storage/cleanup_runner.go: deletes in batches until a table is drained, with the statements
-- of internal/db/storeq/cleanup.sql.go that it repeats.
mod Drained
mod Account
mod Purged
mod Tests
mod AccountTests
use authgate.Prelude.{
  ℕ, zero, suc, ◌+◌, Bool, true, false, not, ◌||◌, Option, none, some, List, [], ◌∷◌, if◌then◌else◌,
  ltb, Result, ok, err,
}
use authgate.Storage.Db.{AuthRequestRow, DeviceRow, RefreshRow, FamilyRow, SessionRow}
use authgate.Storage.Rows.{is_none}
use authgate.Storage.Exec.{StoreError}

-- DELETE of the rows that pass a test, at most `LIMIT` of them: how many, and the rest. Which ones a
-- database takes first is open; here they are the first.
unfoldable pub remove_batch : {A : Type 0} → (A → Bool) → ℕ → List A → ℕ × List A
remove_batch p n [] = (0, [])
remove_batch p zero (x ∷ xs) = (0, x ∷ xs)
remove_batch p (suc n) (x ∷ xs) =
    let taken = remove_batch p n xs in
    let kept = remove_batch p (suc n) xs in
    if p x then (suc taken.0, taken.1) else (kept.0, x ∷ kept.1)

-- One round of the loop, with what the next round would do.
abbrev pub proceed :
    {S : Type 0}
    → (ℕ → S → Option (ℕ × Option StoreError) × S)
    → ℕ
    → ℕ
    → Result StoreError ℕ × S
    → Option (ℕ × Option StoreError) × S
proceed again batch total (err e, s) = (some (total, some e), s)
proceed again batch total (ok n, s) =
    if ltb n batch then (some (total + n, none), s) else again (total + n) s

-- `deleteInBatches` on a delete that takes the batch size, with the total so far: the total, and the
-- error that ended the loop. `none` is fuel that did not suffice.
unfoldable pub delete_in_batches :
    {S : Type 0}
    → ℕ
    → (ℕ → S → Result StoreError ℕ × S)
    → ℕ
    → ℕ
    → S
    → Option (ℕ × Option StoreError) × S
delete_in_batches zero del batch total s = (none, s)
delete_in_batches (suc fuel) del batch total s =
    proceed (delete_in_batches fuel del batch) batch total (del batch s)

-- A statement on one table while the connection works.
abbrev pub statement_on : {A : Type 0} → (A → Bool) → ℕ → List A → Result StoreError ℕ × List A
statement_on p batch rows = let (n, rest) = remove_batch p batch rows in (ok n, rest)

abbrev pub auth_request_expired : ℕ → AuthRequestRow → Bool
auth_request_expired cutoff r = ltb r.expires_at cutoff

abbrev pub device_code_expired : ℕ → DeviceRow → Bool
device_code_expired cutoff r = ltb r.expires_at cutoff

abbrev pub refresh_token_expired : ℕ → RefreshRow → Bool
refresh_token_expired cutoff r = ltb r.expires_at cutoff

abbrev revoked_before : ℕ → Option ℕ → Bool
revoked_before cutoff none = false
revoked_before cutoff (some at) = ltb at cutoff

abbrev pub refresh_token_revoked : ℕ → RefreshRow → Bool
refresh_token_revoked cutoff r = revoked_before cutoff r.revoked_at

abbrev pub session_over : ℕ → SessionRow → Bool
session_over cutoff s = ltb s.expires_at cutoff || not (is_none s.revoked_at)

abbrev pub family_stale : ℕ → FamilyRow → Bool
family_stale cutoff f = ltb f.revoked_at cutoff

-- The statements, with the cutoff and the batch size.
abbrev pub delete_expired_auth_requests_before :
    ℕ → ℕ → List AuthRequestRow → Result StoreError ℕ × List AuthRequestRow
delete_expired_auth_requests_before cutoff = statement_on (auth_request_expired cutoff)

abbrev pub delete_expired_device_codes_before :
    ℕ → ℕ → List DeviceRow → Result StoreError ℕ × List DeviceRow
delete_expired_device_codes_before cutoff = statement_on (device_code_expired cutoff)

abbrev pub delete_expired_refresh_tokens_before :
    ℕ → ℕ → List RefreshRow → Result StoreError ℕ × List RefreshRow
delete_expired_refresh_tokens_before cutoff = statement_on (refresh_token_expired cutoff)

abbrev pub delete_revoked_refresh_tokens_before :
    ℕ → ℕ → List RefreshRow → Result StoreError ℕ × List RefreshRow
delete_revoked_refresh_tokens_before cutoff = statement_on (refresh_token_revoked cutoff)

abbrev pub delete_expired_or_revoked_sessions :
    ℕ → ℕ → List SessionRow → Result StoreError ℕ × List SessionRow
delete_expired_or_revoked_sessions cutoff = statement_on (session_over cutoff)

abbrev pub delete_stale_refresh_token_families_before :
    ℕ → ℕ → List FamilyRow → Result StoreError ℕ × List FamilyRow
delete_stale_refresh_token_families_before cutoff = statement_on (family_stale cutoff)

abbrev pub cleanup_batch_size : ℕ
cleanup_batch_size = 10000

-- The methods of CleanupRunner that repeat these statements, with the fuel of the loop.
abbrev pub run_expired_auth_requests :
    ℕ → ℕ → List AuthRequestRow → Option (ℕ × Option StoreError) × List AuthRequestRow
run_expired_auth_requests fuel cutoff =
    delete_in_batches fuel (delete_expired_auth_requests_before cutoff) cleanup_batch_size 0

abbrev pub run_expired_device_codes :
    ℕ → ℕ → List DeviceRow → Option (ℕ × Option StoreError) × List DeviceRow
run_expired_device_codes fuel cutoff =
    delete_in_batches fuel (delete_expired_device_codes_before cutoff) cleanup_batch_size 0

abbrev pub run_expired_refresh_tokens :
    ℕ → ℕ → List RefreshRow → Option (ℕ × Option StoreError) × List RefreshRow
run_expired_refresh_tokens fuel cutoff =
    delete_in_batches fuel (delete_expired_refresh_tokens_before cutoff) cleanup_batch_size 0

abbrev pub run_revoked_refresh_tokens :
    ℕ → ℕ → List RefreshRow → Option (ℕ × Option StoreError) × List RefreshRow
run_revoked_refresh_tokens fuel cutoff =
    delete_in_batches fuel (delete_revoked_refresh_tokens_before cutoff) cleanup_batch_size 0

abbrev pub run_expired_or_revoked_sessions :
    ℕ → ℕ → List SessionRow → Option (ℕ × Option StoreError) × List SessionRow
run_expired_or_revoked_sessions fuel cutoff =
    delete_in_batches fuel (delete_expired_or_revoked_sessions cutoff) cleanup_batch_size 0

abbrev pub run_stale_refresh_token_families :
    ℕ → ℕ → List FamilyRow → Option (ℕ × Option StoreError) × List FamilyRow
run_stale_refresh_token_families fuel cutoff =
    delete_in_batches fuel (delete_stale_refresh_token_families_before cutoff) cleanup_batch_size 0
