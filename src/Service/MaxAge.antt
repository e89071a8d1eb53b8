-- ===== src/Service/MaxAge.antt =====
-- Bounds of the max_age comparison in internal/service/prompt.go.
use authgate.Prelude.{ℕ, ◌≡◌, ◌↔◌, ◌+◌, ◌*◌, ◌≤◌, ◌<◌, true, false, some, arith}
use authgate.Service.Request.{session_too_old_for_max_age, second, max_duration}

-- For an authentication at a time that is not the zero time, and a clock within a Duration of it,
-- the session is too old exactly if at least one second more than max_age has passed. No max_age,
-- however large, makes the comparison wrap, and a clock that went back never refuses.
pub session_too_old_for_max_age_iff :
    (max_age auth_time now : ℕ)
    → 0 < auth_time
    → now ≤ auth_time + max_duration
    → (session_too_old_for_max_age (some max_age) auth_time now ≡ true)
      ↔ (auth_time + (max_age + 1) * second ≤ now)
unfolding session_too_old_for_max_age
session_too_old_for_max_age_iff max_age auth_time now signed_in near = ground arith

-- A max_age of at least 9223372036 seconds, the length of the longest Duration, refuses no session
-- with an auth time, at any clock.
pub session_too_old_for_max_age_large :
    (max_age auth_time now : ℕ)
    → 0 < auth_time
    → 9223372036 ≤ max_age
    → session_too_old_for_max_age (some max_age) auth_time now ≡ false
unfolding session_too_old_for_max_age
session_too_old_for_max_age_large max_age auth_time now signed_in large = ground arith
