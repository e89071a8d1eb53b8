-- ===== src/Cimd/Lifetimes.antt =====
-- Bounds of the lifetime of a cached document: internal/adapter/mcp/cimd_cache.go.
use authgate.Prelude.{ℕ, ◌≡◌, ◌*◌, ◌≤◌, Bytes, arith}
use authgate.Cimd.CacheControl.{
  nanosecond, floor_ttl, ceil_ttl, clamp, seconds_duration, parse_cache_control_ttl,
  cache_ttl_from_cache_control,
}

clamp_bounds : (ttl : ℕ) → (floor_ttl ≤ clamp ttl) × (clamp ttl ≤ ceil_ttl)
unfolding clamp
clamp_bounds ttl = ground arith

-- Whatever its Cache-Control header says, also when its max-age overflows a Duration, a document is
-- cached for at least 5 seconds and at most a day.
pub cache_ttl_from_cache_control_bounds :
    (header : Bytes) (fallback : ℕ)
    → (5 * nanosecond ≤ cache_ttl_from_cache_control header fallback)
      × (cache_ttl_from_cache_control header fallback ≤ 86400 * nanosecond)
unfolding cache_ttl_from_cache_control
cache_ttl_from_cache_control_bounds header fallback =
    clamp_bounds (parse_cache_control_ttl header fallback)

-- A max-age between 5 seconds and a day is kept as it is.
clamp-seconds_duration : (n : ℕ) → 5 ≤ n → n ≤ 86400 → clamp (seconds_duration n) ≡ n * nanosecond
unfolding clamp
clamp-seconds_duration n low high = ground arith
