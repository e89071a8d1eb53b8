-- ===== src/Cimd/CacheControl.antt =====
-- The lifetime of a cached document in internal/adapter/mcp/cimd_cache.go. A Duration is its two's
-- complement of 64 bits, so the product with a second wraps as in the source.
use authgate.Prelude.{
  ℕ, ◌+◌, ◌-◌, ◌*◌, ◌%◌, Bool, true, false, ◌&&◌, ◌||◌, Option, none, some, List, [], ◌∷◌, Bytes,
  codes, bytes_eq, if◌then◌else◌, ltb, leb, ◌==◌,
}
use authgate.Strings.{has_prefix, trim_prefix, trim_space}
use authgate.ClientAccess.Normalize.{ascii_lower}

abbrev pub nanosecond : ℕ
nanosecond = 1000000000

abbrev pub floor_ttl : ℕ
floor_ttl = 5 * nanosecond

abbrev pub ceil_ttl : ℕ
ceil_ttl = 86400 * nanosecond

abbrev pub half : ℕ
half = 9223372036854775808

abbrev pub modulus : ℕ
modulus = 18446744073709551616

-- strings.Split at one byte: the parts, the first one first.
unfoldable pub split : ℕ → Bytes → Bytes × List Bytes
split b [] = ([], [])
split b (c ∷ s) =
    let rest = split b s in if c == b then ([], rest.0 ∷ rest.1) else (c ∷ rest.0, rest.1)

abbrev digit : ℕ → Bool
digit c = leb b'0' c && leb c b'9'

-- The decimal digits of a number, with the value so far; `none` at any other byte.
unfoldable pub digits_from : ℕ → Bytes → Option ℕ
digits_from value [] = some value
digits_from value (c ∷ s) =
    let rest = digits_from (value * 10 + (c - b'0')) s in if digit c then rest else none

-- The positive values of strconv.ParseInt(v, 10, 64); `none` is an error or a value of at most 0.
abbrev positive : Option ℕ → Option ℕ
positive none = none
positive (some n) = if n == 0 then none else if leb half n then none else some n

unfoldable pub positive_int64 : Bytes → Option ℕ
positive_int64 [] = none
positive_int64 (c ∷ []) = if digit c then positive (some (c - b'0')) else none
positive_int64 (c ∷ d ∷ s) =
    if c == b'+' then positive (digits_from 0 (d ∷ s)) else positive (digits_from 0 (c ∷ d ∷ s))

-- `time.Duration(seconds) * time.Second`.
abbrev pub seconds_duration : ℕ → ℕ
seconds_duration n = (n * nanosecond) % modulus

abbrev max_age_ttl : Option ℕ → ℕ
max_age_ttl none = 0
max_age_ttl (some n) = seconds_duration n

-- The loop of `parseCacheControlTTL`.
unfoldable pub directives_ttl : List Bytes → ℕ → ℕ
directives_ttl [] fallback = fallback
directives_ttl (directive ∷ directives) fallback =
    let rest = directives_ttl directives fallback in
    let d = trim_space (ascii_lower directive) in
    if bytes_eq d (codes "no-store") || bytes_eq d (codes "no-cache")
    then 0
    else if has_prefix d (codes "max-age=")
    then max_age_ttl (positive_int64 (trim_space (trim_prefix d (codes "max-age="))))
    else rest

abbrev is_empty : Bytes → Bool
is_empty [] = true
is_empty (c ∷ s) = false

-- `parseCacheControlTTL`.
unfoldable pub parse_cache_control_ttl : Bytes → ℕ → ℕ
parse_cache_control_ttl header fallback =
    if is_empty header
    then fallback
    else (let parts = split b',' header in directives_ttl (parts.0 ∷ parts.1) fallback)

abbrev is_negative : ℕ → Bool
is_negative duration = leb half duration

-- The clamp of `cacheTTLFromCacheControl`.
unfoldable pub clamp : ℕ → ℕ
clamp ttl =
    if is_negative ttl || ltb ttl floor_ttl
    then floor_ttl
    else if ltb ceil_ttl ttl
    then ceil_ttl
    else ttl

-- `cacheTTLFromCacheControl`.
unfoldable pub cache_ttl_from_cache_control : Bytes → ℕ → ℕ
cache_ttl_from_cache_control header fallback = clamp (parse_cache_control_ttl header fallback)
