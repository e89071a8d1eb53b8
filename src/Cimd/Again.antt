-- ===== src/Cimd/Again.antt =====
-- When a lookup makes no request: internal/adapter/mcp/cimd.go.
use authgate.Prelude.{
  ℕ, ◌+◌, ◌*◌, ◌≡◌, ◌≤◌, ◌<◌, refl, inl, inr, true, false, Option, none, some, String, ltb, arith,
  Result, ok, err, Bool-cases,
}
use authgate.Client.{Model}
use authgate.Cimd.Url.{is_cimd_client_id, is_canonical_cimd_client_id}
use authgate.Cimd.Hosts.{allows_client_id}
use authgate.Cimd.CacheControl.{nanosecond, cache_ttl_from_cache_control}
use authgate.Cimd.Fetcher.{
  IsLru, CacheEntry, FetchError, Response, invalid_client_id, not_canonical, host_not_allowed,
  Fetcher, FetchState, fetch, fetch_client, cached, settle, read_response,
}
use authgate.Cimd.Lifetimes.{cache_ttl_from_cache_control_bounds}

module _ {W : Type 0} (f : Fetcher W) where
  open f use {lib, hosts, clock_now, http_get, cache_lru}

  -- A client_id of a host that the policy does not allow is refused without a request, and without a
  -- trace in the cache or in the count of failures.
  pub fetch_client-refused :
      (client_id : String) (st : FetchState f)
      → allows_client_id lib hosts client_id ≡ false
      → ((fetch_client f client_id st).1 ≡ st)
        × ((e : FetchError) × ((fetch_client f client_id st).0 ≡ err e))
  unfolding fetch_client
  fetch_client-refused client_id st closed = elim (Bool-cases (is_cimd_client_id lib client_id)) [
    | inr other ↦ rw other (refl, (invalid_client_id, refl))
    | inl url ↦ elim (Bool-cases (is_canonical_cimd_client_id lib client_id)) [
      | inr loose ↦ rw (url, loose) (refl, (not_canonical, refl))
      | inl canonical ↦ rw (url, canonical, closed) (refl, (host_not_allowed, refl))
    ]
  ]

  ttl_read :
      (client_id : String) (r : Response) (c : Model) (ttl : ℕ)
      → read_response f client_id (some r) ≡ ok (c, ttl)
      → cache_ttl_from_cache_control r.cache_control f.cache_ttl ≡ ttl
  unfolding read_response
  ttl_read client_id r c ttl e = ground arith

  read_lifetime :
      (client_id : String) (r : Option Response) (c : Model) (ttl : ℕ)
      → read_response f client_id r ≡ ok (c, ttl)
      → 5 * nanosecond ≤ ttl
  unfolding read_response
  read_lifetime client_id none c ttl e = ground arith
  read_lifetime client_id (some r) c ttl e =
      rw (← ttl_read client_id r c ttl e)
        (cache_ttl_from_cache_control_bounds r.cache_control f.cache_ttl).0

  positive_ttl : (ttl : ℕ) → 5 * nanosecond ≤ ttl → ltb 0 ttl ≡ true
  positive_ttl ttl long = ground arith

  in_time :
      (w : W) (expiry start : ℕ)
      → clock_now w < start + 5 * nanosecond
      → start + 5 * nanosecond ≤ expiry
      → ltb (clock_now w) expiry ≡ true
  in_time w expiry start soon late = ground arith

  cached_hit :
      (client_id : String) (now : ℕ) (found : Option CacheEntry × cache_lru.Table)
      (entry : CacheEntry)
      → found.0 ≡ some entry
      → ltb now entry.expires_at ≡ true
      → cached f client_id now found ≡ (some entry.client, found.1)
  cached_hit client_id now (none, t) entry e fresh = cc
  cached_hit client_id now (some kept, t) entry e fresh = ground (arith, e, fresh)

  module _ (laws : IsLru cache_lru) where
    -- A fetched answer is cached under its client_id, for at least 5 seconds.
    abbrev Keeps : String → FetchState f → Result FetchError Model → Type 0
    Keeps client_id st answer =
        (entry : CacheEntry) × ((cache_lru.get client_id st.cache).0 ≡ some entry)
        × (entry.client ≡ answer)
        × (clock_now st.world + 5 * nanosecond ≤ entry.expires_at)

    settle-Keeps :
        (client_id : String) (r : Result FetchError (Model × ℕ)) (st : FetchState f)
        → ((c : Model) (ttl : ℕ) → r ≡ ok (c, ttl) → 5 * nanosecond ≤ ttl)
        → Keeps client_id (settle f client_id r st).1 (settle f client_id r st).0
    settle-Keeps client_id (err e) st long =
        (_, laws.get-add client_id _ st.cache, refl, omega arith)
    settle-Keeps client_id (ok (c, ttl)) st long =
        let bound = long c ttl refl in
        let positive = positive_ttl ttl bound in
        rw positive (_, laws.get-add client_id _ st.cache, refl, omega (arith, bound))

    fetch-Keeps :
        (client_id : String) (st : FetchState f)
        → Keeps client_id (fetch f client_id st).1 (fetch f client_id st).0
    unfolding fetch
    fetch-Keeps client_id st =
        settle-Keeps client_id (read_response f client_id (http_get client_id st.world).0)
          (record st { world = (http_get client_id st.world).1 })
          (read_lifetime client_id (http_get client_id st.world).0)

    -- A lookup within 5 seconds of a fetch of the same client_id, at any state of the world, makes no
    -- request and repeats the answer of the fetch, be it a client or an error.
    pub fetch_client-again :
        (client_id : String) (st : FetchState f) (w : W)
        → is_cimd_client_id lib client_id ≡ true
        → is_canonical_cimd_client_id lib client_id ≡ true
        → allows_client_id lib hosts client_id ≡ true
        → clock_now w < clock_now (fetch f client_id st).1.world + 5 * nanosecond
        → ((fetch_client f client_id (record (fetch f client_id st).1 { world = w })).0
            ≡ (fetch f client_id st).0)
          × ((fetch_client f client_id (record (fetch f client_id st).1 { world = w })).1.world ≡ w)
    unfolding fetch_client
    fetch_client-again client_id st w url canonical allowed soon =
        let (entry, found, same, late) = fetch-Keeps client_id st in
        let fresh = in_time w entry.expires_at _ soon late in
        let hit =
          cached_hit client_id (clock_now w)
            (cache_lru.get client_id (fetch f client_id st).1.cache) entry found fresh in
        rw (url, canonical, allowed, hit) (same, refl)
