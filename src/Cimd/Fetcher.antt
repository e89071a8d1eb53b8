-- ===== src/Cimd/Fetcher.antt =====
-- internal/adapter/mcp/cimd.go with cimd_cache.go and cimd_ratelimit.go: the lookup of a client by its
-- document, from the cache, or by one request to its host.
use authgate.Prelude.{
  ℕ, ◌+◌, ◌*◌, ◌≡◌, ◌⊎◌, Bool, true, false, not, Option, none, some, List, [], ◌∷◌, ◌++◌, String,
  Bytes, str_eq, if◌then◌else◌, ltb, leb, ◌==◌, length, Result, ok, err,
}
use authgate.Client.{Model}
use authgate.Cimd.Url.{Library, is_cimd_client_id, is_canonical_cimd_client_id}
use authgate.Cimd.Hosts.{CimdHostPolicy, allows_client_id}
use authgate.Cimd.CacheControl.{nanosecond, cache_ttl_from_cache_control}
use authgate.Cimd.Metadata.{CimdMetadata, MetadataError, validate_cimd_metadata}

pub data FetchError : Type 0 where
  invalid_client_id not_canonical host_not_allowed rate_limited : FetchError
  -- The request could not be made, or its body not be read.
  transport : FetchError
  status : ℕ → FetchError
  content_type too_large : FetchError
  metadata : MetadataError → FetchError

-- What hashicorp/golang-lru keeps: a map that may forget entries. `get` makes an entry recent, and
-- `write` changes the value behind the pointer of an entry.
pub record Lru (V : Type 0) : Type 1 where
  pub Table : Type 0
  pub get : String → Table → Option V × Table
  pub add : String → V → Table → Table
  pub remove : String → Table → Table
  pub write : String → V → Table → Table

-- The laws of it that the code relies on: an entry that was just added is found, a lookup changes no
-- value, and another entry is as before or forgotten when one is added or removed.
pub record IsLru {V : Type 0} (l : Lru V) : Type 0 where
  pub get-add : (k : String) (v : V) (t : l.Table) → (l.get k (l.add k v t)).0 ≡ some v
  pub get-write :
      (k : String) (v w : V) (t : l.Table)
      → (l.get k t).0 ≡ some w
      → (l.get k (l.write k v t)).0 ≡ some v
  pub get-add_other :
      (k j : String) (v : V) (t : l.Table)
      → str_eq k j ≡ false
      → ((l.get k (l.add j v t)).0 ≡ none) ⊎ ((l.get k (l.add j v t)).0 ≡ (l.get k t).0)
  pub get-remove :
      (k j : String) (t : l.Table)
      → ((l.get k (l.remove j t)).0 ≡ none) ⊎ ((l.get k (l.remove j t)).0 ≡ (l.get k t).0)
  pub get-get : (k j : String) (t : l.Table) → (l.get k (l.get j t).1).0 ≡ (l.get k t).0

pub record CacheEntry : Type 0 where
  pub client : Result FetchError Model
  pub expires_at : ℕ

-- A response as the code reads it: its status, media type (`none` if it does not parse), Cache-Control,
-- and at most 10 KB and one byte of its body (`none` if the read fails).
pub record Response : Type 0 where
  pub status_code : ℕ
  pub media_type : Option String
  pub cache_control : Bytes
  pub body : Option Bytes

-- An HTTPCIMDFetcher without its state. W is the world outside, which the requests change.
pub record Fetcher (W : Type 0) : Type 1 where
  pub lib : Library
  pub hosts : CimdHostPolicy
  pub decode : Bytes → Option CimdMetadata
  pub http_get : String → W → Option Response × W
  pub clock_now : W → ℕ
  pub cache_ttl : ℕ
  pub cache_lru : Lru CacheEntry
  pub failure_lru : Lru (List ℕ)

abbrev pub max_cimd_doc_size : ℕ
max_cimd_doc_size = 10240

abbrev pub negative_cache_ttl : ℕ
negative_cache_ttl = 30 * nanosecond

abbrev pub failure_limit : ℕ
failure_limit = 5

abbrev pub failure_window : ℕ
failure_window = 300 * nanosecond

-- `pruneOldTimestamps`: what is later than now less the window.
unfoldable pub prune_old_timestamps : List ℕ → ℕ → List ℕ
prune_old_timestamps [] now = []
prune_old_timestamps (t ∷ times) now =
    let rest = prune_old_timestamps times now in
    if ltb now (t + failure_window) then t ∷ rest else rest

module _ {W : Type 0} (f : Fetcher W) where
  open f use {lib, hosts, decode, http_get, clock_now, cache_ttl, cache_lru, failure_lru}
  open cache_lru use {get as cache_get, add as cache_add, remove as cache_remove}
  open failure_lru use {get as failure_get, add as failure_add, write as failure_write}

  pub record FetchState : Type 0 where
    pub cache : cache_lru.Table
    pub failures : failure_lru.Table
    pub world : W

  abbrev pub cached :
      String
      → ℕ
      → Option CacheEntry × cache_lru.Table
      → Option (Result FetchError Model) × cache_lru.Table
  cached client_id now (none, t) = (none, t)
  cached client_id now (some entry, t) =
      if ltb now entry.expires_at then (some entry.client, t) else (none, cache_remove client_id t)

  -- `cimdCache.Lookup`.
  abbrev pub lookup :
      String → ℕ → cache_lru.Table → Option (Result FetchError Model) × cache_lru.Table
  lookup client_id now t = cached client_id now (cache_get client_id t)

  abbrev limited : String → ℕ → Option (List ℕ) × failure_lru.Table → Bool × failure_lru.Table
  limited client_id now (none, t) = (false, t)
  limited client_id now (some times, t) = (
    leb failure_limit (length (prune_old_timestamps times now)),
    failure_write client_id (prune_old_timestamps times now) t,
  )

  -- `failureTracker.IsRateLimited`.
  abbrev pub is_rate_limited : String → ℕ → failure_lru.Table → Bool × failure_lru.Table
  is_rate_limited client_id now t = limited client_id now (failure_get client_id t)

  abbrev recorded : String → ℕ → Option (List ℕ) × failure_lru.Table → failure_lru.Table
  recorded client_id now (none, t) = failure_write client_id (now ∷ []) (failure_add client_id [] t)
  recorded client_id now (some times, t) =
      failure_write client_id (prune_old_timestamps times now ++ now ∷ []) t

  -- `failureTracker.Record`.
  abbrev pub record_failure : String → ℕ → failure_lru.Table → failure_lru.Table
  record_failure client_id now t = recorded client_id now (failure_get client_id t)

  abbrev validated : Bytes → Result MetadataError Model → Result FetchError (Model × ℕ)
  validated cache_control (err e) = err (metadata e)
  validated cache_control (ok client) =
      ok (client, cache_ttl_from_cache_control cache_control cache_ttl)

  abbrev read_body : String → Bytes → Option Bytes → Result FetchError (Model × ℕ)
  read_body client_id cache_control none = err transport
  read_body client_id cache_control (some body) =
      if ltb max_cimd_doc_size (length body)
      then err too_large
      else validated cache_control (validate_cimd_metadata lib decode body client_id)

  abbrev pub is_json : Option String → Bool
  is_json none = false
  is_json (some media_type) = str_eq media_type "application/json"

  -- `fetchAndValidate` from the response on.
  unfoldable pub read_response : String → Option Response → Result FetchError (Model × ℕ)
  read_response client_id none = err transport
  read_response client_id (some r) =
      if not (r.status_code == 200)
      then err (status r.status_code)
      else if not (is_json r.media_type)
      then err content_type
      else read_body client_id r.cache_control r.body

  -- The state after a fetch: a failure is counted and cached, a client is cached.
  abbrev pub settle :
      String → Result FetchError (Model × ℕ) → FetchState → Result FetchError Model × FetchState
  settle client_id (err e) st = (
    err e,
    record st {
      failures = record_failure client_id (clock_now st.world) st.failures;
      cache =
          cache_add client_id
            (record { client = err e; expires_at = clock_now st.world + negative_cache_ttl })
            st.cache;
    },
  )
  settle client_id (ok (client, ttl)) st = (
    ok client,
    if ltb 0 ttl
        then record st {
          cache =
              cache_add client_id
                (record { client = ok client; expires_at = clock_now st.world + ttl }) st.cache;
        }
        else st,
  )

  -- The function that FetchClient runs under singleflight, which is not shared when calls come one
  -- after the other.
  unfoldable pub fetch : String → FetchState → Result FetchError Model × FetchState
  fetch client_id st =
      let (response, w) = http_get client_id st.world in
      settle client_id (read_response client_id response) (record st { world = w })

  abbrev pub try_fetch :
      String → Bool × failure_lru.Table → FetchState → Result FetchError Model × FetchState
  try_fetch client_id (true, t) st = (err rate_limited, record st { failures = t })
  try_fetch client_id (false, t) st = fetch client_id (record st { failures = t })

  abbrev pub from_cache :
      String
      → Option (Result FetchError Model) × cache_lru.Table
      → FetchState
      → Result FetchError Model × FetchState
  from_cache client_id (some found, t) st = (found, record st { cache = t })
  from_cache client_id (none, t) st =
      try_fetch client_id (is_rate_limited client_id (clock_now st.world) st.failures)
        (record st { cache = t })

  -- `FetchClient`.
  unfoldable pub fetch_client : String → FetchState → Result FetchError Model × FetchState
  fetch_client client_id st =
      if not (is_cimd_client_id lib client_id)
      then (err invalid_client_id, st)
      else if not (is_canonical_cimd_client_id lib client_id)
      then (err not_canonical, st)
      else if not (allows_client_id lib hosts client_id)
      then (err host_not_allowed, st)
      else from_cache client_id (lookup client_id (clock_now st.world) st.cache) st
