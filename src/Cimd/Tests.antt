-- ===== src/Cimd/Tests.antt =====
-- A fetcher of one document, with an LRU that never forgets, and the theorems at it.
use authgate.Prelude.{
  ℕ, ◌+◌, ◌*◌, ◌≡◌, ◌≤◌, ◌↔◌, refl, inl, inr, true, false, Option, none, some, List, [], ◌∷◌,
  String, codes, bytes_eq, str_eq, eq_iff, if◌then◌else◌, arith, ok, Bool-cases,
}
use authgate.Client.{Model}
use authgate.DomainName.{valid}
use authgate.Cimd.Url.{Library, is_cimd_client_id, is_canonical_cimd_client_id, canonical_cimd_key}
use authgate.Cimd.Hosts.{CimdHostPolicy, new_cimd_host_policy, allows_client_id, add_hosts}
use authgate.Cimd.CacheControl.{
  nanosecond, cache_ttl_from_cache_control, clamp, parse_cache_control_ttl, directives_ttl, split,
  positive_int64, digits_from,
}
use authgate.Cimd.Metadata.{
  CimdMetadata, check_metadata, cimd_model, len, check_redirect_uris, known_grant_types,
  strip_cimd_query, supported_cimd_grant_types, cimd_client_offers_none, validate_cimd_metadata,
}
use authgate.Cimd.Fetcher.{
  Lru, IsLru, CacheEntry, Fetcher, FetchState, fetch, fetch_client, read_response,
  prune_old_timestamps,
}
use authgate.Cimd.Lifetimes.{cache_ttl_from_cache_control_bounds}
use authgate.Cimd.Allowed.{Admits, allows_client_id-new_iff}
use authgate.Cimd.Documents.{IsCimdClient, check_metadata-IsCimdClient}
use authgate.Cimd.Sound.{look, wait, run, IsServed, fetch_client-run-IsServed}
use authgate.Cimd.Again.{fetch_client-again}
use authgate.Strings.{trim_space, has_prefix, trim_prefix}
use authgate.ClientAccess.Normalize.{ascii_lower}

-- The last value written for each key; `none` for a removed one.
abbrev Entries : Type 0 → Type 0
Entries V = List (String × Option V)

abbrev find_entry : {V : Type 0} → String → Entries V → Option V
find_entry k [] = none
find_entry k ((j, v) ∷ t) = let rest = find_entry k t in if str_eq k j then v else rest

abbrev list_lru : (V : Type 0) → Lru V
list_lru V = record {
  Table = Entries V;
  get = λ k t. (find_entry k t, t);
  add = λ k v t. (k, some v) ∷ t;
  remove = λ k t. (k, none) ∷ t;
  write = λ k v t. (k, some v) ∷ t;
}

str_eq_self : (k : String) → str_eq k k ≡ true
str_eq_self k = (eq_iff k k).1 refl

list_lru-IsLru : (V : Type 0) → IsLru (list_lru V)
list_lru-IsLru V = record {
  get-add = λ k v t. rw (str_eq_self k) refl;
  get-write = λ k v w t e. rw (str_eq_self k) refl;
  get-add_other = λ k j v t other. inr (rw other refl);
  get-remove = λ k j t. elim (Bool-cases (str_eq k j)) [
    | inl same ↦ inl (rw same refl)
    | inr other ↦ inr (rw other refl)
  ];
  get-get = λ k j t. refl;
}

abbrev document_url : String
document_url = "https://claude.ai/client"

abbrev library : Library
library = record {
  parse = λ s. some (record {
    scheme = "https";
    has_user = false;
    host = "claude.ai";
    path = "/client";
    raw_path = "";
    raw_query = "";
    fragment = "";
  });
  parse_request_uri = λ s. some (record {
    scheme = "https";
    has_user = false;
    host = "claude.ai";
    path = "/client";
    raw_path = "";
    raw_query = "";
    fragment = "";
  });
  hostname = λ u. u.host;
  port = λ u. "";
  to_string = λ u. document_url;
  query_get = λ u key. "";
  clean = λ path. path;
  to_lower = λ s. s;
}

abbrev document : CimdMetadata
document = record {
  client_id = document_url;
  client_name = "Claude";
  redirect_uris = "https://claude.ai/callback" ∷ [];
  grant_types = "refresh_token" ∷ "authorization_code" ∷ "implicit" ∷ [];
  response_types = "code" ∷ [];
  token_endpoint_auth_method = "";
  token_endpoint_auth_methods_supported = [];
}

abbrev claude : Model
claude = cimd_model document_url document ("refresh_token" ∷ "authorization_code" ∷ [])

abbrev only_claude : CimdHostPolicy
only_claude = record { allows_any = false; hosts = "claude.ai" ∷ [] }

-- The world is the time; a request takes one second.
abbrev fetcher : CimdHostPolicy → Fetcher ℕ
fetcher policy = record {
  lib = library;
  hosts = policy;
  decode = λ body. some document;
  http_get = λ url time. (
    some (record {
      status_code = 200;
      media_type = some "application/json";
      cache_control = codes "public, max-age=60";
      body = some [];
    }),
    time + nanosecond,
  );
  clock_now = λ time. time;
  cache_ttl = 300 * nanosecond;
  cache_lru = list_lru CacheEntry;
  failure_lru = list_lru (List ℕ);
}

abbrev unused : (policy : CimdHostPolicy) → FetchState (fetcher policy)
unused policy = record { cache = []; failures = []; world = 1000 * nanosecond }

-- All that a run calls.
evaluated : Unit {0}
unfolding fetch_client fetch read_response run is_cimd_client_id is_canonical_cimd_client_id
    canonical_cimd_key new_cimd_host_policy add_hosts allows_client_id valid validate_cimd_metadata
    check_metadata check_redirect_uris supported_cimd_grant_types known_grant_types
    cimd_client_offers_none strip_cimd_query len cache_ttl_from_cache_control
    parse_cache_control_ttl directives_ttl positive_int64 digits_from split clamp trim_space
    has_prefix trim_prefix ascii_lower prune_old_timestamps bytes_eq
evaluated = tt

fetches :
    (check_metadata library document_url document ≡ ok claude)
    × ((fetch_client (fetcher only_claude) document_url (unused only_claude)).0 ≡ ok claude)
    × (cache_ttl_from_cache_control (codes "public, Max-Age=60") 0 ≡ 60 * nanosecond)
    × (cache_ttl_from_cache_control (codes "no-store") 0 ≡ 5 * nanosecond)
    × (cache_ttl_from_cache_control (codes "max-age=99999999") 0 ≡ 86400 * nanosecond)
    × (cache_ttl_from_cache_control (codes "max-age=9223372037") 0 ≡ 5 * nanosecond)
    × (cache_ttl_from_cache_control [] (300 * nanosecond) ≡ 300 * nanosecond)
unfolding evaluated
fetches = (refl, refl, refl, refl, refl, refl, refl)

cache_ttl_from_cache_control_bounds_example :
    (5 * nanosecond ≤ cache_ttl_from_cache_control (codes "max-age=9223372037") 0)
    × (cache_ttl_from_cache_control (codes "max-age=9223372037") 0 ≤ 86400 * nanosecond)
cache_ttl_from_cache_control_bounds_example =
    cache_ttl_from_cache_control_bounds (codes "max-age=9223372037") 0

allows_client_id-new_iff_example :
    (allows_client_id library only_claude document_url ≡ true)
    ↔ Admits library ("claude.ai" ∷ []) document_url
unfolding evaluated
allows_client_id-new_iff_example =
    allows_client_id-new_iff library ("claude.ai" ∷ []) only_claude document_url refl

check_metadata-IsCimdClient_example : IsCimdClient document_url claude
unfolding evaluated
check_metadata-IsCimdClient_example =
    check_metadata-IsCimdClient library document_url document claude refl

fetch_client-run-IsServed_example : IsServed (fetcher only_claude) document_url claude
unfolding evaluated
fetch_client-run-IsServed_example =
    fetch_client-run-IsServed (fetcher only_claude) (list_lru-IsLru CacheEntry)
      (look document_url ∷ wait (1010 * nanosecond) ∷ []) (unused only_claude) document_url claude
      (λ k. refl) refl

fetch_client-again_example :
    ((fetch_client
        (fetcher only_claude)
        document_url
        (record (fetch (fetcher only_claude) document_url (unused only_claude)).1 {
          world = 1003 * nanosecond;
        })).0
      ≡ (fetch (fetcher only_claude) document_url (unused only_claude)).0)
    × ((fetch_client
          (fetcher only_claude)
          document_url
          (record (fetch (fetcher only_claude) document_url (unused only_claude)).1 {
            world = 1003 * nanosecond;
          })).1.world
        ≡ 1003 * nanosecond)
unfolding evaluated
fetch_client-again_example =
    fetch_client-again (fetcher only_claude) (list_lru-IsLru CacheEntry) document_url
      (unused only_claude) (1003 * nanosecond) refl refl refl (omega arith)

abbrev nobody : CimdHostPolicy
nobody = record { allows_any = false; hosts = "chatgpt.com" ∷ [] }
