-- ===== src/Cimd/Sound.antt =====
-- Which clients the fetcher gives out over any run of lookups: internal/adapter/mcp/cimd.go.
use authgate.Prelude.{
  ℕ, ◌≡◌, refl, sym, ◌∙◌, ap, inl, inr, Bool, true, false, Option, none, some, List, [], ◌∷◌,
  String, Bytes, str_eq, eq_iff, ltb, arith, Result, ok, err, Bool-cases, Option-cases, ◌==◌, ◌≤◌,
  length,
}
use authgate.Client.{Model}
use authgate.Cimd.Url.{is_cimd_client_id, is_canonical_cimd_client_id}
use authgate.Cimd.Hosts.{allows_client_id}
use authgate.Cimd.Metadata.{CimdMetadata, validate_cimd_metadata}
use authgate.Cimd.Documents.{IsDescribed, check_metadata-IsDescribed}
use authgate.Cimd.Fetcher.{
  IsLru, CacheEntry, FetchError, Response, Fetcher, FetchState, fetch, fetch_client, cached, settle,
  read_response, is_json, max_cimd_doc_size, from_cache, try_fetch, is_rate_limited,
}

-- What happens to a fetcher: a lookup, or anything outside it that changes the world, as time does.
pub data Event (W : Type 0) : Type 0 where
  look : String → Event W
  wait : W → Event W

abbrev with_ttl : ℕ → Result FetchError Model → Result FetchError (Model × ℕ)
with_ttl ttl (ok c) = ok (c, ttl)
with_ttl ttl (err e) = err e

module _ {W : Type 0} (f : Fetcher W) where
  open f use {lib, hosts, decode, clock_now, http_get, cache_lru, failure_lru}

  unfoldable pub run : List (Event W) → FetchState f → FetchState f
  unfolding fetch_client
  run [] st = st
  run (look client_id ∷ events) st = run events (fetch_client f client_id st).1
  run (wait w ∷ events) st = run events (record st { world = w })

  -- A client that is described by a document of at most 10240 bytes which its client_id, as a URL, has
  -- served, with status 200 and as application/json.
  pub record IsServed (client_id : String) (c : Model) : Type 0 where
    pub world : W
    pub response : Response
    pub body : Bytes
    pub document : CimdMetadata
    pub got : (http_get client_id world).0 ≡ some response
    pub accepted : (response.status_code == 200) ≡ true
    pub as_json : is_json f response.media_type ≡ true
    pub read : response.body ≡ some body
    pub is_small : length body ≤ max_cimd_doc_size
    pub decoded : decode body ≡ some document
    pub described : IsDescribed client_id document c

  -- Every client in the cache was served under its key.
  pub record IsSound (t : cache_lru.Table) : Type 0 where
    pub at :
        (k : String) (e : CacheEntry) (c : Model)
        → (cache_lru.get k t).0 ≡ some e
        → e.client ≡ ok c
        → IsServed k c

  abbrev Good : String → Result FetchError Model → Type 0
  Good client_id r = (c : Model) → r ≡ ok c → IsServed client_id c

  validate_cimd_metadata-IsDescribed :
      (body : Bytes) (client_id : String) (c : Model)
      → validate_cimd_metadata lib decode body client_id ≡ ok c
      → (meta : CimdMetadata) × (decode body ≡ some meta) × IsDescribed client_id meta c
  unfolding validate_cimd_metadata
  validate_cimd_metadata-IsDescribed body client_id c e = elim (Option-cases (decode body)) [
    | inl bad ↦ absurd (ground (arith, e, bad))
    | inr (meta, good) ↦
        (meta, good, check_metadata-IsDescribed lib client_id meta c (ground (arith, e, good)))
  ]

  body_read :
      (client_id : String) (r : Response) (c : Model) (ttl : ℕ)
      → read_response f client_id (some r) ≡ ok (c, ttl)
      → (body : Bytes) × (r.body ≡ some body)
        × (length body ≤ max_cimd_doc_size)
        × ((r.status_code == 200) ≡ true)
        × (is_json f r.media_type ≡ true)
        × (validate_cimd_metadata lib decode body client_id ≡ ok c)
  unfolding read_response
  body_read client_id r c ttl e = elim (Option-cases r.body) [
    | inl bad ↦ absurd (ground (arith, e, bad))
    | inr (body, good) ↦ (
      body,
      good,
      ground (arith, e, good),
      ground (arith, e, good),
      ground (arith, e, good),
      ground (arith, e, good),
    )
  ]

  response_lem :
      (client_id : String) (w : W) (r : Option Response) (c : Model) (ttl : ℕ)
      → (http_get client_id w).0 ≡ r
      → read_response f client_id r ≡ ok (c, ttl)
      → IsServed client_id c
  unfolding read_response
  response_lem client_id w none c ttl got e = absurd (ground (arith, e))
  response_lem client_id w (some r) c ttl got e =
      let (body, read, is_small, accepted, as_json, valid) = body_read client_id r c ttl e in
      let (document, decoded, described) =
        validate_cimd_metadata-IsDescribed body client_id c valid in
      record {
        world = w;
        response = r;
        body = body;
        document = document;
        got = got;
        accepted = accepted;
        as_json = as_json;
        read = read;
        is_small = is_small;
        decoded = decoded;
        described = described;
      }

  entry_client : (a b : CacheEntry) → some a ≡ some b → a.client ≡ b.client
  entry_client a b e = ground (arith, e)

  -- A lookup keeps the cache sound, and a client that it answers with was served.
  abbrev After : String → Result FetchError Model × FetchState f → Type 0
  After client_id (r, st) = Good client_id r × IsSound st.cache

  module _ (laws : IsLru cache_lru) where
    get-IsSound : (k : String) (t : cache_lru.Table) → IsSound t → IsSound (cache_lru.get k t).1
    get-IsSound k t sound = record {
      at = λ j e c found. sound.at j e c (sym (laws.get-get j k t) ∙ found);
    }

    remove-IsSound : (k : String) (t : cache_lru.Table) → IsSound t → IsSound (cache_lru.remove k t)
    remove-IsSound k t sound = record {
      at = λ j e c found. elim (laws.get-remove j k t) [
        | inl gone ↦ ground (arith, gone, found)
        | inr kept ↦ sound.at j e c (sym kept ∙ found)
      ];
    }

    added :
        (j k : String) (entry e : CacheEntry) (t : cache_lru.Table) (c : Model)
        → Good k entry.client
        → j ≡ k
        → (cache_lru.get j (cache_lru.add k entry t)).0 ≡ some e
        → e.client ≡ ok c
        → IsServed j c
    added j k entry e t c good same found is_client = rw same (
        good c (
          entry_client entry e (
            sym (laws.get-add k entry t)
            ∙ (ap (λ x. (cache_lru.get x (cache_lru.add k entry t)).0) (sym same) ∙ found))
          ∙ is_client))

    add-IsSound :
        (k : String) (entry : CacheEntry) (t : cache_lru.Table)
        → IsSound t
        → Good k entry.client
        → IsSound (cache_lru.add k entry t)
    add-IsSound k entry t sound good = record {
      at = λ j e c found is_client. elim (Bool-cases (str_eq j k)) [
        | inr other ↦ elim (laws.get-add_other j k entry t other) [
          | inl gone ↦ ground (arith, gone, found)
          | inr kept ↦ sound.at j e c (sym kept ∙ found) is_client
        ]
        | inl same ↦ added j k entry e t c good ((eq_iff j k).0 same) found is_client
      ];
    }

    settle_sound :
        (client_id : String) (r : Result FetchError (Model × ℕ)) (st : FetchState f)
        → IsSound st.cache
        → ((c : Model) (ttl : ℕ) → r ≡ ok (c, ttl) → IsServed client_id c)
        → After client_id (settle f client_id r st)
    settle_sound client_id (err e) st sound good =
        (λ c is_ok. cc, add-IsSound client_id _ st.cache sound (λ c is_ok. cc))
    settle_sound client_id (ok (c, ttl)) st sound good = (
      described,
      elim (Bool-cases (ltb 0 ttl)) [
        | inl long ↦ rw long (add-IsSound client_id _ st.cache sound described)
        | inr short ↦ rw short sound
      ],
    )
      where
        described : Good client_id (ok c)
        described d is_d = good d ttl (ap (with_ttl ttl) is_d)

    fetch_sound :
        (client_id : String) (st : FetchState f)
        → IsSound st.cache
        → After client_id (fetch f client_id st)
    unfolding fetch
    fetch_sound client_id st sound =
        settle_sound client_id (read_response f client_id (http_get client_id st.world).0)
          (record st { world = (http_get client_id st.world).1 }) sound
          (λ c ttl. response_lem client_id st.world (http_get client_id st.world).0 c ttl refl)

    try_sound :
        (client_id : String) (limit : Bool × failure_lru.Table) (st : FetchState f)
        → IsSound st.cache
        → After client_id (try_fetch f client_id limit st)
    try_sound client_id (true, t) st sound = (λ c is_ok. cc, sound)
    try_sound client_id (false, t) st sound =
        fetch_sound client_id (record st { failures = t }) sound

    cached_sound :
        (client_id : String) (now : ℕ) (found : Option CacheEntry × cache_lru.Table)
        (st : FetchState f)
        → IsSound found.1
        → ((e : CacheEntry) → found.0 ≡ some e → Good client_id e.client)
        → After client_id (from_cache f client_id (cached f client_id now found) st)
    cached_sound client_id now (none, t) st sound good =
        try_sound client_id (is_rate_limited f client_id (clock_now st.world) st.failures)
          (record st { cache = t }) sound
    cached_sound client_id now (some e, t) st sound good =
        elim (Bool-cases (ltb now e.expires_at)) [
          | inl fresh ↦ rw fresh (good e refl, sound)
          | inr stale ↦ rw stale (
              try_sound client_id (is_rate_limited f client_id (clock_now st.world) st.failures)
                (record st { cache = cache_lru.remove client_id t })
                (remove-IsSound client_id t sound))
        ]

    fetch_client_sound :
        (client_id : String) (st : FetchState f)
        → IsSound st.cache
        → After client_id (fetch_client f client_id st)
    unfolding fetch_client
    fetch_client_sound client_id st sound = elim (Bool-cases (is_cimd_client_id lib client_id)) [
      | inr other ↦ rw other (λ c is_ok. cc, sound)
      | inl url ↦ elim (Bool-cases (is_canonical_cimd_client_id lib client_id)) [
        | inr loose ↦ rw (url, loose) (λ c is_ok. cc, sound)
        | inl canonical ↦ elim (Bool-cases (allows_client_id lib hosts client_id)) [
          | inr closed ↦ rw (url, canonical, closed) (λ c is_ok. cc, sound)
          | inl allowed ↦
              rw (url, canonical, allowed)
                (cached_sound client_id (clock_now st.world) (cache_lru.get client_id st.cache) st
                  (get-IsSound client_id st.cache sound)
                  (λ e found c is_client. sound.at client_id e c found is_client))
        ]
      ]
    ]

    run-IsSound :
        (events : List (Event W)) (st : FetchState f)
        → IsSound st.cache
        → IsSound (run events st).cache
    unfolding run
    run-IsSound [] st sound = sound
    run-IsSound (look client_id ∷ events) st sound =
        run-IsSound events (fetch_client f client_id st).1 (fetch_client_sound client_id st sound).1
    run-IsSound (wait w ∷ events) st sound = run-IsSound events (record st { world = w }) sound

    -- After any run of lookups from an empty cache, with any changes of the world between them and
    -- whatever the hosts serve, a client that a lookup answers with was served (`IsServed`): its client_id,
    -- as a URL, answered some request with status 200 and a JSON document of at most 10240 bytes which
    -- names that client_id (or it without its query), and the client has the document's name,
    -- redirect_uris and known grants, is public, of the mcp channel, with PKCE, and within the limits.
    pub fetch_client-run-IsServed :
        (events : List (Event W)) (st : FetchState f) (client_id : String) (c : Model)
        → ((k : String) → (cache_lru.get k st.cache).0 ≡ none)
        → (fetch_client f client_id (run events st)).0 ≡ ok c
        → IsServed client_id c
    fetch_client-run-IsServed events st client_id c empty answered =
        (fetch_client_sound client_id (run events st) (
            run-IsSound events st
              (record { at = λ k e d found is_client. ground (arith, empty k, found) }))).0
          c answered
