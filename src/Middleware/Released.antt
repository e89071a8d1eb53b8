-- ===== src/Middleware/Released.antt =====
-- internal/middleware/access_token_typ.go: which token responses are released.
use authgate.Prelude.{
  ◌≡◌, ◌⊎◌, inl, inr, refl, sym, true, false, some, List, [], ◌∷◌, String, Bytes, bytes_eq, codes,
  length, ◌==◌, arith, ok, ◌>>=◌, >>=-eq-ok, ok-injective, Bool-cases, Result-cases,
}
use authgate.Signing.Json.{Json, text, null, Members}
use authgate.Cimd.CacheControl.{split}
use authgate.Middleware.Scoped.{IsScoped, with_scope_claim-IsScoped}
use authgate.Signing.Keys.{get_field}
use authgate.Middleware.Bound.{or_error-ok, IsBound, rebind_id_token_at_hash-IsBound}
use authgate.Middleware.TokenProfile.{
  Library, UpgradeError, RecordedResponse, or_error, string_of, asserted_string, parts_of,
  set_field, with_scope_claim, rebind_id_token_at_hash, resign, upgrade_header, upgrade_parts,
  upgrade_access_token_typ, rewritten, server_error, wrap_access_token_jwt_type,
}

module _ {Key : Type 0} (lib : Library Key) where
  -- The access token of a response, which is a compact JWS.
  abbrev pub IsPresented : Members → Bytes → Bytes → Bytes → Type 0
  IsPresented response head payload signature =
      (token : Bytes) × (get_field (codes "access_token") response ≡ some (text token))
      × (parts_of token ≡ head ∷ payload ∷ signature ∷ [])

  -- A body whose access token is signed again as at+jwt over its own claims with the scope of the
  -- response, the id token bound to it, and nothing else changed.
  abbrev pub IsResigned : Bytes → Bytes → Type 0
  IsResigned body released =
      (response out : Members) × (key : Key) × (head payload signature decoded claims
        access_token : Bytes)
      × (lib.unmarshal body ≡ some response)
      × IsPresented response head payload signature
      × (lib.base64_decode payload ≡ some decoded)
      × IsScoped lib decoded response claims
      × (lib.current_signing_key ≡ some key)
      × (lib.sign_jws key (codes "at+jwt") claims ≡ some access_token)
      × (get_field (codes "access_token") out ≡ some (text access_token))
      × IsBound lib key access_token response out
      × (lib.marshal out ≡ some released)

  -- A body whose access token has the type already.
  abbrev pub HasProfile : Bytes → Type 0
  HasProfile body =
      (response header : Members) × (head payload signature header_json : Bytes) × (lib.unmarshal
          body
        ≡ some response)
      × IsPresented response head payload signature
      × (lib.base64_decode head ≡ some header_json)
      × (lib.unmarshal header_json ≡ some header)
      × (bytes_eq (asserted_string (get_field (codes "typ") header)) (codes "at+jwt") ≡ true)

  resign-IsResigned :
      (response : Members) (body head payload signature decoded released : Bytes)
      → lib.unmarshal body ≡ some response
      → IsPresented response head payload signature
      → lib.base64_decode payload ≡ some decoded
      → resign lib response decoded ≡ ok released
      → IsResigned body released
  unfolding resign
  resign-IsResigned response body head payload signature decoded released read presented plain e =
      let (scoped, h1, e1) = >>=-eq-ok (with_scope_claim lib decoded response) _ e in
      let (key, h2, e2) =
        >>=-eq-ok (or_error UpgradeError.no_signing_key lib.current_signing_key) _ e1 in
      let (token, h3, e3) =
        >>=-eq-ok (or_error UpgradeError.cannot_sign (lib.sign_jws key (codes "at+jwt") scoped)) _
          e2 in
      let (out, h4, e4) =
        >>=-eq-ok
          (rebind_id_token_at_hash lib key (set_field (codes "access_token") (text token) response)
            token)
          _ e3 in
      let (bound, set) = rebind_id_token_at_hash-IsBound lib key response out token h4 in
      (
        response,
        out,
        key,
        head,
        payload,
        signature,
        decoded,
        scoped,
        token,
        read,
        presented,
        plain,
        with_scope_claim-IsScoped lib decoded response scoped h1,
        or_error-ok _ lib.current_signing_key key h2,
        or_error-ok _ (lib.sign_jws key (codes "at+jwt") scoped) token h3,
        set,
        bound,
        or_error-ok _ (lib.marshal out) released e4,
      )

  -- What may be released in place of a body.
  abbrev pub IsReleased : Bytes → Bytes → Type 0
  IsReleased body released = ((released ≡ body) × HasProfile body) ⊎ IsResigned body released

  upgrade_header-IsReleased :
      (response header : Members) (body head payload signature header_json released : Bytes)
      → lib.unmarshal body ≡ some response
      → IsPresented response head payload signature
      → lib.base64_decode head ≡ some header_json
      → lib.unmarshal header_json ≡ some header
      → upgrade_header lib body response payload header ≡ ok released
      → IsReleased body released
  upgrade_header-IsReleased response header body head payload signature header_json released read
        presented decoded parsed e =
      let typ = bytes_eq (asserted_string (get_field (codes "typ") header)) (codes "at+jwt") in
      elim (Bool-cases typ) [
        | inl profiled ↦ inl (
          sym (ok-injective {Failure = UpgradeError} (ground (arith, e, profiled))),
          (
            response, header, head, payload, signature, header_json, read, presented, decoded,
            parsed, profiled,
          ),
        )
        | inr plain ↦
            let (claims, h, resigned) =
              >>=-eq-ok (or_error UpgradeError.invalid_base64 (lib.base64_decode payload))
                (resign lib response) (ground (arith, e, plain)) in
            inr (
              resign-IsResigned response body head payload signature claims released read presented
                (or_error-ok _ (lib.base64_decode payload) claims h) resigned)
      ]

  upgrade_parts-IsReleased :
      (response : Members) (body token released : Bytes) (parts : List Bytes)
      → lib.unmarshal body ≡ some response
      → get_field (codes "access_token") response ≡ some (text token)
      → parts_of token ≡ parts
      → upgrade_parts lib body response parts ≡ ok released
      → IsReleased body released
  unfolding upgrade_parts
  upgrade_parts-IsReleased response body token released [] read held split_up e = cc
  upgrade_parts-IsReleased response body token released (a ∷ []) read held split_up e = cc
  upgrade_parts-IsReleased response body token released (a ∷ b ∷ []) read held split_up e = cc
  upgrade_parts-IsReleased response body token released (a ∷ b ∷ c ∷ d ∷ ds) read held split_up e =
      cc
  upgrade_parts-IsReleased response body token released (head ∷ payload ∷ signature ∷ []) read held
        split_up e =
      let (header_json, h1, e1) =
        >>=-eq-ok (or_error UpgradeError.invalid_base64 (lib.base64_decode head)) _ e in
      let (header, h2, e2) =
        >>=-eq-ok (or_error UpgradeError.invalid_json (lib.unmarshal header_json)) _ e1 in
      upgrade_header-IsReleased response header body head payload signature header_json released
        read (token, held, split_up) (or_error-ok _ (lib.base64_decode head) header_json h1)
        (or_error-ok _ (lib.unmarshal header_json) header h2) e2

  -- A field that is no text has no parts.
  upgrade_raw-IsReleased :
      (response : Members) (body released : Bytes) (raw : Json)
      → lib.unmarshal body ≡ some response
      → get_field (codes "access_token") response ≡ some raw
      → (string_of raw >>= λ token. upgrade_parts lib body response (parts_of token)) ≡ ok released
      → IsReleased body released
  unfolding upgrade_parts parts_of split
  upgrade_raw-IsReleased response body released (text token) read held e =
      upgrade_parts-IsReleased response body token released (parts_of token) read held refl e
  upgrade_raw-IsReleased response body released null read held e = cc
  upgrade_raw-IsReleased response body released (Json.boolean b) read held e = cc
  upgrade_raw-IsReleased response body released (Json.number n) read held e = cc
  upgrade_raw-IsReleased response body released (Json.array xs) read held e = cc
  upgrade_raw-IsReleased response body released (Json.object xs) read held e = cc

  upgrade_access_token_typ-IsReleased :
      (body released : Bytes)
      → upgrade_access_token_typ lib body ≡ ok released
      → IsReleased body released
  unfolding upgrade_access_token_typ
  upgrade_access_token_typ-IsReleased body released e =
      let (response, h1, e1) =
        >>=-eq-ok (or_error UpgradeError.invalid_json (lib.unmarshal body)) _ e in
      let (raw, h2, e2) =
        >>=-eq-ok (or_error UpgradeError.skip_upgrade (get_field (codes "access_token") response)) _
          e1 in
      upgrade_raw-IsReleased response body released raw
        (or_error-ok _ (lib.unmarshal body) response h1)
        (or_error-ok _ (get_field (codes "access_token") response) raw h2) e2

  -- A token response of status 200 with a body leaves as a server error without any of that body; or as it
  -- is with status 200, its access_token a compact JWS whose header has the type at+jwt already; or with
  -- status 200 and that access_token signed again with this type, over its own claims with the scope of the
  -- response where they have none, and then the id token, where it has an at_hash, is signed again over its
  -- claims with the hash of the new access token, and no other member of the response changes.
  pub wrap_access_token_jwt_type-IsReleased :
      (outer : List (String × List String)) (recorded : RecordedResponse lib)
      → recorded.code ≡ 200
      → (length recorded.body == 0) ≡ false
      → (((wrap_access_token_jwt_type lib outer recorded).code ≡ 500)
          × ((wrap_access_token_jwt_type lib outer recorded).body ≡ server_error lib))
        ⊎ (((wrap_access_token_jwt_type lib outer recorded).code ≡ 200)
            × IsReleased recorded.body (wrap_access_token_jwt_type lib outer recorded).body)
  unfolding wrap_access_token_jwt_type rewritten
  wrap_access_token_jwt_type-IsReleased outer recorded good some_body =
      elim (Result-cases (upgrade_access_token_typ lib recorded.body)) [
        | inl (failure, same) ↦
            inl (ground (arith, good, some_body, same), ground (arith, good, some_body, same))
        | inr (released, same) ↦
            let sent : (wrap_access_token_jwt_type lib outer recorded).body ≡ released =
              ground (arith, good, some_body, same) in
            inr (
              ground (arith, good, some_body, same),
              rw sent (upgrade_access_token_typ-IsReleased recorded.body released same),
            )
      ]
