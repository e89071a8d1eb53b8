-- ===== src/Middleware/Bound.antt =====
-- internal/middleware/access_token_typ.go: the id token of a response whose access token is signed again.
use authgate.Prelude.{
  ◌≡◌, ◌⊎◌, inl, inr, refl, sym, ap, ◌∙◌, false, Option, none, some, List, [], ◌∷◌, Bytes, bytes_eq,
  codes, if◌then◌else◌, arith, ok, ◌>>=◌, >>=-eq-ok, ok-injective, Bool-cases, Option-cases,
}
use authgate.Signing.Json.{Json, text, null, Members, has_name}
use authgate.Signing.Keys.{get_field}
use authgate.Cimd.CacheControl.{split}
use authgate.Middleware.Fields.{get_field-set_field}
use authgate.Middleware.TokenProfile.{
  Library, UpgradeError, or_error, string_of, parts_of, set_field, resign_id_token, rebind_claims,
  rebind_parts, rebind_id_token_at_hash,
}

pub or_error-ok :
    {A : Type 0} (e : UpgradeError) (o : Option A) (a : A) → or_error e o ≡ ok a → o ≡ some a
or_error-ok e none a h = cc
or_error-ok e (some b) a h = ap some (ok-injective h)

-- The claims of the response's id token, if it is a compact JWS whose claims have an at_hash; `none` where
-- it has none, or where it cannot be read.
abbrev pub hash_claims : Option Members → Option Members
hash_claims none = none
hash_claims (some claims) = if has_name (codes "at_hash") claims then some claims else none

module _ {Key : Type 0} (lib : Library Key) where
  abbrev pub payload_claims : Option Bytes → Option Members
  payload_claims none = none
  payload_claims (some payload) = hash_claims (lib.unmarshal payload)

  abbrev pub parts_claims : List Bytes → Option Members
  parts_claims (header ∷ payload ∷ signature ∷ []) = payload_claims (lib.base64_decode payload)
  parts_claims _ = none

  abbrev pub id_token_claims : Option Json → Option Members
  id_token_claims (some (text s)) = parts_claims (parts_of s)
  id_token_claims _ = none

  -- The id token of what is released: the one of the response where that has no at_hash, and else one
  -- signed over its claims with the hash of the new access token. No other member of the response changes.
  abbrev pub IsBound : Key → Bytes → Members → Members → Type 0
  IsBound key access_token response out =
      ((id_token_claims (get_field (codes "id_token") response) ≡ none)
        × (get_field (codes "id_token") out ≡ get_field (codes "id_token") response)
        × (out ≡ set_field (codes "access_token") (text access_token) response))
      ⊎ ((claims : Members) × (hash payload id_token : Bytes) × (id_token_claims
              (get_field (codes "id_token") response)
            ≡ some claims)
          × (lib.claim_hash key access_token ≡ some hash)
          × (lib.marshal (set_field (codes "at_hash") (text hash) claims) ≡ some payload)
          × (lib.sign_jws key (codes "JWT") payload ≡ some id_token)
          × (get_field (codes "id_token") out ≡ some (text id_token))
          × (out
              ≡ set_field (codes "id_token") (text id_token)
                  (set_field (codes "access_token") (text access_token) response)))

  other_name : bytes_eq (codes "access_token") (codes "id_token") ≡ false
  unfolding bytes_eq
  other_name = refl

  access_name : bytes_eq (codes "id_token") (codes "access_token") ≡ false
  unfolding bytes_eq
  access_name = refl

  resign_id_token-IsBound :
      (key : Key) (response out claims : Members) (access_token : Bytes)
      → id_token_claims (get_field (codes "id_token") response) ≡ some claims
      → resign_id_token lib key
          (set_field (codes "access_token") (text access_token) response)
          access_token
          claims
        ≡ ok out
      → IsBound key access_token response out
        × (get_field (codes "access_token") out ≡ some (text access_token))
  unfolding resign_id_token
  resign_id_token-IsBound key response out claims access_token had e =
      let (hash, h1, e1) =
        >>=-eq-ok (or_error UpgradeError.cannot_hash (lib.claim_hash key access_token)) _ e in
      let (payload, h2, e2) =
        >>=-eq-ok
          (or_error UpgradeError.invalid_json
            (lib.marshal (set_field (codes "at_hash") (text hash) claims)))
          _ e1 in
      let (id_token, h3, e3) =
        >>=-eq-ok (or_error UpgradeError.cannot_sign (lib.sign_jws key (codes "JWT") payload)) _
          e2 in
      rw (sym (ok-injective e3)) (
        inr (
          claims,
          hash,
          payload,
          id_token,
          had,
          or_error-ok _ (lib.claim_hash key access_token) hash h1,
          or_error-ok _ (lib.marshal (set_field (codes "at_hash") (text hash) claims)) payload h2,
          or_error-ok _ (lib.sign_jws key (codes "JWT") payload) id_token h3,
          (get_field-set_field (codes "id_token") [] (text id_token)
              (set_field (codes "access_token") (text access_token) response)).0,
          refl,
        ),
        (get_field-set_field (codes "access_token") (codes "id_token") (text id_token)
                (set_field (codes "access_token") (text access_token) response)).1
              access_name
            ∙ (get_field-set_field (codes "access_token") [] (text access_token) response).0,
      )

  -- An id token that is left alone.
  untouched :
      (key : Key) (response out : Members) (access_token : Bytes)
      → id_token_claims (get_field (codes "id_token") response) ≡ none
      → set_field (codes "access_token") (text access_token) response ≡ out
      → IsBound key access_token response out
        × (get_field (codes "access_token") out ≡ some (text access_token))
  untouched key response out access_token free same = rw (sym same) (
    inl (
      free,
      (get_field-set_field (codes "id_token") (codes "access_token") (text access_token) response).1
          other_name,
      refl,
    ),
    (get_field-set_field (codes "access_token") [] (text access_token) response).0,
  )

  rebind_claims_lem :
      (key : Key) (response out claims : Members) (access_token : Bytes)
      → rebind_claims lib key response access_token claims ≡ ok out
      → ((hash_claims (some claims) ≡ none) × (response ≡ out))
        ⊎ ((hash_claims (some claims) ≡ some claims)
            × (resign_id_token lib key response access_token claims ≡ ok out))
  unfolding rebind_claims
  rebind_claims_lem key response out claims access_token e =
      elim (Bool-cases (has_name (codes "at_hash") claims)) [
        | inl bound ↦ inr (rw bound refl, ground (arith, e, bound))
        | inr free ↦
            inl (rw free refl, ok-injective {Failure = UpgradeError} (ground (arith, e, free)))
      ]

  rebind_parts_lem :
      (key : Key) (response out : Members) (access_token : Bytes) (parts : List Bytes)
      → rebind_parts lib key response access_token parts ≡ ok out
      → ((parts_claims parts ≡ none) × (response ≡ out))
        ⊎ ((claims : Members) × (parts_claims parts ≡ some claims)
            × (resign_id_token lib key response access_token claims ≡ ok out))
  unfolding rebind_parts
  rebind_parts_lem key response out access_token [] e = inl (refl, ok-injective e)
  rebind_parts_lem key response out access_token (a ∷ []) e = inl (refl, ok-injective e)
  rebind_parts_lem key response out access_token (a ∷ b ∷ []) e = inl (refl, ok-injective e)
  rebind_parts_lem key response out access_token (a ∷ b ∷ c ∷ d ∷ ds) e = inl (refl, ok-injective e)
  rebind_parts_lem key response out access_token (header ∷ payload ∷ signature ∷ []) e =
      let (decoded, h1, e1) =
        >>=-eq-ok (or_error UpgradeError.invalid_base64 (lib.base64_decode payload)) _ e in
      let (claims, h2, e2) =
        >>=-eq-ok (or_error UpgradeError.invalid_json (lib.unmarshal decoded)) _ e1 in
      let read : payload_claims (lib.base64_decode payload) ≡ hash_claims (some claims) =
        ap payload_claims (or_error-ok _ (lib.base64_decode payload) decoded h1)
        ∙ ap hash_claims (or_error-ok _ (lib.unmarshal decoded) claims h2) in
      elim (rebind_claims_lem key response out claims access_token e2) [
        | inl (free, same) ↦ inl (read ∙ free, same)
        | inr (bound, resigned) ↦ inr (claims, read ∙ bound, resigned)
      ]

  raw_lem :
      (key : Key) (response out : Members) (access_token : Bytes) (raw : Json)
      → (string_of raw >>= λ t. rebind_parts lib key response access_token (parts_of t)) ≡ ok out
      → ((id_token_claims (some raw) ≡ none) × (response ≡ out))
        ⊎ ((claims : Members) × (id_token_claims (some raw) ≡ some claims)
            × (resign_id_token lib key response access_token claims ≡ ok out))
  unfolding rebind_parts parts_of split
  raw_lem key response out access_token (text t) e =
      rebind_parts_lem key response out access_token (parts_of t) e
  raw_lem key response out access_token null e = inl (refl, ok-injective e)
  raw_lem key response out access_token (Json.boolean b) e = cc
  raw_lem key response out access_token (Json.number n) e = cc
  raw_lem key response out access_token (Json.array xs) e = cc
  raw_lem key response out access_token (Json.object xs) e = cc

  pub rebind_id_token_at_hash-IsBound :
      (key : Key) (response out : Members) (access_token : Bytes)
      → rebind_id_token_at_hash lib key
          (set_field (codes "access_token") (text access_token) response)
          access_token
        ≡ ok out
      → IsBound key access_token response out
        × (get_field (codes "access_token") out ≡ some (text access_token))
  unfolding rebind_id_token_at_hash
  rebind_id_token_at_hash-IsBound key response out access_token e =
      let changed = set_field (codes "access_token") (text access_token) response in
      let same_field : get_field (codes "id_token") changed
          ≡ get_field (codes "id_token") response =
        (get_field-set_field (codes "id_token") (codes "access_token") (text access_token)
            response).1
          other_name in
      elim (Option-cases (get_field (codes "id_token") response)) [
        | inl missing ↦
            untouched key response out access_token (ap id_token_claims missing)
              (ok-injective {Failure = UpgradeError} (ground (arith, e, same_field, missing)))
        | inr (raw, found) ↦
            elim (raw_lem key changed out access_token raw (ground (arith, e, same_field, found))) [
              | inl (free, same) ↦
                  untouched key response out access_token (ap id_token_claims found ∙ free) same
              | inr (claims, bound, resigned) ↦
                  resign_id_token-IsBound key response out claims access_token
                    (ap id_token_claims found ∙ bound) resigned
            ]
      ]
