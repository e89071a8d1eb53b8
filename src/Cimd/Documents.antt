-- ===== src/Cimd/Documents.antt =====
-- What a document that is taken as a client says: internal/adapter/mcp/cimd_validate.go.
use authgate.Prelude.{
  ◌≡◌, ◌≤◌, ◌⊎◌, refl, sym, ap, ◌∙◌, inl, inr, true, false, List, [], ◌∷◌, ◌++◌, String, str_eq,
  arith, ok, All, All-append, length, Result-cases, ◌&&◌, not, ◌||◌, Bool-cases, eq_iff,
}
use authgate.Client.{Model}
use authgate.Cimd.Url.{Library}
use authgate.Cimd.Metadata.{
  CimdMetadata, len, check_redirect_uris, contains, known_grant_types, supported_cimd_grant_types,
  strip_cimd_query, check_metadata, cimd_model,
}

abbrev pub IsUriLength : String → Type 0
IsUriLength uri = (1 ≤ len uri) × (len uri ≤ 2048)

abbrev pub IsKnown : String → Type 0
IsKnown grant = (str_eq grant "authorization_code" || str_eq grant "refresh_token") ≡ true

-- A public client of the mcp channel with its own client_id, no access policy and PKCE required, one
-- to ten redirect_uris of a bounded length, and no grant but authorization_code and refresh_token.
pub record IsCimdClient (client_id : String) (c : Model) : Type 0 where
  pub own_id : c.id ≡ client_id
  pub is_public : c.kind ≡ "public"
  pub over_mcp : c.login_channel ≡ "mcp"
  pub with_pkce : c.skip_pkce ≡ false
  pub some_uris : 1 ≤ length c.redirect_uri_list
  pub few_uris : length c.redirect_uri_list ≤ 10
  pub uri_lengths : All IsUriLength c.redirect_uri_list
  pub with_code : contains "authorization_code" c.allowed_grant_type_list ≡ true
  pub known_grants : All IsKnown c.allowed_grant_type_list

check_redirect_uris_lem :
    (uris : List String) → check_redirect_uris uris ≡ ok tt → All IsUriLength uris
unfolding check_redirect_uris
check_redirect_uris_lem [] e = tt
check_redirect_uris_lem (uri ∷ uris) e =
    ((ground arith, ground arith), check_redirect_uris_lem uris (ground arith))

known_grant_types_lem :
    (grants kept : List String) → All IsKnown kept → All IsKnown (known_grant_types grants kept)
unfolding known_grant_types
known_grant_types_lem [] kept h = h
known_grant_types_lem (g ∷ grants) kept h =
    elim (Bool-cases
      ((str_eq g "authorization_code" || str_eq g "refresh_token") && not (contains g kept))) [
        | inl new ↦ rw new (
            known_grant_types_lem grants (kept ++ g ∷ [])
              (All-append IsKnown kept (g ∷ []) h (ground (arith, new), tt)))
        | inr old ↦ rw old (known_grant_types_lem grants kept h)
      ]

kept_cases :
    (grants kept : List String)
    → supported_cimd_grant_types grants ≡ ok kept
    → ("authorization_code" ∷ [] ≡ kept)
      ⊎ ((known_grant_types grants [] ≡ kept)
          × (contains "authorization_code" (known_grant_types grants []) ≡ true))
unfolding supported_cimd_grant_types
kept_cases grants kept e = ground arith

supported_lem :
    (grants kept : List String)
    → supported_cimd_grant_types grants ≡ ok kept
    → (contains "authorization_code" kept ≡ true) × All IsKnown kept
supported_lem grants kept e = elim (kept_cases grants kept e) [
  | inl bare ↦ rw (← bare) (refl, (refl, tt))
  | inr (given, has_code) ↦ rw (← given) (has_code, known_grant_types_lem grants [] tt)
]

accepted :
    (lib : Library) (client_id : String) (meta : CimdMetadata) (c : Model)
    → check_metadata lib client_id meta ≡ ok c
    → (grants : List String) × (supported_cimd_grant_types meta.grant_types ≡ ok grants)
      × (check_redirect_uris meta.redirect_uris ≡ ok tt)
      × (1 ≤ length meta.redirect_uris)
      × (length meta.redirect_uris ≤ 10)
      × (c ≡ cimd_model client_id meta grants)
unfolding check_metadata
accepted lib client_id meta c e =
    elim (Result-cases (supported_cimd_grant_types meta.grant_types)) [
      | inl (m, bad) ↦ ground (arith, bad)
      | inr (grants, good) ↦ (
        grants,
        good,
        ground (arith, good),
        ground (arith, good),
        ground (arith, good),
        ground (arith, good),
      )
    ]

-- The client_id of a document is that of the client, or it without its query.
abbrev pub IsNamed : String → CimdMetadata → Type 0
IsNamed client_id meta =
    (meta.client_id ≡ client_id) ⊎ (meta.client_id ≡ strip_cimd_query client_id)

-- A client that its document describes: the document names the client_id, and the client has its name,
-- its redirect_uris and those of its grants that are known, authorization_code alone if it has none.
pub record IsDescribed (client_id : String) (meta : CimdMetadata) (c : Model) : Type 0 where
  pub named : IsNamed client_id meta
  pub same_name : c.name ≡ meta.client_name
  pub same_uris : c.redirect_uri_list ≡ meta.redirect_uris
  pub same_grants : supported_cimd_grant_types meta.grant_types ≡ ok c.allowed_grant_type_list
  pub limits : IsCimdClient client_id c

named_lem :
    (lib : Library) (client_id : String) (meta : CimdMetadata) (c : Model)
    → check_metadata lib client_id meta ≡ ok c
    → IsNamed client_id meta
unfolding check_metadata
named_lem lib client_id meta c e = elim (Bool-cases (str_eq meta.client_id client_id)) [
  | inl same ↦ inl ((eq_iff meta.client_id client_id).0 same)
  | inr other ↦
      inr ((eq_iff meta.client_id (strip_cimd_query client_id)).0 (ground (arith, e, other)))
]

-- A document that is accepted for a client_id gives a public client of the mcp channel with that
-- client_id, with PKCE required, one to ten redirect_uris of 1 to 2048 bytes each, and the grants
-- authorization_code and, at most, refresh_token.
pub check_metadata-IsCimdClient :
    (lib : Library) (client_id : String) (meta : CimdMetadata) (c : Model)
    → check_metadata lib client_id meta ≡ ok c
    → IsCimdClient client_id c
check_metadata-IsCimdClient lib client_id meta c e =
    let (grants, good, uris, some_uris, few_uris, is_model) = accepted lib client_id meta c e in
    let (with_code, known) = supported_lem meta.grant_types grants good in
    rw is_model (record {
      own_id = refl;
      is_public = refl;
      over_mcp = refl;
      with_pkce = refl;
      some_uris = some_uris;
      few_uris = few_uris;
      uri_lengths = check_redirect_uris_lem meta.redirect_uris uris;
      with_code = with_code;
      known_grants = known;
    })

pub check_metadata-IsDescribed :
    (lib : Library) (client_id : String) (meta : CimdMetadata) (c : Model)
    → check_metadata lib client_id meta ≡ ok c
    → IsDescribed client_id meta c
check_metadata-IsDescribed lib client_id meta c e =
    let (grants, good, _, _, _, is_model) = accepted lib client_id meta c e in
    record {
      named = named_lem lib client_id meta c e;
      same_name = ap (λ m. m.name) is_model;
      same_uris = ap (λ m. m.redirect_uri_list) is_model;
      same_grants = good ∙ ap (λ m. ok (m.allowed_grant_type_list)) (sym is_model);
      limits = check_metadata-IsCimdClient lib client_id meta c e;
    }
