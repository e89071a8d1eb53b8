-- ===== src/Middleware/Scoped.antt =====
-- internal/middleware/access_token_typ.go: the claims of an access token with the scope of its response.
use authgate.Prelude.{
  ◌≡◌, ◌⊎◌, inl, inr, refl, sym, Bool, true, false, Option, some, Bytes, codes, length, ◌==◌, arith,
  ok, ◌>>=◌, >>=-eq-ok, ok-injective, Bool-cases, Option-cases,
}
use authgate.Strings.{trim_space}
use authgate.Signing.Json.{Json, text, null, Members}
use authgate.Signing.Keys.{get_field}
use authgate.Middleware.Bound.{or_error-ok}
use authgate.Middleware.TokenProfile.{
  Library, UpgradeError, or_error, string_of, asserted_string, set_field, with_scope_claim,
  add_scope, scope_into,
}

-- A member `scope` that is no text, or blank.
abbrev pub has_no_scope : Option Json → Bool
has_no_scope raw = length (trim_space (asserted_string raw)) == 0

module _ {Key : Type 0} (lib : Library Key) where
  -- The payload as it is, since the response has no scope or the claims have their own; or the claims
  -- with the scope of the response, since they have none.
  abbrev pub IsScoped : Bytes → Members → Bytes → Type 0
  IsScoped payload response claims =
      ((claims ≡ payload)
        × ((has_no_scope (get_field (codes "scope") response) ≡ true)
            ⊎ ((old : Members) × (lib.unmarshal payload ≡ some old)
                × (has_no_scope (get_field (codes "scope") old) ≡ false))))
      ⊎ ((old : Members) × (scope : Bytes) × (lib.unmarshal payload ≡ some old)
          × (get_field (codes "scope") response ≡ some (text scope))
          × (has_no_scope (get_field (codes "scope") response) ≡ false)
          × (has_no_scope (get_field (codes "scope") old) ≡ true)
          × (lib.marshal (set_field (codes "scope") (text scope) old) ≡ some claims))

  scope_into-IsScoped :
      (payload claims scope : Bytes) (response : Members)
      → get_field (codes "scope") response ≡ some (text scope)
      → scope_into lib payload scope ≡ ok claims
      → IsScoped payload response claims
  scope_into-IsScoped payload claims scope response held e =
      elim (Bool-cases (length (trim_space scope) == 0)) [
        | inl blank ↦ inl (
          sym (ok-injective {Failure = UpgradeError} (ground (arith, e, blank))),
          inl (rw held blank),
        )
        | inr given ↦
            let rest : (or_error UpgradeError.invalid_json (lib.unmarshal payload)
                  >>= add_scope lib payload scope)
                ≡ ok claims =
              ground (arith, e, given) in
            let (old, h, added) =
              >>=-eq-ok (or_error UpgradeError.invalid_json (lib.unmarshal payload))
                (add_scope lib payload scope) rest in
            let read = or_error-ok _ (lib.unmarshal payload) old h in
            elim (Bool-cases (has_no_scope (get_field (codes "scope") old))) [
              | inl free ↦ inr (
                old,
                scope,
                read,
                held,
                rw held given,
                free,
                or_error-ok UpgradeError.invalid_json
                    (lib.marshal (set_field (codes "scope") (text scope) old)) claims
                    (ground (arith, added, free)),
              )
              | inr own ↦ inl (
                sym (ok-injective {Failure = UpgradeError} (ground (arith, added, own))),
                inr (old, read, own),
              )
            ]
      ]

  raw-IsScoped :
      (payload claims : Bytes) (response : Members) (raw : Json)
      → get_field (codes "scope") response ≡ some raw
      → (string_of raw >>= scope_into lib payload) ≡ ok claims
      → IsScoped payload response claims
  unfolding trim_space
  raw-IsScoped payload claims response (text scope) held e =
      scope_into-IsScoped payload claims scope response held e
  raw-IsScoped payload claims response null held e =
      inl (sym (ok-injective {Failure = UpgradeError} e), inl (rw held refl))
  raw-IsScoped payload claims response (Json.boolean b) held e = absurd (cc)
  raw-IsScoped payload claims response (Json.number n) held e = absurd (cc)
  raw-IsScoped payload claims response (Json.array xs) held e = absurd (cc)
  raw-IsScoped payload claims response (Json.object xs) held e = absurd (cc)

  pub with_scope_claim-IsScoped :
      (payload : Bytes) (response : Members) (claims : Bytes)
      → with_scope_claim lib payload response ≡ ok claims
      → IsScoped payload response claims
  unfolding with_scope_claim trim_space
  with_scope_claim-IsScoped payload response claims e =
      elim (Option-cases (get_field (codes "scope") response)) [
        | inl missing ↦ inl (
          sym (ok-injective {Failure = UpgradeError} (ground (arith, e, missing))),
          inl (rw missing refl),
        )
        | inr (raw, held) ↦ raw-IsScoped payload claims response raw held (ground (arith, e, held))
      ]
