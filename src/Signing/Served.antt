-- ===== src/Signing/Served.antt =====
-- internal/signing: the keys that a validated bundle and a configured provider serve.
use authgate.Prelude.{
  ◌≡◌, refl, sym, ap, ◌∙◌, inl, inr, Option, none, some, List, [], ◌∷◌, Bytes, bytes_eq_iff,
  bytes_eq_refl, codes, All, Any, arith, ok, >>=-eq-ok, Option-cases,
}
use authgate.Signing.Keys.{Library, RsaPublicKey, RsaPrivateKey, VerificationKey}
use authgate.Signing.Bundle.{
  Bundle, find_key, published_keys, parse_bundle, Signature, verify_signature, verified,
}
use authgate.Signing.Distinct.{
  published_key, published_keys-All, hint_keys-All, find_key-hint_keys-Any,
}
use authgate.Signing.Parsed.{IsActive, IsBundle, parse_bundle-IsBundle}
use authgate.Signing.Provider.{
  Provider, Setting, current_key, previous_key, snapshot, signing_key, key_set, configure,
  configure_all, new_provider, set_current, set_previous, set_bundle,
}

-- The active entry is found where the published keys are.
active_published :
    (active_id : Bytes) (active : RsaPrivateKey) (found : Bytes → Option RsaPublicKey)
    (keys : List VerificationKey)
    → Any (IsActive active_id active) keys
    → All (λ k. found k.id ≡ published_key k) keys
    → found active_id ≡ some active.public
active_published active_id active found [] h all = absurd h
active_published active_id active found (k ∷ keys) (inl (same, shown, equal)) all =
    rw (sym same) (all.0 ∙ rw (shown, equal) refl)
active_published active_id active found (k ∷ keys) (inr h) all =
    active_published active_id active found keys h all.1

IsBundle-active :
    (lib : Library) (bundle : Bundle)
    → IsBundle lib bundle
    → find_key bundle.active_id (published_keys bundle.keys) ≡ some bundle.active.public
IsBundle-active lib bundle known =
    active_published bundle.active_id bundle.active (λ id. find_key id (published_keys bundle.keys))
      bundle.keys known.active_entry (published_keys-All bundle.keys known.ids_distinct)

-- In a bundle that `parseBundle` returns, JWKS finds the key that signs under the active id; it finds
-- each key that is published and no other; and the hints find every key, published or not.
pub parse_bundle-resolves :
    (lib : Library) (data_bytes : Bytes) (bundle : Bundle)
    → parse_bundle lib data_bytes ≡ ok bundle
    → (find_key bundle.active_id (published_keys bundle.keys) ≡ some bundle.active.public)
      × All (λ k. find_key k.id (published_keys bundle.keys) ≡ published_key k) bundle.keys
      × All (λ k. find_key k.id bundle.hints ≡ some k.public) bundle.keys
parse_bundle-resolves lib data_bytes bundle e =
    let known = parse_bundle-IsBundle lib data_bytes bundle e in
    let shown = published_keys-All bundle.keys known.ids_distinct in
    (
      IsBundle-active lib bundle known,
      shown,
      rw known.hints_filled (hint_keys-All bundle.keys known.ids_distinct),
    )

verify-Any :
    {Signed : Type 0} (verify : Signed → RsaPublicKey → Option Bytes) (signed : Signed) (id : Bytes)
    (public : RsaPublicKey) (payload : Bytes) (keys : List VerificationKey)
    → verify signed public ≡ some payload
    → Any (λ k. (k.id ≡ id) × (k.public ≡ public)) keys
    → Any (λ k. (k.id ≡ id) × (verify signed k.public ≡ some payload)) keys
verify-Any verify signed id public payload [] v h = absurd h
verify-Any verify signed id public payload (k ∷ keys) v (inl (named, same)) = inl (named, rw same v)
verify-Any verify signed id public payload (k ∷ keys) v (inr h) =
    inr (verify-Any verify signed id public payload keys v h)

verified_lem :
    (o : Option Bytes) (payload : Bytes)
    → verified (λ (s : Unit {0}) k. none) o ≡ ok payload
    → o ≡ some payload
verified_lem none payload h = cc
verified_lem (some other) payload h = cc

-- With the hints of a bundle that `parseBundle` returns, a signed hint is accepted only if it has exactly
-- one signature, by RS256, and the key of the bundle that its header names verifies it.
pub verify_signature-accepted :
    {Signed : Type 0} (verify : Signed → RsaPublicKey → Option Bytes) (lib : Library)
    (data_bytes : Bytes) (bundle : Bundle) (signatures : List (Signature Signed)) (payload : Bytes)
    → parse_bundle lib data_bytes ≡ ok bundle
    → verify_signature verify bundle.hints signatures ≡ ok payload
    → (signature : Signature Signed) × (signatures ≡ signature ∷ [])
      × (signature.algorithm ≡ codes "RS256")
      × Any
          (λ k. (k.id ≡ signature.key_id) × (verify signature.signed k.public ≡ some payload))
          bundle.keys
unfolding verify_signature
verify_signature-accepted verify lib data_bytes bundle [] payload e v = cc
verify_signature-accepted verify lib data_bytes bundle (s ∷ t ∷ rest) payload e v = cc
verify_signature-accepted verify lib data_bytes bundle (s ∷ []) payload e v =
    elim (Option-cases (find_key s.key_id bundle.hints)) [
      | inl absent ↦ absurd (ground (arith, v, absent))
      | inr (public, found) ↦ (
        s,
        refl,
        ground (arith, v, bytes_eq_iff s.algorithm (codes "RS256")),
        verify-Any verify s.signed s.key_id public payload bundle.keys (ground (arith, v, found)) (
            find_key-hint_keys-Any s.key_id bundle.keys public
              (parse_bundle-IsBundle lib data_bytes bundle e).ids_distinct
              (sym (
                  ap (find_key s.key_id)
                    (parse_bundle-IsBundle lib data_bytes bundle e).hints_filled)
                ∙ found)),
      )
    ]

-- A bundle that is installed comes from `parseBundle`.
abbrev pub Validated : Library → Setting → Type 0
Validated lib (snapshot (some bundle)) =
    (data_bytes : Bytes) × (parse_bundle lib data_bytes ≡ ok bundle)
Validated lib _ = Unit

abbrev BundleValid : Library → Provider → Type 0
BundleValid lib p = (bundle : Bundle) → p.bundle ≡ some bundle → IsBundle lib bundle

configure-BundleValid :
    (lib : Library) (setting : Setting) (p q : Provider)
    → Validated lib setting
    → BundleValid lib p
    → configure setting p ≡ ok q
    → BundleValid lib q
unfolding configure set_current set_previous set_bundle
configure-BundleValid lib (current_key key id) p q v h e bundle b = h bundle (ground (arith, e, b))
configure-BundleValid lib (previous_key key id) p q v h e bundle b = h bundle (ground (arith, e, b))
configure-BundleValid lib (snapshot none) p q v h e bundle b = cc
configure-BundleValid lib (snapshot (some new)) p q (data_bytes, parsed) h e bundle b =
    let same : bundle ≡ new = ground (arith, e, b) in
    rw same (parse_bundle-IsBundle lib data_bytes new parsed)

configure_all-BundleValid :
    (lib : Library) (settings : List Setting) (p q : Provider)
    → All (Validated lib) settings
    → BundleValid lib p
    → configure_all settings p ≡ ok q
    → BundleValid lib q
unfolding configure_all
configure_all-BundleValid lib [] p q v h e bundle b = h bundle (ground (arith, e, b))
configure_all-BundleValid lib (setting ∷ settings) p q v h e bundle b =
    let (next, e1, e2) = >>=-eq-ok (configure setting p) _ e in
    configure_all-BundleValid lib settings next q v.1
      (configure-BundleValid lib setting p next v.0 h e1) e2 bundle b

legacy_signing_key :
    (p : Provider) (current key : RsaPrivateKey) (id : Bytes)
    → p.bundle ≡ none
    → p.current ≡ some current
    → signing_key p ≡ some (id, key)
    → find_key id (key_set p) ≡ some key.public
unfolding signing_key key_set
legacy_signing_key p current key id legacy set s =
    let pair : ◌≡◌ {A = Option (Bytes × RsaPrivateKey)} (some (p.current_id, current))
        (some (id, key)) =
      rw (sym s, legacy, set) refl in
    let same_id : p.current_id ≡ id = cc in
    let same_key : current ≡ key = cc in rw (legacy, set, same_id, bytes_eq_refl id, same_key) refl

bundle_signing_key :
    (p : Provider) (bundle : Bundle) (key : RsaPrivateKey) (id : Bytes)
    → p.bundle ≡ some bundle
    → find_key bundle.active_id (published_keys bundle.keys) ≡ some bundle.active.public
    → signing_key p ≡ some (id, key)
    → find_key id (key_set p) ≡ some key.public
unfolding signing_key key_set
bundle_signing_key p bundle key id set found s =
    let pair : ◌≡◌ {A = Option (Bytes × RsaPrivateKey)} (some (bundle.active_id, bundle.active))
        (some (id, key)) =
      rw (sym s, set) refl in
    let same_id : bundle.active_id ≡ id = cc in
    let same_key : bundle.active ≡ key = cc in rw (set, sym same_id, found, same_key) refl

no_signing_key : (p : Provider) → p.bundle ≡ none → p.current ≡ none → signing_key p ≡ none
unfolding signing_key
no_signing_key p legacy absent = rw (legacy, absent) refl

-- After any run of the setters that does not panic, every bundle among them one that `parseBundle`
-- returned, a key that signs is in JWKS: its id finds its public part there.
pub signing_key-key_set :
    (lib : Library) (settings : List Setting) (p : Provider) (id : Bytes) (key : RsaPrivateKey)
    → All (Validated lib) settings
    → configure_all settings new_provider ≡ ok p
    → signing_key p ≡ some (id, key)
    → find_key id (key_set p) ≡ some key.public
signing_key-key_set lib settings p id key v e s = elim (Option-cases p.bundle) [
  | inl legacy ↦ elim (Option-cases p.current) [
    | inl absent ↦ absurd (ground (arith, s, no_signing_key p legacy absent))
    | inr (current, set) ↦ legacy_signing_key p current key id legacy set s
  ]
  | inr (bundle, set) ↦
      bundle_signing_key p bundle key id set
        (IsBundle-active lib bundle
          (configure_all-BundleValid lib settings new_provider p v (λ b none_set. cc) e bundle set))
        s
]
