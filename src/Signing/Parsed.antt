-- ===== src/Signing/Parsed.antt =====
-- internal/signing/bundle.go: what holds of every bundle that is parsed, and of the keys that it serves.
use authgate.Prelude.{
  ℕ, ◌+◌, ◌≤◌, ◌≡◌, ◌⊎◌, refl, sym, ap, ◌∙◌, inl, inr, true, not, ◌&&◌, ◌||◌, List, [], ◌∷◌, ◌++◌,
  Bytes, bytes_eq, bytes_eq_iff, codes, length, length-append, All, All-append, Any, ltb, ◌==◌,
  arith, ok, >>=-eq-ok, refuse-eq-ok, ok-injective, Bool-cases, Option-cases,
}
use authgate.Signing.Json.{Json}
use authgate.Signing.Keys.{
  Library, RsaPublicKey, RsaPrivateKey, VerificationKey, bundle_object, bundle_string,
  bundle_private_key, get_field,
}
use authgate.Signing.Bundle.{
  Bundle, Progress, listed, same_key, add_key, read_entry, take_entries, hint_keys, entries_of,
  version_of, is_version_one, root_fields, no_progress, parse_document, parse_bundle,
  signing_key_bundle_max_keys,
}
use authgate.Signing.Sound.{IsVerificationKey, read_entry-IsVerificationKey}
use authgate.Signing.Distinct.{
  Distinct, Distinct-snoc, ids_of, fingerprints_of, ids_of-snoc, fingerprints_of-snoc, unlisted,
  listed_more,
}

-- The entry of the key that signs.
abbrev pub IsActive : Bytes → RsaPrivateKey → VerificationKey → Type 0
IsActive active_id active key =
    (key.id ≡ active_id) × (key.publish ≡ true) × (key.public ≡ active.public)

-- What the loop has established, with `n` entries read.
record Holds (lib : Library) (active_id : Bytes) (active : RsaPrivateKey) (n : ℕ) (p : Progress)
    : Type 0 where
  counted : length p.keys ≡ n
  sound : All (IsVerificationKey lib) p.keys
  ids_distinct : Distinct (ids_of p.keys)
  ids_listed : All (λ id. listed id p.ids ≡ true) (ids_of p.keys)
  material_distinct : Distinct (fingerprints_of p.keys)
  material_listed : All (λ id. listed id p.material ≡ true) (fingerprints_of p.keys)
  active_entry : p.active_found ≡ true → Any (IsActive active_id active) p.keys

Any-snoc :
    (P : VerificationKey → Type 0) (keys : List VerificationKey) (key : VerificationKey)
    → Any P keys ⊎ P key
    → Any P (keys ++ key ∷ [])
Any-snoc P [] key (inl h) = absurd h
Any-snoc P [] key (inr h) = inl h
Any-snoc P (k ∷ keys) key (inl (inl h)) = inl h
Any-snoc P (k ∷ keys) key (inl (inr h)) = inr (Any-snoc P keys key (inl h))
Any-snoc P (k ∷ keys) key (inr h) = inr (Any-snoc P keys key (inr h))

same_key_lem : (one other : RsaPublicKey) → same_key one other ≡ true → one ≡ other
same_key_lem one other h =
    ap {B = RsaPublicKey} (λ x. record { n = x; e = one.e }) (ground arith)
    ∙ ap {B = RsaPublicKey} (λ x. record { n = other.n; e = x }) (ground arith)

add_key-Holds :
    (lib : Library) (active_id : Bytes) (active : RsaPrivateKey) (n : ℕ) (p : Progress)
    (key : VerificationKey) (q : Progress)
    → IsVerificationKey lib key
    → Holds lib active_id active n p
    → add_key active_id active p key ≡ ok q
    → Holds lib active_id active (n + 1) q
unfolding add_key
add_key-Holds lib active_id active n p key q known h e =
    let (new_id, e1) = refuse-eq-ok (listed key.id p.ids) _ _ e in
    let (new_material, e2) = refuse-eq-ok (listed key.fingerprint p.material) _ _ e1 in
    let (matches, e3) =
      refuse-eq-ok
        (bytes_eq key.id active_id && (not key.publish || not (same_key key.public active.public)))
        _ _ e2 in
    rw (sym (ok-injective e3)) (record {
      counted = omega (arith, h.counted, length-append p.keys (key ∷ []));
      sound = All-append (IsVerificationKey lib) p.keys (key ∷ []) h.sound (known, tt);
      ids_distinct = rw (ids_of-snoc p.keys key) (
          Distinct-snoc (ids_of p.keys) key.id h.ids_distinct
            (unlisted p.ids (ids_of p.keys) key.id h.ids_listed new_id));
      ids_listed =
          rw (ids_of-snoc p.keys key) (listed_more p.ids (ids_of p.keys) key.id h.ids_listed);
      material_distinct = rw (fingerprints_of-snoc p.keys key) (
          Distinct-snoc (fingerprints_of p.keys) key.fingerprint h.material_distinct (
            unlisted p.material (fingerprints_of p.keys) key.fingerprint h.material_listed
              new_material));
      material_listed =
          rw (fingerprints_of-snoc p.keys key)
            (listed_more p.material (fingerprints_of p.keys) key.fingerprint h.material_listed);
      active_entry = λ found.
          Any-snoc (IsActive active_id active) p.keys key
            (elim (Bool-cases (bytes_eq key.id active_id)) [
              | inl same ↦ inr (
                (bytes_eq_iff key.id active_id).0 same,
                ground (arith, matches, same),
                same_key_lem key.public active.public (ground (arith, matches, same)),
              )
              | inr other ↦ inl (h.active_entry (ground (arith, found, other)))
            ]);
    })

take_entries-Holds :
    (lib : Library) (active_id : Bytes) (active : RsaPrivateKey) (entries : List Json) (n : ℕ)
    (p q : Progress)
    → Holds lib active_id active n p
    → take_entries lib active_id active p entries ≡ ok q
    → Holds lib active_id active (n + length entries) q
unfolding take_entries
take_entries-Holds lib active_id active [] n p q h e =
    let same : n + 0 ≡ n = omega arith in rw (same, sym (ok-injective e)) h
take_entries-Holds lib active_id active (raw ∷ entries) n p q h e =
    let (key, e1, e2) = >>=-eq-ok (read_entry lib raw) _ e in
    let (next, e3, e4) = >>=-eq-ok (add_key active_id active p key) _ e2 in
    let known = read_entry-IsVerificationKey lib raw key e1 in
    let step = add_key-Holds lib active_id active n p key next known h e3 in
    let counted : n + length (raw ∷ entries) ≡ (n + 1) + length entries = omega arith in
    rw counted (take_entries-Holds lib active_id active entries (n + 1) next q step e4)

no_progress-Holds :
    (lib : Library) (active_id : Bytes) (active : RsaPrivateKey)
    → Holds lib active_id active 0 no_progress
no_progress-Holds lib active_id active = record {
  counted = refl;
  sound = tt;
  ids_distinct = tt;
  ids_listed = tt;
  material_distinct = tt;
  material_listed = tt;
  active_entry = λ found. cc;
}

-- A bundle that may be served: 1 to 128 keys with different ids and different material, among them,
-- published, the public part of the key that signs; and hints of all of them.
pub record IsBundle (lib : Library) (bundle : Bundle) : Type 0 where
  pub some_keys : 1 ≤ length bundle.keys
  pub few_keys : length bundle.keys ≤ 128
  pub sound : All (IsVerificationKey lib) bundle.keys
  pub ids_distinct : Distinct (ids_of bundle.keys)
  pub material_distinct : Distinct (fingerprints_of bundle.keys)
  pub active_entry : Any (IsActive bundle.active_id bundle.active) bundle.keys
  pub hints_filled : bundle.hints ≡ hint_keys [] bundle.keys

parse_document-IsBundle :
    (lib : Library) (document : Json) (bundle : Bundle)
    → parse_document lib document ≡ ok bundle
    → IsBundle lib bundle
unfolding parse_document
parse_document-IsBundle lib document bundle e =
    let (root, _, e1) = >>=-eq-ok (bundle_object document root_fields) _ e in
    let (_, e2) =
      refuse-eq-ok (not (is_version_one (version_of lib (get_field (codes "schema_version") root))))
        _ _ e1 in
    let (revision, _, e3) = >>=-eq-ok (bundle_string (get_field (codes "revision") root)) _ e2 in
    let (active_id, _, e4) = >>=-eq-ok (bundle_string (get_field (codes "active_kid") root)) _ e3 in
    let (pem, _, e5) =
      >>=-eq-ok (bundle_string (get_field (codes "active_private_key_pem") root)) _ e4 in
    let (active, _, e6) = >>=-eq-ok (bundle_private_key lib pem) _ e5 in
    let (entries, _, e7) =
      >>=-eq-ok (entries_of (get_field (codes "verification_keys") root)) _ e6 in
    let (count, e8) =
      refuse-eq-ok (length entries == 0 || ltb signing_key_bundle_max_keys (length entries)) _ _
        e7 in
    let (progress, e9, e10) =
      >>=-eq-ok (take_entries lib active_id active no_progress entries) _ e8 in
    let (found, e11) = refuse-eq-ok (not progress.active_found) _ _ e10 in
    let holds =
      take_entries-Holds lib active_id active entries 0 no_progress progress
        (no_progress-Holds lib active_id active) e9 in
    rw (sym (ok-injective e11)) (record {
      some_keys = ground (arith, count, holds.counted);
      few_keys = ground (arith, count, holds.counted);
      sound = holds.sound;
      ids_distinct = holds.ids_distinct;
      material_distinct = holds.material_distinct;
      active_entry = holds.active_entry (ground (arith, found));
      hints_filled = refl;
    })

-- Every bundle that `parseBundle` returns may be served: it has 1 to 128 keys with different ids and
-- different thumbprints, each an odd modulus of 2048 to 4096 bits with an odd exponent from 3 to
-- 2 ^ 31 - 1 and named by its thumbprint or by the legacy id; the public part of the key that signs is
-- among them under the active id and is published; and the keys of hints are those of the bundle.
pub parse_bundle-IsBundle :
    (lib : Library) (data_bytes : Bytes) (bundle : Bundle)
    → parse_bundle lib data_bytes ≡ ok bundle
    → IsBundle lib bundle
unfolding parse_bundle
parse_bundle-IsBundle lib data_bytes bundle e = elim (Option-cases (lib.decode data_bytes)) [
  | inl none_decoded ↦ absurd (ground (arith, e, none_decoded))
  | inr (document, same) ↦ parse_document-IsBundle lib document bundle (ground (arith, e, same))
]
