-- ===== src/Signing/Sound.antt =====
-- What a bundle that parseBundle returns is: internal/signing/bundle.go.
use authgate.Prelude.{
  ℕ, ◌-◌, ◌^◌, ◌%◌, ◌≤◌, ◌<◌, ◌≡◌, ◌≢◌, ◌⊎◌, refl, sym, Bool, false, ◌&&◌, ◌||◌, not, Option, none,
  some, [], ◌∷◌, Bytes, bytes_eq, bytes_eq_iff, codes, length, ltb, ◌==◌, arith, ok, >>=-eq-ok,
  refuse-eq-ok, ok-injective,
}
use authgate.Signing.Json.{Json}
use authgate.Signing.Keys.{
  Library, VerificationKey, bundle_object, bundle_string, bundle_public_key, get_field,
  modulus_too_small_or_large, invalid_rsa_numbers, legacy_signing_key_id, integer_or, thumbprint_or,
  bundle_base64_integer, set_bytes, public_key_fields, public_key_of, public_key_from,
}
use authgate.Signing.Bundle.{bool_field, jwk_of, read_entry}

-- A modulus of 2048 to 4096 bits.
abbrev pub IsModulus : ℕ → Type 0
IsModulus n = (2 ^ 2047 ≤ n) × (n < 2 ^ 4096)

ltb-false : (a b : ℕ) → ltb a b ≡ false → b ≤ a
ltb-false a b h = ground arith

ltb-true : (a b : ℕ) → not (ltb a b) ≡ false → a < b
ltb-true a b h = ground arith

or_false : (a b : Bool) → (a || b) ≡ false → (a ≡ false) × (b ≡ false)
or_false a b h = (ground arith, ground arith)

modulus-IsModulus : (n : ℕ) → modulus_too_small_or_large n ≡ false → IsModulus n
unfolding modulus_too_small_or_large
modulus-IsModulus n h =
    let (large, small) = or_false (ltb n (2 ^ 2047)) (not (ltb n (2 ^ 4096))) h in
    (ltb-false n (2 ^ 2047) large, ltb-true n (2 ^ 4096) small)

-- An odd modulus and an odd exponent from 3 to 2 ^ 31 - 1, and the id that the key's thumbprint gives it.
pub record IsVerificationKey (lib : Library) (key : VerificationKey) : Type 0 where
  pub modulus : IsModulus key.public.n
  pub odd_modulus : key.public.n % 2 ≢ 0
  pub exponent : (3 ≤ key.public.e) × (key.public.e < 2 ^ 31)
  pub odd_exponent : key.public.e % 2 ≢ 0
  pub thumbprint :
      (print : Bytes) × (lib.thumbprint key.public ≡ some print)
      × (key.fingerprint ≡ lib.base64_encode print)
  pub named : (key.id ≡ key.fingerprint) ⊎ (key.id ≡ legacy_signing_key_id)

numbers_lem :
    (n e : ℕ)
    → invalid_rsa_numbers n e ≡ false
    → IsModulus n × (n % 2 ≢ 0) × (3 ≤ e) × (e < 2 ^ 31) × (e % 2 ≢ 0)
unfolding invalid_rsa_numbers
numbers_lem n e h =
    let (before, odd_e) =
      or_false (((modulus_too_small_or_large n || n % 2 == 0) || ltb e 3) || ltb (2 ^ 31 - 1) e)
        (e % 2 == 0) h in
    let (before2, bounded) =
      or_false ((modulus_too_small_or_large n || n % 2 == 0) || ltb e 3) (ltb (2 ^ 31 - 1) e)
        before in
    let (before3, three) =
      or_false (modulus_too_small_or_large n || n % 2 == 0) (ltb e 3) before2 in
    let (modulus, odd_n) = or_false (modulus_too_small_or_large n) (n % 2 == 0) before3 in
    (modulus-IsModulus n modulus, ground arith, ground arith, ground arith, ground arith)

id_lem :
    (kid fingerprint : Bytes)
    → (not (bytes_eq kid fingerprint) && not (bytes_eq kid legacy_signing_key_id)) ≡ false
    → (kid ≡ fingerprint) ⊎ (kid ≡ legacy_signing_key_id)
id_lem kid fingerprint h =
    ground (arith, bytes_eq_iff kid fingerprint, bytes_eq_iff kid legacy_signing_key_id)

thumbprint_lem : (o : Option Bytes) (print : Bytes) → thumbprint_or o ≡ ok print → o ≡ some print
thumbprint_lem none print h = cc
thumbprint_lem (some other) print h = cc

public_key_of-IsVerificationKey :
    (lib : Library) (kid modulus exponent : Bytes) (key : VerificationKey)
    → public_key_of lib kid modulus exponent ≡ ok key
    → IsVerificationKey lib key
unfolding public_key_of
public_key_of-IsVerificationKey lib kid modulus exponent key e =
    let (_, e1) = refuse-eq-ok (ltb 4 (length exponent)) _ _ e in
    let (numbers, e2) =
      refuse-eq-ok (invalid_rsa_numbers (set_bytes modulus) (set_bytes exponent)) _ _ e1 in
    let (print, e3, e4) =
      >>=-eq-ok
        (thumbprint_or (lib.thumbprint (record { n = set_bytes modulus; e = set_bytes exponent })))
        _ e2 in
    let (name, e5) =
      refuse-eq-ok
        (not (bytes_eq kid (lib.base64_encode print)) && not (bytes_eq kid legacy_signing_key_id)) _
        _ e4 in
    let (modulus_fits, odd_n, three, bounded, odd_e) =
      numbers_lem (set_bytes modulus) (set_bytes exponent) numbers in
    rw (sym (ok-injective e5)) (record {
      modulus = modulus_fits;
      odd_modulus = odd_n;
      exponent = (three, bounded);
      odd_exponent = odd_e;
      thumbprint = (print, thumbprint_lem _ print e3, refl);
      named = id_lem kid (lib.base64_encode print) name;
    })

public_key_from-IsVerificationKey :
    (lib : Library) (kty n_text e_text kid alg key_use : Bytes) (key : VerificationKey)
    → public_key_from lib kty n_text e_text kid alg key_use ≡ ok key
    → IsVerificationKey lib key
unfolding public_key_from
public_key_from-IsVerificationKey lib kty n_text e_text kid alg key_use key e =
    let (_, e1) =
      refuse-eq-ok
        (not (bytes_eq kty (codes "RSA"))
          || not (bytes_eq alg (codes "RS256"))
          || not (bytes_eq key_use (codes "sig")))
        _ _ e in
    let (modulus, _, e2) = >>=-eq-ok (integer_or (bundle_base64_integer lib n_text)) _ e1 in
    let (exponent, _, e3) = >>=-eq-ok (integer_or (bundle_base64_integer lib e_text)) _ e2 in
    public_key_of-IsVerificationKey lib kid modulus exponent key e3

bundle_public_key-IsVerificationKey :
    (lib : Library) (raw : Json) (key : VerificationKey)
    → bundle_public_key lib raw ≡ ok key
    → IsVerificationKey lib key
unfolding bundle_public_key
bundle_public_key-IsVerificationKey lib raw key e =
    let (fields, _, e1) = >>=-eq-ok (bundle_object raw public_key_fields) _ e in
    let (kty, _, e2) = >>=-eq-ok (bundle_string (get_field (codes "kty") fields)) _ e1 in
    let (n_text, _, e3) = >>=-eq-ok (bundle_string (get_field (codes "n") fields)) _ e2 in
    let (e_text, _, e4) = >>=-eq-ok (bundle_string (get_field (codes "e") fields)) _ e3 in
    let (kid, _, e5) = >>=-eq-ok (bundle_string (get_field (codes "kid") fields)) _ e4 in
    let (alg, _, e6) = >>=-eq-ok (bundle_string (get_field (codes "alg") fields)) _ e5 in
    let (key_use, _, e7) = >>=-eq-ok (bundle_string (get_field (codes "use") fields)) _ e6 in
    public_key_from-IsVerificationKey lib kty n_text e_text kid alg key_use key e7

pub read_entry-IsVerificationKey :
    (lib : Library) (raw : Json) (key : VerificationKey)
    → read_entry lib raw ≡ ok key
    → IsVerificationKey lib key
unfolding read_entry
read_entry-IsVerificationKey lib raw key e =
    let (entry, _, e1) = >>=-eq-ok (bundle_object raw (codes "jwk" ∷ codes "publish" ∷ [])) _ e in
    let (publish, _, e2) = >>=-eq-ok (bool_field (get_field (codes "publish") entry)) _ e1 in
    let (jwk, e3, e4) =
      >>=-eq-ok (bundle_public_key lib (jwk_of (get_field (codes "jwk") entry))) _ e2 in
    let known =
      bundle_public_key-IsVerificationKey lib (jwk_of (get_field (codes "jwk") entry)) jwk e3 in
    rw (sym (ok-injective e4)) (record {
      modulus = known.modulus;
      odd_modulus = known.odd_modulus;
      exponent = known.exponent;
      odd_exponent = known.odd_exponent;
      thumbprint = known.thumbprint;
      named = known.named;
    })
