-- ===== src/Signing/Distinct.antt =====
-- Keys with different ids: what the map of a list of keys finds.
use authgate.Prelude.{
  ◌≡◌, ◌≢◌, refl, sym, ◌∙◌, inl, inr, true, false, Option, none, some, List, [], ◌∷◌, ◌++◌, Bytes,
  bytes_eq, bytes_eq_iff, bytes_eq_refl, All, Any, if◌then◌else◌, arith, Bool-cases,
}
use authgate.Signing.Keys.{VerificationKey, RsaPublicKey}
use authgate.Signing.Bundle.{KeyMap, find_key, hint_keys, published_keys, listed}

abbrev pub Distinct : List Bytes → Type 0
Distinct [] = Unit
Distinct (x ∷ xs) = All (λ y. x ≢ y) xs × Distinct xs

abbrev pub ids_of : List VerificationKey → List Bytes
ids_of [] = []
ids_of (key ∷ keys) = key.id ∷ ids_of keys

abbrev pub fingerprints_of : List VerificationKey → List Bytes
fingerprints_of [] = []
fingerprints_of (key ∷ keys) = key.fingerprint ∷ fingerprints_of keys

All-snoc :
    (P : Bytes → Type 0) (xs : List Bytes) (y : Bytes) → All P xs → P y → All P (xs ++ y ∷ [])
All-snoc P [] y h p = (p, tt)
All-snoc P (x ∷ xs) y h p = (h.0, All-snoc P xs y h.1 p)

pub Distinct-snoc :
    (xs : List Bytes) (y : Bytes) → Distinct xs → All (λ x. x ≢ y) xs → Distinct (xs ++ y ∷ [])
Distinct-snoc [] y d h = (tt, tt)
Distinct-snoc (x ∷ xs) y d h = (All-snoc (λ z. x ≢ z) xs y d.0 h.0, Distinct-snoc xs y d.1 h.1)

pub ids_of-snoc :
    (keys : List VerificationKey) (key : VerificationKey)
    → ids_of (keys ++ key ∷ []) ≡ ids_of keys ++ key.id ∷ []
ids_of-snoc [] key = refl
ids_of-snoc (other ∷ keys) key = rw (ids_of-snoc keys key) refl

pub fingerprints_of-snoc :
    (keys : List VerificationKey) (key : VerificationKey)
    → fingerprints_of (keys ++ key ∷ []) ≡ fingerprints_of keys ++ key.fingerprint ∷ []
fingerprints_of-snoc [] key = refl
fingerprints_of-snoc (other ∷ keys) key = rw (fingerprints_of-snoc keys key) refl

-- Everything in `xs` is listed in `seen`, and `y` is not.
pub unlisted :
    (seen xs : List Bytes) (y : Bytes)
    → All (λ x. listed x seen ≡ true) xs
    → listed y seen ≡ false
    → All (λ x. x ≢ y) xs
unlisted seen [] y h u = tt
unlisted seen (x ∷ xs) y h u = ((λ same. cc), unlisted seen xs y h.1 u)

pub listed_more :
    (seen xs : List Bytes) (y : Bytes)
    → All (λ x. listed x seen ≡ true) xs
    → All (λ x. listed x (y ∷ seen) ≡ true) (xs ++ y ∷ [])
listed_more seen [] y h = (ground (arith, bytes_eq_refl y), tt)
listed_more seen (x ∷ xs) y h = (ground arith, listed_more seen xs y h.1)

-- The map of the keys, the first of an id winning; with different ids it is any map of them.
abbrev pub first_key : Bytes → List VerificationKey → Option RsaPublicKey
first_key id [] = none
first_key id (key ∷ keys) =
    let later = first_key id keys in if bytes_eq key.id id then some key.public else later

first_key-absent :
    (id : Bytes) (keys : List VerificationKey)
    → All (λ other. id ≢ other) (ids_of keys)
    → first_key id keys ≡ none
first_key-absent id [] h = refl
first_key-absent id (key ∷ keys) h =
    ground (arith, bytes_eq_iff key.id id, h.0, first_key-absent id keys h.1)

find_key-published_absent :
    (id : Bytes) (keys : List VerificationKey)
    → All (λ other. id ≢ other) (ids_of keys)
    → find_key id (published_keys keys) ≡ none
unfolding published_keys
find_key-published_absent id [] h = refl
find_key-published_absent id (key ∷ keys) h =
    ground (arith, bytes_eq_iff key.id id, h.0, find_key-published_absent id keys h.1)

-- The key of an entry that JWKS has.
abbrev pub published_key : VerificationKey → Option RsaPublicKey
published_key key = if key.publish then some key.public else none

first_key_skip :
    (key : VerificationKey) (keys part : List VerificationKey)
    → All (λ other. key.id ≢ other) (ids_of part)
    → All (λ k. first_key k.id keys ≡ some k.public) part
    → All (λ k. first_key k.id (key ∷ keys) ≡ some k.public) part
first_key_skip key keys [] h found = tt
first_key_skip key keys (k ∷ part) h found = (
  ground (arith, bytes_eq_iff key.id k.id, h.0, found.0),
  first_key_skip key keys part h.1 found.1,
)

first_key-All :
    (keys : List VerificationKey)
    → Distinct (ids_of keys)
    → All (λ k. first_key k.id keys ≡ some k.public) keys
first_key-All [] d = tt
first_key-All (key ∷ keys) d =
    (rw (bytes_eq_refl key.id) refl, first_key_skip key keys keys d.0 (first_key-All keys d.1))

published_skip :
    (key : VerificationKey) (keys part : List VerificationKey)
    → All (λ other. key.id ≢ other) (ids_of part)
    → All (λ k. find_key k.id (published_keys keys) ≡ published_key k) part
    → All (λ k. find_key k.id (published_keys (key ∷ keys)) ≡ published_key k) part
unfolding published_keys
published_skip key keys [] h found = tt
published_skip key keys (k ∷ part) h found = (
  ground (arith, bytes_eq_iff key.id k.id, h.0, found.0),
  published_skip key keys part h.1 found.1,
)

-- JWKS finds each key that is published, and no key that is not.
pub published_keys-All :
    (keys : List VerificationKey)
    → Distinct (ids_of keys)
    → All (λ k. find_key k.id (published_keys keys) ≡ published_key k) keys
unfolding published_keys
published_keys-All [] d = tt
published_keys-All (key ∷ keys) d = (
  ground (arith, bytes_eq_refl key.id, find_key-published_absent key.id keys d.0),
  published_skip key keys keys d.0 (published_keys-All keys d.1),
)

abbrev first_or : Option RsaPublicKey → Option RsaPublicKey → Option RsaPublicKey
first_or none later = later
first_or (some key) later = some key

find_key-hint_keys :
    (id : Bytes) (filled : KeyMap) (keys : List VerificationKey)
    → Distinct (ids_of keys)
    → find_key id (hint_keys filled keys) ≡ first_or (first_key id keys) (find_key id filled)
unfolding hint_keys
find_key-hint_keys id filled [] d = refl
find_key-hint_keys id filled (key ∷ keys) d =
    find_key-hint_keys id ((key.id, key.public) ∷ filled) keys d.1
    ∙ elim (Bool-cases (bytes_eq key.id id)) [
      | inl same ↦ ground (arith, same, bytes_eq_iff key.id id, ids_absent same)
      | inr other ↦ ground (arith, other)
    ]
  where
    ids_absent : bytes_eq key.id id ≡ true → first_key id keys ≡ none
    ids_absent same = first_key-absent id keys (rw (sym ((bytes_eq_iff key.id id).0 same)) d.0)

hint_keys_of :
    (keys part : List VerificationKey)
    → Distinct (ids_of keys)
    → All (λ k. first_key k.id keys ≡ some k.public) part
    → All (λ k. find_key k.id (hint_keys [] keys) ≡ some k.public) part
hint_keys_of keys [] d found = tt
hint_keys_of keys (k ∷ part) d found =
    (rw (find_key-hint_keys k.id [] keys d, found.0) refl, hint_keys_of keys part d found.1)

first_key-Any :
    (id : Bytes) (keys : List VerificationKey) (public : RsaPublicKey)
    → first_key id keys ≡ some public
    → Any (λ k. (k.id ≡ id) × (k.public ≡ public)) keys
first_key-Any id [] public h = cc
first_key-Any id (key ∷ keys) public h = elim (Bool-cases (bytes_eq key.id id)) [
  | inl same ↦ inl ((bytes_eq_iff key.id id).0 same, ground (arith, h, same))
  | inr other ↦ inr (first_key-Any id keys public (ground (arith, h, other)))
]

first_or-none : (found : Option RsaPublicKey) → first_or found none ≡ found
first_or-none none = refl
first_or-none (some key) = refl

-- The map of id token hints finds every key of the bundle, published or not.
pub hint_keys-All :
    (keys : List VerificationKey)
    → Distinct (ids_of keys)
    → All (λ k. find_key k.id (hint_keys [] keys) ≡ some k.public) keys
hint_keys-All keys d = hint_keys_of keys keys d (first_key-All keys d)

-- A key that the map finds is a key of the bundle with that id.
pub find_key-hint_keys-Any :
    (id : Bytes) (keys : List VerificationKey) (public : RsaPublicKey)
    → Distinct (ids_of keys)
    → find_key id (hint_keys [] keys) ≡ some public
    → Any (λ k. (k.id ≡ id) × (k.public ≡ public)) keys
find_key-hint_keys-Any id keys public d h =
    first_key-Any id keys public
      (sym (first_or-none (first_key id keys)) ∙ sym (find_key-hint_keys id [] keys d) ∙ h)
