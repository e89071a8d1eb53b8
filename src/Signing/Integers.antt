-- ===== src/Signing/Integers.antt =====
-- The numbers of a JWK: `bundleBase64Integer` of internal/signing/bundle.go reads back what `Bytes` of a
-- big.Int and the base64 encoding write.
use mathlib.Core.Path.{subst}
use authgate.Prelude.{
  ℕ, zero, suc, ◌+◌, ◌*◌, ◌/◌, ◌%◌, ◌≤◌, ◌<◌, ◌≡◌, ◌≢◌, refl, sym, ap, ◌∙◌, ◌||◌, not, Option, none,
  some, [], ◌∷◌, ◌++◌, append-nil, Bytes, bytes_eq, bytes_eq_iff, bytes_eq_refl, All, ◌==◌, arith,
  Bool-cases, ◌⊎◌, inl, inr,
}
use authgate.Signing.Keys.{
  Library, bundle_base64_integer, canonical_integer, set_bytes, set_bytes_from,
}

-- The bytes of a number before `acc`, the least significant last; the number is enough fuel.
unfoldable pub bytes_from : ℕ → ℕ → Bytes → Bytes
bytes_from zero n acc = acc
bytes_from (suc fuel) zero acc = acc
bytes_from (suc fuel) (suc n) acc = bytes_from fuel (suc n / 256) (suc n % 256 ∷ acc)

-- `Bytes` of a big.Int: no byte for 0, and no leading zero.
unfoldable pub big_bytes : ℕ → Bytes
unfolding bytes_from
big_bytes n = bytes_from n n []

set_bytes_from-bytes_from :
    (fuel n : ℕ) (acc : Bytes)
    → n ≤ fuel
    → set_bytes_from 0 (bytes_from fuel n acc) ≡ set_bytes_from n acc
unfolding bytes_from set_bytes_from
set_bytes_from-bytes_from zero n acc h = ap (λ m. set_bytes_from m acc) (omega (arith, h))
set_bytes_from-bytes_from (suc fuel) zero acc h = refl
set_bytes_from-bytes_from (suc fuel) (suc n) acc h =
    let whole : 256 * (suc n / 256) + suc n % 256 ≡ suc n = omega arith in
    set_bytes_from-bytes_from fuel (suc n / 256) (suc n % 256 ∷ acc) (omega (arith, h))
    ∙ ap (λ m. set_bytes_from m acc) whole

-- Any fuel that is enough gives the same bytes.
bytes_from_fuel :
    (fuel other n : ℕ) (acc : Bytes)
    → n ≤ fuel
    → n ≤ other
    → bytes_from fuel n acc ≡ bytes_from other n acc
unfolding bytes_from
bytes_from_fuel zero zero n acc h k = refl
bytes_from_fuel zero (suc other) zero acc h k = refl
bytes_from_fuel zero (suc other) (suc n) acc h k = absurd (omega (arith, h))
bytes_from_fuel (suc fuel) zero zero acc h k = refl
bytes_from_fuel (suc fuel) zero (suc n) acc h k = absurd (omega (arith, k))
bytes_from_fuel (suc fuel) (suc other) zero acc h k = refl
bytes_from_fuel (suc fuel) (suc other) (suc n) acc h k =
    bytes_from_fuel fuel other (suc n / 256) (suc n % 256 ∷ acc) (omega (arith, h))
      (omega (arith, k))

bytes_from_step :
    (n : ℕ) (acc : Bytes)
    → 1 ≤ n
    → bytes_from n n acc ≡ bytes_from (n / 256) (n / 256) (n % 256 ∷ acc)
unfolding bytes_from
bytes_from_step zero acc positive = absurd (omega (arith, positive))
bytes_from_step (suc n) acc positive =
    bytes_from_fuel n (suc n / 256) (suc n / 256) (suc n % 256 ∷ acc) (omega arith) (omega arith)

-- One byte more at the end.
bytes_from_byte :
    (n b : ℕ) (acc : Bytes)
    → b < 256
    → 1 ≤ n
    → bytes_from (256 * n + b) (256 * n + b) acc ≡ bytes_from n n (b ∷ acc)
bytes_from_byte n b acc small positive =
    let quotient : (256 * n + b) / 256 ≡ n = omega (arith, small) in
    let remainder : (256 * n + b) % 256 ≡ b = omega (arith, small) in
    bytes_from_step (256 * n + b) acc (omega (arith, positive)) ∙ rw (quotient, remainder) refl

bytes_from-set_bytes_from :
    (n : ℕ) (bs acc : Bytes)
    → 1 ≤ n
    → All (λ b. b < 256) bs
    → bytes_from (set_bytes_from n bs) (set_bytes_from n bs) acc ≡ bytes_from n n (bs ++ acc)
unfolding set_bytes_from
bytes_from-set_bytes_from n [] acc positive h = refl
bytes_from-set_bytes_from n (b ∷ bs) acc positive h =
    bytes_from-set_bytes_from (256 * n + b) bs acc (omega (arith, positive)) h.1
    ∙ bytes_from_byte n b (bs ++ acc) h.0 positive

big_bytes-set_bytes :
    (b : ℕ) (bs : Bytes)
    → b ≢ 0
    → All (λ c. c < 256) (b ∷ bs)
    → big_bytes (set_bytes (b ∷ bs)) ≡ b ∷ bs
unfolding big_bytes bytes_from set_bytes_from
big_bytes-set_bytes b bs positive h =
    let first : 256 * 0 + b ≡ b = omega arith in
    let quotient : b / 256 ≡ 0 = omega (arith, h.0) in
    let remainder : b % 256 ≡ b = omega (arith, h.0) in
    rw first (
      bytes_from-set_bytes_from b bs [] (omega (arith, positive)) h.1
      ∙ bytes_from_step b (bs ++ []) (omega (arith, positive))
      ∙ rw (quotient, remainder, append-nil bs) refl)

compare_zero : (n : ℕ) → (n ≡ 0) ⊎ (1 ≤ n)
compare_zero zero = inl refl
compare_zero (suc n) = inr (omega arith)

bytes_from_zero : (fuel : ℕ) (acc : Bytes) → bytes_from fuel 0 acc ≡ acc
unfolding bytes_from
bytes_from_zero zero acc = refl
bytes_from_zero (suc fuel) acc = refl

-- The first byte of a number above 0 is not 0.
leading :
    (fuel n : ℕ) (acc : Bytes)
    → 1 ≤ n
    → n ≤ fuel
    → (b : ℕ) × (bs : Bytes) × (b ≢ 0) × (bytes_from fuel n acc ≡ b ∷ bs)
unfolding bytes_from
leading zero n acc positive h = absurd (omega (arith, positive, h))
leading (suc fuel) zero acc positive h = absurd (omega (arith, positive))
leading (suc fuel) (suc n) acc positive h = elim (compare_zero (suc n / 256)) [
  | inl small ↦ (
    suc n % 256,
    acc,
    (λ e. omega (arith, e, small)),
    rw small (bytes_from_zero fuel (suc n % 256 ∷ acc)),
  )
  | inr large ↦ leading fuel (suc n / 256) (suc n % 256 ∷ acc) large (omega (arith, h))
]

canonical_lem :
    (lib : Library) (value : Bytes) (o : Option Bytes) (bs : Bytes)
    → canonical_integer lib value o ≡ some bs
    → (b : ℕ) × (rest : Bytes) × (b ≢ 0)
      × (bs ≡ b ∷ rest)
      × (o ≡ some bs)
      × (lib.base64_encode bs ≡ value)
canonical_lem lib value none bs e = cc
canonical_lem lib value (some []) bs e = cc
canonical_lem lib value (some (b ∷ rest)) bs e =
    elim (Bool-cases (b == 0 || not (bytes_eq (lib.base64_encode (b ∷ rest)) value))) [
      | inl refused ↦ absurd (ground (arith, e, refused))
      | inr taken ↦
          let same : bs ≡ b ∷ rest = ground (arith, e, taken) in
          (
            b,
            rest,
            (λ zero_byte. ground (arith, taken, zero_byte)),
            same,
            ap some (sym same),
            rw same (ground (arith, taken, bytes_eq_iff (lib.base64_encode (b ∷ rest)) value)),
          )
    ]

bytes_from-in_bytes :
    (fuel n : ℕ) (acc : Bytes) → All (λ b. b < 256) acc → All (λ b. b < 256) (bytes_from fuel n acc)
unfolding bytes_from
bytes_from-in_bytes zero n acc h = h
bytes_from-in_bytes (suc fuel) zero acc h = h
bytes_from-in_bytes (suc fuel) (suc n) acc h =
    bytes_from-in_bytes fuel (suc n / 256) (suc n % 256 ∷ acc) (omega arith, h)

-- What `bundleBase64Integer` reads, it reads from the only text that is accepted for that number, the
-- encoding of its bytes; and of every number above 0 the encoding of the bytes is read, as that number,
-- where the decoder returns what was encoded.
pub bundle_base64_integer-big_bytes :
    (lib : Library)
    → ((bs : Bytes) → All (λ b. b < 256) bs → lib.base64_decode (lib.base64_encode bs) ≡ some bs)
    → ((text bs : Bytes) → lib.base64_decode text ≡ some bs → All (λ b. b < 256) bs)
    → ((text bs : Bytes)
        → bundle_base64_integer lib text ≡ some bs
        → text ≡ lib.base64_encode (big_bytes (set_bytes bs)))
      × ((n : ℕ)
          → 1 ≤ n
          → (bundle_base64_integer lib (lib.base64_encode (big_bytes n)) ≡ some (big_bytes n))
            × (set_bytes (big_bytes n) ≡ n))
unfolding bundle_base64_integer big_bytes set_bytes_from
bundle_base64_integer-big_bytes lib decodes in_bytes = (
  (λ value bs e.
      let (b, rest, positive, same, read, encoded) =
        canonical_lem lib value (lib.base64_decode value) bs e in
      let whole : big_bytes (set_bytes bs) ≡ bs = rw same (
        big_bytes-set_bytes b rest positive
          (subst (λ xs. All (λ c. c < 256) xs) same (in_bytes value bs read))) in
      sym encoded ∙ ap lib.base64_encode (sym whole)),
  (λ n positive.
      let (b, rest, nonzero, same) = leading n n [] positive (omega arith) in
      (
        rw (decodes (bytes_from n n []) (bytes_from-in_bytes n n [] tt), same)
            (ground (arith, nonzero, bytes_eq_refl (lib.base64_encode (b ∷ rest)))),
        set_bytes_from-bytes_from n n [] (omega arith),
      )),
)
