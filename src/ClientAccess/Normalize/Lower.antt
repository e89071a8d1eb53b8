-- ===== src/ClientAccess/Normalize/Lower.antt =====
-- Lower case: `ascii_lower` folds every byte, and a folded text stays as it is.
use authgate.Prelude.{ℕ, zero, suc, ◌≡◌, refl, ◌∙◌, [], ◌∷◌, map, Bytes, All, arith, length}
use authgate.Strings.{drop, trim_prefix}
use authgate.ClientAccess.Normalize.{fold_byte, ascii_lower}

-- No byte of the text is a capital.
abbrev pub IsLower : Bytes → Type 0
IsLower = All (λ c. fold_byte c ≡ c)

pub ascii_lower-eq-map : (s : Bytes) → ascii_lower s ≡ map fold_byte s
unfolding ascii_lower
ascii_lower-eq-map [] = refl
ascii_lower-eq-map (c ∷ s) = ground (arith, ascii_lower-eq-map s)

fold_byte_idem : (c : ℕ) → fold_byte (fold_byte c) ≡ fold_byte c
unfolding fold_byte
fold_byte_idem c = ground arith

map-IsLower : (s : Bytes) → IsLower (map fold_byte s)
map-IsLower [] = tt
map-IsLower (c ∷ s) = (fold_byte_idem c, map-IsLower s)

pub ascii_lower-IsLower : (s : Bytes) → IsLower (ascii_lower s)
ascii_lower-IsLower s = rw ascii_lower-eq-map (map-IsLower s)

pub ascii_lower_of_IsLower : (s : Bytes) → IsLower s → ascii_lower s ≡ s
ascii_lower_of_IsLower s h = ascii_lower-eq-map s ∙ unchanged s h
  where
    unchanged : (t : Bytes) → IsLower t → map fold_byte t ≡ t
    unchanged [] k = refl
    unchanged (c ∷ t) k = cc (k.0, unchanged t k.1)

pub ascii_lower_idem : (s : Bytes) → ascii_lower (ascii_lower s) ≡ ascii_lower s
ascii_lower_idem s = ascii_lower_of_IsLower (ascii_lower s) (ascii_lower-IsLower s)

drop-IsLower : (n : ℕ) (s : Bytes) → IsLower s → IsLower (drop n s)
drop-IsLower zero s h = h
drop-IsLower (suc n) [] h = tt
drop-IsLower (suc n) (c ∷ s) h = drop-IsLower n s h.1

pub trim_prefix-IsLower : (s t : Bytes) → IsLower s → IsLower (trim_prefix s t)
unfolding trim_prefix
trim_prefix-IsLower s t h = ground (arith, drop-IsLower (length t) s h)
