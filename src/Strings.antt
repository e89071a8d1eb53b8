-- ===== src/Strings.antt =====
-- The functions of Go's package strings that the program calls, over bytes.
use mathlib.Core.List.{reverse}
use authgate.Prelude.{
  ℕ, zero, suc, ◌≡◌, refl, Bool, true, false, ◌&&◌, ◌||◌, Option, none, some, [], ◌∷◌, Bytes,
  length, bytes_eq, codes, any, leb, ◌==◌, if◌then◌else◌,
}

unfoldable pub has_prefix : Bytes → Bytes → Bool
has_prefix s [] = true
has_prefix [] (d ∷ t) = false
has_prefix (c ∷ s) (d ∷ t) = (c == d) && has_prefix s t

abbrev pub drop : ℕ → Bytes → Bytes
drop zero s = s
drop (suc n) [] = []
drop (suc n) (c ∷ s) = drop n s

unfoldable pub trim_prefix : Bytes → Bytes → Bytes
unfolding has_prefix
trim_prefix s t = if has_prefix s t then drop (length t) s else s

unfoldable pub has_suffix : Bytes → Bytes → Bool
has_suffix [] t = bytes_eq [] t
has_suffix (c ∷ s) t = bytes_eq (c ∷ s) t || has_suffix s t

abbrev pub contains_byte : Bytes → ℕ → Bool
contains_byte s b = any (λ c. c == b) s

abbrev pub contains_any : Bytes → Bytes → Bool
contains_any s chars = any (contains_byte chars) s

unfoldable pub count_byte : Bytes → ℕ → ℕ
count_byte [] b = 0
count_byte (c ∷ s) b = let rest = count_byte s b in if c == b then suc rest else rest

-- `LastIndex(s, b)` as the text before and the text after that byte.
unfoldable pub split_last : ℕ → Bytes → Option (Bytes × Bytes)
split_last b [] = none
split_last b (c ∷ s) = elim (split_last b s) [
  | some (before, after) ↦ some (c ∷ before, after)
  | none ↦ if c == b then some ([], s) else none
]

between : ℕ → ℕ → ℕ → Bool
between lo hi c = leb lo c && leb c hi

-- The length of the white space character (of Unicode, in UTF-8) at the front; 0 if there is none.
space_len : Bytes → ℕ
unfolding between
space_len [] = 0
space_len (c ∷ []) = if between 9 13 c || c == b' ' then 1 else 0
space_len (c ∷ d ∷ []) =
    if between 9 13 c || c == b' '
    then 1
    else if c == 0xC2 && (d == 0x85 || d == 0xA0)
    then 2
    else 0
space_len (c ∷ d ∷ e ∷ s) =
    if between 9 13 c || c == b' '
    then 1
    else if c == 0xC2 && (d == 0x85 || d == 0xA0)
    then 2
    else if (c == 0xE1 && d == 0x9A && e == 0x80)
        || (c == 0xE2 && d == 0x80 && (between 0x80 0x8A e || e == 0xA8 || e == 0xA9 || e == 0xAF))
        || (c == 0xE2 && d == 0x81 && e == 0x9F)
        || (c == 0xE3 && d == 0x80 && e == 0x80)
    then 3
    else 0

-- The same at the end of the text, which is given last byte first.
space_len_back : Bytes → ℕ
unfolding space_len
space_len_back [] = 0
space_len_back (c ∷ []) = space_len (c ∷ [])
space_len_back (c ∷ d ∷ []) = if space_len (c ∷ []) == 1 then 1 else space_len (d ∷ c ∷ [])
space_len_back (c ∷ d ∷ e ∷ s) =
    if space_len (c ∷ []) == 1
    then 1
    else if space_len (d ∷ c ∷ []) == 2
    then 2
    else if space_len (e ∷ d ∷ c ∷ []) == 3
    then 3
    else 0

-- Every round drops at least one byte, so as many rounds as bytes are enough.
trim_with : (Bytes → ℕ) → ℕ → Bytes → Bytes
trim_with len zero s = s
trim_with len (suc fuel) s =
    let n = len s in let rest = trim_with len fuel (drop n s) in if n == 0 then s else rest

unfoldable pub trim_space : Bytes → Bytes
unfolding trim_with space_len space_len_back
trim_space s =
    let left = trim_with space_len (length s) s in
    reverse (trim_with space_len_back (length left) (reverse left))

trim_runs : trim_space (codes " \t a b \n") ≡ codes "a b"
unfolding trim_space
trim_runs = refl
