-- ===== src/DomainName.antt =====
-- internal/domainname/domainname.go: the check of a DNS name in ASCII form.
pub mod Labels
pub mod Tests
use authgate.Prelude.{
  ℕ, ◌+◌, Bool, true, false, not, ◌&&◌, ◌||◌, List, [], ◌∷◌, Bytes, length, ltb, leb, ◌==◌,
  if◌then◌else◌,
}

-- 'a'-'z', 'A'-'Z', '0'-'9'.
unfoldable pub is_letter_or_digit : ℕ → Bool
is_letter_or_digit c =
    (leb b'a' c && leb c b'z') || (leb b'A' c && leb c b'Z') || (leb b'0' c && leb c b'9')

-- The loop over the bytes: `label` is the length of the current label so far, `prev` the byte
-- before the current one (`name[i-1]`; the first round never reads it).
valid_from : ℕ → ℕ → Bytes → Bool
unfolding is_letter_or_digit
valid_from label prev [] = ltb 0 label && not (prev == b'-')
valid_from label prev (c ∷ name) =
    let dot = valid_from 0 c name in
    let more = valid_from (label + 1) c name in
    let counted = if ltb 63 (label + 1) then false else more in
    if c == b'.'
    then (if label == 0 || prev == b'-' then false else dot)
    else if c == b'-'
    then (if label == 0 then false else counted)
    else if is_letter_or_digit c
    then counted
    else false

is_empty : Bytes → Bool
is_empty [] = true
is_empty (c ∷ name) = false

unfoldable pub valid : Bytes → Bool
unfolding valid_from is_empty
valid name = if is_empty name || ltb 253 (length name) then false else valid_from 0 0 name
