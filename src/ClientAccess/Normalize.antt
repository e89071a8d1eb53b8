-- ===== src/ClientAccess/Normalize.antt =====
-- internal/clientaccess/clientaccess.go: the canonical form of policy entries and of addresses.
pub mod Lower
pub mod Canonical
use authgate.Prelude.{
  ℕ, ◌+◌, Bool, true, false, not, ◌&&◌, ◌||◌, Option, none, some, List, [], ◌∷◌, map, Bytes, codes,
  leb, ◌==◌, if◌then◌else◌, Result, ok, err,
}
use authgate.Strings.{
  has_prefix, trim_prefix, contains_byte, contains_any, count_byte, split_last, trim_space,
}
use authgate.DomainName.{valid}

is_upper : ℕ → Bool
is_upper c = leb b'A' c && leb c b'Z'

-- The byte update of the inner loop.
unfoldable pub fold_byte : ℕ → ℕ
unfolding is_upper
fold_byte c = if is_upper c then c + 32 else c

-- From the first capital on the text is copied and folded; without one it is returned as it is.
unfoldable pub ascii_lower : Bytes → Bytes
unfolding is_upper fold_byte
ascii_lower [] = []
ascii_lower (c ∷ s) = if is_upper c then map fold_byte (c ∷ s) else c ∷ ascii_lower s

-- Why an entry of a policy is refused; each constructor is one `return "", fmt.Errorf(...)`.
pub data EntryError : Type 0 where
  empty_entry wildcard_not_allowed stray_wildcard leading_dot not_bare invalid_domain no_dot :
      EntryError
  not_single_address address_domain : EntryError

abbrev pub is_empty : Bytes → Bool
is_empty [] = true
is_empty (c ∷ s) = false

unfoldable pub email_domain : Bytes → Bytes
email_domain email = elim (split_last b'@' email) [
  | none ↦ []
  | some (local, domain) ↦ if not (valid domain) then [] else ascii_lower domain
]

unfoldable pub normalize_domain : Bytes → Bool → Result EntryError Bytes
normalize_domain entry allow_wildcard =
    let d = trim_prefix (ascii_lower (trim_space entry)) (codes "@") in
    let wildcard = has_prefix d (codes "*.") in
    let base = trim_prefix d (codes "*.") in
    if is_empty d
    then err empty_entry
    else if wildcard && not allow_wildcard
    then err wildcard_not_allowed
    else if contains_byte base b'*'
    then err stray_wildcard
    else if has_prefix base (codes ".")
    then err leading_dot
    else if contains_any base (codes "@ \t")
    then err not_bare
    else if not (valid base)
    then err invalid_domain
    else if not (contains_byte base b'.')
    then err no_dot
    else if wildcard
    then ok (b'.' ∷ base)
    else ok base

-- The tests on the parts around the '@'.
check_address : Bytes → Option (Bytes × Bytes) → Result EntryError Bytes
check_address e none = err not_single_address
check_address e (some (local, domain)) =
    if is_empty local || contains_any local (codes " \t\r\n")
    then err not_single_address
    else if not (valid domain) || not (contains_byte domain b'.')
    then err address_domain
    else ok e

unfoldable pub normalize_email : Bytes → Result EntryError Bytes
unfolding check_address
normalize_email entry =
    let e = ascii_lower (trim_space entry) in
    if not (count_byte e b'@' == 1)
    then err not_single_address
    else check_address e (split_last b'@' e)
