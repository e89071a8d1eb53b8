-- ===== src/ClientAccess/Normalize/Canonical.antt =====
-- What the accepted entries look like.
use authgate.Prelude.{
  ◌≡◌, refl, ◌⊎◌, inl, inr, Bool, true, false, Option, none, some, ◌∷◌, Bytes, codes, ◌==◌, arith,
  ok, Bool-cases, ==_iff,
}
use authgate.Strings.{trim_space, trim_prefix, contains_byte, count_byte, split_last}
use authgate.DomainName.{valid}
use authgate.ClientAccess.Normalize.{
  ascii_lower, normalize_domain, normalize_email, is_empty, check_address,
}
use authgate.ClientAccess.Normalize.Lower.{IsLower, ascii_lower-IsLower, trim_prefix-IsLower}

-- A lower-case DNS name with a dot.
pub record IsDomain (d : Bytes) : Type 0 where
  pub well_formed : valid d ≡ true
  pub dotted : contains_byte d b'.' ≡ true
  pub lower : IsLower d

-- An entry of `emailDomains`: a domain, or a dot before a domain.
abbrev pub IsDomainEntry : Bytes → Type 0
IsDomainEntry d = IsDomain d ⊎ ((base : Bytes) × (d ≡ b'.' ∷ base) × IsDomain base)

-- An address in lower case with one '@', something before it and a dotted DNS name after it.
pub record IsAddress (e : Bytes) : Type 0 where
  pub lower : IsLower e
  pub single : count_byte e b'@' ≡ 1
  pub local : Bytes
  pub domain : Bytes
  pub parts : split_last b'@' e ≡ some (local, domain)
  pub has_local : is_empty local ≡ false
  pub domain_valid : valid domain ≡ true
  pub domain_dotted : contains_byte domain b'.' ≡ true

base_of : Bytes → Bytes
base_of entry = trim_prefix (trim_prefix (ascii_lower (trim_space entry)) (codes "@")) (codes "*.")

base_of-IsLower : (entry : Bytes) → IsLower (base_of entry)
unfolding base_of
base_of-IsLower entry =
    trim_prefix-IsLower _ _ (trim_prefix-IsLower _ _ (ascii_lower-IsLower (trim_space entry)))

normalize_domain_parts :
    (entry : Bytes) (wild : Bool) (d : Bytes)
    → normalize_domain entry wild ≡ ok d
    → (valid (base_of entry) ≡ true)
      × (contains_byte (base_of entry) b'.' ≡ true)
      × ((d ≡ base_of entry) ⊎ ((wild ≡ true) × (d ≡ b'.' ∷ base_of entry)))
unfolding normalize_domain base_of
normalize_domain_parts entry wild d h = ground arith

base_of-IsDomain :
    (entry : Bytes)
    → valid (base_of entry) ≡ true
    → contains_byte (base_of entry) b'.' ≡ true
    → IsDomain (base_of entry)
base_of-IsDomain entry v k = record { well_formed = v; dotted = k; lower = base_of-IsLower entry }

-- An accepted entry is a lower-case DNS name with a dot; where wildcards are allowed it may have one
-- more dot in front.
pub normalize_domain-IsDomainEntry :
    (entry : Bytes) (wild : Bool) (d : Bytes)
    → normalize_domain entry wild ≡ ok d
    → IsDomain d ⊎ ((wild ≡ true) × IsDomainEntry d)
normalize_domain-IsDomainEntry entry wild d h = choose (normalize_domain_parts entry wild d h)
  where
    choose :
        (valid (base_of entry) ≡ true)
          × (contains_byte (base_of entry) b'.' ≡ true)
          × ((d ≡ base_of entry) ⊎ ((wild ≡ true) × (d ≡ b'.' ∷ base_of entry)))
        → IsDomain d ⊎ ((wild ≡ true) × IsDomainEntry d)
    choose (v, k, inl e) = inl (rw e (base_of-IsDomain entry v k))
    choose (v, k, inr (w, e)) = inr (w, inr (base_of entry, e, base_of-IsDomain entry v k))

check_address_ok :
    (e : Bytes) (parts : Option (Bytes × Bytes)) (r : Bytes)
    → check_address e parts ≡ ok r
    → (local : Bytes) × (domain : Bytes) × (r ≡ e)
      × (parts ≡ some (local, domain))
      × (is_empty local ≡ false)
      × (valid domain ≡ true)
      × (contains_byte domain b'.' ≡ true)
unfolding check_address
check_address_ok e none r h = absurd (ground arith)
check_address_ok e (some (local, domain)) r h =
    (local, domain, ground arith, refl, ground arith, ground arith, ground arith)

-- An accepted address is in lower case and has the shape local@domain.
pub normalize_email-IsAddress : (entry e : Bytes) → normalize_email entry ≡ ok e → IsAddress e
unfolding normalize_email
normalize_email-IsAddress entry e h = elim (Bool-cases (count_byte folded b'@' == 1)) [
  | inl single ↦
      let (local, domain, same, parts, has_local, good, dotted) =
        check_address_ok folded (split_last b'@' folded) e (ground arith) in
      rw same (record {
        lower = ascii_lower-IsLower (trim_space entry);
        single = (==_iff _ _).0 single;
        local = local;
        domain = domain;
        parts = parts;
        has_local = has_local;
        domain_valid = good;
        domain_dotted = dotted;
      })
  | inr other ↦ ground arith
]
  where
    folded : Bytes
    folded = ascii_lower (trim_space entry)
