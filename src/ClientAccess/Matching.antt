-- ===== src/ClientAccess/Matching.antt =====
-- The email rules of a canonical policy: what they match, and that the test never faults.
use authgate.Prelude.{
  ℕ, ◌≡◌, ◌⊎◌, inl, inr, ◌≢◌, ◌↔◌, true, false, none, some, List, [], ◌∷◌, Bytes, bytes_eq_iff, All,
  Any, arith, Bool-cases, ◌==◌, ==_iff, ok,
}
use authgate.DomainName.Labels.{valid-leading_dot}
use authgate.ClientAccess.Normalize.{is_empty, ascii_lower, email_domain}
use authgate.ClientAccess.Normalize.Canonical.{IsDomain, IsDomainEntry}
use authgate.ClientAccess.Normal.{IsNormal, new-IsNormal}
use authgate.ClientAccess.Wildcards.{IsBelow, wildcard_iff}
use authgate.ClientAccess.{
  Rules, DenyRules, Policy, Subject, mem, entry_matches, matches_domain, matches_email, new,
  evaluate,
}

-- An exact entry admits its own name, an entry `.base` every name below the base.
abbrev pub EntryAdmits : Bytes → Bytes → Type 0
EntryAdmits domain d =
    (IsDomain d × (d ≡ domain)) ⊎ ((base : Bytes) × (d ≡ b'.' ∷ base) × IsBelow domain base)

not-IsDomain-dot : (s : Bytes) → ¬ IsDomain (b'.' ∷ s)
not-IsDomain-dot s h = cc (h.well_formed, valid-leading_dot s)

not-IsDomain-nil : ¬ IsDomain []
not-IsDomain-nil h = cc (h.dotted)

exact_first : (c : ℕ) (d : Bytes) → IsDomain (c ∷ d) → (c == b'.') ≡ false
exact_first c d h = elim (Bool-cases (c == b'.')) [
  | inl dot ↦ absurd (not-IsDomain-dot d (rw ((==_iff c b'.').0 dot) at h))
  | inr other ↦ other
]

exact_iff : (domain d : Bytes) → IsDomain d → (entry_matches domain d ≡ some true) ↔ (d ≡ domain)
unfolding entry_matches
exact_iff domain [] h = absurd (not-IsDomain-nil h)
exact_iff domain (c ∷ d) h = ground (arith, exact_first c d h, bytes_eq_iff (c ∷ d) domain)

entry_matches-EntryAdmits :
    (domain d : Bytes) → IsDomainEntry d → entry_matches domain d ≡ some true → EntryAdmits domain d
entry_matches-EntryAdmits domain d (inl exact) h = inl (exact, (exact_iff domain d exact).0 h)
entry_matches-EntryAdmits domain d (inr (base, e, _)) h =
    inr (base, e, (wildcard_iff domain base).0 (rw e at h))

EntryAdmits-entry_matches :
    (domain d : Bytes) → EntryAdmits domain d → entry_matches domain d ≡ some true
EntryAdmits-entry_matches domain d (inl (exact, e)) = (exact_iff domain d exact).1 e
EntryAdmits-entry_matches domain d (inr (base, e, below)) =
    rw e ((wildcard_iff domain base).1 below)

entry_matches-ne-none : (domain d : Bytes) → IsDomainEntry d → entry_matches domain d ≢ none
unfolding entry_matches
entry_matches-ne-none domain [] (inl exact) e = not-IsDomain-nil exact
entry_matches-ne-none domain [] (inr (base, k, _)) e = cc
entry_matches-ne-none domain (c ∷ d) h e = cc

module _ (domain : Bytes) where
  matches_domain-ne-none :
      (ds : List Bytes) → All IsDomainEntry ds → matches_domain domain ds ≢ none
  unfolding matches_domain
  matches_domain-ne-none [] h = ground arith
  matches_domain-ne-none (d ∷ ds) h =
      ground (arith, entry_matches-ne-none domain d h.0, matches_domain-ne-none ds h.1)

  matches_domain-Any :
      (ds : List Bytes)
      → All IsDomainEntry ds
      → matches_domain domain ds ≡ some true
      → Any (EntryAdmits domain) ds
  unfolding matches_domain
  matches_domain-Any [] h e = absurd (ground arith)
  matches_domain-Any (d ∷ ds) h e =
      ground (arith, entry_matches-EntryAdmits domain d h.0, matches_domain-Any ds h.1)

  Any-matches_domain :
      (ds : List Bytes)
      → All IsDomainEntry ds
      → Any (EntryAdmits domain) ds
      → matches_domain domain ds ≡ some true
  unfolding matches_domain
  Any-matches_domain [] h e = elim e [ ]
  Any-matches_domain (d ∷ ds) h (inl here) = ground (arith, EntryAdmits-entry_matches domain d here)
  Any-matches_domain (d ∷ ds) h (inr later) =
      ground (arith, entry_matches-ne-none domain d h.0, Any-matches_domain ds h.1 later)

-- The address is listed, or its domain is admitted by some entry.
abbrev pub EmailMatches : Policy → Bytes → Type 0
EmailMatches p email =
    (mem email p.emails ≡ true)
    ⊎ ((is_empty (email_domain email) ≡ false)
        × Any (EntryAdmits (email_domain email)) p.email_domains)

-- In a canonical policy an address passes the email rules exactly if it is listed, or if it has a
-- domain that is one of the entries or lies below the base of a wildcard entry.
pub matches_email_iff :
    (p : Policy) (email : Bytes)
    → IsNormal p
    → (matches_email p email ≡ some true) ↔ EmailMatches p email
unfolding matches_email
matches_email_iff p email n = (
  λ h. ground (arith, matches_domain-Any (email_domain email) p.email_domains n.domains),
  λ h. ground (arith, Any-matches_domain (email_domain email) p.email_domains n.domains),
)

-- The index `d[0]` of the source is never out of range: a policy that `new` built never faults.
pub evaluate-new-ne-none :
    (allow : Rules) (deny_rules : DenyRules) (p : Policy) (s : Subject)
    → new allow deny_rules ≡ ok p
    → evaluate (some p) s ≢ none
unfolding evaluate matches_email
evaluate-new-ne-none allow deny_rules p s e = ground (
  arith,
  matches_domain-ne-none (email_domain (ascii_lower s.email)) p.email_domains
      (new-IsNormal allow deny_rules p e).domains,
)
