-- ===== src/ClientAccess/Decisions.antt =====
-- What `evaluate` decides, against a reading of the policy rules.
use authgate.Prelude.{◌≡◌, refl, ◌↔◌, ◌⊎◌, ◌≢◌, true, false, some, [], ◌∷◌, Bytes, arith}
use authgate.ClientAccess.Normalize.{is_empty, ascii_lower}
use authgate.ClientAccess.{
  Policy, mem, Subject, email_unverified, allowed, refused, matches_email, evaluate,
}

-- The reading: the deny list wins; then a hosted domain admits; then a verified matching address.
pub record Admits (p : Policy) (s : Subject) : Type 0 where
  pub not_denied : mem (ascii_lower s.email) p.deny_emails ≡ false
  pub admitted :
      ((ascii_lower s.hosted_domain ≢ [])
        × (mem (ascii_lower s.hosted_domain) p.hosted_domains ≡ true))
      ⊎ ((matches_email p (ascii_lower s.email) ≡ some true) × (s.email_verified ≡ true))

is_empty-nonempty : (s : Bytes) → is_empty s ≡ false → s ≢ []
is_empty-nonempty [] h e = cc
is_empty-nonempty (c ∷ s) h e = cc

nonempty-is_empty : (s : Bytes) → s ≢ [] → is_empty s ≡ false
nonempty-is_empty [] h = absurd (h refl)
nonempty-is_empty (c ∷ s) h = refl

module _ (p : Policy) (s : Subject) (limits : p.is_public ≡ false) where
  evaluate-Admits : evaluate (some p) s ≡ some allowed → Admits p s
  unfolding evaluate
  evaluate-Admits h = record {
    not_denied = ground arith;
    admitted = ground (arith, is_empty-nonempty (ascii_lower s.hosted_domain));
  }

  Admits-evaluate : Admits p s → evaluate (some p) s ≡ some allowed
  unfolding evaluate
  Admits-evaluate h = ground (arith, nonempty-is_empty (ascii_lower s.hosted_domain))

  -- A policy that is not public allows an account exactly if the address is not on the deny list and
  -- either the hosted domain is nonempty and listed, or the address matches an email rule and is
  -- verified. Letters are compared in lower case.
  pub evaluate-allowed_iff : (evaluate (some p) s ≡ some allowed) ↔ Admits p s
  evaluate-allowed_iff = (evaluate-Admits, Admits-evaluate)

  -- The reason `email_unverified` is given exactly if the account is refused and would be allowed
  -- were its address verified.
  pub evaluate-unverified_iff : (evaluate (some p) s ≡ some (refused email_unverified)) ↔ (
      (evaluate (some p) s ≢ some allowed)
      × (evaluate (some p) (record s { email_verified = true }) ≡ some allowed))
  unfolding evaluate
  evaluate-unverified_iff = (λ h. (ground arith, ground arith), λ h. ground arith)
