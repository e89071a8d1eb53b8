-- ===== src/ClientAccess/Tests.antt =====
-- A policy built from entries as an operator writes them, and the theorems at it.
use authgate.Prelude.{
  ◌≡◌, refl, ◌↔◌, true, false, none, some, [], ◌∷◌, codes, Bytes, ok, err, bytes_eq,
}
use authgate.Strings.{has_suffix, trim_space, trim_prefix, count_byte, split_last}
use authgate.DomainName.{valid}
use authgate.ClientAccess.Normalize.{
  ascii_lower, email_domain, normalize_domain, normalize_email, wildcard_not_allowed, no_dot,
}
use authgate.ClientAccess.Decisions.{Admits, evaluate-allowed_iff}
use authgate.ClientAccess.Normal.{IsNormal, new-IsNormal}
use authgate.ClientAccess.Matching.{EmailMatches, matches_email_iff}
use authgate.ClientAccess.{
  Rules, DenyRules, Policy, Subject, email_domains, google_workspace_domains, nothing_allowed,
  deny_listed, not_allowed, email_unverified, allowed, refused, add_all, add_in_order, check_listed,
  new, matches_email, evaluate,
}

-- All that a run of the package calls.
running : Unit {0}
unfolding new add_all add_in_order check_listed normalize_domain normalize_email ascii_lower
    trim_prefix trim_space valid count_byte split_last bytes_eq evaluate matches_email email_domain
    has_suffix
running = tt

abbrev allow : Rules
allow = record {
  google_workspace_domains = [];
  email_domains = codes " *.Example.com " ∷ codes "@acme.io" ∷ [];
  emails = codes "Ann@Home.org" ∷ [];
}

abbrev refuse : DenyRules
refuse = record { emails = codes "bob@acme.io" ∷ [] }

abbrev policy : Policy
policy = record {
  is_public = false;
  hosted_domains = [];
  email_domains = codes ".example.com" ∷ codes "acme.io" ∷ [];
  emails = codes "ann@home.org" ∷ [];
  deny_emails = codes "bob@acme.io" ∷ [];
}

built : new allow refuse ≡ ok policy
unfolding running
built = refl

refusals :
    (new (record allow { email_domains = codes "*.com" ∷ [] }) refuse ≡ err (email_domains no_dot))
    × (new (record allow { google_workspace_domains = codes "*.a.com" ∷ [] }) refuse
        ≡ err (google_workspace_domains wildcard_not_allowed))
    × (new (record { google_workspace_domains = []; email_domains = []; emails = [] }) refuse
        ≡ err nothing_allowed)
unfolding running
refusals = (refl, refl, refl)

abbrev subject : Bytes → Subject
subject email = record { email = email; email_verified = true; hosted_domain = [] }

decisions :
    (evaluate (some policy) (subject (codes "x@Mail.example.com")) ≡ some allowed)
    × (evaluate (some policy) (subject (codes "x@example.com")) ≡ some (refused not_allowed))
    × (evaluate (some policy) (subject (codes "x@notexample.com")) ≡ some (refused not_allowed))
    × (evaluate (some policy) (subject (codes "BOB@acme.io")) ≡ some (refused deny_listed))
    × (evaluate
          (some policy)
          (record { email = codes "ann@home.org"; email_verified = false; hosted_domain = [] })
        ≡ some (refused email_unverified))
    × (evaluate none (subject (codes "x")) ≡ some allowed)
unfolding running
decisions = (refl, refl, refl, refl, refl, refl)

evaluate-allowed_iff_example :
    (evaluate (some policy) (subject (codes "x@acme.io")) ≡ some allowed)
    ↔ Admits policy (subject (codes "x@acme.io"))
evaluate-allowed_iff_example = evaluate-allowed_iff policy (subject (codes "x@acme.io")) refl

abbrev unverified : Subject
unverified = record { email = codes "ann@home.org"; email_verified = false; hosted_domain = [] }

new-IsNormal_example : IsNormal policy
new-IsNormal_example = new-IsNormal allow refuse policy built

matches_email_iff_example :
    (matches_email policy (codes "x@a.example.com") ≡ some true)
    ↔ EmailMatches policy (codes "x@a.example.com")
matches_email_iff_example =
    matches_email_iff policy (codes "x@a.example.com") (new-IsNormal allow refuse policy built)
