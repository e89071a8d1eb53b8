-- ===== src/ClientAccess.antt =====
-- internal/clientaccess/clientaccess.go: which accounts may use a client.
pub mod Normalize
pub mod Decisions
pub mod Normal
pub mod Wildcards
pub mod Matching
pub mod Tests
use authgate.Prelude.{
  ℕ, Bool, true, false, not, ◌&&◌, ◌||◌, Option, none, some, List, [], ◌∷◌, ◌++◌, Bytes, bytes_eq,
  any, if◌then◌else◌, ◌==◌, Result, ok, err, ◌>>=◌,
}
use authgate.Strings.{has_suffix}
use Normalize.{EntryError, is_empty, ascii_lower, email_domain, normalize_domain, normalize_email}

-- The allow and deny blocks of clients.yaml.
pub record Rules : Type 0 where
  pub google_workspace_domains : List Bytes
  pub email_domains : List Bytes
  pub emails : List Bytes

pub record DenyRules : Type 0 where
  pub emails : List Bytes

-- A set (`map[string]struct{}`) is a list that is only searched and added to.
pub record Policy : Type 0 where
  pub is_public : Bool
  pub hosted_domains : List Bytes
  pub email_domains : List Bytes
  pub emails : List Bytes
  pub deny_emails : List Bytes

abbrev pub public_policy : Policy
public_policy = record {
  is_public = true;
  hosted_domains = [];
  email_domains = [];
  emails = [];
  deny_emails = [];
}

pub data PolicyError : Type 0 where
  google_workspace_domains email_domains emails deny : EntryError → PolicyError
  nothing_allowed : PolicyError

abbrev pub mem : Bytes → List Bytes → Bool
mem b xs = any (λ x. bytes_eq x b) xs

abbrev add : Bytes → List Bytes → List Bytes
add b xs = if mem b xs then xs else b ∷ xs

abbrev wrap {ℓ} :
    {A : Type ℓ} → (EntryError → PolicyError) → Result EntryError A → Result PolicyError A
wrap at (ok a) = ok a
wrap at (err e) = err (at e)

-- One loop of `New`: normalize each entry, and put it into the set.
add_all :
    (EntryError → PolicyError)
    → (Bytes → Result EntryError Bytes)
    → List Bytes
    → List Bytes
    → Result PolicyError (List Bytes)
add_all at norm [] set = ok set
add_all at norm (entry ∷ entries) set = do
  e ← wrap at (norm entry)
  add_all at norm entries (add e set)

-- The loop over `email_domains`, which keeps the order and drops repeated entries by `seen`.
add_in_order : List Bytes → List Bytes → Result PolicyError (List Bytes)
add_in_order [] kept = ok kept
add_in_order (entry ∷ entries) kept = do
  d ← wrap email_domains (normalize_domain entry true)
  add_in_order entries (if mem d kept then kept else kept ++ d ∷ [])

abbrev none_listed : List Bytes → Bool
none_listed [] = true
none_listed (x ∷ xs) = false

-- The last test of `New`.
check_listed : Policy → Result PolicyError Policy
check_listed p =
    if none_listed p.hosted_domains && none_listed p.email_domains && none_listed p.emails
    then err nothing_allowed
    else ok p

-- `New`.
pub new : Rules → DenyRules → Result PolicyError Policy
new allow deny_rules = do
  hosted ←
      add_all google_workspace_domains (λ e. normalize_domain e false)
        allow.google_workspace_domains []
  domains ← add_in_order allow.email_domains []
  addresses ← add_all emails normalize_email allow.emails []
  denied ← add_all deny normalize_email deny_rules.emails []
  check_listed (record {
    is_public = false;
    hosted_domains = hosted;
    email_domains = domains;
    emails = addresses;
    deny_emails = denied;
  })

-- A client without an `access` key has the policy `nil`, here `none`.
unfoldable pub restricted : Option Policy → Bool
restricted none = false
restricted (some p) = not p.is_public

pub record Subject : Type 0 where
  pub email : Bytes
  pub email_verified : Bool
  pub hosted_domain : Bytes

pub data Reason : Type 0 where
  deny_listed not_allowed email_unverified : Reason

-- `Decision{Allowed: true}`, or a refusal with its reason.
pub data Decision : Type 0 where
  allowed : Decision
  refused : Reason → Decision

-- One entry of `emailDomains`: the test on `d[0]` tells a suffix from a domain. `none` is the index
-- error that an empty entry would give.
pub entry_matches : Bytes → Bytes → Option Bool
entry_matches domain [] = none
entry_matches domain (c ∷ d) =
    some (if c == b'.' then has_suffix domain (c ∷ d) else bytes_eq (c ∷ d) domain)

pub matches_domain : Bytes → List Bytes → Option Bool
unfolding entry_matches
matches_domain domain [] = some false
matches_domain domain (d ∷ ds) =
    let rest = matches_domain domain ds in
    elim (entry_matches domain d) [ none ↦ none | some true ↦ some true | some false ↦ rest ]

-- `none` is a fault at an empty entry of `email_domains`.
unfoldable pub matches_email : Policy → Bytes → Option Bool
unfolding matches_domain
matches_email p email =
    if mem email p.emails
    then some true
    else if is_empty (email_domain email)
    then some false
    else matches_domain (email_domain email) p.email_domains

abbrev decide_email : Option Bool → Bool → Option Decision
decide_email none verified = none
decide_email (some false) verified = some (refused not_allowed)
decide_email (some true) verified =
    some (if not verified then refused email_unverified else allowed)

evaluate_restricted : Policy → Subject → Option Decision
evaluate_restricted p s =
    let email = ascii_lower s.email in
    let hd = ascii_lower s.hosted_domain in
    if mem email p.deny_emails
    then some (refused deny_listed)
    else if not (is_empty hd) && mem hd p.hosted_domains
    then some allowed
    else decide_email (matches_email p email) s.email_verified

-- `Evaluate`; `none` is a fault.
unfoldable pub evaluate : Option Policy → Subject → Option Decision
unfolding restricted evaluate_restricted
evaluate none s = some allowed
evaluate (some p) s = if not (restricted (some p)) then some allowed else evaluate_restricted p s
