-- ===== src/Cimd/Allowed.antt =====
-- Which client_ids a host allowlist admits: internal/adapter/mcp/cimd_hosts.go.
use authgate.Prelude.{
  ◌≡◌, ◌↔◌, ◌⊎◌, refl, inl, inr, Bool, true, false, Option, none, some, List, [], ◌∷◌, String,
  str_eq, any, arith, ok, Bool-cases, Result-cases, ◌||◌, ◌∙◌, sym, ap, eq_iff,
}
use authgate.Cimd.Url.{Library, Url}
use authgate.Cimd.Hosts.{
  CimdHostPolicy, host_allowed, add_hosts, new_cimd_host_policy, allows_client_id,
}

abbrev pub listed : String → List String → Bool
listed host hosts = any (λ h. str_eq h host) hosts

-- The rule of the allowlist: `*` alone, or the host of the client_id, exactly as listed.
abbrev pub Admits : Library → List String → String → Type 0
Admits lib hosts client_id =
    (hosts ≡ "*" ∷ [])
    ⊎ ((u : Url) × (lib.parse client_id ≡ some u) × (listed (lib.hostname u) hosts ≡ true))

add_hosts_lem :
    (lib : Library) (hosts set kept : List String) (host : String)
    → add_hosts lib hosts set ≡ ok kept
    → listed host kept ≡ (listed host hosts || listed host set)
unfolding add_hosts
add_hosts_lem lib [] set kept host e = ground arith
add_hosts_lem lib (h ∷ hosts) set kept host e =
    ground (arith, add_hosts_lem lib hosts (h ∷ set) kept host)

abbrev name_in : Library → Option Url → String
name_in lib none = ""
name_in lib (some u) = lib.hostname u

host_allowed_iff :
    (lib : Library) (hosts kept : List String) (u : Option Url)
    → ((host : String) → listed host kept ≡ listed host hosts)
    → (host_allowed lib kept u ≡ true)
      ↔ ((v : Url) × (u ≡ some v) × (listed (lib.hostname v) hosts ≡ true))
host_allowed_iff lib hosts kept none same = (λ h. ground (arith, h), λ h. ground (arith, h.1))
host_allowed_iff lib hosts kept (some v) same = (
  λ h. (v, refl, sym (same (lib.hostname v)) ∙ h),
  λ (x, e, l). same (lib.hostname v) ∙ (ap (λ o. listed (name_in lib o) hosts) e ∙ l),
)

star_only :
    (lib : Library) (h : String) (hosts : List String) (p : CimdHostPolicy)
    → listed "*" (h ∷ hosts) ≡ true
    → new_cimd_host_policy lib (h ∷ hosts) ≡ ok p
    → (h ∷ hosts ≡ "*" ∷ []) × (p.allows_any ≡ true)
unfolding new_cimd_host_policy
star_only lib h [] p star e =
    (ap (λ x. x ∷ []) ((eq_iff h "*").0 (ground (arith, star))), ground arith)
star_only lib h (k ∷ hosts) p star e = ground arith

exact :
    (lib : Library) (h : String) (hosts : List String) (p : CimdHostPolicy)
    → listed "*" (h ∷ hosts) ≡ false
    → new_cimd_host_policy lib (h ∷ hosts) ≡ ok p
    → (p.allows_any ≡ false) × ((host : String) → listed host p.hosts ≡ listed host (h ∷ hosts))
unfolding new_cimd_host_policy
exact lib h hosts p plain e = elim (Result-cases (add_hosts lib (h ∷ hosts) [])) [
  | inl (f, bad) ↦ ground (arith, plain, bad)
  | inr (kept, good) ↦ (
    ground (arith, plain, good),
    λ host. ground (arith, plain, good, add_hosts_lem lib (h ∷ hosts) [] kept host good),
  )
]

by_hosts :
    (lib : Library) (p : CimdHostPolicy) (client_id : String)
    → p.allows_any ≡ false
    → allows_client_id lib p client_id ≡ host_allowed lib p.hosts (lib.parse client_id)
unfolding allows_client_id
by_hosts lib p client_id exactly = rw exactly refl

-- For an allowlist that NewCIMDHostPolicy takes, a client_id is allowed exactly if the list is `*`
-- alone, or the client_id parses and its host name is one of the list: a listed host admits neither
-- its subdomains nor any other host.
pub allows_client_id-new_iff :
    (lib : Library) (hosts : List String) (p : CimdHostPolicy) (client_id : String)
    → new_cimd_host_policy lib hosts ≡ ok p
    → (allows_client_id lib p client_id ≡ true) ↔ Admits lib hosts client_id
unfolding new_cimd_host_policy allows_client_id
allows_client_id-new_iff lib [] p client_id e = ground arith
allows_client_id-new_iff lib (h ∷ hosts) p client_id e =
    elim (Bool-cases (listed "*" (h ∷ hosts))) [
      | inl star ↦
          let (alone, all) = star_only lib h hosts p star e in (λ _. inl alone, λ _. rw all refl)
      | inr plain ↦
          let (exactly, same) = exact lib h hosts p plain e in
          let host = host_allowed_iff lib (h ∷ hosts) p.hosts (lib.parse client_id) same in
          (
            λ k. inr (host.0 (sym (by_hosts lib p client_id exactly) ∙ k)),
            λ a. elim a [
              | inl alone ↦ ground (arith, sym plain ∙ ap (listed "*") alone)
              | inr m ↦ by_hosts lib p client_id exactly ∙ host.1 m
            ],
          )
    ]
