-- ===== src/Cimd/Hosts.antt =====
-- internal/adapter/mcp/cimd_hosts.go: the hosts that may serve a client's document.
use authgate.Prelude.{
  Bool, true, false, not, ◌||◌, Option, none, some, List, [], ◌∷◌, String, codes, str_eq,
  if◌then◌else◌, any, Result, ok, err, ◌>>=◌,
}
use authgate.DomainName.{valid}
use authgate.Cimd.Url.{Library, Url}

pub record CimdHostPolicy : Type 0 where
  pub allows_any : Bool
  pub hosts : List String

pub data HostsError : Type 0 where
  empty_allowlist not_the_only_entry : HostsError
  not_lowercase_host : String → HostsError

-- The loop that looks for `*`.
abbrev has_any : List String → Bool
has_any hosts = any (λ h. str_eq h "*") hosts

abbrev is_single : List String → Bool
is_single [] = false
is_single (h ∷ []) = true
is_single (h ∷ k ∷ hosts) = false

-- The loop that fills the set.
unfoldable pub add_hosts : Library → List String → List String → Result HostsError (List String)
add_hosts lib [] set = ok set
add_hosts lib (h ∷ hosts) set =
    let rest = add_hosts lib hosts (h ∷ set) in
    if not (valid (codes h)) || not (str_eq h (lib.to_lower h))
    then err (not_lowercase_host h)
    else rest

-- `NewCIMDHostPolicy`.
unfoldable pub new_cimd_host_policy : Library → List String → Result HostsError CimdHostPolicy
new_cimd_host_policy lib [] = err empty_allowlist
new_cimd_host_policy lib (h ∷ hosts) =
    if has_any (h ∷ hosts)
    then (if is_single (h ∷ hosts)
        then ok (record { allows_any = true; hosts = [] })
        else err not_the_only_entry)
    else add_hosts lib (h ∷ hosts) [] >>= λ set. ok (record { allows_any = false; hosts = set })

abbrev pub host_allowed : Library → List String → Option Url → Bool
host_allowed lib hosts none = false
host_allowed lib hosts (some u) = any (λ h. str_eq h (lib.hostname u)) hosts

-- `allowsClientID`.
unfoldable pub allows_client_id : Library → CimdHostPolicy → String → Bool
allows_client_id lib p client_id =
    if p.allows_any then true else host_allowed lib p.hosts (lib.parse client_id)
