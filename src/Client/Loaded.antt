-- ===== src/Client/Loaded.antt =====
-- What a clients.yaml that loads declares, and how its clients are found: internal/client/config.go
-- and registry.go.
mod Tests
use authgate.Prelude.{
  ℕ, ◌+◌, ◌≡◌, ◌≢◌, ◌≤◌, ◌⊎◌, refl, sym, ◌∙◌, ap, inl, inr, Bool, true, false, not, ◌&&◌, ◌||◌,
  Option, none, some, List, [], ◌∷◌, String, str_eq, eq_iff, any, arith, All, length, Result, ok,
  err, >>=-eq-ok, Bool-cases, Result-cases, if◌then◌else◌,
}
use authgate.Client.{Model, Registry, load}
use authgate.Cimd.Url.{Library, is_cimd_client_id}
use authgate.Client.Config.{
  ConfigEntry, ConfigFile, YamlNode, is_null, reject_empty_access, ConfigError, check_entry,
  check_entries, load_config, load_clients, model_of, listed, channel_of, secret_missing,
  check_uris,
}

-- An entry that may be served: not a document's URL, public or confidential with a secret, on a known
-- channel, and without PKCE only if it is a confidential client of the browser channel.
pub record IsServable (lib : Library) (c : ConfigEntry) : Type 0 where
  pub named : str_eq c.client_id "" ≡ false
  pub static : is_cimd_client_id lib c.client_id ≡ false
  pub typed : (str_eq c.client_type "public" || str_eq c.client_type "confidential") ≡ true
  pub secret : (str_eq c.client_type "confidential" && secret_missing c.client_secret_hash) ≡ false
  pub known_channel : (str_eq c.login_channel "browser" || str_eq c.login_channel "mcp") ≡ true
  pub pkce_confidential : (c.skip_pkce && not (str_eq c.client_type "confidential")) ≡ false
  pub pkce_browser : (c.skip_pkce && str_eq c.login_channel "mcp") ≡ false
  pub some_uri : 1 ≤ length c.redirect_uris
  pub few_uris : length c.redirect_uris ≤ 10

entry_lem :
    (lib : Library) (seen : List String) (c d : ConfigEntry)
    → check_entry lib seen c ≡ ok d
    → (str_eq c.client_id "" ≡ false)
      × (is_cimd_client_id lib c.client_id ≡ false)
      × ((str_eq c.client_type "public" || str_eq c.client_type "confidential") ≡ true)
      × ((str_eq c.client_type "confidential" && secret_missing c.client_secret_hash) ≡ false)
      × ((str_eq (channel_of c.login_channel) "browser"
            || str_eq (channel_of c.login_channel) "mcp")
          ≡ true)
      × ((c.skip_pkce && not (str_eq c.client_type "confidential")) ≡ false)
      × ((c.skip_pkce && str_eq (channel_of c.login_channel) "mcp") ≡ false)
      × (1 ≤ length c.redirect_uris)
      × (length c.redirect_uris ≤ 10)
      × (listed c.client_id seen ≡ false)
      × (d ≡ record c { login_channel = channel_of c.login_channel })
unfolding check_entry
entry_lem lib seen c d e = (
  ground arith,
  ground arith,
  ground arith,
  ground arith,
  ground arith,
  ground arith,
  ground arith,
  ground arith,
  ground arith,
  ground arith,
  ground arith,
)

abbrev ids : List ConfigEntry → List String
ids [] = []
ids (c ∷ cs) = c.client_id ∷ ids cs

-- No client_id twice.
abbrev pub Distinct : List ConfigEntry → Type 0
Distinct [] = Unit
Distinct (c ∷ cs) = (listed c.client_id (ids cs) ≡ false) × Distinct cs

abbrev Fresh : List String → List ConfigEntry → Type 0
Fresh seen cs = All (λ c. listed c.client_id seen ≡ false) cs

differ_sym : (s t : String) → str_eq s t ≡ false → str_eq t s ≡ false
differ_sym s t differ = elim (Bool-cases (str_eq t s)) [
  | inr other ↦ other
  | inl same ↦ ground (arith, differ, (eq_iff s t).1 (sym ((eq_iff t s).0 same)))
]

unseen :
    (id : String) (seen : List String) (cs : List ConfigEntry)
    → Fresh (id ∷ seen) cs
    → (listed id (ids cs) ≡ false) × Fresh seen cs
unseen id seen [] fresh = (refl, tt)
unseen id seen (c ∷ cs) fresh =
    let (later, kept) = unseen id seen cs fresh.1 in
    (
      ground (arith, later, differ_sym id c.client_id (ground (arith, fresh.0))),
      (ground (arith, fresh.0), kept),
    )

abbrev the_ok : List ConfigEntry → Result ConfigError (List ConfigEntry)
the_ok cs = ok cs

ok_inj : (a b : List ConfigEntry) → the_ok a ≡ the_ok b → a ≡ b
ok_inj a b e = ground (arith, e)

kept_is :
    (lib : Library) (seen : List String) (c : ConfigEntry) (cs : List ConfigEntry) (d : ConfigEntry)
    (ds kept : List ConfigEntry)
    → check_entry lib seen c ≡ ok d
    → check_entries lib (c.client_id ∷ seen) cs ≡ ok ds
    → check_entries lib seen (c ∷ cs) ≡ ok kept
    → d ∷ ds ≡ kept
unfolding check_entries
kept_is lib seen c cs d ds kept good rest e = ground (arith, good, rest, e)

entry_kept :
    (lib : Library) (seen : List String) (c d : ConfigEntry)
    → check_entry lib seen c ≡ ok d
    → IsServable lib d × (listed d.client_id seen ≡ false) × (d.client_id ≡ c.client_id)
entry_kept lib seen c d good =
    let (named, static, typed, secret, channel, confidential, browser, at_least, few, new, is_d) =
      entry_lem lib seen c d good in
    rw is_d (
      record {
        named = named;
        static = static;
        typed = typed;
        secret = secret;
        known_channel = channel;
        pkce_confidential = confidential;
        pkce_browser = browser;
        some_uri = at_least;
        few_uris = few;
      },
      new,
      refl,
    )

entries_lem :
    (lib : Library) (seen : List String) (cs kept : List ConfigEntry)
    → check_entries lib seen cs ≡ ok kept
    → All (IsServable lib) kept × Fresh seen kept × Distinct kept
unfolding check_entries
entries_lem lib seen [] kept e = rw (← ok_inj [] kept e) (tt, tt, tt)
entries_lem lib seen (c ∷ cs) kept e = elim (Result-cases (check_entry lib seen c)) [
  | inl (f, bad) ↦ ground (arith, bad)
  | inr (d, good) ↦ elim (Result-cases (check_entries lib (c.client_id ∷ seen) cs)) [
    | inl (f, bad) ↦ ground (arith, good, bad)
    | inr (ds, rest) ↦
        let (servable, fresh, distinct) = entries_lem lib (c.client_id ∷ seen) cs ds rest in
        let (serves, new, same_id) = entry_kept lib seen c d good in
        let (later, kept_fresh) = unseen c.client_id seen ds fresh in
        rw (← kept_is lib seen c cs d ds kept good rest e)
          ((serves, servable), (new, kept_fresh), (rw same_id later, distinct))
  ]
]

-- No access key is a null, whether written so or through aliases.
abbrev pub AccessGiven : Option (List YamlNode) → Type 0
AccessGiven none = ⊥
AccessGiven (some nodes) = All (λ node. is_null node ≡ false) nodes

none_null :
    (nodes : List YamlNode) → any is_null nodes ≡ false → All (λ node. is_null node ≡ false) nodes
none_null [] e = tt
none_null (node ∷ nodes) e = (ground arith, none_null nodes (ground arith))

reject_empty_access-AccessGiven :
    (nodes : Option (List YamlNode)) → reject_empty_access nodes ≡ ok tt → AccessGiven nodes
unfolding reject_empty_access
reject_empty_access-AccessGiven none e = cc
reject_empty_access-AccessGiven (some nodes) e = none_null nodes (ground (arith, e))

load_config_parts :
    (lib : Library) (file : ConfigFile) (kept : List ConfigEntry)
    → load_config lib file ≡ ok kept
    → AccessGiven file.access_nodes × (check_entries lib [] file.clients ≡ ok kept)
load_config_parts lib file kept e =
    let (done, given, rest) =
      >>=-eq-ok (reject_empty_access file.access_nodes) (λ _. check_entries lib [] file.clients)
        e in
    (reject_empty_access-AccessGiven file.access_nodes given, rest)

-- If LoadConfig accepts a decoded file, each entry that it returns may be served (`IsServable`): it
-- is no document's URL, it is a public client or a confidential one with a secret, its channel is
-- browser or mcp, only a confidential client of the browser channel skips PKCE, and it has one to ten
-- redirect_uris. And no two entries have the same client_id, and no access key of the file is a null.
pub load_config-IsServable :
    (lib : Library) (file : ConfigFile) (kept : List ConfigEntry)
    → load_config lib file ≡ ok kept
    → All (IsServable lib) kept × Distinct kept × AccessGiven file.access_nodes
load_config-IsServable lib file kept e =
    let (given, checked) = load_config_parts lib file kept e in
    let (servable, fresh, distinct) = entries_lem lib [] file.clients kept checked in
    (servable, distinct, given)

-- The entry of a client_id.
abbrev pub find_entry : String → List ConfigEntry → Option ConfigEntry
find_entry id [] = none
find_entry id (c ∷ cs) =
    let rest = find_entry id cs in if str_eq c.client_id id then some c else rest

abbrev pub model_in : Option ConfigEntry → Option Model → Option Model
model_in none other = other
model_in (some c) other = some (model_of c)

unlisted :
    (id : String) (cs : List ConfigEntry) → listed id (ids cs) ≡ false → find_entry id cs ≡ none
unlisted id [] e = refl
unlisted id (c ∷ cs) e = ground (arith, unlisted id cs)

unlisted_as :
    (id : String) (c : ConfigEntry) (cs : List ConfigEntry)
    → str_eq c.client_id id ≡ true
    → listed c.client_id (ids cs) ≡ false
    → find_entry id cs ≡ none
unlisted_as id c cs same e =
    unlisted id cs (ap (λ x. listed x (ids cs)) (sym ((eq_iff c.client_id id).0 same)) ∙ e)

load-load_clients :
    (lib : Library) (cs : List ConfigEntry) (reg : Registry) (id : String)
    → All (IsServable lib) cs
    → Distinct cs
    → load (load_clients lib cs reg) id ≡ model_in (find_entry id cs) (load reg id)
unfolding load_clients load
load-load_clients lib [] reg id servable distinct = refl
load-load_clients lib (c ∷ cs) reg id servable distinct =
    elim (Bool-cases (str_eq c.client_id id)) [
      | inl same ↦
          rw
            (
              servable.0.static,
              load-load_clients lib cs (model_of c ∷ reg) id servable.1 distinct.1,
              unlisted_as id c cs same distinct.0,
              same,
            )
            refl
      | inr other ↦
          rw
            (
              servable.0.static,
              load-load_clients lib cs (model_of c ∷ reg) id servable.1 distinct.1,
              other,
            )
            refl
    ]

-- After Load of what LoadConfig accepts into an empty table, a client_id resolves exactly to the model
-- of its entry: every declared client is found, with its own settings, and no other.
pub load-load_config :
    (lib : Library) (file : ConfigFile) (kept : List ConfigEntry) (id : String)
    → load_config lib file ≡ ok kept
    → load (load_clients lib kept []) id ≡ model_in (find_entry id kept) none
unfolding load
load-load_config lib file kept id e =
    let (servable, distinct, given) = load_config-IsServable lib file kept e in
    load-load_clients lib kept [] id servable distinct
