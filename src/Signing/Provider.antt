-- ===== src/Signing/Provider.antt =====
-- internal/signing/provider.go: the key that signs and the keys that JWKS has.
use authgate.Prelude.{Option, none, some, List, [], ◌∷◌, Bytes, Result, ok, err, ◌>>=◌, ◌>>◌}
use authgate.Signing.Keys.{RsaPublicKey, RsaPrivateKey}
use authgate.Signing.Bundle.{Bundle, KeyMap, published_keys}

pub record Provider : Type 0 where
  pub current : Option RsaPrivateKey
  pub current_id : Bytes
  pub previous : Option RsaPublicKey
  pub previous_id : Bytes
  pub bundle : Option Bundle

-- The panics of the setters. A Bundle of this model has its private key and its hints, so that the panic
-- on one without them is that on a nil pointer.
pub data Panic : Type 0 where
  unvalidated_startup_snapshot snapshot_already_configured snapshot_cannot_be_changed : Panic

abbrev pub require_legacy_mode : Provider → Result Panic (Unit {0})
require_legacy_mode p = legacy p.bundle
  where
    legacy : Option Bundle → Result Panic (Unit {0})
    legacy none = ok tt
    legacy (some bundle) = err snapshot_cannot_be_changed

unfoldable pub set_current : Option RsaPrivateKey → Bytes → Provider → Result Panic Provider
set_current key key_id p = do
  require_legacy_mode p
  ok (record p { current = key; current_id = key_id })

abbrev pub public_part : Option RsaPrivateKey → Option RsaPublicKey
public_part none = none
public_part (some key) = some key.public

unfoldable pub set_previous : Option RsaPrivateKey → Bytes → Provider → Result Panic Provider
set_previous key key_id p = do
  require_legacy_mode p
  ok (record p { previous = public_part key; previous_id = key_id })

unfoldable pub set_bundle : Option Bundle → Provider → Result Panic Provider
set_bundle none p = err unvalidated_startup_snapshot
set_bundle (some bundle) p = install p.bundle
  where
    install : Option Bundle → Result Panic Provider
    install (some other) = err snapshot_already_configured
    install none = ok (record p {
      current = none;
      previous = none;
      current_id = [];
      previous_id = [];
      bundle = some bundle;
    })

-- `SigningKey`: its id and the key; the algorithm is always RS256.
unfoldable pub signing_key : Provider → Option (Bytes × RsaPrivateKey)
signing_key p = elim p.bundle [
  | some bundle ↦ some (bundle.active_id, bundle.active)
  | none ↦ elim p.current [ none ↦ none | some key ↦ some (p.current_id, key) ]
]

-- `KeySet`.
unfoldable pub key_set : Provider → KeyMap
unfolding published_keys
key_set p = elim p.bundle [
  | some bundle ↦ published_keys bundle.keys
  | none ↦ elim p.current [
    | none ↦ []
    | some key ↦
        (p.current_id, key.public)
        ∷ elim p.previous [ none ↦ [] | some other ↦ (p.previous_id, other) ∷ [] ]
  ]
]

-- `IDTokenHintKeySet`; `none` is nil.
unfoldable pub id_token_hint_key_set : Provider → Option KeyMap
id_token_hint_key_set p = elim p.bundle [ none ↦ none | some bundle ↦ some bundle.hints ]

-- The calls that configure a provider at startup, and a run of them; a panic ends the run.
pub data Setting : Type 0 where
  current_key : Option RsaPrivateKey → Bytes → Setting
  previous_key : Option RsaPrivateKey → Bytes → Setting
  snapshot : Option Bundle → Setting

unfoldable pub configure : Setting → Provider → Result Panic Provider
unfolding set_current set_previous set_bundle
configure (current_key key key_id) p = set_current key key_id p
configure (previous_key key key_id) p = set_previous key key_id p
configure (snapshot bundle) p = set_bundle bundle p

unfoldable pub configure_all : List Setting → Provider → Result Panic Provider
configure_all [] p = ok p
configure_all (setting ∷ settings) p = do q ← configure setting p; configure_all settings q

abbrev pub new_provider : Provider
new_provider = record {
  current = none;
  current_id = [];
  previous = none;
  previous_id = [];
  bundle = none;
}
