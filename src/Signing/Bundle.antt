-- ===== src/Signing/Bundle.antt =====
-- internal/signing/bundle.go: reading a bundle, the keys that it publishes and the keys of id token
-- hints.
use authgate.Prelude.{
  ℕ, zero, suc, ◌+◌, ◌*◌, Bool, false, ◌&&◌, ◌||◌, not, Option, none, some, List, [], ◌∷◌, ◌++◌,
  Bytes, bytes_eq, codes, length, any, if◌then◌else◌, ltb, ◌==◌, Result, ok, err, ◌>>=◌, ◌>>◌,
  refuse,
}
use authgate.Signing.Json.{
  Json, null, boolean, number, Elements, no_elements, element, array, valid_bundle_json,
}
use authgate.Signing.Keys.{
  Library, RsaPublicKey, RsaPrivateKey, BundleError, cannot_open_file, cannot_read_file,
  file_exceeds_size_limit, invalid_json, invalid_object_fields, unsupported_schema_version,
  invalid_verification_key_count, invalid_publication_flag, duplicate_key_id,
  duplicate_public_key_material, active_key_mismatch, active_key_absent, VerificationKey,
  bundle_object, bundle_string, bundle_private_key, bundle_public_key, get_field,
}

abbrev pub signing_key_bundle_max_bytes : ℕ
signing_key_bundle_max_bytes = 256 * 1024

abbrev pub signing_key_bundle_max_keys : ℕ
signing_key_bundle_max_keys = 128

-- A map from key ids to keys, the last write first.
abbrev pub KeyMap : Type 0
KeyMap = List (Bytes × RsaPublicKey)

abbrev pub find_key : Bytes → KeyMap → Option RsaPublicKey
find_key id [] = none
find_key id ((other, key) ∷ rest) =
    let later = find_key id rest in if bytes_eq other id then some key else later

pub record Bundle : Type 0 where
  pub revision : Bytes
  pub active_id : Bytes
  pub active : RsaPrivateKey
  pub keys : List VerificationKey
  pub hints : KeyMap

-- The variables of the loop of `parseBundle`.
pub record Progress : Type 0 where
  pub ids : List Bytes
  pub material : List Bytes
  pub active_found : Bool
  pub keys : List VerificationKey

abbrev pub listed : Bytes → List Bytes → Bool
listed id ids = any (bytes_eq id) ids

-- json.Unmarshal into a bool: a null leaves false.
abbrev pub bool_field : Option Json → Result BundleError Bool
bool_field (some (boolean b)) = ok b
bool_field (some null) = ok false
bool_field _ = err invalid_publication_flag

abbrev pub same_key : RsaPublicKey → RsaPublicKey → Bool
same_key one other = (one.e == other.e) && (one.n == other.n)

-- The checks on a key that the bundle already has another with, and on the active one.
unfoldable pub add_key :
    Bytes → RsaPrivateKey → Progress → VerificationKey → Result BundleError Progress
add_key active_id active progress key = do
  refuse (listed key.id progress.ids) duplicate_key_id
  refuse (listed key.fingerprint progress.material) duplicate_public_key_material
  refuse (bytes_eq key.id active_id && (not key.publish || not (same_key key.public active.public)))
      active_key_mismatch
  ok (record {
    ids = key.id ∷ progress.ids;
    material = key.fingerprint ∷ progress.material;
    active_found = bytes_eq key.id active_id || progress.active_found;
    keys = progress.keys ++ key ∷ [];
  })

-- The raw field; `bundleObject` has found it.
abbrev pub jwk_of : Option Json → Json
jwk_of none = null
jwk_of (some raw) = raw

-- One round of the loop: an entry of "verification_keys".
unfoldable pub read_entry : Library → Json → Result BundleError VerificationKey
unfolding bundle_object get_field bundle_public_key
read_entry lib raw = do
  entry ← bundle_object raw (codes "jwk" ∷ codes "publish" ∷ [])
  publish ← bool_field (get_field (codes "publish") entry)
  key ← bundle_public_key lib (jwk_of (get_field (codes "jwk") entry))
  ok (record key { publish = publish })

unfoldable pub take_entries :
    Library → Bytes → RsaPrivateKey → Progress → List Json → Result BundleError Progress
take_entries lib active_id active progress [] = ok progress
take_entries lib active_id active progress (raw ∷ entries) = do
  key ← read_entry lib raw
  next ← add_key active_id active progress key
  take_entries lib active_id active next entries

-- The map that the second loop of `parseBundle` fills.
unfoldable pub hint_keys : KeyMap → List VerificationKey → KeyMap
hint_keys filled [] = filled
hint_keys filled (key ∷ keys) = hint_keys ((key.id, key.public) ∷ filled) keys

abbrev pub list_of : Elements → List Json
list_of no_elements = []
list_of (element value rest) = value ∷ list_of rest

-- json.Unmarshal into a slice, an int and a whole document.
abbrev pub entries_of : Option Json → Result BundleError (List Json)
entries_of (some (array elements)) = ok (list_of elements)
entries_of (some null) = ok []
entries_of _ = err invalid_verification_key_count

abbrev pub version_of : Library → Option Json → Option ℕ
version_of lib (some (number literal)) = lib.parse_int literal
version_of lib (some null) = some 0
version_of lib _ = none

abbrev pub is_version_one : Option ℕ → Bool
is_version_one none = false
is_version_one (some version) = version == 1

abbrev pub root_fields : List Bytes
root_fields =
    codes "schema_version"
    ∷ codes "revision"
    ∷ codes "active_kid"
    ∷ codes "active_private_key_pem"
    ∷ codes "verification_keys"
    ∷ []

abbrev pub no_progress : Progress
no_progress = record { ids = []; material = []; active_found = false; keys = [] }

-- `parseBundle` of a text that has passed `validBundleJSON`.
unfoldable pub parse_document : Library → Json → Result BundleError Bundle
parse_document lib document = do
  root ← bundle_object document root_fields
  refuse (not (is_version_one (version_of lib (get_field (codes "schema_version") root))))
      unsupported_schema_version
  revision ← bundle_string (get_field (codes "revision") root)
  active_id ← bundle_string (get_field (codes "active_kid") root)
  private_pem ← bundle_string (get_field (codes "active_private_key_pem") root)
  active ← bundle_private_key lib private_pem
  entries ← entries_of (get_field (codes "verification_keys") root)
  refuse (length entries == 0 || ltb signing_key_bundle_max_keys (length entries))
      invalid_verification_key_count
  progress ← take_entries lib active_id active no_progress entries
  refuse (not progress.active_found) active_key_absent
  ok (record {
    revision = revision;
    active_id = active_id;
    active = active;
    keys = progress.keys;
    hints = hint_keys [] progress.keys;
  })

abbrev pub decoded : Library → Option Json → Result BundleError Bundle
decoded lib none = err invalid_object_fields
decoded lib (some document) = parse_document lib document

-- `parseBundle`.
unfoldable pub parse_bundle : Library → Bytes → Result BundleError Bundle
unfolding valid_bundle_json
parse_bundle lib data_bytes =
    if ltb signing_key_bundle_max_bytes (length data_bytes)
      || not (lib.utf8_valid data_bytes)
      || not (valid_bundle_json (lib.tokens data_bytes))
    then err invalid_json
    else decoded lib (lib.decode data_bytes)

-- What the path of LoadBundle leads to; a read may fail anywhere.
pub data File : Type 0 where
  missing : File
  unreadable : File
  contents : Bytes → File

abbrev pub take : ℕ → Bytes → Bytes
take zero s = []
take (suc n) [] = []
take (suc n) (c ∷ s) = c ∷ take n s

abbrev pub parse_limited : Library → Bytes → Result BundleError Bundle
parse_limited lib data_bytes =
    if ltb signing_key_bundle_max_bytes (length data_bytes)
    then err file_exceeds_size_limit
    else parse_bundle lib data_bytes

-- `LoadBundle`.
unfoldable pub load_bundle : Library → File → Result BundleError Bundle
load_bundle lib missing = err cannot_open_file
load_bundle lib unreadable = err cannot_read_file
load_bundle lib (contents s) = parse_limited lib (take (signing_key_bundle_max_bytes + 1) s)

-- `publishedKeys`: a key id with its key; the algorithm is always RS256 and the use always sig.
unfoldable pub published_keys : List VerificationKey → KeyMap
published_keys [] = []
published_keys (key ∷ keys) =
    let rest = published_keys keys in if key.publish then (key.id, key.public) ∷ rest else rest

-- A signature of a jose.JSONWebSignature, its protected header and the rest.
pub record Signature (Signed : Type 0) : Type 0 where
  pub key_id : Bytes
  pub algorithm : Bytes
  pub signed : Signed

pub data HintError : Type 0 where
  invalid_hint_signature invalid_hint_signature_header unknown_hint_key : HintError
  hint_signature_verification_failed : HintError

module _ {Signed : Type 0} (verify : Signed → RsaPublicKey → Option Bytes) where
  abbrev pub verified : Option Bytes → Result HintError Bytes
  verified none = err hint_signature_verification_failed
  verified (some payload) = ok payload

  abbrev pub verify_with : Signed → Option RsaPublicKey → Result HintError Bytes
  verify_with signed none = err unknown_hint_key
  verify_with signed (some key) = verified (verify signed key)

  -- `VerifySignature` of the hint keys, with `Verify` of go-jose.
  unfoldable pub verify_signature : KeyMap → List (Signature Signed) → Result HintError Bytes
  verify_signature hints (signature ∷ []) =
      if length signature.key_id == 0 || not (bytes_eq signature.algorithm (codes "RS256"))
      then err invalid_hint_signature_header
      else verify_with signature.signed (find_key signature.key_id hints)
  verify_signature hints _ = err invalid_hint_signature
