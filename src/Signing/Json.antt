-- ===== src/Signing/Json.antt =====
-- JSON documents and the tokens that encoding/json reads from one: the check of a signing key bundle's
-- text in internal/signing/bundle.go.
use authgate.Prelude.{
  ℕ, zero, suc, ◌+◌, ◌*◌, Bool, true, false, ◌||◌, List, [], ◌∷◌, ◌++◌, Bytes, bytes_eq, length,
  any, if◌then◌else◌, ltb,
}

-- A decoded document; names and texts are bytes, and a number is its literal.
mutual
  pub data Json : Type 0 where
    null : Json
    boolean : Bool → Json
    number : Bytes → Json
    text : Bytes → Json
    array : Elements → Json
    object : Members → Json

  pub data Elements : Type 0 where
    no_elements : Elements
    element : Json → Elements → Elements

  pub data Members : Type 0 where
    no_members : Members
    member : Bytes → Json → Members → Members

abbrev pub has_name : Bytes → Members → Bool
has_name name no_members = false
has_name name (member other value rest) = bytes_eq other name || has_name name rest

-- What `Token` of a json.Decoder returns; `broken` is a syntax error. After the last one it is io.EOF.
pub data Token : Type 0 where
  null_token : Token
  boolean_token : Bool → Token
  number_token : Bytes → Token
  text_token : Bytes → Token
  open_object : Token
  close_object : Token
  open_array : Token
  close_array : Token
  broken : Token

-- `More`: another element follows in the object or the array.
abbrev pub more : List Token → Bool
more [] = false
more (close_object ∷ rest) = false
more (close_array ∷ rest) = false
more (_ ∷ rest) = true

-- The answer of `bundleJSONValue`, with the tokens that it has left.
pub data Scan : Type 0 where
  out_of_fuel : Scan
  refused : Scan
  scanned : List Token → Scan

abbrev pub seen_before : Bytes → List Bytes → Bool
seen_before name seen = any (bytes_eq name) seen

abbrev pub after : Scan → (List Token → Scan) → Scan
after out_of_fuel next = out_of_fuel
after refused next = refused
after (scanned rest) next = next rest

-- The `end` that closes an object, and the one that closes an array.
abbrev pub closed_object : List Token → Scan
closed_object (close_object ∷ rest) = scanned rest
closed_object _ = refused

abbrev pub closed_array : List Token → Scan
closed_array (close_array ∷ rest) = scanned rest
closed_array _ = refused

-- The token of a value, with the loops that read what follows an opening one.
unfoldable pub token_value : (List Token → Scan) → (List Token → Scan) → List Token → Scan
token_value members elements [] = refused
token_value members elements (null_token ∷ rest) = refused
token_value members elements (boolean_token b ∷ rest) = scanned rest
token_value members elements (number_token literal ∷ rest) = scanned rest
token_value members elements (text_token value ∷ rest) = scanned rest
token_value members elements (open_object ∷ rest) = members rest
token_value members elements (open_array ∷ rest) = elements rest
token_value members elements (_ ∷ rest) = refused

-- A round of the loop over an object: the name, its value and the rounds that follow.
unfoldable pub named_member :
    (List Token → Scan) → (List Bytes → List Token → Scan) → List Bytes → List Token → Scan
named_member value next seen (text_token name ∷ rest) =
    if seen_before name seen then refused else after (value rest) (next (name ∷ seen))
named_member value next seen _ = refused

-- `bundleJSONValue`, and the two loops in it, on fuel.
unfoldable mutual
  unfolding token_value named_member

  pub bundle_json_value : ℕ → ℕ → List Token → Scan
  bundle_json_value zero depth tokens = out_of_fuel
  bundle_json_value (suc fuel) depth tokens =
      if ltb 32 depth
      then refused
      else token_value (bundle_members fuel depth []) (bundle_elements fuel depth) tokens

  pub bundle_members : ℕ → ℕ → List Bytes → List Token → Scan
  bundle_members zero depth seen tokens = out_of_fuel
  bundle_members (suc fuel) depth seen tokens =
      if more tokens
      then named_member (bundle_json_value fuel (suc depth)) (bundle_members fuel depth) seen tokens
      else closed_object tokens

  pub bundle_elements : ℕ → ℕ → List Token → Scan
  bundle_elements zero depth tokens = out_of_fuel
  bundle_elements (suc fuel) depth tokens =
      if more tokens
      then after (bundle_json_value fuel (suc depth) tokens) (bundle_elements fuel depth)
      else closed_array tokens

-- A value takes a token and a round of a loop takes one more step than its value.
abbrev pub enough : List Token → ℕ
enough tokens = 2 * length tokens + 1

abbrev pub at_end : Scan → Bool
at_end (scanned []) = true
at_end _ = false

-- `validBundleJSON`.
unfoldable pub valid_bundle_json : List Token → Bool
unfolding bundle_json_value
valid_bundle_json tokens = at_end (bundle_json_value (enough tokens) 0 tokens)

-- The tokens of a document.
unfoldable mutual
  pub tokens_of : Json → List Token
  tokens_of null = null_token ∷ []
  tokens_of (boolean b) = boolean_token b ∷ []
  tokens_of (number literal) = number_token literal ∷ []
  tokens_of (text value) = text_token value ∷ []
  tokens_of (array elements) = open_array ∷ element_tokens elements ++ close_array ∷ []
  tokens_of (object members) = open_object ∷ member_tokens members ++ close_object ∷ []

  pub element_tokens : Elements → List Token
  element_tokens no_elements = []
  element_tokens (element value rest) = tokens_of value ++ element_tokens rest

  pub member_tokens : Members → List Token
  member_tokens no_members = []
  member_tokens (member name value rest) = text_token name ∷ tokens_of value ++ member_tokens rest
