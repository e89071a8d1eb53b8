-- ===== src/Signing/Documents.antt =====
-- The lists of tokens that the check of a bundle's text accepts are those of documents.
use authgate.Prelude.{
  ℕ, zero, suc, ◌≡◌, refl, sym, ap, ◌∙◌, ◌↔◌, Bool, true, false, List, [], ◌∷◌, ◌++◌, Bytes,
  if◌then◌else◌, ltb, append_assoc, append-nil,
}
use authgate.Signing.Json.{
  Json, boolean, number, text, array, object, Elements, no_elements, element, Members, no_members,
  member, Token, null_token, boolean_token, number_token, text_token, open_object, close_object,
  open_array, close_array, broken, more, Scan, out_of_fuel, refused, scanned, seen_before, after,
  closed_object, closed_array, token_value, named_member, bundle_json_value, bundle_members,
  bundle_elements, enough, at_end, valid_bundle_json, tokens_of, element_tokens, member_tokens,
}
use authgate.Signing.Accepted.{well_formed, valid_bundle_json-tokens_of}

abbrev left : Scan → List Token
left (scanned rest) = rest
left _ = []

scanned-injective : (a b : List Token) → scanned a ≡ scanned b → a ≡ b
scanned-injective a b e = ap left e

-- What a scan has read before the tokens that it leaves.
abbrev IsValue : List Token → List Token → Type 0
IsValue tokens rest = (value : Json) × (tokens ≡ tokens_of value ++ rest)

abbrev IsObject : List Token → List Token → Type 0
IsObject tokens rest = (fields : Members) × (tokens ≡ member_tokens fields ++ close_object ∷ rest)

abbrev IsArray : List Token → List Token → Type 0
IsArray tokens rest = (entries : Elements) × (tokens ≡ element_tokens entries ++ close_array ∷ rest)

-- Whatever the scan leaves, it has read such tokens.
abbrev Reads : (List Token → List Token → Type 0) → (List Token → Scan) → Type 0
Reads P scan = (tokens rest : List Token) → scan tokens ≡ scanned rest → P tokens rest

not_refused :
    (b : Bool) (s : Scan) (rest : List Token)
    → (if b then refused else s) ≡ scanned rest
    → s ≡ scanned rest
not_refused true s rest e = absurd (cc)
not_refused false s rest e = e

after-scanned :
    (first : Scan) (next : List Token → Scan) (rest : List Token)
    → after first next ≡ scanned rest
    → (middle : List Token) × (first ≡ scanned middle) × (next middle ≡ scanned rest)
after-scanned out_of_fuel next rest e = absurd (cc)
after-scanned refused next rest e = absurd (cc)
after-scanned (scanned middle) next rest e = (middle, refl, e)

closed_object-Reads :
    (tokens rest : List Token) → closed_object tokens ≡ scanned rest → tokens ≡ close_object ∷ rest
closed_object-Reads [] rest e = absurd (cc)
closed_object-Reads (close_object ∷ others) rest e =
    ap (λ ts. close_object ∷ ts) (scanned-injective others rest e)
closed_object-Reads (_ ∷ others) rest e = absurd (cc)

closed_array-Reads :
    (tokens rest : List Token) → closed_array tokens ≡ scanned rest → tokens ≡ close_array ∷ rest
closed_array-Reads [] rest e = absurd (cc)
closed_array-Reads (close_array ∷ others) rest e =
    ap (λ ts. close_array ∷ ts) (scanned-injective others rest e)
closed_array-Reads (_ ∷ others) rest e = absurd (cc)

token_value-Reads :
    (members elements : List Token → Scan)
    → Reads IsObject members
    → Reads IsArray elements
    → Reads IsValue (token_value members elements)
unfolding token_value tokens_of
token_value-Reads members elements h k [] rest e = absurd (cc)
token_value-Reads members elements h k (null_token ∷ others) rest e = absurd (cc)
token_value-Reads members elements h k (boolean_token b ∷ others) rest e =
    (boolean b, ap (λ ts. boolean_token b ∷ ts) (scanned-injective others rest e))
token_value-Reads members elements h k (number_token literal ∷ others) rest e =
    (number literal, ap (λ ts. number_token literal ∷ ts) (scanned-injective others rest e))
token_value-Reads members elements h k (text_token value ∷ others) rest e =
    (text value, ap (λ ts. text_token value ∷ ts) (scanned-injective others rest e))
token_value-Reads members elements h k (open_object ∷ others) rest e =
    let (fields, read) = h others rest e in
    (
      object fields,
      ap (λ ts. open_object ∷ ts)
          (read ∙ sym (append_assoc (member_tokens fields) (close_object ∷ []) rest)),
    )
token_value-Reads members elements h k (open_array ∷ others) rest e =
    let (entries, read) = k others rest e in
    (
      array entries,
      ap (λ ts. open_array ∷ ts)
          (read ∙ sym (append_assoc (element_tokens entries) (close_array ∷ []) rest)),
    )
token_value-Reads members elements h k (close_object ∷ others) rest e = absurd (cc)
token_value-Reads members elements h k (close_array ∷ others) rest e = absurd (cc)
token_value-Reads members elements h k (broken ∷ others) rest e = absurd (cc)

named_member-Reads :
    (value : List Token → Scan) (next : List Bytes → List Token → Scan) (seen : List Bytes)
    → Reads IsValue value
    → ((names : List Bytes) → Reads IsObject (next names))
    → Reads IsObject (named_member value next seen)
unfolding named_member tokens_of
named_member-Reads value next seen h k (text_token name ∷ others) rest e =
    let (middle, first, followed) =
      after-scanned (value others) (next (name ∷ seen)) rest
        (not_refused (seen_before name seen) (after (value others) (next (name ∷ seen))) rest e) in
    let (v, read) = h others middle first in
    let (fields, read_rest) = k (name ∷ seen) middle rest followed in
    (
      member name v fields,
      ap (λ ts. text_token name ∷ ts)
          (read
            ∙ ap (λ ts. tokens_of v ++ ts) read_rest
            ∙ sym (append_assoc (tokens_of v) (member_tokens fields) (close_object ∷ rest))),
    )
named_member-Reads value next seen h k [] rest e = absurd (cc)
named_member-Reads value next seen h k (_ ∷ others) rest e = absurd (cc)

if-Reads :
    (P : List Token → List Token → Type 0) (b : Bool) (one other : Scan) (tokens rest : List Token)
    → (one ≡ scanned rest → P tokens rest)
    → (other ≡ scanned rest → P tokens rest)
    → (if b then one else other) ≡ scanned rest
    → P tokens rest
if-Reads P true one other tokens rest h k e = h e
if-Reads P false one other tokens rest h k e = k e

mutual
  unfolding bundle_json_value tokens_of

  bundle_json_value-Reads : (fuel depth : ℕ) → Reads IsValue (bundle_json_value fuel depth)
  bundle_json_value-Reads zero depth tokens rest e = absurd (cc)
  bundle_json_value-Reads (suc fuel) depth tokens rest e =
      token_value-Reads (bundle_members fuel depth []) (bundle_elements fuel depth)
        (bundle_members-Reads fuel depth []) (bundle_elements-Reads fuel depth) tokens rest
        (not_refused (ltb 32 depth)
          (token_value (bundle_members fuel depth []) (bundle_elements fuel depth) tokens) rest e)

  bundle_members-Reads :
      (fuel depth : ℕ) (seen : List Bytes) → Reads IsObject (bundle_members fuel depth seen)
  bundle_members-Reads zero depth seen tokens rest e = absurd (cc)
  bundle_members-Reads (suc fuel) depth seen tokens rest e =
      if-Reads IsObject (more tokens)
        (named_member (bundle_json_value fuel (suc depth)) (bundle_members fuel depth) seen tokens)
        (closed_object tokens) tokens rest
        (named_member-Reads (bundle_json_value fuel (suc depth)) (bundle_members fuel depth) seen
          (bundle_json_value-Reads fuel (suc depth)) (bundle_members-Reads fuel depth) tokens rest)
        (λ closed. (no_members, closed_object-Reads tokens rest closed)) e

  bundle_elements-Reads : (fuel depth : ℕ) → Reads IsArray (bundle_elements fuel depth)
  bundle_elements-Reads zero depth tokens rest e = absurd (cc)
  bundle_elements-Reads (suc fuel) depth tokens rest e =
      if-Reads IsArray (more tokens)
        (after (bundle_json_value fuel (suc depth) tokens) (bundle_elements fuel depth))
        (closed_array tokens) tokens rest
        (λ scan.
          let (middle, first, others) =
            after-scanned (bundle_json_value fuel (suc depth) tokens) (bundle_elements fuel depth)
              rest scan in
          let (v, read) = bundle_json_value-Reads fuel (suc depth) tokens middle first in
          let (entries, read_rest) = bundle_elements-Reads fuel depth middle rest others in
          (
            element v entries,
            read
                ∙ ap (λ ts. tokens_of v ++ ts) read_rest
                ∙ sym (append_assoc (tokens_of v) (element_tokens entries) (close_array ∷ rest)),
          ))
        (λ closed. (no_elements, closed_array-Reads tokens rest closed)) e

at_end-scanned : (s : Scan) → at_end s ≡ true → s ≡ scanned []
at_end-scanned out_of_fuel e = absurd (cc)
at_end-scanned refused e = absurd (cc)
at_end-scanned (scanned []) e = refl
at_end-scanned (scanned (t ∷ rest)) e = absurd (cc)

-- The check of a bundle's text accepts a list of tokens, whether those of a document or not, exactly when
-- it is the tokens of one document, to its end, which has no null, no name twice in one object and no
-- value in more than 32 objects and arrays. So a truncated or broken text is refused.
pub valid_bundle_json_iff :
    (tokens : List Token)
    → (valid_bundle_json tokens ≡ true)
      ↔ ((document : Json) × (tokens ≡ tokens_of document) × (well_formed 0 document ≡ true))
unfolding valid_bundle_json
valid_bundle_json_iff tokens = (
  λ valid.
      let scan = at_end-scanned (bundle_json_value (enough tokens) 0 tokens) valid in
      let (document, read) = bundle_json_value-Reads (enough tokens) 0 tokens [] scan in
      let same : tokens ≡ tokens_of document = read ∙ append-nil (tokens_of document) in
      (
        document,
        same,
        sym (valid_bundle_json-tokens_of document).0 ∙ ap valid_bundle_json (sym same) ∙ valid,
      ),
  λ (document, same, accepted).
      ap valid_bundle_json same ∙ (valid_bundle_json-tokens_of document).0 ∙ accepted,
)
