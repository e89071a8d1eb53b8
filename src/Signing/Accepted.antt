-- ===== src/Signing/Accepted.antt =====
-- The documents that the check of a bundle's text accepts, described without the tokens.
use authgate.Prelude.{
  ℕ, zero, suc, ◌+◌, ◌*◌, ◌≤◌, ◌≡◌, refl, Bool, true, false, ◌&&◌, not, List, [], ◌∷◌, ◌++◌, Bytes,
  length, length-append, if◌then◌else◌, ltb, leb, arith, append_assoc, append-nil, ap, ◌∙◌, sym,
}
use authgate.Signing.Json.{
  Json, null, boolean, number, text, array, object, Elements, no_elements, element, Members,
  no_members, member, Token, close_object, close_array, more, Scan, refused, scanned, seen_before,
  after, token_value, named_member, bundle_json_value, bundle_members, bundle_elements, enough,
  at_end, valid_bundle_json, tokens_of, element_tokens, member_tokens, has_name,
}

-- No null, no name twice in an object, and values at most 32 objects and arrays deep.
unfoldable mutual
  pub well_formed : ℕ → Json → Bool
  well_formed depth null = false
  well_formed depth (boolean b) = leb depth 32
  well_formed depth (number literal) = leb depth 32
  well_formed depth (text value) = leb depth 32
  well_formed depth (array entries) = leb depth 32 && well_formed_elements (suc depth) entries
  well_formed depth (object fields) = leb depth 32 && well_formed_members (suc depth) fields

  pub well_formed_elements : ℕ → Elements → Bool
  well_formed_elements depth no_elements = true
  well_formed_elements depth (element value rest) =
      well_formed depth value && well_formed_elements depth rest

  pub well_formed_members : ℕ → Members → Bool
  well_formed_members depth no_members = true
  well_formed_members depth (member name value rest) =
      not (has_name name rest) && well_formed depth value && well_formed_members depth rest

-- No member has a name that has been seen.
unseen : List Bytes → Members → Bool
unseen seen no_members = true
unseen seen (member name value rest) = not (seen_before name seen) && unseen seen rest

unseen-add :
    (name : Bytes) (seen : List Bytes) (members : Members)
    → unseen (name ∷ seen) members ≡ (not (has_name name members) && unseen seen members)
unfolding unseen
unseen-add name seen no_members = refl
unseen-add name seen (member other value rest) = ground (arith, unseen-add name seen rest)

unseen-none : (members : Members) → unseen [] members ≡ true
unfolding unseen
unseen-none no_members = refl
unseen-none (member name value rest) = unseen-none rest

-- A value starts with a token that closes nothing.
more-tokens_of : (value : Json) (rest : List Token) → more (tokens_of value ++ rest) ≡ true
unfolding tokens_of
more-tokens_of null rest = refl
more-tokens_of (boolean b) rest = refl
more-tokens_of (number literal) rest = refl
more-tokens_of (text value) rest = refl
more-tokens_of (array entries) rest = refl
more-tokens_of (object fields) rest = refl

length-tokens_of : (value : Json) → 1 ≤ length (tokens_of value)
unfolding tokens_of
length-tokens_of null = omega arith
length-tokens_of (boolean b) = omega arith
length-tokens_of (number literal) = omega arith
length-tokens_of (text value) = omega arith
length-tokens_of (array entries) = omega arith
length-tokens_of (object fields) = omega arith

abbrev outcome : Bool → List Token → Scan
outcome accepted rest = if accepted then scanned rest else refused

after-answer :
    (accepted then_accepted : Bool) (rest final : List Token) (next : List Token → Scan)
    → next rest ≡ outcome then_accepted final
    → after (outcome accepted rest) next ≡ outcome (accepted && then_accepted) final
after-answer true then_accepted rest final next h = h
after-answer false then_accepted rest final next h = refl

deep :
    (depth : ℕ) (accepted : Bool) (rest : List Token)
    → (if ltb 32 depth then refused else outcome accepted rest)
      ≡ outcome (leb depth 32 && accepted) rest
deep depth accepted rest = ground arith

named :
    (seen_name : Bool) (fresh accepted others unseen_rest : Bool) (rest : List Token)
    → (if seen_name then refused else outcome (accepted && ((fresh && unseen_rest) && others)) rest)
      ≡ outcome ((not seen_name && unseen_rest) && ((fresh && accepted) && others)) rest
named true fresh accepted others unseen_rest rest = refl
named false true true others unseen_rest rest = refl
named false true false others true rest = refl
named false true false others false rest = refl
named false false true others true rest = refl
named false false true others false rest = refl
named false false false others true rest = refl
named false false false others false rest = refl

mutual
  unfolding bundle_json_value token_value named_member tokens_of well_formed unseen

  value-accepts :
      (fuel depth : ℕ) (value : Json) (rest : List Token)
      → 2 * length (tokens_of value) ≤ fuel
      → bundle_json_value fuel depth (tokens_of value ++ rest)
        ≡ outcome (well_formed depth value) rest
  value-accepts zero depth value rest h = absurd (omega (arith, h, length-tokens_of value))
  value-accepts (suc fuel) depth null rest h = ground arith
  value-accepts (suc fuel) depth (boolean b) rest h = ground arith
  value-accepts (suc fuel) depth (number literal) rest h = ground arith
  value-accepts (suc fuel) depth (text value) rest h = ground arith
  value-accepts (suc fuel) depth (array entries) rest h =
      rw
        (
          append_assoc (element_tokens entries) (close_array ∷ []) rest,
          elements-accepts fuel depth entries rest
              (omega (arith, h, length-append (element_tokens entries) (close_array ∷ []))),
        )
        (deep depth (well_formed_elements (suc depth) entries) rest)
  value-accepts (suc fuel) depth (object fields) rest h =
      rw
        (
          append_assoc (member_tokens fields) (close_object ∷ []) rest,
          members-accepts fuel depth [] fields rest
              (omega (arith, h, length-append (member_tokens fields) (close_object ∷ []))),
          unseen-none fields,
        )
        (deep depth (well_formed_members (suc depth) fields) rest)

  elements-accepts :
      (fuel depth : ℕ) (entries : Elements) (rest : List Token)
      → 2 * length (element_tokens entries) + 1 ≤ fuel
      → bundle_elements fuel depth (element_tokens entries ++ close_array ∷ rest)
        ≡ outcome (well_formed_elements (suc depth) entries) rest
  elements-accepts zero depth entries rest h = absurd (omega (arith, h))
  elements-accepts (suc fuel) depth no_elements rest h = refl
  elements-accepts (suc fuel) depth (element value others) rest h =
      rw
        (
          append_assoc (tokens_of value) (element_tokens others) (close_array ∷ rest),
          more-tokens_of value (element_tokens others ++ close_array ∷ rest),
          value-accepts fuel (suc depth) value (element_tokens others ++ close_array ∷ rest)
              (omega (arith, h, length-append (tokens_of value) (element_tokens others))),
        )
        (after-answer (well_formed (suc depth) value) (well_formed_elements (suc depth) others)
          (element_tokens others ++ close_array ∷ rest) rest (bundle_elements fuel depth)
          (elements-accepts fuel depth others rest (
            omega (
              arith,
              h,
              length-tokens_of value,
              length-append (tokens_of value) (element_tokens others),
            ))))

  members-accepts :
      (fuel depth : ℕ) (seen : List Bytes) (fields : Members) (rest : List Token)
      → 2 * length (member_tokens fields) + 1 ≤ fuel
      → bundle_members fuel depth seen (member_tokens fields ++ close_object ∷ rest)
        ≡ outcome (unseen seen fields && well_formed_members (suc depth) fields) rest
  members-accepts zero depth seen fields rest h = absurd (omega (arith, h))
  members-accepts (suc fuel) depth seen no_members rest h = refl
  members-accepts (suc fuel) depth seen (member name value others) rest h =
      rw
        (
          append_assoc (tokens_of value) (member_tokens others) (close_object ∷ rest),
          value-accepts fuel (suc depth) value (member_tokens others ++ close_object ∷ rest)
              (omega (arith, h, length-append (tokens_of value) (member_tokens others))),
          after-answer (well_formed (suc depth) value)
              (unseen (name ∷ seen) others && well_formed_members (suc depth) others)
              (member_tokens others ++ close_object ∷ rest) rest
              (bundle_members fuel depth (name ∷ seen))
              (members-accepts fuel depth (name ∷ seen) others rest
                (omega (arith, h, length-append (tokens_of value) (member_tokens others)))),
          unseen-add name seen others,
        )
        (named (seen_before name seen) (not (has_name name others)) (well_formed (suc depth) value)
          (well_formed_members (suc depth) others) (unseen seen others) rest)

at_end-outcome :
    (accepted : Bool) (t : Token) (rest : List Token) → at_end (outcome accepted (t ∷ rest)) ≡ false
at_end-outcome true t rest = refl
at_end-outcome false t rest = refl

at_end-outcome_nil : (accepted : Bool) → at_end (outcome accepted []) ≡ accepted
at_end-outcome_nil true = refl
at_end-outcome_nil false = refl

scans :
    (document : Json) (rest : List Token)
    → bundle_json_value (enough (tokens_of document ++ rest)) 0 (tokens_of document ++ rest)
      ≡ outcome (well_formed 0 document) rest
scans document rest =
    value-accepts (enough (tokens_of document ++ rest)) 0 document rest
      (omega (arith, length-append (tokens_of document) rest))

-- The text of a document, read as tokens, is accepted exactly when the document has no null, no name
-- twice in one object and no value in more than 32 objects and arrays; and with any token after the
-- document it is refused.
pub valid_bundle_json-tokens_of :
    (document : Json)
    → (valid_bundle_json (tokens_of document) ≡ well_formed 0 document)
      × ((t : Token) (rest : List Token)
          → valid_bundle_json (tokens_of document ++ t ∷ rest) ≡ false)
unfolding valid_bundle_json
valid_bundle_json-tokens_of document = (alone, followed)
  where
    alone : valid_bundle_json (tokens_of document) ≡ well_formed 0 document
    alone =
        ap valid_bundle_json (sym (append-nil (tokens_of document)))
        ∙ rw (scans document []) (at_end-outcome_nil (well_formed 0 document))

    followed :
        (t : Token) (rest : List Token) → valid_bundle_json (tokens_of document ++ t ∷ rest) ≡ false
    followed t rest =
        rw (scans document (t ∷ rest)) (at_end-outcome (well_formed 0 document) t rest)
