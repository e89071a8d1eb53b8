-- ===== src/Signing/Scan.antt =====
-- The check of a bundle's text: it ends, and it accepts exactly the documents without a null, without a
-- repeated name and without deep nesting.
use authgate.Prelude.{
  ℕ, zero, suc, ◌≤◌, ◌<◌, ◌≢◌, Bool, true, false, List, [], ◌∷◌, Bytes, length, if◌then◌else◌, ltb,
  arith,
}
use authgate.Signing.Json.{
  Token, boolean_token, number_token, text_token, open_object, close_object, open_array,
  close_array, more, Scan, out_of_fuel, refused, scanned, seen_before, after, closed_object,
  closed_array, token_value, named_member, bundle_json_value, bundle_members, bundle_elements,
  enough,
}

-- An answer, with fewer than `n` tokens left.
Ends : ℕ → Scan → Type 0
Ends n out_of_fuel = ⊥
Ends n refused = Unit
Ends n (scanned rest) = length rest < n

after-Ends :
    (m n : ℕ) (first : Scan) (next : List Token → Scan)
    → Ends m first
    → ((rest : List Token) → length rest < m → Ends n (next rest))
    → Ends n (after first next)
unfolding Ends
after-Ends m n out_of_fuel next h k = absurd h
after-Ends m n refused next h k = tt
after-Ends m n (scanned rest) next h k = k rest h

closed_object-Ends : (tokens : List Token) → Ends (length tokens) (closed_object tokens)
unfolding Ends
closed_object-Ends (close_object ∷ rest) = omega arith
closed_object-Ends [] = tt
closed_object-Ends (_ ∷ rest) = tt

closed_array-Ends : (tokens : List Token) → Ends (length tokens) (closed_array tokens)
unfolding Ends
closed_array-Ends (close_array ∷ rest) = omega arith
closed_array-Ends [] = tt
closed_array-Ends (_ ∷ rest) = tt

if-Ends :
    (n : ℕ) (test : Bool) (one other : Scan)
    → Ends n one
    → Ends n other
    → Ends n (if test then one else other)
if-Ends n true one other h k = h
if-Ends n false one other h k = k

token_value-Ends :
    (members elements : List Token → Scan) (tokens : List Token)
    → ((rest : List Token) → length rest < length tokens → Ends (length tokens) (members rest))
    → ((rest : List Token) → length rest < length tokens → Ends (length tokens) (elements rest))
    → Ends (length tokens) (token_value members elements tokens)
unfolding token_value Ends
token_value-Ends members elements [] h k = tt
token_value-Ends members elements (boolean_token b ∷ rest) h k = omega arith
token_value-Ends members elements (number_token literal ∷ rest) h k = omega arith
token_value-Ends members elements (text_token value ∷ rest) h k = omega arith
token_value-Ends members elements (open_object ∷ rest) h k = h rest (omega arith)
token_value-Ends members elements (open_array ∷ rest) h k = k rest (omega arith)
token_value-Ends members elements (_ ∷ rest) h k = tt

Ends-mono : (m n : ℕ) (s : Scan) → m ≤ n → Ends m s → Ends n s
unfolding Ends
Ends-mono m n out_of_fuel h e = e
Ends-mono m n refused h e = tt
Ends-mono m n (scanned rest) h e = omega (arith, h, e)

named_member-Ends :
    (value : List Token → Scan) (next : List Bytes → List Token → Scan) (seen : List Bytes)
    (tokens : List Token)
    → ((rest : List Token) → length rest < length tokens → Ends (length rest) (value rest))
    → ((names : List Bytes) (rest : List Token)
        → length rest < length tokens
        → Ends (length rest) (next names rest))
    → Ends (length tokens) (named_member value next seen tokens)
unfolding named_member Ends
named_member-Ends value next seen (text_token name ∷ rest) h k =
    if-Ends (suc (length rest)) (seen_before name seen) refused
      (after (value rest) (next (name ∷ seen))) tt
      (after-Ends (length rest) (suc (length rest)) (value rest) (next (name ∷ seen))
        (h rest (omega arith))
        (λ left shorter.
          Ends-mono (length left) (suc (length rest)) (next (name ∷ seen) left)
            (omega (arith, shorter)) (k (name ∷ seen) left (omega (arith, shorter)))))
named_member-Ends value next seen [] h k = tt
named_member-Ends value next seen (_ ∷ rest) h k = tt

mutual
  unfolding bundle_json_value Ends

  bundle_json_value-Ends :
      (fuel depth : ℕ) (tokens : List Token)
      → enough tokens ≤ fuel
      → Ends (length tokens) (bundle_json_value fuel depth tokens)
  bundle_json_value-Ends zero depth tokens h = absurd (omega (arith, h))
  bundle_json_value-Ends (suc fuel) depth tokens h =
      if-Ends (length tokens) (ltb 32 depth) refused
        (token_value (bundle_members fuel depth []) (bundle_elements fuel depth) tokens) tt
        (token_value-Ends (bundle_members fuel depth []) (bundle_elements fuel depth) tokens
          (λ rest shorter.
            Ends-mono (length rest) (length tokens) (bundle_members fuel depth [] rest)
              (omega (arith, shorter))
              (bundle_members-Ends fuel depth [] rest (omega (arith, h, shorter))))
          (λ rest shorter.
            Ends-mono (length rest) (length tokens) (bundle_elements fuel depth rest)
              (omega (arith, shorter))
              (bundle_elements-Ends fuel depth rest (omega (arith, h, shorter)))))

  bundle_members-Ends :
      (fuel depth : ℕ) (seen : List Bytes) (tokens : List Token)
      → suc (enough tokens) ≤ fuel
      → Ends (length tokens) (bundle_members fuel depth seen tokens)
  bundle_members-Ends zero depth seen tokens h = absurd (omega (arith, h))
  bundle_members-Ends (suc fuel) depth seen tokens h =
      if-Ends (length tokens) (more tokens)
        (named_member (bundle_json_value fuel (suc depth)) (bundle_members fuel depth) seen tokens)
        (closed_object tokens)
        (named_member-Ends (bundle_json_value fuel (suc depth)) (bundle_members fuel depth) seen
          tokens
          (λ rest shorter. bundle_json_value-Ends fuel (suc depth) rest (omega (arith, h, shorter)))
          (λ names rest shorter.
            bundle_members-Ends fuel depth names rest (omega (arith, h, shorter))))
        (closed_object-Ends tokens)

  bundle_elements-Ends :
      (fuel depth : ℕ) (tokens : List Token)
      → suc (enough tokens) ≤ fuel
      → Ends (length tokens) (bundle_elements fuel depth tokens)
  bundle_elements-Ends zero depth tokens h = absurd (omega (arith, h))
  bundle_elements-Ends (suc fuel) depth tokens h =
      if-Ends (length tokens) (more tokens)
        (after (bundle_json_value fuel (suc depth) tokens) (bundle_elements fuel depth))
        (closed_array tokens)
        (after-Ends (length tokens) (length tokens) (bundle_json_value fuel (suc depth) tokens)
          (bundle_elements fuel depth)
          (bundle_json_value-Ends fuel (suc depth) tokens (omega (arith, h)))
          (λ rest shorter.
            Ends-mono (length rest) (length tokens) (bundle_elements fuel depth rest)
              (omega (arith, shorter))
              (bundle_elements-Ends fuel depth rest (omega (arith, h, shorter)))))
        (closed_array-Ends tokens)

Ends-fuel : (n : ℕ) (s : Scan) → Ends n s → s ≢ out_of_fuel
unfolding Ends
Ends-fuel n out_of_fuel h e = h
Ends-fuel n refused h e = cc
Ends-fuel n (scanned rest) h e = cc

-- On every list of tokens, well formed or not, the fuel that the check of a document starts with lasts
-- to an answer, at any depth.
pub bundle_json_value-ends :
    (depth : ℕ) (tokens : List Token) → bundle_json_value (enough tokens) depth tokens ≢ out_of_fuel
bundle_json_value-ends depth tokens =
    Ends-fuel (length tokens) (bundle_json_value (enough tokens) depth tokens)
      (bundle_json_value-Ends (enough tokens) depth tokens (omega arith))
