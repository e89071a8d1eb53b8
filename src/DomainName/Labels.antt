-- ===== src/DomainName/Labels.antt =====
-- `valid` against a description of DNS names by their labels.
use authgate.Prelude.{
  ℕ, ◌+◌, ◌≤◌, ◌<◌, ◌≡◌, refl, ◌≢◌, ◌↔◌, ◌⊎◌, inl, inr, true, false, List, [], ◌∷◌, ◌++◌, Bytes,
  length, length-append, All, All-append, All-append_left, All-append_right, ◌==◌, if◌then◌else◌,
  append_assoc, append-nil, arith, Bool-cases, ap, sym, ◌∙◌,
}
use authgate.DomainName.{is_letter_or_digit, valid_from, valid}

-- A letter, a digit or a hyphen.
abbrev pub IsLdh : ℕ → Type 0
IsLdh c = (is_letter_or_digit c ≡ true) ⊎ (c ≡ b'-')

abbrev pub head_or : ℕ → Bytes → ℕ
head_or d [] = d
head_or d (c ∷ s) = c

abbrev pub last_or : ℕ → Bytes → ℕ
last_or d [] = d
last_or d (c ∷ s) = last_or c s

-- A label: 1 to 63 letters, digits and hyphens, with no hyphen at either end.
pub record IsLabel (l : Bytes) : Type 0 where
  pub nonempty : 0 < length l
  pub short : length l ≤ 63
  pub ldh : All IsLdh l
  pub starts : head_or 0 l ≢ b'-'
  pub ends : last_or 0 l ≢ b'-'

abbrev pub cons_head : ℕ → List Bytes → List Bytes
cons_head c [] = (c ∷ []) ∷ []
cons_head c (l ∷ ls) = (c ∷ l) ∷ ls

-- The pieces between the dots.
unfoldable pub split_dots : Bytes → List Bytes
split_dots [] = [] ∷ []
split_dots (c ∷ s) = if c == b'.' then [] ∷ split_dots s else cons_head c (split_dots s)

abbrev prepend : Bytes → List Bytes → List Bytes
prepend p [] = p ∷ []
prepend p (l ∷ ls) = (p ++ l) ∷ ls

last_or-append : (d c : ℕ) (p : Bytes) → last_or d (p ++ c ∷ []) ≡ c
last_or-append d c [] = refl
last_or-append d c (x ∷ p) = last_or-append x c p

head_or-append : (d : ℕ) (p q : Bytes) → 0 < length p → head_or d (p ++ q) ≡ head_or d p
head_or-append d [] q h = absurd (omega arith)
head_or-append d (x ∷ p) q h = refl

prepend-cons_head :
    (p : Bytes) (c : ℕ) (ls : List Bytes) → prepend p (cons_head c ls) ≡ prepend (p ++ c ∷ []) ls
prepend-cons_head p c [] = refl
prepend-cons_head p c (l ∷ ls) = ap (λ h. h ∷ ls) (sym (append_assoc p (c ∷ []) l))

pub split_dots-cons : (s : Bytes) → (l : Bytes) × (ls : List Bytes) × (split_dots s ≡ l ∷ ls)
unfolding split_dots
split_dots-cons [] = ([], [], refl)
split_dots-cons (c ∷ s) = elim (Bool-cases (c == b'.')) [
  | inl dot ↦ ([], split_dots s, rw dot)
  | inr other ↦ let (l, ls, e) = split_dots-cons s in (c ∷ l, ls, rw (other, e))
]

prepend-split_dots : (s : Bytes) → prepend [] (split_dots s) ≡ split_dots s
prepend-split_dots s = let (l, ls, e) = split_dots-cons s in rw e

-- What the loop knows of the label that it is in.
record IsStarted (p : Bytes) (prev : ℕ) : Type 0 where
  short : length p ≤ 63
  ldh : All IsLdh p
  starts : head_or 0 p ≢ b'-'
  latest : 0 < length p → prev ≡ last_or 0 p

IsStarted-nil : (prev : ℕ) → IsStarted [] prev
IsStarted-nil prev = record {
  short = omega arith;
  ldh = tt;
  starts = omega arith;
  latest = λ h. absurd (omega arith);
}

IsStarted-snoc :
    (p : Bytes) (prev c : ℕ)
    → IsStarted p prev
    → IsLdh c
    → (c ≡ b'-' → 0 < length p)
    → length p + 1 ≤ 63
    → IsStarted (p ++ c ∷ []) c
IsStarted-snoc [] prev c st ldh h fits = record {
  short = omega arith;
  ldh = (ldh, tt);
  starts = λ e. absurd (omega (arith, h e));
  latest = λ _. refl;
}
IsStarted-snoc (x ∷ p) prev c st ldh h fits = record {
  short = omega (arith, length-append p (c ∷ []));
  ldh = (st.ldh.0, All-append IsLdh p (c ∷ []) st.ldh.1 (ldh, tt));
  starts = st.starts;
  latest = λ _. sym (last_or-append x c p);
}

IsStarted-IsLabel :
    (p : Bytes) (prev : ℕ) → IsStarted p prev → 0 < length p → prev ≢ b'-' → IsLabel p
IsStarted-IsLabel p prev st h e = record {
  nonempty = h;
  short = st.short;
  ldh = st.ldh;
  starts = st.starts;
  ends = λ k. e (st.latest h ∙ k);
}

valid_from_sound :
    (p : Bytes) (prev : ℕ) (s : Bytes)
    → IsStarted p prev
    → valid_from (length p) prev s ≡ true
    → All IsLabel (prepend p (split_dots s))
unfolding valid_from split_dots
valid_from_sound p prev [] st h =
    rw append-nil (IsStarted-IsLabel p prev st (ground arith) (ground arith), tt)
valid_from_sound p prev (c ∷ s) st h = elim (Bool-cases (c == b'.')) [
  | inl dot ↦
      rw (dot, append-nil)
        (
          IsStarted-IsLabel p prev st (ground arith) (ground arith),
          rw (← prepend-split_dots s) (valid_from_sound [] c s (IsStarted-nil c) (ground arith)),
        )
  | inr other ↦
      rw (other, prepend-cons_head)
        (valid_from_sound (p ++ c ∷ []) c s
          (IsStarted-snoc p prev c st (ground arith) (ground arith) (ground arith))
          (rw length-append (ground arith)))
]

-- What a label that begins with `p ++ c ∷ []` says of `c`.
IsLabel-next :
    (p l : Bytes) (c : ℕ)
    → IsLabel ((p ++ c ∷ []) ++ l)
    → IsLdh c × (c ≡ b'-' → 0 < length p) × (length p + 1 ≤ 63)
IsLabel-next p l c h = (
  (All-append_right IsLdh p (c ∷ []) (All-append_left IsLdh (p ++ c ∷ []) l h.ldh)).0,
  inside p h.starts,
  omega (arith, h.short, length-append (p ++ c ∷ []) l, length-append p (c ∷ [])),
)
  where
    inside : (q : Bytes) → head_or 0 ((q ++ c ∷ []) ++ l) ≢ b'-' → c ≡ b'-' → 0 < length q
    inside [] k e = absurd (k e)
    inside (x ∷ q) k e = omega arith

IsLabel-before-dot :
    (p : Bytes) (prev : ℕ)
    → (0 < length p → prev ≡ last_or 0 p)
    → IsLabel p
    → (0 < length p) × (prev ≢ b'-')
IsLabel-before-dot p prev latest h = (h.nonempty, λ e. h.ends (sym (latest h.nonempty) ∙ e))

valid_from_complete :
    (p : Bytes) (prev : ℕ) (s : Bytes)
    → (0 < length p → prev ≡ last_or 0 p)
    → All IsLabel (prepend p (split_dots s))
    → valid_from (length p) prev s ≡ true
unfolding valid_from split_dots
valid_from_complete p prev [] latest h =
    ground (arith, IsLabel-before-dot p prev latest (rw append-nil at h.0))
valid_from_complete p prev (c ∷ s) latest h = elim (Bool-cases (c == b'.')) [
  | inl dot ↦
      let parts = rw dot at h in
      let rest = rw (← prepend-split_dots s) at parts.1 in
      ground (
        arith,
        IsLabel-before-dot p prev latest (rw append-nil at parts.0),
        valid_from_complete [] c s (λ k. absurd (omega arith)) rest,
      )
  | inr other ↦
      let (l, ls, e) = split_dots-cons s in
      let parts = rw (other, prepend-cons_head) at h in
      let next = IsLabel-next p l c (rw e at parts).0 in
      let rest = valid_from_complete (p ++ c ∷ []) c s (λ _. sym (last_or-append 0 c p)) parts in
      ground (arith, next, rw (length-append p (c ∷ [])) at rest)
]

split_dots-nil : ¬ All IsLabel (split_dots [])
unfolding split_dots
split_dots-nil h = absurd (omega (arith, h.0.nonempty))

-- `valid` accepts exactly the names of at most 253 bytes whose pieces between dots are all labels
-- (1 to 63 letters, digits and hyphens, no hyphen at either end).
pub valid_iff :
    (name : Bytes) → (valid name ≡ true) ↔ ((length name ≤ 253) × All IsLabel (split_dots name))
unfolding valid
valid_iff [] = (λ h. cc, λ h. absurd (split_dots-nil h.1))
valid_iff (c ∷ s) = (
  λ h. (
    ground arith,
    rw (← prepend-split_dots (c ∷ s))
        (valid_from_sound [] 0 (c ∷ s) (IsStarted-nil 0) (ground arith)),
  ),
  λ h. ground (
    arith,
    valid_from_complete [] 0 (c ∷ s) (λ k. absurd (omega arith)) (rw prepend-split_dots h.1),
  ),
)

-- A name with a dot in front is refused: its first label is empty.
pub valid-leading_dot : (s : Bytes) → valid (b'.' ∷ s) ≡ false
unfolding valid valid_from
valid-leading_dot s = ground arith
