-- ===== src/ClientAccess/Wildcards.antt =====
-- The domain rules of `matches_email`: what exact and wildcard entries admit, by labels.
use authgate.Prelude.{
  ◌≡◌, refl, sym, ap, ◌∙◌, inl, inr, ◌↔◌, true, some, List, [], ◌∷◌, ◌++◌, Bytes, bytes_eq,
  bytes_eq_iff, arith, Bool-cases, ◌==◌, ==_iff, append_assoc, ℕ,
}
use authgate.Strings.{has_suffix}
use authgate.DomainName.Labels.{split_dots, split_dots-cons}
use authgate.ClientAccess.{entry_matches}

has_suffix-split : (s t : Bytes) → has_suffix s t ≡ true → (front : Bytes) × (s ≡ front ++ t)
unfolding has_suffix
has_suffix-split [] t h = ([], (bytes_eq_iff [] t).0 h)
has_suffix-split (c ∷ s) t h = elim (Bool-cases (bytes_eq (c ∷ s) t)) [
  | inl same ↦ ([], (bytes_eq_iff (c ∷ s) t).0 same)
  | inr other ↦
      let (front, e) = has_suffix-split s t (ground arith) in (c ∷ front, ap (λ r. c ∷ r) e)
]

has_suffix_append : (front t : Bytes) → has_suffix (front ++ t) t ≡ true
unfolding has_suffix
has_suffix_append [] [] = (bytes_eq_iff [] []).1 refl
has_suffix_append [] (c ∷ t) = rw ((bytes_eq_iff (c ∷ t) (c ∷ t)).1 refl)
has_suffix_append (c ∷ front) t = ground (arith, has_suffix_append front t)

split_dots_append : (s t : Bytes) → split_dots (s ++ b'.' ∷ t) ≡ split_dots s ++ split_dots t
unfolding split_dots
split_dots_append [] t = refl
split_dots_append (c ∷ s) t =
    let (l, ls, e) = split_dots-cons s in
    elim (Bool-cases (c == b'.')) [
      | inl dot ↦ rw (dot, split_dots_append s t, e)
      | inr other ↦ rw (other, split_dots_append s t, e)
    ]

join_dots : List Bytes → Bytes
join_dots [] = []
join_dots (l ∷ []) = l
join_dots (l ∷ m ∷ ls) = l ++ b'.' ∷ join_dots (m ∷ ls)

join_dots-cons_head :
    (c : ℕ) (l : Bytes) (ls : List Bytes) → join_dots ((c ∷ l) ∷ ls) ≡ c ∷ join_dots (l ∷ ls)
unfolding join_dots
join_dots-cons_head c l [] = refl
join_dots-cons_head c l (m ∷ ls) = refl

join_dots-split_dots : (s : Bytes) → join_dots (split_dots s) ≡ s
unfolding split_dots join_dots
join_dots-split_dots [] = refl
join_dots-split_dots (c ∷ s) =
    let (l, ls, e) = split_dots-cons s in
    let ih = rw e at (join_dots-split_dots s) in
    elim (Bool-cases (c == b'.')) [
      | inl dot ↦ rw (dot, e) (cc (ih, (==_iff c b'.').0 dot))
      | inr other ↦ rw (other, e) (join_dots-cons_head c l ls ∙ ap (λ r. c ∷ r) ih)
    ]

join_dots_append :
    (l : Bytes) (ls : List Bytes) (m : Bytes) (ms : List Bytes)
    → join_dots ((l ∷ ls) ++ m ∷ ms) ≡ join_dots (l ∷ ls) ++ b'.' ∷ join_dots (m ∷ ms)
unfolding join_dots
join_dots_append l [] m ms = refl
join_dots_append l (k ∷ ls) m ms =
    rw (join_dots_append k ls m ms) (sym (append_assoc l (b'.' ∷ join_dots (k ∷ ls)) _))

-- The labels of `domain` are those of `base` with at least one more in front.
pub record IsBelow (domain base : Bytes) : Type 0 where
  pub first : Bytes
  pub others : List Bytes
  pub labels : split_dots domain ≡ first ∷ others ++ split_dots base

IsBelow-split : (domain base front : Bytes) → domain ≡ front ++ b'.' ∷ base → IsBelow domain base
IsBelow-split domain base front e =
    let (l, ls, k) = split_dots-cons front in
    record {
      first = l;
      others = ls;
      labels = ap split_dots e ∙ split_dots_append front base ∙ ap (λ r. r ++ split_dots base) k;
    }

IsBelow-front :
    (domain base : Bytes) → IsBelow domain base → (front : Bytes) × (domain ≡ front ++ b'.' ∷ base)
IsBelow-front domain base h =
    let (m, ms, e) = split_dots-cons base in
    (
      join_dots (h.first ∷ h.others),
      sym (join_dots-split_dots domain)
          ∙ ap join_dots (h.labels ∙ ap (λ r. h.first ∷ h.others ++ r) e)
          ∙ join_dots_append h.first h.others m ms
          ∙ ap (λ r. join_dots (h.first ∷ h.others) ++ b'.' ∷ r)
              (ap join_dots (sym e) ∙ join_dots-split_dots base),
    )

-- A wildcard entry matches exactly the names with at least one more label in front of its base, so
-- never the base itself, and never a name that only ends with the same letters.
pub wildcard_iff :
    (domain base : Bytes) → (entry_matches domain (b'.' ∷ base) ≡ some true) ↔ IsBelow domain base
unfolding entry_matches
wildcard_iff domain base = (
  λ h.
      let (front, e) = has_suffix-split domain (b'.' ∷ base) (ground arith) in
      IsBelow-split domain base front e,
  λ h.
      let (front, e) = IsBelow-front domain base h in
      ap some (rw e (has_suffix_append front (b'.' ∷ base))),
)
