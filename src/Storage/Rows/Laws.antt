-- ===== src/Storage/Rows/Laws.antt =====
-- Predicates on the rows of a table through WHERE and UPDATE.
use authgate.Prelude.{
  ◌≡◌, sym, refl, Bool, true, false, some, List, [], ◌∷◌, inl, inr, Bool-cases, All, if◌then◌else◌,
  arith, any,
}
use authgate.Storage.Rows.{find, update, remove}

module _ {A : Type 0} where
  pub All-map : (P Q : A → Type 0) → ((x : A) → P x → Q x) → (xs : List A) → All P xs → All Q xs
  All-map P Q h [] ps = tt
  All-map P Q h (x ∷ xs) (p, ps) = (h x p, All-map P Q h xs ps)

  -- The row that is found satisfies what all rows satisfy.
  pub find-All :
      (P : A → Type 0) (p : A → Bool) (xs : List A) (y : A) → find p xs ≡ some y → All P xs → P y
  unfolding find
  find-All P p [] y e ps = absurd (cc)
  find-All P p (x ∷ xs) y e (px, ps) = elim (Bool-cases (p x)) [
    | inl hit ↦ let same : some x ≡ some y = ground arith in let eq : x ≡ y = cc in rw (sym eq) px
    | inr miss ↦ find-All P p xs y (ground arith) ps
  ]

  pub All-update :
      (P Q : A → Type 0) (p : A → Bool) (f : A → A)
      → ((x : A) → p x ≡ true → P x → Q (f x))
      → ((x : A) → p x ≡ false → P x → Q x)
      → (xs : List A) → All P xs
      → All Q (update p f xs)
  unfolding update
  All-update P Q p f hit miss [] ps = tt
  All-update P Q p f hit miss (x ∷ xs) (px, ps) =
      (one (p x) (λ e. hit x e px) (λ e. miss x e px), All-update P Q p f hit miss xs ps)
    where
      one : (b : Bool) → (b ≡ true → Q (f x)) → (b ≡ false → Q x) → Q (if b then f x else x)
      one true h k = h refl
      one false h k = k refl

  pub All-any-false :
      (P : A → Type 0) (p : A → Bool)
      → ((x : A) → P x → p x ≡ false)
      → (xs : List A) → All P xs
      → any p xs ≡ false
  All-any-false P p h [] ps = refl
  All-any-false P p h (x ∷ xs) (px, ps) = ground (arith, h x px, All-any-false P p h xs ps)

  pub remove-All : (p : A → Bool) (rows : List A) → All (λ r. p r ≡ false) (remove p rows)
  unfolding remove
  remove-All p [] = tt
  remove-All p (r ∷ rows) = elim (Bool-cases (p r)) [
    | inl gone ↦ rw gone (remove-All p rows)
    | inr kept ↦ rw kept (kept, remove-All p rows)
  ]

  -- The row that is found passes the test.
  pub find-hit : (p : A → Bool) (xs : List A) (y : A) → find p xs ≡ some y → p y ≡ true
  unfolding find
  find-hit p [] y e = absurd (cc)
  find-hit p (x ∷ xs) y e = elim (Bool-cases (p x)) [
    | inl hit ↦ let same : some x ≡ some y = ground arith in let eq : x ≡ y = cc in rw (sym eq) hit
    | inr miss ↦ find-hit p xs y (ground arith)
  ]
