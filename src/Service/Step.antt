-- ===== src/Service/Step.antt =====
-- Handlers that call a store and may return early, over a state of the store that stays abstract.
pub mod Rules
use authgate.Prelude.{
  ◌≡◌, arith, ◌⊎◌, inl, inr, refl, Bool, true, false, Option, none, some, Result, ok, err,
}

-- How a block ends: its handler has answered, the program has panicked, or what follows goes on
-- with a value. A nil *LoginResult of the source is a block that goes on.
pub data Outcome (R A : Type 0) : Type 0 where
  returns : R → Outcome R A
  panics : Outcome R A
  continues : A → Outcome R A

abbrev pub Call : Type 0 → Type 0 → Type 0
Call S A = S → A × S

abbrev pub Step : Type 0 → Type 0 → Type 0 → Type 0
Step S R A = S → Outcome R A × S

module _ {S R A : Type 0} where
  abbrev pub answer : R → Step S R A
  answer r s = (returns r, s)

  abbrev pub panic : Step S R A
  panic s = (panics, s)

  abbrev pub pure : A → Step S R A
  pure a s = (continues a, s)

  -- A call of the store inside a handler.
  unfoldable pub call : Call S A → Step S R A
  call op s = let (a, s') = op s in (continues a, s')

module _ {S R A B : Type 0} where
  abbrev pub resume : Outcome R A → (A → Step S R B) → S → Outcome R B × S
  resume (returns r) next s = (returns r, s)
  resume panics next s = (panics, s)
  resume (continues a) next s = next a s

  infixl 5 ◌>>=◌ ◌>>◌
  unfoldable pub ◌>>=◌ : Step S R A → (A → Step S R B) → Step S R B
  ◌>>=◌ m next s = let (o, s') = m s in resume o next s'

  abbrev pub ◌>>◌ : Step S R A → Step S R B → Step S R B
  m >> n = m >>= λ _. n

-- `if condition { return answer }`.
abbrev pub answer_if : {S R : Type 0} → Bool → R → Step S R (Unit {0})
answer_if true r = answer r
answer_if false r = pure tt

-- The value of a call, or the answer that its error is given.
abbrev pub or_answer : {S R E A : Type 0} → Result E A → (E → R) → Step S R A
or_answer (ok a) on_error = pure a
or_answer (err e) on_error = answer (on_error e)

-- A block under a condition.
abbrev pub run_if : {S R : Type 0} → Bool → Step S R (Unit {0}) → Step S R (Unit {0})
run_if true block = block
run_if false block = pure tt

module _ {S R A B : Type 0} where
  split_returns :
      (m : Step S R A) (next : A → Step S R B) (s : S) {s' : S} {r : R} (o : Outcome R A × S)
      → m s ≡ o
      → (let (x, s₁) = o in resume x next s₁) ≡ (returns r, s')
      → (m s ≡ (returns r, s'))
        ⊎ ((a : A) × (s₁ : S) × (m s ≡ (continues a, s₁)) × (next a s₁ ≡ (returns r, s')))
  split_returns m next s (returns r, s₁) e k = inl (ground (arith, e, k))
  split_returns m next s (panics, s₁) e k = cc
  split_returns m next s (continues a, s₁) e k = inr (a, s₁, e, k)

  -- How a block and what follows it have answered: the block has, or it went on and the rest has.
  pub >>=-returns :
      (m : Step S R A) (next : A → Step S R B) (s : S) {s' : S} {r : R}
      → (m >>= next) s ≡ (returns r, s')
      → (m s ≡ (returns r, s'))
        ⊎ ((a : A) × (s₁ : S) × (m s ≡ (continues a, s₁)) × (next a s₁ ≡ (returns r, s')))
  unfolding ◌>>=◌
  >>=-returns m next s h = split_returns m next s (m s) refl h

-- How a call that goes on from a state is followed.
pub call_then :
    {S R A B : Type 0} (op : Call S A) (next : A → Step S R B) (s : S) (a : A)
    → (op s).0 ≡ a
    → (call op >>= next) s ≡ next a (op s).1
unfolding call ◌>>=◌
call_then op next s a e = rw e refl
