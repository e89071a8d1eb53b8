-- ===== src/Service/Step/Rules.antt =====
-- What every answer of a handler satisfies, one rule for each way to build a block.
use authgate.Prelude.{◌≡◌, Bool, true, false, Result, ok, err, inl, inr, arith, if◌then◌else◌}
use authgate.Service.Step.{
  returns, Call, Step, answer, panic, pure, call, ◌>>=◌, ◌>>◌, answer_if, run_if, or_answer,
  >>=-returns,
}

-- Every answer of the block passes the test, from every state.
pub record Answers {S R A : Type 0} (p : R → Bool) (m : Step S R A) : Type 0 where
  pub at : (s s' : S) (r : R) → m s ≡ (returns r, s') → p r ≡ true

module _ {S R A : Type 0} {p : R → Bool} where
  pub Answers-answer : (r : R) → p r ≡ true → Answers {S = S} {R = R} {A = A} p (answer r)
  Answers-answer r good = record { at = λ s s' r' h. ground (arith, good, h) }

  pub Answers-pure : (a : A) → Answers {S = S} {R = R} {A = A} p (pure a)
  Answers-pure a = record { at = λ s s' r h. ground (arith, h) }

  pub Answers-panic : Answers {S = S} {R = R} {A = A} p panic
  Answers-panic = record { at = λ s s' r h. ground (arith, h) }

  pub Answers-call : (op : Call S A) → Answers {S = S} {R = R} {A = A} p (call op)
  unfolding call
  Answers-call op = record { at = λ s s' r h. ground (arith, h) }

  pub Answers-or_answer :
      {E : Type 0} (r : Result E A) (on_error : E → R)
      → ((e : E) → p (on_error e) ≡ true)
      → Answers {S = S} {R = R} {A = A} p (or_answer r on_error)
  Answers-or_answer (ok a) on_error good = Answers-pure a
  Answers-or_answer (err e) on_error good = Answers-answer (on_error e) (good e)

  pub Answers-if :
      (b : Bool) {m n : Step S R A} → Answers p m → Answers p n → Answers p (if b then m else n)
  Answers-if true km kn = km
  Answers-if false km kn = kn

module _ {S R : Type 0} {p : R → Bool} where
  pub Answers-answer_if : (b : Bool) (r : R) → p r ≡ true → Answers {S = S} p (answer_if b r)
  Answers-answer_if true r good = Answers-answer r good
  Answers-answer_if false r good = Answers-pure tt

  pub Answers-run_if : (b : Bool) {m : Step S R (Unit {0})} → Answers p m → Answers p (run_if b m)
  Answers-run_if true km = km
  Answers-run_if false km = Answers-pure tt

module _ {S R A B : Type 0} {p : R → Bool} where
  pub Answers-bind :
      {m : Step S R A} {next : A → Step S R B}
      → Answers p m
      → ((a : A) → Answers p (next a))
      → Answers p (m >>= next)
  Answers-bind {m} {next} km kn = record {
    at = λ s s' r h. elim (>>=-returns m next s h) [
      | inl done ↦ km.at s s' r done
      | inr (a, s₁, _, rest) ↦ (kn a).at s₁ s' r rest
    ];
  }

  pub Answers-then :
      {m : Step S R A} {next : Step S R B} → Answers p m → Answers p next → Answers p (m >> next)
  Answers-then km kn = Answers-bind km (λ a. kn)

pub ruleset answers = (
  Answers-answer, Answers-pure, Answers-panic, Answers-call, Answers-or_answer, Answers-if,
  Answers-answer_if, Answers-run_if, Answers-bind, Answers-then,
)
