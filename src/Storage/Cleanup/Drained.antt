-- ===== src/Storage/Cleanup/Drained.antt =====
-- The batches of internal/storage/cleanup_runner.go drain a table as one delete would.
use authgate.Prelude.{
  ℕ, zero, suc, ◌+◌, ◌≡◌, ◌≤◌, ◌<◌, refl, ◌∙◌, ap, inl, inr, Bool, some, none, List, [], ◌∷◌, ltb,
  length, arith, Bool-cases,
}
use authgate.Storage.Rows.{count, remove}
use authgate.Storage.Cleanup.{remove_batch, delete_in_batches, statement_on}

module _ {A : Type 0} (p : A → Bool) where
  -- What a batch takes and what it leaves.
  remove_batch_lem :
      (n : ℕ) (xs : List A)
      → (((remove_batch p n xs).0 + count p (remove_batch p n xs).1) ≡ count p xs)
        × (remove p (remove_batch p n xs).1 ≡ remove p xs)
        × (((remove_batch p n xs).0 + length (remove_batch p n xs).1) ≡ length xs)
  unfolding remove_batch count remove
  remove_batch_lem n [] = (refl, refl, refl)
  remove_batch_lem zero (x ∷ xs) = (omega arith, refl, omega arith)
  remove_batch_lem (suc n) (x ∷ xs) =
      ground (arith, remove_batch_lem n xs, remove_batch_lem (suc n) xs)

  -- A batch that is not full was the last one.
  remove_batch_last :
      (n : ℕ) (xs : List A)
      → (remove_batch p n xs).0 < n
      → (remove_batch p n xs).1 ≡ remove p xs × (count p (remove_batch p n xs).1 ≡ 0)
  unfolding remove_batch count remove
  remove_batch_last n [] short = (refl, refl)
  remove_batch_last zero (x ∷ xs) short = ground arith
  remove_batch_last (suc n) (x ∷ xs) short =
      ground (arith, remove_batch_last n xs, remove_batch_last (suc n) xs)

  -- With a batch size of at least 1 and more fuel than the table has rows, the loop ends without an
  -- error, the total is the number of rows that pass the test, and exactly those are gone.
  pub delete_in_batches-statement_on :
      (fuel batch total : ℕ) (xs : List A)
      → 1 ≤ batch
      → length xs < fuel
      → delete_in_batches fuel (statement_on p) batch total xs
        ≡ (some (total + count p xs, none), remove p xs)
  unfolding delete_in_batches
  delete_in_batches-statement_on zero batch total xs some_rows enough = ground arith
  delete_in_batches-statement_on (suc fuel) batch total xs some_rows enough =
      let (counted, removed, measured) = remove_batch_lem batch xs in
      elim (Bool-cases (ltb (remove_batch p batch xs).0 batch)) [
        | inl short ↦
            let (rest, none_left) = remove_batch_last batch xs (ground (arith, short)) in
            rw (short, rest)
              (ap (λ n. (some (total + n, none), remove p xs)) (omega (arith, counted, none_left)))
        | inr full ↦ rw full (
            delete_in_batches-statement_on fuel batch (total + (remove_batch p batch xs).0)
              (remove_batch p batch xs).1 some_rows
              (ground (arith, full, measured, enough, some_rows))
            ∙ rw removed (ap (λ n. (some (n, none), remove p xs)) (omega (arith, counted))))
      ]
