-- ===== src/Storage/Rows.antt =====
-- Rows of a table as a list: WHERE, UPDATE and count(*) by a test on the row.
pub mod Laws
use authgate.Prelude.{
  ℕ, Bool, true, false, Option, none, some, List, [], ◌∷◌, String, str_eq, suc, if◌then◌else◌,
}

-- The first row that passes a test.
unfoldable pub find {ℓ} : {A : Type ℓ} → (A → Bool) → List A → Option A
find p [] = none
find p (x ∷ xs) = if p x then some x else find p xs

unfoldable pub count {ℓ} : {A : Type ℓ} → (A → Bool) → List A → ℕ
count p [] = 0
count p (x ∷ xs) = let rest = count p xs in if p x then suc rest else rest

-- Every row that passes the test is rewritten.
unfoldable pub update {ℓ} : {A : Type ℓ} → (A → Bool) → (A → A) → List A → List A
update p f [] = []
update p f (x ∷ xs) = (if p x then f x else x) ∷ update p f xs

abbrev pub is_none {ℓ} : {A : Type ℓ} → Option A → Bool
is_none none = true
is_none (some a) = false

abbrev pub is_some_eq : Option String → String → Bool
is_some_eq none s = false
is_some_eq (some t) s = str_eq t s

-- The rows that do not pass are kept.
unfoldable pub remove {ℓ} : {A : Type ℓ} → (A → Bool) → List A → List A
remove p [] = []
remove p (x ∷ xs) = let rest = remove p xs in if p x then rest else x ∷ rest
