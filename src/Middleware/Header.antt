-- ===== src/Middleware/Header.antt =====
-- The header of an HTTP response, as net/http keeps it.
use authgate.Prelude.{
  ◌≡◌, refl, false, Option, none, some, List, [], ◌∷◌, ◌++◌, String, str_eq, eq_iff, if◌then◌else◌,
  arith,
}

-- http.Header by the canonical names.
abbrev pub Header : Type 0
Header = List (String × List String)

unfoldable pub del : String → Header → Header
del name [] = []
del name ((other, values) ∷ rest) =
    let kept = del name rest in if str_eq other name then kept else (other, values) ∷ kept

unfoldable pub set : String → List String → Header → Header
unfolding del
set name values header = (name, values) ∷ del name header

unfoldable pub copy_header : Header → Header → Header
unfolding del
copy_header [] header = header
copy_header ((name, values) ∷ rest) header = copy_header rest (set name values header)

abbrev pub values_of : String → Header → Option (List String)
values_of name [] = none
values_of name ((other, values) ∷ rest) =
    let later = values_of name rest in if str_eq other name then some values else later

abbrev pub or_none : Option (List String) → List String
or_none none = []
or_none (some values) = values

-- `Add`.
unfoldable pub add : String → String → Header → Header
unfolding set del
add name value header = set name (or_none (values_of name header) ++ value ∷ []) header

values_of-del :
    (name other : String) (h : Header)
    → (values_of name (del name h) ≡ none)
      × (str_eq other name ≡ false → values_of name (del other h) ≡ values_of name h)
unfolding del
values_of-del name other [] = (refl, λ e. refl)
values_of-del name other ((key, values) ∷ rest) =
    let (gone, kept) = values_of-del name other rest in
    (
      ground (arith, gone),
      λ e. ground (arith, e, kept e, eq_iff key other, eq_iff key name, eq_iff other name),
    )

pub values_of-del_self : (name : String) (h : Header) → values_of name (del name h) ≡ none
values_of-del_self name h = (values_of-del name name h).0

pub values_of-del_other :
    (name other : String) (h : Header)
    → str_eq other name ≡ false
    → values_of name (del other h) ≡ values_of name h
values_of-del_other name other h e = (values_of-del name other h).1 e

pub values_of-set_self :
    (name : String) (values : List String) (h : Header)
    → values_of name (set name values h) ≡ some values
unfolding set
values_of-set_self name values h = rw ((eq_iff name name).1 refl) refl

pub values_of-set_other :
    (name other : String) (values : List String) (h : Header)
    → str_eq other name ≡ false
    → values_of name (set other values h) ≡ values_of name h
unfolding set
values_of-set_other name other values h e = rw e (values_of-del_other name other h e)

pub values_of-add_other :
    (name other value : String) (h : Header)
    → str_eq other name ≡ false
    → values_of name (add other value h) ≡ values_of name h
unfolding add
values_of-add_other name other value h e = values_of-set_other name other _ h e
