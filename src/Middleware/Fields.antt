-- ===== src/Middleware/Fields.antt =====
-- The members of a JSON object as a map: writing one and reading it back.
use authgate.Prelude.{
  ◌≡◌, inl, inr, refl, true, false, none, some, Bytes, bytes_eq, bytes_eq_refl, bytes_eq_iff, arith,
  Bool-cases,
}
use authgate.Signing.Json.{Json, Members, no_members, member, has_name}
use authgate.Signing.Keys.{get_field}
use authgate.Middleware.TokenProfile.{set_field, remove_field}

has_name-remove_field :
    (name other : Bytes) (m : Members)
    → (has_name name (remove_field name m) ≡ false)
      × (bytes_eq other name ≡ false → has_name name (remove_field other m) ≡ has_name name m)
unfolding remove_field
has_name-remove_field name other no_members = (refl, λ e. refl)
has_name-remove_field name other (member key old rest) =
    let (h, k) = has_name-remove_field name other rest in
    (ground (arith, h), λ e. ground (arith, e, k e, bytes_eq_iff key other, bytes_eq_iff key name))

get_field-absent : (name : Bytes) (m : Members) → has_name name m ≡ false → get_field name m ≡ none
unfolding get_field
get_field-absent name no_members e = refl
get_field-absent name (member key old rest) e = ground (arith, e)

get_field-remove_field :
    (name other : Bytes) (m : Members)
    → bytes_eq other name ≡ false
    → get_field name (remove_field other m) ≡ get_field name m
unfolding remove_field get_field
get_field-remove_field name other no_members e = refl
get_field-remove_field name other (member key old rest) e = elim (Bool-cases (has_name name rest)) [
  | inl later ↦ ground (
    arith,
    e,
    later,
    get_field-remove_field name other rest e,
    (has_name-remove_field name other rest).1 e,
    bytes_eq_iff key other,
    bytes_eq_iff key name,
  )
  | inr last ↦ ground (
    arith,
    e,
    last,
    get_field-remove_field name other rest e,
    get_field-absent name rest last,
    (has_name-remove_field name other rest).1 e,
    bytes_eq_iff key other,
    bytes_eq_iff key name,
  )
]

has_name-set_field :
    (name other : Bytes) (v : Json) (m : Members)
    → (has_name name (set_field name v m) ≡ true)
      × (bytes_eq other name ≡ false → has_name name (set_field other v m) ≡ has_name name m)
unfolding set_field
has_name-set_field name other v no_members =
    (ground (arith, bytes_eq_refl name), λ e. ground (arith, e))
has_name-set_field name other v (member key old rest) =
    let (h, k) = has_name-set_field name other v rest in
    (
      ground (arith, h, bytes_eq_refl name),
      λ e. ground (
        arith,
        e,
        k e,
        (has_name-remove_field name other rest).1 e,
        bytes_eq_iff key other,
        bytes_eq_iff key name,
      ),
    )

-- A member that is written is read, and no other changes.
pub get_field-set_field :
    (name other : Bytes) (v : Json) (m : Members)
    → (get_field name (set_field name v m) ≡ some v)
      × (bytes_eq other name ≡ false → get_field name (set_field other v m) ≡ get_field name m)
unfolding set_field get_field
get_field-set_field name other v no_members =
    (ground (arith, bytes_eq_refl name), λ e. ground (arith, e))
get_field-set_field name other v (member key old rest) =
    let (h, k) = get_field-set_field name other v rest in
    (
      ground (
        arith,
        h,
        bytes_eq_refl name,
        (has_name-remove_field name other rest).0,
        (has_name-set_field name other v rest).0,
      ),
      λ e. ground (
        arith,
        e,
        k e,
        (has_name-remove_field name other rest).1 e,
        (has_name-set_field name other v rest).1 e,
        get_field-remove_field name other rest e,
        bytes_eq_iff key other,
        bytes_eq_iff key name,
      ),
    )
