-- ===== src/DomainName/Tests.antt =====
-- Runs of `valid`, and its theorem at concrete names.
use authgate.Prelude.{◌≡◌, refl, ◌↔◌, ◌≤◌, true, false, length, All, codes}
use authgate.DomainName.{valid}
use authgate.DomainName.Labels.{IsLabel, split_dots, valid_iff}

plain_name : valid (codes "Mail.example-1.com") ≡ true
unfolding valid
plain_name = refl

bad_names :
    (valid (codes "") ≡ false)
    × (valid (codes "a..b") ≡ false)
    × (valid (codes "a-.b") ≡ false)
    × (valid (codes "-a.b") ≡ false)
    × (valid (codes "a.b.") ≡ false)
    × (valid (codes "a_b") ≡ false)
unfolding valid
bad_names = (refl, refl, refl, refl, refl, refl)

valid_iff_example :
    (valid (codes "a-.b") ≡ true)
    ↔ ((length (codes "a-.b") ≤ 253) × All IsLabel (split_dots (codes "a-.b")))
valid_iff_example = valid_iff (codes "a-.b")
