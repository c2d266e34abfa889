-- ===== src/OwnerAuth/Roles.antt =====
-- internal/ownerauth/models.go: the roles and their order. A role is a string that need not be one
-- of the four.
use maubase.Prelude.{
  ℕ, Text, codes, ◌==◌, ◌≡◌, Bool, true, false, Option, none, some, leb, if◌then◌else◌, arith,
}

abbrev pub Role : Type 0
Role = Text

abbrev pub owner : Role
owner = codes "owner"

abbrev pub admin : Role
admin = codes "admin"

abbrev pub developer : Role
developer = codes "developer"

abbrev pub viewer : Role
viewer = codes "viewer"

unfoldable pub rank : Role → Option ℕ
rank r =
    if r == viewer
    then some 1
    else if r == developer
    then some 2
    else if r == admin
    then some 3
    else if r == owner
    then some 4
    else none

abbrev present : Option ℕ → Bool
present none = false
present (some n) = true

unfoldable pub is_valid : Role → Bool
unfolding rank
is_valid r = present (rank r)

abbrev reaches : Option ℕ → Option ℕ → Bool
reaches none m = false
reaches (some n) none = false
reaches (some n) (some m) = leb m n

unfoldable pub at_least : Role → Role → Bool
unfolding rank
at_least r min = reaches (rank r) (rank min)

reaches_trans : (a b c : Option ℕ) → reaches a b ≡ true → reaches b c ≡ true → reaches a c ≡ true
reaches_trans none b c h h' = h
reaches_trans (some n) none c h h' = cc
reaches_trans (some n) (some m) none h h' = h'
reaches_trans (some n) (some m) (some k) h h' = ground arith

pub at_least_trans :
    (r s t : Role) → at_least r s ≡ true → at_least s t ≡ true → at_least r t ≡ true
unfolding at_least
at_least_trans r s t = reaches_trans (rank r) (rank s) (rank t)
