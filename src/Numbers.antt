-- ===== src/Numbers.antt =====
-- strconv.Atoi, as internal/db and internal/storage use it.
use maubase.Prelude.{
  ℕ, ◌+◌, ◌-◌, ◌*◌, Text, Bool, ◌&&◌, Option, none, some, [], ◌∷◌, ltb, leb, eqb, if◌then◌else◌,
}

-- [0-9]
abbrev pub is_digit : ℕ → Bool
is_digit b = leb 48 b && leb b 57

-- The number that digits write; none where another byte stands among them.
unfoldable pub digits : ℕ → Text → Option ℕ
digits n [] = some n
digits n (b ∷ s) = let rest = digits (n * 10 + (b - 48)) s in if is_digit b then rest else none

-- strconv.Atoi, where the answer is not negative: a number of 64 bits with its sign. A negative
-- number is none here: it is the number of no file.
abbrev pub in_range : Option ℕ → Option ℕ
in_range none = none
in_range (some n) = if ltb n (9223372036854775808) then some n else none

abbrev pub zero_only : Option ℕ → Option ℕ
zero_only none = none
zero_only (some n) = if eqb n 0 then some 0 else none

abbrev pub unsigned : Text → Option ℕ
unsigned [] = none
unsigned (b ∷ s) = in_range (digits 0 (b ∷ s))

unfoldable pub atoi : Text → Option ℕ
unfolding digits
atoi [] = none
atoi (b ∷ s) =
    if eqb b b'+'
    then unsigned s
    else if eqb b b'-'
    then zero_only (unsigned s)
    else unsigned (b ∷ s)
