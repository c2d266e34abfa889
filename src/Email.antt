-- ===== src/Email.antt =====
-- internal/auth/service.go and internal/ownerauth/service.go: `normalizeEmail` and `emailRe`, which
-- the two packages declare alike.
pub mod Normal
pub mod Shape
pub mod Examples
use maubase.Prelude.{
  ℕ, ◌+◌, Text, Bool, true, false, not, ◌&&◌, ◌||◌, List, [], ◌∷◌, map, ltb, leb, eqb,
  if◌then◌else◌,
}

-- What strings.ToLower and strings.TrimSpace do to a text with a byte above 127. Both take a path
-- of their own for ASCII, which is modelled below.
pub record Unicode : Type 0 where
  pub to_lower : Text → Text
  pub trim_space : Text → Text

unfoldable pub is_ascii : Text → Bool
is_ascii [] = true
is_ascii (b ∷ s) = ltb b 128 && is_ascii s

-- '\t', '\n', '\v', '\f', '\r', ' '
unfoldable pub is_space : ℕ → Bool
is_space b = (leb 9 b && leb b 13) || eqb b 32

unfoldable pub lower_byte : ℕ → ℕ
lower_byte b = if leb 65 b && leb b 90 then b + 32 else b

unfoldable pub trim_left : Text → Text
unfolding is_space
trim_left [] = []
trim_left (b ∷ s) = let rest = trim_left s in if is_space b then rest else b ∷ s

abbrev pub cons_right : ℕ → Text → Text
cons_right b [] = if is_space b then [] else b ∷ []
cons_right b (c ∷ s) = b ∷ c ∷ s

unfoldable pub trim_right : Text → Text
unfolding is_space
trim_right [] = []
trim_right (b ∷ s) = cons_right b (trim_right s)

unfoldable pub to_lower : Unicode → Text → Text
unfolding is_ascii lower_byte
to_lower u s = if is_ascii s then map lower_byte s else u.to_lower s

unfoldable pub trim_space : Unicode → Text → Text
unfolding is_ascii trim_left trim_right
trim_space u s = if is_ascii s then trim_right (trim_left s) else u.trim_space s

unfoldable pub normalize_email : Unicode → Text → Text
unfolding to_lower trim_space
normalize_email u email = to_lower u (trim_space u email)

-- [^\s@]: RE2's \s has no '\v'.
unfoldable pub is_email_byte : ℕ → Bool
is_email_byte b = not (eqb b 9 || eqb b 10 || eqb b 12 || eqb b 13 || eqb b 32 || eqb b b'@')

unfoldable pub all_email_bytes : Text → Bool
unfolding is_email_byte
all_email_bytes [] = true
all_email_bytes (b ∷ s) = is_email_byte b && all_email_bytes s

-- A dot with a byte on its right, past the first byte.
abbrev pub nonempty : Text → Bool
nonempty [] = false
nonempty (b ∷ s) = true

unfoldable pub has_dot : Text → Bool
has_dot [] = false
has_dot (b ∷ s) = (eqb b b'.' && nonempty s) || has_dot s

abbrev pub dot_inside : Text → Bool
dot_inside [] = false
dot_inside (b ∷ s) = has_dot s

-- What follows '@'.
unfoldable pub is_domain : Text → Bool
unfolding all_email_bytes has_dot
is_domain s = all_email_bytes s && dot_inside s

-- `seen`: whether a byte stands before this one.
unfoldable pub after_local : Bool → Text → Bool
unfolding is_domain is_email_byte
after_local seen [] = false
after_local seen (b ∷ s) =
    let rest = after_local true s in
    if eqb b b'@' then seen && is_domain s else if is_email_byte b then rest else false

-- ^[^\s@]+@[^\s@]+\.[^\s@]+$
unfoldable pub email_re : Text → Bool
unfolding after_local
email_re s = after_local false s
