-- ===== src/Email/Normal.antt =====
-- `normalizeEmail` on ASCII texts.
use maubase.Prelude.{
  length, ◌≤◌, ℕ, ◌≡◌, refl, ap, Text, true, false, [], ◌∷◌, map, arith, Bool-cases, inl, inr,
}
use maubase.Email.{
  Unicode, is_ascii, is_space, lower_byte, trim_left, cons_right, trim_right, to_lower, trim_space,
  normalize_email,
}

lower_byte_idem : (b : ℕ) → lower_byte (lower_byte b) ≡ lower_byte b
unfolding lower_byte
lower_byte_idem b = ground arith

is_space-lower_byte : (b : ℕ) → is_space (lower_byte b) ≡ is_space b
unfolding lower_byte is_space
is_space-lower_byte b = ground arith

map-lower_byte_idem : (s : Text) → map lower_byte (map lower_byte s) ≡ map lower_byte s
map-lower_byte_idem [] = refl
map-lower_byte_idem (b ∷ s) = cc (lower_byte_idem b, map-lower_byte_idem s)

is_ascii-map : (s : Text) → is_ascii s ≡ true → is_ascii (map lower_byte s) ≡ true
unfolding is_ascii lower_byte
is_ascii-map [] h = refl
is_ascii-map (b ∷ s) h = ground (arith, is_ascii-map s)

trim_left-map : (s : Text) → trim_left (map lower_byte s) ≡ map lower_byte (trim_left s)
unfolding trim_left
trim_left-map [] = refl
trim_left-map (b ∷ s) =
    rw is_space-lower_byte
      (elim (Bool-cases (is_space b)) [ inl e ↦ rw e (trim_left-map s) | inr e ↦ rw e ])

cons_right-map :
    (b : ℕ) (s : Text)
    → cons_right (lower_byte b) (map lower_byte s) ≡ map lower_byte (cons_right b s)
cons_right-map b [] =
    rw is_space-lower_byte (elim (Bool-cases (is_space b)) [ inl e ↦ rw e | inr e ↦ rw e ])
cons_right-map b (c ∷ s) = refl

trim_right-map : (s : Text) → trim_right (map lower_byte s) ≡ map lower_byte (trim_right s)
unfolding trim_right
trim_right-map [] = refl
trim_right-map (b ∷ s) = rw (trim_right-map s) (cons_right-map b (trim_right s))

is_ascii-trim_left : (s : Text) → is_ascii s ≡ true → is_ascii (trim_left s) ≡ true
unfolding is_ascii trim_left
is_ascii-trim_left [] h = refl
is_ascii-trim_left (b ∷ s) h = ground (arith, is_ascii-trim_left s)

is_ascii-trim_right : (s : Text) → is_ascii s ≡ true → is_ascii (trim_right s) ≡ true
unfolding is_ascii trim_right
is_ascii-trim_right [] h = refl
is_ascii-trim_right (b ∷ s) h = ground (arith, is_ascii-trim_right s)

trim_left_idem : (s : Text) → trim_left (trim_left s) ≡ trim_left s
unfolding trim_left
trim_left_idem [] = refl
trim_left_idem (b ∷ s) = ground (arith, trim_left_idem s)

trim_right_idem : (s : Text) → trim_right (trim_right s) ≡ trim_right s
unfolding trim_right
trim_right_idem [] = refl
trim_right_idem (b ∷ s) = ground (arith, trim_right_idem s)

length-trim_left : (s : Text) → length (trim_left s) ≤ length s
unfolding trim_left
length-trim_left [] = omega arith
length-trim_left (b ∷ s) = ground (arith, length-trim_left s)

not_space : (b : ℕ) (s : Text) → trim_left (b ∷ s) ≡ b ∷ s → is_space b ≡ false
unfolding trim_left
not_space b s h = elim (Bool-cases (is_space b)) [
  | inl e ↦ absurd (omega (arith, ap length (rw e at h), length-trim_left s))
  | inr e ↦ e
]

keep_first : (b : ℕ) (s : Text) → is_space b ≡ false → trim_left (cons_right b s) ≡ cons_right b s
unfolding trim_left
keep_first b [] h = rw (h, h)
keep_first b (c ∷ s) h = rw h

-- A text that starts with no white space keeps its first byte.
trim_left-trim_right : (s : Text) → trim_left s ≡ s → trim_left (trim_right s) ≡ trim_right s
unfolding trim_right
trim_left-trim_right [] h = unfold trim_left in refl
trim_left-trim_right (b ∷ s) h = keep_first b (trim_right s) (not_space b s h)

module _ (u : Unicode) (s : Text) (ascii : is_ascii s ≡ true) where
  trim_space_ascii : trim_space u s ≡ trim_right (trim_left s)
  unfolding trim_space
  trim_space_ascii = rw ascii

  is_ascii-trim : is_ascii (trim_right (trim_left s)) ≡ true
  is_ascii-trim = is_ascii-trim_right (trim_left s) (is_ascii-trim_left s ascii)

  -- On an ASCII address normalizing trims both ends and lowers every byte.
  pub normalize_email_lem : normalize_email u s ≡ map lower_byte (trim_right (trim_left s))
  unfolding normalize_email
  normalize_email_lem = rw (trim_space_ascii, to_lower, is_ascii-trim)

trim_idem :
    (s : Text) → trim_right (trim_left (trim_right (trim_left s))) ≡ trim_right (trim_left s)
trim_idem s =
    rw (trim_left-trim_right (trim_left s) (trim_left_idem s)) (trim_right_idem (trim_left s))

-- On an ASCII address, normalizing twice is normalizing once.
normalize_email_idem :
    (u : Unicode) (s : Text)
    → is_ascii s ≡ true
    → normalize_email u (normalize_email u s) ≡ normalize_email u s
normalize_email_idem u s h =
    rw (normalize_email_lem u s h, normalize_email_lem u _ (is_ascii-map _ (is_ascii-trim u s h)))
      (rw
        (
          trim_left-map (trim_right (trim_left s)),
          trim_right-map (trim_left (trim_right (trim_left s))),
          trim_idem s,
        )
        (map-lower_byte_idem (trim_right (trim_left s))))

-- Two ASCII addresses that differ only in the case of their letters normalize alike.
normalize_email_case :
    (u : Unicode) (s t : Text)
    → is_ascii s ≡ true
    → is_ascii t ≡ true
    → map lower_byte s ≡ map lower_byte t
    → normalize_email u s ≡ normalize_email u t
normalize_email_case u s t hs ht e =
    rw (normalize_email_lem u s hs, normalize_email_lem u t ht)
      (rw (
        ← trim_right-map (trim_left s),
        ← trim_left-map s,
        e,
        trim_left-map t,
        trim_right-map (trim_left t),
      ))
