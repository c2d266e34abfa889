-- ===== src/Email/Examples.antt =====
-- Email addresses at concrete texts.
use maubase.Prelude.{◌≡◌, ◌↔◌, refl, Text, codes, true, map}
use maubase.Email.{
  Unicode, is_ascii, normalize_email, email_re, lower_byte, trim_left, trim_right, is_space,
  after_local, is_domain, all_email_bytes, has_dot, is_email_byte, to_lower, trim_space,
}
use maubase.Email.Normal.{normalize_email_lem}
use maubase.Email.Shape.{IsEmail, email_re-iff-IsEmail}

abbrev typed : Text
typed = codes " Ana@Example.org "

abbrev unicode : Unicode
unicode = record { to_lower = λ s. s; trim_space = λ s. s }

typed_ascii : is_ascii typed ≡ true
unfolding is_ascii
typed_ascii = refl

typed_normal : normalize_email unicode typed ≡ codes "ana@example.org"
unfolding normalize_email to_lower trim_space is_ascii trim_left trim_right is_space lower_byte
typed_normal = refl

typed_matches : email_re (codes "ana@example.org") ≡ true
unfolding email_re after_local is_domain all_email_bytes has_dot is_email_byte
typed_matches = refl

normalize_email_lem_example :
    normalize_email unicode typed ≡ map lower_byte (trim_right (trim_left typed))
normalize_email_lem_example = normalize_email_lem unicode typed typed_ascii

email_re-iff-IsEmail_example :
    (email_re (codes "ana@example.org") ≡ true) ↔ IsEmail (codes "ana@example.org")
email_re-iff-IsEmail_example = email_re-iff-IsEmail (codes "ana@example.org")
