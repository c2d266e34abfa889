-- ===== src/Crypto.antt =====
-- What the two account services take from packages that are not modelled, and what each call draws.
use maubase.Prelude.{ℕ, Text, Bool, Option}

-- bcrypt.GenerateFromPassword (no answer where it fails), bcrypt.CompareHashAndPassword, and the
-- hexadecimal SHA-256 of a token.
pub record Crypto : Type 0 where
  pub hash_password : Text → Option Text
  pub verify_password : Text → Text → Bool
  pub hash_token : Text → Text

-- time.Now, uuid.NewString and randomToken (no answer where rand.Read fails) at one call.
pub record Fresh : Type 0 where
  pub now : ℕ
  pub id : Text
  pub token : Option Text
