-- ===== src/Email/Shape.antt =====
-- `emailRe` decides the language that its pattern describes.
use maubase.Prelude.{
  ◌≡◌, refl, ap, ◌∙◌, Text, Bool, true, false, ◌&&◌, ◌||◌, ◌↔◌, [], ◌∷◌, ◌++◌, eqb, arith,
  Bool-cases, inl, inr, ℕ, All,
}
use maubase.Email.{
  is_email_byte, all_email_bytes, nonempty, has_dot, is_domain, after_local, email_re,
}

-- Neither a tab, a line feed, a form feed, a carriage return, a space nor '@': [^\s@].
abbrev pub IsPlain : ℕ → Type 0
IsPlain b =
    (eqb b 9 ≡ false)
    × (eqb b 10 ≡ false)
    × (eqb b 12 ≡ false)
    × (eqb b 13 ≡ false)
    × (eqb b 32 ≡ false)
    × (eqb b 64 ≡ false)

-- [^\s@]+
pub record IsWord (s : Text) : Type 0 where
  pub filled : s ≡ [] → ⊥
  pub bytes : All IsPlain s

-- The matcher's own test of the bytes of a word.
record IsMatched (s : Text) : Type 0 where
  pub filled : nonempty s ≡ true
  pub bytes : all_email_bytes s ≡ true

all_email_bytes_sound : (s : Text) → all_email_bytes s ≡ true → All IsPlain s
unfolding all_email_bytes is_email_byte
all_email_bytes_sound [] h = tt
all_email_bytes_sound (b ∷ s) h = (
  (ground arith, ground arith, ground arith, ground arith, ground arith, ground arith),
  all_email_bytes_sound s (ground arith),
)

all_email_bytes_complete : (s : Text) → All IsPlain s → all_email_bytes s ≡ true
unfolding all_email_bytes is_email_byte
all_email_bytes_complete [] h = refl
all_email_bytes_complete (b ∷ s) ((ht, lf, ff, cr, space, at), h) =
    ground (arith, ht, lf, ff, cr, space, at, all_email_bytes_complete s h)

IsMatched-IsWord : (s : Text) → IsMatched s → IsWord s
IsMatched-IsWord s m = record {
  filled = λ e. absurd (cc (m.filled, ap nonempty e));
  bytes = all_email_bytes_sound s m.bytes;
}

IsWord-IsMatched : (s : Text) → IsWord s → IsMatched s
IsWord-IsMatched [] w = absurd (w.filled refl)
IsWord-IsMatched (b ∷ s) w = record {
  filled = refl;
  bytes = all_email_bytes_complete (b ∷ s) w.bytes;
}

-- A text of the pattern's shape: words on both sides of '@', a dot between two words on its right.
abbrev pub IsEmail : Text → Type 0
IsEmail s =
    (local : Text) × (host : Text) × (tld : Text) × IsWord local
    × IsWord host
    × IsWord tld
    × (s ≡ local ++ b'@' ∷ (host ++ b'.' ∷ tld))

all_email_bytes-append :
    (s t : Text) → all_email_bytes (s ++ t) ≡ (all_email_bytes s && all_email_bytes t)
unfolding all_email_bytes
all_email_bytes-append [] t = refl
all_email_bytes-append (b ∷ s) t = ground (arith, all_email_bytes-append s t)

has_dot-intro : (s t : Text) → nonempty t ≡ true → has_dot (s ++ b'.' ∷ t) ≡ true
unfolding has_dot
has_dot-intro [] t h = ground arith
has_dot-intro (b ∷ s) t h = ground (arith, has_dot-intro s t h)

has_dot-elim :
    (s : Text)
    → has_dot s ≡ true
    → (d : Text) × (e : Text) × (nonempty e ≡ true) × (s ≡ d ++ b'.' ∷ e)
unfolding has_dot
has_dot-elim [] h = cc
has_dot-elim (b ∷ s) h = elim (Bool-cases (eqb b b'.' && nonempty s)) [
  | inl e ↦ ([], s, ground arith, ground arith)
  | inr e ↦
      let ih : (d : Text) × (e : Text) × (nonempty e ≡ true) × (s ≡ d ++ b'.' ∷ e) =
        has_dot-elim s (ground arith) in
      (b ∷ ih.0, ih.1, ih.2, ap (◌∷◌ b) ih.3)
]

after_local-intro :
    (seen : Bool) (s t : Text)
    → all_email_bytes s ≡ true
    → after_local seen (s ++ b'@' ∷ t) ≡ ((seen || nonempty s) && is_domain t)
unfolding after_local all_email_bytes
after_local-intro seen [] t h = ground arith
after_local-intro seen (b ∷ s) t h = ground (arith, after_local-intro true s t)

after_local-elim :
    (seen : Bool) (s : Text)
    → after_local seen s ≡ true
    → (l : Text) × (t : Text) × (all_email_bytes l ≡ true)
      × ((seen || nonempty l) ≡ true)
      × (is_domain t ≡ true)
      × (s ≡ l ++ b'@' ∷ t)
unfolding after_local all_email_bytes
after_local-elim seen [] h = cc
after_local-elim seen (b ∷ s) h = elim (Bool-cases (eqb b b'@')) [
  | inl e ↦ ([], s, refl, ground arith, ground arith, ground arith)
  | inr e ↦
      let ih : (l : Text) × (t : Text) × (all_email_bytes l ≡ true)
          × ((true || nonempty l) ≡ true)
          × (is_domain t ≡ true)
          × (s ≡ l ++ b'@' ∷ t) =
        after_local-elim true s (ground arith) in
      (
        b ∷ ih.0,
        ih.1,
        ground (arith, ih.2),
        ground arith,
        ih.4,
        ap (◌∷◌ b) {y = ih.0 ++ b'@' ∷ ih.1} ih.5,
      )
]

is_domain-intro : (s t : Text) → IsMatched s → IsMatched t → is_domain (s ++ b'.' ∷ t) ≡ true
unfolding is_domain all_email_bytes
is_domain-intro [] t hs ht = cc (hs.filled)
is_domain-intro (b ∷ s) t hs ht =
    ground
      (arith, hs.bytes, ht.bytes, all_email_bytes-append s (b'.' ∷ t), has_dot-intro s t ht.filled)

is_domain-elim :
    (s : Text)
    → is_domain s ≡ true
    → (h : Text) × (t : Text) × IsMatched h × IsMatched t × (s ≡ h ++ b'.' ∷ t)
unfolding is_domain all_email_bytes
is_domain-elim [] h = cc
is_domain-elim (b ∷ s) h =
    let found : (d : Text) × (e : Text) × (nonempty e ≡ true) × (s ≡ d ++ b'.' ∷ e) =
      has_dot-elim s (ground arith) in
    let parts : all_email_bytes (found.0 ++ b'.' ∷ found.1) ≡ true =
      rw (← found.3) (ground arith) in
    let split : (all_email_bytes found.0 && all_email_bytes (b'.' ∷ found.1)) ≡ true =
      rw (all_email_bytes-append found.0 (b'.' ∷ found.1)) at parts in
    (
      b ∷ found.0,
      found.1,
      record { filled = refl; bytes = ground (arith, split) },
      record { filled = found.2; bytes = ground (arith, split) },
      ap (◌∷◌ b) {y = found.0 ++ b'.' ∷ found.1} found.3,
    )

-- emailRe matches exactly the texts that are a word, '@', a word, '.' and a word, where a word has
-- at least one byte, and none that is a tab, a line feed, a form feed, a carriage return, a space
-- or '@'.
pub email_re-iff-IsEmail : (s : Text) → (email_re s ≡ true) ↔ IsEmail s
unfolding email_re
email_re-iff-IsEmail s = (sound, complete)
  where
    sound : after_local false s ≡ true → IsEmail s
    sound h =
        let (l, t, bytes, filled, domain, e) = after_local-elim false s h in
        let (a, b, host, tld, e') = is_domain-elim t domain in
        (
          l,
          a,
          b,
          IsMatched-IsWord l (record { filled = filled; bytes = bytes }),
          IsMatched-IsWord a host,
          IsMatched-IsWord b tld,
          e ∙ ap (λ (x : Text). l ++ b'@' ∷ x) e',
        )

    complete : IsEmail s → after_local false s ≡ true
    complete (l, a, b, local, host, tld, e) =
        let word = IsWord-IsMatched l local in
        rw (
          e,
          after_local-intro false l (a ++ b'.' ∷ b) word.bytes,
          word.filled,
          is_domain-intro a b (IsWord-IsMatched a host) (IsWord-IsMatched b tld),
        )
