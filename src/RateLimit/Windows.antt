-- ===== src/RateLimit/Windows.antt =====
-- How many attempts of one key a window lets through, whatever other keys do meanwhile.
use maubase.Prelude.{
  ℕ, suc, ◌+◌, ◌-◌, ◌<◌, ◌≡◌, refl, ap, ◌∙◌, min, Text, ◌==◌, eq_refl, eq→path, true, false, ◌&&◌,
  Option, none, some, List, [], ◌∷◌, leb, if◌then◌else◌, arith, Bool-cases, Option-cases, inl, inr,
  ◌⊎◌, lookup, keep_value, lookup-put, lookup-drop_values, put-IsMap, drop_values-IsMap, IsMap, All,
}
use maubase.RateLimit.{
  Bucket, Limiter, elapsed, sweep, Answer, open_window, attempt, with_found, allow,
}

abbrev pub Attempt : Type 0
Attempt = Text × ℕ

-- The answers to a sequence of attempts.
unfoldable pub answers : Limiter → List Attempt → List Answer
answers l [] = []
answers l ((key, now) ∷ rest) = let (l', a) = allow l key now in a ∷ answers l' rest

unfoldable pub tries : Text → List Attempt → ℕ
tries key [] = 0
tries key ((k, now) ∷ rest) = (if k == key then 1 else 0) + tries key rest

-- The attempts of one key that are permitted.
unfoldable pub granted : Text → Limiter → List Attempt → ℕ
granted key l [] = 0
granted key l ((k, now) ∷ rest) =
    let (l', a) = allow l k now in (if (k == key) && a.0 then 1 else 0) + granted key l' rest

abbrev pub bump : Bucket → Bucket
bump b = record b { count = suc b.count }

module _ (l : Limiter) (k : Text) (now : ℕ) (b : Bucket) where
  pub allow_live :
      lookup k l.buckets ≡ some b
      → elapsed l.window now b ≡ false
      → allow l k now ≡ attempt l k now b
  unfolding allow
  allow_live e f = rw (e, with_found) (rw f)

  pub allow-elapsed :
      lookup k l.buckets ≡ some b
      → elapsed l.window now b ≡ true
      → allow l k now ≡ open_window l k now
  unfolding allow
  allow-elapsed e f = rw (e, with_found) (rw f)

pub allow_new :
    (l : Limiter) (k : Text) (now : ℕ)
    → lookup k l.buckets ≡ none
    → allow l k now ≡ open_window l k now
unfolding allow
allow_new l k now e = rw (e, with_found)

-- What each half of Allow leaves: the settings, a map, and at each key what `P` says.
pub record Leaves (w n : ℕ) (l' : Limiter) (P : Text → Option Bucket → Type 0) : Type 0 where
  pub window : l'.window ≡ w
  pub limit : l'.limit ≡ n
  pub map : IsMap l'.buckets
  pub found : (j : Text) → P j (lookup j l'.buckets)

module _ (l : Limiter) (k : Text) (now : ℕ) (u : IsMap l.buckets) where
  pub open_window-Leaves : Leaves l.window l.limit (open_window l k now).0 (λ j o. o ≡ (
      if k == j
      then some (record { count = 1; window_start = now })
      else keep_value (elapsed l.window now) (lookup j l.buckets)))
  unfolding open_window
  open_window-Leaves = record {
    window = refl;
    limit = refl;
    map =
        put-IsMap k (record { count = 1; window_start = now }) (sweep l.window now l.buckets)
          (drop_values-IsMap (elapsed l.window now) l.buckets u);
    found = λ j.
        lookup-put k j (record { count = 1; window_start = now }) (sweep l.window now l.buckets)
        ∙ ap
            (λ (o : Option Bucket).
              if k == j then some (record { count = 1; window_start = now }) else o)
            (lookup-drop_values (elapsed l.window now) j l.buckets u);
  }

  pub attempt-Leaves :
      (b : Bucket)
      → Leaves l.window l.limit
          (attempt l k now b).0
          (λ j o. o ≡ (if k == j then some (bump b) else lookup j l.buckets))
  unfolding attempt
  attempt-Leaves b = record {
    window = refl;
    limit = refl;
    map = put-IsMap k (bump b) l.buckets u;
    found = λ j. lookup-put k j (bump b) l.buckets;
  }

-- A limiter with the settings `w` and `n` whose map has `b` at `key`.
pub record Holds (w n : ℕ) (key : Text) (b : Bucket) (l : Limiter) : Type 0 where
  pub window : l.window ≡ w
  pub limit : l.limit ≡ n
  pub map : IsMap l.buckets
  pub found : lookup key l.buckets ≡ some b

module _ (w n : ℕ) (key : Text) (b : Bucket) (l : Limiter) (h : Holds w n key b l) (k : Text)
    (now : ℕ) where
  open_other :
      (k == key) ≡ false → elapsed w now b ≡ false → Holds w n key b (open_window l k now).0
  open_other other live =
      let left = open_window-Leaves l k now h.map in
      record {
        window = left.window ∙ h.window;
        limit = left.limit ∙ h.limit;
        map = left.map;
        found = left.found key ∙ rw (other, h.found, h.window, live);
      }

  attempt_other : (b' : Bucket) → (k == key) ≡ false → Holds w n key b (attempt l k now b').0
  attempt_other b' other =
      let left = attempt-Leaves l k now h.map b' in
      record {
        window = left.window ∙ h.window;
        limit = left.limit ∙ h.limit;
        map = left.map;
        found = left.found key ∙ rw (other, h.found);
      }

  pub allow_other : (k == key) ≡ false → elapsed w now b ≡ false → Holds w n key b (allow l k now).0
  allow_other other live = elim (Option-cases (lookup k l.buckets)) [
    | inl e ↦ rw (allow_new l k now e) (open_other other live)
    | inr (b', e) ↦ elim (Bool-cases (elapsed l.window now b')) [
      | inl t ↦ rw (allow-elapsed l k now b' e t) (open_other other live)
      | inr f ↦ rw (allow_live l k now b' e f) (attempt_other b' other)
    ]
  ]

-- One more attempt of the key itself.
module _ (w n : ℕ) (key : Text) (b : Bucket) (l : Limiter) (h : Holds w n key b l) (now : ℕ)
    (live : elapsed w now b ≡ false) where
  pub allow_self : allow l key now ≡ attempt l key now b
  allow_self = allow_live l key now b h.found (rw h.window live)

  pub attempt_self : Holds w n key (bump b) (attempt l key now b).0
  attempt_self =
      let left = attempt-Leaves l key now h.map b in
      record {
        window = left.window ∙ h.window;
        limit = left.limit ∙ h.limit;
        map = left.map;
        found = left.found key ∙ rw (eq_refl key);
      }

  attempt_answer : (attempt l key now b).1.0 ≡ leb (suc b.count) n
  unfolding attempt
  attempt_answer = ground (arith, h.limit)

Holds-granted :
    (w n : ℕ) (key : Text) (b : Bucket) (l : Limiter) (calls : List Attempt)
    → Holds w n key b l
    → All (λ a. a.1 < b.window_start + w) calls
    → granted key l calls ≡ min (tries key calls) (n - b.count)
unfolding granted tries
Holds-granted w n key b l [] h within = omega arith
Holds-granted w n key b l ((k, now) ∷ rest) h within =
    let live : elapsed w now b ≡ false = ground (arith, within.0) in
    elim (Bool-cases (k == key)) [
      | inl same ↦
          rw
            (
              eq→path k key same,
              eq_refl key,
              allow_self w n key b l h now live,
              attempt_answer w n key b l h now live,
            )
            (ground (
              arith,
              Holds-granted w n key (bump b) (attempt l key now b).0 rest
                  (attempt_self w n key b l h now live) within.1,
            ))
      | inr other ↦ rw other (
          omega (
            arith,
            Holds-granted w n key b (allow l k now).0 rest
                (allow_other w n key b l h k now other live) within.1,
          ))
    ]

-- No window of `key` runs at `now`.
abbrev pub IsFresh : Limiter → Text → ℕ → Type 0
IsFresh l key now =
    (lookup key l.buckets ≡ none)
    ⊎ ((b : Bucket) × (lookup key l.buckets ≡ some b) × (elapsed l.window now b ≡ true))

pub allow_fresh :
    (l : Limiter) (key : Text) (now : ℕ)
    → IsFresh l key now
    → allow l key now ≡ open_window l key now
allow_fresh l key now (inl e) = allow_new l key now e
allow_fresh l key now (inr (b, e, t)) = allow-elapsed l key now b e t

open_window-Holds :
    (l : Limiter) (key : Text) (now : ℕ)
    → IsMap l.buckets
    → Holds l.window l.limit key
        (record { count = 1; window_start = now })
        (open_window l key now).0
open_window-Holds l key now u =
    let left = open_window-Leaves l key now u in
    record {
      window = left.window;
      limit = left.limit;
      map = left.map;
      found = left.found key ∙ rw (eq_refl key);
    }

-- Where each key has one bucket at most and no window of `key` runs at `start`: from an attempt at
-- `start` that opens a window of `key`, and through any attempts of any keys before that window
-- ends, as many attempts of `key` are permitted as are made, up to the limit; the opening one is
-- permitted even where the limit is 0.
pub granted_window :
    (l : Limiter) (key : Text) (start : ℕ) (calls : List Attempt)
    → IsMap l.buckets
    → IsFresh l key start
    → All (λ a. a.1 < start + l.window) calls
    → granted key l ((key, start) ∷ calls) ≡ 1 + min (tries key calls) (l.limit - 1)
granted_window l key start calls u fresh within =
    unfold granted open_window in
    rw (eq_refl key, allow_fresh l key start fresh)
      (omega (
        arith,
        Holds-granted l.window l.limit key (record { count = 1; window_start = start })
            (open_window l key start).0 calls (open_window-Holds l key start u) within,
      ))
