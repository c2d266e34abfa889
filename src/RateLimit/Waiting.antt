-- ===== src/RateLimit/Waiting.antt =====
-- What Retry-After promises.
use maubase.Prelude.{
  ℕ, ◌+◌, ◌-◌, ◌≤◌, ◌<◌, ◌≡◌, refl, sym, ap, subst, ◌∙◌, Text, ◌==◌, eq→path, true, false, List, [],
  ◌∷◌, if◌then◌else◌, arith, Bool-cases, Option-cases, inl, inr, Bool, lookup, IsMap, All,
}
use maubase.RateLimit.{Bucket, Limiter, elapsed, Answer, open_window, attempt, allow}
use maubase.RateLimit.Windows.{
  Attempt, Holds, bump, allow_live, allow-elapsed, allow_new, allow_other, allow_self, attempt_self,
}

-- The limiter after a sequence of attempts.
unfoldable pub after : Limiter → List Attempt → Limiter
after l [] = l
after l ((key, now) ∷ rest) = after (allow l key now).0 rest

-- A window that runs keeps its start while it runs.
Holds-after :
    (w n : ℕ) (key : Text) (b : Bucket) (l : Limiter) (calls : List Attempt)
    → Holds w n key b l
    → All (λ a. a.1 < b.window_start + w) calls
    → (b' : Bucket) × (b'.window_start ≡ b.window_start) × Holds w n key b' (after l calls)
unfolding after
Holds-after w n key b l [] h within = (b, refl, h)
Holds-after w n key b l ((k, now) ∷ rest) h within =
    let live : elapsed w now b ≡ false = ground (arith, within.0) in
    elim (Bool-cases (k == key)) [
      | inl same ↦
          rw (eq→path k key same, allow_self w n key b l h now live)
            (Holds-after w n key (bump b) (attempt l key now b).0 rest
              (attempt_self w n key b l h now live) within.1)
      | inr other ↦
          Holds-after w n key b (allow l k now).0 rest (allow_other w n key b l h k now other live)
            within.1
    ]

refused_inv :
    (over : ℕ) (full : Bool) (wait : ℕ) (a : Answer)
    → a ≡ (if full then (false, over) else (true, 0))
    → a ≡ (false, wait)
    → wait ≡ over
refused_inv over true wait a h k = ap (λ (p : Answer). p.1) (sym k ∙ h)
refused_inv over false wait a h k = absurd (cc (ap (λ (p : Answer). p.0) (sym k ∙ h)))

-- Where each key has one bucket at most: an attempt that is refused says how long to wait, and the
-- first attempt of the same key that comes no earlier than that is permitted, whatever attempts of
-- any keys come during the wait.
pub allow-after :
    (l : Limiter) (key : Text) (now wait t : ℕ) (calls : List Attempt)
    → IsMap l.buckets
    → (allow l key now).1 ≡ (false, wait)
    → All (λ a. a.1 < now + wait) calls
    → now + wait ≤ t
    → (allow (after (allow l key now).0 calls) key t).1 ≡ (true, 0)
allow-after l key now wait t calls u refused before late =
    elim (Option-cases (lookup key l.buckets)) [
      | inl e ↦ absurd (opened (allow_new l key now e))
      | inr (b, e) ↦ elim (Bool-cases (elapsed l.window now b)) [
        | inl over ↦ absurd (opened (allow-elapsed l key now b e over))
        | inr live ↦
            let first : Holds l.window l.limit key b l = record {
              window = refl;
              limit = refl;
              map = u;
              found = e;
            } in
            waited b live (allow_live l key now b e live)
              (attempt_self l.window l.limit key b l first now live)
      ]
    ]
  where
    opened : allow l key now ≡ open_window l key now → ⊥
    opened same = unfold open_window in cc (ap (λ p. p.1.0) (sym same) ∙ ap (λ p. p.0) refused)

    waited :
        (b : Bucket)
        → elapsed l.window now b ≡ false
        → allow l key now ≡ attempt l key now b
        → Holds l.window l.limit key (bump b) (attempt l key now b).0
        → (allow (after (allow l key now).0 calls) key t).1 ≡ (true, 0)
    waited b live same holds =
        unfold attempt open_window in
        let wait_is : wait ≡ b.window_start + l.window - now =
          refused_inv _ _ wait _ (ap (λ p. p.1) same) refused in
        let ends : now + wait ≡ b.window_start + l.window = ground (arith, live, wait_is) in
        let l' = after (attempt l key now b).0 calls in
        let (b', start, holds') =
          Holds-after l.window l.limit key (bump b) (attempt l key now b).0 calls holds
            (subst (λ x. All (λ a. a.1 < x) calls) ends before) in
        let over : elapsed l.window t b' ≡ true = ground (arith, start, ends, late) in
        rw (same, allow-elapsed l' key t b' holds'.found (rw holds'.window over)) refl
