-- ===== src/RateLimit/Sweep.antt =====
-- Forgetting the windows that have ended is invisible: the limiter answers as one would that
-- remembers every window it ever opened.
use maubase.Prelude.{
  ℕ, suc, ◌+◌, ◌-◌, ◌≤◌, ◌≡◌, refl, sym, ap, ap₂, subst, ◌∙◌, Text, ◌==◌, true, false, Option, none,
  some, List, [], ◌∷◌, ltb, if◌then◌else◌, arith, Bool-cases, Option-cases, inl, inr, lookup,
  keep_value, IsMap,
}
use maubase.RateLimit.{Bucket, Limiter, elapsed, Answer, create, open_window, attempt, allow}
use maubase.RateLimit.Windows.{
  Attempt, answers, bump, open_window-Leaves, attempt-Leaves, allow_new, allow_live, allow-elapsed,
}

-- The specification: the last window of each key, never forgotten.
abbrev pub Memory : Type 0
Memory = Text → Option Bucket

abbrev pub remember : Memory → Text → Bucket → Memory
remember s k b j = if k == j then some b else s j

abbrev runs : ℕ → ℕ → Option Bucket → Option Bucket
runs w now = keep_value (elapsed w now)

abbrev after : ℕ → Option Bucket → Bucket
after now none = record { count = 1; window_start = now }
after now (some b) = bump b

abbrev reply : ℕ → ℕ → ℕ → Option Bucket → Answer
reply w n now none = (true, 0)
reply w n now (some b) =
    if ltb n (suc b.count) then (false, b.window_start + w - now) else (true, 0)

-- One attempt: count it in the window that runs, or open a window.
unfoldable pub allow_memory : ℕ → ℕ → Memory → Text → ℕ → Memory × Answer
allow_memory w n s k now =
    (remember s k (after now (runs w now (s k))), reply w n now (runs w now (s k)))

unfoldable pub answers_memory : ℕ → ℕ → Memory → List Attempt → List Answer
answers_memory w n s [] = []
answers_memory w n s ((k, now) ∷ rest) =
    let (s', a) = allow_memory w n s k now in a ∷ answers_memory w n s' rest

-- The attempts come in the order of their times, from `now` on.
abbrev pub InOrder : ℕ → List Attempt → Type 0
InOrder now [] = Unit
InOrder now ((k, t) ∷ rest) = (now ≤ t) × InOrder t rest

-- The two agree on every window that runs at `now` or later.
record Agrees (w n now : ℕ) (l : Limiter) (s : Memory) : Type 0 where
  window : l.window ≡ w
  limit : l.limit ≡ n
  map : IsMap l.buckets
  same : (j : Text) → runs w now (lookup j l.buckets) ≡ runs w now (s j)

runs_later : (w now t : ℕ) (o : Option Bucket) → now ≤ t → runs w t (runs w now o) ≡ runs w t o
runs_later w now t o h = ground arith

Agrees-later :
    (w n now t : ℕ) (l : Limiter) (s : Memory) → now ≤ t → Agrees w n now l s → Agrees w n t l s
Agrees-later w n now t l s h g = record {
  window = g.window;
  limit = g.limit;
  map = g.map;
  same = λ j.
      sym (runs_later w now t (lookup j l.buckets) h)
      ∙ ap (runs w t) (g.same j)
      ∙ runs_later w now t (s j) h;
}

-- What one call of the limiter does, in the words of the specification.
record Mirrors (w n now : ℕ) (l : Limiter) (k : Text) (r : Limiter × Answer) : Type 0 where
  window : r.0.window ≡ w
  limit : r.0.limit ≡ n
  map : IsMap r.0.buckets
  answer : r.1 ≡ reply w n now (runs w now (lookup k l.buckets))
  found :
      (j : Text)
      → runs w now (lookup j r.0.buckets)
        ≡ runs w now (
            if k == j
            then some (after now (runs w now (lookup k l.buckets)))
            else lookup j l.buckets)

module _ (l : Limiter) (k : Text) (now : ℕ) (u : IsMap l.buckets) where
  open_Mirrors :
      runs l.window now (lookup k l.buckets) ≡ none
      → Mirrors l.window l.limit now l k (open_window l k now)
  unfolding open_window
  open_Mirrors idle =
      let left = open_window-Leaves l k now u in
      record {
        window = refl;
        limit = refl;
        map = left.map;
        answer = rw idle;
        found = λ j.
            ap (runs l.window now) (left.found j)
            ∙ rw idle (elim (Bool-cases (k == j)) [
              | inl e ↦ rw e
              | inr e ↦ rw e (runs_later l.window now now (lookup j l.buckets) (omega arith))
            ]);
      }

  attempt-Mirrors :
      (b : Bucket)
      → runs l.window now (lookup k l.buckets) ≡ some b
      → Mirrors l.window l.limit now l k (attempt l k now b)
  unfolding attempt
  attempt-Mirrors b live =
      let left = attempt-Leaves l k now u b in
      record {
        window = refl;
        limit = refl;
        map = left.map;
        answer = rw live;
        found = λ j. ap (runs l.window now) (left.found j) ∙ rw live;
      }

  allow-Mirrors : Mirrors l.window l.limit now l k (allow l k now)
  allow-Mirrors = elim (Option-cases (lookup k l.buckets)) [
    | inl e ↦ rw (allow_new l k now e) (open_Mirrors (rw e))
    | inr (b, e) ↦ elim (Bool-cases (elapsed l.window now b)) [
      | inl t ↦ rw (allow-elapsed l k now b e t) (open_Mirrors (rw (e, t)))
      | inr f ↦ rw (allow_live l k now b e f) (attempt-Mirrors b (rw (e, f)))
    ]
  ]

module _ (w n now : ℕ) (l : Limiter) (s : Memory) (k : Text) (g : Agrees w n now l s) where
  mirrors : Mirrors w n now l k (allow l k now)
  mirrors =
      subst (λ (x : ℕ). Mirrors x n now l k (allow l k now)) g.window
        (subst (λ (x : ℕ). Mirrors l.window x now l k (allow l k now)) g.limit
          (allow-Mirrors l k now g.map))

  answer_same : (allow l k now).1 ≡ (allow_memory w n s k now).1
  unfolding allow_memory
  answer_same = mirrors.answer ∙ ap (reply w n now) (g.same k)

  after_Agrees : Agrees w n now (allow l k now).0 (allow_memory w n s k now).0
  unfolding allow_memory
  after_Agrees = record {
    window = mirrors.window;
    limit = mirrors.limit;
    map = mirrors.map;
    same = λ j.
        mirrors.found j
        ∙ elim (Bool-cases (k == j)) [ inl e ↦ rw (e, g.same k) | inr e ↦ rw e (g.same j) ];
  }

Agrees-answers :
    (w n now : ℕ) (l : Limiter) (s : Memory) (calls : List Attempt)
    → Agrees w n now l s
    → InOrder now calls
    → answers l calls ≡ answers_memory w n s calls
unfolding answers answers_memory
Agrees-answers w n now l s [] g o = refl
Agrees-answers w n now l s ((k, t) ∷ rest) g o =
    let g' = Agrees-later w n now t l s o.0 g in
    ap₂ ◌∷◌ (answer_same w n t l s k g') (
      Agrees-answers w n t (allow l k t).0 (allow_memory w n s k t).0 rest
        (after_Agrees w n t l s k g') o.1)

-- For attempts in the order of their times, a new limiter, which forgets ended windows whenever it
-- opens one, gives the answers of the specification that never forgets.
pub answers-eq-answers_memory :
    (n w : ℕ) (calls : List Attempt)
    → InOrder 0 calls
    → answers (create n w) calls ≡ answers_memory w n (λ j. none) calls
unfolding create
answers-eq-answers_memory n w calls o =
    Agrees-answers w n 0 (create n w) (λ j. none) calls
      (record { window = refl; limit = refl; map = tt; same = λ j. unfold lookup in refl }) o
