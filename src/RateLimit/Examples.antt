-- ===== src/RateLimit/Examples.antt =====
-- The limiter at concrete attempts.
use maubase.Prelude.{
  ◌+◌, ◌-◌, ◌≡◌, refl, min, Text, codes, ◌==◌, true, false, none, List, [], ◌∷◌, arith, lookup, inl,
  delete, exists, IsMap,
}
use maubase.RateLimit.{Limiter, create, allow}
use maubase.RateLimit.Windows.{Attempt, answers, tries, granted, granted_window}
use maubase.RateLimit.Waiting.{after, allow-after}
use maubase.RateLimit.Sweep.{answers_memory, answers-eq-answers_memory}

abbrev home : Text
home = codes "10.0.0.1"

abbrev away : Text
away = codes "10.0.0.2"

abbrev burst : List Attempt
burst = (home, 101) ∷ (away, 102) ∷ (home, 103) ∷ (home, 159) ∷ []

abbrev two_a_minute : Limiter
two_a_minute = record { limit = 2; window = 60; buckets = [] }

burst_permits :
    answers two_a_minute ((home, 100) ∷ burst)
    ≡ (true, 0) ∷ (true, 0) ∷ (true, 0) ∷ (false, 57) ∷ (false, 1) ∷ []
unfolding answers allow lookup delete ◌==◌
burst_permits = refl

granted_window_example :
    granted home two_a_minute ((home, 100) ∷ burst) ≡ 1 + min (tries home burst) (2 - 1)
unfolding lookup
granted_window_example = granted_window two_a_minute home 100 burst tt (inl refl) (omega arith)

two_keys : IsMap (after two_a_minute ((home, 100) ∷ (home, 101) ∷ [])).buckets
unfolding allow after lookup delete exists ◌==◌
two_keys = (refl, tt)

-- The third attempt of the minute is refused for 57 more, and another address may go on.
home_refused :
    (allow (after two_a_minute ((home, 100) ∷ (home, 101) ∷ [])) home 103).1 ≡ (false, 57)
unfolding allow after lookup delete ◌==◌
home_refused = refl

allow-after_example :
    (allow
      (after
        (allow (after two_a_minute ((home, 100) ∷ (home, 101) ∷ [])) home 103).0
        ((away, 110) ∷ []))
      home
      160).1
    ≡ (true, 0)
allow-after_example =
    allow-after (after two_a_minute ((home, 100) ∷ (home, 101) ∷ [])) home 103 57 160
      ((away, 110) ∷ []) two_keys home_refused (omega arith) (omega arith)

answers-eq-answers_memory_example :
    answers (create 2 60) ((home, 100) ∷ burst)
    ≡ answers_memory 60 2 (λ j. none) ((home, 100) ∷ burst)
answers-eq-answers_memory_example =
    answers-eq-answers_memory 2 60 ((home, 100) ∷ burst) (omega arith)

-- A limit of 0 still permits the attempt that opens a window.
zero_limit_permits :
    (allow (record { limit = 0; window = 60; buckets = [] }) home 100).1 ≡ (true, 0)
unfolding allow lookup
zero_limit_permits = refl
