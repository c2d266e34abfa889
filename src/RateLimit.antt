-- ===== src/RateLimit.antt =====
-- internal/ratelimit: the fixed-window limiter of login attempts. Times are instants of Go's
-- monotonic clock, which do not fall.
pub mod Windows
pub mod Sweep
pub mod Waiting
pub mod Examples
use maubase.Prelude.{
  ℕ, suc, ◌+◌, ◌-◌, Text, Bool, true, false, Option, none, some, [], ltb, leb, if◌then◌else◌, Assoc,
  lookup, put, drop_values,
}

pub record Bucket : Type 0 where
  pub count : ℕ
  pub window_start : ℕ

pub record Limiter : Type 0 where
  pub limit : ℕ
  pub window : ℕ
  pub buckets : Assoc Bucket

unfoldable pub create : ℕ → ℕ → Limiter
create limit window = record { limit = limit; window = window; buckets = [] }

-- now.Sub(b.windowStart) >= l.Window
abbrev pub elapsed : ℕ → ℕ → Bucket → Bool
elapsed window now b = leb (b.window_start + window) now

-- sweepLocked
abbrev pub sweep : ℕ → ℕ → Assoc Bucket → Assoc Bucket
sweep window now = drop_values (elapsed window now)

-- The answer: permitted or not, and the time to wait if not.
abbrev pub Answer : Type 0
Answer = Bool × ℕ

-- The two halves of Allow: a fresh window, and one more attempt in a window that runs.
unfoldable pub open_window : Limiter → Text → ℕ → Limiter × Answer
open_window l key now = (
  record l {
    buckets = put key (record { count = 1; window_start = now }) (sweep l.window now l.buckets);
  },
  (true, 0),
)

unfoldable pub attempt : Limiter → Text → ℕ → Bucket → Limiter × Answer
attempt l key now b = (
  record l { buckets = put key (record b { count = suc b.count }) l.buckets },
  (if ltb l.limit (suc b.count) then (false, b.window_start + l.window - now) else (true, 0)),
)

abbrev pub with_found : Limiter → Text → ℕ → Option Bucket → Limiter × Answer
with_found l key now none = open_window l key now
with_found l key now (some b) =
    if elapsed l.window now b then open_window l key now else attempt l key now b

unfoldable pub allow : Limiter → Text → ℕ → Limiter × Answer
unfolding open_window attempt
allow l key now = with_found l key now (lookup key l.buckets)
