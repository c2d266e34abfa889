-- ===== src/Server/Throttle.antt =====
-- internal/server/server.go: the limits on attempts, per client address. `split` is the host that
-- net.SplitHostPort finds; Retry-After is what Limiter.Allow says, in the unit of its clock.
use maubase.Prelude.{ℕ, Text, codes, true, false, Option, none, some, leb, if◌then◌else◌}
use maubase.Sql.{pure, raise, effect, ◌>>=◌, ◌>>◌}
use maubase.RateLimit.{Limiter, Answer, allow}
use maubase.Server.World.{
  Env, Drawn, Meta, World, Reply, plain, Handler, look, record_logged, nobody, nothing,
}

-- clientIP, of r.RemoteAddr.
unfoldable pub client_ip : (Text → Option Text) → Text → Text
client_ip split remote_addr = elim (split remote_addr) [ none ↦ remote_addr | some host ↦ host ]

-- One of the three limiters.
pub record Which : Type 0 where
  pub get : World → Limiter
  pub set : Limiter → World → World

abbrev pub login_limiter : Which
login_limiter = record { get = λ w. w.login_limiter; set = λ l w. record w { login_limiter = l } }

abbrev pub register_limiter : Which
register_limiter = record {
  get = λ w. w.register_limiter;
  set = λ l w. record w { register_limiter = l };
}

abbrev pub owner_login_limiter : Which
owner_login_limiter = record {
  get = λ w. w.owner_login_limiter;
  set = λ l w. record w { owner_login_limiter = l };
}

abbrev pub ui_login_limiter : Which
ui_login_limiter = record {
  get = λ w. w.ui_login_limiter;
  set = λ l w. record w { ui_login_limiter = l };
}

module _ (which : Which) (key : Text) (now : ℕ) where
  abbrev pub admit : Handler Unit → Handler Reply → Answer → Handler Reply
  admit on_limited next (true, wait) = next
  admit on_limited next (false, wait) = on_limited >> raise (plain 429)

  abbrev pub limited : Handler Unit → Handler Reply → Limiter → Handler Reply
  limited on_limited next l =
      let (l', answer) = allow l key now in
      effect (λ w. which.set l' w) >> admit on_limited next answer

  -- rateLimitMiddleware; a limit of 0 turns it off.
  unfoldable pub rate_limit_middleware : Handler Unit → Handler Reply → Handler Reply
  unfolding look allow
  rate_limit_middleware on_limited next = do
    l ← look (λ w. which.get w)
    if leb l.limit 0 then next else limited on_limited next l

unfoldable pub rate_limit_login : Text → ℕ → Handler Reply → Handler Reply
unfolding rate_limit_middleware
rate_limit_login ip now next = rate_limit_middleware login_limiter ip now (pure tt) next

unfoldable pub rate_limit_register : Text → ℕ → Handler Reply → Handler Reply
unfolding rate_limit_middleware
rate_limit_register ip now next = rate_limit_middleware register_limiter ip now (pure tt) next

unfoldable pub rate_limit_owner_login : Env → Drawn → Text → ℕ → Handler Reply → Handler Reply
unfolding rate_limit_middleware record_logged
rate_limit_owner_login env d ip now next =
    rate_limit_middleware owner_login_limiter ip now
      (record_logged env d (codes "login_rate_limited") nobody nothing (some (Meta.client_ip ip)))
      next
