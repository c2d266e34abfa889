-- ===== src/Server/Guessing.antt =====
-- How many passwords a client address can try.
use maubase.Prelude.{
  ℕ, suc, ◌+◌, ◌-◌, ◌<◌, ◌≡◌, refl, ◌∙◌, subst, min, Text, codes, ◌==◌, Bool, true, false, not,
  ◌&&◌, Option, none, some, List, [], ◌∷◌, map, eqb, leb, if◌then◌else◌, arith, count, Bool-cases,
  Option-cases, inl, inr, lookup, IsMap, All,
}
use maubase.Sql.{Result, ok, err, failed, Db, effect, pure}
use maubase.Sql.Ensures.{
  Ensures, Then, Ensures-pure, Ensures-raise, Ensures-bind, Ensures-effect, Ensures-weaken,
}
use maubase.Schema.{Tables}
use maubase.Auth.{
  Error, email_taken, invalid_credentials, session_not_found, weak_password, invalid_email,
  reset_token_invalid, social_identity_linked_elsewhere, Session, login,
}
use maubase.RateLimit.{Limiter, Answer, elapsed, allow, open_window, attempt}
use maubase.RateLimit.Windows.{
  Attempt, granted, tries, IsFresh, allow_new, allow_live, allow-elapsed, granted_window,
}
use maubase.Server.World.{
  Env, Drawn, Handler, World, with_tables, Reply, plain, answer, expires_at, nobody, nothing,
}
use maubase.Server.Calls.{Ensures-call, Ensures-logged, Ensures-look}
use maubase.Server.Account.{
  Credentials, write_auth_error, handle_login, logged_in, login_refused, signed_in,
}
use maubase.Server.Throttle.{login_limiter, admit, rate_limit_middleware, rate_limit_login}

-- What a request asks of a route under the limiter of the logins: POST /api/auth/login with its
-- body, or another route (forgot-password, reset-password, the start of a social sign-in, and POST
-- /oauth/authorize) by what its handler does.
pub data Asks : Type 0 where
  password_login : Drawn → Option Credentials → Asks
  other : Handler Reply → Asks

-- One request: the client's address, when it comes, and what it asks.
pub record Sent : Type 0 where
  pub ip : Text
  pub at : ℕ
  pub asks : Asks

abbrev handler_of : Env → Asks → Handler Reply
handler_of env (password_login d body) = handle_login env d body
handler_of env (other h) = h

-- The answers to a sequence of them, each with its address.
unfoldable pub serve : Env → List Sent → Db World → List (Text × Reply)
unfolding rate_limit_login handle_login
serve env [] db = []
serve env (q ∷ qs) db =
    let (r, db') = rate_limit_login q.ip q.at (handler_of env q.asks) db in
    (q.ip, answer r) ∷ serve env qs db'

abbrev pub is_tried : Text → Text × Reply → Bool
is_tried ip p = p.0 == ip && not (eqb p.1.status 429)

abbrev pub attempts : List Sent → List Attempt
attempts = map (λ q. (q.ip, q.at))

allow-limit : (l : Limiter) (k : Text) (now : ℕ) → (allow l k now).0.limit ≡ l.limit
unfolding open_window attempt
allow-limit l k now = elim (Option-cases (lookup k l.buckets)) [
  | inl e ↦ rw (allow_new l k now e) refl
  | inr (b, e) ↦ elim (Bool-cases (elapsed l.window now b)) [
    | inl t ↦ rw (allow-elapsed l k now b e t) refl
    | inr f ↦ rw (allow_live l k now b e f) refl
  ]
]

write_auth_error-status : (e : Error) → eqb (write_auth_error e).status 429 ≡ false
unfolding write_auth_error
write_auth_error-status email_taken = refl
write_auth_error-status invalid_credentials = refl
write_auth_error-status session_not_found = refl
write_auth_error-status weak_password = refl
write_auth_error-status invalid_email = refl
write_auth_error-status reset_token_invalid = refl
write_auth_error-status social_identity_linked_elsewhere = refl

-- The limiter is left alone, and the answer is not its own.
abbrev pub IsQuiet : Limiter → Result Reply Reply → World → Type 0
IsQuiet l r w' = (w'.login_limiter ≡ l) × (eqb (answer r).status 429 ≡ false)

-- A handler of another route does not touch the limiter, and does not answer 429 itself.
abbrev pub IsOther : Asks → Type 0
IsOther (password_login d body) = Unit
IsOther (other h) = (w : World) → Ensures (IsQuiet w.login_limiter) w h

module _ (env : Env) (d : Drawn) (l : Limiter) where
  refused-Quiet :
      (email : Text) (a : Reply) (w : World)
      → w.login_limiter ≡ l
      → eqb a.status 429 ≡ false
      → Ensures (IsQuiet l) w (login_refused env d email a)
  unfolding login_refused
  refused-Quiet email a w same fine =
      Ensures-logged env (codes "customer_login_failed") nobody (record { id = []; email = email })
        none (IsQuiet l) w d _ (λ log. Ensures-raise (IsQuiet l) _ a (same, fine))

  handle_login-Quiet :
      (body : Option Credentials) (w : World)
      → w.login_limiter ≡ l
      → Ensures (IsQuiet l) w (handle_login env d body)
  unfolding handle_login
  handle_login-Quiet none w same = Ensures-raise (IsQuiet l) w (plain 400) (same, refl)
  handle_login-Quiet (some req) w same =
      Ensures-call (IsQuiet l) w (λ v. v.tables) with_tables
        (login env.crypto env.unicode d.first req.email req.password) _
        (record { at = λ bs. after _ _ })
    where
      after :
          (r : Result Error Session) (t' : Tables)
          → Ensures (IsQuiet l) (with_tables t' w) (logged_in env d req.email r)
      after (ok s) t' =
          Ensures-logged env (codes "customer_login") (record { id = s.user_id; email = req.email })
            nothing none (IsQuiet l) (with_tables t' w) d _
            (λ log.
              Ensures-pure (IsQuiet l) _ (signed_in 200 (expires_at s.expires_at) s) (same, refl))
      after (err e) t' =
          refused-Quiet req.email (write_auth_error e) (with_tables t' w) same
            (write_auth_error-status e)
      after failed t' = refused-Quiet req.email (plain 500) (with_tables t' w) same refl

module _ (env : Env) (l : Limiter) where
  handler_of-Quiet :
      (a : Asks) (w : World)
      → IsOther a
      → w.login_limiter ≡ l
      → Ensures (IsQuiet l) w (handler_of env a)
  handler_of-Quiet (password_login d body) w h same = handle_login-Quiet env d l body w same
  handler_of-Quiet (other m) w h same = subst (λ x. Ensures (IsQuiet x) w m) same (h w)

module _ (env : Env) (q : Sent) (w : World) (on : leb w.login_limiter.limit 0 ≡ false)
    (quiet : IsOther q.asks) where
  -- The limiter's answer decides whether the handler runs; where it does not, the answer is 429.
  abbrev ServePost : Result Reply Reply → World → Type 0
  ServePost r w' =
      (w'.login_limiter ≡ (allow w.login_limiter q.ip q.at).0)
      × (eqb (answer r).status 429 ≡ not (allow w.login_limiter q.ip q.at).1.0)
      × (eqb (answer r).status 429 ≡ true → answer r ≡ plain 429)

  admit-Ensures :
      (a : Answer)
      → (allow w.login_limiter q.ip q.at).1 ≡ a
      → Ensures ServePost
          (record w { login_limiter = (allow w.login_limiter q.ip q.at).0 })
          (admit login_limiter q.ip q.at (pure tt) (handler_of env q.asks) a)
  admit-Ensures (true, wait) e =
      Ensures-weaken (IsQuiet (allow w.login_limiter q.ip q.at).0) ServePost _ _
        (λ r w' (same, fine). (same, fine ∙ rw e refl, λ k. absurd (cc (fine, k))))
        (handler_of-Quiet env (allow w.login_limiter q.ip q.at).0 q.asks _ quiet refl)
  admit-Ensures (false, wait) e =
      Ensures-bind ServePost _ (pure tt) _
        (Ensures-pure _ _ tt (Ensures-raise ServePost _ (plain 429) (refl, rw e refl, λ k. refl)))

  serve-Ensures : Ensures ServePost w (rate_limit_login q.ip q.at (handler_of env q.asks))
  unfolding rate_limit_login rate_limit_middleware
  serve-Ensures =
      Ensures-look ServePost w (λ v. v.login_limiter) _
        (rw on (
          Ensures-bind ServePost w (effect _) _ (
            Ensures-effect (Then ServePost _) w _
              (admit-Ensures (allow w.login_limiter q.ip q.at).1 refl))))

one_more :
    (a b : Bool) (n : ℕ) → (if a && not (not b) then suc n else n) ≡ (if a && b then 1 else 0) + n
one_more a b n = ground arith

-- The answers with 429 are that and nothing else.
abbrev pub IsBare : Text × Reply → Type 0
IsBare p = eqb p.1.status 429 ≡ true → p.1 ≡ plain 429

tried-granted :
    (env : Env) (ip : Text) (qs : List Sent) (db : Db World)
    → leb db.tables.login_limiter.limit 0 ≡ false
    → All (λ q. IsOther q.asks) qs
    → (count (is_tried ip) (serve env qs db) ≡ granted ip db.tables.login_limiter (attempts qs))
      × All IsBare (serve env qs db)
unfolding serve granted count
tried-granted env ip [] db on quiet = (refl, tt)
tried-granted env ip (q ∷ qs) db on quiet =
    let (limiter, told, bare) = (serve-Ensures env q db.tables on quiet.0).at db.faults in
    let db' = (rate_limit_login q.ip q.at (handler_of env q.asks) db).1 in
    let (rest, bares) =
      tried-granted env ip qs db' (rw (limiter, allow-limit db.tables.login_limiter q.ip q.at) on)
        quiet.1 in
    (
      rw (told, rest, limiter)
          (one_more (q.ip == ip) (allow db.tables.login_limiter q.ip q.at).1.0 _),
      (bare, bares),
    )

pub serve-granted_window :
    (env : Env) (q : Sent) (qs : List Sent) (db : Db World)
    → leb db.tables.login_limiter.limit 0 ≡ false
    → All (λ a. IsOther a.asks) (q ∷ qs)
    → IsMap db.tables.login_limiter.buckets
    → IsFresh db.tables.login_limiter q.ip q.at
    → All (λ a. a.1 < q.at + db.tables.login_limiter.window) (attempts qs)
    → (count (is_tried q.ip) (serve env (q ∷ qs) db)
        ≡ 1 + min (tries q.ip (attempts qs)) (db.tables.login_limiter.limit - 1))
      × All IsBare (serve env (q ∷ qs) db)
serve-granted_window env q qs db on quiet u fresh within =
    let (tried, bare) = tried-granted env q.ip (q ∷ qs) db on quiet in
    (tried ∙ granted_window db.tables.login_limiter q.ip q.at (attempts qs) u fresh within, bare)
