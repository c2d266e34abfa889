-- ===== src/AdminUi/Pages.antt =====
-- internal/adminui/server.go: forms, pagination, the middleware, signing in, the audit log and
-- maintenance.
use maubase.Prelude.{
  ℕ, Text, codes, ◌==◌, Option, none, some, [], ltb, leb, if◌then◌else◌, Assoc, lookup,
}
use maubase.Sql.{Result, ok, err, failed, pure, raise, or_raise, guard, ◌>>=◌, ◌>>◌}
use maubase.Numbers.{atoi}
use maubase.Audit.{list}
use maubase.Auth.{
  Error as CustomerError, purge_expired_sessions as purge_customer_sessions,
  purge_expired_reset_tokens,
}
use maubase.OwnerAuth.{
  Error, Owner, Session, login, logout, validate_session, purge_expired_sessions,
}
use maubase.OwnerAuth.Roles.{Role, at_least}
use maubase.Server.World.{
  Env, Drawn, Cookie, Meta, purged, Reply, entries_json, purged_json, location, page, page_error,
  plain, with_body, Handler, run_part, on_tables, settle, or_internal, record_logged, nobody,
  nothing,
}
use maubase.Server.Owners.{owner_actor}
use maubase.Server.Throttle.{ui_login_limiter, rate_limit_middleware}

abbrev pub Form : Type 0
Form = Assoc Text

-- FormValue
abbrev pub or_empty : Option Text → Text
or_empty none = []
or_empty (some v) = v

abbrev pub form_value : Text → Form → Text
form_value name f = or_empty (lookup name f)

abbrev pub see_other : Text → Reply
see_other url = record { status = 303; cookie = Cookie.untouched; body = some (location url) }

abbrev pub default_limit : ℕ
default_limit = 50

abbrev pub max_limit : ℕ
max_limit = 200

unfoldable pub parse_limit : Text → Handler ℕ
unfolding atoi
parse_limit v = if v == [] then pure default_limit else do
  n ← or_raise (atoi v) (plain 400)
  guard (ltb 0 n) (plain 400)
  guard (leb n max_limit) (plain 400)
  pure n

unfoldable pub parse_offset : Text → Handler ℕ
unfolding atoi
parse_offset v = if v == [] then pure 0 else or_raise (atoi v) (plain 400)

unfoldable pub parse_pagination : Text → Text → Handler (ℕ × ℕ)
unfolding parse_limit parse_offset
parse_pagination limit offset = do n ← parse_limit limit; m ← parse_offset offset; pure (n, m)

-- Where an error only leaves something out of a page.
abbrev pub or_none : {E A : Type 0} → A → Result E A → A
or_none a (ok b) = b
or_none a (err e) = a
or_none a failed = a

module _ (env : Env) (d : Drawn) where
  unfoldable pub rate_limit_login : Text → ℕ → Handler Reply → Handler Reply
  unfolding rate_limit_middleware record_logged
  rate_limit_login ip now next =
      rate_limit_middleware ui_login_limiter ip now
        (record_logged env d (codes "login_rate_limited") nobody nothing (some (Meta.client_ip ip)))
        next

  abbrev pub login_page : Reply
  login_page = with_body 200 (page (codes "login"))

  abbrev pub unless_signed_in : Result Error Owner → Reply
  unless_signed_in (ok o) = see_other (codes "/admin/ui")
  unless_signed_in (err e) = login_page
  unless_signed_in failed = login_page

  unfoldable pub handle_login_page : Option Text → Handler Reply
  unfolding run_part
  handle_login_page none = pure login_page
  handle_login_page (some token) = do
    r ← on_tables (validate_session env.crypto d.first.now token)
    pure (unless_signed_in r)

  unfoldable pub login_refused : Text → Handler Reply
  unfolding record_logged
  login_refused email = do
    record_logged env d (codes "login_failed") nobody (record { id = []; email = email }) none
    pure (with_body 200 (page_error (codes "login")))

  abbrev pub logged_in : Text → Result Error Session → Handler Reply
  logged_in email (ok s) = do
    record_logged env d (codes "login") (record { id = s.owner_id; email = email }) nothing none
    pure (record {
      status = 303;
      cookie = Cookie.issued s.token s.expires_at;
      body = some (location (codes "/admin/ui"));
    })
  logged_in email (err e) = login_refused email
  logged_in email failed = login_refused email

  unfoldable pub handle_login_submit : Option Form → Handler Reply
  unfolding run_part record_logged login_refused
  handle_login_submit none = pure (with_body 200 (page_error (codes "login")))
  handle_login_submit (some f) = do
    r ← on_tables (
        login env.crypto env.unicode d.first (form_value (codes "email") f)
          (form_value (codes "password") f))
    logged_in (form_value (codes "email") f) r

  abbrev pub logged_out : Reply
  logged_out = record {
    status = 303;
    cookie = Cookie.cleared;
    body = some (location (codes "/admin/ui/login"));
  }

  abbrev pub log_logout : Result Error Owner → Handler Unit
  log_logout (ok o) = record_logged env d (codes "logout") (owner_actor o) nothing none
  log_logout (err e) = pure tt
  log_logout failed = pure tt

  unfoldable pub handle_logout : Option Text → Handler Reply
  unfolding run_part record_logged
  handle_logout none = pure logged_out
  handle_logout (some token) = do
    r ← on_tables (validate_session env.crypto d.first.now token)
    log_logout r
    r' ← on_tables {E = Error} (logout env.crypto token)
    pure logged_out

  unfoldable pub handle_audit_log_page : Text → Text → Handler Reply
  unfolding run_part parse_pagination
  handle_audit_log_page limit offset = do
    (n, m) ← parse_pagination limit offset
    r ← on_tables (list env.codec n m)
    entries ← or_internal r
    pure (with_body 200 (entries_json entries))

  unfoldable pub handle_purge_sessions : Owner → Handler Reply
  unfolding run_part record_logged
  handle_purge_sessions o = do
    r1 ← on_tables {E = CustomerError} (purge_customer_sessions d.first.now)
    sessions ← or_internal r1
    r2 ← on_tables {E = Error} (purge_expired_sessions d.first.now)
    owner_sessions ← or_internal r2
    r3 ← on_tables {E = CustomerError} (purge_expired_reset_tokens d.first.now)
    reset_tokens ← or_internal r3
    record_logged env d (codes "sessions_purged") (owner_actor o) nothing
        (some (purged sessions owner_sessions reset_tokens))
    pure (with_body 200 (purged_json sessions owner_sessions reset_tokens))

  -- requireRole
  unfoldable pub require_role : Role → Option Text → (Owner → Handler Reply) → Handler Reply
  unfolding run_part
  require_role min none next = raise (see_other (codes "/admin/ui/login"))
  require_role min (some token) next = do
    r ← on_tables (validate_session env.crypto d.first.now token)
    o ← settle (λ e. see_other (codes "/admin/ui/login")) (see_other (codes "/admin/ui/login")) r
    guard (at_least o.role min) (with_body 403 (page (codes "forbidden")))
    next o
