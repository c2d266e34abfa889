-- ===== src/Server/Owners.antt =====
-- internal/server/handlers_owner.go and handlers_maintenance.go: the owner plane.
use maubase.Prelude.{ℕ, Text, codes, ◌==◌, Option, none, some, [], ltb, leb, if◌then◌else◌}
use maubase.Sql.{Result, ok, err, failed, pure, raise, or_raise, guard, ◌>>=◌, ◌>>◌}
use maubase.Numbers.{atoi}
use maubase.Audit.{Actor, Target, list}
use maubase.Auth.{
  Error as CustomerError, purge_expired_sessions as purge_customer_sessions,
  purge_expired_reset_tokens,
}
use maubase.OwnerAuth.{
  Error, email_taken, invalid_credentials, session_not_found, weak_password, invalid_email,
  invalid_role, last_owner, already_bootstrapped, owner_not_found, Owner, Session, login, logout,
  validate_session, list_owners, create_owner, delete_owner, purge_expired_sessions,
}
use maubase.OwnerAuth.Roles.{Role, viewer, admin, owner, at_least}
use maubase.Server.World.{
  Env, Drawn, Cookie, Meta, purged, Reply, expires_at, owner_json, owners_json, entries_json,
  purged_json, plain, with_body, Handler, run_part, on_tables, settle, or_internal, record_logged,
  nobody, nothing,
}

-- writeOwnerAuthError
unfoldable pub write_owner_auth_error : Error → Reply
write_owner_auth_error email_taken = plain 409
write_owner_auth_error invalid_credentials = plain 401
write_owner_auth_error session_not_found = plain 401
write_owner_auth_error weak_password = plain 400
write_owner_auth_error invalid_email = plain 400
write_owner_auth_error invalid_role = plain 400
write_owner_auth_error last_owner = plain 409
write_owner_auth_error already_bootstrapped = plain 500
write_owner_auth_error owner_not_found = plain 404

abbrev pub owner_actor : Owner → Actor
owner_actor o = record { id = o.id; email = o.email }

abbrev pub owner_target : Owner → Target
owner_target o = record { id = o.id; email = o.email }

abbrev pub audit_default_limit : ℕ
audit_default_limit = 50

abbrev pub audit_max_limit : ℕ
audit_max_limit = 200

-- The two halves of parseAuditPagination.
unfoldable pub parse_audit_limit : Text → Handler ℕ
unfolding atoi
parse_audit_limit v = if v == [] then pure audit_default_limit else do
  n ← or_raise (atoi v) (plain 400)
  guard (ltb 0 n) (plain 400)
  guard (leb n audit_max_limit) (plain 400)
  pure n

unfoldable pub parse_audit_offset : Text → Handler ℕ
unfolding atoi
parse_audit_offset v = if v == [] then pure 0 else or_raise (atoi v) (plain 400)

unfoldable pub parse_audit_pagination : Text → Text → Handler (ℕ × ℕ)
unfolding parse_audit_limit parse_audit_offset
parse_audit_pagination limit offset = do
  n ← parse_audit_limit limit
  m ← parse_audit_offset offset
  pure (n, m)

module _ (env : Env) (d : Drawn) where
  unfoldable pub owner_refused : Text → Reply → Handler Reply
  unfolding record_logged
  owner_refused email reply = do
    record_logged env d (codes "login_failed") nobody (record { id = []; email = email }) none
    raise reply

  abbrev pub owner_logged_in : Text → Result Error Session → Handler Reply
  owner_logged_in email (ok s) = do
    record_logged env d (codes "login") (record { id = s.owner_id; email = email }) nothing none
    pure (record {
      status = 200;
      cookie = Cookie.issued s.token s.expires_at;
      body = some (expires_at s.expires_at);
    })
  owner_logged_in email (err e) = owner_refused email (write_owner_auth_error e)
  owner_logged_in email failed = owner_refused email (plain 500)

  -- The address and the password.
  unfoldable pub handle_owner_login : Option (Text × Text) → Handler Reply
  unfolding run_part record_logged owner_refused
  handle_owner_login none = raise (plain 400)
  handle_owner_login (some (email, password)) = do
    r ← on_tables (login env.crypto env.unicode d.first email password)
    owner_logged_in email r

  abbrev pub owner_logged_out : Reply
  owner_logged_out = record { status = 204; cookie = Cookie.cleared; body = none }

  abbrev pub log_owner_logout : Result Error Owner → Handler Unit
  log_owner_logout (ok o) = record_logged env d (codes "logout") (owner_actor o) nothing none
  log_owner_logout (err e) = pure tt
  log_owner_logout failed = pure tt

  -- The owner-plane cookie, if any.
  unfoldable pub handle_owner_logout : Option Text → Handler Reply
  unfolding run_part record_logged
  handle_owner_logout none = pure owner_logged_out
  handle_owner_logout (some token) = do
    r ← on_tables (validate_session env.crypto d.first.now token)
    log_owner_logout r
    r' ← on_tables {E = Error} (logout env.crypto token)
    pure owner_logged_out

  unfoldable pub handle_owner_me : Owner → Handler Reply
  handle_owner_me o = pure (with_body 200 (owner_json o))

  unfoldable pub handle_list_owners : Handler Reply
  unfolding run_part
  handle_list_owners = do
    r ← on_tables list_owners
    owners ← or_internal r
    pure (with_body 200 (owners_json owners))

  -- The address, the password and the role of the new account.
  unfoldable pub handle_create_owner : Owner → Option (Text × Text × Role) → Handler Reply
  unfolding run_part record_logged write_owner_auth_error
  handle_create_owner actor none = raise (plain 400)
  handle_create_owner actor (some (email, password, new_role)) = do
    r ← on_tables (create_owner env.crypto env.unicode d.first email password new_role)
    o ← settle write_owner_auth_error (plain 500) r
    record_logged env d (codes "owner_create") (owner_actor actor) (owner_target o)
        (some (Meta.role o.role))
    pure (with_body 201 (owner_json o))

  unfoldable pub handle_delete_owner : Owner → Text → Handler Reply
  unfolding run_part record_logged write_owner_auth_error
  handle_delete_owner actor id = do
    r ← on_tables (delete_owner id)
    deleted ← settle write_owner_auth_error (plain 500) r
    record_logged env d (codes "owner_delete") (owner_actor actor) (owner_target deleted)
        (some (Meta.role deleted.role))
    pure (plain 204)

  unfoldable pub handle_list_audit_log : Text → Text → Handler Reply
  unfolding run_part parse_audit_pagination
  handle_list_audit_log limit offset = do
    page ← parse_audit_pagination limit offset
    r ← on_tables (list env.codec page.0 page.1)
    entries ← or_internal r
    pure (with_body 200 (entries_json entries))

  unfoldable pub handle_purge_sessions : Owner → Handler Reply
  unfolding run_part record_logged
  handle_purge_sessions o = do
    r1 ← on_tables {E = CustomerError} (purge_customer_sessions d.first.now)
    sessions ← or_internal r1
    r2 ← on_tables {E = Error} (purge_expired_sessions d.first.now)
    owner_sessions ← or_internal r2
    r3 ← on_tables {E = CustomerError} (purge_expired_reset_tokens d.first.now)
    reset_tokens ← or_internal r3
    record_logged env d (codes "sessions_purged") (owner_actor o) nothing
        (some (purged sessions owner_sessions reset_tokens))
    pure (with_body 200 (purged_json sessions owner_sessions reset_tokens))

  -- requireOwnerRole, with the owner-plane cookie; `next` gets the owner from the request's
  -- context.
  unfoldable pub require_owner_role : Role → Option Text → (Owner → Handler Reply) → Handler Reply
  unfolding run_part
  require_owner_role min none next = raise (plain 401)
  require_owner_role min (some token) next = do
    r ← on_tables (validate_session env.crypto d.first.now token)
    o ← settle (λ e. plain 401) (plain 401) r
    guard (at_least o.role min) (plain 403)
    next o

-- The owner plane's JSON routes but logging in and out, with what each is called with.
pub data AdminCall : Type 0 where
  me list_all purge_sessions : AdminCall
  create : Option (Text × Text × Role) → AdminCall
  remove : Text → AdminCall
  audit_log : Text → Text → AdminCall

-- New: each route behind its middleware, one inside the other for a group in a route.
module _ (env : Env) (d : Drawn) (cookie : Option Text) where
  unfoldable pub route : AdminCall → Handler Reply
  unfolding require_owner_role
  route me = require_owner_role env d viewer cookie (handle_owner_me env d)
  route list_all = require_owner_role env d admin cookie (λ o. handle_list_owners env d)
  route (create req) =
      require_owner_role env d admin cookie
        (λ o. require_owner_role env d owner cookie (λ o'. handle_create_owner env d o' req))
  route (remove id) =
      require_owner_role env d admin cookie
        (λ o. require_owner_role env d owner cookie (λ o'. handle_delete_owner env d o' id))
  route (audit_log limit offset) =
      require_owner_role env d admin cookie (λ o. handle_list_audit_log env d limit offset)
  route purge_sessions = require_owner_role env d admin cookie (handle_purge_sessions env d)
