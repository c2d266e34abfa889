-- ===== src/Server/Account.antt =====
-- internal/server/handlers_auth.go. A body
-- is what decodeJSON makes of it, none where it answers 400 itself.
use maubase.Prelude.{
  ℕ, Text, codes, Option, none, some, [], ◌∷◌, ◌++◌, drop, length, has_prefix, if◌then◌else◌,
}
use maubase.Sql.{Result, ok, err, failed, pure, raise, exec, ◌>>=◌, ◌>>◌}
use maubase.Audit.{Actor, Target}
use maubase.Auth.{
  Error, email_taken, invalid_credentials, session_not_found, weak_password, invalid_email,
  reset_token_invalid, social_identity_linked_elsewhere, User, Session, sign_up, login,
  create_reset_token, reset_password, validate_session, logout, delete_user,
}
use maubase.Oauth.Provider.{list_consents, revoke_all_for_subject, revoke_consent}
use maubase.Storage
use maubase.RestApi.Owned
use maubase.Server.World.{
  Env, Drawn, Cookie, Body, user_json, expires_at, export, consents_json, Reply, plain, with_body,
  Handler, run_part, on_tables, on_data, on_shelf, settle, or_internal, record_logged, nobody,
  nothing,
}

pub record Credentials : Type 0 where
  pub email : Text
  pub password : Text

-- writeAuthError
unfoldable pub write_auth_error : Error → Reply
write_auth_error email_taken = plain 409
write_auth_error invalid_credentials = plain 401
write_auth_error session_not_found = plain 401
write_auth_error weak_password = plain 400
write_auth_error invalid_email = plain 400
write_auth_error reset_token_invalid = plain 400
write_auth_error social_identity_linked_elsewhere = plain 500

abbrev pub unauthorized : Reply
unauthorized = plain 401

abbrev pub signed_in : ℕ → Body → Session → Reply
signed_in status body s = record {
  status = status;
  cookie = Cookie.issued s.token s.expires_at;
  body = some body;
}

abbrev pub logged_out : Reply
logged_out = record { status = 204; cookie = Cookie.cleared; body = none }

abbrev pub user_actor : User → Actor
user_actor u = record { id = u.id; email = u.email }

abbrev pub user_target : User → Target
user_target u = record { id = u.id; email = u.email }

-- sessionTokenFromRequest, of the Authorization header and the cookie; empty where there is none.
unfoldable pub session_token_from_request : Text → Option Text → Text
unfolding has_prefix
session_token_from_request header cookie =
    if has_prefix header (codes "Bearer ")
    then drop (length (codes "Bearer ")) header
    else elim cookie [ none ↦ [] | some value ↦ value ]

module _ (env : Env) (d : Drawn) where
  -- The answer to a sign-up, with a session where the login that follows gives one.
  abbrev pub signed_up : User → Result Error Session → Reply
  signed_up u (ok s) = signed_in 201 (user_json u) s
  signed_up u (err e) = with_body 201 (user_json u)
  signed_up u failed = with_body 201 (user_json u)

  unfoldable pub handle_sign_up : Option Credentials → Handler Reply
  unfolding run_part record_logged write_auth_error
  handle_sign_up none = raise (plain 400)
  handle_sign_up (some req) = do
    r ← on_tables (sign_up env.crypto env.unicode d.first req.email req.password)
    user ← settle write_auth_error (plain 500) r
    record_logged env d (codes "customer_signup") (user_actor user) (user_target user) none
    r' ← on_tables (login env.crypto env.unicode d.second req.email req.password)
    pure (signed_up user r')

  unfoldable pub login_refused : Text → Reply → Handler Reply
  unfolding record_logged
  login_refused email reply = do
    record_logged env d (codes "customer_login_failed") nobody (record { id = []; email = email })
        none
    raise reply

  abbrev pub logged_in : Text → Result Error Session → Handler Reply
  logged_in email (ok s) = do
    record_logged env d (codes "customer_login") (record { id = s.user_id; email = email }) nothing
        none
    pure (signed_in 200 (expires_at s.expires_at) s)
  logged_in email (err e) = login_refused email (write_auth_error e)
  logged_in email failed = login_refused email (plain 500)

  unfoldable pub handle_login : Option Credentials → Handler Reply
  unfolding run_part record_logged login_refused
  handle_login none = raise (plain 400)
  handle_login (some req) = do
    r ← on_tables (login env.crypto env.unicode d.first req.email req.password)
    logged_in req.email r

  -- email.Send; a failure is only logged.
  unfoldable pub send_link : Text → Text → Handler Unit
  unfolding run_part
  send_link email token = do
    r ←
        run_part {E = Error} (λ w. w.mails) (λ ms w. record w { mails = ms })
          (exec (λ ms.
            ms
            ++ record {
              to = email;
              subject = codes "Reset your password";
              link = env.password_reset_url ++ codes "?token=" ++ env.escape token;
            }
              ∷ []))
    pure tt

  abbrev pub token_issued : Text → Result Error (Option (Text × Text)) → Handler Reply
  token_issued email (ok (some (token, user_id))) = do
    record_logged env d (codes "customer_password_reset_requested") nobody
        (record { id = user_id; email = email }) none
    send_link email token
    pure (plain 204)
  token_issued email (ok none) = pure (plain 204)
  token_issued email (err e) = pure (plain 204)
  token_issued email failed = pure (plain 204)

  unfoldable pub handle_forgot_password : Option Text → Handler Reply
  unfolding run_part record_logged send_link
  handle_forgot_password none = raise (plain 400)
  handle_forgot_password (some email) = do
    r ← on_tables (create_reset_token env.crypto env.unicode d.first email)
    token_issued email r

  -- The token and the new password.
  unfoldable pub handle_reset_password : Option (Text × Text) → Handler Reply
  unfolding run_part record_logged write_auth_error
  handle_reset_password none = raise (plain 400)
  handle_reset_password (some (token, password)) = do
    r ← on_tables (reset_password env.crypto d.first.now token password)
    user_id ← settle write_auth_error (plain 500) r
    record_logged env d (codes "customer_password_reset_completed")
        (record { id = user_id; email = [] }) (record { id = user_id; email = [] }) none
    r' ← on_tables (revoke_all_for_subject env.json user_id)
    pure (plain 204)

  abbrev pub log_logout : Result Error User → Handler Unit
  log_logout (ok user) =
      record_logged env d (codes "customer_logout") (user_actor user) nothing none
  log_logout (err e) = pure tt
  log_logout failed = pure tt

  unfoldable pub handle_logout : Text → Handler Reply
  unfolding run_part record_logged
  handle_logout [] = pure logged_out
  handle_logout (b ∷ token) = do
    r ← on_tables (validate_session env.crypto d.first.now (b ∷ token))
    log_logout r
    r' ← on_tables {E = Error} (logout env.crypto (b ∷ token))
    pure logged_out

  unfoldable pub handle_me : User → Handler Reply
  handle_me user = pure (with_body 200 (user_json user))

  unfoldable pub handle_export_account : User → Handler Reply
  unfolding run_part
  handle_export_account user = do
    r ← on_data (Owned.export_owned env.restapi env.registry user.id)
    records ← or_internal r
    r' ← on_shelf (Storage.export_owned user.id)
    files ← or_internal r'
    pure (with_body 200 (export user records files))

  unfoldable pub handle_delete_account : User → Handler Reply
  unfolding run_part record_logged
  handle_delete_account user = do
    r1 ← on_data (Owned.delete_owned env.restapi env.registry user.id)
    or_internal r1
    r2 ← on_shelf (Storage.delete_owned user.id)
    or_internal r2
    r3 ← on_tables (revoke_all_for_subject env.json user.id)
    or_internal r3
    r4 ← on_tables (delete_user user.id)
    or_internal r4
    record_logged env d (codes "customer_account_deleted") (user_actor user) (user_target user) none
    pure logged_out

  unfoldable pub handle_list_consents : User → Handler Reply
  unfolding run_part
  handle_list_consents user = do
    r ← on_tables (list_consents user.id)
    consents ← or_internal r
    pure (with_body 200 (consents_json consents))

  unfoldable pub handle_revoke_consent : User → Text → Handler Reply
  unfolding run_part revoke_consent
  handle_revoke_consent user client_id = do
    r ← on_tables (revoke_consent env.json user.id client_id)
    or_internal r
    pure (plain 204)

  -- requireAuth, before a handler that gets the account from the request's context.
  unfoldable pub require_auth : Text → (User → Handler Reply) → Handler Reply
  unfolding run_part
  require_auth [] next = raise unauthorized
  require_auth (b ∷ token) next = do
    r ← on_tables (validate_session env.crypto d.first.now (b ∷ token))
    user ← settle (λ e. unauthorized) unauthorized r
    next user
