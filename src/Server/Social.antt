-- ===== src/Server/Social.antt =====
-- internal/server/handlers_social.go. The provider's side is a parameter: its authorization page,
-- and what exchanging a code and fetching a profile give, if they do not fail. That the callback
-- clears the cookie of the state, on every path past the look-up of the provider, is left out.
use maubase.Prelude.{
  Text, codes, ◌==◌, Bool, false, not, ◌&&◌, Option, none, some, [], ◌∷◌, ◌++◌, Assoc, lookup,
}
use maubase.Sql.{Result, ok, err, failed, pure, or_raise, guard, ◌>>=◌, ◌>>◌}
use maubase.Auth.{Error, social_identity_linked_elsewhere, User, validate_session}
use maubase.Auth.Social.{Draws, login_or_create_via_social}
use maubase.Server.World.{
  Env, Drawn, Cookie, social, Reply, location, plain, Handler, run_part, on_tables, settle,
  record_logged,
}
use maubase.Server.Account.{session_token_from_request}

pub record Identity : Type 0 where
  pub provider_user_id : Text
  pub email : Text

pub record Provider : Type 0 where
  pub name : Text
  pub auth_code_url : Text → Text
  pub exchange : Text → Option Text
  pub fetch_identity : Text → Option Identity

abbrev pub social_state_cookie_name : Text → Text
social_state_cookie_name provider = codes "maubase_social_state_" ++ provider

-- The query of the callback, the cookies it carries, of which r.Cookie gives the first of a name, and
-- the credentials of a session.
pub record Callback : Type 0 where
  pub state : Text
  pub denied : Text
  pub code : Text
  pub cookies : Assoc Text
  pub authorization : Text
  pub session_cookie : Option Text

-- A cookie, a state, and the two equal.
abbrev pub matches : Text → Option Text → Bool
matches state none = false
matches state (some value) = not (state == []) && state == value

abbrev pub state_cookie : Text → Callback → Option Text
state_cookie name q = lookup (social_state_cookie_name name) q.cookies

abbrev pub state_matches : Text → Callback → Bool
state_matches name q = matches q.state (state_cookie name q)

-- `state` is what randomURLSafeString gives, if anything.
unfoldable pub handle_social_start : Assoc Provider → Text → Option Text → Handler Reply
handle_social_start providers name state = do
  provider ← or_raise (lookup name providers) (plain 404)
  value ← or_raise state (plain 500)
  pure (record {
    status = 303;
    cookie = Cookie.state (social_state_cookie_name name) value;
    body = some (location (provider.auth_code_url value));
  })

module _ (env : Env) (d : Drawn) (draws : Draws) (redirect : Text) where
  abbrev pub id_or_empty : Result Error User → Text
  id_or_empty (ok u) = u.id
  id_or_empty (err e) = []
  id_or_empty failed = []

  -- The account of a session that came along, or the empty text.
  unfoldable pub current_user : Text → Handler Text
  unfolding run_part
  current_user [] = pure []
  current_user (b ∷ token) = do
    r ← on_tables (validate_session env.crypto d.first.now (b ∷ token))
    pure (id_or_empty r)

  abbrev pub social_error : Error → Reply
  social_error social_identity_linked_elsewhere = plain 409
  social_error e = plain 500

  unfoldable pub sign_in_as : Provider → Identity → Text → Handler Reply
  unfolding run_part record_logged
  sign_in_as provider identity current = do
    r ← on_tables (
        login_or_create_via_social env.crypto env.unicode provider.name identity.provider_user_id
          draws identity.email current)
    (session, new_account) ← settle social_error (plain 500) r
    record_logged env d (codes "customer_social_sign_in")
        (record { id = session.user_id; email = [] }) (record { id = session.user_id; email = [] })
        (some (social provider.name new_account (not (current == []))))
    pure (record {
      status = 303;
      cookie = Cookie.issued session.token session.expires_at;
      body = some (location redirect);
    })

  unfoldable pub handle_social_callback : Assoc Provider → Text → Callback → Handler Reply
  unfolding current_user sign_in_as session_token_from_request
  handle_social_callback providers name q = do
    provider ← or_raise (lookup name providers) (plain 404)
    guard (state_matches name q) (plain 400)
    guard (q.denied == []) (plain 400)
    guard (not (q.code == [])) (plain 400)
    token ← or_raise (provider.exchange q.code) (plain 502)
    identity ← or_raise (provider.fetch_identity token) (plain 502)
    guard (not (identity.provider_user_id == [])) (plain 502)
    current ← current_user (session_token_from_request q.authorization q.session_cookie)
    sign_in_as provider identity current
