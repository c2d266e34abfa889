-- ===== src/AdminUi/Users.antt =====
-- internal/adminui/server.go: the accounts of the customers.
use maubase.Prelude.{Text, codes, true, false, Option, none, some, [], ◌++◌}
use maubase.Sql.{Result, ok, err, failed, pure, raise, ◌>>=◌, ◌>>◌}
use maubase.Auth.{
  Error as CustomerError, User, sign_up, get_user, list_users, count_users, count_active_sessions,
  list_social_identities, count_pending_reset_tokens, revoke_all_sessions, delete_user,
}
use maubase.OwnerAuth.{Owner}
use maubase.Oauth.Provider.{revoke_all_for_subject}
use maubase.Storage
use maubase.RestApi.Owned
use maubase.Server.World.{
  Env, Drawn, revoked, Reply, users_page, user_page, plain, with_body, Handler, caught, run_part,
  on_tables, on_data, on_shelf, settle, or_internal, record_logged,
}
use maubase.Server.Account.{user_target}
use maubase.Server.Owners.{owner_actor}
use maubase.AdminUi.Pages.{Form, form_value, see_other, default_limit, parse_pagination, or_none}

module _ (env : Env) (d : Drawn) where
  unfoldable pub handle_users_page : Text → Text → Handler Reply
  unfolding run_part parse_pagination
  handle_users_page limit offset = do
    (n, m) ← parse_pagination limit offset
    r ← on_tables (list_users n m)
    users ← or_internal r
    r' ← on_tables count_users
    total ← or_internal r'
    pure (with_body 200 (users_page false users n m total))

  -- With the page that the URL asks for, or the first where it asks for none that there can be.
  unfoldable pub render_users_with_error : Text → Text → Handler Reply
  unfolding run_part caught parse_pagination
  render_users_with_error limit offset = do
    asked ← caught (parse_pagination limit offset)
    let p = or_none (default_limit, 0) asked
    r ← on_tables (list_users p.0 p.1)
    r' ← on_tables count_users
    pure (with_body 200 (users_page true (or_none [] r) p.0 p.1 (or_none 0 r')))

  unfoldable pub handle_user_detail : Text → Handler Reply
  unfolding run_part
  handle_user_detail id = do
    r ← on_tables (get_user id)
    user ← settle (λ e. plain 404) (plain 404) r
    r1 ← on_tables (count_active_sessions d.first.now user.id)
    sessions ← or_internal r1
    r2 ← on_tables (list_social_identities user.id)
    identities ← or_internal r2
    r3 ← on_tables (count_pending_reset_tokens d.first.now user.id)
    pending ← or_internal r3
    pure (with_body 200 (user_page user sessions identities pending))

  abbrev pub user_created : Text → Text → Owner → Result CustomerError User → Handler Reply
  user_created limit offset o (ok u) = do
    record_logged env d (codes "user_create") (owner_actor o) (user_target u) none
    pure (see_other (codes "/admin/ui/users"))
  user_created limit offset o (err e) = render_users_with_error limit offset
  user_created limit offset o failed = render_users_with_error limit offset

  unfoldable pub handle_create_user : Text → Text → Owner → Option Form → Handler Reply
  unfolding run_part record_logged render_users_with_error
  handle_create_user limit offset o none = raise (plain 400)
  handle_create_user limit offset o (some f) = do
    r ← on_tables (
        sign_up env.crypto env.unicode d.first (form_value (codes "email") f)
          (form_value (codes "password") f))
    user_created limit offset o r

  unfoldable pub handle_delete_user : Owner → Text → Handler Reply
  unfolding run_part record_logged
  handle_delete_user o id = do
    r ← on_tables (get_user id)
    user ← settle (λ e. plain 404) (plain 404) r
    r1 ← on_data (Owned.delete_owned env.restapi env.registry id)
    or_internal r1
    r2 ← on_shelf (Storage.delete_owned id)
    or_internal r2
    r3 ← on_tables (revoke_all_for_subject env.json id)
    or_internal r3
    r4 ← on_tables (delete_user id)
    or_internal r4
    record_logged env d (codes "user_delete") (owner_actor o) (user_target user) none
    pure (see_other (codes "/admin/ui/users"))

  unfoldable pub handle_revoke_user_sessions : Owner → Text → Handler Reply
  unfolding run_part record_logged
  handle_revoke_user_sessions o id = do
    r ← on_tables (get_user id)
    user ← settle (λ e. plain 404) (plain 404) r
    r1 ← on_tables (revoke_all_sessions id)
    n ← or_internal r1
    record_logged env d (codes "user_sessions_revoked") (owner_actor o) (user_target user)
        (some (revoked n))
    pure (see_other (codes "/admin/ui/users/" ++ id))
