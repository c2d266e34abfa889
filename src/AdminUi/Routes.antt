-- ===== src/AdminUi/Routes.antt =====
-- internal/adminui/server.go: Mount. Which role each route asks for; a call is a request that the
-- router has matched, with the parameters that its handler reads. Less the static files, signing in
-- and out, which ask for no role, and the fragment that is one more empty row of the table form.
use maubase.Prelude.{Text, codes, Bool, Option}
use maubase.Sql.{pure}
use maubase.OwnerAuth.{Owner}
use maubase.OwnerAuth.Roles.{viewer, developer, admin, owner}
use maubase.RestApi.Sqlite.{Column, Value}
use maubase.Server.World.{Env, Drawn, Reply, page, with_body, Handler}
use maubase.AdminUi.Pages.{Form, require_role, handle_audit_log_page, handle_purge_sessions}
use maubase.AdminUi.Members.{handle_owners_page, handle_create_owner, handle_delete_owner}
use maubase.AdminUi.Users.{
  handle_users_page, handle_user_detail, handle_create_user, handle_delete_user,
  handle_revoke_user_sessions,
}
use maubase.AdminUi.Data.{
  handle_data_collections, handle_data_rows, handle_data_row, handle_data_create,
  handle_data_update, handle_data_delete, handle_create_table,
}
use maubase.AdminUi.Studio.{Studio, handle_sql_studio_run}

pub data UiCall : Type 0 where
  dashboard collections : UiCall
  -- The collection, and limit, offset, sort and dir.
  browse : Text → Text → Text → Text → Text → UiCall
  row_fragment : Text → Text → UiCall
  user_list : Text → Text → UiCall
  user_detail : Text → UiCall
  -- The id that a new row gets, the collection and the form.
  add_row : Text → Text → Option Form → UiCall
  edit_form edit_fragment : Text → Text → UiCall
  change_row : Bool → Text → Text → Option Form → UiCall
  remove_row : Bool → Text → Text → UiCall
  add_user : Text → Text → Option Form → UiCall
  remove_user sign_out_user : Text → UiCall
  new_table : UiCall
  add_table : Option Form → UiCall
  members : UiCall
  audit_log : Text → Text → UiCall
  maintenance purge : UiCall
  add_member : Option Form → UiCall
  remove_member : Text → UiCall
  studio : UiCall
  run_statement : Option Form → UiCall

-- What stands in no table besides Env: SQLite's order on the values of a column, SQL Studio, and
-- what strings.ToUpper makes of a text that is not ASCII.
pub record Ui : Type 0 where
  pub le : Column → Value → Value → Bool
  pub studio : Studio
  pub upper : Text → Text

-- handleDashboard, handleNewTablePage, handleMaintenancePage and handleSQLStudioPage.
abbrev pub static_page : Text → Handler Reply
static_page name = pure (with_body 200 (page name))

module _ (env : Env) (ui : Ui) (d : Drawn) where
  -- r.Use(s.requireRole(min)) of a group.
  abbrev viewers : Option Text → (Owner → Handler Reply) → Handler Reply
  viewers = require_role env d viewer

  abbrev developers : Option Text → (Owner → Handler Reply) → Handler Reply
  developers = require_role env d developer

  abbrev admins : Option Text → (Owner → Handler Reply) → Handler Reply
  admins = require_role env d admin

  abbrev owners : Option Text → (Owner → Handler Reply) → Handler Reply
  owners = require_role env d owner

  unfoldable pub mount : Option Text → UiCall → Handler Reply
  unfolding require_role handle_owners_page handle_create_owner handle_delete_owner
      handle_users_page handle_user_detail handle_create_user handle_delete_user
      handle_revoke_user_sessions handle_audit_log_page handle_purge_sessions
      handle_data_collections handle_data_rows handle_data_row handle_data_create handle_data_update
      handle_data_delete handle_create_table handle_sql_studio_run
  mount c dashboard = viewers c (λ o. static_page (codes "dashboard"))
  mount c collections = viewers c (λ o. handle_data_collections env)
  mount c (browse name limit offset sort dir) =
      viewers c (λ o. handle_data_rows env ui.le name limit offset sort dir)
  mount c (row_fragment name id) = viewers c (λ o. handle_data_row env (codes "data_row") name id)
  mount c (user_list limit offset) = viewers c (λ o. handle_users_page env d limit offset)
  mount c (user_detail id) = viewers c (λ o. handle_user_detail env d id)
  mount c (add_row new_id name f) = developers c (λ o. handle_data_create env new_id name f)
  mount c (edit_form name id) =
      developers c (λ o. handle_data_row env (codes "data_row_edit") name id)
  mount c (edit_fragment name id) =
      developers c (λ o. handle_data_row env (codes "data_row_edit_inline") name id)
  mount c (change_row htmx name id f) = developers c (λ o. handle_data_update env htmx name id f)
  mount c (remove_row htmx name id) = developers c (λ o. handle_data_delete env htmx name id)
  mount c (add_user limit offset f) = developers c (λ o. handle_create_user env d limit offset o f)
  mount c (remove_user id) = developers c (λ o. handle_delete_user env d o id)
  mount c (sign_out_user id) = developers c (λ o. handle_revoke_user_sessions env d o id)
  mount c new_table = developers c (λ o. static_page (codes "tables_new"))
  mount c (add_table f) = developers c (λ o. handle_create_table env ui.upper f)
  mount c members = admins c (λ o. handle_owners_page env d)
  mount c (audit_log limit offset) = admins c (λ o. handle_audit_log_page env d limit offset)
  mount c maintenance = admins c (λ o. static_page (codes "maintenance"))
  mount c purge = admins c (λ o. handle_purge_sessions env d o)
  mount c (add_member f) = owners c (λ o. handle_create_owner env d o f)
  mount c (remove_member id) = owners c (λ o. handle_delete_owner env d o id)
  mount c studio = owners c (λ o. static_page (codes "sql_studio"))
  mount c (run_statement f) = owners c (λ o. handle_sql_studio_run env ui.studio ui.upper d o f)
