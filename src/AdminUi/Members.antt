-- ===== src/AdminUi/Members.antt =====
-- internal/adminui/server.go: the accounts of the owner plane.
use maubase.Prelude.{Text, codes, true, false, Option, none, some, []}
use maubase.Sql.{Result, ok, err, failed, pure, raise, ◌>>=◌, ◌>>◌}
use maubase.OwnerAuth.{Error, Owner, list_owners, create_owner, delete_owner}
use maubase.Server.World.{
  Env, Drawn, Meta, Reply, owners_page, plain, with_body, Handler, run_part, on_tables, or_internal,
  record_logged,
}
use maubase.Server.Owners.{owner_actor, owner_target}
use maubase.AdminUi.Pages.{Form, form_value, see_other, or_none}

module _ (env : Env) (d : Drawn) where
  unfoldable pub handle_owners_page : Handler Reply
  unfolding run_part
  handle_owners_page = do
    r ← on_tables list_owners
    owners ← or_internal r
    pure (with_body 200 (owners_page false owners))

  unfoldable pub render_owners_with_error : Handler Reply
  unfolding run_part
  render_owners_with_error = do
    r ← on_tables list_owners
    pure (with_body 200 (owners_page true (or_none [] r)))

  abbrev pub owner_created : Owner → Result Error Owner → Handler Reply
  owner_created actor (ok o) = do
    record_logged env d (codes "owner_create") (owner_actor actor) (owner_target o)
        (some (Meta.role o.role))
    pure (see_other (codes "/admin/ui/owners"))
  owner_created actor (err e) = render_owners_with_error
  owner_created actor failed = render_owners_with_error

  unfoldable pub handle_create_owner : Owner → Option Form → Handler Reply
  unfolding run_part record_logged render_owners_with_error
  handle_create_owner actor none = raise (plain 400)
  handle_create_owner actor (some f) = do
    r ← on_tables (
        create_owner env.crypto env.unicode d.first (form_value (codes "email") f)
          (form_value (codes "password") f) (form_value (codes "role") f))
    owner_created actor r

  abbrev pub owner_deleted : Owner → Result Error Owner → Handler Reply
  owner_deleted actor (ok o) = do
    record_logged env d (codes "owner_delete") (owner_actor actor) (owner_target o)
        (some (Meta.role o.role))
    pure (see_other (codes "/admin/ui/owners"))
  owner_deleted actor (err e) = render_owners_with_error
  owner_deleted actor failed = render_owners_with_error

  unfoldable pub handle_delete_owner : Owner → Text → Handler Reply
  unfolding run_part record_logged render_owners_with_error
  handle_delete_owner actor id = do r ← on_tables (delete_owner id); owner_deleted actor r
