-- ===== src/AdminUi/Viewing.antt =====
-- The pages that a viewer may open only look at the state.
use maubase.Prelude.{Text, codes, ◌==◌, ◌≡◌, refl, ap, ◌∙◌, ◌⊎◌, inl, inr, true, Option}
use maubase.Sql.{Result, ok, err, failed, Sql}
use maubase.Sql.Keeps.{Keeps, Keeps-pure, Keeps-raise, keeps_rules}
use maubase.Sql.Ensures.{Ensures}
use maubase.Auth.{
  get_user_by_id, list_users, count_users, count_active_sessions, list_social_identities,
  count_pending_reset_tokens,
}
use maubase.OwnerAuth.{Owner}
use maubase.OwnerAuth.Roles.{Role, viewer, developer, admin, owner, at_least, at_least_trans, rank}
use maubase.RestApi.Statements.{fetch_by_pk}
use maubase.RestApi.Admin.{admin_list_rows, admin_count_rows, admin_get_row}
use maubase.Server.World.{Env, Drawn, World, Reply, Handler, run_part, settle}
use maubase.Server.Access.{IsEntitled}
use maubase.AdminUi.Entry.{require_role-Ensures}
use maubase.AdminUi.Routes.{
  Ui, UiCall, dashboard, collections, browse, row_fragment, user_list, user_detail, add_row,
  edit_form, edit_fragment, change_row, remove_row, add_user, remove_user, sign_out_user, new_table,
  add_table, members, audit_log, maintenance, purge, add_member, remove_member, studio,
  run_statement, mount,
}
use maubase.AdminUi.Pages.{require_role, parse_limit, parse_offset, parse_pagination}
use maubase.AdminUi.Users.{handle_users_page, handle_user_detail}
use maubase.AdminUi.Data.{handle_data_collections, handle_data_rows, handle_data_row}

module _ {E A : Type 0} {T : Type 0} (w : World) where
  Keeps-run_part :
      (get : World → T) (set : T → World → World) (m : Sql T E A)
      → set (get w) w ≡ w
      → Keeps (λ t. t ≡ get w) m
      → Keeps (λ v. v ≡ w) (run_part get set m)
  unfolding run_part
  Keeps-run_part get set m back k = record {
    at = λ db h.
        ap (λ t. set t db.tables)
          (k.at (record { tables = get db.tables; faults = db.faults }) (ap get h))
        ∙ ap (set (get w)) h
        ∙ back;
  }

module _ {E A : Type 0} (w : World) where
  Keeps-settle :
      (f : E → Reply) (other : Reply) (r : Result E A) → Keeps (λ v. v ≡ w) (settle f other r)
  Keeps-settle f other (ok a) = Keeps-pure a
  Keeps-settle f other (err e) = Keeps-raise (f e)
  Keeps-settle f other failed = Keeps-raise other

ruleset looking = (keeps_rules, Keeps-run_part, Keeps-settle, refl)

module _ (env : Env) (d : Drawn) (w : World) where
  parse_pagination-Keeps :
      (limit offset : Text) → Keeps (λ v. v ≡ w) (parse_pagination limit offset)
  unfolding parse_pagination parse_limit parse_offset
  parse_pagination-Keeps limit offset = search keeps_rules depth 16

  handle_users_page-Keeps :
      (limit offset : Text) → Keeps (λ v. v ≡ w) (handle_users_page env d limit offset)
  unfolding handle_users_page list_users count_users
  handle_users_page-Keeps limit offset = search (looking, parse_pagination-Keeps) depth 20

  handle_user_detail-Keeps : (id : Text) → Keeps (λ v. v ≡ w) (handle_user_detail env d id)
  unfolding handle_user_detail get_user_by_id count_active_sessions list_social_identities
      count_pending_reset_tokens
  handle_user_detail-Keeps id = search looking depth 20

  handle_data_collections-Keeps : Keeps (λ v. v ≡ w) (handle_data_collections env)
  unfolding handle_data_collections
  handle_data_collections-Keeps = Keeps-pure _

  handle_data_rows-Keeps :
      (ui : Ui) (name limit offset sort dir : Text)
      → Keeps (λ v. v ≡ w) (handle_data_rows env ui.le name limit offset sort dir)
  unfolding handle_data_rows admin_list_rows admin_count_rows
  handle_data_rows-Keeps ui name limit offset sort dir =
      search (looking, parse_pagination-Keeps) depth 20

  handle_data_row-Keeps :
      (template name id : Text) → Keeps (λ v. v ≡ w) (handle_data_row env template name id)
  unfolding handle_data_row admin_get_row fetch_by_pk
  handle_data_row-Keeps template name id = search looking depth 20

module _ (env : Env) (ui : Ui) (d : Drawn) (w : World) (cookie : Option Text) where
  -- Nothing changes, or the caller is a developer or more.
  abbrev pub ViewPost : Result Reply Reply → World → Type 0
  ViewPost r w' = (w' ≡ w) ⊎ IsEntitled env d w cookie developer

  viewed :
      (m : Handler Reply)
      → Keeps (λ v. v ≡ w) m
      → Ensures ViewPost w (require_role env d viewer cookie (λ o. m))
  viewed m k =
      require_role-Ensures env d w ViewPost viewer cookie (λ o. m) (inl refl) (inl refl)
        (λ row e. record { at = λ bs. inl (k.at (record { tables = w; faults = bs }) refl) })

  -- A role of the upper groups is a developer or more.
  asked :
      (min : Role) (next : Owner → Handler Reply)
      → at_least min developer ≡ true
      → Ensures ViewPost w (require_role env d min cookie next)
  asked min next is_upper =
      require_role-Ensures env d w ViewPost min cookie next (inl refl) (inl refl)
        (λ row (token, row', same, live, reaches). record {
          at = λ bs.
              inr
                (token, row', same, live, at_least_trans row'.role min developer reaches is_upper);
        })

  -- Whoever makes any call of a UiCall, nothing changes, unless the cookie is the token of a
  -- session that has not expired of an account that is a developer or more; whichever statements
  -- fail.
  pub mount-View : (call : UiCall) → Ensures ViewPost w (mount env ui d cookie call)
  unfolding mount at_least rank ◌==◌
  mount-View dashboard = viewed _ (Keeps-pure _)
  mount-View collections = viewed _ (handle_data_collections-Keeps env d w)
  mount-View (browse name limit offset sort dir) =
      viewed _ (handle_data_rows-Keeps env d w ui name limit offset sort dir)
  mount-View (row_fragment name id) =
      viewed _ (handle_data_row-Keeps env d w (codes "data_row") name id)
  mount-View (user_list limit offset) = viewed _ (handle_users_page-Keeps env d w limit offset)
  mount-View (user_detail id) = viewed _ (handle_user_detail-Keeps env d w id)
  mount-View (add_row new_id name f) = asked developer _ refl
  mount-View (edit_form name id) = asked developer _ refl
  mount-View (edit_fragment name id) = asked developer _ refl
  mount-View (change_row htmx name id f) = asked developer _ refl
  mount-View (remove_row htmx name id) = asked developer _ refl
  mount-View (add_user limit offset f) = asked developer _ refl
  mount-View (remove_user id) = asked developer _ refl
  mount-View (sign_out_user id) = asked developer _ refl
  mount-View new_table = asked developer _ refl
  mount-View (add_table f) = asked developer _ refl
  mount-View members = asked admin _ refl
  mount-View (audit_log limit offset) = asked admin _ refl
  mount-View maintenance = asked admin _ refl
  mount-View purge = asked admin _ refl
  mount-View (add_member f) = asked owner _ refl
  mount-View (remove_member id) = asked owner _ refl
  mount-View studio = asked owner _ refl
  mount-View (run_statement f) = asked owner _ refl
