-- ===== src/AdminUi/Data.antt =====
-- internal/adminui/server.go: the data browser, and creating a table. Go ranges over the form's map
-- in any order; here the columns of a new table are in the form's.
use maubase.Prelude.{
  Text, codes, ◌==◌, Bool, true, false, not, ◌&&◌, Option, none, some, List, [], ◌∷◌, ◌++◌, drop,
  length, has_prefix, if◌then◌else◌, Assoc, lookup,
}
use maubase.Sql.{Result, ok, err, failed, pure, raise, or_raise, ◌>>=◌, ◌>>◌}
use maubase.RestApi.Sqlite.{Value, Json, Column, Row}
use maubase.RestApi.Statements.{Reply as Answer, missing}
use maubase.RestApi.Discovery.{Collection, Registry}
use maubase.RestApi.Admin.{
  admin_collections, admin_collection, admin_list_rows, admin_count_rows, admin_get_row,
  admin_create_row, admin_update_row, admin_delete_row,
}
use maubase.RestApi.Tables.{Refusal, AdminColumnDef, admin_create_table}
use maubase.Server.World.{
  Env, Reply, page_error, collections_page, rows_page, row_page, table_created, plain, with_body,
  Handler, run_part, on_data, settle, or_internal,
}
use maubase.AdminUi.Pages.{Form, form_value, see_other, parse_pagination}

abbrev pub has_field : Text → Form → Bool
has_field name f = elim (lookup name f) [ none ↦ false | some v ↦ true ]

abbrev pub text_field : Text → Option Text → Assoc Json → Assoc Json
text_field name none body = body
text_field name (some v) body = (name, Json.text v) ∷ body

-- The loop of formToBody over the columns.
unfoldable pub form_to_body : Form → List Column → Assoc Json
form_to_body f [] = []
form_to_body f (c ∷ columns) =
    let rest = form_to_body f columns in
    if has_field (c.name ++ codes "__null") f
    then (c.name, Json.null) ∷ rest
    else text_field c.name (lookup c.name f) rest

module _ (env : Env) where
  abbrev pub collection : Text → Handler Collection
  collection name = or_raise (admin_collection env.registry name) (plain 404)

  unfoldable pub handle_data_collections : Handler Reply
  handle_data_collections = pure (with_body 200 (collections_page (admin_collections env.registry)))

  -- `le` is SQLite's order on the values of a column.
  unfoldable pub handle_data_rows :
      (Column → Value → Value → Bool) → Text → Text → Text → Text → Text → Handler Reply
  unfolding run_part parse_pagination
  handle_data_rows le name limit offset sort dir = do
    col ← collection name
    (n, m) ← parse_pagination limit offset
    r ← on_data (admin_list_rows le col n m sort dir)
    rows ← or_internal r
    r' ← on_data (admin_count_rows col)
    total ← or_internal r'
    pure (with_body 200 (rows_page col rows n m total))

  -- The three handlers that show one row, in the template given.
  unfoldable pub handle_data_row : Text → Text → Text → Handler Reply
  unfolding run_part
  handle_data_row template name id = do
    col ← collection name
    r ← on_data (admin_get_row env.restapi col (Json.text id))
    row ← settle (λ e. plain 404) (plain 404) r
    pure (with_body 200 (row_page template col row))

  unfoldable pub handle_data_create : Text → Text → Option Form → Handler Reply
  unfolding run_part form_to_body
  handle_data_create new_id name form = do
    col ← collection name
    f ← or_raise form (plain 400)
    r ← on_data (admin_create_row env.restapi col new_id (form_to_body f col.columns))
    row ← settle (λ e. plain 400) (plain 400) r
    pure (see_other (codes "/admin/ui/data/" ++ name))

  abbrev pub updated : Bool → Text → Collection → Row → Reply
  updated htmx name col row =
      if htmx
      then with_body 200 (row_page (codes "data_row") col row)
      else see_other (codes "/admin/ui/data/" ++ name)

  -- `htmx` says whether the request has the header HX-Request.
  unfoldable pub handle_data_update : Bool → Text → Text → Option Form → Handler Reply
  unfolding run_part form_to_body
  handle_data_update htmx name id form = do
    col ← collection name
    f ← or_raise form (plain 400)
    r ← on_data (admin_update_row env.restapi col (Json.text id) (form_to_body f col.columns))
    row ← settle (λ e. plain 400) (plain 400) r
    pure (updated htmx name col row)

  -- A row that is not there is no error.
  abbrev pub unless_missing : Result Answer Unit → Handler Unit
  unless_missing (ok x) = pure tt
  unless_missing (err missing) = pure tt
  unless_missing (err e) = raise (plain 400)
  unless_missing failed = raise (plain 400)

  unfoldable pub handle_data_delete : Bool → Text → Text → Handler Reply
  unfolding run_part
  handle_data_delete htmx name id = do
    col ← collection name
    r ← on_data (admin_delete_row env.restapi col (Json.text id) id)
    unless_missing r
    pure (if htmx then plain 200 else see_other (codes "/admin/ui/data/" ++ name))

  -- One col_name_N of the form, with its type and its check box.
  abbrev pub column_def : Form → Text → Text → AdminColumnDef
  column_def f index value = record {
    name = value;
    kind = form_value (codes "col_type_" ++ index) f;
    required = form_value (codes "col_required_" ++ index) f == codes "1";
  }

  unfoldable pub form_columns : Form → Form → List AdminColumnDef
  form_columns f [] = []
  form_columns f ((k, v) ∷ more) =
      let rest = form_columns f more in
      if has_prefix k (codes "col_name_") && not (v == [])
      then column_def f (drop (length (codes "col_name_")) k) v ∷ rest
      else rest

  abbrev pub created : Text → Result Refusal Registry → Reply
  created name (ok reg) = record (see_other []) {
    body = some (table_created (codes "/admin/ui/data/" ++ name) reg);
  }
  created name (err e) = with_body 200 (page_error (codes "tables_new"))
  created name failed = with_body 200 (page_error (codes "tables_new"))

  -- `upper` is what strings.ToUpper makes of a text that is not ASCII.
  unfoldable pub handle_create_table : (Text → Text) → Option Form → Handler Reply
  unfolding run_part form_columns
  handle_create_table upper none = raise (plain 400)
  handle_create_table upper (some f) = do
    let name = form_value (codes "name") f
    let owner_scoped = form_value (codes "owner_scoped") f == codes "1"
    r ← on_data (admin_create_table upper name owner_scoped (form_columns f f))
    pure (created name r)
