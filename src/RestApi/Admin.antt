-- ===== src/RestApi/Admin.antt =====
-- internal/restapi/admin.go: the data browser's operations, which no rule and no owner limits. An
-- error of a statement keeps its message in the source; here it is internal.
use maubase.Prelude.{
  ℕ, Text, codes, ◌==◌, Bool, true, false, not, ◌&&◌, ◌||◌, Option, none, some, List, [], ◌∷◌, map,
  ltb, length, take, drop, sort_with, if◌then◌else◌, Assoc, lookup, remove,
}
use maubase.Sql.{Sql, pure, or_raise, from_option, guard, query, exec_or, ◌>>=◌, ◌>>◌}
use maubase.Email.{lower_byte}
use maubase.RestApi.Sqlite.{Value, Json, Column, Row, Table, Store, table_named, column_named}
use maubase.RestApi.Discovery.{Collection, Registry, all, has_column}
use maubase.RestApi.Statements.{
  Reply, missing, scan_row, at_pk, fetch_by_pk, insert_row, update_rows, delete_rows,
}
use maubase.RestApi.Requests.{is_empty, Server, stamp_key, key_of, publish, event, owner_gate_value}
use maubase.RestApi.{gate_before_delete}

abbrev pub admin_collections : Registry → List Collection
admin_collections = all

abbrev pub admin_collection : Registry → Text → Option Collection
admin_collection reg name = lookup name reg

-- ORDER BY: the column, and whether it falls; a second column where it is not the key.
pub record Order : Type 0 where
  pub column : Text
  pub is_descending : Bool
  pub then_key : Bool

-- strings.EqualFold with "desc". U+017F, which is 197 191 in UTF-8, folds to 's'.
unfoldable pub is_desc : Text → Bool
unfolding lower_byte
is_desc s = let t = map lower_byte s in t == codes "desc" || t == 100 ∷ 101 ∷ 197 ∷ 191 ∷ 99 ∷ []

unfoldable pub order_of : Collection → Text → Text → Order
unfolding has_column is_desc
order_of col sort_col sort_dir =
    let column = if has_column col sort_col then sort_col else col.pk_column in
    record {
      column = column;
      is_descending = is_desc sort_dir;
      then_key = not (column == col.pk_column);
    }

abbrev pub counted : Option Table → Option ℕ
counted none = none
counted (some t) = some (length t.rows)

unfoldable pub admin_count_rows : Collection → Sql Store Reply ℕ
admin_count_rows col = do n ← query (λ s. counted (table_named col.name s.tables)); from_option n

-- `le` is SQLite's order on the values of a column.
module _ (le : Column → Value → Value → Bool) where
  abbrev le_values : Option Column → Option Value → Option Value → Bool
  le_values none v w = true
  le_values (some c) none w = true
  le_values (some c) (some v) none = true
  le_values (some c) (some v) (some w) = le c v w

  abbrev le_at : List Column → Text → Row → Row → Bool
  le_at columns name x y = le_values (column_named name columns) (lookup name x) (lookup name y)

  abbrev le_first : List Column → Order → Row → Row → Bool
  le_first columns o x y =
      if o.is_descending then le_at columns o.column y x else le_at columns o.column x y

  unfoldable pub le_row : Collection → Order → List Column → Row → Row → Bool
  le_row col o columns x y =
      if le_first columns o x y
      then (if le_first columns o y x && o.then_key then le_at columns col.pk_column x y else true)
      else false

  abbrev sorted_rows : Collection → Order → Option Table → Option (List Row)
  sorted_rows col o none = none
  sorted_rows col o (some t) = some (sort_with (le_row col o t.columns) t.rows)

  unfoldable pub admin_list_rows : Collection → ℕ → ℕ → Text → Text → Sql Store Reply (List Row)
  unfolding order_of le_row
  admin_list_rows col limit offset sort_col sort_dir = do
    rows ←
        query
          (λ s. sorted_rows col (order_of col sort_col sort_dir) (table_named col.name s.tables))
    rows' ← from_option rows
    pure (map scan_row (take limit (drop offset rows')))

module _ (sv : Server) where
  open sv use {engine}

  -- sql.ErrNoRows is `missing`.
  unfoldable pub admin_get_row : Collection → Json → Sql Store Reply Row
  unfolding fetch_by_pk
  admin_get_row col pk = do row ← fetch_by_pk engine col pk false []; or_raise row missing

  unfoldable pub admin_create_row : Collection → Text → Assoc Json → Sql Store Reply Row
  unfolding insert_row admin_get_row publish owner_gate_value
  admin_create_row col new_id body = do
    let full = stamp_key col new_id body
    last ← exec_or (insert_row engine col.name full)
    row ← admin_get_row col (key_of col last full)
    publish sv col (event (codes "created") col (some (engine.encode row)) [])
        (owner_gate_value sv col row)
    pure row

  unfoldable pub change_row : Collection → Json → Assoc Json → Sql Store Reply Row
  unfolding update_rows admin_get_row publish owner_gate_value
  change_row col pk body = do
    n ← exec_or (update_rows engine col.name (at_pk engine col pk false []) body)
    row ← admin_get_row col pk
    publish sv col (event (codes "updated") col (some (engine.encode row)) [])
        (owner_gate_value sv col row)
    pure row

  unfoldable pub admin_update_row : Collection → Json → Assoc Json → Sql Store Reply Row
  unfolding change_row admin_get_row
  admin_update_row col pk body =
      let body' = remove col.pk_column body in
      if is_empty body' then admin_get_row col pk else change_row col pk body'

  -- `id` is fmt.Sprint of the key.
  unfoldable pub admin_delete_row : Collection → Json → Text → Sql Store Reply Unit
  unfolding gate_before_delete delete_rows publish
  admin_delete_row col pk id = do
    gate ← gate_before_delete sv col pk
    n ← exec_or (delete_rows engine col.name (at_pk engine col pk false []))
    guard (ltb 0 n) missing
    publish sv col (event (codes "deleted") col none id) gate
