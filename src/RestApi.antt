-- ===== src/RestApi.antt =====
-- internal/restapi/handlers.go: one function per handler, without HTTP.
pub mod Sqlite
pub mod Discovery
pub mod Exposing
pub mod Cells
pub mod Written
pub mod Outcomes
pub mod Reading
pub mod Listing
pub mod Visibility
pub mod Creating
pub mod Changing
pub mod Removing
pub mod Statements
pub mod Requests
pub mod Owned
pub mod Erasing
pub mod Admin
pub mod Tables
pub mod Examples
use maubase.Prelude.{
  ℕ, Text, codes, ◌==◌, Bool, true, false, not, ◌&&◌, ◌||◌, Option, none, some, List, [], ◌∷◌, ◌++◌,
  map, take, drop, ltb, leb, eqb, select, exists, if◌then◌else◌, Assoc, lookup, put, remove,
}
use maubase.Sql.{
  Sql, Result, ok, err, failed, pure, raise, fail, from_option, or_raise, guard, exec_or, query_or,
  effect, query, ◌>>=◌, ◌>>◌,
}
use maubase.Numbers.{atoi}
use maubase.Realtime.{Event}
use maubase.RestApi.Sqlite.{Value, Json, Column, Row, Table, Engine, Store, is_at, table_named}
use maubase.RestApi.Discovery.{
  Collection, Registry, Rule, rule_owner, rule_denied, has_column, owned_collections,
}
use maubase.RestApi.Statements.{
  Reply, listed, found, created, deleted, no_collection, forbidden, missing, bad_limit, bad_offset,
  limit_over, body_too_large, bad_json, nothing_to_update, unknown_field, nested_field,
  internal_error, normalize_value, scan_row, in_scope, at_pk, select_rows, fetch_by_pk, insert_row,
  update_rows, delete_rows,
}
use maubase.RestApi.Requests.{
  Request, Server, parse_pagination, collection, authorize_op, decode_body, stamp_owner, stamp_key,
  key_of, event, publish, printed, owner_gate_value, rule_scopes, mutable_fields, is_empty,
}

module _ (sv : Server) where
  open sv use {engine}

  unfoldable pub handle_list : Registry → Request → Sql Store Reply Reply
  unfolding parse_pagination select_rows
  handle_list reg r = do
    col ← collection reg r.collection
    authorize_op col.read_rule
    page ← parse_pagination r.limit r.offset
    rows ← select_rows col.name (in_scope engine col (rule_scopes col.read_rule) r.subject)
    pure (listed (map scan_row (take page.0 (drop page.1 rows))) page.0 page.1)

  unfoldable pub handle_get : Registry → Request → Sql Store Reply Reply
  unfolding fetch_by_pk
  handle_get reg r = do
    col ← collection reg r.collection
    authorize_op col.read_rule
    row ← fetch_by_pk engine col (Json.text r.id) (rule_scopes col.read_rule) r.subject
    row' ← or_raise row missing
    pure (found row')

  unfoldable pub store_row : Collection → Assoc Json → Sql Store Reply Reply
  unfolding insert_row fetch_by_pk publish owner_gate_value
  store_row col body = do
    last ← exec_or (insert_row engine col.name body)
    row ← fetch_by_pk engine col (key_of col last body) false []
    row' ← from_option row
    publish sv col (event (codes "created") col (some (engine.encode row')) [])
        (owner_gate_value sv col row')
    pure (created row')

  unfoldable pub handle_create : Registry → Request → Sql Store Reply Reply
  unfolding decode_body store_row
  handle_create reg r = do
    col ← collection reg r.collection
    authorize_op col.create_rule
    body ← decode_body col r.body
    store_row col (stamp_key col r.new_id (stamp_owner col r.subject body))

  -- A PATCH whose fields were all immutable.
  unfoldable pub read_back : Collection → Request → Sql Store Reply Reply
  unfolding fetch_by_pk
  read_back col r = do
    row ← fetch_by_pk engine col (Json.text r.id) (rule_scopes col.update_rule) r.subject
    row' ← or_raise row missing
    pure (found row')

  unfoldable pub update_row : Collection → Request → Assoc Json → Sql Store Reply Reply
  unfolding update_rows fetch_by_pk publish owner_gate_value
  update_row col r body = do
    n ← exec_or (
        update_rows engine col.name
          (at_pk engine col (Json.text r.id) (rule_scopes col.update_rule) r.subject) body)
    guard (ltb 0 n) missing
    row ← fetch_by_pk engine col (Json.text r.id) false []
    row' ← from_option row
    publish sv col (event (codes "updated") col (some (engine.encode row')) [])
        (owner_gate_value sv col row')
    pure (found row')

  unfoldable pub update_with : Collection → Request → Assoc Json → Sql Store Reply Reply
  unfolding read_back update_row
  update_with col r body =
      if is_empty (mutable_fields col body)
      then guard (not (is_empty body)) nothing_to_update >> read_back col r
      else update_row col r (mutable_fields col body)

  unfoldable pub handle_update : Registry → Request → Sql Store Reply Reply
  unfolding decode_body update_with
  handle_update reg r = do
    col ← collection reg r.collection
    authorize_op col.update_rule
    body ← decode_body col r.body
    update_with col r body

  abbrev pub first_owner : Collection → List Row → Text
  first_owner col [] = []
  first_owner col (r ∷ rows) = printed sv (lookup col.owner_column (scan_row r))

  -- ownerValueForPK, and the empty text where the code ignores its error.
  abbrev pub owner_in : Collection → Json → Option Table → Text
  owner_in col pk none = []
  owner_in col pk (some t) =
      first_owner col (select (is_at engine t.columns col.pk_column pk) t.rows)

  unfoldable pub owner_value_for_pk : Collection → Json → Sql Store Reply Text
  owner_value_for_pk col pk = query_or [] (λ s. owner_in col pk (table_named col.name s.tables))

  unfoldable pub gate_before_delete : Collection → Json → Sql Store Reply Text
  unfolding owner_value_for_pk
  gate_before_delete col pk =
      if col.read_rule == rule_owner && not (col.owner_column == [])
      then owner_value_for_pk col pk
      else pure []

  unfoldable pub handle_delete : Registry → Request → Sql Store Reply Reply
  unfolding gate_before_delete delete_rows publish
  handle_delete reg r = do
    col ← collection reg r.collection
    authorize_op col.delete_rule
    gate ← gate_before_delete col (Json.text r.id)
    n ← exec_or (
        delete_rows engine col.name
          (at_pk engine col (Json.text r.id) (rule_scopes col.delete_rule) r.subject))
    guard (ltb 0 n) missing
    publish sv col (event (codes "deleted") col none r.id) gate
    pure deleted

-- What the client is sent.
abbrev pub answer : Result Reply Reply → Reply
answer (ok a) = a
answer (err a) = a
answer failed = internal_error
