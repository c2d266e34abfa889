-- ===== src/RestApi/Owned.antt =====
-- internal/restapi/handlers.go: what account export and account erasure do to the collections of
-- which rows have an owner.
use maubase.Prelude.{
  Text, codes, ◌==◌, Bool, true, false, none, some, List, [], ◌∷◌, map, Assoc, lookup,
}
use maubase.Sql.{Sql, pure, exec_or, ◌>>=◌, ◌>>◌}
use maubase.RestApi.Sqlite.{Json, Column, Row, Store, is_at}
use maubase.RestApi.Discovery.{Collection, Registry, rule_denied, owned_collections}
use maubase.RestApi.Statements.{Reply, scan_row, select_rows, delete_rows}
use maubase.RestApi.Requests.{Server, publish, event}

module _ (sv : Server) where
  open sv use {engine}

  abbrev pub owned_by : Collection → Text → List Column → Row → Bool
  owned_by col subj columns r = is_at engine columns col.owner_column (Json.text subj) r

  unfoldable pub export_all : List Collection → Text → Sql Store Reply (Assoc (List Row))
  unfolding select_rows
  export_all [] subj = pure []
  export_all (col ∷ cols) subj = elim (col.read_rule == rule_denied) [
    | true ↦ export_all cols subj
    | false ↦ do
      rows ← select_rows col.name (owned_by col subj)
      rest ← export_all cols subj
      pure ((col.name, map scan_row rows) ∷ rest)
  ]

  unfoldable pub export_owned : Registry → Text → Sql Store Reply (Assoc (List Row))
  unfolding export_all owned_collections
  export_owned reg subj = export_all (owned_collections reg) subj

  -- fmt.Sprint of a primary key; a value that is not normalized here.
  abbrev pub key_text : Collection → Row → Text
  key_text col r = elim (lookup col.pk_column r) [ none ↦ [] | some v ↦ engine.print v ]

  unfoldable pub pk_values_for_owner : Collection → Text → Sql Store Reply (List Text)
  unfolding select_rows
  pk_values_for_owner col subj = do
    rows ← select_rows col.name (owned_by col subj)
    pure (map (key_text col) rows)

  unfoldable pub publish_deleted : Collection → Text → List Text → Sql Store Reply Unit
  unfolding publish
  publish_deleted col subj [] = pure tt
  publish_deleted col subj (id ∷ ids) = do
    publish sv col (event (codes "deleted") col none id) subj
    publish_deleted col subj ids

  abbrev pub ids_if : Bool → Collection → Text → Sql Store Reply (List Text)
  ids_if true col subj = pk_values_for_owner col subj
  ids_if false col subj = pure []

  unfoldable pub delete_in : Collection → Text → Sql Store Reply Unit
  unfolding pk_values_for_owner delete_rows publish_deleted
  delete_in col subj = do
    ids ← ids_if sv.has_broker col subj
    n ← exec_or (delete_rows engine col.name (owned_by col subj))
    publish_deleted col subj ids

  unfoldable pub delete_all : List Collection → Text → Sql Store Reply Unit
  unfolding delete_in
  delete_all [] subj = pure tt
  delete_all (col ∷ cols) subj = do delete_in col subj; delete_all cols subj

  unfoldable pub delete_owned : Registry → Text → Sql Store Reply Unit
  unfolding delete_all owned_collections
  delete_owned reg subj = delete_all (owned_collections reg) subj
