-- ===== src/AdminUi/Studio.antt =====
-- internal/adminui/server.go: SQL Studio. What database/sql and SQLite make of a statement's text
-- is a parameter.
use maubase.Prelude.{
  ℕ, Text, codes, Bool, true, false, ◌||◌, Option, none, some, List, [], ◌∷◌, ◌++◌, take, length,
  leb, has_prefix, if◌then◌else◌,
}
use maubase.Sql.{Result, ok, err, failed, pure, raise, ◌>>=◌, ◌>>◌}
use maubase.Schema.{Tables}
use maubase.Email.{trim_space}
use maubase.OwnerAuth.{Owner}
use maubase.RestApi.Sqlite.{Value, Store}
use maubase.RestApi.Discovery.{Registry, to_upper}
use maubase.RestApi.Tables.{Refusal, reload_schema}
use maubase.Server.World.{
  Env, Drawn, sql, Reply, page_error, sql_rows, sql_affected, plain, with_body, Handler, run_part,
  on_data, record_logged, nothing,
}
use maubase.Server.Owners.{owner_actor}
use maubase.AdminUi.Pages.{Form, form_value}

-- QueryContext with reading all its rows, and ExecContext with RowsAffected; none for an error.
pub record Studio : Type 0 where
  pub query : Text → Tables → Store → Option (List Text × List (List Value)) × Tables × Store
  pub exec : Text → Tables → Store → Option ℕ × Tables × Store

-- What runSQL returns.
pub data Outcome : Type 0 where
  rows : List Text → List (List Value) → Outcome
  affected : ℕ → Outcome
  broken : Outcome

-- On the text in upper case.
unfoldable pub is_query : Text → Bool
is_query upper =
    has_prefix upper (codes "SELECT")
    || has_prefix upper (codes "PRAGMA")
    || has_prefix upper (codes "EXPLAIN")
    || has_prefix upper (codes "WITH")

-- The mark of what is left out is the three bytes of U+2026.
unfoldable pub truncate_query : Text → ℕ → Text
truncate_query q n = if leb (length q) n then q else take n q ++ 226 ∷ 128 ∷ 166 ∷ []

module _ (env : Env) (studio : Studio) (upper : Text → Text) where
  abbrev queried : Option (List Text × List (List Value)) → Outcome
  queried none = broken
  queried (some (columns, values)) = rows columns values

  abbrev executed : Option ℕ → Outcome
  executed none = broken
  executed (some n) = affected n

  unfoldable pub run_sql : Text → Handler Outcome
  unfolding is_query to_upper trim_space
  run_sql text db =
      let trimmed = trim_space env.unicode text in
      let (r, t, s) = studio.query trimmed db.tables.tables db.tables.data_tables in
      let (r', t', s') = studio.exec trimmed db.tables.tables db.tables.data_tables in
      if is_query (to_upper upper trimmed)
      then (ok (queried r), record db { tables = record db.tables { tables = t; data_tables = s } })
      else (
        ok (executed r'),
        record db { tables = record db.tables { tables = t'; data_tables = s' } },
      )

  abbrev succeeded : Outcome → Bool
  succeeded broken = false
  succeeded (rows columns values) = true
  succeeded (affected n) = true

  abbrev loaded : Result Refusal Registry → Option Registry
  loaded (ok reg) = some reg
  loaded (err e) = none
  loaded failed = none

  unfoldable pub studio_page : Outcome → Handler Reply
  unfolding run_part reload_schema
  studio_page broken = pure (with_body 200 (page_error (codes "sql_studio")))
  studio_page (rows columns values) = pure (with_body 200 (sql_rows columns values))
  studio_page (affected n) = do
    r ← on_data (reload_schema upper)
    pure (with_body 200 (sql_affected n (loaded r)))

  unfoldable pub handle_sql_studio_run : Drawn → Owner → Option Form → Handler Reply
  unfolding run_sql record_logged truncate_query studio_page
  handle_sql_studio_run d o none = raise (plain 400)
  handle_sql_studio_run d o (some f) = do
    outcome ← run_sql (form_value (codes "query") f)
    record_logged env d (codes "sql_executed") (owner_actor o) nothing
        (some (sql (truncate_query (form_value (codes "query") f) 500) (succeeded outcome)))
    studio_page outcome
