-- ===== src/RestApi/Tables.antt =====
-- internal/restapi/admin.go: AdminCreateTable. A table is what its CREATE TABLE declares; the text
-- of the statement is not kept.
use maubase.Prelude.{
  ℕ, Text, codes, ◌==◌, Bool, true, false, not, ◌&&◌, ◌||◌, List, [], ◌∷◌, ◌++◌, map, leb, eqb,
  exists, if◌then◌else◌,
}
use maubase.Sql.{Sql, Result, ok, err, failed, Ran, refused, ran, pure, guard, exec_or, ◌>>=◌, ◌>>◌}
use maubase.Email.{lower_byte}
use maubase.RestApi.Sqlite.{Column, Store}
use maubase.RestApi.Discovery.{Registry, Error, is_reserved, owner_column_name, discover}

-- The errors of AdminCreateTable, `bad_` for a pattern that does not match; `not_created` is one of
-- the statement, `not_loaded` one of ReloadSchema, whose own error the source wraps.
pub data Refusal : Type 0 where
  bad_table_name reserved_name bad_column_name repeated_column : Text → Refusal
  bad_type : Text → Text → Refusal
  not_created not_loaded : Refusal

abbrev is_lower : ℕ → Bool
is_lower b = leb 97 b && leb b 122

abbrev is_ident : ℕ → Bool
is_ident b = is_lower b || (leb 48 b && leb b 57) || eqb b b'_'

unfoldable pub all_ident : Text → Bool
all_ident [] = true
all_ident (b ∷ s) = is_ident b && all_ident s

-- identifierRe
unfoldable pub identifier_re : Text → Bool
unfolding all_ident
identifier_re [] = false
identifier_re (b ∷ s) = is_lower b && all_ident s

abbrev pub admin_allowed_column_types : List Text
admin_allowed_column_types = codes "TEXT" ∷ codes "INTEGER" ∷ codes "REAL" ∷ []

unfoldable pub is_allowed_column_type : Text → Bool
is_allowed_column_type t = exists (λ a. a == t) admin_allowed_column_types

pub record AdminColumnDef : Type 0 where
  pub name : Text
  pub kind : Text
  pub required : Bool

abbrev pub column_def : Text → Text → Bool → Bool → Column
column_def name kind required key = record {
  name = name;
  decl_type = kind;
  not_null = required;
  is_pk = key;
}

-- What every table starts with. A TEXT PRIMARY KEY may be NULL in SQLite.
unfoldable pub first_columns : Bool → List Column
first_columns true =
    column_def (codes "id") (codes "TEXT") false true
    ∷ column_def owner_column_name (codes "TEXT") true false
    ∷ []
first_columns false = column_def (codes "id") (codes "TEXT") false true ∷ []

-- The loop over the columns, with the definitions so far, of which the names are those seen.
unfoldable pub column_defs : List AdminColumnDef → List Column → Sql Store Refusal (List Column)
unfolding identifier_re is_allowed_column_type
column_defs [] defs = pure defs
column_defs (c ∷ columns) defs = elim (c.name == []) [
  | true ↦ column_defs columns defs
  | false ↦ do
    guard (identifier_re c.name) (bad_column_name c.name)
    guard (not (exists (λ d. d.name == c.name) defs)) (repeated_column c.name)
    guard (is_allowed_column_type c.kind) (bad_type c.name c.kind)
    column_defs columns (defs ++ column_def c.name c.kind c.required false ∷ [])
]

-- CREATE TABLE; SQLite compares names without case.
unfoldable pub create_table : Text → List Column → Store → Ran Store Refusal Unit
unfolding lower_byte
create_table name columns s =
    if exists (λ t. map lower_byte t.name == name) s.tables
    then refused not_created
    else ran tt (record s {
      tables = s.tables ++ record { name = name; columns = columns; rows = [] } ∷ [];
    })

abbrev reloaded : Result Error Registry → Result Refusal Registry
reloaded (ok reg) = ok reg
reloaded (err e) = err not_loaded
reloaded failed = err not_loaded

-- ReloadSchema; the new registry is the one that the server uses from now on.
unfoldable pub reload_schema : (Text → Text) → Sql Store Refusal Registry
unfolding discover
reload_schema upper db = let (r, db') = discover upper db in (reloaded r, db')

unfoldable pub admin_create_table :
    (Text → Text) → Text → Bool → List AdminColumnDef → Sql Store Refusal Registry
unfolding identifier_re is_reserved first_columns column_defs create_table reload_schema
admin_create_table upper name owner_scoped columns = do
  guard (identifier_re name) (bad_table_name name)
  guard (not (is_reserved name)) (reserved_name name)
  defs ← column_defs columns (first_columns owner_scoped)
  exec_or (create_table name defs)
  reload_schema upper
