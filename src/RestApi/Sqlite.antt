-- ===== src/RestApi/Sqlite.antt =====
-- The application's own tables as internal/restapi and internal/adminui see them, with what SQLite
-- does to a value, a row or a statement as a parameter.
use maubase.Prelude.{
  ℕ, take, drop, ◌++◌, Text, ◌==◌, Bool, false, Option, none, some, List, [], ◌∷◌, first, Assoc,
  lookup, if◌then◌else◌,
}
use maubase.Realtime.{Event}

-- A value as the driver returns it. `num` is any other scalar, by the text that fmt.Sprint makes.
pub data Value : Type 0 where
  null : Value
  num text bytes : Text → Value

-- A value as a request or the code gives it.
pub data Json : Type 0 where
  null : Json
  bool : Bool → Json
  num text : Text → Json
  -- An object or an array.
  nested : Json

pub record Column : Type 0 where
  pub name : Text
  pub decl_type : Text
  pub not_null : Bool
  pub is_pk : Bool

-- A row's values by column name.
abbrev pub Row : Type 0
Row = Assoc Value

-- A table in sqlite_master, with what PRAGMA table_info says and its rows in rowid order.
pub record Table : Type 0 where
  pub name : Text
  pub columns : List Column
  pub rows : List Row

pub record PolicyRow : Type 0 where
  pub collection : Text
  pub operation : Text
  pub rule : Text

-- `store` is what a column keeps of a bound value, `same` whether `column = ?` holds, `fill` what a
-- column gets that INSERT leaves out, `refuse` the message of the constraint that a table's new
-- rows violate, `place` how many rows of the table come before a new one in rowid order (an INTEGER
-- key that the client gives is the row's rowid), `last_id` the result's LastInsertId, `print`
-- fmt.Sprint of a value, and `encode` what encoding/json makes of a record.
pub record Engine : Type 0 where
  pub store : Column → Json → Value
  pub same : Column → Value → Json → Bool
  pub fill : Table → Column → Value
  pub refuse : List Table → Table → List Row → Option Text
  pub place : Table → Row → ℕ
  pub last_id : Table → Row → Json
  pub print : Value → Text
  pub encode : Row → Text

-- The rows of a table with a new one at its place.
abbrev pub with_row : Engine → Table → Row → List Row
with_row e t row = take (e.place t row) t.rows ++ row ∷ drop (e.place t row) t.rows

abbrev pub column_named : Text → List Column → Option Column
column_named name = first (λ c. c.name == name)

module _ (e : Engine) where
  abbrev pub compared : Option Column → Option Value → Json → Bool
  compared none v j = false
  compared (some c) none j = false
  compared (some c) (some v) j = e.same c v j

  -- WHERE name = ?
  unfoldable pub is_at : List Column → Text → Json → Row → Bool
  is_at columns name j r = compared (column_named name columns) (lookup name r) j

  abbrev pub given : Table → Column → Option Json → Value
  given t c none = e.fill t c
  given t c (some j) = e.store c j

  -- The row that INSERT makes of the columns and values listed.
  unfoldable pub new_row : Table → Assoc Json → List Column → Row
  new_row t body [] = []
  new_row t body (c ∷ columns) = (c.name, given t c (lookup c.name body)) ∷ new_row t body columns

  abbrev pub set_value : List Column → Text → Value → Option Json → Value
  set_value columns name v none = v
  set_value columns name v (some j) = elim (column_named name columns) [
    | none ↦ v
    | some c ↦ e.store c j
  ]

  -- SET name = ?, ... of the columns and values listed.
  unfoldable pub set_row : List Column → Assoc Json → Row → Row
  set_row columns body [] = []
  set_row columns body ((name, v) ∷ r) =
      (name, set_value columns name v (lookup name body)) ∷ set_row columns body r

abbrev pub table_named : Text → List Table → Option Table
table_named name = first (λ t. t.name == name)

-- The tables, with other rows in one of them.
unfoldable pub with_rows : Text → List Row → List Table → List Table
with_rows name rows [] = []
with_rows name rows (t ∷ ts) =
    let rest = with_rows name rows ts in
    if t.name == name then record t { rows = rows } ∷ ts else t ∷ rest

-- What the handlers work on: the tables, the rows of _policies, and the calls made of
-- Broker.Publish, each an event and the owner it is for, oldest first.
pub record Store : Type 0 where
  pub tables : List Table
  pub policies : List PolicyRow
  pub published : List (Event × Text)
