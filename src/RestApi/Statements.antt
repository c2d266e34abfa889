-- ===== src/RestApi/Statements.antt =====
-- internal/restapi: the statements that the handlers send, and what they make of an error. SELECT
-- has no ORDER BY here; the rows come in rowid order.
use maubase.Prelude.{
  ℕ, Text, codes, Bool, true, ◌&&◌, ◌||◌, Option, none, some, List, [], ◌∷◌, map, length, drop, eqb,
  select, delete, update, count, has_prefix, contains, if◌then◌else◌, Assoc,
}
use maubase.Sql.{Sql, Ran, refused, ran, pure, from_option, query, ◌>>=◌}
use maubase.RestApi.Sqlite.{
  Value, Json, Column, Row, Table, Engine, Store, is_at, new_row, set_row, table_named, with_rows,
  with_row,
}
use maubase.RestApi.Discovery.{Collection}

-- What a handler answers, each with its status: 200, 201 and 204 first, then the errors.
pub data Reply : Type 0 where
  listed : List Row → ℕ → ℕ → Reply
  found created : Row → Reply
  deleted : Reply
  no_collection forbidden missing : Reply
  bad_limit bad_offset : Text → Reply
  limit_over : ℕ → Reply
  body_too_large bad_json nothing_to_update : Reply
  unknown_field nested_field missing_field : Text → Reply
  conflict check_failed bad_reference : Reply
  internal_error : Reply

-- What follows the first occurrence of `p`.
unfoldable pub after : Text → Text → Option Text
after p [] = if has_prefix [] p then some [] else none
after p (b ∷ s) =
    let rest = after p s in if has_prefix (b ∷ s) p then some (drop (length p) (b ∷ s)) else rest

-- Up to the first ' ' or '('.
unfoldable pub up_to_end : Text → Text
up_to_end [] = []
up_to_end (b ∷ s) = let rest = up_to_end s in if eqb b b' ' || eqb b b'(' then [] else b ∷ rest

-- What follows the last '.', or the first argument where there is none.
unfoldable pub after_dot : Text → Text → Text
after_dot part [] = part
after_dot part (b ∷ s) = after_dot (if eqb b b'.' then s else part) s

abbrev pub field_in : Option Text → Text
field_in none = codes "unknown"
field_in (some rest) = let name = up_to_end rest in after_dot name name

unfoldable pub field_from_constraint_error : Text → Text → Text
unfolding after up_to_end after_dot
field_from_constraint_error msg prefix = field_in (after prefix msg)

unfoldable pub write_write_error : Text → Reply
unfolding field_from_constraint_error
write_write_error msg =
    if contains msg (codes "UNIQUE constraint failed")
    then conflict
    else if contains msg (codes "NOT NULL constraint failed")
    then missing_field (field_from_constraint_error msg (codes "NOT NULL constraint failed: "))
    else if contains msg (codes "CHECK constraint failed")
    then check_failed
    else if contains msg (codes "FOREIGN KEY constraint failed")
    then bad_reference
    else internal_error

-- normalizeValue
abbrev pub normalize_value : Value → Value
normalize_value (Value.bytes b) = Value.text b
normalize_value v = v

abbrev pub scan_row : Row → Row
scan_row = map (λ (name, v). (name, normalize_value v))

-- A table that is gone makes the statement fail.
abbrev pub rows_where : (List Column → Row → Bool) → Option Table → Option (List Row)
rows_where p none = none
rows_where p (some t) = some (select (p t.columns) t.rows)

unfoldable pub select_rows : Text → (List Column → Row → Bool) → Sql Store Reply (List Row)
select_rows name p = do
  rows ← query (λ s. rows_where p (table_named name s.tables))
  from_option rows

abbrev pub head : List Row → Option Row
head [] = none
head (r ∷ rows) = some (scan_row r)

-- The end of a statement that leaves the rows given in the table.
abbrev pub ended_with :
    {A : Type 0} → A → List Row → Table → Store → (Text → Reply) → Option Text → Ran Store Reply A
ended_with a rows t s reply (some msg) = refused (reply msg)
ended_with a rows t s reply none = ran a (record s { tables = with_rows t.name rows s.tables })

module _ (e : Engine) where
  -- WHERE owner_id = ?, where the rule is RuleOwner.
  abbrev pub in_scope : Collection → Bool → Text → List Column → Row → Bool
  in_scope col scoped subject columns r =
      if scoped then is_at e columns col.owner_column (Json.text subject) r else true

  -- WHERE pk = ? [AND owner_id = ?]
  abbrev pub at_pk : Collection → Json → Bool → Text → List Column → Row → Bool
  at_pk col pk scoped subject columns r =
      is_at e columns col.pk_column pk r && in_scope col scoped subject columns r

  -- fetchByPK; no row is sql.ErrNoRows.
  unfoldable pub fetch_by_pk : Collection → Json → Bool → Text → Sql Store Reply (Option Row)
  unfolding select_rows
  fetch_by_pk col pk scoped subject = do
    rows ← select_rows col.name (at_pk col pk scoped subject)
    pure (head rows)

  abbrev pub inserted : Assoc Json → Option Table → Store → Ran Store Reply Json
  inserted body none s = refused internal_error
  inserted [] (some t) s = refused internal_error
  inserted (f ∷ body) (some t) s =
      let row = new_row e t (f ∷ body) t.columns in
      ended_with (e.last_id t row) (with_row e t row) t s write_write_error
        (e.refuse s.tables t (with_row e t row))

  -- INSERT; without columns, `INSERT INTO t () VALUES ()` is no SQL.
  unfoldable pub insert_row : Text → Assoc Json → Store → Ran Store Reply Json
  unfolding new_row write_write_error with_rows
  insert_row name body s = inserted body (table_named name s.tables) s

  abbrev pub updated :
      (List Column → Row → Bool) → Assoc Json → Option Table → Store → Ran Store Reply ℕ
  updated p body none s = refused internal_error
  updated p body (some t) s =
      let rows = update (p t.columns) (set_row e t.columns body) t.rows in
      ended_with (count (p t.columns) t.rows) rows t s write_write_error (e.refuse s.tables t rows)

  -- UPDATE, with the number of rows affected.
  unfoldable pub update_rows :
      Text → (List Column → Row → Bool) → Assoc Json → Store → Ran Store Reply ℕ
  unfolding set_row write_write_error with_rows
  update_rows name p body s = updated p body (table_named name s.tables) s

  abbrev pub removed : (List Column → Row → Bool) → Option Table → Store → Ran Store Reply ℕ
  removed p none s = refused internal_error
  removed p (some t) s =
      let rows = delete (p t.columns) t.rows in
      ended_with (count (p t.columns) t.rows) rows t s (λ msg. internal_error)
        (e.refuse s.tables t rows)

  -- DELETE, with the number of rows affected; any error of it is internal.
  unfoldable pub delete_rows : Text → (List Column → Row → Bool) → Store → Ran Store Reply ℕ
  unfolding with_rows
  delete_rows name p s = removed p (table_named name s.tables) s
