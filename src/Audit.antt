-- ===== src/Audit.antt =====
-- internal/audit: the audit log, one row for each security-relevant action. encoding/json is a
-- parameter, over whatever a JSON object holds; a row's id and the clock are arguments.
-- RecordLogged is Record with its error written to the process log.
pub mod Listing
pub mod Examples
use maubase.Prelude.{
  ℕ, ◌+◌, Text, ◌==◌, Bool, true, false, ◌&&◌, ◌||◌, Option, none, some, List, [], ◌∷◌, ◌++◌, take,
  drop, ltb, eqb, text_leb, if◌then◌else◌, exists, sort_with,
}
use maubase.Sql.{Sql, pure, query, exec_checked, from_option, ◌>>=◌, ◌>>◌}
use maubase.Schema.{AuditRow, Tables}

-- json.Marshal and json.Unmarshal of a map[string]any.
pub record Codec (M : Type 0) : Type 0 where
  pub marshal : M → Option Text
  pub unmarshal : Text → Option M

pub record Actor : Type 0 where
  pub id : Text
  pub email : Text

pub record Target : Type 0 where
  pub id : Text
  pub email : Text

pub record Entry (M : Type 0) : Type 0 where
  pub id : Text
  pub event : Text
  pub actor_id : Text
  pub actor_email : Text
  pub target_id : Text
  pub target_email : Text
  pub metadata : Option M
  pub created_at : ℕ

pub data Error : Type 0 where

unfoldable pub null_if_empty : Text → Option Text
null_if_empty [] = none
null_if_empty (b ∷ bs) = some (b ∷ bs)

-- sql.NullString.String
unfoldable pub string_of : Option Text → Text
string_of none = []
string_of (some s) = s

unfoldable pub insert_entry : AuditRow → Tables → Option Tables
insert_entry r t =
    if exists (λ x. x.id == r.id) t.audit_log
    then none
    else some (record t { audit_log = t.audit_log ++ r ∷ [] })

-- ORDER BY created_at DESC, id DESC
unfoldable pub newest : AuditRow → AuditRow → Bool
newest x y = ltb y.created_at x.created_at || (eqb y.created_at x.created_at && text_leb y.id x.id)

module _ {M : Type 0} (c : Codec M) where
  unfoldable pub marshal_metadata : Option M → Option (Option Text)
  marshal_metadata none = some none
  marshal_metadata (some m) = elim (c.marshal m) [ none ↦ none | some j ↦ some (some j) ]

  unfoldable pub audit_row : Text → ℕ → Text → Actor → Target → Option Text → AuditRow
  unfolding null_if_empty
  audit_row id now event actor target metadata = record {
    id = id;
    event = event;
    actor_id = null_if_empty actor.id;
    actor_email = null_if_empty actor.email;
    target_id = null_if_empty target.id;
    target_email = null_if_empty target.email;
    metadata = metadata;
    created_at = now;
  }

  unfoldable pub write : Text → ℕ → Text → Actor → Target → Option M → Sql Tables Error Unit
  unfolding marshal_metadata audit_row insert_entry
  write id now event actor target metadata = do
    encoded ← from_option (marshal_metadata metadata)
    exec_checked (insert_entry (audit_row id now event actor target encoded))

  unfoldable pub read_metadata : Option Text → Option (Option M)
  read_metadata none = some none
  read_metadata (some []) = some none
  read_metadata (some (b ∷ bs)) = elim (c.unmarshal (b ∷ bs)) [
    | none ↦ none
    | some m ↦ some (some m)
  ]

  abbrev pub entry_with : AuditRow → Option M → Entry M
  entry_with r metadata = record {
    id = r.id;
    event = r.event;
    actor_id = string_of r.actor_id;
    actor_email = string_of r.actor_email;
    target_id = string_of r.target_id;
    target_email = string_of r.target_email;
    metadata = metadata;
    created_at = r.created_at;
  }

  abbrev pub add_entry :
      AuditRow → Option (Option M) → Option (List (Entry M)) → Option (List (Entry M))
  add_entry r none rest = none
  add_entry r (some m) none = none
  add_entry r (some m) (some rest) = some (entry_with r m ∷ rest)

  -- The loop over the rows, which ends at the first whose metadata does not decode.
  unfoldable pub read_rows : List AuditRow → Option (List (Entry M))
  unfolding read_metadata
  read_rows [] = some []
  read_rows (r ∷ rows) = add_entry r (read_metadata r.metadata) (read_rows rows)

  abbrev pub page : ℕ → ℕ → Tables → List AuditRow
  page limit offset t = take limit (drop offset (sort_with newest t.audit_log))

  unfoldable pub list : ℕ → ℕ → Sql Tables Error (List (Entry M))
  unfolding read_rows
  list limit offset = do rows ← query (page limit offset); from_option (read_rows rows)
