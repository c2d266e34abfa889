-- ===== src/RestApi/Examples.antt =====
-- A table of notes with an owner each, its collection and requests for it.
use maubase.Prelude.{
  length, ◌≡◌, refl, Text, codes, ◌==◌, Bool, true, false, none, some, [], ◌∷◌, select, exists,
  first, delete, has_prefix, contains, lookup, eq_of_some, count,
}
use maubase.Email.{is_ascii}
use maubase.Sql.{ok, err, Db, ◌>>=◌}
use maubase.Sql.Ensures.{Ensures}
use maubase.Realtime.{Conn, may_see}
use maubase.RestApi.Sqlite.{Value, Json, Column, Row, Table, Engine, Store, is_at, column_named}
use maubase.RestApi.Discovery.{
  Collection, Registry, rule_owner, discover, column_affinity, to_upper, is_misdeclared,
  is_reserved,
}
use maubase.RestApi.Statements.{missing, scan_row, in_scope, field_from_constraint_error}
use maubase.RestApi.Requests.{Body, fields, null, Request, Server, owner_gate_value, rule_scopes}
use maubase.RestApi.Exposing.{IsOf, AllExposed, DiscoverPost, discover-Ensures}
use maubase.RestApi.Visibility.{is_text, IsTextual, owner_gate_value-may_see}
use maubase.RestApi.Reading.{SameView, handle_list-handle_get}
use maubase.RestApi.Listing.{ListPost, handle_list-Ensures}
use maubase.RestApi.Creating.{CreatePost, handle_create-Ensures}
use maubase.RestApi.Changing.{UpdatePost, handle_update-Ensures}
use maubase.RestApi.Removing.{DeletePost, gate_at, handle_delete_lem}
use maubase.RestApi.{handle_list, handle_get, handle_create, handle_update, handle_delete}

abbrev column : Text → Bool → Column
column name key = record { name = name; decl_type = codes "TEXT"; not_null = false; is_pk = key }

-- Columns that keep what they are given, and compare texts.
abbrev keep : Json → Value
keep Json.null = Value.null
keep (Json.bool b) = Value.num (codes "1")
keep (Json.num s) = Value.num s
keep (Json.text s) = Value.text s
keep Json.nested = Value.null

abbrev equal : Value → Json → Bool
equal v Json.null = false
equal v (Json.bool b) = false
equal v (Json.num s) = false
equal v (Json.text s) = is_text v s
equal v Json.nested = false

abbrev print : Value → Text
print Value.null = codes "<nil>"
print (Value.num s) = s
print (Value.text s) = s
print (Value.bytes s) = s

abbrev engine : Engine
engine = record {
  store = λ c. keep;
  same = λ c. equal;
  fill = λ t c. Value.null;
  refuse = λ ts t rows. none;
  place = λ t r. length t.rows;
  last_id = λ t r. Json.num (codes "1");
  print = print;
  encode = λ r. [];
}

abbrev pub upper : Text → Text
upper s = s

textual : IsTextual upper engine
textual = record { stored = λ c s h. refl; compared = λ c v s h. refl; printed = λ s. refl }

abbrev note : Text → Value → Row
note id owner =
    (codes "id", Value.text id) ∷ (codes "owner_id", owner) ∷ (codes "text", Value.null) ∷ []

abbrev notes : Table
notes = record {
  name = codes "notes";
  columns =
      column (codes "id") true ∷ column (codes "owner_id") false ∷ column (codes "text") false ∷ [];
  rows =
      note (codes "n1") (Value.text (codes "ana"))
      ∷ note (codes "n2") (Value.text (codes "bo"))
      ∷ [];
}

abbrev users : Table
users = record { name = codes "users"; columns = column (codes "id") true ∷ []; rows = [] }

abbrev pub store : Store
store = record { tables = users ∷ notes ∷ []; policies = []; published = [] }

-- The same without bo's note.
abbrev less : Store
less = record store {
  tables = users ∷ record notes { rows = note (codes "n1") (Value.text (codes "ana")) ∷ [] } ∷ [];
}

abbrev col : Collection
col = record {
  name = codes "notes";
  columns = notes.columns;
  pk_column = codes "id";
  pk_is_integer = false;
  owner_column = codes "owner_id";
  read_rule = rule_owner;
  create_rule = rule_owner;
  update_rule = rule_owner;
  delete_rule = rule_owner;
}

abbrev pub reg : Registry
reg = (codes "notes", col) ∷ []

abbrev pub sv : Server
sv = record { engine = engine; has_broker = true }

abbrev clean : Store → Db Store
clean s = record { tables = s; faults = [] }

abbrev asked : Text → Body → Request
asked id body = record {
  collection = codes "notes";
  id = id;
  limit = [];
  offset = [];
  body = body;
  subject = codes "ana";
  new_id = codes "n3";
}

-- The discovery finds the one collection: users is reserved.
discovered : (discover upper (clean store)).0 ≡ ok reg
unfolding discover ◌>>=◌ first select exists has_prefix contains ◌==◌ is_ascii lookup delete
discovered = refl

exposed_notes : IsOf upper store.tables (codes "notes") col
unfolding first select exists is_misdeclared column_affinity is_reserved to_upper is_ascii
    has_prefix contains ◌==◌
exposed_notes = record {
  named = refl;
  not_internal = refl;
  not_listed = refl;
  columns = refl;
  key = (column (codes "id") true, refl, refl);
  owner = refl;
  textual = refl;
}

pub all_exposed : AllExposed upper store.tables reg
unfolding ◌==◌
all_exposed =
    (record { table = exposed_notes; read = refl; create = refl; update = refl; delete = refl }, tt)

discover-Ensures_example : Ensures (DiscoverPost upper store) store (discover upper)
discover-Ensures_example = discover-Ensures upper store

found_notes : lookup (codes "notes") reg ≡ some col
unfolding lookup ◌==◌
found_notes = refl

handle_list-Ensures_example :
    Ensures
      (ListPost upper sv textual reg (asked [] null) store col found_notes exposed_notes)
      store
      (handle_list sv reg (asked [] null))
handle_list-Ensures_example =
    handle_list-Ensures upper sv textual reg (asked [] null) store col found_notes exposed_notes

same_view : SameView sv reg (asked (codes "n2") null) store less
unfolding lookup ◌==◌ first select is_at
same_view other found = rw (← eq_of_some col other found) (refl, refl)

handle_list-handle_get_example :
    ((handle_list sv reg (asked (codes "n2") null) (clean store)).0
      ≡ (handle_list sv reg (asked (codes "n2") null) (clean less)).0)
    × ((handle_get sv reg (asked (codes "n2") null) (clean store)).0
        ≡ (handle_get sv reg (asked (codes "n2") null) (clean less)).0)
handle_list-handle_get_example =
    handle_list-handle_get sv reg (asked (codes "n2") null) store less same_view []

-- The body claims that the note is bo's.
abbrev claimed : Request
claimed = asked [] (fields ((codes "owner_id", Json.text (codes "bo")) ∷ []))

subject_given : (codes "ana" == []) ≡ false
unfolding ◌==◌
subject_given = refl

handle_create-Ensures_example :
    Ensures
      (CreatePost upper sv textual reg claimed store col found_notes exposed_notes subject_given)
      store
      (handle_create sv reg claimed)
handle_create-Ensures_example =
    handle_create-Ensures upper sv textual reg claimed store col found_notes exposed_notes
      subject_given

abbrev edit : Request
edit = asked (codes "n1") (fields ((codes "text", Json.text (codes "hi")) ∷ []))

handle_update-Ensures_example :
    Ensures (UpdatePost sv reg edit store col) store (handle_update sv reg edit)
handle_update-Ensures_example = handle_update-Ensures sv reg edit store col found_notes

handle_delete_lem_example :
    DeletePost sv reg
      (asked (codes "n1") null)
      store
      col
      (gate_at sv reg (asked (codes "n1") null) store col [])
      (handle_delete sv reg (asked (codes "n1") null) (clean store)).0
      (handle_delete sv reg (asked (codes "n1") null) (clean store)).1.tables
handle_delete_lem_example =
    handle_delete_lem sv reg (asked (codes "n1") null) store col found_notes []

-- Another's note is not found.
not_yours : (handle_delete sv reg (asked (codes "n2") null) (clean store)).0 ≡ err missing
unfolding handle_delete ◌>>=◌ lookup ◌==◌ first select count delete is_at
not_yours = refl

owner_column_is : (col.owner_column == []) ≡ false
unfolding ◌==◌
owner_column_is = refl

owner_found : column_named (codes "owner_id") notes.columns ≡ some (column (codes "owner_id") false)
unfolding first ◌==◌
owner_found = refl

text_column : column_affinity upper (codes "TEXT") ≡ codes "TEXT"
unfolding column_affinity contains has_prefix is_ascii ◌==◌
text_column = refl

owner_value : (v : Value) → lookup (codes "owner_id") (note (codes "n1") v) ≡ some v
unfolding lookup ◌==◌
owner_value v = refl

abbrev conn : Conn
conn = record { subject = codes "ana"; events = []; is_closed = false }

abbrev anas : Row
anas = note (codes "n1") (Value.text (codes "ana"))

owner_gate_value-may_see_example :
    may_see (owner_gate_value sv col (scan_row anas)) (some conn)
    ≡ in_scope engine col (rule_scopes col.read_rule) conn.subject notes.columns anas
owner_gate_value-may_see_example =
    owner_gate_value-may_see upper sv textual notes col (column (codes "owner_id") false)
      owner_found text_column anas conn
      (λ rule.
        (owner_column_is, codes "ana", owner_value (Value.text (codes "ana")), subject_given))

-- The field that SQLite names.
constraint_field :
    field_from_constraint_error
      (codes "constraint failed: NOT NULL constraint failed: notes.owner_id (1299)")
      (codes "NOT NULL constraint failed: ")
    ≡ codes "owner_id"
unfolding field_from_constraint_error has_prefix
constraint_field = refl
