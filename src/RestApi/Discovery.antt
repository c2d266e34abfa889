-- ===== src/RestApi/Discovery.antt =====
-- internal/restapi/registry.go: which tables are collections, and their access rules. A Rule is a
-- string, which the CHECK of 0006_policies.sql keeps to the three below.
use maubase.Prelude.{
  ℕ, ◌-◌, leb, Text, codes, ◌==◌, Bool, true, false, not, ◌&&◌, ◌||◌, Option, none, some, List, [],
  ◌∷◌, map, select, exists, has_prefix, contains, text_leb, sort_with, if◌then◌else◌, Assoc, lookup,
  put,
}
use maubase.Sql.{Sql, pure, or_raise, guard, query, ◌>>=◌, ◌>>◌}
use maubase.Email.{is_ascii}
use maubase.RestApi.Sqlite.{Column, Table, PolicyRow, Store, table_named}

abbrev pub owner_column_name : Text
owner_column_name = codes "owner_id"

abbrev pub reserved_tables : List Text
reserved_tables =
    codes "users"
    ∷ codes "sessions"
    ∷ codes "oauth_clients"
    ∷ codes "oauth_client_jti"
    ∷ codes "oauth_authorize_codes"
    ∷ codes "oauth_access_tokens"
    ∷ codes "oauth_refresh_tokens"
    ∷ codes "oauth_pkce_requests"
    ∷ codes "oauth_consents"
    ∷ codes "oauth_signing_keys"
    ∷ codes "oauth_hmac_secret"
    ∷ codes "owner_users"
    ∷ codes "owner_sessions"
    ∷ codes "owner_audit_log"
    ∷ codes "schema_migrations"
    ∷ codes "files"
    ∷ codes "_policies"
    ∷ codes "password_reset_tokens"
    ∷ codes "social_identities"
    ∷ []

unfoldable pub is_reserved : Text → Bool
is_reserved name = has_prefix name (codes "sqlite_") || exists (λ n. n == name) reserved_tables

abbrev pub Rule : Type 0
Rule = Text

abbrev pub rule_owner : Rule
rule_owner = codes "owner"

abbrev pub rule_shared : Rule
rule_shared = codes "shared"

abbrev pub rule_denied : Rule
rule_denied = codes "denied"

pub record Collection : Type 0 where
  pub name : Text
  pub columns : List Column
  -- Empty where the table has no key of one column.
  pub pk_column : Text
  pub pk_is_integer : Bool
  -- Empty for a shared table.
  pub owner_column : Text
  pub read_rule : Rule
  pub create_rule : Rule
  pub update_rule : Rule
  pub delete_rule : Rule

unfoldable pub has_column : Collection → Text → Bool
has_column c name = exists (λ col. col.name == name) c.columns

-- A Go map from names to collections.
abbrev pub Registry : Type 0
Registry = Assoc Collection

abbrev by_name : Collection → Collection → Bool
by_name x y = text_leb x.name y.name

unfoldable pub all : Registry → List Collection
all r = sort_with by_name (map (λ e. e.1) r)

unfoldable pub owned_collections : Registry → List Collection
owned_collections r =
    sort_with by_name (select (λ c. not (c.owner_column == [])) (map (λ e. e.1) r))

-- How the discovery fails; the first three are built by fmt.Errorf.
pub data Error : Type 0 where
  bad_affinity no_such_collection no_owner_column unknown_operation : Text → Error

-- a to z
abbrev upper_byte : ℕ → ℕ
upper_byte b = if leb 97 b && leb b 122 then b - 32 else b

-- strings.ToUpper; `upper` is what it makes of a text that is not ASCII.
unfoldable pub to_upper : (Text → Text) → Text → Text
unfolding is_ascii
to_upper upper s = if is_ascii s then map upper_byte s else upper s

abbrev pub owner_of : List Column → Text
owner_of columns =
    if exists (λ c. c.name == owner_column_name) columns then owner_column_name else []

-- A collection before its key and its rules are set.
abbrev pub bare : Text → List Column → Collection
bare name columns = record {
  name = name;
  columns = columns;
  pk_column = [];
  pk_is_integer = false;
  owner_column = owner_of columns;
  read_rule = [];
  create_rule = [];
  update_rule = [];
  delete_rule = [];
}

-- PRAGMA table_info gives no row for a table that is not there.
abbrev pub columns_of : Option Table → List Column
columns_of none = []
columns_of (some t) = t.columns

abbrev pub default_rule : Collection → Rule
default_rule c = if c.owner_column == [] then rule_shared else rule_owner

abbrev pub with_defaults : Collection → Collection
with_defaults c = record c {
  read_rule = default_rule c;
  create_rule = default_rule c;
  update_rule = default_rule c;
  delete_rule = default_rule c;
}

unfoldable pub add_collection : Collection → Registry → Registry
add_collection c reg = if c.pk_column == [] then reg else put c.name (with_defaults c) reg

module _ (upper : Text → Text) where
  unfoldable pub column_affinity : Text → Text
  unfolding to_upper
  column_affinity decl_type =
      let t = to_upper upper decl_type in
      if contains t (codes "INT")
      then codes "INTEGER"
      else if contains t (codes "CHAR") || contains t (codes "CLOB") || contains t (codes "TEXT")
      then codes "TEXT"
      else if contains t (codes "BLOB") || t == []
      then codes "BLOB"
      else if contains t (codes "REAL") || contains t (codes "FLOA") || contains t (codes "DOUB")
      then codes "REAL"
      else codes "NUMERIC"

  -- A column that makes describeTable fail.
  unfoldable pub is_misdeclared : Column → Bool
  unfolding column_affinity
  is_misdeclared c =
      c.name == owner_column_name && not (column_affinity c.decl_type == codes "TEXT")

  -- The collection of a table whose key columns are the last argument.
  abbrev pub with_pk : Collection → List Column → Collection
  with_pk col [] = col
  with_pk col (c ∷ []) = record col {
    pk_column = c.name;
    pk_is_integer = contains (to_upper upper c.decl_type) (codes "INT");
  }
  with_pk col (c ∷ d ∷ more) = col

  unfoldable pub described : Text → List Column → Collection
  unfolding to_upper
  described name columns = with_pk (bare name columns) (select (λ c. c.is_pk) columns)

  unfoldable pub describe_table : Text → Sql Store Error Collection
  unfolding is_misdeclared described
  describe_table name = do
    columns ← query (λ s. columns_of (table_named name s.tables))
    guard (not (exists is_misdeclared columns)) (bad_affinity name)
    pure (described name columns)

  unfoldable pub describe_all : List Text → Registry → Sql Store Error Registry
  unfolding describe_table add_collection is_reserved
  describe_all [] reg = pure reg
  describe_all (name ∷ names) reg = elim (is_reserved name) [
    | true ↦ describe_all names reg
    | false ↦ do c ← describe_table name; describe_all names (add_collection c reg)
  ]

abbrev pub op_read : Text
op_read = codes "read"

abbrev pub op_create : Text
op_create = codes "create"

abbrev pub op_update : Text
op_update = codes "update"

abbrev pub op_delete : Text
op_delete = codes "delete"

unfoldable pub set_rule : Text → Rule → Collection → Option Collection
set_rule operation r c =
    if operation == op_read
    then some (record c { read_rule = r })
    else if operation == op_create
    then some (record c { create_rule = r })
    else if operation == op_update
    then some (record c { update_rule = r })
    else if operation == op_delete
    then some (record c { delete_rule = r })
    else none

unfoldable pub apply_policy : PolicyRow → Registry → Sql Store Error Registry
unfolding set_rule
apply_policy p reg = do
  c ← or_raise (lookup p.collection reg) (no_such_collection p.collection)
  guard (not (p.rule == rule_owner && c.owner_column == [])) (no_owner_column p.collection)
  c' ← or_raise (set_rule p.operation p.rule c) (unknown_operation p.operation)
  pure (put p.collection c' reg)

unfoldable pub apply_rows : List PolicyRow → Registry → Sql Store Error Registry
unfolding apply_policy
apply_rows [] reg = pure reg
apply_rows (p ∷ ps) reg = do reg' ← apply_policy p reg; apply_rows ps reg'

unfoldable pub apply_policies : Registry → Sql Store Error Registry
unfolding apply_rows
apply_policies reg = do rows ← query (λ s. s.policies); apply_rows rows reg

unfoldable pub discover : (Text → Text) → Sql Store Error Registry
unfolding describe_all apply_policies
discover upper = do
  names ← query (λ s. map (λ t. t.name) s.tables)
  reg ← describe_all upper names []
  apply_policies reg
