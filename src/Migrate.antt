-- ===== src/Migrate.antt =====
-- internal/db/migrate.go: migrations of the application's schema. What a file's SQL does to the
-- rest of the database is SQLite's, a parameter.
pub mod Split
pub mod Sections
pub mod Applying
pub mod Loops
pub mod Repeating
pub mod Reverting
pub mod Versions
pub mod Examples
use maubase.Prelude.{
  ℕ, zero, suc, ◌+◌, ◌-◌, ◌*◌, Text, codes, ◌==◌, text_leb, has_prefix, Bool, true, false, not,
  ◌&&◌, ◌||◌, Option, none, some, List, [], ◌∷◌, ◌++◌, map, length, take, drop, ltb, leb, eqb,
  if◌then◌else◌, select, delete, first, count, exists, sort_with,
}
use maubase.Sql.{
  Result, ok, err, failed, Db, Sql, pure, raise, from_option, or_raise, query, transaction, guard,
  exec, exec_checked, ◌>>=◌, ◌>>◌,
}
use maubase.Email.{Unicode, trim_space}
use maubase.Migrate.Split.{split_migration_sql}

-- An entry of a directory; no content where reading the file fails.
pub record Entry : Type 0 where
  pub name : Text
  pub is_dir : Bool
  pub content : Option Text

-- os.Stat says that it is not there, or something else goes wrong, or it is read, in the order of
-- the names.
pub data Dir : Type 0 where
  missing broken : Dir
  present : List Entry → Dir

-- A row of schema_migrations; no checksum is NULL.
pub record Migration : Type 0 where
  pub version : Text
  pub applied_at : ℕ
  pub checksum : Option Text

-- The database: the migrations recorded, and everything else.
pub record Store (App : Type 0) : Type 0 where
  pub migrations : List Migration
  pub app : App

-- What SQLite does with a script (no answer where it refuses), SHA-256, Unicode, and the text of
-- the definitions of the tables.
pub record Engine (App : Type 0) : Type 0 where
  pub run : Text → App → Option App
  pub sum : Text → Text
  pub unicode : Unicode
  pub definitions : App → List (Text × Text)

-- The errors that the code makes itself.
pub data Error : Type 0 where
  invalid_count no_directory no_migration ambiguous not_found : Error
  no_down unreadable : Text → Error

-- "app:", the names of a deployment's own migrations in the table.
abbrev pub app_prefix : Text
app_prefix = codes "app:"

abbrev pub version_of : Text → Text
version_of name = app_prefix ++ name

-- os.ReadFile(filepath.Join(dir, name))
unfoldable pub read_file : List Entry → Text → Option Text
read_file entries name = elim (first (λ e. e.name == name) entries) [
  | none ↦ none
  | some e ↦ e.content
]

abbrev pub is_file : Entry → Bool
is_file e = not e.is_dir

-- The names of the files, sorted.
unfoldable pub file_names : List Entry → List Text
file_names entries = sort_with text_leb (map (λ e. e.name) (select is_file entries))

-- What a loop over names leaves: the names done, and how it ended.
abbrev pub Progress : Type 0
Progress = List Text × Result Error Unit

-- ORDER BY applied_at DESC, version DESC
abbrev pub later : Migration → Migration → Bool
later x y =
    if ltb y.applied_at x.applied_at
    then true
    else leb y.applied_at x.applied_at && text_leb y.version x.version

unfoldable pub reversed : List Text → List Text
reversed [] = []
reversed (x ∷ xs) = reversed xs ++ x ∷ []

module _ {App : Type 0} where
  -- for _, name := range names { … }: a name for which the action answers false is passed over, and
  -- an error ends the loop and keeps what is done.
  continue_with :
      Text
      → List Text
      → Result Error Bool
      → (List Text → Progress × Db (Store App))
      → Db (Store App)
      → Progress × Db (Store App)
  continue_with name done (ok true) rest db = rest (done ++ name ∷ [])
  continue_with name done (ok false) rest db = rest done
  continue_with name done (err e) rest db = ((done, err e), db)
  continue_with name done failed rest db = ((done, failed), db)

  unfoldable pub each :
      (Text → Sql (Store App) Error Bool)
      → List Text
      → List Text
      → Db (Store App)
      → Progress × Db (Store App)
  unfolding continue_with
  each act [] done db = ((done, ok tt), db)
  each act (name ∷ names) done db =
      let (r, db') = act name db in
      continue_with name done r (λ so_far. each act names so_far db') db'

  -- INSERT INTO schema_migrations: `version` is the PRIMARY KEY.
  unfoldable pub record_row : Migration → Store App → Option (Store App)
  record_row m s =
      if exists (λ x. x.version == m.version) s.migrations
      then none
      else some (record s { migrations = s.migrations ++ m ∷ [] })

  unfoldable pub remove_row : Text → Store App → Store App
  remove_row version s = record s { migrations = delete (λ x. x.version == version) s.migrations }

  -- The versions of the n application migrations that were applied last. Application versions are
  -- LIKE 'app:%', which folds case.
  unfoldable pub last_applied : (Text → Bool) → ℕ → Store App → List Text
  last_applied like_app n s =
      map (λ m. m.version)
        (take n (sort_with later (select (λ m. like_app m.version) s.migrations)))

module _ {App : Type 0} (e : Engine App) (times : Text → ℕ) where
  abbrev pub run_sql : Text → Store App → Option (Store App)
  run_sql script s = elim (e.run script s.app) [
    | none ↦ none
    | some app ↦ some (record s { app = app })
  ]

  abbrev pub new_row : Text → Text → Migration
  new_row version content = record {
    version = version;
    applied_at = times version;
    checksum = some (e.sum content);
  }

  -- The transaction that applies a file and records it.
  unfoldable pub apply_content : Text → Text → Sql (Store App) Error Unit
  unfolding transaction record_row split_migration_sql
  apply_content version content = transaction (do
    exec_checked (run_sql (split_migration_sql e.unicode content).0)
    exec_checked (record_row (new_row version content)))

  unfoldable pub apply_one_migration : List Entry → Text → Sql (Store App) Error Unit
  unfolding apply_content read_file
  apply_one_migration entries name = do
    content ← or_raise (read_file entries name) (unreadable name)
    apply_content (version_of name) content

  -- One turn of applyMigrations, for a version that is recorded or not.
  unfoldable pub apply_unless : Bool → List Entry → Text → Text → Sql (Store App) Error Bool
  unfolding apply_content read_file
  apply_unless true entries prefix name = pure false
  apply_unless false entries prefix name = do
    content ← or_raise (read_file entries name) (unreadable name)
    apply_content (prefix ++ name) content
    pure true

  unfoldable pub apply_if_new : List Entry → Text → Text → Sql (Store App) Error Bool
  unfolding apply_unless
  apply_if_new entries prefix name = do
    n ← query (λ s. count (λ m. m.version == prefix ++ name) s.migrations)
    apply_unless (ltb 0 n) entries prefix name

  unfoldable pub apply_migrations : List Entry → Text → Db (Store App) → Progress × Db (Store App)
  unfolding each apply_if_new file_names
  apply_migrations entries prefix db = each (apply_if_new entries prefix) (file_names entries) [] db

  -- MigrateDirApplied, past ensureMigrationsTable.
  unfoldable pub migrate_dir_applied : Dir → Db (Store App) → Progress × Db (Store App)
  unfolding apply_migrations
  migrate_dir_applied missing db = (([], ok tt), db)
  migrate_dir_applied broken db = (([], failed), db)
  migrate_dir_applied (present entries) db = apply_migrations entries app_prefix db

  -- The down half of a file; none where it has none, or only white space.
  abbrev pub nonblank : Text → Bool
  nonblank [] = false
  nonblank (b ∷ s) = true

  abbrev pub down_of : Text × Text × Bool → Option Text
  down_of (up, down, has_down) =
      if has_down && nonblank (trim_space e.unicode down) then some down else none

  -- strings.TrimPrefix(version, "app:")
  abbrev pub trim_app : Text → Text
  trim_app version = if has_prefix version app_prefix then drop 4 version else version

  -- One turn of MigrateDirDown.
  unfoldable pub revert_one : List Entry → Text → Sql (Store App) Error Bool
  unfolding transaction remove_row split_migration_sql read_file
  revert_one entries version = do
    let name = trim_app version
    content ← or_raise (read_file entries name) (unreadable name)
    down ← or_raise (down_of (split_migration_sql e.unicode content)) (no_down name)
    transaction (do exec_checked (run_sql down); exec (remove_row version))
    pure true

  -- What is reported of the versions reverted: the names.
  abbrev pub named : Progress × Db (Store App) → Progress × Db (Store App)
  named ((versions, r), db) = ((map trim_app versions, r), db)

  abbrev pub revert_listed :
      (Text → Bool)
      → List Entry
      → Result Error (List Text) × Db (Store App)
      → Progress × Db (Store App)
  revert_listed like_app entries (ok versions, db) =
      named (each (revert_one entries) versions [] db)
  revert_listed like_app entries (err x, db) = (([], err x), db)
  revert_listed like_app entries (failed, db) = (([], failed), db)

  unfoldable pub migrate_dir_down :
      (Text → Bool) → Dir → ℕ → Db (Store App) → Progress × Db (Store App)
  unfolding each revert_one last_applied
  migrate_dir_down like_app dir zero db = (([], err invalid_count), db)
  migrate_dir_down like_app missing (suc n) db = (([], ok tt), db)
  migrate_dir_down like_app broken (suc n) db = (([], failed), db)
  migrate_dir_down like_app (present entries) (suc n) db =
      revert_listed like_app entries (query (last_applied like_app (suc n)) db)

  abbrev pub reapply : List Entry → Text → Sql (Store App) Error Bool
  reapply entries name = apply_one_migration entries name >> pure true

  -- MigrateDirRedo: what was reverted, in the reverse order.
  abbrev pub redo_reverted : Dir → Progress × Db (Store App) → Progress × Db (Store App)
  redo_reverted (present entries) ((reverted, ok x), db) =
      each (reapply entries) (reversed reverted) [] db
  redo_reverted dir ((reverted, ok x), db) =
      each (λ name. raise (unreadable name)) (reversed reverted) [] db
  redo_reverted dir ((reverted, err x), db) = (([], err x), db)
  redo_reverted dir ((reverted, failed), db) = (([], failed), db)

  unfoldable pub migrate_dir_redo :
      (Text → Bool) → Dir → ℕ → Db (Store App) → Progress × Db (Store App)
  unfolding migrate_dir_down each apply_one_migration reversed
  migrate_dir_redo like_app dir n db = redo_reverted dir (migrate_dir_down like_app dir n db)
