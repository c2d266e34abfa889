-- ===== src/Migrate/Versions.antt =====
-- Status, VerifyChecksums, resolveVersion and MigrateDirTo.
use maubase.Prelude.{
  ℕ, zero, suc, Text, ◌==◌, Bool, true, false, not, ◌&&◌, Option, none, some, List, [], ◌∷◌, map,
  eqb, if◌then◌else◌, select, first, count,
}
use maubase.Numbers.{is_digit, digits, unsigned, atoi}
use maubase.Sql.{Result, ok, err, failed, Db, Sql, pure, fail, or_raise, query, ◌>>=◌}
use maubase.Migrate.Split.{split_migration_sql}
use maubase.Migrate.{
  Entry, Dir, missing, broken, present, Migration, Store, Engine, Error, no_directory, no_migration,
  ambiguous, not_found, unreadable, version_of, read_file, is_file, file_names, each, Progress,
  reapply, migrate_dir_down,
}

pub record MigrationStatus : Type 0 where
  pub name : Text
  pub applied : Bool
  -- 0 is the zero time.
  pub applied_at : ℕ
  pub has_down : Bool
  pub checksum_mismatch : Bool

-- storedChecksum.Valid && storedChecksum.String != "" && storedChecksum.String != currentChecksum
unfoldable pub is_mismatch : Option Text → Text → Bool
is_mismatch none current = false
is_mismatch (some stored) current = not (stored == []) && not (stored == current)

-- ^(\d+)_ : the digits before the first '_', at least one.
unfoldable pub leading : Text → Option Text
leading [] = none
leading (b ∷ s) =
    let rest = leading s in
    if eqb b b'_'
    then some []
    else if is_digit b
    then elim rest [ none ↦ none | some ds ↦ some (b ∷ ds) ]
    else none

abbrev pub number_of_digits : Option Text → Option ℕ
number_of_digits none = none
number_of_digits (some ds) = unsigned ds

unfoldable pub version_number : Text → Option ℕ
unfolding leading digits
version_number name = number_of_digits (leading name)

abbrev pub equals : Option ℕ → ℕ → Bool
equals none n = false
equals (some m) n = eqb m n

abbrev pub only : List Entry → Result Error Text
only [] = err no_migration
only (e ∷ []) = ok e.name
only (e ∷ (f ∷ es)) = err ambiguous

abbrev pub by_number : List Entry → Option ℕ → Result Error Text
by_number entries none = err no_migration
by_number entries (some n) =
    only (select (λ e. is_file e && equals (version_number e.name) n) entries)

-- resolveVersion: the exact name first.
unfoldable pub resolve_version : List Entry → Text → Result Error Text
unfolding version_number atoi
resolve_version entries target = elim (first (λ e. is_file e && e.name == target) entries) [
  | none ↦ by_number entries (atoi target)
  | some e ↦ ok e.name
]

-- Which way MigrateDirTo went.
pub data Direction : Type 0 where
  up down stay : Direction

-- The statuses up to and with the target, the target's, and those after it.
unfoldable pub split_at :
    Text
    → List MigrationStatus
    → Option (List MigrationStatus × MigrationStatus × List MigrationStatus)
split_at target [] = none
split_at target (s ∷ ss) =
    let rest = split_at target ss in
    if s.name == target
    then some (s ∷ [], s, ss)
    else elim rest [ none ↦ none | some (before, found, after) ↦ some (s ∷ before, found, after) ]

module _ {App : Type 0} (e : Engine App) (times : Text → ℕ) where
  abbrev pub has_down : Text → Bool
  has_down content = (split_migration_sql e.unicode content).2

  unfoldable pub judge : Text → Text → Option Migration → MigrationStatus
  unfolding is_mismatch
  judge name content none = record {
    name = name;
    applied = false;
    applied_at = 0;
    has_down = has_down content;
    checksum_mismatch = false;
  }
  judge name content (some m) = record {
    name = name;
    applied = true;
    applied_at = m.applied_at;
    has_down = has_down content;
    checksum_mismatch = is_mismatch m.checksum (e.sum content);
  }

  unfoldable pub status_of : List Entry → Text → Sql (Store App) Error MigrationStatus
  unfolding read_file judge
  status_of entries name = do
    content ← or_raise (read_file entries name) (unreadable name)
    found ← query (λ s. first (λ m. m.version == version_of name) s.migrations)
    pure (judge name content found)

  unfoldable pub statuses : List Entry → List Text → Sql (Store App) Error (List MigrationStatus)
  unfolding status_of
  statuses entries [] = pure []
  statuses entries (name ∷ names) = do
    s ← status_of entries name
    ss ← statuses entries names
    pure (s ∷ ss)

  unfoldable pub status : Dir → Sql (Store App) Error (List MigrationStatus)
  unfolding statuses file_names
  status missing = pure []
  status broken = fail
  status (present entries) = statuses entries (file_names entries)

  unfoldable pub verify_checksums : Dir → Sql (Store App) Error (List Text)
  unfolding status
  verify_checksums dir = do
    ss ← status dir
    pure (map (λ s. s.name) (select (λ s. s.checksum_mismatch) ss))

  abbrev pub Moved : Type 0
  Moved = Direction × Progress × Db (Store App)

  -- The target is applied: revert as many as are applied after it.
  abbrev pub revert_after : (Text → Bool) → Dir → ℕ → Db (Store App) → Moved
  revert_after like_app dir zero db = (stay, ([], ok tt), db)
  revert_after like_app dir (suc n) db =
      let (progress, db') = migrate_dir_down e times like_app dir (suc n) db in
      (down, progress, db')

  -- It is pending: apply what is pending up to it.
  abbrev pub apply_to : List Entry → List MigrationStatus → Db (Store App) → Moved
  apply_to entries before db =
      let (progress, db') =
        each (reapply e times entries) (map (λ s. s.name) (select (λ s. not s.applied) before)) []
          db in
      (up, progress, db')

  abbrev pub move :
      (Text → Bool)
      → List Entry
      → Text
      → Result Error (List MigrationStatus) × Db (Store App)
      → Moved
  move like_app entries target (ok ss, db) = elim (split_at target ss) [
    | none ↦ (stay, ([], err not_found), db)
    | some (before, s, after) ↦
        if s.applied
        then revert_after like_app (present entries) (count (λ x. x.applied) after) db
        else apply_to entries before db
  ]
  move like_app entries target (err x, db) = (stay, ([], err x), db)
  move like_app entries target (failed, db) = (stay, ([], failed), db)

  abbrev pub move_to : (Text → Bool) → List Entry → Result Error Text → Db (Store App) → Moved
  move_to like_app entries (ok target) db =
      move like_app entries target (status (present entries) db)
  move_to like_app entries (err x) db = (stay, ([], err x), db)
  move_to like_app entries failed db = (stay, ([], failed), db)

  unfoldable pub migrate_dir_to : (Text → Bool) → Dir → Text → Db (Store App) → Moved
  unfolding status resolve_version split_at migrate_dir_down each
  migrate_dir_to like_app missing target db = (stay, ([], err no_directory), db)
  migrate_dir_to like_app broken target db = (stay, ([], failed), db)
  migrate_dir_to like_app (present entries) target db =
      move_to like_app entries (resolve_version entries target) db
