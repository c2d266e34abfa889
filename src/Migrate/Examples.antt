-- ===== src/Migrate/Examples.antt =====
-- Migrations at a concrete directory. The database is the list of the scripts that it ran.
use maubase.Prelude.{
  ℕ, ◌≡◌, refl, Text, codes, ◌==◌, text_leb, has_prefix, Bool, true, false, some, List, [], ◌∷◌,
  ◌++◌, arith, exists, count, select, delete, first, sort_with,
}
use maubase.Sql.{ok, Db, ◌>>=◌, query}
use maubase.Email.{Unicode, trim_space, is_ascii, trim_left, trim_right, is_space}
use maubase.Migrate.Split.{
  up_marker, down_marker, join_lines, split_lines, scan, split_migration_sql,
}
use maubase.Migrate.Sections.{IsLine, IsPlain, lines_of, split_migration_sql-join_lines}
use maubase.Migrate.{
  Entry, present, Migration, Store, Engine, app_prefix, last_applied, apply_migrations,
  migrate_dir_down,
}
use maubase.Migrate.Versions.{migrate_dir_to}
use maubase.Migrate.Repeating.{apply_migrations_idem}
use maubase.Migrate.Reverting.{Named, migrate_dir_down-Reverted}

abbrev App : Type 0
App = List Text

abbrev ascii : Unicode
ascii = record { to_lower = λ s. s; trim_space = λ s. s }

abbrev engine : Engine App
engine = record {
  run = λ script app. some (app ++ script ∷ []);
  sum = λ s. s;
  unicode = ascii;
  definitions = λ app. [];
}

abbrev at_5 : Text → ℕ
at_5 version = 5

abbrev up_lines : List Text
up_lines = codes "A" ∷ []

abbrev down_lines : List Text
down_lines = codes "Z" ∷ []

abbrev file : Text
file = join_lines (lines_of ascii [] up_lines down_lines)

IsPlain-up : (IsPlain ascii (codes "A"))
unfolding trim_space is_ascii trim_left trim_right is_space ◌==◌
IsPlain-up = (refl, refl)

IsPlain-down : (IsPlain ascii (codes "Z"))
unfolding trim_space is_ascii trim_left trim_right is_space ◌==◌
IsPlain-down = (refl, refl)

up_marker-IsLine : IsLine up_marker
up_marker-IsLine = ground arith

down_marker-IsLine : IsLine down_marker
down_marker-IsLine = ground arith

split_migration_sql-join_lines_example :
    split_migration_sql ascii file ≡ (join_lines up_lines, join_lines down_lines, true)
split_migration_sql-join_lines_example =
    split_migration_sql-join_lines ascii [] up_lines down_lines tt (IsPlain-up, tt)
      (IsPlain-down, tt) (up_marker-IsLine, ((refl, tt), (down_marker-IsLine, ((refl, tt), tt))))

abbrev entry : Text → Entry
entry name = record { name = name; is_dir = false; content = some file }

abbrev entries : List Entry
entries = entry (codes "1") ∷ entry (codes "2") ∷ entry (codes "3") ∷ []

abbrev row : Text → ℕ → Migration
row name at = record { version = app_prefix ++ name; applied_at = at; checksum = some file }

-- Migration 2 came late: 1 and 3 were applied before it.
abbrev late : Db (Store App)
late = record {
  tables = record {
    migrations = row (codes "1") 1 ∷ row (codes "3") 1 ∷ row (codes "2") 2 ∷ [];
    app = [];
  };
  faults = [];
}

abbrev empty : Db (Store App)
empty = record { tables = record { migrations = []; app = [] }; faults = [] }

all_applied : (apply_migrations engine at_5 entries app_prefix empty).0.1 ≡ ok tt
unfolding apply_migrations ◌>>=◌ sort_with text_leb select first exists count scan split_lines
    join_lines trim_space is_ascii trim_left trim_right is_space ◌==◌
all_applied = refl

apply_migrations_idem_example :
    apply_migrations engine at_5 entries app_prefix (record {
      tables = (apply_migrations engine at_5 entries app_prefix empty).1.tables;
      faults = [];
    })
    ≡ (
      ([], ok tt),
      record {
        tables = (apply_migrations engine at_5 entries app_prefix empty).1.tables;
        faults = [];
      },
    )
apply_migrations_idem_example =
    apply_migrations_idem engine at_5 entries app_prefix empty all_applied

abbrev like_app : Text → Bool
like_app version = true

migrate_dir_down-Reverted_example :
    Named engine at_5
      (last_applied like_app 2 late.tables)
      late.tables
      (migrate_dir_down engine at_5 like_app (present entries) 2 late)
migrate_dir_down-Reverted_example = migrate_dir_down-Reverted engine at_5 like_app entries 1 late

-- Moving to 2 when 1, 2 and 3 are applied, but 2 was applied last, reverts 2 itself, not 3.
to_2_reverts_2 :
    (migrate_dir_to engine at_5 like_app (present entries) (codes "2") late).1
    ≡ (codes "2" ∷ [], ok tt)
unfolding migrate_dir_to ◌>>=◌ query sort_with text_leb select delete first exists count scan
    split_lines join_lines trim_space is_ascii trim_left trim_right is_space has_prefix ◌==◌
to_2_reverts_2 = refl
