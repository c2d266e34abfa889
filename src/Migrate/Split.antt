-- ===== src/Migrate/Split.antt =====
-- splitMigrationSQL: the two halves of a migration file.
use maubase.Prelude.{
  ℕ, suc, ◌-◌, Text, codes, ◌==◌, Bool, true, false, Option, none, some, List, [], ◌∷◌, ◌++◌, take,
  drop, ltb, eqb, if◌then◌else◌,
}
use maubase.Email.{Unicode, trim_space}

abbrev pub up_marker : Text
up_marker = codes "-- +migrate Up"

abbrev pub down_marker : Text
down_marker = codes "-- +migrate Down"

-- strings.Split(content, "\n")
abbrev pub cons_line : ℕ → List Text → List Text
cons_line b [] = (b ∷ []) ∷ []
cons_line b (line ∷ lines) = (b ∷ line) ∷ lines

unfoldable pub split_lines : Text → List Text
split_lines [] = [] ∷ []
split_lines (b ∷ s) =
    let rest = split_lines s in if eqb b b'\n' then [] ∷ rest else cons_line b rest

-- strings.Join(lines, "\n")
unfoldable pub join_lines : List Text → Text
join_lines [] = []
join_lines (line ∷ []) = line
join_lines (line ∷ (next ∷ lines)) = line ++ b'\n' ∷ join_lines (next ∷ lines)

-- upStart and downLine; none is -1.
pub record Marks : Type 0 where
  pub up_start : Option ℕ
  pub down_line : Option ℕ

abbrev pub mark : Text → ℕ → Marks → Marks
mark line i m =
    if line == up_marker
    then record m { up_start = some (suc i) }
    else if line == down_marker
    then record m { down_line = some i }
    else m

-- The loop over the lines: a later marker replaces an earlier one.
unfoldable pub scan : Unicode → ℕ → List Text → Marks → Marks
scan u i [] m = m
scan u i (line ∷ lines) m = scan u (suc i) lines (mark (trim_space u line) i m)

abbrev pub cut : Text → List Text → Option ℕ → Option ℕ → Text × Text × Bool
cut content lines none down = (content, [], false)
cut content lines (some up) none = (join_lines (drop up lines), [], false)
cut content lines (some up) (some down) =
    if ltb down up
    then (join_lines (drop up lines), [], false)
    else (join_lines (take (down - up) (drop up lines)), join_lines (drop (suc down) lines), true)

-- (up, down, hasDown)
unfoldable pub split_migration_sql : Unicode → Text → Text × Text × Bool
unfolding scan split_lines join_lines
split_migration_sql u content =
    let lines = split_lines content in
    let m = scan u 0 lines (record { up_start = none; down_line = none }) in
    cut content lines m.up_start m.down_line
