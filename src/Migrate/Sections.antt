-- ===== src/Migrate/Sections.antt =====
-- A file that is put together from its sections is split into them again.
use maubase.Prelude.{
  ℕ, suc, ◌+◌, ◌-◌, ◌≡◌, refl, sym, ap, ◌∙◌, Text, ◌==◌, true, false, none, some, List, [], ◌∷◌,
  ◌++◌, arith, length, take, drop, length-append, ltb, eqb, All, append_assoc,
}
use maubase.Email.{Unicode, trim_space, is_ascii, trim_left, trim_right, is_space}
use maubase.Migrate.Split.{
  up_marker, down_marker, split_lines, join_lines, Marks, mark, scan, cut, split_migration_sql,
}

-- A line has no line break.
abbrev pub IsLine : Text → Type 0
IsLine = All (λ b. eqb b b'\n' ≡ false)

-- A line that the loop passes over.
abbrev pub IsPlain : Unicode → Text → Type 0
IsPlain u line =
    ((trim_space u line == up_marker) ≡ false) × ((trim_space u line == down_marker) ≡ false)

split_lines-last : (line : Text) → IsLine line → split_lines line ≡ line ∷ []
unfolding split_lines
split_lines-last [] h = refl
split_lines-last (b ∷ s) h = rw (h.0, split_lines-last s h.1)

split_lines-append :
    (line rest : Text) → IsLine line → split_lines (line ++ b'\n' ∷ rest) ≡ line ∷ split_lines rest
unfolding split_lines
split_lines-append [] rest h = refl
split_lines-append (b ∷ s) rest h = rw (h.0, split_lines-append s rest h.1)

split_lines-join_lines :
    (line : Text) (lines : List Text)
    → All IsLine (line ∷ lines)
    → split_lines (join_lines (line ∷ lines)) ≡ line ∷ lines
unfolding join_lines
split_lines-join_lines line [] h = split_lines-last line h.0
split_lines-join_lines line (next ∷ lines) h =
    split_lines-append line (join_lines (next ∷ lines)) h.0
    ∙ ap (λ xs. line ∷ xs) (split_lines-join_lines next lines h.1)

scan-append :
    (u : Unicode) (i : ℕ) (xs ys : List Text) (m : Marks)
    → scan u i (xs ++ ys) m ≡ scan u (i + length xs) ys (scan u i xs m)
unfolding scan
scan-append u i [] ys m = ap (λ k. scan u k ys m) (omega arith)
scan-append u i (x ∷ xs) ys m =
    scan-append u (suc i) xs ys (mark (trim_space u x) i m)
    ∙ ap (λ k. scan u k ys (scan u (suc i) xs (mark (trim_space u x) i m))) (omega arith)

scan-plain :
    (u : Unicode) (i : ℕ) (xs : List Text) (m : Marks) → All (IsPlain u) xs → scan u i xs m ≡ m
unfolding scan
scan-plain u i [] m h = refl
scan-plain u i (x ∷ xs) m h = rw (h.0.0, h.0.1) (scan-plain u (suc i) xs m h.1)

drop-append : (xs ys : List Text) → drop (length xs) (xs ++ ys) ≡ ys
drop-append [] ys = refl
drop-append (x ∷ xs) ys = drop-append xs ys

take-append : (xs ys : List Text) → take (length xs) (xs ++ ys) ≡ xs
take-append [] ys = refl
take-append (x ∷ xs) ys = ap (λ zs. x ∷ zs) (take-append xs ys)

scan_up :
    (u : Unicode) (i : ℕ) (xs : List Text) (m : Marks)
    → scan u i (up_marker ∷ xs) m ≡ scan u (suc i) xs (record m { up_start = some (suc i) })
unfolding scan trim_space is_ascii trim_left trim_right is_space ◌==◌
scan_up u i xs m = refl

scan_down :
    (u : Unicode) (i : ℕ) (xs : List Text) (m : Marks)
    → scan u i (down_marker ∷ xs) m ≡ scan u (suc i) xs (record m { down_line = some i })
unfolding scan trim_space is_ascii trim_left trim_right is_space ◌==◌
scan_down u i xs m = refl

module _ (u : Unicode) (before ups downs : List Text) where
  abbrev pub lines_of : List Text
  lines_of = before ++ up_marker ∷ (ups ++ down_marker ∷ downs)

  abbrev k : ℕ
  k = length before

  abbrev unmarked : Marks
  unmarked = record { up_start = none; down_line = none }

  abbrev begun : Marks
  begun = record { up_start = some (suc k); down_line = none }

  abbrev ended : Marks
  ended = record { up_start = some (suc k); down_line = some (suc k + length ups) }

  -- The marks that the loop leaves.
  scan-lines_of :
      All (IsPlain u) before
      → All (IsPlain u) ups
      → All (IsPlain u) downs
      → scan u 0 lines_of unmarked ≡ ended
  scan-lines_of hb hu hd =
      scan-append u 0 before (up_marker ∷ (ups ++ down_marker ∷ downs)) unmarked
      ∙ ap (λ j. scan u j (up_marker ∷ (ups ++ down_marker ∷ downs)) (scan u 0 before unmarked))
          zero_plus
      ∙ ap (scan u k (up_marker ∷ (ups ++ down_marker ∷ downs))) (scan-plain u 0 before unmarked hb)
      ∙ scan_up u k (ups ++ down_marker ∷ downs) unmarked
      ∙ scan-append u (suc k) ups (down_marker ∷ downs) begun
      ∙ ap (scan u (suc k + length ups) (down_marker ∷ downs)) (scan-plain u (suc k) ups begun hu)
      ∙ scan_down u (suc k + length ups) downs begun
      ∙ scan-plain u _ downs ended hd
    where
      zero_plus : 0 + k ≡ k
      zero_plus = omega arith

lines_back :
    (before rest : List Text)
    → All IsLine (before ++ up_marker ∷ rest)
    → split_lines (join_lines (before ++ up_marker ∷ rest)) ≡ before ++ up_marker ∷ rest
lines_back [] rest h = split_lines-join_lines up_marker rest h
lines_back (line ∷ before) rest h = split_lines-join_lines line (before ++ up_marker ∷ rest) h

drop_at : (n : ℕ) (xs ys : List Text) → n ≡ length xs → drop n (xs ++ ys) ≡ ys
drop_at n xs ys e = ap (λ j. drop j (xs ++ ys)) e ∙ drop-append xs ys

take_at : (n : ℕ) (xs ys : List Text) → n ≡ length xs → take n (xs ++ ys) ≡ xs
take_at n xs ys e = ap (λ j. take j (xs ++ ys)) e ∙ take-append xs ys

module _ (u : Unicode) (before ups downs : List Text) where
  abbrev front : List Text
  front = before ++ up_marker ∷ []

  up_part : drop (suc (length before)) (lines_of u before ups downs) ≡ ups ++ down_marker ∷ downs
  up_part =
      ap (drop (suc (length before)))
        (sym (append_assoc before (up_marker ∷ []) (ups ++ down_marker ∷ downs)))
      ∙ drop_at (suc (length before)) front (ups ++ down_marker ∷ downs)
          (omega (arith, length-append before (up_marker ∷ [])))

  down_part : drop (suc (suc (length before) + length ups)) (lines_of u before ups downs) ≡ downs
  down_part =
      ap (drop (suc (suc (length before) + length ups))) regroup
      ∙ drop_at (suc (suc (length before) + length ups)) (front ++ (ups ++ down_marker ∷ [])) downs
          (omega (
            arith,
            length-append before (up_marker ∷ []),
            length-append ups (down_marker ∷ []),
            length-append front (ups ++ down_marker ∷ []),
          ))
    where
      regroup : lines_of u before ups downs ≡ (front ++ (ups ++ down_marker ∷ [])) ++ downs
      regroup =
          ap (λ xs. before ++ up_marker ∷ xs) (sym (append_assoc ups (down_marker ∷ []) downs))
          ∙ sym (append_assoc before (up_marker ∷ []) ((ups ++ down_marker ∷ []) ++ downs))
          ∙ sym (append_assoc front (ups ++ down_marker ∷ []) downs)

  cut-lines_of :
      (content : Text)
      → cut content
          (lines_of u before ups downs)
          (some (suc (length before)))
          (some (suc (length before) + length ups))
        ≡ (join_lines ups, join_lines downs, true)
  cut-lines_of content =
      let inside : ltb (suc (length before) + length ups) (suc (length before)) ≡ false =
        ground arith in
      let middle : take (suc (length before) + length ups - suc (length before))
            (ups ++ down_marker ∷ downs)
          ≡ ups =
        take_at _ ups (down_marker ∷ downs) (omega arith) in
      rw (inside, up_part, middle, down_part)

  -- splitMigrationSQL takes a file apart as it was put together: whatever lines stand before the Up
  -- marker, the up half is the lines from there to the Down marker and the down half those after
  -- it, provided that no other line is a marker once it is trimmed and no line holds a line break.
  pub split_migration_sql-join_lines :
      All (IsPlain u) before
      → All (IsPlain u) ups
      → All (IsPlain u) downs
      → All IsLine (lines_of u before ups downs)
      → split_migration_sql u (join_lines (lines_of u before ups downs))
        ≡ (join_lines ups, join_lines downs, true)
  unfolding split_migration_sql
  split_migration_sql-join_lines hb hu hd hl =
      rw (lines_back before (ups ++ down_marker ∷ downs) hl) (
        rw (scan-lines_of u before ups downs hb hu hd)
          (cut-lines_of (join_lines (lines_of u before ups downs))))
