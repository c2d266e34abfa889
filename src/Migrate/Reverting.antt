-- ===== src/Migrate/Reverting.antt =====
-- Reverting the migrations that were applied last.
use maubase.Prelude.{
  ℕ, suc, ◌≡◌, refl, sym, ap, ◌∙◌, Text, ◌==◌, Bool, true, false, Option, none, some, List, [], ◌∷◌,
  ◌++◌, map, Bool-cases, inl, inr, ◌⊎◌, delete, append_nil, append_assoc,
}
use maubase.Sql.{faulty, later, Result, ok, err, failed, Db, pure, query, exec_checked}
use maubase.Sql.Ensures.{
  Ensures, Then, Closed, Ensures-pure, Ensures-bind, Ensures-or_raise, Ensures-exec,
  Ensures-exec_checked, Ensures-transaction,
}
use maubase.Migrate.{
  Entry, Migration, present, Store, Engine, Error, unreadable, no_down, read_file, each,
  continue_with, Progress, remove_row, last_applied, run_sql, down_of, revert_one, trim_app, named,
  revert_listed, migrate_dir_down,
}
use maubase.Migrate.Split.{split_migration_sql}
use maubase.Migrate.Applying.{run_sql-some}

module _ {App : Type 0} (e : Engine App) (times : Text → ℕ) where
  -- The down half of the file, where it has one.
  abbrev pub down_script : Text → Option Text
  down_script content = down_of e times (split_migration_sql e.unicode content)

  abbrev RevertPost : List Entry → Text → Store App → Result Error Bool → Store App → Type 0
  RevertPost entries version s (ok true) s' =
      (content down : Text) × (app : App) × (read_file entries (trim_app e times version)
        ≡ some content)
      × (down_script content ≡ some down)
      × (e.run down s.app ≡ some app)
      × (s' ≡ record { migrations = delete (λ m. m.version == version) s.migrations; app = app })
  RevertPost entries version s (ok false) s' = ⊥
  RevertPost entries version s (err x) s' =
      (s' ≡ s)
      × (((x ≡ unreadable (trim_app e times version))
            × (read_file entries (trim_app e times version) ≡ none))
          ⊎ ((content : Text) × (x ≡ no_down (trim_app e times version))
              × (read_file entries (trim_app e times version) ≡ some content)
              × (down_script content ≡ none)))
  RevertPost entries version s failed s' = s' ≡ s

  -- Reverting one migration runs the down half of its file and takes its version out of
  -- schema_migrations, or changes nothing, whatever fails; a file that is gone or has no down half
  -- is refused by name.
  revert_one-Ensures :
      (entries : List Entry) (version : Text) (s : Store App)
      → Ensures (RevertPost entries version s) s (revert_one e times entries version)
  unfolding revert_one remove_row
  revert_one-Ensures entries version s =
      Ensures-or_raise Q s (read_file entries (trim_app e times version))
        (unreadable (trim_app e times version)) _ (λ g. (refl, inl (refl, g)))
        (λ content g.
          Ensures-or_raise Q s (down_script content) (no_down (trim_app e times version)) _
            (λ h. (refl, inr (content, refl, g, h)))
            (λ down h. Ensures-bind Q s _ _ (
              Ensures-transaction (T content down) s _ refl (
                Ensures-bind (Closed (T content down) s) s (exec_checked (run_sql e times down)) _ (
                  Ensures-exec_checked (Then (Closed (T content down) s) _) s (run_sql e times down)
                    refl
                    (λ s1 k.
                      let (app, ran, same) = run_sql-some e times down s s1 k in
                      Ensures-exec (Closed (T content down) s) s1 (remove_row version) refl (
                        refl,
                        Ensures-pure Q _ true (
                          content,
                          down,
                          app,
                          g,
                          h,
                          ran,
                          ap (λ (x : Store App). remove_row version x) same,
                        ),
                      )))))))
    where
      Q : Result Error Bool → Store App → Type 0
      Q = RevertPost entries version s

      T : Text → Text → Result Error Unit → Store App → Type 0
      T content down = Then Q (λ x. pure true)

  -- The rows less those of some versions.
  abbrev pub without : List Text → List Migration → List Migration
  without [] rows = rows
  without (version ∷ versions) rows = without versions (delete (λ m. m.version == version) rows)

  -- What a run of reverts reports, of the versions that it was given: a part from the front, all of
  -- them where it succeeds, and the rows lose those reported.
  abbrev pub Reverted : List Text → List Text → Store App → Progress × Db (Store App) → Type 0
  Reverted names done s out =
      (new : List Text) × (rest : List Text) × (out.0.0 ≡ done ++ new)
      × (names ≡ new ++ rest)
      × (out.0.1 ≡ ok tt → rest ≡ [])
      × (out.1.tables.migrations ≡ without new s.migrations)

  stopped :
      (names done : List Text) (s : Store App) (r : Result Error Unit) (db : Db (Store App))
      → (r ≡ ok tt → names ≡ [])
      → db.tables.migrations ≡ s.migrations
      → Reverted names done s ((done, r), db)
  stopped names done s r db h same = ([], names, sym (append_nil done), refl, h, same)

  each-Reverted :
      (entries : List Entry) (names done : List Text) (db : Db (Store App))
      → Reverted names done db.tables (each (revert_one e times entries) names done db)
  unfolding each continue_with
  each-Reverted entries [] done db = stopped [] done db.tables (ok tt) db (λ h. refl) refl
  each-Reverted entries (name ∷ names) done db =
      turn (λ so_far db'. each-Reverted entries names so_far db')
        (revert_one e times entries name db).0 (revert_one e times entries name db).1
        ((revert_one-Ensures entries name db.tables).at db.faults)
    where
      turn :
          ((so_far : List Text) (db' : Db (Store App))
            → Reverted names so_far db'.tables (each (revert_one e times entries) names so_far db'))
          → (r : Result Error Bool) (db' : Db (Store App))
          → RevertPost entries name db.tables r db'.tables
          → Reverted (name ∷ names) done db.tables (
              continue_with name done r
                (λ so_far. each (revert_one e times entries) names so_far db')
                db')
      turn ih (ok true) db' (content, script, app, read, has, ran, same) =
          let (new, rest, out, split, all_of, rows) = ih (done ++ name ∷ []) db' in
          (
            name ∷ new,
            rest,
            out ∙ append_assoc done (name ∷ []) new,
            ap (λ xs. name ∷ xs) split,
            all_of,
            rows ∙ ap (λ (s : Store App). without new s.migrations) same,
          )
      turn ih (ok false) db' h = absurd h
      turn ih (err x) db' h =
          stopped (name ∷ names) done db.tables (err x) db' (λ k. absurd (cc k))
            (ap (λ (s : Store App). s.migrations) h.0)
      turn ih failed db' h =
          stopped (name ∷ names) done db.tables failed db' (λ k. absurd (cc k))
            (ap (λ (s : Store App). s.migrations) h)

  -- The same of a run that reports names.
  abbrev pub Named : List Text → Store App → Progress × Db (Store App) → Type 0
  Named versions s out =
      (new : List Text) × (rest : List Text) × (out.0.0 ≡ map (trim_app e times) new)
      × (versions ≡ new ++ rest)
      × (out.0.1 ≡ ok tt → rest ≡ [])
      × (out.1.tables.migrations ≡ without new s.migrations)

  renamed :
      (versions : List Text) (s : Store App) (out : Progress × Db (Store App))
      → Reverted versions [] s out
      → Named versions s (named e times out)
  renamed versions s out (new, rest, done, split, all_of, rows) =
      (new, rest, ap (map (trim_app e times)) done, split, all_of, rows)

  pub migrate_dir_down-Reverted :
      (like_app : Text → Bool) (entries : List Entry) (n : ℕ) (db : Db (Store App))
      → Named
          (last_applied like_app (suc n) db.tables)
          db.tables
          (migrate_dir_down e times like_app (present entries) (suc n) db)
  unfolding migrate_dir_down query
  migrate_dir_down-Reverted like_app entries n db = elim (Bool-cases (faulty db.faults)) [
    | inl b ↦ rw (b, revert_listed) ([], listed, refl, refl, λ k. absurd (cc k), refl)
    | inr b ↦
        rw (b, revert_listed)
          (renamed listed db.tables
            (each (revert_one e times entries) listed []
              (record { tables = db.tables; faults = later db.faults }))
            (each-Reverted entries listed []
              (record { tables = db.tables; faults = later db.faults })))
  ]
    where
      listed : List Text
      listed = last_applied like_app (suc n) db.tables
