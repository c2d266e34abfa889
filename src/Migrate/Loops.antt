-- ===== src/Migrate/Loops.antt =====
-- What a loop over names reports, and what is recorded after it.
use maubase.Prelude.{
  ℕ, ◌≡◌, refl, sym, ap, ◌∙◌, Text, Bool, true, false, List, [], ◌∷◌, ◌++◌, map, append_assoc,
  append_nil, map-append,
}
use maubase.Sql.{Result, ok, err, failed, Db, Sql}
use maubase.Sql.Ensures.{Ensures}
use maubase.Migrate.{
  Entry, Store, Engine, Error, Progress, each, continue_with, file_names, new_row, apply_if_new,
  apply_migrations,
}
use maubase.Migrate.Applying.{ApplyPost, apply_if_new-Ensures}

-- The rows that one turn adds: one with the name's version where it answers true, and none
-- otherwise.
module _ {App : Type 0} (f : Store App → List Text) (g : Text → Text) where
  abbrev pub Adds : Text → Store App → Result Error Bool → Store App → Type 0
  Adds name s (ok true) s' = f s' ≡ f s ++ g name ∷ []
  Adds name s (ok false) s' = f s' ≡ f s
  Adds name s (err e) s' = f s' ≡ f s
  Adds name s failed s' = f s' ≡ f s

  abbrev pub Reports : List Text → Store App → Progress × Db (Store App) → Type 0
  Reports done s out =
      (new : List Text) × (out.0.0 ≡ done ++ new) × (f out.1.tables ≡ f s ++ map g new)

  nothing_new :
      (done : List Text) (s s' : Store App) (r : Result Error Unit) (bs : List Bool)
      → f s' ≡ f s
      → Reports done s ((done, r), record { tables = s'; faults = bs })
  nothing_new done s s' r bs same = ([], sym (append_nil done), same ∙ sym (append_nil (f s)))

  module _ (act : Text → Sql (Store App) Error Bool)
      (adds : (name : Text) (s : Store App) → Ensures (Adds name s) s (act name)) where
    each-Reports :
        (names done : List Text) (db : Db (Store App))
        → Reports done db.tables (each act names done db)
    unfolding each continue_with
    each-Reports [] done db = nothing_new done db.tables db.tables (ok tt) db.faults refl
    each-Reports (name ∷ names) done db =
        turn (λ so_far db'. each-Reports names so_far db') (act name db).0 (act name db).1
          ((adds name db.tables).at db.faults)
      where
        turn :
            ((so_far : List Text) (db' : Db (Store App))
              → Reports so_far db'.tables (each act names so_far db'))
            → (r : Result Error Bool) (db' : Db (Store App)) → Adds name db.tables r db'.tables
            → Reports done db.tables
                (continue_with name done r (λ so_far. each act names so_far db') db')
        turn ih (ok true) db' h =
            let (new, out, rows) = ih (done ++ name ∷ []) db' in
            (
              name ∷ new,
              out ∙ append_assoc done (name ∷ []) new,
              rows
                  ∙ ap (λ xs. xs ++ map g new) h
                  ∙ append_assoc (f db.tables) (g name ∷ []) (map g new),
            )
        turn ih (ok false) db' h =
            let (new, out, rows) = ih done db' in (new, out, rows ∙ ap (λ xs. xs ++ map g new) h)
        turn ih (err e) db' h = nothing_new done db.tables db'.tables (err e) db'.faults h
        turn ih failed db' h = nothing_new done db.tables db'.tables failed db'.faults h

abbrev pub versions : {App : Type 0} → Store App → List Text
versions s = map (λ m. m.version) s.migrations

module _ {App : Type 0} (e : Engine App) (times : Text → ℕ) where
  apply_if_new-Adds :
      (entries : List Entry) (prefix name : Text) (s : Store App)
      → Ensures
          (Adds versions (λ x. prefix ++ x) name s)
          s
          (apply_if_new e times entries prefix name)
  apply_if_new-Adds entries prefix name s = record {
    at = λ bs. go _ _ ((apply_if_new-Ensures e times entries prefix name s).at bs);
  }
    where
      go :
          (r : Result Error Bool) (s' : Store App)
          → ApplyPost e times entries prefix name s r s'
          → Adds versions (λ x. prefix ++ x) name s r s'
      go (ok true) s' (content, read, (app, ran, free, same)) =
          rw same (
            map-append (λ m. m.version) s.migrations
              (new_row e times (prefix ++ name) content ∷ []))
      go (ok false) s' h = ap versions h.0
      go (err x) s' h = ap versions h.0
      go failed s' h = ap versions h

  -- The names that applying the pending migrations reports are exactly the versions that it adds to
  -- schema_migrations, in that order, also where it stops on an error.
  pub apply_migrations-Reports :
      (entries : List Entry) (prefix : Text) (db : Db (Store App))
      → Reports versions
          (λ x. prefix ++ x)
          []
          db.tables
          (apply_migrations e times entries prefix db)
  unfolding apply_migrations
  apply_migrations-Reports entries prefix db =
      each-Reports versions (λ x. prefix ++ x) (apply_if_new e times entries prefix)
        (apply_if_new-Adds entries prefix) (file_names entries) [] db
