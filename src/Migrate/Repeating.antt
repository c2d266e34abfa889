-- ===== src/Migrate/Repeating.antt =====
-- Applying twice is applying once.
use maubase.Prelude.{
  ℕ, ◌≡◌, refl, Text, ◌==◌, eq_refl, Bool, true, false, List, [], ◌∷◌, ◌++◌, arith, ltb, All,
  exists, count, exists-append_keep, exists-append_last, exists-count,
}
use maubase.Sql.{Result, ok, err, failed, Db, Sql, ◌>>=◌}
use maubase.Migrate.{
  Entry, Store, Engine, Error, each, continue_with, file_names, new_row, apply_if_new, apply_unless,
  apply_migrations,
}
use maubase.Migrate.Applying.{ApplyPost, apply_if_new-Ensures}

module _ {App : Type 0} (e : Engine App) (times : Text → ℕ) (entries : List Entry)
    (prefix : Text) where
  act : Text → Sql (Store App) Error Bool
  act = apply_if_new e times entries prefix

  abbrev pub Recorded : Store App → Text → Type 0
  Recorded s name = exists (λ m. m.version == prefix ++ name) s.migrations ≡ true

  -- One turn forgets nothing.
  kept :
      (name other : Text) (s : Store App) (r : Result Error Bool) (s' : Store App)
      → ApplyPost e times entries prefix name s r s'
      → Recorded s other
      → Recorded s' other
  kept name other s (ok true) s' (content, read, (app, ran, free, same)) h = rw same (
      exists-append_keep (λ m. m.version == prefix ++ other) s.migrations
        (new_row e times (prefix ++ name) content) h)
  kept name other s (ok false) s' (same, there) h = rw same h
  kept name other s (err x) s' (same, why, read) h = rw same h
  kept name other s failed s' same h = rw same h

  -- And a turn that does not fail records its name.
  recorded :
      (name : Text) (s : Store App) (b : Bool) (s' : Store App)
      → ApplyPost e times entries prefix name s (ok b) s'
      → Recorded s' name
  recorded name s true s' (content, read, (app, ran, free, same)) = rw same (
      exists-append_last (λ m. m.version == prefix ++ name) s.migrations
        (new_row e times (prefix ++ name) content) (eq_refl (prefix ++ name)))
  recorded name s false s' (same, there) = rw same there

  post :
      (name : Text) (db : Db (Store App))
      → ApplyPost e times entries prefix name db.tables (act name db).0 (act name db).1.tables
  unfolding act
  post name db = (apply_if_new-Ensures e times entries prefix name db.tables).at db.faults

  each-kept :
      (names done : List Text) (db : Db (Store App)) (other : Text)
      → Recorded db.tables other
      → Recorded (each act names done db).1.tables other
  unfolding each continue_with
  each-kept [] done db other h = h
  each-kept (name ∷ names) done db other h =
      turn (λ so_far db'. each-kept names so_far db' other) (act name db).0 (act name db).1
        (kept name other db.tables (act name db).0 (act name db).1.tables (post name db) h)
    where
      turn :
          ((so_far : List Text) (db' : Db (Store App))
            → Recorded db'.tables other
            → Recorded (each act names so_far db').1.tables other)
          → (r : Result Error Bool) (db' : Db (Store App)) → Recorded db'.tables other
          → Recorded
              (continue_with name done r (λ so_far. each act names so_far db') db').1.tables
              other
      turn ih (ok true) db' k = ih (done ++ name ∷ []) db' k
      turn ih (ok false) db' k = ih done db' k
      turn ih (err x) db' k = k
      turn ih failed db' k = k

  each-Recorded :
      (names done : List Text) (db : Db (Store App))
      → (each act names done db).0.1 ≡ ok tt
      → All (Recorded (each act names done db).1.tables) names
  unfolding each continue_with
  each-Recorded [] done db finished = tt
  each-Recorded (name ∷ names) done db finished =
      turn (λ so_far db'. each-Recorded names so_far db') (act name db).0 (act name db).1
        (post name db) finished
    where
      turn :
          ((so_far : List Text) (db' : Db (Store App))
            → (each act names so_far db').0.1 ≡ ok tt
            → All (Recorded (each act names so_far db').1.tables) names)
          → (r : Result Error Bool) (db' : Db (Store App))
          → ApplyPost e times entries prefix name db.tables r db'.tables
          → (continue_with name done r (λ so_far. each act names so_far db') db').0.1 ≡ ok tt
          → All
              (Recorded
                (continue_with name done r (λ so_far. each act names so_far db') db').1.tables)
              (name ∷ names)
      turn ih (ok true) db' p finished = (
        each-kept names (done ++ name ∷ []) db' name (recorded name db.tables true db'.tables p),
        ih (done ++ name ∷ []) db' finished,
      )
      turn ih (ok false) db' p finished = (
        each-kept names done db' name (recorded name db.tables false db'.tables p),
        ih done db' finished,
      )
      turn ih (err x) db' p finished = absurd (cc (finished))
      turn ih failed db' p finished = absurd (cc (finished))

  abbrev quiet : Store App → Db (Store App)
  quiet s = record { tables = s; faults = [] }

  passes :
      (name : Text) (s : Store App) → Recorded s name → act name (quiet s) ≡ (ok false, quiet s)
  unfolding act apply_if_new apply_unless ◌>>=◌
  passes name s h =
      let positive : ltb 0 (count (λ m. m.version == prefix ++ name) s.migrations) ≡ true =
        ground (arith, h, exists-count (λ m. m.version == prefix ++ name) s.migrations) in
      rw positive

  each_passes :
      (names done : List Text) (s : Store App)
      → All (Recorded s) names
      → each act names done (quiet s) ≡ ((done, ok tt), quiet s)
  unfolding each continue_with
  each_passes [] done s h = refl
  each_passes (name ∷ names) done s h = rw (passes name s h.0) (each_passes names done s h.1)

  -- After applying the pending migrations has succeeded, applying them again reports no name,
  -- succeeds and changes nothing, where no statement fails.
  pub apply_migrations_idem :
      (db : Db (Store App))
      → (apply_migrations e times entries prefix db).0.1 ≡ ok tt
      → apply_migrations e times entries prefix
          (quiet (apply_migrations e times entries prefix db).1.tables)
        ≡ (([], ok tt), quiet (apply_migrations e times entries prefix db).1.tables)
  unfolding apply_migrations act
  apply_migrations_idem db finished =
      each_passes (file_names entries) [] _ (each-Recorded (file_names entries) [] db finished)
