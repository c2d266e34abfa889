-- ===== src/Migrate/Applying.antt =====
-- Applying a migration: its script and its record together, or neither.
use maubase.Prelude.{
  ℕ, ◌≡◌, refl, sym, ◌∙◌, eq_of_some, Text, ◌==◌, Bool, true, false, none, some, List, [], ◌∷◌,
  ◌++◌, arith, Option-cases, inl, inr, ltb, eqb, not, exists, count, if_none_inv, exists-count,
}
use maubase.Sql.{Result, ok, err, failed, Sql, query, exec_checked, ◌>>=◌}
use maubase.Sql.Ensures.{
  Ensures, Then, Closed, Ensures-pure, Ensures-query, Ensures-bind, Ensures-or_raise,
  Ensures-exec_checked, Ensures-transaction,
}
use maubase.Migrate.{
  Entry, Migration, Store, Engine, Error, unreadable, read_file, record_row, run_sql, new_row,
  apply_content, apply_unless, apply_if_new,
}
use maubase.Migrate.Split.{split_migration_sql}

module _ {App : Type 0} (e : Engine App) (times : Text → ℕ) where
  -- The script ran and the version, which was not recorded, is.
  abbrev pub AppliedAs : Text → Text → Store App → Store App → Type 0
  AppliedAs version content s s' =
      (app : App) × (e.run (split_migration_sql e.unicode content).0 s.app ≡ some app)
      × (exists (λ m. m.version == version) s.migrations ≡ false)
      × (s'
          ≡ record { migrations = s.migrations ++ new_row e times version content ∷ []; app = app })

  abbrev pub ApplyPost :
      List Entry → Text → Text → Store App → Result Error Bool → Store App → Type 0
  ApplyPost entries prefix name s (ok false) s' =
      (s' ≡ s) × (exists (λ m. m.version == prefix ++ name) s.migrations ≡ true)
  ApplyPost entries prefix name s (ok true) s' =
      (content : Text) × (read_file entries name ≡ some content)
      × AppliedAs (prefix ++ name) content s s'
  ApplyPost entries prefix name s (err x) s' =
      (s' ≡ s) × (x ≡ unreadable name) × (read_file entries name ≡ none)
  ApplyPost entries prefix name s failed s' = s' ≡ s

  pub run_sql-some :
      (script : Text) (s s' : Store App)
      → run_sql e times script s ≡ some s'
      → (app : App) × (e.run script s.app ≡ some app) × (s' ≡ record s { app = app })
  run_sql-some script s s' h = elim (Option-cases (e.run script s.app)) [
    | inl g ↦ absurd (cc (rw (g, run_sql) at h))
    | inr (app, g) ↦ (app, g, sym (eq_of_some _ s' (rw (g, run_sql) at h)))
  ]

  record_row-some :
      (m : Migration) (s s' : Store App)
      → record_row m s ≡ some s'
      → (exists (λ x. x.version == m.version) s.migrations ≡ false)
        × (s' ≡ record s { migrations = s.migrations ++ m ∷ [] })
  unfolding record_row
  record_row-some m s s' h = if_none_inv (exists (λ x. x.version == m.version) s.migrations) _ s' h

  -- What the transaction does, for a result of any type that only tells success from failure.
  apply_content-then :
      {B : Type 0} (version content : Text) (s : Store App)
      (Q : Result Error B → Store App → Type 0) (k : Unit → Sql (Store App) Error B)
      → Q failed s
      → ((s' : Store App) → AppliedAs version content s s' → Ensures Q s' (k tt))
      → Ensures Q s (apply_content e times version content >>= k)
  unfolding apply_content
  apply_content-then version content s Q k x h = Ensures-bind Q s _ k (
      Ensures-transaction (Then Q k) s _ x (
        Ensures-bind C s (exec_checked (run_sql e times script)) _ (
          Ensures-exec_checked (Then C _) s (run_sql e times script) x (λ s1 g.
            let (app, ran, same) = run_sql-some script s s1 g in
            Ensures-exec_checked C s1 (record_row (new_row e times version content)) x (λ s2 g2.
              let (free, same2) = record_row-some (new_row e times version content) s1 s2 g2 in
              (x, h s2 (app, ran, rw same at free, rw same at same2)))))))
    where
      script : Text
      script = (split_migration_sql e.unicode content).0

      C : Result Error Unit → Store App → Type 0
      C = Closed (Then Q k) s

  apply_unless-Ensures :
      (b : Bool) (entries : List Entry) (prefix name : Text) (s : Store App)
      → exists (λ m. m.version == prefix ++ name) s.migrations ≡ b
      → Ensures (ApplyPost entries prefix name s) s (apply_unless e times b entries prefix name)
  unfolding apply_unless
  apply_unless-Ensures true entries prefix name s there =
      Ensures-pure (ApplyPost entries prefix name s) s false (refl, there)
  apply_unless-Ensures false entries prefix name s there =
      Ensures-or_raise Q s (read_file entries name) (unreadable name) _ (λ g. (refl, refl, g))
        (λ content g.
          apply_content-then (prefix ++ name) content s Q _ refl
            (λ s' applied. Ensures-pure Q s' true (content, g, applied)))
    where
      Q : Result Error Bool → Store App → Type 0
      Q = ApplyPost entries prefix name s

  -- One turn of applyMigrations passes over a version that is recorded. For one that is not, the
  -- file's up half runs and the version is recorded with the checksum of the file, or nothing
  -- changes, whatever fails.
  pub apply_if_new-Ensures :
      (entries : List Entry) (prefix name : Text) (s : Store App)
      → Ensures (ApplyPost entries prefix name s) s (apply_if_new e times entries prefix name)
  unfolding apply_if_new
  apply_if_new-Ensures entries prefix name s = Ensures-bind Q s (query _) _ (
      Ensures-query (Then Q _) s _ refl (
        apply_unless-Ensures _ entries prefix name s (
          exists-count (λ m. m.version == prefix ++ name) s.migrations
          ∙ positive (count (λ m. m.version == prefix ++ name) s.migrations))))
    where
      Q : Result Error Bool → Store App → Type 0
      Q = ApplyPost entries prefix name s

      positive : (n : ℕ) → not (eqb n 0) ≡ ltb 0 n
      positive n = ground arith
