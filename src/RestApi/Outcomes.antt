-- ===== src/RestApi/Outcomes.antt =====
-- What each statement of internal/restapi does to the store, as rules for chains of statements.
use maubase.Prelude.{
  ℕ, Text, ◌==◌, ◌≡◌, refl, ap, ◌∙◌, eq→path, Bool, Option, none, some, List, [], ◌∷◌, update,
  delete, count, first-some, Assoc,
}
use maubase.Sql.{Result, ok, failed, ran, query}
use maubase.Sql.Ensures.{
  Ensures, Then, Ensures-pure, Ensures-bind, Ensures-query, Ensures-option, Ensures-effect,
}
use maubase.Realtime.{Event}
use maubase.RestApi.Sqlite.{
  Json, Column, Row, Table, Engine, Store, new_row, set_row, table_named, with_rows, with_row,
}
use maubase.RestApi.Discovery.{Collection}
use maubase.RestApi.Statements.{
  Reply, at_pk, rows_where, select_rows, head, fetch_by_pk, ended_with, inserted, insert_row,
  updated, update_rows, removed, delete_rows,
}
use maubase.RestApi.Requests.{Server, sent, publish}

-- The store with other rows in one table.
abbrev pub wrote : Text → List Row → Store → Store
wrote name rows s = record s { tables = with_rows name rows s.tables }

module _ (Q : Result Reply (List Row) → Store → Type 0) (s : Store) where
  pub Ensures-select_rows :
      (name : Text) (p : List Column → Row → Bool)
      → Q failed s
      → ((rows : List Row) → rows_where p (table_named name s.tables) ≡ some rows → Q (ok rows) s)
      → Ensures Q s (select_rows name p)
  unfolding select_rows
  Ensures-select_rows name p x k =
      Ensures-bind Q s (query _) _
        (Ensures-query (Then Q _) s _ x (Ensures-option Q s _ (λ e. x) k))

module _ (e : Engine) (Q : Result Reply (Option Row) → Store → Type 0) (s : Store) where
  pub Ensures-fetch_by_pk :
      (col : Collection) (pk : Json) (scoped : Bool) (subject : Text)
      → Q failed s
      → ((rows : List Row)
          → rows_where (at_pk e col pk scoped subject) (table_named col.name s.tables) ≡ some rows
          → Q (ok (head rows)) s)
      → Ensures Q s (fetch_by_pk e col pk scoped subject)
  unfolding fetch_by_pk
  Ensures-fetch_by_pk col pk scoped subject x k = Ensures-bind Q s (select_rows col.name _) _ (
      Ensures-select_rows (Then Q _) s col.name _ x
        (λ rows h. Ensures-pure Q s (head rows) (k rows h)))

module _ (sv : Server) (Q : Result Reply Unit → Store → Type 0) (s : Store) where
  pub Ensures-publish :
      (col : Collection) (ev : Event) (owner_id : Text)
      → Q (ok tt) (record s { published = sent sv col ev owner_id s.published })
      → Ensures Q s (publish sv col ev owner_id)
  unfolding publish
  Ensures-publish col ev owner_id h = Ensures-effect Q s _ h

table_named_path :
    (name : Text) (ts : List Table) (t : Table) → table_named name ts ≡ some t → t.name ≡ name
table_named_path name ts t h = eq→path t.name name (first-some (λ t. t.name == name) ts t h)

renamed :
    (s s' : Store) {name name' : Text} (rows : List Row)
    → name ≡ name'
    → s' ≡ wrote name rows s
    → s' ≡ wrote name' rows s
renamed s s' {name} {name'} rows same h = h ∙ ap (λ n. wrote n rows s) same

ended_with_inv :
    {A : Type 0} (a b : A) (rows : List Row) (t : Table) (s s' : Store) (reply : Text → Reply)
    (o : Option Text)
    → ended_with a rows t s reply o ≡ ran b s'
    → (b ≡ a) × (s' ≡ wrote t.name rows s)
ended_with_inv a b rows t s s' reply none h = (cc h, cc h)
ended_with_inv a b rows t s s' reply (some msg) h = absurd (cc h)

module _ (e : Engine) (s s' : Store) where
  inserted_inv :
      (body : Assoc Json) (last : Json) (o : Option Table)
      → inserted e body o s ≡ ran last s'
      → (t : Table) × (o ≡ some t)
        × (last ≡ e.last_id t (new_row e t body t.columns))
        × (s' ≡ wrote t.name (with_row e t (new_row e t body t.columns)) s)
  inserted_inv body last none h = absurd (cc h)
  inserted_inv [] last (some t) h = absurd (cc h)
  inserted_inv (f ∷ body) last (some t) h =
      let row = new_row e t (f ∷ body) t.columns in
      let (a, b) =
        ended_with_inv (e.last_id t row) last (with_row e t row) t s s' _
          (e.refuse s.tables t (with_row e t row)) h in
      (t, refl, a, b)

  updated_inv :
      (p : List Column → Row → Bool) (body : Assoc Json) (n : ℕ) (o : Option Table)
      → updated e p body o s ≡ ran n s'
      → (t : Table) × (o ≡ some t)
        × (n ≡ count (p t.columns) t.rows)
        × (s' ≡ wrote t.name (update (p t.columns) (set_row e t.columns body) t.rows) s)
  updated_inv p body n none h = absurd (cc h)
  updated_inv p body n (some t) h =
      let rows = update (p t.columns) (set_row e t.columns body) t.rows in
      let (a, b) =
        ended_with_inv (count (p t.columns) t.rows) n rows t s s' _ (e.refuse s.tables t rows) h in
      (t, refl, a, b)

  removed_inv :
      (p : List Column → Row → Bool) (n : ℕ) (o : Option Table)
      → removed e p o s ≡ ran n s'
      → (t : Table) × (o ≡ some t)
        × (n ≡ count (p t.columns) t.rows)
        × (s' ≡ wrote t.name (delete (p t.columns) t.rows) s)
  removed_inv p n none h = absurd (cc h)
  removed_inv p n (some t) h =
      let rows = delete (p t.columns) t.rows in
      let (a, b) =
        ended_with_inv (count (p t.columns) t.rows) n rows t s s' _ (e.refuse s.tables t rows) h in
      (t, refl, a, b)

  module _ (name : Text) where
    -- What a statement that runs leaves.
    abbrev pub Inserted : Assoc Json → Json → Table → Type 0
    Inserted body last t =
        (table_named name s.tables ≡ some t)
        × (last ≡ e.last_id t (new_row e t body t.columns))
        × (s' ≡ wrote name (with_row e t (new_row e t body t.columns)) s)

    abbrev pub Updated : (List Column → Row → Bool) → Assoc Json → ℕ → Table → Type 0
    Updated p body n t =
        (table_named name s.tables ≡ some t)
        × (n ≡ count (p t.columns) t.rows)
        × (s' ≡ wrote name (update (p t.columns) (set_row e t.columns body) t.rows) s)

    abbrev pub Removed : (List Column → Row → Bool) → ℕ → Table → Type 0
    Removed p n t =
        (table_named name s.tables ≡ some t)
        × (n ≡ count (p t.columns) t.rows)
        × (s' ≡ wrote name (delete (p t.columns) t.rows) s)

    pub insert_row-ran :
        (body : Assoc Json) (last : Json)
        → insert_row e name body s ≡ ran last s'
        → (t : Table) × Inserted body last t
    unfolding insert_row
    insert_row-ran body last h =
        let (t, at, a, b) = inserted_inv body last (table_named name s.tables) h in
        (
          t,
          (
            at,
            a,
            renamed s s' (with_row e t (new_row e t body t.columns))
                (table_named_path name s.tables t at) b,
          ),
        )

    pub update_rows-ran :
        (p : List Column → Row → Bool) (body : Assoc Json) (n : ℕ)
        → update_rows e name p body s ≡ ran n s'
        → (t : Table) × Updated p body n t
    unfolding update_rows
    update_rows-ran p body n h =
        let (t, at, a, b) = updated_inv p body n (table_named name s.tables) h in
        (
          t,
          (
            at,
            a,
            renamed s s' (update (p t.columns) (set_row e t.columns body) t.rows)
                (table_named_path name s.tables t at) b,
          ),
        )

    pub delete_rows-ran :
        (p : List Column → Row → Bool) (n : ℕ)
        → delete_rows e name p s ≡ ran n s'
        → (t : Table) × Removed p n t
    unfolding delete_rows
    delete_rows-ran p n h =
        let (t, at, a, b) = removed_inv p n (table_named name s.tables) h in
        (
          t,
          (
            at,
            a,
            renamed s s' (delete (p t.columns) t.rows) (table_named_path name s.tables t at) b,
          ),
        )
