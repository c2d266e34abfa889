-- ===== src/RestApi/Changing.antt =====
-- What PATCH leaves.
use maubase.Prelude.{
  ℕ, Text, All, codes, ◌==◌, ◌≡◌, refl, sym, ap, ◌∙◌, ◌⊎◌, inl, inr, eq_refl, Bool, true, false,
  not, Option, none, some, List, [], map, select, update, count, exists, ltb, if◌then◌else◌,
  Bool-cases, eq_of_some, Assoc, lookup, remove, lookup-remove, &&-left, &&-right, update_none,
}
use maubase.Sql.{Result, ok, err, failed, exec_or}
use maubase.Sql.Ensures.{
  Ensures, Then, Ensures-pure, Ensures-bind, Ensures-or_raise, Ensures-guard, Ensures-exec_or,
  Ensures-from_option,
}
use maubase.RestApi.Sqlite.{
  Value, Json, Column, column_named, Row, Table, Store, is_at, set_row, table_named,
}
use maubase.RestApi.Discovery.{Collection, Registry}
use maubase.RestApi.Statements.{
  Reply, found, missing, no_collection, forbidden, nothing_to_update, in_scope, at_pk, head,
  fetch_by_pk, update_rows,
}
use maubase.RestApi.Requests.{
  Request, Server, decode_body, mutable_fields, is_empty, sent, publish, event, owner_gate_value,
  rule_scopes,
}
use maubase.RestApi.Cells.{select-update, map-update, lookup-set_row, is_at-set_row, with_rows_same}
use maubase.RestApi.Outcomes.{wrote, Ensures-fetch_by_pk, Ensures-publish, update_rows-ran}
use maubase.RestApi.Creating.{body_of, decode_body-Ensures}
use maubase.RestApi.Written.{head-with_rows, update-listed, no_match, some_match, head-rows_where}
use maubase.RestApi.{read_back, update_row, update_with, handle_update}

-- The key and the owner are not among the fields that are set.
lookup-mutable_fields :
    (col : Collection) (body : Assoc Json)
    → (lookup col.pk_column (mutable_fields col body) ≡ none)
      × ((col.owner_column == []) ≡ false
          → lookup col.owner_column (mutable_fields col body) ≡ none)
lookup-mutable_fields col body = elim (Bool-cases (col.owner_column == [])) [
  | inl e ↦ (rw e no_key, λ owned. absurd (cc (e, owned)))
  | inr e ↦ (
    rw e (
        lookup-remove col.owner_column col.pk_column (remove col.pk_column body)
        ∙ either (col.owner_column == col.pk_column) no_key),
    λ owned. rw e (
        lookup-remove col.owner_column col.owner_column (remove col.pk_column body)
        ∙ rw (eq_refl col.owner_column) refl),
  )
]
  where
    no_key : lookup col.pk_column (remove col.pk_column body) ≡ none
    no_key = lookup-remove col.pk_column col.pk_column body ∙ rw (eq_refl col.pk_column) refl

    either : (b : Bool) {o : Option Json} → o ≡ none → (if b then none else o) ≡ none
    either true h = refl
    either false h = h

module _ (sv : Server) (reg : Registry) (r : Request) (s : Store) (col : Collection) where
  -- WHERE pk = ?, and WHERE owner_id = ?
  abbrev pub at_id : Table → Row → Bool
  at_id t = is_at sv.engine t.columns col.pk_column (Json.text r.id)

  abbrev pub is_mine : Table → Row → Bool
  is_mine t = is_at sv.engine t.columns col.owner_column (Json.text r.subject)

  -- Between the rows of a table before and after: no row changes its key or its owner, rows with
  -- another key stay, and so do the rows of other owners, if the rule is the owner rule.
  pub record Changes (t : Table) (rows : List Row) : Type 0 where
    pub keys : map (lookup col.pk_column) rows ≡ map (lookup col.pk_column) t.rows
    pub owners :
        (col.owner_column == []) ≡ false
        → map (lookup col.owner_column) rows ≡ map (lookup col.owner_column) t.rows
    pub other_keys : select (λ x. not (at_id t x)) rows ≡ select (λ x. not (at_id t x)) t.rows
    pub others :
        (col.owner_column == []) ≡ false
        → rule_scopes col.update_rule ≡ true
        → select (λ x. not (is_mine t x)) rows ≡ select (λ x. not (is_mine t x)) t.rows

  abbrev matches : Table → Row → Bool
  matches t = at_pk sv.engine col (Json.text r.id) (rule_scopes col.update_rule) r.subject t.columns

  in_scope-is_mine :
      (t : Table) (x : Row)
      → rule_scopes col.update_rule ≡ true
      → matches t x ≡ true
      → is_mine t x ≡ true
  in_scope-is_mine t x rule h =
      let scoped =
        &&-right (at_id t x)
          (in_scope sv.engine col (rule_scopes col.update_rule) r.subject t.columns x) h in
      rw rule at scoped

  update-Changes :
      (t : Table) (body : Assoc Json)
      → Changes t
          (update (matches t) (set_row sv.engine t.columns (mutable_fields col body)) t.rows)
  update-Changes t body =
      let (no_key, no_owner) = lookup-mutable_fields col body in
      let set = set_row sv.engine t.columns (mutable_fields col body) in
      record {
        keys =
            map-update (matches t) set (lookup col.pk_column)
              (λ x.
                lookup-set_row sv.engine t.columns (mutable_fields col body) col.pk_column x no_key)
              t.rows;
        owners = λ owned.
            map-update (matches t) set (lookup col.owner_column)
              (λ x.
                lookup-set_row sv.engine t.columns (mutable_fields col body) col.owner_column x
                  (no_owner owned))
              t.rows;
        other_keys =
            select-update (matches t) (λ x. not (at_id t x)) set
              (λ x h. rw (&&-left (at_id t x) _ h) refl)
              (λ x h.
                rw
                  (
                    is_at-set_row sv.engine t.columns t.columns (mutable_fields col body)
                        col.pk_column (Json.text r.id) x no_key,
                    &&-left (at_id t x) _ h,
                  )
                  refl)
              t.rows;
        others = λ owned rule.
            select-update (matches t) (λ x. not (is_mine t x)) set
              (λ x h. rw (in_scope-is_mine t x rule h) refl)
              (λ x h.
                rw
                  (
                    is_at-set_row sv.engine t.columns t.columns (mutable_fields col body)
                        col.owner_column (Json.text r.subject) x (no_owner owned),
                    in_scope-is_mine t x rule h,
                  )
                  refl)
              t.rows;
      }

  -- What the body sets: its fields without the key and the owner.
  abbrev asked : Assoc Json
  asked = mutable_fields col (body_of r.body)

  -- There was a row for the update, and the rows that are the update's have the values asked for,
  -- each as its column keeps it.
  pub record Sets (t : Table) (rows : List Row) : Type 0 where
    pub was : exists (matches t) t.rows ≡ true
    pub values :
        (k : Text) (j : Json) (c : Column)
        → lookup k asked ≡ some j
        → column_named k t.columns ≡ some c
        → All
            (λ x. matches t x ≡ true → (v : Value) → lookup k x ≡ some v → v ≡ sv.engine.store c j)
            rows

  -- A body that sets nothing: the row is read, and nothing changes.
  abbrev ReadOnly : Row → Store → Type 0
  ReadOnly shown s' =
      (is_empty asked ≡ true)
      × ((t : Table) × (table_named col.name s.tables ≡ some t)
          × (head (select (matches t) t.rows) ≡ some shown))
      × (s' ≡ s)

  -- The row that is answered and published is the one with the key, as it is after the update.
  abbrev Written : Row → Store → Type 0
  Written shown s' =
      (is_empty asked ≡ false)
      × ((t : Table) × (rows : List Row) × (table_named col.name s.tables ≡ some t)
          × Changes t rows
          × Sets t rows
          × (head (select (at_pk sv.engine col (Json.text r.id) false [] t.columns) rows)
              ≡ some shown)
          × (s' ≡ record (wrote col.name rows s) {
            published =
                sent sv col (event (codes "updated") col (some (sv.engine.encode shown)) [])
                  (owner_gate_value sv col shown) s.published;
          }))

  abbrev pub UpdatePost : Result Reply Reply → Store → Type 0
  UpdatePost (ok reply) s' =
      (shown : Row) × (reply ≡ found shown) × (ReadOnly shown s' ⊎ Written shown s')
  UpdatePost (err reply) s' = s' ≡ s
  UpdatePost failed s' =
      (s' ≡ s)
      ⊎ ((t : Table) × (rows : List Row) × (table_named col.name s.tables ≡ some t)
          × Changes t rows
          × (s' ≡ wrote col.name rows s))

  update-Sets :
      (t : Table)
      → exists (matches t) t.rows ≡ true
      → Sets t (update (matches t) (set_row sv.engine t.columns asked) t.rows)
  update-Sets t was = record {
    was = was;
    values = λ k j c listed named.
        update-listed sv.engine (matches t) t.columns asked t.rows k j c listed named;
  }

  -- Where no row is affected, nothing has changed.
  none_affected :
      (t : Table) (body : Assoc Json) (n : ℕ) (s1 : Store)
      → table_named col.name s.tables ≡ some t
      → n ≡ count (matches t) t.rows
      → s1 ≡ wrote col.name (update (matches t) (set_row sv.engine t.columns body) t.rows) s
      → ltb 0 n ≡ false
      → s1 ≡ s
  none_affected t body n s1 at n_is left zero_rows =
      left
      ∙ ap (λ rows. wrote col.name rows s)
          (update_none (matches t) (set_row sv.engine t.columns body) t.rows
            (no_match (matches t) t.rows n n_is zero_rows))
      ∙ ap (λ ts. record s { tables = ts }) (with_rows_same col.name s.tables t at)

  update_row-Ensures : is_empty asked ≡ false → Ensures UpdatePost s (update_row sv col r asked)
  unfolding update_row
  update_row-Ensures sets = Ensures-bind UpdatePost s (exec_or _) _ (
      Ensures-exec_or (Then UpdatePost _) s (update_rows sv.engine col.name _ asked) (inl refl)
        (λ e h. refl)
        (λ n s1 h.
          let (t, (at, n_is, left)) = update_rows-ran sv.engine s s1 col.name _ asked n h in
          let rows = update (matches t) (set_row sv.engine t.columns asked) t.rows in
          let s2 = wrote col.name rows s in
          let changes = update-Changes t (body_of r.body) in
          Ensures-guard UpdatePost s1 (ltb 0 n) missing _
            (λ zero_rows. none_affected t asked n s1 at n_is left zero_rows)
            (λ some_rows. rw left (
              Ensures-bind UpdatePost s2 (fetch_by_pk sv.engine col _ false []) _ (
                Ensures-fetch_by_pk sv.engine (Then UpdatePost _) s2 col (Json.text r.id) false []
                  (inr (t, rows, at, changes, refl))
                  (λ found_rows k.
                    Ensures-from_option UpdatePost s2 (head found_rows) _
                      (inr (t, rows, at, changes, refl))
                      (λ shown shown_is. Ensures-bind UpdatePost s2 (publish sv col _ _) _ (
                        Ensures-publish sv (Then UpdatePost _) s2 col _ _ (
                          Ensures-pure UpdatePost _ (found shown) (
                            shown,
                            refl,
                            inr (
                              sets,
                              (
                                t,
                                rows,
                                at,
                                changes,
                                update-Sets t (some_match (matches t) t.rows n n_is some_rows),
                                head-with_rows _ col.name rows found_rows s.tables t shown at k
                                    shown_is,
                                refl,
                              ),
                            ),
                          ))))))))))

  read_back-Ensures : is_empty asked ≡ true → Ensures UpdatePost s (read_back sv col r)
  unfolding read_back
  read_back-Ensures sets_nothing = Ensures-bind UpdatePost s (fetch_by_pk sv.engine col _ _ _) _ (
      Ensures-fetch_by_pk sv.engine (Then UpdatePost _) s col (Json.text r.id)
        (rule_scopes col.update_rule) r.subject (inl refl)
        (λ rows k.
          Ensures-or_raise UpdatePost s (head rows) missing _ (λ e. refl)
            (λ shown e.
              Ensures-pure UpdatePost s (found shown)
                (shown, refl, inl (sets_nothing, head-rows_where _ _ rows shown k e, refl)))))

  update_with-Ensures : Ensures UpdatePost s (update_with sv col r (body_of r.body))
  unfolding update_with
  update_with-Ensures = elim (Bool-cases (is_empty asked)) [
    | inl e ↦ rw e (
        Ensures-guard UpdatePost s (not (is_empty (body_of r.body))) nothing_to_update _
          (λ sent_nothing. refl) (λ sent_some. read_back-Ensures e))
    | inr e ↦ rw e (update_row-Ensures e)
  ]

  -- An update changes no key and no owner, no row with another key, and under the owner rule no row
  -- of another owner; and no other table. Where it succeeds and its body sets something, the rows
  -- with the key, under the owner rule those of the caller, have the values asked for, and the row
  -- as it is then is answered and published once, unless there is no broker or reads are denied;
  -- where its body sets nothing, the row is answered and nothing changes. A refusal changes
  -- nothing, whichever statements fail; after an internal error the change may stand without an
  -- event.
  pub handle_update-Ensures :
      lookup r.collection reg ≡ some col → Ensures UpdatePost s (handle_update sv reg r)
  unfolding handle_update
  handle_update-Ensures found_col =
      Ensures-or_raise UpdatePost s (lookup r.collection reg) no_collection _ (λ e. refl)
        (λ col' e. rw (eq_of_some col' col (sym e ∙ found_col)) (
          Ensures-guard UpdatePost s _ forbidden _ (λ denied. refl)
            (λ allowed. Ensures-bind UpdatePost s (decode_body col r.body) _ (
              decode_body-Ensures (Then UpdatePost _) s col r.body (λ e. refl)
                update_with-Ensures))))
