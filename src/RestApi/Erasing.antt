-- ===== src/RestApi/Erasing.antt =====
-- What account erasure leaves in the collections of which rows have owners.
use maubase.Prelude.{
  Text, ◌==◌, ◌≡◌, refl, sym, ap, ◌∙◌, subst, inl, inr, Bool, true, false, not, some, List, [], ◌∷◌,
  map, select, delete, exists, exists-delete, Bool-cases, eq_of_some, All, All-map, All-select,
  All-keep, All-both, All-sort_with, eq→path,
}
use maubase.Sql.{Result, ok, err, failed, exec_or}
use maubase.Sql.Ensures.{Ensures, Then, Ensures-pure, Ensures-bind, Ensures-exec_or, Ensures-weaken}
use maubase.RestApi.Sqlite.{Json, Column, Row, Table, Store, is_at, table_named, with_rows}
use maubase.Realtime.{Event}
use maubase.RestApi.Discovery.{Collection, Registry, owner_column_name, owned_collections}
use maubase.RestApi.Statements.{Reply, select_rows, delete_rows}
use maubase.RestApi.Requests.{Server, publish}
use maubase.RestApi.Cells.{select-delete_within, table_named-with_rows, table_named-with_rows_self}
use maubase.RestApi.Outcomes.{wrote, Ensures-select_rows, Ensures-publish, delete_rows-ran}
use maubase.RestApi.Exposing.{AllExposed, not-true}
use maubase.RestApi.Visibility.{owner_is_textual}
use maubase.RestApi.Owned.{
  pk_values_for_owner, publish_deleted, ids_if, delete_in, delete_all, delete_owned,
}

module _ (sv : Server) (subj : Text) where
  -- The rows of a table that are the subject's.
  abbrev pub is_theirs : List Column → Row → Bool
  is_theirs columns r = is_at sv.engine columns owner_column_name (Json.text subj) r

  -- A table keeps its columns and the rows that are not the subject's, and gets no row of theirs.
  pub record KeepsRows (t t' : Table) : Type 0 where
    pub columns : t'.columns ≡ t.columns
    pub others :
        select (λ r. not (is_theirs t.columns r)) t'.rows
        ≡ select (λ r. not (is_theirs t.columns r)) t.rows
    pub none_new :
        exists (is_theirs t.columns) t.rows ≡ false → exists (is_theirs t.columns) t'.rows ≡ false

  abbrev pub Keeps : Store → Store → Type 0
  Keeps s s' =
      (name : Text) (t : Table)
      → table_named name s.tables ≡ some t
      → (t' : Table) × (table_named name s'.tables ≡ some t') × KeepsRows t t'

  Keeps-refl : (s : Store) → Keeps s s
  Keeps-refl s name t at = (t, at, record { columns = refl; others = refl; none_new = λ h. h })

  Keeps-trans : (s s1 s2 : Store) → Keeps s s1 → Keeps s1 s2 → Keeps s s2
  Keeps-trans s s1 s2 h k name t at =
      let (t1, at1, x) = h name t at in
      let (t2, at2, y) = k name t1 at1 in
      (
        t2,
        at2,
        record {
          columns = y.columns ∙ x.columns;
          others =
              subst
                (λ cols.
                  select (λ r. not (is_theirs cols r)) t2.rows
                  ≡ select (λ r. not (is_theirs cols r)) t1.rows)
                x.columns y.others
              ∙ x.others;
          none_new = λ no_rows.
              subst
                (λ cols.
                  exists (is_theirs cols) t1.rows ≡ false → exists (is_theirs cols) t2.rows ≡ false)
                x.columns y.none_new (x.none_new no_rows);
        },
      )

  -- No row of the subject is left in the table.
  abbrev pub IsErased : Store → Collection → Type 0
  IsErased s col =
      (t : Table) × (table_named col.name s.tables ≡ some t)
      × (exists (is_theirs t.columns) t.rows ≡ false)

  Keeps-IsErased : (s s' : Store) (col : Collection) → Keeps s s' → IsErased s col → IsErased s' col
  Keeps-IsErased s s' col h (t, at, no_rows) =
      let (t', at', x) = h col.name t at in (t', at', rw x.columns (x.none_new no_rows))

  delete-KeepsRows :
      (t : Table) → KeepsRows t (record t { rows = delete (is_theirs t.columns) t.rows })
  delete-KeepsRows t = record {
    columns = refl;
    others = select-delete_within (is_theirs t.columns) _ (λ x h. rw h refl) t.rows;
    none_new = λ h. exists-delete (is_theirs t.columns) t.rows;
  }

  delete-Keeps :
      (s : Store) (name : Text) (t : Table)
      → table_named name s.tables ≡ some t
      → Keeps s (wrote name (delete (is_theirs t.columns) t.rows) s)
  delete-Keeps s name t at other u at_u = elim (Bool-cases (name == other)) [
    | inl e ↦
        let there = eq→path name other e in
        let same : t ≡ u =
          eq_of_some t u (sym at ∙ ap (λ n. table_named n s.tables) there ∙ at_u) in
        subst
          (λ n.
            (x : Table) × (table_named n
                (with_rows name (delete (is_theirs t.columns) t.rows) s.tables)
              ≡ some x)
            × KeepsRows u x)
          there
          (
            record t { rows = delete (is_theirs t.columns) t.rows },
            table_named-with_rows_self name _ s.tables t at,
            subst (λ y. KeepsRows y (record t { rows = delete (is_theirs t.columns) t.rows })) same
                (delete-KeepsRows t),
          )
    | inr e ↦ (
      u,
      table_named-with_rows name other _ s.tables e ∙ at_u,
      record { columns = refl; others = refl; none_new = λ h. h },
    )
  ]

  delete-IsErased :
      (s : Store) (col : Collection) (t : Table)
      → table_named col.name s.tables ≡ some t
      → IsErased (wrote col.name (delete (is_theirs t.columns) t.rows) s) col
  delete-IsErased s col t at = (
    _,
    table_named-with_rows_self col.name _ s.tables t at,
    exists-delete (is_theirs t.columns) t.rows,
  )

  abbrev pub ErasePost : List Collection → Store → Result Reply Unit → Store → Type 0
  ErasePost cols s (ok x) s' = Keeps s s' × All (IsErased s') cols
  ErasePost cols s (err e) s' = Keeps s s'
  ErasePost cols s failed s' = Keeps s s'

  onward :
      (s s1 : Store) (col : Collection) (cols : List Collection)
      → Keeps s s1
      → IsErased s1 col
      → (r : Result Reply Unit) (s' : Store) → ErasePost cols s1 r s'
      → ErasePost (col ∷ cols) s r s'
  onward s s1 col cols kept erased (ok x) s' (more, all_erased) =
      (Keeps-trans s s1 s' kept more, (Keeps-IsErased s1 s' col more erased, all_erased))
  onward s s1 col cols kept erased (err e) s' more = Keeps-trans s s1 s' kept more
  onward s s1 col cols kept erased failed s' more = Keeps-trans s s1 s' kept more

  publish_deleted-Ensures :
      (Q : Result Reply Unit → Store → Type 0) (col : Collection) (ids : List Text) (s : Store)
      → ((log : List (Event × Text)) → Q (ok tt) (record s { published = log }))
      → Ensures Q s (publish_deleted sv col subj ids)
  unfolding publish_deleted
  publish_deleted-Ensures Q col [] s h = Ensures-pure Q s tt (h s.published)
  publish_deleted-Ensures Q col (id ∷ ids) s h =
      Ensures-bind Q s (publish sv col _ subj) _
        (Ensures-publish sv (Then Q _) s col _ subj (publish_deleted-Ensures Q col ids _ h))

  ids_if-Ensures :
      (Q : Result Reply (List Text) → Store → Type 0) (b : Bool) (col : Collection) (s : Store)
      → Q failed s
      → ((ids : List Text) → Q (ok ids) s)
      → Ensures Q s (ids_if sv b col subj)
  unfolding pk_values_for_owner
  ids_if-Ensures Q false col s x k = Ensures-pure Q s [] (k [])
  ids_if-Ensures Q true col s x k =
      Ensures-bind Q s (select_rows col.name _) _
        (Ensures-select_rows (Then Q _) s col.name _ x (λ rows h. Ensures-pure Q s _ (k _)))

  delete_in-Ensures :
      (s : Store) (col : Collection)
      → col.owner_column ≡ owner_column_name
      → Ensures (ErasePost (col ∷ []) s) s (delete_in sv col subj)
  unfolding delete_in
  delete_in-Ensures s col is_owner = Ensures-bind Q s (ids_if sv sv.has_broker col subj) _ (
      ids_if-Ensures (Then Q _) sv.has_broker col s (Keeps-refl s) (λ ids.
        Ensures-bind Q s (exec_or _) _ (
          Ensures-exec_or (Then Q _) s (delete_rows sv.engine col.name _) (Keeps-refl s)
            (λ e h. Keeps-refl s)
            (λ n s1 h.
              let (t, (at, n_is, left)) = delete_rows-ran sv.engine s s1 col.name _ n h in
              let left' : s1 ≡ wrote col.name (delete (is_theirs t.columns) t.rows) s =
                subst
                  (λ o.
                    s1
                    ≡ wrote col.name
                        (delete (λ r. is_at sv.engine t.columns o (Json.text subj) r) t.rows) s)
                  is_owner left in
              rw left' (
                publish_deleted-Ensures Q col ids _
                  (λ log. (delete-Keeps s col.name t at, (delete-IsErased s col t at, tt))))))))
    where
      Q : Result Reply Unit → Store → Type 0
      Q = ErasePost (col ∷ []) s

  delete_all-Ensures :
      (cols : List Collection) (s : Store)
      → All (λ col. col.owner_column ≡ owner_column_name) cols
      → Ensures (ErasePost cols s) s (delete_all sv cols subj)
  unfolding delete_all
  delete_all-Ensures [] s h = Ensures-pure (ErasePost [] s) s tt (Keeps-refl s, tt)
  delete_all-Ensures (col ∷ cols) s h =
      Ensures-bind (ErasePost (col ∷ cols) s) s (delete_in sv col subj) _ (
        Ensures-weaken (ErasePost (col ∷ []) s) (Then (ErasePost (col ∷ cols) s) _) s
          (delete_in sv col subj) (go (λ s1. delete_all-Ensures cols s1 h.1))
          (delete_in-Ensures s col h.0))
    where
      go :
          ((s1 : Store) → Ensures (ErasePost cols s1) s1 (delete_all sv cols subj))
          → (r : Result Reply Unit) (s1 : Store) → ErasePost (col ∷ []) s r s1
          → Then (ErasePost (col ∷ cols) s) (λ x. delete_all sv cols subj) r s1
      go ih (ok x) s1 (kept, (erased, none_left)) =
          Ensures-weaken (ErasePost cols s1) (ErasePost (col ∷ cols) s) s1 (delete_all sv cols subj)
            (onward s s1 col cols kept erased) (ih s1)
      go ih (err e) s1 kept = kept
      go ih failed s1 kept = kept

  abbrev is_owned : Collection → Bool
  is_owned c = not (c.owner_column == [])

  abbrev Owns : Collection → Type 0
  Owns c = is_owned c ≡ true → c.owner_column ≡ owner_column_name

  values-Owns :
      (upper : Text → Text) (s : Store) (reg : Registry)
      → AllExposed upper s.tables reg
      → All Owns (map (λ e. e.1) reg)
  values-Owns upper s [] h = tt
  values-Owns upper s ((name, c) ∷ reg) (here, more) = (
    (λ k.
        (owner_is_textual upper s.tables name c here.table (not-true (c.owner_column == []) k)).3),
    values-Owns upper s reg more,
  )

  owned_of :
      (upper : Text → Text) (s : Store) (reg : Registry)
      → AllExposed upper s.tables reg
      → All (λ col. col.owner_column ≡ owner_column_name) (owned_collections reg)
  unfolding owned_collections
  owned_of upper s reg h =
      All-sort_with (λ col. col.owner_column ≡ owner_column_name) _
        (select is_owned (map (λ e. e.1) reg))
        (All-map _ _ (λ c k. k.0 k.1) (select is_owned (map (λ e. e.1) reg))
          (All-both _ _ (select is_owned (map (λ e. e.1) reg))
            (All-keep Owns is_owned (map (λ e. e.1) reg) (values-Owns upper s reg h))
            (All-select is_owned (map (λ e. e.1) reg))))

  -- Erasing an account's rows takes them out of every collection that has an owner column, where it
  -- succeeds; and however far it gets, whichever statements fail, every table keeps its columns and
  -- the rows of everybody else in their order, and gets no row of the account's.
  pub delete_owned_lem :
      (upper : Text → Text) (s : Store) (reg : Registry)
      → AllExposed upper s.tables reg
      → Ensures (ErasePost (owned_collections reg) s) s (delete_owned sv reg subj)
  unfolding delete_owned
  delete_owned_lem upper s reg h =
      delete_all-Ensures (owned_collections reg) s (owned_of upper s reg h)
