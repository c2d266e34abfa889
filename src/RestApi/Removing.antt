-- ===== src/RestApi/Removing.antt =====
-- What DELETE leaves.
use maubase.Prelude.{
  Text, codes, ◌==◌, ◌≡◌, refl, ap, ◌∙◌, inl, inr, Bool, true, false, not, ◌&&◌, none, some, List,
  [], select, delete, delete_none, exists, exists-delete, ltb, if◌then◌else◌, Bool-cases, lookup,
  &&-left, &&-right,
}
use maubase.Sql.{
  Result, ok, err, failed, faulty, later, Sql, pure, guard, exec_or, query_or, ◌>>=◌, ◌>>◌,
}
use maubase.Sql.Ensures.{Ensures, Then, Ensures-pure, Ensures-bind, Ensures-guard, Ensures-exec_or}
use maubase.RestApi.Sqlite.{Json, Row, Table, Store, table_named}
use maubase.RestApi.Discovery.{Collection, Registry, rule_owner, rule_denied}
use maubase.RestApi.Statements.{Reply, deleted, missing, in_scope, at_pk, delete_rows}
use maubase.RestApi.Requests.{Request, Server, sent, publish, event, rule_scopes}
use maubase.RestApi.Cells.{select-delete_within, with_rows_same}
use maubase.RestApi.Outcomes.{wrote, Ensures-publish, delete_rows-ran}
use maubase.RestApi.Written.{no_match, some_match}
use maubase.RestApi.Changing.{at_id, is_mine}
use maubase.RestApi.{owner_in, owner_value_for_pk, gate_before_delete, handle_delete}

module _ (sv : Server) (reg : Registry) (r : Request) (s : Store) (col : Collection) where
  abbrev pub gone : Table → Row → Bool
  gone t = at_pk sv.engine col (Json.text r.id) (rule_scopes col.delete_rule) r.subject t.columns

  -- The owner of the row, where reads are by owner, as it is before the row goes; the empty text,
  -- which is everybody, where they are not, or where the statement that reads it fails, which is
  -- the first.
  abbrev pub gate_at : List Bool → Text
  gate_at bs =
      if col.read_rule == rule_owner && not (col.owner_column == [])
      then (if faulty bs
          then []
          else owner_in sv col (Json.text r.id) (table_named col.name s.tables))
      else []

  -- The table had such a row and has none now; rows with another key stay, and so do the rows of
  -- other owners, if the rule is the owner rule.
  pub record Removes (t : Table) (rows : List Row) : Type 0 where
    pub was : exists (gone t) t.rows ≡ true
    pub is_not : exists (gone t) rows ≡ false
    pub other_keys :
        select (λ x. not (at_id sv reg r s col t x)) rows
        ≡ select (λ x. not (at_id sv reg r s col t x)) t.rows
    pub others :
        rule_scopes col.delete_rule ≡ true
        → select (λ x. not (is_mine sv reg r s col t x)) rows
          ≡ select (λ x. not (is_mine sv reg r s col t x)) t.rows

  delete-Removes : (t : Table) → exists (gone t) t.rows ≡ true → Removes t (delete (gone t) t.rows)
  delete-Removes t was = record {
    was = was;
    is_not = exists-delete (gone t) t.rows;
    other_keys =
        select-delete_within (gone t) _ (λ x h. rw (&&-left (at_id sv reg r s col t x) _ h) refl)
          t.rows;
    others = λ rule.
        select-delete_within (gone t) _
          (λ x h.
            let scoped =
              &&-right (at_id sv reg r s col t x)
                (in_scope sv.engine col (rule_scopes col.delete_rule) r.subject t.columns x) h in
            rw (rw rule at scoped) refl)
          t.rows;
  }

  abbrev pub DeletePost : Text → Result Reply Reply → Store → Type 0
  DeletePost gate (ok reply) s' =
      (t : Table) × (rows : List Row) × (reply ≡ deleted)
      × (table_named col.name s.tables ≡ some t)
      × Removes t rows
      × (s' ≡ record (wrote col.name rows s) {
        published = sent sv col (event (codes "deleted") col none r.id) gate s.published;
      })
  DeletePost gate (err reply) s' = s' ≡ s
  DeletePost gate failed s' = s' ≡ s

  -- What follows once the owner is read.
  abbrev delete_for : Text → Sql Store Reply Reply
  delete_for gate = do
    n ← exec_or (
        delete_rows sv.engine col.name
          (at_pk sv.engine col (Json.text r.id) (rule_scopes col.delete_rule) r.subject))
    guard (ltb 0 n) missing
    publish sv col (event (codes "deleted") col none r.id) gate
    pure deleted

  delete_for-Ensures : (gate : Text) → Ensures (DeletePost gate) s (delete_for gate)
  delete_for-Ensures gate = Ensures-bind Q s (exec_or _) _ (
      Ensures-exec_or (Then Q _) s (delete_rows sv.engine col.name _) refl (λ e h. refl)
        (λ n s1 h.
          let (t, (at, n_is, left)) = delete_rows-ran sv.engine s s1 col.name _ n h in
          Ensures-guard Q s1 (ltb 0 n) missing _
            (λ zero_rows.
              left
              ∙ ap (λ rows. wrote col.name rows s)
                  (delete_none (gone t) t.rows (no_match (gone t) t.rows n n_is zero_rows))
              ∙ ap (λ ts. record s { tables = ts }) (with_rows_same col.name s.tables t at))
            (λ some_rows. rw left (
              Ensures-bind Q (wrote col.name (delete (gone t) t.rows) s) (publish sv col _ _) _ (
                Ensures-publish sv (Then Q _) (wrote col.name (delete (gone t) t.rows) s) col _ _ (
                  Ensures-pure Q _ deleted (
                    t,
                    delete (gone t) t.rows,
                    refl,
                    at,
                    delete-Removes t (some_match (gone t) t.rows n n_is some_rows),
                    refl,
                  )))))))
    where
      Q : Result Reply Reply → Store → Type 0
      Q = DeletePost gate

  pub handle_delete_lem :
      lookup r.collection reg ≡ some col
      → (bs : List Bool)
      → DeletePost
          (gate_at bs)
          (handle_delete sv reg r (record { tables = s; faults = bs })).0
          (handle_delete sv reg r (record { tables = s; faults = bs })).1.tables
  unfolding handle_delete gate_before_delete owner_value_for_pk query_or ◌>>=◌
  handle_delete_lem found_col bs =
      rw found_col (elim (Bool-cases (col.delete_rule == rule_denied)) [
        | inl denied ↦ rw denied refl
        | inr allowed ↦
            rw allowed
              (elim (Bool-cases (col.read_rule == rule_owner && not (col.owner_column == []))) [
                | inl scoped ↦ elim (Bool-cases (faulty bs)) [
                  | inl e ↦ rw (scoped, e) ((delete_for-Ensures []).at (later bs))
                  | inr e ↦
                      rw (scoped, e)
                        ((delete_for-Ensures
                            (owner_in sv col (Json.text r.id) (table_named col.name s.tables))).at
                          (later bs))
                ]
                | inr open_to_all ↦ rw open_to_all ((delete_for-Ensures []).at bs)
              ])
      ])
