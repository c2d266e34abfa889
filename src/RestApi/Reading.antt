-- ===== src/RestApi/Reading.antt =====
-- What list and get answer, and what they cannot depend on.
use maubase.Prelude.{
  Text, ◌==◌, ◌≡◌, refl, sym, ap, ap₂, ◌∙◌, inl, inr, Bool, true, if◌then◌else◌, Option, none, some,
  List, [], select, leb, ltb, Bool-cases, eq_of_some, lookup,
}
use maubase.Sql.{Sql, query, or_raise, ◌>>=◌}
use maubase.Sql.Agrees.{
  Agrees, Agrees-pure, Agrees-or_raise, Agrees-from_option, Agrees-query, Agrees-guard, Agrees-bind,
  Agrees-or_raise_then, same_answer,
}
use maubase.Numbers.{atoi}
use maubase.RestApi.Sqlite.{Json, Column, Row, Table, Store, is_at, table_named}
use maubase.RestApi.Discovery.{Collection, Registry, rule_owner, columns_of}
use maubase.RestApi.Statements.{
  Reply, missing, no_collection, in_scope, at_pk, rows_where, head, select_rows, fetch_by_pk,
  bad_limit, limit_over,
}
use maubase.RestApi.Requests.{
  Request, Server, parse_limit, parse_offset, parse_pagination, collection, authorize_op,
  rule_scopes, max_limit,
}
use maubase.RestApi.Cells.{select-and}
use maubase.RestApi.{handle_list, handle_get}

module _ (sv : Server) (reg : Registry) (r : Request) (s s' : Store) where
  -- The rows of a collection that its read rule lets the caller read; none where the table is gone.
  abbrev pub can_read : Collection → List Column → Row → Bool
  can_read col columns row =
      if col.read_rule == rule_owner
      then is_at sv.engine columns col.owner_column (Json.text r.subject) row
      else true

  abbrev pub readable : Collection → Store → Option (List Row)
  readable col x = rows_where (can_read col) (table_named col.name x.tables)

  parse_limit-Agrees : (v : Text) → Agrees s s' (parse_limit v)
  unfolding parse_limit
  parse_limit-Agrees v = elim (Bool-cases (v == [])) [
    | inl e ↦ rw e (Agrees-pure s s' _)
    | inr e ↦ rw e (
        Agrees-bind s s' (or_raise (atoi v) (bad_limit v)) _ (Agrees-or_raise s s' _ _) (λ n.
          Agrees-bind s s' _ _ (Agrees-guard s s' (ltb 0 n) (bad_limit v)) (λ x.
            Agrees-bind s s' _ _ (Agrees-guard s s' (leb n max_limit) (limit_over n))
              (λ y. Agrees-pure s s' n))))
  ]

  parse_offset-Agrees : (v : Text) → Agrees s s' (parse_offset v)
  unfolding parse_offset
  parse_offset-Agrees v = elim (Bool-cases (v == [])) [
    | inl e ↦ rw e (Agrees-pure s s' _)
    | inr e ↦ rw e (Agrees-or_raise s s' _ _)
  ]

  select_rows-Agrees :
      (name : Text) (p : List Column → Row → Bool)
      → rows_where p (table_named name s.tables) ≡ rows_where p (table_named name s'.tables)
      → Agrees s s' (select_rows name p)
  unfolding select_rows
  select_rows-Agrees name p same =
      Agrees-bind s s' (query _) _ (Agrees-query s s' _ same) (λ rows. Agrees-from_option s s' rows)

  -- Both parts of every WHERE: the key among the rows in scope.
  at_pk-in_scope :
      (col : Collection) (pk : Json) (scoped : Bool) (o o' : Option Table)
      → columns_of o ≡ columns_of o'
      → rows_where (in_scope sv.engine col scoped r.subject) o
        ≡ rows_where (in_scope sv.engine col scoped r.subject) o'
      → rows_where (at_pk sv.engine col pk scoped r.subject) o
        ≡ rows_where (at_pk sv.engine col pk scoped r.subject) o'
  at_pk-in_scope col pk scoped none none c h = refl
  at_pk-in_scope col pk scoped none (some t) c h = absurd (cc h)
  at_pk-in_scope col pk scoped (some t) none c h = absurd (cc h)
  at_pk-in_scope col pk scoped (some t) (some t') c h = ap some (
      select-and (is_at sv.engine t.columns col.pk_column pk)
        (in_scope sv.engine col scoped r.subject t.columns) t.rows
      ∙ ap₂ (λ cols rows. select (is_at sv.engine cols col.pk_column pk) rows) c (eq_of_some _ _ h)
      ∙ sym (
          select-and (is_at sv.engine t'.columns col.pk_column pk)
            (in_scope sv.engine col scoped r.subject t'.columns) t'.rows))

  -- Two stores look the same to the caller in the collection that is asked for: the table has the
  -- same columns, and of its rows those are the same that the read rule lets the caller read.
  abbrev pub SameView : Type 0
  SameView =
      (col : Collection)
      → lookup r.collection reg ≡ some col
      → (columns_of (table_named col.name s.tables) ≡ columns_of (table_named col.name s'.tables))
        × (readable col s ≡ readable col s')

  module _ (same : SameView) where
    collection-Agrees :
        {A : Type 0} (k : Collection → Sql Store Reply A)
        → ((col : Collection) → lookup r.collection reg ≡ some col → Agrees s s' (k col))
        → Agrees s s' (collection reg r.collection >>= k)
    collection-Agrees k agree =
        Agrees-or_raise_then s s' (lookup r.collection reg) no_collection k agree

    handle_list-Agrees : Agrees s s' (handle_list sv reg r)
    unfolding handle_list parse_pagination
    handle_list-Agrees = collection-Agrees _ (λ col found.
        Agrees-bind s s' (authorize_op col.read_rule) _ (Agrees-guard s s' _ _) (λ x.
          Agrees-bind s s' (parse_pagination r.limit r.offset) _
            (Agrees-bind s s' (parse_limit r.limit) _ (parse_limit-Agrees r.limit) (λ n.
              Agrees-bind s s' (parse_offset r.offset) _ (parse_offset-Agrees r.offset)
                (λ m. Agrees-pure s s' (n, m))))
            (λ page.
              Agrees-bind s s' (select_rows col.name _) _
                (select_rows-Agrees col.name _ (same col found).1) (λ rows. Agrees-pure s s' _))))

    handle_get-Agrees : Agrees s s' (handle_get sv reg r)
    unfolding handle_get fetch_by_pk
    handle_get-Agrees = collection-Agrees _ (λ col found.
        Agrees-bind s s' (authorize_op col.read_rule) _ (Agrees-guard s s' _ _) (λ x.
          Agrees-bind s s'
            (fetch_by_pk sv.engine col (Json.text r.id) (rule_scopes col.read_rule) r.subject) _
            (Agrees-bind s s' (select_rows col.name _) _
              (select_rows-Agrees col.name _ (
                at_pk-in_scope col (Json.text r.id) (rule_scopes col.read_rule)
                  (table_named col.name s.tables) (table_named col.name s'.tables)
                  (same col found).0 (same col found).1))
              (λ rows. Agrees-pure s s' (head rows)))
            (λ row.
              Agrees-bind s s' (or_raise row missing) _ (Agrees-or_raise s s' row missing)
                (λ row'. Agrees-pure s s' _))))

    -- List and get answer from what the caller may read and nothing else: on two stores that look
    -- the same to the caller, and with the same statements failing, each gives the same answer. So
    -- under the owner rule no answer, not found and errors included, tells anything of another's
    -- rows.
    pub handle_list-handle_get :
        (faults : List Bool)
        → ((handle_list sv reg r (record { tables = s; faults = faults })).0
            ≡ (handle_list sv reg r (record { tables = s'; faults = faults })).0)
          × ((handle_get sv reg r (record { tables = s; faults = faults })).0
              ≡ (handle_get sv reg r (record { tables = s'; faults = faults })).0)
    handle_list-handle_get faults =
        (same_answer faults handle_list-Agrees, same_answer faults handle_get-Agrees)
