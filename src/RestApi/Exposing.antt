-- ===== src/RestApi/Exposing.antt =====
-- Which tables the discovery exposes, and with which owner column and rules.
use maubase.Prelude.{
  Text, codes, ◌==◌, ◌≡◌, refl, sym, ap, ◌∙◌, subst, ◌⊎◌, inl, inr, Bool, true, false, not, ◌&&◌,
  ◌||◌, some, List, [], ◌∷◌, select, exists, has_prefix, arith, Bool-cases, eq_of_some, All, lookup,
  put, All-lookup_entry, All-put_entry,
}
use maubase.Sql.{Result, ok, err, failed, query}
use maubase.Sql.Ensures.{
  Ensures, Then, Ensures-pure, Ensures-bind, Ensures-query, Ensures-or_raise, Ensures-guard,
  Ensures-weaken,
}
use maubase.RestApi.Sqlite.{Column, Table, PolicyRow, Store, table_named}
use maubase.RestApi.Discovery.{
  Rule, rule_owner, is_reserved, reserved_tables, Collection, Registry, Error, bad_affinity,
  no_such_collection, no_owner_column, unknown_operation, is_misdeclared, owner_of, with_pk,
  described, columns_of, describe_table, default_rule, with_defaults, add_collection, describe_all,
  op_read, op_create, op_update, op_delete, bare, set_rule, apply_policy, apply_rows,
  apply_policies, discover,
}

-- RuleOwner only where there is an owner column.
abbrev pub Fits : Collection → Rule → Type 0
Fits c r = (r == rule_owner && c.owner_column == []) ≡ false

pub not-true : (b : Bool) → not b ≡ true → b ≡ false
not-true b h = ground arith

or_false : (a b : Bool) → a || b ≡ false → (a ≡ false) × (b ≡ false)
or_false a b h = (ground arith, ground arith)

module _ (upper : Text → Text) (tables : List Table) where
  -- The collection is that of a table which is neither SQLite's own nor listed as reserved, with
  -- one key column; its owner column, if it has one, is owner_id, and every column of that name has
  -- TEXT affinity.
  pub record IsOf (name : Text) (c : Collection) : Type 0 where
    pub named : c.name ≡ name
    pub not_internal : has_prefix name (codes "sqlite_") ≡ false
    pub not_listed : exists (λ n. n == name) reserved_tables ≡ false
    pub columns : c.columns ≡ columns_of (table_named name tables)
    pub key : (k : Column) × (select (λ col. col.is_pk) c.columns ≡ k ∷ []) × (c.pk_column ≡ k.name)
    pub owner : c.owner_column ≡ owner_of c.columns
    pub textual : exists (is_misdeclared upper) c.columns ≡ false

  pub record IsExposed (entry : Text × Collection) : Type 0 where
    pub table : IsOf entry.0 entry.1
    pub read : Fits entry.1 entry.1.read_rule
    pub create : Fits entry.1 entry.1.create_rule
    pub update : Fits entry.1 entry.1.update_rule
    pub delete : Fits entry.1 entry.1.delete_rule

  with_pk_inv :
      (col : Collection) (pks : List Column)
      → col.pk_column ≡ []
      → ((with_pk upper col pks).pk_column == []) ≡ false
      → (k : Column) × (pks ≡ k ∷ []) × ((with_pk upper col pks).pk_column ≡ k.name)
  unfolding ◌==◌
  with_pk_inv col [] e h = absurd (cc (rw e at h))
  with_pk_inv col (k ∷ []) e h = (k, refl, refl)
  with_pk_inv col (k ∷ d ∷ more) e h = absurd (cc (rw e at h))

  with_pk_same :
      (col : Collection) (pks : List Column)
      → ((with_pk upper col pks).name ≡ col.name)
        × ((with_pk upper col pks).columns ≡ col.columns)
        × ((with_pk upper col pks).owner_column ≡ col.owner_column)
  with_pk_same col [] = (refl, refl, refl)
  with_pk_same col (k ∷ []) = (refl, refl, refl)
  with_pk_same col (k ∷ d ∷ more) = (refl, refl, refl)

  described-IsOf :
      (name : Text)
      → is_reserved name ≡ false
      → exists (is_misdeclared upper) (columns_of (table_named name tables)) ≡ false
      → ((described upper name (columns_of (table_named name tables))).pk_column == []) ≡ false
      → IsOf name (described upper name (columns_of (table_named name tables)))
  unfolding described is_reserved
  described-IsOf name free fine keyed =
      let columns = columns_of (table_named name tables) in
      let col : Collection = bare name columns in
      let pks = select (λ c. c.is_pk) columns in
      let (named, same, owner) = with_pk_same col pks in
      let (k, one, keyed_by) = with_pk_inv col pks refl keyed in
      record {
        named = named;
        not_internal = (or_false _ _ free).0;
        not_listed = (or_false _ _ free).1;
        columns = same;
        key = (k, ap (select (λ c. c.is_pk)) same ∙ one, keyed_by);
        owner = owner ∙ ap owner_of (sym same);
        textual = ap (exists (is_misdeclared upper)) same ∙ fine;
      }

  -- Rules do not matter to it.
  with_rules-IsOf :
      (name : Text) (c : Collection) (r1 r2 r3 r4 : Rule)
      → IsOf name c
      → IsOf name
          (record c { read_rule = r1; create_rule = r2; update_rule = r3; delete_rule = r4 })
  with_rules-IsOf name c r1 r2 r3 r4 x = record {
    named = x.named;
    not_internal = x.not_internal;
    not_listed = x.not_listed;
    columns = x.columns;
    key = x.key;
    owner = x.owner;
    textual = x.textual;
  }

  default_rule-Fits : (c : Collection) → Fits c (default_rule c)
  unfolding ◌==◌
  default_rule-Fits c = elim (Bool-cases (c.owner_column == [])) [
    | inl e ↦ rw e refl
    | inr e ↦ rw e refl
  ]

  set_rule_inv :
      (op : Text) (r : Rule) (c c' : Collection)
      → set_rule op r c ≡ some c'
      → (c' ≡ record c { read_rule = r })
        ⊎ (c' ≡ record c { create_rule = r })
        ⊎ (c' ≡ record c { update_rule = r })
        ⊎ (c' ≡ record c { delete_rule = r })
  unfolding set_rule
  set_rule_inv op r c c' h = elim (Bool-cases (op == op_read)) [
    | inl e ↦ inl (sym (eq_of_some _ c' (rw e at h)))
    | inr e1 ↦ elim (Bool-cases (op == op_create)) [
      | inl e ↦ inr (inl (sym (eq_of_some _ c' (rw (e1, e) at h))))
      | inr e2 ↦ elim (Bool-cases (op == op_update)) [
        | inl e ↦ inr (inr (inl (sym (eq_of_some _ c' (rw (e1, e2, e) at h)))))
        | inr e3 ↦ elim (Bool-cases (op == op_delete)) [
          | inl e ↦ inr (inr (inr (sym (eq_of_some _ c' (rw (e1, e2, e3, e) at h)))))
          | inr e4 ↦ absurd (cc (rw (e1, e2, e3, e4) at h))
        ]
      ]
    ]
  ]

  set_rule-IsExposed :
      (name op : Text) (r : Rule) (c c' : Collection)
      → IsExposed (name, c)
      → Fits c r
      → set_rule op r c ≡ some c'
      → IsExposed (name, c')
  set_rule-IsExposed name op r c c' x fits h = elim (set_rule_inv op r c c' h) [
    | inl e ↦ rw e (record {
      table = with_rules-IsOf name c r c.create_rule c.update_rule c.delete_rule x.table;
      read = fits;
      create = x.create;
      update = x.update;
      delete = x.delete;
    })
    | inr (inl e) ↦ rw e (record {
      table = with_rules-IsOf name c c.read_rule r c.update_rule c.delete_rule x.table;
      read = x.read;
      create = fits;
      update = x.update;
      delete = x.delete;
    })
    | inr (inr (inl e)) ↦ rw e (record {
      table = with_rules-IsOf name c c.read_rule c.create_rule r c.delete_rule x.table;
      read = x.read;
      create = x.create;
      update = fits;
      delete = x.delete;
    })
    | inr (inr (inr e)) ↦ rw e (record {
      table = with_rules-IsOf name c c.read_rule c.create_rule c.update_rule r x.table;
      read = x.read;
      create = x.create;
      update = x.update;
      delete = fits;
    })
  ]

  -- A registry of such collections under their names.
  abbrev pub AllExposed : Registry → Type 0
  AllExposed = All IsExposed

  add_collection-AllExposed :
      (name : Text) (reg : Registry)
      → is_reserved name ≡ false
      → exists (is_misdeclared upper) (columns_of (table_named name tables)) ≡ false
      → AllExposed reg
      → AllExposed
          (add_collection (described upper name (columns_of (table_named name tables))) reg)
  unfolding add_collection
  add_collection-AllExposed name reg free fine h =
      let c = described upper name (columns_of (table_named name tables)) in
      elim (Bool-cases (c.pk_column == [])) [
        | inl e ↦ rw e h
        | inr e ↦
            let is_of = described-IsOf name free fine e in
            rw e (
              subst (λ k. AllExposed (put k (with_defaults c) reg)) (sym is_of.named)
                (All-put_entry IsExposed name (with_defaults c) reg
                  (record {
                    table =
                        with_rules-IsOf name c (default_rule c) (default_rule c) (default_rule c)
                          (default_rule c) is_of;
                    read = default_rule-Fits c;
                    create = default_rule-Fits c;
                    update = default_rule-Fits c;
                    delete = default_rule-Fits c;
                  })
                  h))
      ]

module _ (upper : Text → Text) (s : Store) where
  -- What every part of the discovery leaves: no statement of it writes.
  abbrev pub DiscoverPost : Result Error Registry → Store → Type 0
  DiscoverPost (ok reg) s' = (s' ≡ s) × AllExposed upper s.tables reg
  DiscoverPost (err e) s' = s' ≡ s
  DiscoverPost failed s' = s' ≡ s

  describe_all-Ensures :
      (names : List Text) (reg : Registry)
      → AllExposed upper s.tables reg
      → Ensures DiscoverPost s (describe_all upper names reg)
  unfolding describe_all describe_table has_prefix
  describe_all-Ensures [] reg h = Ensures-pure DiscoverPost s reg (refl, h)
  describe_all-Ensures (name ∷ names) reg h = elim (Bool-cases (is_reserved name)) [
    | inl e ↦ rw e (describe_all-Ensures names reg h)
    | inr e ↦ rw e (
        Ensures-bind DiscoverPost s (describe_table upper name) _ (
          Ensures-bind (Then DiscoverPost _) s (query _) _ (
            Ensures-query (Then (Then DiscoverPost _) _) s _ refl (
              Ensures-guard (Then DiscoverPost _) s _ (bad_affinity name) _ (λ bad. refl)
                (λ fine. Ensures-pure (Then DiscoverPost _) s _ (
                  describe_all-Ensures names _ (
                    add_collection-AllExposed upper s.tables name reg e
                      (not-true
                        (exists (is_misdeclared upper) (columns_of (table_named name s.tables)))
                        fine)
                      h)))))))
  ]

  apply_rows-Ensures :
      (ps : List PolicyRow) (reg : Registry)
      → AllExposed upper s.tables reg
      → Ensures DiscoverPost s (apply_rows ps reg)
  unfolding apply_rows apply_policy
  apply_rows-Ensures [] reg h = Ensures-pure DiscoverPost s reg (refl, h)
  apply_rows-Ensures (p ∷ ps) reg h = Ensures-bind DiscoverPost s (apply_policy p reg) _ (
      Ensures-or_raise (Then DiscoverPost _) s (lookup p.collection reg)
        (no_such_collection p.collection) _ (λ e. refl)
        (λ c found.
          Ensures-guard (Then DiscoverPost _) s _ (no_owner_column p.collection) _ (λ bad. refl)
            (λ fine.
              Ensures-or_raise (Then DiscoverPost _) s (set_rule p.operation p.rule c)
                (unknown_operation p.operation) _ (λ e. refl)
                (λ c' set. Ensures-pure (Then DiscoverPost _) s (put p.collection c' reg) (
                  apply_rows-Ensures ps (put p.collection c' reg) (
                    All-put_entry (IsExposed upper s.tables) p.collection c' reg
                      (set_rule-IsExposed upper s.tables p.collection p.operation p.rule c c'
                        (All-lookup_entry (IsExposed upper s.tables) p.collection reg c h found)
                        (not-true _ fine) set)
                      h))))))

  -- Discover, whichever of its statements fail, changes nothing; where it succeeds, every
  -- collection it exposes is a table under its own name that is neither SQLite's own nor listed as
  -- reserved, with exactly one key column; its owner column is owner_id where the table has that
  -- column, which then has TEXT affinity; and no operation has the owner rule unless there is an
  -- owner column.
  pub discover-Ensures : Ensures DiscoverPost s (discover upper)
  unfolding discover apply_policies
  discover-Ensures = Ensures-bind DiscoverPost s (query _) _ (
      Ensures-query (Then DiscoverPost _) s _ refl (
        Ensures-bind DiscoverPost s (describe_all upper _ []) _ (
          Ensures-weaken DiscoverPost (Then DiscoverPost _) s (describe_all upper _ []) rest
            (describe_all-Ensures _ [] tt))))
    where
      rest :
          (r : Result Error Registry) (s' : Store)
          → DiscoverPost r s'
          → Then DiscoverPost apply_policies r s'
      rest (ok reg) s' (same, h) =
          subst (λ x. Ensures DiscoverPost x (apply_policies reg)) (sym same)
            (Ensures-bind DiscoverPost s (query _) _
              (Ensures-query (Then DiscoverPost _) s _ refl (apply_rows-Ensures s.policies reg h)))
      rest (err e) s' same = same
      rest failed s' same = same
