-- ===== src/RestApi/Visibility.antt =====
-- Who may read a row, and who is sent an event about it.
use maubase.Prelude.{
  Text, codes, ◌==◌, ◌≡◌, refl, sym, ap, ◌∙◌, inl, inr, eq_refl, eq→path, path→eq, Bool, true,
  false, not, some, List, [], ◌∷◌, exists, first, first-some, arith, Bool-cases, eq_of_some, lookup,
}
use maubase.Realtime.{Conn, may_see}
use maubase.RestApi.Sqlite.{
  Value, Json, Column, Row, Table, Engine, column_named, is_at, table_named,
}
use maubase.RestApi.Discovery.{
  Collection, owner_column_name, rule_owner, column_affinity, is_misdeclared, columns_of,
}
use maubase.RestApi.Exposing.{IsOf}
use maubase.RestApi.Statements.{normalize_value, scan_row, in_scope}
use maubase.RestApi.Requests.{Server, owner_gate_value, rule_scopes}

abbrev pub is_text : Value → Text → Bool
is_text (Value.text o) s = o == s
is_text v s = false

-- What SQLite and fmt document of texts: a column of TEXT affinity keeps a text as it is, and a
-- text is found equal to the same text and to nothing else, so to no BLOB; and a text prints as
-- itself.
pub record IsTextual (upper : Text → Text) (e : Engine) : Type 0 where
  pub stored :
      (c : Column) (s : Text)
      → column_affinity upper c.decl_type ≡ codes "TEXT"
      → e.store c (Json.text s) ≡ Value.text s
  pub compared :
      (c : Column) (v : Value) (s : Text)
      → column_affinity upper c.decl_type ≡ codes "TEXT"
      → e.same c v (Json.text s) ≡ is_text v s
  pub printed : (s : Text) → e.print (Value.text s) ≡ s

not-false : (b : Bool) → not b ≡ false → b ≡ true
not-false b h = ground arith

eq_comm : (s t : Text) → (s == t) ≡ (t == s)
eq_comm s t = elim (Bool-cases (s == t)) [
  | inl e ↦ e ∙ sym (path→eq t s (sym (eq→path s t e)))
  | inr e ↦ elim (Bool-cases (t == s)) [
    | inl k ↦ path→eq s t (sym (eq→path t s k)) ∙ sym k
    | inr k ↦ e ∙ sym k
  ]
]

pub lookup-scan_row :
    (name : Text) (r : Row) (v : Value)
    → lookup name r ≡ some v
    → lookup name (scan_row r) ≡ some (normalize_value v)
unfolding lookup
lookup-scan_row name [] v h = absurd (cc h)
lookup-scan_row name ((k, w) ∷ r) v h = elim (Bool-cases (k == name)) [
  | inl e ↦ rw e (ap (λ x. some (normalize_value x)) (eq_of_some w v (rw e at h)))
  | inr e ↦ rw e (lookup-scan_row name r v (rw e at h))
]

exists-first-some {ℓ} :
    {A : Type ℓ} (p : A → Bool) (xs : List A) → exists p xs ≡ true → (a : A) × (first p xs ≡ some a)
unfolding exists first
exists-first-some p [] h = absurd (cc h)
exists-first-some p (x ∷ xs) h = elim (Bool-cases (p x)) [
  | inl e ↦ (x, rw e refl)
  | inr e ↦ let (a, k) = exists-first-some p xs (rw e at h) in (a, rw e k)
]

exists-first_fails {ℓ} :
    {A : Type ℓ} (p q : A → Bool) (xs : List A) (a : A)
    → exists q xs ≡ false
    → first p xs ≡ some a
    → q a ≡ false
unfolding exists first
exists-first_fails p q [] a h k = absurd (cc k)
exists-first_fails p q (x ∷ xs) a h k = ground (arith, exists-first_fails p q xs a)

has_affinity :
    (upper : Text → Text) (c : Column)
    → (c.name == owner_column_name) ≡ true
    → is_misdeclared upper c ≡ false
    → column_affinity upper c.decl_type ≡ codes "TEXT"
unfolding is_misdeclared
has_affinity upper c named fine =
    eq→path (column_affinity upper c.decl_type) (codes "TEXT")
      (not-false (column_affinity upper c.decl_type == codes "TEXT") (rw named at fine))

module _ (upper : Text → Text) (tables : List Table) (name : Text) (col : Collection)
    (x : IsOf upper tables name col) where
  pub columns_at : (t : Table) → table_named col.name tables ≡ some t → col.columns ≡ t.columns
  columns_at t at =
      x.columns ∙ ap (λ n. columns_of (table_named n tables)) (sym x.named) ∙ ap columns_of at

  -- The owner column of a collection that has one.
  pub owner_is_textual :
      (col.owner_column == []) ≡ false
      → (c : Column) × (column_named col.owner_column col.columns ≡ some c)
        × (column_affinity upper c.decl_type ≡ codes "TEXT")
        × (col.owner_column ≡ owner_column_name)
  unfolding ◌==◌
  owner_is_textual h = elim (Bool-cases (exists (λ c. c.name == owner_column_name) col.columns)) [
    | inl e ↦
        let named : col.owner_column ≡ owner_column_name = x.owner ∙ rw e refl in
        let (c, at) = exists-first-some (λ c. c.name == owner_column_name) col.columns e in
        let fine =
          exists-first_fails (λ c. c.name == owner_column_name) (is_misdeclared upper) col.columns c
            x.textual at in
        (
          c,
          ap (λ n. column_named n col.columns) named ∙ at,
          has_affinity upper c (first-some (λ c. c.name == owner_column_name) col.columns c at)
              fine,
          named,
        )
    | inr e ↦
        let empty : col.owner_column ≡ [] = x.owner ∙ rw e refl in
        absurd (cc (ap (λ n. n == []) empty, h))
  ]

module _ (upper : Text → Text) (sv : Server) (law : IsTextual upper sv.engine) (t : Table)
    (col : Collection) (c : Column) (at : column_named col.owner_column t.columns ≡ some c)
    (textual : column_affinity upper c.decl_type ≡ codes "TEXT") where
  -- WHERE owner_id = ? compares the owner of the row with the subject.
  pub in_scope_owner :
      (r : Row) (v : Value) (subject : Text)
      → lookup col.owner_column r ≡ some v
      → in_scope sv.engine col true subject t.columns r ≡ is_text v subject
  unfolding is_at
  in_scope_owner r v subject h = rw (at, h) (law.compared c v subject textual)

  pub owner_gate_value-may_see :
      (r : Row) (conn : Conn)
      → ((col.read_rule == rule_owner) ≡ true
          → ((col.owner_column == []) ≡ false)
            × (o : Text) × (lookup col.owner_column r ≡ some (Value.text o))
            × ((o == []) ≡ false))
      → may_see (owner_gate_value sv col (scan_row r)) (some conn)
        ≡ in_scope sv.engine col (rule_scopes col.read_rule) conn.subject t.columns r
  unfolding owner_gate_value
  owner_gate_value-may_see r conn is_owned = elim (Bool-cases (col.read_rule == rule_owner)) [
    | inl e ↦
        let (owned, o, h, some_owner) = is_owned e in
        rw (e, owned, lookup-scan_row col.owner_column r (Value.text o) h)
          (rw (law.printed o, some_owner)
            (eq_comm conn.subject o ∙ sym (in_scope_owner r (Value.text o) conn.subject h)))
    | inr e ↦ rw e (rw (eq_refl []) refl)
  ]

  no_gate :
      (r : Row)
      → (col.read_rule == rule_owner) ≡ true
      → lookup col.owner_column r ≡ some Value.null
      → owner_gate_value sv col (scan_row r) ≡ []
  unfolding owner_gate_value
  no_gate r rule h = elim (Bool-cases (col.owner_column == [])) [
    | inl e ↦ rw (rule, e) refl
    | inr e ↦ rw (rule, e, lookup-scan_row col.owner_column r Value.null h) refl
  ]

  -- A row without an owner, under the owner rule, is in nobody's scope, but its event is sent to
  -- every connection.
  owner_gate_value-null :
      (r : Row) (conn : Conn)
      → (col.read_rule == rule_owner) ≡ true
      → lookup col.owner_column r ≡ some Value.null
      → (in_scope sv.engine col (rule_scopes col.read_rule) conn.subject t.columns r ≡ false)
        × (may_see (owner_gate_value sv col (scan_row r)) (some conn) ≡ true)
  owner_gate_value-null r conn rule h = (
    rw rule (in_scope_owner r Value.null conn.subject h),
    rw (no_gate r rule h) (rw (eq_refl []) refl),
  )
