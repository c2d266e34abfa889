-- ===== src/RestApi/Written.antt =====
-- What a statement that follows a write finds of it.
use maubase.Prelude.{
  ℕ, count, exists, exists-count, ltb, eqb, arith, Text, ◌==◌, ◌≡◌, refl, sym, ap, ◌∙◌, inl, inr,
  eq→path, Bool, true, false, Option, none, some, List, [], ◌∷◌, All, select, update, Bool-cases,
  eq_of_some, Assoc, lookup,
}
use maubase.RestApi.Sqlite.{
  Value, Json, Column, Row, Table, Engine, column_named, set_value, set_row, table_named, with_rows,
}
use maubase.RestApi.Statements.{rows_where, head}
use maubase.RestApi.Cells.{table_named-with_rows_self}

-- What a read finds in a table after its rows were written.
pub head-with_rows :
    (p : List Column → Row → Bool) (name : Text) (rows found : List Row) (ts : List Table)
    (t : Table) (shown : Row)
    → table_named name ts ≡ some t
    → rows_where p (table_named name (with_rows name rows ts)) ≡ some found
    → head found ≡ some shown
    → head (select (p t.columns) rows) ≡ some shown
head-with_rows p name rows found ts t shown at read is_head =
    ap head (
      eq_of_some (select (p t.columns) rows) found
        (sym (ap (rows_where p) (table_named-with_rows_self name rows ts t at)) ∙ read))
    ∙ is_head

-- A field that SET lists has the value that its column keeps.
pub set_row-listed :
    (e : Engine) (columns : List Column) (body : Assoc Json) (k : Text) (j : Json) (c : Column)
    (r : Row) (v : Value)
    → lookup k body ≡ some j
    → column_named k columns ≡ some c
    → lookup k (set_row e columns body r) ≡ some v
    → v ≡ e.store c j
unfolding lookup set_row
set_row-listed e columns body k j c [] v listed named h = absurd (cc h)
set_row-listed e columns body k j c ((name, w) ∷ r) v listed named h =
    elim (Bool-cases (name == k)) [
      | inl same ↦
          sym (eq_of_some _ v (rw same at h))
          ∙ ap (λ n. set_value e columns n w (lookup n body)) (eq→path name k same)
          ∙ ap (set_value e columns k w) listed
          ∙ ap (λ (o : Option Column). elim o [ none ↦ w | some d ↦ e.store d j ]) named
      | inr other ↦ set_row-listed e columns body k j c r v listed named (rw other at h)
    ]

All-update_cases {ℓ} :
    {A : Type ℓ} (P : A → Type ℓ) (p : A → Bool) (f : A → A) (xs : List A)
    → ((x : A) → P (f x))
    → ((x : A) → p x ≡ false → P x)
    → All P (update p f xs)
unfolding update
All-update_cases P p f [] set kept = tt
All-update_cases P p f (x ∷ xs) set kept = elim (Bool-cases (p x)) [
  | inl e ↦ rw e (set x, All-update_cases P p f xs set kept)
  | inr e ↦ rw e (kept x e, All-update_cases P p f xs set kept)
]

-- After an UPDATE, the rows that its condition finds have the values that it sets.
pub update-listed :
    (e : Engine) (p : Row → Bool) (columns : List Column) (body : Assoc Json) (rows : List Row)
    (k : Text) (j : Json) (c : Column)
    → lookup k body ≡ some j
    → column_named k columns ≡ some c
    → All
        (λ x. p x ≡ true → (v : Value) → lookup k x ≡ some v → v ≡ e.store c j)
        (update p (set_row e columns body) rows)
update-listed e p columns body rows k j c listed named =
    All-update_cases _ p (set_row e columns body) rows
      (λ x found v h. set_row-listed e columns body k j c x v listed named h)
      (λ x missed found. absurd (cc (missed, found)))

pub no_match :
    {A : Type 0} (p : A → Bool) (xs : List A) (n : ℕ)
    → n ≡ count p xs
    → ltb 0 n ≡ false
    → exists p xs ≡ false
no_match p xs n n_is zero_rows =
    let none_there : count p xs ≡ 0 = ground (arith, n_is) in exists-count p xs ∙ rw none_there refl

pub some_match :
    {A : Type 0} (p : A → Bool) (xs : List A) (n : ℕ)
    → n ≡ count p xs
    → ltb 0 n ≡ true
    → exists p xs ≡ true
some_match p xs n n_is some_rows =
    let one_there : eqb (count p xs) 0 ≡ false = ground (arith, n_is) in
    exists-count p xs ∙ rw one_there refl

pub head-rows_where :
    (p : List Column → Row → Bool) (o : Option Table) (rows : List Row) (shown : Row)
    → rows_where p o ≡ some rows
    → head rows ≡ some shown
    → (t : Table) × (o ≡ some t) × (head (select (p t.columns) t.rows) ≡ some shown)
head-rows_where p none rows shown h e = absurd (cc h)
head-rows_where p (some t) rows shown h e = (t, refl, ap head (eq_of_some _ rows h) ∙ e)
