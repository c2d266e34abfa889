-- ===== src/RestApi/Cells.antt =====
-- What INSERT and UPDATE leave in each column, and what a statement on one table leaves of the
-- others.
use maubase.Prelude.{
  Text, ◌==◌, ◌≡◌, refl, sym, ap, ap₂, subst, inl, inr, eq→path, Bool, true, false, ◌&&◌, none,
  some, List, [], ◌∷◌, map, select, update, delete, first, if◌then◌else◌, Bool-cases, eq_of_some,
  Assoc, lookup,
}
use maubase.RestApi.Sqlite.{
  Json, Column, Row, Table, Engine, column_named, compared, is_at, given, new_row, set_row,
  table_named, with_rows,
}

module _ {ℓ} {A : Type ℓ} where
  pub select-and :
      (p q : A → Bool) (xs : List A) → select (λ x. p x && q x) xs ≡ select p (select q xs)
  unfolding select
  select-and p q [] = refl
  select-and p q (x ∷ xs) = elim (Bool-cases (q x)) [
    | inl e ↦ elim (Bool-cases (p x)) [
      | inl k ↦ rw (k, e) (rw k (ap (λ ys. x ∷ ys) (select-and p q xs)))
      | inr k ↦ rw (k, e) (rw k (select-and p q xs))
    ]
    | inr e ↦ elim (Bool-cases (p x)) [
      | inl k ↦ rw (k, e) (select-and p q xs)
      | inr k ↦ rw (k, e) (select-and p q xs)
    ]
  ]

  -- Rows that an UPDATE passes over, where it takes no row in or out of the test.
  pub select-update :
      (p q : A → Bool) (f : A → A)
      → ((x : A) → p x ≡ true → q x ≡ false)
      → ((x : A) → p x ≡ true → q (f x) ≡ false)
      → (xs : List A) → select q (update p f xs) ≡ select q xs
  unfolding select update
  select-update p q f out stay [] = refl
  select-update p q f out stay (x ∷ xs) = elim (Bool-cases (p x)) [
    | inl e ↦ rw (e, stay x e, out x e) (select-update p q f out stay xs)
    | inr e ↦ rw e (ap (λ ys. if q x then x ∷ ys else ys) (select-update p q f out stay xs))
  ]

  -- Rows that a DELETE passes over.
  pub select-delete_within :
      (p q : A → Bool)
      → ((x : A) → p x ≡ true → q x ≡ false)
      → (xs : List A) → select q (delete p xs) ≡ select q xs
  unfolding select delete
  select-delete_within p q out [] = refl
  select-delete_within p q out (x ∷ xs) = elim (Bool-cases (p x)) [
    | inl e ↦ rw (e, out x e) (select-delete_within p q out xs)
    | inr e ↦ rw e (ap (λ ys. if q x then x ∷ ys else ys) (select-delete_within p q out xs))
  ]

  -- A reading of the rows that the change of a row leaves alone.
  pub map-update {κ} :
      {B : Type κ} (p : A → Bool) (f : A → A) (g : A → B)
      → ((x : A) → g (f x) ≡ g x)
      → (xs : List A) → map g (update p f xs) ≡ map g xs
  unfolding update
  map-update p f g same [] = refl
  map-update p f g same (x ∷ xs) = elim (Bool-cases (p x)) [
    | inl e ↦ rw (e, same x) (ap (λ ys. g x ∷ ys) (map-update p f g same xs))
    | inr e ↦ rw e (ap (λ ys. g x ∷ ys) (map-update p f g same xs))
  ]

module _ (e : Engine) where
  pub lookup-new_row :
      (t : Table) (body : Assoc Json) (columns : List Column) (name : Text) (c : Column)
      → column_named name columns ≡ some c
      → lookup name (new_row e t body columns) ≡ some (given e t c (lookup name body))
  unfolding new_row lookup first
  lookup-new_row t body [] name c h = absurd (cc h)
  lookup-new_row t body (d ∷ columns) name c h = elim (Bool-cases (d.name == name)) [
    | inl k ↦ rw k (
        ap₂ (λ y n. some (given e t y (lookup n body))) (eq_of_some d c (rw k at h))
          (eq→path d.name name k))
    | inr k ↦ rw k (lookup-new_row t body columns name c (rw k at h))
  ]

  -- A column that is not set keeps its value.
  pub lookup-set_row :
      (columns : List Column) (body : Assoc Json) (name : Text) (r : Row)
      → lookup name body ≡ none
      → lookup name (set_row e columns body r) ≡ lookup name r
  unfolding set_row lookup
  lookup-set_row columns body name [] h = refl
  lookup-set_row columns body name ((k, v) ∷ r) h = elim (Bool-cases (k == name)) [
    | inl same ↦
        let absent : lookup k body ≡ none =
          subst (λ n. lookup n body ≡ none) (sym (eq→path k name same)) h in
        rw (same, absent) refl
    | inr other ↦ rw other (lookup-set_row columns body name r h)
  ]

  pub is_at-set_row :
      (cols columns : List Column) (body : Assoc Json) (name : Text) (j : Json) (r : Row)
      → lookup name body ≡ none
      → is_at e cols name j (set_row e columns body r) ≡ is_at e cols name j r
  unfolding is_at
  is_at-set_row cols columns body name j r h =
      ap (λ v. compared e (column_named name cols) v j) (lookup-set_row columns body name r h)

pub with_rows_same :
    (name : Text) (ts : List Table) (t : Table)
    → table_named name ts ≡ some t
    → with_rows name t.rows ts ≡ ts
unfolding first with_rows
with_rows_same name [] t h = refl
with_rows_same name (u ∷ ts) t h = elim (Bool-cases (u.name == name)) [
  | inl k ↦
      rw k (ap (λ (x : Table). record u { rows = x.rows } ∷ ts) (sym (eq_of_some u t (rw k at h))))
  | inr k ↦ rw k (ap (λ (xs : List Table). u ∷ xs) (with_rows_same name ts t (rw k at h)))
]

-- Another table is as it was, and the table itself has the new rows.
pub table_named-with_rows :
    (name other : Text) (rows : List Row) (ts : List Table)
    → (name == other) ≡ false
    → table_named other (with_rows name rows ts) ≡ table_named other ts
unfolding first with_rows
table_named-with_rows name other rows [] h = refl
table_named-with_rows name other rows (t ∷ ts) h = elim (Bool-cases (t.name == name)) [
  | inl k ↦
      let differs : (t.name == other) ≡ false =
        subst (λ n. (n == other) ≡ false) (sym (eq→path t.name name k)) h in
      rw (k, differs) refl
  | inr k ↦ rw k (elim (Bool-cases (t.name == other)) [
    | inl o ↦ rw o refl
    | inr o ↦ rw o (table_named-with_rows name other rows ts h)
  ])
]

pub table_named-with_rows_self :
    (name : Text) (rows : List Row) (ts : List Table) (t : Table)
    → table_named name ts ≡ some t
    → table_named name (with_rows name rows ts) ≡ some (record t { rows = rows })
unfolding first with_rows
table_named-with_rows_self name rows [] t h = absurd (cc h)
table_named-with_rows_self name rows (u ∷ ts) t h = elim (Bool-cases (u.name == name)) [
  | inl k ↦
      rw k (rw k (ap (λ (x : Table). some (record x { rows = rows })) (eq_of_some u t (rw k at h))))
  | inr k ↦ rw k (rw k (table_named-with_rows_self name rows ts t (rw k at h)))
]
