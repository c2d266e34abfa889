-- ===== src/RestApi/Listing.antt =====
-- The pages that GET answers.
use maubase.Prelude.{
  ℕ, zero, suc, ◌≤◌, ◌<◌, Text, codes, ◌==◌, ◌≡◌, refl, sym, ap, subst, ◌∙◌, inl, inr, eq→path,
  true, false, Option, none, some, List, [], ◌∷◌, map, length, take, drop, ltb, leb, arith,
  Bool-cases, eq_of_some, All, All-select, lookup,
}
use maubase.Sql.{Result, ok, err, failed}
use maubase.Sql.Ensures.{
  Ensures, Then, Ensures-pure, Ensures-bind, Ensures-or_raise, Ensures-guard, Ensures-found,
}
use maubase.Numbers.{atoi}
use maubase.RestApi.Sqlite.{
  Value, Json, Column, Row, Table, Store, compared, is_at, column_named, table_named,
}
use maubase.RestApi.Discovery.{Collection, Registry, column_affinity}
use maubase.RestApi.Statements.{
  Reply, listed, no_collection, forbidden, bad_limit, bad_offset, limit_over, in_scope, rows_where,
  select_rows, normalize_value, scan_row,
}
use maubase.RestApi.Requests.{
  Request, Server, parse_limit, parse_offset, parse_pagination, rule_scopes, max_limit,
}
use maubase.RestApi.Outcomes.{Ensures-select_rows}
use maubase.RestApi.Exposing.{IsOf}
use maubase.RestApi.Visibility.{is_text, IsTextual, columns_at, owner_is_textual, lookup-scan_row}
use maubase.RestApi.{handle_list}

module _ {A : Type 0} where
  All-take : (P : A → Type 0) (n : ℕ) (xs : List A) → All P xs → All P (take n xs)
  All-take P zero xs h = tt
  All-take P (suc n) [] h = tt
  All-take P (suc n) (x ∷ xs) h = (h.0, All-take P n xs h.1)

  All-drop : (P : A → Type 0) (n : ℕ) (xs : List A) → All P xs → All P (drop n xs)
  All-drop P zero xs h = h
  All-drop P (suc n) [] h = tt
  All-drop P (suc n) (x ∷ xs) h = All-drop P n xs h.1

module _ {A B : Type 0} where
  All-map_into :
      (P : A → Type 0) (Q : B → Type 0) (f : A → B)
      → ((a : A) → P a → Q (f a))
      → (xs : List A) → All P xs
      → All Q (map f xs)
  All-map_into P Q f k [] h = tt
  All-map_into P Q f k (x ∷ xs) h = (k x h.0, All-map_into P Q f k xs h.1)

  length-map-take : (f : A → B) (n : ℕ) (xs : List A) → length (map f (take n xs)) ≤ n
  length-map-take f zero xs = omega arith
  length-map-take f (suc n) [] = omega arith
  length-map-take f (suc n) (x ∷ xs) = omega (arith, length-map-take f n xs)

-- A limit that is not refused is from 1 to 200.
parse_limit-Ensures :
    (Q : Result Reply ℕ → Store → Type 0) (s : Store) (v : Text)
    → ((e : Reply) → Q (err e) s)
    → ((n : ℕ) → 0 < n → n ≤ max_limit → Q (ok n) s)
    → Ensures Q s (parse_limit v)
unfolding parse_limit
parse_limit-Ensures Q s v x k = elim (Bool-cases (v == [])) [
  | inl e ↦ rw e (Ensures-pure Q s _ (k _ (omega arith) (omega arith)))
  | inr e ↦ rw e (
      Ensures-or_raise Q s (atoi v) (bad_limit v) _ (λ h. x _)
        (λ n h.
          Ensures-guard Q s (ltb 0 n) (bad_limit v) _ (λ h. x _)
            (λ low.
              Ensures-guard Q s (leb n max_limit) (limit_over n) _ (λ h. x _)
                (λ high. Ensures-pure Q s n (k n (ground (arith, low)) (ground (arith, high)))))))
]

parse_offset-Ensures :
    (Q : Result Reply ℕ → Store → Type 0) (s : Store) (v : Text)
    → ((e : Reply) → Q (err e) s)
    → ((n : ℕ) → Q (ok n) s)
    → Ensures Q s (parse_offset v)
unfolding parse_offset
parse_offset-Ensures Q s v x k = elim (Bool-cases (v == [])) [
  | inl e ↦ rw e (Ensures-pure Q s _ (k _))
  | inr e ↦ rw e (Ensures-found Q s (atoi v) (bad_offset v) (λ h. x _) (λ n h. k n))
]

module _ (upper : Text → Text) (sv : Server) (law : IsTextual upper sv.engine) (reg : Registry)
    (r : Request) (s : Store) (col : Collection) (found : lookup r.collection reg ≡ some col)
    (exposed : IsOf upper s.tables r.collection col) where
  abbrev pub ListPost : Result Reply Reply → Store → Type 0
  ListPost (ok reply) s' =
      (s' ≡ s)
      × ((rows : List Row) × (n : ℕ) × (m : ℕ) × (reply ≡ listed rows n m)
          × (0 < n)
          × (n ≤ max_limit)
          × (length rows ≤ n)
          × (rule_scopes col.read_rule ≡ true
              → (col.owner_column == []) ≡ false
              → All (λ row. lookup col.owner_column row ≡ some (Value.text r.subject)) rows))
  ListPost (err e) s' = s' ≡ s
  ListPost failed s' = s' ≡ s

  is_at-owner :
      (c : Column) (row : Row)
      → column_affinity upper c.decl_type ≡ codes "TEXT"
      → (o : Option Value) → lookup col.owner_column row ≡ o
      → compared sv.engine (some c) o (Json.text r.subject) ≡ true
      → lookup col.owner_column (scan_row row) ≡ some (Value.text r.subject)
  is_at-owner c row textual none h k = absurd (cc k)
  is_at-owner c row textual (some v) h k =
      lookup-scan_row col.owner_column row v h
      ∙ ap (λ w. some (normalize_value w))
          (text_is v (sym (law.compared c v r.subject textual) ∙ k))
    where
      text_is : (w : Value) → is_text w r.subject ≡ true → w ≡ Value.text r.subject
      text_is (Value.text o) h = ap Value.text (eq→path o r.subject h)
      text_is Value.null h = absurd (cc h)
      text_is (Value.num o) h = absurd (cc h)
      text_is (Value.bytes o) h = absurd (cc h)

  in_scope-owner :
      (t : Table) (row : Row)
      → table_named col.name s.tables ≡ some t
      → (col.owner_column == []) ≡ false
      → in_scope sv.engine col true r.subject t.columns row ≡ true
      → lookup col.owner_column (scan_row row) ≡ some (Value.text r.subject)
  unfolding is_at
  in_scope-owner t row at owned h =
      let (c, named, textual, is_owner) =
        owner_is_textual upper s.tables r.collection col exposed owned in
      let here : column_named col.owner_column t.columns ≡ some c =
        ap (column_named col.owner_column)
          (sym (columns_at upper s.tables r.collection col exposed t at))
        ∙ named in
      is_at-owner c row textual (lookup col.owner_column row) refl (rw here at h)

  rows_mine :
      (rows : List Row) (o : Option Table)
      → table_named col.name s.tables ≡ o
      → rows_where (in_scope sv.engine col (rule_scopes col.read_rule) r.subject) o ≡ some rows
      → (n m : ℕ) → rule_scopes col.read_rule ≡ true
      → (col.owner_column == []) ≡ false
      → All
          (λ row. lookup col.owner_column row ≡ some (Value.text r.subject))
          (map scan_row (take n (drop m rows)))
  rows_mine rows none at h n m rule owned = absurd (cc h)
  rows_mine rows (some t) at h n m rule owned =
      All-map_into
        (λ row. in_scope sv.engine col (rule_scopes col.read_rule) r.subject t.columns row ≡ true) _
        scan_row (λ row k. in_scope-owner t row at owned (rw rule at k)) (take n (drop m rows))
        (All-take _ n (drop m rows) (
          All-drop _ m rows (
            subst
              (All (λ row.
                in_scope sv.engine col (rule_scopes col.read_rule) r.subject t.columns row ≡ true))
              (eq_of_some _ rows h)
              (All-select (in_scope sv.engine col (rule_scopes col.read_rule) r.subject t.columns)
                t.rows))))

  -- A list changes nothing, and where it succeeds its limit is from 1 to 200 and it answers no more
  -- rows than that; under the owner rule every row it answers has the caller as its owner.
  pub handle_list-Ensures : Ensures ListPost s (handle_list sv reg r)
  unfolding handle_list parse_pagination
  handle_list-Ensures =
      Ensures-or_raise ListPost s (lookup r.collection reg) no_collection _ (λ e. refl)
        (λ col' e. rw (eq_of_some col' col (sym e ∙ found)) (
          Ensures-guard ListPost s _ forbidden _ (λ denied. refl)
            (λ allowed. Ensures-bind ListPost s (parse_pagination r.limit r.offset) _ (
              Ensures-bind (Then ListPost _) s (parse_limit r.limit) _ (
                parse_limit-Ensures (Then (Then ListPost _) _) s r.limit (λ e. refl)
                  (λ n low high. Ensures-bind (Then ListPost _) s (parse_offset r.offset) _ (
                    parse_offset-Ensures (Then (Then ListPost _) _) s r.offset (λ e. refl)
                      (λ m.
                        Ensures-pure (Then ListPost _) s (n, m)
                          (Ensures-bind ListPost s (select_rows col.name _) _ (
                            Ensures-select_rows (Then ListPost _) s col.name _ refl (λ rows h.
                              Ensures-pure ListPost s _ (
                                refl,
                                (
                                  _,
                                  n,
                                  m,
                                  refl,
                                  low,
                                  high,
                                  length-map-take scan_row n (drop m rows),
                                  rows_mine rows (table_named col.name s.tables) refl h n m,
                                ),
                              ))))))))))))
