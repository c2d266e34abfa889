-- ===== src/RestApi/Creating.antt =====
-- What POST leaves.
use maubase.Prelude.{
  Text, codes, ◌==◌, ◌≡◌, refl, sym, ap, ◌∙◌, ◌⊎◌, inl, inr, eq_refl, eq→path, false, not, ◌&&◌,
  some, [], Bool-cases, Option-cases, eq_of_some, Assoc, lookup, lookup-put, &&-right, select, Bool,
}
use maubase.Sql.{Result, ok, err, failed, exec_or}
use maubase.Sql.Ensures.{
  Ensures, Then, Ensures-pure, Ensures-raise, Ensures-bind, Ensures-or_raise, Ensures-guard,
  Ensures-exec_or, Ensures-from_option,
}
use maubase.RestApi.Sqlite.{
  Value, Json, Row, Table, Store, column_named, given, new_row, table_named, with_row,
}
use maubase.RestApi.Discovery.{Collection, Registry}
use maubase.RestApi.Statements.{
  Reply, created, no_collection, forbidden, head, fetch_by_pk, insert_row, at_pk,
}
use maubase.RestApi.Requests.{
  Body, too_large, malformed, null, fields, Request, Server, body_error, decode_body, stamp_owner,
  is_unset, stamp_key, key_of, sent, publish, event, owner_gate_value,
}
use maubase.RestApi.Cells.{lookup-new_row}
use maubase.RestApi.Outcomes.{wrote, Ensures-fetch_by_pk, Ensures-publish, insert_row-ran}
use maubase.RestApi.Written.{head-with_rows}
use maubase.RestApi.Exposing.{IsOf}
use maubase.RestApi.Visibility.{IsTextual, columns_at, owner_is_textual}
use maubase.RestApi.{store_row, handle_create}

-- The fields of a body that is read.
abbrev pub body_of : Body → Assoc Json
body_of too_large = []
body_of malformed = []
body_of null = []
body_of (fields body) = body

-- A body either stands as it is or is refused, and reading it changes nothing.
pub decode_body-Ensures :
    (Q : Result Reply (Assoc Json) → Store → Type 0) (s : Store) (col : Collection) (b : Body)
    → ((e : Reply) → Q (err e) s)
    → Q (ok (body_of b)) s
    → Ensures Q s (decode_body col b)
unfolding decode_body
decode_body-Ensures Q s col too_large x k = Ensures-raise Q s _ (x _)
decode_body-Ensures Q s col malformed x k = Ensures-raise Q s _ (x _)
decode_body-Ensures Q s col null x k = Ensures-pure Q s [] k
decode_body-Ensures Q s col (fields body) x k = elim (Option-cases (body_error col body)) [
  | inl e ↦ rw e (Ensures-pure Q s body k)
  | inr (r, e) ↦ rw e (Ensures-raise Q s r (x r))
]

stamp_key_lem :
    (col : Collection) (new_id name : Text) (body : Assoc Json) (v : Json)
    → lookup name body ≡ some v
    → is_unset (some v) ≡ false
    → lookup name (stamp_key col new_id body) ≡ some v
stamp_key_lem col new_id name body v h is_set =
    elim (Bool-cases (not col.pk_is_integer && is_unset (lookup col.pk_column body))) [
      | inl e ↦ rw e (
          lookup-put col.pk_column name (Json.text new_id) body
          ∙ elim (Bool-cases (col.pk_column == name)) [
            | inl k ↦
                let found : lookup col.pk_column body ≡ some v =
                  ap (λ n. lookup n body) (eq→path col.pk_column name k) ∙ h in
                absurd (
                  cc (
                    ap is_unset found,
                    is_set,
                    &&-right (not col.pk_is_integer) (is_unset (lookup col.pk_column body)) e,
                  ))
            | inr k ↦ rw k h
          ])
      | inr e ↦ rw e h
    ]

-- The subject is what the body says of the owner, whatever it said before.
lookup-stamp_key :
    (col : Collection) (subject new_id : Text) (body : Assoc Json)
    → (col.owner_column == []) ≡ false
    → (subject == []) ≡ false
    → lookup col.owner_column (stamp_key col new_id (stamp_owner col subject body))
      ≡ some (Json.text subject)
lookup-stamp_key col subject new_id body owned some_subject =
    stamp_key_lem col new_id col.owner_column (stamp_owner col subject body) (Json.text subject)
      (rw owned (
        lookup-put col.owner_column col.owner_column (Json.text subject) body
        ∙ rw (eq_refl col.owner_column) refl))
      some_subject

module _ (upper : Text → Text) (sv : Server) (law : IsTextual upper sv.engine) (reg : Registry)
    (r : Request) (s : Store) (col : Collection) (found : lookup r.collection reg ≡ some col)
    (exposed : IsOf upper s.tables r.collection col)
    (some_subject : (r.subject == []) ≡ false) where
  -- What is stored: the body with the caller as the owner, and with a new key where it has none and
  -- the key is not an INTEGER.
  abbrev stored_body : Assoc Json
  stored_body = stamp_key col r.new_id (stamp_owner col r.subject (body_of r.body))

  abbrev stored : Table → Row
  stored t = new_row sv.engine t stored_body t.columns

  -- The table has the new row, which is the caller's where rows have owners.
  abbrev pub Stored : Table → Type 0
  Stored t =
      (table_named col.name s.tables ≡ some t)
      × ((col.owner_column == []) ≡ false
          → lookup col.owner_column (stored t) ≡ some (Value.text r.subject))

  -- WHERE pk = ?, of the new row's key: the result's LastInsertId where it is an INTEGER.
  abbrev has_new_key : Table → Row → Bool
  has_new_key t =
      at_pk sv.engine col (key_of col (sv.engine.last_id t (stored t)) stored_body) false []
        t.columns

  abbrev pub CreatePost : Result Reply Reply → Store → Type 0
  CreatePost (ok reply) s' =
      (t : Table) × (shown : Row) × Stored t
      × (head (select (has_new_key t) (with_row sv.engine t (stored t))) ≡ some shown)
      × (reply ≡ created shown)
      × (s' ≡ record (wrote col.name (with_row sv.engine t (stored t)) s) {
        published =
            sent sv col (event (codes "created") col (some (sv.engine.encode shown)) [])
              (owner_gate_value sv col shown) s.published;
      })
  CreatePost (err reply) s' = s' ≡ s
  CreatePost failed s' =
      (s' ≡ s)
      ⊎ ((t : Table) × Stored t × (s' ≡ wrote col.name (with_row sv.engine t (stored t)) s))

  stored_lem : (t : Table) → table_named col.name s.tables ≡ some t → Stored t
  stored_lem t at = (
    at,
    λ owned.
        let (c, named, textual, is_owner) =
          owner_is_textual upper s.tables r.collection col exposed owned in
        lookup-new_row sv.engine t stored_body t.columns col.owner_column c (
          ap (column_named col.owner_column)
            (sym (columns_at upper s.tables r.collection col exposed t at))
          ∙ named)
        ∙ ap (λ o. some (given sv.engine t c o))
            (lookup-stamp_key col r.subject r.new_id (body_of r.body) owned some_subject)
        ∙ ap some (law.stored c r.subject textual),
  )

  store_row-Ensures : Ensures CreatePost s (store_row sv col stored_body)
  unfolding store_row
  store_row-Ensures = Ensures-bind CreatePost s (exec_or _) _ (
      Ensures-exec_or (Then CreatePost _) s (insert_row sv.engine col.name stored_body) (inl refl)
        (λ e h. refl)
        (λ last s1 h.
          let (t, (at, last_is, left)) =
            insert_row-ran sv.engine s s1 col.name stored_body last h in
          let kept = stored_lem t at in
          let s2 = wrote col.name (with_row sv.engine t (stored t)) s in
          rw (left, last_is)
            (Ensures-bind CreatePost s2 (fetch_by_pk sv.engine col _ false []) _ (
              Ensures-fetch_by_pk sv.engine (Then CreatePost _) s2 col
                (key_of col (sv.engine.last_id t (stored t)) stored_body) false []
                (inr (t, kept, refl))
                (λ rows k.
                  Ensures-from_option CreatePost s2 (head rows) _ (inr (t, kept, refl))
                    (λ shown shown_is. Ensures-bind CreatePost s2 (publish sv col _ _) _ (
                      Ensures-publish sv (Then CreatePost _) s2 col _ _ (
                        Ensures-pure CreatePost _ (created shown) (
                          t,
                          shown,
                          kept,
                          head-with_rows _ col.name (with_row sv.engine t (stored t)) rows s.tables
                              t shown at k shown_is,
                          refl,
                          refl,
                        )))))))))

  pub handle_create-Ensures : Ensures CreatePost s (handle_create sv reg r)
  unfolding handle_create
  handle_create-Ensures =
      Ensures-or_raise CreatePost s (lookup r.collection reg) no_collection _ (λ e. refl)
        (λ col' e. rw (eq_of_some col' col (sym e ∙ found)) (
          Ensures-guard CreatePost s _ forbidden _ (λ denied. refl)
            (λ allowed. Ensures-bind CreatePost s (decode_body col r.body) _ (
              decode_body-Ensures (Then CreatePost _) s col r.body (λ e. refl) store_row-Ensures))))
