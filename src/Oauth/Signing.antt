-- ===== src/Oauth/Signing.antt =====
-- EnsureKey and the key set that it belongs to.
use maubase.Prelude.{
  ◌≡◌, refl, sym, ap, ◌∙◌, subst, eq_of_some, Text, ◌==◌, Bool, true, Option, none, some, List, [],
  ◌∷◌, ◌++◌, inl, inr, ◌⊎◌, first, exists, update, first-append, exists-update_all, if_none_inv,
}
use maubase.Sql.{Result, ok, err, failed, Db, query, exec, exec_checked}
use maubase.Sql.Ensures.{
  Ensures, Then, Closed, Ensures-pure, Ensures-query, Ensures-bind, Ensures-from_option,
  Ensures-option, Ensures-exec, Ensures-exec_checked, Ensures-transaction,
}
use maubase.Schema.{Tables, SigningKeyRow}
use maubase.Oauth.{Error}
use maubase.Oauth.Keys.{
  Rsa, KeyDraw, Key, insert_key, retire, parse, rotate_body, rotate, use_or_rotate, ensure_key,
}

abbrev pub current : Tables → Option SigningKeyRow
current t = first (λ k. k.is_current) t.signing_keys

abbrev pub key_row : Text → Text → SigningKeyRow
key_row kid key = record { kid = kid; private_der = key; is_current = true }

-- Every old key retired, and a new one at the end.
abbrev pub with_key : Text → Text → Tables → Tables
with_key kid key t = record t {
  signing_keys = update (λ k. true) retire t.signing_keys ++ key_row kid key ∷ [];
}

module _ (rsa : Rsa) (d : KeyDraw) (t : Tables) where
  abbrev EnsurePost : Result Error Key → Tables → Type 0
  EnsurePost (ok key) t' =
      ((k : SigningKeyRow) × (current t ≡ some k) × (parse rsa k ≡ some key) × (t' ≡ t))
      ⊎ ((current t ≡ none)
          × (d.key ≡ some key.1)
          × (key.0 ≡ d.kid)
          × (t' ≡ with_key key.0 key.1 t))
  EnsurePost (err e) t' = ⊥
  EnsurePost failed t' = t' ≡ t

insert_key-some :
    (r : SigningKeyRow) (t t' : Tables)
    → insert_key r t ≡ some t'
    → t' ≡ record t { signing_keys = t.signing_keys ++ r ∷ [] }
unfolding insert_key
insert_key-some r t t' h = (if_none_inv (exists (λ k. k.kid == r.kid) t.signing_keys) _ t' h).1

module _ (rsa : Rsa) (d : KeyDraw) (t : Tables) where
  rotate-Ensures : current t ≡ none → Ensures (EnsurePost rsa d t) t (rotate rsa d)
  unfolding rotate rotate_body
  rotate-Ensures absent = Ensures-from_option Q t d.key _ refl (λ key drawn.
      Ensures-transaction Q t (rotate_body rsa d.kid key) refl (
        Ensures-bind (Closed Q t) t (exec _) _ (
          Ensures-exec (Then (Closed Q t) _) t _ refl (
            Ensures-bind (Closed Q t) _ (exec_checked _) _ (
              Ensures-exec_checked (Then (Closed Q t) _) _ (insert_key (key_row d.kid key)) refl
                (λ t' e.
                  Ensures-pure (Closed Q t) t' (d.kid, key)
                    (
                      refl,
                      inr (absent, drawn, refl, insert_key-some (key_row d.kid key) _ t' e),
                    )))))))
    where
      Q : Result Error Key → Tables → Type 0
      Q = EnsurePost rsa d t

  use_or_rotate-Ensures :
      (o : Option SigningKeyRow)
      → current t ≡ o
      → Ensures (EnsurePost rsa d t) t (use_or_rotate rsa d o)
  unfolding use_or_rotate
  use_or_rotate-Ensures none e = rotate-Ensures e
  use_or_rotate-Ensures (some k) e =
      Ensures-option (EnsurePost rsa d t) t (parse rsa k) (λ g. refl) (λ key g. inl (k, e, g, refl))

  -- EnsureKey answers the current key where there is one and changes nothing; where there is none
  -- it makes a key, which becomes the only current one, and keeps every earlier key; where anything
  -- fails nothing changes.
  ensure_key-Ensures : Ensures (EnsurePost rsa d t) t (ensure_key rsa d)
  unfolding ensure_key
  ensure_key-Ensures =
      Ensures-bind Q t (query current) _
        (Ensures-query (Then Q _) t current refl (use_or_rotate-Ensures (current t) refl))
    where
      Q : Result Error Key → Tables → Type 0
      Q = EnsurePost rsa d t

current-with_key :
    (kid key : Text) (t : Tables) → current (with_key kid key t) ≡ some (key_row kid key)
current-with_key kid key t =
    first-append (λ k. k.is_current) (update (λ k. true) retire t.signing_keys) (key_row kid key)
      refl (exists-update_all (λ k. k.is_current) retire t.signing_keys (λ a. refl))

module _ (rsa : Rsa) where
  ensure_key_again :
      (d d' : KeyDraw) (key : Key) (t t' : Tables)
      → ((k : Text) → d.key ≡ some k → rsa.parses k ≡ true)
      → EnsurePost rsa d t (ok key) t'
      → (k : SigningKeyRow) × (current t' ≡ some k) × (parse rsa k ≡ some key)
  ensure_key_again d d' key t t' good (inl (k, e, g, same)) = (k, ap current same ∙ e, g)
  ensure_key_again d d' key t t' good (inr (absent, drawn, named, same)) =
      (key_row key.0 key.1, ap current same ∙ current-with_key key.0 key.1 t, rw (good key.1 drawn))

  -- Once EnsureKey has answered a key, it answers no other key afterwards, whatever a later call
  -- draws and whichever statements fail, provided that x509 parses the key that it just marshalled.
  pub ensure_key-ensure_key :
      (d d' : KeyDraw) (db : Db Tables) (key key' : Key) (faults : List Bool)
      → ((k : Text) → d.key ≡ some k → rsa.parses k ≡ true)
      → (ensure_key rsa d db).0 ≡ ok key
      → (ensure_key rsa d' (record { tables = (ensure_key rsa d db).1.tables; faults = faults })).0
        ≡ ok key'
      → key' ≡ key
  ensure_key-ensure_key d d' db key key' faults good done again =
      let first_post =
        subst (λ x. EnsurePost rsa d db.tables x (ensure_key rsa d db).1.tables) done
          ((ensure_key-Ensures rsa d db.tables).at db.faults) in
      let second_post =
        subst
          (λ x.
            EnsurePost rsa d' (ensure_key rsa d db).1.tables x
              (ensure_key rsa d'
                (record { tables = (ensure_key rsa d db).1.tables; faults = faults })).1.tables)
          again ((ensure_key-Ensures rsa d' (ensure_key rsa d db).1.tables).at faults) in
      let (k, e, g) =
        ensure_key_again d d' key db.tables (ensure_key rsa d db).1.tables good first_post in
      elim second_post [
        | inl (k', e', g', same) ↦
            let twin = eq_of_some k k' (sym e ∙ e') in
            sym (eq_of_some key key' (sym g ∙ ap (parse rsa) twin ∙ g'))
        | inr (absent, drawn, named, same) ↦ absurd (cc (e, absent))
      ]
