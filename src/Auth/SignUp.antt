-- ===== src/Auth/SignUp.antt =====
-- SignUp, on every branch.
use maubase.Prelude.{
  ◌≤◌, ◌<◌, ◌≡◌, refl, sym, ◌∙◌, subst, eq_of_some, Text, ◌==◌, eq_refl, true, false, not, none,
  some, List, [], ◌∷◌, ◌++◌, length, arith, ltb, inl, inr, ◌⊎◌, first, exists, first-append,
  if_none_inv,
}
use maubase.Sql.{Result, ok, err, failed, query, exec_unique}
use maubase.Sql.Ensures.{
  Ensures, Then, Ensures-pure, Ensures-query, Ensures-bind, Ensures-from_option, Ensures-guard,
  Ensures-exec_unique,
}
use maubase.Schema.{Tables, UserRow}
use maubase.Email.{Unicode, normalize_email, email_re}
use maubase.Crypto.{Crypto, Fresh}
use maubase.Auth.{
  Error, email_taken, weak_password, invalid_email, User, to_user, taken, insert_user,
  get_user_by_id, sign_up,
}

-- The row that an account gets.
abbrev pub new_row : Unicode → Fresh → Text → Text → UserRow
new_row u f email hash = record {
  id = f.id;
  email = normalize_email u email;
  password_hash = hash;
  created_at = f.now;
  updated_at = f.now;
}

abbrev pub with_row : UserRow → Tables → Tables
with_row r t = record t { users = t.users ++ r ∷ [] }

module _ (c : Crypto) (u : Unicode) (f : Fresh) (email password : Text) (t : Tables) where
  -- The account was added: everything was in order, and nothing else changed.
  abbrev pub Added : Tables → Type 0
  Added t' =
      (hash : Text) × (email_re (normalize_email u email) ≡ true)
      × (8 ≤ length password)
      × (c.hash_password password ≡ some hash)
      × (exists (taken (new_row u f email hash)) t.users ≡ false)
      × (t' ≡ with_row (new_row u f email hash) t)

  abbrev pub SignUpPost : Result Error User → Tables → Type 0
  SignUpPost (ok o) t' = Added t' × (o.id ≡ f.id) × (o.email ≡ normalize_email u email)
  SignUpPost (err e) t' =
      (t' ≡ t)
      × (((e ≡ invalid_email) × (email_re (normalize_email u email) ≡ false))
          ⊎ ((e ≡ weak_password) × (length password < 8))
          ⊎ ((hash : Text) × (e ≡ email_taken)
              × (exists (taken (new_row u f email hash)) t.users ≡ true)))
  -- Either the INSERT did not run, or reading the new account back failed.
  SignUpPost failed t' = (t' ≡ t) ⊎ Added t'

exists-taken :
    (r : UserRow) (xs : List UserRow)
    → exists (taken r) xs ≡ false
    → exists (λ o. o.id == r.id) xs ≡ false
unfolding exists
exists-taken r [] h = refl
exists-taken r (x ∷ xs) h = ground (arith, exists-taken r xs)

insert_user-none :
    (r : UserRow) (t : Tables) → insert_user r t ≡ none → exists (taken r) t.users ≡ true
unfolding insert_user
insert_user-none r t h = ground arith

insert_user-some :
    (r : UserRow) (t t' : Tables)
    → insert_user r t ≡ some t'
    → (exists (taken r) t.users ≡ false) × (t' ≡ with_row r t)
unfolding insert_user
insert_user-some r t t' h = if_none_inv (exists (taken r) t.users) _ t' h

-- The account that was just inserted is the one that its id finds.
get_user_by_id-Ensures :
    (Q : Result Error User → Tables → Type 0) (r : UserRow) (t : Tables)
    → exists (taken r) t.users ≡ false
    → Q failed (with_row r t)
    → Q (ok (to_user r)) (with_row r t)
    → Ensures Q (with_row r t) (get_user_by_id r.id)
unfolding get_user_by_id
get_user_by_id-Ensures Q r t free x h = Ensures-bind Q (with_row r t) (query _) _ (
    Ensures-query (Then Q _) (with_row r t) _ x (
      Ensures-from_option Q (with_row r t) (first (λ o. o.id == r.id) (t.users ++ r ∷ [])) _ x
        (λ a e. Ensures-pure Q (with_row r t) (to_user a) (
          subst (λ (y : UserRow). Q (ok (to_user y)) (with_row r t))
            (eq_of_some r a (sym found ∙ e)) h))))
  where
    found : first (λ o. o.id == r.id) (t.users ++ r ∷ []) ≡ some r
    found = first-append (λ o. o.id == r.id) t.users r (eq_refl r.id) (exists-taken r t.users free)

module _ (c : Crypto) (u : Unicode) (f : Fresh) (email password : Text) where
  -- SignUp succeeds only where the address has its shape, the password has 8 bytes and neither the
  -- address, with ASCII letters folded, nor the id is taken; then it has added one account, with
  -- the normalized address and the hash of the password. It gives an error of the package only
  -- where one of these conditions fails, and then changes nothing; an error of another kind leaves
  -- the tables as they were or comes from reading the new account back.
  pub sign_up-Ensures :
      (t : Tables) → Ensures (SignUpPost c u f email password t) t (sign_up c u f email password)
  unfolding sign_up
  sign_up-Ensures t =
      Ensures-guard Q t (email_re (normalize_email u email)) invalid_email _
        (λ bad. (refl, inl (refl, bad)))
        (λ good.
          Ensures-guard Q t (not (ltb (length password) 8)) weak_password _
            (λ short. (refl, inr (inl (refl, ground arith))))
            (λ long. Ensures-from_option Q t (c.hash_password password) _ (inl refl) (λ hash hashed.
              Ensures-bind Q t (exec_unique (insert_user (new_row u f email hash)) email_taken) _ (
                Ensures-exec_unique (Then Q _) t (insert_user (new_row u f email hash)) email_taken
                  (inl refl) (λ e. (refl, inr (inr (hash, refl, insert_user-none _ t e))))
                  (λ t' e.
                    let (free, same) = insert_user-some (new_row u f email hash) t t' e in
                    let added : Added c u f email password t (with_row (new_row u f email hash) t) =
                      (hash, good, ground arith, hashed, free, refl) in
                    rw same (
                      get_user_by_id-Ensures Q (new_row u f email hash) t free (inr added)
                        (added, refl, refl)))))))
    where
      Q : Result Error User → Tables → Type 0
      Q = SignUpPost c u f email password t
