-- ===== src/OwnerAuth/Accounts.antt =====
-- CreateOwner and Bootstrap, on every branch.
use maubase.Prelude.{
  ◌≤◌, ◌<◌, ◌≡◌, refl, sym, ◌∙◌, subst, eq_of_some, Text, ◌==◌, eq_refl, true, false, not, none,
  some, List, [], ◌∷◌, ◌++◌, length, arith, ltb, inl, inr, ◌⊎◌, first, exists, first-append,
  if_none_inv,
}
use maubase.Sql.{Result, ok, err, failed, query, exec_unique}
use maubase.Sql.Ensures.{
  Ensures, Then, Ensures-pure, Ensures-raise, Ensures-query, Ensures-bind, Ensures-or_raise,
  Ensures-from_option, Ensures-guard, Ensures-exec_unique, Ensures-if, Ensures-weaken,
}
use maubase.Schema.{Tables, OwnerRow}
use maubase.Email.{Unicode, normalize_email, email_re}
use maubase.Crypto.{Crypto, Fresh}
use maubase.OwnerAuth.Roles.{Role, owner, is_valid}
use maubase.OwnerAuth.{
  Error, email_taken, weak_password, invalid_email, invalid_role, already_bootstrapped,
  owner_not_found, Owner, to_owner, taken, insert_owner, get_owner, add_owner, create_owner,
  bootstrap,
}

-- The row that an account gets.
abbrev pub new_row : Unicode → Fresh → Text → Text → Role → OwnerRow
new_row u f email hash role = record {
  id = f.id;
  email = normalize_email u email;
  password_hash = hash;
  role = role;
  created_at = f.now;
  updated_at = f.now;
}

abbrev pub with_row : OwnerRow → Tables → Tables
with_row r t = record t { owner_users = t.owner_users ++ r ∷ [] }

module _ (c : Crypto) (u : Unicode) (f : Fresh) (email password : Text) (role : Role)
    (t : Tables) where
  -- The account was added: everything was in order, and nothing else changed.
  abbrev pub Added : Tables → Type 0
  Added t' =
      (hash : Text) × (email_re (normalize_email u email) ≡ true)
      × (8 ≤ length password)
      × (c.hash_password password ≡ some hash)
      × (exists (taken (new_row u f email hash role)) t.owner_users ≡ false)
      × (t' ≡ with_row (new_row u f email hash role) t)

  abbrev pub AddOwnerPost : Result Error Owner → Tables → Type 0
  AddOwnerPost (ok o) t' =
      Added t' × (o.id ≡ f.id) × (o.email ≡ normalize_email u email) × (o.role ≡ role)
  AddOwnerPost (err e) t' =
      (t' ≡ t)
      × (((e ≡ invalid_email) × (email_re (normalize_email u email) ≡ false))
          ⊎ ((e ≡ weak_password) × (length password < 8))
          ⊎ ((hash : Text) × (e ≡ email_taken)
              × (exists (taken (new_row u f email hash role)) t.owner_users ≡ true)))
  -- Either the INSERT did not run, or reading the new account back failed.
  AddOwnerPost failed t' = (t' ≡ t) ⊎ Added t'

exists-taken :
    (r : OwnerRow) (xs : List OwnerRow)
    → exists (taken r) xs ≡ false
    → exists (λ o. o.id == r.id) xs ≡ false
unfolding exists
exists-taken r [] h = refl
exists-taken r (x ∷ xs) h = ground (arith, exists-taken r xs)

insert_owner-none :
    (r : OwnerRow) (t : Tables) → insert_owner r t ≡ none → exists (taken r) t.owner_users ≡ true
unfolding insert_owner
insert_owner-none r t h = ground arith

insert_owner-some :
    (r : OwnerRow) (t t' : Tables)
    → insert_owner r t ≡ some t'
    → (exists (taken r) t.owner_users ≡ false) × (t' ≡ with_row r t)
unfolding insert_owner
insert_owner-some r t t' h = if_none_inv (exists (taken r) t.owner_users) _ t' h

-- The account that was just inserted is the one that its id finds.
get_owner-Ensures :
    (Q : Result Error Owner → Tables → Type 0) (r : OwnerRow) (t : Tables)
    → exists (taken r) t.owner_users ≡ false
    → Q failed (with_row r t)
    → Q (ok (to_owner r)) (with_row r t)
    → Ensures Q (with_row r t) (get_owner r.id)
unfolding get_owner
get_owner-Ensures Q r t free x h = Ensures-bind Q (with_row r t) (query _) _ (
    Ensures-query (Then Q _) (with_row r t) _ x (
      Ensures-or_raise Q (with_row r t) (first (λ o. o.id == r.id) (t.owner_users ++ r ∷ []))
        owner_not_found _ (λ e. absurd (cc (e, found)))
        (λ a e. Ensures-pure Q (with_row r t) (to_owner a) (
          subst (λ (y : OwnerRow). Q (ok (to_owner y)) (with_row r t))
            (eq_of_some r a (sym found ∙ e)) h))))
  where
    found : first (λ o. o.id == r.id) (t.owner_users ++ r ∷ []) ≡ some r
    found =
        first-append (λ o. o.id == r.id) t.owner_users r (eq_refl r.id)
          (exists-taken r t.owner_users free)

module _ (c : Crypto) (u : Unicode) (f : Fresh) (email password : Text) where
  add_owner-Ensures :
      (role : Role) (t : Tables)
      → Ensures (AddOwnerPost c u f email password role t) t (add_owner c u f email password role)
  unfolding add_owner
  add_owner-Ensures role t =
      Ensures-guard Q t (email_re (normalize_email u email)) invalid_email _
        (λ bad. (refl, inl (refl, bad)))
        (λ good.
          Ensures-guard Q t (not (ltb (length password) 8)) weak_password _
            (λ short. (refl, inr (inl (refl, ground arith))))
            (λ long. Ensures-from_option Q t (c.hash_password password) _ (inl refl) (λ hash hashed.
              Ensures-bind Q t
                (exec_unique (insert_owner (new_row u f email hash role)) email_taken) _
                (Ensures-exec_unique (Then Q _) t (insert_owner (new_row u f email hash role))
                  email_taken (inl refl)
                  (λ e. (refl, inr (inr (hash, refl, insert_owner-none _ t e))))
                  (λ t' e.
                    let (free, same) = insert_owner-some (new_row u f email hash role) t t' e in
                    let added : Added c u f email password role t
                        (with_row (new_row u f email hash role) t) =
                      (hash, good, ground arith, hashed, free, refl) in
                    rw same (
                      get_owner-Ensures Q (new_row u f email hash role) t free (inr added)
                        (added, refl, refl, refl)))))))
    where
      Q : Result Error Owner → Tables → Type 0
      Q = AddOwnerPost c u f email password role t

  -- CreateOwner refuses an unknown role before anything else, and is AddOwnerPost for a known one.
  abbrev CreateOwnerPost : Role → Tables → Result Error Owner → Tables → Type 0
  CreateOwnerPost role t r t' =
      ((is_valid role ≡ false) × (r ≡ err invalid_role) × (t' ≡ t))
      ⊎ ((is_valid role ≡ true) × AddOwnerPost c u f email password role t r t')

  -- CreateOwner refuses an unknown role before all else. For a known role it succeeds only where
  -- the address has its shape, the password has 8 bytes and neither the address, with ASCII
  -- letters folded, nor the id is taken; then it has added one account, with the normalized
  -- address and the hash of the password. It gives an error of the package only where one of these
  -- conditions fails, and then changes nothing; an error of another kind leaves the tables as they
  -- were or comes from reading the new account back.
  create_owner-Ensures :
      (role : Role) (t : Tables)
      → Ensures (CreateOwnerPost role t) t (create_owner c u f email password role)
  unfolding create_owner
  create_owner-Ensures role t =
      Ensures-if (CreateOwnerPost role t) t (is_valid role) _ _
        (λ known.
          Ensures-weaken (AddOwnerPost c u f email password role t) (CreateOwnerPost role t) t _
            (λ r t' h. inr (known, h)) (add_owner-Ensures role t))
        (λ unknown.
          Ensures-raise (CreateOwnerPost role t) t invalid_role (inl (unknown, refl, refl)))

  -- Bootstrap: an account of the role owner, on an empty table only.
  abbrev BootstrapPost : Tables → Result Error Owner → Tables → Type 0
  BootstrapPost t r t' =
      ((r ≡ failed) × (t' ≡ t))
      ⊎ ((0 < length t.owner_users) × (r ≡ err already_bootstrapped) × (t' ≡ t))
      ⊎ ((t.owner_users ≡ []) × AddOwnerPost c u f email password owner t r t')

  -- Bootstrap adds an account, of the role owner and on the conditions of createOwner, to an empty
  -- table only. Where any account is there it refuses, and then changes nothing; it also changes
  -- nothing where counting the accounts fails.
  bootstrap-Ensures : (t : Tables) → Ensures (BootstrapPost t) t (bootstrap c u f email password)
  unfolding bootstrap
  bootstrap-Ensures t = Ensures-bind Q t (query _) _ (
      Ensures-query (Then Q _) t _ (inl (refl, refl)) (
        Ensures-guard Q t (not (ltb 0 (length t.owner_users))) already_bootstrapped _
          (λ some_there. inr (inl (ground arith, refl, refl)))
          (λ none_there.
            Ensures-weaken (AddOwnerPost c u f email password owner t) Q t _
              (λ r t' h. inr (inr (empty_of t.owner_users none_there, h)))
              (add_owner-Ensures owner t))))
    where
      Q : Result Error Owner → Tables → Type 0
      Q = BootstrapPost t

      empty_of : (xs : List OwnerRow) → not (ltb 0 (length xs)) ≡ true → xs ≡ []
      empty_of [] h = refl
      empty_of (x ∷ xs) h = absurd (ground arith)
