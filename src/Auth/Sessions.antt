-- ===== src/Auth/Sessions.antt =====
-- Login and ValidateSession: which sessions are issued, and whom a token stands for.
use maubase.Prelude.{
  ℕ, ◌+◌, ◌≤◌, ◌<◌, ◌≡◌, refl, Text, ◌==◌, eq_refl, Bool, true, false, ◌||◌, Option, none, some,
  List, [], ◌∷◌, ◌++◌, arith, leb, le→leb, if◌then◌else◌, inl, inr, ◌⊎◌, first, exists,
  first-append, Unique, first-key, subst,
}
use maubase.Sql.{Result, ok, err, failed, Db, query, exec_checked, ◌>>=◌}
use maubase.Sql.Ensures.{
  Ensures, Then, Ensures-pure, Ensures-query, Ensures-bind, Ensures-or_raise, Ensures-from_option,
  Ensures-guard, Ensures-exec_checked,
}
use maubase.Schema.{Tables, UserRow, SessionRow}
use maubase.Email.{Unicode, normalize_email}
use maubase.Crypto.{Crypto, Fresh}
use maubase.Auth.{
  Error, invalid_credentials, session_not_found, User, Session, session_ttl, to_user, by_email,
  insert_session, user_of, joined, create_session, validate_session, login,
}

-- The row and the value of a session for account `id`.
abbrev pub session_row : Crypto → Fresh → Text → Text → SessionRow
session_row c f id token = record {
  id = f.id;
  user_id = id;
  token_hash = c.hash_token token;
  expires_at = f.now + session_ttl;
}

abbrev pub session_of : Fresh → Text → Text → Session
session_of f id token = record {
  id = f.id;
  user_id = id;
  token = token;
  expires_at = f.now + session_ttl;
}

abbrev clash : SessionRow → SessionRow → Bool
clash r s = s.id == r.id || s.token_hash == r.token_hash

module _ (c : Crypto) (u : Unicode) (f : Fresh) (email password : Text) (t : Tables) where
  -- The account that the address finds, if any.
  abbrev pub account : Option UserRow
  account = by_email (normalize_email u email) t

  abbrev pub LoginPost : Result Error Session → Tables → Type 0
  LoginPost (ok s) t' =
      (r : UserRow) × (token : Text) × (account ≡ some r)
      × (c.verify_password r.password_hash password ≡ true)
      × (f.token ≡ some token)
      × (s ≡ session_of f r.id token)
      × (exists (λ x. x.token_hash == c.hash_token token) t.sessions ≡ false)
      × (t' ≡ record t { sessions = t.sessions ++ session_row c f r.id token ∷ [] })
  LoginPost (err e) t' =
      (t' ≡ t)
      × (e ≡ invalid_credentials)
      × ((account ≡ none)
          ⊎ ((r : UserRow) × (account ≡ some r)
              × (c.verify_password r.password_hash password ≡ false)))
  LoginPost failed t' = t' ≡ t

exists-clash :
    (r : SessionRow) (xs : List SessionRow)
    → exists (clash r) xs ≡ false
    → exists (λ s. s.token_hash == r.token_hash) xs ≡ false
unfolding exists
exists-clash r [] h = refl
exists-clash r (x ∷ xs) h = ground (arith, exists-clash r xs)

if_else_none_inv :
    {A : Type 0} (b b' : Bool) (x y : A)
    → (if b then none else if b' then some x else none) ≡ some y
    → (b ≡ false) × (y ≡ x)
if_else_none_inv b b' x y h = ground arith

insert_session-some :
    (r : SessionRow) (t t' : Tables)
    → insert_session r t ≡ some t'
    → (exists (λ s. s.token_hash == r.token_hash) t.sessions ≡ false)
      × (t' ≡ record t { sessions = t.sessions ++ r ∷ [] })
unfolding insert_session
insert_session-some r t t' h =
    let (free, same) = if_else_none_inv (exists (clash r) t.sessions) _ _ t' h in
    (exists-clash r t.sessions free, same)

module _ (c : Crypto) (u : Unicode) (f : Fresh) (email password : Text) (t : Tables) where
  -- Login issues a session exactly for the account that the normalized address names, with the
  -- password that its hash verifies; an unknown address and a wrong password give one error; and
  -- only a session that was issued changes the tables, by its one row.
  pub login_lem : Ensures (LoginPost c u f email password t) t (login c u f email password)
  unfolding login create_session
  login_lem = Ensures-bind Q t (query _) _ (
      Ensures-query (Then Q _) t _ refl (
        Ensures-or_raise Q t (account c u f email password t) invalid_credentials _
          (λ e. (refl, refl, inl e))
          (λ r e.
            Ensures-guard Q t (c.verify_password r.password_hash password) invalid_credentials _
              (λ wrong. (refl, refl, inr (r, e, wrong)))
              (λ right. Ensures-from_option Q t f.token _ refl (λ token drawn.
                Ensures-bind Q t (exec_checked (insert_session (session_row c f r.id token))) _ (
                  Ensures-exec_checked (Then Q _) t (insert_session (session_row c f r.id token))
                    refl
                    (λ t' e'.
                      let (free, same) = insert_session-some (session_row c f r.id token) t t' e' in
                      Ensures-pure Q t' (session_of f r.id token)
                        (r, token, e, right, drawn, refl, free, same))))))))
    where
      Q : Result Error Session → Tables → Type 0
      Q = LoginPost c u f email password t

module _ (c : Crypto) (now : ℕ) (token : Text) (t : Tables) where
  abbrev pub ValidatePost : Result Error User → Tables → Type 0
  ValidatePost (ok o) t' =
      (t' ≡ t)
      × ((r : UserRow) × (expires_at : ℕ) × (joined (c.hash_token token) t ≡ some (r, expires_at))
          × (now ≤ expires_at)
          × (o ≡ to_user r))
  ValidatePost (err e) t' =
      (t' ≡ t)
      × (e ≡ session_not_found)
      × ((joined (c.hash_token token) t ≡ none)
          ⊎ ((r : UserRow) × (expires_at : ℕ) × (joined (c.hash_token token) t
                ≡ some (r, expires_at))
              × (expires_at < now)))
  ValidatePost failed t' = t' ≡ t

  -- ValidateSession answers the account of the token's session while the session has not expired,
  -- and one error for a token without a session and for an expired one. It changes nothing.
  pub validate_session_lem : Ensures ValidatePost t (validate_session c now token)
  unfolding validate_session
  validate_session_lem = Ensures-bind ValidatePost t (query _) _ (
      Ensures-query (Then ValidatePost _) t _ refl (
        Ensures-or_raise ValidatePost t (joined (c.hash_token token) t) session_not_found _
          (λ e. (refl, refl, inl e))
          (λ (r, expires_at) e.
            Ensures-guard ValidatePost t (leb now expires_at) session_not_found _
              (λ late. (refl, refl, inr (r, expires_at, e, ground arith)))
              (λ live.
                Ensures-pure ValidatePost t (to_user r)
                  (refl, (r, expires_at, e, ground arith, refl))))))

  validate_session_runs :
      (r : UserRow) (expires_at : ℕ)
      → joined (c.hash_token token) t ≡ some (r, expires_at)
      → now ≤ expires_at
      → (validate_session c now token (record { tables = t; faults = [] })).0 ≡ ok (to_user r)
  unfolding validate_session ◌>>=◌
  validate_session_runs r expires_at e live = rw (e, le→leb now expires_at live)

joined-append :
    (s : SessionRow) (r : UserRow) (t : Tables)
    → exists (λ x. x.token_hash == s.token_hash) t.sessions ≡ false
    → first (λ o. o.id == s.user_id) t.users ≡ some r
    → joined s.token_hash (record t { sessions = t.sessions ++ s ∷ [] }) ≡ some (r, s.expires_at)
unfolding joined
joined-append s r t free found =
    rw
      (
        first-append (λ x. x.token_hash == s.token_hash) t.sessions s (eq_refl s.token_hash) free,
        joined,
      )
      (rw (found, user_of))

-- Where account ids are distinct, the token of a session that Login issued stands for the account
-- that the address named, until the session expires, in a check of which no statement fails.
login-validate_session :
    (c : Crypto) (u : Unicode) (f : Fresh) (email password : Text) (db : Db Tables) (s : Session)
    (now : ℕ)
    → Unique (λ o. o.id) db.tables.users
    → (login c u f email password db).0 ≡ ok s
    → now ≤ s.expires_at
    → (r : UserRow) × (first (λ o. o.email == normalize_email u email) db.tables.users ≡ some r)
      × ((validate_session c now s.token
            (record { tables = (login c u f email password db).1.tables; faults = [] })).0
          ≡ ok (to_user r))
login-validate_session c u f email password db s now distinct done live =
    go ((login_lem c u f email password db.tables).at db.faults)
  where
    go :
        LoginPost c u f email password db.tables
          (login c u f email password db).0
          (login c u f email password db).1.tables
        → (r : UserRow) × (account c u f email password db.tables ≡ some r)
          × ((validate_session c now s.token
                (record { tables = (login c u f email password db).1.tables; faults = [] })).0
              ≡ ok (to_user r))
    go post =
        let (r, token, found, right, drawn, same, free, after) =
          subst
            (λ (x : Result Error Session).
              LoginPost c u f email password db.tables x (login c u f email password db).1.tables)
            done post in
        (
          r,
          found,
          rw (same, after)
              (validate_session_runs c now token _ r (f.now + session_ttl)
                (joined-append (session_row c f r.id token) r db.tables free
                  (first-key (λ o. o.id) _ db.tables.users r distinct found))
                (rw same at live)),
        )
