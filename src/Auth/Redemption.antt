-- ===== src/Auth/Redemption.antt =====
-- After ResetPassword: the account's tokens and sessions are dead, and the new password signs in.
use maubase.Prelude.{
  ℕ, ◌+◌, ◌≤◌, ◌≡◌, ◌≢◌, refl, sym, ap, ◌∙◌, subst, eq_of_some, Text, ◌==◌, eq_refl, eq→path,
  path→eq, Bool, true, false, not, ◌&&◌, ◌||◌, some, List, [], ◌∷◌, ◌++◌, arith, length, ltb,
  Bool-cases, Option-cases, inl, inr, first, delete, update, first-update, first-append, first-some,
  All-first, All-delete_fails,
}
use maubase.Sql.{ok, err, Db, ◌>>=◌, transaction}
use maubase.Schema.{Tables, UserRow, SessionRow, ResetTokenRow}
use maubase.Email.{Unicode, normalize_email}
use maubase.Crypto.{Crypto, Fresh}
use maubase.Auth.{
  Error, User, reset_token_ttl, by_email, is_used, user_of, joined, validate_session, login,
  create_reset_token, set_password, update_password, use_at, use_tokens, revoke_sessions, redeem,
  reset_password,
}
use maubase.Auth.Sessions.{LoginPost, login_lem, ValidatePost, validate_session_lem}
use maubase.Auth.Recovery.{
  token_of, redeemed, ResetPost, reset_password-Ensures, CreatePost, token_row,
  create_reset_token-Ensures,
}

-- A token's row after a redemption for its account is used.
token_of-redeemed :
    (c : Crypto) (now : ℕ) (hash id token : Text) (t : Tables) (r r' : ResetTokenRow)
    → token_of c token t ≡ some r
    → r.user_id ≡ id
    → token_of c token (redeemed now hash id t) ≡ some r'
    → is_used r' ≡ true
unfolding revoke_sessions use_tokens update_password
token_of-redeemed c now hash id token t r r' e same e' =
    rw
      (← eq_of_some _ r' (
        sym (
          first-update (λ s. s.user_id == id && not (is_used s))
            (λ s. s.token_hash == c.hash_token token) (use_at now) t.reset_tokens r (λ b. refl) e)
        ∙ e'))
      (elim (Bool-cases (is_used r)) [
        | inl used ↦ rw (used, path→eq r.user_id id same) used
        | inr unused ↦ rw (unused, path→eq r.user_id id same)
      ])

module _ (c : Crypto) (now : ℕ) (token password : Text) (db : Db Tables) (id : Text) where
  -- After a reset for an account, none of the tokens that the account had, the redeemed one among
  -- them, resets a password again, at no time and with no password.
  pub reset_password-reset_password :
      (reset_password c now token password db).0 ≡ ok id
      → (token' : Text) (r : ResetTokenRow) → token_of c token' db.tables ≡ some r
      → r.user_id ≡ id
      → (now' : ℕ) (password' id' : Text) (faults : List Bool)
      → (reset_password c now' token' password' (record {
        tables = (reset_password c now token password db).1.tables;
        faults = faults;
      })).0
        ≢ ok id'
  reset_password-reset_password done token' r e same now' password' id' faults again =
      let (row, hash, redeemable, long, hashed, mine, after) =
        subst
          (λ x.
            ResetPost c now token password db.tables x
              (reset_password c now token password db).1.tables)
          done ((reset_password-Ensures c now token password db.tables).at db.faults) in
      let (r', hash', (found, fresh, live), long', hashed', mine', after') =
        subst
          (λ x.
            ResetPost c now' token' password' (reset_password c now token password db).1.tables x
              (reset_password c now' token' password' (record {
                tables = (reset_password c now token password db).1.tables;
                faults = faults;
              })).1.tables)
          again
          ((reset_password-Ensures c now' token' password'
              (reset_password c now token password db).1.tables).at
            faults) in
      let used =
        token_of-redeemed c now hash row.user_id token' db.tables r r' e (same ∙ mine)
          (rw after at found) in
      cc (fresh, used)

-- A session that is left after the sessions of `id` are deleted belongs to another account.
joined-redeemed :
    (now : ℕ) (hash id key : Text) (t : Tables) (x : UserRow) (expires_at : ℕ)
    → joined key (redeemed now hash id t) ≡ some (x, expires_at)
    → x.id ≢ id
unfolding joined revoke_sessions use_tokens update_password
joined-redeemed now hash id key t x expires_at e same =
    elim (Option-cases (
      first (λ (s : SessionRow). s.token_hash == key) (delete (λ s. s.user_id == id) t.sessions))) [
        | inl g ↦ cc (rw (g, joined) at e)
        | inr (s, g) ↦
            let other =
              All-first (λ (s : SessionRow). (s.user_id == id) ≡ false) (λ s. s.token_hash == key) _
                s (All-delete_fails (λ s. s.user_id == id) t.sessions) g in
            owner s other (rw (g, joined) at e)
      ]
  where
    users : List UserRow
    users = update (λ x. x.id == id) (set_password now hash) t.users

    owner :
        (s : SessionRow) → (s.user_id == id) ≡ false → user_of users s ≡ some (x, expires_at) → ⊥
    owner s other h = elim (Option-cases (first (λ x. x.id == s.user_id) users)) [
      | inl g ↦ cc (rw (g, user_of) at h)
      | inr (y, g) ↦
          let twin : y.id ≡ x.id =
            ap (λ (p : UserRow × ℕ). p.0.id)
              (eq_of_some (y, s.expires_at) (x, expires_at) (rw (g, user_of) at h)) in
          let mine : (y.id == s.user_id) ≡ true = first-some (λ x. x.id == s.user_id) users y g in
          cc (other, path→eq s.user_id id (sym (eq→path y.id s.user_id mine) ∙ twin ∙ same))
    ]

module _ (c : Crypto) (now : ℕ) (token password : Text) (db : Db Tables) (id : Text) where
  -- After a reset for an account, no session token stands for that account, at any time.
  pub validate_session-reset_password :
      (reset_password c now token password db).0 ≡ ok id
      → (now' : ℕ) (token' : Text) (x : User) (faults : List Bool)
      → (validate_session c now' token' (record {
        tables = (reset_password c now token password db).1.tables;
        faults = faults;
      })).0
        ≡ ok x
      → x.id ≢ id
  validate_session-reset_password done now' token' x faults valid same =
      let (row, hash, redeemable, long, hashed, mine, after) =
        subst
          (λ y.
            ResetPost c now token password db.tables y
              (reset_password c now token password db).1.tables)
          done ((reset_password-Ensures c now token password db.tables).at db.faults) in
      let (kept, (r, expires_at, found, live, is_x)) =
        subst
          (λ y.
            ValidatePost c now' token' (reset_password c now token password db).1.tables y
              (validate_session c now' token' (record {
                tables = (reset_password c now token password db).1.tables;
                faults = faults;
              })).1.tables)
          valid
          ((validate_session_lem c now' token' (reset_password c now token password db).1.tables).at
            faults) in
      joined-redeemed now hash row.user_id (c.hash_token token') db.tables r expires_at
        (rw after at found) (sym (ap (λ (y : User). y.id) is_x) ∙ same ∙ mine)

module _ (c : Crypto) (now : ℕ) (token password hash : Text) (t : Tables) where
  reset_password_runs :
      (r : ResetTokenRow)
      → 8 ≤ length password
      → c.hash_password password ≡ some hash
      → token_of c token t ≡ some r
      → is_used r ≡ false
      → now ≤ r.expires_at
      → reset_password c now token password (record { tables = t; faults = [] })
        ≡ (ok r.user_id, record { tables = redeemed now hash r.user_id t; faults = [] })
  unfolding reset_password redeem transaction ◌>>=◌
  reset_password_runs r long hashed found fresh live =
      let l : not (ltb (length password) 8) ≡ true = ground arith in
      let g : not (is_used r || ltb r.expires_at now) ≡ true = ground (arith, fresh) in
      rw (l, hashed, found, g)

by_email-redeemed :
    (now : ℕ) (hash key : Text) (t : Tables) (x : UserRow)
    → by_email key t ≡ some x
    → by_email key (redeemed now hash x.id t) ≡ some (set_password now hash x)
unfolding revoke_sessions use_tokens update_password
by_email-redeemed now hash key t x e =
    first-update (λ y. y.id == x.id) (λ y. y.email == key) (set_password now hash) t.users x
      (λ b. refl) e
    ∙ rw (eq_refl x.id)

module _ (c : Crypto) (u : Unicode) (f : Fresh) (email : Text) (db : Db Tables)
    (token id : Text) where
  -- A token that CreateResetToken issued for an address resets the password of the address's
  -- account within the hour, where no statement fails, for a new password of at least 8 bytes that
  -- bcrypt hashes; and then signing in with the new password is not refused, provided that bcrypt
  -- verifies the hash that it made.
  pub login-reset_password :
      (create_reset_token c u f email db).0 ≡ ok (some (token, id))
      → (now : ℕ) (password hash : Text) → now ≤ f.now + reset_token_ttl
      → 8 ≤ length password
      → c.hash_password password ≡ some hash
      → c.verify_password hash password ≡ true
      → (t' : Tables) × (reset_password c now token password
            (record { tables = (create_reset_token c u f email db).1.tables; faults = [] })
          ≡ (ok id, record { tables = t'; faults = [] }))
        × ((f' : Fresh) (faults : List Bool) (e : Error)
            → (login c u f' email password (record { tables = t'; faults = faults })).0 ≢ err e)
  login-reset_password done now password hash live long hashed verified =
      let (x, found, mine, drawn, free, after) =
        subst (λ y. CreatePost c u f email db.tables y (create_reset_token c u f email db).1.tables)
          done ((create_reset_token-Ensures c u f email db.tables).at db.faults) in
      let row = token_row c u f email db.tables id token in
      let t : Tables = record db.tables { reset_tokens = db.tables.reset_tokens ++ row ∷ [] } in
      let there : token_of c token t ≡ some row =
        first-append (λ s. s.token_hash == row.token_hash) db.tables.reset_tokens row
          (eq_refl row.token_hash) free in
      let account : by_email (normalize_email u email) (redeemed now hash id t)
          ≡ some (set_password now hash x) =
        ap (λ i. by_email (normalize_email u email) (redeemed now hash i t)) mine
        ∙ by_email-redeemed now hash (normalize_email u email) t x found in
      (
        redeemed now hash id t,
        rw after (reset_password_runs c now token password hash t row long hashed there refl live),
        λ f' faults e wrong.
            let (same, invalid, why) =
              subst
                (λ y.
                  LoginPost c u f' email password (redeemed now hash id t) y
                    (login c u f' email password
                      (record { tables = redeemed now hash id t; faults = faults })).1.tables)
                wrong ((login_lem c u f' email password (redeemed now hash id t)).at faults) in
            elim why [
              | inl none_ ↦ cc (none_, account)
              | inr (r, e', refused) ↦
                  let twin =
                    ap (λ (y : UserRow). y.password_hash)
                      (eq_of_some r (set_password now hash x) (sym e' ∙ account)) in
                  cc (refused, verified, ap (λ h. c.verify_password h password) twin)
            ],
      )
