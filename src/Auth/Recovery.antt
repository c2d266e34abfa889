-- ===== src/Auth/Recovery.antt =====
-- CreateResetToken and ResetPassword, on every branch, and what a redemption ends.
use maubase.Prelude.{
  ℕ, ◌+◌, ◌≤◌, ◌<◌, ◌≡◌, refl, sym, ◌∙◌, eq_of_some, Text, ◌==◌, Bool, true, false, not, ◌||◌,
  Option, none, some, List, [], ◌∷◌, ◌++◌, arith, length, ltb, if◌then◌else◌, inl, inr, ◌⊎◌, first,
  exists,
}
use maubase.Sql.{Result, ok, err, failed, query, exec, exec_checked}
use maubase.Sql.Ensures.{
  Ensures, Then, Closed, Ensures-pure, Ensures-query, Ensures-bind, Ensures-or_raise,
  Ensures-from_option, Ensures-guard, Ensures-exec, Ensures-exec_checked, Ensures-transaction,
}
use maubase.Schema.{Tables, UserRow, ResetTokenRow}
use maubase.Email.{Unicode, normalize_email}
use maubase.Crypto.{Crypto, Fresh}
use maubase.Auth.{
  Error, weak_password, reset_token_invalid, reset_token_ttl, has_user, by_email,
  insert_reset_token, is_used, issue_reset_token, create_reset_token, update_password, use_tokens,
  revoke_sessions, redeem, reset_password,
}

-- The row of a reset token.
abbrev pub token_of : Crypto → Text → Tables → Option ResetTokenRow
token_of c token t = first (λ s. s.token_hash == c.hash_token token) t.reset_tokens

-- The tables after a redemption for the account `id`.
abbrev pub redeemed : ℕ → Text → Text → Tables → Tables
redeemed now hash id t = revoke_sessions id (use_tokens now id (update_password now hash id t))

module _ (c : Crypto) (now : ℕ) (token password : Text) (t : Tables) where
  -- The token may be redeemed, for the account `id`.
  abbrev pub Redeemable : ResetTokenRow → Type 0
  Redeemable r = (token_of c token t ≡ some r) × (is_used r ≡ false) × (now ≤ r.expires_at)

  abbrev pub ResetPost : Result Error Text → Tables → Type 0
  ResetPost (ok id) t' =
      (r : ResetTokenRow) × (hash : Text) × Redeemable r
      × (8 ≤ length password)
      × (c.hash_password password ≡ some hash)
      × (id ≡ r.user_id)
      × (t' ≡ redeemed now hash r.user_id t)
  ResetPost (err e) t' =
      (t' ≡ t)
      × (((e ≡ weak_password) × (length password < 8))
          ⊎ ((e ≡ reset_token_invalid)
              × (8 ≤ length password)
              × ((r : ResetTokenRow) → ¬ Redeemable r)))
  ResetPost failed t' = t' ≡ t

unusable :
    (used : Bool) (expires_at now : ℕ)
    → not (used || ltb expires_at now) ≡ false
    → (used ≡ false) × (now ≤ expires_at)
    → ⊥
unusable true expires_at now h k = cc (k.0)
unusable false expires_at now h k = ground (arith, h, k.1)

usable :
    (used : Bool) (expires_at now : ℕ)
    → not (used || ltb expires_at now) ≡ true
    → (used ≡ false) × (now ≤ expires_at)
usable true expires_at now h = absurd (cc)
usable false expires_at now h = (refl, ground (arith, h))

module _ (c : Crypto) (now : ℕ) (token password : Text) (t : Tables) where
  redeem-Ensures :
      (hash : Text)
      → 8 ≤ length password
      → c.hash_password password ≡ some hash
      → Ensures (Closed (ResetPost c now token password t) t) t (redeem c now hash token)
  unfolding redeem
  redeem-Ensures hash long hashed = Ensures-bind Q t (query _) _ (
      Ensures-query (Then Q _) t _ refl (
        Ensures-or_raise Q t (token_of c token t) reset_token_invalid _
          (λ e. (refl, inr (refl, long, λ r k. cc (e, k.0))))
          (λ r e.
            Ensures-guard Q t (not (is_used r || ltb r.expires_at now)) reset_token_invalid _
              (λ bad. (
                refl,
                inr (
                  refl,
                  long,
                  λ r' k.
                      let same : r ≡ r' = eq_of_some r r' (sym e ∙ k.0) in
                      unusable (is_used r) r.expires_at now bad (rw same k.1, rw same k.2),
                ),
              ))
              (λ good. Ensures-bind Q t (exec _) _ (
                Ensures-exec (Then Q _) t (update_password now hash r.user_id) refl (
                  Ensures-bind Q _ (exec _) _ (
                    Ensures-exec (Then Q _) _ (use_tokens now r.user_id) refl (
                      Ensures-bind Q _ (exec _) _ (
                        Ensures-exec (Then Q _) _ (revoke_sessions r.user_id) refl (
                          let (fresh, live) = usable (is_used r) r.expires_at now good in
                          Ensures-pure Q _ r.user_id
                            (refl, (r, hash, (e, fresh, live), long, hashed, refl, refl))))))))))))
    where
      Q : Result Error Text → Tables → Type 0
      Q = Closed (ResetPost c now token password t) t

  -- ResetPassword answers an account only where the password has 8 bytes and the token has a row
  -- that is unused and not expired; then that account has the new hash, each of its tokens that
  -- was unused is used, its sessions are deleted, and nothing else changes. It gives an error of
  -- the package only where one of these conditions fails. Every outcome but success leaves the
  -- tables as they were, also where a statement fails in between.
  pub reset_password-Ensures :
      Ensures (ResetPost c now token password t) t (reset_password c now token password)
  unfolding reset_password
  reset_password-Ensures =
      Ensures-guard Q t (not (ltb (length password) 8)) weak_password _
        (λ short. (refl, inl (refl, ground arith)))
        (λ long. Ensures-from_option Q t (c.hash_password password) _ refl (λ hash hashed.
          Ensures-transaction Q t (redeem c now hash token) refl
            (redeem-Ensures hash (ground arith) hashed)))
    where
      Q : Result Error Text → Tables → Type 0
      Q = ResetPost c now token password t

module _ (c : Crypto) (u : Unicode) (f : Fresh) (email : Text) (t : Tables) where
  abbrev pub token_row : Text → Text → ResetTokenRow
  token_row id token = record {
    id = f.id;
    user_id = id;
    token_hash = c.hash_token token;
    expires_at = f.now + reset_token_ttl;
    used_at = none;
  }

  abbrev pub CreatePost : Result Error (Option (Text × Text)) → Tables → Type 0
  CreatePost (ok none) t' = (by_email (normalize_email u email) t ≡ none) × (t' ≡ t)
  CreatePost (ok (some (token, id))) t' =
      (x : UserRow) × (by_email (normalize_email u email) t ≡ some x)
      × (id ≡ x.id)
      × (f.token ≡ some token)
      × (exists (λ s. s.token_hash == c.hash_token token) t.reset_tokens ≡ false)
      × (t' ≡ record t { reset_tokens = t.reset_tokens ++ token_row id token ∷ [] })
  CreatePost (err e) t' = ⊥
  CreatePost failed t' = t' ≡ t

exists-clash :
    (r : ResetTokenRow) (xs : List ResetTokenRow)
    → exists (λ s. s.id == r.id || s.token_hash == r.token_hash) xs ≡ false
    → exists (λ s. s.token_hash == r.token_hash) xs ≡ false
unfolding exists
exists-clash r [] h = refl
exists-clash r (x ∷ xs) h = ground (arith, exists-clash r xs)

insert_inv :
    {A : Type 0} (clash there : Bool) (x y : A)
    → (if clash then none else if there then some x else none) ≡ some y
    → (clash ≡ false) × (y ≡ x)
insert_inv clash there x y h = ground arith

insert_reset_token-some :
    (r : ResetTokenRow) (t t' : Tables)
    → insert_reset_token r t ≡ some t'
    → (exists (λ s. s.token_hash == r.token_hash) t.reset_tokens ≡ false)
      × (t' ≡ record t { reset_tokens = t.reset_tokens ++ r ∷ [] })
unfolding insert_reset_token
insert_reset_token-some r t t' h =
    let (free, same) = insert_inv _ (has_user r.user_id t) _ t' h in
    (exists-clash r t.reset_tokens free, same)

module _ (c : Crypto) (u : Unicode) (f : Fresh) (email : Text) (t : Tables) where
  issue-Ensures :
      (o : Option UserRow)
      → by_email (normalize_email u email) t ≡ o
      → Ensures (CreatePost c u f email t) t (issue_reset_token c u f o)
  unfolding issue_reset_token
  issue-Ensures none e = Ensures-pure (CreatePost c u f email t) t none (e, refl)
  issue-Ensures (some x) e = Ensures-from_option Q t f.token _ refl (λ token drawn.
      Ensures-bind Q t (exec_checked (insert_reset_token (token_row c u f email t x.id token))) _ (
        Ensures-exec_checked (Then Q _) t (insert_reset_token (token_row c u f email t x.id token))
          refl
          (λ t' e'.
            let (free, same) =
              insert_reset_token-some (token_row c u f email t x.id token) t t' e' in
            Ensures-pure Q t' (some (token, x.id)) (x, e, refl, drawn, free, same))))
    where
      Q : Result Error (Option (Text × Text)) → Tables → Type 0
      Q = CreatePost c u f email t

  -- CreateResetToken gives no error that tells an unknown address apart. It answers a token only
  -- for an address that names an account, and then stores the token's hash for that account and
  -- one hour; it answers that there is none only for an address that names no account; and unless
  -- it answers a token it changes nothing.
  pub create_reset_token-Ensures :
      Ensures (CreatePost c u f email t) t (create_reset_token c u f email)
  unfolding create_reset_token
  create_reset_token-Ensures =
      Ensures-bind Q t (query (by_email (normalize_email u email))) _ (
        Ensures-query (Then Q _) t (by_email (normalize_email u email)) refl (issue-Ensures _ refl))
    where
      Q : Result Error (Option (Text × Text)) → Tables → Type 0
      Q = CreatePost c u f email t
