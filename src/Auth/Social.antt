-- ===== src/Auth/Social.antt =====
-- internal/auth/service.go: LoginOrCreateViaSocial and createUserForSocialSignIn.
use maubase.Prelude.{
  Text, codes, ◌==◌, Bool, true, false, not, ◌&&◌, Option, none, some, [], ◌∷◌, ◌++◌, first,
}
use maubase.Sql.{Sql, pure, from_option, query, guard, exec_checked, exec_attempt, ◌>>=◌, ◌>>◌}
use maubase.Schema.{Tables, UserRow, SocialIdentityRow}
use maubase.Email.{Unicode, normalize_email}
use maubase.Crypto.{Crypto, Fresh}
use maubase.Auth.{
  Error, social_identity_linked_elsewhere, Session, is_identity, insert_user, insert_identity,
  by_email, create_session,
}

-- What one call draws: for a new account, for the link, for the session.
pub record Draws : Type 0 where
  pub user : Fresh
  pub link : Fresh
  pub session : Fresh

-- The outcome: the session, and whether the account is new.
abbrev pub Outcome : Type 0
Outcome = Session × Bool

-- fmt.Sprintf("%s-%s@users.noreply.%s.invalid", provider, providerUserID, provider)
abbrev pub placeholder : Text → Text → Text
placeholder provider provider_user_id =
    provider
    ++ codes "-"
    ++ provider_user_id
    ++ codes "@users.noreply."
    ++ provider
    ++ codes ".invalid"

abbrev pub or_placeholder : Text → Text → Text → Text
or_placeholder provider provider_user_id [] = placeholder provider provider_user_id
or_placeholder provider provider_user_id (b ∷ email) = b ∷ email

module _ (c : Crypto) (u : Unicode) (provider provider_user_id : Text) where
  -- The insert ran, or a row was in its way: then its address names the account.
  unfoldable pub resolve_race : Text → Text → Bool → Sql Tables Error (Text × Text)
  resolve_race id email true = pure (id, email)
  resolve_race id email false = do
    found ← query (by_email email)
    row ← from_option found
    pure (row.id, email)

  -- (userID, resolvedEmail)
  unfoldable pub create_user_for_social_sign_in : Fresh → Text → Sql Tables Error (Text × Text)
  unfolding insert_user resolve_race
  create_user_for_social_sign_in f given = do
    let email = or_placeholder provider provider_user_id given
    password ← from_option f.token
    hash ← from_option (c.hash_password password)
    inserted ← exec_attempt (
        insert_user (record {
          id = f.id;
          email = email;
          password_hash = hash;
          created_at = f.now;
          updated_at = f.now;
        }))
    resolve_race f.id email inserted

  -- Without a session: the account of the address, or a new one. (userID, email, newAccount)
  abbrev pub Resolved : Type 0
  Resolved = Text × Text × Bool

  unfoldable pub create_resolved : Draws → Text → Sql Tables Error Resolved
  unfolding create_user_for_social_sign_in
  create_resolved d email = do
    (id, resolved) ← create_user_for_social_sign_in d.user email
    pure (id, resolved, true)

  unfoldable pub or_create : Draws → Text → Option UserRow → Sql Tables Error Resolved
  unfolding create_resolved
  or_create d email none = create_resolved d email
  or_create d email (some row) = pure (row.id, email, false)

  unfoldable pub resolve_anonymous : Draws → Text → Sql Tables Error Resolved
  unfolding create_resolved or_create
  resolve_anonymous d [] = create_resolved d []
  resolve_anonymous d (b ∷ email) = do
    found ← query (by_email (b ∷ email))
    or_create d (b ∷ email) found

  unfoldable pub resolve : Draws → Text → Text → Sql Tables Error Resolved
  unfolding resolve_anonymous
  resolve d email [] = resolve_anonymous d email
  resolve d email (b ∷ current) = pure (b ∷ current, email, false)

  unfoldable pub link_identity : Draws → Resolved → Sql Tables Error Outcome
  unfolding insert_identity
  link_identity d (user_id, email, is_new) = do
    exec_checked (
        insert_identity (record {
          id = d.link.id;
          user_id = user_id;
          provider = provider;
          provider_user_id = provider_user_id;
          email = email;
          created_at = d.link.now;
        }))
    session ← create_session c d.session user_id
    pure (session, is_new)

  -- currentUserID != "" && linkedUserID != currentUserID
  abbrev pub is_elsewhere : Text → Text → Bool
  is_elsewhere current linked = not (current == []) && not (linked == current)

  unfoldable pub sign_in_linked : Draws → Text → SocialIdentityRow → Sql Tables Error Outcome
  sign_in_linked d current r = do
    guard (not (is_elsewhere current r.user_id)) social_identity_linked_elsewhere
    session ← create_session c d.session r.user_id
    pure (session, false)

  unfoldable pub sign_in : Draws → Text → Text → Option SocialIdentityRow → Sql Tables Error Outcome
  unfolding resolve link_identity sign_in_linked
  sign_in d email current (some r) = sign_in_linked d current r
  sign_in d email current none = do
    resolved ← resolve d (normalize_email u email) current
    link_identity d resolved

  unfoldable pub login_or_create_via_social : Draws → Text → Text → Sql Tables Error Outcome
  unfolding sign_in
  login_or_create_via_social d email current = do
    found ← query (λ t. first (is_identity provider provider_user_id) t.social_identities)
    sign_in d email current found
