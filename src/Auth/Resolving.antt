-- ===== src/Auth/Resolving.antt =====
-- LoginOrCreateViaSocial for an identity that belongs to no one, and the whole of it.
use maubase.Prelude.{◌≡◌, refl, Text, true, false, Option, none, some, [], ◌∷◌, exists, if_none_inv}
use maubase.Sql.{Result, ok, err, failed, pure, query, exec_attempt}
use maubase.Sql.Ensures.{
  Ensures, Then, Ensures-pure, Ensures-query, Ensures-bind, Ensures-from_option,
  Ensures-exec_attempt,
}
use maubase.Schema.{Tables, UserRow, SocialIdentityRow}
use maubase.Email.{Unicode, normalize_email}
use maubase.Crypto.{Crypto}
use maubase.Auth.{Error, taken, insert_user, by_email}
use maubase.Auth.Social.{
  Draws, Outcome, or_placeholder, resolve_race, create_user_for_social_sign_in, Resolved,
  create_resolved, or_create, resolve_anonymous, resolve, link_identity, sign_in,
  login_or_create_via_social,
}
use maubase.Auth.Linking.{
  identity_of, SocialPost, ResolvedPost, sign_in_linked-Ensures, link_identity-Ensures,
}

insert_user-some :
    (r : UserRow) (t t' : Tables)
    → insert_user r t ≡ some t'
    → (t'.sessions ≡ t.sessions) × (t'.social_identities ≡ t.social_identities)
unfolding insert_user
insert_user-some r t t' h =
    let (free, same) = if_none_inv (exists (taken r) t.users) _ t' h in rw same (refl, refl)

module _ (c : Crypto) (u : Unicode) (provider provider_user_id : Text) (d : Draws) (email : Text)
    (t : Tables) where
  Post : Result Error (Resolved c u provider provider_user_id) → Tables → Type 0
  Post = ResolvedPost c u provider provider_user_id d email [] t

  create_resolved-Ensures :
      (address : Text) → Ensures Post t (create_resolved c u provider provider_user_id d address)
  unfolding Post create_resolved create_user_for_social_sign_in resolve_race
  create_resolved-Ensures address =
      Ensures-bind Post t
        (create_user_for_social_sign_in c u provider provider_user_id d.user address) _
        (Ensures-from_option Q t d.user.token _ refl (λ password drawn.
          Ensures-from_option Q t (c.hash_password password) _ refl (λ hash hashed.
            Ensures-bind Q t (exec_attempt (insert_user (row hash))) _ (
              Ensures-exec_attempt (Then Q _) t (insert_user (row hash)) refl (λ e. raced)
                (λ t' e.
                  let (sessions, identities) = insert_user-some (row hash) t t' e in
                  Ensures-pure Q t' (d.user.id, named)
                    (Ensures-pure Post t' (d.user.id, named, true)
                      (sessions, identities, λ h. absurd (cc h), λ h. absurd (h refl))))))))
    where
      Q : Result Error (Text × Text) → Tables → Type 0
      Q = Then Post (λ (p : Text × Text). pure (p.0, p.1, true))

      named : Text
      named = or_placeholder provider provider_user_id address

      row : Text → UserRow
      row hash = record {
        id = d.user.id;
        email = named;
        password_hash = hash;
        created_at = d.user.now;
        updated_at = d.user.now;
      }

      raced : Ensures Q t (resolve_race c u provider provider_user_id d.user.id named false)
      raced = Ensures-bind Q t (query (by_email named)) _ (
          Ensures-query (Then Q _) t (by_email named) refl (
            Ensures-from_option Q t (by_email named t) _ refl (λ x e.
              Ensures-pure Q t (x.id, named)
                (Ensures-pure Post t (x.id, named, true)
                  (refl, refl, λ h. absurd (cc h), λ h. absurd (h refl))))))

  resolve_anonymous-Ensures :
      (address : Text) → Ensures Post t (resolve_anonymous c u provider provider_user_id d address)
  unfolding Post resolve_anonymous or_create
  resolve_anonymous-Ensures [] = create_resolved-Ensures []
  resolve_anonymous-Ensures (b ∷ address) = Ensures-bind Post t (query (by_email (b ∷ address))) _ (
      Ensures-query (Then Post _) t (by_email (b ∷ address)) refl
        (or_create-Ensures (by_email (b ∷ address) t)))
    where
      or_create-Ensures :
          (o : Option UserRow)
          → Ensures Post t (or_create c u provider provider_user_id d (b ∷ address) o)
      or_create-Ensures none = create_resolved-Ensures (b ∷ address)
      or_create-Ensures (some x) =
          Ensures-pure Post t (x.id, b ∷ address, false)
            (refl, refl, λ h. refl, λ h. absurd (h refl))

module _ (c : Crypto) (u : Unicode) (provider provider_user_id : Text) (d : Draws) (email : Text)
    (t : Tables) where
  resolve-Ensures :
      (address current : Text)
      → Ensures
          (ResolvedPost c u provider provider_user_id d email current t)
          t
          (resolve c u provider provider_user_id d address current)
  unfolding resolve Post
  resolve-Ensures address [] =
      resolve_anonymous-Ensures c u provider provider_user_id d email t address
  resolve-Ensures address (b ∷ current) =
      Ensures-pure (ResolvedPost c u provider provider_user_id d email (b ∷ current) t) t
        (b ∷ current, address, false) (refl, refl, λ h. refl, λ h. (refl, refl))

  sign_in-Ensures :
      (current : Text) (o : Option SocialIdentityRow)
      → identity_of provider provider_user_id t ≡ o
      → Ensures
          (SocialPost provider provider_user_id current t)
          t
          (sign_in c u provider provider_user_id d email current o)
  unfolding sign_in
  sign_in-Ensures current (some r) e =
      sign_in_linked-Ensures c u provider provider_user_id d email current t r e
  sign_in-Ensures current none e =
      Ensures-bind Q t (resolve c u provider provider_user_id d (normalize_email u email) current) _
        (record { at = λ bs. go _ _ ((resolve-Ensures (normalize_email u email) current).at bs) })
    where
      Q : Result Error Outcome → Tables → Type 0
      Q = SocialPost provider provider_user_id current t

      go :
          (r : Result Error (Resolved c u provider provider_user_id)) (t' : Tables)
          → ResolvedPost c u provider provider_user_id d email current t r t'
          → Then Q (link_identity c u provider provider_user_id d) r t'
      go (ok x) t' p =
          link_identity-Ensures c u provider provider_user_id d email current t x t' e p
      go (err x) t' p = absurd p
      go failed t' p = p

  -- A session that LoginOrCreateViaSocial issues is for the account that the provider's identity
  -- belongs to afterwards, and belonged to before where it belonged to one. A caller who is signed
  -- in gets a session of their own account, and never a new account. The one error of the package
  -- is for a caller who is signed in while the identity belongs to another account; then nothing
  -- changes. Where anything else fails no session has been issued.
  pub login_or_create_via_social-Ensures :
      (current : Text)
      → Ensures
          (SocialPost provider provider_user_id current t)
          t
          (login_or_create_via_social c u provider provider_user_id d email current)
  unfolding login_or_create_via_social
  login_or_create_via_social-Ensures current =
      Ensures-bind Q t (query (identity_of provider provider_user_id)) _ (
        Ensures-query (Then Q _) t (identity_of provider provider_user_id) refl
          (sign_in-Ensures current _ refl))
    where
      Q : Result Error Outcome → Tables → Type 0
      Q = SocialPost provider provider_user_id current t
