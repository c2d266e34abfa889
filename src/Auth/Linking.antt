-- ===== src/Auth/Linking.antt =====
-- LoginOrCreateViaSocial: which account a provider's identity signs in.
use maubase.Prelude.{
  ◌≡◌, ◌≢◌, refl, sym, ap, ◌∙◌, eq_of_some, Text, ◌==◌, eq_refl, eq→path, path→eq, Bool, true,
  false, not, ◌&&◌, ◌||◌, Option, none, some, List, [], ◌∷◌, arith, if◌then◌else◌, Bool-cases, inl,
  inr, first, exists, first-append,
}
use maubase.Sql.{Result, ok, err, failed, Sql, exec_checked, ◌>>=◌}
use maubase.Sql.Ensures.{
  Ensures, Then, Ensures-pure, Ensures-bind, Ensures-from_option, Ensures-guard,
  Ensures-exec_checked,
}
use maubase.Schema.{Tables, SocialIdentityRow}
use maubase.Email.{Unicode}
use maubase.Crypto.{Crypto, Fresh}
use maubase.Auth.{
  Error, social_identity_linked_elsewhere, Session, is_identity, insert_session, insert_identity,
  has_user, create_session,
}
use maubase.Auth.Social.{Draws, Outcome, Resolved, link_identity, is_elsewhere, sign_in_linked}

-- The row of the provider's identity.
abbrev pub identity_of : Text → Text → Tables → Option SocialIdentityRow
identity_of provider provider_user_id t =
    first (is_identity provider provider_user_id) t.social_identities

module _ (provider provider_user_id current : Text) (t : Tables) where
  -- A session was issued: the identity belongs to its account now, and did so before where it
  -- belonged to anyone; a caller who is signed in stays who they are; accounts change only where
  -- the outcome says that one is new, and that only happens to a caller who is not signed in.
  abbrev pub SocialPost : Result Error Outcome → Tables → Type 0
  SocialPost (ok (s, is_new)) t' =
      ((r : SocialIdentityRow) × (identity_of provider provider_user_id t' ≡ some r)
        × (r.user_id ≡ s.user_id))
      × ((r : SocialIdentityRow)
          → identity_of provider provider_user_id t ≡ some r
          → (r.user_id ≡ s.user_id) × (t'.users ≡ t.users))
      × (current ≢ [] → (s.user_id ≡ current) × (is_new ≡ false))
      × (is_new ≡ false → t'.users ≡ t.users)
  SocialPost (err e) t' =
      (t' ≡ t)
      × (e ≡ social_identity_linked_elsewhere)
      × (current ≢ [])
      × ((r : SocialIdentityRow) × (identity_of provider provider_user_id t ≡ some r)
          × (r.user_id ≢ current))
  SocialPost failed t' = t'.sessions ≡ t.sessions

insert_inv :
    {A : Type 0} (clash there : Bool) (x y : A)
    → (if clash then none else if there then some x else none) ≡ some y
    → (clash ≡ false) × (y ≡ x)
insert_inv clash there x y h = ground arith

-- create_session changes the sessions only, and answers a session of the account.
module _ (c : Crypto) (f : Fresh) (id : Text) (t : Tables) where
  abbrev SessionPost : (Session → Tables → Type 0) → Result Error Session → Tables → Type 0
  SessionPost P (ok s) t' = P s t'
  SessionPost P (err e) t' = ⊥
  SessionPost P failed t' = t' ≡ t

  abbrev Issued : Session → Tables → Type 0
  Issued s t' =
      (s.user_id ≡ id) × (t'.users ≡ t.users) × (t'.social_identities ≡ t.social_identities)

  create_session-Ensures : Ensures (SessionPost Issued) t (create_session c f id)
  unfolding create_session insert_session
  create_session-Ensures = Ensures-from_option (SessionPost Issued) t f.token _ refl (λ token drawn.
      Ensures-bind (SessionPost Issued) t (exec_checked _) _ (
        Ensures-exec_checked (Then (SessionPost Issued) _) t _ refl (λ t' e.
          let (free, same) = insert_inv _ (has_user id t) _ t' e in
          Ensures-pure (SessionPost Issued) t' _ (rw same (refl, refl, refl)))))

create_session-then :
    (c : Crypto) (f : Fresh) (id : Text) (t : Tables) (Q : Result Error Outcome → Tables → Type 0)
    (k : Session → Sql Tables Error Outcome)
    → Q failed t
    → ((s : Session) (t' : Tables) → Issued c f id t s t' → Ensures Q t' (k s))
    → Ensures Q t (create_session c f id >>= k)
create_session-then c f id t Q k x h =
    Ensures-bind Q t (create_session c f id) k
      (record { at = λ bs. go _ _ ((create_session-Ensures c f id t).at bs) })
  where
    go :
        (r : Result Error Session) (t' : Tables)
        → SessionPost c f id t (Issued c f id t) r t'
        → Then Q k r t'
    go (ok s) t' p = h s t' p
    go (err e) t' p = absurd p
    go failed t' p = rw p x

not_elsewhere :
    (current linked : Text)
    → not (not (current == []) && not (linked == current)) ≡ true
    → current ≢ []
    → linked ≡ current
not_elsewhere current linked h some_one = elim (Bool-cases (linked == current)) [
  | inl e ↦ eq→path linked current e
  | inr e ↦ elim (Bool-cases (current == [])) [
    | inl g ↦ absurd (some_one (eq→path current [] g))
    | inr g ↦ cc (rw (e, g) at h)
  ]
]

elsewhere :
    (current linked : Text)
    → not (not (current == []) && not (linked == current)) ≡ false
    → (current ≢ []) × (linked ≢ current)
elsewhere current linked h = elim (Bool-cases (linked == current)) [
  | inl e ↦ absurd (both (current == []) (rw e at h))
  | inr e ↦ elim (Bool-cases (current == [])) [
    | inl g ↦ absurd (cc (rw (e, g) at h))
    | inr g ↦ (λ p. cc (g, path→eq current [] p), λ p. cc (e, path→eq linked current p))
  ]
]
  where
    both : (b : Bool) → not (not b && false) ≡ false → ⊥
    both true p = cc p
    both false p = cc p

module _ (c : Crypto) (u : Unicode) (provider provider_user_id : Text) (d : Draws)
    (email current : Text) (t : Tables) where
  pub sign_in_linked-Ensures :
      (r : SocialIdentityRow)
      → identity_of provider provider_user_id t ≡ some r
      → Ensures
          (SocialPost provider provider_user_id current t)
          t
          (sign_in_linked c u provider provider_user_id d current r)
  unfolding sign_in_linked
  sign_in_linked-Ensures r e =
      Ensures-guard Q t (not (is_elsewhere c u provider provider_user_id current r.user_id))
        social_identity_linked_elsewhere _
        (λ bad.
          let (someone, other) = elsewhere current r.user_id bad in
          (refl, refl, someone, (r, e, other)))
        (λ good.
          create_session-then c d.session r.user_id t Q _ refl (λ s t' (mine, users, identities).
            Ensures-pure Q t' (s, false)
              (
                (r, ap (first (is_identity provider provider_user_id)) identities ∙ e, sym mine),
                λ r' e'. (
                  ap (λ (x : SocialIdentityRow). x.user_id) (eq_of_some r' r (sym e' ∙ e))
                      ∙ sym mine,
                  users,
                ),
                λ someone. (mine ∙ not_elsewhere current r.user_id good someone, refl),
                λ h. users,
              )))
    where
      Q : Result Error Outcome → Tables → Type 0
      Q = SocialPost provider provider_user_id current t

  -- An identity that belongs to no one: the account that it is linked to.
  abbrev pub ResolvedPost : Result Error (Resolved c u provider provider_user_id) → Tables → Type 0
  ResolvedPost (ok (id, address, is_new)) t' =
      (t'.sessions ≡ t.sessions)
      × (t'.social_identities ≡ t.social_identities)
      × (is_new ≡ false → t'.users ≡ t.users)
      × (current ≢ [] → (id ≡ current) × (is_new ≡ false))
  ResolvedPost (err e) t' = ⊥
  ResolvedPost failed t' = t'.sessions ≡ t.sessions

  clash_identity :
      (r : SocialIdentityRow) (xs : List SocialIdentityRow)
      → exists (λ s. s.id == r.id || is_identity r.provider r.provider_user_id s) xs ≡ false
      → exists (is_identity r.provider r.provider_user_id) xs ≡ false
  unfolding exists
  clash_identity r [] h = refl
  clash_identity r (x ∷ xs) h = ground (arith, clash_identity r xs)

  insert_identity-some :
      (r : SocialIdentityRow) (t1 t2 : Tables)
      → insert_identity r t1 ≡ some t2
      → (first (is_identity r.provider r.provider_user_id) t2.social_identities ≡ some r)
        × (t2.users ≡ t1.users)
        × (t2.sessions ≡ t1.sessions)
  unfolding insert_identity
  insert_identity-some r t1 t2 h =
      let (free, same) = insert_inv _ (has_user r.user_id t1) _ t2 h in
      rw same (
        first-append (is_identity r.provider r.provider_user_id) t1.social_identities r
            (rw (eq_refl r.provider, eq_refl r.provider_user_id))
            (clash_identity r t1.social_identities free),
        refl,
        refl,
      )

  pub link_identity-Ensures :
      (x : Resolved c u provider provider_user_id) (t1 : Tables)
      → identity_of provider provider_user_id t ≡ none
      → ResolvedPost (ok x) t1
      → Ensures
          (SocialPost provider provider_user_id current t)
          t1
          (link_identity c u provider provider_user_id d x)
  unfolding link_identity
  link_identity-Ensures (id, address, is_new) t1 absent (sessions, identities, users, signed_in) =
      Ensures-bind Q t1 (exec_checked (insert_identity row)) _ (
        Ensures-exec_checked (Then Q _) t1 (insert_identity row) sessions (λ t2 e.
          let (found, users2, sessions2) = insert_identity-some row t1 t2 e in
          create_session-then c d.session id t2 Q _ (sessions2 ∙ sessions)
            (λ s t3 (mine, users3, identities3).
              Ensures-pure Q t3 (s, is_new)
                (
                  (
                    row,
                    ap (first (is_identity provider provider_user_id)) identities3 ∙ found,
                    sym mine,
                  ),
                  λ r' e'. absurd (cc (absent, e')),
                  λ someone. (mine ∙ (signed_in someone).0, (signed_in someone).1),
                  λ h. users3 ∙ users2 ∙ users h,
                ))))
    where
      Q : Result Error Outcome → Tables → Type 0
      Q = SocialPost provider provider_user_id current t

      row : SocialIdentityRow
      row = record {
        id = d.link.id;
        user_id = id;
        provider = provider;
        provider_user_id = provider_user_id;
        email = address;
        created_at = d.link.now;
      }
