-- ===== src/Server/Forgery.antt =====
-- The callback of a social sign-in: forged states, and whose session it gives.
use maubase.Prelude.{
  Text, codes, ◌==◌, ◌≡◌, ◌≢◌, refl, ap, subst, eq→path, path→eq, ◌∙◌, ◌⊎◌, inl, inr, Bool, true,
  not, Option, none, some, List, [], ◌∷◌, Assoc, lookup, &&-left, &&-right,
}
use maubase.Sql.{Result, ok, err, failed, pure}
use maubase.Sql.Ensures.{
  Ensures, Ensures-weaken, Ensures-pure, Ensures-bind, Ensures-or_raise, Ensures-guard,
}
use maubase.Schema.{Tables, AuditRow}
use maubase.Auth.{Error, User, Session, validate_session}
use maubase.Auth.Sessions.{ValidatePost, validate_session_lem}
use maubase.Auth.Social.{Draws, Outcome}
use maubase.Auth.Linking.{SocialPost}
use maubase.Auth.Resolving.{login_or_create_via_social-Ensures}
use maubase.Server.World.{Env, Drawn, Cookie, World, with_tables, Reply, plain, social}
use maubase.Server.Calls.{with_log, Ensures-call, Ensures-settle, Ensures-logged}
use maubase.Server.Social.{
  Identity, Provider, Callback, matches, state_cookie, state_matches, id_or_empty, current_user,
  social_error, sign_in_as, handle_social_callback,
}

matches_inv :
    (state : Text) (o : Option Text)
    → matches state o ≡ true
    → (value : Text) × (o ≡ some value) × (state ≡ value) × (value ≢ [])
matches_inv state none h = absurd (cc h)
matches_inv state (some value) h =
    let same = eq→path state value (&&-right (not (state == [])) (state == value) h) in
    (
      value,
      refl,
      same,
      λ e.
          let full = &&-left (not (state == [])) (state == value) h in
          absurd (cc (full, path→eq state [] (same ∙ e))),
    )

module _ (env : Env) (d : Drawn) (draws : Draws) (redirect : Text) where
  current_user-Same :
      (token : Text) (w : World)
      → Ensures
          (λ r w'. (w' ≡ w) × ((id : Text) × (r ≡ ok id)))
          w
          (current_user env d draws redirect token)
  unfolding current_user
  current_user-Same [] w = Ensures-pure _ w [] (refl, ([], refl))
  current_user-Same (b ∷ token) w =
      Ensures-call Q w (λ v. v.tables) with_tables
        (validate_session env.crypto d.first.now (b ∷ token)) _
        (Ensures-weaken (ValidatePost env.crypto d.first.now (b ∷ token) w.tables) _ w.tables _
          after (validate_session_lem env.crypto d.first.now (b ∷ token) w.tables))
    where
      Q : Result Reply Text → World → Type 0
      Q = λ r w'. (w' ≡ w) × ((id : Text) × (r ≡ ok id))

      after :
          (r : Result Error User) (t' : Tables)
          → ValidatePost env.crypto d.first.now (b ∷ token) w.tables r t'
          → Ensures Q (with_tables t' w) (pure (id_or_empty env d draws redirect r))
      after (ok o) t' (same, h) = rw same (Ensures-pure Q w o.id (refl, (o.id, refl)))
      after (err e) t' (same, h, k) = rw same (Ensures-pure Q w [] (refl, ([], refl)))
      after failed t' same = rw same (Ensures-pure Q w [] (refl, ([], refl)))

  -- The session of the cookie was issued for the provider's identity, as LoginOrCreateViaSocial
  -- does; and nothing but that call and the audit log has changed anything.
  abbrev pub IsSignedIn : Provider → Identity → Text → Reply → World → World → Type 0
  IsSignedIn provider identity current a w w' =
      (s : Session) × (is_new : Bool) × (t' : Tables) × (log : List AuditRow) × (a.cookie
        ≡ Cookie.issued s.token s.expires_at)
      × SocialPost provider.name identity.provider_user_id current w.tables (ok (s, is_new)) t'
      × (w' ≡ with_log log (with_tables t' w))

  abbrev SignInPost : Provider → Identity → Text → World → Result Reply Reply → World → Type 0
  SignInPost provider identity current w (ok a) w' = IsSignedIn provider identity current a w w'
  SignInPost provider identity current w (err a) w' = w'.tables.sessions ≡ w.tables.sessions
  SignInPost provider identity current w failed w' = ⊥

  sign_in_as-Ensures :
      (provider : Provider) (identity : Identity) (current : Text) (w : World)
      → Ensures
          (SignInPost provider identity current w)
          w
          (sign_in_as env d draws redirect provider identity current)
  unfolding sign_in_as
  sign_in_as-Ensures provider identity current w =
      Ensures-call Q w (λ v. v.tables) with_tables _ _
        (Ensures-weaken (SocialPost provider.name identity.provider_user_id current w.tables) _
          w.tables _
          (λ r t' h.
            Ensures-settle Q (with_tables t' w) (social_error env d draws redirect) (plain 500) r _
              (λ e k. ap (λ x. x.sessions) (subst (λ x. Posted x t') k h).0)
              (λ k. subst (λ x. Posted x t') k h)
              (λ (s, is_new) k.
                Ensures-logged env (codes "customer_social_sign_in")
                  (record { id = s.user_id; email = [] }) (record { id = s.user_id; email = [] })
                  (some (social provider.name is_new (not (current == [])))) Q (with_tables t' w) d
                  _
                  (λ log.
                    Ensures-pure Q _ _
                      (s, is_new, t', log, refl, subst (λ x. Posted x t') k h, refl))))
          (login_or_create_via_social-Ensures env.crypto env.unicode provider.name
            identity.provider_user_id draws identity.email w.tables current))
    where
      Q : Result Reply Reply → World → Type 0
      Q = SignInPost provider identity current w

      Posted : Result Error Outcome → Tables → Type 0
      Posted = SocialPost provider.name identity.provider_user_id current w.tables

  -- The state of the query is that of the provider's cookie, and is not empty.
  abbrev pub IsHonest : Text → Callback → Type 0
  IsHonest name q =
      (value : Text) × (state_cookie name q ≡ some value) × (q.state ≡ value) × (value ≢ [])

  abbrev pub CallbackPost :
      Assoc Provider → Text → Callback → World → Result Reply Reply → World → Type 0
  CallbackPost providers name q w (ok a) w' =
      IsHonest name q
      × ((provider : Provider) × (token : Text) × (identity : Identity) × (current : Text) × (lookup
              name providers
            ≡ some provider)
          × (provider.exchange q.code ≡ some token)
          × (provider.fetch_identity token ≡ some identity)
          × IsSignedIn provider identity current a w w')
  CallbackPost providers name q w (err a) w' =
      (w'.tables.sessions ≡ w.tables.sessions) × ((w' ≡ w) ⊎ IsHonest name q)
  CallbackPost providers name q w failed w' = ⊥

  -- The callback of a social sign-in gives a session only where its state is the one in the cookie
  -- of that provider, and is not empty; and then the session is for the account that the identity,
  -- which the provider gave for the code, belongs to, as LoginOrCreateViaSocial resolves it. Where
  -- it answers an error no session has been issued, and with a forged state nothing at all has
  -- changed; whichever statements fail.
  pub handle_social_callback-Ensures :
      (providers : Assoc Provider) (name : Text) (q : Callback) (w : World)
      → Ensures
          (CallbackPost providers name q w)
          w
          (handle_social_callback env d draws redirect providers name q)
  unfolding handle_social_callback
  handle_social_callback-Ensures providers name q w =
      Ensures-or_raise Q w (lookup name providers) (plain 404) _ (λ e. (refl, inl refl))
        (λ provider known.
          Ensures-guard Q w (state_matches name q) (plain 400) _ (λ e. (refl, inl refl))
            (λ honest.
              Ensures-guard Q w (q.denied == []) (plain 400) _ (λ e. (refl, inl refl))
                (λ allowed.
                  Ensures-guard Q w (not (q.code == [])) (plain 400) _ (λ e. (refl, inl refl))
                    (λ coded.
                      Ensures-or_raise Q w (provider.exchange q.code) (plain 502) _
                        (λ e. (refl, inl refl))
                        (λ token exchanged.
                          Ensures-or_raise Q w (provider.fetch_identity token) (plain 502) _
                            (λ e. (refl, inl refl))
                            (λ identity fetched.
                              Ensures-guard Q w (not (identity.provider_user_id == [])) (plain 502)
                                _ (λ e. (refl, inl refl))
                                (λ there. Ensures-bind Q w (current_user env d draws redirect _) _ (
                                  Ensures-weaken _ _ w _
                                    (λ r w' (same, (current, k)).
                                      rw (k, same)
                                        (Ensures-weaken (SignInPost provider identity current w) Q w
                                          _
                                          (finish provider token identity current known exchanged
                                            fetched
                                            (matches_inv q.state (state_cookie name q) honest))
                                          (sign_in_as-Ensures provider identity current w)))
                                    (current_user-Same _ w)))))))))
    where
      Q : Result Reply Reply → World → Type 0
      Q = CallbackPost providers name q w

      finish :
          (provider : Provider) (token : Text) (identity : Identity) (current : Text)
          → lookup name providers ≡ some provider
          → provider.exchange q.code ≡ some token
          → provider.fetch_identity token ≡ some identity
          → IsHonest name q
          → (r : Result Reply Reply) (w' : World) → SignInPost provider identity current w r w'
          → Q r w'
      finish provider token identity current known exchanged fetched honest (ok a) w' h =
          (honest, (provider, token, identity, current, known, exchanged, fetched, h))
      finish provider token identity current known exchanged fetched honest (err a) w' h =
          (h, inr honest)
      finish provider token identity current known exchanged fetched honest failed w' h = h
