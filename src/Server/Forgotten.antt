-- ===== src/Server/Forgotten.antt =====
-- What a caller who forgot a password is told, and what is done.
use maubase.Prelude.{Text, codes, ◌≡◌, refl, ◌⊎◌, inl, inr, Option, none, some, List, [], ◌∷◌, ◌++◌}
use maubase.Sql.{Result, ok, err, failed, exec, pure, ◌>>◌}
use maubase.Sql.Ensures.{Ensures, Then, Ensures-weaken, Ensures-pure, Ensures-bind, Ensures-exec}
use maubase.Schema.{Tables, UserRow, AuditRow}
use maubase.Email.{normalize_email}
use maubase.Auth.{Error, by_email, create_reset_token}
use maubase.Auth.Recovery.{token_row, CreatePost, create_reset_token-Ensures}
use maubase.Server.World.{Env, Drawn, Mail, World, with_tables, Reply, plain, nobody}
use maubase.Server.Calls.{with_log, Ensures-call, Ensures-logged}
use maubase.Server.Account.{handle_forgot_password, send_link, token_issued}

module _ (env : Env) (d : Drawn) (email : Text) (w : World) where
  abbrev account : Option UserRow
  account = by_email (normalize_email env.unicode email) w.tables

  abbrev pub mail_with : Text → Mail
  mail_with token = record {
    to = email;
    subject = codes "Reset your password";
    link = env.password_reset_url ++ codes "?token=" ++ env.escape token;
  }

  -- One mail, with a token that was stored for the address's account.
  abbrev pub IsMailed : World → Type 0
  IsMailed w' =
      (x : UserRow) × (token : Text) × (account ≡ some x)
      × (d.first.token ≡ some token)
      × (w'.mails ≡ w.mails ++ mail_with token ∷ [])
      × (w'.tables.reset_tokens
          ≡ w.tables.reset_tokens
            ++ token_row env.crypto env.unicode d.first email w.tables x.id token ∷ [])

  abbrev pub ForgotPost : Result Reply Reply → World → Type 0
  ForgotPost (ok a) w' =
      (a ≡ plain 204)
      × (w'.tables.users ≡ w.tables.users)
      × (w'.tables.sessions ≡ w.tables.sessions)
      × ((w'.mails ≡ w.mails) ⊎ IsMailed w')
      × (account ≡ none → w' ≡ w)
  ForgotPost (err a) w' = ⊥
  ForgotPost failed w' = ⊥

  -- A link mailed or not, with the token stored.
  mailed :
      (x : UserRow) (token : Text) (log : List AuditRow)
      → account ≡ some x
      → d.first.token ≡ some token
      → Ensures ForgotPost
          (with_log log (
            with_tables
              (record w.tables {
                reset_tokens =
                    w.tables.reset_tokens
                    ++ token_row env.crypto env.unicode d.first email w.tables x.id token ∷ [];
              })
              w))
          (send_link env d email token >> pure (plain 204))
  unfolding send_link
  mailed x token log found drawn = Ensures-bind ForgotPost w1 (send_link env d email token) _ (
      Ensures-call (Then ForgotPost _) w1 (λ v. v.mails) (λ ms v. record v { mails = ms }) (exec _)
        _
        (Ensures-exec {E = Error} _ w1.mails _ (done w1.mails (inl refl))
          (done (w1.mails ++ mail_with token ∷ []) (inr (x, token, found, drawn, refl, refl)))))
    where
      w1 : World
      w1 = with_log log (
          with_tables
            (record w.tables {
              reset_tokens =
                  w.tables.reset_tokens
                  ++ token_row env.crypto env.unicode d.first email w.tables x.id token ∷ [];
            })
            w)

      done :
          (ms : List Mail)
          → (ms ≡ w.mails) ⊎ IsMailed (record w1 { mails = ms })
          → Ensures
              (Then ForgotPost (λ (y : Unit). pure (plain 204)))
              (record w1 { mails = ms })
              (pure tt)
      done ms sent = Ensures-pure _ _ tt (
          Ensures-pure ForgotPost _ (plain 204)
            (refl, refl, refl, sent, λ e. absurd (cc (e, found))))

  -- Asking for a link always answers 204, whether or not the address has an account and whichever
  -- statements fail. At most one mail is sent, to the address as it was typed, and only where the
  -- address names an account, with a token that is then stored for that account; no account and no
  -- session changes, and where the address names no account nothing at all does.
  pub handle_forgot_password-Ensures :
      Ensures ForgotPost w (handle_forgot_password env d (some email))
  unfolding handle_forgot_password
  handle_forgot_password-Ensures =
      Ensures-call ForgotPost w (λ v. v.tables) with_tables
        (create_reset_token env.crypto env.unicode d.first email) _
        (Ensures-weaken (CreatePost env.crypto env.unicode d.first email w.tables) _ w.tables _
          after (create_reset_token-Ensures env.crypto env.unicode d.first email w.tables))
    where
      same_as :
          (t' : Tables) → t' ≡ w.tables → Ensures ForgotPost (with_tables t' w) (pure (plain 204))
      same_as t' same =
          rw same (Ensures-pure ForgotPost w (plain 204) (refl, refl, refl, inl refl, λ e. refl))

      after :
          (r : Result Error (Option (Text × Text))) (t' : Tables)
          → CreatePost env.crypto env.unicode d.first email w.tables r t'
          → Ensures ForgotPost (with_tables t' w) (token_issued env d email r)
      after (ok (some (token, id))) t' (x, found, named, drawn, fresh, same) =
          rw (same, named)
            (Ensures-logged env (codes "customer_password_reset_requested") nobody
              (record { id = x.id; email = email }) none ForgotPost _ d _
              (λ log. mailed x token log found drawn))
      after (ok none) t' (e, same) = same_as t' same
      after (err e) t' h = absurd h
      after failed t' same = same_as t' same
