-- ===== src/Auth/Calls.antt =====
-- Every call of the service keeps accounts and the rows that refer to them together.
use maubase.Prelude.{ℕ, Text, ◌==◌, Bool, true, false, ◌||◌, Option, none, some, List, [], ◌∷◌, leb}
use maubase.Sql.{Db}
use maubase.Sql.Keeps.{Keeps, Keeps-exec, Keeps-exec_with}
use maubase.Schema.{Tables, UserRow, SocialIdentityRow}
use maubase.Email.{Unicode}
use maubase.Crypto.{Crypto, Fresh}
use maubase.Auth.{
  get_user_by_id, delete_user, is_used, revoke_all_sessions, purge_expired_sessions,
  purge_expired_reset_tokens, create_session, logout, sign_up, login, issue_reset_token,
  create_reset_token, redeem, reset_password,
}
use maubase.Auth.Social.{
  Draws, resolve_race, create_user_for_social_sign_in, create_resolved, or_create,
  resolve_anonymous, resolve, link_identity, sign_in_linked, sign_in, login_or_create_via_social,
}
use maubase.Auth.Linked.{
  IsLinked, linked_rules, fewer_sessions, fewer_reset_tokens, delete_user_row-IsLinked,
}

module _ (c : Crypto) where
  create_session-IsLinked : (f : Fresh) (id : Text) → Keeps IsLinked (create_session c f id)
  unfolding create_session
  create_session-IsLinked f id = search linked_rules depth 12

  logout-IsLinked : (token : Text) → Keeps IsLinked (logout c token)
  unfolding logout
  logout-IsLinked token =
      Keeps-exec _ (λ t l. fewer_sessions (λ s. s.token_hash == c.hash_token token) t l)

  redeem-IsLinked : (now : ℕ) (hash token : Text) → Keeps IsLinked (redeem c now hash token)
  unfolding redeem
  redeem-IsLinked now hash token = search linked_rules depth 16

  reset_password-IsLinked :
      (now : ℕ) (token password : Text) → Keeps IsLinked (reset_password c now token password)
  unfolding reset_password
  reset_password-IsLinked now token password = search (linked_rules, redeem-IsLinked) depth 12

delete_user-IsLinked : (id : Text) → Keeps IsLinked (delete_user id)
unfolding delete_user
delete_user-IsLinked id = Keeps-exec _ (λ t l. delete_user_row-IsLinked id t l)

revoke_all_sessions-IsLinked : (id : Text) → Keeps IsLinked (revoke_all_sessions id)
unfolding revoke_all_sessions
revoke_all_sessions-IsLinked id =
    Keeps-exec_with _ _ (λ t l. fewer_sessions (λ s. s.user_id == id) t l)

purge_expired_sessions-IsLinked : (now : ℕ) → Keeps IsLinked (purge_expired_sessions now)
unfolding purge_expired_sessions
purge_expired_sessions-IsLinked now =
    Keeps-exec_with _ _ (λ t l. fewer_sessions (λ s. leb s.expires_at now) t l)

purge_expired_reset_tokens-IsLinked : (now : ℕ) → Keeps IsLinked (purge_expired_reset_tokens now)
unfolding purge_expired_reset_tokens
purge_expired_reset_tokens-IsLinked now =
    Keeps-exec_with _ _ (λ t l. fewer_reset_tokens (λ s. leb s.expires_at now || is_used s) t l)

module _ (c : Crypto) (u : Unicode) where
  sign_up-IsLinked :
      (f : Fresh) (email password : Text) → Keeps IsLinked (sign_up c u f email password)
  unfolding sign_up get_user_by_id
  sign_up-IsLinked f email password = search linked_rules depth 16

  login-IsLinked : (f : Fresh) (email password : Text) → Keeps IsLinked (login c u f email password)
  unfolding login
  login-IsLinked f email password = search (linked_rules, create_session-IsLinked) depth 12

  issue_reset_token-IsLinked :
      (f : Fresh) (o : Option UserRow) → Keeps IsLinked (issue_reset_token c u f o)
  unfolding issue_reset_token
  issue_reset_token-IsLinked f none = search linked_rules
  issue_reset_token-IsLinked f (some x) = search linked_rules depth 12

  create_reset_token-IsLinked :
      (f : Fresh) (email : Text) → Keeps IsLinked (create_reset_token c u f email)
  unfolding create_reset_token
  create_reset_token-IsLinked f email = search (linked_rules, issue_reset_token-IsLinked) depth 12

module _ (c : Crypto) (u : Unicode) (provider provider_user_id : Text) where
  resolve_race-IsLinked :
      (id email : Text) (b : Bool)
      → Keeps IsLinked (resolve_race c u provider provider_user_id id email b)
  unfolding resolve_race
  resolve_race-IsLinked id email true = search linked_rules
  resolve_race-IsLinked id email false = search linked_rules depth 12

  create_resolved-IsLinked :
      (d : Draws) (email : Text)
      → Keeps IsLinked (create_resolved c u provider provider_user_id d email)
  unfolding create_resolved create_user_for_social_sign_in
  create_resolved-IsLinked d email = search (linked_rules, resolve_race-IsLinked) depth 16

  or_create-IsLinked :
      (d : Draws) (email : Text) (o : Option UserRow)
      → Keeps IsLinked (or_create c u provider provider_user_id d email o)
  unfolding or_create
  or_create-IsLinked d email none = create_resolved-IsLinked d email
  or_create-IsLinked d email (some x) = search linked_rules

  resolve_anonymous-IsLinked :
      (d : Draws) (email : Text)
      → Keeps IsLinked (resolve_anonymous c u provider provider_user_id d email)
  unfolding resolve_anonymous
  resolve_anonymous-IsLinked d [] = create_resolved-IsLinked d []
  resolve_anonymous-IsLinked d (b ∷ email) = search (linked_rules, or_create-IsLinked) depth 12

  resolve-IsLinked :
      (d : Draws) (email current : Text)
      → Keeps IsLinked (resolve c u provider provider_user_id d email current)
  unfolding resolve
  resolve-IsLinked d email [] = resolve_anonymous-IsLinked d email
  resolve-IsLinked d email (b ∷ current) = search linked_rules

  sign_in-IsLinked :
      (d : Draws) (email current : Text) (o : Option SocialIdentityRow)
      → Keeps IsLinked (sign_in c u provider provider_user_id d email current o)
  unfolding sign_in sign_in_linked link_identity
  sign_in-IsLinked d email current none =
      search (linked_rules, resolve-IsLinked, create_session-IsLinked) depth 16
  sign_in-IsLinked d email current (some r) =
      search (linked_rules, create_session-IsLinked) depth 16

  social-IsLinked :
      (d : Draws) (email current : Text)
      → Keeps IsLinked (login_or_create_via_social c u provider provider_user_id d email current)
  unfolding login_or_create_via_social
  social-IsLinked d email current = search (linked_rules, sign_in-IsLinked) depth 12

-- The calls that change the tables.
pub data Call : Type 0 where
  signs_up : Fresh → Text → Text → Call
  logs_in : Fresh → Text → Text → Call
  logs_in_social : Text → Text → Draws → Text → Text → Call
  logs_out : Text → Call
  asks_reset : Fresh → Text → Call
  resets : ℕ → Text → Text → Call
  deletes : Text → Call
  revokes : Text → Call
  purges_sessions : ℕ → Call
  purges_tokens : ℕ → Call

module _ (c : Crypto) (u : Unicode) where
  pub step : Call → Db Tables → Db Tables
  step (signs_up f email password) db = (sign_up c u f email password db).1
  step (logs_in f email password) db = (login c u f email password db).1
  step (logs_in_social provider id d email current) db =
      (login_or_create_via_social c u provider id d email current db).1
  step (logs_out token) db = (logout c token db).1
  step (asks_reset f email) db = (create_reset_token c u f email db).1
  step (resets now token password) db = (reset_password c now token password db).1
  step (deletes id) db = (delete_user id db).1
  step (revokes id) db = (revoke_all_sessions id db).1
  step (purges_sessions now) db = (purge_expired_sessions now db).1
  step (purges_tokens now) db = (purge_expired_reset_tokens now db).1

  pub run : List Call → Db Tables → Db Tables
  run [] db = db
  run (call ∷ calls) db = run calls (step call db)

  step-IsLinked :
      (call : Call) (db : Db Tables) → IsLinked db.tables → IsLinked (step call db).tables
  unfolding step
  step-IsLinked (signs_up f email password) db = (sign_up-IsLinked c u f email password).at db
  step-IsLinked (logs_in f email password) db = (login-IsLinked c u f email password).at db
  step-IsLinked (logs_in_social provider id d email current) db =
      (social-IsLinked c u provider id d email current).at db
  step-IsLinked (logs_out token) db = (logout-IsLinked c token).at db
  step-IsLinked (asks_reset f email) db = (create_reset_token-IsLinked c u f email).at db
  step-IsLinked (resets now token password) db =
      (reset_password-IsLinked c now token password).at db
  step-IsLinked (deletes id) db = (delete_user-IsLinked id).at db
  step-IsLinked (revokes id) db = (revoke_all_sessions-IsLinked id).at db
  step-IsLinked (purges_sessions now) db = (purge_expired_sessions-IsLinked now).at db
  step-IsLinked (purges_tokens now) db = (purge_expired_reset_tokens-IsLinked now).at db

  -- From tables with distinct account ids in which every session, reset token, social identity,
  -- consent and row of a file belongs to an account, every sequence of calls, whichever statements
  -- fail, leaves such tables: deleting an account leaves no row of these of it behind, and none is
  -- issued to an account that is not there.
  pub run-IsLinked :
      (calls : List Call) (db : Db Tables) → IsLinked db.tables → IsLinked (run calls db).tables
  unfolding run
  run-IsLinked [] db l = l
  run-IsLinked (call ∷ calls) db l = run-IsLinked calls (step call db) (step-IsLinked call db l)
