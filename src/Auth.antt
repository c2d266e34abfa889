-- ===== src/Auth.antt =====
-- internal/auth/service.go: the customer plane. The token, the ids and the time that a call draws
-- are its Fresh; LoginOrCreateViaSocial draws several of each.
pub mod Social
pub mod Linking
pub mod Resolving
pub mod SignUp
pub mod Sessions
pub mod Linked
pub mod Calls
pub mod Recovery
pub mod Redemption
pub mod Examples
use maubase.Prelude.{
  ℕ, ◌+◌, ◌*◌, Text, codes, ◌==◌, text_leb, Bool, true, false, not, ◌&&◌, ◌||◌, Option, none, some,
  List, [], ◌∷◌, ◌++◌, map, length, take, drop, ltb, leb, if◌then◌else◌, select, delete, update,
  first, count, exists, sort_with,
}
use maubase.Sql.{
  Sql, pure, raise, fail, from_option, or_raise, query, exec_with, transaction, guard, exec,
  exec_checked, exec_unique, exec_attempt, ◌>>=◌, ◌>>◌,
}
use maubase.Schema.{Tables, UserRow, SessionRow, ResetTokenRow, SocialIdentityRow}
use maubase.Email.{Unicode, lower_byte, normalize_email, email_re}
use maubase.Crypto.{Crypto, Fresh}

-- errors.go
pub data Error : Type 0 where
  email_taken invalid_credentials session_not_found weak_password invalid_email : Error
  reset_token_invalid social_identity_linked_elsewhere : Error

pub record User : Type 0 where
  pub id : Text
  pub email : Text
  pub created_at : ℕ
  pub updated_at : ℕ

pub record Session : Type 0 where
  pub id : Text
  pub user_id : Text
  pub token : Text
  pub expires_at : ℕ

pub record SocialIdentity : Type 0 where
  pub provider : Text
  pub email : Text
  pub created_at : ℕ

-- 30 days and one hour, in seconds.
abbrev pub session_ttl : ℕ
session_ttl = 30 * 24 * 3600

abbrev pub reset_token_ttl : ℕ
reset_token_ttl = 3600

abbrev pub to_user : UserRow → User
to_user r = record {
  id = r.id;
  email = r.email;
  created_at = r.created_at;
  updated_at = r.updated_at;
}

-- The constraints of INSERT INTO users: the PRIMARY KEY, and `email` UNIQUE as it is and with ASCII
-- letters folded (COLLATE NOCASE).
abbrev pub fold : Text → Text
fold = map lower_byte

abbrev pub taken : UserRow → UserRow → Bool
taken r x = x.id == r.id || fold x.email == fold r.email

unfoldable pub insert_user : UserRow → Tables → Option Tables
insert_user r t =
    if exists (taken r) t.users then none else some (record t { users = t.users ++ r ∷ [] })

-- The tables that refer to users(id) refuse a row whose account is not there.
abbrev pub has_user : Text → Tables → Bool
has_user id t = exists (λ x. x.id == id) t.users

unfoldable pub insert_session : SessionRow → Tables → Option Tables
insert_session r t =
    if exists (λ s. s.id == r.id || s.token_hash == r.token_hash) t.sessions
    then none
    else if has_user r.user_id t
    then some (record t { sessions = t.sessions ++ r ∷ [] })
    else none

unfoldable pub insert_reset_token : ResetTokenRow → Tables → Option Tables
insert_reset_token r t =
    if exists (λ s. s.id == r.id || s.token_hash == r.token_hash) t.reset_tokens
    then none
    else if has_user r.user_id t
    then some (record t { reset_tokens = t.reset_tokens ++ r ∷ [] })
    else none

-- UNIQUE (provider, provider_user_id)
abbrev pub is_identity : Text → Text → SocialIdentityRow → Bool
is_identity provider provider_user_id r =
    r.provider == provider && r.provider_user_id == provider_user_id

unfoldable pub insert_identity : SocialIdentityRow → Tables → Option Tables
insert_identity r t =
    if exists (λ s. s.id == r.id || is_identity r.provider r.provider_user_id s) t.social_identities
    then none
    else if has_user r.user_id t
    then some (record t { social_identities = t.social_identities ++ r ∷ [] })
    else none

-- DELETE FROM users WHERE id = ?, with ON DELETE CASCADE in the five tables that refer to it.
unfoldable pub delete_user_row : Text → Tables → Tables
delete_user_row id t = record t {
  users = delete (λ x. x.id == id) t.users;
  sessions = delete (λ s. s.user_id == id) t.sessions;
  reset_tokens = delete (λ s. s.user_id == id) t.reset_tokens;
  social_identities = delete (λ s. s.user_id == id) t.social_identities;
  consents = delete (λ s. s.user_id == id) t.consents;
  files = delete (λ f. f.owner_id == id) t.files;
}

-- sessions s JOIN users u ON u.id = s.user_id WHERE s.token_hash = ?
abbrev pub user_of : List UserRow → SessionRow → Option (UserRow × ℕ)
user_of users s = elim (first (λ x. x.id == s.user_id) users) [
  | none ↦ none
  | some x ↦ some (x, s.expires_at)
]

unfoldable pub joined : Text → Tables → Option (UserRow × ℕ)
joined hash t = elim (first (λ s. s.token_hash == hash) t.sessions) [
  | none ↦ none
  | some s ↦ user_of t.users s
]

-- sql.ErrNoRows is wrapped here, like a failure of the driver.
unfoldable pub get_user_by_id : Text → Sql Tables Error User
get_user_by_id id = do
  found ← query (λ t. first (λ x. x.id == id) t.users)
  row ← from_option found
  pure (to_user row)

abbrev pub get_user : Text → Sql Tables Error User
get_user = get_user_by_id

unfoldable pub delete_user : Text → Sql Tables Error Unit
unfolding delete_user_row
delete_user id = exec (delete_user_row id)

-- ORDER BY created_at DESC, id DESC
abbrev pub newer : UserRow → UserRow → Bool
newer x y =
    if ltb y.created_at x.created_at
    then true
    else leb y.created_at x.created_at && text_leb y.id x.id

unfoldable pub list_users : ℕ → ℕ → Sql Tables Error (List User)
list_users limit offset =
    query (λ t. map to_user (take limit (drop offset (sort_with newer t.users))))

unfoldable pub count_users : Sql Tables Error ℕ
count_users = query (λ t. length t.users)

unfoldable pub count_active_sessions : ℕ → Text → Sql Tables Error ℕ
count_active_sessions now user_id =
    query (λ t. count (λ s. s.user_id == user_id && ltb now s.expires_at) t.sessions)

abbrev pub to_identity : SocialIdentityRow → SocialIdentity
to_identity r = record { provider = r.provider; email = r.email; created_at = r.created_at }

unfoldable pub list_social_identities : Text → Sql Tables Error (List SocialIdentity)
list_social_identities user_id = query (λ t. map to_identity (
    sort_with (λ x y. leb y.created_at x.created_at)
      (select (λ s. s.user_id == user_id) t.social_identities)))

abbrev pub is_used : ResetTokenRow → Bool
is_used r = elim (r.used_at) [ none ↦ false | some at ↦ true ]

unfoldable pub count_pending_reset_tokens : ℕ → Text → Sql Tables Error ℕ
count_pending_reset_tokens now user_id = query (λ t.
    count (λ s. s.user_id == user_id && not (is_used s) && ltb now s.expires_at) t.reset_tokens)

unfoldable pub revoke_all_sessions : Text → Sql Tables Error ℕ
revoke_all_sessions user_id =
    exec_with (λ t. count (λ s. s.user_id == user_id) t.sessions)
      (λ t. record t { sessions = delete (λ s. s.user_id == user_id) t.sessions })

unfoldable pub purge_expired_sessions : ℕ → Sql Tables Error ℕ
purge_expired_sessions now =
    exec_with (λ t. count (λ s. leb s.expires_at now) t.sessions)
      (λ t. record t { sessions = delete (λ s. leb s.expires_at now) t.sessions })

unfoldable pub purge_expired_reset_tokens : ℕ → Sql Tables Error ℕ
purge_expired_reset_tokens now =
    exec_with (λ t. count (λ s. leb s.expires_at now || is_used s) t.reset_tokens)
      (λ t. record t {
        reset_tokens = delete (λ s. leb s.expires_at now || is_used s) t.reset_tokens;
      })

module _ (c : Crypto) where
  unfoldable pub create_session : Fresh → Text → Sql Tables Error Session
  unfolding insert_session
  create_session f user_id = do
    token ← from_option f.token
    exec_checked (
        insert_session (record {
          id = f.id;
          user_id = user_id;
          token_hash = c.hash_token token;
          expires_at = f.now + session_ttl;
        }))
    pure (record { id = f.id; user_id = user_id; token = token; expires_at = f.now + session_ttl })

  unfoldable pub validate_session : ℕ → Text → Sql Tables Error User
  unfolding joined
  validate_session now token = do
    found ← query (joined (c.hash_token token))
    (row, expires_at) ← or_raise found session_not_found
    guard (leb now expires_at) session_not_found
    pure (to_user row)

  unfoldable pub logout : Text → Sql Tables Error Unit
  logout token =
      exec
        (λ t. record t { sessions = delete (λ s. s.token_hash == c.hash_token token) t.sessions })

-- The account of an address: WHERE email = ?
abbrev pub by_email : Text → Tables → Option UserRow
by_email email t = first (λ x. x.email == email) t.users

module _ (c : Crypto) (u : Unicode) where
  unfoldable pub sign_up : Fresh → Text → Text → Sql Tables Error User
  unfolding insert_user get_user_by_id
  sign_up f email password = do
    let e = normalize_email u email
    guard (email_re e) invalid_email
    guard (not (ltb (length password) 8)) weak_password
    hash ← from_option (c.hash_password password)
    exec_unique
        (insert_user (record {
          id = f.id;
          email = e;
          password_hash = hash;
          created_at = f.now;
          updated_at = f.now;
        }))
        email_taken
    get_user_by_id f.id

  unfoldable pub login : Fresh → Text → Text → Sql Tables Error Session
  unfolding create_session
  login f email password = do
    let e = normalize_email u email
    found ← query (by_email e)
    row ← or_raise found invalid_credentials
    guard (c.verify_password row.password_hash password) invalid_credentials
    create_session c f row.id

  -- The rest of CreateResetToken, for the account that the address finds.
  unfoldable pub issue_reset_token :
      Fresh → Option UserRow → Sql Tables Error (Option (Text × Text))
  unfolding insert_reset_token
  issue_reset_token f none = pure none
  issue_reset_token f (some x) = do
    token ← from_option f.token
    exec_checked (
        insert_reset_token (record {
          id = f.id;
          user_id = x.id;
          token_hash = c.hash_token token;
          expires_at = f.now + reset_token_ttl;
          used_at = none;
        }))
    pure (some (token, x.id))

  -- (rawToken, userID), or none where `ok` is false.
  unfoldable pub create_reset_token : Fresh → Text → Sql Tables Error (Option (Text × Text))
  unfolding issue_reset_token
  create_reset_token f email = do
    found ← query (by_email (normalize_email u email))
    issue_reset_token f found

-- The three writes of ResetPassword.
abbrev pub set_password : ℕ → Text → UserRow → UserRow
set_password now hash x = record x { password_hash = hash; updated_at = now }

unfoldable pub update_password : ℕ → Text → Text → Tables → Tables
update_password now hash user_id t = record t {
  users = update (λ x. x.id == user_id) (set_password now hash) t.users;
}

abbrev pub use_at : ℕ → ResetTokenRow → ResetTokenRow
use_at now r = record r { used_at = some now }

-- Every token of the account that is not used yet.
unfoldable pub use_tokens : ℕ → Text → Tables → Tables
use_tokens now user_id t = record t {
  reset_tokens = update (λ s. s.user_id == user_id && not (is_used s)) (use_at now) t.reset_tokens;
}

unfoldable pub revoke_sessions : Text → Tables → Tables
revoke_sessions user_id t = record t { sessions = delete (λ s. s.user_id == user_id) t.sessions }

module _ (c : Crypto) where
  unfoldable pub redeem : ℕ → Text → Text → Sql Tables Error Text
  unfolding update_password use_tokens revoke_sessions
  redeem now hash token = do
    found ← query (λ t. first (λ s. s.token_hash == c.hash_token token) t.reset_tokens)
    row ← or_raise found reset_token_invalid
    guard (not (is_used row || ltb row.expires_at now)) reset_token_invalid
    exec (update_password now hash row.user_id)
    exec (use_tokens now row.user_id)
    exec (revoke_sessions row.user_id)
    pure row.user_id

  unfoldable pub reset_password : ℕ → Text → Text → Sql Tables Error Text
  unfolding redeem transaction
  reset_password now token password = do
    guard (not (ltb (length password) 8)) weak_password
    hash ← from_option (c.hash_password password)
    transaction (redeem now hash token)
