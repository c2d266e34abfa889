-- ===== src/OwnerAuth.antt =====
-- internal/ownerauth: the owner plane. Roles are in Roles, the service's methods here.
pub mod Roles
pub mod Team
pub mod Staffed
pub mod Accounts
pub mod Sessions
pub mod Examples
use maubase.Prelude.{
  ℕ, suc, ◌+◌, ◌*◌, ◌≡◌, Text, codes, ◌==◌, Bool, true, false, not, ◌||◌, Option, none, some, List,
  [], ◌∷◌, ◌++◌, map, length, ltb, leb, if◌then◌else◌, select, delete, first, count, exists,
  sort_by,
}
use maubase.Sql.{
  Sql, pure, raise, from_option, or_raise, query, exec_with, transaction, guard, exec, exec_checked,
  exec_unique, ◌>>=◌, ◌>>◌,
}
use maubase.Schema.{Tables, OwnerRow, OwnerSessionRow}
use maubase.Email.{Unicode, lower_byte, normalize_email, email_re}
use maubase.Crypto.{Crypto, Fresh}
use Roles.{Role, owner, is_valid}

-- errors.go
pub data Error : Type 0 where
  email_taken invalid_credentials session_not_found weak_password invalid_email : Error
  invalid_role last_owner already_bootstrapped owner_not_found : Error

pub record Owner : Type 0 where
  pub id : Text
  pub email : Text
  pub role : Role
  pub created_at : ℕ
  pub updated_at : ℕ

pub record Session : Type 0 where
  pub id : Text
  pub owner_id : Text
  pub token : Text
  pub expires_at : ℕ

-- 7 days, in seconds.
abbrev pub session_ttl : ℕ
session_ttl = 7 * 24 * 3600

-- The columns that the code selects and scans.
abbrev pub to_owner : OwnerRow → Owner
to_owner r = record {
  id = r.id;
  email = r.email;
  role = r.role;
  created_at = r.created_at;
  updated_at = r.updated_at;
}

-- COLLATE NOCASE compares with ASCII letters folded.
abbrev pub fold : Text → Text
fold = map lower_byte

-- INSERT INTO owner_users, with the table's PRIMARY KEY and its two UNIQUE indexes on `email`.
abbrev pub taken : OwnerRow → OwnerRow → Bool
taken r o = o.id == r.id || fold o.email == fold r.email

unfoldable pub insert_owner : OwnerRow → Tables → Option Tables
insert_owner r t =
    if exists (taken r) t.owner_users
    then none
    else some (record t { owner_users = t.owner_users ++ r ∷ [] })

-- INSERT INTO owner_sessions: PRIMARY KEY, UNIQUE token_hash, and the reference to owner_users.
unfoldable pub insert_session : OwnerSessionRow → Tables → Option Tables
insert_session r t =
    if exists (λ s. s.id == r.id || s.token_hash == r.token_hash) t.owner_sessions
    then none
    else if exists (λ o. o.id == r.owner_id) t.owner_users
    then some (record t { owner_sessions = t.owner_sessions ++ r ∷ [] })
    else none

-- DELETE FROM owner_users WHERE id = ?, with ON DELETE CASCADE to the sessions.
unfoldable pub delete_owner_row : Text → Tables → Tables
delete_owner_row id t = record t {
  owner_users = delete (λ o. o.id == id) t.owner_users;
  owner_sessions = delete (λ s. s.owner_id == id) t.owner_sessions;
}

-- owner_sessions s JOIN owner_users o ON o.id = s.owner_id WHERE s.token_hash = ?
abbrev pub owner_of : List OwnerRow → OwnerSessionRow → Option (OwnerRow × ℕ)
owner_of users s = elim (first (λ o. o.id == s.owner_id) users) [
  | none ↦ none
  | some o ↦ some (o, s.expires_at)
]

unfoldable pub joined : Text → Tables → Option (OwnerRow × ℕ)
joined hash t = elim (first (λ s. s.token_hash == hash) t.owner_sessions) [
  | none ↦ none
  | some s ↦ owner_of t.owner_users s
]

unfoldable pub get_owner : Text → Sql Tables Error Owner
get_owner id = do
  found ← query (λ t. first (λ o. o.id == id) t.owner_users)
  row ← or_raise found owner_not_found
  pure (to_owner row)

unfoldable pub list_owners : Sql Tables Error (List Owner)
list_owners = query (λ t. map to_owner (sort_by (λ o. o.created_at) t.owner_users))

-- The guard inside DeleteOwner's transaction.
unfoldable pub keep_last_owner : OwnerRow → Sql Tables Error Unit
keep_last_owner target =
    if target.role == owner
    then (do
      n ← query (λ t. count (λ o. o.role == owner) t.owner_users)
      guard (not (leb n 1)) last_owner)
    else pure tt

unfoldable pub delete_owner_body : Text → Sql Tables Error Owner
unfolding keep_last_owner delete_owner_row
delete_owner_body id = do
  found ← query (λ t. first (λ o. o.id == id) t.owner_users)
  target ← or_raise found owner_not_found
  keep_last_owner target
  exec (delete_owner_row id)
  pure (to_owner target)

unfoldable pub delete_owner : Text → Sql Tables Error Owner
unfolding delete_owner_body transaction
delete_owner id = transaction (delete_owner_body id)

unfoldable pub purge_expired_sessions : ℕ → Sql Tables Error ℕ
purge_expired_sessions now =
    exec_with (λ t. count (λ s. leb s.expires_at now) t.owner_sessions)
      (λ t. record t { owner_sessions = delete (λ s. leb s.expires_at now) t.owner_sessions })

module _ (c : Crypto) where
  unfoldable pub create_session : Fresh → Text → Sql Tables Error Session
  unfolding insert_session
  create_session f owner_id = do
    token ← from_option f.token
    exec_checked (
        insert_session (record {
          id = f.id;
          owner_id = owner_id;
          token_hash = c.hash_token token;
          expires_at = f.now + session_ttl;
        }))
    pure
        (record { id = f.id; owner_id = owner_id; token = token; expires_at = f.now + session_ttl })

  unfoldable pub validate_session : ℕ → Text → Sql Tables Error Owner
  unfolding joined
  validate_session now token = do
    found ← query (joined (c.hash_token token))
    (row, expires_at) ← or_raise found session_not_found
    guard (leb now expires_at) session_not_found
    pure (to_owner row)

  unfoldable pub logout : Text → Sql Tables Error Unit
  logout token = exec (λ t. record t {
    owner_sessions = delete (λ s. s.token_hash == c.hash_token token) t.owner_sessions;
  })

module _ (c : Crypto) (u : Unicode) where
  -- createOwner
  unfoldable pub add_owner : Fresh → Text → Text → Role → Sql Tables Error Owner
  unfolding insert_owner get_owner
  add_owner f email password role = do
    let e = normalize_email u email
    guard (email_re e) invalid_email
    guard (not (ltb (length password) 8)) weak_password
    hash ← from_option (c.hash_password password)
    exec_unique
        (insert_owner (record {
          id = f.id;
          email = e;
          password_hash = hash;
          role = role;
          created_at = f.now;
          updated_at = f.now;
        }))
        email_taken
    get_owner f.id

  unfoldable pub create_owner : Fresh → Text → Text → Role → Sql Tables Error Owner
  unfolding add_owner
  create_owner f email password role =
      if is_valid role then add_owner f email password role else raise invalid_role

  unfoldable pub bootstrap : Fresh → Text → Text → Sql Tables Error Owner
  unfolding add_owner
  bootstrap f email password = do
    n ← query (λ t. length t.owner_users)
    guard (not (ltb 0 n)) already_bootstrapped
    add_owner f email password owner

  unfoldable pub login : Fresh → Text → Text → Sql Tables Error Session
  unfolding create_session
  login f email password = do
    let e = normalize_email u email
    found ← query (λ t. first (λ o. o.email == e) t.owner_users)
    row ← or_raise found invalid_credentials
    guard (c.verify_password row.password_hash password) invalid_credentials
    create_session c f row.id
