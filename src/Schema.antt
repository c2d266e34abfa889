-- ===== src/Schema.antt =====
-- The tables of internal/db/migrations that the modelled parts read and write, as lists of rows in
-- insertion order. A column that no modelled statement reads is left out; so are indexes.
use maubase.Prelude.{ℕ, Text, Bool, Option, List, []}

-- 0001_identity.sql
pub record UserRow : Type 0 where
  pub id : Text
  pub email : Text
  pub password_hash : Text
  pub created_at : ℕ
  pub updated_at : ℕ

pub record SessionRow : Type 0 where
  pub id : Text
  pub user_id : Text
  pub token_hash : Text
  pub expires_at : ℕ

-- 0007
pub record ResetTokenRow : Type 0 where
  pub id : Text
  pub user_id : Text
  pub token_hash : Text
  pub expires_at : ℕ
  pub used_at : Option ℕ

-- 0008
pub record SocialIdentityRow : Type 0 where
  pub id : Text
  pub user_id : Text
  pub provider : Text
  pub provider_user_id : Text
  pub email : Text
  pub created_at : ℕ

-- 0003
pub record OwnerRow : Type 0 where
  pub id : Text
  pub email : Text
  pub password_hash : Text
  pub role : Text
  pub created_at : ℕ
  pub updated_at : ℕ

pub record OwnerSessionRow : Type 0 where
  pub id : Text
  pub owner_id : Text
  pub token_hash : Text
  pub expires_at : ℕ

-- 0002 and 0009: the four tables of grants have these columns. `requester` and `session` are JSON
-- documents; `active` is constant in the two tables without it.
pub record GrantRow : Type 0 where
  pub signature : Text
  pub request_id : Text
  pub client_id : Text
  pub requester : Text
  pub session : Text
  pub active : Bool

pub record ClientRow : Type 0 where
  pub id : Text
  pub client_name : Text
  pub secret_hash : Text
  pub redirect_uris : Text
  pub grant_types : Text
  pub response_types : Text
  pub scopes : Text
  pub is_public : Bool

pub record JtiRow : Type 0 where
  pub jti : Text
  pub expires_at : ℕ

pub record ConsentRow : Type 0 where
  pub user_id : Text
  pub client_id : Text
  pub scopes : List Text

pub record SigningKeyRow : Type 0 where
  pub kid : Text
  pub private_der : Text
  pub is_current : Bool

-- 0004: NULL is `none`.
pub record AuditRow : Type 0 where
  pub id : Text
  pub event : Text
  pub actor_id : Option Text
  pub actor_email : Option Text
  pub target_id : Option Text
  pub target_email : Option Text
  pub metadata : Option Text
  pub created_at : ℕ

-- 0005
pub record FileRow : Type 0 where
  pub id : Text
  pub owner_id : Text
  pub filename : Text
  pub content_type : Text
  pub size_bytes : ℕ
  pub storage_key : Text
  pub created_at : ℕ

pub record Tables : Type 0 where
  pub users : List UserRow
  pub sessions : List SessionRow
  pub reset_tokens : List ResetTokenRow
  pub social_identities : List SocialIdentityRow
  pub owner_users : List OwnerRow
  pub owner_sessions : List OwnerSessionRow
  pub clients : List ClientRow
  pub client_jti : List JtiRow
  pub authorize_codes : List GrantRow
  pub access_tokens : List GrantRow
  pub refresh_tokens : List GrantRow
  pub pkce_requests : List GrantRow
  pub consents : List ConsentRow
  pub signing_keys : List SigningKeyRow
  pub hmac_secret : Option Text
  pub audit_log : List AuditRow
  pub files : List FileRow

abbrev pub no_rows : Tables
no_rows = record {
  users = [];
  sessions = [];
  reset_tokens = [];
  social_identities = [];
  owner_users = [];
  owner_sessions = [];
  clients = [];
  client_jti = [];
  authorize_codes = [];
  access_tokens = [];
  refresh_tokens = [];
  pkce_requests = [];
  consents = [];
  signing_keys = [];
  hmac_secret = Option.none;
  audit_log = [];
  files = [];
}
