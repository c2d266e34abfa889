-- ===== src/Oauth.antt =====
-- internal/oauth/storage.go: what the fosite library stores, over the tables of 0002_oauth.sql.
pub mod Rotation
pub mod Once
pub mod Revocation
pub mod RoundTrip
pub mod Keys
pub mod Signing
pub mod Consent
pub mod Provider
pub mod Consenting
pub mod Asking
pub mod ConsentExamples
pub mod Examples
use maubase.Prelude.{
  ℕ, suc, Text, ◌==◌, Bool, true, false, not, ◌&&◌, ◌||◌, Option, none, some, List, [], ◌∷◌, ◌++◌,
  ltb, leb, eqb, if◌then◌else◌, delete, update, first, count, exists,
}
use maubase.Sql.{
  Sql, pure, raise, from_option, or_raise, query, exec_with, guard, exec, exec_checked, ◌>>=◌, ◌>>◌,
}
use maubase.Schema.{Tables, GrantRow, ClientRow, JtiRow}

-- The errors of fosite that the storage returns.
pub data Error : Type 0 where
  not_found inactive_token invalidated_authorize_code jti_known : Error

-- storedRequest: a time, and lists and a form as they are.
pub record StoredRequest : Type 0 where
  pub id : Text
  pub requested_at : ℕ
  pub requested_scope : List Text
  pub granted_scope : List Text
  pub form : List (Text × List Text)
  pub requested_audience : List Text
  pub granted_audience : List Text

-- encoding/json and SQLite's json_extract(session, '$.Subject'). No answer is an error.
pub record Json : Type 0 where
  pub marshal : StoredRequest → Option Text
  pub unmarshal : Text → Option StoredRequest
  pub unmarshal_strings : Text → Option (List Text)
  -- A session that fosite passes is a document already: what json.Marshal makes of it, and what
  -- json.Unmarshal of the second text into the first leaves there.
  pub marshal_session : Text → Option Text
  pub unmarshal_session : Text → Text → Option Text
  pub subject : Text → Option Text

-- fosite.Requester, as far as the storage reads it.
pub record Requester : Type 0 where
  pub stored : StoredRequest
  pub client_id : Text
  pub session : Text

-- fosite.DefaultClient
pub record Client : Type 0 where
  pub id : Text
  pub secret : Text
  pub redirect_uris : List Text
  pub grant_types : List Text
  pub response_types : List Text
  pub scopes : List Text
  pub is_public : Bool

-- fosite.Request; none for a nil session.
pub record Request : Type 0 where
  pub stored : StoredRequest
  pub client : Client
  pub session : Option Text

-- A request, or a request together with the error that says that it is spent.
pub data Lookup : Type 0 where
  live : Request → Lookup
  spent : Request → Error → Lookup

-- The four tables of grants.
pub data Grants : Type 0 where
  authorize_codes access_tokens refresh_tokens pkce_requests : Grants

unfoldable pub rows : Grants → Tables → List GrantRow
rows authorize_codes t = t.authorize_codes
rows access_tokens t = t.access_tokens
rows refresh_tokens t = t.refresh_tokens
rows pkce_requests t = t.pkce_requests

unfoldable pub set_rows : Grants → List GrantRow → Tables → Tables
set_rows authorize_codes xs t = record t { authorize_codes = xs }
set_rows access_tokens xs t = record t { access_tokens = xs }
set_rows refresh_tokens xs t = record t { refresh_tokens = xs }
set_rows pkce_requests xs t = record t { pkce_requests = xs }

abbrev pub oauth_grant_tables : List Grants
oauth_grant_tables = authorize_codes ∷ access_tokens ∷ refresh_tokens ∷ pkce_requests ∷ []

abbrev pub by_signature : Text → GrantRow → Bool
by_signature signature r = r.signature == signature

-- INSERT: the PRIMARY KEY, and the reference to oauth_clients.
unfoldable pub insert_row : Grants → GrantRow → Tables → Option Tables
unfolding rows set_rows
insert_row g r t =
    if exists (by_signature r.signature) (rows g t)
    then none
    else if exists (λ c. c.id == r.client_id) t.clients
    then some (set_rows g (rows g t ++ r ∷ []) t)
    else none

-- deleteByTable
unfoldable pub delete_by : Grants → (GrantRow → Bool) → Sql Tables Error Unit
unfolding rows set_rows
delete_by g p = exec (λ t. set_rows g (delete p (rows g t)) t)

abbrev pub spend : GrantRow → GrantRow
spend r = record r { active = false }

-- UPDATE oauth_refresh_tokens SET active = 0 WHERE signature = ? AND request_id = ? AND active = 1
abbrev pub is_rotated : Text → Text → GrantRow → Bool
is_rotated request_id signature r =
    r.signature == signature && r.request_id == request_id && r.active

unfoldable pub rotate_refresh_token : Text → Text → Sql Tables Error Unit
rotate_refresh_token request_id signature = do
  n ←
      exec_with (λ t. count (is_rotated request_id signature) t.refresh_tokens)
        (λ t. record t {
          refresh_tokens = update (is_rotated request_id signature) spend t.refresh_tokens;
        })
  guard (not (eqb n 0)) inactive_token

unfoldable pub invalidate_authorize_code : Text → Sql Tables Error Unit
invalidate_authorize_code code =
    exec (λ t. record t { authorize_codes = update (by_signature code) spend t.authorize_codes })

unfoldable pub delete_access_token : Text → Sql Tables Error Unit
unfolding delete_by
delete_access_token signature = delete_by access_tokens (by_signature signature)

unfoldable pub delete_refresh_token : Text → Sql Tables Error Unit
unfolding delete_by
delete_refresh_token signature = delete_by refresh_tokens (by_signature signature)

unfoldable pub delete_pkce_request : Text → Sql Tables Error Unit
unfolding delete_by
delete_pkce_request signature = delete_by pkce_requests (by_signature signature)

unfoldable pub revoke_refresh_token : Text → Sql Tables Error Unit
unfolding delete_by
revoke_refresh_token request_id = delete_by refresh_tokens (λ r. r.request_id == request_id)

unfoldable pub revoke_access_token : Text → Sql Tables Error Unit
unfolding delete_by
revoke_access_token request_id = delete_by access_tokens (λ r. r.request_id == request_id)

-- ClientAssertionJWTValid and SetClientAssertionJWT
abbrev pub check_jti : ℕ → Option JtiRow → Sql Tables Error Unit
check_jti now none = pure tt
check_jti now (some r) = guard (ltb r.expires_at now) jti_known

unfoldable pub client_assertion_jwt_valid : ℕ → Text → Sql Tables Error Unit
client_assertion_jwt_valid now jti = do
  found ← query (λ t. first (λ r. r.jti == jti) t.client_jti)
  check_jti now found

unfoldable pub insert_jti : JtiRow → Tables → Option Tables
insert_jti r t =
    if exists (λ x. x.jti == r.jti) t.client_jti
    then none
    else some (record t { client_jti = t.client_jti ++ r ∷ [] })

unfoldable pub set_client_assertion_jwt : ℕ → Text → ℕ → Sql Tables Error Unit
unfolding insert_jti
set_client_assertion_jwt now jti expires_at = do
  exec (λ t. record t { client_jti = delete (λ r. ltb r.expires_at now) t.client_jti })
  exec_checked (insert_jti (record { jti = jti; expires_at = expires_at }))

module _ (j : Json) where
  unfoldable pub decode_client : ClientRow → Option Client
  decode_client c = elim (j.unmarshal_strings c.redirect_uris) [
    | none ↦ none
    | some uris ↦ elim (j.unmarshal_strings c.grant_types) [
      | none ↦ none
      | some grants ↦ elim (j.unmarshal_strings c.response_types) [
        | none ↦ none
        | some responses ↦ elim (j.unmarshal_strings c.scopes) [
          | none ↦ none
          | some scopes ↦ some (record {
            id = c.id;
            secret = c.secret_hash;
            redirect_uris = uris;
            grant_types = grants;
            response_types = responses;
            scopes = scopes;
            is_public = c.is_public;
          })
        ]
      ]
    ]
  ]

  unfoldable pub get_client : Text → Sql Tables Error Client
  unfolding decode_client
  get_client id = do
    found ← query (λ t. first (λ c. c.id == id) t.clients)
    row ← or_raise found not_found
    from_option (decode_client row)

  -- The session that the caller passes, with what the row holds, unless it is nil or the row holds
  -- nothing.
  abbrev pub read_session : Option Text → Text → Option (Option Text)
  read_session none bytes = some none
  read_session (some session) [] = some (some session)
  read_session (some session) (b ∷ bytes) = elim (j.unmarshal_session session (b ∷ bytes)) [
    | none ↦ none
    | some x ↦ some (some x)
  ]

  unfoldable pub hydrate : Option Text → GrantRow → Sql Tables Error Request
  unfolding get_client
  hydrate passed r = do
    stored ← from_option (j.unmarshal r.requester)
    session ← from_option (read_session passed r.session)
    client ← get_client r.client_id
    pure (record { stored = stored; client = client; session = session })

  -- insert
  unfoldable pub create_session : Grants → Text → Requester → Sql Tables Error Unit
  unfolding insert_row
  create_session g signature r = do
    request ← from_option (j.marshal r.stored)
    session ← from_option (j.marshal_session r.session)
    exec_checked (
        insert_row g (record {
          signature = signature;
          request_id = r.stored.id;
          client_id = r.client_id;
          requester = request;
          session = session;
          active = true;
        }))

  -- getByTable
  unfoldable pub get_by_table : Grants → Text → Option Text → Sql Tables Error Request
  unfolding hydrate rows
  get_by_table g signature passed = do
    found ← query (λ t. first (by_signature signature) (rows g t))
    row ← or_raise found not_found
    hydrate passed row

  abbrev pub judge : Bool → Error → Request → Lookup
  judge active e r = if active then live r else spent r e

  -- GetAuthorizeCodeSession and GetRefreshTokenSession, which differ in the table and the error.
  unfoldable pub get_active : Grants → Error → Text → Option Text → Sql Tables Error Lookup
  unfolding hydrate rows
  get_active g e signature passed = do
    found ← query (λ t. first (by_signature signature) (rows g t))
    row ← or_raise found not_found
    request ← hydrate passed row
    pure (judge row.active e request)

  abbrev pub get_authorize_code : Text → Option Text → Sql Tables Error Lookup
  get_authorize_code = get_active authorize_codes invalidated_authorize_code

  abbrev pub get_refresh_token : Text → Option Text → Sql Tables Error Lookup
  get_refresh_token = get_active refresh_tokens inactive_token

  -- json_extract(session, '$.Subject') = ?
  abbrev pub equals : Option Text → Text → Bool
  equals none subject = false
  equals (some s) subject = s == subject

  abbrev pub is_of : Text → GrantRow → Bool
  is_of subject r = equals (j.subject r.session) subject

  -- RevokeForSubject and RevokeForSubjectAndClient: one statement for each table of grants.
  unfoldable pub revoke_where : (GrantRow → Bool) → List Grants → Sql Tables Error Unit
  unfolding delete_by
  revoke_where p [] = pure tt
  revoke_where p (g ∷ gs) = do delete_by g p; revoke_where p gs

  unfoldable pub revoke_for_subject : Text → Sql Tables Error Unit
  unfolding revoke_where
  revoke_for_subject subject = revoke_where (is_of subject) oauth_grant_tables

  unfoldable pub revoke_for_subject_and_client : Text → Text → Sql Tables Error Unit
  unfolding revoke_where
  revoke_for_subject_and_client subject client_id =
      revoke_where (λ r. is_of subject r && r.client_id == client_id) oauth_grant_tables
