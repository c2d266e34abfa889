-- ===== src/Server/World.antt =====
-- The state that the handlers of internal/server share, and how a handler calls a component: it
-- runs the component's chain on its part of the state, and then sees its result or its error.
use maubase.Prelude.{ℕ, Text, Bool, Option, none, some, List, [], Assoc}
use maubase.Sql.{Result, ok, err, failed, Sql, pure, raise, ◌>>=◌}
use maubase.Schema.{Tables}
use maubase.Crypto.{Crypto, Fresh}
use maubase.Email.{Unicode}
use maubase.Audit.{Codec, Actor, Target, Entry, write}
use maubase.Auth.{User, SocialIdentity}
use maubase.OwnerAuth.{Owner}
use maubase.Oauth.{Json}
use maubase.Oauth.Provider.{ConsentGrant}
use maubase.RateLimit.{Limiter}
use maubase.Storage.{Shelf, FileMeta}
use maubase.RestApi.Sqlite.{Value, Row, Store}
use maubase.RestApi.Discovery.{Collection, Registry}
use maubase.RestApi.Requests.{Server}

-- The metadata that the handlers give to the audit log.
pub data Meta : Type 0 where
  client_ip role : Text → Meta
  social : Text → Bool → Bool → Meta
  purged : ℕ → ℕ → ℕ → Meta
  revoked : ℕ → Meta
  sql : Text → Bool → Meta

pub record Mail : Type 0 where
  pub to : Text
  pub subject : Text
  pub link : Text

-- The system tables, the application's tables, the bytes of the files, the mails sent, and the
-- limiters.
pub record World : Type 0 where
  pub tables : Tables
  pub data_tables : Store
  pub blobs : Assoc Text
  pub mails : List Mail
  pub login_limiter : Limiter
  pub register_limiter : Limiter
  pub owner_login_limiter : Limiter
  pub ui_login_limiter : Limiter

-- What stands in no table: the parameters of the components, and the configuration. `escape` is
-- url.QueryEscape.
pub record Env : Type 0 where
  pub crypto : Crypto
  pub unicode : Unicode
  pub json : Json
  pub codec : Codec Meta
  pub restapi : Server
  pub registry : Registry
  pub password_reset_url : Text
  pub escape : Text → Text

-- What one request draws: for up to two calls of a service, and for the audit entry.
pub record Drawn : Type 0 where
  pub first : Fresh
  pub second : Fresh
  pub log_id : Text
  pub log_now : ℕ

-- The session cookie of an answer.
pub data Cookie : Type 0 where
  untouched cleared : Cookie
  issued : Text → ℕ → Cookie
  -- The cookie of a state, by its name.
  state : Text → Text → Cookie

-- What a body holds. The text of an error is left out.
pub data Body : Type 0 where
  user_json : User → Body
  expires_at : ℕ → Body
  export : User → Assoc (List Row) → List FileMeta → Body
  consents_json : List ConsentGrant → Body
  owner_json : Owner → Body
  owners_json : List Owner → Body
  entries_json : List (Entry Meta) → Body
  purged_json : ℕ → ℕ → ℕ → Body
  -- Where the answer redirects to.
  location : Text → Body
  -- The pages of the admin UI, with what they show; `page` shows nothing else, and `page_error` is
  -- a page with an error.
  page page_error : Text → Body
  owners_page : Bool → List Owner → Body
  users_page : Bool → List User → ℕ → ℕ → ℕ → Body
  user_page : User → ℕ → List SocialIdentity → ℕ → Body
  collections_page : List Collection → Body
  rows_page : Collection → List Row → ℕ → ℕ → ℕ → Body
  row_page : Text → Collection → Row → Body
  -- A table was created, and the server uses this registry from now on.
  table_created : Text → Registry → Body
  sql_rows : List Text → List (List Value) → Body
  -- Without a registry where loading it failed.
  sql_affected : ℕ → Option Registry → Body

pub record Reply : Type 0 where
  pub status : ℕ
  pub cookie : Cookie
  pub body : Option Body

-- A handler's chain.
abbrev pub Handler : Type 0 → Type 0
Handler A = Sql World Reply A

abbrev pub plain : ℕ → Reply
plain status = record { status = status; cookie = Cookie.untouched; body = none }

abbrev pub with_body : ℕ → Body → Reply
with_body status b = record { status = status; cookie = Cookie.untouched; body = some b }

-- What the client is sent.
abbrev pub answer : Result Reply Reply → Reply
answer (ok a) = a
answer (err a) = a
answer failed = plain 500

-- The table of files is one of the system tables.
abbrev pub shelf : World → Shelf
shelf w = record { users = w.tables.users; files = w.tables.files; blobs = w.blobs }

abbrev pub with_shelf : Shelf → World → World
with_shelf s w = record w { tables = record w.tables { files = s.files }; blobs = s.blobs }

abbrev pub with_tables : Tables → World → World
with_tables t w = record w { tables = t }

abbrev pub with_data : Store → World → World
with_data s w = record w { data_tables = s }

-- Looking at the state, which is no statement.
unfoldable pub look : {A : Type 0} → (World → A) → Handler A
look f db = (ok (f db.tables), db)

-- A part of the handler of which the error is not answered.
unfoldable pub caught : {A : Type 0} → Handler A → Handler (Result Reply A)
caught m db = let (r, db') = m db in (ok r, db')

module _ {E A : Type 0} where
  unfoldable pub run_part :
      {T : Type 0} → (World → T) → (T → World → World) → Sql T E A → Handler (Result E A)
  run_part get set m db =
      let (r, db') = m (record { tables = get db.tables; faults = db.faults }) in
      (ok r, record { tables = set db'.tables db.tables; faults = db'.faults })

  abbrev pub on_tables : Sql Tables E A → Handler (Result E A)
  on_tables = run_part (λ w. w.tables) with_tables

  abbrev pub on_data : Sql Store E A → Handler (Result E A)
  on_data = run_part (λ w. w.data_tables) with_data

  abbrev pub on_shelf : Sql Shelf E A → Handler (Result E A)
  on_shelf = run_part shelf with_shelf

  -- if err != nil { ...; return }
  abbrev pub settle : (E → Reply) → Reply → Result E A → Handler A
  settle of_err other (ok a) = pure a
  settle of_err other (err e) = raise (of_err e)
  settle of_err other failed = raise other

  -- The same where every error is "internal error".
  abbrev pub or_internal : Result E A → Handler A
  or_internal = settle (λ e. plain 500) (plain 500)

abbrev pub nobody : Actor
nobody = record { id = []; email = [] }

abbrev pub nothing : Target
nothing = record { id = []; email = [] }

-- RecordLogged: what becomes of the entry does not matter to the handler.
unfoldable pub record_logged : Env → Drawn → Text → Actor → Target → Option Meta → Handler Unit
unfolding run_part write
record_logged env d event actor target meta = do
  r ← on_tables (write env.codec d.log_id d.log_now event actor target meta)
  pure tt
