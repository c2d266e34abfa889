-- ===== src/Lib.antt =====
-- maubase is a backend in one process: a Go server over SQLite with accounts of customers
-- (internal/auth), accounts of the team that runs it (internal/ownerauth), an OAuth server
-- (internal/oauth), a REST interface over application tables (internal/restapi), live events
-- (internal/realtime), files (internal/storage), an audit log (internal/audit), migrations
-- (internal/db) and an admin interface (internal/adminui).
--
-- Shared:
--   Prelude  tests on numbers, byte texts (Text), lists, the SQL operations on a list of rows
--            (select, delete, update, first, count, exists), unique keys and maps.
--   Sql      database/sql: a statement is a function from a database to a result and a database. A
--            result is ok, an error value of the package (err), or any other error (failed). The
--            database carries the driver's failures to come, so that a theorem about a call holds
--            whichever of its statements fail. transaction is BeginTx, Commit and the deferred
--            Rollback. internal/db/db.go pins the pool to one connection, so statements and
--            transactions do not interleave inside.
--            Sql/Keeps has the rules for invariants, Sql/Ensures those for what a call ensures of
--            its result and of the tables.
--   Schema   the rows of internal/db/migrations that the modelled statements read or write.
--   Crypto   what the account services take from bcrypt, SHA-256 and the random source, as a
--            parameter, and what a call draws (Fresh: the time, an id, a token).
--   Email    normalizeEmail and emailRe of internal/auth/service.go and
--            internal/ownerauth/service.go. Texts with bytes above 127 are left to a parameter.
--
-- Parts:
--   OwnerAuth  internal/ownerauth/service.go, one function per method (bootstrap, create_owner,
--              login, validate_session, logout, purge_expired_sessions, get_owner, list_owners,
--              delete_owner); Roles is models.go.
--   Auth       internal/auth/service.go, one function per method; Auth/Social is
--              LoginOrCreateViaSocial. The tables' UNIQUE and FOREIGN KEY constraints are part of the
--              insert_ functions, ON DELETE CASCADE of delete_user_row.
--   RateLimit  internal/ratelimit/ratelimit.go.
--   Realtime   internal/realtime/broker.go: connections are numbers in a heap, since Go holds
--              pointers; publish_local is split as the code is, into choosing the recipients under
--              the lock and sending without it.
--   Oauth      internal/oauth/storage.go (the four tables of grants, one function per method; the
--              methods that only name a table are one function with the table as an argument) and,
--              in Oauth/Keys, internal/oauth/keys.go. Oauth/Consent is the consent step of
--              internal/oauth/handlers.go (allow and persist are its body once the user allows,
--              continue_authorize what comes before it) and the scopes of clients.go; Oauth/Provider is
--              what the account pages use of provider.go.
--   Migrate    internal/db/migrate.go. A loop over files returns the names done and how it ended, as the
--              code does. SQLite's effect of a script, SHA-256 and LIKE 'app:%' are parameters. Split
--              is splitMigrationSQL; Versions has Status, VerifyChecksums, resolveVersion and
--              MigrateDirTo.
--   Storage    internal/storage/server.go and backend.go: one function per handler, without HTTP. Not
--              found and an internal error are the two ways to fail. The order of rows that tie in
--              handleList, which SQLite leaves open, is the table's.
--   Numbers    strconv.Atoi.
--   Audit      internal/audit/audit.go: Record is write, and List is list. encoding/json is a parameter.
--   RestApi    internal/restapi: Sqlite has the application's tables and what SQLite does as a
--              parameter, Discovery is registry.go, Statements and Requests the helpers of
--              handlers.go and json.go, RestApi.antt its handlers, Owned account export and
--              erasure, Admin and Tables admin.go. A list's rows are in the table's order, since the
--              source has no ORDER BY; what database/sql binds is a Json value. Rowid tables only;
--              cascades and triggers of application tables are not modelled, nor the reload of the
--              registry during a request.
--   Server     internal/server: World is the whole state (the system tables, the application's tables,
--              the bytes of the files, mails, limiters) and how a handler calls a component; Account
--              is handlers_auth.go, Owners handlers_owner.go and handlers_maintenance.go with the
--              owner plane's routes, Social handlers_social.go, Throttle the limits of server.go. A
--              reply is a status, a session cookie and a body. The system tables and the
--              application's are apart, so that a statement on one does not touch the other.
--   AdminUi    internal/adminui/server.go: Pages has the sign-in, the middleware, the audit log and
--              maintenance, Members and Users the two kinds of accounts, Data the data browser and
--              the creation of a table, Studio SQL Studio with what SQLite makes of a statement as a
--              parameter, and Routes the roles that the pages ask for. A page is what its template
--              is given, less the title, the navigation and the caller; the templates are not
--              modelled.
--
-- Times are numbers of seconds; expires_at and now are compared as instants. All loops are
-- structural recursion, so no definition takes fuel. The JSON and HTTP layers, cookies, the relay
-- between processes and the parts of the system that the list above does not name are not modelled.
pub mod AdminUi
pub mod Audit
pub mod Auth
pub mod Crypto
pub mod Email
pub mod Migrate
pub mod Numbers
pub mod Oauth
pub mod OwnerAuth
pub mod Prelude
pub mod RateLimit
pub mod Realtime
pub mod RestApi
pub mod Schema
pub mod Server
pub mod Sql
pub mod Storage
