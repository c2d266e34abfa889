-- ===== src/Server.antt =====
-- internal/server: the HTTP handlers over the services, without routing and JSON. A handler is a
-- chain over the whole state; an early return is an `err` with the reply.
pub mod World
pub mod Account
pub mod Owners
pub mod Social
pub mod Throttle
pub mod Calls
pub mod Access
pub mod Spares
pub mod Erasure
pub mod Forgotten
pub mod Forgery
pub mod Guessing
pub mod Examples
