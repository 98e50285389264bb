-- ===== src/Auth.antt =====
-- apps/server/src/auth.rs: the browser boundary. `Auth` holds the bound address and the secrets that
-- its mutex guards; an operation on the secrets returns the new secrets and the answer.
-- `Instant::now()` is an argument, one instant for each call, in nanoseconds. `random_token` makes
-- two UUIDs; a token that a call draws is an argument. A request's headers are the answers of
-- `HeaderMap::get` (axum), a parameter.
pub mod Defs
pub mod Requests
pub mod ConstantEq
pub mod Sessions
pub mod Launch
pub mod Limits
pub mod Tickets
mod Tests
